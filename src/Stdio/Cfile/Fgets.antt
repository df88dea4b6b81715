-- ===== src/Stdio/Cfile/Fgets.antt =====
-- What a call of fgets takes from a line, and where the text ends in the buffer of Cstdio::read_line.
use rs_io.Base.{
  Bool, Bool-cases, [], ap, arith, drop, false, inl, inr, length, not, refl, replicate, suc, sym,
  true, zero, ℕ, ◌&&◌, ◌++◌, ◌+◌, ◌<◌, ◌==◌, ◌∙◌, ◌∷◌, ◌≡◌,
}
use rs_io.Text.{Text, contains}
use rs_io.Stdio.Device.{newline}
use rs_io.Stdio.Streams.{first_line, after_line}
use rs_io.Stdio.Cfile.{fgets_line, text_end}

-- No byte of the text is zero.
abbrev pub no_nul : Text → Bool
no_nul [] = true
no_nul (c ∷ s) = not (c == 0) && no_nul s

text_end-zeros : (k : ℕ) → text_end (replicate k 0) ≡ 0
unfolding text_end
text_end-zeros zero = refl
text_end-zeros (suc k) = rw (text_end-zeros k) refl

pub text_end-filled :
    (s : Text) (k : ℕ) → no_nul s ≡ true → text_end (s ++ replicate k 0) ≡ length s
unfolding text_end
text_end-filled [] k h = text_end-zeros k
text_end-filled (c ∷ s) k h = ground (arith, text_end-filled s k)

pub text_end-append : (s t : Text) → 0 < text_end t → text_end (s ++ t) ≡ length s + text_end t
unfolding text_end
text_end-append [] t h = omega arith
text_end-append (c ∷ s) t h = ground (arith, text_end-append s t h)

fgets-newline : (n c : ℕ) (s : Text) → c == newline ≡ true → fgets_line (suc n) (c ∷ s) ≡ c ∷ []
unfolding fgets_line
fgets-newline n c s h = rw h refl

fgets-other :
    (n c : ℕ) (s : Text) → c == newline ≡ false → fgets_line (suc n) (c ∷ s) ≡ c ∷ fgets_line n s
unfolding fgets_line
fgets-other n c s h = rw h refl

contains-other :
    (c : ℕ) (s : Text) → c == newline ≡ false → contains newline (c ∷ s) ≡ contains newline s
contains-other c s h = rw h refl

first_line-other : (c : ℕ) (s : Text) → c == newline ≡ false → first_line (c ∷ s) ≡ c ∷ first_line s
first_line-other c s h = rw h refl

after_line-other : (c : ℕ) (s : Text) → c == newline ≡ false → after_line (c ∷ s) ≡ after_line s
after_line-other c s h = rw h refl

-- A call of fgets that gets a newline gets the rest of the line.
pub fgets_last :
    (n : ℕ) (s : Text)
    → contains newline (fgets_line n s) ≡ true
    → (fgets_line n s ≡ first_line s) × (drop (length (fgets_line n s)) s ≡ after_line s)
unfolding fgets_line
fgets_last zero s h = absurd cc
fgets_last (suc n) [] h = absurd cc
fgets_last (suc n) (c ∷ s) h = elim (Bool-cases (c == newline)) [
  | inl last ↦ rw last (refl, refl)
  | inr more ↦
      let e = fgets-other n c s more in
      let (line, rest) =
        fgets_last n s
          (sym (contains-other c (fgets_line n s) more) ∙ (ap (contains newline) (sym e) ∙ h)) in
      (
        e ∙ (ap (λ (t : Text). c ∷ t) line ∙ sym (first_line-other c s more)),
        ap (λ (t : Text). drop (length t) (c ∷ s)) e ∙ (rest ∙ sym (after_line-other c s more)),
      )
]

true-false : true ≡ false → ⊥
true-false h = absurd cc

-- A call that gets none, of a line that has one, gets as much of the line as there is room for.
pub record Partial (n : ℕ) (s : Text) : Type 0 where
  pub full : length (fgets_line n s) ≡ n
  pub front : first_line s ≡ fgets_line n s ++ first_line (drop n s)
  pub rest : after_line s ≡ after_line (drop n s)
  pub ahead : contains newline (drop n s) ≡ true

pub fgets_more :
    (n : ℕ) (s : Text)
    → contains newline s ≡ true
    → contains newline (fgets_line n s) ≡ false
    → Partial n s
unfolding fgets_line
fgets_more zero s h k = record { full = refl; front = refl; rest = refl; ahead = h }
fgets_more (suc n) [] h k = absurd cc
fgets_more (suc n) (c ∷ s) h k = elim (Bool-cases (c == newline)) [
  | inl last ↦
      let found : contains newline (c ∷ []) ≡ true = rw last refl in
      absurd (true-false (sym found ∙ (ap (contains newline) (sym (fgets-newline n c s last)) ∙ k)))
  | inr more ↦
      let e = fgets-other n c s more in
      let p =
        fgets_more n s (sym (contains-other c s more) ∙ h)
          (sym (contains-other c (fgets_line n s) more) ∙ (ap (contains newline) (sym e) ∙ k)) in
      record {
        full = ap length e ∙ ap suc p.full;
        front =
            first_line-other c s more
            ∙ (ap (λ (t : Text). c ∷ t) p.front
                ∙ ap (λ (t : Text). t ++ first_line (drop n s)) (sym e));
        rest = after_line-other c s more ∙ p.rest;
        ahead = p.ahead;
      }
]
