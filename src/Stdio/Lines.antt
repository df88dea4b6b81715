-- ===== src/Stdio/Lines.antt =====
-- What a LineIterator goes through.
use rs_io.Base.{
  Bool-cases, List, [], ap, arith, false, inl, inr, is_nil, length, length-append, refl, some, suc,
  sym, true, zero, ℕ, ◌++◌, ◌<◌, ◌==◌, ◌∙◌, ◌∷◌, ◌≡◌,
}
use rs_io.Text.{Text}
use rs_io.Stdio.Device.{Device, newline, lines}
use rs_io.Stdio.Streams.{
  Source, first_line, after_line, first_line-append-after_line, read_line-first,
}

abbrev pub concat : List Text → Text
concat [] = []
concat (l ∷ ls) = l ++ concat ls

-- No text is empty, and a newline ends it.
abbrev pub AreLines : List Text → Type 0
AreLines [] = Unit {0}
AreLines (l ∷ ls) = (first_line l ≡ l) × (0 < length l) × AreLines ls

first_line_idem : (t : Text) → first_line (first_line t) ≡ first_line t
first_line_idem [] = refl
first_line_idem (c ∷ t) = elim (Bool-cases (c == newline)) [
  | inl last ↦ rw (last, last)
  | inr more ↦ rw (more, more) (ap (◌∷◌ c) (first_line_idem t))
]

first_line-pos : (t : Text) → 0 < length t → 0 < length (first_line t)
first_line-pos [] h = h
first_line-pos (c ∷ t) h = ground arith

is_nil-pos : (t : Text) → is_nil t ≡ false → 0 < length t
is_nil-pos [] h = cc
is_nil-pos (c ∷ t) h = omega arith

is_nil-eq : (t : Text) → is_nil t ≡ true → t ≡ []
is_nil-eq [] h = refl
is_nil-eq (c ∷ t) h = cc

first_line-nil : (t : Text) → first_line t ≡ [] → t ≡ []
first_line-nil [] h = refl
first_line-nil (c ∷ t) h = ground arith

module _ {ℓ} {S : Type ℓ} (D : Device S) (left : S → Text) (law : Source D left) where
  -- With bounds above what is left, the iterator ends; its lines are not empty, each is ended by its
  -- first newline or by the end of the stream, and joined they are what was left.
  lines-concat :
      (k chars : ℕ) (s : S)
      → length (left s) < k
      → length (left s) < chars
      → (ls : List Text) × (lines D k chars s ≡ some ls) × (concat ls ≡ left s) × AreLines ls
  unfolding lines
  lines-concat zero chars s h hc = elim h [ ]
  lines-concat (suc k) chars s h hc =
      let (s', r, z) = read_line-first D left law chars s hc in
      let whole = first_line-append-after_line (left s) in
      let line = first_line (left s) in
      elim (Bool-cases (is_nil line)) [
        | inl ended ↦
            rw (r, lines, ended)
              ([], refl, sym (first_line-nil (left s) (is_nil-eq line ended)), tt)
        | inr more ↦
            let pos = is_nil-pos line more in
            let sizes = ap length whole in
            let rest_size = ap length z in
            let (ls, e, c, a) =
              lines-concat k chars s' (omega (arith, length-append line (after_line (left s))))
                (omega (arith, length-append line (after_line (left s)))) in
            rw (r, lines, more, e)
              (line ∷ ls, refl, ap (◌++◌ line) (c ∙ z) ∙ whole, (first_line_idem (left s), pos, a))
      ]
