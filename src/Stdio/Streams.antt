-- ===== src/Stdio/Streams.antt =====
-- The functions of IoBase over any device that reads and writes a stream in order, in portions of its
-- own choice.
use rs_io.Base.{
  Bool-cases, Option, [], ap, append-nil, append_assoc, arith, if◌then◌else◌, inl, inr, length,
  length-append, none, refl, some, subst, suc, sym, zero, ℕ, ◌++◌, ◌<◌, ◌==◌, ◌∙◌, ◌∷◌, ◌≡◌, ◌≤◌,
}
use rs_io.Text.{Text}
use rs_io.Stdio.Device.{
  Device, block_size, newline, getc, read_line_loop, read_line, read_some, read_all_loop, read_all,
  first_byte,
}

-- A source of bytes: a read takes the front of what is left, at most as much as is asked for, and
-- something if there is something.
pub record Source {ℓ} {S : Type ℓ} (D : Device S) (left : S → Text) : Type ℓ where
  pub reads_front : (s : S) (n : ℕ) → (D.read s n).1 ++ left (D.read s n).0 ≡ left s
  pub reads_at_most : (s : S) (n : ℕ) → length (D.read s n).1 ≤ n
  pub reads_something : (s : S) (n : ℕ) → 0 < n → 0 < length (left s) → 0 < length (D.read s n).1

-- The text up to and with the first newline.
abbrev pub first_line : Text → Text
first_line [] = []
first_line (c ∷ s) = if c == newline then c ∷ [] else c ∷ first_line s

abbrev pub after_line : Text → Text
after_line [] = []
after_line (c ∷ s) = if c == newline then s else after_line s

pub first_line-append-after_line : (s : Text) → first_line s ++ after_line s ≡ s
first_line-append-after_line [] = refl
first_line-append-after_line (c ∷ s) = ground (arith, first_line-append-after_line s)

nil_of_length : (t : Text) → length t ≡ 0 → t ≡ []
nil_of_length [] h = refl
nil_of_length (c ∷ t) h = absurd (omega arith)

module _ {ℓ} {S : Type ℓ} (D : Device S) (left : S → Text) (law : Source D left) where
  -- What a read of one byte gives, by what is left.
  abbrev Byte : Text → S × Option ℕ → Type ℓ
  Byte [] (s, r) = (r ≡ none) × (left s ≡ []) × Unit {ℓ}
  Byte (c ∷ t) (s, r) = (r ≡ some c) × (left s ≡ t) × Unit {ℓ}

  first_byte-Byte :
      (s : S) (got l : Text)
      → got ++ left s ≡ l
      → length got ≤ 1
      → (0 < length l → 0 < length got)
      → Byte l (first_byte D (s, got))
  first_byte-Byte s [] [] e m h = (refl, e, tt)
  first_byte-Byte s [] (c ∷ t) e m h = absurd (omega (arith, h (omega arith)))
  first_byte-Byte s (c ∷ []) [] e m h = absurd (omega (arith, ap length e))
  first_byte-Byte s (c ∷ []) (d ∷ t) e m h = (cc, cc, tt)
  first_byte-Byte s (c ∷ d ∷ got) l e m h = absurd (omega arith)

  getc-Byte : (s : S) → Byte (left s) (getc D s)
  unfolding getc
  getc-Byte s =
      first_byte-Byte (D.read s 1).0 (D.read s 1).1 (left s) (law.reads_front s 1)
        (law.reads_at_most s 1) (law.reads_something s 1 (omega arith))

  -- The result of a loop that ends: a state with `rest` left, and `out`.
  abbrev pub Ends : Option (S × Text) → Text → Text → Type ℓ
  Ends r out rest = (s : S) × (r ≡ some (s, out)) × (left s ≡ rest)

  read_line_loop-Ends :
      (f : ℕ) (s : S) (line l : Text)
      → left s ≡ l
      → length l < f
      → Ends (read_line_loop D f s line) (line ++ first_line l) (after_line l)
  unfolding read_line_loop
  read_line_loop-Ends zero s line l e h = elim h [ ]
  read_line_loop-Ends (suc f) s line [] e h =
      let b : Byte [] (getc D s) = subst (λ t. Byte t (getc D s)) e (getc-Byte s) in
      rw (b.0, read_line_loop)
        ((getc D s).0, ap (λ t. some ((getc D s).0, t)) (sym (append-nil line)), b.1)
  read_line_loop-Ends (suc f) s line (c ∷ l) e h =
      let b : Byte (c ∷ l) (getc D s) = subst (λ t. Byte t (getc D s)) e (getc-Byte s) in
      elim (Bool-cases (c == newline)) [
        | inl last ↦ rw (b.0, read_line_loop, last) ((getc D s).0, refl, b.1)
        | inr more ↦
            rw (b.0, read_line_loop, more, ← append_assoc line (c ∷ []) (first_line l))
              (read_line_loop-Ends f (getc D s).0 (line ++ c ∷ []) l b.1 (omega arith))
      ]

  -- With fuel above what is left, `read_line` ends; it takes the text up to and with the first newline,
  -- or all of it if there is none.
  pub read_line-first :
      (f : ℕ) (s : S)
      → length (left s) < f
      → Ends (read_line D f s) (first_line (left s)) (after_line (left s))
  unfolding read_line
  read_line-first f s h = read_line_loop-Ends f s [] (left s) refl h

  read_all_loop-Ends :
      (f : ℕ) (s : S) (buf : Text)
      → length (left s) < f
      → Ends (read_all_loop D f s buf) (buf ++ left s) []
  unfolding read_all_loop read_some
  read_all_loop-Ends zero s buf h = elim h [ ]
  read_all_loop-Ends (suc f) s buf h =
      let got = (D.read s block_size).1 in
      let s' = (D.read s block_size).0 in
      let e = law.reads_front s block_size in
      let some_read = law.reads_something s block_size (omega arith) in
      let sizes = ap length e in
      elim (Bool-cases (length got == 0)) [
        | inl done ↦
            let all : length (left s) ≡ 0 = ground arith in
            let none_got : length got ≡ 0 = ground arith in
            let g = nil_of_length got none_got in
            let l = nil_of_length (left s) all in
            rw (done, read_all_loop)
              (
                s',
                ap (λ t. some (s', buf ++ t)) (g ∙ sym l),
                ap (λ t. t ++ left s') (sym g) ∙ (e ∙ l),
              )
        | inr more ↦
            rw (more, read_all_loop)
              (let (t, r, z) =
                  read_all_loop-Ends f s' (buf ++ got)
                    (ground (arith, length-append got (left s'))) in
                (
                  t,
                  r ∙ ap (λ o. some (t, o)) (append_assoc buf got (left s') ∙ ap (◌++◌ buf) e),
                  z,
                ))
      ]

  -- With fuel above what is left, `read_all` ends, with all of it.
  pub read_all-all : (f : ℕ) (s : S) → length (left s) < f → Ends (read_all D f s) (left s) []
  unfolding read_all
  read_all-all f s h = read_all_loop-Ends f s [] h
