-- ===== src/Process/Lines.antt =====
-- The lines that TextProcess reads from its buffer.
use rs_io.Process.{read_lines, read_line, continued, first_line}
use rs_io.Text.{Text, char_at, contains, find_at, find_at-first, drop-behind}
use rs_io.Base.{
  Bool, List, [], ap, append_assoc, arith, false, is_nil, length, length-append, ltb, none, refl,
  some, suc, sym, take-length, true, zero, ℕ, ◌++◌, ◌+◌, ◌-◌, ◌<◌, ◌==◌, ◌∙◌, ◌∷◌, ◌≡◌, ◌≢◌,
}

-- A line as a process writes it, with a carriage return in front of the line feed or without.
abbrev pub written : Text × Bool → Text
written (l, true) = l ++ (13 ∷ 10 ∷ [])
written (l, false) = l ++ (10 ∷ [])

abbrev pub output : List (Text × Bool) → Text
output [] = []
output (l ∷ ls) = written l ++ output ls

abbrev pub texts : List (Text × Bool) → List Text
texts [] = []
texts (l ∷ ls) = l.0 ∷ texts ls

-- No line feed in it, and no carriage return at its end unless one is added.
abbrev pub IsLine : Text × Bool → Type 0
IsLine (l, true) = contains 10 l ≡ false
IsLine (l, false) = (contains 10 l ≡ false) × (char_at l (length l - 1) ≢ 13)

abbrev pub AreLines : List (Text × Bool) → Type 0
AreLines [] = Unit {0}
AreLines (l ∷ ls) = IsLine l × AreLines ls

char_at-append : (i : ℕ) (s t : Text) → i < length s → char_at (s ++ t) i ≡ char_at s i
char_at-append i [] t h = absurd (omega (arith, h))
char_at-append zero (c ∷ s) t h = refl
char_at-append (suc i) (c ∷ s) t h = char_at-append i s t (omega (arith, h))

char_at-mid : (c : ℕ) (s t : Text) → char_at (s ++ (c ∷ t)) (length s) ≡ c
char_at-mid c [] t = refl
char_at-mid c (x ∷ s) t = char_at-mid c s t

find_at-none : (i c : ℕ) (s : Text) → contains c s ≡ false → find_at i c s ≡ none
unfolding find_at
find_at-none i c [] h = refl
find_at-none i c (x ∷ s) h = ground (arith, find_at-none (suc i) c s)

filled : (c : ℕ) (s t : Text) → is_nil (s ++ (c ∷ t)) ≡ false
filled c [] t = refl
filled c (x ∷ s) t = refl

read-lf :
    (l rest : Text)
    → contains 10 l ≡ false
    → read_line (l ++ (10 ∷ rest)) ≡ some (first_line (l ++ (10 ∷ rest)) (length l), rest)
unfolding read_line
read-lf l rest h =
    rw (filled 10 l rest, find_at-first 10 l rest h)
      (ap (λ (t : Text). some (first_line (l ++ (10 ∷ rest)) (length l), t))
        (drop-behind 10 l rest))

first-plain :
    (l rest : Text) → char_at l (length l - 1) ≢ 13 → first_line (l ++ (10 ∷ rest)) (length l) ≡ l
first-plain [] rest h = refl
first-plain (c ∷ l) rest h =
    let last = char_at-append (length (c ∷ l) - 1) (c ∷ l) (10 ∷ rest) (omega arith) in
    let no : (char_at (c ∷ l ++ (10 ∷ rest)) (length (c ∷ l) - 1) == 13) ≡ false =
      ground (arith, last, h) in
    let yes : ltb 0 (length (c ∷ l)) ≡ true = ground arith in
    rw (yes, no) (take-length (c ∷ l) (10 ∷ rest))

first-cr : (l rest : Text) (n : ℕ) → n ≡ suc (length l) → first_line (l ++ (13 ∷ 10 ∷ rest)) n ≡ l
first-cr l rest n e =
    let last : n - 1 ≡ length l = omega (arith, e) in
    let yes : ltb 0 n ≡ true = ground (arith, e) in
    rw (yes, last, char_at-mid 13 l (10 ∷ rest)) (take-length l (13 ∷ 10 ∷ rest))

contains-cr : (l : Text) → contains 10 l ≡ false → contains 10 (l ++ (13 ∷ [])) ≡ false
contains-cr [] h = refl
contains-cr (c ∷ l) h = ground (arith, contains-cr l)

read-written :
    (l : Text × Bool) (rest : Text) → IsLine l → read_line (written l ++ rest) ≡ some (l.0, rest)
read-written (l, false) rest (h, k) =
    ap read_line (append_assoc l (10 ∷ []) rest)
    ∙ (read-lf l rest h ∙ ap (λ (t : Text). some (t, rest)) (first-plain l rest k))
read-written (l, true) rest h =
    let shape : (l ++ (13 ∷ 10 ∷ [])) ++ rest ≡ (l ++ (13 ∷ [])) ++ (10 ∷ rest) =
      append_assoc l (13 ∷ 10 ∷ []) rest ∙ sym (append_assoc l (13 ∷ []) (10 ∷ rest)) in
    let size : length (l ++ (13 ∷ [])) ≡ suc (length l) = length-append l (13 ∷ []) ∙ omega arith in
    ap read_line shape
    ∙ (read-lf (l ++ (13 ∷ [])) rest (contains-cr l h)
        ∙ ap (λ (t : Text). some (t, rest))
            (ap (λ (s : Text). first_line s (length (l ++ (13 ∷ []))))
                (append_assoc l (13 ∷ []) (10 ∷ rest))
              ∙ first-cr l rest (length (l ++ (13 ∷ []))) size))

-- What is left behind the last line feed: `read` returns it as it is, if it is not empty.
abbrev pub last_text : Text → List Text
last_text [] = []
last_text (c ∷ t) = (c ∷ t) ∷ []

read-last :
    (f : ℕ) (tail : Text) → contains 10 tail ≡ false → 1 < f → read_lines f tail ≡ last_text tail
unfolding read_line
read-last zero tail h k = absurd (omega (arith, k))
read-last (suc zero) tail h k = absurd (omega (arith, k))
read-last (suc (suc f)) [] h k = refl
read-last (suc (suc f)) (c ∷ t) h k = rw (find_at-none 0 10 (c ∷ t) h) refl

-- If the buffer holds lines, each ended by LF or CR LF and with no other line feed in it, and then a text
-- without a line feed, the calls of `read` until it returns false give the texts of the lines in order, one
-- by each call and without their ends, and then the last text as it is, unless it is empty. A line that is
-- ended by LF alone must not have a carriage return at its end.
pub read_lines-output :
    (ls : List (Text × Bool)) (tail : Text) (f : ℕ)
    → AreLines ls
    → contains 10 tail ≡ false
    → length ls + 1 < f
    → read_lines f (output ls ++ tail) ≡ texts ls ++ last_text tail
unfolding read_line
read_lines-output [] tail f h t k = read-last f tail t (omega (arith, k))
read_lines-output (l ∷ ls) tail zero h t k = absurd (omega (arith, k))
read_lines-output (l ∷ ls) tail (suc f) (h, hs) t k =
    ap (λ (b : Text). continued (read_lines f) (read_line b))
      (append_assoc (written l) (output ls) tail)
    ∙ (ap (continued (read_lines f)) (read-written l (output ls ++ tail) h)
        ∙ ap (◌∷◌ l.0) (read_lines-output ls tail f hs t (omega (arith, k))))
