-- ===== src/Text/Decimal.antt =====
-- std::to_string of an unsigned number, and the digits that std::strtoul and std::strtoull read.
use rs_io.Base.{
  Bool, Bool-cases, List, [], ap, arith, if◌then◌else◌, inl, inr, leb, ltb, refl, suc, true, zero,
  ℕ, ◌%◌, ◌&&◌, ◌*◌, ◌++◌, ◌+◌, ◌-◌, ◌/◌, ◌<◌, ◌∙◌, ◌∷◌, ◌≡◌,
}

abbrev pub is_digit : ℕ → Bool
is_digit c = leb b'0' c && leb c b'9'

-- The digits of `n` in front of `acc`. The fuel is above the number of digits.
unfoldable pub to_digits : ℕ → ℕ → List ℕ → List ℕ
to_digits zero n acc = acc
to_digits (suc f) n acc =
    let rest = to_digits f (n / 10) ((48 + n % 10) ∷ acc) in
    if ltb n 10 then (48 + n) ∷ acc else rest

-- `std::to_string(n)`
unfoldable pub to_string : ℕ → List ℕ
unfolding to_digits
to_string n = to_digits (n + 1) n []

-- The loop of strtoul: digits are read until the first other character.
unfoldable pub read_digits : ℕ → List ℕ → ℕ
read_digits acc [] = acc
read_digits acc (c ∷ s) =
    let rest = read_digits (acc * 10 + (c - 48)) s in if is_digit c then rest else acc

-- A digit that is read.
read-digit :
    (m d : ℕ) (s : List ℕ) → d < 10 → read_digits m ((48 + d) ∷ s) ≡ read_digits (m * 10 + d) s
unfolding read_digits
read-digit m d s h = rw seen (ap (λ k. read_digits k s) (omega arith))
  where
    seen : is_digit (48 + d) ≡ true
    seen = ground arith

read-to_digits : (f n : ℕ) (s : List ℕ) → n < f → read_digits 0 (to_digits f n s) ≡ read_digits n s
unfolding to_digits
read-to_digits zero n s h = elim h [ ]
read-to_digits (suc f) n s h = elim (Bool-cases (ltb n 10)) [
  | inl small ↦ rw small (read-digit 0 n s (ground arith) ∙ ap (λ k. read_digits k s) (omega arith))
  | inr large ↦ rw large (
      read-to_digits f (n / 10) ((48 + n % 10) ∷ s) (ground arith)
      ∙ (read-digit (n / 10) (n % 10) s (omega arith) ∙ ap (λ k. read_digits k s) (omega arith)))
]

to_digits-append : (f n : ℕ) (s t : List ℕ) → to_digits f n (s ++ t) ≡ to_digits f n s ++ t
unfolding to_digits
to_digits-append zero n s t = refl
to_digits-append (suc f) n s t = elim (Bool-cases (ltb n 10)) [
  | inl small ↦ rw small
  | inr large ↦ rw large (to_digits-append f (n / 10) ((48 + n % 10) ∷ s) t)
]

-- What stands behind a printed number is read on from that number.
pub read-to_string : (n : ℕ) (s : List ℕ) → read_digits 0 (to_string n ++ s) ≡ read_digits n s
unfolding to_string
read-to_string n s =
    rw (← to_digits-append (n + 1) n [] s) (read-to_digits (n + 1) n s (omega arith))
