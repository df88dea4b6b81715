-- ===== src/Text.antt =====
-- The operations of std::string that the sources use, on texts as lists of bytes. A position past
-- the end, for which std::string throws, is used by no caller here.
pub mod Decimal
use rs_io.Base.{
  ==_iff, Bool, List, Option, [], ap, arith, drop, drop-length, false, get_or, if◌then◌else◌,
  length, none, refl, some, suc, take, take-length, true, ℕ, ◌&&◌, ◌++◌, ◌+◌, ◌==◌, ◌||◌, ◌∙◌, ◌∷◌,
  ◌≡◌,
}

-- `std::string`, by its bytes.
abbrev pub Text : Type 0
Text = List ℕ

-- `s.substr(pos, n)`, where `n` is cut off at the end of the text.
abbrev pub substr : Text → ℕ → ℕ → Text
substr s pos n = take n (drop pos s)

-- `s.replace(pos, n, t)`
abbrev pub replace : Text → ℕ → ℕ → Text → Text
replace s pos n t = take pos s ++ (t ++ drop n (drop pos s))

-- `s[i]`, which is the terminating zero at the end.
abbrev pub char_at : Text → ℕ → ℕ
char_at s i = get_or s i 0

-- `s.find(c) != npos`
abbrev pub contains : ℕ → Text → Bool
contains c [] = false
contains c (x ∷ s) = x == c || contains c s

-- `s == t`
abbrev pub text_eq : Text → Text → Bool
text_eq [] [] = true
text_eq [] (y ∷ t) = false
text_eq (x ∷ s) [] = false
text_eq (x ∷ s) (y ∷ t) = x == y && text_eq s t

pub text_eq_sound : (s t : Text) → text_eq s t ≡ true → s ≡ t
text_eq_sound [] [] h = refl
text_eq_sound [] (y ∷ t) h = absurd cc
text_eq_sound (x ∷ s) [] h = absurd cc
text_eq_sound (x ∷ s) (y ∷ t) h =
    ap (λ (c : ℕ). c ∷ s) ((==_iff x y).0 (ground arith))
    ∙ ap (◌∷◌ y) (text_eq_sound s t (ground arith))

-- The middle segment of three is replaced, whatever stands around it.
pub replace_mid :
    (l m r t : Text) (s : Text) (pos n : ℕ)
    → s ≡ l ++ (m ++ r)
    → pos ≡ length l
    → n ≡ length m
    → replace s pos n t ≡ l ++ (t ++ r)
replace_mid l m r t s pos n e p q =
    simp (e, p, q, take-length l (m ++ r), drop-length l (m ++ r), drop-length m r)

-- The middle segment of three is cut out.
pub substr_mid :
    (l m r : Text) (s : Text) (pos n : ℕ)
    → s ≡ l ++ (m ++ r)
    → pos ≡ length l
    → n ≡ length m
    → substr s pos n ≡ m
substr_mid l m r s pos n e p q = simp (e, p, q, drop-length l (m ++ r), take-length m r)

-- `s.find(c)` from a position, counted from the start of the text.
unfoldable pub find_at : ℕ → ℕ → Text → Option ℕ
find_at i c [] = none
find_at i c (x ∷ s) = if x == c then some i else find_at (i + 1) c s

find_at-append :
    (i c : ℕ) (s t : Text) → contains c s ≡ false → find_at i c (s ++ (c ∷ t)) ≡ some (i + length s)
unfolding find_at
find_at-append i c [] t h = ground arith
find_at-append i c (x ∷ s) t h =
    let rest : find_at (i + 1) c (s ++ (c ∷ t)) ≡ some (i + suc (length s)) =
      find_at-append (i + 1) c s t (ground arith) ∙ ap some (omega arith) in
    ground (arith, rest)

pub find_at-first :
    (c : ℕ) (s t : Text) → contains c s ≡ false → find_at 0 c (s ++ (c ∷ t)) ≡ some (length s)
find_at-first c s t h = find_at-append 0 c s t h ∙ ap some (omega arith)

-- What stands behind a text and one more character.
pub drop-behind : (c : ℕ) (s t : Text) → drop (length s + 1) (s ++ (c ∷ t)) ≡ t
drop-behind c [] t = refl
drop-behind c (x ∷ s) t =
    let e : suc (length s) + 1 ≡ suc (length s + 1) = omega arith in rw e (drop-behind c s t)
