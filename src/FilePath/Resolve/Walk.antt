-- ===== src/FilePath/Resolve/Walk.antt =====
-- Where `relative_to` leads.
use rs_io.FilePath.Resolve.{relative_parts, mismatch_parts}
use rs_io.Text.{Text, text_eq, text_eq_sound}
use rs_io.Base.{
  Bool-cases, List, [], ap, arith, drop, false, inl, inr, length, refl, take, take-append-drop,
  ◌++◌, ◌-◌, ◌∙◌, ◌∷◌, ◌≡◌, ◌≤◌,
}

-- The next names differ, or one of the lists has ended.
abbrev pub ForkHere : List Text → List Text → Type 0
ForkHere [] qs = Unit {0}
ForkHere (p ∷ ps) [] = Unit {0}
ForkHere (p ∷ ps) (q ∷ qs) = text_eq p q ≡ false

mismatch-below : (ps qs : List Text) → mismatch_parts ps qs ≤ length ps
mismatch-below [] qs = omega arith
mismatch-below (p ∷ ps) [] = omega arith
mismatch-below (p ∷ ps) (q ∷ qs) = ground (arith, mismatch-below ps qs)

mismatch-front :
    (ps qs : List Text) → take (mismatch_parts ps qs) ps ≡ take (mismatch_parts ps qs) qs
mismatch-front [] qs = refl
mismatch-front (p ∷ ps) [] = refl
mismatch-front (p ∷ ps) (q ∷ qs) = elim (Bool-cases (text_eq p q)) [
  | inl same ↦ rw same (
      ap (λ (r : Text). r ∷ take (mismatch_parts ps qs) ps) (text_eq_sound p q same)
      ∙ ap (◌∷◌ q) (mismatch-front ps qs))
  | inr other ↦ rw other refl
]

mismatch-fork :
    (ps qs : List Text) → ForkHere (drop (mismatch_parts ps qs) ps) (drop (mismatch_parts ps qs) qs)
mismatch-fork [] qs = tt
mismatch-fork (p ∷ ps) [] = tt
mismatch-fork (p ∷ ps) (q ∷ qs) = elim (Bool-cases (text_eq p q)) [
  | inl same ↦ rw same (mismatch-fork ps qs)
  | inr other ↦ rw other other
]

-- The relative path leads from the base to the path: after going up by the number of names that it has for
-- `..`, which is at most that of the base, its other names lead to the path. It goes up no further than
-- needed: where it leaves the base, the next names differ or one of the paths has ended.
pub relative_parts-walk :
    (base this : List Text)
    → let r = relative_parts base this in
      (take (length base - r.0) base ++ r.1 ≡ this)
      × (r.0 ≤ length base)
      × ForkHere (drop (length base - r.0) base) r.1
unfolding relative_parts
relative_parts-walk base this =
    let m = mismatch_parts base this in
    let kept : length base - (length base - m) ≡ m = omega (arith, mismatch-below base this) in
    rw kept (
      ap (λ (ps : List Text). ps ++ drop m this) (mismatch-front base this)
          ∙ take-append-drop m this,
      omega arith,
      mismatch-fork base this,
    )
