-- ===== src/FilePath/Common.antt =====
-- Path::common of path.cpp: the common ancestor of two paths.
use rs_io.Text.{Text, char_at, text_eq}
use rs_io.Base.{
  ==_iff, Bool, Bool-cases, [], ap, arith, if◌then◌else◌, inl, inr, length, ltb, not, refl, suc,
  take, true, zero, ℕ, ◌&&◌, ◌==◌, ◌||◌, ◌∙◌, ◌∷◌, ◌≡◌, ◌≤◌, ◌⊎◌,
}
use rs_io.FilePath.Canonical.{slash, canonical}
use rs_io.FilePath.Names.{get_root}

-- `std::mismatch`: the number of characters that are the same.
unfoldable pub mismatch : Text → Text → ℕ
mismatch [] t = 0
mismatch (x ∷ s) [] = 0
mismatch (x ∷ s) (y ∷ t) = let rest = mismatch s t in if x == y then suc rest else 0

-- `do --cut; while (cut > root && lhs[cut] != '/')`
unfoldable pub back_up : Text → ℕ → ℕ → ℕ
back_up s root zero = 0
back_up s root (suc cut) =
    let rest = back_up s root cut in
    if ltb root cut && not (char_at s cut == slash) then rest else cut

abbrev at_delimiter : Text → ℕ → Bool
at_delimiter s cut = cut == length s || char_at s cut == slash

-- Where the left path is cut, for equal roots of size `root`.
unfoldable pub common_cut : Text → Text → ℕ → ℕ
unfolding mismatch back_up
common_cut lhs rhs root =
    let cut = mismatch lhs rhs in
    if cut == root
    then cut
    else if at_delimiter lhs cut && at_delimiter rhs cut
    then cut
    else back_up lhs root cut

unfoldable pub common : Text → Text → Text
unfolding common_cut get_root
common lhs rhs =
    if text_eq (get_root lhs) (get_root rhs)
    then canonical (take (common_cut lhs rhs (length (get_root lhs))) lhs)
    else []

back_up-below : (s : Text) (root cut : ℕ) → back_up s root cut ≤ cut
unfolding back_up
back_up-below s root zero = omega arith
back_up-below s root (suc cut) = ground (arith, back_up-below s root cut)

common_cut-below : (s t : Text) (root : ℕ) → common_cut s t root ≤ mismatch s t
unfolding common_cut
common_cut-below s t root = ground (arith, back_up-below s root (mismatch s t))

take-mismatch : (s t : Text) (n : ℕ) → n ≤ mismatch s t → take n s ≡ take n t
unfolding mismatch
take-mismatch s t zero h = refl
take-mismatch [] t (suc n) h = absurd (omega arith)
take-mismatch (x ∷ s) [] (suc n) h = absurd (omega arith)
take-mismatch (x ∷ s) (y ∷ t) (suc n) h = elim (Bool-cases (x == y)) [
  | inl e ↦
      ap (λ c. c ∷ take n s) ((==_iff x y).0 e) ∙ ap (◌∷◌ y) (take-mismatch s t n (ground arith))
  | inr e ↦ absurd (ground arith)
]

-- Where the cut stops: at the end of one of the paths or in front of a slash, or at the end of the
-- root or in front of its last character.
back_up-stops :
    (s : Text) (root cut : ℕ)
    → (char_at s (back_up s root cut) ≡ slash) ⊎ (back_up s root cut ≤ root)
unfolding back_up
back_up-stops s root zero = inr (omega arith)
back_up-stops s root (suc cut) = ground (arith, back_up-stops s root cut)

common_cut-stops :
    (s t : Text) (root : ℕ)
    → let n = common_cut s t root in (n ≡ length s) ⊎ ((char_at s n ≡ slash) ⊎ (n ≤ root))
unfolding common_cut
common_cut-stops s t root = ground (arith, back_up-stops s root (mismatch s t))

-- Paths with the same root have as their common path a front of both, made canonical, which ends at a
-- delimiter of the left path or at its end, or is no longer than the root.
common-front :
    (s t : Text)
    → text_eq (get_root s) (get_root t) ≡ true
    → (n : ℕ) × (common s t ≡ canonical (take n s))
      × (take n s ≡ take n t)
      × ((n ≡ length s) ⊎ ((char_at s n ≡ slash) ⊎ (n ≤ length (get_root s))))
unfolding common
common-front s t h =
    let n = common_cut s t (length (get_root s)) in
    rw h (
      n,
      refl,
      take-mismatch s t n (common_cut-below s t (length (get_root s))),
      common_cut-stops s t (length (get_root s)),
    )
