-- ===== src/FilePath/Listing.antt =====
-- The directory iterator of path.cpp, over the names that readdir gives until it fails or ends. The test for
-- valid UTF-8 is a parameter.
use rs_io.FilePath.Resolve.{is_hidden}
use rs_io.FilePath.Names.{join}
use rs_io.FilePath.Canonical.{dot}
use rs_io.Base.{
  Bool, Bool-cases, List, Option, [], ap, arith, false, if◌then◌else◌, inl, inr, length, map, none,
  not, refl, some, suc, sym, zero, ℕ, ◌&&◌, ◌<◌, ◌||◌, ◌∙◌, ◌∷◌, ◌≡◌,
}
use rs_io.Text.{Text, text_eq}

-- The flags that the iterator looks at.
pub record Flags : Type 0 where
  pub no_hidden : Bool
  pub unicode : Bool

-- The tests of `operator++` on a name.
abbrev pub is_listed : (Text → Bool) → Flags → Text → Text → Bool
is_listed is_valid_utf g prefix leaf =
    (not (text_eq leaf (dot ∷ []))
      && (not (text_eq leaf (dot ∷ dot ∷ [])) && (not g.unicode || is_valid_utf leaf)))
    && (not g.no_hidden || not (is_hidden (join prefix leaf)))

-- `operator++`: the path that it stops at, with the names behind it, or the end.
unfoldable pub next : (Text → Bool) → Flags → Text → List Text → Option (Text × List Text)
next is_valid_utf g prefix [] = none
next is_valid_utf g prefix (leaf ∷ leaves) =
    let rest = next is_valid_utf g prefix leaves in
    if is_listed is_valid_utf g prefix leaf then some (join prefix leaf, leaves) else rest

-- The paths of the range. The constructor is given the names that `opendir` leads to, `none` where it
-- fails.
abbrev pub continued : (List Text → List Text) → Option (Text × List Text) → List Text
continued k none = []
continued k (some (path, leaves)) = path ∷ k leaves

abbrev pub walk : (Text → Bool) → Flags → Text → ℕ → List Text → List Text
walk is_valid_utf g prefix zero leaves = []
walk is_valid_utf g prefix (suc f) leaves =
    continued (walk is_valid_utf g prefix f) (next is_valid_utf g prefix leaves)

unfoldable pub directory : (Text → Bool) → Flags → Text → Option (List Text) → List Text
unfolding next
directory is_valid_utf g prefix none = []
directory is_valid_utf g prefix (some leaves) =
    if g.unicode && not (is_valid_utf prefix)
    then []
    else walk is_valid_utf g prefix (suc (length leaves)) leaves

-- The names of a list that are listed.
abbrev listed : (Text → Bool) → List Text → List Text
listed test [] = []
listed test (leaf ∷ leaves) = if test leaf then leaf ∷ listed test leaves else listed test leaves

walk-listed :
    (is_valid_utf : Text → Bool) (g : Flags) (prefix : Text) (f : ℕ) (leaves : List Text)
    → length leaves < f
    → walk is_valid_utf g prefix f leaves
      ≡ map (join prefix) (listed (is_listed is_valid_utf g prefix) leaves)
unfolding next
walk-listed u g prefix zero leaves h = absurd (omega (arith, h))
walk-listed u g prefix (suc f) [] h = refl
walk-listed u g prefix (suc f) (leaf ∷ leaves) h = elim (Bool-cases (is_listed u g prefix leaf)) [
  | inl shown ↦
      let step : next u g prefix (leaf ∷ leaves) ≡ some (join prefix leaf, leaves) =
        rw shown refl in
      let names : listed (is_listed u g prefix) (leaf ∷ leaves)
          ≡ leaf ∷ listed (is_listed u g prefix) leaves =
        rw shown refl in
      ap (continued (walk u g prefix f)) step
      ∙ (ap (◌∷◌ (join prefix leaf)) (walk-listed u g prefix f leaves (omega (arith, h)))
          ∙ ap (map (join prefix)) (sym names))
  | inr skipped ↦
      let step : next u g prefix (leaf ∷ leaves) ≡ next u g prefix leaves = rw skipped refl in
      let names : listed (is_listed u g prefix) (leaf ∷ leaves)
          ≡ listed (is_listed u g prefix) leaves =
        rw skipped refl in
      ap (continued (walk u g prefix f)) step
      ∙ (walk-listed u g prefix (suc f) leaves (omega (arith, h))
          ∙ ap (map (join prefix)) (sym names))
]

-- The range has the paths of the names that pass the tests, in their order, and no other, however many names
-- there are; a directory that cannot be opened has none.
directory-listed :
    (is_valid_utf : Text → Bool) (g : Flags) (prefix : Text) (leaves : List Text)
    → (g.unicode && not (is_valid_utf prefix)) ≡ false
    → (directory is_valid_utf g prefix (some leaves)
        ≡ map (join prefix) (listed (is_listed is_valid_utf g prefix) leaves))
      × (directory is_valid_utf g prefix none ≡ [])
unfolding directory
directory-listed u g prefix leaves h =
    (rw h (walk-listed u g prefix (suc (length leaves)) leaves (omega arith)), refl)
