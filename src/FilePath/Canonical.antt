-- ===== src/FilePath/Canonical.antt =====
-- make_canonical of path.cpp on Posix, step by step: every path is made by it. A path is the text of
-- its field `filename_`.
use rs_io.Base.{
  Bool, Option, [], drop, false, if◌then◌else◌, length, ltb, max, none, not, reverse, some, suc,
  take, ℕ, ◌&&◌, ◌++◌, ◌-◌, ◌==◌, ◌||◌, ◌∷◌,
}
use rs_io.Text.{Text, contains}

abbrev pub slash : ℕ
slash = b'/'

abbrev pub dot : ℕ
dot = b'.'

-- `find_first_not_of('/')`, or the size if there is no other character. It is also the size of
-- `get_root`.
unfoldable pub leading : Text → ℕ
leading [] = 0
leading (c ∷ s) = if c == slash then suc (leading s) else 0

-- "Trim redundant leading slashes": one is kept.
unfoldable pub trim_leading : Text → Text
trim_leading s = if ltb 1 (leading s) then drop (leading s - 1) s else s

-- "Replace /./ with /": after an erasure the search goes on from the same position.
unfoldable pub remove_dots : Text → Text
remove_dots [] = []
remove_dots (a ∷ []) = a ∷ []
remove_dots (a ∷ b ∷ []) = a ∷ b ∷ []
remove_dots (a ∷ b ∷ c ∷ s) =
    let rest = remove_dots (c ∷ s) in
    let next = a ∷ remove_dots (b ∷ c ∷ s) in
    if a == slash && (b == dot && c == slash) then rest else next

-- The loop of "Replace multiple slashes with one".
unfoldable pub squeeze : Text → Text
squeeze [] = []
squeeze (a ∷ []) = a ∷ []
squeeze (a ∷ b ∷ s) =
    let rest = squeeze (b ∷ s) in if a == slash && b == slash then rest else a ∷ rest

-- The loop begins behind the leading slashes.
unfoldable pub merge_slashes : Text → Text
merge_slashes s = take (leading s) s ++ squeeze (drop (leading s) s)

-- The test of the last loop on a reversed text.
abbrev pub is_trailing : Text → Bool
is_trailing [] = false
is_trailing (c ∷ []) = c == slash
is_trailing (c ∷ d ∷ s) = c == slash || c == dot && d == slash

-- "Trim trailing / and /.", on a reversed text that keeps at least `n` characters.
unfoldable pub trim_back : ℕ → Text → Text
trim_back n [] = []
trim_back n (c ∷ s) =
    let rest = trim_back n s in
    if ltb n (suc (length s)) && is_trailing (c ∷ s) then rest else c ∷ s

unfoldable pub trim_trailing : Text → Text
trim_trailing s = reverse (trim_back (max (leading s) 1) (reverse s))

-- `make_canonical` without the validation.
unfoldable pub canonical : Text → Text
canonical s = trim_trailing (merge_slashes (remove_dots (trim_leading s)))

-- `is_legal`
unfoldable pub is_legal : Text → Bool
is_legal s = not (contains 0 s)

-- `Path(file, flags)`; with `legal_name` an illegal name is an error, `none`.
unfoldable pub make : Text → Bool → Option Text
make s legal_name = if legal_name && not (is_legal (canonical s)) then none else some (canonical s)
