-- ===== src/FilePath/Search.antt =====
-- The iterator of `deep_search`, Path::search_iterator of path.cpp, over the tree that the file system
-- shows it. Each loop takes fuel, and `none` means that the fuel ran out.
pub mod Order
pub mod Visit
use rs_io.Text.{Text}
use rs_io.Base.{
  Bool, List, Option, [], false, if◌then◌else◌, none, not, some, suc, true, zero, ℕ, ◌&&◌, ◌∷◌,
}

-- What the iterator sees of a file: its path; what `is_directory` answers for the flags of the search;
-- what it answers without flags; and what `directory` lists, which follows symbolic links.
mutual
  pub data Node : Type 0 where
    node : Text → Bool → Bool → Forest → Node

  pub data Forest : Type 0 where
    nil : Forest
    cons : Node → Forest → Forest

-- `impl_type`: each range of the stack begins at its current file, the top of the stack first. An empty
-- stack is the end of the search.
pub record Search : Type 0 where
  pub stack : List Forest
  pub revisit : Bool

abbrev pub is_empty : Forest → Bool
is_empty nil = true
is_empty (cons t ts) = false

-- The path at the iterator.
unfoldable pub current : List Forest → Option Text
current [] = none
current (nil ∷ ls) = none
current (cons (node name d plain cs) ts ∷ ls) = some name

abbrev pub enter : List Forest → Forest → Search
enter ls nil = record { stack = ls; revisit = true }
enter ls (cons t ts) = record { stack = cons t ts ∷ ls; revisit = false }

abbrev pub advance : Forest → List Forest → Search
advance nil ls = record { stack = ls; revisit = true }
advance (cons t ts) ls = record { stack = cons t ts ∷ ls; revisit = false }

-- The body of the loop in `operator++`.
abbrev pub body_at : List Forest → Bool → Search
body_at [] r = record { stack = []; revisit = r }
body_at (nil ∷ ls) r = record { stack = nil ∷ ls; revisit = r }
body_at (cons (node name d plain cs) ts ∷ ls) r =
    if d && not r then enter (cons (node name d plain cs) ts ∷ ls) cs else advance ts ls

unfoldable pub body : Search → Search
body s = body_at s.stack s.revisit

abbrev pub is_directory_at : List Forest → Bool
is_directory_at [] = false
is_directory_at (nil ∷ ls) = false
is_directory_at (cons (node name d plain cs) ts ∷ ls) = d

abbrev pub differ : Bool → Bool → Bool
differ true b = not b
differ false b = b

-- The condition of the loop.
unfoldable pub again : Bool → Search → Bool
again bottom_up s = is_directory_at s.stack && differ s.revisit bottom_up

unfoldable pub next : ℕ → Bool → Search → Option Search
unfolding body again
next zero bottom_up s = none
next (suc f) bottom_up s =
    let s' = body s in elim (again bottom_up s') [ true ↦ next f bottom_up s' | false ↦ some s' ]

-- The loop of the constructor that goes down to the first file for `bottom_up`. It ends where a file has
-- nothing listed; its `revisit` is computed without the flags.
unfoldable mutual
  pub descend : Node → Forest → List Forest → Search
  descend (node name d plain cs) ts ls = descend_into cs (cons (node name d plain cs) ts ∷ ls) plain

  pub descend_into : Forest → List Forest → Bool → Search
  descend_into nil ls plain = record { stack = ls; revisit = plain }
  descend_into (cons t ts) ls plain = descend t ts ls

-- The constructor, by what `is_directory` and `directory` answer for the path.
unfoldable pub start : Bool → Bool → Forest → Search
unfolding descend
start bottom_up is_directory nil = record { stack = []; revisit = false }
start bottom_up is_directory (cons t ts) =
    if not is_directory
    then record { stack = []; revisit = false }
    else if bottom_up
    then descend t ts []
    else record { stack = cons t ts ∷ []; revisit = false }

-- The paths from the iterator to the end.
unfoldable pub visit : ℕ → ℕ → Bool → Search → Option (List Text)
unfolding current
visit zero f bottom_up s = none
visit (suc k) f bottom_up s = elim (current s.stack) [
  | none ↦ some []
  | some name ↦ elim (next f bottom_up s) [
    | none ↦ none
    | some s' ↦ elim (visit k f bottom_up s') [ none ↦ none | some names ↦ some (name ∷ names) ]
  ]
]
