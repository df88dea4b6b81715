-- ===== src/FilePath/Names.antt =====
-- The path name functions of path.cpp on Posix. A function that returns a text as a path passes it
-- through `canonical`, the conversion of the constructor.
use rs_io.Base.{
  Bool, List, Option, [], drop, false, if◌then◌else◌, is_nil, leb, length, ltb, none, not, some,
  suc, take, ℕ, ◌&&◌, ◌++◌, ◌+◌, ◌-◌, ◌==◌, ◌||◌, ◌∷◌,
}
pub mod Split
use rs_io.Text.{Text, substr, char_at, contains, text_eq}
use rs_io.FilePath.Canonical.{canonical, leading, slash, dot}

-- The errors that are std::invalid_argument.
pub data Error : Type 0 where
  not_absolute no_extension bad_combination : Error

pub data Result (A : Type 0) : Type 0 where
  ok : A → Result A
  err : Error → Result A

-- `find_last_of(c)`
unfoldable pub find_last : ℕ → Text → Option ℕ
find_last c [] = none
find_last c (x ∷ s) = elim (find_last c s) [
  | some i ↦ some (suc i)
  | none ↦ if x == c then some 0 else none
]

unfoldable pub get_root : Text → Text
get_root f = take (leading f) f

-- Where the leaf starts.
unfoldable pub leaf_start : Text → ℕ
leaf_start f = elim (find_last slash f) [ some i ↦ i + 1 | none ↦ 0 ]

unfoldable pub get_leaf : Text → Text
unfolding leaf_start find_last
get_leaf f = drop (leaf_start f) f

-- The position of the dot in front of the extension, if there is one.
unfoldable pub ext_dot : Text → Option ℕ
ext_dot f =
    if ltb (leaf_start f) (length f)
    then elim (find_last dot f) [
      | none ↦ none
      | some i ↦ if leb i (leaf_start f) || leb (length f - 1) i then none else some i
    ]
    else none

abbrev base_ext_at : Text → ℕ → Option ℕ → Text × Text
base_ext_at f start none = (drop start f, [])
base_ext_at f start (some i) = (substr f start (i - start), drop i f)

unfoldable pub get_base_ext : Text → Text × Text
unfolding ext_dot
get_base_ext f = base_ext_at f (leaf_start f) (ext_dot f)

unfoldable pub is_absolute : Text → Bool
is_absolute f = char_at f 0 == slash

unfoldable pub is_relative : Text → Bool
unfolding is_absolute
is_relative f = not (is_nil f) && not (is_absolute f)

unfoldable pub is_leaf : Text → Bool
is_leaf f = not (is_nil f) && not (contains slash f)

unfoldable pub is_root : Text → Bool
unfolding get_root
is_root f = not (is_nil f) && length (get_root f) == length f

pub data Form : Type 0 where
  empty absolute relative drive_absolute drive_relative : Form

unfoldable pub path_form : Text → Form
unfolding is_absolute
path_form f = if is_nil f then empty else if is_absolute f then absolute else relative

-- "file://"
abbrev pub file_scheme : Text
file_scheme = b'f' ∷ b'i' ∷ b'l' ∷ b'e' ∷ b':' ∷ b'/' ∷ b'/' ∷ []

unfoldable pub as_url : Text → Result Text
unfolding is_absolute
as_url f =
    if not (is_absolute f)
    then err not_absolute
    else ok ((if char_at f 0 == slash then file_scheme else file_scheme ++ slash ∷ []) ++ f)

-- The loop of `os_breakdown` behind the root: the text is cut at each delimiter.
unfoldable pub cut_parts : Text → Text → List Text
cut_parts part [] = if is_nil part then [] else part ∷ []
cut_parts part (c ∷ s) =
    let rest = cut_parts [] s in
    let more = cut_parts (part ++ c ∷ []) s in if c == slash then part ∷ rest else more

unfoldable pub os_breakdown : Text → List Text
unfolding get_root cut_parts
os_breakdown f =
    let parts = cut_parts [] (drop (length (get_root f)) f) in
    if is_nil (get_root f) then parts else get_root f ∷ parts

unfoldable pub change_ext : Text → Text → Result Text
unfolding get_root get_base_ext
change_ext f new_ext =
    let prefix = take (length f - length (get_base_ext f).1) f in
    if is_nil f || length (get_root f) == length f
    then err no_extension
    else ok (
        canonical (
          (if not (is_nil new_ext) && not (char_at new_ext 0 == dot)
            then prefix ++ dot ∷ []
            else prefix)
          ++ new_ext))

unfoldable pub split_path : Text → Text × Text
unfolding get_leaf
split_path f = (canonical (take (length f - length (get_leaf f)) f), canonical (get_leaf f))

unfoldable pub split_root : Text → Text × Text
unfolding get_root
split_root f = (canonical (get_root f), canonical (drop (length (get_root f)) f))

-- `back() != '/'`
abbrev pub ends_with_slash : Text → Bool
ends_with_slash [] = false
ends_with_slash (c ∷ []) = c == slash
ends_with_slash (c ∷ d ∷ s) = ends_with_slash (d ∷ s)

unfoldable pub join : Text → Text → Text
unfolding get_root is_absolute
join lhs rhs =
    if is_nil lhs || is_absolute rhs
    then rhs
    else canonical (
        (if ltb (length (get_root lhs)) (length lhs)
            && (not (ends_with_slash lhs) && not (is_nil rhs))
          then lhs ++ slash ∷ []
          else lhs)
        ++ rhs)

-- `join(range)` by `do_combine`
unfoldable pub combine : (Text → Text → Text) → List Text → Text
combine f [] = []
combine f (p ∷ []) = p
combine f (p ∷ q ∷ ps) = combine f (f p q ∷ ps)
