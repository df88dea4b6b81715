-- ===== src/FilePath/Resolve.antt =====
-- `relative_to`, `resolve`, `is_hidden` and `get_user_home` of path.cpp. The environment and the user data base
-- are parameters.
pub mod Walk
pub mod Again
use rs_io.FilePath.Canonical.{canonical, dot, slash}
use rs_io.Text.{Text, substr, text_eq, char_at, find_at}
use rs_io.FilePath.Names.{
  absolute, relative, Form, get_leaf, path_form, is_relative, join, os_breakdown, combine,
  is_absolute,
}
use rs_io.Base.{
  Bool, List, Option, [], drop, false, if◌then◌else◌, is_nil, length, none, not, some, suc, true,
  zero, ℕ, ◌&&◌, ◌+◌, ◌-◌, ◌==◌, ◌||◌, ◌∷◌,
}

-- `std::mismatch` of two lists of names.
abbrev pub mismatch_parts : List Text → List Text → ℕ
mismatch_parts [] qs = 0
mismatch_parts (p ∷ ps) [] = 0
mismatch_parts (p ∷ ps) (q ∷ qs) =
    let rest = mismatch_parts ps qs in if text_eq p q then suc rest else 0

-- How many names of the base are left, and the names of the path that are left.
unfoldable pub relative_parts : List Text → List Text → ℕ × List Text
relative_parts base this = let m = mismatch_parts base this in (length base - m, drop m this)

-- The prefix of 3 * n - 1 characters, where every third one is the delimiter.
abbrev pub dots : ℕ → Text
dots zero = []
dots (suc zero) = dot ∷ dot ∷ []
dots (suc (suc n)) = dot ∷ dot ∷ slash ∷ dots (suc n)

abbrev first_differs : List Text → List Text → Bool
first_differs [] qs = false
first_differs (p ∷ ps) [] = false
first_differs (p ∷ ps) (q ∷ qs) = not (text_eq p q)

abbrev is_form : Form → Form → Bool
is_form absolute absolute = true
is_form relative relative = true
is_form f g = false

abbrev is_absolute_form : Form → Bool
is_absolute_form absolute = true
is_absolute_form f = false

-- `none` where the forms of the paths do not go together, for which the source throws.
unfoldable pub relative_to : Text → Text → Option Text
unfolding relative_parts path_form os_breakdown combine join
relative_to this base =
    if not (is_form (path_form base) (path_form this))
    then none
    else if is_absolute_form (path_form this)
        && first_differs (os_breakdown base) (os_breakdown this)
    then some this
    else let (n, left) = relative_parts (os_breakdown base) (os_breakdown this) in
      let rel_path = join (dots n) (combine join left) in
      some (if is_nil rel_path then dot ∷ [] else rel_path)

unfoldable pub is_hidden : Text → Bool
unfolding get_leaf
is_hidden f =
    if is_nil f || (text_eq f (dot ∷ []) || text_eq f (dot ∷ dot ∷ []))
    then false
    else not (is_nil (get_leaf f)) && char_at (get_leaf f) 0 == dot

-- The entry of a user: the directory and the name, empty where they are missing.
pub record Entry : Type 0 where
  pub pw_dir : Text
  pub pw_name : Text

-- The environment, with empty texts for what is not set, the entries, where the empty name stands for the
-- user of the process, and the current directory, empty where getcwd fails.
pub record Environment : Type 0 where
  pub home_variable : Text
  pub user_variable : Text
  pub entry : Text → Option Entry
  pub current_directory : Text

abbrev dir_of : Option Entry → Text
dir_of none = []
dir_of (some e) = e.pw_dir

abbrev name_of : Option Entry → Text
name_of none = []
name_of (some e) = e.pw_name

-- "/home"
abbrev home_root : Text
home_root = b'/' ∷ b'h' ∷ b'o' ∷ b'm' ∷ b'e' ∷ []

-- `none` where the source throws.
unfoldable pub get_user_home : Environment → Text → Option Text
unfolding canonical join
get_user_home env user =
    let found = env.entry user in
    if is_nil user && not (is_nil env.home_variable)
    then some (canonical env.home_variable)
    else if not (is_nil (dir_of found))
    then some (canonical (dir_of found))
    else if not (is_nil user)
    then some (join home_root (canonical user))
    else if not (is_nil env.user_variable)
    then some (join home_root (canonical env.user_variable))
    else if not (is_nil (name_of found))
    then some (join home_root (canonical (name_of found)))
    else none

abbrev pub tilde_user : Text → Option ℕ → Text
tilde_user f none = drop 1 f
tilde_user f (some p) = substr f 1 (p - 1)

abbrev pub tilde_tail : Text → Option ℕ → Text
tilde_tail f none = []
tilde_tail f (some p) = drop (p + 1) f

-- What a path that starts with a tilde comes to; the empty path where the home is empty.
abbrev pub from_home : Text → Option ℕ → Option Text → Option Text
from_home f slash_at none = none
from_home f slash_at (some home) =
    some (if is_nil home then [] else join home (canonical (tilde_tail f slash_at)))

-- The last test of `resolve`.
abbrev pub accepted : Text → Option Text
accepted f = if is_absolute f then some f else none

-- The steps of `resolve` behind the tilde: the current directory, the path itself, and the last test.
abbrev pub resolved : Environment → Text → Option Text → Option Text
resolved env f none = none
resolved env f (some result) =
    let in_dir =
      if is_nil result && (is_relative f && not (is_nil env.current_directory))
      then join env.current_directory f
      else result in
    accepted (if is_nil in_dir then f else in_dir)

unfoldable pub resolve : Environment → Text → Option Text
resolve env f =
    if is_nil f
    then resolved env f (some env.current_directory)
    else resolved env f (
        if char_at f 0 == b'~'
        then from_home f (find_at 0 slash f) (get_user_home env (tilde_user f (find_at 0 slash f)))
        else some [])
