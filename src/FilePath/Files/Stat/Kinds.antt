-- ===== src/FilePath/Files/Stat/Kinds.antt =====
-- What the queries of path.cpp say of one file.
use rs_io.Base.{Bool, Option, false, none, not, refl, some, true, ◌&&◌, ◌||◌, ◌≡◌}
use rs_io.Text.{Text}
use rs_io.FilePath.Files.Stat.{
  Calls, Stat, Kind, no_kind, directory, regular, link, special, or_zero, is_some, is_dir, is_reg,
  is_lnk, status, exists, is_directory, is_file, is_special, is_symlink, get_stat,
}

-- Exactly one of three truth values holds if `b` does, and none if not.
abbrev pub ExactlyOne : Bool → Bool → Bool → Bool → Type 0
ExactlyOne b x y z = (x || (y || z) ≡ b) × (x && y ≡ false) × (x && z ≡ false) × (y && z ≡ false)

abbrev other : Bool → Kind → Bool
other ok k = ok && (not (is_dir k) && not (is_reg k))

kind-ExactlyOne : (k : Kind) → ExactlyOne true (is_dir k) (is_reg k) (other true k)
kind-ExactlyOne no_kind = (refl, refl, refl, refl)
kind-ExactlyOne directory = (refl, refl, refl, refl)
kind-ExactlyOne regular = (refl, refl, refl, refl)
kind-ExactlyOne link = (refl, refl, refl, refl)
kind-ExactlyOne special = (refl, refl, refl, refl)

status-ExactlyOne :
    (o : Option Stat)
    → let k = (or_zero o).kind in ExactlyOne (is_some o) (is_dir k) (is_reg k) (other (is_some o) k)
status-ExactlyOne none = (refl, refl, refl, refl)
status-ExactlyOne (some st) = kind-ExactlyOne st.kind

link-other : (k : Kind) → is_lnk k ≡ true → other true k ≡ true
link-other no_kind h = refl
link-other directory h = absurd cc
link-other regular h = absurd cc
link-other link h = refl
link-other special h = refl

status-link :
    (o : Option Stat) → is_lnk (or_zero o).kind ≡ true → other (is_some o) (or_zero o).kind ≡ true
status-link none h = absurd cc
status-link (some st) h = link-other st.kind h

-- Whatever `stat` and `lstat` answer, a path that exists is a directory, a file or special, exactly one
-- of them, and a path that does not is none; and a symbolic link, without following it, is special.
pub exists-ExactlyOne :
    {S : Type 0} (C : Calls S) (s : S) (f : Text) (no_follow : Bool)
    → ExactlyOne
        (exists C s f no_follow)
        (is_directory C s f no_follow)
        (is_file C s f no_follow)
        (is_special C s f no_follow)
      × (is_symlink C s f ≡ true → is_special C s f true ≡ true)
unfolding exists is_directory is_file is_special is_symlink get_stat
exists-ExactlyOne C s f no_follow =
    (status-ExactlyOne (status C s f no_follow), status-link (C.lstat s f))
