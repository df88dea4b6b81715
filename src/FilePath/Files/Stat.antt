-- ===== src/FilePath/Files/Stat.antt =====
-- The queries of path.cpp that ask `stat` or `lstat`, the functions that set the times of a file, and the
-- current directory, on Linux. A time point is its distance to the epoch in nanoseconds.
pub mod Times
pub mod Kinds
use rs_io.Base.{
  Bool, List, Option, [], false, if◌then◌else◌, none, not, some, suc, true, zero, ℕ, ◌%◌, ◌&&◌, ◌*◌,
  ◌+◌, ◌==◌, ◌^◌, ◌∷◌,
}
use rs_io.Text.{Text}
use rs_io.Time.{ℤ, pos, Stamp, timespec_to_timepoint, timepoint_to_timespec}

-- The kind of a file in `st_mode`; `no_kind` is the mode zero.
pub data Kind : Type 0 where
  no_kind directory regular link special : Kind

-- `struct stat`, as far as it is used.
pub record Stat : Type 0 where
  pub kind : Kind
  pub st_dev : ℕ
  pub st_ino : ℕ
  pub st_size : ℕ
  pub st_atim : Stamp
  pub st_mtim : Stamp
  pub st_ctim : Stamp

-- The calls: `stat` and `lstat`, which are `none` where they fail, `utimensat` with its flag
-- AT_SYMLINK_NOFOLLOW, `chdir`, and `getcwd` with the size of its buffer. A failure is errno.
pub record Calls (S : Type 0) : Type 0 where
  pub stat : S → Text → Option Stat
  pub lstat : S → Text → Option Stat
  pub utimensat : S → Text → Stamp → Stamp → Bool → S × Option ℕ
  pub chdir : S → Text → S × Option ℕ
  pub getcwd : S → ℕ → Text × Option ℕ

-- What std::system_error is made from: errno, or errc::operation_not_supported; the recursion and the
-- loop can go on beyond the bound.
pub data Thrown : Type 0 where
  errno : ℕ → Text → Thrown
  operation_not_supported out_of_fuel : Thrown

-- The memory that `memset` clears.
abbrev pub no_time : Stamp
no_time = record { sec = pos 0; frac = pos 0 }

abbrev pub no_stat : Stat
no_stat = record {
  kind = no_kind;
  st_dev = 0;
  st_ino = 0;
  st_size = 0;
  st_atim = no_time;
  st_mtim = no_time;
  st_ctim = no_time;
}

abbrev pub or_zero : Option Stat → Stat
or_zero none = no_stat
or_zero (some st) = st

abbrev pub is_some : {A : Type 0} → Option A → Bool
is_some none = false
is_some (some a) = true

-- S_ISDIR, S_ISREG and S_ISLNK
abbrev pub is_dir : Kind → Bool
is_dir directory = true
is_dir k = false

abbrev pub is_reg : Kind → Bool
is_reg regular = true
is_reg k = false

abbrev pub is_lnk : Kind → Bool
is_lnk link = true
is_lnk k = false

module _ {S : Type 0} (C : Calls S) where
  -- The flag `no_follow` is a truth value.
  abbrev pub status : S → Text → Bool → Option Stat
  status s f no_follow = if no_follow then C.lstat s f else C.stat s f

  -- The `st` of `get_stat`
  unfoldable pub get_stat : S → Text → Bool → Stat
  get_stat s f no_follow = or_zero (status s f no_follow)

  unfoldable pub access_time : S → Text → Bool → ℤ
  unfolding get_stat
  access_time s f no_follow = timespec_to_timepoint (get_stat s f no_follow).st_atim

  unfoldable pub create_time : S → Text → Bool → ℤ
  create_time s f no_follow = pos 0

  unfoldable pub modify_time : S → Text → Bool → ℤ
  unfolding get_stat
  modify_time s f no_follow = timespec_to_timepoint (get_stat s f no_follow).st_mtim

  unfoldable pub status_time : S → Text → Bool → ℤ
  unfolding get_stat
  status_time s f no_follow = timespec_to_timepoint (get_stat s f no_follow).st_ctim

  unfoldable pub exists : S → Text → Bool → Bool
  exists s f no_follow = is_some (status s f no_follow)

  unfoldable pub id : S → Text → Bool → ℕ × ℕ
  unfolding get_stat
  id s f no_follow = let st = get_stat s f no_follow in (st.st_dev % 2 ^ 64, st.st_ino % 2 ^ 64)

  unfoldable pub is_directory : S → Text → Bool → Bool
  unfolding get_stat
  is_directory s f no_follow = is_dir (get_stat s f no_follow).kind

  unfoldable pub is_file : S → Text → Bool → Bool
  unfolding get_stat
  is_file s f no_follow = is_reg (get_stat s f no_follow).kind

  unfoldable pub is_special : S → Text → Bool → Bool
  unfolding get_stat
  is_special s f no_follow =
      let k = (get_stat s f no_follow).kind in
      is_some (status s f no_follow) && (not (is_dir k) && not (is_reg k))

  unfoldable pub is_symlink : S → Text → Bool
  unfolding get_stat
  is_symlink s f = is_lnk (get_stat s f true).kind

  -- `std::system_error(errno, name())` where the call failed.
  abbrev or_errno : Text → S × Option ℕ → S × Option Thrown
  or_errno f (s, none) = (s, none)
  or_errno f (s, some e) = (s, some (errno e f))

  unfoldable pub set_file_times : S → Text → ℤ → ℤ → Bool → S × Option Thrown
  set_file_times s f atime mtime no_follow =
      or_errno f
        (C.utimensat s f (timepoint_to_timespec atime) (timepoint_to_timespec mtime) no_follow)

  unfoldable pub set_access_time : S → Text → ℤ → Bool → S × Option Thrown
  unfolding set_file_times modify_time
  set_access_time s f t no_follow = set_file_times s f t (modify_time s f false) no_follow

  unfoldable pub set_create_time : S → Text → ℤ → S × Option Thrown
  set_create_time s f t = (s, some operation_not_supported)

  unfoldable pub set_modify_time : S → Text → ℤ → Bool → S × Option Thrown
  unfolding set_file_times access_time
  set_modify_time s f t no_follow = set_file_times s f (access_time s f false) t no_follow

  -- The loop over the children in `size`: their sizes are added to `bytes`, a uint64_t.
  unfoldable pub add_sizes : (Text → Option ℕ) → List Text → ℕ → Option ℕ
  add_sizes child_size [] bytes = some bytes
  add_sizes child_size (c ∷ cs) bytes = elim (child_size c) [
    | none ↦ none
    | some n ↦ add_sizes child_size cs ((bytes + n) % 2 ^ 64)
  ]

  -- `size(flags)`, with the listing of a directory; `none` means that the fuel ran out.
  unfoldable pub size : (S → Text → List Text) → ℕ → S → Text → Bool → Bool → Option ℕ
  unfolding get_stat add_sizes
  size listing zero s f no_follow recurse = none
  size listing (suc n) s f no_follow recurse =
      let bytes = (get_stat s f no_follow).st_size in
      elim recurse [
        | false ↦ some bytes
        | true ↦ add_sizes (λ c. size listing n s c true true) (listing s f) bytes
      ]

  unfoldable pub change_directory : S → Text → S × Option Thrown
  change_directory s f = or_errno f (C.chdir s f)

  -- The loop of `get_current_directory(checked)` with a buffer of `n` bytes: the directory, the empty
  -- path, or an exception. `erange` is the number ERANGE.
  unfoldable pub cwd_loop : ℕ → ℕ → S → Bool → ℕ → Text × Option Thrown
  cwd_loop erange zero s checked n = ([], some out_of_fuel)
  cwd_loop erange (suc k) s checked n =
      let (dir, err) = C.getcwd s n in
      elim err [
        | none ↦ (dir, none)
        | some e ↦ elim (e == erange) [
          | true ↦ cwd_loop erange k s checked (2 * n)
          | false ↦ ([], if checked then some (errno e []) else none)
        ]
      ]

  unfoldable pub current_directory : ℕ → ℕ → S → Text × Option Thrown
  current_directory erange k s = cwd_loop erange k s true 256
