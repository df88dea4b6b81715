-- ===== src/FilePath/Files/Stat/Times.antt =====
-- The times of a file that are set and read back, and the loop of the current directory.
use rs_io.Base.{
  ==_refl, Bool, Bool-cases, Option, ap, arith, false, inl, inr, length, ltb, none, some, suc, true,
  zero, ℕ, ◌*◌, ◌<◌, ◌^◌, ◌∙◌, ◌≡◌, ◌≤◌,
}
use rs_io.Text.{Text}
use rs_io.Time.{ℤ, Stamp, timespec_to_timepoint, timepoint_to_timespec}
use rs_io.Time.Convert.{timespec-round_trip}
use rs_io.FilePath.Files.Stat.{
  Calls, Stat, or_zero, status, get_stat, access_time, modify_time, set_file_times, set_access_time,
  set_modify_time, cwd_loop, current_directory, or_errno,
}

-- What utimensat does when it succeeds: the file that the path or, with the flag, the link names has the
-- new times.
pub record SetsTimes {S : Type 0} (C : Calls S) : Type 0 where
  pub sets :
      (s s' : S) (f : Text) (atime mtime : Stamp) (no_follow : Bool)
      → C.utimensat s f atime mtime no_follow ≡ (s', none)
      → (st : Stat) × (status C s' f no_follow ≡ some st)
        × (st.st_atim ≡ atime)
        × (st.st_mtim ≡ mtime)

or_errno-none :
    {S : Type 0} (C : Calls S) (f : Text) (s' : S) (r : S × Option ℕ)
    → or_errno C f r ≡ (s', none)
    → r ≡ (s', none)
or_errno-none C f s' (s, none) h = λ i. ((h i).0, none)
or_errno-none C f s' (s, some e) h = absurd (some-none (ap (λ p. p.1) h))
  where
    some-none : {A : Type 0} {a : A} → some a ≡ none → ⊥
    some-none k = absurd cc

module _ {S : Type 0} (C : Calls S) (law : SetsTimes C) where
  set_file_times-times :
      (s s' : S) (f : Text) (atime mtime : ℤ) (no_follow : Bool)
      → set_file_times C s f atime mtime no_follow ≡ (s', none)
      → (access_time C s' f no_follow ≡ atime) × (modify_time C s' f no_follow ≡ mtime)
  unfolding set_file_times access_time modify_time get_stat
  set_file_times-times s s' f atime mtime no_follow h =
      let (st, there, a, m) =
        law.sets s s' f (timepoint_to_timespec atime) (timepoint_to_timespec mtime) no_follow
          (or_errno-none C f s' _ h) in
      (
        ap (λ o. timespec_to_timepoint (or_zero o).st_atim) there
            ∙ (ap timespec_to_timepoint a ∙ timespec-round_trip atime),
        ap (λ o. timespec_to_timepoint (or_zero o).st_mtim) there
            ∙ (ap timespec_to_timepoint m ∙ timespec-round_trip mtime),
      )

  -- If utimensat, when it succeeds, gives the file the two times, and set_access_time and set_modify_time
  -- succeed on a file, then each time is read back to the nanosecond with the same flag, and the other
  -- time is the one that the file had which the path leads to when links are followed: also with the flag
  -- `no_follow`, with which a link gets the other time of its target.
  pub set_times-get :
      (s accessed modified : S) (f : Text) (t : ℤ) (no_follow : Bool)
      → set_access_time C s f t no_follow ≡ (accessed, none)
      → set_modify_time C s f t no_follow ≡ (modified, none)
      → (access_time C accessed f no_follow ≡ t)
        × (modify_time C accessed f no_follow ≡ modify_time C s f false)
        × (modify_time C modified f no_follow ≡ t)
        × (access_time C modified f no_follow ≡ access_time C s f false)
  unfolding set_access_time set_modify_time
  set_times-get s accessed modified f t no_follow h k =
      let (a, m) = set_file_times-times s accessed f t (modify_time C s f false) no_follow h in
      let (b, n) = set_file_times-times s modified f (access_time C s f false) t no_follow k in
      (a, m, n, b)

-- What POSIX says of getcwd: it fails with ERANGE if the path and its zero do not fit into the buffer.
pub record Fits {S : Type 0} (C : Calls S) (erange : ℕ) (s : S) (dir : Text) : Type 0 where
  pub short : (n : ℕ) → n ≤ length dir → (C.getcwd s n).1 ≡ some erange
  pub enough : (n : ℕ) → length dir < n → C.getcwd s n ≡ (dir, none)

cwd_loop-ends :
    {S : Type 0} (C : Calls S) (erange : ℕ) (s : S) (dir : Text) (checked : Bool)
    → Fits C erange s dir
    → (k n : ℕ) → length dir < n * 2 ^ k
    → cwd_loop C erange (suc k) s checked n ≡ (dir, none)
unfolding cwd_loop
cwd_loop-ends C erange s dir checked law zero n h =
    let fit = law.enough n (omega arith) in
    rw (ap (λ r. r.1) fit, cwd_loop) (λ i. ((fit i).0, none))
cwd_loop-ends C erange s dir checked law (suc k) n h = elim (Bool-cases (ltb (length dir) n)) [
  | inl fits ↦
      let fit = law.enough n (ground arith) in
      rw (ap (λ r. r.1) fit, cwd_loop) (λ i. ((fit i).0, none))
  | inr short ↦
      let e = law.short n (ground arith) in
      let room : length dir < 2 * n * 2 ^ k = grind (arith, h) in
      rw (e, cwd_loop, ==_refl erange) (cwd_loop-ends C erange s dir checked law k (2 * n) room)
]

-- Where getcwd fails with ERANGE just for a buffer that is too small, the loop that doubles its buffer
-- of 256 bytes ends with the current directory: a path of less than 256 * 2 ^ k bytes takes at most k + 1
-- calls.
pub current_directory-ends :
    {S : Type 0} (C : Calls S) (erange k : ℕ) (s : S) (dir : Text)
    → Fits C erange s dir
    → length dir < 256 * 2 ^ k
    → current_directory C erange (suc k) s ≡ (dir, none)
unfolding current_directory
current_directory-ends C erange k s dir law h = cwd_loop-ends C erange s dir true law k 256 h
