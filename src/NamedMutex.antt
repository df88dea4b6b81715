-- ===== src/NamedMutex.antt =====
-- The class NamedMutex of named-mutex.cpp, in its POSIX form. The semaphore is a parameter.
pub mod Exclusive
pub mod Polling
use rs_io.Time.{duration_to_timespec, ℤ, pos, negsuc, Stamp}
use rs_io.Text.{Text, char_at, text_eq}
use rs_io.Base.{
  Bool, Option, [], drop, false, if◌then◌else◌, leb, none, some, take, true, ℕ, ◌&&◌, ◌+◌, ◌==◌,
  ◌||◌, ◌∷◌,
}

-- `lower_case`
abbrev pub lower_case : Text → Text
lower_case [] = []
lower_case (c ∷ s) = (if leb b'A' c && leb c b'Z' then c + 32 else c) ∷ lower_case s

unfoldable pub strip_path_prefix : Text → Text
strip_path_prefix name =
    if char_at name 0 == b'/'
    then drop 1 name
    else if text_eq (lower_case (take 5 name)) (b'l' ∷ b'o' ∷ b'c' ∷ b'a' ∷ b'l' ∷ [])
        && (char_at name 5 == b'/' || char_at name 5 == 92)
    then drop 6 name
    else name

-- The constructor's path, and `name`.
unfoldable pub path_of : Text → Text
unfolding strip_path_prefix
path_of name = b'/' ∷ strip_path_prefix name

unfoldable pub name_of : Text → Text
name_of path = drop 1 path

-- sem_wait and sem_timedwait end in a state with their result and errno, or `none` where the caller stays
-- blocked; sem_post.
pub record Semaphore {ℓ} (S : Type ℓ) : Type ℓ where
  pub sem_wait : S → Option (S × ℤ × ℕ)
  pub sem_timedwait : S → Stamp → Option (S × ℤ × ℕ)
  pub sem_post : S → S

-- EAGAIN and ETIMEDOUT of Linux
abbrev pub eagain : ℕ
eagain = 11

abbrev pub etimedout : ℕ
etimedout = 110

-- What a call comes to: it returns, it throws errno, or it stays blocked.
pub data Ending : Type 0 where
  returns : Bool → Ending
  throws : ℕ → Ending
  blocks : Ending

abbrev pub is_int : ℤ → ℕ → Bool
is_int (pos m) n = m == n
is_int (negsuc m) n = false

abbrev pub is_minus_one : ℤ → Bool
is_minus_one (pos m) = false
is_minus_one (negsuc m) = m == 0

-- The tests behind a wait, where `code` means that the lock was not taken.
abbrev pub tried : ℕ → ℤ → ℕ → Ending
tried code rc err =
    if is_int rc 0 then returns true else if is_int rc code then returns false else throws err

module _ {ℓ} {S : Type ℓ} (sem : Semaphore S) where
  open sem use {sem_wait, sem_timedwait, sem_post}

  abbrev after : S → Option (S × ℤ × ℕ) → (ℤ → ℕ → Ending) → S × Ending
  after s none k = (s, blocks)
  after s (some (t, rc, err)) k = (t, k rc err)

  unfoldable pub lock : S → S × Ending
  lock s = after s (sem_wait s) (λ rc err. if is_minus_one rc then throws err else returns true)

  unfoldable pub try_lock : S → S × Ending
  try_lock s = after s (sem_wait s) (tried eagain)

  unfoldable pub try_lock_until : ℤ → S → S × Ending
  unfolding duration_to_timespec
  try_lock_until abs_time s =
      after s (sem_timedwait s (duration_to_timespec abs_time)) (tried etimedout)

  unfoldable pub unlock : S → S
  unlock s = sem_post s
