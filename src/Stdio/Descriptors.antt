-- ===== src/Stdio/Descriptors.antt =====
-- The class Fdio of stdio.cpp on POSIX. The calls of the C library are a parameter: the state they leave,
-- what they return, and errno, which the sources set to zero before each of them.
pub mod Program
pub mod Owned
use rs_io.Time.{ℤ, pos}
use rs_io.Base.{Bool, List, Option, [], if◌then◌else◌, ltb, none, some, suc, zero, ℕ, ◌∷◌}
use rs_io.Text.{Text}

-- What a function returns, or the number in the IoError that it throws.
pub data Result (A : Type 0) : Type 0 where
  returned : A → Result A
  io_error : ℕ → Result A

-- A set of flags of `open`.
pub data OpenFlag : Type 0 where
  o_rdonly o_wronly o_rdwr o_creat o_trunc o_append o_excl o_cloexec : OpenFlag

-- A descriptor is `none` where it is -1.
pub record Calls (W : Type 0) : Type 0 where
  pub open_ : W → Text → List OpenFlag → ℕ → W × Option ℕ × ℕ
  pub close : W → ℕ → W × ℕ
  pub fsync : W → Option ℕ → W × ℕ
  pub read : W → Option ℕ → ℕ → W × Text × ℕ
  pub lseek : W → Option ℕ → ℤ → ℕ → W × ℤ × ℕ
  pub write : W → Option ℕ → Text → W × ℕ × ℕ
  pub dup : W → Option ℕ → W × Option ℕ × ℕ
  pub dup2 : W → Option ℕ → ℕ → W × Option ℕ × ℕ
  -- whether the call failed, and the two descriptors
  pub pipe : W → W × Bool × Option ℕ × Option ℕ × ℕ

-- `check_for_error(err)` before a return.
unfoldable pub check_for_error : {A : Type 0} → ℕ → A → Result A
check_for_error zero a = returned a
check_for_error (suc e) a = io_error (suc e)

-- `null_device` and SEEK_CUR
abbrev pub null_device : Text
null_device = b'/' ∷ b'd' ∷ b'e' ∷ b'v' ∷ b'/' ∷ b'n' ∷ b'u' ∷ b'l' ∷ b'l' ∷ []

abbrev pub seek_cur : ℕ
seek_cur = 1

module _ {W : Type 0} (K : Calls W) where
  -- `Fdio(f, iomode, perm)`
  unfoldable pub open_file : W → Text → List OpenFlag → ℕ → W × Result (Option ℕ)
  unfolding check_for_error
  open_file w f iomode perm =
      let (w', rc, err) = K.open_ w f iomode perm in (w', check_for_error err rc)

  -- `Resource::reset` with the deleter of the class: the standard descriptors are not closed.
  unfoldable pub reset : W → Option ℕ → W × ℕ
  reset w none = (w, 0)
  reset w (some fd) = if ltb 2 fd then K.close w fd else (w, 0)

  -- `close()`; the object has no descriptor then, whatever comes of it.
  unfoldable pub close : W → Option ℕ → W × Option ℕ × Result (Unit {0})
  unfolding check_for_error reset
  close w fd = let (w', err) = reset w fd in (w', none, check_for_error err tt)

  unfoldable pub flush : W → Option ℕ → W × Result (Unit {0})
  unfolding check_for_error
  flush w fd = let (w', err) = K.fsync w fd in (w', check_for_error err tt)

  unfoldable pub read : W → Option ℕ → ℕ → W × Result Text
  unfolding check_for_error
  read w fd maxlen = let (w', got, err) = K.read w fd maxlen in (w', check_for_error err got)

  unfoldable pub seek : W → Option ℕ → ℤ → ℕ → W × Result (Unit {0})
  unfolding check_for_error
  seek w fd offset which =
      let (w', to, err) = K.lseek w fd offset which in (w', check_for_error err tt)

  unfoldable pub tell : W → Option ℕ → W × Result ℤ
  unfolding check_for_error
  tell w fd = let (w', at, err) = K.lseek w fd (pos 0) seek_cur in (w', check_for_error err at)

  unfoldable pub write : W → Option ℕ → Text → W × Result ℕ
  unfolding check_for_error
  write w fd src = let (w', n, err) = K.write w fd src in (w', check_for_error err n)

  unfoldable pub dup : W → Option ℕ → W × Result (Option ℕ)
  unfolding check_for_error
  dup w fd = let (w', rc, err) = K.dup w fd in (w', check_for_error err rc)

  -- `dup(f)`
  unfoldable pub dup_to : W → Option ℕ → ℕ → W × Result (Option ℕ)
  unfolding check_for_error
  dup_to w fd f = let (w', rc, err) = K.dup2 w fd f in (w', check_for_error err (some f))

  unfoldable pub null : W → W × Result (Option ℕ)
  unfolding open_file
  null w = open_file w null_device (o_rdwr ∷ o_cloexec ∷ []) 438

  -- `pipe()`; errno is tested only if the call failed.
  unfoldable pub pipe : W → W × Result (Option ℕ × Option ℕ)
  unfolding check_for_error
  pipe w =
      let (w', failed, first, second, err) = K.pipe w in
      (w', if failed then check_for_error err (first, second) else returned (first, second))
