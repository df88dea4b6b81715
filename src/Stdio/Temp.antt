-- ===== src/Stdio/Temp.antt =====
-- The class TempFile of stdio.cpp on POSIX, with the functions of Fdio, Path and Cstdio that it uses.
pub mod First
pub mod Life
use rs_io.Base.{
  List, Option, [], false, if◌then◌else◌, is_nil, none, not, some, suc, zero, ℕ, ◌%◌, ◌&&◌, ◌*◌,
  ◌++◌, ◌+◌, ◌==◌, ◌^◌, ◌∷◌,
}
use rs_io.Text.{Text}
use rs_io.Stdio.Descriptors.{
  Calls, Result, OpenFlag, o_rdwr, o_creat, o_excl, open_file, returned, io_error,
}
use rs_io.Stdio.Cfile.Calls.{FileCalls, reset}
use rs_io.FilePath.Names.{join}
use rs_io.FilePath.Resolve.{Environment, resolve}
use rs_io.FilePath.Files.System.{System}
use rs_io.FilePath.Files.Update.{remove}

-- What a constructor comes to: the object's `FILE*` and `where_`, or an exception: an IoError with a
-- condition or errno, or that of `resolve`.
pub data Made : Type 0 where
  temp : Option ℕ → Text → Made
  no_such_directory unresolved : Made
  throws : ℕ → Made

-- errc::io_error
abbrev pub eio : ℕ
eio = 5

-- `IoError(err)`, for which zero is errc::io_error.
unfoldable pub io_error_of : ℕ → ℕ
io_error_of err = if err == 0 then eio else err

abbrev pub max_tries : ℕ
max_tries = 100

abbrev pub temp_flags : List OpenFlag
temp_flags = o_rdwr ∷ o_creat ∷ o_excl ∷ []

-- `(x << 32) + y`
unfoldable pub random_number : ℕ × ℕ → ℕ
random_number (x, y) = (x * 2 ^ 32 % 2 ^ 64 + y) % 2 ^ 64

module _ {W : Type 0} (K : Calls W) (F : FileCalls W) (fs : System W) where
  abbrev tmpfile_result : ℕ → Option ℕ → Made
  tmpfile_result err none = throws (io_error_of err)
  tmpfile_result err (some file) = temp (some file) []

  -- `TempFile()`
  unfoldable pub anonymous : W → W × Made
  anonymous w = let (w', file, err) = F.tmpfile w in (w', tmpfile_result err file)

  -- What the loop leaves: the descriptor, `where_` and `err`, or an exception.
  pub data Tried : Type 0 where
    tried : Option ℕ → Text → ℕ → Tried
    raised : Made → Tried

  -- A round of the loop; an exception leaves it.
  abbrev pub after_open : Text → W × Result (Option ℕ) → W × Tried
  after_open f (w, returned fd) = (w, tried fd f 0)
  after_open f (w, io_error e) = (w, raised (throws e))

  -- `fdopen` of the descriptor that the object releases; its result is not tested.
  abbrev pub finish : W × Tried → W × Made
  finish (w, tried none f err) = (w, throws (io_error_of err))
  finish (w, tried (some fd) f err) = let (w', file) = F.fdopen w (some fd) in (w', temp file f)
  finish (w, raised e) = (w, e)

  -- `hex` is Format::hex, `env` what `resolve` depends on, and `draws` are the numbers that the random
  -- device gives in each round.
  module _ (hex : ℕ → Text) (env : Environment) (dir prefix : Text) where
    unfoldable pub name : ℕ × ℕ → Option Text
    unfolding random_number
    name xy = resolve env (join dir (prefix ++ hex (random_number xy)))

    -- The start of a round with its name.
    abbrev pub try_name : W → Option Text → W × Tried
    try_name w none = (w, raised unresolved)
    try_name w (some f) = after_open f (open_file K w f temp_flags 438)

    -- The loop with `n` rounds to go; it stops when the file is open.
    unfoldable pub try_loop : ℕ → (ℕ → ℕ × ℕ) → ℕ → W × Tried → W × Tried
    try_loop zero draws i st = st
    try_loop (suc n) draws i (w, tried none f err) =
        try_loop n draws (suc i) (try_name w (name (draws i)))
    try_loop (suc n) draws i (w, tried (some fd) f err) = (w, tried (some fd) f err)
    try_loop (suc n) draws i (w, raised e) = (w, raised e)

    -- `TempFile(dir, prefix)`
    unfoldable pub create : (ℕ → ℕ × ℕ) → W → W × Made
    create draws w =
        if not (is_nil dir) && not (fs.is_directory w dir)
        then (w, no_such_directory)
        else finish (try_loop max_tries draws 0 (w, tried none [] 0))

  -- The destructor: an exception of `close` and of `remove` is caught, and without a name the base class
  -- closes the file.
  unfoldable pub destroy : W → Option ℕ → Text → W
  unfolding reset
  destroy w file where_ =
      let w' = (reset F w file).0 in if is_nil where_ then w' else (remove fs 1 false where_ w').0
