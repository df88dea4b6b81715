-- ===== src/Stdio/Cfile/Calls.antt =====
-- The functions of the class Cstdio of stdio.cpp that are one call on a C file, on POSIX, and how getc
-- and putc agree with those of IoBase that they override.
use rs_io.Base.{Bool, Option, [], ap, if◌then◌else◌, none, refl, some, suc, zero, ℕ, ◌∙◌, ◌∷◌, ◌≡◌}
use rs_io.Text.{Text}
use rs_io.Time.{ℤ, negsuc}
use rs_io.Stdio.Descriptors.{Result, returned, io_error, check_for_error, null_device}

-- The calls on C files: the state they leave, what they return, and errno, which the sources set to zero
-- before each of them. A file is `none` where it is null.
pub record FileCalls (W : Type 0) : Type 0 where
  pub fopen : W → Text → Text → W × Option ℕ × ℕ
  pub tmpfile : W → W × Option ℕ × ℕ
  pub fdopen : W → Option ℕ → W × Option ℕ
  pub fclose : W → ℕ → W × ℕ
  pub fflush : W → Option ℕ → W × ℕ
  -- `none` is EOF.
  pub fgetc : W → Option ℕ → W × Option ℕ × ℕ
  pub fputc : W → Option ℕ → ℕ → W × ℕ
  pub ungetc : W → Option ℕ → ℕ → W × ℕ
  pub fread : W → Option ℕ → ℕ → W × Text × ℕ
  pub fwrite : W → Option ℕ → Text → W × ℕ × ℕ
  pub fseeko : W → Option ℕ → ℤ → ℕ → W × ℕ
  pub ftello : W → Option ℕ → W × ℤ × ℕ
  pub fileno : W → ℕ → ℤ
  -- stdin, stdout and stderr
  pub is_standard : ℕ → Bool

module _ {W : Type 0} (F : FileCalls W) where
  -- `Cstdio(f, iomode)`
  unfoldable pub open_file : W → Text → Text → W × Result (Option ℕ)
  unfolding check_for_error
  open_file w f iomode = let (w', rc, err) = F.fopen w f iomode in (w', check_for_error err rc)

  -- `Resource::reset` with the deleter of the class: the standard files are not closed.
  unfoldable pub reset : W → Option ℕ → W × ℕ
  reset w none = (w, 0)
  reset w (some fp) = if F.is_standard fp then (w, 0) else F.fclose w fp

  -- `close()`; the object has no file then, whatever comes of it.
  unfoldable pub close : W → Option ℕ → W × Option ℕ × Result (Unit {0})
  unfolding check_for_error reset
  close w fp = let (w', err) = reset w fp in (w', none, check_for_error err tt)

  unfoldable pub flush : W → Option ℕ → W × Result (Unit {0})
  unfolding check_for_error
  flush w fp = let (w', err) = F.fflush w fp in (w', check_for_error err tt)

  unfoldable pub getc : W → Option ℕ → W × Result (Option ℕ)
  unfolding check_for_error
  getc w fp = let (w', c, err) = F.fgetc w fp in (w', check_for_error err c)

  unfoldable pub putc : W → Option ℕ → ℕ → W × Result (Unit {0})
  unfolding check_for_error
  putc w fp c = let (w', err) = F.fputc w fp c in (w', check_for_error err tt)

  unfoldable pub read : W → Option ℕ → ℕ → W × Result Text
  unfolding check_for_error
  read w fp maxlen = let (w', got, err) = F.fread w fp maxlen in (w', check_for_error err got)

  unfoldable pub seek : W → Option ℕ → ℤ → ℕ → W × Result (Unit {0})
  unfolding check_for_error
  seek w fp offset which =
      let (w', err) = F.fseeko w fp offset which in (w', check_for_error err tt)

  unfoldable pub tell : W → Option ℕ → W × Result ℤ
  unfolding check_for_error
  tell w fp = let (w', offset, err) = F.ftello w fp in (w', check_for_error err offset)

  unfoldable pub write : W → Option ℕ → Text → W × Result ℕ
  unfolding check_for_error
  write w fp src = let (w', n, err) = F.fwrite w fp src in (w', check_for_error err n)

  unfoldable pub fd : W → Option ℕ → ℤ
  fd w none = negsuc 0
  fd w (some fp) = F.fileno w fp

  unfoldable pub ungetc : W → Option ℕ → ℕ → W × Result (Unit {0})
  unfolding check_for_error
  ungetc w fp c = let (w', err) = F.ungetc w fp c in (w', check_for_error err tt)

  -- What follows the constructor in `null`: a character is read, and its errno is not looked at.
  abbrev read_once : W × Result (Option ℕ) → W × Result (Option ℕ)
  read_once (w, returned fp) = ((F.fgetc w fp).0, returned fp)
  read_once (w, io_error e) = (w, io_error e)

  unfoldable pub null : W → W × Result (Option ℕ)
  unfolding open_file
  null w = read_once (open_file w null_device (b'r' ∷ b'+' ∷ []))

  -- IoBase::getc over `read`: the byte that it got, and EOF if there is none.
  abbrev first_of : W × Result Text → W × Result (Option ℕ)
  first_of (w, returned []) = (w, returned none)
  first_of (w, returned (c ∷ s)) = (w, returned (some c))
  first_of (w, io_error e) = (w, io_error e)

  -- IoBase::putc over `write`, whose count is not looked at.
  abbrev uncounted : W × Result ℕ → W × Result (Unit {0})
  uncounted (w, returned n) = (w, returned tt)
  uncounted (w, io_error e) = (w, io_error e)

abbrev front : Text → Option ℕ
front [] = none
front (c ∷ s) = some c

-- What the C standard says of fgetc and fputc: they are fread and fwrite of one byte.
pub record OneByte {W : Type 0} (F : FileCalls W) : Type 0 where
  pub gets :
      (w : W) (fp : Option ℕ)
      → let (w', got, err) = F.fread w fp 1 in F.fgetc w fp ≡ (w', front got, err)
  pub puts :
      (w : W) (fp : Option ℕ) (c : ℕ)
      → let (w', n, err) = F.fwrite w fp (c ∷ []) in F.fputc w fp c ≡ (w', err)

first_of-check :
    {W : Type 0} (F : FileCalls W) (w : W) (got : Text) (err : ℕ)
    → (w, check_for_error err (front got)) ≡ first_of F (w, check_for_error err got)
unfolding check_for_error
first_of-check F w [] zero = refl
first_of-check F w (c ∷ s) zero = refl
first_of-check F w got (suc e) = refl

uncounted-check :
    {W : Type 0} (F : FileCalls W) (w : W) (n err : ℕ)
    → (w, check_for_error err tt) ≡ uncounted F (w, check_for_error err n)
unfolding check_for_error
uncounted-check F w n zero = refl
uncounted-check F w n (suc e) = refl

-- Where fgetc and fputc are fread and fwrite of one byte, getc and putc of Cstdio do what those of IoBase
-- do over its `read` and `write`, errors included.
pub getc-overrides :
    {W : Type 0} (F : FileCalls W)
    → OneByte F
    → (w : W) (fp : Option ℕ) (c : ℕ)
    → (getc F w fp ≡ first_of F (read F w fp 1))
      × (putc F w fp c ≡ uncounted F (write F w fp (c ∷ [])))
unfolding getc read putc write
getc-overrides F law w fp c =
    let (w', got, err) = F.fread w fp 1 in
    let (w'', n, err') = F.fwrite w fp (c ∷ []) in
    (
      ap (λ r. (r.0, check_for_error r.2 r.1)) (law.gets w fp) ∙ first_of-check F w' got err,
      ap (λ r. (r.0, check_for_error r.1 tt)) (law.puts w fp c) ∙ uncounted-check F w'' n err',
    )
