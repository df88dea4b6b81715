-- ===== src/Stdio/Opening.antt =====
-- How the two classes open a file, compared: the constructors of Cstdio and Fdio from a path and a mode.
use rs_io.Base.{Bool, Option, false, none, true, ◌≡◌}
use rs_io.Text.{Text}
use rs_io.Stdio.Modes.{
  Mode, Cmode, Flags, cstdio, fdio, cmode, fmode, open_cstdio, read, write, append, create_always,
  open_always, open_existing, rb, wb, ab, wb_plus, rb_plus, io_error, is_standard,
}

-- The flags that POSIX gives for a mode string of fopen.
abbrev pub flags_of : Cmode → Flags
flags_of rb = record {
  rdonly = true;
  wronly = false;
  rdwr = false;
  creat = false;
  trunc = false;
  append_ = false;
}
flags_of wb = record {
  rdonly = false;
  wronly = true;
  rdwr = false;
  creat = true;
  trunc = true;
  append_ = false;
}
flags_of ab = record {
  rdonly = false;
  wronly = true;
  rdwr = false;
  creat = true;
  trunc = false;
  append_ = true;
}
flags_of wb_plus = record {
  rdonly = false;
  wronly = false;
  rdwr = true;
  creat = true;
  trunc = true;
  append_ = false;
}
flags_of rb_plus = record {
  rdonly = false;
  wronly = false;
  rdwr = true;
  creat = false;
  trunc = false;
  append_ = false;
}

abbrev fopen_by : {H : Type 0} → (Text → Flags → Option H) → Text → Cmode → Option H
fopen_by open_ f m = open_ f (flags_of m)

abbrev is_open_always : Mode → Bool
is_open_always open_always = true
is_open_always m = false

-- Where fopen is open with the flags that POSIX gives for its mode string, the two classes open a file
-- that is not standard in the same way, in every mode but `open_always`.
pub cstdio-fdio :
    {H : Type 0} (open_ : Text → Flags → Option H) (f : Text) (m : Mode)
    → is_standard f ≡ false
    → is_open_always m ≡ false
    → cstdio (fopen_by open_) f m ≡ fdio open_ f m
unfolding cstdio fdio cmode fmode open_cstdio
cstdio-fdio open_ f read h k = rw h
cstdio-fdio open_ f write h k = rw h
cstdio-fdio open_ f append h k = rw h
cstdio-fdio open_ f create_always h k = rw h
cstdio-fdio open_ f open_always h k = absurd cc
cstdio-fdio open_ f open_existing h k = rw h

-- With `open_always`, Cstdio throws for a file that is not standard and that "rb+" does not open, as it
-- does not for a new file, whatever "wb+" would do.
pub open_always-new :
    {H : Type 0} (fopen : Text → Cmode → Option H) (f : Text)
    → is_standard f ≡ false
    → fopen f rb_plus ≡ none
    → cstdio fopen f open_always ≡ io_error
unfolding cstdio cmode open_cstdio
open_always-new fopen f h k = rw (h, k)
