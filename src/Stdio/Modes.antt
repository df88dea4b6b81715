-- ===== src/Stdio/Modes.antt =====
-- How a file is opened: the constructors of Cstdio and Fdio from a path and a mode. `fopen` and `open`
-- are parameters: a handle, or `none` where they set errno.
use rs_io.Base.{Bool, Option, [], false, if◌then◌else◌, is_nil, none, some, true, ◌||◌, ◌∷◌}
use rs_io.Text.{Text, text_eq}

-- IoMode
pub data Mode : Type 0 where
  read write append create_always open_always open_existing : Mode

-- The mode strings of fopen that the class uses.
pub data Cmode : Type 0 where
  rb wb ab wb_plus rb_plus : Cmode

pub data Opened (H : Type 0) : Type 0 where
  std_input std_output : Opened H
  handle : H → Opened H
  -- a default constructed object, which is not open
  closed : Opened H
  -- IoError
  io_error : Opened H

-- The flags of open that the class uses.
pub record Flags : Type 0 where
  pub rdonly : Bool
  pub wronly : Bool
  pub rdwr : Bool
  pub creat : Bool
  pub trunc : Bool
  pub append_ : Bool

abbrev pub dash : Text
dash = b'-' ∷ []

abbrev pub is_standard : Text → Bool
is_standard f = is_nil f || text_eq f dash

-- The switch of `Cstdio(f, m)`, for the modes that reach it.
unfoldable pub cmode : Mode → Option Cmode
cmode read = some rb
cmode write = some wb
cmode append = some ab
cmode create_always = some wb_plus
cmode open_existing = some rb_plus
cmode open_always = none

unfoldable pub fmode : Mode → Flags
fmode read = record {
  rdonly = true;
  wronly = false;
  rdwr = false;
  creat = false;
  trunc = false;
  append_ = false;
}
fmode write = record {
  rdonly = false;
  wronly = true;
  rdwr = false;
  creat = true;
  trunc = true;
  append_ = false;
}
fmode append = record {
  rdonly = false;
  wronly = true;
  rdwr = false;
  creat = true;
  trunc = false;
  append_ = true;
}
fmode create_always = record {
  rdonly = false;
  wronly = false;
  rdwr = true;
  creat = true;
  trunc = true;
  append_ = false;
}
fmode open_always = record {
  rdonly = false;
  wronly = false;
  rdwr = true;
  creat = true;
  trunc = false;
  append_ = false;
}
fmode open_existing = record {
  rdonly = false;
  wronly = false;
  rdwr = true;
  creat = false;
  trunc = false;
  append_ = false;
}

module _ {H : Type 0} where
  abbrev or_error : Option H → Opened H
  or_error (some h) = handle h
  or_error none = io_error

  -- `Cstdio(f, iomode)` throws where fopen fails.
  unfoldable pub open_cstdio : (Text → Cmode → Option H) → Text → Cmode → Opened H
  open_cstdio fopen f m = or_error (fopen f m)

  abbrev std_stream : Mode → Opened H
  std_stream read = std_input
  std_stream write = std_output
  std_stream append = std_output
  std_stream m = closed

  -- `*this = Cstdio(f, "rb+"); if (! fp_) *this = Cstdio(f, "wb+");`, where an exception of the
  -- first constructor leaves the function.
  abbrev second_try : (Text → Cmode → Option H) → Text → Opened H → Opened H
  second_try fopen f closed = open_cstdio fopen f wb_plus
  second_try fopen f r = r

  abbrev open_by : (Text → Cmode → Option H) → Text → Option Cmode → Opened H
  open_by fopen f none = second_try fopen f (open_cstdio fopen f rb_plus)
  open_by fopen f (some m) = open_cstdio fopen f m

  -- `Cstdio(f, m)`
  unfoldable pub cstdio : (Text → Cmode → Option H) → Text → Mode → Opened H
  unfolding open_cstdio cmode
  cstdio fopen f m = if is_standard f then std_stream m else open_by fopen f (cmode m)

  abbrev fd_stream : (Text → Flags → Option H) → Text → Mode → Opened H
  fd_stream open_ f read = std_input
  fd_stream open_ f write = std_output
  fd_stream open_ f append = std_output
  fd_stream open_ f m = or_error (open_ f (fmode m))

  -- `Fdio(f, m)`
  unfoldable pub fdio : (Text → Flags → Option H) → Text → Mode → Opened H
  fdio open_ f m = if is_standard f then fd_stream open_ f m else or_error (open_ f (fmode m))
