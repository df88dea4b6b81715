-- ===== src/FilePath/Files/System.antt =====
-- The file system as path.cpp sees it: the answers of its system calls, and the states they leave.
use rs_io.Text.{Text}
use rs_io.Base.{Bool, List, Option, [], false, none, some, true, ℕ, ◌∷◌}

-- The values of errno that the sources test, and any other.
pub data Errno : Type 0 where
  eexist enoent enotdir einval exdev : Errno
  other : ℕ → Errno

-- What std::system_error is made from, besides the name: a condition, or errno. `no_fuel` stands for a
-- recursion that goes on beyond the bound.
pub data Reason : Type 0 where
  no_such_file file_exists is_a_directory no_fuel : Reason
  errno : Errno → Reason

pub data Failure : Type 0 where
  failure : Reason → Text → Failure

-- The queries of the class, and the calls that change something; `none` is success. A directory is listed
-- as a whole when its range is made. `open_in` gives the blocks that `fread` will deliver, each with its
-- errno.
pub record System {ℓ} (S : Type ℓ) : Type ℓ where
  pub exists : S → Text → Bool
  pub is_directory : S → Text → Bool
  pub is_symlink : S → Text → Bool
  pub id : S → Text → ℕ × ℕ
  pub directory : S → Text → List Text
  pub readlink : S → Text → Text × Option Errno
  pub mkdir : S → Text → S × Option Errno
  pub unlink : S → Text → S × Option Errno
  pub rename : S → Text → Text → S × Option Errno
  pub symlink : S → Text → Text → S × Option Errno
  pub open_in : S → Text → List (Text × Option Errno) × Option Errno
  pub open_out : S → Text → S × Option Errno
  pub fwrite : S → Text → Text → S × Option Errno

-- The flags that the update functions look at.
pub record Flags : Type 0 where
  pub overwrite : Bool
  pub recurse : Bool
  pub may_copy : Bool

abbrev pub none_set : Flags
none_set = record { overwrite = false; recurse = false; may_copy = false }

abbrev pub recursively : Flags
recursively = record { overwrite = false; recurse = true; may_copy = false }

-- The state that a call ends in, and its failure if it throws.
abbrev pub Outcome {ℓ} : Type ℓ → Type ℓ
Outcome S = S × Option Failure

module _ {ℓ} {S : Type ℓ} where
  -- What follows a call, if that does not throw.
  infixl 5 ◌>>=◌
  abbrev pub ◌>>=◌ : Outcome S → (S → Outcome S) → Outcome S
  (s, none) >>= k = k s
  (s, some e) >>= k = (s, some e)

  abbrev pub for_each : (Text → S → Outcome S) → List Text → S → Outcome S
  for_each f [] s = (s, none)
  for_each f (p ∷ ps) s = f p s >>= for_each f ps

  -- A call whose errno is thrown with a name.
  abbrev pub checked : Text → S × Option Errno → Outcome S
  checked p (s, none) = (s, none)
  checked p (s, some e) = (s, some (failure (errno e) p))
