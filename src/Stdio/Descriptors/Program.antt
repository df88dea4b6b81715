-- ===== src/Stdio/Descriptors/Program.antt =====
-- A program that holds its descriptors in objects of the class Fdio: who owns the descriptors that are
-- open. The function `dup(f)` is left out: it can close and take a descriptor of another object.
use rs_io.Text.{Text}
use rs_io.Time.{ℤ}
use rs_io.Stdio.Descriptors.{
  Calls, OpenFlag, Result, returned, io_error, open_file, reset, close, flush, read, seek, tell,
  write, dup, null, pipe, null_device, o_rdwr, o_cloexec,
}
use rs_io.Base.{
  Bool, List, Option, [], false, if◌then◌else◌, none, some, suc, true, zero, ℕ, ◌+◌, ◌<◌, ◌==◌, ◌∷◌,
  ◌≡◌, ◌≤◌,
}

-- The calls of a program that holds its objects in a list, and names them by their places.
pub data Call : Type 0 where
  opens : Text → List OpenFlag → ℕ → Call
  opens_null makes_pipe : Call
  dups closes flushes tells destroys releases : ℕ → Call
  moves : ℕ → ℕ → Call
  reads : ℕ → ℕ → Call
  writes : ℕ → Text → Call
  seeks : ℕ → ℤ → ℕ → Call

-- The descriptor of the object at a place.
unfoldable pub held : List (Option ℕ) → ℕ → Option ℕ
held [] i = none
held (x ∷ xs) zero = x
held (x ∷ xs) (suc i) = held xs i

unfoldable pub let_go : List (Option ℕ) → ℕ → List (Option ℕ)
let_go [] i = []
let_go (x ∷ xs) zero = none ∷ xs
let_go (x ∷ xs) (suc i) = x ∷ let_go xs i

-- The object at a place takes a descriptor; a place behind the last one is that of a new object.
unfoldable pub put : List (Option ℕ) → ℕ → Option ℕ → List (Option ℕ)
put [] j v = v ∷ []
put (x ∷ xs) zero v = v ∷ xs
put (x ∷ xs) (suc j) v = x ∷ put xs j v

-- An object that was made is kept; after an exception there is none.
unfoldable pub keep : List (Option ℕ) → Result (Option ℕ) → List (Option ℕ)
keep xs (returned x) = x ∷ xs
keep xs (io_error e) = xs

unfoldable pub keep_both : List (Option ℕ) → Result (Option ℕ × Option ℕ) → List (Option ℕ)
keep_both xs (returned (x, y)) = x ∷ y ∷ xs
keep_both xs (io_error e) = xs

abbrev pub hit : ℕ → ℕ → ℕ
hit v d = if v == d then 1 else 0

abbrev pub owns : Option ℕ → ℕ → ℕ
owns none d = 0
owns (some v) d = hit v d

-- How many of the objects have a descriptor.
abbrev pub owned : List (Option ℕ) → ℕ → ℕ
owned [] d = 0
owned (x ∷ xs) d = owns x d + owned xs d

abbrev pub tally : List ℕ → ℕ → ℕ
tally [] d = 0
tally (v ∷ vs) d = hit v d + tally vs d

-- The objects, the descriptors that `release` has given to the caller, and those that a call gave together
-- with an errno that is not zero, for which Fdio throws and makes no object.
pub record Program (W : Type 0) : Type 0 where
  pub world : W
  pub objects : List (Option ℕ)
  pub given : List ℕ
  pub lost : List ℕ

abbrev pub add_given : Option ℕ → List ℕ → List ℕ
add_given none vs = vs
add_given (some v) vs = v ∷ vs

-- The descriptor that a call gave although it set errno.
abbrev pub add_lost : Option ℕ → ℕ → List ℕ → List ℕ
add_lost none err vs = vs
add_lost (some v) zero vs = vs
add_lost (some v) (suc e) vs = v ∷ vs

module _ {W : Type 0} (K : Calls W) where
  -- The program after a function that makes an object, by the answer of the call that it makes.
  abbrev pub made : Program W → W × Result (Option ℕ) → W × Option ℕ × ℕ → Program W
  made s (w', r) (_, rc, err) = record {
    world = w';
    objects = keep s.objects r;
    given = s.given;
    lost = add_lost rc err s.lost;
  }

  unfoldable pub step : Program W → Call → Program W
  step s (opens f flags perm) =
      made s (open_file K s.world f flags perm) (K.open_ s.world f flags perm)
  step s opens_null =
      made s (null K s.world) (K.open_ s.world null_device (o_rdwr ∷ o_cloexec ∷ []) 438)
  step s makes_pipe =
      let (w', r) = pipe K s.world in record s { world = w'; objects = keep_both s.objects r }
  step s (dups i) = made s (dup K s.world (held s.objects i)) (K.dup s.world (held s.objects i))
  step s (closes i) = record s {
    world = (close K s.world (held s.objects i)).0;
    objects = let_go s.objects i;
  }
  step s (destroys i) = record s {
    world = (reset K s.world (held s.objects i)).0;
    objects = let_go s.objects i;
  }
  step s (releases i) = record s {
    objects = let_go s.objects i;
    given = add_given (held s.objects i) s.given;
  }
  -- The object at `j` is assigned the one at `i` by a move.
  step s (moves i j) =
      let rest = let_go s.objects i in
      record s {
        world = (reset K s.world (held rest j)).0;
        objects = put rest j (held s.objects i);
      }
  step s (flushes i) = record s { world = (flush K s.world (held s.objects i)).0 }
  step s (tells i) = record s { world = (tell K s.world (held s.objects i)).0 }
  step s (reads i n) = record s { world = (read K s.world (held s.objects i) n).0 }
  step s (writes i t) = record s { world = (write K s.world (held s.objects i) t).0 }
  step s (seeks i o which) = record s { world = (seek K s.world (held s.objects i) o which).0 }

  unfoldable pub run : Program W → List Call → Program W
  run s [] = s
  run s (k ∷ ks) = run (step s k) ks

-- How many times a descriptor is open.
module _ {W : Type 0} (opened : W → ℕ → ℕ) where
  abbrev pub Same : W → W → Type 0
  Same w w' = (d : ℕ) → opened w' d ≡ opened w d

  -- A call that gives a descriptor has opened it, whatever is in errno; one that fails sets errno.
  abbrev pub Made : W → W → Option ℕ → ℕ → Type 0
  Made w w' none zero = ⊥
  Made w w' none (suc e) = Same w w'
  Made w w' (some v) err = (d : ℕ) → opened w' d ≡ hit v d + opened w d

  abbrev pub MadeBoth : W → W → Bool → Option ℕ → Option ℕ → ℕ → Type 0
  MadeBoth w w' false (some u) (some v) e = (d : ℕ) → opened w' d ≡ hit u d + (hit v d + opened w d)
  MadeBoth w w' false none y e = ⊥
  MadeBoth w w' false (some u) none e = ⊥
  MadeBoth w w' true x y zero = ⊥
  MadeBoth w w' true x y (suc e) = Same w w'

-- What the system says of the calls: those that fail set errno and open nothing, those that succeed leave
-- anything in errno, and `close` releases the descriptor also if it reports an error.
pub record Posix {W : Type 0} (K : Calls W) (opened : W → ℕ → ℕ) : Type 0 where
  pub at_most_once : (w : W) (d : ℕ) → opened w d ≤ 1
  pub open_new :
      (w : W) (f : Text) (flags : List OpenFlag) (perm : ℕ)
      → let (w', rc, err) = K.open_ w f flags perm in Made opened w w' rc err
  pub dup_new : (w : W) (fd : Option ℕ) → let (w', rc, err) = K.dup w fd in Made opened w w' rc err
  pub pipe_new :
      (w : W) → let (w', failed, x, y, err) = K.pipe w in MadeBoth opened w w' failed x y err
  pub close_releases :
      (w : W) (v : ℕ) → opened w v ≡ 1 → (d : ℕ) → hit v d + opened (K.close w v).0 d ≡ opened w d
  pub fsync_same : (w : W) (fd : Option ℕ) → Same opened w (K.fsync w fd).0
  pub read_same : (w : W) (fd : Option ℕ) (n : ℕ) → Same opened w (K.read w fd n).0
  pub write_same : (w : W) (fd : Option ℕ) (s : Text) → Same opened w (K.write w fd s).0
  pub lseek_same :
      (w : W) (fd : Option ℕ) (o : ℤ) (which : ℕ) → Same opened w (K.lseek w fd o which).0

-- Each descriptor that is open, but for the standard ones, is owned by one object, or was given to the
-- caller, or was lost, each exactly once, and no other is in one of these places.
abbrev pub Accounts : {W : Type 0} → (W → ℕ → ℕ) → W → List (Option ℕ) → List ℕ → List ℕ → Type 0
Accounts opened w xs g l = (d : ℕ) → 2 < d → owned xs d + (tally g d + tally l d) ≡ opened w d

abbrev pub IsOwned : {W : Type 0} → (W → ℕ → ℕ) → Program W → Type 0
IsOwned opened s = Accounts opened s.world s.objects s.given s.lost
