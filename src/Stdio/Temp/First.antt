-- ===== src/Stdio/Temp/First.antt =====
-- The constructor of a named temporary file tries one name.
use rs_io.Base.{
  Option, [], ap, if◌then◌else◌, is_nil, none, not, refl, some, suc, sym, zero, ℕ, ◌&&◌, ◌∙◌, ◌≡◌,
}
use rs_io.Text.{Text}
use rs_io.Stdio.Descriptors.{Calls, check_for_error, open_file}
use rs_io.Stdio.Temp.{
  FileCalls, Tried, tried, raised, try_loop, temp_flags, create, after_open, no_such_directory,
  try_name, name, finish,
}
use rs_io.Stdio.Cfile.Calls.{FileCalls}
use rs_io.FilePath.Resolve.{Environment}
use rs_io.FilePath.Files.System.{System}

-- A file that was opened.
abbrev pub IsOpen : Option ℕ → ℕ → Type 0
IsOpen none zero = ⊥
IsOpen (some fd) zero = Unit
IsOpen fd (suc e) = Unit

module _ {W : Type 0} (K : Calls W) (F : FileCalls W) (fs : System W) where
  module _ (hex : ℕ → Text) (env : Environment) (dir prefix : Text) where
    -- A round after which the loop ends.
    abbrev Stops : W × Tried K F fs → Type 0
    Stops (w, tried none f err) = ⊥
    Stops (w, tried (some fd) f err) = Unit
    Stops (w, raised e) = Unit

    try_loop-Stops :
        (n : ℕ) (draws : ℕ → ℕ × ℕ) (i : ℕ) (st : W × Tried K F fs)
        → Stops st
        → try_loop K F fs hex env dir prefix n draws i st ≡ st
    unfolding try_loop
    try_loop-Stops zero draws i st h = refl
    try_loop-Stops (suc n) draws i (w, tried none f err) h = absurd h
    try_loop-Stops (suc n) draws i (w, tried (some fd) f err) h = refl
    try_loop-Stops (suc n) draws i (w, raised e) h = refl

    module _
        (opens : (w : W) (f : Text)
          → let (w', fd, err) = K.open_ w f temp_flags 438 in IsOpen fd err) where
      after_open-Stops :
          (f : Text) (w : W) (fd : Option ℕ) (err : ℕ)
          → IsOpen fd err
          → Stops (after_open K F fs f (w, check_for_error err fd))
      unfolding check_for_error
      after_open-Stops f w none zero h = absurd h
      after_open-Stops f w (some fd) zero h = tt
      after_open-Stops f w fd (suc e) h = tt

      try_name-Stops : (w : W) (f : Option Text) → Stops (try_name K F fs hex env dir prefix w f)
      unfolding open_file
      try_name-Stops w none = tt
      try_name-Stops w (some f) =
          let (w', fd, err) = K.open_ w f temp_flags 438 in after_open-Stops f w' fd err (opens w f)

      try_loop-first :
          (n : ℕ) (draws : ℕ → ℕ × ℕ) (w : W)
          → try_loop K F fs hex env dir prefix (suc n) draws 0 (w, tried none [] 0)
            ≡ try_name K F fs hex env dir prefix w (name K F fs hex env dir prefix (draws 0))
      unfolding try_loop
      try_loop-first n draws w =
          let first = name K F fs hex env dir prefix (draws 0) in
          try_loop-Stops n draws 1 (try_name K F fs hex env dir prefix w first)
            (try_name-Stops w first)

      pub create-once :
          (draws : ℕ → ℕ × ℕ) (w : W)
          → create K F fs hex env dir prefix draws w ≡ (
              if not (is_nil dir) && not (fs.is_directory w dir)
              then (w, no_such_directory)
              else finish K F fs
                  (try_name K F fs hex env dir prefix w (name K F fs hex env dir prefix (draws 0))))
      unfolding create
      create-once draws w =
          ap
            (λ (st : W × Tried K F fs).
              if not (is_nil dir) && not (fs.is_directory w dir)
              then (w, no_such_directory)
              else finish K F fs st)
            (try_loop-first 99 draws w)

      -- If `open` gives a descriptor or sets errno, the constructor depends on the numbers of the first
      -- round only, although the loop has a hundred: an IoError of the first `open`, as for a name that
      -- is in use, leaves the loop, and so does an open file.
      pub create-first :
          (draws draws' : ℕ → ℕ × ℕ) (w : W)
          → draws 0 ≡ draws' 0
          → create K F fs hex env dir prefix draws w ≡ create K F fs hex env dir prefix draws' w
      create-first draws draws' w e =
          create-once draws w
          ∙ (ap
                (λ xy.
                  if not (is_nil dir) && not (fs.is_directory w dir)
                  then (w, no_such_directory)
                  else finish K F fs
                      (try_name K F fs hex env dir prefix w (name K F fs hex env dir prefix xy)))
                e
              ∙ sym (create-once draws' w))
