-- ===== src/Stdio/Temp/Life.antt =====
-- A temporary file from its constructor to its destructor.
use rs_io.FilePath.Files.Update.{remove}
use rs_io.Base.{
  Bool, Bool-cases, List, Option, [], ap, arith, false, if◌then◌else◌, inl, inr, is_nil, none, not,
  refl, some, subst, suc, sym, true, zero, ℕ, ◌&&◌, ◌++◌, ◌==◌, ◌∙◌, ◌∷◌, ◌≡◌,
}
use rs_io.Text.{Text, text_eq, find_at, text_eq_sound}
use rs_io.Stdio.Descriptors.{
  Calls, OpenFlag, check_for_error, open_file, o_rdonly, o_wronly, o_rdwr, o_creat, o_trunc,
  o_append, o_excl, o_cloexec,
}
use rs_io.Stdio.Temp.{
  FileCalls, temp_flags, create, after_open, no_such_directory, try_name, name, finish, temp, Made,
  destroy, random_number,
}
use rs_io.Stdio.Cfile.Calls.{FileCalls, reset}
use rs_io.FilePath.Resolve.{
  Environment, accepted, resolved, resolve, from_home, get_user_home, tilde_user,
}
use rs_io.FilePath.Canonical.{slash}
use rs_io.FilePath.Names.{is_absolute, join}
use rs_io.FilePath.Files.System.{System}
use rs_io.Stdio.Temp.First.{IsOpen, create-once}

-- The flags of `open` that bear on the set of files.
abbrev pub creates : List OpenFlag → Bool
creates [] = false
creates (o_creat ∷ fs) = true
creates (o_rdonly ∷ fs) = creates fs
creates (o_wronly ∷ fs) = creates fs
creates (o_rdwr ∷ fs) = creates fs
creates (o_trunc ∷ fs) = creates fs
creates (o_append ∷ fs) = creates fs
creates (o_excl ∷ fs) = creates fs
creates (o_cloexec ∷ fs) = creates fs

abbrev pub is_exclusive : List OpenFlag → Bool
is_exclusive [] = false
is_exclusive (o_excl ∷ fs) = true
is_exclusive (o_rdonly ∷ fs) = is_exclusive fs
is_exclusive (o_wronly ∷ fs) = is_exclusive fs
is_exclusive (o_rdwr ∷ fs) = is_exclusive fs
is_exclusive (o_creat ∷ fs) = is_exclusive fs
is_exclusive (o_trunc ∷ fs) = is_exclusive fs
is_exclusive (o_append ∷ fs) = is_exclusive fs
is_exclusive (o_cloexec ∷ fs) = is_exclusive fs

-- What `open` does to the set of files, by O_CREAT, O_EXCL and the descriptor: with both flags it succeeds
-- only for a new file; with O_CREAT alone the file may have been there; without O_CREAT, and if it fails,
-- there is no new file.
abbrev pub Opened :
    {W : Type 0} → (W → Text → Bool) → W → W → Text → Bool → Bool → Option ℕ → Type 0
Opened files w w' f creat excl none = (g : Text) → files w' g ≡ files w g
Opened files w w' f false excl (some fd) = (g : Text) → files w' g ≡ files w g
Opened files w w' f true false (some fd) =
    (g : Text) → files w' g ≡ (if text_eq g f then true else files w g)
Opened files w w' f true true (some fd) =
    (files w f ≡ false) × ((g : Text) → files w' g ≡ (if text_eq g f then true else files w g))

-- What the calls do to the set of files, and that an `open` that fails sets errno.
pub record KeepsFiles {W : Type 0} (K : Calls W) (F : FileCalls W) (fs : System W)
    (files : W → Text → Bool) : Type 0 where
  pub open_files :
      (w : W) (f : Text) (flags : List OpenFlag) (perm : ℕ)
      → let (w', fd, err) = K.open_ w f flags perm in
        IsOpen fd err × Opened files w w' f (creates flags) (is_exclusive flags) fd
  pub fdopen_same : (w : W) (fd : Option ℕ) (g : Text) → files (F.fdopen w fd).0 g ≡ files w g
  pub fclose_same : (w : W) (fp : ℕ) (g : Text) → files (F.fclose w fp).0 g ≡ files w g
  pub unlink_removes :
      (w : W) (f : Text)
      → (fs.unlink w f).1 ≡ none
      → (g : Text) → files (fs.unlink w f).0 g ≡ (if text_eq g f then false else files w g)

accepted-nonempty : (f g : Text) → accepted f ≡ some g → is_nil g ≡ false
unfolding is_absolute
accepted-nonempty [] g h = absurd cc
accepted-nonempty (c ∷ f) [] h = absurd (ground arith)
accepted-nonempty (c ∷ f) (d ∷ g) h = refl

resolved-nonempty :
    (env : Environment) (f g : Text) (o : Option Text)
    → resolved env f o ≡ some g
    → is_nil g ≡ false
resolved-nonempty env f g none h = absurd cc
resolved-nonempty env f g (some r) h = accepted-nonempty _ g h

resolve-nonempty : (env : Environment) (f g : Text) → resolve env f ≡ some g → is_nil g ≡ false
unfolding resolve
resolve-nonempty env [] g h = resolved-nonempty env [] g (some env.current_directory) h
resolve-nonempty env (c ∷ f) g h =
    resolved-nonempty env (c ∷ f) g
      (if c == b'~'
        then from_home (c ∷ f) (find_at 0 slash (c ∷ f))
            (get_user_home env (tilde_user (c ∷ f) (find_at 0 slash (c ∷ f))))
        else some [])
      h

module _ {W : Type 0} (K : Calls W) (F : FileCalls W) (fs : System W) (files : W → Text → Bool)
    (keeps : KeepsFiles K F fs files) where
  reset-same : (w : W) (file : Option ℕ) (g : Text) → files (reset F w file).0 g ≡ files w g
  unfolding reset
  reset-same w none g = refl
  reset-same w (some fp) g = elim (Bool-cases (F.is_standard fp)) [
    | inl standard ↦ rw standard refl
    | inr other ↦ rw other (keeps.fclose_same w fp g)
  ]

  not_missing :
      (b : Bool) (w w' : W) (r : W × Made) (file : Option ℕ) (where_ : Text)
      → (if b then (w, no_such_directory) else r) ≡ (w', temp file where_)
      → r ≡ (w', temp file where_)
  not_missing true w w' r file where_ e = absurd cc
  not_missing false w w' r file where_ e = e

  -- What holds of the result of the constructor.
  abbrev Holds : W → W → Text → Type 0
  Holds w w' f =
      (files w f ≡ false) × ((g : Text) → files w' g ≡ (if text_eq g f then true else files w g))

  finish-Holds :
      (w w1 w' : W) (f where_ : Text) (fd file : Option ℕ) (err : ℕ)
      → IsOpen fd err
      → Opened files w w1 f (creates temp_flags) (is_exclusive temp_flags) fd
      → finish K F fs (after_open K F fs f (w1, check_for_error err fd)) ≡ (w', temp file where_)
      → (where_ ≡ f) × Holds w w' f
  unfolding check_for_error
  finish-Holds w w1 w' f where_ none file zero o c e = absurd o
  finish-Holds w w1 w' f where_ fd file (suc err) o c e = absurd cc
  finish-Holds w w1 w' f where_ (some fd) file zero o c e =
      let made : temp (F.fdopen w1 (some fd)).1 f ≡ temp file where_ = ap (λ p. p.1) e in
      let state : (F.fdopen w1 (some fd)).0 ≡ w' = ap (λ p. p.0) e in
      (cc, (c.0, λ g. ap (λ v. files v g) (sym state) ∙ (keeps.fdopen_same w1 (some fd) g ∙ c.1 g)))

  module _ (hex : ℕ → Text) (env : Environment) (dir prefix : Text) (draws : ℕ → ℕ × ℕ) where
    try_name-Holds :
        (w w' : W) (f : Option Text) (file : Option ℕ) (where_ : Text)
        → finish K F fs (try_name K F fs hex env dir prefix w f) ≡ (w', temp file where_)
        → Holds w w' where_ × (f ≡ some where_)
    unfolding open_file
    try_name-Holds w w' none file where_ e = absurd cc
    try_name-Holds w w' (some f) file where_ e =
        let (w1, fd, err) = K.open_ w f temp_flags 438 in
        let (o, c) = keeps.open_files w f temp_flags 438 in
        let (same, h) = finish-Holds w w1 w' f where_ fd file err o c e in
        (subst (Holds w w') (sym same) h, ap some (sym same))

    create-Holds :
        (w w' : W) (file : Option ℕ) (where_ : Text)
        → create K F fs hex env dir prefix draws w ≡ (w', temp file where_)
        → Holds w w' where_ × (is_nil where_ ≡ false)
    unfolding name
    create-Holds w w' file where_ e =
        let once =
          create-once K F fs hex env dir prefix (λ v f. (keeps.open_files v f temp_flags 438).0)
            draws w in
        let (h, named) =
          try_name-Holds w w' (name K F fs hex env dir prefix (draws 0)) file where_ (
            not_missing (not (is_nil dir) && not (fs.is_directory w dir)) w w' _ file where_
              (sym once ∙ e)) in
        (h, resolve-nonempty env (join dir (prefix ++ hex (random_number (draws 0)))) where_ named)

    -- Let `open` do to the set of files what O_CREAT and O_EXCL among its flags say, and set errno if it
    -- fails; let fdopen and fclose leave the set as it is, and let unlink remove the file if it succeeds.
    -- Then, if the constructor with a directory and a prefix makes an object, its file is new: there was
    -- none of that name before. If the call that removes it succeeds too, then after the destructor the
    -- files are those that there were before.
    pub create-destroy :
        (w w' : W) (file : Option ℕ) (where_ : Text)
        → create K F fs hex env dir prefix draws w ≡ (w', temp file where_)
        → (fs.unlink (reset F w' file).0 where_).1 ≡ none
        → (files w where_ ≡ false)
          × ((g : Text) → files (destroy K F fs w' file where_) g ≡ files w g)
    unfolding destroy remove
    create-destroy w w' file where_ e u =
        let ((new, after), some_name) = create-Holds w w' file where_ e in
        (
          new,
          λ g.
              rw (some_name, u)
                (keeps.unlink_removes (reset F w' file).0 where_ u g
                  ∙ elim (Bool-cases (text_eq g where_)) [
                    | inl it ↦ rw it (sym new ∙ ap (files w) (sym (text_eq_sound g where_ it)))
                    | inr other ↦
                        let same : files w' g ≡ files w g = after g ∙ rw other refl in
                        rw other (reset-same w' file g ∙ same)
                  ]),
        )
