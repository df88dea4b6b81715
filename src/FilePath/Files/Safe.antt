-- ===== src/FilePath/Files/Safe.antt =====
-- Without `overwrite`, nothing is removed: what holds of the file system and is kept by making
-- directories and links and by writing new files is kept by the whole call.
use rs_io.Text.{Text, text_eq}
use rs_io.Base.{
  Bool, Bool-cases, List, Option, [], arith, false, if◌then◌else◌, inl, inr, is_nil, none, not,
  refl, some, suc, true, zero, ℕ, ◌&&◌, ◌||◌, ◌∷◌, ◌≡◌,
}
use rs_io.FilePath.Names.{split_path, join}
use rs_io.FilePath.Files.System.{
  no_such_file, file_exists, is_a_directory, Errno, eexist, enoent, enotdir, einval, exdev, other,
  no_fuel, errno, System, Flags, none_set, recursively, Outcome, ◌>>=◌, for_each, checked,
}
use rs_io.FilePath.Files.Update.{
  remove, same_id, made, make_directory, resolve_symlink, names, symlink_or, linked, thrown,
  copy_blocks, copy_opened, link_copy, copy_kind, copy_to,
}

-- A property that every call but `unlink` and `rename` keeps.
pub record IsKept {ℓ} {S : Type ℓ} (fs : System S) (I : S → Type 0) : Type ℓ where
  pub by_mkdir : (s : S) (p : Text) → I s → I (fs.mkdir s p).0
  pub by_symlink : (s : S) (p q : Text) → I s → I (fs.symlink s p q).0
  pub by_open : (s : S) (p : Text) → I s → I (fs.open_out s p).0
  pub by_write : (s : S) (p t : Text) → I s → I (fs.fwrite s p t).0

not_taken : (e o : Bool) → (e && not o) ≡ false → o ≡ false → e ≡ false
not_taken e o h k = ground arith

module _ {ℓ} {S : Type ℓ} (fs : System S) (I : S → Type 0) (kept : IsKept fs I) where
  then-I : (o : Outcome S) (k : S → Outcome S) → I o.0 → ((t : S) → I t → I (k t).0) → I (o >>= k).0
  then-I (s, none) k i h = h s i
  then-I (s, some e) k i h = i

  if-I : (b : Bool) (x y : Outcome S) → I x.0 → I y.0 → I (if b then x else y).0
  if-I true x y i j = i
  if-I false x y i j = j

  for_each-I :
      (f : Text → S → Outcome S) (ps : List Text) (s : S)
      → ((p : Text) (t : S) → I t → I (f p t).0)
      → I s
      → I (for_each f ps s).0
  for_each-I f [] s h i = i
  for_each-I f (p ∷ ps) s h i =
      then-I (f p s) (for_each f ps) (h p s i) (λ t j. for_each-I f ps t h j)

  checked-I : (p : Text) (r : S × Option Errno) → I r.0 → I (checked p r).0
  checked-I p (s, none) i = i
  checked-I p (s, some e) i = i

  made-I :
      (parents : Flags → Text → S → Outcome S) (g : Flags) (p : Text) (r : S × Option Errno)
      → ((q : Text) (t : S) → I t → I (parents g q t).0)
      → g.overwrite ≡ false
      → I r.0
      → I (made fs parents g p r).0
  made-I parents g p (s, none) h o i = i
  made-I parents g p (s, some eexist) h o i =
      let second = λ (t : S). checked p (fs.mkdir t p) in
      rw o (if-I (fs.is_directory s p) (s, none) (thrown fs (errno eexist) p s) i i)
  made-I parents g p (s, some enoent) h o i =
      let again = λ (t : S) (j : I t). checked-I p (fs.mkdir t p) (kept.by_mkdir t p j) in
      let above = parents g (split_path p).0 s in
      let second = λ (t : S). checked p (fs.mkdir t p) in
      if-I (g.recurse && not (is_nil p))
        (if text_eq (split_path p).0 p then thrown fs (errno enoent) p s else (above >>= second))
        (second s)
        (if-I (text_eq (split_path p).0 p) (thrown fs (errno enoent) p s) (above >>= second) i
          (then-I above second (h (split_path p).0 s i) again))
        (again s i)
  made-I parents g p (s, some enotdir) h o i = checked-I p (fs.mkdir s p) (kept.by_mkdir s p i)
  made-I parents g p (s, some einval) h o i = checked-I p (fs.mkdir s p) (kept.by_mkdir s p i)
  made-I parents g p (s, some exdev) h o i = checked-I p (fs.mkdir s p) (kept.by_mkdir s p i)
  made-I parents g p (s, some (other n)) h o i = checked-I p (fs.mkdir s p) (kept.by_mkdir s p i)

  make_directory-I :
      (f : ℕ) (g : Flags) (p : Text) (s : S)
      → g.overwrite ≡ false
      → I s
      → I (make_directory fs f g p s).0
  unfolding make_directory
  make_directory-I zero g p s o i = i
  make_directory-I (suc f) g p s o i =
      made-I (make_directory fs f) g p (fs.mkdir s p) (λ q t. make_directory-I f g q t o) o
        (kept.by_mkdir s p i)

  linked-I :
      (p : Text) (r : S × Option Errno) (copy : S → Outcome S)
      → I r.0
      → I (linked fs none_set copy p r).0
  linked-I p (s, none) copy i = i
  linked-I p (s, some e) copy i = i

  symlink-I :
      (copy : Text → Text → S → Outcome S) (p q : Text) (s : S)
      → I s
      → I (symlink_or fs copy none_set p q s).0
  unfolding symlink_or
  symlink-I copy p q s i =
      elim (Bool-cases (fs.is_symlink s q && names fs p (resolve_symlink fs q s))) [
        | inl there ↦ rw there i
        | inr new ↦ rw new (linked-I q (fs.symlink s p q) (copy p q) (kept.by_symlink s p q i))
      ]

  copy_blocks-I :
      (p q : Text) (bs : List (Text × Option Errno)) (s : S) → I s → I (copy_blocks fs p q bs s).0
  copy_blocks-I p q [] s i = i
  copy_blocks-I p q ((t, some e) ∷ bs) s i = i
  copy_blocks-I p q (([], none) ∷ bs) s i = copy_blocks-I p q bs s i
  copy_blocks-I p q ((c ∷ t, none) ∷ bs) s i =
      then-I (checked q (fs.fwrite s q (c ∷ t))) (copy_blocks fs p q bs)
        (checked-I q (fs.fwrite s q (c ∷ t)) (kept.by_write s q (c ∷ t) i)) (copy_blocks-I p q bs)

  copy_opened-I :
      (p q : Text) (r : List (Text × Option Errno) × Option Errno) (s : S)
      → I s
      → I (copy_opened fs p q r s).0
  copy_opened-I p q (bs, some e) s i = i
  copy_opened-I p q (bs, none) s i =
      then-I (checked q (fs.open_out s q)) (copy_blocks fs p q bs)
        (checked-I q (fs.open_out s q) (kept.by_open s q i)) (copy_blocks-I p q bs)

  link_copy-I :
      (p : Text) (r : Text × Option Errno) (k : Text → S → Outcome S) (s : S)
      → ((t : Text) → I (k t s).0)
      → I s
      → I (link_copy fs p r k s).0
  link_copy-I p (t, none) k s h i = h t
  link_copy-I p (t, some e) k s h i = i

  copy_kind-I :
      (copy : Text → Text → S → Outcome S) (f : ℕ) (p q : Text) (s : S)
      → ((c d : Text) (t : S) → I t → I (copy c d t).0)
      → I s
      → I (copy_kind fs copy f p q s).0
  unfolding copy_kind
  copy_kind-I copy f p q s h i =
      if-I (fs.is_symlink s p)
        (link_copy fs p (resolve_symlink fs p s)
          (λ t. symlink_or fs (λ _ _. thrown fs no_fuel p) none_set t q) s)
        (if fs.is_directory s p
          then (make_directory fs (suc f) none_set q s >>= inside)
          else copy_opened fs p q (fs.open_in s p) s)
        (link_copy-I p (resolve_symlink fs p s)
          (λ t. symlink_or fs (λ _ _. thrown fs no_fuel p) none_set t q) s
          (λ t. symlink-I (λ _ _. thrown fs no_fuel p) t q s i) i)
        (if-I (fs.is_directory s p) (make_directory fs (suc f) none_set q s >>= inside)
          (copy_opened fs p q (fs.open_in s p) s)
          (then-I (make_directory fs (suc f) none_set q s) inside
            (make_directory-I (suc f) none_set q s refl i)
            (λ t j.
              for_each-I (λ c. copy c (join q (split_path c).1)) (fs.directory t p) t
                (λ c. h c (join q (split_path c).1)) j))
          (copy_opened-I p q (fs.open_in s p) s i))
    where
      inside : S → Outcome S
      inside t = for_each (λ c. copy c (join q (split_path c).1)) (fs.directory t p) t

  guards-I :
      (a b c d : Bool) (x y z v rest : Outcome S)
      → I x.0
      → I y.0
      → I z.0
      → I v.0
      → (d ≡ false → I rest.0)
      → I (if a then x else if b then y else if c then z else if d then v else rest).0
  guards-I a b c true x y z v rest i j k l h =
      if-I a x (if b then y else if c then z else v) i
        (if-I b y (if c then z else v) j (if-I c z v k l))
  guards-I a b c false x y z v rest i j k l h =
      if-I a x (if b then y else if c then z else rest) i
        (if-I b y (if c then z else rest) j (if-I c z rest k (h refl)))

  -- `copy_to` without `overwrite` keeps what is kept by making directories and links and by writing: it
  -- neither removes nor renames anything, whatever the calls answer and wherever it ends.
  pub copy_to-kept :
      (f : ℕ) (g : Flags) (p q : Text) (s : S)
      → g.overwrite ≡ false
      → I s
      → I (copy_to fs f g p q s).0
  unfolding copy_to
  copy_to-kept zero g p q s o i = i
  copy_to-kept (suc f) g p q s o i =
      let last =
        ((if fs.exists s q then remove fs f true q s else (s, none))
          >>= copy_kind fs (copy_to fs f recursively) f p q) in
      guards-I (not (fs.exists s p)) (text_eq p q || same_id fs (fs.id s p) (fs.id s q))
        (fs.is_directory s p && not g.recurse) (fs.exists s q && not g.overwrite)
        (thrown fs no_such_file p s) (thrown fs file_exists q s) (thrown fs is_a_directory p s)
        (thrown fs file_exists q s) last i i i i
        (λ free. rw (not_taken (fs.exists s q) g.overwrite free o) (
          copy_kind-I (copy_to fs f recursively) f p q s
            (λ c d t. copy_to-kept f recursively c d t refl) i))
