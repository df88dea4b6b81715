-- ===== src/FilePath/Files/Update.antt =====
-- remove, make_directory, make_symlink, copy_to and move_to of path.cpp. A recursive function takes fuel
-- for the depth of its recursion.
use rs_io.Text.{Text, text_eq}
use rs_io.Base.{
  Bool, List, Option, [], false, if◌then◌else◌, is_nil, none, not, some, suc, true, zero, ℕ, ◌&&◌,
  ◌==◌, ◌||◌, ◌∷◌,
}
use rs_io.FilePath.Files.System.{
  Errno, eexist, enoent, enotdir, einval, exdev, Reason, no_such_file, file_exists, is_a_directory,
  no_fuel, errno, failure, System, Flags, none_set, recursively, Outcome, ◌>>=◌, for_each, checked,
}
use rs_io.FilePath.Names.{split_path, join}

module _ {ℓ} {S : Type ℓ} (fs : System S) where
  open fs use {
    exists, is_directory, is_symlink, id, directory, readlink, mkdir, unlink, rename, symlink,
    open_in, open_out, fwrite,
  }

  abbrev pub thrown : Reason → Text → S → Outcome S
  thrown r p s = (s, some (failure r p))

  abbrev pub same_id : ℕ × ℕ → ℕ × ℕ → Bool
  same_id (a, b) (c, d) = a == c && b == d

  -- The last call of `remove`: ENOENT is no error.
  abbrev pub unlinked : Text → S × Option Errno → Outcome S
  unlinked p (s, none) = (s, none)
  unlinked p (s, some enoent) = (s, none)
  unlinked p (s, some e) = (s, some (failure (errno e) p))

  unfoldable pub remove : ℕ → Bool → Text → S → Outcome S
  remove zero recurse p s = thrown no_fuel p s
  remove (suc f) recurse p s =
      let children =
        if recurse && (is_directory s p && not (is_symlink s p)) then directory s p else [] in
      for_each (remove f true) children s >>= λ t. unlinked p (unlink t p)

  -- What `make_directory` does after a `mkdir` that failed; `again` is the second call of it.
  abbrev pub mkdir_failed :
      (Flags → Text → S → Outcome S) → Flags → Text → Errno → S → (S → Outcome S) → Outcome S
  mkdir_failed parents g p eexist s again =
      if is_directory s p
      then (s, none)
      else if not g.overwrite
      then thrown (errno eexist) p s
      else (remove 1 false p s >>= again)
  mkdir_failed parents g p enoent s again =
      if g.recurse && not (is_nil p)
      then if text_eq (split_path p).0 p
        then thrown (errno enoent) p s
        else (parents g (split_path p).0 s >>= again)
      else again s
  mkdir_failed parents g p e s again = again s

  abbrev pub made : (Flags → Text → S → Outcome S) → Flags → Text → S × Option Errno → Outcome S
  made parents g p (s, none) = (s, none)
  made parents g p (s, some e) = mkdir_failed parents g p e s (λ t. checked p (mkdir t p))

  unfoldable pub make_directory : ℕ → Flags → Text → S → Outcome S
  make_directory zero g p s = thrown no_fuel p s
  make_directory (suc f) g p s = made (make_directory f) g p (mkdir s p)

  -- `resolve_symlink`: a file that is no link stands for itself.
  abbrev pub resolved : Text → Text × Option Errno → Text × Option Errno
  resolved p (t, none) = (t, none)
  resolved p (t, some einval) = (p, none)
  resolved p (t, some enoent) = (p, none)
  resolved p (t, some enotdir) = (p, none)
  resolved p (t, some e) = (p, some e)

  unfoldable pub resolve_symlink : Text → S → Text × Option Errno
  resolve_symlink p s = resolved p (readlink s p)

  -- The test of `make_symlink` for a link that is already there; an error there is ignored.
  abbrev pub names : Text → Text × Option Errno → Bool
  names p (t, none) = text_eq t p
  names p (t, some e) = false

  abbrev pub linked : Flags → (S → Outcome S) → Text → S × Option Errno → Outcome S
  linked g copy link (s, none) = (s, none)
  linked g copy link (s, some e) = if not g.may_copy then thrown (errno e) link s else copy s

  -- `make_symlink`, with `copy_to(linkname, recurse)` given; the name in an error is that of the link.
  unfoldable pub symlink_or : (Text → Text → S → Outcome S) → Flags → Text → Text → S → Outcome S
  unfolding resolve_symlink remove
  symlink_or copy g p link s =
      if is_symlink s link && names p (resolve_symlink link s)
      then (s, none)
      else ((if g.overwrite && exists s link then remove 1 false link s else (s, none)) >>= λ t.
          linked g (copy p link) link (symlink t p link))

  -- The loop of `copy_to` over the blocks of a file.
  abbrev pub copy_blocks : Text → Text → List (Text × Option Errno) → S → Outcome S
  copy_blocks p q [] s = (s, none)
  copy_blocks p q ((t, some e) ∷ bs) s = thrown (errno e) p s
  copy_blocks p q (([], none) ∷ bs) s = copy_blocks p q bs s
  copy_blocks p q ((c ∷ t, none) ∷ bs) s = checked q (fwrite s q (c ∷ t)) >>= copy_blocks p q bs

  abbrev pub copy_opened : Text → Text → List (Text × Option Errno) × Option Errno → S → Outcome S
  copy_opened p q (bs, some e) s = thrown (errno e) p s
  copy_opened p q (bs, none) s = checked q (open_out s q) >>= copy_blocks p q bs

  abbrev pub link_copy : Text → Text × Option Errno → (Text → S → Outcome S) → S → Outcome S
  link_copy p (t, none) k s = k t s
  link_copy p (t, some e) k s = thrown (errno e) p s

  -- The three kinds of files that `copy_to` copies when its destination is free; `copy` is the call for
  -- what a directory holds.
  unfoldable pub copy_kind : (Text → Text → S → Outcome S) → ℕ → Text → Text → S → Outcome S
  unfolding symlink_or resolve_symlink make_directory
  copy_kind copy f p q s =
      if is_symlink s p
      then link_copy p (resolve_symlink p s)
          (λ t. symlink_or (λ _ _. thrown no_fuel p) none_set t q) s
      else if is_directory s p
      then (make_directory (suc f) none_set q s >>= λ t.
          for_each (λ c. copy c (join q (split_path c).1)) (directory t p) t)
      else copy_opened p q (open_in s p) s

  unfoldable pub copy_to : ℕ → Flags → Text → Text → S → Outcome S
  unfolding copy_kind remove
  copy_to zero g p q s = thrown no_fuel p s
  copy_to (suc f) g p q s =
      if not (exists s p)
      then thrown no_such_file p s
      else if text_eq p q || same_id (id s p) (id s q)
      then thrown file_exists q s
      else if is_directory s p && not g.recurse
      then thrown is_a_directory p s
      else if exists s q && not g.overwrite
      then thrown file_exists q s
      else ((if exists s q then remove f true q s else (s, none))
          >>= copy_kind (copy_to f recursively) f p q)

  unfoldable pub make_symlink : ℕ → Flags → Text → Text → S → Outcome S
  unfolding symlink_or copy_to
  make_symlink f g p link s = symlink_or (copy_to f recursively) g p link s

  abbrev pub moved_by : (S → Outcome S) → Flags → Text → S × Option Errno → Outcome S
  moved_by copy g p (s, none) = (s, none)
  moved_by copy g p (s, some exdev) = if not g.may_copy then thrown (errno exdev) p s else copy s
  moved_by copy g p (s, some e) = thrown (errno e) p s

  unfoldable pub move_to : ℕ → Flags → Text → Text → S → Outcome S
  unfolding copy_to remove
  move_to f g p q s =
      if not (exists s p)
      then thrown no_such_file p s
      else if text_eq p q
      then (s, none)
      else let taken = exists s q && not (same_id (id s p) (id s q)) in
        if taken && not g.overwrite
        then thrown file_exists q s
        else ((if taken then remove f true q s else (s, none)) >>= λ t.
            moved_by (λ u. copy_to f recursively p q u >>= remove f true p) g p (rename t p q))
