-- ===== src/FilePath/Files/Parents.antt =====
-- How deep `make_directory` goes: each parent that it makes has a shorter name.
mod Shorter
use rs_io.FilePath.Files.Parents.Shorter.{Shrinks, canonical-Shrinks, Shrinks-trans, take-Shrinks}
use rs_io.Text.{Text, text_eq}
use rs_io.FilePath.Files.System.{
  Errno, eexist, enoent, enotdir, einval, exdev, other, no_such_file, file_exists, is_a_directory,
  no_fuel, errno, failure, System, Flags, Outcome, ◌>>=◌, checked,
}
use rs_io.FilePath.Files.Update.{make_directory, remove, made, mkdir_failed, unlinked}
use rs_io.Base.{
  Bool, Bool-cases, Option, [], ap, arith, false, inl, inr, length, none, refl, some, suc, sym,
  take, true, zero, ℕ, ◌-◌, ◌<◌, ◌∙◌, ◌∷◌, ◌≡◌,
}
use rs_io.FilePath.Canonical.{
  canonical, leading, trim_leading, remove_dots, squeeze, merge_slashes, trim_back, trim_trailing,
  is_trailing, slash, dot,
}
use rs_io.FilePath.Names.{get_leaf, split_path}

-- What `split_path` keeps of a name is the name itself, or shorter.
split_path-Shrinks : (p : Text) → Shrinks p (split_path p).0
unfolding split_path
split_path-Shrinks p =
    let n = length p - length (get_leaf p) in
    let cut = canonical-Shrinks (take n p) in
    Shrinks-trans p (take n p) (canonical (take n p)) (take-Shrinks n p) cut

text_eq_refl : (p : Text) → text_eq p p ≡ true
text_eq_refl [] = refl
text_eq_refl (c ∷ p) = ground (arith, text_eq_refl p)

parent-shorter :
    (p : Text) → text_eq (split_path p).0 p ≡ false → length (split_path p).0 < length p
parent-shorter p h =
    let differ : (true ≡ false) → length (split_path p).0 < length p = λ c. absurd cc in
    elim (split_path-Shrinks p) [
      | inl e ↦ differ (sym (ap (λ q. text_eq q p) e ∙ text_eq_refl p) ∙ h)
      | inr e ↦ e
    ]

module _ {ℓ} {S : Type ℓ} (fs : System S) where
  open fs use {is_directory, is_symlink, directory, mkdir, unlink}

  -- The recursion went on beyond its bound.
  abbrev pub out_of_fuel : Outcome S → Bool
  out_of_fuel (s, none) = false
  out_of_fuel (s, some (failure no_fuel p)) = true
  out_of_fuel (s, some (failure no_such_file p)) = false
  out_of_fuel (s, some (failure file_exists p)) = false
  out_of_fuel (s, some (failure is_a_directory p)) = false
  out_of_fuel (s, some (failure (errno e) p)) = false

  checked-ends : (p : Text) (r : S × Option Errno) → out_of_fuel (checked p r) ≡ false
  checked-ends p (s, none) = refl
  checked-ends p (s, some e) = refl

  unlinked-ends : (p : Text) (r : S × Option Errno) → out_of_fuel (unlinked fs p r) ≡ false
  unlinked-ends p (s, none) = refl
  unlinked-ends p (s, some enoent) = refl
  unlinked-ends p (s, some eexist) = refl
  unlinked-ends p (s, some enotdir) = refl
  unlinked-ends p (s, some einval) = refl
  unlinked-ends p (s, some exdev) = refl
  unlinked-ends p (s, some (other n)) = refl

  remove-ends : (p : Text) (s : S) → out_of_fuel (remove fs 1 false p s) ≡ false
  unfolding remove
  remove-ends p s = unlinked-ends p (unlink s p)

  -- A call and what follows it.
  then-ends :
      (r : Outcome S) (k : S → Outcome S)
      → out_of_fuel r ≡ false
      → ((t : S) → out_of_fuel (k t) ≡ false)
      → out_of_fuel (r >>= k) ≡ false
  then-ends (s, none) k h each = each s
  then-ends (s, some e) k h each = h

  parents-end :
      (f : ℕ) (g : Flags) (p : Text) (e : Errno) (s : S)
      → ((q : Text) (t : S) → length q < length p → out_of_fuel (make_directory fs f g q t) ≡ false)
      → out_of_fuel (mkdir_failed fs (make_directory fs f) g p e s (λ t. checked p (mkdir t p)))
        ≡ false
  parents-end f g p eexist s each = ground (
    arith,
    then-ends (remove fs 1 false p s) (λ t. checked p (mkdir t p)) (remove-ends p s)
        (λ t. checked-ends p (mkdir t p)),
  )
  parents-end f g p enoent s each = elim (Bool-cases (text_eq (split_path p).0 p)) [
    | inl top ↦ rw top (ground (arith, checked-ends p (mkdir s p)))
    | inr below ↦ rw below (
        ground (
          arith,
          checked-ends p (mkdir s p),
          then-ends (make_directory fs f g (split_path p).0 s) (λ t. checked p (mkdir t p))
              (each (split_path p).0 s (parent-shorter p below)) (λ t. checked-ends p (mkdir t p)),
        ))
  ]
  parents-end f g p enotdir s each = checked-ends p (mkdir s p)
  parents-end f g p einval s each = checked-ends p (mkdir s p)
  parents-end f g p exdev s each = checked-ends p (mkdir s p)
  parents-end f g p (other n) s each = checked-ends p (mkdir s p)

  made-end :
      (f : ℕ) (g : Flags) (p : Text) (r : S × Option Errno)
      → ((q : Text) (t : S) → length q < length p → out_of_fuel (make_directory fs f g q t) ≡ false)
      → out_of_fuel (made fs (make_directory fs f) g p r) ≡ false
  made-end f g p (t, none) each = refl
  made-end f g p (t, some e) each = parents-end f g p e t each

  -- `make_directory` comes to an end for every name, whatever the system answers: with more fuel than the
  -- name has characters it never goes on beyond its bound, since each parent has a shorter name.
  pub make_directory-ends :
      (f : ℕ) (g : Flags) (p : Text) (s : S)
      → length p < f
      → out_of_fuel (make_directory fs f g p s) ≡ false
  unfolding make_directory
  make_directory-ends zero g p s h = absurd (omega (arith, h))
  make_directory-ends (suc f) g p s h =
      made-end f g p (mkdir s p) (λ q u d. make_directory-ends f g q u (omega (arith, h, d)))
