-- ===== src/Tests/Files.antt =====
-- The theorems on the file system functions at concrete trees, names and files.
use rs_io.FilePath.Files.Safe.{copy_to-kept, IsKept}
use rs_io.FilePath.Search.Visit.{visit-order}
use rs_io.FilePath.Files.Update.{copy_to, make_directory}
use rs_io.Text.{Text, text_eq}
use rs_io.Base.{
  List, [], ap, arith, drop, false, inr, length, none, refl, some, suc, sym, take, true, zero, ℕ,
  ◌++◌, ◌∷◌, ◌≡◌,
}
use rs_io.FilePath.Files.Parents.{out_of_fuel, make_directory-ends}
use rs_io.FilePath.Search.{node, Forest, nil, cons, start, visit}
use rs_io.FilePath.Search.Order.{order, size, IsPlain}
use rs_io.FilePath.Files.System.{System, enoent, none_set}
use rs_io.FilePath.Files.Content.{Library, load, save}
use rs_io.FilePath.Files.Content.RoundTrip.{IsLibrary, overwriting, load-save, HoldsText}

-- "a" with "b" and "c" in it
abbrev tree : Forest
tree =
    cons
      (node (b'a' ∷ []) true true
        (cons (node (b'b' ∷ []) false false nil) (cons (node (b'c' ∷ []) false false nil) nil)))
      nil

visit-order_example : visit 20 20 true (start true true tree) ≡ some (order true tree)
unfolding size IsPlain
visit-order_example =
    visit-order 20 20 true tree
      ((refl, ((λ h. absurd cc), ((refl, ((λ h. refl), tt)), ((refl, ((λ h. refl), tt)), tt)))), tt)
      (omega arith) (omega arith)

-- A system with one file "a", whose state is what was written and what was removed; no directory can be
-- made.
abbrev one_file : System (Text × List Text)
one_file = record {
  exists = λ s p. text_eq p (b'a' ∷ []);
  is_directory = λ s p. false;
  is_symlink = λ s p. false;
  id = λ s p. (1, length p);
  directory = λ s p. [];
  readlink = λ s p. (p, none);
  mkdir = λ s p. (s, some enoent);
  unlink = λ s p. ((s.0, p ∷ s.1), none);
  rename = λ s p q. (s, none);
  symlink = λ s p q. (s, none);
  open_in = λ s p. ((b'x' ∷ [], none) ∷ [], none);
  open_out = λ s p. (s, none);
  fwrite = λ s p t. ((s.0 ++ t, s.1), none);
}

abbrev NoneRemoved : Text × List Text → Type 0
NoneRemoved s = s.1 ≡ []

one_file-IsKept : IsKept one_file NoneRemoved
one_file-IsKept = record {
  by_mkdir = λ s p h. h;
  by_symlink = λ s p q h. h;
  by_open = λ s p h. h;
  by_write = λ s p t h. h;
}

copy_to-kept_example :
    NoneRemoved (copy_to one_file 3 none_set (b'a' ∷ []) (b'b' ∷ b'c' ∷ []) ([], [])).0
copy_to-kept_example =
    copy_to-kept one_file NoneRemoved one_file-IsKept 3 none_set (b'a' ∷ []) (b'b' ∷ b'c' ∷ [])
      ([], []) refl refl

-- "a/b"
abbrev deep : Text
deep = b'a' ∷ b'/' ∷ b'b' ∷ []

make_directory-ends_example :
    out_of_fuel one_file (
      make_directory one_file 4
        (record { overwrite = false; recurse = true; may_copy = false })
        deep
        ([], []))
    ≡ false
make_directory-ends_example =
    make_directory-ends one_file 4 (record { overwrite = false; recurse = true; may_copy = false })
      deep ([], []) (omega arith)

-- Files as texts, of which fwrite takes one byte at a time.
abbrev slow_library : Library Text
slow_library = record {
  stdin = [];
  stdout = [];
  exists = λ name. false;
  open_in = λ name. some deep;
  open_out = λ append name. some [];
  fread = λ n f. (take n f, drop n f);
  fwrite = λ s f. (1, 0, f ++ take 1 s);
}

take-length-take : (n : ℕ) (f : Text) → take (length (take n f)) f ≡ take n f
take-length-take zero f = refl
take-length-take (suc n) [] = refl
take-length-take (suc n) (c ∷ f) = ap (◌∷◌ c) (take-length-take n f)

drop-length-take : (n : ℕ) (f : Text) → drop n f ≡ drop (length (take n f)) f
drop-length-take zero f = refl
drop-length-take (suc n) [] = refl
drop-length-take (suc n) (c ∷ f) = drop-length-take n f

slow_library-IsLibrary : IsLibrary slow_library (λ f. f)
slow_library-IsLibrary = record {
  fread-bytes = λ n f. sym (take-length-take n f);
  fread-rest = λ n f. drop-length-take n f;
  fwrite-content = λ s f. refl;
}

load-save_example :
    HoldsText slow_library
      (λ f. f)
      slow_library-IsLibrary
      deep
      (save slow_library (length deep) (overwriting false false) deep deep)
    × (load slow_library (suc (length deep)) (overwriting false false) deep 2 ≡ inr (take 2 deep))
load-save_example =
    load-save slow_library (λ f. f) slow_library-IsLibrary false false deep deep 2 [] deep refl refl
      refl (refl, omega arith, (refl, omega arith, (refl, omega arith, tt))) refl refl
      (refl, (refl, (refl, (refl, tt))))
