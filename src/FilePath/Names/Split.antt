-- ===== src/FilePath/Names/Split.antt =====
-- The parts of a path name, put together again, are the name.
use rs_io.Base.{
  ==_iff, Bool-cases, List, Option-cases, [], ap, append-nil, append_assoc, arith, drop, false,
  if◌then◌else◌, inl, inr, is_nil, length, length-drop, length-take, none, refl, some, suc, sym,
  take, take-append-drop, zero, ℕ, ◌++◌, ◌+◌, ◌-◌, ◌<◌, ◌==◌, ◌||◌, ◌∙◌, ◌∷◌, ◌≡◌, ◌≢◌, ◌≤◌, ◌⊎◌,
}
use rs_io.Text.{Text, contains, char_at}
use rs_io.FilePath.Canonical.{leading, slash, dot}
use rs_io.FilePath.Names.{
  find_last, leaf_start, get_leaf, ext_dot, get_base_ext, get_root, cut_parts, os_breakdown,
  ends_with_slash,
}

drop-drop : (m n : ℕ) (s : Text) → drop (m + n) s ≡ drop n (drop m s)
drop-drop zero n s = ap (λ k. drop k s) (omega arith)
drop-drop (suc m) n [] = let e : suc m + n ≡ suc (m + n) = omega arith in rw e (sym (drop-nil n))
  where
    drop-nil : (k : ℕ) → drop {A = ℕ} k [] ≡ []
    drop-nil zero = refl
    drop-nil (suc k) = refl
drop-drop (suc m) n (x ∷ s) =
    let e : suc m + n ≡ suc (m + n) = omega arith in rw e (drop-drop m n s)

get_or-drop : (i : ℕ) (s : Text) (j : ℕ) → char_at (drop i s) j ≡ char_at s (i + j)
get_or-drop zero s j = ap (char_at s) (omega arith)
get_or-drop (suc i) [] j = refl
get_or-drop (suc i) (x ∷ s) j =
    let e : suc i + j ≡ suc (i + j) = omega arith in rw e (get_or-drop i s j)

find_last-none : (c : ℕ) (s : Text) → find_last c s ≡ none → contains c s ≡ false
unfolding find_last
find_last-none c [] h = refl
find_last-none c (x ∷ s) h = ground (arith, find_last-none c s)

-- The last occurrence: it is one, and behind it there is none.
find_last-some :
    (c : ℕ) (s : Text) (i : ℕ)
    → find_last c s ≡ some i
    → (char_at s i ≡ c) × (i < length s) × (contains c (drop (suc i) s) ≡ false)
unfolding find_last
find_last-some c [] i h = cc
find_last-some c (x ∷ s) zero h = elim (Option-cases (find_last c s)) [
  | inl e ↦ ground (arith, find_last-none c s e)
  | inr (j, e) ↦ ground arith
]
find_last-some c (x ∷ s) (suc i) h = elim (Option-cases (find_last c s)) [
  | inl e ↦ ground arith
  | inr (j, e) ↦ ground (arith, find_last-some c s i)
]

-- What the extension's position satisfies.
ext_dot-some :
    (f : Text) (i : ℕ)
    → ext_dot f ≡ some i
    → (find_last dot f ≡ some i) × (leaf_start f < i) × (suc i < length f)
unfolding ext_dot
ext_dot-some f i h = elim (Option-cases (find_last dot f)) [
  | inl e ↦ absurd (ground arith)
  | inr (j, e) ↦ ground arith
]

split_at :
    (start i : ℕ) (f : Text)
    → start ≤ i
    → take (i - start) (drop start f) ++ drop i f ≡ drop start f
split_at start i f h =
    let e : i ≡ start + (i - start) = omega arith in
    ap (λ t. take (i - start) (drop start f) ++ t)
      (ap (λ k. drop k f) e ∙ drop-drop start (i - start) f)
    ∙ take-append-drop (i - start) (drop start f)

-- The base name and the extension are the leaf. An extension is empty, or is a dot, the last one of the
-- path, with something behind it and a base name in front of it.
base_ext-parts :
    (f : Text)
    → ((get_base_ext f).0 ++ (get_base_ext f).1 ≡ get_leaf f)
      × (((get_base_ext f).1 ≡ [])
          ⊎ ((char_at (get_base_ext f).1 0 ≡ dot)
              × (1 < length (get_base_ext f).1)
              × (0 < length (get_base_ext f).0)
              × (contains dot (drop 1 (get_base_ext f).1) ≡ false)))
unfolding get_base_ext get_leaf
base_ext-parts f = elim (Option-cases (ext_dot f)) [
  | inl e ↦ rw e (append-nil (drop (leaf_start f) f), inl refl)
  | inr (i, e) ↦
      let (l, low, high) = ext_dot-some f i e in
      let (at, _, none_behind) = find_last-some dot f i l in
      let next : suc i ≡ i + 1 = omega arith in
      let same : i + 0 ≡ i = omega arith in
      rw e (
        split_at (leaf_start f) i f (omega arith),
        inr (
          get_or-drop i f 0 ∙ (ap (char_at f) same ∙ at),
          omega (arith, length-drop i f),
          omega (
            arith,
            length-take (i - leaf_start f) (drop (leaf_start f) f),
            length-drop (leaf_start f) f,
          ),
          ap (contains dot) (sym (drop-drop i 1 f))
              ∙ (ap (λ k. contains dot (drop k f)) (sym next) ∙ none_behind),
        ),
      )
]

-- The parts joined by slashes.
abbrev pub intercalate : List Text → Text
intercalate [] = []
intercalate (p ∷ []) = p
intercalate (p ∷ q ∷ ps) = p ++ (slash ∷ intercalate (q ∷ ps))

abbrev pub NoSlashes : List Text → Type 0
NoSlashes [] = Unit {0}
NoSlashes (p ∷ ps) = (contains slash p ≡ false) × NoSlashes ps

contains-append : (c : ℕ) (s t : Text) → contains c (s ++ t) ≡ contains c s || contains c t
contains-append c [] t = refl
contains-append c (x ∷ s) t = ground (arith, contains-append c s t)

cut_parts-NoSlashes : (part s : Text) → contains slash part ≡ false → NoSlashes (cut_parts part s)
unfolding cut_parts
cut_parts-NoSlashes part [] h = ground arith
cut_parts-NoSlashes part (c ∷ s) h = ground (
  arith,
  contains-append slash part (c ∷ []),
  cut_parts-NoSlashes [] s refl,
  cut_parts-NoSlashes (part ++ c ∷ []) s,
)

intercalate-cons :
    (p : Text) (ps : List Text) → ps ≢ [] → intercalate (p ∷ ps) ≡ p ++ (slash ∷ intercalate ps)
intercalate-cons p [] h = absurd (h refl)
intercalate-cons p (q ∷ ps) h = refl

is_nil_snoc : (part : Text) (c : ℕ) → is_nil (part ++ c ∷ []) ≡ false
is_nil_snoc [] c = refl
is_nil_snoc (x ∷ part) c = refl

cut_parts-ne_nil : (part : Text) (c : ℕ) (s : Text) → cut_parts part (c ∷ s) ≢ []
unfolding cut_parts
cut_parts-ne_nil part c [] = ground (arith, is_nil_snoc part c)
cut_parts-ne_nil part c (d ∷ s) = ground (arith, cut_parts-ne_nil (part ++ c ∷ []) d s)

cut_parts-join :
    (part s : Text) → ends_with_slash s ≡ false → intercalate (cut_parts part s) ≡ part ++ s
unfolding cut_parts
cut_parts-join [] [] h = refl
cut_parts-join (x ∷ part) [] h = sym (append-nil (x ∷ part))
cut_parts-join part (c ∷ []) h = rw (h, is_nil_snoc part c)
cut_parts-join part (c ∷ d ∷ s) h = elim (Bool-cases (c == slash)) [
  | inl at ↦ rw at (
      intercalate-cons part (cut_parts [] (d ∷ s)) (cut_parts-ne_nil [] d s)
      ∙ (ap (λ t. part ++ (slash ∷ t)) (cut_parts-join [] (d ∷ s) h)
          ∙ ap (λ x. part ++ (x ∷ d ∷ s)) (sym ((==_iff c slash).0 at))))
  | inr other ↦
      rw other (cut_parts-join (part ++ c ∷ []) (d ∷ s) h ∙ append_assoc part (c ∷ []) (d ∷ s))
]

root_split : (s : Text) → get_root s ++ drop (length (get_root s)) s ≡ s
unfolding get_root leading
root_split [] = refl
root_split (c ∷ s) = elim (Bool-cases (c == slash)) [
  | inl at ↦ rw at (ap (◌∷◌ c) (root_split s))
  | inr other ↦ rw other
]

-- A name that has no slash at its end behind the root is broken into its root, if any, and parts
-- without slashes, which joined by slashes behind the root give the name.
pub os_breakdown-join :
    (f : Text)
    → ends_with_slash (drop (length (get_root f)) f) ≡ false
    → (ps : List Text) × (os_breakdown f ≡ (if is_nil (get_root f) then ps else get_root f ∷ ps))
      × NoSlashes ps
      × (get_root f ++ intercalate ps ≡ f)
unfolding os_breakdown
os_breakdown-join f h =
    let tail = drop (length (get_root f)) f in
    (
      cut_parts [] tail,
      refl,
      cut_parts-NoSlashes [] tail refl,
      ap (◌++◌ (get_root f)) (cut_parts-join [] tail h) ∙ root_split f,
    )
