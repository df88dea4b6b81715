-- ===== src/Uri/Cuts.antt =====
-- The related URIs, read on the abstract view.
use rs_io.Base.{
  [], ap, append-nil, append_assoc, arith, false, if◌then◌else◌, inl, inr, is_nil, length,
  length-append, le→ltb, lt→ltb, refl, suc, sym, take, take-length, true, zero, ℕ, ◌++◌, ◌+◌, ◌-◌,
  ◌<◌, ◌==◌, ◌∙◌, ◌∷◌, ◌≡◌, ◌≤◌, ◌⊎◌,
}
use rs_io.Text.{Text, char_at, contains}
use rs_io.Uri.Defs.{Uri}
use rs_io.Uri.Parts.{Parts, build}
use rs_io.Uri.Segments.{Uri-eq, take_fragment}
use rs_io.Uri.Related.{doc, base, back_to_slash, parent_cut, parent, root}

take_front : (l r : Text) (s : Text) (n : ℕ) → s ≡ l ++ r → n ≡ length l → take n s ≡ l
take_front l r s n e q = simp (e, q, take-length l r)

module _ (p : Parts) where
  -- `doc` drops the fragment and nothing else.
  pub doc-build : doc (build p) ≡ build (record p { fragment = [] })
  unfolding doc build
  doc-build = Uri-eq (sym (append-nil _) ∙ take_fragment p [] _ 0 refl) (omega arith)

  -- `base` drops the query and the fragment and nothing else.
  base-build : base (build p) ≡ build (record p { query = []; fragment = [] })
  unfolding base build
  base-build =
      Uri-eq
        (take_front (p.scheme ++ (p.user ++ (p.password ++ (p.host ++ (p.port ++ p.path)))))
            (p.query ++ p.fragment) (build p).text (build p).ofs_query (simp append_assoc)
            (omega (arith, length-append {0}))
          ∙ simp append-nil)
        (omega arith)

-- The text in front of the path.
abbrev pub front : Parts → Text
front p = p.scheme ++ (p.user ++ (p.password ++ (p.host ++ p.port)))

pub front-length : (p : Parts) → length (front p) ≡ (build p).ofs_path
unfolding build
front-length p = omega (arith, length-append {0})

pub front-text : (p : Parts) → (build p).text ≡ front p ++ (p.path ++ (p.query ++ p.fragment))
unfolding build
front-text p = simp append_assoc

module _ (p : Parts) where
  root_cut :
      (t : Text) → let q = record p { path = t } in take (build q).ofs_path (build q).text ≡ front p
  root_cut t =
      let q = record p { path = t } in
      take_front (front p) (t ++ (p.query ++ p.fragment)) (build q).text (build q).ofs_path
        (front-text q) (sym (front-length q))

  root_path :
      (t : Text)
      → root (build (record p { path = t }))
        ≡ build (record p { path = if is_nil t then [] else b'/' ∷ []; query = []; fragment = [] })
  unfolding root build
  root_path [] =
      let q = record p { path = [] } in
      rw (root_cut [], le→ltb (build q).ofs_path (build q).ofs_query (omega arith))
        (Uri-eq (sym (append-nil (front p)) ∙ simp append_assoc) (omega (arith, length-append {0})))
  root_path (c ∷ t) =
      let q = record p { path = c ∷ t } in
      rw (root_cut (c ∷ t), lt→ltb (build q).ofs_path (build q).ofs_query (omega arith))
        (Uri-eq (simp append_assoc) (omega (arith, length-append {0})))

-- The root drops the query and the fragment, and the path but for a lone slash where there was one.
root-build :
    (p : Parts)
    → root (build p)
      ≡ build
          (record p { path = if is_nil p.path then [] else b'/' ∷ []; query = []; fragment = [] })
root-build p = root_path p p.path

pub char_at-skip : (l m : Text) (k : ℕ) → char_at (l ++ m) (length l + k) ≡ char_at m k
char_at-skip [] m k = ap (char_at m) (omega arith)
char_at-skip (x ∷ l) m k =
    let e : suc (length l) + k ≡ suc (length l + k) = omega arith in rw e (char_at-skip l m k)

pub no_slash_at :
    (s r : Text) (k : ℕ)
    → contains b'/' s ≡ false
    → k < length s
    → (char_at (s ++ r) k == b'/') ≡ false
no_slash_at [] r k h lt = elim lt [ ]
no_slash_at (c ∷ s) r zero h lt = ground arith
no_slash_at (c ∷ s) r (suc k) h lt = no_slash_at s r k (ground arith) (omega arith)

back-run :
    (text : Text) (lo n i j : ℕ)
    → n ≡ i + j
    → lo ≤ i
    → (char_at text i == b'/') ≡ true
    → ((k : ℕ) → k < j → (char_at text (i + suc k) == b'/') ≡ false)
    → back_to_slash text lo n ≡ i
unfolding back_to_slash
back-run text lo zero i j e h slash run = omega arith
back-run text lo (suc n) i zero e h slash run =
    let at : suc n ≡ i = omega arith in
    let here : (char_at text (suc n) == b'/') ≡ true =
      ap (λ k. char_at text k == b'/') at ∙ slash in
    ground arith
back-run text lo (suc n) i (suc j) e h slash run =
    let at : suc n ≡ i + suc j = omega arith in
    let here : (char_at text (suc n) == b'/') ≡ false =
      ap (λ k. char_at text k == b'/') at ∙ run j (omega arith) in
    let rest : back_to_slash text lo n ≡ i =
      back-run text lo n i j (omega arith) h slash (λ k lt. run k (omega arith)) in
    ground arith

module _ (u : Uri) (l leaf trail : Text) (e : u.text ≡ l ++ (b'/' ∷ (leaf ++ trail)))
    (plain : contains b'/' leaf ≡ false) (pos : 0 < length leaf) (q : u.ofs_query ≡ length u.text)
    (lo : u.ofs_path ≤ length l) where
  slot : (k : ℕ) → char_at u.text (length l + k) ≡ char_at (b'/' ∷ (leaf ++ trail)) k
  slot k = ap (λ s. char_at s (length l + k)) e ∙ char_at-skip l (b'/' ∷ (leaf ++ trail)) k

  size : length u.text ≡ length l + suc (length leaf + length trail)
  size =
      omega (arith, ap length e, length-append l (b'/' ∷ (leaf ++ trail)), length-append leaf trail)

  slash_at : (char_at u.text (length l) == b'/') ≡ true
  slash_at =
      let at : length l ≡ length l + 0 = omega arith in
      ap (λ k. char_at u.text k == b'/') at ∙ ap (λ c. c == b'/') (slot 0)

  plain_at : (k : ℕ) → k < length leaf → (char_at u.text (length l + suc k) == b'/') ≡ false
  plain_at k h = ap (λ c. c == b'/') (slot (suc k)) ∙ no_slash_at leaf trail k plain h

  found : (n : ℕ) → n ≡ length l + length leaf → back_to_slash u.text u.ofs_path n ≡ length l
  found n h = back-run u.text u.ofs_path n (length l) (length leaf) h lo slash_at plain_at

  cut_from :
      (n : ℕ)
      → n ≡ length l + length leaf
      → (if char_at u.text (u.ofs_query - 1) == b'/' then u.ofs_query - 1 - 1 else u.ofs_query - 1)
        ≡ n
      → parent_cut u ≡ length l + 1
  unfolding parent_cut
  cut_from n h start = rw (start, found n h, slash_at)

  -- Where `parent` cuts a text that ends in a path element.
  parent_cut-leaf : trail ≡ [] → parent_cut u ≡ length l + 1
  parent_cut-leaf h =
      let behind : length trail ≡ 0 = ap length h in
      let last : u.ofs_query - 1 ≡ length l + suc (length leaf - 1) = omega (arith, size) in
      cut_from (u.ofs_query - 1) (omega (arith, size))
        (rw (ap (λ k. char_at u.text k == b'/') last ∙ plain_at (length leaf - 1) (omega arith)))

  -- The same with a slash behind the element.
  parent_cut-slash : trail ≡ b'/' ∷ [] → parent_cut u ≡ length l + 1
  parent_cut-slash h =
      let behind : length trail ≡ 1 = ap length h in
      let last : u.ofs_query - 1 ≡ length l + suc (length leaf + 0) = omega (arith, size) in
      let slash : (char_at u.text (u.ofs_query - 1) == b'/') ≡ true =
        ap (λ k. char_at u.text k == b'/') last
        ∙ ap (λ c. c == b'/') (slot (suc (length leaf + 0)) ∙ char_at-skip leaf trail 0)
        ∙ ap (λ s. char_at s 0 == b'/') h in
      cut_from (u.ofs_query - 1 - 1) (omega (arith, size)) (rw slash)

-- The parent of a URI whose path ends in an element, with or without a slash behind it, has the path
-- up to the slash in front of that element, and neither query nor fragment.
pub parent-build :
    (p : Parts) (d leaf trail : Text)
    → p.path ≡ d ++ (b'/' ∷ (leaf ++ trail))
    → contains b'/' leaf ≡ false
    → 0 < length leaf
    → (trail ≡ []) ⊎ (trail ≡ b'/' ∷ [])
    → parent (build p) ≡ build (record p { path = d ++ (b'/' ∷ []); query = []; fragment = [] })
unfolding parent build
parent-build p d leaf trail e plain pos t =
    rw (base-build p, lt→ltb 1 _ long, cut)
      (Uri-eq
        (take_front (front p ++ (d ++ b'/' ∷ [])) (leaf ++ trail) (build q).text
            (length (front p ++ d) + 1) (whole ∙ simp append_assoc)
            (omega (arith, length-append {0}))
          ∙ simp (append_assoc, append-nil))
        (omega (arith, length-append {0})))
  where
    q : Parts
    q = record p { query = []; fragment = [] }

    path_size : length p.path ≡ length d + suc (length leaf + length trail)
    path_size =
        omega
          (arith, ap length e, length-append d (b'/' ∷ (leaf ++ trail)), length-append leaf trail)

    whole : (build q).text ≡ (front p ++ d) ++ (b'/' ∷ (leaf ++ trail))
    whole = front-text q ∙ simp (e, append-nil, append_assoc)

    long : 1 < (build q).ofs_query - (build q).ofs_path
    long = omega (arith, path_size)

    ends : (build q).ofs_query ≡ length (build q).text
    ends = omega (arith, length-append {0})

    starts : (build q).ofs_path ≤ length (front p ++ d)
    starts = omega (arith, length-append {0})

    cut : parent_cut (build q) ≡ length (front p ++ d) + 1
    cut = elim t [
      | inl h ↦ parent_cut-leaf (build q) (front p ++ d) leaf trail whole plain pos ends starts h
      | inr h ↦ parent_cut-slash (build q) (front p ++ d) leaf trail whole plain pos ends starts h
    ]
