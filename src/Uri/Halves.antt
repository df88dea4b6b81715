-- ===== src/Uri/Halves.antt =====
-- The halves of the path, read on the abstract view.
use rs_io.Uri.Encode.{decode}
use rs_io.Uri.Defs.{Format}
use rs_io.Uri.Parts.{build, Parts}
use rs_io.Text.{Text, char_at, contains, substr_mid}
use rs_io.Uri.Related.{cut_loop, path_dir, path_leaf, find_path_cut}
use rs_io.Base.{
  [], ap, append_assoc, arith, false, inl, inr, length, length-append, refl, suc, sym, true, zero,
  ℕ, ◌++◌, ◌+◌, ◌-◌, ◌<◌, ◌==◌, ◌∙◌, ◌∷◌, ◌≡◌, ◌≤◌, ◌⊎◌,
}
use rs_io.Uri.Cuts.{front, front-length, front-text, char_at-skip, no_slash_at}

cut-run :
    (text : Text) (lo n i j : ℕ)
    → n ≡ i + j
    → lo ≤ i
    → (i ≡ lo) ⊎ ((char_at text (i - 1) == b'/') ≡ true)
    → ((k : ℕ) → k < j → (char_at text (i + k) == b'/') ≡ false)
    → cut_loop text lo n ≡ i
unfolding cut_loop
cut-run text lo zero i j e h stop run = omega arith
cut-run text lo (suc n) i zero e h (inl bottom) run =
    let at : suc n ≡ i = omega arith in ground arith
cut-run text lo (suc n) i zero e h (inr slash) run =
    let at : suc n ≡ i = omega arith in
    let before : n ≡ i - 1 = omega arith in
    let here : (char_at text n == b'/') ≡ true = ap (λ k. char_at text k == b'/') before ∙ slash in
    ground arith
cut-run text lo (suc n) i (suc j) e h stop run =
    let at : n ≡ i + j = omega arith in
    let here : (char_at text n == b'/') ≡ false =
      ap (λ k. char_at text k == b'/') at ∙ run j (omega arith) in
    let rest : cut_loop text lo n ≡ i =
      cut-run text lo n i j at h stop (λ k lt. run k (omega arith)) in
    ground arith

-- The path is split behind its last slash: the directory is empty or ends in a slash, and the leaf has
-- none.
path_dir_leaf :
    (F : Format) (p : Parts) (d leaf : Text)
    → p.path ≡ d ++ leaf
    → contains b'/' leaf ≡ false
    → (d ≡ []) ⊎ ((d' : Text) × (d ≡ d' ++ b'/' ∷ []))
    → (path_dir F (build p) ≡ decode F d) × (path_leaf F (build p) ≡ decode F leaf)
unfolding path_dir path_leaf find_path_cut build
path_dir_leaf F p d leaf e plain t = (
  rw cut (
      ap (decode F) (
        substr_mid (front p) d (leaf ++ (p.query ++ p.fragment)) (build p).text (build p).ofs_path
          (length (front p ++ d) - (build p).ofs_path) (whole ∙ append_assoc (front p) d _)
          (sym (front-length p)) (omega (arith, length-append {0})))),
  rw cut (
      ap (decode F) (
        substr_mid (front p ++ d) leaf (p.query ++ p.fragment) (build p).text
          (length (front p ++ d)) ((build p).ofs_query - length (front p ++ d)) whole refl
          (omega (arith, path_size, length-append {0})))),
)
  where
    whole : (build p).text ≡ (front p ++ d) ++ (leaf ++ (p.query ++ p.fragment))
    whole = front-text p ∙ simp (e, append_assoc)

    path_size : length p.path ≡ length d + length leaf
    path_size = omega (arith, ap length e, length-append d leaf)

    run :
        (k : ℕ)
        → k < length leaf
        → (char_at (build p).text (length (front p ++ d) + k) == b'/') ≡ false
    run k h =
        ap (λ s. char_at s (length (front p ++ d) + k) == b'/') whole
        ∙ (ap (λ c. c == b'/') (char_at-skip (front p ++ d) (leaf ++ (p.query ++ p.fragment)) k)
            ∙ no_slash_at leaf (p.query ++ p.fragment) k plain h)

    slash_before :
        (d' : Text)
        → d ≡ d' ++ b'/' ∷ []
        → (char_at (build p).text (length (front p ++ d) - 1) == b'/') ≡ true
    slash_before d' h =
        let l = front p ++ d' in
        let rest = leaf ++ (p.query ++ p.fragment) in
        let w : (build p).text ≡ l ++ (b'/' ∷ rest) = whole ∙ simp (h, append_assoc) in
        let at : length (front p ++ d) - 1 ≡ length l + 0 =
          omega (arith, ap length h, length-append {0}) in
        ap (λ k. char_at (build p).text k == b'/') at
        ∙ (ap (λ s. char_at s (length l + 0) == b'/') w
            ∙ ap (λ c. c == b'/') (char_at-skip l (b'/' ∷ rest) 0))

    stop :
        (length (front p ++ d) ≡ (build p).ofs_path)
        ⊎ ((char_at (build p).text (length (front p ++ d) - 1) == b'/') ≡ true)
    stop = elim t [
      | inl h ↦ inl (let z : length d ≡ 0 = ap length h in omega (arith, length-append {0}))
      | inr (d', h) ↦ inr (slash_before d' h)
    ]

    cut : cut_loop (build p).text (build p).ofs_path (build p).ofs_query ≡ length (front p ++ d)
    cut =
        cut-run (build p).text (build p).ofs_path (build p).ofs_query (length (front p ++ d))
          (length leaf) (omega (arith, path_size, length-append {0}))
          (omega (arith, length-append {0})) stop run
