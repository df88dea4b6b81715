-- ===== src/FilePath/Files/Content/RoundTrip.antt =====
-- What `save` writes, `load` reads back, whatever the library does with each block.
use rs_io.Text.{Text}
use rs_io.Base.{
  Bool, Bool-cases, [], ap, append-nil, append_assoc, arith, drop, false, inl, inr, length,
  length-append, length-drop, ltb, min, refl, some, subst, suc, sym, take, take-append-drop, true,
  zero, ℕ, ◌++◌, ◌+◌, ◌-◌, ◌<◌, ◌==◌, ◌∙◌, ◌∷◌, ◌≡◌, ◌≤◌, ◌⊎◌,
}
use rs_io.FilePath.Files.Content.{
  Library, Thrown, Flags, load_loop, save_loop, block_size, save, load, is_standard,
}

-- What the C library says of fread and fwrite on a file with its content: fread gives some of the next bytes
-- and leaves the rest; fwrite appends as much of the text as it says.
pub record IsLibrary {ℓ} {F : Type ℓ} (lib : Library F) (content : F → Text) : Type ℓ where
  pub fread-bytes :
      (n : ℕ) (f : F) → (lib.fread n f).0 ≡ take (length (lib.fread n f).0) (content f)
  pub fread-rest :
      (n : ℕ) (f : F) → content (lib.fread n f).1 ≡ drop (length (lib.fread n f).0) (content f)
  pub fwrite-content :
      (s : Text) (f : F) → content (lib.fwrite s f).2 ≡ content f ++ take (lib.fwrite s f).0 s

-- The flag `overwrite`, and any of the last two.
abbrev pub overwriting : Bool → Bool → Flags
overwriting standard fails = record {
  append = false;
  overwrite = true;
  stdio = standard;
  may_fail = fails;
}

minus_zero : (n : ℕ) → n - 0 ≡ n
minus_zero n = omega arith

take-long : (n : ℕ) (s : Text) → length s ≤ n → take n s ≡ s
take-long zero [] h = refl
take-long (suc n) [] h = refl
take-long zero (c ∷ s) h = absurd (omega (arith, h))
take-long (suc n) (c ∷ s) h = ap (◌∷◌ c) (take-long n s (omega (arith, h)))

take-min : (n : ℕ) (s : Text) → take (min n (length s)) s ≡ take n s
take-min n s = elim (Bool-cases (ltb n (length s))) [
  | inl less ↦ ap (λ (k : ℕ). take k s) (ground (arith, less))
  | inr more ↦
      take-long (min n (length s)) s (ground (arith, more))
      ∙ sym (take-long n s (ground (arith, more)))
]

take-split : (n m : ℕ) (s : Text) → n ≤ m → take n s ++ take (m - n) (drop n s) ≡ take m s
take-split zero m s h = let e : m - 0 ≡ m = omega arith in ap (λ (k : ℕ). take k s) e
take-split (suc n) zero s h = absurd (omega (arith, h))
take-split (suc n) (suc m) [] h = take_nil (suc m - suc n)
  where
    take_nil : (k : ℕ) → take {A = ℕ} k [] ≡ []
    take_nil zero = refl
    take_nil (suc k) = refl
take-split (suc n) (suc m) (c ∷ s) h =
    let e : suc m - suc n ≡ m - n = omega arith in
    ap (λ (k : ℕ). c ∷ take n s ++ take k (drop n s)) e
    ∙ ap (◌∷◌ c) (take-split n m s (omega (arith, h)))

module _ {ℓ} {F : Type ℓ} (lib : Library F) (content : F → Text) (law : IsLibrary lib content) where
  -- The next `k` calls of fread, for what `left` has left, meet no error: each gives the bytes that it was
  -- asked for, or all there are.
  abbrev pub IsReading : ℕ → ℕ → F → Type 0
  IsReading zero left f = Unit {0}
  IsReading (suc k) left f =
      let n = min left block_size in
      (length (lib.fread n f).0 ≡ min n (length (content f)))
      × IsReading k (left - n) (lib.fread n f).1

  load_loop-prefix :
      (k maxlen : ℕ) (f : F) (str : Text)
      → length (content f) < k
      → IsReading k (maxlen - length str) f
      → load_loop lib k maxlen f str ≡ inr (str ++ take (maxlen - length str) (content f))
  unfolding load_loop
  load_loop-prefix zero maxlen f str h r = absurd (omega (arith, h))
  load_loop-prefix (suc k) maxlen f str h (size, more) =
      let left = maxlen - length str in
      let n = min left block_size in
      let bytes = (lib.fread n f).0 in
      let f' = (lib.fread n f).1 in
      let got : bytes ≡ take n (content f) =
        law.fread-bytes n f ∙ (ap (λ (j : ℕ). take j (content f)) size ∙ take-min n (content f)) in
      elim (Bool-cases (ltb (length str) maxlen)) [
        | inr full ↦
            let nothing : left ≡ 0 = ground (arith, full) in
            rw (full, nothing) (ap inr (sym (append-nil str)))
        | inl room ↦ elim (Bool-cases (ltb (length bytes) n)) [
          | inl short ↦
              let whole : length (content f) < n = ground (arith, size, short) in
              rw (room, short)
                (ap (λ (t : Text). inr (str ++ t))
                  (got
                    ∙ (take-long n (content f) (omega (arith, whole))
                        ∙ sym (take-long left (content f) (omega (arith, whole))))))
          | inr long ↦
              let exact : length bytes ≡ n = ground (arith, size, long) in
              let after : length (str ++ bytes) ≡ length str + n =
                length-append str bytes ∙ omega (arith, exact) in
              let fewer : maxlen - length (str ++ bytes) ≡ left - n = omega (arith, after) in
              let rest : content f' ≡ drop n (content f) =
                law.fread-rest n f ∙ ap (λ (j : ℕ). drop j (content f)) exact in
              let rest_size = ap length rest ∙ length-drop n (content f) in
              let parts : bytes ++ take (maxlen - length (str ++ bytes)) (content f')
                  ≡ take left (content f) =
                ap (λ (b : Text). b ++ take (maxlen - length (str ++ bytes)) (content f')) got
                ∙ (ap (λ (k : ℕ). take n (content f) ++ take k (content f')) fewer
                    ∙ (ap (λ (t : Text). take n (content f) ++ take (left - n) t) rest
                        ∙ take-split n left (content f) (omega arith))) in
              let some_asked : 0 < n = ground (arith, room) in
              rw (room, long)
                (load_loop-prefix k maxlen f' (str ++ bytes)
                    (omega (arith, rest_size, some_asked, exact, size, h))
                    (subst (λ (j : ℕ). IsReading k j f') (sym fewer) more)
                  ∙ ap inr (
                      append_assoc str bytes (take (maxlen - length (str ++ bytes)) (content f'))
                      ∙ ap (◌++◌ str) parts))
        ]
      ]

  -- Every write of the loop sets no errno and takes at least one byte.
  abbrev pub IsWriting : ℕ → Text → F → Type 0
  IsWriting zero s f = Unit {0}
  IsWriting (suc k) [] f = Unit {0}
  IsWriting (suc k) (c ∷ s) f =
      ((lib.fwrite (c ∷ s) f).1 ≡ 0)
      × (0 < (lib.fwrite (c ∷ s) f).0)
      × IsWriting k (drop (lib.fwrite (c ∷ s) f).0 (c ∷ s)) (lib.fwrite (c ∷ s) f).2

  abbrev pub HoldsText : Text → Thrown ⊎ F → Type 0
  HoldsText t (inl e) = ⊥
  HoldsText t (inr f) = content f ≡ t

  save_loop-content :
      (k : ℕ) (name s : Text) (f : F)
      → length s ≤ k
      → IsWriting k s f
      → HoldsText (content f ++ s) (save_loop lib k name s f)
  unfolding save_loop
  save_loop-content k name [] f h w = sym (append-nil (content f))
  save_loop-content zero name (c ∷ s) f h w = absurd (omega (arith, h))
  save_loop-content (suc k) name (c ∷ s) f h (w, one, ws) =
      let n = (lib.fwrite (c ∷ s) f).0 in
      let f' = (lib.fwrite (c ∷ s) f).2 in
      let left = drop n (c ∷ s) in
      let fewer : length left ≤ k = omega (arith, length-drop n (c ∷ s), one, h) in
      let good : ((lib.fwrite (c ∷ s) f).1 == 0) ≡ true = ground (arith, w) in
      let joined : content f' ++ left ≡ content f ++ (c ∷ s) =
        ap (λ (t : Text). t ++ left) (law.fwrite-content (c ∷ s) f)
        ∙ (append_assoc (content f) (take n (c ∷ s)) left
            ∙ ap (◌++◌ (content f)) (take-append-drop n (c ∷ s))) in
      rw good (
        subst (λ (t : Text). HoldsText t (save_loop lib k name left f')) joined
          (save_loop-content k name left f' fewer ws))

  -- `save` with `overwrite` on a new file, when every fwrite sets no errno and takes at least one byte,
  -- leaves the text as its content, whatever sizes fwrite takes at once. `load` of a file with that content
  -- gives the text up to the length asked for, when no fread meets an error, which `load` does not test for:
  -- each fread of the loop gives the bytes that it was asked for, or all there are. The bounds of the loops
  -- are the length of the text, and one more for `load`.
  pub load-save :
      (standard fails : Bool) (name str : Text) (maxlen : ℕ) (f0 f : F)
      → is_standard (overwriting standard fails) name ≡ false
      → lib.open_out false name ≡ some f0
      → content f0 ≡ []
      → IsWriting (length str) str f0
      → lib.open_in name ≡ some f
      → content f ≡ str
      → IsReading (suc (length str)) maxlen f
      → HoldsText str (save lib (length str) (overwriting standard fails) name str)
        × (load lib (suc (length str)) (overwriting standard fails) name maxlen
            ≡ inr (take maxlen str))
  unfolding save load
  load-save standard fails name str maxlen f0 f h out new w opens same r = (
    rw (h, out)
        (subst (λ (t : Text). HoldsText (t ++ str) (save_loop lib (length str) name str f0)) new
          (save_loop-content (length str) name str f0 (omega arith) w)),
    rw (h, opens)
        (load_loop-prefix (suc (length str)) maxlen f [] (omega (arith, ap length same))
            (subst (λ (j : ℕ). IsReading (suc (length str)) j f) (sym (minus_zero maxlen)) r)
          ∙ ap (λ (k : ℕ). inr (take k (content f))) (minus_zero maxlen)
          ∙ ap (λ (t : Text). inr (take maxlen t)) same),
  )
