-- ===== src/Net/Order.antt =====
-- `Detail::mem_compare` of net.cpp, by which IPv6 and SocketAddress are ordered.
use rs_io.Text.{Text}
use rs_io.Base.{
  [], ap, arith, if◌then◌else◌, length, ltb, min, refl, suc, sym, zero, ℕ, ◌↔◌, ◌∙◌, ◌∷◌, ◌≡◌,
}

-- -1, 0 and 1.
pub data Sign : Type 0 where
  less same greater : Sign

-- `std::memcmp` of the first `n` bytes.
unfoldable pub memcmp : ℕ → Text → Text → Sign
memcmp zero s t = same
memcmp (suc n) [] t = same
memcmp (suc n) (x ∷ s) [] = same
memcmp (suc n) (x ∷ s) (y ∷ t) =
    let rest = memcmp n s t in if ltb x y then less else if ltb y x then greater else rest

abbrev pub by_size : ℕ → ℕ → Sign → Sign
by_size m n less = less
by_size m n greater = greater
by_size m n same = if ltb m n then less else if ltb n m then greater else same

unfoldable pub mem_compare : Text → Text → Sign
mem_compare s t = by_size (length s) (length t) (memcmp (min (length s) (length t)) s t)

-- The lexicographic order: a proper prefix comes first.
abbrev pub lexicographic : Text → Text → Sign
lexicographic [] [] = same
lexicographic [] (y ∷ t) = less
lexicographic (x ∷ s) [] = greater
lexicographic (x ∷ s) (y ∷ t) =
    if ltb x y then less else if ltb y x then greater else lexicographic s t

abbrev pub opposite : Sign → Sign
opposite less = greater
opposite same = same
opposite greater = less

by_size-suc : (m n : ℕ) (r : Sign) → by_size (suc m) (suc n) r ≡ by_size m n r
by_size-suc m n less = refl
by_size-suc m n greater = refl
by_size-suc m n same = ground arith

compare-lexicographic :
    (s t : Text)
    → by_size (length s) (length t) (memcmp (min (length s) (length t)) s t) ≡ lexicographic s t
unfolding memcmp
compare-lexicographic [] [] = refl
compare-lexicographic [] (y ∷ t) = ground arith
compare-lexicographic (x ∷ s) [] = ground arith
compare-lexicographic (x ∷ s) (y ∷ t) =
    let e : min (suc (length s)) (suc (length t)) ≡ suc (min (length s) (length t)) = omega arith in
    let rest = compare-lexicographic s t in
    rw e
      (ground (arith, by_size-suc (length s) (length t) (memcmp (min (length s) (length t)) s t)))

lexicographic-same : (s t : Text) → (lexicographic s t ≡ same) ↔ (s ≡ t)
lexicographic-same s t = (forth s t, λ e. ap (λ u. lexicographic s u) (sym e) ∙ refl_same s)
  where
    forth : (s t : Text) → lexicographic s t ≡ same → s ≡ t
    forth [] [] h = refl
    forth [] (y ∷ t) h = absurd cc
    forth (x ∷ s) [] h = absurd cc
    forth (x ∷ s) (y ∷ t) h = ground (arith, forth s t)

    refl_same : (s : Text) → lexicographic s s ≡ same
    refl_same [] = refl
    refl_same (x ∷ s) = ground (arith, refl_same s)

lexicographic-opposite : (s t : Text) → lexicographic t s ≡ opposite (lexicographic s t)
lexicographic-opposite [] [] = refl
lexicographic-opposite [] (y ∷ t) = refl
lexicographic-opposite (x ∷ s) [] = refl
lexicographic-opposite (x ∷ s) (y ∷ t) = ground (arith, lexicographic-opposite s t)

-- The comparison is the lexicographic order of the bytes; it answers 0 for equal blocks alone, and
-- with the arguments exchanged it answers the opposite.
pub mem_compare-lexicographic :
    (s t : Text)
    → (mem_compare s t ≡ lexicographic s t)
      × ((mem_compare s t ≡ same) ↔ (s ≡ t))
      × (mem_compare t s ≡ opposite (mem_compare s t))
unfolding mem_compare
mem_compare-lexicographic s t =
    rw (compare-lexicographic s t, compare-lexicographic t s)
      (refl, lexicographic-same s t, lexicographic-opposite s t)
