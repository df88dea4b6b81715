-- ===== src/Net/Ip/Ordered.antt =====
-- The order of IPv4 addresses by value and that of IPv6 addresses by memcmp are one order, that of the
-- bytes.
use rs_io.Base.{==_iff, [], ap, arith, length, min, refl, sym, true, ℕ, ◌<◌, ◌↔◌, ◌∙◌, ◌∷◌, ◌≡◌}
use rs_io.Text.{Text}
use rs_io.Net.Order.{
  lexicographic, Sign, mem_compare, mem_compare-lexicographic, by_size, memcmp, same, less, greater,
}
use rs_io.Net.Ip.Four
use rs_io.Net.Ip.Six
use rs_io.Net.Ip.Six.{is_less, is_same}

by_size_same : (n : ℕ) (r : Sign) → by_size n n r ≡ r
by_size_same n less = refl
by_size_same n greater = refl
by_size_same n same = ground arith

is_same_sound : (r : Sign) → is_same r ≡ true → r ≡ same
is_same_sound less h = absurd cc
is_same_sound same h = refl
is_same_sound greater h = absurd cc

-- The memory of an IPv4 address: four bytes.
abbrev pub IsFour : Text → Type 0
IsFour (a ∷ b ∷ c ∷ d ∷ []) = (a < 256) × (b < 256) × (c < 256) × (d < 256)
IsFour s = ⊥

value_less :
    (a b c d a' b' c' d' : ℕ)
    → IsFour (a ∷ b ∷ c ∷ d ∷ [])
    → IsFour (a' ∷ b' ∷ c' ∷ d' ∷ [])
    → Four.less_than (a ∷ b ∷ c ∷ d ∷ []) (a' ∷ b' ∷ c' ∷ d' ∷ [])
      ≡ is_less (lexicographic (a ∷ b ∷ c ∷ d ∷ []) (a' ∷ b' ∷ c' ∷ d' ∷ []))
unfolding Four.less_than Four.value
value_less a b c d a' b' c' d' (h0, h1, h2, h3) (k0, k1, k2, k3) = ground arith

cons_four :
    {a b c d a' b' c' d' : ℕ}
    → a ≡ a'
    → b ≡ b'
    → c ≡ c'
    → d ≡ d'
    → Path Text (a ∷ b ∷ c ∷ d ∷ []) (a' ∷ b' ∷ c' ∷ d' ∷ [])
cons_four p q r s i = p i ∷ q i ∷ r i ∷ s i ∷ []

value_round_trip :
    (a b c d : ℕ)
    → IsFour (a ∷ b ∷ c ∷ d ∷ [])
    → Four.of_value (Four.value (a ∷ b ∷ c ∷ d ∷ [])) ≡ a ∷ b ∷ c ∷ d ∷ []
unfolding Four.of_value Four.value
value_round_trip a b c d (h0, h1, h2, h3) =
    cons_four (omega arith) (omega arith) (omega arith) (omega arith)

value_injective :
    (a b c d a' b' c' d' : ℕ)
    → IsFour (a ∷ b ∷ c ∷ d ∷ [])
    → IsFour (a' ∷ b' ∷ c' ∷ d' ∷ [])
    → Four.value (a ∷ b ∷ c ∷ d ∷ []) ≡ Four.value (a' ∷ b' ∷ c' ∷ d' ∷ [])
    → Path Text (a ∷ b ∷ c ∷ d ∷ []) (a' ∷ b' ∷ c' ∷ d' ∷ [])
unfolding Four.value
value_injective a b c d a' b' c' d' (h0, h1, h2, h3) (k0, k1, k2, k3) e =
    cons_four (omega arith) (omega arith) (omega arith) (omega arith)

-- IPv4 addresses of four bytes are ordered by their values as by their bytes, are equal just if all
-- their bytes are, and are got back from their values.
pub four-lexicographic :
    (a b c d a' b' c' d' : ℕ)
    → IsFour (Four.of_bytes a b c d)
    → IsFour (Four.of_bytes a' b' c' d')
    → let ip = Four.of_bytes a b c d in
      let ip' = Four.of_bytes a' b' c' d' in
      (Four.less_than ip ip' ≡ is_less (lexicographic ip ip'))
      × ((Four.equal ip ip' ≡ true) ↔ (ip ≡ ip'))
      × (Four.of_value (Four.value ip) ≡ ip)
unfolding Four.of_bytes Four.equal
four-lexicographic a b c d a' b' c' d' h k = (
  value_less a b c d a' b' c' d' h k,
  (
    (λ e. value_injective a b c d a' b' c' d' h k ((==_iff _ _).0 e)),
    λ e. (==_iff _ _).1 (ap Four.value e),
  ),
  value_round_trip a b c d h,
)

memcmp-mem_compare :
    (n : ℕ) (a b : Text) → length a ≡ n → length b ≡ n → memcmp n a b ≡ mem_compare a b
unfolding mem_compare
memcmp-mem_compare n a b h k =
    let m : min n n ≡ n = omega arith in rw (h, k, m) (sym (by_size_same n (memcmp n a b)))

-- IPv6 addresses, of sixteen bytes, are ordered as their bytes are, and are equal just if all their bytes
-- are.
pub six-lexicographic :
    (a b : Text)
    → length a ≡ 16
    → length b ≡ 16
    → (Six.less_than a b ≡ is_less (lexicographic a b)) × ((Six.equal a b ≡ true) ↔ (a ≡ b))
unfolding Six.less_than Six.equal
six-lexicographic a b h k =
    let e = memcmp-mem_compare 16 a b h k in
    let (l, iff, _) = mem_compare-lexicographic a b in
    (
      ap is_less (e ∙ l),
      (
        (λ q. iff.0 (is_same_sound (mem_compare a b) (sym (ap is_same e) ∙ q))),
        λ q. ap is_same (e ∙ iff.1 q),
      ),
    )
