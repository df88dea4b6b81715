-- ===== src/Net/Address/Parts.antt =====
-- What the constructors of SocketAddress store, and what the accessors read.
use rs_io.Uri.Encode.{IsBytes}
use rs_io.Net.Address.{ipv4, ipv6, of_ipv4, port, be32, family, flow, ntohl, scope, of_ipv6}
use rs_io.Text.{Text, char_at}
use rs_io.Base.{
  [], ap, arith, length, refl, replicate, suc, sym, take, take-length, zero, ℕ, ◌%◌, ◌++◌, ◌+◌, ◌/◌,
  ◌<◌, ◌∙◌, ◌∷◌, ◌≡◌,
}

-- Four bytes are those of the number that they spell.
octets : (ip : Text) → IsBytes ip → length ip ≡ 4 → be32 (ntohl ip 0) ≡ ip
octets [] h l = absurd (omega (arith, l))
octets (a ∷ []) h l = absurd (omega (arith, l))
octets (a ∷ b ∷ []) h l = absurd (omega (arith, l))
octets (a ∷ b ∷ c ∷ []) h l = absurd (omega (arith, l))
octets (a ∷ b ∷ c ∷ d ∷ e ∷ s) h l = absurd (omega (arith, l))
octets (a ∷ b ∷ c ∷ d ∷ []) (ha, (hb, (hc, (hd, u)))) l =
    let n = ntohl (a ∷ b ∷ c ∷ d ∷ []) 0 in
    let ea : n / 16777216 % 256 ≡ a = omega (arith, ha, hb, hc, hd) in
    let eb : n / 65536 % 256 ≡ b = omega (arith, ha, hb, hc, hd) in
    let ec : n / 256 % 256 ≡ c = omega (arith, hb, hc, hd) in
    let ed : n % 256 ≡ d = omega (arith, hd) in rw (ea, eb, ec, ed) refl

-- The number at a position behind four bytes.
ntohl-behind :
    (x y z w : ℕ) (ip rest : Text)
    → length ip ≡ 4
    → ntohl (x ∷ y ∷ z ∷ w ∷ ip ++ rest) 4 ≡ ntohl ip 0
ntohl-behind x y z w [] rest l = absurd (omega (arith, l))
ntohl-behind x y z w (a ∷ []) rest l = absurd (omega (arith, l))
ntohl-behind x y z w (a ∷ b ∷ []) rest l = absurd (omega (arith, l))
ntohl-behind x y z w (a ∷ b ∷ c ∷ []) rest l = absurd (omega (arith, l))
ntohl-behind x y z w (a ∷ b ∷ c ∷ d ∷ ip) rest l = refl

ntohl-be32 : (n : ℕ) → n < 4294967296 → ntohl (be32 n) 0 ≡ n
ntohl-be32 n h = omega (arith, h)

pub ipv4-of_ipv4 : (ip : Text) (n : ℕ) → IsBytes ip → length ip ≡ 4 → ipv4 (of_ipv4 ip n) ≡ ip
unfolding ipv4 of_ipv4 family
ipv4-of_ipv4 ip n h l =
    ap be32 (ntohl-behind 2 0 (n / 256 % 256) (n % 256) ip (replicate 20 0) l) ∙ octets ip h l

pub port-of_ipv4 : (ip : Text) (n : ℕ) → n < 65536 → port (of_ipv4 ip n) ≡ n
unfolding port of_ipv4 family
port-of_ipv4 ip n h = omega (arith, h)

-- What stands behind `n` bytes.
char_at-behind :
    (n i j : ℕ) (s t : Text) → length s ≡ n → j ≡ n + i → char_at (s ++ t) j ≡ char_at t i
char_at-behind zero i j [] t l e = let same : j ≡ i = omega (arith, e) in ap (char_at t) same
char_at-behind zero i j (c ∷ s) t l e = absurd (omega (arith, l))
char_at-behind (suc n) i j [] t l e = absurd (omega (arith, l))
char_at-behind (suc n) i zero (c ∷ s) t l e = absurd (omega (arith, e))
char_at-behind (suc n) i (suc j) (c ∷ s) t l e =
    char_at-behind n i j s t (omega (arith, l)) (omega (arith, e))

ntohl-scope : (ip t : Text) → length ip ≡ 16 → ntohl (ip ++ t) 16 ≡ ntohl t 0
ntohl-scope ip t l = omega (
  arith,
  char_at-behind 16 0 16 ip t l refl,
  char_at-behind 16 1 17 ip t l refl,
  char_at-behind 16 2 18 ip t l refl,
  char_at-behind 16 3 19 ip t l refl,
)

-- An IPv6 address keeps its parts.
pub parts-of_ipv6 :
    (ip : Text) (n fl sc : ℕ)
    → length ip ≡ 16
    → n < 65536
    → fl < 4294967296
    → sc < 4294967296
    → (ipv6 (of_ipv6 ip n fl sc) ≡ ip)
      × (port (of_ipv6 ip n fl sc) ≡ n)
      × (flow (of_ipv6 ip n fl sc) ≡ fl)
      × (scope (of_ipv6 ip n fl sc) ≡ sc)
unfolding ipv6 port flow scope of_ipv6 family
parts-of_ipv6 ip n fl sc l hn hf hs = (
  ap (λ k. take k (ip ++ be32 sc)) (sym l) ∙ take-length ip (be32 sc),
  omega (arith, hn),
  omega (arith, hf),
  ntohl-scope ip (be32 sc) l ∙ ntohl-be32 sc hs,
)
