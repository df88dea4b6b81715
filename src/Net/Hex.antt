-- ===== src/Net/Hex.antt =====
-- `hex_bytes` of net.cpp.
use rs_io.Uri.Encode.{IsBytes}
use rs_io.Text.{Text}
use rs_io.Base.{
  [], ap, arith, if◌then◌else◌, length, ltb, refl, ℕ, ◌%◌, ◌*◌, ◌+◌, ◌-◌, ◌/◌, ◌<◌, ◌∙◌, ◌∷◌, ◌≡◌,
}

-- `xdigits[n]`
abbrev pub xdigit : ℕ → ℕ
xdigit n = if ltb n 10 then b'0' + n else b'a' + (n - 10)

unfoldable pub hex_bytes : Text → Text
hex_bytes [] = []
hex_bytes (b ∷ s) = xdigit (b / 16) ∷ xdigit (b % 16) ∷ hex_bytes s

abbrev pub xvalue : ℕ → ℕ
xvalue c = if ltb c b'a' then c - b'0' else c - b'a' + 10

-- The bytes that a text of hexadecimal digits spells.
abbrev pub unhex : Text → Text
unhex [] = []
unhex (x ∷ []) = []
unhex (x ∷ y ∷ s) = (xvalue x * 16 + xvalue y) ∷ unhex s

xvalue-xdigit : (n : ℕ) → n < 16 → xvalue (xdigit n) ≡ n
xvalue-xdigit n h = ground arith

-- The hexadecimal text of bytes has two characters for each, and spells them.
unhex-hex_bytes :
    (s : Text) → IsBytes s → (unhex (hex_bytes s) ≡ s) × (length (hex_bytes s) ≡ 2 * length s)
unfolding hex_bytes
unhex-hex_bytes [] h = (refl, refl)
unhex-hex_bytes (b ∷ s) h =
    let (e, l) = unhex-hex_bytes s h.1 in
    let high = xvalue-xdigit (b / 16) (omega (arith, h.0)) in
    let low = xvalue-xdigit (b % 16) (omega arith) in
    let byte : xvalue (xdigit (b / 16)) * 16 + xvalue (xdigit (b % 16)) ≡ b =
      omega (arith, high, low) in
    (ap (λ k. k ∷ unhex (hex_bytes s)) byte ∙ ap (◌∷◌ b) e, omega (arith, l))
