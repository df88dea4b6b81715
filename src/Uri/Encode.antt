-- ===== src/Uri/Encode.antt =====
-- Uri::encode and Uri::decode of uri.cpp, and that decoding undoes encoding.
use rs_io.Base.{
  Bool, Bool-cases, [], ap, arith, false, if◌then◌else◌, inl, inr, length, ltb, refl, true, ℕ, ◌&&◌,
  ◌++◌, ◌<◌, ◌==◌, ◌||◌, ◌∙◌, ◌∷◌, ◌≡◌,
}
use rs_io.Text.{Text, contains}
use rs_io.Uri.Defs.{Format, FormatLaws}

module _ (F : Format) where
  -- The lambda in `encode`.
  unfoldable pub is_safe : Text → ℕ → Bool
  is_safe exempt c = F.isalnum_w c || (c == b'-' || (c == b'.' || (c == b'~' || contains c exempt)))

  -- Runs of safe characters are copied, any other is escaped.
  unfoldable pub encode : Text → Text → Text
  unfolding is_safe
  encode [] exempt = []
  encode (c ∷ s) exempt =
      if is_safe exempt c then c ∷ encode s exempt else b'%' ∷ (F.hex c ++ encode s exempt)

  -- The loop of `decode` from a position on. It stops where fewer than two characters follow.
  unfoldable pub decode_from : Text → Text
  decode_from [] = []
  decode_from (c ∷ []) = c ∷ []
  decode_from (c ∷ d ∷ []) = c ∷ d ∷ []
  decode_from (c ∷ x ∷ y ∷ s) =
      let escaped = F.to_uint8 x y ∷ decode_from s in
      let plain = c ∷ decode_from (x ∷ y ∷ s) in
      if c == b'%' && (F.isxdigit x && F.isxdigit y) then escaped else plain

  unfoldable pub decode : Text → Text
  unfolding decode_from
  decode s = if ltb (length s) 3 then s else decode_from s

  pub decode-eq_from : (s : Text) → decode s ≡ decode_from s
  unfolding decode
  decode-eq_from [] = refl
  decode-eq_from (c ∷ []) = refl
  decode-eq_from (c ∷ d ∷ []) = refl
  decode-eq_from (c ∷ x ∷ y ∷ s) = ground arith

  decode_from-plain :
      (c : ℕ) (s : Text) → (c == b'%') ≡ false → decode_from (c ∷ s) ≡ c ∷ decode_from s
  unfolding decode_from
  decode_from-plain c [] h = refl
  decode_from-plain c (x ∷ []) h = refl
  decode_from-plain c (x ∷ y ∷ s) h = rw h

-- Every character is a byte.
abbrev pub IsBytes : Text → Type 0
IsBytes [] = Unit {0}
IsBytes (c ∷ s) = (c < 256) × IsBytes s

module _ (F : Format) (L : FormatLaws F) where
  decode_from-escape :
      (c : ℕ) (s : Text) → c < 256 → decode_from F (b'%' ∷ (F.hex c ++ s)) ≡ c ∷ decode_from F s
  unfolding decode_from
  decode_from-escape c s h =
      rw (L.hex_pair c h, L.high-isxdigit c h, L.low-isxdigit c h, L.to_uint8-hex c h)

  safe-ne-percent :
      (exempt : Text) (c : ℕ)
      → contains b'%' exempt ≡ false
      → is_safe F exempt c ≡ true
      → (c == b'%') ≡ false
  unfolding is_safe
  safe-ne-percent exempt c h s = ground (arith, L.percent)

  decode_from-encode :
      (s exempt : Text)
      → IsBytes s
      → contains b'%' exempt ≡ false
      → decode_from F (encode F s exempt) ≡ s
  unfolding encode decode_from
  decode_from-encode [] exempt b h = refl
  decode_from-encode (c ∷ s) exempt b h = elim (Bool-cases (is_safe F exempt c)) [
    | inl safe ↦ rw safe (
        decode_from-plain F c (encode F s exempt) (safe-ne-percent exempt c h safe)
        ∙ ap (◌∷◌ c) (decode_from-encode s exempt b.1 h))
    | inr unsafe ↦ rw unsafe (
        decode_from-escape c (encode F s exempt) b.0
        ∙ ap (◌∷◌ c) (decode_from-encode s exempt b.1 h))
  ]

  -- Decoding an encoded text gives the text back, for every text of bytes and every set of
  -- exempted characters without the percent sign.
  pub decode-encode :
      (s exempt : Text)
      → IsBytes s
      → contains b'%' exempt ≡ false
      → decode F (encode F s exempt) ≡ s
  decode-encode s exempt b h =
      decode-eq_from F (encode F s exempt) ∙ decode_from-encode s exempt b h
