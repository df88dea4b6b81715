-- ===== src/Stdio/Writes.antt =====
-- What the writing functions of IoBase leave on a device.
use rs_io.Base.{
  ==_iff, Bool-cases, [], ap, append_assoc, arith, drop, inl, inr, is_nil, length, length-drop,
  refl, some, suc, take, take-append-drop, take_all, zero, ℕ, ◌++◌, ◌+◌, ◌<◌, ◌==◌, ◌∙◌, ◌∷◌, ◌≡◌,
  ◌≤◌,
}
use rs_io.Text.{Text}
use rs_io.Stdio.Device.{Device, writes_loop, writes}

-- A sink of bytes: a write takes the front of a text, and something of it if it is not empty.
pub record Sink {ℓ} {S : Type ℓ} (D : Device S) (held : S → Text) : Type ℓ where
  pub writes_front : (s : S) (t : Text) → held (D.write s t).0 ≡ held s ++ take (D.write s t).1 t
  pub writes_at_most : (s : S) (t : Text) → (D.write s t).1 ≤ length t
  pub writes_something : (s : S) (t : Text) → 0 < length t → 0 < (D.write s t).1

is_nil-drop : (n : ℕ) (t : Text) → n ≤ length t → is_nil (drop n t) ≡ (n == length t)
is_nil-drop zero [] h = refl
is_nil-drop zero (c ∷ t) h = ground arith
is_nil-drop (suc n) [] h = elim h [ ]
is_nil-drop (suc n) (c ∷ t) h = ground (arith, is_nil-drop n t)

module _ {ℓ} {S : Type ℓ} (D : Device S) (held : S → Text) (law : Sink D held) where
  writes_loop-all :
      (f : ℕ) (s : S) (t : Text) (ofs : ℕ)
      → length t < f
      → (s' : S) × (writes_loop D f s t ofs ≡ some (s', ofs + length t)) × (held s' ≡ held s ++ t)
  unfolding writes_loop
  writes_loop-all zero s t ofs h = elim h [ ]
  writes_loop-all (suc f) s t ofs h =
      let n = (D.write s t).1 in
      let s₁ = (D.write s t).0 in
      let most = law.writes_at_most s t in
      let progress = law.writes_something s t in
      let front = law.writes_front s t in
      elim (Bool-cases (n == length t)) [
        | inl all ↦
            let e : n ≡ length t = (==_iff n (length t)).0 all in
            rw (is_nil-drop n t most ∙ all, writes_loop)
              (
                s₁,
                ap (λ k. some (s₁, ofs + k)) e,
                front ∙ ap (◌++◌ (held s)) (ap (λ k. take k t) e ∙ take_all t),
              )
        | inr part ↦
            let (s₂, r, z) =
              writes_loop-all f s₁ (drop n t) (ofs + n) (ground (arith, length-drop n t)) in
            let total : ofs + n + length (drop n t) ≡ ofs + length t =
              omega (arith, length-drop n t) in
            rw (is_nil-drop n t most ∙ part, writes_loop)
              (
                s₂,
                r ∙ ap (λ k. some (s₂, k)) total,
                z
                    ∙ (ap (λ u. u ++ drop n t) front
                        ∙ (append_assoc (held s) (take n t) (drop n t)
                            ∙ ap (◌++◌ (held s)) (take-append-drop n t))),
              )
      ]

  -- With fuel above the length, `writes` ends, returns the length, and the device holds the text
  -- behind what it held, however the device cuts it up.
  pub writes-all :
      (f : ℕ) (s : S) (t : Text)
      → length t < f
      → (s' : S) × (writes D f s t ≡ some (s', length t)) × (held s' ≡ held s ++ t)
  unfolding writes
  writes-all f s t h =
      let (s', r, z) = writes_loop-all f s t 0 h in
      let e : 0 + length t ≡ length t = omega arith in (s', r ∙ ap (λ k. some (s', k)) e, z)
