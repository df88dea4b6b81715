-- ===== src/FilePath/Files/Parents/Shorter.antt =====
-- The steps of `make_canonical` make no name longer.
use rs_io.FilePath.Canonical.{
  canonical, leading, merge_slashes, remove_dots, squeeze, trim_back, trim_leading, trim_trailing,
  is_trailing, slash, dot,
}
use rs_io.Text.{Text}
use rs_io.Base.{
  Bool-cases, [], ap, arith, drop, inl, inr, length, length-append, length-drop, length-take, ltb,
  ltb→lt, max, refl, reverse, suc, take, take-append-drop, zero, ℕ, ◌&&◌, ◌++◌, ◌-◌, ◌<◌, ◌==◌, ◌∙◌,
  ◌∷◌, ◌≡◌, ◌≤◌, ◌⊎◌,
}
use mathlib.Core.List.{reverse-cons, reverse-reverse}

-- A text that a step of `make_canonical` leaves: the same, or a shorter one.
abbrev pub Shrinks : Text → Text → Type 0
Shrinks s t = (t ≡ s) ⊎ (length t < length s)

pub Shrinks-trans : (s t u : Text) → Shrinks s t → Shrinks t u → Shrinks s u
Shrinks-trans s t u (inl e) (inl k) = inl (k ∙ e)
Shrinks-trans s t u (inl e) (inr k) = inr (omega (arith, ap length e))
Shrinks-trans s t u (inr e) (inl k) = inr (omega (arith, ap length k))
Shrinks-trans s t u (inr e) (inr k) = inr (omega arith)

Shrinks-cons : (c : ℕ) (s t : Text) → Shrinks s t → Shrinks (c ∷ s) (c ∷ t)
Shrinks-cons c s t (inl e) = inl (ap (◌∷◌ c) e)
Shrinks-cons c s t (inr e) = inr (omega arith)

Shrinks-le : (s t : Text) → Shrinks s t → length t ≤ length s
Shrinks-le s t (inl e) = omega (arith, ap length e)
Shrinks-le s t (inr e) = omega arith

leading-le : (s : Text) → leading s ≤ length s
unfolding leading
leading-le [] = omega arith
leading-le (c ∷ s) = ground (arith, leading-le s)

trim_leading-Shrinks : (s : Text) → Shrinks s (trim_leading s)
unfolding trim_leading
trim_leading-Shrinks s = elim (Bool-cases (ltb 1 (leading s))) [
  | inl more ↦
      rw more (
        inr (omega (arith, length-drop (leading s - 1) s, leading-le s, ltb→lt 1 (leading s) more)))
  | inr one ↦ rw one (inl refl)
]

remove_dots-Shrinks : (s : Text) → Shrinks s (remove_dots s)
unfolding remove_dots
remove_dots-Shrinks [] = inl refl
remove_dots-Shrinks (a ∷ []) = inl refl
remove_dots-Shrinks (a ∷ b ∷ []) = inl refl
remove_dots-Shrinks (a ∷ b ∷ c ∷ s) =
    let shorter = Shrinks-le (c ∷ s) (remove_dots (c ∷ s)) (remove_dots-Shrinks (c ∷ s)) in
    elim (Bool-cases (a == slash && (b == dot && c == slash))) [
      | inl cut ↦ rw cut (inr (omega arith))
      | inr kept ↦
          rw kept
            (Shrinks-cons a (b ∷ c ∷ s) (remove_dots (b ∷ c ∷ s)) (remove_dots-Shrinks (b ∷ c ∷ s)))
    ]

squeeze-Shrinks : (s : Text) → Shrinks s (squeeze s)
unfolding squeeze
squeeze-Shrinks [] = inl refl
squeeze-Shrinks (a ∷ []) = inl refl
squeeze-Shrinks (a ∷ b ∷ s) =
    let shorter = Shrinks-le (b ∷ s) (squeeze (b ∷ s)) (squeeze-Shrinks (b ∷ s)) in
    elim (Bool-cases (a == slash && b == slash)) [
      | inl cut ↦ rw cut (inr (omega arith))
      | inr kept ↦ rw kept (Shrinks-cons a (b ∷ s) (squeeze (b ∷ s)) (squeeze-Shrinks (b ∷ s)))
    ]

merge_slashes-Shrinks : (s : Text) → Shrinks s (merge_slashes s)
unfolding merge_slashes
merge_slashes-Shrinks s = elim (squeeze-Shrinks (drop (leading s) s)) [
  | inl e ↦ inl (ap (◌++◌ (take (leading s) s)) e ∙ take-append-drop (leading s) s)
  | inr e ↦ inr (
      omega (
        arith,
        e,
        length-append (take (leading s) s) (squeeze (drop (leading s) s)),
        length-take (leading s) s,
        length-drop (leading s) s,
      ))
]

trim_back-Shrinks : (n : ℕ) (s : Text) → Shrinks s (trim_back n s)
unfolding trim_back
trim_back-Shrinks n [] = inl refl
trim_back-Shrinks n (c ∷ s) =
    let shorter = Shrinks-le s (trim_back n s) (trim_back-Shrinks n s) in
    elim (Bool-cases (ltb n (suc (length s)) && is_trailing (c ∷ s))) [
      | inl cut ↦ rw cut (inr (omega arith))
      | inr kept ↦ rw kept (inl refl)
    ]

length-reverse : (s : Text) → length (reverse s) ≡ length s
length-reverse [] = refl
length-reverse (c ∷ s) =
    ap length (reverse-cons c s)
    ∙ length-append (reverse s) (c ∷ [])
    ∙ omega (arith, length-reverse s)

trim_trailing-Shrinks : (s : Text) → Shrinks s (trim_trailing s)
unfolding trim_trailing
trim_trailing-Shrinks s = elim (trim_back-Shrinks (max (leading s) 1) (reverse s)) [
  | inl e ↦ inl (ap reverse e ∙ reverse-reverse s)
  | inr e ↦
      inr (
        omega (arith, length-reverse s, length-reverse (trim_back (max (leading s) 1) (reverse s))))
]

pub canonical-Shrinks : (s : Text) → Shrinks s (canonical s)
unfolding canonical
canonical-Shrinks s =
    let a = trim_leading s in
    let b = remove_dots a in
    let c = merge_slashes b in
    Shrinks-trans s a (trim_trailing c) (trim_leading-Shrinks s) (
      Shrinks-trans a b (trim_trailing c) (remove_dots-Shrinks a)
        (Shrinks-trans b c (trim_trailing c) (merge_slashes-Shrinks b) (trim_trailing-Shrinks c)))

pub take-Shrinks : (n : ℕ) (p : Text) → Shrinks p (take n p)
take-Shrinks zero [] = inl refl
take-Shrinks (suc n) [] = inl refl
take-Shrinks zero (c ∷ p) = inr (omega arith)
take-Shrinks (suc n) (c ∷ p) = Shrinks-cons c p (take n p) (take-Shrinks n p)
