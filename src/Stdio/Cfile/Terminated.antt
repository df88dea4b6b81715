-- ===== src/Stdio/Cfile/Terminated.antt =====
-- Cstdio::read_line on a line that ends in a newline.
use rs_io.Base.{
  Bool-cases, [], ap, append_assoc, arith, drop, false, inl, inr, is_nil, length, length-append,
  length-drop, ltb, refl, replicate, some, suc, sym, take, true, zero, ℕ, ◌++◌, ◌+◌, ◌-◌, ◌<◌, ◌∙◌,
  ◌∷◌, ◌≡◌,
}
use rs_io.Text.{Text, contains}
use rs_io.Stdio.Device
use rs_io.Stdio.Device.{Device, newline}
use rs_io.Stdio.Streams.{Source, first_line, after_line, read_line-first}
use rs_io.Stdio.Cfile.{small_block, fgets_line, text_end, read_line_loop, read_line}
use rs_io.Stdio.Cfile.Fgets.{no_nul, text_end-filled, text_end-append, fgets_last, fgets_more}

no_nul-append : (s t : Text) → no_nul (s ++ t) ≡ true → (no_nul s ≡ true) × (no_nul t ≡ true)
no_nul-append [] t h = (refl, h)
no_nul-append (c ∷ s) t h = ground (arith, no_nul-append s t)

take-length_append : (s t : Text) → take (length s) (s ++ t) ≡ s
take-length_append [] t = refl
take-length_append (c ∷ s) t = ap (λ (u : Text). c ∷ u) (take-length_append s t)

first_line_nonempty : (s : Text) → contains newline s ≡ true → is_nil s ≡ false
first_line_nonempty [] h = absurd cc
first_line_nonempty (c ∷ s) h = refl

contains-length : (c : ℕ) (s : Text) → contains c s ≡ true → 0 < length s
contains-length c [] h = absurd cc
contains-length c (d ∷ s) h = omega arith

-- A whole block behind `buf` is kept, without the zero that fgets adds.
block_kept :
    (buf got : Text)
    → length got ≡ 255
    → no_nul got ≡ true
    → let filled = buf ++ (got ++ replicate (small_block - length got) 0) in
      (ltb (text_end filled) (small_block - 1) ≡ false)
      × (take (length filled - 1) filled ≡ buf ++ got)
block_kept buf got l h =
    let r : small_block - length got ≡ 1 = omega (arith, l) in
    let e : text_end (got ++ replicate 1 0) ≡ length got = text_end-filled got 1 h in
    let e' : text_end (buf ++ (got ++ replicate 1 0)) ≡ length buf + 255 =
      text_end-append buf (got ++ replicate 1 0) (omega (arith, e, l))
      ∙ ap (◌+◌ (length buf)) (e ∙ l) in
    let a : buf ++ (got ++ replicate 1 0) ≡ (buf ++ got) ++ replicate 1 0 =
      sym (append_assoc buf got (replicate 1 0)) in
    let n : length ((buf ++ got) ++ replicate 1 0) - 1 ≡ length (buf ++ got) =
      omega (arith, length-append (buf ++ got) (replicate 1 0)) in
    rw r (ground (arith, e'), rw (a, n) (take-length_append (buf ++ got) (replicate 1 0)))

read_line_loop-terminated :
    (f : ℕ) (buf s : Text)
    → length s < f
    → contains newline s ≡ true
    → no_nul (first_line s) ≡ true
    → read_line_loop f buf s ≡ some (buf ++ first_line s, after_line s)
unfolding read_line_loop
read_line_loop-terminated zero buf s h c z = absurd (omega arith)
read_line_loop-terminated (suc f) buf s h c z =
    let got = fgets_line (small_block - 1) s in
    elim (Bool-cases (contains newline got)) [
      | inl last ↦
          let (line, rest) = fgets_last (small_block - 1) s last in
          rw (read_line_loop, first_line_nonempty s c, last) (λ i. some (buf ++ line i, rest i))
      | inr more ↦
          let p = fgets_more (small_block - 1) s c more in
          let (z1, z2) =
            no_nul-append got (first_line (drop (small_block - 1) s))
              (sym (ap no_nul p.front) ∙ z) in
          let (go, kept) = block_kept buf got p.full z1 in
          let e : drop (length got) s ≡ drop (small_block - 1) s = ap (λ k. drop k s) p.full in
          let size : length (drop (length got) s) < f =
            omega (arith, length-drop (length got) s, p.full, contains-length newline s c) in
          rw (read_line_loop, first_line_nonempty s c, more, go, kept)
            (read_line_loop-terminated f (buf ++ got) (drop (length got) s) size
                (ap (contains newline) e ∙ p.ahead)
                (ap (λ (t : Text). no_nul (first_line t)) e ∙ z2)
              ∙ (λ i. some (
                same_line buf got p.front (ap first_line e) i,
                (ap after_line e ∙ sym p.rest) i,
              )))
    ]
  where
    same_line : (d g : Text) {a b h : Text} → a ≡ g ++ h → b ≡ h → (d ++ g) ++ b ≡ d ++ a
    same_line d g x y = append_assoc d g _ ∙ ap (◌++◌ d) (ap (◌++◌ g) y ∙ sym x)

-- With fuel above what is to be read, Cstdio::read_line takes a line that ends in a newline and has no
-- zero byte, whatever its length, up to and with the newline.
pub read_line-terminated :
    (f : ℕ) (s : Text)
    → length s < f
    → contains newline s ≡ true
    → no_nul (first_line s) ≡ true
    → read_line f s ≡ some (first_line s, after_line s)
unfolding read_line
read_line-terminated f s = read_line_loop-terminated f [] s

-- For a device that is a source of bytes, and with fuel above what is left to be read, the function
-- that Cstdio overrides, IoBase::read_line over that device, and Cstdio::read_line over the same bytes
-- get the same line and leave the same bytes, if a line that ends in a newline and has no zero byte is
-- next.
pub read_line-overrides :
    {S : Type 0} (D : Device S) (left : S → Text)
    → Source D left
    → (f : ℕ) (s : S) → length (left s) < f
    → contains newline (left s) ≡ true
    → no_nul (first_line (left s)) ≡ true
    → (s' : S) × (line : Text) × (Device.read_line D f s ≡ some (s', line))
      × (read_line f (left s) ≡ some (line, left s'))
read_line-overrides D left law f s h c z =
    let (s', e, rest) = read_line-first D left law f s h in
    (
      s',
      first_line (left s),
      e,
      read_line-terminated f (left s) h c z ∙ (λ i. some (first_line (left s), sym rest i)),
    )
