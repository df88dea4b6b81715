-- ===== src/Net/Hashing.antt =====
-- `bernstein_hash` of net.cpp, with its arithmetic on 32 bits, which is the hash of IPv6 and
-- SocketAddress.
use native.Mathlib.Nat.{pow-suc, mul_assoc}
use rs_io.Text.{Text}
use rs_io.Base.{[], ap, arith, length, refl, suc, ℕ, ◌%◌, ◌*◌, ◌+◌, ◌^◌, ◌∙◌, ◌∷◌, ◌≡◌}

unfoldable pub hash_loop : ℕ → Text → ℕ
hash_loop hash [] = hash
hash_loop hash (b ∷ s) = hash_loop ((33 * hash + b) % 2 ^ 32) s

unfoldable pub bernstein_hash : Text → ℕ
bernstein_hash s = hash_loop 5381 s

-- The polynomial in 33 over the bytes, in full.
abbrev pub polynomial : Text → ℕ → ℕ
polynomial [] seed = seed
polynomial (b ∷ s) seed = 33 ^ length s * b + polynomial s (33 * seed)

power-mul : (k n : ℕ) → 33 ^ suc k * n ≡ 33 ^ k * (33 * n)
power-mul k n = ap (λ x. x * n) (pow-suc 33 k) ∙ mul_assoc (33 ^ k) 33 n

polynomial-add : (s : Text) (m n : ℕ) → polynomial s (m + n) ≡ 33 ^ length s * n + polynomial s m
polynomial-add [] m n = omega arith
polynomial-add (b ∷ s) m n =
    let e : 33 * (m + n) ≡ 33 * m + 33 * n = omega arith in
    let ih = polynomial-add s (33 * m) (33 * n) in
    ap (λ k. 33 ^ length s * b + polynomial s k) e ∙ omega (arith, ih, power-mul (length s) n)

hash_loop-polynomial : (s : Text) (h : ℕ) → hash_loop (h % 2 ^ 32) s ≡ polynomial s h % 2 ^ 32
unfolding hash_loop
hash_loop-polynomial [] h = refl
hash_loop-polynomial (b ∷ s) h =
    let wrap : (33 * (h % 2 ^ 32) + b) % 2 ^ 32 ≡ (33 * h + b) % 2 ^ 32 = omega arith in
    ap (λ k. hash_loop k s) wrap
    ∙ (hash_loop-polynomial s (33 * h + b) ∙ ap (λ k. k % 2 ^ 32) (polynomial-add s (33 * h) b))

-- The hash is the polynomial with the seed 5381, modulo 2^32: the wrap-around in each round loses
-- nothing else.
bernstein_hash-polynomial : (s : Text) → bernstein_hash s ≡ polynomial s 5381 % 2 ^ 32
unfolding bernstein_hash
bernstein_hash-polynomial s = hash_loop-polynomial s 5381
