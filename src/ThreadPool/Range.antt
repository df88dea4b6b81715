-- ===== src/ThreadPool/Range.antt =====
-- The range of int, in which ThreadPool::each of thread-pool.hpp counts.
use rs_io.Base.{
  Bool, Bool-cases, arith, false, inl, inr, ltb, not, refl, suc, true, zero, ℕ, ◌&&◌, ◌+◌, ◌-◌, ◌<◌,
  ◌≡◌, ◌≤◌,
}
use rs_io.Time.{ℤ, pos, negsuc, ◌+ℤ◌, neg}

unfoldable pub less : ℤ → ℤ → Bool
less (pos m) (pos n) = ltb m n
less (pos m) (negsuc n) = false
less (negsuc m) (pos n) = true
less (negsuc m) (negsuc n) = ltb n m

-- The range of `int`.
abbrev pub int_max : ℤ
int_max = pos 2147483647

abbrev pub int_min : ℤ
int_min = negsuc 2147483647

unfoldable pub fits : ℤ → Bool
unfolding less
fits i = not (less int_max i) && not (less i int_min)

-- How far it is from one number up to another.
abbrev pub distance : ℤ → ℤ → ℕ
distance (pos m) (pos n) = n - m
distance (pos m) (negsuc n) = 0
distance (negsuc m) (pos n) = suc m + n
distance (negsuc m) (negsuc n) = m - n

pub less-distance : (i j : ℤ) → less i j ≡ true → 0 < distance i j
unfolding less
less-distance (pos m) (pos n) h = ground arith
less-distance (pos m) (negsuc n) h = absurd cc
less-distance (negsuc m) (pos n) h = omega arith
less-distance (negsuc m) (negsuc n) h = ground arith

distance-neg : (k n : ℕ) → distance (neg k) (pos n) ≡ k + n
distance-neg zero n = omega arith
distance-neg (suc k) n = refl

distance-neg_below : (k n : ℕ) → distance (neg k) (negsuc n) ≡ k - suc n
distance-neg_below zero n = omega arith
distance-neg_below (suc k) n = omega arith

pub distance-plus : (i j : ℤ) (d : ℕ) → distance (i +ℤ pos (suc d)) j ≡ distance i j - suc d
unfolding ◌+ℤ◌
distance-plus (pos m) (pos n) d = omega arith
distance-plus (pos m) (negsuc n) d = omega arith
distance-plus (negsuc m) j d = elim (Bool-cases (ltb (suc d) (suc m))) [
  | inl below ↦ rw below (from_neg j (ground arith))
  | inr above ↦ rw above (from_pos j (ground arith))
]
  where
    from_neg :
        (j : ℤ) → suc d < suc m → distance (neg (suc m - suc d)) j ≡ distance (negsuc m) j - suc d
    from_neg (pos n) h = omega (arith, distance-neg (suc m - suc d) n)
    from_neg (negsuc n) h = omega (arith, distance-neg_below (suc m - suc d) n)

    from_pos :
        (j : ℤ) → suc m ≤ suc d → distance (pos (suc d - suc m)) j ≡ distance (negsuc m) j - suc d
    from_pos (pos n) h = omega arith
    from_pos (negsuc n) h = omega arith

-- The bounds of a sum.
pub low_plus : (i : ℤ) (d : ℕ) → less i int_min ≡ false → less (i +ℤ pos (suc d)) int_min ≡ false
unfolding less ◌+ℤ◌
low_plus (pos m) d h = refl
low_plus (negsuc m) d h = elim (Bool-cases (ltb (suc d) (suc m))) [
  | inl below ↦ rw below (from_neg (suc m - suc d) (ground (arith, h)))
  | inr above ↦ rw above refl
]
  where
    from_neg : (k : ℕ) → k ≤ 2147483648 → less (neg k) int_min ≡ false
    from_neg zero b = refl
    from_neg (suc k) b = ground (arith, b)

pub high_plus :
    (i : ℤ) (d : ℕ) → suc d ≤ distance i int_max → less int_max (i +ℤ pos (suc d)) ≡ false
unfolding less ◌+ℤ◌
high_plus (pos m) d h = ground (arith, h)
high_plus (negsuc m) d h = elim (Bool-cases (ltb (suc d) (suc m))) [
  | inl below ↦ rw below (from_neg (suc m - suc d))
  | inr above ↦ rw above (ground (arith, h))
]
  where
    from_neg : (k : ℕ) → less int_max (neg k) ≡ false
    from_neg zero = refl
    from_neg (suc k) = refl

pub fits_sum : (i : ℤ) → less i int_min ≡ false → less int_max i ≡ false → fits i ≡ true
unfolding fits
fits_sum i low high = rw (low, high) refl

pub distance_before :
    (i stop : ℤ)
    → less i stop ≡ true
    → less int_max stop ≡ false
    → distance stop int_max < distance i int_max
unfolding less
distance_before (pos m) (pos n) h t = ground (arith, h, t)
distance_before (pos m) (negsuc n) h t = absurd cc
distance_before (negsuc m) (pos n) h t = ground (arith, t)
distance_before (negsuc m) (negsuc n) h t = ground (arith, h)
