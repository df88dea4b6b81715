-- ===== src/ThreadPool/Weights.antt =====
-- Lists of jobs and of queues, measured by a weight for each job.
use rs_io.Base.{
  List, [], arith, get_elem?, get_or, length, refl, replicate, set, some, suc, zero, ℕ, ◌++◌, ◌+◌,
  ◌<◌, ◌∷◌, ◌≡◌,
}
use rs_io.ThreadPool.{back, pop_back, front, pop_front, erase}

module _ {ℓ} {A : Type ℓ} (w : A → ℕ) where
  -- The weights of the jobs in a list, added up.
  abbrev pub weight : List A → ℕ
  weight [] = 0
  weight (x ∷ xs) = w x + weight xs

  abbrev pub total : List (List A) → ℕ
  total [] = 0
  total (q ∷ qs) = weight q + total qs

  pub weight-append : (xs ys : List A) → weight (xs ++ ys) ≡ weight xs + weight ys
  weight-append [] ys = omega arith
  weight-append (x ∷ xs) ys = omega (arith, weight-append xs ys)

  pub weight-erase :
      (xs : List A) (k : ℕ) (x : A)
      → get_elem? xs k ≡ some x
      → weight (erase xs k) + w x ≡ weight xs
  weight-erase [] k x h = absurd cc
  weight-erase (y ∷ xs) zero x h = ground arith
  weight-erase (y ∷ xs) (suc k) x h = omega (arith, weight-erase xs k x h)

  pub weight-back :
      (xs : List A) (x : A) → back xs ≡ some x → weight (pop_back xs) + w x ≡ weight xs
  weight-back [] x h = absurd cc
  weight-back (y ∷ []) x h = ground arith
  weight-back (y ∷ z ∷ xs) x h = omega (arith, weight-back (z ∷ xs) x h)

  pub weight-front :
      (xs : List A) (x : A) → front xs ≡ some x → weight (pop_front xs) + w x ≡ weight xs
  weight-front [] x h = absurd cc
  weight-front (y ∷ xs) x h = ground arith

  -- A worker's queue loses the weight `k`; without such a worker, there is nothing to lose.
  pub total-take :
      (qs : List (List A)) (i k : ℕ) (q : List A)
      → weight q + k ≡ weight (get_or qs i [])
      → total (set qs i q) + k ≡ total qs
  total-take [] i k q h = omega arith
  total-take (p ∷ qs) zero k q h = omega arith
  total-take (p ∷ qs) (suc i) k q h = omega (arith, total-take qs i k q h)

  pub total-push :
      (qs : List (List A)) (i : ℕ) (x : A)
      → i < length qs
      → total (set qs i (get_or qs i [] ++ x ∷ [])) ≡ total qs + w x
  total-push [] i x h = absurd (omega arith)
  total-push (p ∷ qs) zero x h = omega (arith, weight-append p (x ∷ []))
  total-push (p ∷ qs) (suc i) x h = omega (arith, total-push qs i x (omega arith))

  pub total-replicate : (n : ℕ) → total (replicate n []) ≡ 0
  total-replicate zero = refl
  total-replicate (suc n) = omega (arith, total-replicate n)
