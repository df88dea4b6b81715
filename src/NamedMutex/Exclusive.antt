-- ===== src/NamedMutex/Exclusive.antt =====
-- Mutual exclusion, and the two tests that no result of the semaphore meets.
use rs_io.Time.{ℤ, Stamp, duration_to_timespec}
use rs_io.Base.{
  Bool, Bool-cases, List, Option, [], arith, false, if◌then◌else◌, inl, inr, length, none, refl,
  some, suc, true, zero, ℕ, ◌+◌, ◌<◌, ◌==◌, ◌||◌, ◌∷◌, ◌≡◌, ◌≤◌,
}
use rs_io.NamedMutex.{
  returns, throws, blocks, lock, try_lock, try_lock_until, unlock, tried, Ending, Semaphore, after,
  pos, negsuc, eagain, etimedout, is_minus_one,
}

-- What POSIX says of a semaphore, with its value: a wait returns 0 and takes one from the value, or returns
-- -1 and leaves it; a post adds one.
abbrev pub IsTaken : ℕ → ℕ → ℤ → Type 0
IsTaken m n (pos zero) = m ≡ suc n
IsTaken m n (pos (suc k)) = ⊥
IsTaken m n (negsuc zero) = m ≡ n
IsTaken m n (negsuc (suc k)) = ⊥

pub record IsSemaphore {ℓ} {S : Type ℓ} (sem : Semaphore S) (value : S → ℕ) : Type ℓ where
  pub wait-IsTaken :
      (s t : S) (rc : ℤ) (e : ℕ) → sem.sem_wait s ≡ some (t, rc, e) → IsTaken (value s) (value t) rc
  pub timed-IsTaken :
      (d : Stamp) (s t : S) (rc : ℤ) (e : ℕ)
      → sem.sem_timedwait s d ≡ some (t, rc, e)
      → IsTaken (value s) (value t) rc
  pub post-value : (s : S) → value (sem.sem_post s) ≡ suc (value s)

-- The calls of the processes that share the mutex, each with its process.
pub data Call : Type 0 where
  by_lock by_try by_unlock : ℕ → Call
  by_until : ℤ → ℕ → Call

abbrev pub taken_by : ℕ → Ending → List ℕ → List ℕ
taken_by p (returns true) hs = p ∷ hs
taken_by p (returns false) hs = hs
taken_by p (throws e) hs = hs
taken_by p blocks hs = hs

abbrev pub holds : ℕ → List ℕ → Bool
holds p [] = false
holds p (h ∷ hs) = h == p || holds p hs

abbrev pub released : ℕ → List ℕ → List ℕ
released p [] = []
released p (h ∷ hs) = let rest = released p hs in if h == p then hs else h ∷ rest

module _ {ℓ} {S : Type ℓ} (sem : Semaphore S) (value : S → ℕ) (law : IsSemaphore sem value) where
  -- The state after a call, and the processes that hold the lock; one that does not hold it makes no unlock.
  abbrev pub step : Call → S × List ℕ → S × List ℕ
  step (by_lock p) (s, hs) = ((lock sem s).0, taken_by p (lock sem s).1 hs)
  step (by_try p) (s, hs) = ((try_lock sem s).0, taken_by p (try_lock sem s).1 hs)
  step (by_until d p) (s, hs) =
      ((try_lock_until sem d s).0, taken_by p (try_lock_until sem d s).1 hs)
  step (by_unlock p) (s, hs) = if holds p hs then (unlock sem s, released p hs) else (s, hs)

  abbrev pub run : List Call → S × List ℕ → S × List ℕ
  run [] q = q
  run (c ∷ cs) q = run cs (step c q)

  -- Either the value is 1 and no process holds the lock, or it is 0 and one does.
  abbrev pub IsBalanced : S × List ℕ → Type 0
  IsBalanced (s, hs) = value s + length hs ≡ 1

  length-released :
      (p : ℕ) (hs : List ℕ) → holds p hs ≡ true → suc (length (released p hs)) ≡ length hs
  length-released p [] h = absurd cc
  length-released p (x ∷ hs) h = ground (arith, length-released p hs)

  tried-IsBalanced :
      (code p : ℕ) (s t : S) (rc : ℤ) (e : ℕ) (hs : List ℕ)
      → 0 < code
      → IsTaken (value s) (value t) rc
      → IsBalanced (s, hs)
      → IsBalanced (t, taken_by p (tried code rc e) hs)
  tried-IsBalanced code p s t (pos zero) e hs c h b = omega (arith, h, b)
  tried-IsBalanced code p s t (pos (suc k)) e hs c h b = elim h [ ]
  tried-IsBalanced code p s t (negsuc zero) e hs c h b = omega (arith, h, b)
  tried-IsBalanced code p s t (negsuc (suc k)) e hs c h b = elim h [ ]

  lock-IsBalanced :
      (p : ℕ) (s : S) (hs : List ℕ) → IsBalanced (s, hs) → IsBalanced (step (by_lock p) (s, hs))
  unfolding lock
  lock-IsBalanced p s hs b = ended (sem.sem_wait s) refl
    where
      k : ℤ → ℕ → Ending
      k rc err = if is_minus_one rc then throws err else returns true

      failed :
          (t : S) (rc : ℤ) (e : ℕ)
          → IsTaken (value s) (value t) rc
          → IsBalanced (t, taken_by p (k rc e) hs)
      failed t (pos zero) e h = omega (arith, h, b)
      failed t (pos (suc n)) e h = elim h [ ]
      failed t (negsuc zero) e h = omega (arith, h, b)
      failed t (negsuc (suc n)) e h = elim h [ ]

      ended :
          (o : Option (S × ℤ × ℕ))
          → sem.sem_wait s ≡ o
          → IsBalanced ((after sem s o k).0, taken_by p (after sem s o k).1 hs)
      ended none h = b
      ended (some (t, rc, e)) h = failed t rc e (law.wait-IsTaken s t rc e h)

  try-IsBalanced :
      (p : ℕ) (s : S) (hs : List ℕ) → IsBalanced (s, hs) → IsBalanced (step (by_try p) (s, hs))
  unfolding try_lock
  try-IsBalanced p s hs b = ended (sem.sem_wait s) refl
    where
      ended :
          (o : Option (S × ℤ × ℕ))
          → sem.sem_wait s ≡ o
          → IsBalanced
              ((after sem s o (tried eagain)).0, taken_by p (after sem s o (tried eagain)).1 hs)
      ended none h = b
      ended (some (t, rc, e)) h =
          tried-IsBalanced eagain p s t rc e hs (omega arith) (law.wait-IsTaken s t rc e h) b

  until-IsBalanced :
      (d : ℤ) (p : ℕ) (s : S) (hs : List ℕ)
      → IsBalanced (s, hs)
      → IsBalanced (step (by_until d p) (s, hs))
  unfolding try_lock_until
  until-IsBalanced d p s hs b = ended (sem.sem_timedwait s (duration_to_timespec d)) refl
    where
      ended :
          (o : Option (S × ℤ × ℕ))
          → sem.sem_timedwait s (duration_to_timespec d) ≡ o
          → IsBalanced (
            (after sem s o (tried etimedout)).0,
            taken_by p (after sem s o (tried etimedout)).1 hs,
          )
      ended none h = b
      ended (some (t, rc, e)) h =
          tried-IsBalanced etimedout p s t rc e hs (omega arith)
            (law.timed-IsTaken (duration_to_timespec d) s t rc e h) b

  unlock-IsBalanced :
      (p : ℕ) (s : S) (hs : List ℕ) → IsBalanced (s, hs) → IsBalanced (step (by_unlock p) (s, hs))
  unfolding unlock
  unlock-IsBalanced p s hs b = elim (Bool-cases (holds p hs)) [
    | inl held ↦ rw held (omega (arith, law.post-value s, length-released p hs held, b))
    | inr free ↦ rw free b
  ]

  run-IsBalanced :
      (cs : List Call) (s : S) (hs : List ℕ) → IsBalanced (s, hs) → IsBalanced (run cs (s, hs))
  run-IsBalanced [] s hs b = b
  run-IsBalanced (by_lock p ∷ cs) s hs b =
      run-IsBalanced cs (step (by_lock p) (s, hs)).0 (step (by_lock p) (s, hs)).1
        (lock-IsBalanced p s hs b)
  run-IsBalanced (by_try p ∷ cs) s hs b =
      run-IsBalanced cs (step (by_try p) (s, hs)).0 (step (by_try p) (s, hs)).1
        (try-IsBalanced p s hs b)
  run-IsBalanced (by_until d p ∷ cs) s hs b =
      run-IsBalanced cs (step (by_until d p) (s, hs)).0 (step (by_until d p) (s, hs)).1
        (until-IsBalanced d p s hs b)
  run-IsBalanced (by_unlock p ∷ cs) s hs b =
      run-IsBalanced cs (step (by_unlock p) (s, hs)).0 (step (by_unlock p) (s, hs)).1
        (unlock-IsBalanced p s hs b)

  -- At most one process holds the mutex after any calls of `lock`, `try_lock`, `try_lock_until` and `unlock`
  -- from the semaphore's first value 1, where a process that does not hold the mutex makes no `unlock`, and
  -- where the semaphore keeps its value as POSIX says.
  pub run-IsExclusive : (cs : List Call) (s : S) → value s ≡ 1 → length (run cs (s, [])).1 ≤ 1
  run-IsExclusive cs s h = omega (arith, run-IsBalanced cs s [] (omega (arith, h)))

  -- `try_lock` never returns false, and `try_lock_until` neither: where the wait fails, whatever the errno,
  -- they throw it, since -1 is neither EAGAIN nor ETIMEDOUT.
  pub try_lock-throws :
      (s t : S) (d : ℤ) (e : ℕ)
      → (sem.sem_wait s ≡ some (t, negsuc 0, e) → try_lock sem s ≡ (t, throws e))
        × (sem.sem_timedwait s (duration_to_timespec d) ≡ some (t, negsuc 0, e)
            → try_lock_until sem d s ≡ (t, throws e))
  unfolding try_lock try_lock_until
  try_lock-throws s t d e = (λ h. rw h refl, λ h. rw h refl)
