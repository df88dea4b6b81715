-- ===== src/ThreadPool/Idle.antt =====
-- What `poll` and `wait` tell of a thread pool.
use rs_io.Base.{
  ==_iff, Bool, Bool-cases, List, [], ap, arith, false, get_elem?, inl, inr, length, not, refl,
  some, suc, true, zero, ℕ, ◌+◌, ◌<◌, ◌||◌, ◌∙◌, ◌∷◌, ◌≡◌,
}
use rs_io.ThreadPool.{wait_until, Event, init, run, poll, Pool}
use rs_io.ThreadPool.Weights.{weight, total}
use rs_io.ThreadPool.Jobs.{run-IsAccounted, weight-length}

module _ {A : Type 0} where
  weight-nil : (w : A → ℕ) (xs : List A) → length xs ≡ 0 → weight w xs ≡ 0
  weight-nil w [] h = refl
  weight-nil w (x ∷ xs) h = absurd (omega arith)

  total-nil : (w : A → ℕ) (qs : List (List A)) → total (λ _. 1) qs ≡ 0 → total w qs ≡ 0
  total-nil w [] h = refl
  total-nil w (q ∷ qs) h =
      omega (arith, weight-nil w q (omega (arith, weight-length q)), total-nil w qs (omega arith))

  -- When `poll` answers yes at some point of any order of steps, as it does when `wait` returns, no job
  -- is running, and the jobs accepted so far are those finished and those dropped, each of them once.
  pub poll-done :
      (n : ℕ) (es : List (Event A))
      → 0 < n
      → poll (run (init n) es) ≡ true
      → (length (run (init n) es).running ≡ 0)
        × ((w : A → ℕ)
            → weight w (run (init n) es).accepted
              ≡ weight w (run (init n) es).finished + weight w (run (init n) es).dropped)
  unfolding poll
  poll-done n es h idle =
      let p = run (init n) es in
      let v = (run-IsAccounted n es h).1 in
      let none_left : p.unfinished_jobs ≡ 0 = (==_iff p.unfinished_jobs 0).0 idle in
      let still : length p.running ≡ 0 = omega (arith, v.unfinished) in
      (
        still,
        λ w. omega (
          arith,
          v.all_jobs w,
          weight-nil w p.running still,
          total-nil w p.queues (omega (arith, v.unfinished)),
        ),
      )

  -- The last state that a wait sees, with the answer of the clock.
  abbrev pub EndsAt : List (Pool A × Bool) → Bool → Type 0
  EndsAt ps r =
      (k : ℕ) × (p : Pool A) × (late : Bool) × (get_elem? ps k ≡ some (p, late))
      × (poll p ≡ r)
      × (not r ≡ true → late ≡ true)

  -- A wait that returns saw a state in which `poll` answers what it returns; if that is no, the clock had
  -- reached the time. A wait returns if it sees an idle pool or a clock that has reached the time.
  wait_until-EndsAt :
      (ps : List (Pool A × Bool))
      → ((r : Bool) → wait_until ps ≡ some r → EndsAt ps r)
        × ((k : ℕ) (p : Pool A) (late : Bool)
            → get_elem? ps k ≡ some (p, late)
            → (poll p || late) ≡ true
            → (r : Bool) × (wait_until ps ≡ some r))
  unfolding wait_until
  wait_until-EndsAt ps = (answer ps, returns ps)
    where
      answer : (ps : List (Pool A × Bool)) (r : Bool) → wait_until ps ≡ some r → EndsAt ps r
      answer [] r h = absurd cc
      answer ((p, late) ∷ ps) r h = elim (Bool-cases (poll p)) [
        | inl idle ↦ (0, p, late, refl, ground arith, λ e. ground arith)
        | inr busy ↦ elim (Bool-cases late) [
          | inl e ↦ (0, p, late, refl, ground arith, λ _. e)
          | inr e ↦
              let (k, p', l, at, r', t) = answer ps r (ground arith) in (suc k, p', l, at, r', t)
        ]
      ]

      returns :
          (ps : List (Pool A × Bool)) (k : ℕ) (p : Pool A) (late : Bool)
          → get_elem? ps k ≡ some (p, late)
          → (poll p || late) ≡ true
          → (r : Bool) × (wait_until ps ≡ some r)
      returns [] k p late h e = absurd cc
      returns ((q, l) ∷ ps) zero p late h e =
          let same : p ≡ q = cc in
          let same_late : late ≡ l = cc in
          elim (Bool-cases (poll q)) [
            | inl idle ↦ (true, ground arith)
            | inr busy ↦ elim (Bool-cases l) [
              | inl t ↦ (false, ground arith)
              | inr t ↦ let p_busy : poll p ≡ false = ap poll same ∙ busy in absurd (ground arith)
            ]
          ]
      returns ((q, l) ∷ ps) (suc k) p late h e =
          let (r, found) = returns ps k p late h e in
          elim (Bool-cases (poll q)) [
            | inl idle ↦ (true, ground arith)
            | inr busy ↦ elim (Bool-cases l) [
              | inl t ↦ (false, ground arith)
              | inr t ↦ (r, ground arith)
            ]
          ]
