-- ===== src/ThreadPool/Jobs.antt =====
-- The accounts of the jobs in a thread pool, over every order of its threads' steps.
use rs_io.Base.{
  Bool-cases, List, Option, Option-cases, [], ap, arith, get_elem?, inl, inr, length,
  length-replicate, none, refl, set, some, suc, zero, ℕ, ◌++◌, ◌+◌, ◌<◌, ◌==◌, ◌∷◌, ◌≡◌,
}
use native.Mathlib.Nat.{mod-lt}
use rs_io.ThreadPool.{
  start, Pool, Event, queue_at, back, pop_back, front, pop_front, erase, init, step, run, enter,
  load_worker, store_worker, push, take_own, steal, finish, clear_queue, enters, loads, stores,
  pushes, takes, steals, finishes, clears, begins_clear, ends_clear, shuts_down,
}
use rs_io.ThreadPool.Weights.{
  weight, total, weight-append, weight-erase, weight-back, weight-front, total-take, total-push,
  total-replicate,
}

pub weight-length : {A : Type 0} (xs : List A) → weight (λ _. 1) xs ≡ length xs
weight-length [] = refl
weight-length (x ∷ xs) = omega (arith, weight-length xs)

-- The indices that threads use without a check.
abbrev AllBelow : {A : Type 0} → ℕ → List (ℕ × A) → Type 0
AllBelow n [] = Unit {0}
AllBelow n (c ∷ cs) = (c.0 < n) × AllBelow n cs

pub record InRange {A : Type 0} (n : ℕ) (p : Pool A) : Type 0 where
  pub workers : length p.queues ≡ n
  pub next_below : p.next_worker < n
  pub choosing_below : AllBelow n p.choosing
  pub inserting_below : AllBelow n p.inserting

pub record IsAccounted {A : Type 0} (p : Pool A) : Type 0 where
  -- Whatever the jobs weigh, those accepted are queued, running, finished or dropped.
  pub all_jobs :
      (w : A → ℕ)
      → weight w p.accepted
        ≡ total w p.queues + weight w p.running + weight w p.finished + weight w p.dropped
  -- The counter is the number of jobs queued or running.
  pub unfinished : p.unfinished_jobs ≡ total (λ _. 1) p.queues + length p.running

length-set : {A : Type 0} (xs : List A) (i : ℕ) (x : A) → length (set xs i x) ≡ length xs
length-set [] i x = refl
length-set (y ∷ xs) zero x = refl
length-set (y ∷ xs) (suc i) x = ap suc (length-set xs i x)

AllBelow-erase :
    {A : Type 0} (n : ℕ) (cs : List (ℕ × A)) (k : ℕ) → AllBelow n cs → AllBelow n (erase cs k)
AllBelow-erase n [] k h = tt
AllBelow-erase n (c ∷ cs) zero h = h.1
AllBelow-erase n (c ∷ cs) (suc k) h = (h.0, AllBelow-erase n cs k h.1)

AllBelow-at :
    {A : Type 0} (n : ℕ) (cs : List (ℕ × A)) (k : ℕ) (c : ℕ × A)
    → AllBelow n cs
    → get_elem? cs k ≡ some c
    → c.0 < n
AllBelow-at n [] k c h e = absurd cc
AllBelow-at n (d ∷ cs) zero c h e = ground (arith, h.0)
AllBelow-at n (d ∷ cs) (suc k) c h e = AllBelow-at n cs k c h.1 e

module _ {A : Type 0} where
  start-InRange :
      (n : ℕ) (p : Pool A) (i : ℕ) (q : List A) (o : Option A)
      → InRange n p
      → InRange n (start p i q o)
  start-InRange n p i q none v = v
  start-InRange n p i q (some x) v = ground (arith, length-set p.queues i q)

  step-InRange : (n : ℕ) (p : Pool A) (e : Event A) → InRange n p → InRange n (step p e)
  unfolding step enter load_worker store_worker push take_own steal finish clear_queue
  step-InRange n p (enters x) v = ground arith
  step-InRange n p (loads k) v = elim (Option-cases (get_elem? p.entered k)) [
    | inl e ↦ rw e v
    | inr (x, e) ↦ rw e (ground arith)
  ]
  step-InRange n p (stores k) v = elim (Option-cases (get_elem? p.choosing k)) [
    | inl e ↦ rw e v
    | inr ((i, x), e) ↦
        let some_worker : 0 < length p.queues = omega (arith, v.workers, v.next_below) in
        rw e (
          ground (
            arith,
            mod-lt (i + 1) some_worker,
            AllBelow-at n p.choosing k (i, x) v.choosing_below e,
            AllBelow-erase n p.choosing k v.choosing_below,
          ))
  ]
  step-InRange n p (pushes k) v = elim (Option-cases (get_elem? p.inserting k)) [
    | inl e ↦ rw e v
    | inr ((i, x), e) ↦ rw e (
        ground (
          arith,
          length-set p.queues i (queue_at p i ++ x ∷ []),
          AllBelow-erase n p.inserting k v.inserting_below,
        ))
  ]
  step-InRange n p (takes i) v =
      start-InRange n p i (pop_back (queue_at p i)) (back (queue_at p i)) v
  step-InRange n p (steals i) v =
      start-InRange n p i (pop_front (queue_at p i)) (front (queue_at p i)) v
  step-InRange n p (finishes k) v = elim (Option-cases (get_elem? p.running k)) [
    | inl e ↦ rw e v
    | inr (x, e) ↦ rw e (ground arith)
  ]
  step-InRange n p (clears i) v = ground (arith, length-set p.queues i [])
  step-InRange n p begins_clear v = ground arith
  step-InRange n p ends_clear v = ground arith
  step-InRange n p shuts_down v = ground arith

  start-IsAccounted :
      (p : Pool A) (i : ℕ) (q : List A) (o : Option A)
      → ((w : A → ℕ) (x : A) → o ≡ some x → weight w q + w x ≡ weight w (queue_at p i))
      → IsAccounted p
      → IsAccounted (start p i q o)
  start-IsAccounted p i q none h v = v
  start-IsAccounted p i q (some x) h v = record {
    all_jobs = λ w. omega (arith, v.all_jobs w, total-take w p.queues i (w x) q (h w x refl));
    unfinished =
        omega (arith, v.unfinished, total-take (λ _. 1) p.queues i 1 q (h (λ _. 1) x refl));
  }

  step-IsAccounted :
      (n : ℕ) (p : Pool A) (e : Event A) → InRange n p → IsAccounted p → IsAccounted (step p e)
  unfolding step enter load_worker store_worker push take_own steal finish clear_queue
  step-IsAccounted n p (loads k) r v = elim (Option-cases (get_elem? p.entered k)) [
    | inl e ↦ rw e v
    | inr (x, e) ↦ rw e (record { all_jobs = v.all_jobs; unfinished = v.unfinished })
  ]
  step-IsAccounted n p (stores k) r v = elim (Option-cases (get_elem? p.choosing k)) [
    | inl e ↦ rw e v
    | inr (c, e) ↦ rw e (record { all_jobs = v.all_jobs; unfinished = v.unfinished })
  ]
  step-IsAccounted n p (enters x) r v = elim (Bool-cases (p.clear_count == 0)) [
    | inl e ↦ rw e (record { all_jobs = v.all_jobs; unfinished = v.unfinished })
    | inr e ↦ rw e v
  ]
  step-IsAccounted n p (pushes k) r v = elim (Option-cases (get_elem? p.inserting k)) [
    | inl e ↦ rw e v
    | inr ((i, x), e) ↦
        let below : i < length p.queues =
          omega (arith, r.workers, AllBelow-at n p.inserting k (i, x) r.inserting_below e) in
        rw e (record {
          all_jobs = λ w. omega (arith, v.all_jobs w, total-push w p.queues i x below);
          unfinished = omega (arith, v.unfinished, total-push (λ _. 1) p.queues i x below);
        })
  ]
  step-IsAccounted n p (takes i) r v =
      start-IsAccounted p i (pop_back (queue_at p i)) (back (queue_at p i))
        (λ w. weight-back w (queue_at p i)) v
  step-IsAccounted n p (steals i) r v =
      start-IsAccounted p i (pop_front (queue_at p i)) (front (queue_at p i))
        (λ w. weight-front w (queue_at p i)) v
  step-IsAccounted n p (finishes k) r v = elim (Option-cases (get_elem? p.running k)) [
    | inl e ↦ rw e v
    | inr (x, e) ↦ rw e (record {
      all_jobs = λ w. omega (arith, v.all_jobs w, weight-erase w p.running k x e);
      unfinished = omega (
        arith,
        v.unfinished,
        weight-erase (λ _. 1) p.running k x e,
        weight-length p.running,
        weight-length (erase p.running k),
      );
    })
  ]
  step-IsAccounted n p (clears i) r v = record {
    all_jobs = λ w. omega (
      arith,
      v.all_jobs w,
      total-take w p.queues i (weight w (queue_at p i)) [] (omega arith),
      weight-append w (queue_at p i) p.dropped,
    );
    unfinished = omega (
      arith,
      v.unfinished,
      total-take (λ _. 1) p.queues i (weight (λ _. 1) (queue_at p i)) [] (omega arith),
      weight-length (queue_at p i),
    );
  }
  step-IsAccounted n p begins_clear r v = record {
    all_jobs = v.all_jobs;
    unfinished = v.unfinished;
  }
  step-IsAccounted n p ends_clear r v = record { all_jobs = v.all_jobs; unfinished = v.unfinished }
  step-IsAccounted n p shuts_down r v = record { all_jobs = v.all_jobs; unfinished = v.unfinished }

  run-holds :
      (n : ℕ) (p : Pool A) (es : List (Event A))
      → InRange n p
      → IsAccounted p
      → InRange n (run p es) × IsAccounted (run p es)
  unfolding run
  run-holds n p [] r v = (r, v)
  run-holds n p (e ∷ es) r v =
      run-holds n (step p e) es (step-InRange n p e r) (step-IsAccounted n p e r v)

  -- From the start of a pool with a worker or more, whatever order the steps of its threads come in: the
  -- indices into the workers that threads hold are in range; the jobs accepted are those queued,
  -- running, finished and dropped, each of them once; and `unfinished_jobs_` counts those queued or
  -- running.
  pub run-IsAccounted :
      (n : ℕ) (es : List (Event A))
      → 0 < n
      → InRange n (run (init n) es) × IsAccounted (run (init n) es)
  unfolding init
  run-IsAccounted n es h =
      run-holds n (init n) es
        (record {
          workers = length-replicate n [];
          next_below = h;
          choosing_below = tt;
          inserting_below = tt;
        })
        (record {
          all_jobs = λ w. omega (arith, total-replicate w n);
          unfinished = omega (arith, total-replicate {A = A} (λ _. 1) n);
        })
