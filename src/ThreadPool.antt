-- ===== src/ThreadPool.antt =====
-- The class ThreadPool of thread-pool.hpp and thread-pool.cpp as steps of its threads. A step is what a
-- thread does between two points at which others can come in: a locked block, or one access to an atomic
-- variable.
pub mod Weights
pub mod Jobs
pub mod Range
pub mod Each
pub mod Idle
use rs_io.Base.{
  Bool, List, Option, [], false, get_elem?, get_or, if◌then◌else◌, length, none, replicate, set,
  some, suc, true, zero, ℕ, ◌%◌, ◌++◌, ◌+◌, ◌-◌, ◌==◌, ◌∷◌,
}

-- `queues` has one queue for each worker. The threads inside `insert` are those that have passed the test
-- at its start, `entered`, those that have loaded next_worker_ too, `choosing`, and those that have stored
-- it and are in front of the locked block, `inserting`; the jobs that a worker is calling are `running`.
-- The last three fields are a record of what happened to the jobs, which the program does not keep.
pub record Pool {ℓ} (A : Type ℓ) : Type ℓ where
  pub queues : List (List A)
  pub next_worker : ℕ
  pub clear_count : ℕ
  pub unfinished_jobs : ℕ
  pub shutting_down : Bool
  pub entered : List A
  pub choosing : List (ℕ × A)
  pub inserting : List (ℕ × A)
  pub running : List A
  pub accepted : List A
  pub finished : List A
  pub dropped : List A

-- `adjust_threads`, with the answer of `hardware_concurrency`; an argument that is not positive is 0.
unfoldable pub adjust_threads : ℕ → ℕ → ℕ
adjust_threads hardware threads =
    let n = if threads == 0 then hardware else threads in if n == 0 then 1 else n

abbrev pub back {ℓ} : {A : Type ℓ} → List A → Option A
back [] = none
back (x ∷ []) = some x
back (x ∷ y ∷ xs) = back (y ∷ xs)

abbrev pub pop_back {ℓ} : {A : Type ℓ} → List A → List A
pop_back [] = []
pop_back (x ∷ []) = []
pop_back (x ∷ y ∷ xs) = x ∷ pop_back (y ∷ xs)

abbrev pub front {ℓ} : {A : Type ℓ} → List A → Option A
front [] = none
front (x ∷ xs) = some x

abbrev pub pop_front {ℓ} : {A : Type ℓ} → List A → List A
pop_front [] = []
pop_front (x ∷ xs) = xs

-- The list without its element at `k`.
abbrev pub erase {ℓ} : {A : Type ℓ} → List A → ℕ → List A
erase [] k = []
erase (x ∷ xs) zero = xs
erase (x ∷ xs) (suc k) = x ∷ erase xs k

-- The steps of all threads.
pub data Event {ℓ} (A : Type ℓ) : Type ℓ where
  enters : A → Event A
  loads stores pushes takes steals finishes clears : ℕ → Event A
  begins_clear ends_clear shuts_down : Event A

module _ {ℓ} {A : Type ℓ} where
  -- The constructor, for the number of threads after `adjust_threads`.
  unfoldable pub init : ℕ → Pool A
  init n = record {
    queues = replicate n [];
    next_worker = 0;
    clear_count = 0;
    unfinished_jobs = 0;
    shutting_down = false;
    entered = [];
    choosing = [];
    inserting = [];
    running = [];
    accepted = [];
    finished = [];
    dropped = [];
  }

  abbrev pub queue_at : Pool A → ℕ → List A
  queue_at p i = get_or p.queues i []

  -- The test of `insert`.
  unfoldable pub enter : Pool A → A → Pool A
  enter p x = if p.clear_count == 0 then record p { entered = x ∷ p.entered } else p

  -- `int index = next_worker_`, by the thread at `k` of those that have passed the test.
  abbrev load_at : Pool A → ℕ → Option A → Pool A
  load_at p k none = p
  load_at p k (some x) = record p {
    entered = erase p.entered k;
    choosing = (p.next_worker, x) ∷ p.choosing;
  }

  unfoldable pub load_worker : Pool A → ℕ → Pool A
  load_worker p k = load_at p k (get_elem? p.entered k)

  -- `next_worker_ = (index + 1) % threads()`, by the thread at `k` of those that have an index.
  abbrev store_at : Pool A → ℕ → Option (ℕ × A) → Pool A
  store_at p k none = p
  store_at p k (some (i, x)) = record p {
    next_worker = (i + 1) % length p.queues;
    choosing = erase p.choosing k;
    inserting = (i, x) ∷ p.inserting;
  }

  unfoldable pub store_worker : Pool A → ℕ → Pool A
  store_worker p k = store_at p k (get_elem? p.choosing k)

  -- The locked block of `insert`, by the thread at `k` of those that are inside.
  abbrev push_at : Pool A → ℕ → Option (ℕ × A) → Pool A
  push_at p k none = p
  push_at p k (some (i, x)) = record p {
    inserting = erase p.inserting k;
    unfinished_jobs = p.unfinished_jobs + 1;
    queues = set p.queues i (queue_at p i ++ x ∷ []);
    accepted = x ∷ p.accepted;
  }

  unfoldable pub push : Pool A → ℕ → Pool A
  push p k = push_at p k (get_elem? p.inserting k)

  -- The locked blocks of `thread_payload`: a worker takes the last job of its own queue, or the first of
  -- any.
  abbrev pub start : Pool A → ℕ → List A → Option A → Pool A
  start p i rest none = p
  start p i rest (some x) = record p { queues = set p.queues i rest; running = x ∷ p.running }

  unfoldable pub take_own : Pool A → ℕ → Pool A
  take_own p i = start p i (pop_back (queue_at p i)) (back (queue_at p i))

  unfoldable pub steal : Pool A → ℕ → Pool A
  steal p i = start p i (pop_front (queue_at p i)) (front (queue_at p i))

  -- The end of the call of the job at `k` of those that run, with the decrement behind it.
  abbrev finish_at : Pool A → ℕ → Option A → Pool A
  finish_at p k none = p
  finish_at p k (some x) = record p {
    running = erase p.running k;
    unfinished_jobs = p.unfinished_jobs - 1;
    finished = x ∷ p.finished;
  }

  unfoldable pub finish : Pool A → ℕ → Pool A
  finish p k = finish_at p k (get_elem? p.running k)

  -- The locked block of `clear` for the worker `i`.
  unfoldable pub clear_queue : Pool A → ℕ → Pool A
  clear_queue p i = record p {
    unfinished_jobs = p.unfinished_jobs - length (queue_at p i);
    queues = set p.queues i [];
    dropped = queue_at p i ++ p.dropped;
  }

  -- `poll()`, which is also the test of `wait` and `wait_until`.
  unfoldable pub poll : Pool A → Bool
  poll p = p.unfinished_jobs == 0

  -- The loop of `wait_until(t)`, by the states of the pool that it sees and whether the clock has reached
  -- `t` by then; it goes on after the list for `none`. `wait()` is this loop without a time.
  unfoldable pub wait_until : List (Pool A × Bool) → Option Bool
  unfolding poll
  wait_until [] = none
  wait_until ((p, late) ∷ ps) =
      let rest = wait_until ps in if poll p then some true else if late then some false else rest

  unfoldable pub step : Pool A → Event A → Pool A
  step p (enters x) = enter p x
  step p (loads k) = load_worker p k
  step p (stores k) = store_worker p k
  step p (pushes k) = push p k
  step p (takes i) = take_own p i
  step p (steals i) = steal p i
  step p (finishes k) = finish p k
  step p begins_clear = record p { clear_count = p.clear_count + 1 }
  step p ends_clear = record p { clear_count = p.clear_count - 1 }
  step p shuts_down = record p { shutting_down = true }
  step p (clears i) = clear_queue p i

  unfoldable pub run : Pool A → List (Event A) → Pool A
  run p [] = p
  run p (e ∷ es) = run (step p e) es
