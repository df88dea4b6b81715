-- ===== src/Channel/Dispatch/Stop/Ends.antt =====
-- Dispatch::stop comes to an end.
use rs_io.Base.{
  Bool, Bool-cases, List, Option-cases, [], ap, arith, false, inl, inr, is_nil, length,
  length-append, none, refl, replicate, some, suc, sym, true, zero, ℕ, ◌&&◌, ◌++◌, ◌+◌, ◌<◌, ◌∙◌,
  ◌∷◌, ◌≡◌, ◌≤◌, ◌⊎◌,
}
use rs_io.Channel.Dispatch.Faults.{post-faults, post-tasks}
use rs_io.Channel.Dispatch.{
  Task, Fault, Dispatch, Outcome, is_closed, has_task, erase_task, run, poll_tasks, round, post,
  set_fault, drop_channel, take_fault, put_fault,
}
use rs_io.Channel.Dispatch.Stop.{
  channels, stop_loop, stop, closed_run, has_fault, covered, budget, stale, stale-length,
  stale-append, erase_other, budget-erase_task, covered-erase_task, covered-append,
}

-- Taking the first fault of the queue is progress.
take-progress :
    (k : ℕ) (f : Fault) (fs : List Fault) (ts : List Task)
    → suc (length fs) ≤ k
    → suc (budget k (erase_task f.channel ts) + stale fs (erase_task f.channel ts))
      ≤ budget k ts + stale (f ∷ fs) ts
take-progress k f fs ts h = elim (Bool-cases (has_task f.channel ts)) [
  | inl there ↦ rw there (
      omega
        (arith, budget-erase_task k f.channel ts there, stale-length fs (erase_task f.channel ts)))
  | inr gone ↦ rw (erase_other f.channel ts gone, gone) (omega arith)
]

-- What polling the closed channels comes to.
poll_closed :
    (ts : List Task)
    → ((g : Fault) × ((poll_tasks (λ c. is_closed) ts).1 ≡ some g) × (has_task g.channel ts ≡ true))
      ⊎ (((poll_tasks (λ c. is_closed) ts).1 ≡ none)
          × ((fs : List Fault) → covered fs ts ≡ true → is_nil ts ≡ false → is_nil fs ≡ false))
unfolding poll_tasks
poll_closed [] = inr (refl, λ fs h k. absurd cc)
poll_closed (t ∷ ts) = elim (Bool-cases t.synchronous) [
  | inl here ↦ rw here (inl (record { channel = t.channel; is_error = false }, refl, ground arith))
  | inr threaded ↦ elim (poll_closed ts) [
    | inl (g, e, h) ↦ rw (threaded, poll_tasks) (inl (g, e, ground arith))
    | inr (e, h) ↦ rw (threaded, poll_tasks) (inr (e, λ fs k l. covered_some t.channel fs ts k))
  ]
]
  where
    covered_some :
        (c : ℕ) (fs : List Fault) (us : List Task)
        → has_fault c fs && covered fs us ≡ true
        → is_nil fs ≡ false
    covered_some c [] us h = absurd cc
    covered_some c (f ∷ fs) us h = refl

-- What a call of `run` leaves: fewer runs are needed, and the queue is not longer.
record Progress (k : ℕ) (d e : Dispatch) : Type 0 where
  covers : covered e.faults e.tasks ≡ true
  shorter : length e.faults ≤ length d.faults
  less : suc (budget k e.tasks + stale e.faults e.tasks) ≤ budget k d.tasks + stale d.faults d.tasks

take_fault-Progress :
    (k : ℕ) (d : Dispatch) (q : List Fault) (closed : List ℕ)
    → length d.faults < k
    → is_nil q ≡ false
    → covered q d.tasks ≡ true
    → length q ≤ suc (length d.faults)
    → stale q d.tasks ≡ stale d.faults d.tasks
    → Progress k d (take_fault (record d { faults = q; closed = closed }) q).0
unfolding drop_channel
take_fault-Progress k d [] closed h some_fault c l e = absurd cc
take_fault-Progress k d (f ∷ q) closed h some_fault c l e = record {
  covers = covered-erase_task f q d.tasks c;
  shorter = omega arith;
  less = omega (arith, take-progress k f q d.tasks (omega arith));
}

-- One round in which every channel is found closed.
round_closed-Progress :
    (k : ℕ) (d : Dispatch)
    → length d.faults < k
    → is_nil d.tasks ≡ false
    → covered d.faults d.tasks ≡ true
    → Progress k d (round d [] (λ c. is_closed)).0
unfolding round post set_fault
round_closed-Progress k d h n c = elim (poll_closed d.tasks) [
  | inl (g, e, there) ↦ rw e (
      take_fault-Progress k d (d.faults ++ g ∷ []) (g.channel ∷ d.closed) h (is_nil-snoc d.faults g)
        (covered-append d.faults (g ∷ []) d.tasks c)
        (omega (arith, length-append d.faults (g ∷ []))) (stale-append d.faults g d.tasks there))
  | inr (e, some_fault) ↦
      rw e
        (take_fault-Progress k d d.faults d.closed h (some_fault d.faults c n) c (omega arith) refl)
]
  where
    is_nil-snoc : (fs : List Fault) (g : Fault) → is_nil (fs ++ g ∷ []) ≡ false
    is_nil-snoc [] g = refl
    is_nil-snoc (f ∷ fs) g = refl

run_closed :
    (d : Dispatch) (fs : List Fault)
    → is_nil d.tasks ≡ false
    → (run d ((fs, λ c. is_closed) ∷ [])).0 ≡ (round d fs (λ c. is_closed)).0
unfolding run
run_closed d fs n = elim (Option-cases (round d fs (λ c. is_closed)).1) [
  | inl quiet ↦ rw (n, quiet, run) refl
  | inr (f, found) ↦ rw (n, found, run) refl
]

is_nil_nil : (ts : List Task) → is_nil ts ≡ true → ts ≡ []
is_nil_nil [] h = refl
is_nil_nil (t ∷ ts) h = absurd cc

budget_nil : (k : ℕ) (ts : List Task) → 0 < k → budget k ts ≡ 0 → ts ≡ []
budget_nil k [] h b = refl
budget_nil k (t ∷ ts) h b = absurd (omega arith)

abbrev pub Ended : Dispatch × Bool → Type 0
Ended (e, ended) = (ended ≡ true) × (e.tasks ≡ [])

stop_loop-Ended :
    (k n : ℕ) (d : Dispatch)
    → length d.faults < k
    → covered d.faults d.tasks ≡ true
    → budget k d.tasks + stale d.faults d.tasks ≤ n
    → Ended (stop_loop d (replicate n closed_run))
unfolding stop_loop
stop_loop-Ended k zero d h c b =
    let e = budget_nil k d.tasks (omega arith) (omega arith) in (ap is_nil e, e)
stop_loop-Ended k (suc n) d h c b = elim (Bool-cases (is_nil d.tasks)) [
  | inl ended ↦ rw ended (refl, is_nil_nil d.tasks ended)
  | inr more ↦
      let p = round_closed-Progress k d h more c in
      rw (more, run_closed d [] more)
        (stop_loop-Ended k n (round d [] (λ c. is_closed)).0 (omega (arith, p.shorter)) p.covers
          (omega (arith, p.less)))
]

round-post :
    (d : Dispatch) (fs : List Fault) (o : ℕ → Outcome)
    → (round d fs o).0 ≡ (round (post d fs) [] o).0
unfolding round post
round-post d fs o =
    ap
      (λ (ts : List Task).
        let e = put_fault (post d fs) (poll_tasks o ts).1 in (take_fault e e.faults).0)
      (sym (post-tasks d fs))

-- `stop` ends, with no task left, if its first run finds the faults `fs` that the threads have posted,
-- every channel that is polled is closed, and every channel with a thread has a fault in the queue:
-- after the first, it needs at most one run for each fault, and one run and one more for each fault for
-- every task.
pub stop-Ended :
    (d : Dispatch) (fs : List Fault) (n : ℕ)
    → covered (d.faults ++ fs) d.tasks ≡ true
    → budget (suc (length (d.faults ++ fs))) d.tasks + length (d.faults ++ fs) ≤ n
    → Ended (stop d (((fs, λ c. is_closed) ∷ []) ∷ replicate n closed_run))
unfolding stop stop_loop
stop-Ended d fs n c b =
    let d' = record d { closed = channels d.tasks ++ d.closed } in
    let k = suc (length (d.faults ++ fs)) in
    let queue = post-faults d' fs in
    let tasks = post-tasks d' fs in
    let e = post d' fs in
    elim (Bool-cases (is_nil d.tasks)) [
      | inl ended ↦ rw ended (refl, is_nil_nil d.tasks ended)
      | inr more ↦
          let p =
            round_closed-Progress k e (omega (arith, ap length queue)) (ap is_nil tasks ∙ more)
              (rw (queue, tasks) c) in
          rw (more, run_closed d' fs more, round-post d' fs (λ c. is_closed))
            (stop_loop-Ended k n (round e [] (λ c. is_closed)).0
              (omega (arith, p.shorter, ap length queue)) p.covers
              (omega (
                arith,
                p.less,
                ap (budget k) tasks,
                stale-length e.faults e.tasks,
                ap length queue,
              )))
    ]
