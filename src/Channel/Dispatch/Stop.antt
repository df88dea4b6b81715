-- ===== src/Channel/Dispatch/Stop.antt =====
-- Dispatch::stop of channel.cpp, and the queue of faults while it runs.
pub mod Ends
use rs_io.Base.{
  Bool, List, [], arith, false, if◌then◌else◌, is_nil, length, refl, suc, true, ℕ, ◌&&◌, ◌++◌, ◌+◌,
  ◌==◌, ◌||◌, ◌∷◌, ◌≡◌, ◌≤◌,
}
use rs_io.Channel.Dispatch.Faults.{post-faults, post-tasks}
use rs_io.Channel.Dispatch.{
  Task, Fault, Dispatch, Outcome, is_closed, has_task, erase_task, run, poll_tasks, round, post,
  set_fault, drop_channel, take_fault, put_fault,
}

abbrev pub channels : List Task → List ℕ
channels [] = []
channels (t ∷ ts) = t.channel ∷ channels ts

-- The loop of `stop`, by the rounds of each call of `run`; the last component is false while it has not
-- ended.
unfoldable pub stop_loop : Dispatch → List (List (List Fault × (ℕ → Outcome))) → Dispatch × Bool
stop_loop d [] = (d, is_nil d.tasks)
stop_loop d (r ∷ rs) =
    let rest = stop_loop (run d r).0 rs in if is_nil d.tasks then (d, true) else rest

-- `stop()`: every channel is closed, and `run` is called until there are no tasks.
unfoldable pub stop : Dispatch → List (List (List Fault × (ℕ → Outcome))) → Dispatch × Bool
stop d runs = stop_loop (record d { closed = channels d.tasks ++ d.closed }) runs

-- A call of `run` in which every channel that is polled is found to be closed.
abbrev pub closed_run : List (List Fault × (ℕ → Outcome))
closed_run = ([], λ c. is_closed) ∷ []

abbrev pub has_fault : ℕ → List Fault → Bool
has_fault c [] = false
has_fault c (f ∷ fs) = f.channel == c || has_fault c fs

-- Every channel that has a thread has a fault in the queue.
abbrev pub covered : List Fault → List Task → Bool
covered fs [] = true
covered fs (t ∷ ts) = (t.synchronous || has_fault t.channel fs) && covered fs ts

-- `k` for each task.
abbrev pub budget : ℕ → List Task → ℕ
budget k [] = 0
budget k (t ∷ ts) = k + budget k ts

-- The number of faults before the first one whose channel is still in the set.
abbrev stale : List Fault → List Task → ℕ
stale [] ts = 0
stale (f ∷ fs) ts = if has_task f.channel ts then 0 else suc (stale fs ts)

stale-length : (fs : List Fault) (ts : List Task) → stale fs ts ≤ length fs
stale-length [] ts = omega arith
stale-length (f ∷ fs) ts = ground (arith, stale-length fs ts)

stale-append :
    (fs : List Fault) (g : Fault) (ts : List Task)
    → has_task g.channel ts ≡ true
    → stale (fs ++ g ∷ []) ts ≡ stale fs ts
stale-append [] g ts h = rw h refl
stale-append (f ∷ fs) g ts h = ground (arith, stale-append fs g ts h)

erase_other : (c : ℕ) (ts : List Task) → has_task c ts ≡ false → erase_task c ts ≡ ts
erase_other c [] h = refl
erase_other c (t ∷ ts) h = ground (arith, erase_other c ts)

budget-erase_any : (k c : ℕ) (ts : List Task) → budget k (erase_task c ts) ≤ budget k ts
budget-erase_any k c [] = omega arith
budget-erase_any k c (t ∷ ts) = ground (arith, budget-erase_any k c ts)

budget-erase_task :
    (k c : ℕ) (ts : List Task) → has_task c ts ≡ true → k + budget k (erase_task c ts) ≤ budget k ts
budget-erase_task k c [] h = absurd cc
budget-erase_task k c (t ∷ ts) h = ground (arith, budget-erase_task k c ts, budget-erase_any k c ts)

covered-erase_task :
    (f : Fault) (fs : List Fault) (ts : List Task)
    → covered (f ∷ fs) ts ≡ true
    → covered fs (erase_task f.channel ts) ≡ true
covered-erase_task f fs [] h = refl
covered-erase_task f fs (t ∷ ts) h = ground (arith, covered-erase_task f fs ts)

has_fault-append :
    (c : ℕ) (fs gs : List Fault) → has_fault c fs ≡ true → has_fault c (fs ++ gs) ≡ true
has_fault-append c [] gs h = absurd cc
has_fault-append c (f ∷ fs) gs h = ground (arith, has_fault-append c fs gs)

covered-append :
    (fs gs : List Fault) (ts : List Task) → covered fs ts ≡ true → covered (fs ++ gs) ts ≡ true
covered-append fs gs [] h = refl
covered-append fs gs (t ∷ ts) h =
    ground (arith, has_fault-append t.channel fs gs, covered-append fs gs ts)
