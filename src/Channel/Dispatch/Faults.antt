-- ===== src/Channel/Dispatch/Faults.antt =====
-- Which faults `run` reports, and what becomes of their channels.
use rs_io.Base.{
  Bool-cases, List, Option, Option-cases, [], ap, append-nil, append_assoc, arith, false, inl, inr,
  is_nil, none, refl, some, subst, sym, ℕ, ◌++◌, ◌==◌, ◌∙◌, ◌∷◌, ◌≡◌,
}
use rs_io.Channel.Dispatch.{
  Task, Fault, Dispatch, Outcome, has_task, erase_task, drop_channel, set_fault, poll_tasks,
  put_fault, post, take_fault, round, run,
}

has_task-erase_task : (c : ℕ) (ts : List Task) → has_task c (erase_task c ts) ≡ false
has_task-erase_task c [] = refl
has_task-erase_task c (t ∷ ts) = ground (arith, has_task-erase_task c ts)

has_task-erase_other :
    (c d : ℕ) (ts : List Task) → (c == d) ≡ false → has_task d (erase_task c ts) ≡ has_task d ts
has_task-erase_other c d [] h = refl
has_task-erase_other c d (t ∷ ts) h = ground (arith, has_task-erase_other c d ts h)

pub post-faults : (d : Dispatch) (fs : List Fault) → (post d fs).faults ≡ d.faults ++ fs
unfolding post set_fault
post-faults d [] = sym (append-nil d.faults)
post-faults d (f ∷ fs) = post-faults (set_fault d f) fs ∙ append_assoc d.faults (f ∷ []) fs

pub post-tasks : (d : Dispatch) (fs : List Fault) → (post d fs).tasks ≡ d.tasks
unfolding post set_fault
post-tasks d [] = refl
post-tasks d (f ∷ fs) = post-tasks (set_fault d f) fs

put_fault-tasks : (d : Dispatch) (o : Option Fault) → (put_fault d o).tasks ≡ d.tasks
unfolding set_fault
put_fault-tasks d none = refl
put_fault-tasks d (some f) = refl

-- The channel of a reported fault has left the set, and no other has; without a fault, none has.
abbrev pub Left : Option Fault → Dispatch → Dispatch → Type 0
Left none d e = e.tasks ≡ d.tasks
Left (some f) d e =
    (has_task f.channel e.tasks ≡ false)
    × ((c : ℕ) → (f.channel == c) ≡ false → has_task c e.tasks ≡ has_task c d.tasks)

take_fault-Left : (d : Dispatch) (fs : List Fault) → Left (take_fault d fs).1 d (take_fault d fs).0
unfolding drop_channel
take_fault-Left d [] = refl
take_fault-Left d (f ∷ fs) =
    (has_task-erase_task f.channel d.tasks, λ c. has_task-erase_other f.channel c d.tasks)

Left-from : (o : Option Fault) (d d' e : Dispatch) → d'.tasks ≡ d.tasks → Left o d' e → Left o d e
Left-from none d d' e h l = l ∙ h
Left-from (some f) d d' e h l = (l.0, λ c k. l.1 c k ∙ ap (has_task c) h)

round-Left :
    (d : Dispatch) (posted : List Fault) (o : ℕ → Outcome)
    → Left (round d posted o).1 d (round d posted o).0
unfolding round
round-Left d posted o =
    let e = put_fault (post d posted) (poll_tasks o d.tasks).1 in
    Left-from (take_fault e e.faults).1 d e (take_fault e e.faults).0
      (put_fault-tasks (post d posted) (poll_tasks o d.tasks).1 ∙ post-tasks d posted)
      (take_fault-Left e e.faults)

-- For callbacks that do not change the set of channels themselves, by functions of the set or by destroying
-- channels that are in it: when `run` returns with a fault, its channel has left the set of channels and
-- all the others are still in it, after any number of rounds; without a fault, the set is the one before
-- the call.
pub run-Left :
    (d : Dispatch) (rs : List (List Fault × (ℕ → Outcome))) → Left (run d rs).1 d (run d rs).0
unfolding run
run-Left d [] = refl
run-Left d (r ∷ rs) = elim (Bool-cases (is_nil d.tasks)) [
  | inl none_there ↦ rw none_there refl
  | inr some_there ↦
      let e = (round d r.0 r.1).0 in
      let step = round-Left d r.0 r.1 in
      elim (Option-cases (round d r.0 r.1).1) [
        | inl quiet ↦
            let same : e.tasks ≡ d.tasks = subst (λ x. Left x d e) quiet step in
            rw (some_there, quiet, run)
              (Left-from (run e rs).1 d e (run e rs).0 same (run-Left e rs))
        | inr (f, found) ↦ rw (some_there, found, run) (subst (λ x. Left x d e) found step)
      ]
]

-- The round in which a synchronous channel gets a fault, by its queue of faults.
round-fault :
    (d : Dispatch) (posted : List Fault) (o : ℕ → Outcome) (f g : Fault) (fs : List Fault)
    → (d.faults ++ posted) ++ g ∷ [] ≡ f ∷ fs
    → (poll_tasks o d.tasks).1 ≡ some g
    → ((round d posted o).1 ≡ some f)
      × ((round d posted o).0.faults ≡ fs)
      × ((round d posted o).0.tasks ≡ erase_task f.channel d.tasks)
unfolding round drop_channel set_fault
round-fault d posted o f g fs q k =
    let queue : (post d posted).faults ++ g ∷ [] ≡ f ∷ fs =
      ap (λ x. x ++ g ∷ []) (post-faults d posted) ∙ q in
    rw (k, queue) (refl, refl, ap (erase_task f.channel) (post-tasks d posted))

-- If one fault is to be reported in a round, and the loop over the tasks finds the fault of a
-- synchronous channel in this round and, without the channel of the first fault, in the next, then the
-- first round reports the first fault, the second round that of the synchronous channel, and the same
-- fault is still queued, although the channel is no longer in the set.
pub fault_twice :
    (d : Dispatch) (posted : List Fault) (o : ℕ → Outcome) (f g : Fault)
    → d.faults ++ posted ≡ f ∷ []
    → (poll_tasks o d.tasks).1 ≡ some g
    → (poll_tasks o (erase_task f.channel d.tasks)).1 ≡ some g
    → let (e, first) = round d posted o in
      let (e', second) = round e [] o in
      (first ≡ some f)
      × (second ≡ some g)
      × (e'.faults ≡ g ∷ [])
      × (has_task g.channel e'.tasks ≡ false)
fault_twice d posted o f g h k l =
    let e = (round d posted o).0 in
    let (first, queue, tasks) = round-fault d posted o f g (g ∷ []) (ap (λ x. x ++ g ∷ []) h) k in
    let (second, queue', tasks') =
      round-fault e [] o g g (g ∷ []) (ap (λ x. (x ++ []) ++ g ∷ []) queue)
        (ap (λ x. (poll_tasks o x).1) tasks ∙ l) in
    (first, second, queue', ap (has_task g.channel) tasks' ∙ has_task-erase_task g.channel e.tasks)
