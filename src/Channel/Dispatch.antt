-- ===== src/Channel/Dispatch.antt =====
-- The class Dispatch of channel.hpp and channel.cpp. Channels are named by numbers, which stand for
-- their addresses. What a channel and its handler do in a round is given from outside. The
-- handlers are taken not to change the set themselves: callbacks that call functions of the set, or destroy
-- channels that are in it, are not modelled.
pub mod Faults
pub mod Handlers
pub mod Stop
use rs_io.Base.{
  Bool, List, Option, [], false, if◌then◌else◌, is_nil, ltb, none, some, true, ℕ, ◌++◌, ◌+◌, ◌==◌,
  ◌||◌, ◌∷◌,
}

-- An entry of `tasks_`, with `is_synchronous()` of its channel.
pub record Task : Type 0 where
  pub channel : ℕ
  pub synchronous : Bool

-- `result` for a channel: it was closed, or there was an exception.
pub record Fault : Type 0 where
  pub channel : ℕ
  pub is_error : Bool

-- `tasks` is in the order of the map; `closed` are the channels that `set_fault` and `stop` closed.
pub record Dispatch : Type 0 where
  pub tasks : List Task
  pub faults : List Fault
  pub closed : List ℕ

-- What polling a synchronous channel and calling its handler comes to: `poll` answers no; it answers yes
-- and the channel is closed; the handler is called and returns; an exception leaves one of them.
pub data Outcome : Type 0 where
  not_ready is_closed handled throws : Outcome

unfoldable pub init : Dispatch
init = record { tasks = []; faults = []; closed = [] }

abbrev pub has_task : ℕ → List Task → Bool
has_task c [] = false
has_task c (t ∷ ts) = t.channel == c || has_task c ts

-- The map is kept in the order of its keys.
unfoldable pub insert_task : Task → List Task → List Task
insert_task t [] = t ∷ []
insert_task t (u ∷ ts) =
    let rest = insert_task t ts in if ltb t.channel u.channel then t ∷ u ∷ ts else u ∷ rest

abbrev pub erase_task : ℕ → List Task → List Task
erase_task c [] = []
erase_task c (t ∷ ts) = let rest = erase_task c ts in if t.channel == c then rest else t ∷ rest

-- `add_channel`; `none` is std::invalid_argument. A channel that is not synchronous gets a thread, which
-- calls `set_fault` when it ends.
unfoldable pub add_channel : Dispatch → Task → Option Dispatch
unfolding insert_task
add_channel d t =
    if has_task t.channel d.tasks then none else some (record d { tasks = insert_task t d.tasks })

unfoldable pub drop_channel : Dispatch → ℕ → Dispatch
drop_channel d c = record d { tasks = erase_task c d.tasks }

unfoldable pub set_fault : Dispatch → Fault → Dispatch
set_fault d f = record d { faults = d.faults ++ f ∷ []; closed = f.channel ∷ d.closed }

-- The loop over the tasks in `run`, for handlers that leave the set as it is: the number of calls, and the
-- fault at which it breaks.
unfoldable pub poll_tasks : (ℕ → Outcome) → List Task → ℕ × Option Fault
poll_tasks o [] = (0, none)
poll_tasks o (t ∷ ts) =
    let (calls, fault) = poll_tasks o ts in
    if t.synchronous
    then elim (o t.channel) [
      | not_ready ↦ (calls, fault)
      | is_closed ↦ (0, some (record { channel = t.channel; is_error = false }))
      | handled ↦ (calls + 1, fault)
      | throws ↦ (0, some (record { channel = t.channel; is_error = true }))
    ]
    else (calls, fault)

abbrev pub put_fault : Dispatch → Option Fault → Dispatch
put_fault d none = d
put_fault d (some f) = set_fault d f

-- The calls of `set_fault` by threads.
unfoldable pub post : Dispatch → List Fault → Dispatch
post d [] = d
post d (f ∷ fs) = post (set_fault d f) fs

-- The block that takes the oldest fault and drops its channel.
abbrev pub take_fault : Dispatch → List Fault → Dispatch × Option Fault
take_fault d [] = (d, none)
take_fault d (f ∷ fs) = (drop_channel (record d { faults = fs }) f.channel, some f)

-- One round of `run`. `posted` are the faults that the threads of the other channels have set since.
unfoldable pub round : Dispatch → List Fault → (ℕ → Outcome) → Dispatch × Option Fault
unfolding poll_tasks set_fault drop_channel
round d posted o =
    let e = put_fault (post d posted) (poll_tasks o d.tasks).1 in take_fault e e.faults

-- `run()`, by the rounds that it makes; the last component is false while it has not returned.
unfoldable pub run : Dispatch → List (List Fault × (ℕ → Outcome)) → Dispatch × Option Fault × Bool
run d [] = (d, none, is_nil d.tasks)
run d (r ∷ rs) =
    let (e, f) = round d r.0 r.1 in
    let rest = run e rs in
    if is_nil d.tasks then (d, none, true) else elim f [ none ↦ rest | some g ↦ (e, some g, true) ]
