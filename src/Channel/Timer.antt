-- ===== src/Channel/Timer.antt =====
-- TimerChannel of channel.hpp and channel.cpp. Times and durations are counts of the clock's ticks;
-- a duration argument of 0 stands for any that is not positive.
pub mod Ticks
use rs_io.Base.{Bool, false, if◌then◌else◌, leb, ltb, min, not, true, ℕ, ◌*◌, ◌+◌, ◌-◌, ◌/◌, ◌==◌}

pub record Timer : Type 0 where
  pub next_tick : ℕ
  pub count : ℕ
  pub delta : ℕ
  pub open_ : Bool

-- The constructor at the time `now`; `max(t, 0)` is `t` here.
unfoldable pub init : ℕ → ℕ → ℕ → Timer
init now t count = record { next_tick = now + t; count = count; delta = t; open_ = true }

unfoldable pub close : Timer → Timer
close c = record c { open_ = false }

unfoldable pub step : Timer → ℕ → Timer
step c n =
    let k = min n c.count in
    record c {
      count = c.count - k;
      next_tick = c.next_tick + k * c.delta;
      open_ = if c.count - k == 0 then false else c.open_;
    }

-- `flush()` at the time `now`. With an interval of 0 the source divides by zero.
unfoldable pub flush : Timer → ℕ → Timer
flush c now =
    if not c.open_
    then c
    else if ltb now c.next_tick
    then c
    else step c ((now - c.next_tick) / c.delta + 1)

-- `do_wait_for(t)` at the time `now`: a wait on the condition variable ends when the channel is
-- closed or the time is over, and leaves the state `after`, which other threads may have changed.
unfoldable pub do_wait_for : Timer → ℕ → ℕ → Timer → Timer × Bool
do_wait_for c now t after =
    if not c.open_
    then (c, true)
    else if leb c.next_tick now
    then (step c 1, true)
    else if t == 0
    then (c, false)
    else if ltb t (c.next_tick - now)
    then (after, not after.open_)
    else ((if after.open_ then step after 1 else after), true)
