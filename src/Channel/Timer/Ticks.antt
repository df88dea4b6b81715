-- ===== src/Channel/Timer/Ticks.antt =====
-- The number and the times of the ticks.
use native.Mathlib.Nat.{mod-lt, div-add-mod'}
use rs_io.Base.{
  Bool-cases, ap, arith, false, inl, inr, le→ltb, min, not, true, ℕ, ◌*◌, ◌+◌, ◌-◌, ◌/◌, ◌<◌, ◌==◌,
  ◌≡◌, ◌≤◌, ◌⊎◌,
}
use rs_io.Channel.Timer.{Timer, close, step, flush, do_wait_for}

-- An open channel has ticks to deliver.
abbrev pub IsLive : Timer → Type 0
IsLive c = c.open_ ≡ true → 0 < c.count

-- The ticks that are left reach from the next one to the last one.
abbrev pub last_tick : Timer → ℕ
last_tick c = c.next_tick + c.count * c.delta

step-last_tick : (c : Timer) (n : ℕ) → last_tick (step c n) ≡ last_tick c
unfolding step
step-last_tick c n = grind arith

step-IsLive : (c : Timer) (n : ℕ) → IsLive (step c n)
unfolding step
step-IsLive c n = ground arith

step-next :
    (c : Timer) (n : ℕ) → (step c n).open_ ≡ true → (step c n).next_tick ≡ c.next_tick + n * c.delta
unfolding step
step-next c n o = elim (Bool-cases (c.count - min n c.count == 0)) [
  | inl out ↦ absurd (ground arith)
  | inr more ↦ let e : min n c.count ≡ n = ground arith in ap (λ k. c.next_tick + k * c.delta) e
]

div_bounds : (x d : ℕ) → 0 < d → (x / d * d ≤ x) × (x < x / d * d + d)
div_bounds x d h = omega (arith, mod-lt x h, div-add-mod' x d)

-- A flush of an open channel with a positive interval whose next tick is due leaves it closed, or
-- with a next tick that is later than now, by one interval at most.
pub flush-next :
    (c : Timer) (now : ℕ)
    → 0 < c.delta
    → c.open_ ≡ true
    → c.next_tick ≤ now
    → (flush c now).open_ ≡ true
    → (now < (flush c now).next_tick) × ((flush c now).next_tick ≤ now + c.delta)
unfolding flush
flush-next c now pos open_now late =
    rw (ap not open_now, le→ltb now c.next_tick late)
      λ o.
        let q = (now - c.next_tick) / c.delta in
        omega (arith, step-next c (q + 1) o, div_bounds (now - c.next_tick) c.delta pos)

-- Every call keeps to the schedule: the next tick and the ticks that are left after it end at the
-- same time as before. For a call that waits, the other threads are taken to have kept to it.
pub schedule :
    (c : Timer) (now t : ℕ) (after : Timer)
    → last_tick after ≡ last_tick c
    → (last_tick (flush c now) ≡ last_tick c)
      × (last_tick (do_wait_for c now t after).0 ≡ last_tick c)
      × (last_tick (close c) ≡ last_tick c)
unfolding flush do_wait_for close
schedule c now t after h = ground (
  arith,
  step-last_tick c 1,
  step-last_tick after 1,
  step-last_tick c ((now - c.next_tick) / c.delta + 1),
)

-- A wait that succeeds takes one tick from an open channel, or finds it closed; one that fails takes
-- none and finds the next tick later than now.
wait_takes_one :
    (c : Timer) (now t : ℕ)
    → IsLive c
    → let (c', done) = do_wait_for c now t c in
      ((done ≡ true) → (c.open_ ≡ false) ⊎ (c'.count + 1 ≡ c.count))
      × ((done ≡ false) → (c' ≡ c) × (now < c.next_tick) × (c.open_ ≡ true))
unfolding do_wait_for step
wait_takes_one c now t live = ground arith
