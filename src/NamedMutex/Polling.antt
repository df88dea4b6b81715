-- ===== src/NamedMutex/Polling.antt =====
-- NamedMutex::try_lock_until of named-mutex.cpp in its form for macOS, which polls. Times are counted in
-- nanoseconds, and the waits in milliseconds.
use rs_io.Base.{
  Bool, Bool-cases, List, Option, [], arith, false, if◌then◌else◌, inl, inr, leb, min, none, refl,
  some, true, ℕ, ◌*◌, ◌+◌, ◌-◌, ◌/◌, ◌<◌, ◌∷◌, ◌≡◌, ◌≤◌,
}

-- The constant `max_delta`, and the nanoseconds in a millisecond.
abbrev pub max_delta : ℕ
max_delta = 100

abbrev pub mega : ℕ
mega = 1_000_000

-- The loop, by the answers of `try_lock` and the readings of the clock in each round: the times at which it
-- sleeps and for how long, and what it returns; `none` means that it goes on.
unfoldable pub poll : ℕ → ℕ → List (Bool × ℕ) → List (ℕ × ℕ) × Option Bool
poll abs_time delta [] = ([], none)
poll abs_time delta ((locked, now) ∷ rounds) =
    let next = min (min (2 * delta) max_delta) ((abs_time - now) / mega) in
    let (sleeps, r) = poll abs_time next rounds in
    if locked
    then ([], some true)
    else if leb abs_time now
    then ([], some false)
    else ((now, delta) ∷ sleeps, r)

unfoldable pub try_lock_until : ℕ → List (Bool × ℕ) → List (ℕ × ℕ) × Option Bool
try_lock_until abs_time rounds = poll abs_time 1 rounds

-- The answer to look for: the lock is taken before or in the round in which the time is over.
abbrev pub answer : ℕ → List (Bool × ℕ) → Option Bool
answer abs_time [] = none
answer abs_time ((true, now) ∷ rounds) = some true
answer abs_time ((false, now) ∷ rounds) =
    if leb abs_time now then some false else answer abs_time rounds

-- Every sleep begins before the time is over and ends at most a tenth of a second later.
abbrev pub InTime : ℕ → List (ℕ × ℕ) → Type 0
InTime abs_time [] = Unit {0}
InTime abs_time ((now, delta) ∷ sleeps) =
    (now < abs_time) × (now + delta * mega < abs_time + max_delta * mega) × InTime abs_time sleeps

poll-InTime :
    (abs_time delta : ℕ) (rounds : List (Bool × ℕ))
    → delta ≤ max_delta
    → InTime abs_time (poll abs_time delta rounds).0
      × ((poll abs_time delta rounds).1 ≡ answer abs_time rounds)
unfolding poll
poll-InTime abs_time delta [] h = (tt, refl)
poll-InTime abs_time delta ((true, now) ∷ rounds) h = (tt, refl)
poll-InTime abs_time delta ((false, now) ∷ rounds) h = elim (Bool-cases (leb abs_time now)) [
  | inl over ↦ rw over (tt, refl)
  | inr left ↦
      let next = min (min (2 * delta) max_delta) ((abs_time - now) / mega) in
      let (t, r) = poll-InTime abs_time next rounds (omega arith) in
      rw (left, poll) ((ground arith, ground arith, t), r)
]

-- Polling answers as soon as the lock is taken or a round begins after the time is over, whatever the
-- clock shows, and every sleep begins before that time and ends at most a tenth of a second after it.
pub try_lock_until-InTime :
    (abs_time : ℕ) (rounds : List (Bool × ℕ))
    → InTime abs_time (try_lock_until abs_time rounds).0
      × ((try_lock_until abs_time rounds).1 ≡ answer abs_time rounds)
unfolding try_lock_until
try_lock_until-InTime abs_time rounds = poll-InTime abs_time 1 rounds (omega arith)
