-- ===== src/Tests/Faults.antt =====
-- The theorems on the faults of a dispatch set at a concrete set.
use rs_io.Base.{[], false, true, ℕ, ◌∷◌}
use rs_io.Channel.Dispatch.{Dispatch, Fault, Outcome, is_closed, run}
use rs_io.Channel.Dispatch.Faults.{Left, run-Left}

-- A synchronous channel 1 and another channel 2.
abbrev pub pair : Dispatch
pair = record {
  tasks =
      record { channel = 1; synchronous = true } ∷ record { channel = 2; synchronous = false } ∷ [];
  faults = [];
  closed = [];
}

abbrev pub fault_2 : Fault
fault_2 = record { channel = 2; is_error = false }

abbrev pub all_closed : ℕ → Outcome
all_closed c = is_closed

run-Left_example :
    Left
      (run pair ((fault_2 ∷ [], all_closed) ∷ [])).1
      pair
      (run pair ((fault_2 ∷ [], all_closed) ∷ [])).0
run-Left_example = run-Left pair ((fault_2 ∷ [], all_closed) ∷ [])
