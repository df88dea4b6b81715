-- ===== src/Tests/Channels.antt =====
-- The theorems on channels at concrete states and calls.
use rs_io.Base.{List, [], arith, inr, refl, true, ℕ, ◌++◌, ◌+◌, ◌<◌, ◌∷◌, ◌≡◌, ◌≤◌}
use rs_io.Channel.Buffer
use rs_io.Channel.Queue
use rs_io.Channel.Timer
use rs_io.Channel.Buffer.Stream.{IsValid, pending, run-stream}
use rs_io.Channel.Queue.Fifo.{run-fifo}
use rs_io.Channel.Timer.Ticks.{flush-next}

abbrev some_bytes : Buffer.Buffer
some_bytes = record { buf = 1 ∷ 2 ∷ 3 ∷ []; ofs = 1; open_ = true }

some_bytes-IsValid : IsValid some_bytes
some_bytes-IsValid = record { within = omega arith; compacted = inr (omega arith) }

abbrev flow : List Buffer.Call
flow = Buffer.reads 1 ∷ Buffer.writes (4 ∷ 5 ∷ []) ∷ Buffer.reads 2 ∷ []

run-stream_example :
    (Buffer.run some_bytes [] flow).1 ++ pending (Buffer.run some_bytes [] flow).0
    ≡ 2 ∷ 3 ∷ 4 ∷ 5 ∷ []
run-stream_example = run-stream some_bytes flow [] some_bytes-IsValid refl tt

abbrev one_message : Queue.Queue ℕ
one_message = record { open_ = true; queue = 7 ∷ [] }

abbrev traffic : List (Queue.Call ℕ)
traffic = Queue.writes 8 ∷ Queue.reads ∷ Queue.closes ∷ Queue.writes 9 ∷ []

run-fifo_example :
    (Queue.run one_message [] traffic).1 ++ (Queue.run one_message [] traffic).0.queue ≡ 7 ∷ 8 ∷ []
run-fifo_example = run-fifo one_message traffic [] tt

abbrev clock_10 : Timer.Timer
clock_10 = record { next_tick = 100; count = 5; delta = 10; open_ = true }

flush-next_example :
    (125 < (Timer.flush clock_10 125).next_tick) × ((Timer.flush clock_10 125).next_tick ≤ 125 + 10)
unfolding Timer.flush Timer.step
flush-next_example = flush-next clock_10 125 (omega arith) refl (omega arith) refl
