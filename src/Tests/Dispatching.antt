-- ===== src/Tests/Dispatching.antt =====
-- The theorems on dispatch sets that stop and on channels that are read from.
use rs_io.Base.{List, [], append-nil, arith, inl, refl, replicate, true, ◌++◌, ◌∷◌, ◌≡◌}
use rs_io.Text.{Text}
use rs_io.Tests.Faults.{pair, fault_2, all_closed}
use rs_io.Channel.Dispatch.Stop.{stop, closed_run}
use rs_io.Channel.Dispatch.Stop.Ends.{Ended, stop-Ended}
use rs_io.Channel.Dispatch.Handlers.{run_events-delivers, run_events, Event, written, handles}
use rs_io.Channel.Buffer.{Buffer, Call, closes}
use rs_io.Channel.Buffer
use rs_io.Channel.Dispatch.Handlers
use rs_io.Channel.Buffer.Stream.{pending, IsValid}
use rs_io.Channel.Buffer.Collect.{read_all-collected, read_all, collected}

stop-Ended_example : Ended (stop pair (((fault_2 ∷ [], all_closed) ∷ []) ∷ replicate 5 closed_run))
stop-Ended_example = stop-Ended pair (fault_2 ∷ []) 5 refl (omega arith)

abbrev empty : Buffer
empty = record { buf = []; ofs = 0; open_ = true }

empty-IsValid : IsValid empty
empty-IsValid = record { within = omega arith; compacted = inl refl }

-- A callback that takes the whole text.
abbrev takes_all : Text → Text → Text × Text
takes_all s x = ([], x ++ s)

abbrev events : List Event
events = Handlers.writes (b'a' ∷ b'b' ∷ []) ∷ handles ∷ Handlers.writes (b'c' ∷ []) ∷ handles ∷ []

run_events-delivers_example :
    let (c', s', x') = run_events takes_all 1 (empty, [], []) events in
    (x' ++ (s' ++ pending c') ≡ b'a' ∷ b'b' ∷ b'c' ∷ []) × (s' ≡ [])
run_events-delivers_example =
    run_events-delivers takes_all 1 (λ x. x) (λ s x. append-nil (x ++ s)) (λ s. s ≡ [])
      (λ s x. refl) empty [] [] events empty-IsValid refl refl

-- "abc" in two rounds, of which one byte is lost.
abbrev rounds : List (List Call × List Call)
rounds = (Buffer.writes (b'a' ∷ b'b' ∷ []) ∷ [], []) ∷ ([], Buffer.writes (b'c' ∷ []) ∷ []) ∷ []

read_all-collected_example :
    let (c', out, ended) = read_all 1 empty (rounds ++ (closes ∷ [], []) ∷ []) in
    let (text, lost) = collected 1 [] rounds in
    (ended ≡ true) × (out ≡ text) × (text ++ lost ≡ b'a' ∷ b'b' ∷ b'c' ∷ [])
read_all-collected_example =
    read_all-collected 1 empty rounds [] [] empty-IsValid refl (tt, tt, (tt, tt, tt)) tt
