-- ===== src/Tests/Pool.antt =====
-- The theorems on the thread pool at concrete inputs.
use rs_io.Base.{List, [], arith, length, refl, ℕ, ◌+◌, ◌∷◌, ◌≡◌}
use rs_io.ThreadPool.{
  step, enter, load_worker, store_worker, push, take_own, finish, clear_queue, Event, init, run,
  poll, enters, loads, stores, pushes, takes, finishes, clears, begins_clear, ends_clear,
}
use rs_io.ThreadPool.Weights.{weight}
use rs_io.ThreadPool.Jobs.{run-IsAccounted, InRange, IsAccounted}
use rs_io.ThreadPool.Range.{less}
use rs_io.ThreadPool.Each.{done, each, jobs, onto, IsProgression, each-accepted}
use rs_io.Time.{ℤ, pos}
use rs_io.ThreadPool.Idle.{poll-done}

-- Two workers; two jobs are inserted by threads that both load the same next_worker_, one is taken and
-- finished, and the other is dropped.
abbrev busy : List (Event ℕ)
busy =
    enters 7
    ∷ enters 8
    ∷ loads 1
    ∷ loads 0
    ∷ stores 0
    ∷ stores 0
    ∷ pushes 0
    ∷ takes 0
    ∷ pushes 0
    ∷ finishes 0
    ∷ begins_clear
    ∷ clears 0
    ∷ ends_clear
    ∷ []

run-IsAccounted_example : InRange 2 (run (init 2) busy) × IsAccounted (run (init 2) busy)
run-IsAccounted_example = run-IsAccounted 2 busy (omega arith)

poll-done_example :
    (length (run (init 2) busy).running ≡ 0)
    × ((w : ℕ → ℕ)
        → weight w (run (init 2) busy).accepted
          ≡ weight w (run (init 2) busy).finished + weight w (run (init 2) busy).dropped)
unfolding poll run step init enter load_worker store_worker push take_own finish clear_queue
poll-done_example = poll-done 2 busy (omega arith) refl

-- 5, 8 and 11 are inserted.
each-accepted_example :
    (is : List ℤ) × (es : List (Event ℤ)) × (each 10 (λ i. i) (pos 5) (pos 3) (pos 12) ≡ done es)
    × IsProgression (pos 5) (pos 3) (pos 12) is
    × ((run (init 2) es).accepted ≡ onto (jobs (λ i. i) is) (init {A = ℤ} 2).accepted)
unfolding init less
each-accepted_example =
    each-accepted 10 2 (λ i. i) (pos 5) (pos 12) (init 2) (omega arith) refl refl (omega arith) refl
      (refl, refl, refl)
