-- ===== src/Tests/Processes.antt =====
-- The theorems on mutexes, processes, handles and signals at concrete inputs.
use rs_io.Signals.Discard.{destroy, destroy-drop}
use rs_io.Process.{read_lines}
use rs_io.Time.{negsuc, pos, ℤ}
use rs_io.Resource.Once.{count, acquired, run-deleted}
use rs_io.Text.{Text}
use rs_io.Base.{
  Bool, List, Option, [], arith, false, length, none, refl, some, subst, suc, true, zero, ℕ, ◌++◌,
  ◌+◌, ◌∷◌, ◌≡◌, ◌≤◌,
}
use rs_io.NamedMutex.{Semaphore}
use rs_io.NamedMutex.Exclusive.{
  Call, IsSemaphore, by_lock, by_try, by_unlock, by_until, run, run-IsExclusive, IsTaken,
}
use rs_io.Signals.Order.{call_wait, call_read, start, IsInOrder, run-IsInOrder}
use rs_io.Resource.{call_acquire, call_reset, call_release, call_move_other, empty_heap}
use rs_io.Process.Lines.{output, texts, read_lines-output}

-- A semaphore as its value. A wait on 0 blocks, and one with a time ends with ETIMEDOUT.
abbrev wait_value : ℕ → Option (ℕ × ℤ × ℕ)
wait_value zero = none
wait_value (suc n) = some (n, pos 0, 0)

abbrev timed_value : ℕ → Option (ℕ × ℤ × ℕ)
timed_value zero = some (0, negsuc 0, 110)
timed_value (suc n) = some (n, pos 0, 0)

abbrev counter : Semaphore ℕ
counter = record {
  sem_wait = wait_value;
  sem_timedwait = λ n d. timed_value n;
  sem_post = λ n. suc n;
}

taken : {r q : ℕ × ℤ × ℕ} → some r ≡ some q → r ≡ q
taken h = cc

wait_value-IsTaken : (s t : ℕ) (rc : ℤ) (e : ℕ) → wait_value s ≡ some (t, rc, e) → IsTaken s t rc
wait_value-IsTaken zero t rc e h = absurd cc
wait_value-IsTaken (suc n) t rc e h =
    subst (λ (r : ℕ × ℤ × ℕ). IsTaken (suc n) r.0 r.1) (taken h) refl

timed_value-IsTaken : (s t : ℕ) (rc : ℤ) (e : ℕ) → timed_value s ≡ some (t, rc, e) → IsTaken s t rc
timed_value-IsTaken zero t rc e h = subst (λ (r : ℕ × ℤ × ℕ). IsTaken 0 r.0 r.1) (taken h) refl
timed_value-IsTaken (suc n) t rc e h =
    subst (λ (r : ℕ × ℤ × ℕ). IsTaken (suc n) r.0 r.1) (taken h) refl

counter-IsSemaphore : IsSemaphore counter (λ n. n)
counter-IsSemaphore = record {
  wait-IsTaken = wait_value-IsTaken;
  timed-IsTaken = λ d. timed_value-IsTaken;
  post-value = λ s. refl;
}

abbrev calls : List Call
calls = by_lock 1 ∷ by_until (pos 5) 2 ∷ by_unlock 1 ∷ by_try 2 ∷ []

run-IsExclusive_example : length (run counter (λ n. n) counter-IsSemaphore calls (1, [])).1 ≤ 1
run-IsExclusive_example = run-IsExclusive counter (λ n. n) counter-IsSemaphore calls 1 refl

-- "ab" with CR LF, and "c" with LF; "d" follows without an end
abbrev two_lines : List (Text × Bool)
two_lines = (b'a' ∷ b'b' ∷ [], true) ∷ (b'c' ∷ [], false) ∷ []

read_lines-output_example :
    read_lines 4 (output two_lines ++ b'd' ∷ []) ≡ texts two_lines ++ (b'd' ∷ []) ∷ []
read_lines-output_example =
    read_lines-output two_lines (b'd' ∷ []) 4 (refl, ((refl, omega arith), tt)) refl (omega arith)

abbrev handle_calls : List rs_io.Resource.Call
handle_calls =
    call_acquire false (some 7)
    ∷ call_move_other true
    ∷ call_acquire false (some 8)
    ∷ call_release true
    ∷ []

run-deleted_example :
    count 7 (rs_io.Resource.run handle_calls empty_heap).deleted
      + count 7 (rs_io.Resource.run handle_calls empty_heap).given_away
    ≡ acquired 7 handle_calls
run-deleted_example = run-deleted 7 handle_calls

-- The second signal is given while another thread closes the object.
abbrev signal_calls : List rs_io.Signals.Order.Call
signal_calls = call_wait (some 1) false ∷ call_read ∷ call_wait (some 1) true ∷ []

run-IsInOrder_example : IsInOrder (rs_io.Signals.Order.run signal_calls (start (1 ∷ [])))
run-IsInOrder_example = run-IsInOrder (1 ∷ []) signal_calls

destroy-drop_example : destroy (2 ∷ 15 ∷ 10 ∷ []) (2 ∷ 10 ∷ []) ≡ some []
destroy-drop_example = destroy-drop (2 ∷ 15 ∷ 10 ∷ []) (2 ∷ 10 ∷ []) (λ p. ground arith)
