-- ===== src/Signals.antt =====
-- PosixSignal of signal.cpp, in its POSIX form. sigtimedwait is a parameter, by its answers; the masks of the
-- threads are not part of the state.
pub mod Order
pub mod Names
pub mod Discard
use rs_io.Base.{
  Bool, List, Option, [], false, if◌then◌else◌, is_nil, none, not, some, true, ℕ, ◌++◌, ◌||◌, ◌∷◌,
}

pub record PosixSignal : Type 0 where
  pub signals : List ℕ
  pub queue : List ℕ
  pub is_open : Bool

-- SIGUSR1 of Linux
abbrev pub sigusr1 : ℕ
sigusr1 = 10

-- The constructor.
unfoldable pub make : List ℕ → PosixSignal
make list = record { signals = list ++ (sigusr1 ∷ []); queue = []; is_open = true }

-- `close`, with the signals that it raises.
unfoldable pub close : PosixSignal → PosixSignal × List ℕ
close p =
    if p.is_open
    then (record { signals = p.signals; queue = p.queue; is_open = false }, sigusr1 ∷ [])
    else (p, [])

abbrev pop : PosixSignal → List ℕ → PosixSignal × Option ℕ
pop p [] = (p, none)
pop p (s ∷ q) = (record { signals = p.signals; queue = q; is_open = p.is_open }, some s)

unfoldable pub read : PosixSignal → PosixSignal × Option ℕ
read p = if not p.is_open then (p, none) else pop p p.queue

-- The end of `do_wait_for`, with what sigtimedwait gave.
abbrev pub waited : Option ℕ → PosixSignal → PosixSignal × Bool
waited none p = (p, not p.is_open)
waited (some s) p =
    if not p.is_open
    then (p, true)
    else (record { signals = p.signals; queue = p.queue ++ (s ∷ []); is_open = true }, true)

-- The answer of sigtimedwait is a signal, or `none` for -1; `closed` is a call of `close` by another thread
-- during the wait.
unfoldable pub do_wait_for : Option ℕ → Bool → PosixSignal → PosixSignal × Bool
unfolding close
do_wait_for answer closed p =
    if not p.is_open || not (is_nil p.queue)
    then (p, true)
    else waited answer (if closed then (close p).0 else p)
