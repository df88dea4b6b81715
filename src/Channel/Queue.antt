-- ===== src/Channel/Queue.antt =====
-- QueueChannel and GeneratorChannel of channel.hpp. Each method holds the channel's mutex, so it is
-- one step on the state.
use rs_io.Base.{
  Bool, List, Option, [], false, if◌then◌else◌, is_nil, ltb, none, not, some, true, ℕ, ◌&&◌, ◌++◌,
  ◌||◌, ◌∷◌,
}
pub mod Fifo

pub record Queue {ℓ} (A : Type ℓ) : Type ℓ where
  pub open_ : Bool
  pub queue : List A

-- A call by some thread.
pub data Call {ℓ} (A : Type ℓ) : Type ℓ where
  writes : A → Call A
  reads clears closes : Call A

module _ {ℓ} {A : Type ℓ} where
  unfoldable pub init : Queue A
  init = record { open_ = true; queue = [] }

  unfoldable pub close : Queue A → Queue A
  close c = record c { open_ = false }

  unfoldable pub is_closed : Queue A → Bool
  is_closed c = not c.open_

  -- The front of the deque, for an open channel.
  abbrev take_front : Queue A → List A → Queue A × Option A
  take_front c [] = (c, none)
  take_front c (x ∷ xs) = (record c { queue = xs }, some x)

  unfoldable pub read : Queue A → Queue A × Option A
  read c = if not c.open_ then (c, none) else take_front c c.queue

  unfoldable pub clear : Queue A → Queue A
  clear c = record c { queue = [] }

  unfoldable pub write : Queue A → A → Queue A × Bool
  write c x = if not c.open_ then (c, false) else (record c { queue = c.queue ++ x ∷ [] }, true)

  abbrev pub ready : Queue A → Bool
  ready c = not c.open_ || not (is_nil c.queue)

  -- `do_wait_for(t)`: if it waits on the condition variable, other threads leave the state `after`.
  unfoldable pub do_wait_for : Queue A → ℕ → Queue A → Bool
  do_wait_for c t after = if c.open_ && (is_nil c.queue && ltb 0 t) then ready after else ready c

  unfoldable pub step : Queue A → Call A → Queue A × Option A
  step c (writes x) = ((write c x).0, none)
  step c reads = read c
  step c clears = (clear c, none)
  step c closes = (close c, none)

  abbrev deliver : List A → Option A → List A
  deliver out none = out
  deliver out (some x) = out ++ x ∷ []

  -- What the readers got is added behind `out`.
  unfoldable pub run : Queue A → List A → List (Call A) → Queue A × List A
  run c out [] = (c, out)
  run c out (k ∷ ks) = let (c', got) = step c k in run c' (deliver out got) ks

-- GeneratorChannel: the generator is called under the lock. `gen` is null once it is closed. What
-- the function keeps between calls is its state `S`.
pub record Generator {ℓ} (S A : Type ℓ) : Type ℓ where
  pub gen : Option (S → A × S)
  pub state : S

module _ {ℓ} {S A : Type ℓ} where
  unfoldable pub gen_close : Generator S A → Generator S A
  gen_close c = record c { gen = none }

  unfoldable pub gen_is_closed : Generator S A → Bool
  gen_is_closed c = elim c.gen [ none ↦ true | some f ↦ false ]

  abbrev gen_call : Generator S A → Option (S → A × S) → Generator S A × Option A
  gen_call c none = (c, none)
  gen_call c (some f) = let (a, s) = f c.state in (record c { state = s }, some a)

  unfoldable pub gen_read : Generator S A → Generator S A × Option A
  gen_read c = gen_call c c.gen
