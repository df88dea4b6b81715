-- ===== src/Resource.antt =====
-- The class template Resource of utility.hpp. A handle is a number, and the null value `none`; the deleter
-- writes the handle into a list. Two resources take part, which the calls name by `false` and `true`.
pub mod Once
use rs_io.Base.{Bool, List, Option, [], false, none, not, some, true, ℕ, ◌∷◌}

pub record Heap : Type 0 where
  pub first : Option ℕ
  pub second : Option ℕ
  pub deleted : List ℕ
  pub given_away : List ℕ

unfoldable pub value : Bool → Heap → Option ℕ
value false h = h.first
value true h = h.second

unfoldable pub set_value : Bool → Option ℕ → Heap → Heap
set_value false v h = record {
  first = v;
  second = h.second;
  deleted = h.deleted;
  given_away = h.given_away;
}
set_value true v h = record {
  first = h.first;
  second = v;
  deleted = h.deleted;
  given_away = h.given_away;
}

-- `Del()(value_)`
abbrev pub delete : Option ℕ → Heap → Heap
delete none h = h
delete (some t) h = record {
  first = h.first;
  second = h.second;
  deleted = t ∷ h.deleted;
  given_away = h.given_away;
}

-- What `release` returns belongs to the caller.
abbrev pub give : Option ℕ → Heap → Heap
give none h = h
give (some t) h = record {
  first = h.first;
  second = h.second;
  deleted = h.deleted;
  given_away = t ∷ h.given_away;
}

unfoldable pub reset : Bool → Heap → Heap
unfolding value set_value
reset r h = set_value r none (delete (value r h) h)

unfoldable pub release : Bool → Heap → Heap
unfolding value set_value
release r h = set_value r none (give (value r h) h)

-- The assignment of the other resource by a move, and of itself, which does nothing.
unfoldable pub move_other : Bool → Heap → Heap
unfolding value set_value reset
move_other r h = set_value (not r) none (set_value r (value (not r) h) (reset r h))

unfoldable pub move_self : Bool → Heap → Heap
move_self r h = h

-- The assignment of a new resource for a handle, whose destructor then finds the null value.
unfoldable pub acquire : Bool → Option ℕ → Heap → Heap
unfolding set_value reset
acquire r t h = set_value r t (reset r h)

unfoldable pub swap : Heap → Heap
swap h = record {
  first = h.second;
  second = h.first;
  deleted = h.deleted;
  given_away = h.given_away;
}

pub data Call : Type 0 where
  call_reset call_release call_move_other call_move_self : Bool → Call
  call_acquire : Bool → Option ℕ → Call
  call_swap : Call

unfoldable pub step : Call → Heap → Heap
unfolding reset release move_other move_self acquire swap
step (call_reset r) h = reset r h
step (call_release r) h = release r h
step (call_move_other r) h = move_other r h
step (call_move_self r) h = move_self r h
step (call_acquire r t) h = acquire r t h
step call_swap h = swap h

-- The calls, and the two destructors.
unfoldable pub run : List Call → Heap → Heap
unfolding step reset
run [] h = reset true (reset false h)
run (c ∷ cs) h = run cs (step c h)

abbrev pub empty_heap : Heap
empty_heap = record { first = none; second = none; deleted = []; given_away = [] }
