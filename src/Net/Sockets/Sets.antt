-- ===== src/Net/Sockets/Sets.antt =====
-- The class SocketSet, with the answers of select as arguments. A channel is a number, and a socket the
-- number of its handle, `none` for no_socket.
pub mod Aligned
pub mod Ready
use rs_io.Base.{
  Bool, List, Option, [], false, get_elem?, if◌then◌else◌, is_nil, none, not, some, true, ℕ, ◌++◌,
  ◌+◌, ◌==◌, ◌||◌, ◌∷◌,
}
use rs_io.Net.Address.{Result, ok, thrown, system_error}

-- select: how many are ready, or errno; for some, the handles that are in one of the two sets.
pub data Selected : Type 0 where
  nothing bad_handle : Selected
  ready : (ℕ → Bool) → Selected
  failed : ℕ → Selected

-- +1 with the index, 0 and -1.
pub data Found : Type 0 where
  at : ℕ → Found
  timeout closed : Found

-- The search of the first handle that is ready.
abbrev pub first_ready : (ℕ → Bool) → ℕ → List (Option ℕ) → Found
first_ready is_set i [] = timeout
first_ready is_set i (none ∷ ss) = first_ready is_set (i + 1) ss
first_ready is_set i (some s ∷ ss) =
    let rest = first_ready is_set (i + 1) ss in if is_set s then at i else rest

unfoldable pub do_select : List (Option ℕ) → Selected → Result Found
do_select ss nothing = ok timeout
do_select ss bad_handle = ok closed
do_select ss (failed e) = thrown (system_error e)
do_select ss (ready is_set) = ok (first_ready is_set 0 ss)

pub record SocketSet : Type 0 where
  pub channels : List ℕ
  pub natives : List (Option ℕ)
  pub current : Option ℕ
  pub is_open : Bool

-- A call of the class, with the answer of select where it asks.
pub data Call : Type 0 where
  insert : ℕ → Option ℕ → Call
  erase : ℕ → Call
  clear close : Call
  wait read : Selected → Call

-- What a call returns: nothing, a flag, or a channel with true.
pub data Returned : Type 0 where
  done : Returned
  flag : Bool → Returned
  channel : ℕ → Returned

abbrev pub empty_set : SocketSet
empty_set = record { channels = []; natives = []; current = none; is_open = true }

unfoldable pub do_insert : ℕ → Option ℕ → SocketSet → SocketSet
do_insert c s q = record {
  channels = q.channels ++ (c ∷ []);
  natives = q.natives ++ (s ∷ []);
  current = q.current;
  is_open = q.is_open;
}

abbrev pub is_at : ℕ → Option ℕ → Bool
is_at c none = false
is_at c (some d) = d == c

-- `find` in one vector, and the erasing of the element there from both.
abbrev pub erase_channel : ℕ → List ℕ → List ℕ
erase_channel c [] = []
erase_channel c (d ∷ ds) = let rest = erase_channel c ds in if d == c then ds else d ∷ rest

abbrev pub erase_native : ℕ → List ℕ → List (Option ℕ) → List (Option ℕ)
erase_native c [] ss = ss
erase_native c (d ∷ ds) [] = []
erase_native c (d ∷ ds) (s ∷ ss) =
    let rest = erase_native c ds ss in if d == c then ss else s ∷ rest

abbrev pub has : ℕ → List ℕ → Bool
has c [] = false
has c (d ∷ ds) = d == c || has c ds

unfoldable pub do_erase : ℕ → SocketSet → SocketSet
do_erase c q =
    if has c q.channels
    then record {
      channels = erase_channel c q.channels;
      natives = erase_native c q.channels q.natives;
      current = if is_at c q.current then none else q.current;
      is_open = q.is_open;
    }
    else q

unfoldable pub do_clear : SocketSet → SocketSet
do_clear q = record { channels = []; natives = []; current = none; is_open = q.is_open }

unfoldable pub do_close : SocketSet → SocketSet
do_close q = record {
  channels = q.channels;
  natives = q.natives;
  current = q.current;
  is_open = false;
}

abbrev pub with_current : Option ℕ → SocketSet → SocketSet
with_current c q = record {
  channels = q.channels;
  natives = q.natives;
  current = c;
  is_open = q.is_open;
}

-- The end of `read`, with what the search found; `channels_[index]` past the end does not occur.
abbrev pub read_found : SocketSet → Result Found → SocketSet × Result Returned
read_found q (ok (at i)) =
    (q, ok (elim (get_elem? q.channels i) [ some c ↦ channel c | none ↦ flag false ]))
read_found q (ok timeout) = (q, ok (flag false))
read_found q (ok closed) = (q, ok (flag false))
read_found q (thrown e) = (q, thrown e)

abbrev pub read_next : SocketSet → Selected → Option ℕ → SocketSet × Result Returned
read_next q a (some c) = (with_current none q, ok (channel c))
read_next q a none = read_found q (do_select q.natives a)

unfoldable pub do_read : SocketSet → Selected → SocketSet × Result Returned
unfolding do_select
do_read q a =
    if not q.is_open || is_nil q.channels then (q, ok (flag false)) else read_next q a q.current

-- The end of `do_wait_for`.
abbrev pub wait_found : SocketSet → Result Found → SocketSet × Result Returned
wait_found q (ok (at i)) = (
  with_current (elim (get_elem? q.channels i) [ some c ↦ some c | none ↦ q.current ]) q,
  ok (flag true),
)
wait_found q (ok timeout) = (q, ok (flag false))
wait_found q (ok closed) = (q, ok (flag true))
wait_found q (thrown e) = (q, thrown e)

abbrev pub wait_next : SocketSet → Selected → Option ℕ → SocketSet × Result Returned
wait_next q a (some c) = (q, ok (flag true))
wait_next q a none = wait_found q (do_select q.natives a)

unfoldable pub do_wait_for : SocketSet → Selected → SocketSet × Result Returned
unfolding do_select
do_wait_for q a = if not q.is_open then (q, ok (flag true)) else wait_next q a q.current

unfoldable pub step : Call → SocketSet → SocketSet × Result Returned
unfolding do_insert do_erase do_clear do_close do_wait_for do_read
step (insert c s) q = (do_insert c s q, ok done)
step (erase c) q = (do_erase c q, ok done)
step clear q = (do_clear q, ok done)
step close q = (do_close q, ok done)
step (wait a) q = do_wait_for q a
step (read a) q = do_read q a

-- The set after a list of calls.
unfoldable pub run : List Call → SocketSet → SocketSet
unfolding step
run [] q = q
run (c ∷ cs) q = run cs (step c q).0
