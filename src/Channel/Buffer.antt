-- ===== src/Channel/Buffer.antt =====
-- BufferChannel and StreamChannel of channel.hpp and channel.cpp. Each method of BufferChannel holds
-- its mutex, so it is one step on the state.
pub mod Stream
pub mod Collect
use rs_io.Base.{
  Bool, List, [], drop, false, if◌then◌else◌, leb, length, ltb, min, not, take, true, ℕ, ◌&&◌, ◌*◌,
  ◌++◌, ◌+◌, ◌-◌, ◌==◌, ◌||◌, ◌∷◌,
}
use rs_io.Text.{Text}

pub record Buffer : Type 0 where
  pub buf : Text
  pub ofs : ℕ
  pub open_ : Bool

unfoldable pub init : Buffer
init = record { buf = []; ofs = 0; open_ = true }

unfoldable pub close : Buffer → Buffer
close c = record { buf = []; ofs = 0; open_ = false }

unfoldable pub clear : Buffer → Buffer
clear c = record c { buf = []; ofs = 0 }

unfoldable pub write : Buffer → Text → Buffer × Bool
write c src = if not c.open_ then (c, false) else (record c { buf = c.buf ++ src }, true)

-- The bytes that are read are dropped when they are half of the buffer or more.
unfoldable pub compact : Buffer → Buffer
compact c =
    if c.ofs == length c.buf
    then record c { buf = []; ofs = 0 }
    else if leb (length c.buf) (2 * c.ofs)
    then record c { buf = drop c.ofs c.buf; ofs = 0 }
    else c

-- What `read(dst, maxlen)` copies to a `dst` that is not null.
unfoldable pub read : Buffer → ℕ → Buffer × Text
read c maxlen =
    let n = min (length c.buf - c.ofs) maxlen in
    if maxlen == 0 || not c.open_
    then (c, [])
    else (compact (record c { ofs = c.ofs + n }), take n (drop c.ofs c.buf))

abbrev pub ready : Buffer → Bool
ready c = not c.open_ || ltb c.ofs (length c.buf)

-- `do_wait_for(t)`: if it waits on the condition variable, other threads leave the state `after`.
unfoldable pub do_wait_for : Buffer → ℕ → Buffer → Bool
do_wait_for c t after =
    if c.open_ && (c.ofs == length c.buf && ltb 0 t) then ready after else ready c

-- `StreamChannel::append(dst)` with the block size `block`: `dst` is grown, read into, and cut back
-- to what was read.
unfoldable pub append : Buffer → ℕ → Text → Buffer × Text
append c block dst = let (c', got) = read c block in (c', dst ++ got)

-- A call by some thread.
pub data Call : Type 0 where
  writes : Text → Call
  reads : ℕ → Call
  clears closes : Call

-- The state after a call, and the bytes it read.
unfoldable pub apply : Buffer → Call → Buffer × Text
apply c (writes s) = ((write c s).0, [])
apply c (reads n) = read c n
apply c clears = (clear c, [])
apply c closes = (close c, [])

-- The calls in the order in which they get the mutex; what they read is added behind `out`.
unfoldable pub run : Buffer → Text → List Call → Buffer × Text
run c out [] = (c, out)
run c out (k ∷ ks) = let (c', got) = apply c k in run c' (out ++ got) ks
