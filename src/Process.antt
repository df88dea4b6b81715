-- ===== src/Process.antt =====
-- StreamProcess and TextProcess of process.cpp, in their POSIX form, with the answers of fread, select and the
-- clock as arguments.
pub mod Lines
use rs_io.Time.{ℤ, pos, negsuc}
use rs_io.Text.{Text, find_at, char_at}
use rs_io.Base.{
  Bool, List, Option, [], drop, false, if◌then◌else◌, inl, inr, is_nil, ltb, none, not, some, suc,
  take, true, zero, ℕ, ◌&&◌, ◌++◌, ◌+◌, ◌-◌, ◌==◌, ◌||◌, ◌∷◌, ◌⊎◌,
}

-- The state of StreamProcess: whether `fp_` is set, and `status_`.
pub record StreamProcess : Type 0 where
  pub has_fp : Bool
  pub status : ℤ

-- The value of EBADF on Linux
abbrev pub ebadf : ℕ
ebadf = 9

abbrev pub is_unset : ℤ → Bool
is_unset (pos n) = false
is_unset (negsuc n) = n == 0

-- `do_close`, with the result of pclose.
unfoldable pub do_close : ℤ → StreamProcess → StreamProcess
do_close rc p =
    if not p.has_fp
    then p
    else record { has_fp = false; status = if is_unset p.status then rc else p.status }

-- `read`, with the bytes of fread and its errno, and the result of pclose. A failure is its errno.
unfoldable pub read : Bool → ℕ → Text → ℕ → ℤ → StreamProcess → StreamProcess × (ℕ ⊎ Text)
unfolding do_close
read dst_null maxlen bytes err rc p =
    if dst_null || (maxlen == 0 || not p.has_fp)
    then (p, inr [])
    else if not (is_nil bytes)
    then (p, inr bytes)
    else if not (err == 0) && not (err == ebadf)
    then (p, inl err)
    else (do_close rc p, inr [])

-- select: the number of ready files, or errno.
unfoldable pub do_wait_for : ℕ ⊎ ℕ → StreamProcess → ℕ ⊎ Bool
do_wait_for (inl err) p =
    if not p.has_fp then inr true else if err == ebadf then inr true else inl err
do_wait_for (inr n) p = if not p.has_fp then inr true else inr (not (n == 0))

-- The state of TextProcess besides its stream is `buf_`. `read` gives the next line.
abbrev pub first_line : Text → ℕ → Text
first_line buf lf =
    if ltb 0 lf && char_at buf (lf - 1) == 13 then take (lf - 1) buf else take lf buf

abbrev pub line_at : Text → Option ℕ → Text × Text
line_at buf none = (buf, [])
line_at buf (some lf) = (first_line buf lf, drop (lf + 1) buf)

unfoldable pub read_line : Text → Option (Text × Text)
unfolding find_at
read_line buf = if is_nil buf then none else some (line_at buf (find_at 0 10 buf))

-- One pass of the loop of `TextProcess::do_wait_for`: whether the stream is closed after the wait, what
-- `append` adds, and the clock after it.
pub record Pass : Type 0 where
  pub is_closed : Bool
  pub appended : Text
  pub now : ℤ

abbrev pub less_int : ℤ → ℤ → Bool
less_int (pos m) (pos n) = ltb m n
less_int (pos m) (negsuc n) = false
less_int (negsuc m) (pos n) = true
less_int (negsuc m) (negsuc n) = ltb n m

-- The loop, with the buffer that it leaves and what it returns, `none` where the passes end before the loop.
unfoldable pub wait_loop : ℤ → List Pass → Text → Text × Option Bool
unfolding find_at
wait_loop deadline [] buf = (buf, none)
wait_loop deadline (p ∷ ps) buf =
    let more = buf ++ p.appended in
    let rest = wait_loop deadline ps more in
    if p.is_closed || is_nil p.appended then (buf, some true) else elim (find_at 0 10 more) [
      | some lf ↦ (more, some true)
      | none ↦ if less_int deadline p.now then (more, some false) else rest
    ]

-- The calls of `read` until it returns false.
abbrev pub continued : (Text → List Text) → Option (Text × Text) → List Text
continued k none = []
continued k (some (t, rest)) = t ∷ k rest

abbrev pub read_lines : ℕ → Text → List Text
read_lines zero buf = []
read_lines (suc f) buf = continued (read_lines f) (read_line buf)
