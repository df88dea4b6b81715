-- ===== src/Stdio/Device.antt =====
-- The class IoBase and LineIterator of stdio.hpp and stdio.cpp, over the two virtual functions that
-- move bytes. A loop takes fuel, and `none` means that the fuel ran out.
use rs_io.Base.{
  Bool, List, Option, [], drop, false, if◌then◌else◌, is_nil, length, none, replicate, some, suc,
  true, zero, ℕ, ◌%◌, ◌++◌, ◌+◌, ◌/◌, ◌==◌, ◌∷◌,
}
use rs_io.Text.{Text}

-- The virtual `read` and `write` of a concrete class: the bytes read, of which there are at most as many
-- as asked for, and the number of bytes written. An exception of theirs ends the call and is not
-- modelled.
pub record Device {ℓ} (S : Type ℓ) : Type ℓ where
  pub read : S → ℕ → S × Text
  pub write : S → Text → S × ℕ

-- `block_size` of stdio.cpp and `default_length` of stdio.hpp
abbrev pub block_size : ℕ
block_size = 65_536

abbrev pub newline : ℕ
newline = b'\n'

module _ {ℓ} {S : Type ℓ} (D : Device S) where
  open D use {read, write}

  abbrev pub first_byte : S × Text → S × Option ℕ
  first_byte (s, []) = (s, none)
  first_byte (s, c ∷ t) = (s, some c)

  -- `getc`; `none` is EOF.
  unfoldable pub getc : S → S × Option ℕ
  getc s = first_byte (read s 1)

  -- The loop of `read_line`, which has read `line` so far.
  unfoldable pub read_line_loop : ℕ → S → Text → Option (S × Text)
  read_line_loop zero s line = none
  read_line_loop (suc f) s line =
      let (s', c) = getc s in
      elim c [
        | none ↦ some (s', line)
        | some b ↦ elim (b == newline) [
          | true ↦ some (s', line ++ b ∷ [])
          | false ↦ read_line_loop f s' (line ++ b ∷ [])
        ]
      ]

  unfoldable pub read_line : ℕ → S → Option (S × Text)
  read_line f s = read_line_loop f s []

  -- `read_some(buf, maxlen)`: the new buffer and the number of bytes read.
  unfoldable pub read_some : S → Text → ℕ → S × Text × ℕ
  read_some s buf maxlen = let (s', t) = read s maxlen in (s', buf ++ t, length t)

  unfoldable pub read_all_loop : ℕ → S → Text → Option (S × Text)
  read_all_loop zero s buf = none
  read_all_loop (suc f) s buf =
      let (s', buf', n) = read_some s buf block_size in
      elim (n == 0) [ true ↦ some (s', buf') | false ↦ read_all_loop f s' buf' ]

  unfoldable pub read_all : ℕ → S → Option (S × Text)
  read_all f s = read_all_loop f s []

  -- `reads(maxlen)`
  unfoldable pub reads : S → ℕ → S × Text
  reads s maxlen = read s maxlen

  -- The full blocks of `write_chars`, whose results are not looked at.
  unfoldable pub write_blocks : ℕ → S → Text → S
  write_blocks zero s block = s
  write_blocks (suc k) s block = write_blocks k (write s block).0 block

  unfoldable pub write_chars : S → ℕ → ℕ → S
  unfolding write_blocks
  write_chars s n c =
      let s' = write_blocks (n / block_size) s (replicate block_size c) in
      let rem = n % block_size in if rem == 0 then s' else (write s' (replicate rem c)).0

  -- The loop of `writes` on what is left; it is entered once also for the empty text.
  unfoldable pub writes_loop : ℕ → S → Text → ℕ → Option (S × ℕ)
  writes_loop zero s t ofs = none
  writes_loop (suc f) s t ofs =
      let (s', n) = write s t in
      elim (is_nil (drop n t)) [
        | true ↦ some (s', ofs + n)
        | false ↦ writes_loop f s' (drop n t) (ofs + n)
      ]

  unfoldable pub writes : ℕ → S → Text → Option (S × ℕ)
  writes f s t = writes_loop f s t 0

  -- What `write_line` writes for a text.
  abbrev pub ends_with_newline : Text → Bool
  ends_with_newline [] = false
  ends_with_newline (c ∷ []) = c == newline
  ends_with_newline (c ∷ d ∷ s) = ends_with_newline (d ∷ s)

  unfoldable pub write_line : ℕ → S → Text → Option (S × ℕ)
  write_line f s t =
      if is_nil t
      then (let (s', n) = write s (newline ∷ []) in some (s', n))
      else if ends_with_newline t
      then writes f s t
      else writes f s (t ++ newline ∷ [])

  -- The lines that a LineIterator goes through: it stops at the first empty one. `lines` bounds their
  -- number and `chars` their lengths.
  unfoldable pub lines : ℕ → ℕ → S → Option (List Text)
  lines zero chars s = none
  lines (suc k) chars s = elim (read_line chars s) [
    | none ↦ none
    | some (s', line) ↦ elim (is_nil line) [
      | true ↦ some []
      | false ↦ elim (lines k chars s') [ none ↦ none | some ls ↦ some (line ∷ ls) ]
    ]
  ]
