-- ===== src/Stdio/Cfile.antt =====
-- Cstdio::read_line of stdio.cpp, on a C stream that reports no error: the state is what is still to be
-- read.
pub mod Calls
pub mod Fgets
pub mod Terminated
use rs_io.Base.{
  Option, [], drop, false, if◌then◌else◌, is_nil, length, ltb, none, replicate, some, suc, take,
  true, zero, ℕ, ◌&&◌, ◌++◌, ◌-◌, ◌==◌, ◌∷◌,
}
use rs_io.Text.{Text, contains}
use rs_io.Stdio.Device.{newline}

-- `small_block`
abbrev pub small_block : ℕ
small_block = 256

-- What `fgets` with room for `n` characters and the terminator takes from a stream: it stops behind a
-- newline.
unfoldable pub fgets_line : ℕ → Text → Text
fgets_line zero s = []
fgets_line (suc n) [] = []
fgets_line (suc n) (c ∷ s) = let rest = fgets_line n s in if c == newline then c ∷ [] else c ∷ rest

-- `buf.find_last_not_of('\0') + 1`
unfoldable pub text_end : Text → ℕ
text_end [] = 0
text_end (c ∷ s) = let n = text_end s in if n == 0 && c == 0 then 0 else suc n

-- The loop of `read_line`: the buffer, filled up with zeros by `resize`, and what is still to be read.
unfoldable pub read_line_loop : ℕ → Text → Text → Option (Text × Text)
read_line_loop zero buf s = none
read_line_loop (suc f) buf s =
    let got = fgets_line (small_block - 1) s in
    let rest = drop (length got) s in
    let filled = buf ++ (got ++ replicate (small_block - length got) 0) in
    let ntpos = text_end filled in
    elim (is_nil s) [
      | true ↦ some (buf, s)
      | false ↦ elim (contains newline got) [
        | true ↦ some (buf ++ got, rest)
        | false ↦ elim (ltb ntpos (small_block - 1)) [
          | true ↦ some (take ntpos filled, rest)
          | false ↦ read_line_loop f (take (length filled - 1) filled) rest
        ]
      ]
    ]

unfoldable pub read_line : ℕ → Text → Option (Text × Text)
read_line f s = read_line_loop f [] s
