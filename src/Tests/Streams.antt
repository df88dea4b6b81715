-- ===== src/Tests/Streams.antt =====
-- The theorems on streams at a device over two texts: what is still to be read, and what was written.
-- It reads two bytes at a time at most and writes three.
use rs_io.Text.{Text}
use rs_io.Base.{
  [], arith, drop, length, length-take, min, refl, some, take, take-append-drop, ◌++◌, ◌∷◌, ◌≡◌,
}
use rs_io.Stdio.Streams.{Source, read_line-first, read_all-all}
use rs_io.Stdio.Cfile
use rs_io.Stdio.Cfile.Terminated.{read_line-overrides}
use rs_io.Stdio.Writes.{Sink, writes-all}
use rs_io.Stdio.Device.{Device, read_line, read_all, writes}

abbrev Pipe : Type 0
Pipe = Text × Text

abbrev pipe : Device Pipe
pipe = record {
  read = λ s n. ((drop (min 2 n) s.0, s.1), take (min 2 n) s.0);
  write = λ s t. ((s.0, s.1 ++ take (min 3 (length t)) t), min 3 (length t));
}

pipe-Source : Source pipe (λ s. s.0)
pipe-Source = record {
  reads_front = λ s n. take-append-drop (min 2 n) s.0;
  reads_at_most = λ s n. omega (arith, length-take (min 2 n) s.0);
  reads_something = λ s n h k. omega (arith, length-take (min 2 n) s.0);
}

pipe-Sink : Sink pipe (λ s. s.1)
pipe-Sink = record {
  writes_front = λ s t. refl;
  writes_at_most = λ s t. omega arith;
  writes_something = λ s t h. omega arith;
}

-- "ab", a newline, and "c"
abbrev two_lines : Text
two_lines = b'a' ∷ b'b' ∷ b'\n' ∷ b'c' ∷ []

read_line-first_example :
    (s : Pipe) × (read_line pipe 9 (two_lines, []) ≡ some (s, b'a' ∷ b'b' ∷ b'\n' ∷ []))
    × (s.0 ≡ b'c' ∷ [])
read_line-first_example =
    read_line-first pipe (λ s. s.0) pipe-Source 9 (two_lines, []) (omega arith)

read_all-all_example :
    (s : Pipe) × (read_all pipe 9 (two_lines, []) ≡ some (s, two_lines)) × (s.0 ≡ [])
read_all-all_example = read_all-all pipe (λ s. s.0) pipe-Source 9 (two_lines, []) (omega arith)

writes-all_example :
    (s : Pipe) × (writes pipe 9 ([], []) two_lines ≡ some (s, 4)) × (s.1 ≡ two_lines)
writes-all_example = writes-all pipe (λ s. s.1) pipe-Sink 9 ([], []) two_lines (omega arith)

read_line-overrides_example :
    (s' : Pipe) × (line : Text) × (read_line pipe 9 (two_lines, []) ≡ some (s', line))
    × (Cfile.read_line 9 two_lines ≡ some (line, s'.0))
read_line-overrides_example =
    read_line-overrides pipe (λ s. s.0) pipe-Source 9 (two_lines, []) (omega arith) refl refl
