-- ===== src/Signals/Names.antt =====
-- PosixSignal::name of signal.cpp, with the signal numbers of Linux.
use rs_io.Base.{List, Option, [], if◌then◌else◌, ltb, none, some, ℕ, ◌&&◌, ◌++◌, ◌-◌, ◌==◌, ◌∷◌}
use rs_io.Text.{Text}
use rs_io.Time.{ℤ, pos, negsuc}

abbrev pub sigrtmin : ℕ
sigrtmin = 34

abbrev pub sigrtmax : ℕ
sigrtmax = 64

-- Behind the three letters with which each of the names begins.
abbrev sig : Text → Text
sig s = b'S' ∷ b'I' ∷ b'G' ∷ s

-- The entries of `map` in their order, for the signals that Linux has.
unfoldable pub entries : List (ℕ × Text)
entries =
    (6, sig (b'A' ∷ b'B' ∷ b'R' ∷ b'T' ∷ []))
    ∷ (8, sig (b'F' ∷ b'P' ∷ b'E' ∷ []))
    ∷ (4, sig (b'I' ∷ b'L' ∷ b'L' ∷ []))
    ∷ (2, sig (b'I' ∷ b'N' ∷ b'T' ∷ []))
    ∷ (11, sig (b'S' ∷ b'E' ∷ b'G' ∷ b'V' ∷ []))
    ∷ (15, sig (b'T' ∷ b'E' ∷ b'R' ∷ b'M' ∷ []))
    ∷ (14, sig (b'A' ∷ b'L' ∷ b'R' ∷ b'M' ∷ []))
    ∷ (7, sig (b'B' ∷ b'U' ∷ b'S' ∷ []))
    ∷ (17, sig (b'C' ∷ b'H' ∷ b'L' ∷ b'D' ∷ []))
    ∷ (18, sig (b'C' ∷ b'O' ∷ b'N' ∷ b'T' ∷ []))
    ∷ (1, sig (b'H' ∷ b'U' ∷ b'P' ∷ []))
    ∷ (9, sig (b'K' ∷ b'I' ∷ b'L' ∷ b'L' ∷ []))
    ∷ (13, sig (b'P' ∷ b'I' ∷ b'P' ∷ b'E' ∷ []))
    ∷ (27, sig (b'P' ∷ b'R' ∷ b'O' ∷ b'F' ∷ []))
    ∷ (3, sig (b'Q' ∷ b'U' ∷ b'I' ∷ b'T' ∷ []))
    ∷ (19, sig (b'S' ∷ b'T' ∷ b'O' ∷ b'P' ∷ []))
    ∷ (31, sig (b'S' ∷ b'Y' ∷ b'S' ∷ []))
    ∷ (5, sig (b'T' ∷ b'R' ∷ b'A' ∷ b'P' ∷ []))
    ∷ (20, sig (b'T' ∷ b'S' ∷ b'T' ∷ b'P' ∷ []))
    ∷ (21, sig (b'T' ∷ b'T' ∷ b'I' ∷ b'N' ∷ []))
    ∷ (22, sig (b'T' ∷ b'T' ∷ b'O' ∷ b'U' ∷ []))
    ∷ (23, sig (b'U' ∷ b'R' ∷ b'G' ∷ []))
    ∷ (10, sig (b'U' ∷ b'S' ∷ b'R' ∷ b'1' ∷ []))
    ∷ (12, sig (b'U' ∷ b'S' ∷ b'R' ∷ b'2' ∷ []))
    ∷ (26, sig (b'V' ∷ b'T' ∷ b'A' ∷ b'L' ∷ b'R' ∷ b'M' ∷ []))
    ∷ (24, sig (b'X' ∷ b'C' ∷ b'P' ∷ b'U' ∷ []))
    ∷ (25, sig (b'X' ∷ b'F' ∷ b'S' ∷ b'Z' ∷ []))
    ∷ (29, sig (b'I' ∷ b'O' ∷ []))
    ∷ (29, sig (b'P' ∷ b'O' ∷ b'L' ∷ b'L' ∷ []))
    ∷ (30, sig (b'P' ∷ b'W' ∷ b'R' ∷ []))
    ∷ (34, sig (b'R' ∷ b'T' ∷ b'M' ∷ b'I' ∷ b'N' ∷ []))
    ∷ (64, sig (b'R' ∷ b'T' ∷ b'M' ∷ b'A' ∷ b'X' ∷ []))
    ∷ (16, sig (b'S' ∷ b'T' ∷ b'K' ∷ b'F' ∷ b'L' ∷ b'T' ∷ []))
    ∷ (28, sig (b'W' ∷ b'I' ∷ b'N' ∷ b'C' ∷ b'H' ∷ []))
    ∷ []

-- `map.find(s)`: the map keeps the first of the entries with a number.
unfoldable pub find : List (ℕ × Text) → ℕ → Option Text
find [] s = none
find ((n, name) ∷ es) s = let rest = find es s in if n == s then some name else rest

-- `to_string` is std::to_string.
abbrev unnamed : (ℤ → Text) → ℕ → Text
unnamed to_string s =
    if ltb sigrtmin s && ltb s sigrtmax
    then sig (b'R' ∷ b'T' ∷ b'M' ∷ b'I' ∷ b'N' ∷ b'+' ∷ []) ++ to_string (pos (s - sigrtmin))
    else to_string (pos s)

abbrev or_unnamed : (ℤ → Text) → ℕ → Option Text → Text
or_unnamed to_string s none = unnamed to_string s
or_unnamed to_string s (some name) = name

-- `name(s)`
unfoldable pub name : (ℤ → Text) → ℤ → Text
unfolding find entries
name to_string (pos s) = or_unnamed to_string s (find entries s)
name to_string (negsuc s) = to_string (negsuc s)
