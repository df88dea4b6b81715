-- ===== src/Tests/Names.antt =====
-- The theorems on path names at concrete names.
use rs_io.FilePath.Canonical.{leading}
use rs_io.FilePath.Names.Split.{NoSlashes, intercalate, os_breakdown-join}
use rs_io.FilePath.Names.{get_root, os_breakdown}
use rs_io.Text.{Text}
use rs_io.Base.{List, [], if◌then◌else◌, is_nil, refl, ◌++◌, ◌∷◌, ◌≡◌}

-- "/a/b.c"
abbrev name : Text
name = b'/' ∷ b'a' ∷ b'/' ∷ b'b' ∷ b'.' ∷ b'c' ∷ []

os_breakdown-join_example :
    (ps : List Text) × (os_breakdown name
      ≡ (if is_nil (get_root name) then ps else get_root name ∷ ps))
    × NoSlashes ps
    × (get_root name ++ intercalate ps ≡ name)
unfolding get_root leading
os_breakdown-join_example = os_breakdown-join name refl
