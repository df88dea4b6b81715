-- ===== src/FilePath/Compare.antt =====
-- The comparison objects of Path in path.cpp, its operators, and the text of a form. A path is its name.
-- AsciiIcaseEqual and AsciiIcaseLess are parameters.
use rs_io.Base.{Bool, [], false, if◌then◌else◌, ltb, true, ◌∷◌}
use rs_io.Text.{Text, text_eq}
use rs_io.FilePath.Names.{Form, empty, absolute, relative, drive_absolute, drive_relative}

-- `<` of std::string.
unfoldable pub text_less : Text → Text → Bool
text_less [] [] = false
text_less [] (y ∷ t) = true
text_less (x ∷ s) [] = false
text_less (x ∷ s) (y ∷ t) =
    let rest = text_less s t in if ltb x y then true else if ltb y x then false else rest

-- `icase` is the mode cmp::icase.
unfoldable pub equal : (Text → Text → Bool) → Bool → Text → Text → Bool
equal icase_equal icase lhs rhs = if icase then icase_equal lhs rhs else text_eq lhs rhs

unfoldable pub less : (Text → Text → Bool) → Bool → Text → Text → Bool
unfolding text_less
less icase_less icase lhs rhs = if icase then icase_less lhs rhs else text_less lhs rhs

-- `out << f`.
unfoldable pub form_text : Form → Text
form_text empty = b'e' ∷ b'm' ∷ b'p' ∷ b't' ∷ b'y' ∷ []
form_text absolute = b'a' ∷ b'b' ∷ b's' ∷ b'o' ∷ b'l' ∷ b'u' ∷ b't' ∷ b'e' ∷ []
form_text relative = b'r' ∷ b'e' ∷ b'l' ∷ b'a' ∷ b't' ∷ b'i' ∷ b'v' ∷ b'e' ∷ []
form_text drive_absolute =
    b'd' ∷ b'r' ∷ b'i' ∷ b'v' ∷ b'e' ∷ b'_' ∷ b'a' ∷ b'b' ∷ b's' ∷ b'o' ∷ b'l' ∷ b'u' ∷ b't' ∷ b'e'
    ∷ []
form_text drive_relative =
    b'd' ∷ b'r' ∷ b'i' ∷ b'v' ∷ b'e' ∷ b'_' ∷ b'r' ∷ b'e' ∷ b'l' ∷ b'a' ∷ b't' ∷ b'i' ∷ b'v' ∷ b'e'
    ∷ []
