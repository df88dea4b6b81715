-- ===== src/Uri/Related.antt =====
-- The related URIs of uri.cpp: doc, base, parent and root, and the two halves of the path.
use rs_io.Base.{
  [], if◌then◌else◌, leb, length, ltb, not, suc, take, zero, ℕ, ◌&&◌, ◌++◌, ◌+◌, ◌-◌, ◌==◌, ◌∷◌,
}
use rs_io.Text.{Text, substr, char_at}
use rs_io.Uri.Defs.{Uri, Format, empty_value}
use rs_io.Uri.Encode.{decode}

-- `u.clear()`
pub clear : Uri → Uri
clear u = empty_value

unfoldable pub doc : Uri → Uri
doc u = record u { text = take u.ofs_fragment u.text }

unfoldable pub base : Uri → Uri
base u = record u { text = take u.ofs_query u.text; ofs_fragment = u.ofs_query }

-- `while (p > lo && text[p] != '/') --p;`
unfoldable pub back_to_slash : Text → ℕ → ℕ → ℕ
back_to_slash text lo zero = zero
back_to_slash text lo (suc p) =
    let rest = back_to_slash text lo p in
    if ltb lo (suc p) && not (char_at text (suc p) == b'/') then rest else suc p

-- The position at which `parent` cuts the text of `base()`.
unfoldable pub parent_cut : Uri → ℕ
parent_cut u =
    let last = u.ofs_query - 1 in
    let start = if char_at u.text last == b'/' then last - 1 else last in
    let found = back_to_slash u.text u.ofs_path start in
    if char_at u.text found == b'/' then found + 1 else found

unfoldable pub parent : Uri → Uri
parent u =
    let b = base u in
    let cut = parent_cut b in
    if ltb 1 (b.ofs_query - b.ofs_path)
    then record b { text = take cut b.text; ofs_query = cut; ofs_fragment = cut }
    else b

unfoldable pub root : Uri → Uri
root u =
    let cut = take u.ofs_path u.text in
    let text = if ltb u.ofs_path u.ofs_query then cut ++ b'/' ∷ [] else cut in
    record u {
      text = text;
      ofs_path = length cut;
      ofs_query = length text;
      ofs_fragment = length text;
    }

-- `i + 1` for the `i` of the loop in `find_path_cut`, which may stop one in front of the path.
unfoldable pub cut_loop : Text → ℕ → ℕ → ℕ
cut_loop text lo zero = zero
cut_loop text lo (suc i) =
    let rest = cut_loop text lo i in
    if leb lo i && not (char_at text i == b'/') then rest else suc i

unfoldable pub find_path_cut : Uri → ℕ
unfolding cut_loop
find_path_cut u = cut_loop u.text u.ofs_path u.ofs_query

module _ (F : Format) where
  unfoldable pub path_dir : Uri → Text
  path_dir u = let cut = find_path_cut u in decode F (substr u.text u.ofs_path (cut - u.ofs_path))

  unfoldable pub path_leaf : Uri → Text
  path_leaf u = let cut = find_path_cut u in decode F (substr u.text cut (u.ofs_query - cut))
