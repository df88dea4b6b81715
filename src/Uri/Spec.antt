-- ===== src/Uri/Spec.antt =====
-- The edits of a URI on the abstract view, as the code does them. They are those of docs/uri.md but for two
-- points: an empty query or fragment clears the component, and the query is not escaped.
use rs_io.Base.{Bool, [], false, if◌then◌else◌, is_nil, length, ltb, not, ℕ, ◌++◌, ◌==◌, ◌||◌, ◌∷◌}
use rs_io.Text.{Text, char_at}
use rs_io.Text.Decimal.{to_string}
use rs_io.Uri.Defs.{Uri, Format, invalid_path, no_host, no_user, Result, ok, err}
use rs_io.Uri.Encode.{encode}
use rs_io.Uri.Edit.{
  has_double_slash, path_exempt, rooted, set_user, set_password, set_host, set_port, set_path,
  set_query, set_fragment, append_path,
}
use rs_io.Uri.Parts.{Parts}

-- The calls that change one component, but for `set_scheme`, which Uri/Changes.antt adds.
pub data Edit : Type 0 where
  user password host path query fragment append : Text → Edit
  port : ℕ → Edit

abbrev pub without_user : Parts → Parts
without_user p = record p { user = []; password = [] }

-- An empty password field keeps its "@".
abbrev pub without_password : Parts → Parts
without_password p = if ltb 1 (length p.password) then record p { password = b'@' ∷ [] } else p

-- A path "/" stays.
abbrev pub without_path : Parts → Parts
without_path p = if ltb 1 (length p.path) then record p { path = [] } else p

abbrev pub with_user : Parts → Text → Parts
with_user p t =
    if is_nil p.user then record p { user = t; password = b'@' ∷ [] } else record p { user = t }

-- The last character is a slash.
abbrev pub ends_slash : Text → Bool
ends_slash [] = false
ends_slash (c ∷ []) = c == b'/'
ends_slash (c ∷ d ∷ s) = ends_slash (d ∷ s)

module _ (F : Format) where
  abbrev pub set_path_spec : Text → Parts → Result Parts
  set_path_spec t p =
      if is_nil t
      then ok (without_path p)
      else if has_double_slash t
      then err invalid_path
      else ok (record p { path = rooted (encode F t path_exempt) })

  abbrev pub spec : Edit → Parts → Result Parts
  spec (user t) p =
      if is_nil t
      then ok (without_user p)
      else if is_nil p.host
      then err no_host
      else ok (with_user p (encode F t []))
  spec (password t) p =
      if is_nil t
      then ok (without_password p)
      else if is_nil p.user
      then err no_user
      else ok (record p { password = b':' ∷ (encode F t [] ++ b'@' ∷ []) })
  spec (host t) p = ok (record p { host = encode F t [] })
  spec (port n) p =
      if n == 0
      then ok (record p { port = [] })
      else if is_nil p.host
      then err no_host
      else ok (record p { port = b':' ∷ to_string n })
  spec (path t) p = set_path_spec t p
  spec (query t) p = ok (record p { query = if is_nil t then [] else b'?' ∷ t })
  spec (fragment t) p = ok (record p { fragment = if is_nil t then [] else b'#' ∷ encode F t [] })
  spec (append t) p =
      if is_nil t
      then ok p
      else if char_at t 0 == b'/' || not (ltb 1 (length p.path))
      then set_path_spec t p
      else if has_double_slash t
      then err invalid_path
      else let tail = encode F t path_exempt in
        ok (record p { path = p.path ++ (if ends_slash p.path then tail else b'/' ∷ tail) })

  -- The member functions, by the same names.
  unfoldable pub apply : Edit → Uri → Result Uri
  apply (user t) u = set_user F u t
  apply (password t) u = set_password F u t
  apply (host t) u = set_host F u t
  apply (port n) u = set_port u n
  apply (path t) u = set_path F u t
  apply (query t) u = set_query u t
  apply (fragment t) u = set_fragment F u t
  apply (append t) u = append_path F u t
