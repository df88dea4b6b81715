-- ===== src/Uri/Edit.antt =====
-- The functions of uri.cpp that change one component of a URI. Each replaces a segment of the text
-- and moves the offsets behind it. `ofs += int(n) - int(k)` is `moved ofs n k`: the sources use
-- signed offsets, and `k` is the length of a segment in front of `ofs`, so nothing falls below 0.
use rs_io.Base.{
  Bool, [], false, if◌then◌else◌, is_nil, length, not, take, ℕ, ◌&&◌, ◌++◌, ◌+◌, ◌-◌, ◌==◌, ◌||◌,
  ◌∷◌,
}
use rs_io.Text.{Text, replace, char_at}
use rs_io.Text.Decimal.{to_string}
use rs_io.Uri.Defs.{
  Uri, Format, invalid_path, empty_uri, no_host, no_user, Result, ok, err, empty, has_user,
  has_password, has_host, has_port, has_path, has_query, has_fragment,
}
use rs_io.Uri.Encode.{encode}

abbrev pub moved : ℕ → ℕ → ℕ → ℕ
moved ofs n k = ofs + n - k

unfoldable pub clear_user : Uri → Uri
clear_user u =
    let delta = u.ofs_host - u.ofs_user in
    if has_user u
    then record u {
      text = replace u.text u.ofs_user delta [];
      ofs_password = u.ofs_user;
      ofs_host = u.ofs_user;
      ofs_port = u.ofs_port - delta;
      ofs_path = u.ofs_path - delta;
      ofs_query = u.ofs_query - delta;
      ofs_fragment = u.ofs_fragment - delta;
    }
    else u

unfoldable pub clear_password : Uri → Uri
clear_password u =
    let delta = u.ofs_host - u.ofs_password - 1 in
    if has_password u
    then record u {
      text = replace u.text u.ofs_password (u.ofs_host - u.ofs_password) (b'@' ∷ []);
      ofs_host = u.ofs_host - delta;
      ofs_port = u.ofs_port - delta;
      ofs_path = u.ofs_path - delta;
      ofs_query = u.ofs_query - delta;
      ofs_fragment = u.ofs_fragment - delta;
    }
    else u

unfoldable pub clear_host : Uri → Uri
clear_host u =
    let delta = u.ofs_port - u.ofs_host in
    if has_host u
    then record u {
      text = replace u.text u.ofs_host delta [];
      ofs_port = u.ofs_port - delta;
      ofs_path = u.ofs_path - delta;
      ofs_query = u.ofs_query - delta;
      ofs_fragment = u.ofs_fragment - delta;
    }
    else u

unfoldable pub clear_port : Uri → Uri
clear_port u =
    let delta = u.ofs_path - u.ofs_port in
    if has_port u
    then record u {
      text = replace u.text u.ofs_port delta [];
      ofs_path = u.ofs_path - delta;
      ofs_query = u.ofs_query - delta;
      ofs_fragment = u.ofs_fragment - delta;
    }
    else u

unfoldable pub clear_path : Uri → Uri
clear_path u =
    let delta = u.ofs_query - u.ofs_path in
    if has_path u
    then record u {
      text = replace u.text u.ofs_path delta [];
      ofs_query = u.ofs_query - delta;
      ofs_fragment = u.ofs_fragment - delta;
    }
    else u

unfoldable pub clear_query : Uri → Uri
clear_query u =
    if has_query u
    then record u {
      text = replace u.text u.ofs_query (u.ofs_fragment - u.ofs_query) [];
      ofs_fragment = u.ofs_query;
    }
    else u

unfoldable pub clear_fragment : Uri → Uri
clear_fragment u = if has_fragment u then record u { text = take u.ofs_fragment u.text } else u

-- `new_path.find("//") != npos`
abbrev pub has_double_slash : Text → Bool
has_double_slash [] = false
has_double_slash (c ∷ []) = false
has_double_slash (c ∷ d ∷ s) = c == b'/' && d == b'/' || has_double_slash (d ∷ s)

-- The characters that `encode` leaves alone in a path, ":/".
abbrev pub path_exempt : Text
path_exempt = b':' ∷ b'/' ∷ []

-- `if (path_text[0] != '/') path_text.insert(0, 1, '/')`
unfoldable pub rooted : Text → Text
rooted [] = []
rooted (c ∷ s) = if c == b'/' then c ∷ s else b'/' ∷ c ∷ s

-- The two branches of `set_user`, with the encoded text.
unfoldable pub put_user : Uri → Text → Uri
put_user u t =
    let old = u.ofs_password - u.ofs_user in
    if has_user u
    then record u {
      text = replace u.text u.ofs_user old t;
      ofs_password = moved u.ofs_password (length t) old;
      ofs_host = moved u.ofs_host (length t) old;
      ofs_port = moved u.ofs_port (length t) old;
      ofs_path = moved u.ofs_path (length t) old;
      ofs_query = moved u.ofs_query (length t) old;
      ofs_fragment = moved u.ofs_fragment (length t) old;
    }
    else record u {
      text = replace u.text u.ofs_user old (t ++ b'@' ∷ []);
      ofs_password = moved u.ofs_host (length t + 1) old - 1;
      ofs_host = moved u.ofs_host (length t + 1) old;
      ofs_port = moved u.ofs_port (length t + 1) old;
      ofs_path = moved u.ofs_path (length t + 1) old;
      ofs_query = moved u.ofs_query (length t + 1) old;
      ofs_fragment = moved u.ofs_fragment (length t + 1) old;
    }

unfoldable pub put_password : Uri → Text → Uri
put_password u t =
    let old = u.ofs_host - u.ofs_password in
    record u {
      text = replace u.text u.ofs_password old t;
      ofs_host = moved u.ofs_host (length t) old;
      ofs_port = moved u.ofs_port (length t) old;
      ofs_path = moved u.ofs_path (length t) old;
      ofs_query = moved u.ofs_query (length t) old;
      ofs_fragment = moved u.ofs_fragment (length t) old;
    }

unfoldable pub put_host : Uri → Text → Uri
put_host u t =
    let old = u.ofs_port - u.ofs_host in
    record u {
      text = replace u.text u.ofs_host old t;
      ofs_port = moved u.ofs_port (length t) old;
      ofs_path = moved u.ofs_path (length t) old;
      ofs_query = moved u.ofs_query (length t) old;
      ofs_fragment = moved u.ofs_fragment (length t) old;
    }

unfoldable pub put_port : Uri → Text → Uri
put_port u t =
    let old = u.ofs_path - u.ofs_port in
    record u {
      text = replace u.text u.ofs_port old t;
      ofs_path = moved u.ofs_path (length t) old;
      ofs_query = moved u.ofs_query (length t) old;
      ofs_fragment = moved u.ofs_fragment (length t) old;
    }

unfoldable pub put_path : Uri → Text → Uri
put_path u t =
    let old = u.ofs_query - u.ofs_path in
    record u {
      text = replace u.text u.ofs_path old t;
      ofs_query = moved u.ofs_query (length t) old;
      ofs_fragment = moved u.ofs_fragment (length t) old;
    }

unfoldable pub put_query : Uri → Text → Uri
put_query u t =
    let old = u.ofs_fragment - u.ofs_query in
    record u {
      text = replace u.text u.ofs_query old (b'?' ∷ t);
      ofs_fragment = moved u.ofs_fragment (length t + 1) old;
    }

unfoldable pub put_fragment : Uri → Text → Uri
put_fragment u t = record u { text = take u.ofs_fragment u.text ++ b'#' ∷ t }

-- `append_path` inserts at the end of the path.
unfoldable pub put_suffix : Uri → Text → Uri
put_suffix u t =
    let slash : Text = if char_at u.text (u.ofs_query - 1) == b'/' then t else b'/' ∷ t in
    record u {
      text = replace u.text u.ofs_query 0 slash;
      ofs_query = u.ofs_query + length slash;
      ofs_fragment = u.ofs_fragment + length slash;
    }

-- `check_nonempty`, the call that each of the setters begins with.
abbrev pub check_nonempty : Uri → Result Uri → Result Uri
check_nonempty u rest = if empty u then err empty_uri else rest

module _ (F : Format) where
  unfoldable pub set_user : Uri → Text → Result Uri
  set_user u new_user = check_nonempty u (
      if is_nil new_user
      then ok (clear_user u)
      else if not (has_host u)
      then err no_host
      else ok (put_user u (encode F new_user [])))

  unfoldable pub set_password : Uri → Text → Result Uri
  set_password u new_password = check_nonempty u (
      if is_nil new_password
      then ok (clear_password u)
      else if not (has_user u)
      then err no_user
      else ok (put_password u (b':' ∷ (encode F new_password [] ++ b'@' ∷ []))))

  unfoldable pub set_host : Uri → Text → Result Uri
  set_host u new_host =
      check_nonempty u
        (if is_nil new_host then ok (clear_host u) else ok (put_host u (encode F new_host [])))

  unfoldable pub set_path : Uri → Text → Result Uri
  set_path u new_path = check_nonempty u (
      if is_nil new_path
      then ok (clear_path u)
      else if has_double_slash new_path
      then err invalid_path
      else ok (put_path u (rooted (encode F new_path path_exempt))))

  unfoldable pub set_fragment : Uri → Text → Result Uri
  set_fragment u new_fragment = check_nonempty u (
      if is_nil new_fragment
      then ok (clear_fragment u)
      else ok (put_fragment u (encode F new_fragment [])))

  unfoldable pub append_path : Uri → Text → Result Uri
  append_path u new_path =
      if is_nil new_path
      then ok u
      else check_nonempty u (
          if char_at new_path 0 == b'/' || not (has_path u)
          then set_path u new_path
          else if has_double_slash new_path
          then err invalid_path
          else ok (put_suffix u (encode F new_path path_exempt)))

unfoldable pub set_port : Uri → ℕ → Result Uri
set_port u new_port = check_nonempty u (
    if new_port == 0
    then ok (clear_port u)
    else if not (has_host u)
    then err no_host
    else ok (put_port u (b':' ∷ to_string new_port)))

-- The query is not encoded.
unfoldable pub set_query : Uri → Text → Result Uri
set_query u new_query =
    check_nonempty u (if is_nil new_query then ok (clear_query u) else ok (put_query u new_query))
