-- ===== src/Uri/Parse.antt =====
-- try_parse, set_scheme and the two constructors of uri.cpp. The regular expressions are matched
-- by a library, whose answers are parameters: the captured groups of the URI's pattern, and which
-- groups of the scheme's pattern took part.
use rs_io.Base.{
  Bool, Option, [], false, if◌then◌else◌, length, none, not, some, true, ℕ, ◌&&◌, ◌++◌, ◌+◌, ◌||◌,
  ◌∷◌,
}
use rs_io.Text.{Text, replace, text_eq}
use rs_io.Uri.Defs.{Uri, Format, Result, ok, err, invalid_uri, invalid_scheme, empty_value, ◌>>=◌}
use rs_io.Uri.Edit.{
  moved, set_user, set_password, set_host, set_port, set_path, set_query, set_fragment,
}

-- The groups 1 to 8 of the pattern in `try_parse`; a group that took no part is empty.
pub record Groups : Type 0 where
  pub scheme : Text
  pub user : Text
  pub password : Text
  pub host : Text
  pub port : Text
  pub path : Text
  pub query : Text
  pub fragment : Text

pub record Patterns : Type 0 where
  -- `ascii_iscntrl`
  pub iscntrl : ℕ → Bool
  -- `ascii_lowercase`
  pub lowercase : Text → Text
  -- the pattern in `try_parse`
  pub match_uri : Text → Option Groups
  -- the pattern in `set_scheme`: `matched(1)` and `matched(2)`
  pub match_scheme : Text → Option (Bool × Bool)

abbrev pub any : (ℕ → Bool) → Text → Bool
any f [] = false
any f (c ∷ s) = f c || any f s

-- The offsets are running sums of the groups' lengths.
unfoldable pub offsets : Text → Groups → Uri
offsets s g =
    let user = length g.scheme in
    let password = user + length g.user in
    let host = password + length g.password in
    let port = host + length g.host in
    let path = port + length g.port in
    let query = path + length g.path in
    record {
      text = s;
      ofs_user = user;
      ofs_password = password;
      ofs_host = host;
      ofs_port = port;
      ofs_path = path;
      ofs_query = query;
      ofs_fragment = query + length g.query;
    }

-- "mailto:"
abbrev pub mailto : Text
mailto = b'm' ∷ b'a' ∷ b'i' ∷ b'l' ∷ b't' ∷ b'o' ∷ b':' ∷ []

-- What `set_scheme` appends to the scheme, by the groups that matched.
unfoldable pub scheme_text : Text → Bool → Bool × Bool → Text
scheme_text s smart (colon, slashes) =
    let named : Text = if colon then s else s ++ b':' ∷ [] in
    if smart && (not slashes && not (text_eq named mailto))
    then named ++ b'/' ∷ b'/' ∷ []
    else named

unfoldable pub put_scheme : Uri → Text → Uri
put_scheme u t =
    let n = length t in
    let old = u.ofs_user in
    record {
      text = replace u.text 0 old t;
      ofs_user = moved u.ofs_user n old;
      ofs_password = moved u.ofs_password n old;
      ofs_host = moved u.ofs_host n old;
      ofs_port = moved u.ofs_port n old;
      ofs_path = moved u.ofs_path n old;
      ofs_query = moved u.ofs_query n old;
      ofs_fragment = moved u.ofs_fragment n old;
    }

module _ (R : Patterns) where
  -- The value left behind and whether the text was accepted.
  unfoldable pub try_parse : Uri → Text → Uri × Bool
  try_parse u s =
      if any R.iscntrl s
      then (u, false)
      else elim (R.match_uri s) [ none ↦ (u, false) | some g ↦ (offsets s g, true) ]

  -- `Uri(s)`
  unfoldable pub parse : Text → Result Uri
  unfolding try_parse
  parse s = let (u, done) = try_parse empty_value s in if done then ok u else err invalid_uri

  unfoldable pub set_scheme : Uri → Text → Bool → Result Uri
  unfolding scheme_text put_scheme
  set_scheme u new_scheme smart =
      let s = R.lowercase new_scheme in
      elim (R.match_scheme s) [
        | none ↦ err invalid_scheme
        | some m ↦ ok (put_scheme u (scheme_text s smart m))
      ]

  -- `Uri(scheme, user, password, host, port, path, query, fragment)`
  unfoldable pub assemble : Format → Text → Text → Text → Text → ℕ → Text → Text → Text → Result Uri
  unfolding set_scheme
  assemble F scheme user password host port path query fragment = do
    a ← set_scheme empty_value scheme true
    b ← set_host F a host
    c ← set_user F b user
    d ← set_password F c password
    e ← set_port d port
    f ← set_path F e path
    g ← set_query f query
    set_fragment F g fragment
