-- ===== src/Uri/Parts.antt =====
-- The abstract view of a URI: one text for each component, with its delimiters. `build` is the
-- concrete value that stands for it.
use rs_io.Base.{[], length, ℕ, ◌++◌, ◌+◌, ◌<◌, ◌∷◌, ◌≡◌, ◌≢◌}
use rs_io.Text.{Text}
use rs_io.Uri.Defs.{Uri}

pub record Parts : Type 0 where
  pub scheme : Text
  pub user : Text
  pub password : Text
  pub host : Text
  pub port : Text
  pub path : Text
  pub query : Text
  pub fragment : Text

unfoldable pub build : Parts → Uri
build p = record {
  text =
      p.scheme
      ++ (p.user ++ (p.password ++ (p.host ++ (p.port ++ (p.path ++ (p.query ++ p.fragment))))));
  ofs_user = length p.scheme;
  ofs_password = length p.scheme + length p.user;
  ofs_host = length p.scheme + length p.user + length p.password;
  ofs_port = length p.scheme + length p.user + length p.password + length p.host;
  ofs_path = length p.scheme + length p.user + length p.password + length p.host + length p.port;
  ofs_query =
      length p.scheme
      + length p.user
      + length p.password
      + length p.host
      + length p.port
      + length p.path;
  ofs_fragment =
      length p.scheme
      + length p.user
      + length p.password
      + length p.host
      + length p.port
      + length p.path
      + length p.query;
}

-- `t` is empty or begins with the character `c`.
abbrev pub Begins : ℕ → Text → Type 0
Begins c [] = Unit {0}
Begins c (x ∷ t) = x ≡ c

-- What every URI of the class satisfies, but for `clear_host`: a scheme is there, the components
-- begin with their delimiters, a password field is there exactly if a user is, and a user or a port
-- only with a host.
pub record IsWellFormed (p : Parts) : Type 0 where
  pub named : 0 < length p.scheme
  pub no_password : p.user ≡ [] → p.password ≡ []
  pub password_field : p.user ≢ [] → 0 < length p.password
  pub user_host : p.host ≡ [] → p.user ≡ []
  pub port_host : p.host ≡ [] → p.port ≡ []
  pub port_mark : Begins b':' p.port
  pub path_mark : Begins b'/' p.path
  pub query_mark : Begins b'?' p.query
  pub fragment_mark : Begins b'#' p.fragment
