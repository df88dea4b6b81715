-- ===== src/Uri/Defs.antt =====
-- The class Uri: its fields, the presence tests of uri.hpp, and the functions of rs-format and of
-- the regex library that the class calls, which are parameters of what uses them.
use rs_io.Base.{Bool, [], false, is_nil, length, ltb, not, true, ℕ, ◌&&◌, ◌-◌, ◌<◌, ◌==◌, ◌∷◌, ◌≡◌}
use rs_io.Text.{Text, char_at}

-- The offsets point into `text`; each is where the component of its name starts.
pub record Uri : Type 0 where
  pub text : Text
  pub ofs_user : ℕ
  pub ofs_password : ℕ
  pub ofs_host : ℕ
  pub ofs_port : ℕ
  pub ofs_path : ℕ
  pub ofs_query : ℕ
  pub ofs_fragment : ℕ

-- The reasons for which the class throws std::invalid_argument.
pub data Error : Type 0 where
  invalid_uri invalid_scheme invalid_path empty_uri no_host no_user : Error

pub data Result (A : Type 0) : Type 0 where
  ok : A → Result A
  err : Error → Result A

infixl 5 ◌>>=◌
abbrev pub ◌>>=◌ : {A B : Type 0} → Result A → (A → Result B) → Result B
ok a >>= f = f a
err e >>= f = err e

abbrev pub map_result : {A B : Type 0} → (A → B) → Result A → Result B
map_result f (ok a) = ok (f a)
map_result f (err e) = err e

-- From rs-format: `ascii_isalnum_w`, `ascii_isxdigit`, `hex` and `to_uint8` in base 16.
pub record Format : Type 0 where
  pub isalnum_w : ℕ → Bool
  pub isxdigit : ℕ → Bool
  pub hex : ℕ → Text
  pub to_uint8 : ℕ → ℕ → ℕ

-- What the class relies on: a byte is printed as two hexadecimal digits, which read back.
pub record FormatLaws (F : Format) : Type 0 where
  pub percent : F.isalnum_w b'%' ≡ false
  pub high : ℕ → ℕ
  pub low : ℕ → ℕ
  pub hex_pair : (b : ℕ) → b < 256 → F.hex b ≡ high b ∷ low b ∷ []
  pub high-isxdigit : (b : ℕ) → b < 256 → F.isxdigit (high b) ≡ true
  pub low-isxdigit : (b : ℕ) → b < 256 → F.isxdigit (low b) ≡ true
  pub to_uint8-hex : (b : ℕ) → b < 256 → F.to_uint8 (high b) (low b) ≡ b

unfoldable pub empty_value : Uri
empty_value = record {
  text = [];
  ofs_user = 0;
  ofs_password = 0;
  ofs_host = 0;
  ofs_port = 0;
  ofs_path = 0;
  ofs_query = 0;
  ofs_fragment = 0;
}

unfoldable pub empty : Uri → Bool
empty u = is_nil u.text

unfoldable pub has_slashes : Uri → Bool
unfolding empty
has_slashes u = not (empty u) && char_at u.text (u.ofs_user - 1) == b'/'

unfoldable pub has_user : Uri → Bool
unfolding empty
has_user u = not (empty u) && ltb u.ofs_user u.ofs_password

unfoldable pub has_password : Uri → Bool
unfolding empty
has_password u = not (empty u) && ltb 1 (u.ofs_host - u.ofs_password)

unfoldable pub has_host : Uri → Bool
unfolding empty
has_host u = not (empty u) && ltb u.ofs_host u.ofs_port

unfoldable pub has_port : Uri → Bool
unfolding empty
has_port u = not (empty u) && ltb u.ofs_port u.ofs_path

unfoldable pub has_path : Uri → Bool
unfolding empty
has_path u = not (empty u) && ltb 1 (u.ofs_query - u.ofs_path)

unfoldable pub has_query : Uri → Bool
unfolding empty
has_query u = not (empty u) && ltb u.ofs_query u.ofs_fragment

unfoldable pub has_fragment : Uri → Bool
unfolding empty
has_fragment u = not (empty u) && ltb u.ofs_fragment (length u.text)

unfoldable pub is_root : Uri → Bool
unfolding empty has_path has_query has_fragment
is_root u = not (empty u) && not (has_path u) && not (has_query u) && not (has_fragment u)
