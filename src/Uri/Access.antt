-- ===== src/Uri/Access.antt =====
-- The accessors of uri.hpp.
use rs_io.Base.{[], drop, if◌then◌else◌, min, ℕ, ◌%◌, ◌+◌, ◌-◌, ◌^◌}
use rs_io.Text.{Text, substr}
use rs_io.Text.Decimal.{read_digits}
use rs_io.Uri.Defs.{
  Uri, Format, empty, has_slashes, has_password, has_port, has_query, has_fragment,
}
use rs_io.Uri.Encode.{decode}

-- `unsigned long` of the platform, to which `strtoul` saturates.
abbrev ulong_max : ℕ
ulong_max = 2 ^ 64 - 1

module _ (F : Format) where
  unfoldable pub user : Uri → Text
  user u = decode F (substr u.text u.ofs_user (u.ofs_password - u.ofs_user))

  unfoldable pub password : Uri → Text
  password u =
      if has_password u
      then decode F (substr u.text (u.ofs_password + 1) (u.ofs_host - u.ofs_password - 2))
      else []

  unfoldable pub host : Uri → Text
  host u = decode F (substr u.text u.ofs_host (u.ofs_port - u.ofs_host))

  unfoldable pub path : Uri → Text
  path u = decode F (substr u.text u.ofs_path (u.ofs_query - u.ofs_path))

  unfoldable pub query : Uri → Text
  query u =
      if has_query u
      then decode F (substr u.text (u.ofs_query + 1) (u.ofs_fragment - u.ofs_query - 1))
      else []

  unfoldable pub fragment : Uri → Text
  fragment u = if has_fragment u then decode F (drop (u.ofs_fragment + 1) u.text) else []

-- `uint16_t(strtoul(...))` of what follows the colon.
unfoldable pub port : Uri → ℕ
port u =
    if has_port u then min (read_digits 0 (drop (u.ofs_port + 1) u.text)) ulong_max % 2 ^ 16 else 0

-- `lowercase` is `ascii_lowercase` of rs-format.
unfoldable pub scheme : (Text → Text) → Uri → Text
scheme lowercase u =
    if empty u
    then []
    else lowercase (substr u.text 0 (u.ofs_user - (if has_slashes u then 3 else 1)))
