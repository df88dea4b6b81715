-- ===== src/Net/Ip/Four.antt =====
-- The class IPv4: four bytes, the high one first.
use rs_io.Base.{Bool, Option, [], if◌then◌else◌, leb, ltb, none, not, replicate, some, ℕ, ◌==◌, ◌∷◌}
use rs_io.Text.{Text, char_at}
use rs_io.Net.Address.{be32, ntohl}

-- The bytes that `from_sin` copies, if the pointer is not null, over those of `ip`.
abbrev pub copied : Text → Option Text → Text
copied ip none = ip
copied ip (some s) = s

-- `any()` and the default constructor
unfoldable pub any : Text
any = replicate 4 0

-- The constructor from a number of 32 bits, by htonl.
unfoldable pub of_value : ℕ → Text
of_value addr = be32 addr

-- The constructor from four bytes.
unfoldable pub of_bytes : ℕ → ℕ → ℕ → ℕ → Text
of_bytes a b c d = a ∷ b ∷ c ∷ d ∷ []

unfoldable pub broadcast : Text
unfolding of_value
broadcast = of_value 4294967295

unfoldable pub localhost : Text
unfolding of_value
localhost = of_value 2130706433

unfoldable pub from_sin : Option Text → Text
unfolding any
from_sin p = copied any p

-- `ip[i]`
unfoldable pub at : Text → ℕ → ℕ
at ip i = if ltb i 4 then char_at ip i else 0

-- `value()`, by ntohl.
unfoldable pub value : Text → ℕ
value ip = ntohl ip 0

-- `hash()` is std::hash of the value, a parameter.
unfoldable pub hash : (ℕ → ℕ) → Text → ℕ
unfolding value
hash std_hash ip = std_hash (value ip)

-- The operators ==, !=, <, >, <= and >=.
unfoldable pub equal : Text → Text → Bool
unfolding value
equal a b = value a == value b

unfoldable pub not_equal : Text → Text → Bool
unfolding value
not_equal a b = not (value a == value b)

unfoldable pub less_than : Text → Text → Bool
unfolding value
less_than a b = ltb (value a) (value b)

unfoldable pub greater_than : Text → Text → Bool
unfolding value
greater_than a b = ltb (value b) (value a)

unfoldable pub at_most : Text → Text → Bool
unfolding value
at_most a b = leb (value a) (value b)

unfoldable pub at_least : Text → Text → Bool
unfolding value
at_least a b = leb (value b) (value a)
