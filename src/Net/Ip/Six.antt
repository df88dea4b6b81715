-- ===== src/Net/Ip/Six.antt =====
-- The class IPv6: sixteen bytes in the order of the text.
use rs_io.Base.{Bool, Option, [], false, if◌then◌else◌, ltb, not, replicate, true, ℕ, ◌++◌, ◌∷◌}
use rs_io.Text.{Text, char_at}
use rs_io.Net.Order.{Sign, less, same, greater, memcmp}
use rs_io.Net.Hashing.{bernstein_hash}
use rs_io.Net.Ip.Four.{copied}

-- `any()` and the default constructor
unfoldable pub any : Text
any = replicate 16 0

unfoldable pub localhost : Text
localhost = replicate 15 0 ++ 1 ∷ []

unfoldable pub from_sin : Option Text → Text
unfolding any
from_sin p = copied any p

-- `ip[i]`
unfoldable pub at : Text → ℕ → ℕ
at ip i = if ltb i 16 then char_at ip i else 0

unfoldable pub hash : Text → ℕ
unfolding bernstein_hash
hash ip = bernstein_hash ip

abbrev pub is_same : Sign → Bool
is_same less = false
is_same same = true
is_same greater = false

abbrev pub is_less : Sign → Bool
is_less less = true
is_less same = false
is_less greater = false

-- The operators ==, !=, <, >, <= and >=.
unfoldable pub equal : Text → Text → Bool
unfolding memcmp
equal a b = is_same (memcmp 16 a b)

unfoldable pub not_equal : Text → Text → Bool
unfolding equal
not_equal a b = not (equal a b)

unfoldable pub less_than : Text → Text → Bool
unfolding memcmp
less_than a b = is_less (memcmp 16 a b)

unfoldable pub greater_than : Text → Text → Bool
unfolding less_than
greater_than a b = less_than b a

unfoldable pub at_most : Text → Text → Bool
unfolding less_than
at_most a b = not (less_than b a)

unfoldable pub at_least : Text → Text → Bool
unfolding less_than
at_least a b = not (less_than a b)
