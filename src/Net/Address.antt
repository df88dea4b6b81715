-- ===== src/Net/Address.antt =====
-- SocketAddress of net.cpp and net.hpp, and the texts of IPv4 and IPv6 addresses. An address is the memory
-- of the union, of which the first `current_size` bytes count. The layout of sockaddr_in and sockaddr_in6
-- and the family numbers are those of Linux on a little-endian machine; htons and htonl write the high byte
-- first. The calls of inet_pton, inet_ntop and strtoull are the fields of a record.
pub mod Parts
pub mod Texts
use rs_io.Net.Order.{less, same, greater, mem_compare}
use rs_io.Net.Hashing.{bernstein_hash}
use rs_io.Text.{Text, char_at, text_eq, substr}
use rs_io.Base.{
  Bool, Option, [], drop, false, if◌then◌else◌, ltb, min, not, replicate, take, true, ℕ, ◌%◌, ◌*◌,
  ◌++◌, ◌+◌, ◌-◌, ◌/◌, ◌==◌, ◌||◌, ◌∷◌,
}

-- What the functions throw; `out_of_fuel` stands for a loop that goes on beyond the bound.
pub data Thrown : Type 0 where
  invalid_argument : Text → Thrown
  length_error out_of_fuel : Thrown
  system_error : ℕ → Thrown

pub data Result {ℓ} (A : Type ℓ) : Type ℓ where
  ok : A → Result A
  thrown : Thrown → Result A

module _ {ℓ ℓ'} {A : Type ℓ} {B : Type ℓ'} where
  -- What follows a call, if that does not throw.
  infixl 5 ◌then_do◌
  abbrev pub ◌then_do◌ : Result A → (A → Result B) → Result B
  (ok a) then_do k = k a
  (thrown e) then_do k = thrown e

-- The library calls. `pton` is inet_pton on a text: the bytes that it writes, `none` where it returns 0, and
-- a system error where it returns -1. `ntop` is inet_ntop for a buffer of a size, `none` for ENOSPC. `strtoull`
-- gives the number, the position where it stopped, and whether errno was set.
pub record Calls : Type 0 where
  pub pton4 : Text → Result (Option Text)
  pub pton6 : Text → Result (Option Text)
  pub ntop4 : ℕ → Text → Result (Option Text)
  pub ntop6 : ℕ → Text → Result (Option Text)
  pub strtoull : Text → ℕ × ℕ × Bool

-- The bytes of a number, the low one first, and the high one first.
abbrev pub le16 : ℕ → Text
le16 n = n % 256 ∷ n / 256 % 256 ∷ []

abbrev pub be16 : ℕ → Text
be16 n = n / 256 % 256 ∷ n % 256 ∷ []

abbrev pub be32 : ℕ → Text
be32 n = n / 16777216 % 256 ∷ n / 65536 % 256 ∷ n / 256 % 256 ∷ n % 256 ∷ []

-- ntohs and ntohl of the bytes at a position.
abbrev pub ntohs : Text → ℕ → ℕ
ntohs s i = char_at s i * 256 + char_at s (i + 1)

abbrev pub ntohl : Text → ℕ → ℕ
ntohl s i = ntohs s i * 65536 + ntohs s (i + 2)

-- AF_INET, AF_INET6, sizeof(sockaddr) and sizeof(sa_union_type)
abbrev pub af_inet : ℕ
af_inet = 2

abbrev pub af_inet6 : ℕ
af_inet6 = 10

abbrev pub base_size : ℕ
base_size = 16

abbrev pub max_size : ℕ
max_size = 28

-- The class, with the memory of `sa_`.
pub record SocketAddress : Type 0 where
  pub sa : Text
  pub current_size : ℕ

unfoldable pub null_address : SocketAddress
null_address = record { sa = replicate max_size 0; current_size = 0 }

-- The constructor from IPv4: the fields of sockaddr_in in their order, and the zeros behind them.
unfoldable pub of_ipv4 : Text → ℕ → SocketAddress
of_ipv4 ip port = record {
  sa = le16 af_inet ++ (be16 port ++ (ip ++ replicate 20 0));
  current_size = 16;
}

-- The constructor from IPv6: the fields of sockaddr_in6 in their order.
unfoldable pub of_ipv6 : Text → ℕ → ℕ → ℕ → SocketAddress
of_ipv6 ip port flow scope = record {
  sa = le16 af_inet6 ++ (be16 port ++ (be32 flow ++ (ip ++ be32 scope)));
  current_size = 28;
}

-- The constructor from `n` bytes of memory.
unfoldable pub of_memory : Text → ℕ → SocketAddress
of_memory ptr n =
    let size = min n max_size in
    record { sa = take size ptr ++ replicate (max_size - size) 0; current_size = size }

unfoldable pub family : SocketAddress → ℕ
family a = if ltb a.current_size base_size then 0 else char_at a.sa 0 + 256 * char_at a.sa 1

unfoldable pub flow : SocketAddress → ℕ
unfolding family
flow a = if family a == af_inet6 then ntohl a.sa 4 else 0

unfoldable pub ipv4 : SocketAddress → Text
unfolding family
ipv4 a = if family a == af_inet then be32 (ntohl a.sa 4) else replicate 4 0

unfoldable pub ipv6 : SocketAddress → Text
unfolding family
ipv6 a = if family a == af_inet6 then substr a.sa 8 16 else replicate 16 0

unfoldable pub port : SocketAddress → ℕ
unfolding family
port a =
    if family a == af_inet then ntohs a.sa 2 else if family a == af_inet6 then ntohs a.sa 2 else 0

unfoldable pub scope : SocketAddress → ℕ
unfolding family
scope a = if family a == af_inet6 then ntohl a.sa 24 else 0

-- The bytes that count.
unfoldable pub native : SocketAddress → Text
native a = take a.current_size a.sa

unfoldable pub equal : SocketAddress → SocketAddress → Bool
unfolding native mem_compare
equal a b = elim (mem_compare (native a) (native b)) [
  | less ↦ false
  | same ↦ true
  | greater ↦ false
]

unfoldable pub less_than : SocketAddress → SocketAddress → Bool
unfolding native mem_compare
less_than a b = elim (mem_compare (native a) (native b)) [
  | less ↦ true
  | same ↦ false
  | greater ↦ false
]

unfoldable pub hash : SocketAddress → ℕ
unfolding native bernstein_hash
hash a = bernstein_hash (native a)

abbrev any_byte : Text → Bool
any_byte [] = false
any_byte (c ∷ s) = not (c == 0) || any_byte s

-- `operator bool`
unfoldable pub to_bool : SocketAddress → Bool
unfolding family ipv4 ipv6 port native
to_bool a =
    if family a == 0
    then false
    else if family a == af_inet
    then not (text_eq (ipv4 a) (replicate 4 0)) || not (port a == 0)
    else if family a == af_inet6
    then not (text_eq (ipv6 a) (replicate 16 0)) || not (port a == 0)
    else any_byte (drop base_size (native a))

unfoldable pub set_family : ℕ → SocketAddress → SocketAddress
set_family f a = record {
  sa = le16 f ++ drop 2 a.sa;
  current_size = if ltb a.current_size base_size then base_size else a.current_size;
}

unfoldable pub set_size : ℕ → SocketAddress → Result SocketAddress
set_size n a =
    if ltb max_size n then thrown length_error else ok (record { sa = a.sa; current_size = n })
