-- ===== src/Net/Address/Texts.antt =====
-- The constructor of SocketAddress from a text, `parse_port`, and the three `str` functions of net.cpp.
pub mod ReadBack
use rs_io.Net.Hex.{hex_bytes}
use rs_io.Text.Decimal.{to_string}
use rs_io.Text.{Text, char_at, contains, substr, find_at}
use rs_io.Net.Address.{
  Calls, Result, equal, of_ipv4, SocketAddress, null_address, of_ipv6, thrown, ◌then_do◌, family,
  invalid_argument, ok, out_of_fuel, ipv4, ipv6, port, native, af_inet, af_inet6,
}
use rs_io.Base.{
  Option, [], drop, if◌then◌else◌, leb, length, ltb, none, not, some, suc, take, zero, ℕ, ◌&&◌,
  ◌++◌, ◌+◌, ◌-◌, ◌==◌, ◌||◌, ◌∷◌,
}

module _ (calls : Calls) where
  open calls use {pton4, pton6, ntop4, ntop6, strtoull}

  abbrev pub accepted : Text → Option Text → Result Text
  accepted s none = thrown (invalid_argument s)
  accepted s (some ip) = ok ip

  -- The constructors of IPv4 and IPv6 from a text.
  unfoldable pub parse_ipv4 : Text → Result Text
  parse_ipv4 s = pton4 s then_do accepted s

  unfoldable pub parse_ipv6 : Text → Result Text
  parse_ipv6 s = pton6 s then_do accepted s

  unfoldable pub parse_port : Text → Result ℕ
  parse_port s =
      let (n, end, failed) = strtoull s in
      if failed || (not (end == length s) || ltb 65535 n) then thrown (invalid_argument s) else ok n

  abbrev pub from_digits : Text → Option ℕ → Result SocketAddress
  from_digits s none = parse_ipv4 s then_do λ ip. ok (of_ipv4 ip 0)
  from_digits s (some colon) =
      if contains b':' (drop (colon + 1) s)
      then (parse_ipv6 s then_do λ ip. ok (of_ipv6 ip 0 0 0))
      else (parse_ipv4 (take colon s) then_do λ ip.
          (parse_port (drop (colon + 1) s) then_do λ port. ok (of_ipv4 ip port)))

  abbrev pub from_bracket : Text → Option ℕ → Result SocketAddress
  from_bracket s none = thrown (invalid_argument s)
  from_bracket s (some close) = parse_ipv6 (substr s 1 (close - 1)) then_do λ ip.
      ((if ltb (close + 2) (length s) then parse_port (drop (close + 2) s) else ok 0)
        then_do λ port. ok (of_ipv6 ip port 0 0))

  -- The constructor from a text.
  unfoldable pub parse : Text → Result SocketAddress
  parse s =
      if leb b'0' (char_at s 0) && leb (char_at s 0) b'9'
      then from_digits s (find_at 0 b':' s)
      else if char_at s 0 == b'['
      then from_bracket s (find_at 0 b']' s)
      else thrown (invalid_argument s)

  -- The loop of `str`, with the buffer that grows by `step` while it is too small.
  abbrev pub str_from : (ℕ → Text → Result (Option Text)) → ℕ → ℕ → ℕ → Text → Result Text
  str_from ntop zero step size ip = thrown out_of_fuel
  str_from ntop (suc f) step size ip =
      let again = str_from ntop f step (size + step) ip in
      ntop size ip then_do λ t. elim t [ some s ↦ ok s | none ↦ again ]

  unfoldable pub ipv4_str : ℕ → Text → Result Text
  ipv4_str f ip = str_from ntop4 f 16 16 ip

  unfoldable pub ipv6_str : ℕ → Text → Result Text
  ipv6_str f ip = str_from ntop6 f 40 40 ip

  unfoldable pub str : ℕ → SocketAddress → Result Text
  str f a =
      if equal a null_address
      then ok (b'n' ∷ b'u' ∷ b'l' ∷ b'l' ∷ [])
      else if family a == af_inet
      then (ipv4_str f (ipv4 a) then_do λ t. ok (t ++ (b':' ∷ to_string (port a))))
      else if family a == af_inet6
      then (ipv6_str f (ipv6 a) then_do λ t. ok (b'[' ∷ t ++ (b']' ∷ b':' ∷ to_string (port a))))
      else ok (hex_bytes (native a))
