-- ===== src/Net/Ip.antt =====
-- The classes IPv4 and IPv6 of net.hpp and net.cpp, by their bytes in memory, and the address literals. The
-- texts of the addresses are in Net/Address/Texts.antt.
pub mod Four
pub mod Six
pub mod Ordered
use rs_io.Base.{Option, if◌then◌else◌, is_nil, none, some}
use rs_io.Text.{Text}
use rs_io.Net.Address.{Calls, Result, ok, SocketAddress, null_address}
use rs_io.Net.Address.Texts.{parse_ipv4, parse_ipv6, parse}
use rs_io.Net.Ip.Four
use rs_io.Net.Ip.Six

module _ (C : Calls) where
  -- operator""_ip4, operator""_ip6 and operator""_sa of a text, which is `none` for the null pointer.
  unfoldable pub ip4 : Option Text → Result Text
  ip4 none = ok Four.any
  ip4 (some s) = if is_nil s then ok Four.any else parse_ipv4 C s

  unfoldable pub ip6 : Option Text → Result Text
  ip6 none = ok Six.any
  ip6 (some s) = if is_nil s then ok Six.any else parse_ipv6 C s

  unfoldable pub sa : Option Text → Result SocketAddress
  sa none = ok null_address
  sa (some s) = if is_nil s then ok null_address else parse C s
