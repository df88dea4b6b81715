-- ===== src/Net/Dns.antt =====
-- The queries of namespace Dns in net.cpp. getaddrinfo and getnameinfo are parameters, by their answers.
pub mod Distinct
use rs_io.Text.{Text}
use rs_io.Net.Address.{
  SocketAddress, Result, less_than, of_memory, ok, thrown, to_bool, null_address, out_of_fuel,
  system_error,
}
use rs_io.Base.{Bool, List, [], false, if◌then◌else◌, not, suc, zero, ℕ, ◌&&◌, ◌*◌, ◌||◌, ◌∷◌}

-- The answer of getaddrinfo: the addresses of the list, each as memory with its length, or a code; EAI_SYSTEM
-- comes with errno.
pub data Answer : Type 0 where
  found : List (Text × ℕ) → Answer
  eai_again eai_noname : Answer
  eai_system eai_other : ℕ → Answer

-- `set.insert(sa).second` is false: the set has an address that is neither less nor greater.
abbrev pub is_seen : SocketAddress → List SocketAddress → Bool
is_seen a [] = false
is_seen a (b ∷ seen) = (not (less_than a b) && not (less_than b a)) || is_seen a seen

-- The loop of `host_to_ips` over the list, with the set.
unfoldable pub collect : List SocketAddress → List (Text × ℕ) → List SocketAddress
collect seen [] = []
collect seen ((ptr, n) ∷ info) =
    let sa = of_memory ptr n in
    let kept = collect (sa ∷ seen) info in
    let rest = collect seen info in if to_bool sa && not (is_seen sa seen) then sa ∷ kept else rest

unfoldable pub host_to_ips : Answer → Result (List SocketAddress)
unfolding collect
host_to_ips (found info) = ok (collect [] info)
host_to_ips eai_again = ok []
host_to_ips eai_noname = ok []
host_to_ips (eai_system e) = thrown (system_error e)
host_to_ips (eai_other e) = thrown (system_error e)

-- `host_to_ip` takes the first address of a list, which getaddrinfo never leaves empty.
unfoldable pub host_to_ip : Answer → Result SocketAddress
host_to_ip (found []) = ok null_address
host_to_ip (found ((ptr, n) ∷ info)) = ok (of_memory ptr n)
host_to_ip eai_again = ok null_address
host_to_ip eai_noname = ok null_address
host_to_ip (eai_system e) = thrown (system_error e)
host_to_ip (eai_other e) = thrown (system_error e)

-- The answer of getnameinfo for a buffer of a size.
pub data NameAnswer : Type 0 where
  name : Text → NameAnswer
  name_again name_noname name_overflow : NameAnswer
  name_system name_other : ℕ → NameAnswer

-- The loop of `ip_to_host`, in which the buffer doubles.
abbrev pub host_from : (ℕ → NameAnswer) → ℕ → ℕ → Result Text
host_from ask zero size = thrown out_of_fuel
host_from ask (suc f) size =
    let again = host_from ask f (2 * size) in
    elim (ask size) [
      | name t ↦ ok t
      | name_again ↦ ok []
      | name_noname ↦ ok []
      | name_overflow ↦ again
      | name_system e ↦ thrown (system_error e)
      | name_other e ↦ thrown (system_error e)
    ]

unfoldable pub ip_to_host : (ℕ → NameAnswer) → ℕ → Result Text
ip_to_host ask f = host_from ask f 100
