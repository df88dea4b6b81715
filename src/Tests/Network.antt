-- ===== src/Tests/Network.antt =====
-- The theorems on addresses, name lookup and sockets at concrete inputs.
use rs_io.Net.Address.Texts.ReadBack.{parse-str-ipv4}
use rs_io.Net.Address.Texts.{str, parse}
use rs_io.Text.Decimal.{to_string, read_digits}
use rs_io.Text.{Text, text_eq}
use rs_io.Net.Dns.Distinct.{IsFresh, IsCovered, among, host_to_ips-distinct}
use rs_io.Net.Sockets.Sets.Aligned.{IsAligned, run-IsAligned}
use rs_io.Base.{
  Bool, List, Option, [], arith, false, if◌then◌else◌, length, none, refl, replicate, some, take,
  true, ℕ, ◌++◌, ◌+◌, ◌==◌, ◌∷◌, ◌≡◌,
}
use rs_io.Net.Address.{Calls, ok, of_ipv4, ◌then_do◌}
use rs_io.Net.Dns.{collect, found, host_to_ips}
use rs_io.Net.Sockets.Sets.{Call, insert, erase, wait, ready, empty_set, run}
use rs_io.Net.Sockets.Transfer.{do_write, sent, again, do_write-answers}

-- "10.0.0.1"
abbrev quad : Text
quad = b'1' ∷ b'0' ∷ b'.' ∷ b'0' ∷ b'.' ∷ b'0' ∷ b'.' ∷ b'1' ∷ []

abbrev quad_bytes : Text
quad_bytes = 10 ∷ 0 ∷ 0 ∷ 1 ∷ []

-- "::1"
abbrev local : Text
local = b':' ∷ b':' ∷ b'1' ∷ []

abbrev local_bytes : Text
local_bytes = replicate 15 0 ++ 1 ∷ []

-- Calls that know these two addresses.
abbrev two_addresses : Calls
two_addresses = record {
  pton4 = λ s. ok (if text_eq s quad then some quad_bytes else none);
  pton6 = λ s. ok (if text_eq s local then some local_bytes else none);
  ntop4 = λ n ip. ok (some quad);
  ntop6 = λ n ip. ok (some local);
  strtoull = λ s. (read_digits 0 s, length s, false);
}

parse-str-ipv4_example :
    (str two_addresses 1 (of_ipv4 quad_bytes 80) then_do parse two_addresses)
    ≡ ok (of_ipv4 quad_bytes 80)
unfolding to_string read_digits
parse-str-ipv4_example =
    parse-str-ipv4 two_addresses 0 80 quad_bytes quad
      (omega arith, (omega arith, (omega arith, (omega arith, tt)))) refl (omega arith) refl refl
      refl refl refl

-- An address twice, and a null one.
abbrev answers : List (Text × ℕ)
answers =
    ((2 ∷ 0 ∷ 0 ∷ 80 ∷ replicate 12 1), 16)
    ∷ ((2 ∷ 0 ∷ 0 ∷ 80 ∷ replicate 12 1), 16)
    ∷ (replicate 16 0, 16)
    ∷ []

host_to_ips-distinct_example :
    host_to_ips (found answers) ≡ ok (collect [] answers)
    × IsFresh [] (collect [] answers)
    × IsCovered (λ a. among a (collect [] answers)) answers
host_to_ips-distinct_example = host_to_ips-distinct answers

abbrev own_handle : ℕ → Option ℕ
own_handle c = some (c + 100)

abbrev any_set : ℕ → Bool
any_set s = s == 102

abbrev calls : List Call
calls = insert 1 (some 101) ∷ insert 2 (some 102) ∷ wait (ready any_set) ∷ erase 1 ∷ []

run-IsAligned_example : IsAligned own_handle (run calls empty_set)
run-IsAligned_example = run-IsAligned own_handle calls empty_set (refl, (refl, tt)) (refl, tt)

do_write-answers_example :
    (do_write false quad true (sent (length quad) ∷ []) ≡ (quad, ok true))
    × (do_write false quad true (again ∷ []) ≡ ([], ok true))
    × (do_write false quad true (sent 3 ∷ sent 5 ∷ []) ≡ (take 3 quad ++ take 5 quad, ok true))
do_write-answers_example = do_write-answers quad [] 3 5 (omega arith) (omega arith)
