-- ===== src/Net/Address/Texts/ReadBack.antt =====
-- The text of an address is read back as that address.
use rs_io.Net.Address.Parts.{ipv4-of_ipv4, parts-of_ipv6, port-of_ipv4}
use rs_io.Net.Address.{
  ◌then_do◌, be16, be32, SocketAddress, family, af_inet, af_inet6, ipv4, ipv6, port,
}
use rs_io.Net.Order.{greater, mem_compare, mem_compare-lexicographic}
use rs_io.Net.Order.{mem_compare}
use rs_io.Uri.Encode.{IsBytes}
use rs_io.Text.{Text, contains, char_at, find_at-first, drop-behind}
use rs_io.Text.Decimal.{to_digits, to_string, is_digit}
use rs_io.Net.Address.Texts.{
  find_at, parse_port, str, parse, str_from, parse_ipv4, ipv4_str, ipv6_str, parse_ipv6,
}
use rs_io.Net.Address.{Calls, ok, Result, equal, of_ipv4, of_ipv6, null_address, native}
use rs_io.Base.{
  Option, [], arith, drop, false, length, length-append, ltb, refl, replicate, some, suc, take,
  take-length, true, zero, ℕ, ◌%◌, ◌++◌, ◌+◌, ◌-◌, ◌/◌, ◌<◌, ◌∷◌, ◌≡◌, ◌≤◌,
}

to_digits-plain :
    (c f n : ℕ) (s : Text)
    → is_digit c ≡ false
    → contains c s ≡ false
    → contains c (to_digits f n s) ≡ false
unfolding to_digits
to_digits-plain c zero n s h k = k
to_digits-plain c (suc f) n s h k =
    ground (arith, to_digits-plain c f (n / 10) ((48 + n % 10) ∷ s) h)

to_digits-longer : (f n : ℕ) (s : Text) → length s ≤ length (to_digits f n s)
unfolding to_digits
to_digits-longer zero n s = omega arith
to_digits-longer (suc f) n s = ground (arith, to_digits-longer f (n / 10) ((48 + n % 10) ∷ s))

to_string-longer : (n : ℕ) → 0 < length (to_string n)
unfolding to_string to_digits
to_string-longer n = ground (arith, to_digits-longer n (n / 10) ((48 + n % 10) ∷ []))

drop-behind_two : (c d : ℕ) (s t : Text) → drop (length s + 2) (s ++ (c ∷ d ∷ t)) ≡ t
drop-behind_two c d [] t = refl
drop-behind_two c d (x ∷ s) t =
    let e : suc (length s) + 2 ≡ suc (length s + 2) = omega arith in rw e (drop-behind_two c d s t)

to_string-plain : (c n : ℕ) → is_digit c ≡ false → contains c (to_string n) ≡ false
unfolding to_string
to_string-plain c n h = to_digits-plain c (n + 1) n [] h refl

family-of_ipv4 : (ip : Text) (n : ℕ) → family (of_ipv4 ip n) ≡ af_inet
unfolding family of_ipv4
family-of_ipv4 ip n = refl

family-of_ipv6 : (ip : Text) (n : ℕ) → family (of_ipv6 ip n 0 0) ≡ af_inet6
unfolding family of_ipv6
family-of_ipv6 ip n = refl

longer : (c : ℕ) (s : Text) → mem_compare (c ∷ s) [] ≡ greater
longer c s = (mem_compare-lexicographic (c ∷ s) []).0

-- An address is not the null one, since it has a size.
ipv4-differs : (ip : Text) (n : ℕ) → equal (of_ipv4 ip n) null_address ≡ false
unfolding equal of_ipv4 null_address native
ipv4-differs ip n = rw (longer 2 (0 ∷ be16 n ++ take 12 (ip ++ replicate 20 0)), equal) refl

ipv6-differs : (ip : Text) (n : ℕ) → equal (of_ipv6 ip n 0 0) null_address ≡ false
unfolding equal of_ipv6 null_address native
ipv6-differs ip n = rw (longer 10 (0 ∷ be16 n ++ (be32 0 ++ take 20 (ip ++ be32 0))), equal) refl

starts : (t u : Text) → is_digit (char_at t 0) ≡ true → is_digit (char_at (t ++ u) 0) ≡ true
starts [] u h = absurd cc
starts (c ∷ t) u h = h

module _ (calls : Calls) where
  open calls use {pton4, pton6, ntop4, ntop6, strtoull}

  parse-port :
      (n : ℕ)
      → n < 65536
      → strtoull (to_string n) ≡ (n, length (to_string n), false)
      → parse_port calls (to_string n) ≡ ok n
  unfolding parse_port
  parse-port n h reads = rw reads (ground arith)

  str_from-first :
      (ntop : ℕ → Text → Result (Option Text)) (f step size : ℕ) (ip t : Text)
      → ntop size ip ≡ ok (some t)
      → str_from calls ntop (suc f) step size ip ≡ ok t
  str_from-first ntop f step size ip t e = rw e refl

  str-ipv4 :
      (f n : ℕ) (a : SocketAddress) (ip t : Text)
      → equal a null_address ≡ false
      → family a ≡ af_inet
      → ipv4 a ≡ ip
      → port a ≡ n
      → ntop4 16 ip ≡ ok (some t)
      → str calls (suc f) a ≡ ok (t ++ (b':' ∷ to_string n))
  unfolding str ipv4_str
  str-ipv4 f n a ip t d fam hi hp prints = rw (d, fam, hi, hp, prints) refl

  str-ipv6 :
      (f n : ℕ) (a : SocketAddress) (ip t : Text)
      → equal a null_address ≡ false
      → family a ≡ af_inet6
      → ipv6 a ≡ ip
      → port a ≡ n
      → ntop6 40 ip ≡ ok (some t)
      → str calls (suc f) a ≡ ok (b'[' ∷ t ++ (b']' ∷ b':' ∷ to_string n))
  unfolding str ipv6_str
  str-ipv6 f n a ip t d fam hi hp prints = rw (d, fam, hi, hp, prints) refl

  parse-ipv4 :
      (n : ℕ) (ip t : Text)
      → pton4 t ≡ ok (some ip)
      → is_digit (char_at t 0) ≡ true
      → contains b':' t ≡ false
      → contains b':' (to_string n) ≡ false
      → parse_port calls (to_string n) ≡ ok n
      → parse calls (t ++ (b':' ∷ to_string n)) ≡ ok (of_ipv4 ip n)
  unfolding parse parse_ipv4
  parse-ipv4 n ip t reads digit plain one number =
      rw
        (
          starts t (b':' ∷ to_string n) digit,
          find_at-first b':' t (to_string n) plain,
          drop-behind b':' t (to_string n),
          one,
          take-length t (b':' ∷ to_string n),
          reads,
          number,
        )
        refl

  parse-ipv6 :
      (n : ℕ) (ip t : Text)
      → pton6 t ≡ ok (some ip)
      → contains b']' t ≡ false
      → parse_port calls (to_string n) ≡ ok n
      → parse calls (b'[' ∷ t ++ (b']' ∷ b':' ∷ to_string n)) ≡ ok (of_ipv6 ip n 0 0)
  unfolding parse parse_ipv6
  parse-ipv6 n ip t reads plain number =
      let rest = b']' ∷ b':' ∷ to_string n in
      let found : find_at 0 b']' (b'[' ∷ t ++ rest) ≡ some (suc (length t)) =
        find_at-first b']' (b'[' ∷ t) (b':' ∷ to_string n) plain in
      let all : ltb (suc (length t) + 2) (suc (length (t ++ rest))) ≡ true =
        ground (arith, length-append t rest, to_string-longer n) in
      let inner : take (suc (length t) - 1) (t ++ rest) ≡ t =
        (let e : suc (length t) - 1 ≡ length t = omega arith in rw e (take-length t rest)) in
      let port_text : drop (suc (length t) + 2) (b'[' ∷ t ++ rest) ≡ to_string n =
        (let e : suc (length t) + 2 ≡ suc (length t + 2) = omega arith in
          rw e (drop-behind_two b']' b':' t (to_string n))) in
      rw (found, inner, all, port_text, reads, number) refl

  -- The text that `str` gives for an IPv4 address and a port is read back as the same address by the
  -- constructor. inet_ntop has to give a text for the address that fits the first buffer, starts with a digit,
  -- has no colon, and is one that inet_pton reads as that address; strtoull has to read the digits of the
  -- port.
  pub parse-str-ipv4 :
      (f n : ℕ) (ip t : Text)
      → IsBytes ip
      → length ip ≡ 4
      → n < 65536
      → ntop4 16 ip ≡ ok (some t)
      → pton4 t ≡ ok (some ip)
      → is_digit (char_at t 0) ≡ true
      → contains b':' t ≡ false
      → strtoull (to_string n) ≡ (n, length (to_string n), false)
      → (str calls (suc f) (of_ipv4 ip n) then_do parse calls) ≡ ok (of_ipv4 ip n)
  parse-str-ipv4 f n ip t hb hl hn prints reads digit plain number =
      rw
        (str-ipv4 f n (of_ipv4 ip n) ip t (ipv4-differs ip n) (family-of_ipv4 ip n)
          (ipv4-of_ipv4 ip n hb hl) (port-of_ipv4 ip n hn) prints)
        (parse-ipv4 n ip t reads digit plain (to_string-plain b':' n refl) (parse-port n hn number))

  -- The text that `str` gives for an IPv6 address and a port, with flow and scope 0, is read back as the
  -- same address by the constructor. inet_ntop has to give a text for the address that fits the first buffer,
  -- has no closing bracket, and is one that inet_pton reads as that address; strtoull has to read the
  -- digits of the port.
  pub parse-str-ipv6 :
      (f n : ℕ) (ip t : Text)
      → length ip ≡ 16
      → n < 65536
      → ntop6 40 ip ≡ ok (some t)
      → pton6 t ≡ ok (some ip)
      → contains b']' t ≡ false
      → strtoull (to_string n) ≡ (n, length (to_string n), false)
      → (str calls (suc f) (of_ipv6 ip n 0 0) then_do parse calls) ≡ ok (of_ipv6 ip n 0 0)
  parse-str-ipv6 f n ip t hl hn prints reads plain number =
      let parts = parts-of_ipv6 ip n 0 0 hl hn (omega arith) (omega arith) in
      rw
        (str-ipv6 f n (of_ipv6 ip n 0 0) ip t (ipv6-differs ip n) (family-of_ipv6 ip n) parts.0
          parts.1 prints)
        (parse-ipv6 n ip t reads plain (parse-port n hn number))
