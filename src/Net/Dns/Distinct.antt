-- ===== src/Net/Dns/Distinct.antt =====
-- The addresses that `host_to_ips` returns: each is there once.
use rs_io.Text.{Text}
use rs_io.Base.{
  Bool, Bool-cases, List, [], arith, false, inl, inr, not, refl, subst, sym, true, ℕ, ◌&&◌, ◌||◌,
  ◌∙◌, ◌∷◌, ◌≡◌,
}
use rs_io.Net.Address.{SocketAddress, equal, less_than, to_bool, native, of_memory, ok}
use rs_io.Net.Order.{Sign, less, same, greater, opposite, mem_compare, mem_compare-lexicographic}
use rs_io.Net.Dns.{is_seen, collect, host_to_ips, found}

-- The two tests of the set's order come to equality.
equivalent-equal : (a b : SocketAddress) → (not (less_than a b) && not (less_than b a)) ≡ equal a b
unfolding less_than equal
equivalent-equal a b =
    by_sign (mem_compare (native a) (native b)) (mem_compare (native b) (native a))
      ((mem_compare-lexicographic (native a) (native b)).2)
  where
    by_sign :
        (r q : Sign)
        → q ≡ opposite r
        → (not (elim r [ less ↦ true | same ↦ false | greater ↦ false ])
            && not (elim q [ less ↦ true | same ↦ false | greater ↦ false ]))
          ≡ elim r [ less ↦ false | same ↦ true | greater ↦ false ]
    by_sign less q e = refl
    by_sign same q e = rw e refl
    by_sign greater q e = rw e refl

equal_refl : (a : SocketAddress) → equal a a ≡ true
unfolding equal
equal_refl a =
    by_sign (mem_compare (native a) (native a))
      ((mem_compare-lexicographic (native a) (native a)).1.1 refl)
  where
    by_sign : (r : Sign) → r ≡ same → elim r [ less ↦ false | same ↦ true | greater ↦ false ] ≡ true
    by_sign r e = rw e refl

-- An address equals one of a list.
abbrev pub among : SocketAddress → List SocketAddress → Bool
among a [] = false
among a (b ∷ bs) = equal a b || among a bs

is_seen-among : (a : SocketAddress) (bs : List SocketAddress) → is_seen a bs ≡ among a bs
is_seen-among a [] = refl
is_seen-among a (b ∷ bs) = rw (equivalent-equal a b, is_seen-among a bs) refl

-- No address is null, or equal to one in front of it or to one in `seen`.
abbrev pub IsFresh : List SocketAddress → List SocketAddress → Type 0
IsFresh seen [] = Unit {0}
IsFresh seen (a ∷ bs) = (to_bool a ≡ true) × (among a seen ≡ false) × IsFresh (a ∷ seen) bs

-- The addresses of the list that are not null are all among `known`.
abbrev pub IsCovered : (SocketAddress → Bool) → List (Text × ℕ) → Type 0
IsCovered known [] = Unit {0}
IsCovered known ((ptr, n) ∷ info) =
    (to_bool (of_memory ptr n) ≡ true → known (of_memory ptr n) ≡ true) × IsCovered known info

IsCovered-weaken :
    (k l : SocketAddress → Bool) (info : List (Text × ℕ))
    → ((a : SocketAddress) → k a ≡ true → l a ≡ true)
    → IsCovered k info
    → IsCovered l info
IsCovered-weaken k l [] up h = h
IsCovered-weaken k l ((ptr, n) ∷ info) up (h, hs) =
    (λ t. up (of_memory ptr n) (h t), IsCovered-weaken k l info up hs)

collect-IsFresh :
    (seen : List SocketAddress) (info : List (Text × ℕ)) → IsFresh seen (collect seen info)
unfolding collect
collect-IsFresh seen [] = tt
collect-IsFresh seen ((ptr, n) ∷ info) =
    let sa = of_memory ptr n in
    elim (Bool-cases (to_bool sa && not (is_seen sa seen))) [
      | inl new ↦ rw new (
        ground arith,
        sym (is_seen-among sa seen) ∙ ground arith,
        collect-IsFresh (sa ∷ seen) info,
      )
      | inr old ↦ rw old (collect-IsFresh seen info)
    ]

collect-IsCovered :
    (seen : List SocketAddress) (info : List (Text × ℕ))
    → IsCovered (λ a. among a seen || among a (collect seen info)) info
unfolding collect
collect-IsCovered seen [] = tt
collect-IsCovered seen ((ptr, n) ∷ info) =
    let sa = of_memory ptr n in
    let as_in =
      λ (r : List SocketAddress). IsCovered (λ a. among a seen || among a r) ((ptr, n) ∷ info) in
    let shown : as_in (collect seen ((ptr, n) ∷ info)) =
      elim (Bool-cases (to_bool sa && not (is_seen sa seen))) [
        | inl new ↦
            let e : collect seen ((ptr, n) ∷ info) ≡ sa ∷ collect (sa ∷ seen) info = rw new refl in
            subst as_in (sym e) (
              λ t. ground (arith, equal_refl sa),
              IsCovered-weaken (λ a. among a (sa ∷ seen) || among a (collect (sa ∷ seen) info))
                  (λ a. among a seen || among a (sa ∷ collect (sa ∷ seen) info)) info
                  (λ a h. ground (arith, h)) (collect-IsCovered (sa ∷ seen) info),
            )
        | inr old ↦
            let e : collect seen ((ptr, n) ∷ info) ≡ collect seen info = rw old refl in
            subst as_in (sym e)
              (λ t. ground (arith, is_seen-among sa seen, old, t), collect-IsCovered seen info)
      ] in
    shown

-- The addresses that `host_to_ips` returns for a list of getaddrinfo are none of them null and all different,
-- and every address of the list that is not null is among them.
pub host_to_ips-distinct :
    (info : List (Text × ℕ))
    → host_to_ips (found info) ≡ ok (collect [] info)
      × IsFresh [] (collect [] info)
      × IsCovered (λ a. among a (collect [] info)) info
unfolding host_to_ips
host_to_ips-distinct info = (refl, collect-IsFresh [] info, collect-IsCovered [] info)
