-- ===== src/Net/Sockets/Sets/Ready.antt =====
-- Which channel a SocketSet gives when select answers that some are ready.
use rs_io.Base.{
  Bool, Bool-cases, List, Option, [], ap, append_assoc, arith, false, get_elem?, if◌then◌else◌, inl,
  inr, is_nil, length, length-append, map, none, refl, set, some, subst, suc, true, zero, ℕ, ◌++◌,
  ◌+◌, ◌∙◌, ◌∷◌, ◌≡◌,
}
use rs_io.Net.Sockets.Sets.{
  flag, channel, at, timeout, closed, Found, first_ready, SocketSet, Returned, do_read, do_wait_for,
  do_select, ready, Selected, read_found, wait_found,
}
use rs_io.Net.Address.{ok}

get-behind :
    (c : ℕ) (pre cs : List ℕ) (i : ℕ) → i ≡ length pre → get_elem? (pre ++ (c ∷ cs)) i ≡ some c
get-behind c [] cs i e = rw e refl
get-behind c (d ∷ pre) cs zero e = absurd (omega (arith, e))
get-behind c (d ∷ pre) cs (suc i) e = get-behind c pre cs i (omega (arith, e))

module _ (handle : ℕ → Option ℕ) where
  -- The first channel whose handle is in the set.
  abbrev pub first_channel : (ℕ → Bool) → List ℕ → Option ℕ
  first_channel z [] = none
  first_channel z (c ∷ cs) =
      let rest = first_channel z cs in
      elim (handle c) [ none ↦ rest | some s ↦ if z s then some c else rest ]

  abbrev at_found : List ℕ → Found → Option ℕ
  at_found cs (at i) = get_elem? cs i
  at_found cs timeout = none
  at_found cs closed = none

  -- What is found behind `i` channels.
  first-channel :
      (z : ℕ → Bool) (pre cs : List ℕ) (i : ℕ)
      → i ≡ length pre
      → at_found (pre ++ cs) (first_ready z i (map handle cs)) ≡ first_channel z cs
  first-channel z pre [] i e = refl
  first-channel z pre (c ∷ cs) i e =
      let longer : i + 1 ≡ length (pre ++ (c ∷ [])) =
        omega (arith, e, length-append pre (c ∷ [])) in
      let rest : at_found (pre ++ (c ∷ cs)) (first_ready z (i + 1) (map handle cs))
          ≡ first_channel z cs =
        subst
          (λ (ds : List ℕ).
            at_found ds (first_ready z (i + 1) (map handle cs)) ≡ first_channel z cs)
          (append_assoc pre (c ∷ []) cs) (first-channel z (pre ++ (c ∷ [])) cs (i + 1) longer) in
      by_handle (handle c) rest
    where
      by_handle :
          (o : Option ℕ)
          → at_found (pre ++ (c ∷ cs)) (first_ready z (i + 1) (map handle cs)) ≡ first_channel z cs
          → at_found (pre ++ (c ∷ cs)) (first_ready z i (o ∷ map handle cs)) ≡ elim o [
            | none ↦ first_channel z cs
            | some s ↦ if z s then some c else first_channel z cs
          ]
      by_handle none rest = rest
      by_handle (some s) rest = elim (Bool-cases (z s)) [
        | inl set ↦ rw set (get-behind c pre cs i e)
        | inr unset ↦ rw unset rest
      ]

  -- An open set of channels with their handles.
  abbrev pub opened : List ℕ → Option ℕ → SocketSet
  opened cs o = record { channels = cs; natives = map handle cs; current = o; is_open = true }

  abbrev pub found_channel : Option ℕ → Returned
  found_channel (some c) = channel c
  found_channel none = flag false

  kept : (o : Option ℕ) → elim o as (λ _. Option ℕ) [ some c ↦ some c | none ↦ none ] ≡ o
  kept none = refl
  kept (some c) = refl

  given :
      (o : Option ℕ)
      → elim o as (λ _. Returned) [ some c ↦ channel c | none ↦ flag false ] ≡ found_channel o
  given none = refl
  given (some c) = refl

  waited :
      (cs : List ℕ) (r : Found) → (wait_found (opened cs none) (ok r)).0 ≡ opened cs (at_found cs r)
  waited cs (at i) = ap (opened cs) (kept (get_elem? cs i))
  waited cs timeout = refl
  waited cs closed = refl

  have_read :
      (cs : List ℕ) (r : Found)
      → read_found (opened cs none) (ok r) ≡ (opened cs none, ok (found_channel (at_found cs r)))
  have_read cs (at i) = ap (λ (t : Returned). (opened cs none, ok t)) (given (get_elem? cs i))
  have_read cs timeout = refl
  have_read cs closed = refl

  read-ready :
      (z : ℕ → Bool) (cs : List ℕ)
      → do_read (opened cs none) (ready z)
        ≡ (opened cs none, ok (found_channel (first_channel z cs)))
  unfolding do_read do_select
  read-ready z [] = refl
  read-ready z (c ∷ cs) =
      have_read (c ∷ cs) (first_ready z 0 (map handle (c ∷ cs)))
      ∙ ap (λ (o : Option ℕ). (opened (c ∷ cs) none, ok (found_channel o)))
          (first-channel z [] (c ∷ cs) 0 refl)

  wait-ready :
      (z : ℕ → Bool) (cs : List ℕ)
      → (do_wait_for (opened cs none) (ready z)).0 ≡ opened cs (first_channel z cs)
  unfolding do_wait_for do_select
  wait-ready z cs =
      waited cs (first_ready z 0 (map handle cs)) ∙ ap (opened cs) (first-channel z [] cs 0 refl)

  read-kept :
      (a : Selected) (cs : List ℕ) (c : ℕ)
      → is_nil cs ≡ false
      → do_read (opened cs (some c)) a ≡ (opened cs none, ok (channel c))
  unfolding do_read
  read-kept a [] c h = absurd cc
  read-kept a (d ∷ cs) c h = refl

  first-some :
      (z : ℕ → Bool) (cs : List ℕ) (c : ℕ) → first_channel z cs ≡ some c → is_nil cs ≡ false
  first-some z [] c h = absurd cc
  first-some z (d ∷ cs) c h = refl

  -- When select answers with a set of handles, `read` on an open set of channels gives the first channel, in
  -- the order of insertion, whose handle is in it. When a wait has found that
  -- channel, the next `read` gives it whatever select would answer then, and keeps no channel.
  pub read-first :
      (z : ℕ → Bool) (cs : List ℕ) (c : ℕ) (a : Selected)
      → first_channel z cs ≡ some c
      → (do_read (opened cs none) (ready z) ≡ (opened cs none, ok (channel c)))
        × (do_read (do_wait_for (opened cs none) (ready z)).0 a ≡ (opened cs none, ok (channel c)))
  read-first z cs c a h = (
    read-ready z cs ∙ ap (λ (o : Option ℕ). (opened cs none, ok (found_channel o))) h,
    ap (λ (q : SocketSet). do_read q a) (wait-ready z cs ∙ ap (opened cs) h)
        ∙ read-kept a cs c (first-some z cs c h),
  )
