-- ===== src/Net/Sockets/Sets/Aligned.antt =====
use rs_io.Net.Sockets.Sets.{
  clear, close, read, wait, insert, erase, at, timeout, closed, is_at, Found, run, wait_found,
  do_select, read_found, step, do_clear, do_close, read_next, wait_next, flag,
}
use rs_io.Net.Address.{Result, ok, thrown}
-- The two vectors of SocketSet, and the channel that `read` gives.
use rs_io.Net.Sockets.Sets.{
  SocketSet, do_erase, do_insert, do_read, erase_native, has, Call, Selected, do_wait_for,
  erase_channel, insert, erase, wait, read,
}
use rs_io.Base.{
  Bool, Bool-cases, List, Option, [], ap, arith, false, get_elem?, if◌then◌else◌, inl, inr, is_nil,
  map, map-append, none, not, refl, some, subst, suc, sym, true, zero, ℕ, ◌++◌, ◌==◌, ◌||◌, ◌∙◌,
  ◌∷◌, ◌≡◌,
}

module _ (handle : ℕ → Option ℕ) where
  -- The handles stand where their channels stand, and the channel kept for the next `read` is in the set.
  abbrev pub IsKept : Option ℕ → List ℕ → Type 0
  IsKept none cs = Unit {0}
  IsKept (some c) cs = has c cs ≡ true

  abbrev pub IsAligned : SocketSet → Type 0
  IsAligned q = (q.natives ≡ map handle q.channels) × IsKept q.current q.channels

  -- A channel is inserted with its own handle.
  abbrev pub IsOwn : List Call → Type 0
  IsOwn [] = Unit {0}
  IsOwn (insert c s ∷ cs) = (s ≡ handle c) × IsOwn cs
  IsOwn (erase c ∷ cs) = IsOwn cs
  IsOwn (clear ∷ cs) = IsOwn cs
  IsOwn (close ∷ cs) = IsOwn cs
  IsOwn (wait a ∷ cs) = IsOwn cs
  IsOwn (read a ∷ cs) = IsOwn cs

  erase-map :
      (c : ℕ) (ds : List ℕ) → erase_native c ds (map handle ds) ≡ map handle (erase_channel c ds)
  erase-map c [] = refl
  erase-map c (d ∷ ds) = ground (arith, erase-map c ds)

  has-append : (c d : ℕ) (ds : List ℕ) → has c ds ≡ true → has c (ds ++ (d ∷ [])) ≡ true
  has-append c d [] h = absurd cc
  has-append c d (e ∷ ds) h = ground (arith, has-append c d ds)

  has-erase :
      (c d : ℕ) (ds : List ℕ) → c == d ≡ false → has c ds ≡ true → has c (erase_channel d ds) ≡ true
  has-erase c d [] e h = absurd cc
  has-erase c d (x ∷ ds) e h = ground (arith, has-erase c d ds e)

  has-get : (i c : ℕ) (ds : List ℕ) → get_elem? ds i ≡ some c → has c ds ≡ true
  has-get i c [] h = absurd cc
  has-get zero c (d ∷ ds) h = ground arith
  has-get (suc i) c (d ∷ ds) h = ground (arith, has-get i c ds h)

  insert-IsAligned : (c : ℕ) (q : SocketSet) → IsAligned q → IsAligned (do_insert c (handle c) q)
  unfolding do_insert
  insert-IsAligned c q (e, k) = (
    ap (λ s. s ++ (handle c ∷ [])) e ∙ sym (map-append handle q.channels (c ∷ [])),
    kept q.current k,
  )
    where
      kept : (o : Option ℕ) → IsKept o q.channels → IsKept o (q.channels ++ (c ∷ []))
      kept none h = tt
      kept (some d) h = has-append d c q.channels h

  erase-IsAligned : (c : ℕ) (q : SocketSet) → IsAligned q → IsAligned (do_erase c q)
  unfolding do_erase
  erase-IsAligned c q (e, k) = elim (Bool-cases (has c q.channels)) [
    | inl there ↦
        rw there (ap (erase_native c q.channels) e ∙ erase-map c q.channels, kept q.current k)
    | inr missing ↦ rw missing (e, k)
  ]
    where
      kept :
          (o : Option ℕ)
          → IsKept o q.channels
          → IsKept (if is_at c o then none else o) (erase_channel c q.channels)
      kept none h = tt
      kept (some d) h = elim (Bool-cases (d == c)) [
        | inl same ↦ rw same tt
        | inr other ↦ rw other (has-erase d c q.channels other h)
      ]

  wait_found-IsAligned :
      (r : Result Found) (q : SocketSet) → IsAligned q → IsAligned (wait_found q r).0
  wait_found-IsAligned (ok timeout) q h = h
  wait_found-IsAligned (ok closed) q h = h
  wait_found-IsAligned (thrown x) q h = h
  wait_found-IsAligned (ok (at i)) q (e, k) = (e, kept (get_elem? q.channels i) refl)
    where
      kept :
          (o : Option ℕ)
          → get_elem? q.channels i ≡ o
          → IsKept (elim o [ some c ↦ some c | none ↦ q.current ]) q.channels
      kept none g = k
      kept (some c) g = has-get i c q.channels g

  wait-IsAligned : (a : Selected) (q : SocketSet) → IsAligned q → IsAligned (do_wait_for q a).0
  unfolding do_wait_for
  wait-IsAligned a q h = by_open q.is_open
    where
      asked : (o : Option ℕ) → IsAligned (wait_next q a o).0
      asked none = wait_found-IsAligned (do_select q.natives a) q h
      asked (some c) = h

      by_open :
          (b : Bool) → IsAligned (if not b then (q, ok (flag true)) else wait_next q a q.current).0
      by_open false = h
      by_open true = asked q.current

  read_found-IsAligned :
      (r : Result Found) (q : SocketSet) → IsAligned q → IsAligned (read_found q r).0
  read_found-IsAligned (ok (at i)) q h = h
  read_found-IsAligned (ok timeout) q h = h
  read_found-IsAligned (ok closed) q h = h
  read_found-IsAligned (thrown x) q h = h

  read-IsAligned : (a : Selected) (q : SocketSet) → IsAligned q → IsAligned (do_read q a).0
  unfolding do_read
  read-IsAligned a q h = elim (Bool-cases (not q.is_open || is_nil q.channels)) [
    | inl none_there ↦ rw none_there h
    | inr some_there ↦ rw some_there (asked q.current)
  ]
    where
      asked : (o : Option ℕ) → IsAligned (read_next q a o).0
      asked none = read_found-IsAligned (do_select q.natives a) q h
      asked (some c) = (h.0, tt)

  -- After any calls, if every channel is inserted with its own handle, the vector of handles is that of the
  -- channels, position by position, and a channel that is kept for the next `read` is in the set.
  pub run-IsAligned :
      (cs : List Call) (q : SocketSet) → IsOwn cs → IsAligned q → IsAligned (run cs q)
  unfolding run step do_clear do_close
  run-IsAligned [] q o h = h
  run-IsAligned (insert c s ∷ cs) q (e, o) h =
      run-IsAligned cs (do_insert c s q) o
        (subst (λ (t : Option ℕ). IsAligned (do_insert c t q)) (sym e) (insert-IsAligned c q h))
  run-IsAligned (erase c ∷ cs) q o h = run-IsAligned cs (do_erase c q) o (erase-IsAligned c q h)
  run-IsAligned (clear ∷ cs) q o h = run-IsAligned cs (do_clear q) o (refl, tt)
  run-IsAligned (close ∷ cs) q o h = run-IsAligned cs (do_close q) o h
  run-IsAligned (wait a ∷ cs) q o h = run-IsAligned cs (do_wait_for q a).0 o (wait-IsAligned a q h)
  run-IsAligned (read a ∷ cs) q o h = run-IsAligned cs (do_read q a).0 o (read-IsAligned a q h)
