-- ===== src/Net/Sockets/Transfer.antt =====
-- `do_read` and `do_write` of the class Socket, with the answers of recv and send as arguments, and what the
-- peer has been sent.
use rs_io.Text.{Text}
use rs_io.Base.{
  Bool, Bool-cases, List, Option, [], ap, arith, false, if◌then◌else◌, inl, inr, is_nil, length,
  ltb, none, not, refl, some, suc, sym, zero, take, take_all, true, ℕ, ◌%◌, ◌&&◌, ◌++◌, ◌+◌, ◌-◌,
  ◌<◌, ◌==◌, ◌||◌, ◌∙◌, ◌∷◌, ◌≡◌, ◌≤◌,
}
use rs_io.Net.Address.{
  Result, ok, thrown, system_error, out_of_fuel, SocketAddress, set_size, ◌then_do◌,
}
use rs_io.Net.Sockets.Sets.{Found, at, timeout, closed}

-- recv and recvfrom: the bytes with the address that is written, and its length, or errno.
pub data Received : Type 0 where
  received : Text → Text → ℕ → Received
  recv_failed : ℕ → Received

-- Whether the socket is open, and the address of the caller, if one is given.
pub record Reader : Type 0 where
  pub is_open : Bool
  pub from : Option SocketAddress

abbrev store_from : Text → Text → ℕ → Option SocketAddress → Result (Option SocketAddress)
store_from s addr n none = ok none
store_from s addr n (some a) =
    let b : SocketAddress = record { sa = addr; current_size = a.current_size } in
    if is_nil s then ok (some b) else (set_size n b then_do λ c. ok (some c))

abbrev have_received : Reader → Received → Reader × Result Text
have_received r (recv_failed e) = (r, thrown (system_error e))
have_received r (received s addr n) = elim (store_from s addr n r.from) [
  | thrown e ↦ (r, thrown e)
  | ok from ↦ (record { is_open = not (is_nil s) && r.is_open; from = from }, ok s)
]

-- `found` is the answer of `do_select` for the socket alone.
unfoldable pub do_read : Bool → ℕ → Result Found → Received → Reader → Reader × Result Text
do_read dst_null maxlen found answer r =
    if dst_null || (maxlen == 0 || not r.is_open) then (r, ok []) else elim found [
      | thrown e ↦ (r, thrown e)
      | ok f ↦ elim f [ at i ↦ have_received r answer | timeout ↦ (r, ok []) | closed ↦ (r, ok []) ]
    ]

-- send and sendto: how many bytes were taken, EAGAIN, or another errno.
pub data Sent : Type 0 where
  sent : ℕ → Sent
  again : Sent
  send_failed : ℕ → Sent

-- 2 ^ 64, for the size_t in which the loop counts.
abbrev pub word : ℕ
word = 18446744073709551616

-- The loop of `do_write`. Each call is given the whole text; -1 is added as it is converted to size_t. The
-- list of answers is the bound of the loop.
unfoldable pub write_loop : Text → List Sent → ℕ → Text → Text × Result Bool
write_loop src [] written log =
    if ltb written (length src) then (log, thrown out_of_fuel) else (log, ok true)
write_loop src (sent n ∷ answers) written log =
    let rest = write_loop src answers ((written + n) % word) (log ++ take n src) in
    if ltb written (length src) then rest else (log, ok true)
write_loop src (again ∷ answers) written log =
    let rest = write_loop src answers ((written + (word - 1)) % word) log in
    if ltb written (length src) then rest else (log, ok true)
write_loop src (send_failed e ∷ answers) written log =
    if ltb written (length src) then (log, thrown (system_error e)) else (log, ok true)

-- `src_null` is the test of the pointer.
unfoldable pub do_write : Bool → Text → Bool → List Sent → Text × Result Bool
unfolding write_loop
do_write src_null src is_open answers =
    if src_null || not is_open then ([], ok false) else write_loop src answers 0 []

write_loop-end :
    (src : Text) (answers : List Sent) (written : ℕ) (log : Text)
    → length src ≤ written
    → write_loop src answers written log ≡ (log, ok true)
unfolding write_loop
write_loop-end src [] written log h =
    let no : ltb written (length src) ≡ false = ground (arith, h) in rw no refl
write_loop-end src (sent n ∷ answers) written log h =
    let no : ltb written (length src) ≡ false = ground (arith, h) in rw no refl
write_loop-end src (again ∷ answers) written log h =
    let no : ltb written (length src) ≡ false = ground (arith, h) in rw no refl
write_loop-end src (send_failed e ∷ answers) written log h =
    let no : ltb written (length src) ≡ false = ground (arith, h) in rw no refl

-- For any text, the empty one included: if the first send takes it as a whole, it is sent. If the first send
-- answers EAGAIN, the call returns true and has sent nothing, since the count wraps. If the first takes `n`
-- bytes, and a second one, where it is still needed, `m` bytes that make the count full, the call returns
-- true and the second has sent the beginning of the text again. The conditions are that `n` and `m` make
-- the count full and that their sum is below 2 ^ 64; there are such numbers for each text that is shorter
-- than that.
pub do_write-answers :
    (src : Text) (answers : List Sent) (n m : ℕ)
    → length src ≤ n + m
    → n + m < word
    → (do_write false src true (sent (length src) ∷ answers) ≡ (src, ok true))
      × (do_write false src true (again ∷ answers) ≡ ([], ok true))
      × (do_write false src true (sent n ∷ sent m ∷ answers)
          ≡ ((if ltb n (length src) then take n src ++ take m src else take n src), ok true))
unfolding do_write write_loop
do_write-answers [] answers n m full hw =
    let third = if ltb n 0 then take {A = ℕ} n [] ++ take m [] else take n [] in
    let nothing : third ≡ [] = elim (Bool-cases (ltb n 0)) [
      | inl b ↦ rw (b, take_none n) (take_none m)
      | inr b ↦ rw b (take_none n)
    ] in
    (refl, refl, ap (λ (t : Text). (t, ok true)) (sym nothing))
  where
    take_none : (k : ℕ) → take {A = ℕ} k [] ≡ []
    take_none zero = refl
    take_none (suc k) = refl
do_write-answers (c ∷ src) answers n m full hw =
    let some_left : ltb 0 (length (c ∷ src)) ≡ true = ground arith in
    let counted : (0 + n) % word ≡ n = omega (arith, hw) in
    (
      rw some_left (
          write_loop-end (c ∷ src) answers ((0 + length (c ∷ src)) % word)
            (take (length (c ∷ src)) (c ∷ src)) (omega (arith, full, hw))
          ∙ ap (λ (t : Text). (t, ok true)) (take_all (c ∷ src))),
      rw some_left
          (write_loop-end (c ∷ src) answers ((0 + (word - 1)) % word) [] (omega (arith, full, hw))),
      elim (Bool-cases (ltb n (length (c ∷ src)))) [
        | inl more ↦
            rw (some_left, counted, more)
              (write_loop-end (c ∷ src) answers ((n + m) % word)
                (take n (c ∷ src) ++ take m (c ∷ src)) (omega (arith, full, hw)))
        | inr whole ↦ rw (some_left, counted, whole) refl
      ],
    )
