-- ===== src/Channel/Dispatch/Handlers.antt =====
-- Dispatch::add of channel.hpp for channels of messages and of bytes: the handlers that it registers,
-- composed with QueueChannel and BufferChannel.
use rs_io.Base.{
  Bool, Bool-cases, List, Option, [], ap, append-nil, append_assoc, arith, false, if◌then◌else◌,
  inl, inr, length, length-append, none, refl, some, subst, sym, true, ℕ, ◌++◌, ◌-◌, ◌==◌, ◌∙◌, ◌∷◌,
  ◌≡◌,
}
use rs_io.Text.{Text}
use rs_io.Channel.Dispatch.{Task, Dispatch, add_channel}
use rs_io.Channel.Queue.{Queue}
use rs_io.Channel.Queue
use rs_io.Channel.Buffer.{Buffer}
use rs_io.Channel.Buffer
use rs_io.Channel.Buffer.Stream.{pending, IsValid, read-pending, write-pending, apply-IsValid}

length_zero : (s : Text) → length s ≡ 0 → s ≡ []
length_zero [] h = refl
length_zero (c ∷ s) h = absurd (omega (arith, h))

-- What `add` comes to: std::bad_function_call, std::invalid_argument, or the new set.
pub data Added : Type 0 where
  bad_function_call invalid_argument : Added
  added : Dispatch → Added

-- `check_call`: a callback that can be null is tested.
unfoldable pub check_call : {F : Type 0} → Option F → Bool
check_call none = false
check_call (some f) = true

abbrev added_to : Option Dispatch → Added
added_to none = invalid_argument
added_to (some d) = added d

-- `add(c, f)`
unfoldable pub add : {F : Type 0} → Dispatch → Task → Option F → Added
unfolding check_call
add d t f = if check_call f then added_to (add_channel d t) else bad_function_call

module _ {A S : Type 0} where
  -- `if (c.read(t)) f(t);`
  unfoldable pub message_handler : (A → S → S) → Queue A × S → Queue A × S
  message_handler f (c, x) =
      let (c', got) = Queue.read c in elim got [ none ↦ (c', x) | some a ↦ (c', f a x) ]

module _ {S : Type 0} where
  -- `if (c.append(s)) f(s);` with the callback's own state. The callback may change the text `s`, which
  -- the handler keeps from call to call.
  unfoldable pub stream_handler : (Text → S → Text × S) → ℕ → Buffer × Text × S → Buffer × Text × S
  stream_handler f block (c, s, x) =
      let (c', s') = Buffer.append c block s in
      let (t, y) = f s' x in if length s' - length s == 0 then (c', s', x) else (c', t, y)

-- What happens to a channel in a dispatch set: another thread writes, or the handler is called.
pub data Event : Type 0 where
  writes : Text → Event
  handles : Event

abbrev pub written : List Event → Text
written [] = []
written (writes s ∷ es) = s ++ written es
written (handles ∷ es) = written es

written-cons :
    (e : Event) (es : List Event) (t : Text)
    → (t ++ written (e ∷ [])) ++ written es ≡ t ++ written (e ∷ es)
written-cons (writes s) es t = simp (append_assoc, append-nil)
written-cons handles es t = simp append-nil

module _ {S : Type 0} (f : Text → S → Text × S) (block : ℕ) where
  unfoldable pub step : Buffer × Text × S → Event → Buffer × Text × S
  step (c, s, x) (writes t) = ((Buffer.write c t).0, s, x)
  step (c, s, x) handles = stream_handler f block (c, s, x)

  unfoldable pub run_events : Buffer × Text × S → List Event → Buffer × Text × S
  run_events st [] = st
  run_events st (e ∷ es) = run_events (step st e) es

  -- The buffer is valid and open.
  abbrev IsLive : Buffer → Type 0
  IsLive c = IsValid c × (c.open_ ≡ true)

  step-IsLive : (st : Buffer × Text × S) (e : Event) → IsLive st.0 → IsLive (step st e).0
  unfolding step stream_handler Buffer.append Buffer.apply
  step-IsLive (c, s, x) (writes t) (v, o) =
      (apply-IsValid c (Buffer.writes t) v, (write-pending c t o v.within).1)
  step-IsLive (c, s, x) handles (v, o) =
      let live : IsLive (Buffer.read c block).0 =
        (apply-IsValid c (Buffer.reads block) v, (read-pending c block o).2) in
      elim (Bool-cases (length (s ++ (Buffer.read c block).1) - length s == 0)) [
        | inl nothing ↦ rw nothing live
        | inr something ↦ rw something live
      ]

  -- A callback moves bytes from the front of the text to the end of what it has `taken`.
  module _ (taken : S → Text)
      (moves : (s : Text) (x : S) → taken (f s x).1 ++ (f s x).0 ≡ taken x ++ s) where
    handler-taken :
        (c : Buffer) (s : Text) (x : S)
        → c.open_ ≡ true
        → let (c', s', x') = stream_handler f block (c, s, x) in
          taken x' ++ (s' ++ pending c') ≡ taken x ++ (s ++ pending c)
    unfolding stream_handler Buffer.append
    handler-taken c s x o =
        let (c', got) = Buffer.read c block in
        let (e, _, _) = read-pending c block o in
        let front : (s ++ got) ++ pending c' ≡ s ++ pending c =
          append_assoc s got (pending c') ∙ ap (◌++◌ s) e in
        elim (Bool-cases (length (s ++ got) - length s == 0)) [
          | inl nothing ↦ rw nothing (ap (◌++◌ (taken x)) front)
          | inr something ↦ rw something (
              sym (append_assoc (taken (f (s ++ got) x).1) _ (pending c'))
              ∙ (ap (λ (t : Text). t ++ pending c') (moves (s ++ got) x)
                  ∙ (append_assoc (taken x) (s ++ got) (pending c') ∙ ap (◌++◌ (taken x)) front)))
        ]

    step-delivers :
        (c : Buffer) (s : Text) (x : S) (e : Event)
        → IsValid c
        → c.open_ ≡ true
        → let (c', s', x') = step (c, s, x) e in
          taken x' ++ (s' ++ pending c') ≡ (taken x ++ (s ++ pending c)) ++ written (e ∷ [])
    unfolding step
    step-delivers c s x (writes t) v o =
        ap (λ (p : Text). taken x ++ (s ++ p)) (write-pending c t o v.within).0
        ∙ simp (append_assoc, append-nil)
    step-delivers c s x handles v o = handler-taken c s x o ∙ sym (append-nil _)

    -- What a call of the callback leaves in the text.
    module _ (IsLeft : Text → Type 0) (leaves : (s : Text) (x : S) → IsLeft (f s x).0) where
      handler-IsLeft :
          (c : Buffer) (s : Text) (x : S)
          → IsLeft s
          → let (c', s', x') = stream_handler f block (c, s, x) in IsLeft s'
      unfolding stream_handler Buffer.append
      handler-IsLeft c s x l =
          let (c', got) = Buffer.read c block in
          elim (Bool-cases (length (s ++ got) - length s == 0)) [
            | inl nothing ↦
                let size : length got ≡ 0 = ground (arith, nothing, length-append s got) in
                rw nothing
                  (subst IsLeft (sym (append-nil s) ∙ ap (◌++◌ s) (sym (length_zero got size))) l)
            | inr something ↦ rw something (leaves (s ++ got) x)
          ]

      step-IsLeft :
          (c : Buffer) (s : Text) (x : S) (e : Event)
          → IsLeft s
          → let (c', s', x') = step (c, s, x) e in IsLeft s'
      unfolding step
      step-IsLeft c s x (writes t) l = l
      step-IsLeft c s x handles l = handler-IsLeft c s x l

      -- In a dispatch set, let a callback move bytes from the front of its text to what it has taken, and
      -- let what it leaves have a property, such as being empty or without a line feed. Then the bytes that
      -- are written to a valid open channel come to the callback in their order, whatever the block size
      -- and the order of the writes and the calls of the handler: what it has taken, the text it left and
      -- what is still in the channel are what there was of them before, followed by what was written. And
      -- the text that is kept between the calls has the property, if it has it at the start. So a callback
      -- that takes its whole text has taken all the bytes that have left the channel.
      pub run_events-delivers :
          (c : Buffer) (s : Text) (x : S) (es : List Event)
          → IsValid c
          → c.open_ ≡ true
          → IsLeft s
          → let (c', s', x') = run_events (c, s, x) es in
            (taken x' ++ (s' ++ pending c') ≡ (taken x ++ (s ++ pending c)) ++ written es)
            × IsLeft s'
      unfolding run_events
      run_events-delivers c s x [] v o l = (sym (append-nil _), l)
      run_events-delivers c s x (e ∷ es) v o l =
          let (c', s', x') = step (c, s, x) e in
          let (v', o') = step-IsLive (c, s, x) e (v, o) in
          let (rest, left) = run_events-delivers c' s' x' es v' o' (step-IsLeft c s x e l) in
          (
            rest
                ∙ (ap (λ (t : Text). t ++ written es) (step-delivers c s x e v o)
                    ∙ written-cons e es (taken x ++ (s ++ pending c))),
            left,
          )
