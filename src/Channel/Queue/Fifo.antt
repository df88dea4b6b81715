-- ===== src/Channel/Queue/Fifo.antt =====
-- Each message is delivered once and in the order of the writes.
use rs_io.Base.{
  Bool, List, [], ap, append-nil, append_assoc, false, if◌then◌else◌, refl, sym, true, ◌++◌, ◌∙◌,
  ◌∷◌, ◌≡◌,
}
use rs_io.Channel.Queue.{
  Queue, Call, writes, reads, clears, closes, read, write, clear, close, step, run,
}

module _ {ℓ} {A : Type ℓ} where
  -- The messages that an open or closed channel accepts in the course of the calls.
  abbrev pub accepted : Bool → List (Call A) → List A
  accepted o [] = []
  accepted o (writes x ∷ ks) = (if o then x ∷ [] else []) ++ accepted o ks
  accepted o (reads ∷ ks) = accepted o ks
  accepted o (clears ∷ ks) = accepted o ks
  accepted o (closes ∷ ks) = accepted false ks

  abbrev pub NoClear : List (Call A) → Type 0
  NoClear [] = Unit
  NoClear (clears ∷ ks) = ⊥
  NoClear (k ∷ ks) = NoClear ks

  run-fifo-go :
      (ks : List (Call A)) (o : Bool) (q out : List A)
      → NoClear ks
      → let (c', got) = run (record { open_ = o; queue = q }) out ks in
        got ++ c'.queue ≡ out ++ (q ++ accepted o ks)
  unfolding run step read write close
  run-fifo-go [] o q out h = ap (◌++◌ out) (sym (append-nil q))
  run-fifo-go (writes x ∷ ks) true q out h =
      run-fifo-go ks true (q ++ x ∷ []) out h ∙ simp append_assoc
  run-fifo-go (writes x ∷ ks) false q out h = run-fifo-go ks false q out h
  run-fifo-go (reads ∷ ks) true [] out h = run-fifo-go ks true [] out h
  run-fifo-go (reads ∷ ks) true (x ∷ q) out h =
      run-fifo-go ks true q (out ++ x ∷ []) h ∙ simp append_assoc
  run-fifo-go (reads ∷ ks) false q out h = run-fifo-go ks false q out h
  run-fifo-go (clears ∷ ks) o q out h = absurd h
  run-fifo-go (closes ∷ ks) o q out h = run-fifo-go ks false q out h

  -- Without a clear, what the readers got followed by what is queued is what they had got before,
  -- what was queued, and the messages accepted since, in this order. A closed channel accepts none.
  pub run-fifo :
      (c : Queue A) (ks : List (Call A)) (out : List A)
      → NoClear ks
      → (run c out ks).1 ++ (run c out ks).0.queue ≡ out ++ (c.queue ++ accepted c.open_ ks)
  run-fifo c ks out h = run-fifo-go ks c.open_ c.queue out h

  -- A closed channel stays closed and delivers nothing, whatever is called.
  run-closed :
      (ks : List (Call A)) (q out : List A)
      → let (c', got) = run (record { open_ = false; queue = q }) out ks in
        (c'.open_ ≡ false) × (got ≡ out)
  unfolding run step read write close clear
  run-closed [] q out = (refl, refl)
  run-closed (writes x ∷ ks) q out = run-closed ks q out
  run-closed (reads ∷ ks) q out = run-closed ks q out
  run-closed (clears ∷ ks) q out = run-closed ks [] out
  run-closed (closes ∷ ks) q out = run-closed ks q out
