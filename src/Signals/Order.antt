-- ===== src/Signals/Order.antt =====
-- The signals that PosixSignal passes on.
use rs_io.Base.{
  Bool, List, Option, [], ap, append-nil, append_assoc, arith, false, if◌then◌else◌, is_nil, length,
  none, not, refl, some, sym, true, ℕ, ◌++◌, ◌+◌, ◌||◌, ◌∙◌, ◌∷◌, ◌≡◌, ◌≤◌,
}
use rs_io.Signals.{close, make, read, do_wait_for, PosixSignal}

-- The calls on one object.
pub data Call : Type 0 where
  call_read call_close : Call
  call_wait : Option ℕ → Bool → Call

-- The object, the signals that sigtimedwait gave, those that `read` returned, and those that sigtimedwait
-- gave to a wait during which the object was closed, which `do_wait_for` does not keep.
pub record Trace : Type 0 where
  pub object : PosixSignal
  pub caught : List ℕ
  pub returned : List ℕ
  pub lost : List ℕ

abbrev pub listed : Option ℕ → List ℕ
listed none = []
listed (some s) = s ∷ []

-- What sigtimedwait gives to a wait, which does not call it if it returns at once.
abbrev pub given : Option ℕ → PosixSignal → List ℕ
given answer p = if not p.is_open || not (is_nil p.queue) then [] else listed answer

abbrev pub step : Call → Trace → Trace
step call_read t = record t {
  object = (read t.object).0;
  returned = t.returned ++ listed (read t.object).1;
}
step call_close t = record t { object = (close t.object).0 }
step (call_wait answer closed) t = record t {
  object = (do_wait_for answer closed t.object).0;
  caught = t.caught ++ given answer t.object;
  lost = t.lost ++ (if closed then given answer t.object else []);
}

abbrev pub run : List Call → Trace → Trace
run [] t = t
run (c ∷ cs) t = run cs (step c t)

abbrev pub IsOrdered : Bool → List ℕ → List ℕ → List ℕ → List ℕ → Type 0
IsOrdered b q c r l = (c ≡ r ++ (q ++ l)) × (length q + length l ≤ 1) × (b ≡ true → l ≡ [])

-- What sigtimedwait gave is what was returned, then what waits in the queue, then what was lost, and the
-- last two are one signal at most; while the object is open, none is lost.
abbrev pub IsInOrder : Trace → Type 0
IsInOrder t = IsOrdered t.object.is_open t.object.queue t.caught t.returned t.lost

abbrev trace : Bool → List ℕ → List ℕ → List ℕ → List ℕ → List ℕ → Trace
trace b ss q c r l = record {
  object = record { signals = ss; queue = q; is_open = b };
  caught = c;
  returned = r;
  lost = l;
}

read-IsInOrder :
    (b : Bool) (ss q c r l : List ℕ)
    → IsOrdered b q c r l
    → IsInOrder (step call_read (trace b ss q c r l))
unfolding read
read-IsInOrder false ss q c r l (e, n, k) =
    (e ∙ ap (λ (s : List ℕ). s ++ (q ++ l)) (sym (append-nil r)), n, k)
read-IsInOrder true ss [] c r l (e, n, k) =
    (e ∙ ap (λ (s : List ℕ). s ++ l) (sym (append-nil r)), n, k)
read-IsInOrder true ss (s ∷ q) c r l (e, n, k) =
    (e ∙ sym (append_assoc r (s ∷ []) (q ++ l)), omega (arith, n), k)

close-IsInOrder :
    (b : Bool) (ss q c r l : List ℕ)
    → IsOrdered b q c r l
    → IsInOrder (step call_close (trace b ss q c r l))
unfolding close
close-IsInOrder false ss q c r l h = h
close-IsInOrder true ss q c r l (e, n, k) = (e, n, λ h. k refl)

-- A wait that does not call sigtimedwait.
returns_at_once :
    (b d : Bool) (q c r l : List ℕ)
    → IsOrdered b q c r l
    → IsOrdered b q (c ++ []) r (l ++ (if d then [] else []))
returns_at_once b true q c r l h = rw (append-nil c, append-nil l) h
returns_at_once b false q c r l h = rw (append-nil c, append-nil l) h

wait-IsInOrder :
    (a : Option ℕ) (d b : Bool) (ss q c r l : List ℕ)
    → IsOrdered b q c r l
    → IsInOrder (step (call_wait a d) (trace b ss q c r l))
unfolding do_wait_for close
wait-IsInOrder a d false ss q c r l h = returns_at_once false d q c r l h
wait-IsInOrder a d true ss (s ∷ q) c r l h = returns_at_once true d (s ∷ q) c r l h
wait-IsInOrder none true true ss [] c r l (e, n, k) =
    let (e', n', _) = returns_at_once true true [] c r l (e, n, k) in
    (e', n', λ h. append-nil l ∙ k refl)
wait-IsInOrder none false true ss [] c r l h = returns_at_once true false [] c r l h
wait-IsInOrder (some s) true true ss [] c r l (e, n, k) = rw (k refl) (
  ap (λ (t : List ℕ). t ++ (s ∷ [])) (e ∙ (ap (◌++◌ r) (k refl) ∙ append-nil r)),
  omega arith,
  λ h. absurd cc,
)
wait-IsInOrder (some s) false true ss [] c r l (e, n, k) = rw (k refl) (
  ap (λ (t : List ℕ). t ++ (s ∷ [])) (e ∙ (ap (◌++◌ r) (k refl) ∙ append-nil r)),
  omega arith,
  λ h. refl,
)

run-keeps : (cs : List Call) (t : Trace) → IsInOrder t → IsInOrder (run cs t)
run-keeps [] t h = h
run-keeps (call_read ∷ cs) t h =
    run-keeps cs (step call_read t)
      (read-IsInOrder t.object.is_open t.object.signals t.object.queue t.caught t.returned t.lost h)
run-keeps (call_close ∷ cs) t h =
    run-keeps cs (step call_close t) (
      close-IsInOrder t.object.is_open t.object.signals t.object.queue t.caught t.returned t.lost h)
run-keeps (call_wait a d ∷ cs) t h = run-keeps cs (step (call_wait a d) t) (
    wait-IsInOrder a d t.object.is_open t.object.signals t.object.queue t.caught t.returned t.lost
      h)

-- What the constructor makes.
abbrev pub start : List ℕ → Trace
start list = record { object = make list; caught = []; returned = []; lost = [] }

-- After any calls on an object that the constructor made, with any answers of sigtimedwait, and `close`
-- called also by another thread during a wait: the signals that sigtimedwait gave are, in their order,
-- those that `read` returned, then one that waits in the queue, or one that was given to a wait during
-- which the object was closed and is lost, but not both; while the object is open, none is lost.
pub run-IsInOrder : (list : List ℕ) (cs : List Call) → IsInOrder (run cs (start list))
unfolding make
run-IsInOrder list cs = run-keeps cs (start list) (refl, omega arith, λ h. refl)
