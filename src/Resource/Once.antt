-- ===== src/Resource/Once.antt =====
use rs_io.Resource.{
  call_swap, call_reset, call_release, call_acquire, call_move_other, call_move_self, run, swap,
  empty_heap, step,
}
-- Every handle that a Resource takes is deleted once, or given away once.
use rs_io.Resource.{
  Heap, acquire, move_other, release, reset, set_value, value, Call, delete, give, call_acquire,
  call_reset, call_release, call_move_other, call_move_self,
}
use rs_io.Base.{
  Bool, List, Option, [], ap, arith, false, if◌then◌else◌, none, not, refl, some, true, ℕ, ◌+◌,
  ◌==◌, ◌∙◌, ◌∷◌, ◌≡◌,
}

abbrev pub count : ℕ → List ℕ → ℕ
count t [] = 0
count t (u ∷ us) = (if u == t then 1 else 0) + count t us

abbrev pub here : ℕ → Option ℕ → ℕ
here t none = 0
here t (some u) = if u == t then 1 else 0

-- The handles that the calls acquire.
abbrev pub acquired : ℕ → List Call → ℕ
acquired t [] = 0
acquired t (call_acquire r u ∷ cs) = here t u + acquired t cs
acquired t (call_reset r ∷ cs) = acquired t cs
acquired t (call_release r ∷ cs) = acquired t cs
acquired t (call_move_other r ∷ cs) = acquired t cs
acquired t (call_move_self r ∷ cs) = acquired t cs
acquired t (call_swap ∷ cs) = acquired t cs

-- How often a handle is somewhere.
abbrev pub total : ℕ → Heap → ℕ
total t h = here t h.first + (here t h.second + (count t h.deleted + count t h.given_away))

total-delete : (t : ℕ) (v : Option ℕ) (h : Heap) → total t (delete v h) ≡ here t v + total t h
total-delete t none h = omega arith
total-delete t (some u) h = omega arith

total-give : (t : ℕ) (v : Option ℕ) (h : Heap) → total t (give v h) ≡ here t v + total t h
total-give t none h = omega arith
total-give t (some u) h = omega arith

total-set_value :
    (t : ℕ) (r : Bool) (v : Option ℕ) (h : Heap)
    → total t (set_value r v h) + here t (value r h) ≡ here t v + total t h
unfolding set_value value
total-set_value t false v h = omega arith
total-set_value t true v h = omega arith

value-delete : (r : Bool) (v : Option ℕ) (h : Heap) → value r (delete v h) ≡ value r h
unfolding value
value-delete r none h = refl
value-delete false (some u) h = refl
value-delete true (some u) h = refl

value-give : (r : Bool) (v : Option ℕ) (h : Heap) → value r (give v h) ≡ value r h
unfolding value
value-give r none h = refl
value-give false (some u) h = refl
value-give true (some u) h = refl

value-reset : (r : Bool) (h : Heap) → value r (reset r h) ≡ none
unfolding value set_value reset
value-reset false h = refl
value-reset true h = refl

other-reset : (r : Bool) (h : Heap) → value (not r) (reset r h) ≡ value (not r) h
unfolding value set_value reset
other-reset false h = value-delete true h.first h
other-reset true h = value-delete false h.second h

other-set_value :
    (r : Bool) (v : Option ℕ) (h : Heap) → value (not r) (set_value r v h) ≡ value (not r) h
unfolding value set_value
other-set_value false v h = refl
other-set_value true v h = refl

total-reset : (t : ℕ) (r : Bool) (h : Heap) → total t (reset r h) ≡ total t h
unfolding reset
total-reset t r h = omega (
  arith,
  total-set_value t r none (delete (value r h) h),
  total-delete t (value r h) h,
  ap (here t) (value-delete r (value r h) h),
)

total-release : (t : ℕ) (r : Bool) (h : Heap) → total t (release r h) ≡ total t h
unfolding release
total-release t r h = omega (
  arith,
  total-set_value t r none (give (value r h) h),
  total-give t (value r h) h,
  ap (here t) (value-give r (value r h) h),
)

total-acquire :
    (t : ℕ) (r : Bool) (v : Option ℕ) (h : Heap) → total t (acquire r v h) ≡ here t v + total t h
unfolding acquire
total-acquire t r v h =
    omega
      (arith, total-set_value t r v (reset r h), total-reset t r h, ap (here t) (value-reset r h))

total-move : (t : ℕ) (r : Bool) (h : Heap) → total t (move_other r h) ≡ total t h
unfolding move_other
total-move t r h =
    let v = value (not r) h in
    let moved = set_value r v (reset r h) in
    omega (
      arith,
      total-set_value t (not r) none moved,
      total-set_value t r v (reset r h),
      total-reset t r h,
      ap (here t) (value-reset r h),
      ap (here t) (other-set_value r v (reset r h) ∙ other-reset r h),
    )

total-swap : (t : ℕ) (h : Heap) → total t (swap h) ≡ total t h
unfolding swap
total-swap t h = omega arith

total-run : (t : ℕ) (cs : List Call) (h : Heap) → total t (run cs h) ≡ acquired t cs + total t h
unfolding run step
total-run t [] h = omega (arith, total-reset t true (reset false h), total-reset t false h)
total-run t (call_reset r ∷ cs) h = omega (arith, total-run t cs (reset r h), total-reset t r h)
total-run t (call_release r ∷ cs) h =
    omega (arith, total-run t cs (release r h), total-release t r h)
total-run t (call_move_other r ∷ cs) h =
    omega (arith, total-run t cs (move_other r h), total-move t r h)
total-run t (call_move_self r ∷ cs) h = total-run t cs h
total-run t (call_acquire r v ∷ cs) h =
    omega (arith, total-run t cs (acquire r v h), total-acquire t r v h)
total-run t (call_swap ∷ cs) h = omega (arith, total-run t cs (swap h), total-swap t h)

run-IsEmpty : (cs : List Call) (h : Heap) → ((run cs h).first ≡ none) × ((run cs h).second ≡ none)
unfolding run value set_value reset
run-IsEmpty [] h = (value-delete false (reset false h).second (reset false h), refl)
run-IsEmpty (c ∷ cs) h = run-IsEmpty cs (step c h)

-- After any calls on two resources that start empty, and their destructors, every handle has been deleted or
-- given away by `release` as often as it was acquired: none is left, and none is deleted twice.
pub run-deleted :
    (t : ℕ) (cs : List Call)
    → count t (run cs empty_heap).deleted + count t (run cs empty_heap).given_away ≡ acquired t cs
run-deleted t cs =
    let (first, second) = run-IsEmpty cs empty_heap in
    omega (arith, total-run t cs empty_heap, ap (here t) first, ap (here t) second)
