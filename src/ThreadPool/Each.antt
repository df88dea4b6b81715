-- ===== src/ThreadPool/Each.antt =====
-- ThreadPool::each of thread-pool.hpp over a range of numbers, and the jobs that it inserts. A sum
-- beyond the range of `int`, which the source leaves undefined, is an outcome of its own.
use rs_io.Base.{
  Bool-cases, List, [], ap, arith, false, if◌then◌else◌, inl, inr, ltb, refl, suc, true, zero, ℕ,
  ◌<◌, ◌==◌, ◌∙◌, ◌∷◌, ◌≡◌, ◌≤◌,
}
use rs_io.Time.{ℤ, pos, ◌+ℤ◌}
use rs_io.ThreadPool.Range.{
  less, fits, int_max, int_min, distance, less-distance, distance-plus, low_plus, high_plus,
  fits_sum, distance_before,
}
use rs_io.ThreadPool.{
  Pool, Event, enters, loads, stores, pushes, enter, load_worker, store_worker, push, step, run,
}

-- What a loop comes to: the fuel ran out, `i += delta` left the range of `int`, or the loop ended.
pub data Loop (A : Type 0) : Type 0 where
  out_of_fuel overflow : Loop A
  done : List A → Loop A

abbrev pub also : {A : Type 0} → A → Loop A → Loop A
also x out_of_fuel = out_of_fuel
also x overflow = overflow
also x (done xs) = done (x ∷ xs)

-- The values of `i` in the first loop and, for a negative `delta`, in the second.
unfoldable pub upward : ℕ → ℤ → ℤ → ℤ → Loop ℤ
unfolding less fits
upward zero i delta stop = out_of_fuel
upward (suc f) i delta stop =
    let rest = upward f (i +ℤ delta) delta stop in
    if less i stop then also i (if fits (i +ℤ delta) then rest else overflow) else done []

unfoldable pub downward : ℕ → ℤ → ℤ → ℤ → Loop ℤ
unfolding less fits
downward zero i delta stop = out_of_fuel
downward (suc f) i delta stop =
    let rest = downward f (i +ℤ delta) delta stop in
    if less stop i then also i (if fits (i +ℤ delta) then rest else overflow) else done []

unfoldable pub indices : ℕ → ℤ → ℤ → ℤ → Loop ℤ
unfolding less upward downward
indices f start delta stop =
    if less delta (pos 0) then downward f start delta stop else upward f start delta stop

-- The numbers from `i` on in steps of `delta` up to `stop`, which is not one of them.
abbrev pub IsProgression : ℤ → ℤ → ℤ → List ℤ → Type 0
IsProgression i delta stop [] = less i stop ≡ false
IsProgression i delta stop (x ∷ xs) =
    (x ≡ i) × (less i stop ≡ true) × IsProgression (i +ℤ delta) delta stop xs

-- For a positive `delta`, with fuel above the distance, and with room for the last sum, the loop ends,
-- with the numbers from the start in steps of `delta` below `stop`.
pub upward-IsProgression :
    (f d : ℕ) (i stop : ℤ)
    → distance i stop < f
    → less i int_min ≡ false
    → d < suc (distance stop int_max)
    → less int_max stop ≡ false
    → (is : List ℤ) × (upward f i (pos (suc d)) stop ≡ done is)
      × IsProgression i (pos (suc d)) stop is
unfolding upward
upward-IsProgression zero d i stop h low room top = absurd (omega (arith, h))
upward-IsProgression (suc f) d i stop h low room top = elim (Bool-cases (less i stop)) [
  | inl more ↦
      let next = i +ℤ pos (suc d) in
      let low' = low_plus i d low in
      let ok_sum : fits next ≡ true =
        fits_sum next low' (high_plus i d (omega (arith, room, distance_before i stop more top))) in
      let (is, e, p) =
        upward-IsProgression f d next stop
          (omega (arith, h, distance-plus i stop d, less-distance i stop more)) low' room top in
      rw (more, ok_sum, e) (i ∷ is, refl, (refl, more, p))
  | inr over ↦ rw over ([], refl, over)
]

-- The insertions of jobs by one thread, one after the other.
unfoldable pub insert_each : {A : Type 0} → List A → List (Event A)
insert_each [] = []
insert_each (x ∷ xs) = enters x ∷ loads 0 ∷ stores 0 ∷ pushes 0 ∷ insert_each xs

abbrev pub onto : {A : Type 0} → List A → List A → List A
onto [] acc = acc
onto (x ∷ xs) acc = onto xs (x ∷ acc)

-- No thread is in `insert`.
abbrev pub NoneInside : {A : Type 0} → Pool A → Type 0
NoneInside p = (p.entered ≡ []) × (p.choosing ≡ []) × (p.inserting ≡ [])

abbrev insert : {A : Type 0} → Pool A → A → Pool A
insert p x = push (store_worker (load_worker (enter p x) 0) 0) 0

insert_one :
    {A : Type 0} (p : Pool A) (x : A)
    → p.clear_count ≡ 0
    → NoneInside p
    → ((insert p x).clear_count ≡ 0)
      × NoneInside (insert p x)
      × ((insert p x).accepted ≡ x ∷ p.accepted)
unfolding enter load_worker store_worker push
insert_one p x c i =
    let open_now : (p.clear_count == 0) ≡ true = ap (λ n. n == 0) c in rw open_now (c, i, refl)

-- In a pool that is not being cleared and with no other thread in `insert`, each job is accepted once,
-- in the order of the range.
pub insert_each-accepted :
    {A : Type 0} (p : Pool A) (xs : List A)
    → p.clear_count ≡ 0
    → NoneInside p
    → (run p (insert_each xs)).accepted ≡ onto xs p.accepted
unfolding insert_each run step
insert_each-accepted p [] c i = refl
insert_each-accepted p (x ∷ xs) c i =
    let (c', i', a) = insert_one p x c i in
    insert_each-accepted (insert p x) xs c' i' ∙ ap (onto xs) a

abbrev pub jobs : {A : Type 0} → (ℤ → A) → List ℤ → List A
jobs job [] = []
jobs job (i ∷ is) = job i ∷ jobs job is

abbrev inserts : {A : Type 0} → (ℤ → A) → Loop ℤ → Loop (Event A)
inserts job out_of_fuel = out_of_fuel
inserts job overflow = overflow
inserts job (done is) = done (insert_each (jobs job is))

-- `each(start, delta, stop, f)` on a thread of its own, where `job` makes the job for a number.
unfoldable pub each : {A : Type 0} → ℕ → (ℤ → A) → ℤ → ℤ → ℤ → Loop (Event A)
unfolding indices insert_each
each f job start delta stop = inserts job (indices f start delta stop)

-- For a positive `delta`, let `start` and `stop` be in the range of `int`, let `stop + delta - 1` be in it
-- too, and let the fuel be above the distance from `start` to `stop`. Then `each` ends without an overflow,
-- and in a pool that is not being cleared and with no other thread in `insert` the jobs for the numbers
-- from `start` in steps of `delta` below `stop` are accepted, each once and in this order.
pub each-accepted :
    {A : Type 0} (f d : ℕ) (job : ℤ → A) (start stop : ℤ) (p : Pool A)
    → distance start stop < f
    → less start int_min ≡ false
    → less int_max stop ≡ false
    → d ≤ distance stop int_max
    → p.clear_count ≡ 0
    → NoneInside p
    → (is : List ℤ) × (es : List (Event A)) × (each f job start (pos (suc d)) stop ≡ done es)
      × IsProgression start (pos (suc d)) stop is
      × ((run p es).accepted ≡ onto (jobs job is) p.accepted)
unfolding each indices less
each-accepted f d job start stop p h low top room c i =
    let (is, e, q) = upward-IsProgression f d start stop h low (omega (arith, room)) top in
    let up : ltb (suc d) 0 ≡ false = ground arith in
    (
      is,
      insert_each (jobs job is),
      rw up (ap (inserts job) e),
      q,
      insert_each-accepted p (jobs job is) c i,
    )
