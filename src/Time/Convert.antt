-- ===== src/Time/Convert.antt =====
-- The conversions there and back, for time points before the epoch as well.
use rs_io.Base.{ap, arith, refl, suc, sym, zero, ℕ, ◌%◌, ◌*◌, ◌+◌, ◌/◌, ◌∙◌, ◌≡◌}
use rs_io.Time.{
  ℤ, pos, negsuc, neg, quot, rem, times, ◌+ℤ◌, giga, mega, kilo, duration_to_timespec, make_timeval,
  duration_to_timeval, timespec_to_duration, timeval_to_duration, timepoint_to_timespec,
  timepoint_to_timeval, timespec_to_timepoint, timeval_to_timepoint,
}

neg-add : (m n : ℕ) → neg m +ℤ neg n ≡ neg (m + n)
unfolding ◌+ℤ◌
neg-add zero zero = refl
neg-add zero (suc n) = ground arith
neg-add (suc m) zero = ground arith
neg-add (suc m) (suc n) = refl

times-neg : (n k : ℕ) → times (neg n) k ≡ neg (n * k)
unfolding times
times-neg zero k = let e : 0 * k ≡ 0 = omega arith in ap pos e ∙ ap neg (sym e)
times-neg (suc n) k = refl

quot-neg : (n : ℕ) → quot (neg n) mega ≡ neg (n / mega)
unfolding quot
quot-neg zero = refl
quot-neg (suc n) = refl

rem-neg : (n : ℕ) → rem (neg n) mega ≡ neg (n % mega)
unfolding rem
rem-neg zero = refl
rem-neg (suc n) = refl

-- A time point is got back from its timespec, before and after the epoch.
pub timespec-round_trip : (tp : ℤ) → timespec_to_timepoint (timepoint_to_timespec tp) ≡ tp
unfolding timespec_to_timepoint timepoint_to_timespec timespec_to_duration duration_to_timespec quot
    rem times ◌+ℤ◌
timespec-round_trip (pos n) = ap pos (omega arith)
timespec-round_trip (negsuc n) =
    let whole : suc n / giga * giga + suc n % giga ≡ suc n = omega arith in
    ap (λ a. a +ℤ neg (suc n % giga)) (times-neg (suc n / giga) giga)
    ∙ (neg-add (suc n / giga * giga) (suc n % giga) ∙ ap neg whole)

-- From its timeval, a time point is got back without what is below a microsecond.
timeval-round_trip :
    (tp : ℤ) → timeval_to_timepoint (timepoint_to_timeval tp) ≡ times (quot tp kilo) kilo
unfolding timeval_to_timepoint timepoint_to_timeval timeval_to_duration duration_to_timeval
    make_timeval quot rem times ◌+ℤ◌
timeval-round_trip (pos n) = ap pos (omega arith)
timeval-round_trip (negsuc n) =
    let us = suc n / kilo in
    let whole : us / mega * giga + us % mega * kilo ≡ us * kilo = omega arith in
    ap (λ a. times a giga +ℤ times (rem (neg us) mega) kilo) (quot-neg us)
    ∙ (ap (λ a. times (neg (us / mega)) giga +ℤ times a kilo) (rem-neg us)
        ∙ (ap (λ a. a +ℤ times (neg (us % mega)) kilo) (times-neg (us / mega) giga)
            ∙ (ap (λ a. neg (us / mega * giga) +ℤ a) (times-neg (us % mega) kilo)
                ∙ (neg-add (us / mega * giga) (us % mega * kilo)
                    ∙ (ap neg whole ∙ sym (times-neg us kilo))))))
