-- ===== src/Signals/Discard.antt =====
-- The destructor of PosixSignal in signal.cpp.
use rs_io.Signals.{make, sigusr1}
use rs_io.Base.{
  Bool, Bool-cases, List, Option, [], arith, drop, false, if◌then◌else◌, inl, inr, length, none,
  refl, set, some, suc, true, ℕ, ◌+◌, ◌==◌, ◌||◌, ◌∷◌, ◌≡◌, ◌≤◌,
}

abbrev pub is_member : ℕ → List ℕ → Bool
is_member s [] = false
is_member s (t ∷ ts) = t == s || is_member s ts

-- sigwait takes the first of the signals that are pending out of a set; `none` means that it blocks.
unfoldable pub sigwait : List ℕ → List ℕ → Option (List ℕ)
sigwait set [] = none
sigwait set (s ∷ q) = elim (is_member s set) [
  | true ↦ some q
  | false ↦ elim (sigwait set q) [ none ↦ none | some rest ↦ some (s ∷ rest) ]
]

-- The loop over `signals_`. `pending` is the set that sigpending gave, and the last list has the signals
-- that are pending now; the result is what is left of them.
unfoldable pub discard : List ℕ → List ℕ → List ℕ → Option (List ℕ)
unfolding sigwait
discard pending [] q = some q
discard pending (t ∷ ts) q = elim (is_member t pending) [
  | true ↦ elim (sigwait pending q) [ none ↦ none | some rest ↦ discard pending ts rest ]
  | false ↦ discard pending ts q
]

-- `~PosixSignal()`, with the signals that are pending when it begins.
unfoldable pub destroy : List ℕ → List ℕ → Option (List ℕ)
unfolding discard
destroy signals q = discard q signals q

-- How often a number is in a list, and how many of a list are members of another.
abbrev pub occurrences : ℕ → List ℕ → ℕ
occurrences p [] = 0
occurrences p (t ∷ ts) = if t == p then suc (occurrences p ts) else occurrences p ts

abbrev pub members : List ℕ → List ℕ → ℕ
members set [] = 0
members set (t ∷ ts) = if is_member t set then suc (members set ts) else members set ts

members-cons : (p : ℕ) (ps ts : List ℕ) → members (p ∷ ps) ts ≤ occurrences p ts + members ps ts
members-cons p ps [] = omega arith
members-cons p ps (t ∷ ts) = ground (arith, members-cons p ps ts)

members-nil : (ts : List ℕ) → members [] ts ≡ 0
members-nil [] = refl
members-nil (t ∷ ts) = members-nil ts

members-length : (set ts : List ℕ) → ((p : ℕ) → occurrences p ts ≤ 1) → members set ts ≤ length set
members-length [] ts h = omega (arith, members-nil ts)
members-length (p ∷ ps) ts h = omega (arith, h p, members-cons p ps ts, members-length ps ts h)

-- Each of a list is a member of a set.
abbrev AllMembers : List ℕ → List ℕ → Type 0
AllMembers set [] = Unit {0}
AllMembers set (s ∷ q) = (is_member s set ≡ true) × AllMembers set q

AllMembers-cons : (x : ℕ) (set q : List ℕ) → AllMembers set q → AllMembers (x ∷ set) q
AllMembers-cons x set [] h = tt
AllMembers-cons x set (s ∷ q) (h, k) = (ground arith, AllMembers-cons x set q k)

AllMembers-self : (q : List ℕ) → AllMembers q q
AllMembers-self [] = tt
AllMembers-self (s ∷ q) = (ground arith, AllMembers-cons s q q (AllMembers-self q))

discard-skip :
    (pending ts q : List ℕ) (t : ℕ)
    → is_member t pending ≡ false
    → (members pending ts ≤ length q → discard pending ts q ≡ some (drop (members pending ts) q))
    → members pending (t ∷ ts) ≤ length q
    → discard pending (t ∷ ts) q ≡ some (drop (members pending (t ∷ ts)) q)
unfolding discard
discard-skip pending ts q t missing go h =
    let m : members pending (t ∷ ts) ≡ members pending ts = rw missing refl in
    rw (discard, missing) (go (omega (arith, m)))

discard-drop :
    (pending ts q : List ℕ)
    → AllMembers pending q
    → members pending ts ≤ length q
    → discard pending ts q ≡ some (drop (members pending ts) q)
unfolding discard
discard-drop pending [] q a h = refl
discard-drop pending (t ∷ ts) [] a h = elim (Bool-cases (is_member t pending)) [
  | inl there ↦ absurd (ground (arith, h))
  | inr missing ↦ discard-skip pending ts [] t missing (discard-drop pending ts [] a) h
]
discard-drop pending (t ∷ ts) (s ∷ q) (b, a) h = elim (Bool-cases (is_member t pending)) [
  | inl there ↦
      let m : members pending (t ∷ ts) ≡ suc (members pending ts) = rw there refl in
      rw (discard, there, sigwait, b) (discard-drop pending ts q a (omega (arith, m)))
  | inr missing ↦
      discard-skip pending ts (s ∷ q) t missing (discard-drop pending ts (s ∷ q) (b, a)) h
]

-- If no signal is twice among those of the object, its SIGUSR1 included, the destructor does not block: it
-- takes as many of the pending signals as are among its own, the first ones in the order of delivery.
pub destroy-drop :
    (signals q : List ℕ)
    → ((p : ℕ) → occurrences p signals ≤ 1)
    → destroy signals q ≡ some (drop (members q signals) q)
unfolding destroy
destroy-drop signals q h = discard-drop q signals q (AllMembers-self q) (members-length q signals h)

-- An object that is given SIGUSR1 has it twice, and blocks in its destructor when that signal is pending
-- alone, as after a call of `close`.
destroy-blocks : destroy (make (sigusr1 ∷ [])).signals (sigusr1 ∷ []) ≡ none
unfolding destroy make
destroy-blocks = refl
