-- ===== src/FilePath/Search/Order.antt =====
-- The order of a deep search.
use rs_io.Text.{Text}
use rs_io.Base.{
  Bool, List, [], ap, append_assoc, arith, false, if◌then◌else◌, refl, suc, sym, true, ℕ, ◌&&◌, ◌*◌,
  ◌++◌, ◌+◌, ◌<◌, ◌∷◌, ◌≡◌, ◌≤◌,
}
use rs_io.FilePath.Search.{Node, node, Forest, nil, cons, is_empty, advance, body_at, differ}

-- The paths of the tree, each directory in front of what it holds, or behind it for `bottom_up`.
unfoldable mutual
  pub order : Bool → Forest → List Text
  order b nil = []
  order b (cons t ts) = order_node b t ++ order b ts

  pub order_node : Bool → Node → List Text
  order_node b (node name d plain cs) =
      if d then (if b then order b cs ++ name ∷ [] else name ∷ order b cs) else name ∷ []

-- The two questions about directories have the same answer, and what is no directory holds nothing.
unfoldable mutual
  pub IsPlain : Forest → Type 0
  IsPlain nil = Unit {0}
  IsPlain (cons t ts) = IsPlainNode t × IsPlain ts

  pub IsPlainNode : Node → Type 0
  IsPlainNode (node name d plain cs) = (d ≡ plain) × ((d ≡ false → cs ≡ nil) × IsPlain cs)

unfoldable mutual
  pub size : Forest → ℕ
  size nil = 0
  size (cons t ts) = size_node t + size ts

  pub size_node : Node → ℕ
  size_node (node name d plain cs) = suc (size cs)

-- What is left for the ranges below the top, whose first files are being searched.
abbrev pub up : Bool → List Forest → List Text
up b [] = []
up b (nil ∷ ls) = []
up b (cons (node name d plain cs) ts ∷ ls) =
    (if b then name ∷ [] else []) ++ (order b ts ++ up b ls)

-- What is left from a state on, its own file included where the iterator stops at it.
abbrev pub left_at : Bool → List Forest → Bool → List Text
left_at b [] r = []
left_at b (nil ∷ ls) r = []
left_at b (cons t ts ∷ ls) true = up b (cons t ts ∷ ls)
left_at b (cons t ts ∷ ls) false = order b (cons t ts) ++ up b ls

abbrev pub Directories : List Forest → Type 0
Directories [] = Unit {0}
Directories (nil ∷ ls) = ⊥
Directories (cons (node name d plain cs) ts ∷ ls) =
    (d ≡ true) × (IsPlain (cons (node name d plain cs) ts) × Directories ls)

-- The states of a search.
abbrev pub IsState : List Forest → Bool → Type 0
IsState [] r = Unit {0}
IsState (nil ∷ ls) r = ⊥
IsState (cons (node name d plain cs) ts ∷ ls) r =
    (r ≡ true → d ≡ true) × (IsPlain (cons (node name d plain cs) ts) × Directories ls)

advance-left :
    (b : Bool) (ts : Forest) (ls : List Forest)
    → Directories ls
    → left_at b (advance ts ls).stack (advance ts ls).revisit ≡ order b ts ++ up b ls
unfolding order
advance-left b nil [] h = refl
advance-left b nil (nil ∷ ls) h = absurd h
advance-left b nil (cons (node name d plain cs) ts ∷ ls) h = refl
advance-left b (cons t ts) ls h = refl

advance-IsState :
    (ts : Forest) (ls : List Forest)
    → IsPlain ts
    → Directories ls
    → IsState (advance ts ls).stack (advance ts ls).revisit
unfolding IsPlain
advance-IsState nil [] p h = tt
advance-IsState nil (nil ∷ ls) p h = absurd h
advance-IsState nil (cons (node name d plain cs) ts ∷ ls) p h = (λ _. h.0, h.1)
advance-IsState (cons (node name d plain cs) ts) ls p h = (λ e. cc, (p, h))

pub body-left :
    (b : Bool) (name : Text) (d plain : Bool) (cs ts : Forest) (ls : List Forest) (r : Bool)
    → IsState (cons (node name d plain cs) ts ∷ ls) r
    → let s = body_at (cons (node name d plain cs) ts ∷ ls) r in
      left_at b (cons (node name d plain cs) ts ∷ ls) r
      ≡ (if d && differ r b then [] else name ∷ []) ++ left_at b s.stack s.revisit
unfolding order
body-left b name false plain cs ts ls true h = absurd (cc (h.0 refl))
body-left b name false plain cs ts ls false h = ap (◌∷◌ name) (sym (advance-left b ts ls h.1.1))
body-left false name true plain cs ts ls true h = sym (advance-left false ts ls h.1.1)
body-left true name true plain cs ts ls true h = ap (◌∷◌ name) (sym (advance-left true ts ls h.1.1))
body-left false name true plain nil ts ls false h = refl
body-left true name true plain nil ts ls false h = refl
body-left false name true plain (cons t' ts') ts ls false h =
    ap (◌∷◌ name) (append_assoc (order false (cons t' ts')) (order false ts) (up false ls))
body-left true name true plain (cons t' ts') ts ls false h = simp append_assoc

IsPlain-IsState :
    (cs : Forest) (ls : List Forest)
    → is_empty cs ≡ false
    → IsPlain cs
    → Directories ls
    → IsState (cs ∷ ls) false
unfolding IsPlain
IsPlain-IsState nil ls e p h = absurd cc
IsPlain-IsState (cons (node name d plain cs) ts) ls e p h = (λ k. cc, (p, h))

pub body-IsState :
    (name : Text) (d plain : Bool) (cs ts : Forest) (ls : List Forest) (r : Bool)
    → IsState (cons (node name d plain cs) ts ∷ ls) r
    → let s = body_at (cons (node name d plain cs) ts ∷ ls) r in IsState s.stack s.revisit
unfolding IsPlain
body-IsState name false plain cs ts ls r h = advance-IsState ts ls h.1.0.1 h.1.1
body-IsState name true plain cs ts ls true h = advance-IsState ts ls h.1.0.1 h.1.1
body-IsState name true plain nil ts ls false h = (λ _. refl, h.1)
body-IsState name true plain (cons t' ts') ts ls false h =
    IsPlain-IsState (cons t' ts') (cons (node name true plain (cons t' ts')) ts ∷ ls) refl
      h.1.0.0.1.1 (refl, h.1)

-- The steps that a search can still make.
abbrev pub below : List Forest → ℕ
below [] = 0
below (nil ∷ ls) = 0
below (cons t ts ∷ ls) = suc (2 * size ts + below ls)

abbrev pub steps : List Forest → Bool → ℕ
steps [] r = 0
steps (nil ∷ ls) r = 0
steps (cons t ts ∷ ls) true = below (cons t ts ∷ ls)
steps (cons t ts ∷ ls) false = 2 * size (cons t ts) + below ls

advance-steps :
    (ts : Forest) (ls : List Forest)
    → steps (advance ts ls).stack (advance ts ls).revisit ≤ 2 * size ts + below ls
unfolding size
advance-steps nil [] = omega arith
advance-steps nil (nil ∷ ls) = omega arith
advance-steps nil (cons t ts ∷ ls) = omega arith
advance-steps (cons t ts) ls = omega arith

pub body-steps :
    (name : Text) (d plain : Bool) (cs ts : Forest) (ls : List Forest) (r : Bool)
    → let s = body_at (cons (node name d plain cs) ts ∷ ls) r in
      steps s.stack s.revisit < steps (cons (node name d plain cs) ts ∷ ls) r
unfolding size
body-steps name false plain cs ts ls true = omega (arith, advance-steps ts ls)
body-steps name false plain cs ts ls false = omega (arith, advance-steps ts ls)
body-steps name true plain cs ts ls true = omega (arith, advance-steps ts ls)
body-steps name true plain nil ts ls false = omega arith
body-steps name true plain (cons t' ts') ts ls false = omega arith
