-- ===== src/FilePath/Search/Visit.antt =====
-- A deep search goes through the whole tree, in the order of its flag.
use rs_io.Text.{Text}
use rs_io.Base.{
  Bool, Bool-cases, List, [], ap, append-nil, append_assoc, arith, false, if◌then◌else◌, inl, inr,
  refl, some, suc, sym, true, zero, ℕ, ◌&&◌, ◌*◌, ◌++◌, ◌<◌, ◌∙◌, ◌∷◌, ◌≡◌, ◌≤◌,
}
use rs_io.FilePath.Search.{
  Node, node, Forest, nil, cons, Search, current, body_at, body, is_directory_at, differ, again,
  next, descend, start, visit,
}
use rs_io.FilePath.Search.Order.{
  order, IsPlain, size, left_at, up, Directories, IsState, steps, body-left, body-IsState,
  body-steps,
}

directory-current : (S : List Forest) → is_directory_at S ≡ true → (n : Text) × (current S ≡ some n)
unfolding current
directory-current [] h = absurd cc
directory-current (nil ∷ ls) h = absurd cc
directory-current (cons (node name d plain cs) ts ∷ ls) h = (name, refl)

abbrev at_end : Bool → List Forest → Bool → Text → List Text
at_end b S r n = if is_directory_at S && differ r b then [] else n ∷ []

-- Where `next` ends, what is left without the file it was at, and that it moved.
abbrev Moves : ℕ → Bool → List Forest → Bool → Text → Type 0
Moves f b S r n =
    (s : Search) × (next f b (record { stack = S; revisit = r }) ≡ some s)
    × IsState s.stack s.revisit
    × (again b s ≡ false)
    × (steps s.stack s.revisit < steps S r)
    × (left_at b S r ≡ at_end b S r n ++ left_at b s.stack s.revisit)

next-Moves :
    (f : ℕ) (b : Bool) (S : List Forest) (r : Bool) (n : Text)
    → current S ≡ some n
    → IsState S r
    → steps S r ≤ f
    → Moves f b S r n
unfolding next current body again
next-Moves f b [] r n c v h = absurd cc
next-Moves f b (nil ∷ ls) r n c v h = absurd cc
next-Moves zero b (cons (node name d plain cs) ts ∷ ls) r n c v h =
    absurd (omega (arith, body-steps name d plain cs ts ls r))
next-Moves (suc f) b (cons (node name d plain cs) ts ∷ ls) r n c v h =
    let s = body_at (cons (node name d plain cs) ts ∷ ls) r in
    let name_is : name ≡ n = cc in
    let fewer = body-steps name d plain cs ts ls r in
    let state = body-IsState name d plain cs ts ls r v in
    let left =
      body-left b name d plain cs ts ls r v
      ∙ ap (λ x. (if d && differ r b then [] else x ∷ []) ++ left_at b s.stack s.revisit) name_is in
    elim (Bool-cases (is_directory_at s.stack && differ s.revisit b)) [
      | inr stop ↦ rw (stop, next) (s, refl, state, stop, fewer, left)
      | inl go ↦
          let (m, at) = directory-current s.stack (ground arith) in
          let (s', e, state', stop, fewer', left') =
            next-Moves f b s.stack s.revisit m at state (omega arith) in
          rw (go, next)
            (
              s',
              e,
              state',
              stop,
              omega arith,
              left
                  ∙ ap (◌++◌ (if d && differ r b then [] else n ∷ [])) (
                      left'
                      ∙ ap (λ x. (if x then [] else m ∷ []) ++ left_at b s'.stack s'.revisit) go),
            )
    ]

visit-left :
    (k f : ℕ) (b : Bool) (S : List Forest) (r : Bool)
    → IsState S r
    → again b (record { stack = S; revisit = r }) ≡ false
    → steps S r ≤ f
    → steps S r < k
    → visit k f b (record { stack = S; revisit = r }) ≡ some (left_at b S r)
unfolding visit current again
visit-left zero f b S r v a h l = elim l [ ]
visit-left (suc k) f b [] r v a h l = refl
visit-left (suc k) f b (nil ∷ ls) r v a h l = absurd v
visit-left (suc k) f b (cons (node name d plain cs) ts ∷ ls) r v a h l =
    let (s, e, state, stop, fewer, left) =
      next-Moves f b (cons (node name d plain cs) ts ∷ ls) r name refl v h in
    let rest = visit-left k f b s.stack s.revisit state stop (omega arith) (omega arith) in
    rw (e, visit, rest)
      (ap some
        (sym (left ∙ ap (λ x. (if x then [] else name ∷ []) ++ left_at b s.stack s.revisit) a)))

-- Where the descent of the constructor ends.
descend-IsState :
    (t : Node) (ts : Forest) (ls : List Forest)
    → IsPlain (cons t ts)
    → Directories ls
    → let s = descend t ts ls in
      IsState s.stack s.revisit
      × (again true s ≡ false)
      × (steps s.stack s.revisit ≤ steps (cons t ts ∷ ls) false)
      × (left_at true s.stack s.revisit ≡ order true (cons t ts) ++ up true ls)
unfolding descend again order IsPlain size
descend-IsState (node name true true nil) ts ls p h = ((λ _. refl, (p, h)), refl, omega arith, refl)
descend-IsState (node name false false nil) ts ls p h =
    ((λ e. absurd cc, (p, h)), refl, omega arith, refl)
descend-IsState (node name true false nil) ts ls p h = absurd (cc p.0.0)
descend-IsState (node name false true nil) ts ls p h = absurd (cc p.0.0)
descend-IsState (node name false plain (cons t' ts')) ts ls p h = absurd (cc (p.0.1.0 refl))
descend-IsState (node name true plain (cons t' ts')) ts ls p h =
    let (v, a, l, e) =
      descend-IsState t' ts' (cons (node name true plain (cons t' ts')) ts ∷ ls) p.0.1.1
        (refl, (p, h)) in
    (v, a, omega arith, e ∙ simp append_assoc)

top_down : (d : Bool) → (d && false) ≡ false
top_down true = refl
top_down false = refl

-- A deep search of a directory tree without symbolic links ends, with bounds above twice the number of
-- files, and its paths are those of all files in the tree, each once, a directory in front of what it
-- holds, or behind it for `bottom_up`.
pub visit-order :
    (k f : ℕ) (b : Bool) (tree : Forest)
    → IsPlain tree
    → 2 * size tree ≤ f
    → 2 * size tree < k
    → visit k f b (start b true tree) ≡ some (order b tree)
unfolding start order again size
visit-order k f b nil p h l = visit-left k f b [] false tt refl (omega arith) (omega arith)
visit-order k f true (cons t ts) p h l =
    let s = descend t ts [] in
    let (v, a, n, e) = descend-IsState t ts [] p tt in
    visit-left k f true s.stack s.revisit v a (omega arith) (omega arith)
    ∙ ap some (e ∙ append-nil (order true (cons t ts)))
visit-order k f false (cons (node name d plain cs) ts) p h l =
    let tree = cons (node name d plain cs) ts in
    visit-left k f false (tree ∷ []) false (λ e. absurd cc, (p, tt)) (top_down d) (omega arith)
      (omega arith)
    ∙ ap some (append-nil (order false tree))
