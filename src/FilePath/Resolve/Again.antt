-- ===== src/FilePath/Resolve/Again.antt =====
-- `resolve` applied to its own result.
use rs_io.FilePath.Canonical.{slash}
use rs_io.FilePath.Names.{is_relative, is_absolute, join}
use rs_io.Text.{Text, find_at}
use rs_io.FilePath.Resolve.{
  Environment, resolve, resolved, accepted, from_home, get_user_home, tilde_user,
}
use rs_io.Base.{
  Bool, Bool-cases, Option, [], ap, arith, false, if◌then◌else◌, inl, inr, is_nil, none, not, some,
  subst, sym, true, ◌&&◌, ◌==◌, ◌∙◌, ◌∷◌, ◌≡◌,
}

kept : (env : Environment) (f : Text) → is_absolute f ≡ true → resolve env f ≡ some f
unfolding resolve is_relative is_absolute
kept env [] h = absurd cc
kept env (c ∷ s) h =
    let other : (c == b'~') ≡ false = ground (arith, h) in rw other (ground (arith, h))

accepted-IsAbsolute : (f r : Text) → accepted f ≡ some r → is_absolute r ≡ true
accepted-IsAbsolute f r h = elim (Bool-cases (is_absolute f)) [
  | inl a ↦
      let same : some f ≡ some r = ap (λ (b : Bool). if b then some f else none) (sym a) ∙ h in
      let e : f ≡ r = cc in subst (λ (t : Text). is_absolute t ≡ true) e a
  | inr a ↦
      let none_there : none ≡ some r = ap (λ (b : Bool). if b then some f else none) (sym a) ∙ h in
      absurd cc
]

resolved-IsAbsolute :
    (env : Environment) (f r : Text) (o : Option Text)
    → resolved env f o ≡ some r
    → is_absolute r ≡ true
resolved-IsAbsolute env f r none h = absurd cc
resolved-IsAbsolute env f r (some t) h =
    let in_dir =
      if is_nil t && (is_relative f && not (is_nil env.current_directory))
      then join env.current_directory f
      else t in
    accepted-IsAbsolute (if is_nil in_dir then f else in_dir) r h

resolve-IsAbsolute :
    (env : Environment) (f r : Text) → resolve env f ≡ some r → is_absolute r ≡ true
unfolding resolve
resolve-IsAbsolute env [] r h = resolved-IsAbsolute env [] r (some env.current_directory) h
resolve-IsAbsolute env (c ∷ f) r h =
    resolved-IsAbsolute env (c ∷ f) r
      (if c == b'~'
        then from_home (c ∷ f) (find_at 0 slash (c ∷ f))
            (get_user_home env (tilde_user (c ∷ f) (find_at 0 slash (c ∷ f))))
        else some [])
      h

-- What `resolve` returns is absolute, and resolves to itself, in the same environment or another.
pub resolve-again :
    (env env' : Environment) (f r : Text)
    → resolve env f ≡ some r
    → (is_absolute r ≡ true) × (resolve env' r ≡ some r)
resolve-again env env' f r h = let a = resolve-IsAbsolute env f r h in (a, kept env' r a)
