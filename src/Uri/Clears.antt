-- ===== src/Uri/Clears.antt =====
-- The clearing functions and put_user of Uri on a URI that is laid out from its parts.
use rs_io.Base.{
  Bool, Bool-cases, [], ap, append-nil, append_assoc, arith, false, inl, inr, is_nil, length,
  length-append, ltb→lt, not, refl, sym, true, ◌++◌, ◌∙◌, ◌∷◌, ◌≡◌,
}
use rs_io.Text.{Text}
use rs_io.Uri.Defs.{has_user, has_password, has_host, has_port, has_path, has_query, has_fragment}
use rs_io.Uri.Edit.{
  put_user, clear_user, clear_password, clear_host, clear_port, clear_path, clear_query,
  clear_fragment,
}
use rs_io.Uri.Parts.{Parts, IsWellFormed, build}
use rs_io.Uri.Segments.{
  Uri-eq, replace_user, replace_user_password, replace_password, replace_host, replace_port,
  replace_path, replace_query, take_fragment,
}
use rs_io.Uri.Presence.{
  has_user-build, has_password-build, has_host-build, has_port-build, has_path-build,
  has_query-build, has_fragment-build,
}
use rs_io.Uri.Spec.{without_user, without_password, without_path, with_user}

pub is_nil→eq : (t : Text) → not (is_nil t) ≡ false → t ≡ []
is_nil→eq [] h = refl
is_nil→eq (c ∷ t) h = cc

pub not-true : (b : Bool) → not b ≡ true → b ≡ false
not-true b h = ground arith

pub not-false : (b : Bool) → not b ≡ false → b ≡ true
not-false b h = ground arith

module _ (p : Parts) (w : IsWellFormed p) where
  pub clear_host-build : clear_host (build p) ≡ build (record p { host = [] })
  unfolding clear_host build
  clear_host-build = elim (Bool-cases (has_host (build p))) [
    | inl there ↦ rw there (Uri-eq (replace_host p [] _ _ refl (omega arith)) (omega arith))
    | inr absent ↦ rw absent (
        ap (λ t. build (record p { host = t }))
          (is_nil→eq p.host (rw (has_host-build p w.named) at absent)))
  ]

  pub clear_port-build : clear_port (build p) ≡ build (record p { port = [] })
  unfolding clear_port build
  clear_port-build = elim (Bool-cases (has_port (build p))) [
    | inl there ↦ rw there (Uri-eq (replace_port p [] _ _ refl (omega arith)) (omega arith))
    | inr absent ↦ rw absent (
        ap (λ t. build (record p { port = t }))
          (is_nil→eq p.port (rw (has_port-build p w.named) at absent)))
  ]

  pub clear_query-build : clear_query (build p) ≡ build (record p { query = [] })
  unfolding clear_query build
  clear_query-build = elim (Bool-cases (has_query (build p))) [
    | inl there ↦ rw there (Uri-eq (replace_query p [] _ _ refl (omega arith)) (omega arith))
    | inr absent ↦ rw absent (
        ap (λ t. build (record p { query = t }))
          (is_nil→eq p.query (rw (has_query-build p w.named) at absent)))
  ]

  pub absent_user : not (is_nil p.user) ≡ false → build p ≡ build (without_user p)
  absent_user h =
      let e = is_nil→eq p.user h in
      ap (λ t. build (record p { user = t })) e
      ∙ ap (λ t. build (record p { user = []; password = t })) (w.no_password e)

  pub clear_user-build : clear_user (build p) ≡ build (without_user p)
  unfolding clear_user build
  clear_user-build = elim (Bool-cases (has_user (build p))) [
    | inl there ↦
        rw there (Uri-eq (replace_user_password p [] _ _ refl (omega arith)) (omega arith))
    | inr absent ↦ rw absent (absent_user (rw (has_user-build p w.named) at absent))
  ]

  pub clear_fragment-build : clear_fragment (build p) ≡ build (record p { fragment = [] })
  unfolding clear_fragment build
  clear_fragment-build = elim (Bool-cases (has_fragment (build p))) [
    | inl there ↦ rw there (Uri-eq (sym (append-nil _) ∙ take_fragment p [] _ 0 refl) (omega arith))
    | inr absent ↦ rw absent (
        ap (λ t. build (record p { fragment = t }))
          (is_nil→eq p.fragment (rw (has_fragment-build p w.named) at absent)))
  ]

  pub clear_password-build : clear_password (build p) ≡ build (without_password p)
  unfolding clear_password build
  clear_password-build = elim (Bool-cases (has_password (build p))) [
    | inl there ↦
        rw (there, rw (has_password-build p w.named) at there)
          (Uri-eq (replace_password p (b'@' ∷ []) _ _ refl (omega arith)) (
            omega
              (arith, ltb→lt 1 (length p.password) (rw (has_password-build p w.named) at there))))
    | inr absent ↦ rw (absent, rw (has_password-build p w.named) at absent)
  ]

  pub clear_path-build : clear_path (build p) ≡ build (without_path p)
  unfolding clear_path build
  clear_path-build = elim (Bool-cases (has_path (build p))) [
    | inl there ↦
        rw (there, rw (has_path-build p w.named) at there)
          (Uri-eq (replace_path p ([]) _ _ refl (omega arith)) (omega arith))
    | inr absent ↦ rw (absent, rw (has_path-build p w.named) at absent)
  ]

  pub put_user-build : (t : Text) → put_user (build p) t ≡ build (with_user p t)
  unfolding put_user build
  put_user-build t = elim (Bool-cases (has_user (build p))) [
    | inl there ↦
        rw (there, not-true _ (rw (has_user-build p w.named) at there))
          (Uri-eq (replace_user p t _ _ refl (omega arith)) (omega arith))
    | inr absent ↦
        let none_there = rw (has_user-build p w.named) at absent in
        let e = is_nil→eq p.user none_there in
        let user_size : length p.user ≡ 0 = ap length e in
        let password_size : length p.password ≡ 0 = ap length (w.no_password e) in
        rw (absent, not-false _ none_there)
          (Uri-eq
            (replace_user_password p (t ++ b'@' ∷ []) _ _ refl (omega arith) ∙ simp append_assoc)
            (omega (arith, length-append t (b'@' ∷ []))))
  ]
