-- ===== src/Uri/Refine.antt =====
-- Each setter, on the value that stands for a well-formed URI, does what the specification says of
-- the components.
use rs_io.Uri.Encode.{encode}
use rs_io.Uri.Spec.{Edit, spec, apply, user, password, host, port, path, query, fragment, append}
use rs_io.Base.{
  Bool-cases, [], ap, append_assoc, arith, if◌then◌else◌, inl, inr, length, length-append, ltb,
  ltb→lt, refl, suc, zero, ℕ, ◌++◌, ◌+◌, ◌-◌, ◌<◌, ◌==◌, ◌∙◌, ◌∷◌, ◌≡◌,
}
use rs_io.Text.{Text, char_at}
use rs_io.Uri.Defs.{Format, map_result}
use rs_io.Uri.Edit.{
  put_suffix, set_path, set_user, set_password, set_host, set_port, set_query, set_fragment,
  append_path, rooted, path_exempt,
}
use rs_io.Uri.Parts.{Parts, IsWellFormed, build}
use rs_io.Uri.Segments.{
  Uri-eq, replace_suffix, put_path-build, put_password-build, put_host-build, put_port-build,
  put_query-build, put_fragment-build,
}
use rs_io.Uri.Presence.{has_user-build, has_host-build, has_path-build, empty-build}
use rs_io.Uri.Spec.{ends_slash, set_path_spec, Edit}
use rs_io.Uri.Clears.{
  clear_host-build, clear_port-build, clear_query-build, clear_user-build, clear_fragment-build,
  clear_password-build, clear_path-build, put_user-build,
}

char-last :
    (l m r : Text) (k : ℕ)
    → suc k ≡ length l + length m
    → 0 < length m
    → (char_at (l ++ (m ++ r)) k == b'/') ≡ ends_slash m
char-last [] [] r k h pos = elim pos [ ]
char-last [] (c ∷ []) r zero h pos = refl
char-last [] (c ∷ []) r (suc k) h pos = absurd (omega arith)
char-last [] (c ∷ d ∷ m) r zero h pos = absurd (omega arith)
char-last [] (c ∷ d ∷ m) r (suc k) h pos = char-last [] (d ∷ m) r k (omega arith) (omega arith)
char-last (x ∷ l) m r zero h pos = absurd (omega arith)
char-last (x ∷ l) m r (suc k) h pos = char-last l m r k (omega arith) pos

module _ (p : Parts) (w : IsWellFormed p) where
  -- The text that `append_path` inserts.
  abbrev tail_of : Text → Text
  tail_of t = if ends_slash p.path then t else b'/' ∷ t

  path_end :
      1 < length p.path
      → (char_at (build p).text ((build p).ofs_query - 1) == b'/') ≡ ends_slash p.path
  unfolding build
  path_end h =
      ap (λ s. char_at s ((build p).ofs_query - 1) == b'/') regroup
      ∙ char-last (p.scheme ++ (p.user ++ (p.password ++ (p.host ++ p.port)))) p.path
          (p.query ++ p.fragment) _ (omega (arith, length-append {0})) (omega arith)
    where
      regroup :
          (build p).text
          ≡ (p.scheme ++ (p.user ++ (p.password ++ (p.host ++ p.port))))
            ++ (p.path ++ (p.query ++ p.fragment))
      regroup = simp append_assoc

  put_suffix-build :
      (t : Text)
      → 1 < length p.path
      → put_suffix (build p) t ≡ build (record p { path = p.path ++ tail_of t })
  unfolding put_suffix build
  put_suffix-build t h = rw (path_end h) (
      Uri-eq (replace_suffix p (tail_of t) _ 0 refl refl)
        (omega (arith, length-append p.path (tail_of t))))

  set_path-build :
      (F : Format) (t : Text) → set_path F (build p) t ≡ map_result build (set_path_spec F t p)
  unfolding set_path
  set_path-build F t =
      rw (empty-build p w.named, clear_path-build p w)
        (ground (arith, put_path-build p (rooted (encode F t path_exempt))))

  -- On a well-formed URI, each edit does what the specification says of the components, errors included.
  pub apply-build : (F : Format) (e : Edit) → apply F e (build p) ≡ map_result build (spec F e p)
  unfolding apply set_user set_password set_host set_port set_query set_fragment append_path encode
  apply-build F (user t) =
      rw
        (
          empty-build p w.named,
          has_host-build p w.named,
          clear_user-build p w,
          put_user-build p w (encode F t []),
        )
        (ground arith)
  apply-build F (password t) =
      rw
        (
          empty-build p w.named,
          has_user-build p w.named,
          clear_password-build p w,
          put_password-build p _,
        )
        (ground arith)
  apply-build F (host []) = rw (empty-build p w.named, clear_host-build p w)
  apply-build F (host (c ∷ t)) = rw (empty-build p w.named, put_host-build p (encode F (c ∷ t) []))
  apply-build F (port n) =
      rw (empty-build p w.named, has_host-build p w.named, clear_port-build p w, put_port-build p _)
        (ground arith)
  apply-build F (path t) = set_path-build F t
  apply-build F (query t) =
      rw (empty-build p w.named, clear_query-build p w, put_query-build p _) (ground arith)
  apply-build F (fragment t) =
      rw (empty-build p w.named, clear_fragment-build p w, put_fragment-build p _) (ground arith)
  apply-build F (append t) = elim (Bool-cases (ltb 1 (length p.path))) [
    | inl long ↦
        rw
          (
            empty-build p w.named,
            has_path-build p w.named,
            set_path-build F t,
            long,
            put_suffix-build (encode F t path_exempt) (ltb→lt _ _ long),
          )
          (ground arith)
    | inr short ↦
        rw (empty-build p w.named, has_path-build p w.named, set_path-build F t, short)
          (ground arith)
  ]
