-- ===== src/Uri/Presence.antt =====
-- The presence tests of uri.hpp, read on the abstract view.
use rs_io.Base.{
  [], ap, arith, false, is_nil, length, length-append, ltb, not, refl, ℕ, ◌++◌, ◌+◌, ◌<◌, ◌∙◌, ◌∷◌,
  ◌≡◌,
}
use rs_io.Text.{Text}
use rs_io.Uri.Defs.{
  empty, has_user, has_password, has_host, has_port, has_path, has_query, has_fragment,
}
use rs_io.Uri.Parts.{Parts, build}

ltb-add : (k : ℕ) (t : Text) → ltb k (k + length t) ≡ not (is_nil t)
ltb-add k [] = ground arith
ltb-add k (c ∷ t) = ground arith

is_nil-append : (s t : Text) → 0 < length s → is_nil (s ++ t) ≡ false
is_nil-append [] t h = elim h [ ]
is_nil-append (c ∷ s) t h = refl

module _ (p : Parts) (h : 0 < length p.scheme) where
  pub empty-build : empty (build p) ≡ false
  unfolding empty build
  empty-build = is_nil-append p.scheme _ h

  pub has_user-build : has_user (build p) ≡ not (is_nil p.user)
  unfolding has_user build empty
  has_user-build = rw (is_nil-append p.scheme _ h) (ltb-add _ p.user)

  pub has_password-build : has_password (build p) ≡ ltb 1 (length p.password)
  unfolding has_password build empty
  has_password-build = rw (is_nil-append p.scheme _ h) (ap (ltb 1) (omega arith))

  pub has_host-build : has_host (build p) ≡ not (is_nil p.host)
  unfolding has_host build empty
  has_host-build = rw (is_nil-append p.scheme _ h) (ltb-add _ p.host)

  pub has_port-build : has_port (build p) ≡ not (is_nil p.port)
  unfolding has_port build empty
  has_port-build = rw (is_nil-append p.scheme _ h) (ltb-add _ p.port)

  pub has_path-build : has_path (build p) ≡ ltb 1 (length p.path)
  unfolding has_path build empty
  has_path-build = rw (is_nil-append p.scheme _ h) (ap (ltb 1) (omega arith))

  pub has_query-build : has_query (build p) ≡ not (is_nil p.query)
  unfolding has_query build empty
  has_query-build = rw (is_nil-append p.scheme _ h) (ltb-add _ p.query)

  pub has_fragment-build : has_fragment (build p) ≡ not (is_nil p.fragment)
  unfolding has_fragment build empty
  has_fragment-build =
      rw (is_nil-append p.scheme _ h)
        (ap (ltb _) (omega (arith, length-append {0})) ∙ ltb-add _ p.fragment)
