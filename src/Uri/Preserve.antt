-- ===== src/Uri/Preserve.antt =====
-- Which edits keep a URI well-formed, and what they do on an empty one.
use rs_io.Base.{
  Bool, [], arith, false, if◌then◌else◌, is_nil, length, refl, sym, true, ℕ, ◌++◌, ◌<◌, ◌∙◌, ◌∷◌,
  ◌≡◌, ◌≢◌,
}
use rs_io.Text.{Text}
use rs_io.Uri.Defs.{Format, Result, ok, err, Uri, empty_value, empty, empty_uri, map_result}
use rs_io.Uri.Encode.{encode}
use rs_io.Uri.Parts.{Parts, IsWellFormed, Begins, build}
use rs_io.Uri.Edit.{
  rooted, path_exempt, set_user, set_password, set_host, set_port, set_path, set_query,
  set_fragment, append_path,
}
use rs_io.Uri.Refine.{apply-build}
use rs_io.Uri.Spec.{
  apply, path, fragment, append, Edit, spec, user, password, host, port, query, append, fragment,
  set_path_spec,
}

-- Clearing the host is harmless only where no user and no port is left behind.
abbrev pub Keeps : Edit → Parts → Type 0
Keeps (host t) p = t ≡ [] → (p.user ≡ []) × (p.port ≡ [])
Keeps _ p = Unit {0}

-- The result, if there is one, is well-formed.
abbrev pub Good : Result Parts → Type 0
Good (ok p) = IsWellFormed p
Good (err e) = Unit {0}

is_nil-false : (t : Text) → is_nil t ≡ false → t ≢ []
is_nil-false [] h = cc
is_nil-false (c ∷ t) h = λ e. cc

is_nil-true : (t : Text) → is_nil t ≡ true → t ≡ []
is_nil-true [] h = refl
is_nil-true (c ∷ t) h = cc

encode-nil : (F : Format) (t exempt : Text) → encode F t exempt ≡ [] → t ≡ []
unfolding encode
encode-nil F [] exempt h = refl
encode-nil F (c ∷ t) exempt h = ground arith

rooted-Begins : (t : Text) → Begins b'/' (rooted t)
unfolding rooted
rooted-Begins [] = tt
rooted-Begins (c ∷ t) = ground arith

Begins-append : (c : ℕ) (s t : Text) → 0 < length s → Begins c s → Begins c (s ++ t)
Begins-append c [] t h b = elim h [ ]
Begins-append c (x ∷ s) t h b = b

module _ (F : Format) (p : Parts) (w : IsWellFormed p) where
  Good-password : (t : Text) → Good (spec F (password t) p)
  Good-password t = ground arith

  Good-port : (n : ℕ) → Good (spec F (port n) p)
  Good-port n = ground arith

  Good-query : (t : Text) → Good (spec F (query t) p)
  Good-query t = ground arith

  Good-user : (t : Text) → Good (spec F (user t) p)
  Good-user t = ground (arith, encode-nil F t [])

  Good-host : (t : Text) → Keeps (host t) p → Good (spec F (host t) p)
  Good-host t k = ground (arith, encode-nil F t [])

  Good-path : (t : Text) → Good (set_path_spec F t p)
  Good-path t = ground (arith, rooted-Begins (encode F t path_exempt))

  Good-fragment : (t : Text) → Good (spec F (fragment t) p)
  Good-fragment t = ground arith

  Good-append : (t : Text) → Good (spec F (append t) p)
  Good-append t =
      let tail = encode F t path_exempt in
      ground (
        arith,
        Good-path t,
        Begins-append b'/' p.path tail,
        Begins-append b'/' p.path (b'/' ∷ tail),
      )

  -- An edit of a well-formed URI that succeeds leaves one, if it does not clear the host where a user or
  -- a port is there.
  pub spec-IsWellFormed : (e : Edit) → Keeps e p → Good (spec F e p)
  spec-IsWellFormed (user t) k = Good-user t
  spec-IsWellFormed (password t) k = Good-password t
  spec-IsWellFormed (host t) k = Good-host t k
  spec-IsWellFormed (port n) k = Good-port n
  spec-IsWellFormed (path t) k = Good-path t
  spec-IsWellFormed (query t) k = Good-query t
  spec-IsWellFormed (fragment t) k = Good-fragment t
  spec-IsWellFormed (append t) k = Good-append t

-- A call on a well-formed URI that succeeds leaves the value of well-formed components, if it does not
-- clear the host where a user or a port is there.
pub apply-IsWellFormed :
    (F : Format) (p : Parts)
    → IsWellFormed p
    → (e : Edit) {u : Uri} → Keeps e p
    → apply F e (build p) ≡ ok u
    → (q : Parts) × (u ≡ build q) × IsWellFormed q
apply-IsWellFormed F p w e {u} k h =
    from_spec (spec F e p) (spec-IsWellFormed F p w e k) (sym (apply-build p w F e) ∙ h)
  where
    from_spec :
        (y : Result Parts)
        → Good y
        → map_result build y ≡ ok u
        → (q : Parts) × (u ≡ build q) × IsWellFormed q
    from_spec (ok q) g m = (q, cc, g)
    from_spec (err x) g m = absurd cc

abbrev pub is_nothing : Edit → Bool
is_nothing (append t) = is_nil t
is_nothing e = false

-- On an empty URI every call is an error, but for the appending of nothing, which succeeds.
pub apply-empty :
    (F : Format) (e : Edit)
    → apply F e empty_value ≡ (if is_nothing e then ok empty_value else err empty_uri)
unfolding apply set_user set_password set_host set_port set_path set_query set_fragment append_path
    empty_value empty
apply-empty F (user t) = refl
apply-empty F (password t) = refl
apply-empty F (host t) = refl
apply-empty F (port n) = refl
apply-empty F (path t) = refl
apply-empty F (query t) = refl
apply-empty F (fragment t) = refl
apply-empty F (append []) = refl
apply-empty F (append (c ∷ t)) = refl
