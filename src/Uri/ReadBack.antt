-- ===== src/Uri/ReadBack.antt =====
-- What a setter wrote is what the accessor reads.
use rs_io.Uri.Refine.{apply-build}
use rs_io.Uri.Edit.{rooted, path_exempt}
use rs_io.Uri.Spec.{
  Edit, apply, spec, user, with_user, password, host, port, path, query, fragment, append,
}
use rs_io.Base.{
  [], ap, append_assoc, arith, drop, drop-length, length, length-append, lt→ltb, refl, subst, sym,
  ℕ, ◌++◌, ◌+◌, ◌-◌, ◌<◌, ◌^◌, ◌∙◌, ◌∷◌, ◌≡◌,
}
use rs_io.Text.{Text, substr_mid}
use rs_io.Text.Decimal.{read_digits, read-to_string, to_string}
use rs_io.Uri.Defs.{Format, FormatLaws, Uri, Result, map_result, ok, err}
use rs_io.Uri.Encode.{decode, IsBytes, encode, is_safe, decode-encode}
use rs_io.Uri.Parts.{Parts, IsWellFormed, build, Begins}
use rs_io.Uri.Presence.{has_password-build, has_port-build, has_query-build, has_fragment-build}
use rs_io.Uri.Access

module _ (F : Format) (p : Parts) where
  user-build : Access.user F (build p) ≡ decode F p.user
  unfolding Access.user build
  user-build = ap (decode F) (
      substr_mid p.scheme p.user
        (p.password ++ (p.host ++ (p.port ++ (p.path ++ (p.query ++ p.fragment))))) (build p).text
        (build p).ofs_user ((build p).ofs_password - (build p).ofs_user) refl
        (omega (arith, length-append {0})) (omega arith))

  host-build : Access.host F (build p) ≡ decode F p.host
  unfolding Access.host build
  host-build = ap (decode F) (
      substr_mid (p.scheme ++ (p.user ++ p.password)) p.host
        (p.port ++ (p.path ++ (p.query ++ p.fragment))) (build p).text (build p).ofs_host
        ((build p).ofs_port - (build p).ofs_host) (simp append_assoc)
        (omega (arith, length-append {0})) (omega arith))

  path-build : Access.path F (build p) ≡ decode F p.path
  unfolding Access.path build
  path-build = ap (decode F) (
      substr_mid (p.scheme ++ (p.user ++ (p.password ++ (p.host ++ p.port)))) p.path
        (p.query ++ p.fragment) (build p).text (build p).ofs_path
        ((build p).ofs_query - (build p).ofs_path) (simp append_assoc)
        (omega (arith, length-append {0})) (omega arith))

drop_back : (l m : Text) (s : Text) (pos : ℕ) → s ≡ l ++ m → pos ≡ length l → drop pos s ≡ m
drop_back l m s pos e q = simp (e, q, drop-length l m)

module _ (F : Format) (p : Parts) (h : 0 < length p.scheme) (t : Text) where
  password-build :
      Access.password F (build (record p { password = b':' ∷ (t ++ b'@' ∷ []) })) ≡ decode F t
  unfolding Access.password build
  password-build =
      let q = record p { password = b':' ∷ (t ++ b'@' ∷ []) } in
      rw
        (
          has_password-build q h,
          lt→ltb 1 (length q.password) (omega (arith, length-append t (b'@' ∷ []))),
        )
        (ap (decode F) (
          substr_mid (p.scheme ++ (p.user ++ (b':' ∷ []))) t
            (b'@' ∷ (p.host ++ (p.port ++ (p.path ++ (p.query ++ p.fragment))))) (build q).text
            ((build q).ofs_password + 1) ((build q).ofs_host - (build q).ofs_password - 2)
            (simp append_assoc) (omega (arith, length-append {0}))
            (omega (arith, length-append t (b'@' ∷ [])))))

  query-build : Access.query F (build (record p { query = b'?' ∷ t })) ≡ decode F t
  unfolding Access.query build
  query-build =
      let q = record p { query = b'?' ∷ t } in
      rw (has_query-build q h) (
        ap (decode F) (
          substr_mid
            (p.scheme
              ++ (p.user ++ (p.password ++ (p.host ++ (p.port ++ (p.path ++ (b'?' ∷ [])))))))
            t p.fragment (build q).text ((build q).ofs_query + 1)
            ((build q).ofs_fragment - (build q).ofs_query - 1) (simp append_assoc)
            (omega (arith, length-append {0})) (omega arith)))

  fragment-build : Access.fragment F (build (record p { fragment = b'#' ∷ t })) ≡ decode F t
  unfolding Access.fragment build
  fragment-build =
      let q = record p { fragment = b'#' ∷ t } in
      rw (has_fragment-build q h) (
        ap (decode F) (
          drop_back
            (p.scheme
              ++ (p.user
                  ++ (p.password ++ (p.host ++ (p.port ++ (p.path ++ (p.query ++ (b'#' ∷ []))))))))
            t (build q).text ((build q).ofs_fragment + 1) (simp append_assoc)
            (omega (arith, length-append {0}))))

read-mark :
    (n : ℕ) (s t r : Text)
    → Begins b'/' s
    → Begins b'?' t
    → Begins b'#' r
    → read_digits n (s ++ (t ++ r)) ≡ n
unfolding read_digits
read-mark n [] [] [] a b c = refl
read-mark n [] [] (x ∷ r) a b c = rw c
read-mark n [] (x ∷ t) r a b c = rw b
read-mark n (x ∷ s) t r a b c = rw a

port-build :
    (p : Parts)
    → IsWellFormed p
    → (n : ℕ) → n < 2 ^ 16
    → Access.port (build (record p { port = b':' ∷ to_string n })) ≡ n
unfolding Access.port build
port-build p w n h =
    let q = record p { port = b':' ∷ to_string n } in
    let rest = to_string n ++ (p.path ++ (p.query ++ p.fragment)) in
    let e : drop ((build q).ofs_port + 1) (build q).text ≡ rest =
      drop_back (p.scheme ++ (p.user ++ (p.password ++ (p.host ++ (b':' ∷ []))))) rest
        (build q).text ((build q).ofs_port + 1) (simp append_assoc)
        (omega (arith, length-append {0})) in
    let d : read_digits 0 rest ≡ n =
      read-to_string n (p.path ++ (p.query ++ p.fragment))
      ∙ read-mark n p.path p.query p.fragment w.path_mark w.query_mark w.fragment_mark in
    rw (has_port-build q w.named, e, d) (omega arith)

-- The accessor of the component that an edit sets reads what was written: the text itself, a path
-- with its leading slash, a query as it is decoded, for the setters do not encode it.
abbrev pub Reads : Format → Edit → Uri → Type 0
Reads F (user t) u = Access.user F u ≡ t
Reads F (password t) u = Access.password F u ≡ t
Reads F (host t) u = Access.host F u ≡ t
Reads F (port n) u = Access.port u ≡ n
Reads F (path t) u = Access.path F u ≡ rooted t
Reads F (query t) u = Access.query F u ≡ decode F t
Reads F (fragment t) u = Access.fragment F u ≡ t
Reads F (append t) u = Unit {0}

-- The arguments: nonempty texts of bytes, and nonzero 16-bit ports.
abbrev pub IsValue : Text → Type 0
IsValue t = IsBytes t × (0 < length t)

abbrev pub IsArgument : Edit → Type 0
IsArgument (user t) = IsValue t
IsArgument (password t) = IsValue t
IsArgument (host t) = IsValue t
IsArgument (port n) = (0 < n) × (n < 2 ^ 16)
IsArgument (path t) = IsValue t
IsArgument (query t) = IsValue t
IsArgument (fragment t) = IsValue t
IsArgument (append t) = ⊥

rooted-IsBytes : (t : Text) → IsBytes t → IsBytes (rooted t)
unfolding rooted
rooted-IsBytes [] b = tt
rooted-IsBytes (c ∷ t) b = ground arith

abbrev OnOk : (Uri → Type 0) → Result Uri → Type 0
OnOk P (ok u) = P u
OnOk P (err e) = Unit {0}

module _ (F : Format) (L : FormatLaws F) (p : Parts) (w : IsWellFormed p) where
  rooted-encode : (t : Text) → rooted (encode F t path_exempt) ≡ encode F (rooted t) path_exempt
  unfolding rooted encode is_safe
  rooted-encode [] = refl
  rooted-encode (c ∷ t) = ground arith

  spec-Reads : (e : Edit) → IsArgument e → OnOk (Reads F e) (map_result build (spec F e p))
  spec-Reads (user (c ∷ t)) v =
      let e = encode F (c ∷ t) [] in
      ground (arith, user-build F (with_user p e), decode-encode F L (c ∷ t) [] v.0)
  spec-Reads (user []) v = absurd (omega arith)
  spec-Reads (password (c ∷ t)) v =
      let e = encode F (c ∷ t) [] in
      ground (arith, password-build F p w.named e, decode-encode F L (c ∷ t) [] v.0)
  spec-Reads (password []) v = absurd (omega arith)
  spec-Reads (host t) v =
      host-build F (record p { host = encode F t [] }) ∙ decode-encode F L t [] v.0 refl
  spec-Reads (port n) v = ground (arith, port-build p w n v.1)
  spec-Reads (path (c ∷ t)) v =
      let e = rooted (encode F (c ∷ t) path_exempt) in
      ground (
        arith,
        path-build F (record p { path = e }),
        rooted-encode (c ∷ t),
        decode-encode F L (rooted (c ∷ t)) path_exempt (rooted-IsBytes (c ∷ t) v.0),
      )
  spec-Reads (path []) v = absurd (omega arith)
  spec-Reads (query (c ∷ t)) v = query-build F p w.named (c ∷ t)
  spec-Reads (query []) v = absurd (omega arith)
  spec-Reads (fragment (c ∷ t)) v =
      fragment-build F p w.named (encode F (c ∷ t) []) ∙ decode-encode F L (c ∷ t) [] v.0 refl
  spec-Reads (fragment []) v = absurd (omega arith)
  spec-Reads (append t) v = absurd v

  -- A user, password, host, fragment, path or port that is set to a nonempty text of bytes, or to a port
  -- that is not 0, is read back by its accessor: the path with a slash in front. A query is read back
  -- decoded, since it is not encoded when it is set.
  pub apply-Reads : (e : Edit) {u : Uri} → IsArgument e → apply F e (build p) ≡ ok u → Reads F e u
  apply-Reads e {u} v h = subst (OnOk (Reads F e)) (sym (apply-build p w F e) ∙ h) (spec-Reads e v)
