-- ===== src/Uri/Segments.antt =====
-- Each elementary edit of the text replaces one component of the abstract view.
use rs_io.Base.{
  [], ap, append_assoc, arith, length, length-append, refl, take, take-length, ℕ, ◌++◌, ◌+◌, ◌∙◌,
  ◌∷◌, ◌≡◌,
}
use rs_io.Text.{Text, replace, replace_mid}
use rs_io.Uri.Defs.{Uri}
use rs_io.Uri.Edit.{put_password, put_host, put_port, put_path, put_query, put_fragment}
use rs_io.Uri.Parts.{Parts, build}

pub Uri-eq :
    {u v : Uri}
    → u.text ≡ v.text
    → (u.ofs_user ≡ v.ofs_user)
      × (u.ofs_password ≡ v.ofs_password)
      × (u.ofs_host ≡ v.ofs_host)
      × (u.ofs_port ≡ v.ofs_port)
      × (u.ofs_path ≡ v.ofs_path)
      × (u.ofs_query ≡ v.ofs_query)
      × (u.ofs_fragment ≡ v.ofs_fragment)
    → u ≡ v
Uri-eq e h = ground arith

module _ (p : Parts) (t : Text) (pos n : ℕ) where
  pub replace_user :
      pos ≡ (build p).ofs_user
      → n ≡ length p.user
      → replace (build p).text pos n t ≡ (build (record p { user = t })).text
  unfolding build
  replace_user e f =
      replace_mid p.scheme p.user
        (p.password ++ (p.host ++ (p.port ++ (p.path ++ (p.query ++ p.fragment))))) t (build p).text
        pos n refl (omega (arith, length-append {0})) f

  pub replace_password :
      pos ≡ (build p).ofs_password
      → n ≡ length p.password
      → replace (build p).text pos n t ≡ (build (record p { password = t })).text
  unfolding build
  replace_password e f =
      replace_mid (p.scheme ++ p.user) p.password
        (p.host ++ (p.port ++ (p.path ++ (p.query ++ p.fragment)))) t (build p).text pos n
        (simp append_assoc) (omega (arith, length-append {0})) f
      ∙ simp append_assoc

  pub replace_host :
      pos ≡ (build p).ofs_host
      → n ≡ length p.host
      → replace (build p).text pos n t ≡ (build (record p { host = t })).text
  unfolding build
  replace_host e f =
      replace_mid (p.scheme ++ (p.user ++ p.password)) p.host
        (p.port ++ (p.path ++ (p.query ++ p.fragment))) t (build p).text pos n (simp append_assoc)
        (omega (arith, length-append {0})) f
      ∙ simp append_assoc

  pub replace_port :
      pos ≡ (build p).ofs_port
      → n ≡ length p.port
      → replace (build p).text pos n t ≡ (build (record p { port = t })).text
  unfolding build
  replace_port e f =
      replace_mid (p.scheme ++ (p.user ++ (p.password ++ p.host))) p.port
        (p.path ++ (p.query ++ p.fragment)) t (build p).text pos n (simp append_assoc)
        (omega (arith, length-append {0})) f
      ∙ simp append_assoc

  pub replace_path :
      pos ≡ (build p).ofs_path
      → n ≡ length p.path
      → replace (build p).text pos n t ≡ (build (record p { path = t })).text
  unfolding build
  replace_path e f =
      replace_mid (p.scheme ++ (p.user ++ (p.password ++ (p.host ++ p.port)))) p.path
        (p.query ++ p.fragment) t (build p).text pos n (simp append_assoc)
        (omega (arith, length-append {0})) f
      ∙ simp append_assoc

  pub replace_query :
      pos ≡ (build p).ofs_query
      → n ≡ length p.query
      → replace (build p).text pos n t ≡ (build (record p { query = t })).text
  unfolding build
  replace_query e f =
      replace_mid (p.scheme ++ (p.user ++ (p.password ++ (p.host ++ (p.port ++ p.path))))) p.query
        p.fragment t (build p).text pos n (simp append_assoc) (omega (arith, length-append {0})) f
      ∙ simp append_assoc

  -- The user and the password field at once.
  pub replace_user_password :
      pos ≡ (build p).ofs_user
      → n ≡ length p.user + length p.password
      → replace (build p).text pos n t ≡ (build (record p { user = t; password = [] })).text
  unfolding build
  replace_user_password e f =
      replace_mid p.scheme (p.user ++ p.password)
        (p.host ++ (p.port ++ (p.path ++ (p.query ++ p.fragment)))) t (build p).text pos n
        (simp append_assoc) e (omega (arith, length-append {0}))

  -- An insertion behind the path.
  pub replace_suffix :
      pos ≡ (build p).ofs_query
      → n ≡ 0
      → replace (build p).text pos n t ≡ (build (record p { path = p.path ++ t })).text
  unfolding build
  replace_suffix e f =
      replace_mid (p.scheme ++ (p.user ++ (p.password ++ (p.host ++ (p.port ++ p.path))))) []
        (p.query ++ p.fragment) t (build p).text pos n (simp append_assoc)
        (omega (arith, length-append {0})) f
      ∙ simp append_assoc

  -- The text up to the fragment.
  pub take_fragment :
      pos ≡ (build p).ofs_fragment
      → take pos (build p).text ++ t ≡ (build (record p { fragment = t })).text
  unfolding build
  take_fragment e =
      ap (λ s. s ++ t)
        (ap (take pos) whole
          ∙ (ap
                (λ k. take k (
                  (p.scheme
                    ++ (p.user ++ (p.password ++ (p.host ++ (p.port ++ (p.path ++ p.query))))))
                  ++ p.fragment))
                size
              ∙ take-length
                  (p.scheme
                    ++ (p.user ++ (p.password ++ (p.host ++ (p.port ++ (p.path ++ p.query))))))
                  p.fragment))
      ∙ simp append_assoc
    where
      whole :
          (build p).text
          ≡ (p.scheme ++ (p.user ++ (p.password ++ (p.host ++ (p.port ++ (p.path ++ p.query))))))
            ++ p.fragment
      whole = simp append_assoc

      size :
          pos
          ≡ length
              (p.scheme ++ (p.user ++ (p.password ++ (p.host ++ (p.port ++ (p.path ++ p.query))))))
      size = omega (arith, length-append {0})

module _ (p : Parts) (t : Text) where
  pub put_password-build : put_password (build p) t ≡ build (record p { password = t })
  unfolding put_password build
  put_password-build = Uri-eq (replace_password p t _ _ refl (omega arith)) (omega arith)

  pub put_host-build : put_host (build p) t ≡ build (record p { host = t })
  unfolding put_host build
  put_host-build = Uri-eq (replace_host p t _ _ refl (omega arith)) (omega arith)

  pub put_port-build : put_port (build p) t ≡ build (record p { port = t })
  unfolding put_port build
  put_port-build = Uri-eq (replace_port p t _ _ refl (omega arith)) (omega arith)

  pub put_path-build : put_path (build p) t ≡ build (record p { path = t })
  unfolding put_path build
  put_path-build = Uri-eq (replace_path p t _ _ refl (omega arith)) (omega arith)

  pub put_query-build : put_query (build p) t ≡ build (record p { query = b'?' ∷ t })
  unfolding put_query build
  put_query-build = Uri-eq (replace_query p (b'?' ∷ t) _ _ refl (omega arith)) (omega arith)

  pub put_fragment-build : put_fragment (build p) t ≡ build (record p { fragment = b'#' ∷ t })
  unfolding put_fragment build
  put_fragment-build = Uri-eq (take_fragment p (b'#' ∷ t) _ 0 refl) (omega arith)
