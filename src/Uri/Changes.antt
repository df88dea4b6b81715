-- ===== src/Uri/Changes.antt =====
-- Every member function that changes one component: the edits and `set_scheme`.
use rs_io.Base.{Bool, Option-cases, [], ap, arith, inl, inr, length, none, refl, some, ◌++◌, ◌≡◌}
use rs_io.Text.{Text, replace, replace_mid}
use rs_io.Uri.Defs.{Uri, Format, Result, ok, err, invalid_scheme, map_result}
use rs_io.Uri.Parse.{Patterns, put_scheme, scheme_text, set_scheme}
use rs_io.Uri.Parts.{Parts, IsWellFormed, build}
use rs_io.Uri.Refine.{apply-build}
use rs_io.Uri.Segments.{Uri-eq}
use rs_io.Uri.Spec.{Edit, spec, apply}

pub data Change : Type 0 where
  edits : Edit → Change
  scheme : Text → Bool → Change

module _ (R : Patterns) where
  -- What `set_scheme` does to the scheme: a colon, and slashes where they are asked for, are put behind
  -- the text in lower case, unless the pattern has found them there.
  abbrev pub scheme_spec : Text → Bool → Parts → Result Parts
  scheme_spec t smart p = elim (R.match_scheme (R.lowercase t)) [
    | none ↦ err invalid_scheme
    | some m ↦ ok (record p { scheme = scheme_text (R.lowercase t) smart m })
  ]

  abbrev pub change_spec : Format → Change → Parts → Result Parts
  change_spec F (edits e) p = spec F e p
  change_spec F (scheme t smart) p = scheme_spec t smart p

  unfoldable pub change : Format → Change → Uri → Result Uri
  change F (edits e) u = apply F e u
  change F (scheme t smart) u = set_scheme R u t smart

module _ (p : Parts) where
  replace_scheme :
      (t : Text)
      → replace (build p).text 0 (length p.scheme) t ≡ (build (record p { scheme = t })).text
  unfolding build
  replace_scheme t =
      replace_mid [] p.scheme
        (p.user ++ (p.password ++ (p.host ++ (p.port ++ (p.path ++ (p.query ++ p.fragment)))))) t
        (build p).text 0 (length p.scheme) refl refl refl

  scheme-build : (t : Text) → put_scheme (build p) t ≡ build (record p { scheme = t })
  unfolding put_scheme build
  scheme-build t = Uri-eq (replace_scheme t) (omega arith)

  set_scheme-build :
      (R : Patterns) (t : Text) (smart : Bool)
      → set_scheme R (build p) t smart ≡ map_result build (scheme_spec R t smart p)
  unfolding set_scheme
  set_scheme-build R t smart = elim (Option-cases (R.match_scheme (R.lowercase t))) [
    | inl missed ↦ rw (set_scheme, scheme_spec, missed) refl
    | inr (m, found) ↦
        rw (set_scheme, scheme_spec, found)
          (ap ok (scheme-build (scheme_text (R.lowercase t) smart m)))
  ]

-- On a well-formed URI, each member function that changes one component does what the specification says
-- of the components, errors included: the setters of the user, the password, the host, the port, the path,
-- the query, the fragment and the scheme, `append_path`, and through them the functions that clear a
-- component. The specification follows the code where docs/uri.md differs from it: an empty query or
-- fragment clears the component, and the query is not escaped.
pub change-build :
    (p : Parts)
    → IsWellFormed p
    → (R : Patterns) (F : Format) (c : Change)
    → change R F c (build p) ≡ map_result build (change_spec R F c p)
unfolding change
change-build p w R F (edits e) = apply-build p w F e
change-build p w R F (scheme t smart) = set_scheme-build p R t smart
