-- ===== src/Uri/Assemble.antt =====
-- What parsing and the constructors make, given what the regular expressions capture.
use rs_io.Base.{
  Bool, Bool-cases, Option-cases, [], ap, arith, false, inl, inr, length, length-append, none, refl,
  some, sym, true, ℕ, ◌++◌, ◌<◌, ◌↔◌, ◌∙◌, ◌∷◌, ◌≡◌, ◌≢◌,
}
use rs_io.Text.{Text}
use rs_io.Uri.Defs.{Uri, Format, Result, ok, err, invalid_scheme, empty_value, ◌>>=◌, map_result}
use rs_io.Uri.Edit.{set_user, set_password, set_host, set_port, set_path, set_query, set_fragment}
use rs_io.Uri.Parse.{
  Groups, Patterns, any, offsets, scheme_text, put_scheme, parse, set_scheme, assemble,
}
use rs_io.Uri.Parts.{Parts, IsWellFormed, build, Begins}
use rs_io.Uri.Segments.{Uri-eq}
use rs_io.Uri.Spec.{Edit, spec, apply, user, password, host, port, path, query, fragment}
use rs_io.Uri.Refine.{apply-build}
use rs_io.Uri.Preserve.{Keeps, Good, spec-IsWellFormed}

-- What a full match of the pattern in `try_parse` says of its groups: in their order they spell the
-- text, an optional group that took no part is empty, and each begins as its subpattern does.
pub record IsMatch (s : Text) (g : Groups) : Type 0 where
  pub spells :
      s
      ≡ g.scheme
        ++ (g.user ++ (g.password ++ (g.host ++ (g.port ++ (g.path ++ (g.query ++ g.fragment))))))
  pub scheme_group : 0 < length g.scheme
  pub authority : g.host ≡ [] → (g.user ≡ []) × (g.password ≡ []) × (g.port ≡ [])
  pub user_group : (g.user ≡ []) ↔ (g.password ≡ [])
  pub port_group : Begins b':' g.port
  pub path_group : Begins b'/' g.path
  pub query_group : Begins b'?' g.query
  pub fragment_group : Begins b'#' g.fragment

pub record PatternLaws (R : Patterns) : Type 0 where
  pub match_uri_groups : (s : Text) (g : Groups) → R.match_uri s ≡ some g → IsMatch s g
  pub match_scheme_text : (s : Text) (m : Bool × Bool) → R.match_scheme s ≡ some m → 0 < length s

abbrev pub parts_of : Groups → Parts
parts_of g = record {
  scheme = g.scheme;
  user = g.user;
  password = g.password;
  host = g.host;
  port = g.port;
  path = g.path;
  query = g.query;
  fragment = g.fragment;
}

positive : (t : Text) → t ≢ [] → 0 < length t
positive [] h = absurd (h refl)
positive (c ∷ t) h = omega arith

IsMatch-IsWellFormed : (s : Text) (g : Groups) → IsMatch s g → IsWellFormed (parts_of g)
IsMatch-IsWellFormed s g m = record {
  named = m.scheme_group;
  no_password = m.user_group.0;
  password_field = λ h. positive g.password (λ e. h (m.user_group.1 e));
  user_host = λ e. (m.authority e).0;
  port_host = λ e. (m.authority e).2;
  port_mark = m.port_group;
  path_mark = m.path_group;
  query_mark = m.query_group;
  fragment_mark = m.fragment_group;
}

offsets-build : (s : Text) (g : Groups) → IsMatch s g → offsets s g ≡ build (parts_of g)
unfolding offsets build
offsets-build s g m = Uri-eq m.spells (omega arith)

-- What a text is parsed to is the value of well-formed components and has the text itself; the text has
-- no control characters.
parse-build :
    (R : Patterns)
    → PatternLaws R
    → (s : Text) {u : Uri} → parse R s ≡ ok u
    → (p : Parts) × (u ≡ build p) × IsWellFormed p × (u.text ≡ s) × (any R.iscntrl s ≡ false)
unfolding parse offsets
parse-build R L s {u} h = elim (Bool-cases (any R.iscntrl s)) [
  | inl control ↦ absurd (ground arith)
  | inr clean ↦ elim (Option-cases (R.match_uri s)) [
    | inl missed ↦ absurd (ground arith)
    | inr (g, found) ↦
        let m = L.match_uri_groups s g found in
        let made : offsets s g ≡ u = ground arith in
        (
          parts_of g,
          sym made ∙ offsets-build s g m,
          IsMatch-IsWellFormed s g m,
          sym (ap (λ v. v.text) made),
          clean,
        )
  ]
]

step :
    (y : Result Parts) (f : Uri → Result Uri) (g : Parts → Result Parts)
    → Good y
    → ((q : Parts) → IsWellFormed q → f (build q) ≡ map_result build (g q))
    → (map_result build y >>= f) ≡ map_result build (y >>= g)
step (ok q) f g w h = h q w
step (err e) f g w h = refl

module _ (F : Format) (e : Edit) (f : Uri → Result Uri) (g : Parts → Result Parts) where
  edit_step :
      (p : Parts)
      → IsWellFormed p
      → Keeps e p
      → ((q : Parts) → IsWellFormed q → f (build q) ≡ map_result build (g q))
      → (apply F e (build p) >>= f) ≡ map_result build (spec F e p >>= g)
  edit_step p w k h =
      rw (apply-build p w F e) (step (spec F e p) f g (spec-IsWellFormed F p w e k) h)

abbrev pub only_scheme : Text → Parts
only_scheme t = record {
  scheme = t;
  user = [];
  password = [];
  host = [];
  port = [];
  path = [];
  query = [];
  fragment = [];
}

only_scheme-IsWellFormed : (t : Text) → 0 < length t → IsWellFormed (only_scheme t)
only_scheme-IsWellFormed t h = record {
  named = h;
  no_password = λ _. refl;
  password_field = λ e. absurd (e refl);
  user_host = λ _. refl;
  port_host = λ _. refl;
  port_mark = tt;
  path_mark = tt;
  query_mark = tt;
  fragment_mark = tt;
}

put_scheme-build : (t : Text) → put_scheme empty_value t ≡ build (only_scheme t)
unfolding put_scheme build empty_value
put_scheme-build t = Uri-eq refl (omega arith)

scheme_text-pos : (s : Text) (m : Bool × Bool) → 0 < length s → 0 < length (scheme_text s true m)
unfolding scheme_text
scheme_text-pos s (a, b) h = ground (
  arith,
  length-append s (b':' ∷ []),
  length-append s (b'/' ∷ b'/' ∷ []),
  length-append (s ++ b':' ∷ []) (b'/' ∷ b'/' ∷ []),
)

-- The specification of the eight-argument constructor: the edits in the order of the source.
abbrev pub assembled : Format → Text → Text → Text → Text → ℕ → Text → Text → Text → Result Parts
assembled F t u w h n d q f = do
  b ← spec F (host h) (only_scheme t)
  c ← spec F (user u) b
  d' ← spec F (password w) c
  e ← spec F (port n) d'
  f' ← spec F (path d) e
  g ← spec F (query q) f'
  spec F (fragment f) g

-- The constructor from components does what the specification of each setter says, in this order,
-- beginning with the scheme alone; a scheme that its pattern refuses is an error.
pub assemble-build :
    (R : Patterns)
    → PatternLaws R
    → (F : Format) (s u w h : Text) (n : ℕ) (d q f : Text)
    → (R.match_scheme (R.lowercase s) ≡ none → assemble R F s u w h n d q f ≡ err invalid_scheme)
      × ((m : Bool × Bool)
          → R.match_scheme (R.lowercase s) ≡ some m
          → assemble R F s u w h n d q f
            ≡ map_result build (assembled F (scheme_text (R.lowercase s) true m) u w h n d q f))
unfolding assemble apply
assemble-build R L F s u w h n d q f =
    (λ e. rw (e, set_scheme), λ m e. rw (e, set_scheme) (rest m e))
  where
    rest :
        (m : Bool × Bool)
        → R.match_scheme (R.lowercase s) ≡ some m
        → (do
          b ← set_host F (put_scheme empty_value (scheme_text (R.lowercase s) true m)) h
          c ← set_user F b u
          d' ← set_password F c w
          e ← set_port d' n
          f' ← set_path F e d
          g ← set_query f' q
          set_fragment F g f)
          ≡ map_result build (assembled F (scheme_text (R.lowercase s) true m) u w h n d q f)
    rest m e =
        let t = scheme_text (R.lowercase s) true m in
        let v =
          only_scheme-IsWellFormed t
            (scheme_text-pos (R.lowercase s) m (L.match_scheme_text (R.lowercase s) m e)) in
        let f7 = λ (x : Uri). set_fragment F x f in
        let f6 = λ (x : Uri). set_query x q >>= f7 in
        let f5 = λ (x : Uri). set_path F x d >>= f6 in
        let f4 = λ (x : Uri). set_port x n >>= f5 in
        let f3 = λ (x : Uri). set_password F x w >>= f4 in
        let f2 = λ (x : Uri). set_user F x u >>= f3 in
        let g7 = λ (x : Parts). spec F (fragment f) x in
        let g6 = λ (x : Parts). spec F (query q) x >>= g7 in
        let g5 = λ (x : Parts). spec F (path d) x >>= g6 in
        let g4 = λ (x : Parts). spec F (port n) x >>= g5 in
        let g3 = λ (x : Parts). spec F (password w) x >>= g4 in
        let g2 = λ (x : Parts). spec F (user u) x >>= g3 in
        rw (put_scheme-build t) (
          edit_step F (host h) f2 g2 (only_scheme t) v (λ _. (refl, refl))
            λ b vb. edit_step F (user u) f3 g3 b vb tt λ c vc.
              edit_step F (password w) f4 g4 c vc tt λ d' vd.
                edit_step F (port n) f5 g5 d' vd tt λ e' ve.
                  edit_step F (path d) f6 g6 e' ve tt λ f' vf.
                    edit_step F (query q) f7 g7 f' vf tt λ g vg. apply-build g vg F (fragment f))
