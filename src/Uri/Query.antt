-- ===== src/Uri/Query.antt =====
-- Uri::make_query of uri.hpp, and in the child module Uri::parse_query of uri.cpp.
pub mod ReadBack
use rs_io.Text.{Text}
use rs_io.Base.{
  Bool, List, [], ap, append-nil, arith, if◌then◌else◌, is_nil, length, length-append, map, not,
  refl, ℕ, ◌++◌, ◌<◌, ◌||◌, ◌∙◌, ◌∷◌, ◌≡◌,
}
use rs_io.Uri.Defs.{Format}
use rs_io.Uri.Encode.{encode}

-- `q.pop_back()`, where `q` is not empty.
abbrev pub cut_last : Text → Text
cut_last [] = []
cut_last (x ∷ []) = []
cut_last (x ∷ y ∷ s) = x ∷ cut_last (y ∷ s)

module _ (F : Format) (delimiter : ℕ) (lone : Bool) where
  -- What the loop adds for a key and a value, without the delimiter.
  unfoldable pub query_entry : Text × Text → Text
  query_entry (k, v) =
      encode F k [] ++ (if not lone || not (is_nil v) then b'=' ∷ encode F v [] else encode F v [])

  unfoldable pub query_loop : List (Text × Text) → Text
  query_loop [] = []
  query_loop (kv ∷ kvs) = query_entry kv ++ delimiter ∷ query_loop kvs

  unfoldable pub make_query : List (Text × Text) → Text
  make_query kvs = cut_last (query_loop kvs)

-- Texts with the delimiter between them.
abbrev pub separated : ℕ → List Text → Text
separated d [] = []
separated d (e ∷ []) = e
separated d (e ∷ f ∷ es) = e ++ d ∷ separated d (f ∷ es)

cut_last-cons : (c : ℕ) (t : Text) → 0 < length t → cut_last (c ∷ t) ≡ c ∷ cut_last t
cut_last-cons c [] h = absurd (omega arith)
cut_last-cons c (x ∷ t) h = refl

cut_last-append : (s t : Text) → 0 < length t → cut_last (s ++ t) ≡ s ++ cut_last t
cut_last-append [] t h = refl
cut_last-append (x ∷ s) t h =
    cut_last-cons x (s ++ t) (omega (arith, length-append s t)) ∙ ap (◌∷◌ x) (cut_last-append s t h)

module _ (F : Format) (delimiter : ℕ) (lone : Bool) where
  -- The query is the entries of the range with the delimiter between them, and none at the end.
  pub make_query-separated :
      (kvs : List (Text × Text))
      → make_query F delimiter lone kvs
        ≡ separated delimiter (map (query_entry F delimiter lone) kvs)
  unfolding make_query query_loop
  make_query-separated [] = refl
  make_query-separated (kv ∷ []) =
      cut_last-append (query_entry F delimiter lone kv) (delimiter ∷ []) (omega arith)
      ∙ append-nil (query_entry F delimiter lone kv)
  make_query-separated (kv ∷ kw ∷ kvs) =
      let rest = query_loop F delimiter lone (kw ∷ kvs) in
      let some_rest : 0 < length rest = omega (
        arith,
        length-append (query_entry F delimiter lone kw)
            (delimiter ∷ query_loop F delimiter lone kvs),
      ) in
      cut_last-append (query_entry F delimiter lone kv) (delimiter ∷ rest) (omega arith)
      ∙ (ap (◌++◌ (query_entry F delimiter lone kv)) (cut_last-cons delimiter rest some_rest)
          ∙ ap (λ t. query_entry F delimiter lone kv ++ delimiter ∷ t)
              (make_query-separated (kw ∷ kvs)))
