-- ===== src/Tests/Queries.antt =====
-- The round trip of queries at concrete pairs, with a concrete split at a delimiter.
use rs_io.Uri.Query.{make_query, separated}
use rs_io.Uri.Encode.{is_safe}
use rs_io.Text.{Text, contains}
use rs_io.Base.{
  List, [], ap, append-nil, append_assoc, arith, false, if◌then◌else◌, is_nil, refl, sym, true, ℕ,
  ◌++◌, ◌==◌, ◌∙◌, ◌∷◌, ◌≡◌,
}
use rs_io.Tests.Uris.{hex_format, hex_format-FormatLaws}
use rs_io.Uri.Query.ReadBack.{
  Splitting, SplittingLaws, DigitLaws, AreEntries, parse_query, parse_query-make_query,
}

abbrev pairs : List (Text × Text)
pairs = (b'a' ∷ [], b'1' ∷ []) ∷ (b'b' ∷ [], []) ∷ []

-- The texts between the delimiters, but for an empty one at the end.
abbrev split_from : ℕ → Text → Text → List Text
split_from d part [] = if is_nil part then [] else part ∷ []
split_from d part (c ∷ s) =
    if c == d then part ∷ split_from d [] s else split_from d (part ++ (c ∷ [])) s

abbrev cut_equals : Text → Text × Text
cut_equals [] = ([], [])
cut_equals (c ∷ s) = if c == b'=' then ([], s) else (c ∷ (cut_equals s).0, (cut_equals s).1)

abbrev splitting : Splitting
splitting = record { split = λ s d. split_from d [] s; partition_equals = cut_equals }

split_from-last :
    (d : ℕ) (part e : Text)
    → is_nil (part ++ e) ≡ false
    → contains d e ≡ false
    → split_from d part e ≡ (part ++ e) ∷ []
split_from-last d part [] n h =
    let some_part : is_nil part ≡ false = ap is_nil (sym (append-nil part)) ∙ n in
    rw some_part (ap (λ (t : Text). t ∷ []) (sym (append-nil part)))
split_from-last d part (c ∷ e) n h =
    let other : (c == d) ≡ false = ground (arith, h) in
    let shape = append_assoc part (c ∷ []) e in
    rw other (
      split_from-last d (part ++ (c ∷ [])) e (ap is_nil shape ∙ n) (ground (arith, h))
      ∙ ap (λ (t : Text). t ∷ []) shape)

split_from-next :
    (d : ℕ) (part e rest : Text)
    → contains d e ≡ false
    → split_from d part (e ++ (d ∷ rest)) ≡ (part ++ e) ∷ split_from d [] rest
split_from-next d part [] rest h =
    let same : (d == d) ≡ true = ground arith in
    rw same (ap (λ (t : Text). t ∷ split_from d [] rest) (sym (append-nil part)))
split_from-next d part (c ∷ e) rest h =
    let other : (c == d) ≡ false = ground (arith, h) in
    rw other (
      split_from-next d (part ++ (c ∷ [])) e rest (ground (arith, h))
      ∙ ap (λ (t : Text). t ∷ split_from d [] rest) (append_assoc part (c ∷ []) e))

split_from-separated :
    (d : ℕ) (es : List Text) → AreEntries d es → split_from d [] (separated d es) ≡ es
split_from-separated d [] h = refl
split_from-separated d (e ∷ []) (n, p, h) = split_from-last d [] e n p
split_from-separated d (e ∷ f ∷ es) (n, p, h) =
    split_from-next d [] e (separated d (f ∷ es)) p ∙ ap (◌∷◌ e) (split_from-separated d (f ∷ es) h)

cut_equals-pair : (k v : Text) → contains b'=' k ≡ false → cut_equals (k ++ (b'=' ∷ v)) ≡ (k, v)
cut_equals-pair [] v h = refl
cut_equals-pair (c ∷ k) v h =
    let other : (c == b'=') ≡ false = ground (arith, h) in
    rw other (ap (λ (r : Text × Text). (c ∷ r.0, r.1)) (cut_equals-pair k v (ground (arith, h))))

cut_equals-none : (k : Text) → contains b'=' k ≡ false → cut_equals k ≡ (k, [])
cut_equals-none [] h = refl
cut_equals-none (c ∷ k) h =
    let other : (c == b'=') ≡ false = ground (arith, h) in
    rw other (ap (λ (r : Text × Text). (c ∷ r.0, r.1)) (cut_equals-none k (ground (arith, h))))

splitting-SplittingLaws : SplittingLaws splitting
splitting-SplittingLaws = record {
  split-separated = split_from-separated;
  partition-pair = cut_equals-pair;
  partition-none = cut_equals-none;
}

hex_format-DigitLaws : DigitLaws hex_format
hex_format-DigitLaws = record { xdigit-isalnum_w = λ c h. h }

parse_query-make_query_example :
    parse_query hex_format splitting (make_query hex_format b'&' true pairs) b'&' ≡ pairs
unfolding is_safe
parse_query-make_query_example =
    parse_query-make_query hex_format hex_format-FormatLaws hex_format-DigitLaws splitting
      splitting-SplittingLaws b'&' true pairs refl refl refl refl refl
      (refl, (omega arith, tt), (omega arith, tt), (refl, (omega arith, tt), tt, tt))
