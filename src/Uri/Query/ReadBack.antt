-- ===== src/Uri/Query/ReadBack.antt =====
-- Uri::parse_query of uri.cpp, and that it reads back what Uri::make_query makes. `split` and `partition_at` of
-- the format library are parameters.
use rs_io.Uri.Encode.{IsBytes, decode, encode, is_safe, decode-encode, decode-eq_from}
use rs_io.Text.{Text, contains}
use rs_io.Uri.Defs.{Format, FormatLaws}
use rs_io.Base.{
  ==_iff, Bool, Bool-cases, List, [], ap, append-nil, arith, false, if◌then◌else◌, inl, inr, is_nil,
  map, not, refl, sym, true, ℕ, ◌++◌, ◌==◌, ◌||◌, ◌∙◌, ◌∷◌, ◌≡◌,
}
use rs_io.Uri.Encode.{decode_from}
use rs_io.Uri.Query.{query_entry, make_query, make_query-separated, separated}

pub record Splitting : Type 0 where
  pub split : Text → ℕ → List Text
  pub partition_equals : Text → Text × Text

-- The first `&` or `;`, and `&` where there is none.
abbrev pub first_delimiter : Text → ℕ
first_delimiter [] = b'&'
first_delimiter (c ∷ s) = if c == b'&' || c == b';' then c else first_delimiter s

module _ (F : Format) (S : Splitting) where
  unfoldable pub parse_entry : Text → Text × Text
  parse_entry e = (decode F (S.partition_equals e).0, decode F (S.partition_equals e).1)

  unfoldable pub parse_query : Text → ℕ → List (Text × Text)
  unfolding parse_entry
  parse_query query delimiter =
      map parse_entry (S.split query (if delimiter == 0 then first_delimiter query else delimiter))

abbrev pub AreEntries : ℕ → List Text → Type 0
AreEntries d [] = Unit {0}
AreEntries d (e ∷ es) = (is_nil e ≡ false) × (contains d e ≡ false) × AreEntries d es

-- What the class relies on: texts that are not empty and have no delimiter are split apart at it, and an entry
-- is cut at its first equals sign.
pub record SplittingLaws (S : Splitting) : Type 0 where
  pub split-separated : (d : ℕ) (es : List Text) → AreEntries d es → S.split (separated d es) d ≡ es
  pub partition-pair :
      (k v : Text) → contains b'=' k ≡ false → S.partition_equals (k ++ (b'=' ∷ v)) ≡ (k, v)
  pub partition-none : (k : Text) → contains b'=' k ≡ false → S.partition_equals k ≡ (k, [])

-- The hexadecimal digits are alphanumeric.
pub record DigitLaws (F : Format) : Type 0 where
  pub xdigit-isalnum_w : (c : ℕ) → F.isxdigit c ≡ true → F.isalnum_w c ≡ true

-- Keys that are not empty, and bytes.
abbrev pub AreKeyed : List (Text × Text) → Type 0
AreKeyed [] = Unit {0}
AreKeyed ((k, v) ∷ kvs) = (is_nil k ≡ false) × IsBytes k × IsBytes v × AreKeyed kvs

contains-append :
    (c : ℕ) (s t : Text) → contains c s ≡ false → contains c t ≡ false → contains c (s ++ t) ≡ false
contains-append c [] t h k = k
contains-append c (x ∷ s) t h k = ground (arith, contains-append c s t)

module _ (F : Format) (L : FormatLaws F) (D : DigitLaws F) where
  apart : (x c : ℕ) → is_safe F [] x ≡ true → is_safe F [] c ≡ false → (x == c) ≡ false
  apart x c h k = elim (Bool-cases (x == c)) [
    | inl e ↦
        let clash : true ≡ false = sym h ∙ (ap (is_safe F []) ((==_iff x c).0 e) ∙ k) in absurd cc
    | inr e ↦ e
  ]

  alnum-safe : (x : ℕ) → F.isalnum_w x ≡ true → is_safe F [] x ≡ true
  unfolding is_safe
  alnum-safe x h = rw h refl

  -- A character that `encode` escapes does not occur in what it gives.
  contains-encode :
      (c : ℕ) (s : Text)
      → is_safe F [] c ≡ false
      → (c == b'%') ≡ false
      → IsBytes s
      → contains c (encode F s []) ≡ false
  unfolding encode
  contains-encode c [] h p b = refl
  contains-encode c (x ∷ s) h p (bx, bs) = elim (Bool-cases (is_safe F [] x)) [
    | inl safe ↦ rw safe (ground (arith, apart x c safe h, contains-encode c s h p bs))
    | inr unsafe ↦
        rw (unsafe, L.hex_pair x bx)
          (ground (
            arith,
            p,
            apart (L.high x) c
                (alnum-safe (L.high x) (D.xdigit-isalnum_w (L.high x) (L.high-isxdigit x bx))) h,
            apart (L.low x) c
                (alnum-safe (L.low x) (D.xdigit-isalnum_w (L.low x) (L.low-isxdigit x bx))) h,
            contains-encode c s h p bs,
          ))
  ]

  filled-encode : (s : Text) → is_nil s ≡ false → is_nil (encode F s []) ≡ false
  unfolding encode
  filled-encode [] h = h
  filled-encode (c ∷ s) h = ground arith

  module _ (S : Splitting) (T : SplittingLaws S) (d : ℕ) (lone : Bool) where
    pair-back :
        (k v : Text)
        → is_safe F [] b'=' ≡ false
        → IsBytes k
        → IsBytes v
        → parse_entry F S (encode F k [] ++ (b'=' ∷ encode F v [])) ≡ (k, v)
    unfolding parse_entry
    pair-back k v e bk bv =
        rw
          (
            T.partition-pair (encode F k []) (encode F v []) (contains-encode b'=' k e refl bk),
            decode-encode F L k [] bk refl,
            decode-encode F L v [] bv refl,
          )
          refl

    lone-back :
        (k : Text)
        → is_safe F [] b'=' ≡ false
        → IsBytes k
        → parse_entry F S (encode F k [] ++ []) ≡ (k, [])
    unfolding parse_entry decode_from
    lone-back k e bk =
        rw
          (
            append-nil (encode F k []),
            T.partition-none (encode F k []) (contains-encode b'=' k e refl bk),
            decode-encode F L k [] bk refl,
          )
          (ap (λ (t : Text). (k, t)) (decode-eq_from F []))

    entry-back :
        (alone : Bool) (k v : Text)
        → is_safe F [] b'=' ≡ false
        → IsBytes k
        → IsBytes v
        → parse_entry F S (query_entry F d alone (k, v)) ≡ (k, v)
    unfolding query_entry encode
    entry-back false k v e bk bv = pair-back k v e bk bv
    entry-back true k (c ∷ v) e bk bv = pair-back k (c ∷ v) e bk bv
    entry-back true k [] e bk bv = lone-back k e bk

    filled-append : (s t : Text) → is_nil s ≡ false → is_nil (s ++ t) ≡ false
    filled-append [] t h = absurd cc
    filled-append (c ∷ s) t h = refl

    entry-plain :
        (alone : Bool) (k v : Text)
        → is_safe F [] d ≡ false
        → (d == b'%') ≡ false
        → (d == b'=') ≡ false
        → IsBytes k
        → IsBytes v
        → contains d (query_entry F d alone (k, v)) ≡ false
    unfolding query_entry
    entry-plain alone k v h p q bk bv =
        let in_k = contains-encode d k h p bk in
        let in_v = contains-encode d v h p bv in
        contains-append d (encode F k [])
          (if not alone || not (is_nil v) then b'=' ∷ encode F v [] else encode F v []) in_k
          (ground (arith, in_v, q))

    entries-AreEntries :
        (kvs : List (Text × Text))
        → is_safe F [] b'=' ≡ false
        → is_safe F [] d ≡ false
        → (d == b'%') ≡ false
        → (d == b'=') ≡ false
        → AreKeyed kvs
        → AreEntries d (map (query_entry F d lone) kvs)
    unfolding query_entry
    entries-AreEntries [] e h p q w = tt
    entries-AreEntries ((k, v) ∷ kvs) e h p q (n, bk, bv, w) = (
      filled-append (encode F k [])
          (if not lone || not (is_nil v) then b'=' ∷ encode F v [] else encode F v [])
          (filled-encode k n),
      entry-plain lone k v h p q bk bv,
      entries-AreEntries kvs e h p q w,
    )

    entries-back :
        (kvs : List (Text × Text))
        → is_safe F [] b'=' ≡ false
        → AreKeyed kvs
        → map (parse_entry F S) (map (query_entry F d lone) kvs) ≡ kvs
    entries-back [] e w = refl
    entries-back ((k, v) ∷ kvs) e (n, bk, bv, w) =
        ap (λ (kv : Text × Text). kv ∷ map (parse_entry F S) (map (query_entry F d lone) kvs))
          (entry-back lone k v e bk bv)
        ∙ ap (◌∷◌ (k, v)) (entries-back kvs e w)

    -- `parse_query` gives back the keys and values that `make_query` was given, in their order, with or without
    -- the flag for lone keys: for bytes, keys that are not empty, and a delimiter that is escaped in a text,
    -- is no equals sign, no percent sign and no NUL.
    pub parse_query-make_query :
        (kvs : List (Text × Text))
        → is_safe F [] b'=' ≡ false
        → is_safe F [] d ≡ false
        → (d == b'%') ≡ false
        → (d == b'=') ≡ false
        → (d == 0) ≡ false
        → AreKeyed kvs
        → parse_query F S (make_query F d lone kvs) d ≡ kvs
    unfolding parse_query
    parse_query-make_query kvs e h p q z w =
        rw
          (
            z,
            make_query-separated F d lone kvs,
            T.split-separated d (map (query_entry F d lone) kvs) (entries-AreEntries kvs e h p q w),
          )
          (entries-back kvs e w)
