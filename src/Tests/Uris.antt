-- ===== src/Tests/Uris.antt =====
-- The theorems on URIs at concrete URIs, with a concrete formatting library and concrete patterns.
use rs_io.Uri.Changes.{change, change_spec, change-build, scheme}
use rs_io.Uri.Refine.{apply-build}
use rs_io.Uri.Edit.{path_exempt}
use rs_io.Uri.Cuts.{doc-build, parent-build}
use rs_io.Uri.Spec.{host, user}
use rs_io.Uri.Related.{doc, parent}
use rs_io.Uri.ReadBack.{Reads, apply-Reads}
use rs_io.Uri.Assemble.{PatternLaws, IsMatch, assembled, assemble-build}
use rs_io.Uri.Preserve.{apply-IsWellFormed}
use rs_io.Text.Decimal.{is_digit}
use rs_io.Text.{Text, text_eq, text_eq_sound}
use rs_io.Uri.Parts.{IsWellFormed, Parts, build}
use rs_io.Uri.Encode.{IsBytes, decode, encode, decode-encode}
use rs_io.Uri.Parse.{Groups, Patterns, assemble, scheme_text}
use rs_io.Uri.Defs.{Format, FormatLaws, err, invalid_scheme, map_result}
use rs_io.Base.{
  Bool, List, Option, [], arith, false, if◌then◌else◌, inl, leb, length, ltb, none, refl, some,
  subst, sym, true, ℕ, ◌%◌, ◌&&◌, ◌*◌, ◌++◌, ◌+◌, ◌-◌, ◌/◌, ◌<◌, ◌||◌, ◌∷◌, ◌≡◌, ◌≢◌,
}

abbrev digit_of : ℕ → ℕ
digit_of n = if ltb n 10 then 48 + n else 87 + n

abbrev value_of : ℕ → ℕ
value_of c = if ltb c 58 then c - 48 else c - 87

-- Letters and digits in lower case.
abbrev is_word : ℕ → Bool
is_word c = is_digit c || leb 97 c && leb c 122

abbrev pub hex_format : Format
hex_format = record {
  isalnum_w = is_word;
  isxdigit = is_word;
  hex = λ b. digit_of (b / 16) ∷ digit_of (b % 16) ∷ [];
  to_uint8 = λ x y. value_of x * 16 + value_of y;
}

digit_of-word : (n : ℕ) → n < 16 → is_word (digit_of n) ≡ true
digit_of-word n h = ground arith

value_of-digit_of : (n : ℕ) → n < 16 → value_of (digit_of n) ≡ n
value_of-digit_of n h = ground arith

pub hex_format-FormatLaws : FormatLaws hex_format
hex_format-FormatLaws = record {
  percent = refl;
  high = λ b. digit_of (b / 16);
  low = λ b. digit_of (b % 16);
  hex_pair = λ b h. refl;
  high-isxdigit = λ b h. digit_of-word (b / 16) (omega arith);
  low-isxdigit = λ b h. digit_of-word (b % 16) (omega arith);
  to_uint8-hex = λ b h.
      omega
        (arith, value_of-digit_of (b / 16) (omega arith), value_of-digit_of (b % 16) (omega arith));
}

-- "a:" and then "//", "u", ":p@", "h", ":8", "/x/y", "?q", "#f"
abbrev page : Parts
page = record {
  scheme = b'a' ∷ b':' ∷ b'/' ∷ b'/' ∷ [];
  user = b'u' ∷ [];
  password = b':' ∷ b'p' ∷ b'@' ∷ [];
  host = b'h' ∷ [];
  port = b':' ∷ b'8' ∷ [];
  path = b'/' ∷ b'x' ∷ b'/' ∷ b'y' ∷ [];
  query = b'?' ∷ b'q' ∷ [];
  fragment = b'#' ∷ b'f' ∷ [];
}

cons_ne_nil : {A : Type 0} {x : A} {xs : List A} → x ∷ xs ≢ []
cons_ne_nil e = cc

page-IsWellFormed : IsWellFormed page
page-IsWellFormed = record {
  named = omega arith;
  no_password = λ e. absurd (cons_ne_nil e);
  password_field = λ e. omega arith;
  user_host = λ e. absurd (cons_ne_nil e);
  port_host = λ e. absurd (cons_ne_nil e);
  port_mark = refl;
  path_mark = refl;
  query_mark = refl;
  fragment_mark = refl;
}

abbrev word : Text
word = b'a' ∷ b' ' ∷ b'%' ∷ []

word-IsBytes : IsBytes word
word-IsBytes = (omega arith, (omega arith, (omega arith, tt)))

abbrev page_groups : Groups
page_groups = record {
  scheme = page.scheme;
  user = page.user;
  password = page.password;
  host = page.host;
  port = page.port;
  path = page.path;
  query = page.query;
  fragment = page.fragment;
}

abbrev page_text : Text
page_text =
    page.scheme
    ++ (page.user
        ++ (page.password
            ++ (page.host ++ (page.port ++ (page.path ++ (page.query ++ page.fragment))))))

-- Patterns that know one URI and one scheme.
abbrev find_page : Bool → Option Groups
find_page true = some page_groups
find_page false = none

abbrev find_scheme : Bool → Option (Bool × Bool)
find_scheme true = some (false, false)
find_scheme false = none

abbrev page_patterns : Patterns
page_patterns = record {
  iscntrl = λ c. ltb c 32;
  lowercase = λ s. s;
  match_uri = λ s. find_page (text_eq s page_text);
  match_scheme = λ s. find_scheme (text_eq s (b'a' ∷ []));
}

find_page-some : (b : Bool) (g : Groups) → find_page b ≡ some g → (b ≡ true) × (g ≡ page_groups)
find_page-some true g h = (refl, cc)
find_page-some false g h = absurd cc

page_patterns-PatternLaws : PatternLaws page_patterns
page_patterns-PatternLaws = record { match_uri_groups = groups_of; match_scheme_text = scheme_of }
  where
    page_match : IsMatch page_text page_groups
    page_match = record {
      spells = refl;
      scheme_group = omega arith;
      authority = λ e. absurd (cons_ne_nil e);
      user_group = (λ e. absurd (cons_ne_nil e), λ e. absurd (cons_ne_nil e));
      port_group = refl;
      path_group = refl;
      query_group = refl;
      fragment_group = refl;
    }

    groups_of : (s : Text) (g : Groups) → find_page (text_eq s page_text) ≡ some g → IsMatch s g
    groups_of s g h =
        let (b, e) = find_page-some (text_eq s page_text) g h in
        subst (λ t. IsMatch t g) (sym (text_eq_sound s page_text b))
          (subst (IsMatch page_text) (sym e) page_match)

    scheme_of :
        (s : Text) (m : Bool × Bool) → find_scheme (text_eq s (b'a' ∷ [])) ≡ some m → 0 < length s
    scheme_of [] m h = absurd cc
    scheme_of (c ∷ s) m h = omega arith

change-build_example :
    change page_patterns hex_format (scheme (b'a' ∷ []) true) (build page)
    ≡ map_result build (change_spec page_patterns hex_format (scheme (b'a' ∷ []) true) page)
change-build_example =
    change-build page page-IsWellFormed page_patterns hex_format (scheme (b'a' ∷ []) true)

apply-IsWellFormed_example :
    (q : Parts) × (build (record page { host = encode hex_format word [] }) ≡ build q)
    × IsWellFormed q
apply-IsWellFormed_example =
    apply-IsWellFormed hex_format page page-IsWellFormed (host word) (λ e. absurd (cons_ne_nil e))
      (apply-build page page-IsWellFormed hex_format (host word))

apply-Reads_example :
    Reads hex_format (user word) (build (record page { user = encode hex_format word [] }))
apply-Reads_example =
    apply-Reads hex_format hex_format-FormatLaws page page-IsWellFormed (user word)
      (word-IsBytes, omega arith) (apply-build page page-IsWellFormed hex_format (user word))

decode-encode_example : decode hex_format (encode hex_format word path_exempt) ≡ word
decode-encode_example =
    decode-encode hex_format hex_format-FormatLaws word path_exempt word-IsBytes refl

assemble-build_example :
    (page_patterns.match_scheme word ≡ none
      → assemble page_patterns hex_format word [] [] word 80 [] [] [] ≡ err invalid_scheme)
    × ((m : Bool × Bool)
        → page_patterns.match_scheme word ≡ some m
        → assemble page_patterns hex_format word [] [] word 80 [] [] []
          ≡ map_result build
              (assembled hex_format (scheme_text word true m) [] [] word 80 [] [] []))
assemble-build_example =
    assemble-build page_patterns page_patterns-PatternLaws hex_format word [] [] word 80 [] [] []

doc-build_example : doc (build page) ≡ build (record page { fragment = [] })
doc-build_example = doc-build page

parent-build_example :
    parent (build page)
    ≡ build (record page { path = b'/' ∷ b'x' ∷ b'/' ∷ []; query = []; fragment = [] })
parent-build_example =
    parent-build page (b'/' ∷ b'x' ∷ []) (b'y' ∷ []) [] refl refl (omega arith) (inl refl)

-- "a=1" and a lone key "b"
