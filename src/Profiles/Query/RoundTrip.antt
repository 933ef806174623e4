-- ===== src/Profiles/Query/RoundTrip.antt =====
-- A query that is encoded parses to the parameters that it was made of.
use sub_share_go.Common.{
  ℕ, ◌<◌, List, [], ◌∷◌, ◌++◌, map, some, Bool, true, false, ◌≡◌, ◌≢◌, refl, arith, nat_eq,
  if◌then◌else◌, All, All-append, Bool-cases, inl, inr, cons-ne-nil,
}
use sub_share_go.Common.Result.{ok}
use sub_share_go.Strings.{Text, codes, is_empty, split, join}
use sub_share_go.Strings.Split.{Lacks, split-join}
use sub_share_go.Profiles.Percent.{unreserved, hex_digit, percent_encode, path_unescape}
use sub_share_go.Profiles.Percent.RoundTrip.{Byte, percent_encode-All, path_unescape-percent_encode}
use sub_share_go.Profiles.Authority.HostPort.{cut_at-append, cut_at-none}
use sub_share_go.Profiles.Query.{
  QueryParameter, CanonicalParameter, spaces, query_unescape, cut_item, decode_part,
  parse_parameter, parse_parameters, parse_query, encode_parameter, encode_parameters,
}

-- no character that separates parameters or values, and no plus
abbrev pub Plain : ℕ → Type 0
Plain c = (c ≢ b'&') × (c ≢ b'=') × (c ≢ b'+')

unreserved-Plain : (c : ℕ) → unreserved c ≡ true → Plain c
unfolding unreserved
unreserved-Plain c h = (ground arith, ground arith, ground arith)

hex_digit-Plain : (d : ℕ) → d < 16 → Plain (hex_digit d)
unfolding hex_digit
hex_digit-Plain d h = (ground arith, ground arith, ground arith)

percent_encode-Plain : (s : List ℕ) → All Byte s → All Plain (percent_encode s)
percent_encode-Plain s =
    percent_encode-All Plain s unreserved-Plain
      (
        λ e. absurd (omega (arith, e)),
        λ e. absurd (omega (arith, e)),
        λ e. absurd (omega (arith, e)),
      )
      hex_digit-Plain

lacks : (sep : ℕ) (s : List ℕ) → ((c : ℕ) → Plain c → c ≢ sep) → All Plain s → Lacks sep s
lacks sep [] f h = tt
lacks sep (c ∷ s) f h = (f c h.0, lacks sep s f h.1)

spaces-Plain : (s : List ℕ) → All Plain s → spaces s ≡ s
unfolding spaces
spaces-Plain [] h = refl
spaces-Plain (c ∷ s) h =
    let (amp, equals, plus) = h.0 in
    let other : nat_eq c b'+' ≡ false = ground arith in rw (other, spaces-Plain s h.1) refl

query_unescape-percent_encode :
    (s : List ℕ) → All Byte s → query_unescape (percent_encode s) ≡ some s
unfolding query_unescape
query_unescape-percent_encode s h =
    rw (spaces-Plain (percent_encode s) (percent_encode-Plain s h))
      (path_unescape-percent_encode s h)

is_empty-percent_encode : (s : List ℕ) → is_empty s ≡ false → is_empty (percent_encode s) ≡ false
unfolding percent_encode
is_empty-percent_encode [] h = h
is_empty-percent_encode (c ∷ s) h = elim (Bool-cases (unreserved c)) [
  | inl plain ↦ rw plain refl
  | inr coded ↦ rw coded refl
]

append_given : (s t : List ℕ) → is_empty s ≡ false → is_empty (s ++ t) ≡ false
append_given [] t h = cc h
append_given (c ∷ s) t h = refl

-- a parameter that can be written: bytes that decode to valid texts, under a name
abbrev pub IsParameter : (List ℕ → Bool) → CanonicalParameter → Type 0
IsParameter valid_utf8 parameter =
    (is_empty parameter.key ≡ false)
    × All Byte parameter.key
    × All Byte parameter.value
    × (valid_utf8 parameter.key ≡ true)
    × (valid_utf8 parameter.value ≡ true)

-- what is read of a parameter; without a value nothing of it is written
abbrev pub read_back : CanonicalParameter → QueryParameter
read_back parameter = record {
  key = parameter.key;
  value = if parameter.has_value then parameter.value else [];
  has_value = parameter.has_value;
  raw_key = percent_encode parameter.key;
  raw_value = if parameter.has_value then percent_encode parameter.value else [];
}

module _ (valid_utf8 : List ℕ → Bool) (protocol : Text) where
  decode_part-percent_encode :
      (field : Text) (s : List ℕ)
      → All Byte s
      → valid_utf8 s ≡ true
      → decode_part valid_utf8 protocol field (percent_encode s) ≡ ok s
  unfolding decode_part
  decode_part-percent_encode field s h valid =
      rw (query_unescape-percent_encode s h, decode_part, valid) refl

  decode_part-nil :
      (field : Text) → valid_utf8 [] ≡ true → decode_part valid_utf8 protocol field [] ≡ ok []
  unfolding decode_part query_unescape spaces path_unescape
  decode_part-nil field valid = rw valid refl

equals-Lacks : (s : List ℕ) → All Byte s → Lacks b'=' (percent_encode s)
equals-Lacks s h = lacks b'=' (percent_encode s) (λ c plain. plain.1) (percent_encode-Plain s h)

ampersand-Lacks : (s : List ℕ) → All Byte s → Lacks b'&' (percent_encode s)
ampersand-Lacks s h = lacks b'&' (percent_encode s) (λ c plain. plain.0) (percent_encode-Plain s h)

cut_item-value :
    (key value : List ℕ)
    → All Byte key
    → cut_item (percent_encode key ++ b'=' ∷ percent_encode value)
      ≡ (percent_encode key, percent_encode value, true)
unfolding cut_item
cut_item-value key value h =
    rw
      (
        cut_at-append b'=' (percent_encode key) (percent_encode value) (equals-Lacks key h),
        cut_item,
      )
      refl

cut_item-bare :
    (key : List ℕ) → All Byte key → cut_item (percent_encode key) ≡ (percent_encode key, [], false)
unfolding cut_item
cut_item-bare key h = rw (cut_at-none b'=' (percent_encode key) (equals-Lacks key h), cut_item) refl

encode_parameter-given :
    (valid_utf8 : List ℕ → Bool) (parameter : CanonicalParameter)
    → IsParameter valid_utf8 parameter
    → is_empty (encode_parameter parameter) ≡ false
unfolding encode_parameter
encode_parameter-given valid_utf8 parameter h =
    let given = is_empty-percent_encode parameter.key h.0 in
    elim (Bool-cases parameter.has_value) [
      | inl has ↦ rw has (
          append_given (percent_encode parameter.key) (b'=' ∷ percent_encode parameter.value) given)
      | inr bare ↦ rw bare given
    ]

encode_parameter-Lacks :
    (valid_utf8 : List ℕ → Bool) (parameter : CanonicalParameter)
    → IsParameter valid_utf8 parameter
    → Lacks b'&' (encode_parameter parameter)
unfolding encode_parameter
encode_parameter-Lacks valid_utf8 parameter h =
    let key = ampersand-Lacks parameter.key h.1 in
    elim (Bool-cases parameter.has_value) [
      | inl has ↦ rw has (
          All-append (λ c. c ≢ b'&') (percent_encode parameter.key)
            (b'=' ∷ percent_encode parameter.value) key
            ((λ e. absurd (omega (arith, e))), ampersand-Lacks parameter.value h.2))
      | inr bare ↦ rw bare key
    ]

join_given :
    (sep : ℕ) (p : List ℕ) (ps : List (List ℕ))
    → is_empty p ≡ false
    → is_empty (join sep (p ∷ ps)) ≡ false
unfolding join
join_given sep p [] h = h
join_given sep p (q ∷ ps) h = append_given p (sep ∷ join sep (q ∷ ps)) h

module _ (valid_utf8 : List ℕ → Bool) (protocol : Text) where
  parse_parameter-encode :
      (parameter : CanonicalParameter)
      → valid_utf8 [] ≡ true
      → IsParameter valid_utf8 parameter
      → parse_parameter valid_utf8 protocol (encode_parameter parameter) ≡ ok (read_back parameter)
  unfolding parse_parameter encode_parameter
  parse_parameter-encode parameter nothing h =
      let (named, key_bytes, value_bytes, key_valid, value_valid) = h in
      let given = is_empty-percent_encode parameter.key named in
      let key =
        decode_part-percent_encode valid_utf8 protocol (codes "query_key") parameter.key key_bytes
          key_valid in
      elim (Bool-cases parameter.has_value) [
        | inl has ↦
            rw
              (
                has,
                append_given (percent_encode parameter.key) (b'=' ∷ percent_encode parameter.value)
                    given,
                cut_item-value parameter.key parameter.value key_bytes,
                given,
                key,
                decode_part-percent_encode valid_utf8 protocol (codes "query_value") parameter.value
                    value_bytes value_valid,
              )
              refl
        | inr bare ↦
            rw
              (
                bare,
                given,
                cut_item-bare parameter.key key_bytes,
                given,
                key,
                decode_part-nil valid_utf8 protocol (codes "query_value") nothing,
              )
              refl
      ]

  parse_parameters-encode :
      (parameters : List CanonicalParameter)
      → valid_utf8 [] ≡ true
      → All (IsParameter valid_utf8) parameters
      → parse_parameters valid_utf8 protocol (encode_parameters parameters)
        ≡ ok (map read_back parameters)
  unfolding parse_parameters encode_parameters
  parse_parameters-encode [] nothing h = refl
  parse_parameters-encode (parameter ∷ parameters) nothing h =
      rw
        (
          parse_parameter-encode parameter nothing h.0,
          parse_parameters-encode parameters nothing h.1,
        )
        refl

  encoded-split :
      (parameter : CanonicalParameter) (parameters : List CanonicalParameter)
      → All (IsParameter valid_utf8) (parameter ∷ parameters)
      → split b'&' (join b'&' (encode_parameters (parameter ∷ parameters)))
        ≡ encode_parameters (parameter ∷ parameters)
  unfolding encode_parameters
  encoded-split parameter parameters h =
      split-join b'&' (encode_parameters (parameter ∷ parameters))
        (cons-ne-nil (encode_parameter parameter) (encode_parameters parameters))
        (items (parameter ∷ parameters) h)
    where
      items :
          (parameters : List CanonicalParameter)
          → All (IsParameter valid_utf8) parameters
          → All (Lacks b'&') (encode_parameters parameters)
      items [] h = tt
      items (p ∷ ps) h = (encode_parameter-Lacks valid_utf8 p h.0, items ps h.1)

  pub parse_query-encode :
      (parameters : List CanonicalParameter)
      → valid_utf8 [] ≡ true
      → All (IsParameter valid_utf8) parameters
      → parse_query valid_utf8 protocol (join b'&' (encode_parameters parameters))
        ≡ ok (map read_back parameters)
  unfolding parse_query
  parse_query-encode [] nothing h = unfold encode_parameters join in refl
  parse_query-encode (parameter ∷ parameters) nothing h =
      let given : is_empty (join b'&' (encode_parameters (parameter ∷ parameters))) ≡ false =
        unfold encode_parameters in
        join_given b'&' (encode_parameter parameter) (encode_parameters parameters)
          (encode_parameter-given valid_utf8 parameter h.0) in
      rw (given, encoded-split parameter parameters h)
        (parse_parameters-encode (parameter ∷ parameters) nothing h)
