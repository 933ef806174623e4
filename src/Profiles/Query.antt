-- ===== src/Profiles/Query.antt =====
-- internal/profiles/uri.go: the query of a URI. A string is the list of its bytes. `lower` is
-- `strings.ToLower`, `valid_utf8` is `utf8.ValidString`.
pub mod RoundTrip
pub mod Canonical
use sub_share_go.Common.{
  ℕ, zero, suc, ◌+◌, List, [], ◌∷◌, ◌++◌, Option, none, some, Bool, true, false, not, ◌&&◌, ◌||◌,
  ltb, nat_eq, length, if◌then◌else◌, contains, text, ◌==◌,
}
use sub_share_go.Common.Result.{Result, err, ok, ◌>>=◌}
use sub_share_go.Table.{Table, lookup, put}
use sub_share_go.Strings.{Text, codes, is_empty, split, join}
use sub_share_go.Profiles.Error.{ErrorCode, ProfileError, new_error}
use sub_share_go.Profiles.Percent.{percent_encode, path_unescape}
use sub_share_go.Profiles.Authority.{cut_at}

pub record QueryParameter : Type 0 where
  pub key : List ℕ
  pub value : List ℕ
  pub has_value : Bool
  pub raw_key : List ℕ
  pub raw_value : List ℕ

-- a plus stands for a space
unfoldable pub spaces : List ℕ → List ℕ
spaces [] = []
spaces (c ∷ s) = (if nat_eq c b'+' then b' ' else c) ∷ spaces s

-- `url.QueryUnescape`
unfoldable pub query_unescape : List ℕ → Option (List ℕ)
query_unescape s = path_unescape (spaces s)

-- `strings.Cut(item, "=")`: key, value, and whether there is a value
unfoldable pub cut_item : List ℕ → List ℕ × List ℕ × Bool
cut_item item = elim (cut_at b'=' item) [
  | none ↦ (item, [], false)
  | some (before, after) ↦ (before, after, true)
]

module _ (valid_utf8 : List ℕ → Bool) (protocol : Text) where
  -- `QueryUnescape`, and that what it gives is valid
  unfoldable pub decode_part : Text → List ℕ → Result ProfileError (List ℕ)
  decode_part field raw = elim (query_unescape raw) [
    | none ↦ err (new_error ErrorCode.invalid_encoding protocol field)
    | some decoded ↦
        if valid_utf8 decoded
        then ok decoded
        else err (new_error ErrorCode.invalid_encoding protocol field)
  ]

  -- one round of the loop of `parseQuery`
  unfoldable pub parse_parameter : List ℕ → Result ProfileError QueryParameter
  parse_parameter item =
      let (raw_key, raw_value, has_value) = cut_item item in
      if is_empty item
      then err (new_error ErrorCode.invalid_profile protocol (codes "query_parameter"))
      else if is_empty raw_key
      then err (new_error ErrorCode.invalid_profile protocol (codes "query_key"))
      else decode_part (codes "query_key") raw_key >>= λ key.
          decode_part (codes "query_value") raw_value >>= λ value. ok (record {
            key = key;
            value = value;
            has_value = has_value;
            raw_key = raw_key;
            raw_value = raw_value;
          })

  unfoldable pub parse_parameters : List (List ℕ) → Result ProfileError (List QueryParameter)
  parse_parameters [] = ok []
  parse_parameters (item ∷ items) = parse_parameter item >>= λ parameter.
      parse_parameters items >>= λ parameters. ok (parameter ∷ parameters)

  unfoldable pub parse_query : List ℕ → Result ProfileError (List QueryParameter)
  parse_query raw = if is_empty raw then ok [] else parse_parameters (split b'&' raw)

module _ (lower : List ℕ → List ℕ) (aliases : Table Text Text) where
  -- the canonical name of a key, `none` for one that is not known
  unfoldable pub canonical_key : QueryParameter → Option Text
  canonical_key parameter = lookup (lower parameter.key) aliases

  unfoldable pub validate_known_parameter_values : Text → List QueryParameter → Option ProfileError
  validate_known_parameter_values protocol [] = none
  validate_known_parameter_values protocol (parameter ∷ parameters) =
      let rest = validate_known_parameter_values protocol parameters in
      elim (canonical_key parameter) [
        | none ↦ rest
        | some canonical ↦
            if not parameter.has_value || is_empty parameter.value
            then some (new_error ErrorCode.invalid_profile protocol canonical)
            else rest
      ]

  -- the name that the map of aliases gives, the empty one for a key that it does not have
  abbrev pub alias_of : QueryParameter → Text
  alias_of parameter = elim (canonical_key parameter) [ none ↦ [] | some canonical ↦ canonical ]

  unfoldable pub first_parameter : Text → List QueryParameter → Option (List ℕ)
  first_parameter canonical [] = none
  first_parameter canonical (parameter ∷ parameters) =
      let rest = first_parameter canonical parameters in
      if alias_of parameter == canonical then some parameter.value else rest

  unfoldable pub unknown_parameters : List QueryParameter → List QueryParameter
  unknown_parameters [] = []
  unknown_parameters (parameter ∷ parameters) =
      let rest = unknown_parameters parameters in
      elim (canonical_key parameter) [ none ↦ parameter ∷ rest | some canonical ↦ rest ]

-- `canonicalParameter`
pub record CanonicalParameter : Type 0 where
  pub key : List ℕ
  pub value : List ℕ
  pub has_value : Bool
  pub primary : Bool

-- Go's `<` on strings
unfoldable pub text_less : List ℕ → List ℕ → Bool
text_less [] [] = false
text_less [] (d ∷ t) = true
text_less (c ∷ s) [] = false
text_less (c ∷ s) (d ∷ t) = let rest = text_less s t in if nat_eq c d then rest else ltb c d

-- the order of `canonicalQuery`
unfoldable pub parameter_less : CanonicalParameter → CanonicalParameter → Bool
parameter_less a b =
    if not (a.key == b.key) then text_less a.key b.key else a.primary && not b.primary

-- `sort.SliceStable`: an item goes in front of the first that is not less than it
unfoldable pub insert_parameter :
    CanonicalParameter → List CanonicalParameter → List CanonicalParameter
insert_parameter a [] = a ∷ []
insert_parameter a (b ∷ sorted) =
    let rest = insert_parameter a sorted in if parameter_less b a then b ∷ rest else a ∷ b ∷ sorted

unfoldable pub sort_parameters : List CanonicalParameter → List CanonicalParameter
sort_parameters [] = []
sort_parameters (a ∷ parameters) = insert_parameter a (sort_parameters parameters)

unfoldable pub encode_parameter : CanonicalParameter → List ℕ
encode_parameter parameter =
    if parameter.has_value
    then percent_encode parameter.key ++ b'=' ∷ percent_encode parameter.value
    else percent_encode parameter.key

unfoldable pub encode_parameters : List CanonicalParameter → List (List ℕ)
encode_parameters [] = []
encode_parameters (parameter ∷ parameters) =
    encode_parameter parameter ∷ encode_parameters parameters

abbrev pub preserved : Text → QueryParameter → CanonicalParameter
preserved key parameter = record {
  key = key;
  value = parameter.value;
  has_value = parameter.has_value;
  primary = false;
}

module _ (lower : List ℕ → List ℕ) (aliases : Table Text Text) (replaced omitted : List Text) where
  -- the loop over the original parameters; `seen` has the canonical names met so far
  unfoldable pub original_parameters : List Text → List QueryParameter → List CanonicalParameter
  original_parameters seen [] = []
  original_parameters seen (parameter ∷ parameters) = elim (canonical_key lower aliases parameter) [
    | none ↦ preserved parameter.key parameter ∷ original_parameters seen parameters
    | some canonical ↦
        let rest = original_parameters (canonical ∷ seen) parameters in
        if not (contains seen canonical)
          && (contains replaced canonical || contains omitted canonical)
        then rest
        else preserved canonical parameter ∷ rest
  ]

unfoldable pub mark_primary : List CanonicalParameter → List CanonicalParameter
mark_primary [] = []
mark_primary (parameter ∷ parameters) =
    record parameter { primary = true } ∷ mark_primary parameters

unfoldable pub keys_of : List CanonicalParameter → List Text
keys_of [] = []
keys_of (parameter ∷ parameters) = parameter.key ∷ keys_of parameters

-- the parameters of a canonical query, in their order
unfoldable pub canonical_parameters :
    (List ℕ → List ℕ)
    → Table Text Text
    → List Text
    → List CanonicalParameter
    → List QueryParameter
    → List CanonicalParameter
canonical_parameters lower aliases omit_first primary original = sort_parameters (
    mark_primary primary
    ++ original_parameters lower aliases (keys_of primary) omit_first [] original)

unfoldable pub canonical_query :
    (List ℕ → List ℕ)
    → Table Text Text
    → List Text
    → List CanonicalParameter
    → List QueryParameter
    → List ℕ
canonical_query lower aliases omit_first primary original =
    join b'&' (encode_parameters (canonical_parameters lower aliases omit_first primary original))
