-- ===== src/Tests/Queries.antt =====
-- A query with an alias, a duplicate and an unknown parameter without a value.
use sub_share_go.Common.{
  ℕ, List, [], ◌∷◌, map, Bool, true, false, ◌≡◌, refl, arith, All, text, text_eq,
}
use sub_share_go.Common.Result.{ok}
use sub_share_go.Table.{Table, lookup, All-lookup}
use sub_share_go.Strings.{Text, codes, is_empty, join}
use sub_share_go.Profiles.Percent.{percent_encode, unreserved}
use sub_share_go.Profiles.Percent.RoundTrip.{Byte}
use sub_share_go.Profiles.Query.{
  QueryParameter, CanonicalParameter, canonical_parameters, canonical_query, canonical_key,
  parse_query, sort_parameters, insert_parameter, parameter_less, text_less, mark_primary, keys_of,
  original_parameters, encode_parameters, encode_parameter,
}
use sub_share_go.Profiles.Query.RoundTrip.{read_back}
use sub_share_go.Profiles.Query.Canonical.{HasNames, parse_query-canonical_query}

-- `sni`, also written `p`
abbrev sni_aliases : Table Text Text
sni_aliases = (codes "p", codes "s") ∷ (codes "s", codes "s") ∷ []

abbrev valid : List ℕ → Bool
valid s = true

sni_names : HasNames valid sni_aliases
sni_names k canonical found =
    All-lookup (λ e. (is_empty e.1 ≡ false) × All Byte e.1 × (valid e.1 ≡ true)) k sni_aliases found
      ((refl, (omega arith, tt), refl), ((refl, (omega arith, tt), refl), tt))

abbrev parameter : Text → Text → Bool → QueryParameter
parameter key value has_value = record {
  key = key;
  value = value;
  has_value = has_value;
  raw_key = key;
  raw_value = value;
}

abbrev chosen : CanonicalParameter
chosen = record { key = codes "s"; value = codes "a"; has_value = true; primary = false }

-- the first `p` is replaced by the chosen value, the second stays behind it
abbrev originals : List QueryParameter
originals =
    parameter (codes "x") [] false
    ∷ parameter (codes "p") (codes "a") true
    ∷ parameter (codes "p") (codes "b") true
    ∷ []

canonical_query-originals :
    canonical_query (λ s. s) sni_aliases [] (chosen ∷ []) originals ≡ codes "s=a&s=b&x"
unfolding canonical_query canonical_parameters canonical_key sort_parameters insert_parameter
    parameter_less text_less mark_primary keys_of original_parameters lookup text_eq
    encode_parameters encode_parameter percent_encode unreserved join
canonical_query-originals = refl

parse_query-canonical_query_example :
    parse_query valid
      (codes "tuic")
      (canonical_query (λ s. s) sni_aliases [] (chosen ∷ []) originals)
    ≡ ok (map read_back (canonical_parameters (λ s. s) sni_aliases [] (chosen ∷ []) originals))
parse_query-canonical_query_example =
    parse_query-canonical_query valid (λ s. s) sni_aliases [] (chosen ∷ []) originals (codes "tuic")
      refl sni_names ((refl, (omega arith, tt), (omega arith, tt), refl, refl), tt)
      (
        (refl, (omega arith, tt), tt, refl, refl),
        (
          (refl, (omega arith, tt), (omega arith, tt), refl, refl),
          ((refl, (omega arith, tt), (omega arith, tt), refl, refl), tt),
        ),
      )
