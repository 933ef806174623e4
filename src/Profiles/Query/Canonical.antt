-- ===== src/Profiles/Query/Canonical.antt =====
-- The canonical query of a profile parses to the canonical parameters, in their order.
use sub_share_go.Common.{
  ℕ, List, [], ◌∷◌, ◌++◌, map, some, Bool, true, false, not, ◌≡◌, All, All-append, Bool-cases,
  Option-cases, inl, inr, contains, ◌&&◌, ◌||◌, text,
}
use sub_share_go.Common.Result.{ok}
use sub_share_go.Table.{Table, lookup}
use sub_share_go.Strings.{Text, is_empty}
use sub_share_go.Profiles.Percent.RoundTrip.{Byte}
use sub_share_go.Profiles.Query.{
  QueryParameter, CanonicalParameter, canonical_key, parameter_less, insert_parameter,
  sort_parameters, original_parameters, mark_primary, keys_of, canonical_parameters,
  canonical_query, parse_query,
}
use sub_share_go.Profiles.Query.RoundTrip.{IsParameter, read_back, parse_query-encode}

module _ (valid_utf8 : List ℕ → Bool) where
  -- a parameter of a profile that can be written
  abbrev pub IsOriginal : QueryParameter → Type 0
  IsOriginal parameter =
      (is_empty parameter.key ≡ false)
      × All Byte parameter.key
      × All Byte parameter.value
      × (valid_utf8 parameter.key ≡ true)
      × (valid_utf8 parameter.value ≡ true)

  -- the canonical names can be written
  abbrev pub HasNames : Table Text Text → Type 0
  HasNames aliases =
      (k canonical : Text)
      → lookup k aliases ≡ some canonical
      → (is_empty canonical ≡ false) × All Byte canonical × (valid_utf8 canonical ≡ true)

  insert-All :
      (P : CanonicalParameter → Type 0) (a : CanonicalParameter) (sorted : List CanonicalParameter)
      → P a
      → All P sorted
      → All P (insert_parameter a sorted)
  unfolding insert_parameter
  insert-All P a [] p h = (p, tt)
  insert-All P a (b ∷ sorted) p h = elim (Bool-cases (parameter_less b a)) [
    | inl less ↦ rw less (h.0, insert-All P a sorted p h.1)
    | inr place ↦ rw place (p, h)
  ]

  sort-All :
      (P : CanonicalParameter → Type 0) (parameters : List CanonicalParameter)
      → All P parameters
      → All P (sort_parameters parameters)
  unfolding sort_parameters
  sort-All P [] h = tt
  sort-All P (a ∷ parameters) h =
      insert-All P a (sort_parameters parameters) h.0 (sort-All P parameters h.1)

  mark_primary-All :
      (parameters : List CanonicalParameter)
      → All (IsParameter valid_utf8) parameters
      → All (IsParameter valid_utf8) (mark_primary parameters)
  unfolding mark_primary
  mark_primary-All [] h = tt
  mark_primary-All (a ∷ parameters) h = (h.0, mark_primary-All parameters h.1)

  module _ (lower : List ℕ → List ℕ) (aliases : Table Text Text)
      (replaced omitted : List Text) where
    original_parameters-All :
        (seen : List Text) (parameters : List QueryParameter)
        → HasNames aliases
        → All IsOriginal parameters
        → All
            (IsParameter valid_utf8)
            (original_parameters lower aliases replaced omitted seen parameters)
    unfolding original_parameters canonical_key
    original_parameters-All seen [] names h = tt
    original_parameters-All seen (parameter ∷ parameters) names h =
        elim (Option-cases (canonical_key lower aliases parameter)) [
          | inl unknown ↦
              rw (unknown, original_parameters)
                (h.0, original_parameters-All seen parameters names h.1)
          | inr (canonical, known) ↦
              let (given, chars, valid) = names (lower parameter.key) canonical known in
              let (k, kb, value, kv, value_valid) = h.0 in
              let rest = original_parameters-All (canonical ∷ seen) parameters names h.1 in
              elim (Bool-cases (
                not (contains seen canonical)
                && (contains replaced canonical || contains omitted canonical))) [
                  | inl skipped ↦ rw (known, original_parameters, skipped) rest
                  | inr kept ↦
                      rw (known, original_parameters, kept)
                        ((given, chars, value, valid, value_valid), rest)
                ]
        ]

  -- The canonical query parses to the canonical parameters in their order, each with its name and its
  -- value, when the names and values of the profile and the canonical names can be written.
  pub parse_query-canonical_query :
      (lower : List ℕ → List ℕ) (aliases : Table Text Text) (omit_first : List Text)
      (primary : List CanonicalParameter) (original : List QueryParameter) (protocol : Text)
      → valid_utf8 [] ≡ true
      → HasNames aliases
      → All (IsParameter valid_utf8) primary
      → All IsOriginal original
      → parse_query valid_utf8 protocol (canonical_query lower aliases omit_first primary original)
        ≡ ok (map read_back (canonical_parameters lower aliases omit_first primary original))
  unfolding canonical_query canonical_parameters
  parse_query-canonical_query lower aliases omit_first primary original protocol nothing names main
        rest =
      let given = original_parameters lower aliases (keys_of primary) omit_first [] original in
      let all =
        All-append (IsParameter valid_utf8) (mark_primary primary) given
          (mark_primary-All primary main)
          (original_parameters-All lower aliases (keys_of primary) omit_first [] original names
            rest) in
      parse_query-encode valid_utf8 protocol (sort_parameters (mark_primary primary ++ given))
        nothing (sort-All (IsParameter valid_utf8) (mark_primary primary ++ given) all)
