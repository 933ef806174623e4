-- ===== src/ResponseRules/Matching.antt =====
-- cmd/server/response_rule_matching.go: which rule answers a request.
pub mod FirstMatch
use sub_share_go.Common.{
  ℕ, List, [], ◌∷◌, ◌++◌, Option, none, some, Bool, true, false, not, ◌&&◌, ◌||◌, ◌==◌, text,
  text_eq, ◌≡◌, ◌≢◌, ◌⊎◌, refl, arith, All, if◌then◌else◌, Bool-cases, inl, inr,
}
use sub_share_go.Strings.{
  Text, Unicode, codes, to_lower, has_prefix, has_suffix, contains_text, trim_prefix, join,
}
use sub_share_go.ResponseRules.{Http, Header, Condition, Rule}

-- `responseConditionValues`
pub record ConditionValues : Type 0 where
  pub actual : Text
  pub expected : Text

abbrev pub negation : Text
negation = codes "NOT_"

unfoldable pub positive_match : Text → ConditionValues → Option Bool
positive_match operator values =
    if operator == codes "EQUALS"
    then some (values.actual == values.expected)
    else if operator == codes "CONTAINS"
    then some (contains_text values.actual values.expected)
    else if operator == codes "STARTS_WITH"
    then some (has_prefix values.actual values.expected)
    else if operator == codes "ENDS_WITH"
    then some (has_suffix values.actual values.expected)
    else none

-- `matched != negated`
abbrev pub differs : Bool → Bool → Bool
differs true negated = not negated
differs false negated = negated

unfoldable pub text_matches : Text → ConditionValues → Bool
text_matches operator values = elim (positive_match (trim_prefix operator negation) values) [
  | none ↦ false
  | some matched ↦ differs matched (has_prefix operator negation)
]

module _ (http : Http) where
  unfoldable pub regex_matches : Text → ConditionValues → Bool
  regex_matches operator values = elim (http.compile values.expected) [
    | none ↦ false
    | some matcher ↦
        if operator == codes "NOT_REGEX" then not (matcher values.actual) else matcher values.actual
  ]

  unfoldable pub values_of : ⦃u : Unicode⦄ → Condition → Header → ConditionValues
  values_of condition header =
      let actual = join 44 (header condition.header_name) in
      if condition.case_sensitive
      then record { actual = actual; expected = condition.value }
      else record { actual = to_lower actual; expected = to_lower condition.value }

  unfoldable pub condition_matches : ⦃u : Unicode⦄ → Condition → Header → Bool
  condition_matches condition header =
      if condition.operator == codes "REGEX" || condition.operator == codes "NOT_REGEX"
      then regex_matches condition.operator (values_of condition header)
      else text_matches condition.operator (values_of condition header)

  module _ ⦃u : Unicode⦄ where
    unfoldable pub any_condition_matches : List Condition → Header → Bool
    any_condition_matches [] header = false
    any_condition_matches (condition ∷ conditions) header =
        condition_matches condition header || any_condition_matches conditions header

    unfoldable pub all_conditions_match : List Condition → Header → Bool
    all_conditions_match [] header = true
    all_conditions_match (condition ∷ conditions) header =
        condition_matches condition header && all_conditions_match conditions header

    unfoldable pub rule_matches : Rule → Header → Bool
    rule_matches rule header = elim (rule.input.conditions) [
      | [] ↦ true
      | condition ∷ conditions ↦
          if rule.input.operator == codes "OR"
          then any_condition_matches (condition ∷ conditions) header
          else all_conditions_match (condition ∷ conditions) header
    ]

    abbrev pub applies : Header → Rule → Bool
    applies header rule = rule.input.enabled && rule_matches rule header

    unfoldable pub first_matching_rule : List Rule → Header → Option Rule
    first_matching_rule [] header = none
    first_matching_rule (rule ∷ rules) header =
        if applies header rule then some rule else first_matching_rule rules header
