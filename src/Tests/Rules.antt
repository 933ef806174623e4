-- ===== src/Tests/Rules.antt =====
-- A rule that answers one client with a block, and its conditions.
use sub_share_go.Common.{
  [], ◌∷◌, ◌++◌, none, true, false, not, ◌≡◌, refl, ◌==◌, text, text_eq, pos, if◌then◌else◌,
}
use sub_share_go.Common.Result.{ok}
use sub_share_go.Strings.{codes, trim_space, byte_len, rune_len, to_lower, to_upper, contains_any}
use sub_share_go.ResponseRules.{Header, Condition, RuleInput, Rule}
use sub_share_go.ResponseRules.Matching.{negation, condition_matches, first_matching_rule}
use sub_share_go.ResponseRules.Matching.FirstMatch.{
  IsFirst, first_matching_rule-IsFirst, with_operator, condition_matches-negation,
}
use sub_share_go.ResponseRules.Validation.{
  validate_rule_input, validate_metadata, normalize_response, normalize_response_type,
  normalize_conditions, normalize_condition, validate_condition_header, validate_condition_regex,
  each_ok, normalize_headers, normalize_header, safe_custom_header,
}
use sub_share_go.ResponseRules.Validation.Accepted.{IsRule, validate_rule_input-IsRule}
use sub_share_go.Tests.Fixtures.{ascii, http}

abbrev from_browser : Condition
from_browser = record {
  header_name = codes "user-agent";
  operator = codes "CONTAINS";
  value = codes "Mozilla";
  case_sensitive = false;
}

abbrev raw_input : RuleInput
raw_input = record {
  name = codes " block ";
  description = [];
  enabled = true;
  priority = pos 10;
  operator = codes "and";
  conditions = from_browser ∷ [];
  response_type = codes "Block";
  template_id = none;
  headers = record { key = codes "X-A"; value = codes "1" } ∷ [];
}

abbrev input : RuleInput
input = record raw_input {
  name = codes "block";
  operator = codes "AND";
  response_type = codes "block";
}

abbrev rule : Rule
rule = record { id = 1; is_system = false; input = input }

abbrev browser : Header
browser name = if name == codes "user-agent" then codes "mozilla/5" ∷ [] else []

raw_input-accepted : validate_rule_input http raw_input ≡ ok input
unfolding validate_rule_input validate_metadata normalize_response normalize_response_type
    normalize_conditions normalize_condition validate_condition_header validate_condition_regex
    each_ok normalize_headers normalize_header safe_custom_header trim_space to_lower to_upper
    contains_any text_eq byte_len rune_len
raw_input-accepted = refl

validate_rule_input-IsRule_example : IsRule http input
validate_rule_input-IsRule_example =
    validate_rule_input-IsRule http raw_input input raw_input-accepted

first_matching_rule-IsFirst_example :
    IsFirst http browser (rule ∷ []) (first_matching_rule http (rule ∷ []) browser)
first_matching_rule-IsFirst_example = first_matching_rule-IsFirst http browser (rule ∷ [])

condition_matches-negation_example :
    condition_matches http
      (with_operator http browser from_browser (negation ++ codes "REGEX"))
      browser
    ≡ not (condition_matches http (with_operator http browser from_browser (codes "REGEX")) browser)
unfolding text_eq
condition_matches-negation_example =
    condition_matches-negation http browser from_browser (codes "REGEX") refl _ refl
