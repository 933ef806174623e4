-- ===== src/ResponseRules/Validation.antt =====
-- cmd/server/response_rule_validation.go, response_rule_conditions.go and
-- response_rule_headers.go: what a rule must be before it is stored.
pub mod Accepted
use sub_share_go.Common.{
  ℕ, List, [], ◌∷◌, Option, none, some, Bool, true, false, not, ◌&&◌, ◌||◌, ◌==◌, text, text_eq,
  ◌≡◌, ◌≢◌, refl, arith, All, if◌then◌else◌, ltb, length, above, at_least, ◌++◌, contains,
}
use sub_share_go.Common.Result.{Result, ok, err, ◌>>=◌, ◌>>◌, fail_if}
use sub_share_go.Strings.{
  Text, Unicode, codes, to_lower, to_upper, trim_space, is_empty, byte_len, contains_any,
}
use sub_share_go.ResponseRules.{Http, Condition, ResponseHeader, RuleInput}

pub data RuleError : Type 0 where
  name_length description_too_long operator_invalid response_type_invalid priority_invalid :
      RuleError
  too_many_conditions condition_header_invalid condition_operator_invalid : RuleError
  condition_value_length condition_regex_invalid too_many_headers header_unsafe : RuleError

abbrev pub response_types : List Text
response_types =
    codes "browser"
    ∷ codes "base64"
    ∷ codes "plain"
    ∷ codes "xray-json"
    ∷ codes "mihomo"
    ∷ codes "sing-box"
    ∷ codes "block"
    ∷ codes "not-found"
    ∷ []

unfoldable pub normalize_response_type : ⦃u : Unicode⦄ → Text → Option Text
normalize_response_type raw =
    let value = to_lower (trim_space raw) in
    if contains response_types value then some value else none

abbrev pub condition_operators : List Text
condition_operators =
    codes "EQUALS"
    ∷ codes "NOT_EQUALS"
    ∷ codes "CONTAINS"
    ∷ codes "NOT_CONTAINS"
    ∷ codes "STARTS_WITH"
    ∷ codes "NOT_STARTS_WITH"
    ∷ codes "ENDS_WITH"
    ∷ codes "NOT_ENDS_WITH"
    ∷ codes "REGEX"
    ∷ codes "NOT_REGEX"
    ∷ []

-- `supportedResponseConditionOperator`
abbrev pub supported_operator : Text → Bool
supported_operator operator = contains condition_operators operator

-- `validateResponseConditionHeader`
unfoldable pub validate_condition_header : Text → Result RuleError (Unit {0})
validate_condition_header name = do
  fail_if (is_empty name || ltb 80 (byte_len name)) condition_header_invalid
  fail_if (contains_any name (codes "\r\n:")) condition_header_invalid

abbrev pub forbidden_headers : List Text
forbidden_headers =
    codes "set-cookie"
    ∷ codes "content-length"
    ∷ codes "transfer-encoding"
    ∷ codes "connection"
    ∷ codes "content-type"
    ∷ codes "content-disposition"
    ∷ codes "strict-transport-security"
    ∷ codes "access-control-allow-origin"
    ∷ codes "announce"
    ∷ codes "profile-title"
    ∷ codes "profile-update-interval"
    ∷ codes "profile-web-page-url"
    ∷ codes "support-url"
    ∷ codes "subscription-userinfo"
    ∷ codes "routing"
    ∷ []

unfoldable pub safe_custom_header : ⦃u : Unicode⦄ → Text → Text → Bool
safe_custom_header key value =
    if is_empty key
    then false
    else if ltb 80 (byte_len key) || ltb 1024 (byte_len value)
    then false
    else if contains_any (key ++ value) (codes "\r\n")
    then false
    else not (contains forbidden_headers (to_lower key))

-- the loops that rewrite a slice in place and stop at the first error
unfoldable pub each_ok :
    {A : Type 0} → (A → Result RuleError A) → List A → Result RuleError (List A)
each_ok f [] = ok []
each_ok f (x ∷ xs) = do y ← f x; ys ← each_ok f xs; ok (y ∷ ys)

unfoldable pub validate_metadata : RuleInput → Result RuleError (Unit {0})
validate_metadata input = do
  fail_if (is_empty input.name || ltb 80 (length input.name)) name_length
  fail_if (ltb 250 (length input.description)) description_too_long

unfoldable pub normalize_response : ⦃u : Unicode⦄ → RuleInput → Result RuleError RuleInput
normalize_response input =
    let operator = to_upper (trim_space input.operator) in
    if not (operator == codes "AND") && not (operator == codes "OR")
    then err operator_invalid
    else elim (normalize_response_type input.response_type) [
      | none ↦ err response_type_invalid
      | some response_type ↦
          if not (at_least input.priority 0) || above input.priority 100000
          then err priority_invalid
          else ok (record input { operator = operator; response_type = response_type })
    ]

module _ (http : Http) where
  unfoldable pub validate_condition_regex : Text → Text → Result RuleError (Unit {0})
  validate_condition_regex operator value =
      if not (operator == codes "REGEX") && not (operator == codes "NOT_REGEX")
      then ok tt
      else elim (http.compile value) [ none ↦ err condition_regex_invalid | some matcher ↦ ok tt ]

  module _ ⦃u : Unicode⦄ where
    unfoldable pub normalize_condition : Condition → Result RuleError Condition
    normalize_condition raw =
        let name = to_lower (trim_space raw.header_name) in
        let operator = to_upper (trim_space raw.operator) in
        let value = trim_space raw.value in
        do
          validate_condition_header name
          fail_if (not (supported_operator operator)) condition_operator_invalid
          fail_if (is_empty value || ltb 255 (byte_len value)) condition_value_length
          validate_condition_regex operator value
          ok (record raw { header_name = name; operator = operator; value = value })

    unfoldable pub normalize_conditions : List Condition → Result RuleError (List Condition)
    normalize_conditions conditions = do
      fail_if (ltb 20 (length conditions)) too_many_conditions
      each_ok normalize_condition conditions

    unfoldable pub normalize_header : ResponseHeader → Result RuleError ResponseHeader
    normalize_header raw =
        let key = http.canonical_header_key (trim_space raw.key) in
        let value = trim_space raw.value in
        if not (safe_custom_header key value)
        then err header_unsafe
        else ok (record { key = key; value = value })

    unfoldable pub normalize_headers : List ResponseHeader → Result RuleError (List ResponseHeader)
    normalize_headers headers = do
      fail_if (ltb 30 (length headers)) too_many_headers
      each_ok normalize_header headers

    unfoldable pub validate_rule_input : RuleInput → Result RuleError RuleInput
    validate_rule_input raw =
        let input = record raw {
          name = trim_space raw.name;
          description = trim_space raw.description;
        } in
        do
          validate_metadata input
          responding ← normalize_response input
          conditions ← normalize_conditions responding.conditions
          headers ← normalize_headers responding.headers
          ok (record responding { conditions = conditions; headers = headers })
