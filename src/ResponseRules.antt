-- ===== src/ResponseRules.antt =====
-- cmd/server/subscription_rules.go: the response rules of a subscription and their parts. Go's
-- `regexp` and `net/http` are the record `Http`.
use sub_share_go.Common.{List, Option, Bool, ℕ, ℤ}
use sub_share_go.Strings.{Text}
pub mod Matching
pub mod Validation

pub record Http : Type 0 where
  -- `regexp.Compile` and then `MatchString`, `none` for an error
  pub compile : Text → Option (Text → Bool)
  -- `http.CanonicalHeaderKey`
  pub canonical_header_key : Text → Text

-- `http.Header`, read by `Values`
abbrev pub Header : Type 0
Header = Text → List Text

-- `responseRuleCondition`
pub record Condition : Type 0 where
  pub header_name : Text
  pub operator : Text
  pub value : Text
  pub case_sensitive : Bool

-- `responseHeader`
pub record ResponseHeader : Type 0 where
  pub key : Text
  pub value : Text

-- `responseRuleInput`
pub record RuleInput : Type 0 where
  pub name : Text
  pub description : Text
  pub enabled : Bool
  pub priority : ℤ
  pub operator : Text
  pub conditions : List Condition
  pub response_type : Text
  pub template_id : Option ℕ
  pub headers : List ResponseHeader

-- `responseRule`, less its timestamps
pub record Rule : Type 0 where
  pub id : ℕ
  pub is_system : Bool
  pub input : RuleInput
