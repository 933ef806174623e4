-- ===== src/ResponseRules/Validation/Accepted.antt =====
-- What is known of a rule that the validation accepts.
use sub_share_go.Common.{
  ℕ, List, [], ◌∷◌, ◌++◌, Option, none, some, Bool, true, false, ◌||◌, ◌==◌, text, ◌≡◌, ◌⊎◌, ◌≢◌,
  ◌≤◌, arith, All, Bool-cases, inl, inr, contains, text_eq_iff, length, above, at_least, ltb,
  Option-cases,
}
use sub_share_go.Common.Result.{Result, ok, ok-injective, >>=-eq-ok, fail_if->>=-eq-ok}
use sub_share_go.Strings.{
  Text, Unicode, codes, to_lower, to_upper, trim_space, byte_len, contains_any,
}
use sub_share_go.ResponseRules.{Http, Condition, ResponseHeader, RuleInput}
use sub_share_go.ResponseRules.Validation.{
  RuleError, too_many_conditions, too_many_headers, response_types, normalize_response_type,
  supported_operator, validate_condition_header, forbidden_headers, safe_custom_header, each_ok,
  validate_metadata, validate_condition_regex, normalize_condition, normalize_conditions,
  normalize_header, normalize_headers, normalize_response, validate_rule_input,
}

each_ok-All :
    {A : Type 0} (P : A → Type 0) (f : A → Result RuleError A)
    → ((x y : A) → f x ≡ ok y → P y)
    → (xs ys : List A) → each_ok f xs ≡ ok ys
    → All P ys × (length ys ≡ length xs)
unfolding each_ok
each_ok-All P f each [] ys h = ground arith
each_ok-All P f each (x ∷ xs) ys h =
    let (y, p, h1) = >>=-eq-ok (f x) _ h in
    let (rest, q, h2) = >>=-eq-ok (each_ok f xs) _ h1 in
    let (hold, same) = each_ok-All P f each xs rest q in
    rw (← ok-injective h2) ((each x y p, hold), ground (arith, same))

at_most : (limit n m : ℕ) → ltb limit n ≡ false → m ≡ n → m ≤ limit
at_most limit n m h e = ground arith

some-injective : {A : Type 0} {a b : A} → ◌≡◌ {A = Option A} (some a) (some b) → a ≡ b
some-injective h = cc

none-ne-some : {A : Type 0} {a : A} → ◌≡◌ {A = Option A} none (some a) → ⊥
none-ne-some h = cc

-- Go's `regexp` is asked only for the two operators that read one.
abbrev pub asks_regex : Text → Bool
asks_regex operator = operator == codes "REGEX" || operator == codes "NOT_REGEX"

pub record IsCondition (http : Http) (c : Condition) : Type 0 where
  pub named : c.header_name ≢ []
  pub name_short : byte_len c.header_name ≤ 80
  pub name_clean : contains_any c.header_name (codes "\r\n:") ≡ false
  pub operator_known : supported_operator c.operator ≡ true
  pub has_value : c.value ≢ []
  pub value_short : byte_len c.value ≤ 255
  pub compiles : asks_regex c.operator ≡ true → http.compile c.value ≢ none

pub record IsHeader ⦃u : Unicode⦄ (h : ResponseHeader) : Type 0 where
  pub has_key : h.key ≢ []
  pub key_short : byte_len h.key ≤ 80
  pub value_short : byte_len h.value ≤ 1024
  pub one_line : contains_any (h.key ++ h.value) (codes "\r\n") ≡ false
  pub not_reserved : contains forbidden_headers (to_lower h.key) ≡ false

module _ (http : Http) ⦃u : Unicode⦄ where
  normalize_condition-IsCondition :
      (raw c : Condition) → normalize_condition http raw ≡ ok c → IsCondition http c
  unfolding normalize_condition validate_condition_header validate_condition_regex
  normalize_condition-IsCondition raw c h = record {
    named = ground arith;
    name_short = ground arith;
    name_clean = ground arith;
    operator_known = ground arith;
    has_value = ground arith;
    value_short = ground arith;
    compiles = ground arith;
  }

  normalize_header-IsHeader :
      (raw c : ResponseHeader) → normalize_header http raw ≡ ok c → IsHeader c
  unfolding normalize_header safe_custom_header
  normalize_header-IsHeader raw c h = record {
    has_key = ground arith;
    key_short = ground arith;
    value_short = ground arith;
    one_line = ground arith;
    not_reserved = ground arith;
  }

  -- The operator, type and priority of a rule as `normalizeResponseRuleResponse` leaves them.
  pub record IsResponse (input : RuleInput) : Type 0 where
    pub combines : (input.operator ≡ codes "AND") ⊎ (input.operator ≡ codes "OR")
    pub type_known : contains response_types input.response_type ≡ true
    pub priority_low : at_least input.priority 0 ≡ true
    pub priority_high : above input.priority 100000 ≡ false

  normalize_response_type-known :
      (raw value : Text)
      → normalize_response_type raw ≡ some value
      → contains response_types value ≡ true
  unfolding normalize_response_type
  normalize_response_type-known raw value h =
      elim (Bool-cases (contains response_types (to_lower (trim_space raw)))) [
        | inl has ↦ rw (← some-injective (rw has at h)) has
        | inr lacks ↦ absurd (none-ne-some (rw lacks at h))
      ]

  normalize_response-IsResponse :
      (input out : RuleInput)
      → normalize_response input ≡ ok out
      → IsResponse out × (out.name ≡ input.name) × (out.description ≡ input.description)
  unfolding normalize_response
  normalize_response-IsResponse input out h =
      let operator = to_upper (trim_space input.operator) in
      elim (Option-cases (normalize_response_type input.response_type)) [
        | inl none_eq ↦ absurd (ground (arith, none_eq))
        | inr (type, some_eq) ↦
            let known = normalize_response_type-known input.response_type type some_eq in
            (
              record {
                combines =
                    ground (
                      arith,
                      text_eq_iff operator (codes "AND"),
                      text_eq_iff operator (codes "OR"),
                    );
                type_known = ground (arith, known, some_eq);
                priority_low = ground (arith, some_eq);
                priority_high = ground (arith, some_eq);
              },
              ground (arith, some_eq),
              ground (arith, some_eq),
            )
      ]

  validate_metadata-cases :
      (input : RuleInput) (done : Unit {0})
      → validate_metadata input ≡ ok done
      → (input.name ≢ []) × (length input.name ≤ 80) × (length input.description ≤ 250)
  unfolding validate_metadata
  validate_metadata-cases input done h = (ground arith, ground arith, ground arith)

  pub record IsRule (input : RuleInput) : Type 0 where
    pub named : input.name ≢ []
    pub name_short : length input.name ≤ 80
    pub description_short : length input.description ≤ 250
    pub response : IsResponse input
    pub few_conditions : length input.conditions ≤ 20
    pub conditions : All (IsCondition http) input.conditions
    pub few_headers : length input.headers ≤ 30
    pub headers : All IsHeader input.headers

  IsRule-with :
      (r : RuleInput) (cs : List Condition) (hs : List ResponseHeader)
      → r.name ≢ []
      → length r.name ≤ 80
      → length r.description ≤ 250
      → IsResponse r
      → length cs ≤ 20
      → All (IsCondition http) cs
      → length hs ≤ 30
      → All IsHeader hs
      → IsRule (record r { conditions = cs; headers = hs })
  IsRule-with r cs hs a b c d e f g h = record {
    named = a;
    name_short = b;
    description_short = c;
    response = record {
      combines = d.combines;
      type_known = d.type_known;
      priority_low = d.priority_low;
      priority_high = d.priority_high;
    };
    few_conditions = e;
    conditions = f;
    few_headers = g;
    headers = h;
  }

  -- A rule that the validation accepts has a name and a description within their limits, a known
  -- operator, type and priority, at most 20 conditions, each with a clean header name, a known
  -- operator and a value within its limit that compiles as it is written if it is a regular
  -- expression, and at most 30 headers, none of which breaks a line or sets a reserved name. It is not
  -- said that the matching, which compiles the value in lower case unless the condition is case
  -- sensitive, can compile it too.
  pub validate_rule_input-IsRule :
      (raw accepted : RuleInput) → validate_rule_input http raw ≡ ok accepted → IsRule accepted
  unfolding validate_rule_input normalize_conditions normalize_headers
  validate_rule_input-IsRule raw accepted h =
      let trimmed = record raw {
        name = trim_space raw.name;
        description = trim_space raw.description;
      } in
      let (done, m, h1) = >>=-eq-ok (validate_metadata trimmed) _ h in
      let (responding, r, h2) = >>=-eq-ok (normalize_response trimmed) _ h1 in
      let (conditions, c, h3) = >>=-eq-ok (normalize_conditions http responding.conditions) _ h2 in
      let (headers, d, h4) = >>=-eq-ok (normalize_headers http responding.headers) _ h3 in
      let (few, each) =
        fail_if->>=-eq-ok (ltb 20 (length responding.conditions)) too_many_conditions _ c in
      let (few_h, each_h) =
        fail_if->>=-eq-ok (ltb 30 (length responding.headers)) too_many_headers _ d in
      let (all, same) =
        each_ok-All (IsCondition http) (normalize_condition http) normalize_condition-IsCondition
          responding.conditions conditions each in
      let (all_h, same_h) =
        each_ok-All IsHeader (normalize_header http) normalize_header-IsHeader responding.headers
          headers each_h in
      let (named, short, described) = validate_metadata-cases trimmed done m in
      let (response, same_name, same_description) =
        normalize_response-IsResponse trimmed responding r in
      rw (← ok-injective h4) (
        IsRule-with responding conditions headers (rw same_name named) (rw same_name short)
          (rw same_description described) response (at_most 20 _ _ few same) all
          (at_most 30 _ _ few_h same_h) all_h)
