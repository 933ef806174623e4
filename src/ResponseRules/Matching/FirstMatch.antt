-- ===== src/ResponseRules/Matching/FirstMatch.antt =====
-- The rule that answers is the first that applies; a negated operator is the complement.
use mathlib.Core.Logic.Or
use mathlib.Core.Bool.{Bool-set}
use mathlib.Core.List.{Mem, mem-cons, mem-cons_self, mem-cons_of_mem, not-mem-nil}
use sub_share_go.Common.{
  ◌⊎◌, ◌≢◌, ◌↔◌, ◌==◌, arith, text_eq_iff, List, [], ◌∷◌, ◌++◌, Option, none, some, Bool, true,
  false, not, text, text_eq, ◌≡◌, refl, All, Bool-cases, inl, inr, contains, All-contains, ap,
}
use sub_share_go.Strings.{Text, Unicode, codes, has_prefix, trim_prefix}
use sub_share_go.ResponseRules.{Http, Header, Condition, Rule}
use sub_share_go.ResponseRules.Matching.{
  ConditionValues, negation, positive_match, text_matches, regex_matches, values_of,
  condition_matches, any_condition_matches, all_conditions_match, rule_matches, applies,
  first_matching_rule, differs,
}

module _ (http : Http) ⦃u : Unicode⦄ (header : Header) where
  -- The rule is enabled, and it has no conditions, or its operator is OR and one of them holds, or
  -- its operator is another and all of them hold.
  abbrev pub Applies : Rule → Type 0
  Applies rule =
      (rule.input.enabled ≡ true)
      × ((rule.input.conditions ≡ [])
          ⊎ ((rule.input.operator ≡ codes "OR")
              × ((c : Condition) × Mem c rule.input.conditions
                  × (condition_matches http c header ≡ true)))
          ⊎ ((rule.input.operator ≢ codes "OR")
              × All (λ c. condition_matches http c header ≡ true) rule.input.conditions))

  any_condition_matches_iff :
      (cs : List Condition)
      → (any_condition_matches http cs header ≡ true)
        ↔ ((c : Condition) × Mem c cs × (condition_matches http c header ≡ true))
  unfolding any_condition_matches
  any_condition_matches_iff [] = ((λ h. absurd (cc h)), λ (c, m, h). absurd (not-mem-nil m))
  any_condition_matches_iff (c ∷ cs) =
      let (found, back) = any_condition_matches_iff cs in
      (
        (λ h. elim (Bool-cases (condition_matches http c header)) [
          | inl here ↦ (c, mem-cons_self, here)
          | inr other ↦ let (d, m, holds) = found (rw other at h) in (d, mem-cons_of_mem c m, holds)
        ]),
        λ (d, m, holds). elim (Bool-cases (condition_matches http c header)) [
          | inl here ↦ rw here refl
          | inr other ↦ rw other (
              Or.elim (Bool-set _ _) (mem-cons.0 m) (λ same. absurd (cc (holds, other, same)))
                (λ later. back (d, later, holds)))
        ],
      )

  all_conditions_match_iff :
      (cs : List Condition)
      → (all_conditions_match http cs header ≡ true)
        ↔ All (λ c. condition_matches http c header ≡ true) cs
  unfolding all_conditions_match
  all_conditions_match_iff [] = ((λ h. tt), λ h. refl)
  all_conditions_match_iff (c ∷ cs) =
      let (forth, back) = all_conditions_match_iff cs in
      (
        (λ h. elim (Bool-cases (condition_matches http c header)) [
          | inl here ↦ (here, forth (rw here at h))
          | inr other ↦ absurd (cc (rw other at h))
        ]),
        λ (here, rest). rw (here) (back rest),
      )

  conditions-cases :
      (cs : List Condition)
      → (cs ≡ []) ⊎ ((c : Condition) × (rest : List Condition) × (cs ≡ c ∷ rest))
  conditions-cases [] = inl refl
  conditions-cases (c ∷ cs) = inr (c, cs, refl)

  -- the test of the code
  applies_iff : (rule : Rule) → (applies http header rule ≡ true) ↔ Applies rule
  unfolding rule_matches
  applies_iff rule = elim (conditions-cases rule.input.conditions) [
    | inl empty ↦ (
      (λ h. (ground (arith, h), inl empty)),
      λ (enabled, why). rw (enabled, empty, rule_matches) refl,
    )
    | inr (c, cs, e) ↦ elim (Bool-cases (rule.input.operator == codes "OR")) [
      | inl any ↦
          let is_or = (text_eq_iff rule.input.operator (codes "OR")).0 any in
          let (found, back) = any_condition_matches_iff (c ∷ cs) in
          (
            (λ h.
                let m : rule_matches http rule header ≡ true = ground (arith, h) in
                (
                  ground (arith, h),
                  inr (inl (is_or, rw e (found (rw (e, any, rule_matches) at m)))),
                )),
            λ (enabled, why).
                rw (enabled, e, any, rule_matches)
                  (elim why [
                    | inl empty ↦ absurd (cc (e, empty))
                    | inr (inl (_, holds)) ↦ back (rw e at holds)
                    | inr (inr (not_or, _)) ↦ absurd (not_or is_or)
                  ]),
          )
      | inr all ↦
          let not_or : rule.input.operator ≢ codes "OR" =
            λ same. cc ((text_eq_iff rule.input.operator (codes "OR")).1 same, all) in
          let (holding, back) = all_conditions_match_iff (c ∷ cs) in
          (
            (λ h.
                let m : rule_matches http rule header ≡ true = ground (arith, h) in
                (
                  ground (arith, h),
                  inr (inr (not_or, rw e (holding (rw (e, all, rule_matches) at m)))),
                )),
            λ (enabled, why).
                rw (enabled, e, all, rule_matches)
                  (elim why [
                    | inl empty ↦ absurd (cc (e, empty))
                    | inr (inl (same, _)) ↦ absurd (not_or same)
                    | inr (inr (_, holds)) ↦ back (rw e at holds)
                  ]),
          )
    ]
  ]

  -- Every rule before the one chosen does not apply, and it does; with none chosen none applies.
  abbrev pub IsFirst : List Rule → Option Rule → Type 0
  IsFirst rules none = All (λ rule. ¬ Applies rule) rules
  IsFirst rules (some chosen) =
      (before : List Rule) × (after : List Rule) × (rules ≡ before ++ chosen ∷ after)
      × All (λ rule. ¬ Applies rule) before
      × Applies chosen

  IsFirst-cons :
      (rule : Rule) (rules : List Rule) (answer : Option Rule)
      → ¬ Applies rule
      → IsFirst rules answer
      → IsFirst (rule ∷ rules) answer
  IsFirst-cons rule rules none skip first = (skip, first)
  IsFirst-cons rule rules (some chosen) skip (before, after, e, skipped, applied) =
      (rule ∷ before, after, ap (λ r. rule ∷ r) e, (skip, skipped), applied)

  -- Of the stored rules in their order the first that applies is chosen, and none is chosen only when
  -- none applies. A rule applies when it is enabled and has no conditions, or has the operator OR and
  -- one of its conditions holds, or another operator and all of them hold.
  pub first_matching_rule-IsFirst :
      (rules : List Rule) → IsFirst rules (first_matching_rule http rules header)
  unfolding first_matching_rule
  first_matching_rule-IsFirst [] = tt
  first_matching_rule-IsFirst (rule ∷ rules) = elim (Bool-cases (applies http header rule)) [
    | inl hit ↦ rw (hit) ([], rules, refl, tt, (applies_iff rule).0 hit)
    | inr miss ↦ rw (miss) (
        IsFirst-cons rule rules _ (λ yes'. cc ((applies_iff rule).1 yes', miss))
          (first_matching_rule-IsFirst rules))
  ]

abbrev pub positive_operators : List Text
positive_operators =
    codes "EQUALS" ∷ codes "CONTAINS" ∷ codes "STARTS_WITH" ∷ codes "ENDS_WITH" ∷ codes "REGEX" ∷ []

differs-true : (b : Bool) → differs b true ≡ not (differs b false)
differs-true true = refl
differs-true false = refl

regex_matches-negation :
    (http : Http) (values : ConditionValues) (matcher : Text → Bool)
    → http.compile values.expected ≡ some matcher
    → regex_matches http (codes "NOT_REGEX") values
      ≡ not (regex_matches http (codes "REGEX") values)
unfolding regex_matches text_eq
regex_matches-negation http values matcher compiles = rw (compiles, regex_matches) refl

module _ (http : Http) ⦃u : Unicode⦄ (header : Header) (condition : Condition) where
  abbrev pub with_operator : Text → Condition
  with_operator operator = record condition { operator = operator }

  -- A condition whose operator is negated holds exactly when the condition does not, for each of the
  -- five operators, when a regular expression compiles.
  pub condition_matches-negation :
      (operator : Text)
      → contains positive_operators operator ≡ true
      → (matcher : Text → Bool)
      → http.compile (values_of http condition header).expected ≡ some matcher
      → condition_matches http (with_operator (negation ++ operator)) header
        ≡ not (condition_matches http (with_operator operator) header)
  unfolding condition_matches text_matches values_of positive_match has_prefix trim_prefix text_eq
  condition_matches-negation operator known matcher compiles =
      All-contains
        (λ o.
          condition_matches http (with_operator (negation ++ o)) header
          ≡ not (condition_matches http (with_operator o) header))
        positive_operators operator known
        (
          differs-true _,
          (
            differs-true _,
            (
              differs-true _,
              (
                differs-true _,
                (
                  regex_matches-negation http (values_of http condition header) matcher compiles,
                  tt,
                ),
              ),
            ),
          ),
        )
