-- ===== src/Users/Accepted.antt =====
-- What is known of a user that may be created, and of settings that may be stored.
use sub_share_go.Common.{
  ◌≤◌, [], some, Bool, true, false, not, ℤ, pos, negsuc, above, ◌==◌, text, if◌then◌else◌, ◌≡◌, ◌≢◌,
  ◌⊎◌, arith, Option-cases, inl, inr, ne_test, refl, text_eq_iff,
}
use sub_share_go.Common.Result.{ok, >>=-eq-ok, ok-injective}
use sub_share_go.Strings.Trim.{trim_space_idem}
use sub_share_go.Strings.{Text, Unicode, codes, trim_space, byte_len, contains_text}
use sub_share_go.Model.Vocabulary.{blocked, normalize_user_status, normalize_idem, user_status}
use sub_share_go.Activation.{validate_activation_code}
use sub_share_go.Users.{
  CreateUserRequest, CreateUserInput, validate_required_fields, validate_field_lengths,
  validate_create_user_input, trimmed_input, validate_create_user, days_or_default, UserSettings,
  normalize_user_time_zone, prepare_user_settings,
}

-- 1 to 3650 days
abbrev pub InDays : ℤ → Type 0
InDays (pos n) = (1 ≤ n) × (n ≤ 3650)
InDays (negsuc n) = ⊥

pub record IsCreatable ⦃u : Unicode⦄ (input : CreateUserInput) : Type 0 where
  pub status_known : normalize_user_status input.status ≡ some input.status
  pub named : input.name ≢ []
  pub name_short : byte_len input.name ≤ 255
  pub email_short : byte_len input.email ≤ 255
  pub code_valid : validate_activation_code input.activation_code ≡ some input.activation_code
  pub code_short : byte_len input.activation_code ≤ 128
  pub reason_blocked : input.status ≢ blocked → input.blocked_reason ≡ []
  pub days_fit : InDays input.issue_days

days-InDays : (days : ℤ) → above (days_or_default days) 3650 ≡ false → InDays (days_or_default days)
days-InDays (pos n) h = ground arith
days-InDays (negsuc n) h = (omega arith, omega arith)

validate_create_user_input-cases :
    (input : CreateUserInput) (done : Unit {0})
    → validate_create_user_input input ≡ ok done
    → (above input.issue_days 3650 ≡ false)
      × (input.name ≢ [])
      × (input.activation_code ≢ [])
      × (contains_text input.activation_code (codes "/") ≡ false)
      × (byte_len input.name ≤ 255)
      × (byte_len input.email ≤ 255)
      × (byte_len input.activation_code ≤ 128)
unfolding validate_create_user_input validate_required_fields validate_field_lengths
validate_create_user_input-cases input done h = (
  ground arith,
  ground arith,
  ground arith,
  ground arith,
  ground arith,
  ground arith,
  ground arith,
)

code-valid :
    (raw : Text)
    → trim_space raw ≢ []
    → contains_text (trim_space raw) (codes "/") ≡ false
    → validate_activation_code (trim_space raw) ≡ some (trim_space raw)
unfolding validate_activation_code
code-valid raw some_code no_slash = ground (arith, trim_space_idem raw, some_code, no_slash)

reason-blocked :
    (status reason : Text)
    → status ≢ blocked
    → (if not (status == blocked) then [] else reason) ≡ []
reason-blocked status reason other = rw (ne_test status blocked other) refl

module _ ⦃u : Unicode⦄ where
  -- A user that may be created has a known status, a name, texts within their limits, 1 to 3650 days,
  -- a reason only if blocked, and an activation code that the redemption accepts as it is.
  pub validate_create_user-IsCreatable :
      (req : CreateUserRequest) (input : CreateUserInput)
      → validate_create_user req ≡ ok input
      → IsCreatable input
  unfolding validate_create_user trimmed_input
  validate_create_user-IsCreatable req input h =
      elim (Option-cases (normalize_user_status req.status)) [
        | inl unknown ↦ absurd (ground (arith, unknown))
        | inr (status, normal) ↦
            let (done, p, last) =
              >>=-eq-ok (validate_create_user_input (trimmed_input status req)) _
                (rw (normal, validate_create_user) at h) in
            let (days, named, coded, plain, name, email, code) =
              validate_create_user_input-cases (trimmed_input status req) done p in
            rw (← ok-injective last) (record {
              status_known = normalize_idem user_status req.status status normal;
              named = named;
              name_short = name;
              email_short = email;
              code_valid = code-valid req.activation_code coded plain;
              code_short = code;
              reason_blocked = reason-blocked status (trim_space req.blocked_reason);
              days_fit = days-InDays req.issue_days days;
            })
      ]

  -- Settings that may be stored have one of the two languages and a known zone of at most 64 bytes.
  pub prepare_user_settings-known :
      (zone_known : Text → Bool) (input settings : UserSettings)
      → prepare_user_settings zone_known input ≡ ok settings
      → (zone_known settings.time_zone ≡ true)
        × (byte_len settings.time_zone ≤ 64)
        × ((settings.language ≡ codes "ru") ⊎ (settings.language ≡ codes "en"))
  unfolding prepare_user_settings normalize_user_time_zone
  prepare_user_settings-known zone_known input settings h = (
    ground arith,
    ground arith,
    ground (
      arith,
      text_eq_iff settings.language (codes "ru"),
      text_eq_iff settings.language (codes "en"),
    ),
  )
