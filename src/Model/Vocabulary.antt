-- ===== src/Model/Vocabulary.antt =====
-- `valueVocabulary` and the vocabularies of internal/model/model.go. A vocabulary maps accepted
-- spellings to canonical values; `none` is the answer `ok == false`.
use sub_share_go.Common.{
  [], ◌∷◌, ◌≡◌, ◌⊎◌, arith, refl, Option, none, some, text, All, text_eq, ◌==◌, if◌then◌else◌,
}
use sub_share_go.Strings.{Text, Unicode, codes, trim_space, to_lower}
use sub_share_go.Table.{Table, lookup, All-lookup}

unfoldable pub normalize : ⦃u : Unicode⦄ → Table Text Text → Text → Option Text
normalize ⦃u⦄ values raw = lookup (to_lower (trim_space raw)) values

abbrev pub active : Text
active = codes "active"

abbrev pub paused : Text
paused = codes "paused"

abbrev pub blocked : Text
blocked = codes "blocked"

abbrev pub non_active : Text
non_active = codes "non-active"

abbrev pub real : Text
real = codes "real"

abbrev pub informational : Text
informational = codes "informational"

abbrev pub unsupported_check : Text
unsupported_check = codes "unsupported_check"

abbrev pub unknown : Text
unknown = codes "unknown"

abbrev pub user_statuses : Table Text Text
user_statuses = ([], active) ∷ (active, active) ∷ (paused, paused) ∷ (blocked, blocked) ∷ []

abbrev pub key_statuses : Table Text Text
key_statuses =
    ([], active) ∷ (active, active) ∷ (non_active, non_active) ∷ (blocked, non_active) ∷ []

abbrev pub check_statuses : Table Text Text
check_statuses =
    (codes "up", codes "up")
    ∷ (codes "down", codes "down")
    ∷ (unknown, unknown)
    ∷ (unsupported_check, unsupported_check)
    ∷ []

abbrev pub key_kinds : Table Text Text
key_kinds = ([], real) ∷ (real, real) ∷ (informational, informational) ∷ []

abbrev pub subscription_formats : Table Text Text
subscription_formats =
    ([], codes "links")
    ∷ (codes "links", codes "links")
    ∷ (codes "xray-json", codes "xray-json")
    ∷ []

abbrev pub key_assignment_modes : Table Text Text
key_assignment_modes = (codes "all", codes "all") ∷ (codes "selected", codes "selected") ∷ []

-- `UserStatus.Normalize` and the other methods of that name
abbrev pub normalize_user_status : ⦃u : Unicode⦄ → Text → Option Text
normalize_user_status = normalize user_statuses

abbrev pub normalize_key_status : ⦃u : Unicode⦄ → Text → Option Text
normalize_key_status = normalize key_statuses

abbrev pub normalize_key_kind : ⦃u : Unicode⦄ → Text → Option Text
normalize_key_kind = normalize key_kinds

abbrev pub normalize_subscription_format : ⦃u : Unicode⦄ → Text → Option Text
normalize_subscription_format = normalize subscription_formats

abbrev pub normalize_key_assignment_mode : ⦃u : Unicode⦄ → Text → Option Text
normalize_key_assignment_mode = normalize key_assignment_modes

abbrev pub or_default : Option Text → Text → Text
or_default none fallback = fallback
or_default (some value) fallback = value

-- `UserStatus.Stored`
unfoldable pub stored_user_status : ⦃u : Unicode⦄ → Text → Text
stored_user_status status = or_default (normalize_user_status status) active

-- `CheckStatus.Normalize`
unfoldable pub normalize_check_status : ⦃u : Unicode⦄ → Text → Text
normalize_check_status status = or_default (normalize check_statuses status) unknown

-- `KeyStatus.Label`
pub key_status_label : Text → Text
key_status_label status = if status == active then active else non_active

pub data Vocabulary : Type 0 where
  user_status key_status check_status key_kind subscription_format key_assignment_mode : Vocabulary

abbrev pub values_of : Vocabulary → Table Text Text
values_of user_status = user_statuses
values_of key_status = key_statuses
values_of check_status = check_statuses
values_of key_kind = key_kinds
values_of subscription_format = subscription_formats
values_of key_assignment_mode = key_assignment_modes

-- A vocabulary whose every value stands for itself.
abbrev pub IsCanonical : ⦃u : Unicode⦄ → Table Text Text → Type 0
IsCanonical values = All (λ entry. normalize values entry.1 ≡ some entry.1) values

module _ ⦃u : Unicode⦄ where
  normalize_fixed :
      (values : Table Text Text) (raw value : Text)
      → IsCanonical values
      → normalize values raw ≡ some value
      → normalize values value ≡ some value
  normalize_fixed values raw value canonical h =
      All-lookup (λ entry. normalize values entry.1 ≡ some entry.1) (to_lower (trim_space raw))
        values (unfold normalize in h) canonical

  values-IsCanonical : (v : Vocabulary) → IsCanonical (values_of v)
  unfolding normalize to_lower trim_space lookup text_eq
  values-IsCanonical user_status = (refl, (refl, (refl, (refl, tt))))
  values-IsCanonical key_status = (refl, (refl, (refl, (refl, tt))))
  values-IsCanonical check_status = (refl, (refl, (refl, (refl, tt))))
  values-IsCanonical key_kind = (refl, (refl, (refl, tt)))
  values-IsCanonical subscription_format = (refl, (refl, (refl, tt)))
  values-IsCanonical key_assignment_mode = (refl, (refl, tt))

  -- In every vocabulary what is accepted is turned into a value that stands for itself.
  pub normalize_idem :
      (v : Vocabulary) (raw value : Text)
      → normalize (values_of v) raw ≡ some value
      → normalize (values_of v) value ≡ some value
  normalize_idem v raw value = normalize_fixed (values_of v) raw value (values-IsCanonical v)

  -- A stored user status is one of three, whatever text the row holds.
  pub stored_user_status_cases :
      (status : Text)
      → (stored_user_status status ≡ active)
        ⊎ (stored_user_status status ≡ paused)
        ⊎ (stored_user_status status ≡ blocked)
  unfolding stored_user_status normalize lookup
  stored_user_status_cases status = ground arith
