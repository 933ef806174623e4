-- ===== src/Users.antt =====
-- cmd/server/user_creation_policy.go, user_assignment_policy.go and user_settings_policy.go: what a
-- request on a user must be. A message is known by a constructor.
pub mod Accepted
pub mod Assignment
use sub_share_go.Common.{
  ℕ, List, [], ◌∷◌, Option, none, some, Bool, true, false, not, ◌&&◌, ◌||◌, ℤ, pos, negsuc, above,
  int, ltb, length, ◌==◌, text, if◌then◌else◌, ◌≡◌, contains, ◌++◌,
}
use sub_share_go.Common.Result.{Result, ok, err, ◌>>=◌, ◌>>◌, fail_if}
use sub_share_go.Strings.{
  Text, Unicode, codes, trim_space, is_empty, byte_len, contains_text, to_lower,
}
use sub_share_go.Model.Vocabulary.{blocked, normalize_user_status, normalize_key_assignment_mode}

-- `model.CreateUserRequest`
pub record CreateUserRequest : Type 0 where
  pub name : Text
  pub email : Text
  pub activation_code : Text
  pub status : Text
  pub issue_days : ℤ
  pub blocked_reason : Text

-- `createUserInput`
pub record CreateUserInput : Type 0 where
  pub name : Text
  pub email : Text
  pub activation_code : Text
  pub status : Text
  pub blocked_reason : Text
  pub issue_days : ℤ

pub data UserError : Type 0 where
  status_invalid issue_days_invalid name_required code_required : UserError
  name_too_long email_too_long code_too_long : UserError
  mode_invalid keys_not_empty key_invalid language_invalid zone_too_long zone_invalid : UserError

unfoldable pub validate_required_fields : CreateUserInput → Result UserError (Unit {0})
validate_required_fields input = do
  fail_if (is_empty input.name) name_required
  fail_if (is_empty input.activation_code || contains_text input.activation_code (codes "/"))
      code_required

unfoldable pub validate_field_lengths : CreateUserInput → Result UserError (Unit {0})
validate_field_lengths input = do
  fail_if (ltb 255 (byte_len input.name)) name_too_long
  fail_if (ltb 255 (byte_len input.email)) email_too_long
  fail_if (ltb 128 (byte_len input.activation_code)) code_too_long

unfoldable pub validate_create_user_input : CreateUserInput → Result UserError (Unit {0})
validate_create_user_input input = do
  fail_if (above input.issue_days 3650) issue_days_invalid
  validate_required_fields input
  validate_field_lengths input

-- 30 stands for days that are not positive
abbrev pub days_or_default : ℤ → ℤ
days_or_default days = if not (above days 0) then pos 30 else days

-- the input that the request comes to, its status normalized
unfoldable pub trimmed_input : Text → CreateUserRequest → CreateUserInput
trimmed_input status req = record {
  name = trim_space req.name;
  email = trim_space req.email;
  activation_code = trim_space req.activation_code;
  status = status;
  blocked_reason = if not (status == blocked) then [] else trim_space req.blocked_reason;
  issue_days = days_or_default req.issue_days;
}

unfoldable pub validate_create_user :
    ⦃u : Unicode⦄ → CreateUserRequest → Result UserError CreateUserInput
validate_create_user req = elim (normalize_user_status req.status) [
  | none ↦ err status_invalid
  | some status ↦ do
    validate_create_user_input (trimmed_input status req)
    ok (trimmed_input status req)
]

-- `model.UpdateKeyAssignmentRequest`
pub record AssignmentRequest : Type 0 where
  pub mode : Text
  pub key_ids : List ℤ

-- `userAssignmentInput`
pub record AssignmentInput : Type 0 where
  pub mode : Text
  pub key_ids : List ℤ

unfoldable pub prepare_assignment_request :
    ⦃u : Unicode⦄ → AssignmentRequest → Result UserError Text
prepare_assignment_request input = elim (normalize_key_assignment_mode input.mode) [
  | none ↦ err mode_invalid
  | some mode ↦
      if mode == codes "all" && ltb 0 (length input.key_ids) then err keys_not_empty else ok mode
]

-- the loop of `normalizeUserAssignmentIDs`; the keys of `seen` are `normalized`
unfoldable pub normalize_ids_from : List ℤ → List ℤ → Result UserError (List ℤ)
normalize_ids_from normalized [] = ok normalized
normalize_ids_from normalized (id ∷ ids) =
    let skip = normalize_ids_from normalized ids in
    let add = normalize_ids_from (normalized ++ id ∷ []) ids in
    if not (above id 0) then err key_invalid else if contains normalized id then skip else add

abbrev pub normalize_assignment_ids : List ℤ → Result UserError (List ℤ)
normalize_assignment_ids = normalize_ids_from []

unfoldable pub normalize_assignment :
    ⦃u : Unicode⦄ → Text → List ℤ → Result UserError AssignmentInput
normalize_assignment raw key_ids = elim (normalize_key_assignment_mode raw) [
  | none ↦ err mode_invalid
  | some mode ↦ do
    ids ← normalize_assignment_ids key_ids
    ok (record { mode = mode; key_ids = ids })
]

-- `model.UpdateUserSettingsRequest` and `userSettingsInput`
pub record UserSettings : Type 0 where
  pub time_zone : Text
  pub language : Text

-- `time.LoadLocation` is `zone_known`
unfoldable pub normalize_user_time_zone : (Text → Bool) → Text → Result UserError Text
normalize_user_time_zone zone_known raw =
    let trimmed = trim_space raw in
    let zone = if is_empty trimmed then codes "Europe/Moscow" else trimmed in
    do
      fail_if (ltb 64 (byte_len zone)) zone_too_long
      fail_if (not (zone_known zone)) zone_invalid
      ok zone

unfoldable pub prepare_user_settings :
    ⦃u : Unicode⦄ → (Text → Bool) → UserSettings → Result UserError UserSettings
prepare_user_settings zone_known input = do
  zone ← normalize_user_time_zone zone_known input.time_zone
  let lowered = to_lower (trim_space input.language)
  let language = if is_empty lowered then codes "ru" else lowered
  fail_if (not (language == codes "ru") && not (language == codes "en")) language_invalid
  ok (record { time_zone = zone; language = language })
