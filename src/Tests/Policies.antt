-- ===== src/Tests/Policies.antt =====
-- A PATCH and a replacement of one subscription, a new user, settings and devices.
use sub_share_go.Common.{
  [], ◌∷◌, none, some, Bool, true, false, ◌≡◌, ◌≢◌, ◌≤◌, ◌<◌, ◌↔◌, ◌⊎◌, refl, arith, text, text_eq,
  pos, negsuc, int,
}
use sub_share_go.Common.Result.{ok}
use sub_share_go.Strings.{
  Text, codes, trim_space, byte_len, rune_len, to_lower, contains_text, has_prefix,
}
use sub_share_go.Table.{lookup}
use sub_share_go.Model.Vocabulary.{normalize, active, paused, blocked, stored_user_status}
use sub_share_go.Model.UserState.{
  UserStatusSnapshot, effective_user_status, effective_user_status-active_iff,
}
use sub_share_go.Subscription.Patch.{
  PatchRequest, PatchState, apply_patch, patch_access, patch_metadata, patch_delivery, drop_reason,
  invalid_date_range,
}
use sub_share_go.Subscription.Fields.{
  apply_patch_status, apply_patch_time, apply_patch_string, apply_patch_url,
  apply_patch_refresh_hours, parse_optional_date_time, normalize_absolute_http_url,
}
use sub_share_go.Subscription.Patch.Keeps.{IsValid, apply_patch-IsValid, apply_patch-unset}
use sub_share_go.Subscription.Replacement.{
  UpdateRequest, replace_user_subscription, prepare_replacement, replacement_access,
  replacement_metadata, replacement_delivery, null_string_value,
}
use sub_share_go.Subscription.Replacement.Accepted.{replace_user_subscription-IsValid}
use sub_share_go.Users.{
  CreateUserRequest, CreateUserInput, UserSettings, validate_create_user, prepare_user_settings,
  trimmed_input, validate_create_user_input, validate_required_fields, validate_field_lengths,
  normalize_user_time_zone,
}
use sub_share_go.Users.Accepted.{IsCreatable, validate_create_user-IsCreatable}
use sub_share_go.Devices.{identities, DeviceMeta, DeviceRow, register_hwid}
use sub_share_go.Devices.Capacity.{count, register_hwid-count}
use sub_share_go.Tests.Fixtures.{ascii, formats, omitted, set_to, no_hours}

abbrev stored : PatchState
stored = record {
  status = active;
  time_zone = [];
  starts_at = none;
  expires_at = some 60;
  blocked_reason = none;
  name = some (codes "home");
  info_url = none;
  extra_url = none;
  extra_status = none;
  refresh_hours = pos 12;
}

stored-IsValid : IsValid stored
unfolding normalize lookup to_lower trim_space text_eq invalid_date_range
stored-IsValid = record {
  status_known = refl;
  in_order = refl;
  reason_blocked = λ other. refl;
  reason_fits = tt;
  name_fits = omega arith;
  extra_fits = tt;
  hours_fit = omega arith;
}

-- block, with a reason
abbrev request : PatchRequest
request = record {
  status = set_to (codes " Blocked");
  starts_at = omitted;
  expires_at = omitted;
  blocked_reason = set_to (codes "unpaid");
  subscription_name = omitted;
  subscription_refresh_hours = no_hours;
  subscription_info_url = omitted;
  subscription_extra_url = omitted;
  subscription_extra_status = omitted;
}

abbrev patched : PatchState
patched = record stored { status = blocked; blocked_reason = some (codes "unpaid") }

request-patched : apply_patch formats request stored ≡ ok patched
unfolding apply_patch patch_access patch_metadata patch_delivery drop_reason invalid_date_range
    apply_patch_status apply_patch_time apply_patch_string apply_patch_url apply_patch_refresh_hours
    normalize lookup to_lower trim_space text_eq
request-patched = refl

apply_patch-IsValid_example : IsValid patched
apply_patch-IsValid_example =
    apply_patch-IsValid formats request stored patched stored-IsValid request-patched

apply_patch-unset_example :
    (patched.time_zone ≡ stored.time_zone)
    × ((true ≡ true) ⊎ (patched.status ≡ stored.status))
    × ((false ≡ true) ⊎ (patched.starts_at ≡ stored.starts_at))
    × ((false ≡ true) ⊎ (patched.expires_at ≡ stored.expires_at))
    × ((true ≡ true) ⊎ (blocked ≢ blocked) ⊎ (patched.blocked_reason ≡ stored.blocked_reason))
    × ((false ≡ true) ⊎ (patched.name ≡ stored.name))
    × ((false ≡ true) ⊎ (patched.extra_status ≡ stored.extra_status))
    × ((false ≡ true) ⊎ (patched.info_url ≡ stored.info_url))
    × ((false ≡ true) ⊎ (patched.extra_url ≡ stored.extra_url))
    × ((false ≡ true) ⊎ (patched.refresh_hours ≡ stored.refresh_hours))
apply_patch-unset_example = apply_patch-unset formats request stored patched request-patched

abbrev replacement : UpdateRequest
replacement = record {
  status = codes "paused";
  starts_at = [];
  expires_at = [];
  blocked_reason = codes "x";
  subscription_name = codes " home ";
  subscription_refresh_hours = pos 0;
  subscription_info_url = [];
  subscription_extra_url = [];
  subscription_extra_status = [];
}

abbrev replaced : PatchState
replaced = record stored { status = paused; expires_at = none }

replacement-replaced : replace_user_subscription formats tt replacement stored ≡ ok replaced
unfolding replace_user_subscription prepare_replacement replacement_access replacement_metadata
    replacement_delivery null_string_value invalid_date_range parse_optional_date_time
    normalize_absolute_http_url normalize lookup to_lower trim_space text_eq byte_len rune_len
replacement-replaced = refl

replace_user_subscription-IsValid_example : IsValid replaced
unfolding trim_space
replace_user_subscription-IsValid_example =
    replace_user_subscription-IsValid formats tt replacement stored replaced (omega arith)
      replacement-replaced

abbrev newcomer : CreateUserRequest
newcomer = record {
  name = codes " Ann";
  email = [];
  activation_code = codes "c0de ";
  status = [];
  issue_days = negsuc 4;
  blocked_reason = codes "x";
}

abbrev accepted : CreateUserInput
accepted = record {
  name = codes "Ann";
  email = [];
  activation_code = codes "c0de";
  status = active;
  issue_days = pos 30;
  blocked_reason = [];
}

newcomer-accepted : validate_create_user newcomer ≡ ok accepted
unfolding validate_create_user trimmed_input validate_create_user_input validate_required_fields
    validate_field_lengths contains_text has_prefix normalize lookup to_lower trim_space text_eq
    byte_len rune_len
newcomer-accepted = refl

validate_create_user-IsCreatable_example : IsCreatable accepted
validate_create_user-IsCreatable_example =
    validate_create_user-IsCreatable newcomer accepted newcomer-accepted

abbrev settings : UserSettings
settings = record { time_zone = codes "Europe/Moscow"; language = codes "ru" }

abbrev every_zone : Text → Bool
every_zone zone = true

settings-known :
    prepare_user_settings every_zone (record { time_zone = []; language = [] }) ≡ ok settings
unfolding prepare_user_settings normalize_user_time_zone to_lower trim_space text_eq byte_len
    rune_len
settings-known = refl

abbrev no_meta : DeviceMeta
no_meta = record {
  normalized_hwid = [];
  device_name = [];
  device_model = [];
  platform = [];
  os_version = [];
  app_name = [];
  app_version = [];
  user_agent = [];
}

abbrev phone : DeviceRow
phone = record {
  user_id = 7;
  hwid = codes "A1";
  meta = record no_meta { normalized_hwid = codes "a1" };
}

register_hwid-count_example :
    count to_lower 7 (register_hwid to_lower 7 (pos 1) (codes "B2") no_meta (phone ∷ [])).0 ≤ 1
unfolding identities
register_hwid-count_example =
    register_hwid-count to_lower 7 7 1 (pos 1) (codes "B2") no_meta (phone ∷ []) (omega arith)
      (λ e. refl) (omega arith)

abbrev full_user : UserStatusSnapshot
full_user = record {
  status = active;
  expires_at = 60;
  has_expiry = true;
  connected_devices = 2;
  max_devices = 2;
}

effective_user_status-active_iff_example : (effective_user_status full_user 50 ≡ active) ↔ (
    (stored_user_status active ≡ active)
    × ((true ≡ false) ⊎ (50 ≤ 60))
    × ((full_user.max_devices ≡ 0) ⊎ (2 < 2)))
effective_user_status-active_iff_example = effective_user_status-active_iff full_user 50
