-- ===== src/Subscription/Replacement.antt =====
-- cmd/server/subscription_replacement_policy.go: the legacy PUT, which has limits in bytes, defaults
-- and dates of the server's own zone. `local` is `time.Local`.
pub mod Accepted
use sub_share_go.Common.{
  ℕ, [], Option, none, some, Bool, true, false, not, ℤ, pos, negsuc, above, ltb, ◌==◌, text,
  if◌then◌else◌, ◌≡◌,
}
use sub_share_go.Common.Result.{Result, ok, err, ◌>>=◌, ◌>>◌, fail_if}
use sub_share_go.Strings.{Text, Unicode, trim_space, is_empty, byte_len}
use sub_share_go.Model.Vocabulary.{blocked, normalize_user_status}
use sub_share_go.Subscription.Fields.{
  Formats, FieldError, parse_optional_date_time, normalize_absolute_http_url,
}
use sub_share_go.Subscription.Patch.{PatchState, invalid_date_range}

-- `model.UpdateSubscriptionRequest`
pub record UpdateRequest : Type 0 where
  pub status : Text
  pub starts_at : Text
  pub expires_at : Text
  pub blocked_reason : Text
  pub subscription_name : Text
  pub subscription_refresh_hours : ℤ
  pub subscription_info_url : Text
  pub subscription_extra_url : Text
  pub subscription_extra_status : Text

-- `subscriptionReplacement`
pub record Replacement : Type 0 where
  pub status : Text
  pub blocked_reason : Text
  pub name : Text
  pub info_url : Text
  pub extra_url : Text
  pub extra_status : Text
  pub starts_at : Option ℕ
  pub expires_at : Option ℕ
  pub refresh_hours : ℤ

pub data ReplacementError : Type 0 where
  status_invalid starts_at_invalid expires_at_invalid date_range_invalid : ReplacementError
  name_too_long hours_invalid url_invalid extra_status_too_long : ReplacementError

-- the zero value that `prepareSubscriptionReplacement` fills
abbrev pub empty_replacement : Replacement
empty_replacement = record {
  status = [];
  blocked_reason = [];
  name = [];
  info_url = [];
  extra_url = [];
  extra_status = [];
  starts_at = none;
  expires_at = none;
  refresh_hours = pos 0;
}

abbrev pub or_error {ℓ} :
    {A : Type ℓ} → Result FieldError A → ReplacementError → Result ReplacementError A
or_error (ok a) code = ok a
or_error (err e) code = err code

abbrev pub known {ℓ} : {A : Type ℓ} → Option A → ReplacementError → Result ReplacementError A
known (some a) code = ok a
known none code = err code

-- 12 stands for hours that are not positive
abbrev pub hours_or_default : ℤ → ℤ
hours_or_default hours = if not (above hours 0) then pos 12 else hours

-- `nullStringValue`
unfoldable pub null_string_value : Text → Option Text
null_string_value raw = let value = trim_space raw in if is_empty value then none else some value

unfoldable pub replacement_metadata :
    UpdateRequest → Replacement → Result ReplacementError Replacement
replacement_metadata input next =
    let reason = if not (next.status == blocked) then [] else trim_space input.blocked_reason in
    let name = trim_space input.subscription_name in
    do
      fail_if (ltb 120 (byte_len name)) name_too_long
      ok (record next { blocked_reason = reason; name = name })

module _ (f : Formats) where
  unfoldable pub replacement_access :
      ⦃u : Unicode⦄ → f.Location → UpdateRequest → Replacement → Result ReplacementError Replacement
  replacement_access local input next = do
    status ← known (normalize_user_status input.status) status_invalid
    starts ← or_error (parse_optional_date_time f input.starts_at local) starts_at_invalid
    expires ← or_error (parse_optional_date_time f input.expires_at local) expires_at_invalid
    fail_if (invalid_date_range starts expires) date_range_invalid
    ok (record next { status = status; starts_at = starts; expires_at = expires })

  unfoldable pub replacement_delivery :
      UpdateRequest → Replacement → Result ReplacementError Replacement
  replacement_delivery input next =
      let hours = hours_or_default input.subscription_refresh_hours in
      let extra = trim_space input.subscription_extra_status in
      do
        fail_if (above hours 720) hours_invalid
        info ← or_error (normalize_absolute_http_url f input.subscription_info_url) url_invalid
        extra_url ←
            or_error (normalize_absolute_http_url f input.subscription_extra_url) url_invalid
        fail_if (ltb 255 (byte_len extra)) extra_status_too_long
        ok (record next {
          refresh_hours = hours;
          info_url = info;
          extra_url = extra_url;
          extra_status = extra;
        })

  unfoldable pub prepare_replacement :
      ⦃u : Unicode⦄ → f.Location → UpdateRequest → Result ReplacementError Replacement
  prepare_replacement local input = do
    accessed ← replacement_access local input empty_replacement
    described ← replacement_metadata input accessed
    replacement_delivery input described

  -- the UPDATE, on the columns of one user that PATCH also reads
  unfoldable pub replace_user_subscription :
      ⦃u : Unicode⦄ → f.Location → UpdateRequest → PatchState → Result ReplacementError PatchState
  replace_user_subscription local input current = do
    next ← prepare_replacement local input
    ok (record current {
      status = next.status;
      starts_at = next.starts_at;
      expires_at = next.expires_at;
      blocked_reason = null_string_value next.blocked_reason;
      name = null_string_value next.name;
      refresh_hours = next.refresh_hours;
      info_url = null_string_value next.info_url;
      extra_url = null_string_value next.extra_url;
      extra_status = null_string_value next.extra_status;
    })
