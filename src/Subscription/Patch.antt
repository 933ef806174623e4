-- ===== src/Subscription/Patch.antt =====
-- cmd/server/subscription_patch_policy.go: a PATCH request against the stored subscription.
pub mod Stages
pub mod Keeps
use sub_share_go.Common.{
  ℕ, Option, none, some, Bool, true, false, not, ℤ, ltb, ◌==◌, text, if◌then◌else◌, ◌≡◌,
}
use sub_share_go.Common.Result.{Result, ok, err, ◌>>=◌, ◌>>◌, fail_if}
use sub_share_go.Strings.{Text, Unicode}
use sub_share_go.Model.Vocabulary.{blocked}
use sub_share_go.Subscription.Fields.{
  Formats, FieldError, OptionalString, OptionalInt, apply_patch_status, apply_patch_time,
  apply_patch_string, apply_patch_url, apply_patch_refresh_hours,
}

-- `model.PatchSubscriptionRequest`
pub record PatchRequest : Type 0 where
  pub status : OptionalString
  pub starts_at : OptionalString
  pub expires_at : OptionalString
  pub blocked_reason : OptionalString
  pub subscription_name : OptionalString
  pub subscription_refresh_hours : OptionalInt
  pub subscription_info_url : OptionalString
  pub subscription_extra_url : OptionalString
  pub subscription_extra_status : OptionalString

-- `subscriptionPatchState`; a null column is `none`
pub record PatchState : Type 0 where
  pub status : Text
  pub time_zone : Text
  pub starts_at : Option ℕ
  pub expires_at : Option ℕ
  pub blocked_reason : Option Text
  pub name : Option Text
  pub info_url : Option Text
  pub extra_url : Option Text
  pub extra_status : Option Text
  pub refresh_hours : ℤ

-- the codes given to `invalidSubscriptionPatch`
pub data PatchError : Type 0 where
  status_invalid starts_at_invalid expires_at_invalid date_range_invalid : PatchError
  blocked_reason_invalid subscription_name_invalid subscription_extra_status_invalid : PatchError
  subscription_info_url_invalid subscription_extra_url_invalid : PatchError
  subscription_refresh_invalid : PatchError

-- `invalidSubscriptionPatch(code, err)` for an error of a field
abbrev pub coded {ℓ} : {A : Type ℓ} → Result FieldError A → PatchError → Result PatchError A
coded (ok a) code = ok a
coded (err e) code = err code

unfoldable pub invalid_date_range : Option ℕ → Option ℕ → Bool
invalid_date_range (some starts) (some expires) = ltb expires starts
invalid_date_range (some starts) none = false
invalid_date_range none expires = false

unfoldable pub patch_metadata : PatchRequest → PatchState → Result PatchError PatchState
patch_metadata input next = do
  reason ←
      coded (apply_patch_string input.blocked_reason next.blocked_reason 255) blocked_reason_invalid
  name ← coded (apply_patch_string input.subscription_name next.name 120) subscription_name_invalid
  extra ←
      coded (apply_patch_string input.subscription_extra_status next.extra_status 255)
        subscription_extra_status_invalid
  ok (record next { blocked_reason = reason; name = name; extra_status = extra })

unfoldable pub drop_reason : PatchState → PatchState
drop_reason next = if next.status == blocked then next else record next { blocked_reason = none }

module _ (f : Formats) where
  abbrev pub location_of : Text → f.Location
  location_of zone = elim (f.load_location zone) [ none ↦ f.utc | some location ↦ location ]

  unfoldable pub patch_access :
      ⦃u : Unicode⦄ → PatchRequest → PatchState → Result PatchError PatchState
  patch_access input next = do
    status ← coded (apply_patch_status input.status next.status) status_invalid
    let location = location_of next.time_zone
    starts ← coded (apply_patch_time f input.starts_at next.starts_at location) starts_at_invalid
    expires ←
        coded (apply_patch_time f input.expires_at next.expires_at location) expires_at_invalid
    fail_if (invalid_date_range starts expires) date_range_invalid
    ok (record next { status = status; starts_at = starts; expires_at = expires })

  unfoldable pub patch_delivery : PatchRequest → PatchState → Result PatchError PatchState
  patch_delivery input next = do
    info ←
        coded (apply_patch_url f input.subscription_info_url next.info_url)
          subscription_info_url_invalid
    extra ←
        coded (apply_patch_url f input.subscription_extra_url next.extra_url)
          subscription_extra_url_invalid
    hours ←
        coded (apply_patch_refresh_hours input.subscription_refresh_hours next.refresh_hours)
          subscription_refresh_invalid
    ok (record next { info_url = info; extra_url = extra; refresh_hours = hours })

  unfoldable pub apply_patch :
      ⦃u : Unicode⦄ → PatchRequest → PatchState → Result PatchError PatchState
  apply_patch input current = do
    accessed ← patch_access input current
    described ← patch_metadata input accessed
    next ← patch_delivery input described
    ok (drop_reason next)
