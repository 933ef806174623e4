-- ===== src/Subscription/Patch/Keeps.antt =====
-- What a PATCH keeps: the invariant of the stored state, and every field that it does not set.
use sub_share_go.Common.{
  ℕ, ◌≤◌, Option, none, some, true, false, ℤ, pos, negsuc, text_eq_iff, Bool, ne_test, ◌≡◌, ◌≢◌,
  ◌⊎◌, arith, length, inl, inr, ◌==◌, text, int_eq_iff, Option-cases, int,
}
use sub_share_go.Common.Result.{ok}
use sub_share_go.Strings.{Text, Unicode}
use sub_share_go.Model.Vocabulary.{blocked, normalize_user_status, normalize_idem, user_status}
use sub_share_go.Subscription.Fields.{
  Formats, OptionalString, OptionalInt, apply_patch_status, apply_patch_time, apply_patch_string,
  apply_patch_url, apply_patch_refresh_hours,
}
use sub_share_go.Subscription.Patch.Stages.{apply_patch-Applied}
use sub_share_go.Subscription.Patch.{PatchRequest, PatchState, invalid_date_range, apply_patch}

abbrev pub Fits : ℕ → Option Text → Type 0
Fits n none = Unit
Fits n (some s) = length s ≤ n

abbrev pub InHours : ℤ → Type 0
InHours (pos n) = n ≤ 720
InHours (negsuc n) = ⊥

-- What holds of every subscription that a PATCH has left.
pub record IsValid ⦃u : Unicode⦄ (s : PatchState) : Type 0 where
  pub status_known : normalize_user_status s.status ≡ some s.status
  pub in_order : invalid_date_range s.starts_at s.expires_at ≡ false
  pub reason_blocked : s.status ≢ blocked → s.blocked_reason ≡ none
  pub reason_fits : Fits 255 s.blocked_reason
  pub name_fits : Fits 120 s.name
  pub extra_fits : Fits 255 s.extra_status
  pub hours_fit : InHours s.refresh_hours

apply_patch_string-Fits :
    (field : OptionalString) (target : Option Text) (n : ℕ) (r : Option Text)
    → Fits n target
    → apply_patch_string field target n ≡ ok r
    → Fits n r
unfolding apply_patch_string
apply_patch_string-Fits field target n r fits h = ground arith

apply_patch_refresh_hours-InHours :
    (field : OptionalInt) (target r : ℤ)
    → InHours target
    → apply_patch_refresh_hours field target ≡ ok r
    → InHours r
unfolding apply_patch_refresh_hours
apply_patch_refresh_hours-InHours field target (pos n) fits h =
    ground (arith, int_eq_iff field.value (pos 0))
apply_patch_refresh_hours-InHours field target (negsuc n) fits h =
    ground (arith, int_eq_iff field.value (pos 0))

apply_patch_status-known :
    ⦃u : Unicode⦄ (field : OptionalString) (target r : Text)
    → normalize_user_status target ≡ some target
    → apply_patch_status field target ≡ ok r
    → normalize_user_status r ≡ some r
unfolding apply_patch_status
apply_patch_status-known field target r known h =
    elim (Option-cases (normalize_user_status field.value)) [
      | inl none_eq ↦ ground (arith, none_eq)
      | inr (a, some_eq) ↦ ground (arith, some_eq, normalize_idem user_status field.value a some_eq)
    ]

reason-Fits :
    (r kept : Option Text) (b : Bool)
    → Fits 255 r
    → (b ≡ true → kept ≡ r)
    → (b ≡ false → kept ≡ none)
    → Fits 255 kept
reason-Fits r kept b fits h k = ground arith

module _ ⦃u : Unicode⦄ (f : Formats) (input : PatchRequest) (current next : PatchState) where
  -- A PATCH that succeeds on a valid stored subscription leaves a valid one: a known status, a start
  -- no later than the end, no reason unless blocked, and all lengths and hours within their limits.
  pub apply_patch-IsValid : IsValid current → apply_patch f input current ≡ ok next → IsValid next
  apply_patch-IsValid valid h =
      let a = apply_patch-Applied f input current next h in
      record {
        status_known =
            apply_patch_status-known input.status current.status next.status valid.status_known
              a.status_by;
        in_order = a.range_by;
        reason_blocked = λ no. a.reason_dropped (ne_test next.status blocked no);
        reason_fits =
            reason-Fits a.reason next.blocked_reason (next.status == blocked)
              (apply_patch_string-Fits input.blocked_reason current.blocked_reason 255 a.reason
                valid.reason_fits a.reason_by)
              a.reason_kept a.reason_dropped;
        name_fits =
            apply_patch_string-Fits input.subscription_name current.name 120 next.name
              valid.name_fits a.name_by;
        extra_fits =
            apply_patch_string-Fits input.subscription_extra_status current.extra_status 255
              next.extra_status valid.extra_fits a.extra_by;
        hours_fit =
            apply_patch_refresh_hours-InHours input.subscription_refresh_hours current.refresh_hours
              next.refresh_hours valid.hours_fit a.hours_by;
      }

  -- A PATCH that succeeds leaves each field that its request does not set as it was, and the time
  -- zone always; the reason only if the new status is blocked.
  pub apply_patch-unset :
      apply_patch f input current ≡ ok next
      → (next.time_zone ≡ current.time_zone)
        × ((input.status.is_set ≡ true) ⊎ (next.status ≡ current.status))
        × ((input.starts_at.is_set ≡ true) ⊎ (next.starts_at ≡ current.starts_at))
        × ((input.expires_at.is_set ≡ true) ⊎ (next.expires_at ≡ current.expires_at))
        × ((input.blocked_reason.is_set ≡ true)
            ⊎ (next.status ≢ blocked)
            ⊎ (next.blocked_reason ≡ current.blocked_reason))
        × ((input.subscription_name.is_set ≡ true) ⊎ (next.name ≡ current.name))
        × ((input.subscription_extra_status.is_set ≡ true)
            ⊎ (next.extra_status ≡ current.extra_status))
        × ((input.subscription_info_url.is_set ≡ true) ⊎ (next.info_url ≡ current.info_url))
        × ((input.subscription_extra_url.is_set ≡ true) ⊎ (next.extra_url ≡ current.extra_url))
        × ((input.subscription_refresh_hours.is_set ≡ true)
            ⊎ (next.refresh_hours ≡ current.refresh_hours))
  unfolding apply_patch_status apply_patch_time apply_patch_string apply_patch_url
      apply_patch_refresh_hours
  apply_patch-unset h =
      let a = apply_patch-Applied f input current next h in
      let p1 = a.status_by in
      let p2 = a.starts_by in
      let p3 = a.expires_by in
      let p4 = a.reason_by in
      let p5 = a.reason_kept in
      let p6 = a.name_by in
      let p7 = a.extra_by in
      let p8 = a.info_url_by in
      let p9 = a.extra_url_by in
      let p10 = a.hours_by in
      (
        a.zone_kept,
        ground arith,
        ground arith,
        ground arith,
        ground (arith, text_eq_iff next.status blocked),
        ground arith,
        ground arith,
        ground arith,
        ground arith,
        ground arith,
      )
