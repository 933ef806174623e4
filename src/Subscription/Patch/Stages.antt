-- ===== src/Subscription/Patch/Stages.antt =====
-- How each stage of a PATCH ends when it ends well.
use sub_share_go.Common.{ℕ, Option, true, false, ◌≡◌, refl, text, ◌==◌, ℤ, none, arith}
use sub_share_go.Common.Result.{Result, ok, err, ◌>>=◌, >>=-eq-ok, fail_if->>=-eq-ok, ok-injective}
use sub_share_go.Model.Vocabulary.{blocked}
use sub_share_go.Strings.{Text, Unicode}
use sub_share_go.Subscription.Fields.{
  Formats, FieldError, apply_patch_status, apply_patch_time, apply_patch_string, apply_patch_url,
  apply_patch_refresh_hours,
}
use sub_share_go.Subscription.Patch.{
  PatchRequest, PatchState, PatchError, coded, invalid_date_range, patch_access, patch_metadata,
  patch_delivery, drop_reason, apply_patch, location_of, status_invalid, starts_at_invalid,
  expires_at_invalid, date_range_invalid, blocked_reason_invalid, subscription_name_invalid,
  subscription_extra_status_invalid, subscription_info_url_invalid, subscription_extra_url_invalid,
  subscription_refresh_invalid,
}

coded->>=-eq-ok {ℓ κ} :
    {A : Type ℓ} {B : Type κ} (m : Result FieldError A) (code : PatchError)
    (k : A → Result PatchError B) {b : B}
    → (coded m code >>= k) ≡ ok b
    → (a : A) × (m ≡ ok a) × (k a ≡ ok b)
coded->>=-eq-ok (ok a) code k h = (a, refl, h)
coded->>=-eq-ok (err e) code k h = cc

module _ (f : Formats) (input : PatchRequest) where
  patch_access-cases :
      ⦃u : Unicode⦄ (current : PatchState) {next : PatchState}
      → patch_access f input current ≡ ok next
      → (status : Text) × (starts : Option ℕ) × (expires : Option ℕ) × (apply_patch_status
            input.status current.status
          ≡ ok status)
        × (apply_patch_time f input.starts_at current.starts_at (location_of f current.time_zone)
            ≡ ok starts)
        × (apply_patch_time f input.expires_at current.expires_at (location_of f current.time_zone)
            ≡ ok expires)
        × (invalid_date_range starts expires ≡ false)
        × (record current { status = status; starts_at = starts; expires_at = expires } ≡ next)
  unfolding patch_access
  patch_access-cases current h =
      let location = location_of f current.time_zone in
      let (status, p, h1) =
        coded->>=-eq-ok (apply_patch_status input.status current.status) status_invalid _ h in
      let (starts, q, h2) =
        coded->>=-eq-ok (apply_patch_time f input.starts_at current.starts_at location)
          starts_at_invalid _ h1 in
      let (expires, r, h3) =
        coded->>=-eq-ok (apply_patch_time f input.expires_at current.expires_at location)
          expires_at_invalid _ h2 in
      let (range, last) =
        fail_if->>=-eq-ok (invalid_date_range starts expires) date_range_invalid _ h3 in
      (status, starts, expires, p, q, r, range, ok-injective last)

  patch_metadata-cases :
      (current : PatchState) {next : PatchState}
      → patch_metadata input current ≡ ok next
      → (reason : Option Text) × (name : Option Text) × (extra : Option Text) × (apply_patch_string
            input.blocked_reason current.blocked_reason 255
          ≡ ok reason)
        × (apply_patch_string input.subscription_name current.name 120 ≡ ok name)
        × (apply_patch_string input.subscription_extra_status current.extra_status 255 ≡ ok extra)
        × (record current { blocked_reason = reason; name = name; extra_status = extra } ≡ next)
  unfolding patch_metadata
  patch_metadata-cases current h =
      let (reason, p, h1) =
        coded->>=-eq-ok (apply_patch_string input.blocked_reason current.blocked_reason 255)
          blocked_reason_invalid _ h in
      let (name, q, h2) =
        coded->>=-eq-ok (apply_patch_string input.subscription_name current.name 120)
          subscription_name_invalid _ h1 in
      let (extra, r, last) =
        coded->>=-eq-ok
          (apply_patch_string input.subscription_extra_status current.extra_status 255)
          subscription_extra_status_invalid _ h2 in
      (reason, name, extra, p, q, r, ok-injective last)

  patch_delivery-cases :
      (current : PatchState) {next : PatchState}
      → patch_delivery f input current ≡ ok next
      → (info : Option Text) × (extra : Option Text) × (hours : ℤ) × (apply_patch_url f
            input.subscription_info_url current.info_url
          ≡ ok info)
        × (apply_patch_url f input.subscription_extra_url current.extra_url ≡ ok extra)
        × (apply_patch_refresh_hours input.subscription_refresh_hours current.refresh_hours
            ≡ ok hours)
        × (record current { info_url = info; extra_url = extra; refresh_hours = hours } ≡ next)
  unfolding patch_delivery
  patch_delivery-cases current h =
      let (info, p, h1) =
        coded->>=-eq-ok (apply_patch_url f input.subscription_info_url current.info_url)
          subscription_info_url_invalid _ h in
      let (extra, q, h2) =
        coded->>=-eq-ok (apply_patch_url f input.subscription_extra_url current.extra_url)
          subscription_extra_url_invalid _ h1 in
      let (hours, r, last) =
        coded->>=-eq-ok
          (apply_patch_refresh_hours input.subscription_refresh_hours current.refresh_hours)
          subscription_refresh_invalid _ h2 in
      (info, extra, hours, p, q, r, ok-injective last)

  -- A PATCH that succeeds has set each field by its own rule, and dropped the reason at the end.
  pub record Applied ⦃u : Unicode⦄ (current next : PatchState) : Type 0 where
    pub reason : Option Text
    pub status_by : apply_patch_status input.status current.status ≡ ok next.status
    pub starts_by :
        apply_patch_time f input.starts_at current.starts_at (location_of f current.time_zone)
        ≡ ok next.starts_at
    pub expires_by :
        apply_patch_time f input.expires_at current.expires_at (location_of f current.time_zone)
        ≡ ok next.expires_at
    pub range_by : invalid_date_range next.starts_at next.expires_at ≡ false
    pub reason_by : apply_patch_string input.blocked_reason current.blocked_reason 255 ≡ ok reason
    pub reason_kept : (next.status == blocked) ≡ true → next.blocked_reason ≡ reason
    pub reason_dropped : (next.status == blocked) ≡ false → next.blocked_reason ≡ none
    pub name_by : apply_patch_string input.subscription_name current.name 120 ≡ ok next.name
    pub extra_by :
        apply_patch_string input.subscription_extra_status current.extra_status 255
        ≡ ok next.extra_status
    pub info_url_by :
        apply_patch_url f input.subscription_info_url current.info_url ≡ ok next.info_url
    pub extra_url_by :
        apply_patch_url f input.subscription_extra_url current.extra_url ≡ ok next.extra_url
    pub hours_by :
        apply_patch_refresh_hours input.subscription_refresh_hours current.refresh_hours
        ≡ ok next.refresh_hours
    pub zone_kept : next.time_zone ≡ current.time_zone

  -- what a successful PATCH has made of the state, before and after the reason is dropped
  pub apply_patch-Applied :
      ⦃u : Unicode⦄ (current next : PatchState)
      → apply_patch f input current ≡ ok next
      → Applied current next
  unfolding apply_patch drop_reason
  apply_patch-Applied current next h =
      let (accessed, h1, k1) = >>=-eq-ok (patch_access f input current) _ h in
      let (described, h2, k2) = >>=-eq-ok (patch_metadata input accessed) _ k1 in
      let (delivered, h3, k3) = >>=-eq-ok (patch_delivery f input described) _ k2 in
      let (status, starts, expires, p1, p2, p3, range, e1) = patch_access-cases current h1 in
      let (reason, name, extra, q1, q2, q3, e2) = patch_metadata-cases accessed h2 in
      let (info, extra_url, hours, r1, r2, r3, e3) = patch_delivery-cases described h3 in
      let e = ok-injective k3 in
      record {
        reason = reason;
        status_by = ground arith;
        starts_by = ground arith;
        expires_by = ground arith;
        range_by = ground arith;
        reason_by = ground arith;
        reason_kept = ground arith;
        reason_dropped = ground arith;
        name_by = ground arith;
        extra_by = ground arith;
        info_url_by = ground arith;
        extra_url_by = ground arith;
        hours_by = ground arith;
        zone_kept = ground arith;
      }
