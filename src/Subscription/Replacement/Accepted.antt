-- ===== src/Subscription/Replacement/Accepted.antt =====
-- What is known of a replacement that is accepted.
use sub_share_go.Common.{
  ℕ, ◌≤◌, [], ◌∷◌, Option, none, some, Bool, true, false, ℤ, pos, negsuc, above, ltb, ◌==◌, text,
  ◌≡◌, arith, length, ne_test, refl,
}
use sub_share_go.Common.Result.{Result, ok, ◌>>=◌, >>=-eq-ok, fail_if->>=-eq-ok, ok-injective}
use sub_share_go.Strings.Trim.{trim_space_idem}
use sub_share_go.Strings.{Text, Unicode, trim_space, byte_len, rune_len}
use sub_share_go.Model.Vocabulary.{blocked, normalize_user_status, normalize_idem, user_status}
use sub_share_go.Subscription.Fields.{
  Formats, parse_optional_date_time, normalize_absolute_http_url,
}
use sub_share_go.Subscription.Patch.{PatchState, invalid_date_range}
use sub_share_go.Subscription.Patch.Keeps.{IsValid, Fits, InHours}
use sub_share_go.Subscription.Replacement.{
  UpdateRequest, Replacement, ReplacementError, empty_replacement, or_error, known,
  hours_or_default, replacement_metadata, replacement_access, replacement_delivery,
  prepare_replacement, status_invalid, starts_at_invalid, expires_at_invalid, date_range_invalid,
  null_string_value, replace_user_subscription, hours_invalid, url_invalid, extra_status_too_long,
}

known->>=-eq-ok {ℓ κ} :
    {A : Type ℓ} {B : Type κ} (o : Option A) (code : ReplacementError)
    (k : A → Result ReplacementError B) {b : B}
    → (known o code >>= k) ≡ ok b
    → (a : A) × (o ≡ some a) × (k a ≡ ok b)
known->>=-eq-ok (some a) code k h = (a, refl, h)
known->>=-eq-ok none code k h = cc

-- a text has at least as many bytes as runes
length-byte_len : (s : Text) → length s ≤ byte_len s
unfolding byte_len rune_len
length-byte_len [] = omega arith
length-byte_len (r ∷ s) = ground (arith, length-byte_len s)

-- a trimmed text that fits in bytes fits when it is stored
null_string_value-Fits :
    (n : ℕ) (raw : Text) → length (trim_space raw) ≤ n → Fits n (null_string_value (trim_space raw))
unfolding null_string_value
null_string_value-Fits n raw h = ground (arith, trim_space_idem raw)

null_string_value-bytes :
    (n : ℕ) (raw : Text)
    → ltb n (byte_len (trim_space raw)) ≡ false
    → Fits n (null_string_value (trim_space raw))
null_string_value-bytes n raw h =
    null_string_value-Fits n raw (ground (arith, length-byte_len (trim_space raw)))

null_string_value-empty : null_string_value [] ≡ none
unfolding null_string_value trim_space
null_string_value-empty = refl

module _ ⦃u : Unicode⦄ (f : Formats) (local : f.Location) (input : UpdateRequest) where
  replacement_access-cases :
      (current : Replacement) {next : Replacement}
      → replacement_access f local input current ≡ ok next
      → (normalize_user_status next.status ≡ some next.status)
        × (invalid_date_range next.starts_at next.expires_at ≡ false)
  unfolding replacement_access
  replacement_access-cases current h =
      let (status, p, h1) =
        known->>=-eq-ok (normalize_user_status input.status) status_invalid _ h in
      let (starts, q, h2) =
        >>=-eq-ok (or_error (parse_optional_date_time f input.starts_at local) starts_at_invalid) _
          h1 in
      let (expires, r, h3) =
        >>=-eq-ok (or_error (parse_optional_date_time f input.expires_at local) expires_at_invalid)
          _ h2 in
      let (range, h4) =
        fail_if->>=-eq-ok (invalid_date_range starts expires) date_range_invalid _ h3 in
      rw (← ok-injective h4) (normalize_idem user_status input.status status p, range)

  replacement_metadata-cases :
      (current : Replacement) {next : Replacement}
      → replacement_metadata input current ≡ ok next
      → (next.status ≡ current.status)
        × (next.starts_at ≡ current.starts_at)
        × (next.expires_at ≡ current.expires_at)
        × ((next.status == blocked) ≡ false → next.blocked_reason ≡ [])
        × ((next.status == blocked) ≡ true → next.blocked_reason ≡ trim_space input.blocked_reason)
        × (ltb 120 (byte_len (trim_space input.subscription_name)) ≡ false)
        × (next.name ≡ trim_space input.subscription_name)
  unfolding replacement_metadata
  replacement_metadata-cases current h = (
    ground arith,
    ground arith,
    ground arith,
    ground arith,
    ground arith,
    ground arith,
    ground arith,
  )

  hours-InHours :
      (hours : ℤ) → above (hours_or_default hours) 720 ≡ false → InHours (hours_or_default hours)
  hours-InHours (pos n) h = ground arith
  hours-InHours (negsuc n) h = omega arith

  replacement_delivery-cases :
      (current : Replacement) {next : Replacement}
      → replacement_delivery f input current ≡ ok next
      → (next.status ≡ current.status)
        × (next.starts_at ≡ current.starts_at)
        × (next.expires_at ≡ current.expires_at)
        × (next.blocked_reason ≡ current.blocked_reason)
        × (next.name ≡ current.name)
        × InHours next.refresh_hours
        × (ltb 255 (byte_len (trim_space input.subscription_extra_status)) ≡ false)
        × (next.extra_status ≡ trim_space input.subscription_extra_status)
  unfolding replacement_delivery
  replacement_delivery-cases current h =
      let hours = hours_or_default input.subscription_refresh_hours in
      let extra = trim_space input.subscription_extra_status in
      let (low, h1) = fail_if->>=-eq-ok (above hours 720) hours_invalid _ h in
      let (info, p, h2) =
        >>=-eq-ok (or_error (normalize_absolute_http_url f input.subscription_info_url) url_invalid)
          _ h1 in
      let (extra_url, q, h3) =
        >>=-eq-ok
          (or_error (normalize_absolute_http_url f input.subscription_extra_url) url_invalid) _
          h2 in
      let (short, h4) = fail_if->>=-eq-ok (ltb 255 (byte_len extra)) extra_status_too_long _ h3 in
      rw (← ok-injective h4) (
        refl,
        refl,
        refl,
        refl,
        refl,
        hours-InHours input.subscription_refresh_hours low,
        short,
        refl,
      )

  reason-Fits :
      (blocked : Bool) (reason : Text)
      → length (trim_space input.blocked_reason) ≤ 255
      → (blocked ≡ false → reason ≡ [])
      → (blocked ≡ true → reason ≡ trim_space input.blocked_reason)
      → Fits 255 (null_string_value reason)
  reason-Fits true reason short h k =
      rw (k refl) (null_string_value-Fits 255 input.blocked_reason short)
  reason-Fits false reason short h k = rw (h refl) (rw (null_string_value-empty) tt)

  -- A replacement that is accepted leaves a subscription that is valid as PATCH means it, if its
  -- reason has at most 255 characters, which the replacement itself does not ask.
  pub replace_user_subscription-IsValid :
      (current next : PatchState)
      → length (trim_space input.blocked_reason) ≤ 255
      → replace_user_subscription f local input current ≡ ok next
      → IsValid next
  unfolding replace_user_subscription prepare_replacement
  replace_user_subscription-IsValid current next short h =
      let (new, h0, last) = >>=-eq-ok (prepare_replacement f local input) _ h in
      let (accessed, h1, k1) =
        >>=-eq-ok (replacement_access f local input empty_replacement) _ h0 in
      let (described, h2, k2) = >>=-eq-ok (replacement_metadata input accessed) _ k1 in
      let (status, range) = replacement_access-cases empty_replacement h1 in
      let (s1, t1, e1, free, reason, name, n1) = replacement_metadata-cases accessed h2 in
      let (s2, t2, e2, r2, n2, hours, extra, x2) = replacement_delivery-cases described k2 in
      rw (← ok-injective last) (record {
        status_known = rw (s2) (rw (s1) status);
        in_order = rw (t2, e2) (rw (t1, e1) range);
        reason_blocked = λ other. rw (r2) (
            rw (free (ne_test described.status blocked (rw (s2) at other)))
              null_string_value-empty);
        reason_fits =
            rw (r2) (
              reason-Fits (described.status == blocked) described.blocked_reason short free reason);
        name_fits = rw (n2) (rw (n1) (null_string_value-bytes 120 input.subscription_name name));
        extra_fits = rw (x2) (null_string_value-bytes 255 input.subscription_extra_status extra);
        hours_fit = hours;
      })
