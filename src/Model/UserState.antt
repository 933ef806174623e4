-- ===== src/Model/UserState.antt =====
-- `EffectiveUserStatus` of internal/model/model.go. An instant is a number; counts of devices are
-- numbers, 0 for a limit that is not positive.
use sub_share_go.Common.{
  ℕ, ◌≤◌, ◌<◌, ◌≡◌, ◌↔◌, ◌⊎◌, inl, inr, Bool, false, ◌&&◌, ltb, leb, arith, if◌then◌else◌, text,
  ◌==◌, text_eq,
}
use sub_share_go.Strings.{Text, Unicode, codes}
use sub_share_go.Model.Vocabulary.{
  active, paused, blocked, stored_user_status, stored_user_status_cases,
}

pub record UserStatusSnapshot : Type 0 where
  pub status : Text
  pub expires_at : ℕ
  pub has_expiry : Bool
  pub connected_devices : ℕ
  pub max_devices : ℕ

abbrev expired : Text
expired = codes "expired"

abbrev limited : Text
limited = codes "limited"

pub effective_user_status : ⦃u : Unicode⦄ → UserStatusSnapshot → ℕ → Text
effective_user_status state now =
    let normalized = stored_user_status state.status in
    if normalized == blocked
    then blocked
    else if normalized == paused
    then paused
    else if state.has_expiry && ltb state.expires_at now
    then expired
    else if ltb 0 state.max_devices && leb state.max_devices state.connected_devices
    then limited
    else active

module _ ⦃u : Unicode⦄ (state : UserStatusSnapshot) (now : ℕ) where
  -- A user is active exactly when the stored status is, no expiry has passed, and there is room
  -- under the device limit, if there is one.
  pub effective_user_status-active_iff : (effective_user_status state now ≡ active) ↔ (
      (stored_user_status state.status ≡ active)
      × ((state.has_expiry ≡ false) ⊎ (now ≤ state.expires_at))
      × ((state.max_devices ≡ 0) ⊎ (state.connected_devices < state.max_devices)))
  unfolding effective_user_status text_eq
  effective_user_status-active_iff = elim (stored_user_status_cases state.status) [
    | inl e ↦ (ground arith, ground arith)
    | inr (inl e) ↦ (ground arith, ground arith)
    | inr (inr e) ↦ (ground arith, ground arith)
  ]
