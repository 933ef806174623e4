-- ===== src/Activation/OneWinner.antt =====
-- However the accesses interleave, a code is redeemed at most once.
use sub_share_go.Common.{
  ℕ, zero, suc, ◌+◌, ◌≤◌, List, [], ◌∷◌, Option, none, some, ◌==◌, ℕ_eq, ◌≡◌, refl, arith,
  if◌then◌else◌, inl, inr, nat_eq_iff, map,
}
use sub_share_go.Strings.{Text}
use sub_share_go.Table.{lookup, lookup-put}
use sub_share_go.Activation.Claim.{claim_activation-cases}
use sub_share_go.Activation.{
  load_activation_record, Users, UserRow, Event, Redemption, started, prepared, redeemed, failed,
  claim_activation, claimed_row, advance, step, run, prepare_claim, conclude,
}

abbrev pub wins_one : ℕ → Redemption → ℕ
wins_one user (redeemed winner id) = if winner == user then 1 else 0
wins_one user _ = 0

-- how many of the requests have redeemed the user's code
abbrev pub wins : ℕ → List Redemption → ℕ
wins user [] = 0
wins user (r ∷ rs) = wins_one user r + wins user rs

abbrev pub claims : Option UserRow → ℕ
claims none = 0
claims (some row) = elim (row.used_at) [ none ↦ 0 | some used ↦ 1 ]

module _ (user : ℕ) where
  prepare_claim-wins : (event : Event) (found : _) → wins_one user (prepare_claim event found) ≡ 0
  unfolding prepare_claim
  prepare_claim-wins event found = ground arith

  claim-claims :
      (id : ℕ) (text : Text) (now : ℕ) (users : Users)
      → wins_one user (conclude id text (claim_activation id text now users).1)
          + claims (lookup user users)
        ≤ claims (lookup user (claim_activation id text now users).0)
  claim-claims id text now users = elim (claim_activation-cases id text now users) [
    | inl same ↦ rw (same) (omega arith)
    | inr (row, found, free, e) ↦
        rw (e, lookup-put id user (claimed_row row text now) users)
          (ground (arith, nat_eq_iff id user, found, free))
  ]

  advance-claims :
      (event : Event) (users : Users) (r : Redemption)
      → wins_one user (advance event users r).1 + claims (lookup user users)
        ≤ wins_one user r + claims (lookup user (advance event users r).0)
  unfolding advance
  advance-claims event users (started code) =
      ground (arith, prepare_claim-wins event (load_activation_record code users))
  advance-claims event users (prepared id text) =
      let h = claim-claims id text event.now users in ground (arith, h)
  advance-claims event users (redeemed id text) = omega arith
  advance-claims event users (failed e) = omega arith

  step-claims :
      (n : ℕ) (event : Event) (users : Users) (rs : List Redemption)
      → wins user (step n event users rs).1 + claims (lookup user users)
        ≤ wins user rs + claims (lookup user (step n event users rs).0)
  unfolding step
  step-claims n event users [] = omega arith
  step-claims zero event users (r ∷ rs) = omega (arith, advance-claims event users r)
  step-claims (suc n) event users (r ∷ rs) = omega (arith, step-claims n event users rs)

  run-claims :
      (events : List Event) (users : Users) (rs : List Redemption)
      → wins user (run events users rs).1 + claims (lookup user users)
        ≤ wins user rs + claims (lookup user (run events users rs).0)
  unfolding run
  run-claims [] users rs = omega arith
  run-claims (event ∷ events) users rs =
      let (written, next) = step event.process event users rs in
      omega (arith, step-claims event.process event users rs, run-claims events written next)

  wins-started : (codes : List Text) → wins user (map started codes) ≡ 0
  wins-started [] = refl
  wins-started (code ∷ codes) = omega (arith, wins-started codes)

  claims_at_most : (found : Option UserRow) → claims found ≤ 1
  claims_at_most found = ground arith

  -- However the accesses of any number of redemptions interleave and fail, at most one redeems the
  -- code of a user.
  pub run-wins :
      (events : List Event) (users : Users) (codes : List Text)
      → wins user (run events users (map started codes)).1 ≤ 1
  run-wins events users codes = omega (
    arith,
    run-claims events users (map started codes),
    wins-started codes,
    claims_at_most (lookup user (run events users (map started codes)).0),
  )

  row-claims :
      (users : Users) (row : UserRow) (t : ℕ)
      → lookup user users ≡ some row
      → row.used_at ≡ some t
      → claims (lookup user users) ≡ 1
  row-claims users row t found used = ground (arith, found, used)

  -- A code that was used before any of them is redeemed by none.
  pub run-used :
      (events : List Event) (users : Users) (codes : List Text) (row : UserRow) (t : ℕ)
      → lookup user users ≡ some row
      → row.used_at ≡ some t
      → wins user (run events users (map started codes)).1 ≡ 0
  run-used events users codes row t found used =
      let spent = row-claims users row t found used in
      omega (
        arith,
        run-claims events users (map started codes),
        wins-started codes,
        spent,
        claims_at_most (lookup user (run events users (map started codes)).0),
      )
