-- ===== src/Activation.antt =====
-- cmd/server/activation_policy.go, activation_redemption.go and repository_activation.go: an
-- activation code buys a subscription identity once. A redemption is two accesses of the database,
-- the read and the claim, and those of several requests interleave: it is a process that `advance`
-- moves by one access, and an event says which process moves and what the database and the random
-- generator answer. `now` stands for CURRENT_TIMESTAMP, and the table `users` is keyed by its id.
use sub_share_go.Common.{
  ℕ, zero, suc, List, [], ◌∷◌, Option, none, some, Bool, true, false, ◌||◌, ◌==◌, text, text_eq,
  ℕ_eq, if◌then◌else◌,
}
use sub_share_go.Strings.{Text, codes, trim_space, is_empty, contains_text}
use sub_share_go.Table.{Table, lookup, put}
pub mod Claim
pub mod OneWinner
pub mod Identity

-- `validateActivationCode`, `none` for `errActivationCodeInvalid`
unfoldable pub validate_activation_code : Text → Option Text
validate_activation_code raw =
    let code = trim_space raw in
    if is_empty code || contains_text code (codes "/") then none else some code

-- the columns of `users` that a redemption reads and writes
pub record UserRow : Type 0 where
  pub activation_code : Text
  pub used_at : Option ℕ
  pub subscription_id : Option Text

abbrev pub Users : Type 0
Users = Table ℕ UserRow

-- `activationRecord`
pub record ActivationRecord : Type 0 where
  pub user_id : ℕ
  pub used_at : Option ℕ
  pub subscription_id : Option Text

unfoldable pub load_activation_record : Text → Users → Option ActivationRecord
load_activation_record code [] = none
load_activation_record code ((id, row) ∷ users) =
    if row.activation_code == code
    then some
        (record { user_id = id; used_at = row.used_at; subscription_id = row.subscription_id })
    else load_activation_record code users

-- a null column scans as the empty string
abbrev pub string_of : Option Text → Text
string_of none = []
string_of (some stored) = stored

-- `generateToken(24)` has answered `token`, `none` for an error
unfoldable pub activation_subscription_id : Text → Option Text → Option Text
activation_subscription_id stored token =
    let id = trim_space stored in if is_empty id then token else some id

abbrev pub claimed_row : UserRow → Text → ℕ → UserRow
claimed_row row subscription_id now = record row {
  used_at = some now;
  subscription_id = some subscription_id;
}

-- the UPDATE, and whether it has affected a row
unfoldable pub claim_activation : ℕ → Text → ℕ → Users → Users × Bool
claim_activation user_id subscription_id now users = elim (lookup user_id users) [
  | none ↦ (users, false)
  | some row ↦ elim (row.used_at) [
    | none ↦ (put user_id (claimed_row row subscription_id now) users, true)
    | some used ↦ (users, false)
  ]
]

pub data RedeemError : Type 0 where
  activation_not_found activation_already_used load_failed identity_failed claim_failed :
      RedeemError

-- how an access of the database ends; an error may be reported for a write that has been made
pub data Access : Type 0 where
  works fails fails_after_write : Access

pub record Event : Type 0 where
  pub process : ℕ
  pub access : Access
  pub now : ℕ
  pub token : Option Text

-- where a call of `redeemActivationCode` stands
pub data Redemption : Type 0 where
  started : Text → Redemption
  prepared : ℕ → Text → Redemption
  redeemed : ℕ → Text → Redemption
  failed : RedeemError → Redemption

-- the code between the read and the claim
unfoldable pub prepare_claim : Event → Option ActivationRecord → Redemption
prepare_claim event none = failed activation_not_found
prepare_claim event (some found) = elim (found.used_at) [
  | some used ↦ failed activation_already_used
  | none ↦ elim (activation_subscription_id (string_of found.subscription_id) event.token) [
    | none ↦ failed identity_failed
    | some id ↦ prepared found.user_id id
  ]
]

-- the answer after the claim
abbrev pub conclude : ℕ → Text → Bool → Redemption
conclude user_id subscription_id true = redeemed user_id subscription_id
conclude user_id subscription_id false = failed activation_already_used

-- how the read and the claim answer
abbrev pub read_answer : Access → Redemption → Redemption
read_answer works next = next
read_answer _ next = failed load_failed

abbrev pub write_answer : Access → Users → Users → Redemption → Users × Redemption
write_answer works users written next = (written, next)
write_answer fails users written next = (users, failed claim_failed)
write_answer fails_after_write users written next = (written, failed claim_failed)

unfoldable pub advance : Event → Users → Redemption → Users × Redemption
advance event users (started code) =
    (users, read_answer event.access (prepare_claim event (load_activation_record code users)))
advance event users (prepared user_id subscription_id) =
    let (written, claimed) = claim_activation user_id subscription_id event.now users in
    write_answer event.access users written (conclude user_id subscription_id claimed)
advance event users (redeemed user_id subscription_id) = (users, redeemed user_id subscription_id)
advance event users (failed e) = (users, failed e)

unfoldable pub step : ℕ → Event → Users → List Redemption → Users × List Redemption
step n event users [] = (users, [])
step zero event users (r ∷ rs) = let (written, next) = advance event users r in (written, next ∷ rs)
step (suc n) event users (r ∷ rs) =
    let (written, next) = step n event users rs in (written, r ∷ next)

unfoldable pub run : List Event → Users → List Redemption → Users × List Redemption
run [] users rs = (users, rs)
run (event ∷ events) users rs =
    let (written, next) = step event.process event users rs in run events written next

-- one request with nobody in between: its two accesses
unfoldable pub redeem_activation_code : Event → Event → Users → Text → Users × Redemption
redeem_activation_code first second users code =
    let (read, ready) = advance first users (started code) in advance second read ready
