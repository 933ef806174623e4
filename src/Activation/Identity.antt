-- ===== src/Activation/Identity.antt =====
-- Who has redeemed a code holds the identity that is stored, for good.
use sub_share_go.Common.{
  ℕ, zero, suc, List, [], ◌∷◌, Option, none, some, ℕ_eq, ◌≡◌, ◌≢◌, refl, arith, All, Option-cases,
  inl, inr, nat_eq_iff, map,
}
use sub_share_go.Strings.{Text}
use sub_share_go.Table.{lookup, lookup-put}
use sub_share_go.Activation.Claim.{claim_activation-cases}
use sub_share_go.Activation.{
  Users, UserRow, Event, Redemption, started, prepared, redeemed, failed, works, fails,
  fails_after_write, claim_activation, claimed_row, advance, step, run, prepare_claim, conclude,
  load_activation_record, ActivationRecord, activation_subscription_id, string_of, Access,
  read_answer, write_answer,
}

-- the row of the user is used and has the identity
pub record Stores (user : ℕ) (id : Text) (users : Users) : Type 0 where
  pub row : UserRow
  pub found : lookup user users ≡ some row
  pub used : row.used_at ≢ none
  pub identity : row.subscription_id ≡ some id

-- what a redemption that has ended well has given away is stored
abbrev pub IsHonoured : Users → Redemption → Type 0
IsHonoured users (redeemed user id) = Stores user id users
IsHonoured users _ = Unit

claim-Stores :
    (other : ℕ) (text : Text) (now : ℕ) (users : Users) (user : ℕ) (id : Text)
    → Stores user id users
    → Stores user id (claim_activation other text now users).0
claim-Stores other text now users user id s = elim (claim_activation-cases other text now users) [
  | inl same ↦ rw (same) s
  | inr (row, found, free, e) ↦ rw (e) (record {
    row = s.row;
    found =
        rw (lookup-put other user (claimed_row row text now) users)
          (ground (arith, nat_eq_iff other user, s.found, s.used, found, free));
    used = s.used;
    identity = s.identity;
  })
]

claim-winner :
    (user : ℕ) (id : Text) (now : ℕ) (users : Users)
    → IsHonoured
        (claim_activation user id now users).0
        (conclude user id (claim_activation user id now users).1)
claim-winner user id now users = elim (claim_activation-cases user id now users) [
  | inl same ↦ rw (same) tt
  | inr (row, found, free, e) ↦ rw (e) (record {
    row = claimed_row row id now;
    found =
        rw (lookup-put user user (claimed_row row id now) users)
          (ground (arith, nat_eq_iff user user));
    used = λ bad. cc;
    identity = refl;
  })
]

write_answer-Stores :
    (access : Access) (users written : Users) (next : Redemption) (user : ℕ) (id : Text)
    → Stores user id users
    → Stores user id written
    → Stores user id (write_answer access users written next).0
write_answer-Stores works users written next user id s t = t
write_answer-Stores fails users written next user id s t = s
write_answer-Stores fails_after_write users written next user id s t = t

advance-Stores :
    (event : Event) (users : Users) (r : Redemption) (user : ℕ) (id : Text)
    → Stores user id users
    → Stores user id (advance event users r).0
unfolding advance
advance-Stores event users (started code) user id s = s
advance-Stores event users (prepared other text) user id s =
    write_answer-Stores event.access users _ _ user id s
      (claim-Stores other text event.now users user id s)
advance-Stores event users (redeemed other text) user id s = s
advance-Stores event users (failed e) user id s = s

prepare_claim-IsHonoured :
    (users : Users) (event : Event) (found : Option ActivationRecord)
    → IsHonoured users (prepare_claim event found)
unfolding prepare_claim
prepare_claim-IsHonoured users event none = tt
prepare_claim-IsHonoured users event (some found) = elim (Option-cases (found.used_at)) [
  | inr (t, used) ↦ rw (used, prepare_claim) tt
  | inl free ↦
      elim (Option-cases
        (activation_subscription_id (string_of found.subscription_id) event.token)) [
          | inl missing ↦ rw (free, missing, prepare_claim) tt
          | inr (id, given) ↦ rw (free, given, prepare_claim) tt
        ]
]

read_answer-IsHonoured :
    (access : Access) (users : Users) (next : Redemption)
    → IsHonoured users next
    → IsHonoured users (read_answer access next)
read_answer-IsHonoured works users next h = h
read_answer-IsHonoured fails users next h = tt
read_answer-IsHonoured fails_after_write users next h = tt

write_answer-IsHonoured :
    (access : Access) (users written : Users) (next : Redemption)
    → IsHonoured written next
    → IsHonoured
        (write_answer access users written next).0
        (write_answer access users written next).1
write_answer-IsHonoured works users written next h = h
write_answer-IsHonoured fails users written next h = tt
write_answer-IsHonoured fails_after_write users written next h = tt

advance-IsHonoured :
    (event : Event) (users : Users) (r : Redemption)
    → IsHonoured users r
    → IsHonoured (advance event users r).0 (advance event users r).1
unfolding advance
advance-IsHonoured event users (started code) h =
    read_answer-IsHonoured event.access users _
      (prepare_claim-IsHonoured users event (load_activation_record code users))
advance-IsHonoured event users (prepared user id) h =
    write_answer-IsHonoured event.access users _ _ (claim-winner user id event.now users)
advance-IsHonoured event users (redeemed user id) h = h
advance-IsHonoured event users (failed e) h = tt

-- an access of one request leaves what the others were given
others-IsHonoured :
    (before after : Users)
    → ((user : ℕ) (id : Text) → Stores user id before → Stores user id after)
    → (rs : List Redemption) → All (IsHonoured before) rs
    → All (IsHonoured after) rs
others-IsHonoured before after keep [] h = tt
others-IsHonoured before after keep (started code ∷ rs) h =
    (tt, others-IsHonoured before after keep rs h.1)
others-IsHonoured before after keep (prepared user id ∷ rs) h =
    (tt, others-IsHonoured before after keep rs h.1)
others-IsHonoured before after keep (redeemed user id ∷ rs) h =
    (keep user id h.0, others-IsHonoured before after keep rs h.1)
others-IsHonoured before after keep (failed e ∷ rs) h =
    (tt, others-IsHonoured before after keep rs h.1)

step-Stores :
    (n : ℕ) (event : Event) (users : Users) (rs : List Redemption) (user : ℕ) (id : Text)
    → Stores user id users
    → Stores user id (step n event users rs).0
unfolding step
step-Stores n event users [] user id s = s
step-Stores zero event users (r ∷ rs) user id s = advance-Stores event users r user id s
step-Stores (suc n) event users (r ∷ rs) user id s = step-Stores n event users rs user id s

step-IsHonoured :
    (n : ℕ) (event : Event) (users : Users) (rs : List Redemption)
    → All (IsHonoured users) rs
    → All (IsHonoured (step n event users rs).0) (step n event users rs).1
unfolding step
step-IsHonoured n event users [] h = tt
step-IsHonoured zero event users (r ∷ rs) h = (
  advance-IsHonoured event users r h.0,
  others-IsHonoured users (advance event users r).0 (advance-Stores event users r) rs h.1,
)
step-IsHonoured (suc n) event users (r ∷ rs) h = (
  (others-IsHonoured users (step n event users rs).0 (step-Stores n event users rs) (r ∷ [])
      (h.0, tt)).0,
  step-IsHonoured n event users rs h.1,
)

run-IsHonoured_from :
    (events : List Event) (users : Users) (rs : List Redemption)
    → All (IsHonoured users) rs
    → All (IsHonoured (run events users rs).0) (run events users rs).1
unfolding run
run-IsHonoured_from [] users rs h = h
run-IsHonoured_from (event ∷ events) users rs h =
    let (written, next) = step event.process event users rs in
    run-IsHonoured_from events written next (step-IsHonoured event.process event users rs h)

started-IsHonoured :
    (users : Users) (codes : List Text) → All (IsHonoured users) (map started codes)
started-IsHonoured users [] = tt
started-IsHonoured users (code ∷ codes) = (tt, started-IsHonoured users codes)

-- However the accesses of any number of redemptions interleave and fail, each redemption that has
-- ended well has given away the identity that the row of its user holds, and that row is used.
pub run-IsHonoured :
    (events : List Event) (users : Users) (codes : List Text)
    → All
        (IsHonoured (run events users (map started codes)).0)
        (run events users (map started codes)).1
run-IsHonoured events users codes =
    run-IsHonoured_from events users (map started codes) (started-IsHonoured users codes)
