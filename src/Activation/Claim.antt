-- ===== src/Activation/Claim.antt =====
-- The claim writes the row of its user, if that is unused, and no other.
use sub_share_go.Common.{ℕ, none, some, true, false, ℕ_eq, ◌≡◌, ◌⊎◌, refl, Option-cases, inl, inr}
use sub_share_go.Strings.{Text}
use sub_share_go.Table.{lookup, put}
use sub_share_go.Activation.{Users, UserRow, claim_activation, claimed_row}

pub claim_activation-cases :
    (id : ℕ) (text : Text) (now : ℕ) (users : Users)
    → (claim_activation id text now users ≡ (users, false))
      ⊎ ((row : UserRow) × (lookup id users ≡ some row)
          × (row.used_at ≡ none)
          × (claim_activation id text now users ≡ (put id (claimed_row row text now) users, true)))
unfolding claim_activation
claim_activation-cases id text now users = elim (Option-cases (lookup id users)) [
  | inl missing ↦ inl (rw (missing, claim_activation) refl)
  | inr (row, found) ↦ elim (Option-cases (row.used_at)) [
    | inl free ↦ inr (row, found, free, rw (found, free, claim_activation) refl)
    | inr (t, used) ↦ inl (rw (found, used, claim_activation) refl)
  ]
]
