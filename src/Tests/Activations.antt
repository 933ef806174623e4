-- ===== src/Tests/Activations.antt =====
-- Two requests with one code.
use sub_share_go.Common.{ℕ, List, [], ◌∷◌, none, some, ◌≡◌, ◌≤◌, refl, All, map, ℕ_eq, text_eq}
use sub_share_go.Strings.{Text, codes, trim_space}
use sub_share_go.Table.{lookup, put}
use sub_share_go.Activation.{
  UserRow, Event, works, started, run, step, advance, prepare_claim, claim_activation,
  load_activation_record, activation_subscription_id,
}
use sub_share_go.Activation.OneWinner.{wins, run-wins}
use sub_share_go.Activation.Identity.{IsHonoured, run-IsHonoured}

abbrev code : Text
code = codes "c0de"

abbrev fresh_row : UserRow
fresh_row = record { activation_code = code; used_at = none; subscription_id = some (codes "id-7") }

abbrev used_row : UserRow
used_row = record {
  activation_code = code;
  used_at = some 3;
  subscription_id = some (codes "id-7");
}

abbrev event : ℕ → Event
event process = record { process = process; access = works; now = 9; token = some (codes "t") }

-- both requests read before either claims
abbrev race : List Event
race = event 0 ∷ event 1 ∷ event 1 ∷ event 0 ∷ []

race-wins : wins 7 (run race ((7, fresh_row) ∷ []) (map started (code ∷ code ∷ []))).1 ≡ 1
unfolding run step advance prepare_claim claim_activation load_activation_record
    activation_subscription_id lookup put text_eq trim_space
race-wins = refl

run-wins_example : wins 7 (run race ((7, fresh_row) ∷ []) (map started (code ∷ code ∷ []))).1 ≤ 1
run-wins_example = run-wins 7 race ((7, fresh_row) ∷ []) (code ∷ code ∷ [])

run-IsHonoured_example :
    All
      (IsHonoured (run race ((7, fresh_row) ∷ []) (map started (code ∷ code ∷ []))).0)
      (run race ((7, fresh_row) ∷ []) (map started (code ∷ code ∷ []))).1
run-IsHonoured_example = run-IsHonoured race ((7, fresh_row) ∷ []) (code ∷ code ∷ [])
