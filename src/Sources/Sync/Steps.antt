-- ===== src/Sources/Sync/Steps.antt =====
-- Every phase of a synchronisation is a sequence of key steps of its source.
use sub_share_go.Common.{
  ℕ, List, [], ◌∷◌, ◌≡◌, refl, arith, ltb, length, nat_eq, Bool-cases, inl, inr, text, ◌==◌,
}
use sub_share_go.Common.Result.{Result, ok, ◌>>=◌, >>=-eq-ok}
use sub_share_go.Table.{Table}
use sub_share_go.Strings.{Text, is_empty, trim_space}
use sub_share_go.Sources.Rows.{Database, SyncError}
use sub_share_go.Sources.Statements.{
  set_client_display_name, merge_user_assignments, delete_source_key, set_fingerprint,
}
use sub_share_go.Sources.Statements.KeyStep.{
  KeySteps, wrote, done, also, steps_append, one_step, set_client_display_name-KeyWrite,
  merge_user_assignments-KeyWrite, delete_source_key-KeyStep, set_fingerprint-KeyWrite,
}
use sub_share_go.Sources.State.{ProfileIdentity, SyncState}
use sub_share_go.Sources.Repair.{
  key_at, first_override, inherit_client_display_name, remove_duplicate_row, remove_duplicate_rows,
  adopt_fingerprint, merge_duplicate_group, merge_groups, repair_duplicate_groups,
  duplicate_survivor_index,
}

-- from one state of a synchronisation to a later one
abbrev pub Moves : SyncState → SyncState → Type 0
Moves s t = KeySteps s.source.id s.db t.db × (t.source ≡ s.source) × (t.parsed ≡ s.parsed)

pub stays : (s : SyncState) → Moves s s
stays s = (done, refl, refl)

pub onwards : (s t u : SyncState) → Moves s t → Moves t u → Moves s u
onwards s t u (a, p, q) (b, p', q') =
    (steps_append a (rw (← p) b), rw (p', p) refl, rw (q', q) refl)

-- two phases, one after the other
pub >>=-Moves :
    (s : SyncState) (first : Result SyncError SyncState)
    (next : SyncState → Result SyncError SyncState) {u : SyncState}
    → ((t : SyncState) → first ≡ ok t → Moves s t)
    → ((t : SyncState) → next t ≡ ok u → Moves t u)
    → (first >>= next) ≡ ok u
    → Moves s u
>>=-Moves s first next {u} one two h =
    let (t, a, b) = >>=-eq-ok first next h in onwards s t u (one t a) (two t b)

-- a statement whose database the state takes over
pub statement-Moves :
    (s : SyncState) (result : Result SyncError Database) (take : Database → SyncState)
    {u : SyncState}
    → ((d : Database) → result ≡ ok d → KeySteps s.source.id s.db d)
    → ((d : Database)
        → ((take d).db ≡ d) × ((take d).source ≡ s.source) × ((take d).parsed ≡ s.parsed))
    → (result >>= λ d. ok (take d)) ≡ ok u
    → Moves s u
statement-Moves s result take {u} step same h =
    let (d, a, b) = >>=-eq-ok result (λ d. ok (take d)) h in
    let (e, p, q) = same d in
    let last : take d ≡ u = ground arith in rw (← last) (rw e (step d a), p, q)

inherit_client_display_name-Moves :
    (survivor : ℕ) (indexes : List ℕ) (s : SyncState) {t : SyncState}
    → inherit_client_display_name survivor indexes s ≡ ok t
    → Moves s t
unfolding inherit_client_display_name
inherit_client_display_name-Moves survivor indexes s {t} h =
    let key = key_at survivor s.existing_keys in
    elim (Bool-cases (is_empty (trim_space key.client_display_name))) [
      | inl shown ↦ elim (Bool-cases (is_empty (first_override s.existing_keys indexes))) [
        | inl blank ↦ let e : s ≡ t = ground arith in rw (← e) (stays s)
        | inr override ↦
            statement-Moves s
              (set_client_display_name s.source.id key.id (first_override s.existing_keys indexes)
                s.db)
              _
              (λ d a.
                one_step (wrote (set_client_display_name-KeyWrite s.source.id key.id _ s.db a)))
              (λ d. (refl, refl, refl)) (rw (shown, override) at h)
      ]
      | inr own ↦ let e : s ≡ t = ground arith in rw (← e) (stays s)
    ]

remove_duplicate_row-Moves :
    (survivor duplicate : ℕ) (s : SyncState) {t : SyncState}
    → remove_duplicate_row survivor duplicate s ≡ ok t
    → Moves s t
unfolding remove_duplicate_row
remove_duplicate_row-Moves survivor duplicate s {t} h =
    elim (Bool-cases (nat_eq duplicate survivor)) [
      | inl same ↦ let e : s ≡ t = ground arith in rw (← e) (stays s)
      | inr other ↦
          statement-Moves s
            (merge_user_assignments survivor duplicate s.db
              >>= delete_source_key s.source.id duplicate)
            _
            (λ d a.
              let (c, merged, gone) =
                >>=-eq-ok (merge_user_assignments survivor duplicate s.db) _ a in
              also
                (wrote (merge_user_assignments-KeyWrite s.source.id survivor duplicate s.db merged))
                (one_step (delete_source_key-KeyStep s.source.id duplicate c gone)))
            (λ d. (refl, refl, refl)) (rw other at h)
    ]

remove_duplicate_rows-Moves :
    (survivor : ℕ) (indexes : List ℕ) (s : SyncState) {t : SyncState}
    → remove_duplicate_rows survivor indexes s ≡ ok t
    → Moves s t
unfolding remove_duplicate_rows
remove_duplicate_rows-Moves survivor [] s {t} h = let e : s ≡ t = ground arith in rw (← e) (stays s)
remove_duplicate_rows-Moves survivor (index ∷ indexes) s h =
    >>=-Moves s (remove_duplicate_row survivor (key_at index s.existing_keys).id s) _
      (λ u a. remove_duplicate_row-Moves survivor (key_at index s.existing_keys).id s a)
      (λ u b. remove_duplicate_rows-Moves survivor indexes u b) h

adopt_fingerprint-Moves :
    (fingerprint : Text) (survivor : ℕ) (s : SyncState) {t : SyncState}
    → adopt_fingerprint fingerprint survivor s ≡ ok t
    → Moves s t
unfolding adopt_fingerprint
adopt_fingerprint-Moves fingerprint survivor s {t} h =
    let key = key_at survivor s.existing_keys in
    elim (Bool-cases (key.fingerprint == fingerprint)) [
      | inl same ↦ let e : s ≡ t = ground arith in rw (← e) (stays s)
      | inr other ↦
          statement-Moves s (set_fingerprint s.source.id key.id fingerprint s.db) _
            (λ d a.
              one_step (wrote (set_fingerprint-KeyWrite s.source.id key.id fingerprint s.db a)))
            (λ d. (refl, refl, refl)) (rw other at h)
    ]

merge_duplicate_group-Moves :
    (fingerprint : Text) (indexes : List ℕ) (s : SyncState) {t : SyncState}
    → merge_duplicate_group fingerprint indexes s ≡ ok t
    → Moves s t
unfolding merge_duplicate_group
merge_duplicate_group-Moves fingerprint indexes s h =
    let survivor = duplicate_survivor_index fingerprint s.existing_keys indexes in
    let survivor_id = (key_at survivor s.existing_keys).id in
    let named = inherit_client_display_name survivor indexes s in
    >>=-Moves s (named >>= remove_duplicate_rows survivor_id indexes) _
      (λ t a.
        >>=-Moves s named _ (λ u b. inherit_client_display_name-Moves survivor indexes s b)
          (λ u b. remove_duplicate_rows-Moves survivor_id indexes u b) a)
      (λ t a. adopt_fingerprint-Moves fingerprint survivor t a) h

merge_groups-Moves :
    (groups : Table Text (List ℕ)) (s : SyncState) {t : SyncState}
    → merge_groups groups s ≡ ok t
    → Moves s t
unfolding merge_groups
merge_groups-Moves [] s {t} h = let e : s ≡ t = ground arith in rw (← e) (stays s)
merge_groups-Moves ((fingerprint, indexes) ∷ groups) s h =
    elim (Bool-cases (ltb (length indexes) 2)) [
      | inl single ↦ merge_groups-Moves groups s (rw single at h)
      | inr several ↦
          >>=-Moves s (merge_duplicate_group fingerprint indexes s) _
            (λ t a. merge_duplicate_group-Moves fingerprint indexes s a)
            (λ t a. merge_groups-Moves groups t a) (rw several at h)
    ]

pub repair_duplicate_groups-Moves :
    ⦃p : ProfileIdentity⦄ (fingerprint_key : Text) (s : SyncState) {t : SyncState}
    → repair_duplicate_groups fingerprint_key s ≡ ok t
    → Moves s t
unfolding repair_duplicate_groups
repair_duplicate_groups-Moves fingerprint_key s h = merge_groups-Moves _ s h
