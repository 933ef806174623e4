-- ===== src/Sources/Repair/Kept.antt =====
-- The repair changes the listed keys, but none of their ids.
use sub_share_go.Common.{
  ℕ, zero, suc, List, [], ◌∷◌, ◌≡◌, refl, arith, All, nat_eq, ltb, length, Bool-cases, inl, inr,
  ◌==◌, text,
}
use sub_share_go.Common.Result.{Result, ok, ◌>>=◌, >>=-eq-ok}
use sub_share_go.Table.{Table}
use sub_share_go.Strings.{Text, is_empty, trim_space}
use sub_share_go.Sources.Rows.{SourceKey, Database, SyncError}
use sub_share_go.Sources.Statements.{
  set_client_display_name, merge_user_assignments, delete_source_key, set_fingerprint,
}
use sub_share_go.Sources.State.{ProfileIdentity, SyncState}
use sub_share_go.Sources.Repair.{
  key_at, update_key_at, first_override, inherit_client_display_name, remove_duplicate_row,
  remove_duplicate_rows, adopt_fingerprint, merge_duplicate_group, merge_groups,
  repair_duplicate_groups, duplicate_survivor_index, named, fingerprinted,
}

module _ (P : ℕ → Type 0) where
  update_key_at-All :
      (index : ℕ) (change : SourceKey → SourceKey) (keys : List SourceKey)
      → ((key : SourceKey) → (change key).id ≡ key.id)
      → All (λ key. P key.id) keys
      → All (λ key. P key.id) (update_key_at index change keys)
  unfolding update_key_at
  update_key_at-All index change [] keeps h = h
  update_key_at-All zero change (key ∷ keys) keeps h = (rw (keeps key) h.0, h.1)
  update_key_at-All (suc index) change (key ∷ keys) keeps h =
      (h.0, update_key_at-All index change keys keeps h.1)

  -- of the ids of the keys that a state has listed
  abbrev pub Lists : SyncState → Type 0
  Lists s = All (λ key. P key.id) s.existing_keys

  -- a statement whose database the state takes over, with the keys `keys`
  statement-Lists :
      (result : Result SyncError Database) (take : Database → SyncState) {t : SyncState}
      → ((d : Database) → Lists (take d))
      → (result >>= λ d. ok (take d)) ≡ ok t
      → Lists t
  statement-Lists result take {t} all h =
      let (d, a, b) = >>=-eq-ok result (λ d. ok (take d)) h in
      let last : take d ≡ t = ground arith in rw (← last) (all d)

  same-Lists :
      (s t : SyncState) → ◌≡◌ {A = Result SyncError SyncState} (ok s) (ok t) → Lists s → Lists t
  same-Lists s t h all = let e : s ≡ t = ground arith in rw (← e) all

  inherit_client_display_name-Lists :
      (survivor : ℕ) (indexes : List ℕ) (s : SyncState) {t : SyncState}
      → Lists s
      → inherit_client_display_name survivor indexes s ≡ ok t
      → Lists t
  unfolding inherit_client_display_name
  inherit_client_display_name-Lists survivor indexes s {t} all h =
      let key = key_at survivor s.existing_keys in
      let override = first_override s.existing_keys indexes in
      elim (Bool-cases (is_empty (trim_space key.client_display_name))) [
        | inr own ↦ same-Lists s t (rw own at h) all
        | inl shown ↦ elim (Bool-cases (is_empty override)) [
          | inl blank ↦ same-Lists s t (rw (shown, blank) at h) all
          | inr given ↦
              statement-Lists (set_client_display_name s.source.id key.id override s.db) _
                (λ d. update_key_at-All survivor (named override) _ (λ k. refl) all)
                (rw (shown, given) at h)
        ]
      ]

  remove_duplicate_row-Lists :
      (survivor duplicate : ℕ) (s : SyncState) {t : SyncState}
      → Lists s
      → remove_duplicate_row survivor duplicate s ≡ ok t
      → Lists t
  unfolding remove_duplicate_row
  remove_duplicate_row-Lists survivor duplicate s {t} all h =
      elim (Bool-cases (nat_eq duplicate survivor)) [
        | inl same ↦ same-Lists s t (rw same at h) all
        | inr other ↦
            statement-Lists
              (merge_user_assignments survivor duplicate s.db
                >>= delete_source_key s.source.id duplicate)
              _ (λ d. all) (rw other at h)
      ]

  remove_duplicate_rows-Lists :
      (survivor : ℕ) (indexes : List ℕ) (s : SyncState) {t : SyncState}
      → Lists s
      → remove_duplicate_rows survivor indexes s ≡ ok t
      → Lists t
  unfolding remove_duplicate_rows
  remove_duplicate_rows-Lists survivor [] s {t} all h = same-Lists s t h all
  remove_duplicate_rows-Lists survivor (index ∷ indexes) s all h =
      let (u, a, b) =
        >>=-eq-ok (remove_duplicate_row survivor (key_at index s.existing_keys).id s) _ h in
      remove_duplicate_rows-Lists survivor indexes u
        (remove_duplicate_row-Lists survivor (key_at index s.existing_keys).id s all a) b

  adopt_fingerprint-Lists :
      (fingerprint : Text) (survivor : ℕ) (s : SyncState) {t : SyncState}
      → Lists s
      → adopt_fingerprint fingerprint survivor s ≡ ok t
      → Lists t
  unfolding adopt_fingerprint
  adopt_fingerprint-Lists fingerprint survivor s {t} all h =
      let key = key_at survivor s.existing_keys in
      elim (Bool-cases (key.fingerprint == fingerprint)) [
        | inl same ↦ same-Lists s t (rw same at h) all
        | inr other ↦
            statement-Lists (set_fingerprint s.source.id key.id fingerprint s.db) _
              (λ d. update_key_at-All survivor (fingerprinted fingerprint) _ (λ k. refl) all)
              (rw other at h)
      ]

  merge_duplicate_group-Lists :
      (fingerprint : Text) (indexes : List ℕ) (s : SyncState) {t : SyncState}
      → Lists s
      → merge_duplicate_group fingerprint indexes s ≡ ok t
      → Lists t
  unfolding merge_duplicate_group
  merge_duplicate_group-Lists fingerprint indexes s all h =
      let survivor = duplicate_survivor_index fingerprint s.existing_keys indexes in
      let survivor_id = (key_at survivor s.existing_keys).id in
      let inherited = inherit_client_display_name survivor indexes s in
      let (v, a, b) =
        >>=-eq-ok (inherited >>= remove_duplicate_rows survivor_id indexes)
          (adopt_fingerprint fingerprint survivor) h in
      let (u, c, d) = >>=-eq-ok inherited (remove_duplicate_rows survivor_id indexes) a in
      adopt_fingerprint-Lists fingerprint survivor v
        (remove_duplicate_rows-Lists survivor_id indexes u
          (inherit_client_display_name-Lists survivor indexes s all c) d)
        b

  merge_groups-Lists :
      (groups : Table Text (List ℕ)) (s : SyncState) {t : SyncState}
      → Lists s
      → merge_groups groups s ≡ ok t
      → Lists t
  unfolding merge_groups
  merge_groups-Lists [] s {t} all h = same-Lists s t h all
  merge_groups-Lists ((fingerprint, indexes) ∷ groups) s all h =
      elim (Bool-cases (ltb (length indexes) 2)) [
        | inl single ↦ merge_groups-Lists groups s all (rw single at h)
        | inr several ↦
            let (u, a, b) =
              >>=-eq-ok (merge_duplicate_group fingerprint indexes s) (merge_groups groups)
                (rw several at h) in
            merge_groups-Lists groups u (merge_duplicate_group-Lists fingerprint indexes s all a) b
      ]

  pub repair_duplicate_groups-Lists :
      ⦃p : ProfileIdentity⦄ (fingerprint_key : Text) (s : SyncState) {t : SyncState}
      → Lists s
      → repair_duplicate_groups fingerprint_key s ≡ ok t
      → Lists t
  unfolding repair_duplicate_groups
  repair_duplicate_groups-Lists fingerprint_key s all h = merge_groups-Lists _ s all h
