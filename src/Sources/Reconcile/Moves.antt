-- ===== src/Sources/Reconcile/Moves.antt =====
-- A reconciliation is a sequence of key steps of its source.
use sub_share_go.Common.{
  ℕ, suc, List, [], ◌∷◌, not, ◌≡◌, refl, arith, ℕ_eq, nat_eq, Bool-cases, inl, inr, ◌||◌,
}
use sub_share_go.Common.Result.{ok, >>=-eq-ok}
use sub_share_go.Sources.Items.{ParsedKey}
use sub_share_go.Sources.Statements.{delete_source_key}
use sub_share_go.Sources.Statements.KeyStep.{
  KeyWrite, wrote, untouched, one_step, delete_source_key-KeyStep, update_source_key-KeyWrite,
  insert_source_key-KeyWrite,
}
use sub_share_go.Sources.Statements.KeyStep.{Owns}
use sub_share_go.Sources.Statements.Owned.{KeyWrite-Owns}
use sub_share_go.Sources.Sync.Listed.{Indexed, Indexed-map, match_existing-Indexed}
use sub_share_go.Sources.State.{ProfileIdentity, SyncState}
use sub_share_go.Sources.Reconcile.{
  upsert_parsed_key, upsert_keys, remove_ids, remove_unmatched, row_removed, reconcile,
}
use sub_share_go.Sources.Reconcile.Upserts.{
  Upserted, skipped_key, written_key, inserted_key, upsert_parsed_key-Upsert,
}
use sub_share_go.Sources.Sync.Steps.{Moves, stays, onwards, >>=-Moves}

-- The rows with the id of a key in the lookup maps are the source's.
abbrev pub OwnsIndex : SyncState → Type 0
OwnsIndex s = Indexed (λ id. Owns s.source.id id s.db.keys) s.existing

-- an upsert deletes no key
Upserted-KeyWrite : (s t : SyncState) → OwnsIndex s → Upserted s t → KeyWrite s.source.id s.db t.db
Upserted-KeyWrite s t owns (skipped_key d _ _ _) = untouched (rw d refl) (rw d refl)
Upserted-KeyWrite s t owns (written_key key w item ref label found owner stored _ _ _) =
    let own =
      match_existing-Indexed (λ id. Owns s.source.id id s.db.keys) item ref label
        s.incoming_label_counts s.existing key owns found in
    rw (← owner) (update_source_key-KeyWrite key.id w s.db (rw owner own) stored)
Upserted-KeyWrite s t owns (inserted_key w owner stored _ _ _) =
    rw (← owner) (insert_source_key-KeyWrite w s.db stored)

upsert_parsed_key-Moves :
    ⦃p : ProfileIdentity⦄ (index : ℕ) (item : ParsedKey) (s : SyncState) {t : SyncState}
    → OwnsIndex s
    → upsert_parsed_key index item s ≡ ok t
    → Moves s t × OwnsIndex t
upsert_parsed_key-Moves index item s {t} owns h =
    let (outcome, (source, parsed, removed_same, tables)) =
      upsert_parsed_key-Upsert index item s h in
    let write = Upserted-KeyWrite s t owns outcome in
    let grown =
      Indexed-map (λ id. Owns s.source.id id s.db.keys) (λ id. Owns s.source.id id t.db.keys)
        (λ id own. KeyWrite-Owns s.source.id id s.db t.db write own) s.existing owns in
    (
      (one_step (wrote write), source, parsed),
      rw (source, tables.refs_same, tables.fingerprints_same, tables.labels_same) grown,
    )

upsert_keys-Moves :
    ⦃p : ProfileIdentity⦄ (index : ℕ) (items : List ParsedKey) (s : SyncState) {t : SyncState}
    → OwnsIndex s
    → upsert_keys index items s ≡ ok t
    → Moves s t
unfolding upsert_keys
upsert_keys-Moves index [] s {t} owns h = let e : s ≡ t = ground arith in rw (← e) (stays s)
upsert_keys-Moves index (item ∷ items) s {t} owns h =
    let (u, a, b) = >>=-eq-ok (upsert_parsed_key index item s) (upsert_keys (suc index) items) h in
    let (first, owns') = upsert_parsed_key-Moves index item s owns a in
    onwards s u t first (upsert_keys-Moves (suc index) items u owns' b)

remove_ids-Moves :
    (ids : List ℕ) (s : SyncState) {t : SyncState} → remove_ids ids s ≡ ok t → Moves s t
unfolding remove_ids
remove_ids-Moves [] s {t} h = let e : s ≡ t = ground arith in rw (← e) (stays s)
remove_ids-Moves (id ∷ ids) s {t} h =
    let (d, gone, rest) =
      >>=-eq-ok (delete_source_key s.source.id id s.db) (λ d. remove_ids ids (row_removed d s)) h in
    onwards s (row_removed d s) t
      (one_step (delete_source_key-KeyStep s.source.id id s.db gone), refl, refl)
      (remove_ids-Moves ids (row_removed d s) rest)

remove_unmatched-Moves :
    ⦃p : ProfileIdentity⦄ (s : SyncState) {t : SyncState} → remove_unmatched s ≡ ok t → Moves s t
unfolding remove_unmatched
remove_unmatched-Moves ⦃p⦄ s {t} h =
    elim (Bool-cases
      (not (nat_eq s.parsed.counts.rejected 0) || not (nat_eq s.parsed.counts.unsupported 0))) [
        | inl unsure ↦ let e : s ≡ t = ground arith in rw (← e) (stays s)
        | inr sure ↦ remove_ids-Moves (p.visit_ids s.existing.ids) s (rw sure at h)
      ]

pub reconcile-Moves :
    ⦃p : ProfileIdentity⦄ (s : SyncState) {t : SyncState}
    → OwnsIndex s
    → reconcile s ≡ ok t
    → Moves s t
unfolding reconcile
reconcile-Moves s owns h =
    >>=-Moves s (upsert_keys 0 s.parsed.keys s) _
      (λ t a. upsert_keys-Moves 0 s.parsed.keys s owns a) (λ t a. remove_unmatched-Moves t a) h
