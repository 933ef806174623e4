-- ===== src/Sources/Reconcile/Survivors.antt =====
-- What a reconciliation deletes: no row that a key of the feed matches, and no row at all when an item
-- of the feed could not be read.
use sub_share_go.Common.{
  ℕ, suc, List, [], ◌∷◌, some, true, false, not, ◌≡◌, ◌≢◌, refl, arith, contains, ℕ_eq, nat_eq,
  if◌then◌else◌, Bool-cases, inl, inr, ◌||◌, ◌⊎◌, text,
}
use sub_share_go.Common.Result.{ok, ◌>>=◌, >>=-eq-ok}
use sub_share_go.Sources.Items.{ParsedKey, ImportStatus}
use sub_share_go.Sources.Rows.{SourceKey, SourceKeyWrite}
use sub_share_go.Sources.Statements.{delete_source_key, update_source_key}
use sub_share_go.Sources.Statements.KeyStep.{delete_source_key-eq-ok}
use sub_share_go.Sources.State.{ProfileIdentity, SyncState, set_item_status, sync_label}
use sub_share_go.Sources.Reconcile.{
  upsert_parsed_key, upsert_keys, remove_ids, remove_unmatched, row_removed, reconcile, remove_id,
  incoming_ref, match_existing, unusable_url, write_matched, store_key, with_seen, key_write,
  kept_ref, matched_state, fields_changed,
}
use sub_share_go.Sources.Reconcile.Upserts.{upsert_parsed_key-Upsert, set_item_status-SameButItems}
use sub_share_go.Sources.Reconcile.Kept.{
  present, upsert_keys-present, exists_where-delete_where, Upserted-present,
}

remove_ids-present :
    (ids : List ℕ) (s : SyncState) (id : ℕ) {t : SyncState}
    → remove_ids ids s ≡ ok t
    → contains ids id ≡ false
    → present s.source.id id s.db ≡ true
    → present s.source.id id t.db ≡ true
unfolding remove_ids
remove_ids-present [] s id {t} h out here = let e : s ≡ t = ground arith in rw (← e) here
remove_ids-present (other ∷ ids) s id h out here =
    let (d, gone, rest) =
      >>=-eq-ok (delete_source_key s.source.id other s.db) (λ d. remove_ids ids (row_removed d s))
        h in
    let ne : nat_eq other id ≡ false = ground arith in
    remove_ids-present ids (row_removed d s) id rest (ground arith) (
      rw (delete_source_key-eq-ok s.source.id other s.db gone)
        (exists_where-delete_where s.source.id id other s.db.keys ne here))

remove_unmatched-present :
    ⦃p : ProfileIdentity⦄ (s : SyncState) (id : ℕ) {t : SyncState}
    → remove_unmatched s ≡ ok t
    → contains (p.visit_ids s.existing.ids) id ≡ false
    → present s.source.id id s.db ≡ true
    → present s.source.id id t.db ≡ true
unfolding remove_unmatched
remove_unmatched-present ⦃p⦄ s id {t} h out here =
    elim (Bool-cases
      (not (nat_eq s.parsed.counts.rejected 0) || not (nat_eq s.parsed.counts.unsupported 0))) [
        | inl unsure ↦ let e : s ≡ t = ground arith in rw (← e) here
        | inr sure ↦ remove_ids-present (p.visit_ids s.existing.ids) s id (rw sure at h) out here
      ]

remove_unmatched_unsure :
    ⦃p : ProfileIdentity⦄ (s : SyncState) {t : SyncState}
    → remove_unmatched s ≡ ok t
    → (s.parsed.counts.rejected ≢ 0) ⊎ (s.parsed.counts.unsupported ≢ 0)
    → s ≡ t
unfolding remove_unmatched
remove_unmatched_unsure s h unsure = ground arith

-- When an item of the feed was rejected or unsupported, a reconciliation that succeeds deletes
-- nothing: every stored row of the source is still there, and none is counted as removed.
pub reconcile_unsure :
    ⦃p : ProfileIdentity⦄ (s t : SyncState) (id : ℕ)
    → reconcile s ≡ ok t
    → (s.parsed.counts.rejected ≢ 0) ⊎ (s.parsed.counts.unsupported ≢ 0)
    → present s.source.id id s.db ≡ true
    → (present s.source.id id t.db ≡ true) × (t.result.removed ≡ s.result.removed)
unfolding reconcile
reconcile_unsure s t id h unsure here =
    let (u, upserts, last) = >>=-eq-ok (upsert_keys 0 s.parsed.keys s) remove_unmatched h in
    let (still, source, parsed, same, rest) =
      upsert_keys-present 0 s.parsed.keys s id upserts here in
    let e = remove_unmatched_unsure u last (rw parsed unsure) in rw (← e) (still, same)

remove_id_gone : (id : ℕ) (ids : List ℕ) → contains (remove_id id ids) id ≡ false
unfolding remove_id
remove_id_gone id [] = refl
remove_id_gone id (other ∷ ids) = ground (arith, remove_id_gone id ids)

write_matched_gone :
    (key : SourceKey) (item : ParsedKey) (raw : SourceKeyWrite) (s : SyncState) {t : SyncState}
    → write_matched key item raw s ≡ ok t
    → contains t.existing.ids key.id ≡ false
unfolding write_matched
write_matched_gone key item raw s {t} h =
    let w = kept_ref key raw in
    let status = if fields_changed key w then ImportStatus.updated else ImportStatus.unchanged in
    let (d, stored, last) =
      >>=-eq-ok (update_source_key key.id w s.db)
        (λ d. ok (set_item_status item.item_ref status (matched_state key d s))) h in
    let same = set_item_status-SameButItems item.item_ref status (matched_state key d s) in
    let e : set_item_status item.item_ref status (matched_state key d s) ≡ t = ground arith in
    rw (← e, same.existing_same) (remove_id_gone key.id s.existing.ids)

upsert_parsed_key_gone :
    ⦃p : ProfileIdentity⦄ (index : ℕ) (item : ParsedKey) (s : SyncState) (key : SourceKey)
    {t : SyncState}
    → upsert_parsed_key index item s ≡ ok t
    → contains s.seen_refs (incoming_ref item) ≡ false
    → unusable_url item.url ≡ false
    → match_existing item
        (incoming_ref item)
        (sync_label item index)
        s.incoming_label_counts
        s.existing
      ≡ some key
    → contains t.existing.ids key.id ≡ false
unfolding upsert_parsed_key store_key
upsert_parsed_key_gone index item s key h new usable found =
    write_matched_gone key item
      (key_write item (incoming_ref item) (sync_label item index) (with_seen (incoming_ref item) s))
      (with_seen (incoming_ref item) s) (rw (new, usable, found, upsert_parsed_key, store_key) at h)

-- A stored row survives that the next key of the feed matches, by ref, fingerprint or label, when
-- that key is new to the feed and its URL can be stored: from any point of the loop on, a
-- reconciliation that succeeds does not delete it. Of the order in which Go visits the ids it is
-- asked that it adds none.
pub matched_row_survives :
    ⦃p : ProfileIdentity⦄ (index : ℕ) (item : ParsedKey) (items : List ParsedKey) (s t : SyncState)
    (key : SourceKey)
    → ((ids : List ℕ) (id : ℕ) → contains ids id ≡ false → contains (p.visit_ids ids) id ≡ false)
    → (upsert_keys index (item ∷ items) s >>= remove_unmatched) ≡ ok t
    → contains s.seen_refs (incoming_ref item) ≡ false
    → unusable_url item.url ≡ false
    → match_existing item
        (incoming_ref item)
        (sync_label item index)
        s.incoming_label_counts
        s.existing
      ≡ some key
    → present s.source.id key.id s.db ≡ true
    → present s.source.id key.id t.db ≡ true
unfolding upsert_keys
matched_row_survives ⦃p⦄ index item items s t key visits h new usable found here =
    let (v, upserts, last) = >>=-eq-ok (upsert_keys index (item ∷ items) s) remove_unmatched h in
    let (u, first, rest) =
      >>=-eq-ok (upsert_parsed_key index item s) (upsert_keys (suc index) items) upserts in
    let (outcome, (source, parsed, same, refs)) = upsert_parsed_key-Upsert index item s first in
    let still = Upserted-present s u key.id outcome here in
    let (still', source', parsed', same', out) =
      upsert_keys-present (suc index) items u key.id rest (rw source still) in
    let gone = upsert_parsed_key_gone index item s key first new usable found in
    let gone' : contains v.existing.ids key.id ≡ false = elim out [
      | inl back ↦ absurd (cc (back, gone))
      | inr kept ↦ kept
    ] in
    let there : present v.source.id key.id v.db ≡ true = rw source' still' in
    let end = remove_unmatched-present v key.id last (visits v.existing.ids key.id gone') there in
    rw (source', source) at end
