-- ===== src/Sources/Reconcile/Upserts.antt =====
-- The upsert of an incoming key, by cases: what it does to the counters and to the stored keys.
use sub_share_go.Common.{
  ℕ, suc, some, ◌≡◌, refl, arith, contains, if◌then◌else◌, Bool-cases, Option-cases, inl, inr, text,
}
use sub_share_go.Common.Result.{ok, >>=-eq-ok, Result-cases}
use sub_share_go.Table.{lookup}
use sub_share_go.Strings.{Text}
use sub_share_go.Sources.Items.{ParsedKey, ImportStatus}
use sub_share_go.Sources.Rows.{SourceKey, SourceKeyWrite, duplicate_source_key}
use sub_share_go.Sources.Statements.{update_source_key, insert_source_key}
use sub_share_go.Sources.State.{ProfileIdentity, SyncState, KeyIndex, set_item_status, sync_label}
use sub_share_go.Sources.Reconcile.{
  incoming_ref, match_existing, fields_changed, kept_ref, matched_state, write_matched, skipped_as,
  added_state, insert_new, key_write, unusable_url, with_seen, store_key, upsert_parsed_key,
  remove_id,
}

-- what `setItemStatus` leaves alone
pub record SameButItems (s t : SyncState) : Type 0 where
  pub db_same : t.db ≡ s.db
  pub source_same : t.source ≡ s.source
  pub parsed_same : t.parsed ≡ s.parsed
  pub existing_same : t.existing ≡ s.existing
  pub imported_same : t.result.imported ≡ s.result.imported
  pub skipped_same : t.result.skipped ≡ s.result.skipped
  pub removed_same : t.result.removed ≡ s.result.removed

pub set_item_status-SameButItems :
    (item_ref : Text) (status : ImportStatus) (s : SyncState)
    → SameButItems s (set_item_status item_ref status s)
unfolding set_item_status
set_item_status-SameButItems item_ref status s =
    elim (Option-cases (lookup item_ref s.item_indexes)) [
      | inl absent ↦
          rw (absent, set_item_status)
            (record {
              db_same = refl;
              source_same = refl;
              parsed_same = refl;
              existing_same = refl;
              imported_same = refl;
              skipped_same = refl;
              removed_same = refl;
            })
      | inr (index, found) ↦
          rw (found, set_item_status)
            (record {
              db_same = refl;
              source_same = refl;
              parsed_same = refl;
              existing_same = refl;
              imported_same = refl;
              skipped_same = refl;
              removed_same = refl;
            })
    ]

-- One incoming key is skipped, written over the row that it matches, or inserted. The row that it is
-- written over is no longer among those that `removeUnmatched` deletes.
pub data Upserted (s t : SyncState) : Type 0 where
  skipped_key :
      t.db ≡ s.db
      → t.existing.ids ≡ s.existing.ids
      → t.result.imported ≡ s.result.imported
      → t.result.skipped ≡ suc s.result.skipped
      → Upserted s t
  written_key :
      (key : SourceKey) (w : SourceKeyWrite) (item : ParsedKey) (ref label : Text)
      → match_existing item ref label s.incoming_label_counts s.existing ≡ some key
      → w.source_id ≡ s.source.id
      → update_source_key key.id w s.db ≡ ok t.db
      → t.existing.ids ≡ remove_id key.id s.existing.ids
      → t.result.imported ≡ suc s.result.imported
      → t.result.skipped ≡ s.result.skipped
      → Upserted s t
  inserted_key :
      (w : SourceKeyWrite)
      → w.source_id ≡ s.source.id
      → insert_source_key w s.db ≡ ok t.db
      → t.existing.ids ≡ s.existing.ids
      → t.result.imported ≡ suc s.result.imported
      → t.result.skipped ≡ s.result.skipped
      → Upserted s t

-- the lookup maps of `indexExistingKeys`
pub record SameTables (m n : KeyIndex) : Type 0 where
  pub refs_same : n.by_ref ≡ m.by_ref
  pub fingerprints_same : n.by_fingerprint ≡ m.by_fingerprint
  pub labels_same : n.by_label ≡ m.by_label

same_tables : (m : KeyIndex) → SameTables m m
same_tables m = record { refs_same = refl; fingerprints_same = refl; labels_same = refl }

-- what no upsert changes
abbrev pub SameFeed : SyncState → SyncState → Type 0
SameFeed s t =
    (t.source ≡ s.source)
    × (t.parsed ≡ s.parsed)
    × (t.result.removed ≡ s.result.removed)
    × SameTables s.existing t.existing

abbrev pub Upsert : SyncState → SyncState → Type 0
Upsert s t = Upserted s t × SameFeed s t

same_feed : (s s' t : SyncState) → SameButItems s' t → SameFeed s s' → SameFeed s t
same_feed s s' t same (o, p, r, b) = (
  rw (same.source_same, o) refl,
  rw (same.parsed_same, p) refl,
  rw (same.removed_same, r) refl,
  rw same.existing_same b,
)

skipped_as-Upsert :
    (status : ImportStatus) (item : ParsedKey) (s s' : SyncState)
    → s'.db ≡ s.db
    → s'.existing ≡ s.existing
    → s'.result ≡ s.result
    → (s'.source ≡ s.source) × (s'.parsed ≡ s.parsed)
    → Upsert s (skipped_as status item s')
skipped_as-Upsert status item s s' d e r (o, p) =
    let t = record s' { result = record s'.result { skipped = suc s'.result.skipped } } in
    let same = set_item_status-SameButItems item.item_ref status t in
    (
      skipped_key (rw (same.db_same, d) refl) (rw (same.existing_same, e) refl)
          (rw (same.imported_same, r) refl) (rw (same.skipped_same, r) refl),
      same_feed s t (set_item_status item.item_ref status t) same
          (o, p, rw r refl, rw e (same_tables s.existing)),
    )

write_matched-Upsert :
    (key : SourceKey) (item : ParsedKey) (ref label : Text) (raw : SourceKeyWrite) (s : SyncState)
    {t : SyncState}
    → match_existing item ref label s.incoming_label_counts s.existing ≡ some key
    → raw.source_id ≡ s.source.id
    → write_matched key item raw s ≡ ok t
    → Upsert s t
unfolding write_matched
write_matched-Upsert key item ref label raw s {t} found owner h =
    let w = kept_ref key raw in
    let status = if fields_changed key w then ImportStatus.updated else ImportStatus.unchanged in
    let (d, stored, last) =
      >>=-eq-ok (update_source_key key.id w s.db)
        (λ d. ok (set_item_status item.item_ref status (matched_state key d s))) h in
    let same = set_item_status-SameButItems item.item_ref status (matched_state key d s) in
    let e : set_item_status item.item_ref status (matched_state key d s) ≡ t = ground arith in
    let owner' : w.source_id ≡ s.source.id = ground arith in
    rw (← e) (
      written_key key w item ref label found owner' (rw same.db_same stored)
          (rw same.existing_same refl) (rw same.imported_same refl) (rw same.skipped_same refl),
      same_feed s (matched_state key d s) _ same (
        refl,
        refl,
        refl,
        record { refs_same = refl; fingerprints_same = refl; labels_same = refl },
      ),
    )

insert_new-Upsert :
    (item : ParsedKey) (raw : SourceKeyWrite) (s : SyncState) {t : SyncState}
    → raw.source_id ≡ s.source.id
    → insert_new item raw s ≡ ok t
    → Upsert s t
unfolding insert_new
insert_new-Upsert item raw s {t} owner h =
    let w : SourceKeyWrite = record raw { status = s.status_value } in
    elim (Result-cases (insert_source_key w s.db)) [
      | inl (duplicate_source_key, e) ↦
          let same : skipped_as ImportStatus.duplicate item s ≡ t = ground arith in
          rw (← same)
            (skipped_as-Upsert ImportStatus.duplicate item s s refl refl refl (refl, refl))
      | inl (_, e) ↦ absurd (ground arith)
      | inr (d, stored) ↦
          let same =
            set_item_status-SameButItems item.item_ref ImportStatus.added (added_state d s) in
          let e : set_item_status item.item_ref ImportStatus.added (added_state d s) ≡ t =
            ground arith in
          rw (← e) (
            inserted_key w owner (rw same.db_same stored) (rw same.existing_same refl)
                (rw same.imported_same refl) (rw same.skipped_same refl),
            same_feed s (added_state d s) _ same (refl, refl, refl, same_tables s.existing),
          )
    ]

with_seen-Upsert :
    (ref : Text) (s : SyncState) {t : SyncState} → Upsert (with_seen ref s) t → Upsert s t
with_seen-Upsert ref s (skipped_key a b c d, rest) = (skipped_key a b c d, rest)
with_seen-Upsert ref s (written_key k w i r l m o a b c d, rest) =
    (written_key k w i r l m o a b c d, rest)
with_seen-Upsert ref s (inserted_key w o a b c d, rest) = (inserted_key w o a b c d, rest)

store_key-Upsert :
    ⦃p : ProfileIdentity⦄ (item : ParsedKey) (ref label : Text) (s : SyncState) {t : SyncState}
    → store_key item ref label s ≡ ok t
    → Upsert s t
unfolding store_key key_write
store_key-Upsert item ref label s h =
    elim (Option-cases (match_existing item ref label s.incoming_label_counts s.existing)) [
      | inl absent ↦
          insert_new-Upsert item (key_write item ref label s) s refl (rw (absent, store_key) at h)
      | inr (key, found) ↦
          write_matched-Upsert key item ref label (key_write item ref label s) s found refl
            (rw (found, store_key) at h)
    ]

-- The three outcomes cover every upsert that succeeds.
pub upsert_parsed_key-Upsert :
    ⦃p : ProfileIdentity⦄ (index : ℕ) (item : ParsedKey) (s : SyncState) {t : SyncState}
    → upsert_parsed_key index item s ≡ ok t
    → Upsert s t
unfolding upsert_parsed_key
upsert_parsed_key-Upsert index item s {t} h =
    let ref = incoming_ref item in
    elim (Bool-cases (contains s.seen_refs ref)) [
      | inl again ↦
          let same : skipped_as ImportStatus.duplicate item s ≡ t = ground arith in
          rw (← same)
            (skipped_as-Upsert ImportStatus.duplicate item s s refl refl refl (refl, refl))
      | inr first ↦ elim (Bool-cases (unusable_url item.url)) [
        | inl bad ↦
            let same : skipped_as ImportStatus.rejected item (with_seen ref s) ≡ t = ground arith in
            rw (← same) (
              skipped_as-Upsert ImportStatus.rejected item s (with_seen ref s) refl refl refl
                (refl, refl))
        | inr usable ↦ with_seen-Upsert ref s (
            store_key-Upsert item ref (sync_label item index) (with_seen ref s)
              (rw (first, usable) at h))
      ]
    ]
