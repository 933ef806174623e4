-- ===== src/Sources/Sync.antt =====
-- internal/sources/sync.go: `Sync`. An error leaves the transaction to its caller, who rolls it back,
-- so a failed synchronisation is its error alone.
pub mod Steps
pub mod Refines
pub mod Listed
use sub_share_go.Common.{
  ℕ, List, [], ◌∷◌, Option, none, some, Bool, true, false, length, if◌then◌else◌, text, ◌==◌, ℤ,
}
use sub_share_go.Common.Result.{Result, err, ok, ◌>>=◌}
use sub_share_go.Strings.{Text, Unicode, codes}
use sub_share_go.Sources.Items.{Counts, count_items}
use sub_share_go.Sources.Names.{normalize_key_insert_mode}
use sub_share_go.Sources.Rows.{
  SourceKey, SyncError, Database, no_keys_to_import, profile_fingerprint_key_unavailable,
}
use sub_share_go.Sources.Categories.{ensure_category}
use sub_share_go.Sources.Statements.{list_source_keys, next_sort_order, mark_source_synced}
use sub_share_go.Sources.State.{
  ProfileIdentity, SyncState, SyncTarget, ParseResult, SyncResult, new_sync_state,
}
use sub_share_go.Sources.Repair.{repair_duplicate_groups}
use sub_share_go.Sources.Index.{index_existing_keys, count_incoming_labels}
use sub_share_go.Sources.Reconcile.{reconcile}

abbrev pub with_target : Database × Option ℕ → SyncState → SyncState
with_target found s = record s { db = found.0; target_category_id = found.1 }

abbrev pub with_existing : Database × List SourceKey → SyncState → SyncState
with_existing found s = record s { db = found.0; existing_keys = found.1 }

abbrev pub with_order : Database × ℤ → SyncState → SyncState
with_order found s = record s { db = found.0; sort_order = found.1 }

-- what the stored keys give the reconciliation
unfoldable pub with_indexes : ⦃p : ProfileIdentity⦄ → SyncState → SyncState
with_indexes s = record s {
  existing = index_existing_keys s.fingerprint_keys s.removed_duplicate_ids s.existing_keys;
  incoming_label_counts = count_incoming_labels s.parsed.keys;
  seen_refs = [];
}

unfoldable pub first_order : ⦃u : Unicode⦄ → SyncState → Result SyncError SyncState
first_order s =
    let top = normalize_key_insert_mode s.source.key_insert_mode == codes "top" in
    next_sort_order s.target_category_id s.source.id top (length s.parsed.keys) s.db >>= λ found.
    ok (with_order found s)

-- the repair with the current fingerprint key, the first
unfoldable pub repair : ⦃p : ProfileIdentity⦄ → List Text → SyncState → Result SyncError SyncState
repair [] s = err profile_fingerprint_key_unavailable
repair (fingerprint_key ∷ rest) s = repair_duplicate_groups fingerprint_key s

unfoldable pub load_target : SyncState → Result SyncError SyncState
load_target s = ensure_category s.target_category s.db >>= λ found. ok (with_target found s)

unfoldable pub load_existing : SyncState → Result SyncError SyncState
load_existing s = list_source_keys s.source.id s.db >>= λ found. ok (with_existing found s)

unfoldable pub prepare :
    ⦃u : Unicode⦄ → ⦃p : ProfileIdentity⦄ → SyncState → Result SyncError SyncState
prepare s = load_target s >>= load_existing >>= (λ s'. repair s'.fingerprint_keys s') >>= λ s'.
    first_order (with_indexes s')

abbrev pub final_counts : SyncResult → Counts
final_counts r = record (count_items r.items) { removed = r.removed }

-- what a call returns: the result, its final counts and the database
pub record Synced : Type 0 where
  pub db : Database
  pub result : SyncResult
  pub counts : Counts

unfoldable pub finish : SyncState → Result SyncError Synced
finish s = mark_source_synced s.source.id s.result.imported s.parsed.metadata s.db >>= λ db.
    ok (record { db = db; result = s.result; counts = final_counts s.result })

abbrev pub no_keys : ParseResult → Bool
no_keys parsed = elim parsed.keys [ [] ↦ true | _ ∷ _ ↦ false ]

unfoldable pub sync :
    ⦃u : Unicode⦄
    → ⦃p : ProfileIdentity⦄ → Database
    → SyncTarget
    → ParseResult
    → List Text
    → Result SyncError Synced
sync db source parsed fingerprint_keys =
    if no_keys parsed
    then err no_keys_to_import
    else prepare (new_sync_state db source parsed fingerprint_keys) >>= reconcile >>= finish
