-- ===== src/Sources/Reconcile.antt =====
-- internal/sources/sync.go: every incoming key is matched with a stored row or inserted, and the rows
-- that the feed no longer lists are deleted.
pub mod Upserts
pub mod Moves
pub mod Counted
pub mod Kept
pub mod Survivors
pub mod Placed
use sub_share_go.Common.{
  ℕ, zero, suc, ◌+◌, List, [], ◌∷◌, ◌++◌, Option, none, some, Bool, true, false, not, ltb, nat_eq,
  ◌&&◌, ◌||◌, contains, ℕ_eq, int_succ, if◌then◌else◌, text, ◌==◌,
}
use sub_share_go.Common.Result.{Result, err, ok, ◌>>=◌}
use sub_share_go.Table.{Table, lookup, put}
use sub_share_go.Strings.{Text, trim_space, is_empty, byte_len}
use sub_share_go.Sources.Items.{ImportStatus, ParsedKey}
use sub_share_go.Sources.Rows.{
  SourceKey, SourceKeyWrite, SyncError, Database, no_keys_to_import,
  profile_fingerprint_key_unavailable, database_failure, duplicate_source_key,
}
use sub_share_go.Sources.Statements.{update_source_key, insert_source_key, delete_source_key}
use sub_share_go.Sources.State.{
  ProfileIdentity, SyncState, SyncResult, KeyIndex, set_item_status, sync_label,
}
use sub_share_go.Sources.Index.{count_of}

-- the reference of an incoming key
unfoldable pub incoming_ref : ⦃p : ProfileIdentity⦄ → ParsedKey → Text
incoming_ref ⦃p⦄ item =
    let ref = trim_space item.ref in if is_empty ref then p.key_ref item.url else ref

unfoldable pub match_fingerprint : List Text → Table Text SourceKey → Option SourceKey
match_fingerprint [] m = none
match_fingerprint (candidate ∷ candidates) m = elim (lookup candidate m) [
  | none ↦ match_fingerprint candidates m
  | some key ↦ some key
]

unfoldable pub match_label : Text → Table Text ℕ → KeyIndex → Option SourceKey
match_label label incoming existing =
    if nat_eq (count_of label incoming) 1 && nat_eq (count_of label existing.label_counts) 1
    then elim (lookup label existing.by_label) [
      | none ↦ none
      | some key ↦ if contains existing.ids key.id then some key else none
    ]
    else none

-- by ref, then by fingerprint, then by a label that is unique on both sides
unfoldable pub match_existing : ParsedKey → Text → Text → Table Text ℕ → KeyIndex → Option SourceKey
match_existing item ref label incoming existing = elim (lookup ref existing.by_ref) [
  | some key ↦ some key
  | none ↦ elim (match_fingerprint item.fingerprint_candidates existing.by_fingerprint) [
    | some key ↦ some key
    | none ↦ match_label label incoming existing
  ]
]

-- `storedKeyFields(existing) != incomingKeyFields(write)`
unfoldable pub fields_changed : SourceKey → SourceKeyWrite → Bool
fields_changed key w = not (
    key.label == w.label
    && (key.url == w.url
        && (key.protocol == w.protocol
            && (key.fingerprint == w.fingerprint
                && (nat_eq key.profile_schema_version w.profile_schema_version
                    && (key.compatibility == w.compatibility
                        && key.warnings_json == w.warnings_json))))))

unfoldable pub remove_id : ℕ → List ℕ → List ℕ
remove_id id [] = []
remove_id id (other ∷ ids) =
    let rest = remove_id id ids in if nat_eq other id then rest else other ∷ rest

abbrev pub kept_ref : SourceKey → SourceKeyWrite → SourceKeyWrite
kept_ref key w = if is_empty key.ref then w else record w { ref = key.ref }

abbrev pub one_imported : SyncResult → SyncResult
one_imported r = record r { imported = suc r.imported }

abbrev pub one_skipped : SyncResult → SyncResult
one_skipped r = record r { skipped = suc r.skipped }

abbrev pub matched_state : SourceKey → Database → SyncState → SyncState
matched_state key db s = record s {
  db = db;
  existing = record {
    by_ref = s.existing.by_ref;
    by_fingerprint = s.existing.by_fingerprint;
    by_label = s.existing.by_label;
    label_counts = s.existing.label_counts;
    ids = remove_id key.id s.existing.ids;
  };
  sort_order = int_succ s.sort_order;
  result = one_imported s.result;
}

unfoldable pub write_matched :
    SourceKey → ParsedKey → SourceKeyWrite → SyncState → Result SyncError SyncState
write_matched key item raw s =
    let w = kept_ref key raw in
    let status = if fields_changed key w then ImportStatus.updated else ImportStatus.unchanged in
    update_source_key key.id w s.db >>= λ db.
    ok (set_item_status item.item_ref status (matched_state key db s))

abbrev pub skipped_as : ImportStatus → ParsedKey → SyncState → SyncState
skipped_as status item s =
    set_item_status item.item_ref status (record s { result = one_skipped s.result })

abbrev pub added_state : Database → SyncState → SyncState
added_state db s = record s {
  db = db;
  sort_order = int_succ s.sort_order;
  result = one_imported s.result;
}

unfoldable pub insert_new : ParsedKey → SourceKeyWrite → SyncState → Result SyncError SyncState
insert_new item w s = elim (insert_source_key (record w { status = s.status_value }) s.db) [
  | err duplicate_source_key ↦ ok (skipped_as ImportStatus.duplicate item s)
  | err e ↦ err e
  | ok db ↦ ok (set_item_status item.item_ref ImportStatus.added (added_state db s))
]

unfoldable pub key_write :
    ⦃p : ProfileIdentity⦄ → ParsedKey → Text → Text → SyncState → SourceKeyWrite
key_write ⦃p⦄ item ref label s = record {
  source_id = s.source.id;
  ref = ref;
  label = label;
  category_id = s.target_category_id;
  category = s.target_category;
  status = [];
  sort_order = s.sort_order;
  protocol = item.protocol;
  fingerprint = item.fingerprint;
  profile_schema_version = item.profile_schema_version;
  compatibility = item.compatibility;
  warnings_json = p.marshal_codes item.warning_codes;
  url = item.url;
}

-- a URL that the store does not take
abbrev pub unusable_url : Text → Bool
unusable_url url = is_empty (trim_space url) || ltb 65535 (byte_len url)

abbrev pub with_seen : Text → SyncState → SyncState
with_seen ref s = record s { seen_refs = ref ∷ s.seen_refs }

-- the write of a key that is neither seen nor unusable
unfoldable pub store_key :
    ⦃p : ProfileIdentity⦄ → ParsedKey → Text → Text → SyncState → Result SyncError SyncState
store_key item ref label s =
    elim (match_existing item ref label s.incoming_label_counts s.existing) [
      | some key ↦ write_matched key item (key_write item ref label s) s
      | none ↦ insert_new item (key_write item ref label s) s
    ]

unfoldable pub upsert_parsed_key :
    ⦃p : ProfileIdentity⦄ → ℕ → ParsedKey → SyncState → Result SyncError SyncState
upsert_parsed_key index item s =
    let ref = incoming_ref item in
    let s' = with_seen ref s in
    if contains s.seen_refs ref
    then ok (skipped_as ImportStatus.duplicate item s)
    else if unusable_url item.url
    then ok (skipped_as ImportStatus.rejected item s')
    else store_key item ref (sync_label item index) s'

-- the loop of `reconcile` from position `index`
unfoldable pub upsert_keys :
    ⦃p : ProfileIdentity⦄ → ℕ → List ParsedKey → SyncState → Result SyncError SyncState
upsert_keys index [] s = ok s
upsert_keys index (item ∷ items) s =
    upsert_parsed_key index item s >>= upsert_keys (suc index) items

abbrev pub row_removed : Database → SyncState → SyncState
row_removed db s = record s {
  db = db;
  result = record {
    imported = s.result.imported;
    skipped = s.result.skipped;
    removed = suc s.result.removed;
    items = s.result.items;
  };
}

unfoldable pub remove_ids : List ℕ → SyncState → Result SyncError SyncState
remove_ids [] s = ok s
remove_ids (id ∷ ids) s =
    delete_source_key s.source.id id s.db >>= λ db. remove_ids ids (row_removed db s)

unfoldable pub remove_unmatched : ⦃p : ProfileIdentity⦄ → SyncState → Result SyncError SyncState
remove_unmatched ⦃p⦄ s =
    if not (nat_eq s.parsed.counts.rejected 0) || not (nat_eq s.parsed.counts.unsupported 0)
    then ok s
    else remove_ids (p.visit_ids s.existing.ids) s

unfoldable pub reconcile : ⦃p : ProfileIdentity⦄ → SyncState → Result SyncError SyncState
reconcile s = upsert_keys 0 s.parsed.keys s >>= remove_unmatched
