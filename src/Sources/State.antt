-- ===== src/Sources/State.antt =====
-- internal/sources/sync.go: the state of a synchronisation. `ProfileIdentity` is what the
-- synchronisation asks of the profile code and of SHA-256, and the order in which Go visits maps.
use sub_share_go.Common.{
  ℕ, zero, suc, ◌+◌, List, [], ◌∷◌, ◌++◌, Option, none, some, Bool, not, ltb, ℤ, if◌then◌else◌,
  text,
}
use sub_share_go.Table.{Table, lookup, put}
use sub_share_go.Strings.{Text, codes, trim_space, is_empty, byte_len}
use sub_share_go.Strings.Bytes.{cut}
use sub_share_go.Strings.Decimal.{pad3}
use sub_share_go.Sources.Items.{ImportStatus, ParsedKey, ImportItem, Counts}
use sub_share_go.Sources.Rows.{SourceKey, SourceSyncMetadata, Database}
use sub_share_go.Sources.Categories.{normalize_key_category}

pub record ProfileIdentity : Type 0 where
  -- `profiles.Parse`, then `profiles.Fingerprint` with a key; `none` when one of them fails
  pub semantic_fingerprint : Text → Text → Option Text
  -- `KeyRef`
  pub key_ref : Text → Text
  -- `json.Marshal` of the warning codes
  pub marshal_codes : List Text → Text
  -- `range` over the groups of duplicates and over the ids that no key has matched
  pub visit_groups : Table Text (List ℕ) → Table Text (List ℕ)
  pub visit_ids : List ℕ → List ℕ

pub record SyncTarget : Type 0 where
  pub id : ℕ
  pub enabled : Bool
  pub key_category : Text
  pub key_insert_mode : Text

-- of `ParseResult`, what a synchronisation reads
pub record ParseResult : Type 0 where
  pub metadata : SourceSyncMetadata
  pub keys : List ParsedKey
  pub items : List ImportItem
  pub counts : Counts

-- `SyncResult`; of its counts only `Removed` is written before `finish`
pub record SyncResult : Type 0 where
  pub imported : ℕ
  pub skipped : ℕ
  pub removed : ℕ
  pub items : List ImportItem

-- the maps that `indexExistingKeys` fills
pub record KeyIndex : Type 0 where
  pub by_ref : Table Text SourceKey
  pub by_fingerprint : Table Text SourceKey
  pub by_label : Table Text SourceKey
  pub label_counts : Table Text ℕ
  pub ids : List ℕ

-- `syncState` with the database of its transaction
pub record SyncState : Type 0 where
  pub db : Database
  pub source : SyncTarget
  pub parsed : ParseResult
  pub fingerprint_keys : List Text
  pub result : SyncResult
  pub item_indexes : Table Text ℕ
  pub status_value : Text
  pub target_category : Text
  pub target_category_id : Option ℕ
  pub existing_keys : List SourceKey
  pub removed_duplicate_ids : List ℕ
  pub existing : KeyIndex
  pub incoming_label_counts : Table Text ℕ
  pub seen_refs : List Text
  pub sort_order : ℤ

abbrev pub empty_index : KeyIndex
empty_index = record {
  by_ref = [];
  by_fingerprint = [];
  by_label = [];
  label_counts = [];
  ids = [];
}

unfoldable pub index_items : ℕ → List ImportItem → Table Text ℕ → Table Text ℕ
index_items index [] indexes = indexes
index_items index (item ∷ items) indexes =
    index_items (suc index) items (put item.item_ref index indexes)

unfoldable pub new_sync_state : Database → SyncTarget → ParseResult → List Text → SyncState
new_sync_state db source parsed fingerprint_keys = record {
  db = db;
  source = source;
  parsed = parsed;
  fingerprint_keys = fingerprint_keys;
  result = record {
    imported = 0;
    skipped = parsed.counts.rejected + parsed.counts.unsupported + parsed.counts.duplicate;
    removed = 0;
    items = parsed.items;
  };
  item_indexes = index_items 0 parsed.items [];
  status_value = if not source.enabled then codes "non-active" else codes "active";
  target_category = normalize_key_category source.key_category;
  target_category_id = none;
  existing_keys = [];
  removed_duplicate_ids = [];
  existing = empty_index;
  incoming_label_counts = [];
  seen_refs = [];
  sort_order = ℤ.pos 0;
}

unfoldable pub set_status_at : ℕ → ImportStatus → List ImportItem → List ImportItem
set_status_at index status [] = []
set_status_at zero status (item ∷ items) = record item { status = status } ∷ items
set_status_at (suc index) status (item ∷ items) = item ∷ set_status_at index status items

abbrev pub with_items : List ImportItem → SyncState → SyncState
with_items items s = record s {
  result = record {
    imported = s.result.imported;
    skipped = s.result.skipped;
    removed = s.result.removed;
    items = items;
  };
}

unfoldable pub set_item_status : Text → ImportStatus → SyncState → SyncState
set_item_status item_ref status s = elim (lookup item_ref s.item_indexes) [
  | none ↦ s
  | some index ↦ with_items (set_status_at index status s.result.items) s
]

unfoldable pub sync_label : ParsedKey → ℕ → Text
sync_label item index =
    let trimmed = trim_space item.label in
    let label = if is_empty trimmed then codes "Импорт " ++ pad3 (suc index) else trimmed in
    if ltb 255 (byte_len label) then cut 255 label else label
