-- ===== src/Tests/Sources.antt =====
-- A source with two stored keys, and feeds that are synchronised with it.
use sub_share_go.Common.{
  ℕ, zero, suc, List, [], ◌∷◌, Option, none, some, true, false, ◌≡◌, refl, ℤ, pos, negsuc, ℕ_eq,
  text, text_eq,
}
use sub_share_go.Common.Result.{Result, err, ok}
use sub_share_go.Table.{lookup, put}
use sub_share_go.Strings.{
  Text, codes, trim_space, trim_left, trim_right, is_space, byte_len, rune_len, to_lower,
}
use sub_share_go.Strings.Bytes.{cut, stray, rune_bytes}
use sub_share_go.Tests.Fixtures.{ascii}
use sub_share_go.Sources.Items.{
  ImportStatus, ParsedKey, no_counts, count_items, count_items_from, count_item, count_status,
  is_compatibility_only, is_ambiguous, has_ambiguity_warning, contains_warning_code,
}
use sub_share_go.Sources.Names.{normalize_key_insert_mode}
use sub_share_go.Sources.Rows.{
  SourceKeyRow, SourceSyncMetadata, Database, SyncError, update_where, delete_where, exists_where,
  sql_blank, same_identity, source_keys_of,
}
use sub_share_go.Sources.Statements.{
  statement, list_source_keys, set_client_display_name, assign, assign_users_of,
  merge_user_assignments, unassign, delete_source_key, set_fingerprint, put_secret,
  update_source_key, insert_source_key, assign_all, beside, min_order, max_order, first_sort_order,
  next_sort_order, synced_rows, mark_source_synced,
}
use sub_share_go.Sources.Categories.{
  normalize_key_category, upsert_category, ensure_category, category_id_of, last_sort_order,
}
use sub_share_go.Sources.State.{
  ProfileIdentity, SyncTarget, ParseResult, new_sync_state, index_items, set_status_at,
  set_item_status, sync_label,
}
use sub_share_go.Sources.Repair.{
  key_at, update_key_at, append_index, group_keys, semantic_fingerprint_groups, holding_fingerprint,
  duplicate_survivor_index, first_override, inherit_client_display_name, remove_duplicate_row,
  remove_duplicate_rows, adopt_fingerprint, merge_duplicate_group, merge_groups,
  repair_duplicate_groups,
}
use sub_share_go.Sources.Index.{
  index_legacy_fingerprints, index_key, index_keys, index_existing_keys, count_labels,
  count_incoming_labels,
}
use sub_share_go.Sources.Reconcile.{
  incoming_ref, match_fingerprint, match_label, match_existing, fields_changed, remove_id,
  write_matched, insert_new, key_write, store_key, upsert_parsed_key, upsert_keys, remove_ids,
  remove_unmatched, reconcile,
}
use sub_share_go.Sources.Sync.{
  with_indexes, first_order, repair, load_target, load_existing, prepare, Synced, finish, sync,
}

-- profiles that have no fingerprint of their own, and maps visited as they are listed
instance abbrev pub plain : ProfileIdentity
plain = record {
  semantic_fingerprint = λ url key. none;
  key_ref = λ url. url;
  marshal_codes = λ codes. [];
  visit_groups = λ groups. groups;
  visit_ids = λ ids. ids;
}

abbrev pub stored : ℕ → Option ℕ → Text → Text → Text → ℤ → SourceKeyRow
stored id source ref fingerprint label order = record {
  id = id;
  source_id = source;
  ref = ref;
  fingerprint = fingerprint;
  label = label;
  client_display_name = [];
  status = codes "active";
  category_id = none;
  category = [];
  sort_order = order;
  protocol = codes "vless";
  profile_schema_version = 1;
  compatibility = codes "full";
  warnings_json = [];
  url = codes "vless://old";
}

abbrev pub no_meta : SourceSyncMetadata
no_meta = record {
  title = [];
  refresh_hours = pos 0;
  support_url = [];
  web_page_url = [];
  announce = [];
}

abbrev pub database : List SourceKeyRow → Database
database keys = record {
  keys = keys;
  next_key_id = 10;
  assignments = record { user_id = 5; key_id = 1 } ∷ record { user_id = 6; key_id = 2 } ∷ [];
  users_of_all = 5 ∷ [];
  categories = [];
  next_category_id = 1;
  sources = [];
  clock = 0;
  fails = λ n. false;
}

abbrev pub two_keys : Database
two_keys = database (
    stored 1 (some 7) (codes "a") (codes "f1") (codes "A") (pos 3)
    ∷ stored 2 (some 7) (codes "b") [] (codes "B") (pos 4)
    ∷ stored 3 none [] [] (codes "local") (negsuc 20)
    ∷ [])

abbrev pub target : SyncTarget
target = record { id = 7; enabled = true; key_category = []; key_insert_mode = codes "top" }

abbrev pub incoming : Text → Text → Text → ParsedKey
incoming ref fingerprint url = record {
  label = ref;
  url = url;
  scheme = codes "vless";
  protocol = codes "vless";
  host = [];
  port = [];
  ref = ref;
  item_ref = ref;
  line_index = 0;
  compatibility = codes "full";
  profile_schema_version = 1;
  fingerprint = fingerprint;
  fingerprint_candidates = fingerprint ∷ [];
  warning_codes = [];
  initial_status = ImportStatus.accepted;
}

abbrev pub feed : List ParsedKey → ParseResult
feed keys = record { metadata = no_meta; keys = keys; items = []; counts = no_counts }

abbrev pub one_key : ParseResult
one_key = feed (incoming (codes "a") (codes "f1") (codes "vless://new") ∷ [])

abbrev pub fingerprint_keys : List Text
fingerprint_keys = codes "k" ∷ []

abbrev ids_in : List SourceKeyRow → List ℕ
ids_in [] = []
ids_in (row ∷ rows) = row.id ∷ ids_in rows

abbrev outcome : Result SyncError Synced → List ℕ × ℕ × ℕ
outcome (err e) = ([], 0, 0)
outcome (ok r) = (ids_in r.db.keys, r.result.imported, r.counts.removed)

-- the key that the feed lists keeps its row, the other goes
sync-one_key : outcome (sync two_keys target one_key fingerprint_keys) ≡ (1 ∷ 3 ∷ [], 1, 1)
unfolding text_eq lookup put trim_space trim_left trim_right is_space byte_len rune_len to_lower cut
    stray rune_bytes count_items count_items_from count_item count_status is_compatibility_only
    is_ambiguous has_ambiguity_warning contains_warning_code normalize_key_insert_mode update_where
    delete_where exists_where sql_blank same_identity source_keys_of statement list_source_keys
    set_client_display_name assign assign_users_of merge_user_assignments unassign delete_source_key
    set_fingerprint put_secret update_source_key insert_source_key assign_all beside min_order
    max_order first_sort_order next_sort_order synced_rows mark_source_synced normalize_key_category
    upsert_category ensure_category category_id_of last_sort_order new_sync_state index_items
    set_status_at set_item_status sync_label key_at update_key_at append_index group_keys
    semantic_fingerprint_groups holding_fingerprint duplicate_survivor_index first_override
    inherit_client_display_name remove_duplicate_row remove_duplicate_rows adopt_fingerprint
    merge_duplicate_group merge_groups repair_duplicate_groups index_legacy_fingerprints index_key
    index_keys index_existing_keys count_labels count_incoming_labels incoming_ref match_fingerprint
    match_label match_existing fields_changed remove_id write_matched insert_new key_write store_key
    upsert_parsed_key upsert_keys remove_ids remove_unmatched reconcile with_indexes first_order
    repair load_target load_existing prepare finish sync
sync-one_key = refl

-- two incoming keys that match one row: both count as imported, and the second one's URL is stored
abbrev pub two_on_one : ParseResult
two_on_one = feed (
    incoming (codes "a") (codes "f0") (codes "vless://0")
    ∷ incoming (codes "c") (codes "f1") (codes "vless://1")
    ∷ [])

abbrev urls_in : List SourceKeyRow → List Text
urls_in [] = []
urls_in (row ∷ rows) = row.url ∷ urls_in rows

abbrev urls_after : Result SyncError Synced → List Text
urls_after (err e) = []
urls_after (ok r) = urls_in r.db.keys

sync-two_on_one :
    (outcome (sync two_keys target two_on_one fingerprint_keys) ≡ (1 ∷ 3 ∷ [], 2, 1))
    × (urls_after (sync two_keys target two_on_one fingerprint_keys)
        ≡ codes "vless://1" ∷ codes "vless://old" ∷ [])
unfolding text_eq lookup put trim_space trim_left trim_right is_space byte_len rune_len to_lower cut
    stray rune_bytes count_items count_items_from count_item count_status is_compatibility_only
    is_ambiguous has_ambiguity_warning contains_warning_code normalize_key_insert_mode update_where
    delete_where exists_where sql_blank same_identity source_keys_of statement list_source_keys
    set_client_display_name assign assign_users_of merge_user_assignments unassign delete_source_key
    set_fingerprint put_secret update_source_key insert_source_key assign_all beside min_order
    max_order first_sort_order next_sort_order synced_rows mark_source_synced normalize_key_category
    upsert_category ensure_category category_id_of last_sort_order new_sync_state index_items
    set_status_at set_item_status sync_label key_at update_key_at append_index group_keys
    semantic_fingerprint_groups holding_fingerprint duplicate_survivor_index first_override
    inherit_client_display_name remove_duplicate_row remove_duplicate_rows adopt_fingerprint
    merge_duplicate_group merge_groups repair_duplicate_groups index_legacy_fingerprints index_key
    index_keys index_existing_keys count_labels count_incoming_labels incoming_ref match_fingerprint
    match_label match_existing fields_changed remove_id write_matched insert_new key_write store_key
    upsert_parsed_key upsert_keys remove_ids remove_unmatched reconcile with_indexes first_order
    repair load_target load_existing prepare finish sync
sync-two_on_one = (refl, refl)

-- a label of 127 two-byte letters after two ASCII ones ends in half a letter
abbrev letters : ℕ → Text
letters zero = []
letters (suc n) = 0x416 ∷ letters n

label_cut : cut 3 (b'a' ∷ letters 2) ≡ b'a' ∷ 0x416 ∷ []
unfolding cut rune_len
label_cut = refl

label_cut_inside : cut 4 (b'a' ∷ letters 2) ≡ b'a' ∷ 0x416 ∷ 0x1100d0 ∷ []
unfolding cut rune_len rune_bytes stray
label_cut_inside = refl
