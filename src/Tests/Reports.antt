-- ===== src/Tests/Reports.antt =====
-- What is proved of a synchronisation, at a source with two stored keys.
use sub_share_go.Tests.Sources.{stored}
use sub_share_go.Common.{
  pos, some, none, ◌∷◌, ◌+◌, [], true, ◌≡◌, refl, inl, arith, ℕ_eq, text, text_eq,
}
use sub_share_go.Common.Result.{Result, err, ok}
use sub_share_go.Table.{lookup, put}
use sub_share_go.Strings.{
  codes, trim_space, trim_left, trim_right, is_space, byte_len, rune_len, to_lower,
}
use sub_share_go.Strings.Bytes.{cut, stray, rune_bytes}
use sub_share_go.Tests.Fixtures.{ascii}
use sub_share_go.Tests.Sources.{
  plain, two_keys, target, incoming, one_key, two_on_one, fingerprint_keys,
}
use sub_share_go.Sources.Items.{
  no_counts, count_items, count_items_from, count_item, count_status, is_compatibility_only,
  is_ambiguous, has_ambiguity_warning, contains_warning_code,
}
use sub_share_go.Sources.Repair.Assignments.{remove_duplicate_row-assigned}
use sub_share_go.Sources.Names.{normalize_key_insert_mode}
use sub_share_go.Sources.Rows.{
  SourceKey, SyncError, update_where, delete_where, exists_where, sql_blank, same_identity,
  source_keys_of,
}
use sub_share_go.Sources.Statements.{
  statement, list_source_keys, set_client_display_name, assigned, assign, assign_users_of,
  merge_user_assignments, unassign, delete_source_key, set_fingerprint, put_secret,
  update_source_key, insert_source_key, assign_all, beside, min_order, max_order, first_sort_order,
  next_sort_order, synced_rows, mark_source_synced,
}
use sub_share_go.Sources.Categories.{
  normalize_key_category, upsert_category, ensure_category, category_id_of, last_sort_order,
}
use sub_share_go.Sources.State.{
  empty_index, ParseResult, SyncState, new_sync_state, index_items, set_status_at, set_item_status,
  sync_label,
}
use sub_share_go.Sources.Repair.{
  key_at, update_key_at, append_index, group_keys, semantic_fingerprint_groups, holding_fingerprint,
  duplicate_survivor_index, first_override, inherit_client_display_name, remove_duplicate_row,
  remove_duplicate_rows, adopt_fingerprint, merge_duplicate_group, merge_groups,
  repair_duplicate_groups,
}
use sub_share_go.Sources.Index.{
  index_legacy_fingerprints, index_key, index_keys, index_existing_keys, count_labels,
  count_incoming_labels,
}
use sub_share_go.Sources.Reconcile.{
  incoming_ref, match_fingerprint, match_label, match_existing, fields_changed, remove_id,
  write_matched, insert_new, key_write, store_key, upsert_parsed_key, upsert_keys, remove_ids,
  remove_unmatched, reconcile,
}
use sub_share_go.Sources.Reconcile.Counted.{reconcile-counted}
use sub_share_go.Sources.Reconcile.Kept.{present}
use sub_share_go.Sources.Reconcile.Survivors.{reconcile_unsure, matched_row_survives}
use sub_share_go.Sources.Statements.KeyStep.{KeySteps}
use sub_share_go.Sources.Statements.Preserved.{others, Increasing}
use sub_share_go.Sources.Sync.Refines.{sync-KeySteps, sync-others}
use sub_share_go.Sources.Sync.{
  with_indexes, first_order, repair, load_target, load_existing, prepare, Synced, finish, sync,
}

abbrev blank_synced : Synced
blank_synced = record {
  db = two_keys;
  result = record { imported = 0; skipped = 0; removed = 0; items = [] };
  counts = no_counts;
}

abbrev synced_of : Result SyncError Synced → Synced
synced_of (err e) = blank_synced
synced_of (ok r) = r

abbrev first_state : ParseResult → SyncState
unfolding new_sync_state
first_state parsed = new_sync_state two_keys target parsed fingerprint_keys

abbrev state_of : SyncState → Result SyncError SyncState → SyncState
state_of s (err e) = s
state_of s (ok t) = t

abbrev ready : ParseResult → SyncState
unfolding text_eq lookup put trim_space trim_left trim_right is_space byte_len rune_len to_lower cut
    stray rune_bytes count_items count_items_from count_item count_status is_compatibility_only
    is_ambiguous has_ambiguity_warning contains_warning_code normalize_key_insert_mode update_where
    delete_where exists_where sql_blank same_identity source_keys_of statement list_source_keys
    set_client_display_name assign assign_users_of merge_user_assignments unassign delete_source_key
    set_fingerprint put_secret update_source_key insert_source_key assign_all beside min_order
    max_order first_sort_order next_sort_order synced_rows mark_source_synced normalize_key_category
    upsert_category ensure_category category_id_of last_sort_order new_sync_state index_items
    set_status_at set_item_status sync_label key_at update_key_at append_index group_keys
    semantic_fingerprint_groups holding_fingerprint duplicate_survivor_index first_override
    inherit_client_display_name remove_duplicate_row remove_duplicate_rows adopt_fingerprint
    merge_duplicate_group merge_groups repair_duplicate_groups index_legacy_fingerprints index_key
    index_keys index_existing_keys count_labels count_incoming_labels incoming_ref match_fingerprint
    match_label match_existing fields_changed remove_id write_matched insert_new key_write store_key
    upsert_parsed_key upsert_keys remove_ids remove_unmatched reconcile with_indexes first_order
    repair load_target load_existing prepare finish sync
ready parsed = state_of (first_state parsed) (prepare (first_state parsed))

abbrev reconciled : ParseResult → SyncState
unfolding text_eq lookup put trim_space trim_left trim_right is_space byte_len rune_len to_lower cut
    stray rune_bytes count_items count_items_from count_item count_status is_compatibility_only
    is_ambiguous has_ambiguity_warning contains_warning_code normalize_key_insert_mode update_where
    delete_where exists_where sql_blank same_identity source_keys_of statement list_source_keys
    set_client_display_name assign assign_users_of merge_user_assignments unassign delete_source_key
    set_fingerprint put_secret update_source_key insert_source_key assign_all beside min_order
    max_order first_sort_order next_sort_order synced_rows mark_source_synced normalize_key_category
    upsert_category ensure_category category_id_of last_sort_order new_sync_state index_items
    set_status_at set_item_status sync_label key_at update_key_at append_index group_keys
    semantic_fingerprint_groups holding_fingerprint duplicate_survivor_index first_override
    inherit_client_display_name remove_duplicate_row remove_duplicate_rows adopt_fingerprint
    merge_duplicate_group merge_groups repair_duplicate_groups index_legacy_fingerprints index_key
    index_keys index_existing_keys count_labels count_incoming_labels incoming_ref match_fingerprint
    match_label match_existing fields_changed remove_id write_matched insert_new key_write store_key
    upsert_parsed_key upsert_keys remove_ids remove_unmatched reconcile with_indexes first_order
    repair load_target load_existing prepare finish sync
reconciled parsed = state_of (first_state parsed) (reconcile (ready parsed))

-- one item of the feed could not be read
abbrev unsure_feed : ParseResult
unsure_feed = record one_key { counts = record no_counts { rejected = 1 } }

two_keys-Increasing : Increasing two_keys.keys two_keys.next_key_id
two_keys-Increasing = (
  omega arith,
  (omega arith, (omega arith, tt)),
  (omega arith, (omega arith, tt), (omega arith, tt, tt)),
)

sync-KeySteps_example :
    KeySteps 7 two_keys (synced_of (sync two_keys target one_key fingerprint_keys)).db
unfolding text_eq lookup put trim_space trim_left trim_right is_space byte_len rune_len to_lower cut
    stray rune_bytes count_items count_items_from count_item count_status is_compatibility_only
    is_ambiguous has_ambiguity_warning contains_warning_code normalize_key_insert_mode update_where
    delete_where exists_where sql_blank same_identity source_keys_of statement list_source_keys
    set_client_display_name assign assign_users_of merge_user_assignments unassign delete_source_key
    set_fingerprint put_secret update_source_key insert_source_key assign_all beside min_order
    max_order first_sort_order next_sort_order synced_rows mark_source_synced normalize_key_category
    upsert_category ensure_category category_id_of last_sort_order new_sync_state index_items
    set_status_at set_item_status sync_label key_at update_key_at append_index group_keys
    semantic_fingerprint_groups holding_fingerprint duplicate_survivor_index first_override
    inherit_client_display_name remove_duplicate_row remove_duplicate_rows adopt_fingerprint
    merge_duplicate_group merge_groups repair_duplicate_groups index_legacy_fingerprints index_key
    index_keys index_existing_keys count_labels count_incoming_labels incoming_ref match_fingerprint
    match_label match_existing fields_changed remove_id write_matched insert_new key_write store_key
    upsert_parsed_key upsert_keys remove_ids remove_unmatched reconcile with_indexes first_order
    repair load_target load_existing prepare finish sync
sync-KeySteps_example =
    sync-KeySteps two_keys target one_key fingerprint_keys
      (synced_of (sync two_keys target one_key fingerprint_keys)) two_keys-Increasing refl

sync-others_example :
    let r = synced_of (sync two_keys target one_key fingerprint_keys) in
    (others 7 r.db.keys ≡ others 7 two_keys.keys) × Increasing r.db.keys r.db.next_key_id
unfolding text_eq lookup put trim_space trim_left trim_right is_space byte_len rune_len to_lower cut
    stray rune_bytes count_items count_items_from count_item count_status is_compatibility_only
    is_ambiguous has_ambiguity_warning contains_warning_code normalize_key_insert_mode update_where
    delete_where exists_where sql_blank same_identity source_keys_of statement list_source_keys
    set_client_display_name assign assign_users_of merge_user_assignments unassign delete_source_key
    set_fingerprint put_secret update_source_key insert_source_key assign_all beside min_order
    max_order first_sort_order next_sort_order synced_rows mark_source_synced normalize_key_category
    upsert_category ensure_category category_id_of last_sort_order new_sync_state index_items
    set_status_at set_item_status sync_label key_at update_key_at append_index group_keys
    semantic_fingerprint_groups holding_fingerprint duplicate_survivor_index first_override
    inherit_client_display_name remove_duplicate_row remove_duplicate_rows adopt_fingerprint
    merge_duplicate_group merge_groups repair_duplicate_groups index_legacy_fingerprints index_key
    index_keys index_existing_keys count_labels count_incoming_labels incoming_ref match_fingerprint
    match_label match_existing fields_changed remove_id write_matched insert_new key_write store_key
    upsert_parsed_key upsert_keys remove_ids remove_unmatched reconcile with_indexes first_order
    repair load_target load_existing prepare finish sync
sync-others_example =
    sync-others two_keys target one_key fingerprint_keys
      (synced_of (sync two_keys target one_key fingerprint_keys)) two_keys-Increasing refl

reconcile_unsure_example :
    (present 7 2 (reconciled unsure_feed).db ≡ true) × ((reconciled unsure_feed).result.removed ≡ 0)
unfolding text_eq lookup put trim_space trim_left trim_right is_space byte_len rune_len to_lower cut
    stray rune_bytes count_items count_items_from count_item count_status is_compatibility_only
    is_ambiguous has_ambiguity_warning contains_warning_code normalize_key_insert_mode update_where
    delete_where exists_where sql_blank same_identity source_keys_of statement list_source_keys
    set_client_display_name assign assign_users_of merge_user_assignments unassign delete_source_key
    set_fingerprint put_secret update_source_key insert_source_key assign_all beside min_order
    max_order first_sort_order next_sort_order synced_rows mark_source_synced normalize_key_category
    upsert_category ensure_category category_id_of last_sort_order new_sync_state index_items
    set_status_at set_item_status sync_label key_at update_key_at append_index group_keys
    semantic_fingerprint_groups holding_fingerprint duplicate_survivor_index first_override
    inherit_client_display_name remove_duplicate_row remove_duplicate_rows adopt_fingerprint
    merge_duplicate_group merge_groups repair_duplicate_groups index_legacy_fingerprints index_key
    index_keys index_existing_keys count_labels count_incoming_labels incoming_ref match_fingerprint
    match_label match_existing fields_changed remove_id write_matched insert_new key_write store_key
    upsert_parsed_key upsert_keys remove_ids remove_unmatched reconcile with_indexes first_order
    repair load_target load_existing prepare finish sync
reconcile_unsure_example =
    reconcile_unsure (ready unsure_feed) (reconciled unsure_feed) 2 refl
      (inl (λ e. omega (arith, e))) refl

reconcile-counted_example :
    (reconciled two_on_one).result.imported + (reconciled two_on_one).result.skipped ≡ 2
unfolding text_eq lookup put trim_space trim_left trim_right is_space byte_len rune_len to_lower cut
    stray rune_bytes count_items count_items_from count_item count_status is_compatibility_only
    is_ambiguous has_ambiguity_warning contains_warning_code normalize_key_insert_mode update_where
    delete_where exists_where sql_blank same_identity source_keys_of statement list_source_keys
    set_client_display_name assign assign_users_of merge_user_assignments unassign delete_source_key
    set_fingerprint put_secret update_source_key insert_source_key assign_all beside min_order
    max_order first_sort_order next_sort_order synced_rows mark_source_synced normalize_key_category
    upsert_category ensure_category category_id_of last_sort_order new_sync_state index_items
    set_status_at set_item_status sync_label key_at update_key_at append_index group_keys
    semantic_fingerprint_groups holding_fingerprint duplicate_survivor_index first_override
    inherit_client_display_name remove_duplicate_row remove_duplicate_rows adopt_fingerprint
    merge_duplicate_group merge_groups repair_duplicate_groups index_legacy_fingerprints index_key
    index_keys index_existing_keys count_labels count_incoming_labels incoming_ref match_fingerprint
    match_label match_existing fields_changed remove_id write_matched insert_new key_write store_key
    upsert_parsed_key upsert_keys remove_ids remove_unmatched reconcile with_indexes first_order
    repair load_target load_existing prepare finish sync
reconcile-counted_example = reconcile-counted (ready two_on_one) (reconciled two_on_one) refl

abbrev key_one : SourceKey
key_one = record {
  id = 1;
  ref = codes "a";
  fingerprint = codes "f1";
  label = codes "A";
  client_display_name = [];
  url = codes "vless://old";
  protocol = codes "vless";
  profile_schema_version = 1;
  compatibility = codes "full";
  warnings_json = [];
}

matched_row_survives_example : present 7 1 (reconciled one_key).db ≡ true
unfolding text_eq lookup put trim_space trim_left trim_right is_space byte_len rune_len to_lower cut
    stray rune_bytes count_items count_items_from count_item count_status is_compatibility_only
    is_ambiguous has_ambiguity_warning contains_warning_code normalize_key_insert_mode update_where
    delete_where exists_where sql_blank same_identity source_keys_of statement list_source_keys
    set_client_display_name assign assign_users_of merge_user_assignments unassign delete_source_key
    set_fingerprint put_secret update_source_key insert_source_key assign_all beside min_order
    max_order first_sort_order next_sort_order synced_rows mark_source_synced normalize_key_category
    upsert_category ensure_category category_id_of last_sort_order new_sync_state index_items
    set_status_at set_item_status sync_label key_at update_key_at append_index group_keys
    semantic_fingerprint_groups holding_fingerprint duplicate_survivor_index first_override
    inherit_client_display_name remove_duplicate_row remove_duplicate_rows adopt_fingerprint
    merge_duplicate_group merge_groups repair_duplicate_groups index_legacy_fingerprints index_key
    index_keys index_existing_keys count_labels count_incoming_labels incoming_ref match_fingerprint
    match_label match_existing fields_changed remove_id write_matched insert_new key_write store_key
    upsert_parsed_key upsert_keys remove_ids remove_unmatched reconcile with_indexes first_order
    repair load_target load_existing prepare finish sync
matched_row_survives_example =
    matched_row_survives 0 (incoming (codes "a") (codes "f1") (codes "vless://new")) []
      (ready one_key) (reconciled one_key) key_one (λ ids id h. h) refl refl refl refl refl

remove_duplicate_row-assigned_example :
    let s = ready one_key in
    assigned 6 1 (state_of s (remove_duplicate_row 1 2 s)).db.assignments ≡ true
unfolding text_eq lookup put trim_space trim_left trim_right is_space byte_len rune_len to_lower cut
    stray rune_bytes count_items count_items_from count_item count_status is_compatibility_only
    is_ambiguous has_ambiguity_warning contains_warning_code normalize_key_insert_mode update_where
    delete_where exists_where sql_blank same_identity source_keys_of statement list_source_keys
    set_client_display_name assign assign_users_of merge_user_assignments unassign delete_source_key
    set_fingerprint put_secret update_source_key insert_source_key assign_all beside min_order
    max_order first_sort_order next_sort_order synced_rows mark_source_synced normalize_key_category
    upsert_category ensure_category category_id_of last_sort_order new_sync_state index_items
    set_status_at set_item_status sync_label key_at update_key_at append_index group_keys
    semantic_fingerprint_groups holding_fingerprint duplicate_survivor_index first_override
    inherit_client_display_name remove_duplicate_row remove_duplicate_rows adopt_fingerprint
    merge_duplicate_group merge_groups repair_duplicate_groups index_legacy_fingerprints index_key
    index_keys index_existing_keys count_labels count_incoming_labels incoming_ref match_fingerprint
    match_label match_existing fields_changed remove_id write_matched insert_new key_write store_key
    upsert_parsed_key upsert_keys remove_ids remove_unmatched reconcile with_indexes first_order
    repair load_target load_existing prepare finish sync
remove_duplicate_row-assigned_example =
    remove_duplicate_row-assigned 1 2 (ready one_key)
      (state_of (ready one_key) (remove_duplicate_row 1 2 (ready one_key))) 6 1 refl refl refl

-- a source that has no key yet, beside one that has a key at position 4
abbrev before_feed : SyncState
before_feed = record (ready one_key) {
  target_category_id = none;
  existing = empty_index;
  db = record two_keys { keys = stored 5 (some 9) [] [] [] (pos 4) ∷ []; next_key_id = 6 };
}

abbrev chosen : SyncState
chosen = state_of before_feed (first_order before_feed)
