-- ===== src/Sources/Repair.antt =====
-- internal/sources/sync.go: the repair of rows that hold the same profile twice. One row of a group
-- survives, with the assignments of the others.
pub mod Assignments
pub mod Kept
use sub_share_go.Common.{
  ℕ, zero, suc, ◌+◌, List, [], ◌∷◌, ◌++◌, Option, none, some, Bool, true, false, not, ltb, nat_eq,
  length, if◌then◌else◌, text, ◌==◌,
}
use sub_share_go.Common.Result.{Result, err, ok, ◌>>=◌}
use sub_share_go.Table.{Table, lookup, put}
use sub_share_go.Strings.{Text, trim_space, is_empty}
use sub_share_go.Sources.Rows.{SourceKey, SyncError, Database}
use sub_share_go.Sources.Statements.{
  set_client_display_name, merge_user_assignments, delete_source_key, set_fingerprint,
}
use sub_share_go.Sources.State.{ProfileIdentity, SyncState}

-- an index of a group is always in range; past the end there is nothing to read
abbrev pub no_key : SourceKey
no_key = record {
  id = 0;
  ref = [];
  fingerprint = [];
  label = [];
  client_display_name = [];
  url = [];
  protocol = [];
  profile_schema_version = 0;
  compatibility = [];
  warnings_json = [];
}

unfoldable pub key_at : ℕ → List SourceKey → SourceKey
key_at index [] = no_key
key_at zero (key ∷ keys) = key
key_at (suc index) (key ∷ keys) = key_at index keys

unfoldable pub update_key_at : ℕ → (SourceKey → SourceKey) → List SourceKey → List SourceKey
update_key_at index change [] = []
update_key_at zero change (key ∷ keys) = change key ∷ keys
update_key_at (suc index) change (key ∷ keys) = key ∷ update_key_at index change keys

-- `groups[fingerprint] = append(groups[fingerprint], index)`
unfoldable pub append_index : Text → ℕ → Table Text (List ℕ) → Table Text (List ℕ)
append_index fingerprint index groups = elim (lookup fingerprint groups) [
  | none ↦ put fingerprint (index ∷ []) groups
  | some indexes ↦ put fingerprint (indexes ++ index ∷ []) groups
]

unfoldable pub group_keys :
    ⦃p : ProfileIdentity⦄ → Text → ℕ → List SourceKey → Table Text (List ℕ) → Table Text (List ℕ)
group_keys fingerprint_key index [] groups = groups
group_keys ⦃p⦄ fingerprint_key index (key ∷ keys) groups =
    let grouped : Table Text (List ℕ) = elim (p.semantic_fingerprint key.url fingerprint_key) [
      | none ↦ groups
      | some fingerprint ↦ append_index fingerprint index groups
    ] in
    group_keys fingerprint_key (suc index) keys (if is_empty key.url then groups else grouped)

unfoldable pub semantic_fingerprint_groups :
    ⦃p : ProfileIdentity⦄ → Text → List SourceKey → Table Text (List ℕ)
semantic_fingerprint_groups fingerprint_key keys = group_keys fingerprint_key 0 keys []

-- the loop of `duplicateSurvivorIndex`
unfoldable pub holding_fingerprint : Text → List SourceKey → List ℕ → Option ℕ
holding_fingerprint fingerprint keys [] = none
holding_fingerprint fingerprint keys (index ∷ indexes) =
    if (key_at index keys).fingerprint == fingerprint
    then some index
    else holding_fingerprint fingerprint keys indexes

abbrev pub first_index : List ℕ → ℕ
first_index [] = 0
first_index (index ∷ indexes) = index

unfoldable pub duplicate_survivor_index : Text → List SourceKey → List ℕ → ℕ
duplicate_survivor_index fingerprint keys indexes =
    elim (holding_fingerprint fingerprint keys indexes) [
      | none ↦ first_index indexes
      | some index ↦ index
    ]

-- the first display name of the group
unfoldable pub first_override : List SourceKey → List ℕ → Text
first_override keys [] = []
first_override keys (index ∷ indexes) =
    let override = trim_space (key_at index keys).client_display_name in
    let rest = first_override keys indexes in if is_empty override then rest else override

abbrev pub named : Text → SourceKey → SourceKey
named override key = record key { client_display_name = override }

unfoldable pub inherit_client_display_name : ℕ → List ℕ → SyncState → Result SyncError SyncState
inherit_client_display_name survivor indexes s =
    let key = key_at survivor s.existing_keys in
    let override = first_override s.existing_keys indexes in
    if not (is_empty (trim_space key.client_display_name))
    then ok s
    else if is_empty override
    then ok s
    else set_client_display_name s.source.id key.id override s.db >>= λ db. ok (record s {
      db = db;
      existing_keys = update_key_at survivor (named override) s.existing_keys;
    })

abbrev pub one_removed : ℕ → Database → SyncState → SyncState
one_removed id db s = record s {
  db = db;
  removed_duplicate_ids = id ∷ s.removed_duplicate_ids;
  result = record {
    imported = s.result.imported;
    skipped = s.result.skipped;
    removed = suc s.result.removed;
    items = s.result.items;
  };
}

unfoldable pub remove_duplicate_row : ℕ → ℕ → SyncState → Result SyncError SyncState
remove_duplicate_row survivor_id duplicate_id s =
    if nat_eq duplicate_id survivor_id
    then ok s
    else merge_user_assignments survivor_id duplicate_id s.db
      >>= delete_source_key s.source.id duplicate_id
      >>= λ db. ok (one_removed duplicate_id db s)

-- the loop of `mergeDuplicateGroup`
unfoldable pub remove_duplicate_rows : ℕ → List ℕ → SyncState → Result SyncError SyncState
remove_duplicate_rows survivor_id [] s = ok s
remove_duplicate_rows survivor_id (index ∷ indexes) s =
    remove_duplicate_row survivor_id (key_at index s.existing_keys).id s
    >>= remove_duplicate_rows survivor_id indexes

abbrev pub fingerprinted : Text → SourceKey → SourceKey
fingerprinted fingerprint key = record key { fingerprint = fingerprint }

unfoldable pub adopt_fingerprint : Text → ℕ → SyncState → Result SyncError SyncState
adopt_fingerprint fingerprint survivor s =
    let key = key_at survivor s.existing_keys in
    if key.fingerprint == fingerprint
    then ok s
    else set_fingerprint s.source.id key.id fingerprint s.db >>= λ db. ok (record s {
      db = db;
      existing_keys = update_key_at survivor (fingerprinted fingerprint) s.existing_keys;
    })

unfoldable pub merge_duplicate_group : Text → List ℕ → SyncState → Result SyncError SyncState
merge_duplicate_group fingerprint indexes s =
    let survivor = duplicate_survivor_index fingerprint s.existing_keys indexes in
    let survivor_id = (key_at survivor s.existing_keys).id in
    inherit_client_display_name survivor indexes s
    >>= remove_duplicate_rows survivor_id indexes
    >>= adopt_fingerprint fingerprint survivor

unfoldable pub merge_groups : Table Text (List ℕ) → SyncState → Result SyncError SyncState
merge_groups [] s = ok s
merge_groups ((fingerprint, indexes) ∷ groups) s =
    if ltb (length indexes) 2
    then merge_groups groups s
    else merge_duplicate_group fingerprint indexes s >>= merge_groups groups

unfoldable pub repair_duplicate_groups :
    ⦃p : ProfileIdentity⦄ → Text → SyncState → Result SyncError SyncState
repair_duplicate_groups ⦃p⦄ fingerprint_key s =
    merge_groups (p.visit_groups (semantic_fingerprint_groups fingerprint_key s.existing_keys)) s
