-- ===== src/Sources/Statements.antt =====
-- internal/storage/source_keys.go and category_store.go: the statements of a synchronisation, each
-- with the unique indexes and the cascade of the schema.

pub mod KeyStep
pub mod Preserved
pub mod SortOrder
pub mod Positions
pub mod Owned
use sub_share_go.Common.{
  ℕ, zero, suc, ◌+◌, List, [], ◌∷◌, ◌++◌, Option, none, some, Bool, true, false, not, ◌&&◌, ◌||◌, ℤ,
  pos, int_succ, int_minus, int_leb, above, nat_eq, ltb, if◌then◌else◌, text, ◌==◌,
}
use sub_share_go.Common.Result.{Result, err, ok, ◌>>=◌}
use sub_share_go.Strings.{Text, codes, trim_space, is_empty}
use sub_share_go.Sources.Rows.{
  SourceKeyRow, SourceKey, SourceKeyWrite, AssignedKey, CategoryRow, SourceSyncMetadata, SourceRow,
  Database, SyncError, no_keys_to_import, profile_fingerprint_key_unavailable, database_failure,
  duplicate_source_key, owned, is_row, update_where, delete_where, exists_where, sql_blank,
  same_identity, taken, to_source_key, source_keys_of,
}

-- a statement that fails changes nothing
unfoldable pub statement : (Database → Database) → Database → Result SyncError Database
statement change db =
    if db.fails db.clock
    then err database_failure
    else ok (change (record db { clock = suc db.clock }))

unfoldable pub list_source_keys : ℕ → Database → Result SyncError (Database × List SourceKey)
list_source_keys source db =
    statement (λ d. d) db >>= λ db'. ok (db', source_keys_of source db'.keys)

-- a change of the rows of `vless_keys`
abbrev pub with_keys : (List SourceKeyRow → List SourceKeyRow) → Database → Database
with_keys change db = record db { keys = change db.keys }

abbrev pub with_display_name : Text → SourceKeyRow → SourceKeyRow
with_display_name name row = record row { client_display_name = name }

unfoldable pub set_client_display_name : ℕ → ℕ → Text → Database → Result SyncError Database
set_client_display_name source id name =
    statement (with_keys (update_where (is_row source id) (with_display_name name)))

abbrev pub assigned : ℕ → ℕ → List AssignedKey → Bool
assigned user key [] = false
assigned user key (a ∷ rest) =
    (nat_eq a.user_id user && nat_eq a.key_id key) || assigned user key rest

-- INSERT OR IGNORE INTO user_keys
unfoldable pub assign : ℕ → ℕ → List AssignedKey → List AssignedKey
assign user key all =
    if assigned user key all then all else all ++ record { user_id = user; key_id = key } ∷ []

-- the users of `duplicate` in `rows`, given the key `survivor`
unfoldable pub assign_users_of : ℕ → ℕ → List AssignedKey → List AssignedKey → List AssignedKey
assign_users_of survivor duplicate [] all = all
assign_users_of survivor duplicate (a ∷ rows) all =
    assign_users_of survivor duplicate rows
      (if nat_eq a.key_id duplicate then assign a.user_id survivor all else all)

unfoldable pub merge_user_assignments : ℕ → ℕ → Database → Result SyncError Database
merge_user_assignments survivor duplicate = statement λ db. record db {
  assignments = assign_users_of survivor duplicate db.assignments db.assignments;
}

unfoldable pub unassign : ℕ → List AssignedKey → List AssignedKey
unassign key [] = []
unassign key (a ∷ rest) =
    let rest' = unassign key rest in if nat_eq a.key_id key then rest' else a ∷ rest'

-- the deletion of a key cascades to `user_keys`
unfoldable pub delete_source_key : ℕ → ℕ → Database → Result SyncError Database
delete_source_key source id = statement λ db. record db {
  keys = delete_where (is_row source id) db.keys;
  assignments =
      if exists_where (is_row source id) db.keys
      then unassign id db.assignments
      else db.assignments;
}

abbrev pub with_fingerprint : Text → SourceKeyRow → SourceKeyRow
with_fingerprint fingerprint row = record row { fingerprint = fingerprint }

abbrev pub fingerprint_taken : ℕ → ℕ → Text → SourceKeyRow → Bool
fingerprint_taken source id fingerprint row =
    not (nat_eq row.id id)
    && (owned source row && (not (sql_blank fingerprint) && row.fingerprint == fingerprint))

unfoldable pub set_fingerprint : ℕ → ℕ → Text → Database → Result SyncError Database
set_fingerprint source id fingerprint db =
    if exists_where (is_row source id) db.keys
      && exists_where (fingerprint_taken source id fingerprint) db.keys
    then err database_failure
    else statement (with_keys (update_where (is_row source id) (with_fingerprint fingerprint))) db

-- the columns that `UpdateSourceKey` sets, and the secret
abbrev pub rewritten : SourceKeyWrite → SourceKeyRow → SourceKeyRow
rewritten w row = record row {
  source_id = some w.source_id;
  ref = w.ref;
  fingerprint = w.fingerprint;
  label = w.label;
  category_id = w.category_id;
  category = w.category;
  sort_order = w.sort_order;
  protocol = w.protocol;
  profile_schema_version = w.profile_schema_version;
  compatibility = w.compatibility;
  warnings_json = w.warnings_json;
}

abbrev pub with_url : Text → SourceKeyRow → SourceKeyRow
with_url url row = record row { url = url }

abbrev pub has_id : ℕ → SourceKeyRow → Bool
has_id id row = nat_eq row.id id

-- the upsert of a secret, which is by the id of the key alone; the key must exist, whosever it is
unfoldable pub put_secret : ℕ → Text → Database → Result SyncError Database
put_secret id url db =
    if exists_where (has_id id) db.keys
    then statement (with_keys (update_where (has_id id) (with_url url))) db
    else err database_failure

-- the UPDATE, the encryption and the upsert of the secret
unfoldable pub update_source_key : ℕ → SourceKeyWrite → Database → Result SyncError Database
update_source_key id w db =
    if exists_where (is_row w.source_id id) db.keys
      && exists_where (taken w.source_id id w.ref w.fingerprint) db.keys
    then err database_failure
    else statement (with_keys (update_where (is_row w.source_id id) (rewritten w))) db
      >>= statement (λ d. d)
      >>= put_secret id w.url

abbrev pub new_row : ℕ → SourceKeyWrite → SourceKeyRow
new_row id w = record {
  id = id;
  source_id = some w.source_id;
  ref = w.ref;
  fingerprint = w.fingerprint;
  label = w.label;
  client_display_name = [];
  status = w.status;
  category_id = w.category_id;
  category = w.category;
  sort_order = w.sort_order;
  protocol = w.protocol;
  profile_schema_version = w.profile_schema_version;
  compatibility = w.compatibility;
  warnings_json = w.warnings_json;
  url = w.url;
}

unfoldable pub assign_all : ℕ → List ℕ → List AssignedKey → List AssignedKey
assign_all key [] all = all
assign_all key (user ∷ users) all = assign_all key users (assign user key all)

abbrev pub inserted : SourceKeyWrite → Database → Database
inserted w db = record db {
  keys = db.keys ++ new_row db.next_key_id w ∷ [];
  next_key_id = suc db.next_key_id;
  assignments = assign_all db.next_key_id db.users_of_all db.assignments;
}

-- the INSERT, the encryption, the secret and the assignments
unfoldable pub insert_source_key : SourceKeyWrite → Database → Result SyncError Database
insert_source_key w db =
    if exists_where (same_identity w.source_id w.ref w.fingerprint) db.keys
    then err duplicate_source_key
    else statement (λ d. d) db
      >>= statement (λ d. d)
      >>= statement (λ d. d)
      >>= statement (inserted w)

-- `category_id IS ? AND external_source_id != ?`: no row matches whose source is NULL
abbrev pub same_category : Option ℕ → Option ℕ → Bool
same_category none none = true
same_category (some a) (some b) = nat_eq a b
same_category _ _ = false

unfoldable pub beside : Option ℕ → ℕ → SourceKeyRow → Bool
beside category source row =
    same_category row.category_id category
    && elim row.source_id [ none ↦ false | some s ↦ not (nat_eq s source) ]

unfoldable pub min_order : Option ℕ → ℕ → List SourceKeyRow → Option ℤ
min_order category source [] = none
min_order category source (row ∷ rows) =
    let rest = min_order category source rows in
    if beside category source row
    then elim rest [
      | none ↦ some row.sort_order
      | some least ↦ some (if int_leb row.sort_order least then row.sort_order else least)
    ]
    else rest

unfoldable pub max_order : Option ℕ → ℕ → List SourceKeyRow → Option ℤ
max_order category source [] = none
max_order category source (row ∷ rows) =
    let rest = max_order category source rows in
    if beside category source row
    then elim rest [
      | none ↦ some row.sort_order
      | some most ↦ some (if int_leb most row.sort_order then row.sort_order else most)
    ]
    else rest

abbrev pub or_else : Option ℤ → ℤ → ℤ
or_else none x = x
or_else (some a) x = a

unfoldable pub first_sort_order : Option ℕ → ℕ → Bool → ℕ → List SourceKeyRow → ℤ
first_sort_order category source top incoming rows =
    if top
    then int_minus (or_else (min_order category source rows) (pos 1)) (incoming + 8)
    else int_succ (or_else (max_order category source rows) (pos 0))

unfoldable pub next_sort_order :
    Option ℕ → ℕ → Bool → ℕ → Database → Result SyncError (Database × ℤ)
next_sort_order category source top incoming db = statement (λ d. d) db >>= λ db'.
    ok (db', first_sort_order category source top incoming db'.keys)

-- `nullStringValue` and `nullInt64Value`, read back through COALESCE
abbrev pub stored_meta : SourceSyncMetadata → SourceSyncMetadata
stored_meta meta = record meta {
  refresh_hours = if above meta.refresh_hours 0 then meta.refresh_hours else pos 0;
}

unfoldable pub synced_rows : ℕ → ℕ → SourceSyncMetadata → List SourceRow → List SourceRow
synced_rows source imported meta [] = []
synced_rows source imported meta (row ∷ rows) =
    (if nat_eq row.id source
      then record row {
        import_status = codes "ok";
        last_error = none;
        last_import_count = imported;
        meta = stored_meta meta;
      }
      else row)
    ∷ synced_rows source imported meta rows

unfoldable pub mark_source_synced :
    ℕ → ℕ → SourceSyncMetadata → Database → Result SyncError Database
mark_source_synced source imported meta =
    statement λ db. record db { sources = synced_rows source imported meta db.sources }
