-- ===== src/Sources/Rows.antt =====
-- internal/storage/source_keys.go and category_store.go: the tables that a synchronisation reads and
-- writes. A table lists its rows by primary key. `fails` says which statements of the transaction
-- fail; `clock` counts them. A stored secret is the text that it
-- decrypts to, the empty text when there is none. The columns that every write sets to a constant
-- (`check_status`, `key_kind`, `template_text`), the triggers that set `category` to the
-- name of `category_id`, and the time stamps are left out.
use sub_share_go.Common.{
  ℕ, List, [], ◌∷◌, Option, none, some, Bool, true, false, not, ◌&&◌, ◌||◌, ℤ, nat_eq,
  if◌then◌else◌, text, ◌==◌,
}
use sub_share_go.Strings.{Text, trim_space}

-- a row of `vless_keys` with its secret
pub record SourceKeyRow : Type 0 where
  pub id : ℕ
  pub source_id : Option ℕ
  pub ref : Text
  pub fingerprint : Text
  pub label : Text
  pub client_display_name : Text
  pub status : Text
  pub category_id : Option ℕ
  pub category : Text
  pub sort_order : ℤ
  pub protocol : Text
  pub profile_schema_version : ℕ
  pub compatibility : Text
  pub warnings_json : Text
  pub url : Text

-- `SourceKey`
pub record SourceKey : Type 0 where
  pub id : ℕ
  pub ref : Text
  pub fingerprint : Text
  pub label : Text
  pub client_display_name : Text
  pub url : Text
  pub protocol : Text
  pub profile_schema_version : ℕ
  pub compatibility : Text
  pub warnings_json : Text

-- `SourceKeyWrite`
pub record SourceKeyWrite : Type 0 where
  pub source_id : ℕ
  pub ref : Text
  pub label : Text
  pub category_id : Option ℕ
  pub category : Text
  pub status : Text
  pub sort_order : ℤ
  pub protocol : Text
  pub fingerprint : Text
  pub profile_schema_version : ℕ
  pub compatibility : Text
  pub warnings_json : Text
  pub url : Text

-- a row of `user_keys`
pub record AssignedKey : Type 0 where
  pub user_id : ℕ
  pub key_id : ℕ

-- a row of `key_categories`
pub record CategoryRow : Type 0 where
  pub id : ℕ
  pub name : Text
  pub color : Text
  pub sort_order : ℕ

-- `SourceSyncMetadata`
pub record SourceSyncMetadata : Type 0 where
  pub title : Text
  pub refresh_hours : ℤ
  pub support_url : Text
  pub web_page_url : Text
  pub announce : Text

-- `SourceSyncTargetState`
pub record TargetState : Type 0 where
  pub url : Text
  pub key_category : Text
  pub key_insert_mode : Text
  pub pass_hwid : Bool
  pub hwid_version : Text
  pub hwid_model_name : Text
  pub hwid_value : Text
  pub enabled : Bool

-- a row of `external_subscription_sources`: what a synchronisation reads and what it sets
pub record SourceRow : Type 0 where
  pub id : ℕ
  pub inputs : TargetState
  pub import_status : Text
  pub last_error : Option Text
  pub last_import_count : ℕ
  pub meta : SourceSyncMetadata

pub record Database : Type 0 where
  pub keys : List SourceKeyRow
  pub next_key_id : ℕ
  pub assignments : List AssignedKey
  -- the users whose `key_assignment_mode` is `all`
  pub users_of_all : List ℕ
  pub categories : List CategoryRow
  pub next_category_id : ℕ
  pub sources : List SourceRow
  pub clock : ℕ
  pub fails : ℕ → Bool

pub data SyncError : Type 0 where
  no_keys_to_import profile_fingerprint_key_unavailable : SyncError
  database_failure duplicate_source_key : SyncError

abbrev pub owned : ℕ → SourceKeyRow → Bool
owned source row = elim row.source_id [ none ↦ false | some s ↦ nat_eq s source ]

-- WHERE id = ? AND external_source_id = ?
abbrev pub is_row : ℕ → ℕ → SourceKeyRow → Bool
is_row source id row = nat_eq row.id id && owned source row

unfoldable pub update_where :
    (SourceKeyRow → Bool) → (SourceKeyRow → SourceKeyRow) → List SourceKeyRow → List SourceKeyRow
update_where test change [] = []
update_where test change (row ∷ rows) =
    (if test row then change row else row) ∷ update_where test change rows

unfoldable pub delete_where : (SourceKeyRow → Bool) → List SourceKeyRow → List SourceKeyRow
delete_where test [] = []
delete_where test (row ∷ rows) =
    let rest = delete_where test rows in if test row then rest else row ∷ rest

unfoldable pub exists_where : (SourceKeyRow → Bool) → List SourceKeyRow → Bool
exists_where test [] = false
exists_where test (row ∷ rows) = test row || exists_where test rows

-- SQLite's TRIM(x) = ''
unfoldable pub sql_blank : Text → Bool
sql_blank [] = true
sql_blank (c ∷ s) = nat_eq c 32 && sql_blank s

-- the two unique indexes on the keys of a source: its refs, and its fingerprints that are not blank
unfoldable pub same_identity : ℕ → Text → Text → SourceKeyRow → Bool
same_identity source ref fingerprint row =
    owned source row
    && (row.ref == ref || (not (sql_blank fingerprint) && row.fingerprint == fingerprint))

-- the test of a unique index on a row that is written over the row `id`
abbrev pub taken : ℕ → ℕ → Text → Text → SourceKeyRow → Bool
taken source id ref fingerprint row =
    not (nat_eq row.id id) && same_identity source ref fingerprint row

abbrev pub to_source_key : SourceKeyRow → SourceKey
to_source_key row = record {
  id = row.id;
  ref = trim_space row.ref;
  fingerprint = trim_space row.fingerprint;
  label = row.label;
  client_display_name = row.client_display_name;
  url = row.url;
  protocol = row.protocol;
  profile_schema_version = row.profile_schema_version;
  compatibility = row.compatibility;
  warnings_json = row.warnings_json;
}

unfoldable pub source_keys_of : ℕ → List SourceKeyRow → List SourceKey
source_keys_of source [] = []
source_keys_of source (row ∷ rows) =
    let rest = source_keys_of source rows in
    if owned source row then to_source_key row ∷ rest else rest
