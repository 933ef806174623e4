-- ===== src/Sources/Leases.antt =====
-- cmd/server/source_fetch_ownership.go and internal/storage/source_sync_target.go: a fetch takes its
-- source over from the fetch before it, and only the owner publishes. Each function holds the mutex,
-- so calls follow one another; other requests may still write the table of sources between two
-- statements, which `edit` stands for.
pub mod Stale
pub mod Published
pub mod Marked
use Prim.Native.Nat.{◌%◌, ◌^◌}
use sub_share_go.Common.{
  ℕ, zero, suc, ◌+◌, List, [], ◌∷◌, Option, none, some, Bool, true, false, not, ◌&&◌, ◌||◌, nat_eq,
  if◌then◌else◌, text, ◌==◌, ℕ_eq,
}
use sub_share_go.Common.Result.{Result, err, ok, ◌>>=◌}
use sub_share_go.Table.{Table, lookup, put, delete}
use sub_share_go.Strings.{Text, Unicode, codes, trim_space, to_lower, is_empty}
use sub_share_go.Sources.Rows.{TargetState, SourceRow, Database, SyncError}
use sub_share_go.Sources.State.{ProfileIdentity, SyncTarget, ParseResult}
use sub_share_go.Sources.Sync.{Synced, sync}
use sub_share_go.Sources.Hwid.{HwidProfile, normalize_hwid_profile, same_flag, same_profile}

-- `sourceFetchLease`
pub record SourceFetchLease : Type 0 where
  pub source_id : ℕ
  pub sequence : ℕ
  pub url : Text
  pub hwid : HwidProfile

-- of `App`: the database, `sourceFetchSequence` and `sourceFetchOwners`
pub record FetchState : Type 0 where
  pub db : Database
  pub sequence : ℕ
  pub owners : Table ℕ ℕ

abbrev pub profile_of : TargetState → HwidProfile
profile_of inputs =
    normalize_hwid_profile inputs.pass_hwid inputs.hwid_version inputs.hwid_model_name
      inputs.hwid_value

-- the sequence is an unsigned number of 64 bits
unfoldable pub begin_source_fetch : ℕ → TargetState → FetchState → FetchState × SourceFetchLease
begin_source_fetch source inputs s =
    let next = suc s.sequence % 2 ^ 64 in
    (
      record s { sequence = next; owners = put source next s.owners },
      record { source_id = source; sequence = next; url = inputs.url; hwid = profile_of inputs },
    )

-- a key that a Go map does not have reads as 0
abbrev pub owner_of : ℕ → Table ℕ ℕ → ℕ
owner_of source owners = elim (lookup source owners) [ none ↦ 0 | some n ↦ n ]

unfoldable pub source_fetch_owned : FetchState → SourceFetchLease → Bool
source_fetch_owned s lease = nat_eq (owner_of lease.source_id s.owners) lease.sequence

unfoldable pub release_source_fetch : SourceFetchLease → FetchState → FetchState
release_source_fetch lease s =
    let released : FetchState = record s { owners = delete lease.source_id s.owners } in
    if source_fetch_owned s lease then released else s

unfoldable pub read_target : ℕ → List SourceRow → Option TargetState
read_target source [] = none
read_target source (row ∷ rows) =
    if nat_eq row.id source then some row.inputs else read_target source rows

unfoldable pub source_fetch_input_matches : SourceFetchLease → TargetState → Bool
source_fetch_input_matches lease inputs =
    inputs.url == lease.url && same_profile (profile_of inputs) lease.hwid

-- the WHERE of the UPDATE: the row still has the inputs that were read
unfoldable pub still_as_read : ℕ → TargetState → SourceRow → Bool
still_as_read source read row =
    nat_eq row.id source
    && (row.inputs.url == read.url
        && (same_flag row.inputs.pass_hwid read.pass_hwid
            && (row.inputs.hwid_version == read.hwid_version
                && (row.inputs.hwid_model_name == read.hwid_model_name
                    && row.inputs.hwid_value == read.hwid_value))))

abbrev pub is_syncing : ℕ → SourceRow → Bool
is_syncing source row = nat_eq row.id source && row.import_status == codes "syncing"

-- UPDATE … SET import_status = ?, last_error = ?
unfoldable pub set_import_status :
    (SourceRow → Bool) → Text → Option Text → List SourceRow → List SourceRow
set_import_status test status message [] = []
set_import_status test status message (row ∷ rows) =
    let marked : SourceRow = record row { import_status = status; last_error = message } in
    (if test row then marked else row) ∷ set_import_status test status message rows

unfoldable pub any_source : (SourceRow → Bool) → List SourceRow → Bool
any_source test [] = false
any_source test (row ∷ rows) = test row || any_source test rows

unfoldable pub normalize_import_status : ⦃u : Unicode⦄ → Text → Text
normalize_import_status raw =
    let value = to_lower (trim_space raw) in
    if value == codes "idle"
      || value == codes "syncing"
      || value == codes "ok"
      || value == codes "error"
    then value
    else codes "idle"

abbrev pub with_sources : List SourceRow → FetchState → FetchState
with_sources rows s = record s {
  db = record {
    keys = s.db.keys;
    next_key_id = s.db.next_key_id;
    assignments = s.db.assignments;
    users_of_all = s.db.users_of_all;
    categories = s.db.categories;
    next_category_id = s.db.next_category_id;
    sources = rows;
    clock = s.db.clock;
    fails = s.db.fails;
  };
}

abbrev pub stale_message : Text
stale_message = codes "source synchronization result is stale"

-- which statements of `markSourceFetchStatus` fail, and what others do behind the first
pub record MarkFaults : Type 0 where
  pub read : Bool
  pub update : Bool
  pub affected : Bool
  pub reset : Bool
  pub edit : List SourceRow → List SourceRow

unfoldable pub reset_invalidated : MarkFaults → SourceFetchLease → List SourceRow → List SourceRow
reset_invalidated faults lease rows =
    if faults.reset
    then rows
    else set_import_status (is_syncing lease.source_id) (codes "error") (some stale_message) rows

-- the statements behind the one that reads `inputs`
unfoldable pub publish_status :
    ⦃u : Unicode⦄
    → MarkFaults
    → SourceFetchLease
    → Text
    → Text
    → TargetState
    → List SourceRow
    → List SourceRow
publish_status faults lease status message inputs rows =
    let test = still_as_read lease.source_id inputs in
    let error = if is_empty message then none else some message in
    let marked = set_import_status test (normalize_import_status status) error rows in
    if not (source_fetch_input_matches lease inputs)
    then reset_invalidated faults lease rows
    else if faults.update
    then rows
    else if status == codes "error"
    then (if faults.affected
        then marked
        else if any_source test rows
        then marked
        else reset_invalidated faults lease marked)
    else marked

unfoldable pub mark_source_fetch_status :
    ⦃u : Unicode⦄ → MarkFaults → SourceFetchLease → Text → Text → FetchState → FetchState
mark_source_fetch_status faults lease status message s =
    let rows = faults.edit s.db.sources in
    if not (source_fetch_owned s lease)
    then s
    else if faults.read
    then s
    else elim (read_target lease.source_id s.db.sources) [
      | none ↦ s
      | some inputs ↦ with_sources (publish_status faults lease status message inputs rows) s
    ]

pub data OwnedSyncError : Type 0 where
  stale_source_result database_error : OwnedSyncError
  sync_failed : SyncError → OwnedSyncError

abbrev pub target_of : SourceFetchLease → TargetState → SyncTarget
target_of lease inputs = record {
  id = lease.source_id;
  enabled = inputs.enabled;
  key_category = inputs.key_category;
  key_insert_mode = inputs.key_insert_mode;
}

-- which of the transaction's begin, read and commit fail
pub record SyncFaults : Type 0 where
  pub begin : Bool
  pub read : Bool
  pub commit : Bool

-- the synchronisation of the transaction; a failure rolls it back
unfoldable pub run_sync :
    ⦃u : Unicode⦄
    → ⦃p : ProfileIdentity⦄ → SyncFaults
    → SourceFetchLease
    → TargetState
    → ParseResult
    → List Text
    → Database
    → Result OwnedSyncError Synced
run_sync faults lease inputs parsed fingerprint_keys db =
    elim (sync db (target_of lease inputs) parsed fingerprint_keys) [
      | err e ↦ err (sync_failed e)
      | ok r ↦ if faults.commit then err database_error else ok r
    ]

unfoldable pub owned_sync :
    ⦃u : Unicode⦄
    → ⦃p : ProfileIdentity⦄ → SyncFaults
    → SourceFetchLease
    → ParseResult
    → List Text
    → FetchState
    → Result OwnedSyncError Synced
owned_sync faults lease parsed fingerprint_keys s =
    if not (source_fetch_owned s lease)
    then err stale_source_result
    else if faults.begin || faults.read
    then err database_error
    else elim (read_target lease.source_id s.db.sources) [
      | none ↦ err database_error
      | some inputs ↦
          if source_fetch_input_matches lease inputs
          then run_sync faults lease inputs parsed fingerprint_keys s.db
          else err stale_source_result
    ]

-- the state that a result leaves
unfoldable pub sync_owned_source_result :
    ⦃u : Unicode⦄
    → ⦃p : ProfileIdentity⦄ → SyncFaults
    → SourceFetchLease
    → ParseResult
    → List Text
    → FetchState
    → FetchState × Result OwnedSyncError Synced
sync_owned_source_result faults lease parsed fingerprint_keys s =
    let result = owned_sync faults lease parsed fingerprint_keys s in
    (elim result [ err e ↦ s | ok r ↦ record s { db = r.db } ], result)
