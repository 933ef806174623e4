-- ===== src/Tests/Leases.antt =====
-- Two fetches of one source, the second of which takes it over.
use sub_share_go.Common.{◌≢◌, List, [], ◌∷◌, none, some, true, false, ◌≡◌, ◌⊎◌, arith, pos}
use sub_share_go.Common.Result.{err, ok}
use sub_share_go.Strings.{Text, codes}
use sub_share_go.Tests.Fixtures.{ascii}
use sub_share_go.Tests.Sources.{plain, database, stored, no_meta, one_key, fingerprint_keys}
use sub_share_go.Sources.Rows.{TargetState, SourceRow, Database}
use sub_share_go.Sources.Statements.Preserved.{others, Increasing}
use sub_share_go.Sources.Sync.{Synced}
use sub_share_go.Sources.Hwid.{HwidProfile}
use sub_share_go.Sources.Leases.{
  SourceFetchLease, FetchState, begin_source_fetch, release_source_fetch, MarkFaults,
  mark_source_fetch_status, SyncFaults, OwnedSyncError, sync_owned_source_result,
  stale_source_result,
}
use sub_share_go.Sources.Leases.Stale.{FetchEvent, fetch_run, begins, stale_lease_powerless}
use sub_share_go.Sources.Leases.Published.{IsCurrent, sync_owned_source_result-published}

abbrev inputs_of : Text → TargetState
inputs_of url = record {
  url = url;
  key_category = [];
  key_insert_mode = [];
  pass_hwid = false;
  hwid_version = [];
  hwid_model_name = [];
  hwid_value = [];
  enabled = true;
}

abbrev source_row : Text → Text → SourceRow
source_row url status = record {
  id = 7;
  inputs = inputs_of url;
  import_status = status;
  last_error = none;
  last_import_count = 0;
  meta = no_meta;
}

abbrev source_database : Database
source_database = record (database (stored 1 (some 7) (codes "a") [] (codes "A") (pos 3) ∷ [])) {
  sources = source_row (codes "https://a") (codes "idle") ∷ [];
}

abbrev fetching : FetchState
fetching = record { db = source_database; sequence = 1; owners = (7, 1) ∷ [] }

abbrev no_device : HwidProfile
no_device = record { pass_hwid = false; version = []; model_name = []; hwid = [] }

abbrev first_lease : SourceFetchLease
first_lease = record { source_id = 7; sequence = 1; url = codes "https://a"; hwid = no_device }

abbrev mark_well : MarkFaults
mark_well = record {
  read = false;
  update = false;
  affected = false;
  reset = false;
  edit = λ rows. rows;
}

abbrev sync_well : SyncFaults
sync_well = record { begin = false; read = false; commit = false }

-- between the takeover and the late calls, the old lease is released and another source is fetched
abbrev meanwhile : List FetchEvent
meanwhile = FetchEvent.release first_lease ∷ FetchEvent.begin 8 (inputs_of (codes "https://b")) ∷ []

stale_lease_powerless_example :
    let t = fetch_run meanwhile (begin_source_fetch 7 (inputs_of (codes "https://a")) fetching).0 in
    (release_source_fetch first_lease t ≡ t)
    × (mark_source_fetch_status mark_well first_lease (codes "ok") [] t ≡ t)
    × (sync_owned_source_result sync_well first_lease one_key fingerprint_keys t
        ≡ (t, err stale_source_result))
unfolding begins
stale_lease_powerless_example =
    stale_lease_powerless fetching first_lease (inputs_of (codes "https://a")) meanwhile mark_well
      sync_well (codes "ok") [] one_key fingerprint_keys (omega arith) (omega arith) (omega arith)

sync_owned_source_result-published_example :
    let (t, result) =
      sync_owned_source_result sync_well first_lease one_key fingerprint_keys fetching in
    ((e : OwnedSyncError) × (result ≡ err e)
      × ((e ≢ stale_source_result) ⊎ ¬ IsCurrent fetching first_lease)
      × (t ≡ fetching))
    ⊎ ((r : Synced) × (result ≡ ok r)
        × IsCurrent fetching first_lease
        × (others 7 t.db.keys ≡ others 7 source_database.keys)
        × Increasing t.db.keys t.db.next_key_id)
sync_owned_source_result-published_example =
    sync_owned_source_result-published sync_well first_lease one_key fingerprint_keys fetching
      (omega arith, tt, tt)
