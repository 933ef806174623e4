-- ===== src/Sources/Leases/Published.antt =====
-- What an owner publishes: the result for the inputs that it fetched with.
use sub_share_go.Common.{
  ◌≢◌, ◌||◌, Bool-cases, text, List, some, true, ◌≡◌, refl, arith, Option-cases, inl, inr, ◌⊎◌,
}
use sub_share_go.Common.Result.{err, ok, Result-cases}
use sub_share_go.Strings.{Text, Unicode}
use sub_share_go.Sources.Rows.{TargetState, Database}
use sub_share_go.Sources.State.{ProfileIdentity, ParseResult}
use sub_share_go.Sources.Statements.Preserved.{others, Increasing}
use sub_share_go.Sources.Sync.{Synced, sync}
use sub_share_go.Sources.Sync.Refines.{sync-others}
use sub_share_go.Sources.Leases.{
  SourceFetchLease, FetchState, source_fetch_owned, read_target, source_fetch_input_matches,
  SyncFaults, OwnedSyncError, stale_source_result, run_sync, owned_sync, sync_owned_source_result,
  target_of,
}

-- The lease owns its source, whose stored inputs are those of the fetch.
abbrev pub IsCurrent : FetchState → SourceFetchLease → Type 0
IsCurrent s lease =
    (source_fetch_owned s lease ≡ true)
    × ((inputs : TargetState) × (read_target lease.source_id s.db.sources ≡ some inputs)
        × (source_fetch_input_matches lease inputs ≡ true))

module _ ⦃u : Unicode⦄ ⦃p : ProfileIdentity⦄ where
  run_sync-ok :
      (faults : SyncFaults) (lease : SourceFetchLease) (inputs : TargetState) (parsed : ParseResult)
      (fingerprint_keys : List Text) (db : Database) {r : Synced}
      → run_sync faults lease inputs parsed fingerprint_keys db ≡ ok r
      → sync db (target_of lease inputs) parsed fingerprint_keys ≡ ok r
  unfolding run_sync
  run_sync-ok faults lease inputs parsed fingerprint_keys db {r} h =
      elim (Result-cases (sync db (target_of lease inputs) parsed fingerprint_keys)) [
        | inl (e, failed) ↦ absurd (ground arith)
        | inr (r', done) ↦ ground arith
      ]

  owned_sync-ok :
      (faults : SyncFaults) (lease : SourceFetchLease) (parsed : ParseResult)
      (fingerprint_keys : List Text) (s : FetchState) {r : Synced}
      → owned_sync faults lease parsed fingerprint_keys s ≡ ok r
      → (source_fetch_owned s lease ≡ true)
        × ((inputs : TargetState) × (read_target lease.source_id s.db.sources ≡ some inputs)
            × (source_fetch_input_matches lease inputs ≡ true)
            × (sync s.db (target_of lease inputs) parsed fingerprint_keys ≡ ok r))
  unfolding owned_sync
  owned_sync-ok faults lease parsed fingerprint_keys s {r} h =
      elim (Option-cases (read_target lease.source_id s.db.sources)) [
        | inl absent ↦ absurd (ground arith)
        | inr (inputs, found) ↦
            let owned : source_fetch_owned s lease ≡ true = ground arith in
            let same : source_fetch_input_matches lease inputs ≡ true = ground arith in
            let ran : run_sync faults lease inputs parsed fingerprint_keys s.db ≡ ok r =
              ground arith in
            (
              owned,
              (
                inputs,
                found,
                same,
                run_sync-ok faults lease inputs parsed fingerprint_keys s.db ran,
              ),
            )
      ]

  run_sync-err :
      (faults : SyncFaults) (lease : SourceFetchLease) (inputs : TargetState) (parsed : ParseResult)
      (fingerprint_keys : List Text) (db : Database) (e : OwnedSyncError)
      → run_sync faults lease inputs parsed fingerprint_keys db ≡ err e
      → e ≢ stale_source_result
  unfolding run_sync
  run_sync-err faults lease inputs parsed fingerprint_keys db e h stale =
      elim (Result-cases (sync db (target_of lease inputs) parsed fingerprint_keys)) [
        | inl (why, failed) ↦ cc (rw (failed, run_sync) at h, stale)
        | inr (r, done) ↦ elim (Bool-cases faults.commit) [
          | inl fails ↦ cc (rw (done, run_sync, fails) at h, stale)
          | inr works ↦ cc (rw (done, run_sync, works) at h)
        ]
      ]

  owned_sync-err :
      (faults : SyncFaults) (lease : SourceFetchLease) (parsed : ParseResult)
      (fingerprint_keys : List Text) (s : FetchState) (e : OwnedSyncError)
      → owned_sync faults lease parsed fingerprint_keys s ≡ err e
      → (e ≢ stale_source_result) ⊎ ¬ IsCurrent s lease
  unfolding owned_sync
  owned_sync-err faults lease parsed fingerprint_keys s e h =
      elim (Bool-cases (source_fetch_owned s lease)) [
        | inr taken ↦ inr (λ (owned, rest). cc (owned, taken))
        | inl owned ↦ elim (Bool-cases (faults.begin || faults.read)) [
          | inl fails ↦ inl (λ stale. cc (rw (owned, fails) at h, stale))
          | inr works ↦ elim (Option-cases (read_target lease.source_id s.db.sources)) [
            | inl absent ↦ inl (λ stale. cc (rw (owned, works, absent, owned_sync) at h, stale))
            | inr (inputs, found) ↦ elim (Bool-cases (source_fetch_input_matches lease inputs)) [
              | inl same ↦ inl (
                  run_sync-err faults lease inputs parsed fingerprint_keys s.db e
                    (rw (owned, works, found, same, owned_sync) at h))
              | inr changed ↦ inr (λ (o, (other, read, matches)).
                  let e : some inputs ≡ some other = rw found at read in cc (changed, matches, e))
            ]
          ]
        ]
      ]

  -- A synchronisation for a lease either fails and changes nothing, and is refused as stale only when
  -- the lease does not own its source with the inputs that it fetched with, or the lease does, and the
  -- keys of the other sources and the local keys stay as they
  -- were, the ids of all keys distinct, in order and below the next id.
  pub sync_owned_source_result-published :
      (faults : SyncFaults) (lease : SourceFetchLease) (parsed : ParseResult)
      (fingerprint_keys : List Text) (s : FetchState)
      → Increasing s.db.keys s.db.next_key_id
      → let (t, result) = sync_owned_source_result faults lease parsed fingerprint_keys s in
        ((e : OwnedSyncError) × (result ≡ err e)
          × ((e ≢ stale_source_result) ⊎ ¬ IsCurrent s lease)
          × (t ≡ s))
        ⊎ ((r : Synced) × (result ≡ ok r)
            × IsCurrent s lease
            × (others lease.source_id t.db.keys ≡ others lease.source_id s.db.keys)
            × Increasing t.db.keys t.db.next_key_id)
  unfolding sync_owned_source_result
  sync_owned_source_result-published faults lease parsed fingerprint_keys s ids =
      elim (Result-cases (owned_sync faults lease parsed fingerprint_keys s)) [
        | inl (e, failed) ↦
            rw (failed, sync_owned_source_result)
              (inl (e, refl, owned_sync-err faults lease parsed fingerprint_keys s e failed, refl))
        | inr (r, done) ↦
            let (owned, (inputs, found, same, ran)) =
              owned_sync-ok faults lease parsed fingerprint_keys s done in
            let (rest, ids') =
              sync-others s.db (target_of lease inputs) parsed fingerprint_keys r ids ran in
            rw (done, sync_owned_source_result)
              (inr (r, refl, (owned, (inputs, found, same)), rest, ids'))
      ]
