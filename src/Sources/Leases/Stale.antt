-- ===== src/Sources/Leases/Stale.antt =====
-- A lease that a later fetch of the source has taken over stays without effect.
use Prim.Native.Nat.{◌%◌, ◌^◌}
use sub_share_go.Common.{
  ℕ, suc, ◌+◌, ◌≤◌, ◌<◌, List, [], ◌∷◌, false, ◌≡◌, refl, arith, nat_eq, ℕ_eq,
}
use sub_share_go.Common.Result.{err}
use sub_share_go.Table.{lookup-put, lookup-delete}
use sub_share_go.Strings.{Text, Unicode}
use sub_share_go.Sources.Rows.{TargetState}
use sub_share_go.Sources.State.{ProfileIdentity, ParseResult}
use sub_share_go.Sources.Leases.{
  SourceFetchLease, FetchState, begin_source_fetch, owner_of, source_fetch_owned,
  release_source_fetch, MarkFaults, mark_source_fetch_status, SyncFaults, owned_sync,
  sync_owned_source_result, stale_source_result,
}

-- a call of one of the four functions
pub data FetchEvent : Type 0 where
  begin : ℕ → TargetState → FetchEvent
  release : SourceFetchLease → FetchEvent
  mark : MarkFaults → SourceFetchLease → Text → Text → FetchEvent
  publish : SyncFaults → SourceFetchLease → ParseResult → List Text → FetchEvent

module _ ⦃u : Unicode⦄ ⦃p : ProfileIdentity⦄ where
  unfoldable pub fetch_step : FetchEvent → FetchState → FetchState
  fetch_step (FetchEvent.begin source inputs) s = (begin_source_fetch source inputs s).0
  fetch_step (FetchEvent.release lease) s = release_source_fetch lease s
  fetch_step (FetchEvent.mark faults lease status message) s =
      mark_source_fetch_status faults lease status message s
  fetch_step (FetchEvent.publish faults lease parsed fingerprint_keys) s =
      (sync_owned_source_result faults lease parsed fingerprint_keys s).0

  unfoldable pub fetch_run : List FetchEvent → FetchState → FetchState
  fetch_run [] s = s
  fetch_run (event ∷ events) s = fetch_run events (fetch_step event s)

-- the fetches that a run begins
unfoldable pub begins : List FetchEvent → ℕ
begins [] = 0
begins (FetchEvent.begin source inputs ∷ events) = suc (begins events)
begins (_ ∷ events) = begins events

-- A lease that was handed out and does not own its source.
pub record IsSuperseded (s : FetchState) (lease : SourceFetchLease) : Type 0 where
  pub issued : 1 ≤ lease.sequence
  pub past : lease.sequence ≤ s.sequence
  pub lost : source_fetch_owned s lease ≡ false

begin-IsSuperseded :
    (source : ℕ) (inputs : TargetState) (s : FetchState) (lease : SourceFetchLease)
    → suc s.sequence < 2 ^ 64
    → IsSuperseded s lease
    → IsSuperseded (begin_source_fetch source inputs s).0 lease
unfolding begin_source_fetch source_fetch_owned
begin-IsSuperseded source inputs s lease room h =
    let lost : nat_eq (owner_of lease.source_id s.owners) lease.sequence ≡ false = h.lost in
    record {
      issued = h.issued;
      past = omega (arith, h.past, room);
      lost = ground (
        arith,
        h.past,
        room,
        lost,
        lookup-put source lease.source_id (suc s.sequence % 2 ^ 64) s.owners,
      );
    }

release-IsSuperseded :
    (other : SourceFetchLease) (s : FetchState) (lease : SourceFetchLease)
    → IsSuperseded s lease
    → IsSuperseded (release_source_fetch other s) lease
unfolding release_source_fetch source_fetch_owned
release-IsSuperseded other s lease h =
    let lost : nat_eq (owner_of lease.source_id s.owners) lease.sequence ≡ false = h.lost in
    record {
      issued = h.issued;
      past = ground (arith, h.past);
      lost = ground (arith, h.issued, lost, lookup-delete other.source_id lease.source_id s.owners);
    }

-- a state whose sequence and owners are the same
same-IsSuperseded :
    (s t : FetchState) (lease : SourceFetchLease)
    → t.sequence ≡ s.sequence
    → t.owners ≡ s.owners
    → IsSuperseded s lease
    → IsSuperseded t lease
unfolding source_fetch_owned
same-IsSuperseded s t lease sequence owners h =
    let lost : nat_eq (owner_of lease.source_id s.owners) lease.sequence ≡ false = h.lost in
    record { issued = h.issued; past = rw sequence h.past; lost = rw owners lost }

-- a fetch takes its source over
taken_over :
    (s : FetchState) (lease : SourceFetchLease) (inputs : TargetState)
    → 1 ≤ lease.sequence
    → lease.sequence ≤ s.sequence
    → suc s.sequence < 2 ^ 64
    → let t = (begin_source_fetch lease.source_id inputs s).0 in
      IsSuperseded t lease × (t.sequence ≡ suc s.sequence)
unfolding begin_source_fetch source_fetch_owned
taken_over s lease inputs issued past room = (
  record {
    issued = issued;
    past = omega (arith, past, room);
    lost = ground (
      arith,
      past,
      room,
      lookup-put lease.source_id lease.source_id (suc s.sequence % 2 ^ 64) s.owners,
    );
  },
  omega (arith, room),
)

module _ ⦃u : Unicode⦄ ⦃p : ProfileIdentity⦄ where
  mark-keeps :
      (faults : MarkFaults) (lease : SourceFetchLease) (status message : Text) (s : FetchState)
      → let t = mark_source_fetch_status faults lease status message s in
        (t.sequence ≡ s.sequence) × (t.owners ≡ s.owners)
  unfolding mark_source_fetch_status
  mark-keeps faults lease status message s = ground arith

  sync-keeps :
      (faults : SyncFaults) (lease : SourceFetchLease) (parsed : ParseResult)
      (fingerprint_keys : List Text) (s : FetchState)
      → let t = (sync_owned_source_result faults lease parsed fingerprint_keys s).0 in
        (t.sequence ≡ s.sequence) × (t.owners ≡ s.owners)
  unfolding sync_owned_source_result
  sync-keeps faults lease parsed fingerprint_keys s = ground arith

  fetch_step-IsSuperseded :
      (event : FetchEvent) (s : FetchState) (lease : SourceFetchLease)
      → s.sequence + begins (event ∷ []) < 2 ^ 64
      → IsSuperseded s lease
      → IsSuperseded (fetch_step event s) lease
        × ((fetch_step event s).sequence ≤ s.sequence + begins (event ∷ []))
  unfolding fetch_step begins
  fetch_step-IsSuperseded (FetchEvent.begin source inputs) s lease room h = (
    begin-IsSuperseded source inputs s lease (omega (arith, room)) h,
    unfold begin_source_fetch in omega (arith, room),
  )
  fetch_step-IsSuperseded (FetchEvent.release other) s lease room h =
      (release-IsSuperseded other s lease h, unfold release_source_fetch in ground arith)
  fetch_step-IsSuperseded (FetchEvent.mark faults other status message) s lease room h =
      let (a, b) = mark-keeps faults other status message s in
      (same-IsSuperseded s _ lease a b h, omega (arith, a))
  fetch_step-IsSuperseded (FetchEvent.publish faults other parsed keys) s lease room h =
      let (a, b) = sync-keeps faults other parsed keys s in
      (same-IsSuperseded s _ lease a b h, omega (arith, a))

  begins-cons :
      (event : FetchEvent) (events : List FetchEvent)
      → begins (event ∷ events) ≡ begins (event ∷ []) + begins events
  unfolding begins
  begins-cons (FetchEvent.begin source inputs) events = omega arith
  begins-cons (FetchEvent.release lease) events = omega arith
  begins-cons (FetchEvent.mark faults lease status message) events = omega arith
  begins-cons (FetchEvent.publish faults lease parsed keys) events = omega arith

  fetch_run-IsSuperseded :
      (events : List FetchEvent) (s : FetchState) (lease : SourceFetchLease)
      → s.sequence + begins events < 2 ^ 64
      → IsSuperseded s lease
      → IsSuperseded (fetch_run events s) lease
  unfolding fetch_run
  fetch_run-IsSuperseded [] s lease room h = h
  fetch_run-IsSuperseded (event ∷ events) s lease room h =
      let split = begins-cons event events in
      let (next, small) = fetch_step-IsSuperseded event s lease (omega (arith, room, split)) h in
      fetch_run-IsSuperseded events (fetch_step event s) lease (omega (arith, room, split, small))
        next

  -- the calls of a lease that does not own its source
  powerless :
      (s : FetchState) (lease : SourceFetchLease) (mark_faults : MarkFaults)
      (sync_faults : SyncFaults) (status message : Text) (parsed : ParseResult)
      (fingerprint_keys : List Text)
      → source_fetch_owned s lease ≡ false
      → (release_source_fetch lease s ≡ s)
        × (mark_source_fetch_status mark_faults lease status message s ≡ s)
        × (sync_owned_source_result sync_faults lease parsed fingerprint_keys s
            ≡ (s, err stale_source_result))
  unfolding release_source_fetch mark_source_fetch_status sync_owned_source_result owned_sync
  powerless s lease mark_faults sync_faults status message parsed fingerprint_keys h =
      (rw h refl, rw h refl, rw h refl)

  -- Once a later fetch of the same source has begun, the lease of the earlier one is without effect for
  -- ever: after any sequence of calls, of all sources and leases and with any failures, its release and
  -- its status change nothing, and its result is refused as stale, as long as fewer than 2 ^ 64 fetches
  -- have begun.
  pub stale_lease_powerless :
      (s : FetchState) (lease : SourceFetchLease) (inputs : TargetState) (events : List FetchEvent)
      (mark_faults : MarkFaults) (sync_faults : SyncFaults) (status message : Text)
      (parsed : ParseResult) (fingerprint_keys : List Text)
      → 1 ≤ lease.sequence
      → lease.sequence ≤ s.sequence
      → suc s.sequence + begins events < 2 ^ 64
      → let t = fetch_run events (begin_source_fetch lease.source_id inputs s).0 in
        (release_source_fetch lease t ≡ t)
        × (mark_source_fetch_status mark_faults lease status message t ≡ t)
        × (sync_owned_source_result sync_faults lease parsed fingerprint_keys t
            ≡ (t, err stale_source_result))
  stale_lease_powerless s lease inputs events mark_faults sync_faults status message parsed
        fingerprint_keys issued past room =
      let begun = (begin_source_fetch lease.source_id inputs s).0 in
      let (taken, next) = taken_over s lease inputs issued past (omega (arith, room)) in
      let later = fetch_run-IsSuperseded events begun lease (omega (arith, room, next)) taken in
      powerless (fetch_run events begun) lease mark_faults sync_faults status message parsed
        fingerprint_keys later.lost
