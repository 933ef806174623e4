-- ===== src/Sources/Sync/Refines.antt =====
-- `Sync` as a whole: it refines the step relation on the stored keys.
use sub_share_go.Common.{
  ℕ, List, [], ◌∷◌, Option, Bool, ◌≡◌, refl, arith, length, text, ◌==◌, ℤ, All,
}
use sub_share_go.Common.Result.{ok, ◌>>=◌, >>=-eq-ok}
use sub_share_go.Strings.{Text, Unicode, trim_space, codes}
use sub_share_go.Sources.Names.{normalize_key_insert_mode}
use sub_share_go.Sources.Rows.{SourceKey, Database}
use sub_share_go.Sources.Categories.{upsert_category, ensure_category, with_category}
use sub_share_go.Sources.Statements.{
  statement, list_source_keys, next_sort_order, mark_source_synced,
}
use sub_share_go.Sources.Statements.KeyStep.{
  KeyStep, KeySteps, Owns, wrote, untouched, steps_append, statement-eq-ok, one_step,
  mark_source_synced-KeyWrite,
}
use sub_share_go.Sources.Statements.Preserved.{
  others, Increasing, KeySteps-others, KeySteps-Increasing,
}
use sub_share_go.Sources.State.{ProfileIdentity, SyncState, SyncTarget, ParseResult, new_sync_state}
use sub_share_go.Sources.Reconcile.{reconcile}
use sub_share_go.Sources.Reconcile.Moves.{OwnsIndex, reconcile-Moves}
use sub_share_go.Sources.Repair.Kept.{repair_duplicate_groups-Lists}
use sub_share_go.Sources.Statements.Owned.{All-map, KeySteps-Owns}
use sub_share_go.Sources.Sync.Listed.{Indexed-map, index_existing_keys-Indexed, source_keys_of-Owns}
use sub_share_go.Sources.Rows.{source_keys_of}
use sub_share_go.Sources.Sync.{
  with_target, with_existing, with_order, with_indexes, first_order, repair, load_target,
  load_existing, prepare, Synced, finish, final_counts, sync,
}
use sub_share_go.Sources.Sync.Steps.{Moves, onwards, >>=-Moves, repair_duplicate_groups-Moves}

list_source_keys-keys :
    (source : ℕ) (d : Database) {found : Database × List SourceKey}
    → list_source_keys source d ≡ ok found
    → KeyStep source d found.0
unfolding list_source_keys statement
list_source_keys-keys source d h = wrote (untouched (ground arith) (ground arith))

next_sort_order-keys :
    (category : Option ℕ) (source : ℕ) (top : Bool) (incoming : ℕ) (d : Database)
    {found : Database × ℤ}
    → next_sort_order category source top incoming d ≡ ok found
    → KeyStep source d found.0
unfolding next_sort_order statement
next_sort_order-keys category source top incoming d h =
    wrote (untouched (ground arith) (ground arith))

with_category-keys :
    (name color : Text) (d : Database)
    → ((with_category name color d).keys ≡ d.keys)
      × ((with_category name color d).next_key_id ≡ d.next_key_id)
with_category-keys name color d = ground arith

ensure_category-keys :
    (source : ℕ) (name : Text) (d : Database) {found : Database × Option ℕ}
    → ensure_category name d ≡ ok found
    → KeyStep source d found.0
unfolding ensure_category upsert_category statement
ensure_category-keys source name d h = wrote (
    untouched (ground (arith, with_category-keys (trim_space name) (codes "#d8b33d")))
      (ground (arith, with_category-keys (trim_space name) (codes "#d8b33d"))))

load_target-Moves : (s : SyncState) {t : SyncState} → load_target s ≡ ok t → Moves s t
unfolding load_target
load_target-Moves s {t} h =
    let (found, a, last) =
      >>=-eq-ok (ensure_category s.target_category s.db) (λ found. ok (with_target found s)) h in
    let e : with_target found s ≡ t = ground arith in
    rw (← e) (one_step (ensure_category-keys s.source.id s.target_category s.db a), refl, refl)

load_existing-Moves : (s : SyncState) {t : SyncState} → load_existing s ≡ ok t → Moves s t
unfolding load_existing
load_existing-Moves s {t} h =
    let (found, a, last) =
      >>=-eq-ok (list_source_keys s.source.id s.db) (λ found. ok (with_existing found s)) h in
    let e : with_existing found s ≡ t = ground arith in
    rw (← e) (one_step (list_source_keys-keys s.source.id s.db a), refl, refl)

repair-Moves :
    ⦃p : ProfileIdentity⦄ (keys : List Text) (s : SyncState) {t : SyncState}
    → repair keys s ≡ ok t
    → Moves s t
unfolding repair
repair-Moves [] s h = absurd (cc h)
repair-Moves (key ∷ keys) s h = repair_duplicate_groups-Moves key s h

first_order-Moves :
    ⦃u : Unicode⦄ ⦃p : ProfileIdentity⦄ (s : SyncState) {t : SyncState}
    → first_order (with_indexes s) ≡ ok t
    → Moves s t
unfolding first_order with_indexes
first_order-Moves s {t} h =
    let s' = with_indexes s in
    let top = normalize_key_insert_mode s.source.key_insert_mode == codes "top" in
    let n = length s.parsed.keys in
    let (found, a, last) =
      >>=-eq-ok (next_sort_order s.target_category_id s.source.id top n s.db)
        (λ found. ok (with_order found s')) h in
    let e : with_order found s' ≡ t = ground arith in
    rw (← e)
      (one_step (next_sort_order-keys s.target_category_id s.source.id top n s.db a), refl, refl)

prepare-Moves :
    ⦃u : Unicode⦄ ⦃p : ProfileIdentity⦄ (s : SyncState) {t : SyncState}
    → prepare s ≡ ok t
    → Moves s t
unfolding prepare
prepare-Moves s h =
    >>=-Moves s (load_target s >>= load_existing >>= (λ t. repair t.fingerprint_keys t)) _
      (λ t a.
        >>=-Moves s (load_target s >>= load_existing) _
          (λ t b.
            >>=-Moves s (load_target s) _ (λ t c. load_target-Moves s c)
              (λ t c. load_existing-Moves t c) b)
          (λ t b. repair-Moves t.fingerprint_keys t b) a)
      (λ t a. first_order-Moves t a) h

-- The keys that the query lists are the source's.
ListsOwn : SyncState → Type 0
ListsOwn s = All (λ key. Owns s.source.id key.id s.db.keys) s.existing_keys

listed-Owns :
    (source : ℕ) (d : Database) (found : Database × List SourceKey)
    → Increasing d.keys d.next_key_id
    → list_source_keys source d ≡ ok found
    → All (λ key. Owns source key.id found.0.keys) found.1
unfolding list_source_keys
listed-Owns source d found ids h =
    let (e, a, last) =
      >>=-eq-ok (statement (λ x. x) d) (λ x. ok (x, source_keys_of source x.keys)) h in
    let same : found ≡ (e, source_keys_of source e.keys) = ground arith in
    rw (same, statement-eq-ok (λ x. x) d a) (source_keys_of-Owns source d.keys d.next_key_id ids)

load_existing-ListsOwn :
    (s : SyncState) {t : SyncState}
    → Increasing s.db.keys s.db.next_key_id
    → load_existing s ≡ ok t
    → ListsOwn t
unfolding load_existing ListsOwn
load_existing-ListsOwn s {t} ids h =
    let (found, a, last) =
      >>=-eq-ok (list_source_keys s.source.id s.db) (λ found. ok (with_existing found s)) h in
    let e : with_existing found s ≡ t = ground arith in
    rw (← e) (listed-Owns s.source.id s.db found ids a)

repair-ListsOwn :
    ⦃p : ProfileIdentity⦄ (keys : List Text) (s : SyncState) {t : SyncState}
    → ListsOwn s
    → repair keys s ≡ ok t
    → ListsOwn t
unfolding repair ListsOwn
repair-ListsOwn [] s owns h = absurd (cc h)
repair-ListsOwn (key ∷ keys) s {t} owns h =
    let (steps, same, feed) = repair_duplicate_groups-Moves key s h in
    let listed = repair_duplicate_groups-Lists (λ id. Owns s.source.id id s.db.keys) key s owns h in
    rw same (
      All-map _ (λ k. Owns s.source.id k.id t.db.keys) (λ k own. KeySteps-Owns k.id steps own)
        t.existing_keys listed)

first_order-OwnsIndex :
    ⦃u : Unicode⦄ ⦃p : ProfileIdentity⦄ (s : SyncState) {t : SyncState}
    → ListsOwn s
    → first_order (with_indexes s) ≡ ok t
    → OwnsIndex t
unfolding first_order with_indexes ListsOwn
first_order-OwnsIndex s {t} owns h =
    let s' = with_indexes s in
    let top = normalize_key_insert_mode s.source.key_insert_mode == codes "top" in
    let n = length s.parsed.keys in
    let (found, a, last) =
      >>=-eq-ok (next_sort_order s.target_category_id s.source.id top n s.db)
        (λ found. ok (with_order found s')) h in
    let e : with_order found s' ≡ t = ground arith in
    let step = one_step (next_sort_order-keys s.target_category_id s.source.id top n s.db a) in
    let own =
      index_existing_keys-Indexed (λ id. Owns s.source.id id s.db.keys) s.fingerprint_keys
        s.removed_duplicate_ids s.existing_keys owns in
    rw (← e) (
      Indexed-map _ (λ id. Owns s.source.id id found.0.keys) (λ id o. KeySteps-Owns id step o)
        s'.existing own)

prepare-OwnsIndex :
    ⦃u : Unicode⦄ ⦃p : ProfileIdentity⦄ (s : SyncState) {t : SyncState}
    → Increasing s.db.keys s.db.next_key_id
    → prepare s ≡ ok t
    → OwnsIndex t
unfolding prepare
prepare-OwnsIndex s ids h =
    let (v, a, last) =
      >>=-eq-ok (load_target s >>= load_existing >>= (λ t. repair t.fingerprint_keys t)) _ h in
    let (w, b, repaired) =
      >>=-eq-ok (load_target s >>= load_existing) (λ t. repair t.fingerprint_keys t) a in
    let (x, target, listed) = >>=-eq-ok (load_target s) load_existing b in
    let (steps, same, feed) = load_target-Moves s target in
    first_order-OwnsIndex v
      (repair-ListsOwn w.fingerprint_keys w
        (load_existing-ListsOwn x (KeySteps-Increasing steps ids) listed) repaired)
      last

finish-KeySteps :
    (source : SyncTarget) (s : SyncState) {r : Synced}
    → s.source ≡ source
    → finish s ≡ ok r
    → KeySteps source.id s.db r.db
unfolding finish
finish-KeySteps source s {r} same h =
    let (d, a, last) =
      >>=-eq-ok (mark_source_synced s.source.id s.result.imported s.parsed.metadata s.db)
        (λ d. ok (record { db = d; result = s.result; counts = final_counts s.result })) h in
    let e : d ≡ r.db = ground arith in
    let step =
      mark_source_synced-KeyWrite source.id s.source.id s.result.imported s.parsed.metadata s.db
        a in
    rw (← e) (one_step (wrote step))

-- A synchronisation that succeeds is a sequence of key steps: each touches only a row that its source
-- owns, keeps ids and owners, and gives a new row the next id. The ids of the stored keys must be
-- distinct before, since a secret is written by the id of its key alone.
pub sync-KeySteps :
    ⦃u : Unicode⦄ ⦃p : ProfileIdentity⦄ (d : Database) (source : SyncTarget) (parsed : ParseResult)
    (fingerprint_keys : List Text) (r : Synced)
    → Increasing d.keys d.next_key_id
    → sync d source parsed fingerprint_keys ≡ ok r
    → KeySteps source.id d r.db
unfolding sync new_sync_state
sync-KeySteps d source parsed fingerprint_keys r ids h =
    let s = new_sync_state d source parsed fingerprint_keys in
    let run : (prepare s >>= reconcile >>= finish) ≡ ok r = ground arith in
    let (v, both, last) = >>=-eq-ok (prepare s >>= reconcile) finish run in
    let (u, first, second) = >>=-eq-ok (prepare s) reconcile both in
    let (steps, same, feed) =
      onwards s u v (prepare-Moves s first)
        (reconcile-Moves u (prepare-OwnsIndex s ids first) second) in
    steps_append steps (finish-KeySteps source v same last)

-- When the ids of the stored keys are distinct, in order and below the next id, a synchronisation that
-- succeeds leaves the keys of the other sources, and the local keys, exactly as they were, their
-- secrets included, and keeps the ids so.
pub sync-others :
    ⦃u : Unicode⦄ ⦃p : ProfileIdentity⦄ (d : Database) (source : SyncTarget) (parsed : ParseResult)
    (fingerprint_keys : List Text) (r : Synced)
    → Increasing d.keys d.next_key_id
    → sync d source parsed fingerprint_keys ≡ ok r
    → (others source.id r.db.keys ≡ others source.id d.keys) × Increasing r.db.keys r.db.next_key_id
sync-others d source parsed fingerprint_keys r ids h =
    let steps = sync-KeySteps d source parsed fingerprint_keys r ids h in
    (KeySteps-others steps, KeySteps-Increasing steps ids)
