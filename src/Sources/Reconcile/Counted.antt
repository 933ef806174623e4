-- ===== src/Sources/Reconcile/Counted.antt =====
-- The counters of a reconciliation.
use sub_share_go.Common.{
  ℕ, suc, ◌+◌, List, [], ◌∷◌, not, ◌≡◌, refl, ◌∙◌, arith, length, ℕ_eq, nat_eq, Bool-cases, inl,
  inr, ◌||◌,
}
use sub_share_go.Common.Result.{ok, >>=-eq-ok}
use sub_share_go.Sources.Items.{ParsedKey}
use sub_share_go.Sources.Statements.{delete_source_key}
use sub_share_go.Sources.State.{ProfileIdentity, SyncState}
use sub_share_go.Sources.Reconcile.{
  upsert_parsed_key, upsert_keys, remove_ids, remove_unmatched, row_removed, reconcile,
}
use sub_share_go.Sources.Reconcile.Upserts.{
  Upserted, skipped_key, written_key, inserted_key, upsert_parsed_key-Upsert,
}

-- one key more is counted
Upserted-count :
    (s t : SyncState)
    → Upserted s t
    → t.result.imported + t.result.skipped ≡ suc (s.result.imported + s.result.skipped)
Upserted-count s t (skipped_key _ _ i k) = omega (arith, i, k)
Upserted-count s t (written_key _ _ _ _ _ _ _ _ _ i k) = omega (arith, i, k)
Upserted-count s t (inserted_key _ _ _ _ i k) = omega (arith, i, k)

upsert_keys-counted :
    ⦃p : ProfileIdentity⦄ (index : ℕ) (items : List ParsedKey) (s : SyncState) {t : SyncState}
    → upsert_keys index items s ≡ ok t
    → t.result.imported + t.result.skipped ≡ s.result.imported + s.result.skipped + length items
unfolding upsert_keys
upsert_keys-counted index [] s {t} h = let e : s ≡ t = ground arith in rw (← e) (omega arith)
upsert_keys-counted index (item ∷ items) s {t} h =
    let (u, first, rest) =
      >>=-eq-ok (upsert_parsed_key index item s) (upsert_keys (suc index) items) h in
    let later = upsert_keys-counted (suc index) items u rest in
    let (outcome, same) = upsert_parsed_key-Upsert index item s first in
    omega (arith, later, Upserted-count s u outcome)

remove_ids-counted :
    (ids : List ℕ) (s : SyncState) {t : SyncState}
    → remove_ids ids s ≡ ok t
    → t.result.imported + t.result.skipped ≡ s.result.imported + s.result.skipped
unfolding remove_ids
remove_ids-counted [] s {t} h = let e : s ≡ t = ground arith in rw (← e) refl
remove_ids-counted (id ∷ ids) s h =
    let (d, gone, rest) =
      >>=-eq-ok (delete_source_key s.source.id id s.db) (λ d. remove_ids ids (row_removed d s)) h in
    remove_ids-counted ids (row_removed d s) rest

remove_unmatched-counted :
    ⦃p : ProfileIdentity⦄ (s : SyncState) {t : SyncState}
    → remove_unmatched s ≡ ok t
    → t.result.imported + t.result.skipped ≡ s.result.imported + s.result.skipped
unfolding remove_unmatched
remove_unmatched-counted ⦃p⦄ s {t} h =
    elim (Bool-cases
      (not (nat_eq s.parsed.counts.rejected 0) || not (nat_eq s.parsed.counts.unsupported 0))) [
        | inl unsure ↦ let e : s ≡ t = ground arith in rw (← e) refl
        | inr sure ↦ remove_ids-counted (p.visit_ids s.existing.ids) s (rw sure at h)
      ]

-- A reconciliation that succeeds counts each key of the feed once, as imported or as skipped.
pub reconcile-counted :
    ⦃p : ProfileIdentity⦄ (s t : SyncState)
    → reconcile s ≡ ok t
    → t.result.imported + t.result.skipped
      ≡ s.result.imported + s.result.skipped + length s.parsed.keys
unfolding reconcile
reconcile-counted s t h =
    let (u, upserts, last) = >>=-eq-ok (upsert_keys 0 s.parsed.keys s) remove_unmatched h in
    remove_unmatched-counted u last ∙ upsert_keys-counted 0 s.parsed.keys s upserts
