-- ===== src/BulkKeys/Accepted.antt =====
-- What is known of the keys of a bulk command that is carried out.
use sub_share_go.Common.{
  times, times-snoc, times-contains, append-nil, ℕ, ◌≤◌, List, [], ◌∷◌, ◌++◌, true, false, ℤ, above,
  pos, int, int_eq_iff, contains, length, ◌≡◌, ◌≢◌, ◌⊎◌, inl, refl, arith, append_assoc,
  cons-ne-nil, sym, ap, ◌∙◌,
}
use sub_share_go.Common.Result.{Result, ok, >>=-eq-ok, ok-injective}
use sub_share_go.BulkKeys.{
  BulkError, normalize_bulk_ids_from, normalize_bulk_key_ids, bulk_delete_keys,
}

bulk_loop :
    (seen ids out : List ℤ) (a : ℤ)
    → normalize_bulk_ids_from seen ids ≡ ok out
    → times a seen ≤ 1
    → (out ≡ seen ++ ids) × (times a out ≤ 1) × ((contains ids a ≡ false) ⊎ (above a 0 ≡ true))
unfolding normalize_bulk_ids_from
bulk_loop seen [] out a h few =
    (sym (ok-injective h) ∙ sym (append-nil seen), ground (arith, h), inl refl)
bulk_loop seen (id ∷ ids) out a h few =
    let rest = bulk_loop (seen ++ id ∷ []) ids out a in
    let same = int_eq_iff id a in
    let more = times-snoc seen id a in
    let held = times-contains seen a in
    let flat = append_assoc seen (id ∷ []) ids in (ground arith, ground arith, ground arith)

times_transport : (a : ℤ) (xs ys : List ℤ) → xs ≡ ys → times a xs ≤ 1 → times a ys ≤ 1
times_transport a xs ys e h = rw (← e) h

-- The ids that a bulk command works on are those of the request in its order; there is one at least,
-- and each is positive and stands there once.
pub normalize_bulk_key_ids-distinct :
    (ids out : List ℤ) (a : ℤ)
    → normalize_bulk_key_ids ids ≡ ok out
    → (out ≡ ids) × (ids ≢ []) × (times a ids ≤ 1) × ((contains ids a ≡ false) ⊎ (above a 0 ≡ true))
unfolding normalize_bulk_key_ids
normalize_bulk_key_ids-distinct [] out a h = absurd (ground (arith, h))
normalize_bulk_key_ids-distinct (id ∷ ids) out a h =
    let (same, once, positive) = bulk_loop [] (id ∷ ids) out a (ground (arith, h)) (omega arith) in
    (same, cons-ne-nil id ids, times_transport a out (id ∷ ids) same once, positive)

module _ {State : Type 0} (bulk_delete : List ℤ → State → Result BulkError State) where
  -- A bulk deletion that succeeds has given the repository the ids of the request as they are and
  -- answers with their number.
  pub bulk_delete_keys-count :
      (ids : List ℤ) (state next : State) (count : ℕ)
      → bulk_delete_keys bulk_delete ids state ≡ ok (count, next)
      → (count ≡ length ids) × (bulk_delete ids state ≡ ok next)
  unfolding bulk_delete_keys
  bulk_delete_keys-count ids state next count h =
      let (normalized, h1, k1) = >>=-eq-ok (normalize_bulk_key_ids ids) _ h in
      let (left, h2, k2) = >>=-eq-ok (bulk_delete normalized state) _ k1 in
      let same = (normalize_bulk_key_ids-distinct ids normalized (pos 0) h1).0 in
      let pair = ok-injective k2 in
      (
        sym (ap (λ (p : ℕ × State). p.0) pair) ∙ ap (λ (xs : List ℤ). length xs) same,
        ap (λ (xs : List ℤ). bulk_delete xs state) (sym same)
            ∙ h2
            ∙ ap (λ (p : ℕ × State). ok p.1) pair,
      )
