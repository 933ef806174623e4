-- ===== src/Table.antt =====
-- Go's maps, as association lists. The order of a list stands for the order in which `range` visits
-- the map, which Go leaves open: what is proved holds for every list.
use mathlib.Core.Option.{some-injective}
use sub_share_go.Common.{
  suc, ◌≤◌, ◌≡◌, ◌≢◌, refl, List, [], ◌∷◌, Option, none, some, arith, Eq, ◌==◌, if◌then◌else◌,
  length, inl, inr, Bool-cases, All,
}

abbrev pub Table {ℓ} : Type ℓ → Type ℓ → Type ℓ
Table K V = List (K × V)

module _ {ℓ} {K V : Type ℓ} ⦃e : Eq K⦄ where
  unfoldable pub lookup : K → Table K V → Option V
  lookup k [] = none
  lookup k ((j, v) ∷ m) = if j == k then some v else lookup k m

  unfoldable pub put : K → V → Table K V → Table K V
  put k v [] = (k, v) ∷ []
  put k v ((j, w) ∷ m) = if j == k then (k, v) ∷ m else (j, w) ∷ put k v m

  unfoldable pub delete : K → Table K V → Table K V
  delete k [] = []
  delete k ((j, v) ∷ m) = let rest = delete k m in if j == k then rest else (j, v) ∷ rest

  pub lookup-put :
      (k j : K) (v : V) (m : Table K V)
      → lookup j (put k v m) ≡ (if k == j then some v else lookup j m)
  unfolding lookup put
  lookup-put k j v [] = refl
  lookup-put k j v ((i, w) ∷ m) =
      ground (arith, e.agrees_iff k j, e.agrees_iff i k, e.agrees_iff i j, lookup-put k j v m)

  pub lookup-delete :
      (k j : K) (m : Table K V) → lookup j (delete k m) ≡ (if k == j then none else lookup j m)
  unfolding lookup delete
  lookup-delete k j [] = ground arith
  lookup-delete k j ((i, w) ∷ m) =
      ground (arith, e.agrees_iff k j, e.agrees_iff i k, e.agrees_iff i j, lookup-delete k j m)

  pub length-put_new : (k : K) (v : V) (m : Table K V) → length (put k v m) ≤ suc (length m)
  unfolding put
  length-put_new k v [] = omega arith
  length-put_new k v ((i, w) ∷ m) = ground (arith, length-put_new k v m)

  pub length-put_old :
      (k : K) (v : V) (m : Table K V) → lookup k m ≢ none → length (put k v m) ≡ length m
  unfolding lookup put
  length-put_old k v [] h = absurd (h refl)
  length-put_old k v ((i, w) ∷ m) h = ground (arith, length-put_old k v m)

  pub length-delete : (k : K) (m : Table K V) → length (delete k m) ≤ length m
  unfolding delete
  length-delete k [] = omega arith
  length-delete k ((i, w) ∷ m) = ground (arith, length-delete k m)

  pub length-delete_old :
      (k : K) (m : Table K V) → lookup k m ≢ none → suc (length (delete k m)) ≤ length m
  unfolding lookup delete
  length-delete_old k [] h = absurd (h refl)
  length-delete_old k ((i, w) ∷ m) h = ground (arith, length-delete_old k m, length-delete k m)

  pub All-put :
      (P : K × V → Type ℓ) (k : K) (v : V) (m : Table K V) → P (k, v) → All P m → All P (put k v m)
  unfolding put
  All-put P k v [] p h = (p, tt)
  All-put P k v ((i, w) ∷ m) p h = elim (Bool-cases (i == k)) [
    | inl same ↦ rw same (p, h.1)
    | inr other ↦ rw other (h.0, All-put P k v m p h.1)
  ]

  pub All-delete : (P : K × V → Type ℓ) (k : K) (m : Table K V) → All P m → All P (delete k m)
  unfolding delete
  All-delete P k [] h = tt
  All-delete P k ((i, w) ∷ m) h = elim (Bool-cases (i == k)) [
    | inl same ↦ rw same (All-delete P k m h.1)
    | inr other ↦ rw other (h.0, All-delete P k m h.1)
  ]

  -- what a lookup finds satisfies what holds of all entries
  pub All-lookup :
      (P : K × V → Type ℓ) (k : K) {v : V} (m : Table K V)
      → lookup k m ≡ some v
      → All P m
      → P (k, v)
  unfolding lookup
  All-lookup P k {v} [] found h = cc
  All-lookup P k {v} ((i, w) ∷ m) found h = elim (Bool-cases (i == k)) [
    | inl same ↦
        let here : some w ≡ some v = rw same at found in
        rw (← (e.agrees_iff i k).0 same, ← some-injective w v here) h.0
    | inr other ↦ All-lookup P k m (rw other at found) h.1
  ]
