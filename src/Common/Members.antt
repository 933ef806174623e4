-- ===== src/Common/Members.antt =====
-- Membership tests and lengths as the library's `Mem`, `Nodup` and `Perm` read them.
use mathlib.Core.Nat
use mathlib.Core.Nat.{le_refl, le_of_eq}
use mathlib.Core.List
use mathlib.Core.List.{
  Mem, mem-cons, mem-cons_self, mem-cons_of_mem, not-mem-nil, Nodup, Nodup-cons, Subset, Perm,
}
use mathlib.Core.List.Nodup as NodupLemmas
use mathlib.Core.List.Perm as PermLemmas
use mathlib.Core.List.Subperm as SubpermLemmas
use mathlib.Core.Logic.{inl, inr}
use mathlib.Core.Logic.Or
use mathlib.Core.Path.{◌≡◌, refl, ap, sym}
use mathlib.Core.Bool.{true, false, Bool-set}
use mathlib.Core.List.{List, [], ◌∷◌}
use native.Mathlib.Omega.{arith}
use sub_share_go.Common.Equality.{Eq, ◌==◌, eq_of_test}
use sub_share_go.Common.Tests.{Bool-cases}
use sub_share_go.Common.Lists.{length, contains, All}

pub length_bridge {ℓ} :
    {A : Type ℓ} (xs ys : List A) → length xs ≡ length ys → List.length xs ≡ List.length ys
length_bridge [] [] h = refl
length_bridge [] (y ∷ ys) h = absurd (omega arith)
length_bridge (x ∷ xs) [] h = absurd (omega arith)
length_bridge (x ∷ xs) (y ∷ ys) h = ap Nat.suc (length_bridge xs ys (omega arith))

length_bridge_back {ℓ} :
    {A : Type ℓ} (xs ys : List A) → List.length xs ≡ List.length ys → length xs ≡ length ys
length_bridge_back [] [] h = refl
length_bridge_back [] (y ∷ ys) h = absurd (cc h)
length_bridge_back (x ∷ xs) [] h = absurd (cc h)
length_bridge_back (x ∷ xs) (y ∷ ys) h = omega (arith, length_bridge_back xs ys (ap Nat.pred h))

pub length-perm {ℓ} : {A : Type ℓ} {xs ys : List A} → Perm xs ys → length xs ≡ length ys
length-perm {xs} {ys} p = length_bridge_back xs ys (PermLemmas.length-eq p)

-- Distinct items of a list that is no longer are a permutation of it.
pub perm_of_subset {ℓ} :
    {A : Type ℓ} (xs ys : List A) → Nodup xs → Subset xs ys → length xs ≡ length ys → Perm xs ys
perm_of_subset xs ys distinct within same =
    SubpermLemmas.perm_of_length_le (NodupLemmas.subperm distinct within)
      (le_of_eq (sym (length_bridge xs ys same)))

module _ {ℓ} {A : Type ℓ} ⦃e : Eq A⦄ where
  pub contains→Mem : (xs : List A) (a : A) → contains xs a ≡ true → Mem a xs
  contains→Mem [] a h = absurd (cc)
  contains→Mem (x ∷ xs) a h = elim (Bool-cases (x == a)) [
    | inl same ↦ rw ((e.agrees_iff x a).0 same) mem-cons_self
    | inr other ↦ mem-cons_of_mem x (contains→Mem xs a (rw other at h))
  ]

  pub Mem→contains : (xs : List A) (a : A) → Mem a xs → contains xs a ≡ true
  Mem→contains [] a m = absurd (not-mem-nil m)
  Mem→contains (x ∷ xs) a m =
      Or.elim (Bool-set _ _) (mem-cons.0 m) (λ same. ground (arith, e.agrees_iff x a))
        (λ later. ground (arith, Mem→contains xs a later))

  pub not-contains→not-Mem : (xs : List A) (a : A) → contains xs a ≡ false → ¬ Mem a xs
  not-contains→not-Mem xs a h m = cc (h, Mem→contains xs a m)

  pub not-Mem→not-contains : (xs : List A) (a : A) → ¬ Mem a xs → contains xs a ≡ false
  not-Mem→not-contains xs a h = elim (Bool-cases (contains xs a)) [
    | inl has ↦ absurd (h (contains→Mem xs a has))
    | inr none ↦ none
  ]

pub All-of_Mem {ℓ κ} :
    {A : Type ℓ} (P : A → Type κ) (xs : List A) → ((a : A) → Mem a xs → P a) → All P xs
All-of_Mem P [] h = tt
All-of_Mem P (x ∷ xs) h = (h x mem-cons_self, All-of_Mem P xs (λ a m. h a (mem-cons_of_mem x m)))

pub All-contains {ℓ κ} :
    {A : Type ℓ} ⦃e : Eq A⦄ (P : A → Type κ) (xs : List A) (a : A)
    → contains xs a ≡ true
    → All P xs
    → P a
All-contains P [] a h all = absurd cc
All-contains P (x ∷ xs) a h all = elim (Bool-cases (x == a)) [
  | inl same ↦ rw (← eq_of_test x a same) all.0
  | inr other ↦ All-contains P xs a (rw other at h) all.1
]
