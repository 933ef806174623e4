-- ===== src/Common/Count.antt =====
-- How often an item stands in a list.
use Prim.Native.Nat.{ℕ, suc, ◌+◌}
use mathlib.Core.Path.{◌≡◌}
use mathlib.Core.Logic.{◌↔◌}
use mathlib.Core.Bool.{false, ◌||◌}
use mathlib.Core.List.{List, [], ◌∷◌, ◌++◌}
use native.Mathlib.Omega.{arith}
use sub_share_go.Common.Tests.{if◌then◌else◌}
use sub_share_go.Common.Equality.{Eq, ◌==◌}
use sub_share_go.Common.Lists.{contains}

module _ {ℓ} {A : Type ℓ} ⦃e : Eq A⦄ where
  abbrev pub times : A → List A → ℕ
  times a [] = 0
  times a (x ∷ xs) = if x == a then suc (times a xs) else times a xs

  pub contains-snoc :
      (xs : List A) (x a : A) → contains (xs ++ x ∷ []) a ≡ (contains xs a || x == a)
  contains-snoc [] x a = ground arith
  contains-snoc (y ∷ xs) x a = ground (arith, contains-snoc xs x a)

  pub times-snoc :
      (xs : List A) (x a : A) → times a (xs ++ x ∷ []) ≡ times a xs + (if x == a then 1 else 0)
  times-snoc [] x a = ground arith
  times-snoc (y ∷ xs) x a = ground (arith, times-snoc xs x a)

  pub times-contains : (xs : List A) (a : A) → (contains xs a ≡ false) ↔ (times a xs ≡ 0)
  times-contains [] a = ground arith
  times-contains (x ∷ xs) a = ground (arith, times-contains xs a)
