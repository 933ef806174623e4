-- ===== src/Common/Equality.antt =====
-- Go's `==` on the types that the code compares: numbers, integers and texts.
use Prim.Native.Nat.{ℕ}
use mathlib.Core.Path.{◌≡◌, refl}
use mathlib.Core.Logic.{◌↔◌, ◌≢◌}
use mathlib.Core.Bool.{Bool, true, false, ◌&&◌}
use mathlib.Core.List.{List, [], ◌∷◌}
use native.Mathlib.Omega.{arith}
use sub_share_go.Common.Tests.{nat_eq, nat_eq_iff}

pub record Eq {ℓ} (A : Type ℓ) : Type ℓ where
  pub agrees : A → A → Bool
  pub agrees_iff : (a b : A) → (agrees a b ≡ true) ↔ (a ≡ b)

module _ {ℓ} {A : Type ℓ} ⦃e : Eq A⦄ where
  infix 50 ◌==◌
  abbrev pub ◌==◌ : A → A → Bool
  a == b = e.agrees a b

instance abbrev pub ℕ_eq : Eq ℕ
ℕ_eq = record { agrees = nat_eq; agrees_iff = nat_eq_iff }

-- a text is compared rune by rune
unfoldable pub text_eq : List ℕ → List ℕ → Bool
text_eq [] [] = true
text_eq (a ∷ s) (b ∷ t) = nat_eq a b && text_eq s t
text_eq _ _ = false

pub text_eq_iff : (s t : List ℕ) → (text_eq s t ≡ true) ↔ (s ≡ t)
unfolding text_eq
text_eq_iff [] [] = ((λ _. refl), (λ _. refl))
text_eq_iff [] (b ∷ t) = ((λ h. cc), (λ h. cc))
text_eq_iff (a ∷ s) [] = ((λ h. cc), (λ h. cc))
text_eq_iff (a ∷ s) (b ∷ t) = ground (arith, text_eq_iff s t)

instance abbrev pub text : Eq (List ℕ)
text = record { agrees = text_eq; agrees_iff = text_eq_iff }

module _ {ℓ} {A : Type ℓ} ⦃e : Eq A⦄ where
  pub eq_self : (a : A) → (a == a) ≡ true
  eq_self a = (e.agrees_iff a a).1 refl

  pub eq_of_test : (a b : A) → (a == b) ≡ true → a ≡ b
  eq_of_test a b = (e.agrees_iff a b).0

  pub ne_test : (a b : A) → a ≢ b → (a == b) ≡ false
  ne_test a b h = ground (arith, e.agrees_iff a b)

  pub ne_of_test : (a b : A) → (a == b) ≡ false → a ≢ b
  ne_of_test a b h p = cc (h, (e.agrees_iff a b).1 p)
