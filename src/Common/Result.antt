-- ===== src/Common/Result.antt =====
-- Fallible code: a Go pair of a value and an error.
use mathlib.Core.Bool.{Bool, true, false}
use mathlib.Core.Path.{◌≡◌, refl}
use mathlib.Core.Logic.{◌⊎◌, inl, inr}

pub data Result {ε α} (E : Type ε) (A : Type α) : Type (ε ⊔ α) where
  err : E → Result E A
  ok : A → Result E A

module _ {ε α β} {E : Type ε} {A : Type α} {B : Type β} where
  infixl 5 ◌>>=◌
  abbrev pub ◌>>=◌ : Result E A → (A → Result E B) → Result E B
  (err e) >>= next = err e
  (ok a) >>= next = next a

infixl 5 ◌>>◌
abbrev pub ◌>>◌ {ε β} : {E : Type ε} {B : Type β} → Result E (Unit {0}) → Result E B → Result E B
first >> second = first >>= λ _. second

-- `if bad { return err }`
abbrev pub fail_if {ℓ} : {E : Type ℓ} → Bool → E → Result E (Unit {0})
fail_if true e = err e
fail_if false e = ok tt

pub Result-cases {ε α} :
    {E : Type ε} {A : Type α} (r : Result E A) → ((e : E) × (r ≡ err e)) ⊎ ((a : A) × (r ≡ ok a))
Result-cases (err e) = inl (e, refl)
Result-cases (ok a) = inr (a, refl)

pub >>=-eq-ok {ε α β} :
    {E : Type ε} {A : Type α} {B : Type β} (first : Result E A) (next : A → Result E B) {last : B}
    → (first >>= next) ≡ ok last
    → (a : A) × (first ≡ ok a) × (next a ≡ ok last)
>>=-eq-ok (err e) next h = cc
>>=-eq-ok (ok a) next h = (a, refl, h)

pub ok-injective {ℓ κ} :
    {E : Type ℓ} {A : Type κ} {a b : A} → ◌≡◌ {A = Result E A} (ok a) (ok b) → a ≡ b
ok-injective h = cc

-- Code after a guard runs only when the guard is not met.
pub fail_if->>=-eq-ok {ℓ κ} :
    {E : Type ℓ} {B : Type κ} (bad : Bool) (e : E) (k : Unit {0} → Result E B) {b : B}
    → (fail_if bad e >>= k) ≡ ok b
    → (bad ≡ false) × (k tt ≡ ok b)
fail_if->>=-eq-ok true e k h = cc
fail_if->>=-eq-ok false e k h = (refl, h)
