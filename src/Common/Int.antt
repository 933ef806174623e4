-- ===== src/Common/Int.antt =====
-- Go's signed integers. `negsuc n` is -(n + 1).
use Prim.Native.Nat.{ℕ, zero, suc, ◌+◌, ◌-◌}
use mathlib.Core.Path.{◌≡◌}
use mathlib.Core.Logic.{◌↔◌}
use mathlib.Core.Bool.{Bool, true, false}
use native.Mathlib.Omega.{arith}
use sub_share_go.Common.Tests.{nat_eq, leb, ltb, if◌then◌else◌}
use sub_share_go.Common.Equality.{Eq}

pub data ℤ : Type 0 where
  pos : ℕ → ℤ
  negsuc : ℕ → ℤ

abbrev pub int_eq : ℤ → ℤ → Bool
int_eq (pos a) (pos b) = nat_eq a b
int_eq (negsuc a) (negsuc b) = nat_eq a b
int_eq _ _ = false

pub int_eq_iff : (a b : ℤ) → (int_eq a b ≡ true) ↔ (a ≡ b)
int_eq_iff (pos a) (pos b) = ground arith
int_eq_iff (negsuc a) (negsuc b) = ground arith
int_eq_iff (pos a) (negsuc b) = ((λ h. cc), (λ h. cc))
int_eq_iff (negsuc a) (pos b) = ((λ h. cc), (λ h. cc))

instance abbrev pub int : Eq ℤ
int = record { agrees = int_eq; agrees_iff = int_eq_iff }

-- `x > n` for a literal `n` that is not negative
abbrev pub above : ℤ → ℕ → Bool
above (pos a) n = ltb n a
above (negsuc a) n = false

-- `x >= n` for a literal `n` that is not negative
abbrev pub at_least : ℤ → ℕ → Bool
at_least (pos a) n = leb n a
at_least (negsuc a) n = false

pub data IsPositive : ℤ → Type 0 where
  positive : (n : ℕ) → IsPositive (pos (suc n))

-- `x + 1`
abbrev pub int_succ : ℤ → ℤ
int_succ (pos a) = pos (suc a)
int_succ (negsuc zero) = pos zero
int_succ (negsuc (suc a)) = negsuc a

-- `x - n`
abbrev pub int_minus : ℤ → ℕ → ℤ
int_minus (pos a) n = if leb n a then pos (a - n) else negsuc (n - a - 1)
int_minus (negsuc a) n = negsuc (a + n)

abbrev pub int_leb : ℤ → ℤ → Bool
int_leb (pos a) (pos b) = leb a b
int_leb (negsuc a) (negsuc b) = leb b a
int_leb (pos a) (negsuc b) = false
int_leb (negsuc a) (pos b) = true
