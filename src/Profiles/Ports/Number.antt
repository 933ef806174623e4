-- ===== src/Profiles/Ports/Number.antt =====
-- A number of a port, printed and read again.
use Prim.Native.Nat.{◌/◌, ◌%◌}
use sub_share_go.Common.{
  ℕ, zero, suc, ◌+◌, ◌*◌, ◌<◌, ◌≤◌, [], ◌∷◌, some, true, false, ◌≡◌, refl, ◌∙◌, arith, ltb, All,
  Bool-cases, Option-cases, inl, inr,
}
use sub_share_go.Strings.{Text, is_empty}
use sub_share_go.Strings.Decimal.{digits, itoa}
use sub_share_go.Profiles.Ports.{is_digit, number_of, parse_port_number}

-- what `fuel` digits hold
abbrev pub room : ℕ → ℕ
room zero = 1
room (suc fuel) = 10 * room fuel

number_of-digits :
    (fuel n : ℕ) (out : Text) → n < room fuel → number_of 0 (digits fuel n out) ≡ number_of n out
unfolding digits number_of
number_of-digits zero n out h = ground arith
number_of-digits (suc fuel) n out h = elim (Bool-cases (ltb n 10)) [
  | inl small ↦ rw small (ground arith)
  | inr large ↦
      rw large
        (number_of-digits fuel (n / 10) ((b'0' + n % 10) ∷ out) (omega (arith, h)) ∙ ground arith)
]

abbrev pub Digit : ℕ → Type 0
Digit c = is_digit c ≡ true

digits-Digit : (fuel n : ℕ) (out : Text) → All Digit out → All Digit (digits fuel n out)
unfolding digits
digits-Digit zero n out h = h
digits-Digit (suc fuel) n out h = elim (Bool-cases (ltb n 10)) [
  | inl small ↦ rw small (ground arith, h)
  | inr large ↦ rw large (digits-Digit fuel (n / 10) ((b'0' + n % 10) ∷ out) (ground arith, h))
]

pub itoa-Digit : (n : ℕ) → All Digit (itoa n)
unfolding itoa
itoa-Digit n = digits-Digit 20 n [] tt

digits-is_empty : (fuel n c : ℕ) (out : Text) → is_empty (digits fuel n (c ∷ out)) ≡ false
unfolding digits
digits-is_empty zero n c out = refl
digits-is_empty (suc fuel) n c out =
    ground (arith, digits-is_empty fuel (n / 10) (b'0' + n % 10) (c ∷ out))

pub itoa-is_empty : (n : ℕ) → is_empty (itoa n) ≡ false
unfolding itoa digits
itoa-is_empty n = ground (arith, digits-is_empty 19 (n / 10) (b'0' + n % 10) [])

-- a port between 1 and 65535
abbrev pub IsPort : ℕ → Type 0
IsPort n = (1 ≤ n) × (n ≤ 65535)

pub parse_port_number-itoa : (n : ℕ) → IsPort n → parse_port_number (itoa n) ≡ some n
unfolding parse_port_number
parse_port_number-itoa n (low, high) =
    let read : number_of 0 (itoa n) ≡ some n =
      unfold itoa number_of in number_of-digits 20 n [] (omega (arith, high)) in
    rw (itoa-is_empty n, read) (ground arith)

-- What is read as a port is one, and it was written in digits only.
pub parse_port_number-IsPort : (raw : Text) {n : ℕ} → parse_port_number raw ≡ some n → IsPort n
unfolding parse_port_number
parse_port_number-IsPort raw {n} h = elim (Option-cases (number_of 0 raw)) [
  | inl absent ↦ ground arith
  | inr (port, found) ↦ ground arith
]
