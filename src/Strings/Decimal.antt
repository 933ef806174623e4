-- ===== src/Strings/Decimal.antt =====
-- Go's `strconv.Itoa` and the `%03d` of `fmt`: a number as its decimal digits.
use Prim.Native.Nat.{◌/◌, ◌%◌}
use sub_share_go.Common.{ℕ, zero, suc, ◌+◌, [], ◌∷◌, ltb, if◌then◌else◌}
use sub_share_go.Strings.{Text}

unfoldable pub digits : ℕ → ℕ → Text → Text
digits zero n out = out
digits (suc fuel) n out =
    let rest = digits fuel (n / 10) ((b'0' + n % 10) ∷ out) in
    if ltb n 10 then (b'0' + n) ∷ out else rest

-- twenty digits hold every number of 64 bits
unfoldable pub itoa : ℕ → Text
unfolding digits
itoa n = digits 20 n []

-- `%03d`
unfoldable pub pad3 : ℕ → Text
unfolding itoa
pad3 n = if ltb n 10 then b'0' ∷ b'0' ∷ itoa n else if ltb n 100 then b'0' ∷ itoa n else itoa n
