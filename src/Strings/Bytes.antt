-- ===== src/Strings/Bytes.antt =====
-- Go strings as bytes: the UTF-8 bytes of a text and the slice `s[:n]`, which may cut through a
-- character and then leaves stray bytes.
use Prim.Native.Nat.{◌/◌, ◌%◌}
use sub_share_go.Common.{
  ℕ, zero, suc, ◌+◌, ◌-◌, ◌≤◌, List, [], ◌∷◌, ◌++◌, ltb, leb, if◌then◌else◌, ◌≡◌, refl, arith,
}
use sub_share_go.Strings.{Text, rune_len, byte_len}

-- the UTF-8 bytes of a rune, a stray byte being one byte
unfoldable pub rune_bytes : ℕ → List ℕ
rune_bytes c =
    if ltb c 0x80
    then c ∷ []
    else if ltb c 0x800
    then (0xc0 + c / 64) ∷ (0x80 + c % 64) ∷ []
    else if ltb c 0x10000
    then (0xe0 + c / 4096) ∷ (0x80 + c / 64 % 64) ∷ (0x80 + c % 64) ∷ []
    else if ltb c 0x110000
    then (0xf0 + c / 262144) ∷ (0x80 + c / 4096 % 64) ∷ (0x80 + c / 64 % 64) ∷ (0x80 + c % 64) ∷ []
    else (c - 0x110000) ∷ []

-- `[]byte(s)`
unfoldable pub bytes : Text → List ℕ
unfolding rune_bytes
bytes [] = []
bytes (c ∷ s) = rune_bytes c ++ bytes s

-- the first bytes of a character that is cut, as stray bytes
unfoldable pub stray : ℕ → List ℕ → Text
stray zero bs = []
stray (suc n) [] = []
stray (suc n) (b ∷ bs) = (0x110000 + b) ∷ stray n bs

-- `s[:n]` where `n` is at most `len(s)`, and `s` where it is not
unfoldable pub cut : ℕ → Text → Text
unfolding rune_len rune_bytes stray
cut n [] = []
cut n (c ∷ s) =
    let rest = cut (n - rune_len c) s in
    if leb (rune_len c) n then c ∷ rest else stray n (rune_bytes c)

byte_len-stray : (n : ℕ) (bs : List ℕ) → byte_len (stray n bs) ≤ n
unfolding byte_len stray rune_len
byte_len-stray zero bs = omega arith
byte_len-stray (suc n) [] = omega arith
byte_len-stray (suc n) (b ∷ bs) = ground (arith, byte_len-stray n bs)

pub byte_len-cut : (n : ℕ) (s : Text) → byte_len (cut n s) ≤ n
unfolding byte_len cut
byte_len-cut n [] = omega arith
byte_len-cut n (c ∷ s) =
    ground (arith, byte_len-cut (n - rune_len c) s, byte_len-stray n (rune_bytes c))

pub cut_short : (n : ℕ) (s : Text) → byte_len s ≤ n → cut n s ≡ s
unfolding byte_len cut
cut_short n [] h = refl
cut_short n (c ∷ s) h = ground (arith, cut_short (n - rune_len c) s)
