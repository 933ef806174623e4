-- ===== src/Strings.antt =====
-- What the code uses of Go's `strings` and `unicode/utf8` packages. A Go string is the list of its
-- runes (the code points of valid UTF-8); `len` counts its UTF-8 bytes and `len([]rune(s))` its
-- runes. Letters beyond ASCII change their case by Unicode's tables, which are the instance
-- `Unicode`.
pub mod Trim
pub mod Split
pub mod Bytes
pub mod Decimal
use Prim.Native.Char.{code}
use Prim.Native.String.{String}
use sub_share_go.Common.{
  ℕ, ◌+◌, ◌-◌, List, [], ◌∷◌, ◌++◌, map, Bool, true, false, ◌&&◌, ◌||◌, ltb, leb, nat_eq,
  if◌then◌else◌, text_eq, contains, ℕ_eq,
}

abbrev pub Text : Type 0
Text = List ℕ

-- the runes of a literal
abbrev pub codes : String → Text
codes String.[] = []
codes (String.◌∷◌ c s) = code c ∷ codes s

-- `unicode.ToLower` and `unicode.ToUpper` on the runes that are not ASCII
pub record Unicode : Type 0 where
  pub lower_table : ℕ → ℕ
  pub upper_table : ℕ → ℕ

pub lower_rune : ⦃u : Unicode⦄ → ℕ → ℕ
lower_rune ⦃u⦄ c =
    if ltb c 128 then (if leb b'A' c && leb c b'Z' then c + 32 else c) else u.lower_table c

pub upper_rune : ⦃u : Unicode⦄ → ℕ → ℕ
upper_rune ⦃u⦄ c =
    if ltb c 128 then (if leb b'a' c && leb c b'z' then c - 32 else c) else u.upper_table c

-- `strings.ToLower`
unfoldable pub to_lower : ⦃u : Unicode⦄ → Text → Text
unfolding lower_rune
to_lower ⦃u⦄ = map (lower_rune ⦃u = u⦄)

-- `strings.ToUpper`
unfoldable pub to_upper : ⦃u : Unicode⦄ → Text → Text
unfolding upper_rune
to_upper ⦃u⦄ = map (upper_rune ⦃u = u⦄)

-- `unicode.IsSpace`
unfoldable pub is_space : ℕ → Bool
is_space c =
    (leb 9 c && leb c 13)
    || nat_eq c 32
    || nat_eq c 0x85
    || nat_eq c 0xa0
    || nat_eq c 0x1680
    || (leb 0x2000 c && leb c 0x200a)
    || nat_eq c 0x2028
    || nat_eq c 0x2029
    || nat_eq c 0x202f
    || nat_eq c 0x205f
    || nat_eq c 0x3000

abbrev pub is_empty : Text → Bool
is_empty [] = true
is_empty (c ∷ s) = false

unfoldable pub trim_left : Text → Text
unfolding is_space
trim_left [] = []
trim_left (c ∷ s) = if is_space c then trim_left s else c ∷ s

unfoldable pub trim_right : Text → Text
unfolding is_space
trim_right [] = []
trim_right (c ∷ s) = let rest = trim_right s in if is_space c && is_empty rest then [] else c ∷ rest

-- `strings.TrimSpace`
unfoldable pub trim_space : Text → Text
unfolding trim_left trim_right
trim_space s = trim_right (trim_left s)

-- the UTF-8 bytes of a rune; 0x110000 + b stands for a byte b outside a valid character
unfoldable pub rune_len : ℕ → ℕ
rune_len c =
    if ltb c 0x80
    then 1
    else if ltb c 0x800
    then 2
    else if ltb c 0x10000
    then 3
    else if ltb c 0x110000
    then 4
    else 1

-- `len(s)`
unfoldable pub byte_len : Text → ℕ
unfolding rune_len
byte_len [] = 0
byte_len (c ∷ s) = rune_len c + byte_len s

-- `strings.HasPrefix`
unfoldable pub has_prefix : Text → Text → Bool
has_prefix s [] = true
has_prefix [] (p ∷ ps) = false
has_prefix (c ∷ s) (p ∷ ps) = nat_eq c p && has_prefix s ps

-- `strings.TrimPrefix`
unfoldable pub trim_prefix : Text → Text → Text
trim_prefix s [] = s
trim_prefix [] (p ∷ ps) = []
trim_prefix (c ∷ s) (p ∷ ps) =
    let rest = trim_prefix s ps in if has_prefix s ps && nat_eq c p then rest else c ∷ s

-- `strings.HasSuffix`
unfoldable pub has_suffix : Text → Text → Bool
unfolding text_eq
has_suffix [] p = text_eq [] p
has_suffix (c ∷ s) p = text_eq (c ∷ s) p || has_suffix s p

-- `strings.Contains`
unfoldable pub contains_text : Text → Text → Bool
unfolding has_prefix
contains_text [] p = has_prefix [] p
contains_text (c ∷ s) p = has_prefix (c ∷ s) p || contains_text s p

-- `strings.ContainsAny`
unfoldable pub contains_any : Text → Text → Bool
contains_any [] chars = false
contains_any (c ∷ s) chars = contains chars c || contains_any s chars

-- `strings.Split` at one separator rune: always at least one part
abbrev pub put_first : ℕ → List Text → List Text
put_first c [] = (c ∷ []) ∷ []
put_first c (p ∷ ps) = (c ∷ p) ∷ ps

unfoldable pub split : ℕ → Text → List Text
split sep [] = [] ∷ []
split sep (c ∷ s) =
    let parts = split sep s in if nat_eq c sep then [] ∷ parts else put_first c parts

-- `strings.Join` with a one-rune separator
unfoldable pub join : ℕ → List Text → Text
join sep [] = []
join sep (p ∷ []) = p
join sep (p ∷ q ∷ ps) = p ++ sep ∷ join sep (q ∷ ps)
