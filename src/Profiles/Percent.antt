-- ===== src/Profiles/Percent.antt =====
-- internal/profiles/uri.go: percent-encoding, on strings as the lists of their bytes, and Go's
-- `url.PathUnescape`.
pub mod RoundTrip
use Prim.Native.Nat.{◌/◌, ◌%◌}
use sub_share_go.Common.{
  ℕ, zero, suc, ◌+◌, ◌-◌, ◌*◌, List, [], ◌∷◌, ◌++◌, Option, none, some, Bool, true, false, ◌&&◌,
  ◌||◌, ltb, leb, nat_eq, if◌then◌else◌, length,
}
use sub_share_go.Strings.{Text, codes, has_prefix}

-- the bytes that stand for themselves
unfoldable pub unreserved : ℕ → Bool
unreserved c =
    (leb b'a' c && leb c b'z')
    || (leb b'A' c && leb c b'Z')
    || (leb b'0' c && leb c b'9')
    || nat_eq c b'-'
    || nat_eq c b'.'
    || nat_eq c b'_'
    || nat_eq c b'~'

-- `hexadecimal[d]`
unfoldable pub hex_digit : ℕ → ℕ
hex_digit d = if ltb d 10 then b'0' + d else b'A' + (d - 10)

unfoldable pub percent_encode : List ℕ → List ℕ
percent_encode [] = []
percent_encode (c ∷ s) =
    let rest = percent_encode s in
    if unreserved c then c ∷ rest else b'%' ∷ hex_digit (c / 16) ∷ hex_digit (c % 16) ∷ rest

-- `strings.ReplaceAll(s, "%3A", ":")`
unfoldable pub colons : List ℕ → List ℕ
colons [] = []
colons (a ∷ []) = a ∷ []
colons (a ∷ b ∷ []) = a ∷ b ∷ []
colons (a ∷ b ∷ c ∷ s) =
    let rest = colons s in
    let shifted = colons (b ∷ c ∷ s) in
    if nat_eq a b'%' && nat_eq b b'3' && nat_eq c b'A' then b':' ∷ rest else a ∷ shifted

unfoldable pub percent_encode_auth : List ℕ → Bool → List ℕ
percent_encode_auth raw allow_colon =
    if allow_colon then colons (percent_encode raw) else percent_encode raw

-- the value of a hexadecimal digit, of either case
unfoldable pub unhex : ℕ → Option ℕ
unhex c =
    if leb b'0' c && leb c b'9'
    then some (c - b'0')
    else if leb b'a' c && leb c b'f'
    then some (c - b'a' + 10)
    else if leb b'A' c && leb c b'F'
    then some (c - b'A' + 10)
    else none

-- a byte in front of what is decoded
abbrev pub push : ℕ → Option (List ℕ) → Option (List ℕ)
push c none = none
push c (some s) = some (c ∷ s)

unfoldable pub escape : Option ℕ → Option ℕ → Option (List ℕ) → Option (List ℕ)
escape none low rest = none
escape (some high) none rest = none
escape (some high) (some low) rest = push (high * 16 + low) rest

-- `url.PathUnescape`: an escape that is not one is an error, and a plus stands for itself
unfoldable pub path_unescape : List ℕ → Option (List ℕ)
path_unescape [] = some []
path_unescape (a ∷ []) = if nat_eq a b'%' then none else some (a ∷ [])
path_unescape (a ∷ b ∷ []) =
    let rest = path_unescape (b ∷ []) in if nat_eq a b'%' then none else push a rest
path_unescape (a ∷ b ∷ c ∷ s) =
    let after = path_unescape s in
    let rest = path_unescape (b ∷ c ∷ s) in
    if nat_eq a b'%' then escape (unhex b) (unhex c) after else push a rest
