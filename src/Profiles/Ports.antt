-- ===== src/Profiles/Ports.antt =====
-- internal/profiles/uri.go: port expressions, such as `443,5000-6000`.
pub mod Number
pub mod RoundTrip
pub mod Parsed
use sub_share_go.Common.{
  ℕ, zero, suc, ◌+◌, ◌-◌, ◌*◌, List, [], ◌∷◌, ◌++◌, map, Option, none, some, Bool, true, false, not,
  ◌&&◌, ◌||◌, ltb, leb, nat_eq, length, if◌then◌else◌,
}
use sub_share_go.Common.Result.{Result, err, ok}
use sub_share_go.Strings.{Text, codes, trim_space, is_space, is_empty, split, join}
use sub_share_go.Strings.Decimal.{itoa}
use sub_share_go.Profiles.Error.{ErrorCode, ProfileError, new_error}

pub data PortKind : Type 0 where
  single expression : PortKind

-- both ends fit in 16 bits, as is proved of what the parser returns
pub record PortRange : Type 0 where
  pub start : ℕ
  pub end : ℕ

pub record PortSpec : Type 0 where
  pub expression : Text
  pub kind : PortKind
  pub ranges : List PortRange
  pub explicit : Bool

abbrev pub is_digit : ℕ → Bool
is_digit c = leb b'0' c && leb c b'9'

-- the digits read so far, and those of the text
unfoldable pub number_of : ℕ → Text → Option ℕ
number_of n [] = some n
number_of n (c ∷ s) =
    let rest = number_of (n * 10 + (c - b'0')) s in if is_digit c then rest else none

-- a number beyond the range of `Atoi` is beyond 65535 too
unfoldable pub parse_port_number : Text → Option ℕ
parse_port_number raw = if is_empty raw then none else elim (number_of 0 raw) [
  | none ↦ none
  | some port ↦ if ltb port 1 || ltb 65535 port then none else some port
]

unfoldable pub has_space : Text → Bool
has_space [] = false
has_space (c ∷ s) = is_space c || has_space s

-- a range and whether it was written with two bounds
unfoldable pub parse_bounds : List Text → Option (PortRange × Bool)
parse_bounds (one ∷ []) = elim (parse_port_number one) [
  | none ↦ none
  | some start ↦ some (record { start = start; end = start }, false)
]
parse_bounds (one ∷ two ∷ []) = elim (parse_port_number one) [
  | none ↦ none
  | some start ↦ elim (parse_port_number two) [
    | none ↦ none
    | some end ↦ if ltb end start then none else some (record { start = start; end = end }, true)
  ]
]
parse_bounds _ = none

-- one round of the loop of `parsePortSpec`
unfoldable pub parse_port_item : Bool → Text → Option (PortRange × Bool)
parse_port_item allow_expression raw =
    let item = trim_space raw in
    let bounds = split b'-' item in
    if is_empty item
    then none
    else if not allow_expression && not (nat_eq (length bounds) 1)
    then none
    else parse_bounds bounds

unfoldable pub parse_port_items : Bool → List Text → Option (List PortRange × Bool)
parse_port_items allow_expression [] = some ([], false)
parse_port_items allow_expression (item ∷ items) = elim (parse_port_item allow_expression item) [
  | none ↦ none
  | some (range, two) ↦ elim (parse_port_items allow_expression items) [
    | none ↦ none
    | some (ranges, more) ↦ some (range ∷ ranges, two || more)
  ]
]

unfoldable pub format_range : PortRange → Text
format_range range =
    if nat_eq range.start range.end
    then itoa range.start
    else itoa range.start ++ b'-' ∷ itoa range.end

abbrev pub kind_of : Bool → List PortRange → PortKind
kind_of contains_range ranges =
    if contains_range || ltb 1 (length ranges) then PortKind.expression else PortKind.single

abbrev pub port_spec : List PortRange × Bool → PortSpec
port_spec found = record {
  expression = join b',' (map format_range found.0);
  kind = kind_of found.1 found.0;
  ranges = found.0;
  explicit = false;
}

abbrev pub invalid_port_of : Text → Result ProfileError PortSpec
invalid_port_of protocol = err (new_error ErrorCode.invalid_port protocol (codes "port"))

unfoldable pub parse_port_spec : Text → Text → Bool → Result ProfileError PortSpec
parse_port_spec raw protocol allow_expression =
    let expression = trim_space raw in
    let items = split b',' expression in
    if has_space raw
    then invalid_port_of protocol
    else if is_empty expression
    then invalid_port_of protocol
    else if not allow_expression && not (nat_eq (length items) 1)
    then invalid_port_of protocol
    else elim (parse_port_items allow_expression items) [
      | none ↦ invalid_port_of protocol
      | some found ↦ ok (port_spec found)
    ]
