-- ===== src/Profiles/Ports/RoundTrip.antt =====
-- A port expression, printed and parsed again.
use sub_share_go.Common.{
  ℕ, ◌≤◌, List, [], ◌∷◌, ◌++◌, map, some, Bool, true, false, ◌≡◌, ◌≢◌, refl, ap, ◌∙◌, arith, ltb,
  nat_eq, nat_eq_iff, if◌then◌else◌, All, All-append, Bool-cases, inl, inr, cons-ne-nil, ◌||◌, not,
}
use sub_share_go.Common.Result.{ok}
use sub_share_go.Strings.{Text, is_empty, is_space, split, join}
use sub_share_go.Strings.Trim.{Solid, trim_space-Solid}
use sub_share_go.Strings.Decimal.{itoa}
use sub_share_go.Strings.Split.{Lacks, split-join, split_one, split-append}
use sub_share_go.Profiles.Ports.{
  PortRange, has_space, parse_bounds, parse_port_item, parse_port_items, format_range, port_spec,
  parse_port_spec, is_digit,
}
use sub_share_go.Profiles.Ports.Number.{
  Digit, IsPort, itoa-Digit, itoa-is_empty, parse_port_number-itoa,
}

-- a range of ports
abbrev pub IsRange : PortRange → Type 0
IsRange range = IsPort range.start × IsPort range.end × (range.start ≤ range.end)

-- the characters of a range: digits and a dash
abbrev RangeChar : ℕ → Type 0
RangeChar c = (is_digit c || nat_eq c b'-') ≡ true

abbrev ExpressionChar : ℕ → Type 0
ExpressionChar c = (is_digit c || nat_eq c b'-' || nat_eq c b',') ≡ true

All-weaken : (P Q : ℕ → Type 0) (s : Text) → ((c : ℕ) → P c → Q c) → All P s → All Q s
All-weaken P Q [] weak h = tt
All-weaken P Q (c ∷ s) weak h = (weak c h.0, All-weaken P Q s weak h.1)

itoa-Lacks-dash : (n : ℕ) → Lacks b'-' (itoa n)
itoa-Lacks-dash n =
    All-weaken Digit (λ c. c ≢ b'-') (itoa n) (λ c h. ground (arith, h)) (itoa-Digit n)

format_range-RangeChar : (range : PortRange) → All RangeChar (format_range range)
unfolding format_range
format_range-RangeChar range =
    let weak : (n : ℕ) → All RangeChar (itoa n) =
      λ n. All-weaken Digit RangeChar (itoa n) (λ c h. ground (arith, h)) (itoa-Digit n) in
    elim (Bool-cases (nat_eq range.start range.end)) [
      | inl same ↦ rw same (weak range.start)
      | inr apart ↦ rw apart (
          All-append _ (itoa range.start) (b'-' ∷ itoa range.end) (weak range.start)
            (refl, weak range.end))
    ]

format_range-Lacks-comma : (range : PortRange) → Lacks b',' (format_range range)
format_range-Lacks-comma range =
    All-weaken RangeChar (λ c. c ≢ b',') (format_range range) (λ c h. ground (arith, h))
      (format_range-RangeChar range)

append-is_empty : (s t : Text) → is_empty s ≡ false → is_empty (s ++ t) ≡ false
append-is_empty [] t h = cc
append-is_empty (c ∷ s) t h = refl

format_range-is_empty : (range : PortRange) → is_empty (format_range range) ≡ false
unfolding format_range
format_range-is_empty range = elim (Bool-cases (nat_eq range.start range.end)) [
  | inl same ↦ rw same (itoa-is_empty range.start)
  | inr apart ↦
      rw apart
        (append-is_empty (itoa range.start) (b'-' ∷ itoa range.end) (itoa-is_empty range.start))
]

RangeChar-solid : (c : ℕ) → ExpressionChar c → is_space c ≡ false
unfolding is_space
RangeChar-solid c h = ground arith

has_space-Solid : (s : Text) → Solid s → has_space s ≡ false
unfolding has_space
has_space-Solid [] h = refl
has_space-Solid (c ∷ s) h = rw (h.0, has_space-Solid s h.1) refl

abbrev two_bounds : PortRange → Bool
two_bounds range = not (nat_eq range.start range.end)

abbrev pub any_two : List PortRange → Bool
any_two [] = false
any_two (range ∷ ranges) = two_bounds range || any_two ranges

split_bounds :
    (range : PortRange)
    → split b'-' (format_range range) ≡ (
        if nat_eq range.start range.end
        then itoa range.start ∷ []
        else itoa range.start ∷ itoa range.end ∷ [])
unfolding format_range
split_bounds range = elim (Bool-cases (nat_eq range.start range.end)) [
  | inl same ↦ rw same (split_one b'-' (itoa range.start) (itoa-Lacks-dash range.start))
  | inr apart ↦ rw apart (
      split-append b'-' (itoa range.start) (itoa range.end) (itoa-Lacks-dash range.start)
      ∙ ap (λ r. itoa range.start ∷ r)
          (split_one b'-' (itoa range.end) (itoa-Lacks-dash range.end)))
]

abbrev one_of : ℕ → ℕ → PortRange
one_of low high = record { start = low; end = high }

parse_bounds_one :
    (n : ℕ) → IsPort n → parse_bounds (itoa n ∷ []) ≡ some (record { start = n; end = n }, false)
unfolding parse_bounds
parse_bounds_one n h = rw (parse_port_number-itoa n h, parse_bounds) refl

parse_bounds_two :
    (low high : ℕ)
    → IsPort low
    → IsPort high
    → low ≤ high
    → parse_bounds (itoa low ∷ itoa high ∷ []) ≡ some (record { start = low; end = high }, true)
unfolding parse_bounds
parse_bounds_two low high l h order =
    let below : ltb high low ≡ false = ground (arith, order) in
    rw (parse_port_number-itoa low l, parse_port_number-itoa high h, below, parse_bounds) refl

parse_bounds-format :
    (range : PortRange)
    → IsRange range
    → parse_bounds (split b'-' (format_range range)) ≡ some (range, two_bounds range)
parse_bounds-format range (low, high, order) = elim (Bool-cases (nat_eq range.start range.end)) [
  | inl same ↦
      let e : range.start ≡ range.end = (nat_eq_iff range.start range.end).0 same in
      rw (split_bounds range, same)
        (parse_bounds_one range.start low ∙ ap (λ (n : ℕ). some (one_of range.start n, false)) e)
  | inr apart ↦
      rw (split_bounds range, apart) (parse_bounds_two range.start range.end low high order)
]

format_range-Solid : (range : PortRange) → Solid (format_range range)
format_range-Solid range =
    All-weaken RangeChar (λ c. is_space c ≡ false) (format_range range)
      (λ c h. RangeChar-solid c (ground (arith, h))) (format_range-RangeChar range)

parse_port_item-format :
    (range : PortRange)
    → IsRange range
    → parse_port_item true (format_range range) ≡ some (range, two_bounds range)
unfolding parse_port_item
parse_port_item-format range h =
    rw
      (
        trim_space-Solid (format_range range) (format_range-Solid range),
        format_range-is_empty range,
      )
      (parse_bounds-format range h)

parse_port_items-format :
    (ranges : List PortRange)
    → All IsRange ranges
    → parse_port_items true (map format_range ranges) ≡ some (ranges, any_two ranges)
unfolding parse_port_items
parse_port_items-format [] h = refl
parse_port_items-format (range ∷ ranges) h =
    rw (parse_port_item-format range h.0, parse_port_items-format ranges h.1, parse_port_items) refl

join-Solid : (parts : List Text) → All Solid parts → Solid (join b',' parts)
unfolding join
join-Solid [] h = tt
join-Solid (p ∷ []) h = h.0
join-Solid (p ∷ q ∷ ps) h =
    All-append _ p (b',' ∷ join b',' (q ∷ ps)) h.0
      (RangeChar-solid b',' refl, join-Solid (q ∷ ps) h.1)

formats-Solid : (ranges : List PortRange) → All Solid (map format_range ranges)
formats-Solid [] = tt
formats-Solid (range ∷ ranges) = (format_range-Solid range, formats-Solid ranges)

formats-Lacks : (ranges : List PortRange) → All (Lacks b',') (map format_range ranges)
formats-Lacks [] = tt
formats-Lacks (range ∷ ranges) = (format_range-Lacks-comma range, formats-Lacks ranges)

join-is_empty :
    (p : Text) (ps : List Text) → is_empty p ≡ false → is_empty (join b',' (p ∷ ps)) ≡ false
unfolding join
join-is_empty p [] h = h
join-is_empty p (q ∷ ps) h = append-is_empty p (b',' ∷ join b',' (q ∷ ps)) h

-- The canonical expression of ports reads as the same ports.
pub parse_port_spec-format :
    (range : PortRange) (ranges : List PortRange) (protocol : Text)
    → All IsRange (range ∷ ranges)
    → parse_port_spec (join b',' (map format_range (range ∷ ranges))) protocol true
      ≡ ok (port_spec (range ∷ ranges, any_two (range ∷ ranges)))
unfolding parse_port_spec
parse_port_spec-format range ranges protocol h =
    let all = range ∷ ranges in
    let solid = join-Solid (map format_range all) (formats-Solid all) in
    rw
      (
        has_space-Solid (join b',' (map format_range all)) solid,
        trim_space-Solid (join b',' (map format_range all)) solid,
        join-is_empty (format_range range) (map format_range ranges) (format_range-is_empty range),
        split-join b',' (map format_range all)
            (cons-ne-nil (format_range range) (map format_range ranges)) (formats-Lacks all),
        parse_port_items-format all h,
        parse_port_spec,
      )
      refl
