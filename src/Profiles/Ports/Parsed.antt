-- ===== src/Profiles/Ports/Parsed.antt =====
-- What a port expression that is accepted is: ranges of ports, whose canonical form reads as the same.
use sub_share_go.Common.{
  List, [], ◌∷◌, some, Bool, true, ◌≡◌, ◌≢◌, refl, arith, All, Option-cases, inl, inr, length,
  cons-ne-nil,
}
use sub_share_go.Common.Result.{ok}
use sub_share_go.Strings.{Text, trim_space, split}
use sub_share_go.Strings.Split.{split-ne-nil}
use sub_share_go.Profiles.Ports.{
  PortRange, PortSpec, parse_bounds, parse_port_item, parse_port_items, port_spec, parse_port_spec,
  parse_port_number,
}
use sub_share_go.Profiles.Ports.Number.{parse_port_number-IsPort}
use sub_share_go.Profiles.Ports.RoundTrip.{IsRange, any_two, parse_port_spec-format}

parse_bounds-IsRange :
    (bounds : List Text) {range : PortRange} {two : Bool}
    → parse_bounds bounds ≡ some (range, two)
    → IsRange range
unfolding parse_bounds
parse_bounds-IsRange [] h = absurd (cc h)
parse_bounds-IsRange (one ∷ []) h = elim (Option-cases (parse_port_number one)) [
  | inl absent ↦ ground arith
  | inr (start, found) ↦ ground (arith, parse_port_number-IsPort one found)
]
parse_bounds-IsRange (one ∷ two ∷ []) h = elim (Option-cases (parse_port_number one)) [
  | inl absent ↦ ground arith
  | inr (start, found) ↦ elim (Option-cases (parse_port_number two)) [
    | inl absent ↦ ground arith
    | inr (end, found') ↦
        ground (arith, parse_port_number-IsPort one found, parse_port_number-IsPort two found')
  ]
]
parse_bounds-IsRange (one ∷ two ∷ three ∷ more) h = absurd (cc h)

parse_port_item-IsRange :
    (allow : Bool) (raw : Text) {range : PortRange} {two : Bool}
    → parse_port_item allow raw ≡ some (range, two)
    → IsRange range
unfolding parse_port_item
parse_port_item-IsRange allow raw {range} {two} h =
    let found : parse_bounds (split b'-' (trim_space raw)) ≡ some (range, two) = ground arith in
    parse_bounds-IsRange (split b'-' (trim_space raw)) found

parse_port_items-IsRange :
    (allow : Bool) (items : List Text) {ranges : List PortRange} {two : Bool}
    → parse_port_items allow items ≡ some (ranges, two)
    → All IsRange ranges × (length ranges ≡ length items)
unfolding parse_port_items
parse_port_items-IsRange allow [] {ranges} {two} h =
    let e : [] ≡ ranges = ground arith in rw (← e) (tt, refl)
parse_port_items-IsRange allow (item ∷ items) {ranges} {two} h =
    elim (Option-cases (parse_port_item allow item)) [
      | inl absent ↦ absurd (ground arith)
      | inr ((range, one), found) ↦ elim (Option-cases (parse_port_items allow items)) [
        | inl absent ↦ absurd (ground arith)
        | inr ((rest, more), found') ↦
            let e : (range ∷ rest) ≡ ranges = ground arith in
            let (all, same) = parse_port_items-IsRange allow items found' in
            rw (← e) ((parse_port_item-IsRange allow item found, all), ground (arith, same))
      ]
    ]

parse_port_spec-cases :
    (raw protocol : Text) (allow : Bool) {spec : PortSpec}
    → parse_port_spec raw protocol allow ≡ ok spec
    → (found : List PortRange × Bool) × (parse_port_items allow (split b',' (trim_space raw))
        ≡ some found)
      × (port_spec found ≡ spec)
unfolding parse_port_spec
parse_port_spec-cases raw protocol allow {spec} h =
    elim (Option-cases (parse_port_items allow (split b',' (trim_space raw)))) [
      | inl absent ↦ absurd (ground arith)
      | inr (found, e) ↦ let same : port_spec found ≡ spec = ground arith in (found, e, same)
    ]

canonical-again :
    (ranges : List PortRange) (two : Bool) (protocol : Text)
    → All IsRange ranges
    → ranges ≢ []
    → let spec = port_spec (ranges, two) in
      (again : PortSpec) × (parse_port_spec spec.expression protocol true ≡ ok again)
      × (again.expression ≡ spec.expression)
      × (again.ranges ≡ spec.ranges)
canonical-again [] two protocol all ne = absurd (ne refl)
canonical-again (range ∷ ranges) two protocol all ne = (
  port_spec (range ∷ ranges, any_two (range ∷ ranges)),
  parse_port_spec-format range ranges protocol all,
  refl,
  refl,
)

length-ne-nil :
    {A B : Type 0} (xs : List A) (ys : List B) → length xs ≡ length ys → ys ≢ [] → xs ≢ []
length-ne-nil [] [] h ne = absurd (ne refl)
length-ne-nil [] (y ∷ ys) h ne = absurd (ground arith)
length-ne-nil (x ∷ xs) ys h ne = cons-ne-nil x xs

-- A port expression that is accepted stands for ranges of ports, each between 1 and 65535 and in
-- order; its canonical expression is accepted again, with the same ranges and the same expression.
pub parse_port_spec-canonical :
    (raw protocol : Text) (allow : Bool) (spec : PortSpec)
    → parse_port_spec raw protocol allow ≡ ok spec
    → All IsRange spec.ranges
      × ((again : PortSpec) × (parse_port_spec spec.expression protocol true ≡ ok again)
          × (again.expression ≡ spec.expression)
          × (again.ranges ≡ spec.ranges))
parse_port_spec-canonical raw protocol allow spec h =
    let ((ranges, two), found, same) = parse_port_spec-cases raw protocol allow h in
    let items = split b',' (trim_space raw) in
    let (all, size) = parse_port_items-IsRange allow items found in
    let ne = length-ne-nil ranges items size (split-ne-nil b',' (trim_space raw)) in
    rw (← same) (all, canonical-again ranges two protocol all ne)
