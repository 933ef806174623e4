-- ===== src/Sources/Items/Counted.antt =====
-- What `CountItems` counts.
use sub_share_go.Common.{
  ℕ, suc, ◌+◌, List, [], ◌∷◌, Bool, ◌||◌, ◌≡◌, refl, arith, length, if◌then◌else◌, text, ◌==◌,
}
use sub_share_go.Strings.{codes}
use sub_share_go.Sources.Items.{
  ImportStatus, ImportItem, Counts, no_counts, count_status, count_item, count_items,
  count_items_from, is_compatibility_only, is_ambiguous, has_ambiguity_warning,
}

-- the number of items that a test selects
abbrev pub how_many : (ImportItem → Bool) → List ImportItem → ℕ
how_many test [] = 0
how_many test (item ∷ items) =
    let rest = how_many test items in if test item then suc rest else rest

-- the sum of the counters that stand for one status each
abbrev pub settled : Counts → ℕ
settled c =
    c.accepted + c.added + c.rejected + c.duplicate + c.updated + c.unchanged + c.unsupported

abbrev pub compatible_only : ImportItem → Bool
compatible_only item = item.compatibility == codes "read_only" || is_compatibility_only item.status

abbrev pub unclear : ImportItem → Bool
unclear item = has_ambiguity_warning item.warnings || is_ambiguous item.status

-- the statuses that no counter stands for alone
abbrev pub unsettled : ImportItem → Bool
unsettled item = is_compatibility_only item.status || is_ambiguous item.status

settled-count_status :
    (status : ImportStatus) (c : Counts)
    → settled (count_status status c)
        + (if is_compatibility_only status || is_ambiguous status then 1 else 0)
      ≡ suc (settled c)
unfolding count_status is_compatibility_only is_ambiguous
settled-count_status ImportStatus.accepted c = omega arith
settled-count_status ImportStatus.added c = omega arith
settled-count_status ImportStatus.rejected c = omega arith
settled-count_status ImportStatus.duplicate c = omega arith
settled-count_status ImportStatus.updated c = omega arith
settled-count_status ImportStatus.unchanged c = omega arith
settled-count_status ImportStatus.compatibility_only c = omega arith
settled-count_status ImportStatus.ambiguous c = omega arith
settled-count_status ImportStatus.unsupported c = omega arith

-- the two counters that `countStatus` leaves alone
kept-count_status :
    (status : ImportStatus) (c : Counts)
    → ((count_status status c).compatibility_only ≡ c.compatibility_only)
      × ((count_status status c).ambiguous ≡ c.ambiguous)
unfolding count_status
kept-count_status ImportStatus.accepted c = (refl, refl)
kept-count_status ImportStatus.added c = (refl, refl)
kept-count_status ImportStatus.rejected c = (refl, refl)
kept-count_status ImportStatus.duplicate c = (refl, refl)
kept-count_status ImportStatus.updated c = (refl, refl)
kept-count_status ImportStatus.unchanged c = (refl, refl)
kept-count_status ImportStatus.compatibility_only c = (refl, refl)
kept-count_status ImportStatus.ambiguous c = (refl, refl)
kept-count_status ImportStatus.unsupported c = (refl, refl)

-- one item
count_item-counts :
    (item : ImportItem) (c : Counts)
    → (settled (count_item item c) + (if unsettled item then 1 else 0) ≡ suc (settled c))
      × ((count_item item c).compatibility_only
          ≡ (if compatible_only item then suc c.compatibility_only else c.compatibility_only))
      × ((count_item item c).ambiguous ≡ (if unclear item then suc c.ambiguous else c.ambiguous))
unfolding count_item
count_item-counts item c =
    let c' =
      if compatible_only item
      then record c { compatibility_only = suc c.compatibility_only }
      else c in
    let c'' = if unclear item then record c' { ambiguous = suc c'.ambiguous } else c' in
    let kept = kept-count_status item.status c'' in
    let sum = settled-count_status item.status c'' in
    (ground (arith, sum), ground (arith, kept), ground (arith, kept))

count_items_from-counts :
    (items : List ImportItem) (c : Counts)
    → (settled (count_items_from c items) + how_many unsettled items ≡ settled c + length items)
      × ((count_items_from c items).compatibility_only
          ≡ c.compatibility_only + how_many compatible_only items)
      × ((count_items_from c items).ambiguous ≡ c.ambiguous + how_many unclear items)
unfolding count_items_from
count_items_from-counts [] c = (omega arith, omega arith, omega arith)
count_items_from-counts (item ∷ items) c =
    let (settled_one, compatible_one, unclear_one) = count_item-counts item c in
    let (settled_rest, compatible_rest, unclear_rest) =
      count_items_from-counts items (count_item item c) in
    (
      ground (arith, settled_one, settled_rest),
      ground (arith, compatible_one, compatible_rest),
      ground (arith, unclear_one, unclear_rest),
    )

-- The seven counters of a final status add up to the items less those that are only compatible or
-- ambiguous; these two are counted by the item's status, its compatibility and its warnings.
pub count_items-partition :
    (items : List ImportItem)
    → (settled (count_items items) + how_many unsettled items ≡ length items)
      × ((count_items items).compatibility_only ≡ how_many compatible_only items)
      × ((count_items items).ambiguous ≡ how_many unclear items)
unfolding count_items
count_items-partition items =
    let (sum, compatible, unclear_count) = count_items_from-counts items no_counts in
    (omega (arith, sum), omega (arith, compatible), omega (arith, unclear_count))
