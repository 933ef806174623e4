-- ===== src/Tests/Feeds.antt =====
-- Feeds with duplicates, and the placement of their keys.
use sub_share_go.Common.{
  List, [], ◌∷◌, none, some, true, ◌≡◌, refl, pos, negsuc, length, times, ℕ_eq, text, text_eq,
}
use sub_share_go.Strings.{codes}
use sub_share_go.Tests.Fixtures.{ascii}
use sub_share_go.Tests.Sources.{plain, two_keys, incoming}
use sub_share_go.Sources.Items.{ParsedKey}
use sub_share_go.Sources.Items.{append_all, external_dedupe_identity}
use sub_share_go.Sources.Items.Deduplicated.{key_identities, nothing_collected, append_all-distinct}
use sub_share_go.Sources.Statements.SortOrder.{first_sort_order-local}
use sub_share_go.Tests.Sources.{stored}
use sub_share_go.Sources.Statements.{beside, min_order, max_order, first_sort_order}

first_sort_order-local_example : first_sort_order none 8 true 2 two_keys.keys ≡ negsuc 6
unfolding first_sort_order min_order max_order beside
first_sort_order-local_example =
    first_sort_order-local none 8 true 2
      (stored 1 (some 7) (codes "a") (codes "f1") (codes "A") (pos 3)
        ∷ stored 2 (some 7) (codes "b") [] (codes "B") (pos 4)
        ∷ [])
      [] (stored 3 none [] [] (codes "local") (negsuc 20)) refl

abbrev read_keys : List ParsedKey
read_keys =
    incoming (codes "a") (codes "f") (codes "vless://0")
    ∷ incoming (codes "b") (codes "f") (codes "vless://1")
    ∷ []

append_all-distinct_example :
    (times (codes "profile:f") (key_identities (append_all read_keys nothing_collected).keys) ≡ 1)
    × (length (append_all read_keys nothing_collected).items ≡ 2)
unfolding key_identities external_dedupe_identity text_eq
append_all-distinct_example = append_all-distinct read_keys (codes "profile:f")
