-- ===== src/Sources/Index.antt =====
-- internal/sources/sync.go: the lookup maps over the stored keys and the labels of the feed.
use sub_share_go.Common.{
  ℕ, suc, List, [], ◌∷◌, none, some, not, contains, ℕ_eq, if◌then◌else◌, text,
}
use sub_share_go.Table.{Table, lookup, put}
use sub_share_go.Strings.{Text, trim_space, is_empty}
use sub_share_go.Sources.Items.{ParsedKey}
use sub_share_go.Sources.Rows.{SourceKey}
use sub_share_go.Sources.State.{ProfileIdentity, KeyIndex, empty_index, sync_label}

-- the first key of a fingerprint stays
abbrev pub put_new : Text → SourceKey → Table Text SourceKey → Table Text SourceKey
put_new k key m = elim (lookup k m) [ none ↦ put k key m | some old ↦ m ]

-- `counts[label]++`
abbrev pub count_of : Text → Table Text ℕ → ℕ
count_of k m = elim (lookup k m) [ none ↦ 0 | some n ↦ n ]

abbrev pub count_up : Text → Table Text ℕ → Table Text ℕ
count_up k m = put k (suc (count_of k m)) m

unfoldable pub index_legacy_fingerprints :
    ⦃p : ProfileIdentity⦄ → SourceKey → List Text → Table Text SourceKey → Table Text SourceKey
index_legacy_fingerprints key [] m = m
index_legacy_fingerprints ⦃p⦄ key (fingerprint_key ∷ rest) m =
    let with_key : Table Text SourceKey = elim (p.semantic_fingerprint key.url fingerprint_key) [
      | none ↦ m
      | some fingerprint ↦ put_new fingerprint key m
    ] in
    index_legacy_fingerprints key rest with_key

-- one round of the loop of `indexExistingKeys`, for a row that the repair has kept
unfoldable pub index_key : ⦃p : ProfileIdentity⦄ → List Text → SourceKey → KeyIndex → KeyIndex
index_key fingerprint_keys key m =
    let label = trim_space key.label in
    record {
      by_ref = if is_empty key.ref then m.by_ref else put key.ref key m.by_ref;
      by_fingerprint =
          if not (is_empty key.fingerprint)
          then put_new key.fingerprint key m.by_fingerprint
          else if is_empty key.url
          then m.by_fingerprint
          else index_legacy_fingerprints key fingerprint_keys m.by_fingerprint;
      by_label = if is_empty label then m.by_label else put label key m.by_label;
      label_counts = if is_empty label then m.label_counts else count_up label m.label_counts;
      ids = key.id ∷ m.ids;
    }

unfoldable pub index_keys :
    ⦃p : ProfileIdentity⦄ → List Text → List ℕ → List SourceKey → KeyIndex → KeyIndex
index_keys fingerprint_keys removed [] m = m
index_keys fingerprint_keys removed (key ∷ keys) m =
    index_keys fingerprint_keys removed keys
      (if contains removed key.id then m else index_key fingerprint_keys key m)

unfoldable pub index_existing_keys :
    ⦃p : ProfileIdentity⦄ → List Text → List ℕ → List SourceKey → KeyIndex
index_existing_keys fingerprint_keys removed keys =
    index_keys fingerprint_keys removed keys empty_index

unfoldable pub count_labels : ℕ → List ParsedKey → Table Text ℕ → Table Text ℕ
count_labels index [] counts = counts
count_labels index (item ∷ items) counts =
    count_labels (suc index) items (count_up (sync_label item index) counts)

unfoldable pub count_incoming_labels : List ParsedKey → Table Text ℕ
count_incoming_labels items = count_labels 0 items []
