-- ===== src/Sources/Items/Deduplicated.antt =====
-- What a parser collects: each identity once.
use sub_share_go.Common.{
  ℕ, suc, ◌+◌, List, [], ◌∷◌, ◌++◌, Bool, ◌||◌, ◌≡◌, refl, ◌∙◌, arith, length, length-append,
  if◌then◌else◌, text, ◌==◌, contains, times, times-snoc, Bool-cases, inl, inr, text_eq_iff,
}
use sub_share_go.Strings.{Text}
use sub_share_go.Sources.Items.{
  ImportStatus, ParsedKey, Collected, external_dedupe_identity, append_external_parsed_item,
  append_all, safe_external_item,
}

unfoldable pub key_identities : List ParsedKey → List Text
key_identities [] = []
key_identities (key ∷ keys) = external_dedupe_identity key ∷ key_identities keys

abbrev pub nothing_collected : Collected
nothing_collected = record { keys = []; items = []; seen = [] }

key_identities-snoc :
    (keys : List ParsedKey) (key : ParsedKey)
    → key_identities (keys ++ key ∷ []) ≡ key_identities keys ++ external_dedupe_identity key ∷ []
unfolding key_identities
key_identities-snoc [] key = refl
key_identities-snoc (first ∷ keys) key = rw (key_identities-snoc keys key) refl

-- how often the keys have an identity that is seen, and one that is not
abbrev pub once_if : Bool → ℕ
once_if seen = if seen then 1 else 0

append-identities :
    (key : ParsedKey) (c : Collected) (i : Text)
    → times i (key_identities c.keys) ≡ once_if (contains c.seen i)
    → times i (key_identities (append_external_parsed_item key c).keys)
      ≡ once_if (contains (append_external_parsed_item key c).seen i)
unfolding append_external_parsed_item
append-identities key c i h =
    let k = external_dedupe_identity key in
    elim (Bool-cases (contains c.seen k)) [
      | inl again ↦ rw again h
      | inr new ↦
          rw (new, key_identities-snoc c.keys key, times-snoc (key_identities c.keys) k i)
            (ground (arith, text_eq_iff k i))
    ]

append-seen :
    (key : ParsedKey) (c : Collected) (i : Text)
    → contains (append_external_parsed_item key c).seen i
      ≡ (contains c.seen i || external_dedupe_identity key == i)
unfolding append_external_parsed_item
append-seen key c i =
    let k = external_dedupe_identity key in
    elim (Bool-cases (contains c.seen k)) [
      | inl again ↦ rw again (ground (arith, text_eq_iff k i))
      | inr new ↦ rw new (ground arith)
    ]

append-items :
    (key : ParsedKey) (c : Collected)
    → length (append_external_parsed_item key c).items ≡ suc (length c.items)
unfolding append_external_parsed_item
append-items key c = ground (
  arith,
  length-append c.items (safe_external_item key ImportStatus.duplicate [] ∷ []),
  length-append c.items (safe_external_item key key.initial_status [] ∷ []),
)

append_all-identities :
    (keys : List ParsedKey) (c : Collected) (i : Text)
    → times i (key_identities c.keys) ≡ once_if (contains c.seen i)
    → times i (key_identities (append_all keys c).keys)
      ≡ once_if (contains c.seen i || contains (key_identities keys) i)
unfolding append_all key_identities
append_all-identities [] c i h = ground arith
append_all-identities (key ∷ keys) c i h =
    append_all-identities keys (append_external_parsed_item key c) i (append-identities key c i h)
    ∙ rw (append-seen key c i) (ground arith)

append_all-items :
    (keys : List ParsedKey) (c : Collected)
    → length (append_all keys c).items ≡ length c.items + length keys
unfolding append_all
append_all-items [] c = omega arith
append_all-items (key ∷ keys) c =
    omega (arith, append_all-items keys (append_external_parsed_item key c), append-items key c)

-- A parser collects one key for each identity that it reads, the profile's fingerprint or the raw
-- reference, and reports one item for every key that it reads, duplicates included.
pub append_all-distinct :
    (keys : List ParsedKey) (i : Text)
    → let c = append_all keys nothing_collected in
      (times i (key_identities c.keys) ≡ once_if (contains (key_identities keys) i))
      × (length c.items ≡ length keys)
unfolding key_identities
append_all-distinct keys i = (
  append_all-identities keys nothing_collected i refl,
  omega (arith, append_all-items keys nothing_collected),
)
