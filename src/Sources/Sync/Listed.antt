-- ===== src/Sources/Sync/Listed.antt =====
-- The keys that a synchronisation matches with are keys that it has listed: `Listed` follows a
-- property of their ids from the query through the repair and the lookup maps to the match.
use sub_share_go.Common.{
  ℕ, ◌<◌, List, [], ◌∷◌, some, true, false, ◌≡◌, refl, ◌∙◌, arith, All, nat_eq, Bool-cases,
  Option-cases, inl, inr, if◌then◌else◌, Bool, contains, ℕ_eq, text, not,
}
use sub_share_go.Table.{Table, lookup, put, All-put, All-lookup}
use sub_share_go.Strings.{Text, is_empty, trim_space}
use sub_share_go.Sources.Items.{ParsedKey}
use sub_share_go.Sources.Rows.{SourceKey, SourceKeyRow, owned, source_keys_of, to_source_key}
use sub_share_go.Sources.Statements.KeyStep.{Owns}
use sub_share_go.Sources.Statements.Preserved.{Increasing}
use sub_share_go.Sources.Statements.Owned.{All-map, All-both}
use sub_share_go.Sources.State.{ProfileIdentity, KeyIndex, empty_index}
use sub_share_go.Sources.Index.{
  put_new, index_legacy_fingerprints, index_key, index_keys, index_existing_keys,
}
use sub_share_go.Sources.Reconcile.{match_existing, match_fingerprint, match_label}

source_keys_of-All :
    (P : ℕ → Type 0) (source : ℕ) (rows : List SourceKeyRow)
    → All (λ row. P row.id) rows
    → All (λ key. P key.id) (source_keys_of source rows)
unfolding source_keys_of
source_keys_of-All P source [] h = tt
source_keys_of-All P source (row ∷ rows) h =
    let rest = source_keys_of-All P source rows h.1 in
    elim (Bool-cases (owned source row)) [
      | inl mine ↦ rw mine (h.0, rest)
      | inr other ↦ rw other rest
    ]

above-Owns :
    (source id : ℕ) (rows : List SourceKeyRow) → All (λ row. id < row.id) rows → Owns source id rows
above-Owns source id rows h =
    All-map _ (λ row. nat_eq row.id id ≡ true → owned source row ≡ true)
      (λ row less e. absurd (ground (arith, less, e))) rows h

All-if_cons :
    (P : SourceKey → Type 0) (b : Bool) (key : SourceKey) (keys : List SourceKey)
    → (b ≡ true → P key)
    → All P keys
    → All P (if b then key ∷ keys else keys)
All-if_cons P true key keys p h = (p refl, h)
All-if_cons P false key keys p h = h

-- With distinct ids the rows that have the id of a listed key are the source's.
pub source_keys_of-Owns :
    (source : ℕ) (rows : List SourceKeyRow) (next : ℕ)
    → Increasing rows next
    → All (λ key. Owns source key.id rows) (source_keys_of source rows)
unfolding source_keys_of
source_keys_of-Owns source [] next h = tt
source_keys_of-Owns source (row ∷ rows) next (below, above, rest) =
    let later = source_keys_of-Owns source rows next rest in
    let higher = source_keys_of-All (λ id. row.id < id) source rows above in
    let grown : All (λ key. Owns source key.id (row ∷ rows)) (source_keys_of source rows) =
      All-both (λ key. Owns source key.id rows) (λ key. row.id < key.id) _
        (λ key own less. ((λ e. absurd (ground (arith, less, e))), own)) _ later higher in
    All-if_cons (λ key. Owns source key.id (row ∷ rows)) (owned source row) (to_source_key row) _
      (λ mine. ((λ e. mine), above-Owns source row.id rows above)) grown

-- What holds of the ids of all keys in the lookup maps.
abbrev pub Indexed : (ℕ → Type 0) → KeyIndex → Type 0
Indexed P m =
    All (λ entry. P entry.1.id) m.by_ref
    × All (λ entry. P entry.1.id) m.by_fingerprint
    × All (λ entry. P entry.1.id) m.by_label

pub Indexed-map :
    (P Q : ℕ → Type 0) → ((id : ℕ) → P id → Q id) → (m : KeyIndex) → Indexed P m → Indexed Q m
Indexed-map P Q f m (a, b, c) = (
  All-map _ (λ entry. Q entry.1.id) (λ entry p. f entry.1.id p) m.by_ref a,
  All-map _ (λ entry. Q entry.1.id) (λ entry p. f entry.1.id p) m.by_fingerprint b,
  All-map _ (λ entry. Q entry.1.id) (λ entry p. f entry.1.id p) m.by_label c,
)

module _ (P : ℕ → Type 0) where
  abbrev pub InTable : Table Text SourceKey → Type 0
  InTable m = All (λ entry. P entry.1.id) m

  put_new-InTable :
      (k : Text) (key : SourceKey) (m : Table Text SourceKey)
      → P key.id
      → InTable m
      → InTable (put_new k key m)
  put_new-InTable k key m p h = elim (Option-cases (lookup k m)) [
    | inl absent ↦ rw (absent, put_new) (All-put (λ entry. P entry.1.id) k key m p h)
    | inr (old, found) ↦ rw (found, put_new) h
  ]

  index_legacy_fingerprints-InTable :
      ⦃i : ProfileIdentity⦄ (key : SourceKey) (keys : List Text) (m : Table Text SourceKey)
      → P key.id
      → InTable m
      → InTable (index_legacy_fingerprints key keys m)
  unfolding index_legacy_fingerprints
  index_legacy_fingerprints-InTable key [] m p h = h
  index_legacy_fingerprints-InTable ⦃i⦄ key (k ∷ keys) m p h =
      elim (Option-cases (i.semantic_fingerprint key.url k)) [
        | inl failed ↦ rw failed (index_legacy_fingerprints-InTable key keys m p h)
        | inr (f, found) ↦ rw found (
            index_legacy_fingerprints-InTable key keys (put_new f key m) p
              (put_new-InTable f key m p h))
      ]

  put_unless-InTable :
      (skip : Bool) (k : Text) (key : SourceKey) (m : Table Text SourceKey)
      → P key.id
      → InTable m
      → InTable (if skip then m else put k key m)
  put_unless-InTable true k key m p h = h
  put_unless-InTable false k key m p h = All-put (λ entry. P entry.1.id) k key m p h

  index_key-Indexed :
      ⦃i : ProfileIdentity⦄ (keys : List Text) (key : SourceKey) (m : KeyIndex)
      → P key.id
      → Indexed P m
      → Indexed P (index_key keys key m)
  unfolding index_key
  index_key-Indexed keys key m p (a, b, c) = (
    put_unless-InTable (is_empty key.ref) key.ref key m.by_ref p a,
    elim (Bool-cases (not (is_empty key.fingerprint))) [
      | inl own ↦ rw own (put_new-InTable key.fingerprint key m.by_fingerprint p b)
      | inr blank ↦ elim (Bool-cases (is_empty key.url)) [
        | inl no_url ↦ rw (blank, no_url) b
        | inr url ↦
            rw (blank, url) (index_legacy_fingerprints-InTable key keys m.by_fingerprint p b)
      ]
    ],
    put_unless-InTable (is_empty (trim_space key.label)) (trim_space key.label) key m.by_label p c,
  )

  if-Indexed :
      (b : Bool) (m n : KeyIndex) → Indexed P m → Indexed P n → Indexed P (if b then m else n)
  if-Indexed true m n h k = h
  if-Indexed false m n h k = k

  index_keys-Indexed :
      ⦃i : ProfileIdentity⦄ (fingerprint_keys : List Text) (removed : List ℕ)
      (keys : List SourceKey) (m : KeyIndex)
      → All (λ key. P key.id) keys
      → Indexed P m
      → Indexed P (index_keys fingerprint_keys removed keys m)
  unfolding index_keys
  index_keys-Indexed fingerprint_keys removed [] m h indexed = indexed
  index_keys-Indexed fingerprint_keys removed (key ∷ keys) m h indexed =
      let next = index_key fingerprint_keys key m in
      index_keys-Indexed fingerprint_keys removed keys (if contains removed key.id then m else next)
        h.1
        (if-Indexed (contains removed key.id) m next indexed
          (index_key-Indexed fingerprint_keys key m h.0 indexed))

  pub index_existing_keys-Indexed :
      ⦃i : ProfileIdentity⦄ (fingerprint_keys : List Text) (removed : List ℕ)
      (keys : List SourceKey)
      → All (λ key. P key.id) keys
      → Indexed P (index_existing_keys fingerprint_keys removed keys)
  unfolding index_existing_keys
  index_existing_keys-Indexed fingerprint_keys removed keys h =
      index_keys-Indexed fingerprint_keys removed keys empty_index h (tt, tt, tt)

  match_fingerprint-InTable :
      (candidates : List Text) (m : Table Text SourceKey) (key : SourceKey)
      → InTable m
      → match_fingerprint candidates m ≡ some key
      → P key.id
  unfolding match_fingerprint
  match_fingerprint-InTable [] m key h found = absurd (cc)
  match_fingerprint-InTable (candidate ∷ candidates) m key h found =
      elim (Option-cases (lookup candidate m)) [
        | inl absent ↦
            match_fingerprint-InTable candidates m key h (rw (absent, match_fingerprint) at found)
        | inr (other, here) ↦
            All-lookup (λ entry. P entry.1.id) candidate m
              (here ∙ (rw (here, match_fingerprint) at found)) h
      ]

  match_label-InTable :
      (label : Text) (incoming : Table Text ℕ) (m : KeyIndex) (key : SourceKey)
      → InTable m.by_label
      → match_label label incoming m ≡ some key
      → P key.id
  unfolding match_label
  match_label-InTable label incoming m key h found = elim (Option-cases (lookup label m.by_label)) [
    | inl absent ↦ absurd (ground (arith, absent))
    | inr (other, here) ↦
        All-lookup (λ entry. P entry.1.id) label {v = key} m.by_label (ground (arith, here)) h
  ]

  -- a match is a key of the lookup maps
  pub match_existing-Indexed :
      (item : ParsedKey) (ref label : Text) (incoming : Table Text ℕ) (m : KeyIndex)
      (key : SourceKey)
      → Indexed P m
      → match_existing item ref label incoming m ≡ some key
      → P key.id
  unfolding match_existing
  match_existing-Indexed item ref label incoming m key (a, b, c) found =
      elim (Option-cases (lookup ref m.by_ref)) [
        | inr (other, here) ↦
            All-lookup (λ entry. P entry.1.id) ref m.by_ref
              (here ∙ (rw (here, match_existing) at found)) a
        | inl absent ↦
            elim (Option-cases (match_fingerprint item.fingerprint_candidates m.by_fingerprint)) [
              | inr (other, here) ↦
                  match_fingerprint-InTable item.fingerprint_candidates m.by_fingerprint key b
                    (here ∙ (rw (absent, here, match_existing) at found))
              | inl none' ↦
                  match_label-InTable label incoming m key c
                    (rw (absent, none', match_existing) at found)
            ]
      ]
