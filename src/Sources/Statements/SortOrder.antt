-- ===== src/Sources/Statements/SortOrder.antt =====
-- `NextSortOrder`: where a synchronisation begins to place its keys.
use sub_share_go.Common.{
  ℕ, zero, suc, ◌+◌, List, [], ◌∷◌, ◌++◌, Option, none, Bool, true, false, ◌≡◌, refl, arith, ℤ, pos,
  negsuc, int_leb, int_minus, int_succ, Bool-cases, Option-cases, inl, inr, ◌≢◌,
}
use sub_share_go.Sources.Rows.{SourceKeyRow}
use sub_share_go.Sources.Statements.{beside, min_order, max_order, first_sort_order, or_else}

pub int_leb_refl : (a : ℤ) → int_leb a a ≡ true
int_leb_refl (pos a) = ground arith
int_leb_refl (negsuc a) = ground arith

int_leb_total : (a b : ℤ) → int_leb a b ≡ false → int_leb b a ≡ true
int_leb_total (pos a) (pos b) h = ground arith
int_leb_total (pos a) (negsuc b) h = refl
int_leb_total (negsuc a) (pos b) h = cc
int_leb_total (negsuc a) (negsuc b) h = ground arith

pub int_leb_trans : (a b c : ℤ) → int_leb a b ≡ true → int_leb b c ≡ true → int_leb a c ≡ true
int_leb_trans (pos a) (pos b) (pos c) h k = ground arith
int_leb_trans (pos a) (pos b) (negsuc c) h k = cc
int_leb_trans (pos a) (negsuc b) c h k = cc
int_leb_trans (negsuc a) b (pos c) h k = refl
int_leb_trans (negsuc a) (pos b) (negsuc c) h k = cc
int_leb_trans (negsuc a) (negsuc b) (negsuc c) h k = ground arith

int_minus_mono :
    (a b : ℤ) (n : ℕ) → int_leb a b ≡ true → int_leb (int_minus a n) (int_minus b n) ≡ true
int_minus_mono (pos a) (pos b) n h = ground arith
int_minus_mono (pos a) (negsuc b) n h = cc
int_minus_mono (negsuc a) (pos b) n h = ground arith
int_minus_mono (negsuc a) (negsuc b) n h = ground arith

pub int_succ_mono : (a b : ℤ) → int_leb a b ≡ true → int_leb (int_succ a) (int_succ b) ≡ true
int_succ_mono (pos a) (pos b) h = ground arith
int_succ_mono (pos a) (negsuc b) h = cc
int_succ_mono (negsuc zero) (pos b) h = ground arith
int_succ_mono (negsuc (suc a)) (pos b) h = refl
int_succ_mono (negsuc zero) (negsuc zero) h = refl
int_succ_mono (negsuc zero) (negsuc (suc b)) h = ground arith
int_succ_mono (negsuc (suc a)) (negsuc zero) h = refl
int_succ_mono (negsuc (suc a)) (negsuc (suc b)) h = ground arith

module _ (category : Option ℕ) (source : ℕ) where
  min_order-some :
      (before after : List SourceKeyRow) (row : SourceKeyRow)
      → beside category source row ≡ true
      → min_order category source (before ++ row ∷ after) ≢ none
  unfolding min_order
  min_order-some [] after row here h = elim (Option-cases (min_order category source after)) [
    | inl empty ↦ cc (rw (here, empty, min_order) at h)
    | inr (least, found) ↦ cc (rw (here, found, min_order) at h)
  ]
  min_order-some (first ∷ before) after row here h =
      let rest = min_order-some before after row here in
      elim (Bool-cases (beside category source first)) [
        | inr apart ↦ rest (rw (apart, min_order) at h)
        | inl counted ↦ elim (Option-cases (min_order category source (before ++ row ∷ after))) [
          | inl empty ↦ rest empty
          | inr (least, found) ↦ cc (rw (counted, found, min_order) at h)
        ]
      ]

  min_order-le :
      (before after : List SourceKeyRow) (row : SourceKeyRow) (other : ℤ)
      → beside category source row ≡ true
      → int_leb (or_else (min_order category source (before ++ row ∷ after)) other) row.sort_order
        ≡ true
  unfolding min_order
  min_order-le [] after row other here = elim (Option-cases (min_order category source after)) [
    | inl empty ↦ rw (here, empty) (int_leb_refl row.sort_order)
    | inr (least, found) ↦ elim (Bool-cases (int_leb row.sort_order least)) [
      | inl lower ↦ rw (here, found, lower) (int_leb_refl row.sort_order)
      | inr higher ↦ rw (here, found, higher) (int_leb_total row.sort_order least higher)
    ]
  ]
  min_order-le (first ∷ before) after row other here =
      let rest = min_order-le before after row other here in
      elim (Bool-cases (beside category source first)) [
        | inr apart ↦ rw apart rest
        | inl counted ↦ elim (Option-cases (min_order category source (before ++ row ∷ after))) [
          | inl empty ↦ absurd (min_order-some before after row here empty)
          | inr (least, found) ↦ elim (Bool-cases (int_leb first.sort_order least)) [
            | inl lower ↦
                rw (counted, found, lower)
                  (int_leb_trans first.sort_order least row.sort_order lower (rw found at rest))
            | inr higher ↦ rw (counted, found, higher) (rw found at rest)
          ]
        ]
      ]

  max_order-some :
      (before after : List SourceKeyRow) (row : SourceKeyRow)
      → beside category source row ≡ true
      → max_order category source (before ++ row ∷ after) ≢ none
  unfolding max_order
  max_order-some [] after row here h = elim (Option-cases (max_order category source after)) [
    | inl empty ↦ cc (rw (here, empty, max_order) at h)
    | inr (most, found) ↦ cc (rw (here, found, max_order) at h)
  ]
  max_order-some (first ∷ before) after row here h =
      let rest = max_order-some before after row here in
      elim (Bool-cases (beside category source first)) [
        | inr apart ↦ rest (rw (apart, max_order) at h)
        | inl counted ↦ elim (Option-cases (max_order category source (before ++ row ∷ after))) [
          | inl empty ↦ rest empty
          | inr (most, found) ↦ cc (rw (counted, found, max_order) at h)
        ]
      ]

  max_order-le :
      (before after : List SourceKeyRow) (row : SourceKeyRow) (other : ℤ)
      → beside category source row ≡ true
      → int_leb row.sort_order (or_else (max_order category source (before ++ row ∷ after)) other)
        ≡ true
  unfolding max_order
  max_order-le [] after row other here = elim (Option-cases (max_order category source after)) [
    | inl empty ↦ rw (here, empty) (int_leb_refl row.sort_order)
    | inr (most, found) ↦ elim (Bool-cases (int_leb most row.sort_order)) [
      | inl lower ↦ rw (here, found, lower) (int_leb_refl row.sort_order)
      | inr higher ↦ rw (here, found, higher) (int_leb_total most row.sort_order higher)
    ]
  ]
  max_order-le (first ∷ before) after row other here =
      let rest = max_order-le before after row other here in
      elim (Bool-cases (beside category source first)) [
        | inr apart ↦ rw apart rest
        | inl counted ↦ elim (Option-cases (max_order category source (before ++ row ∷ after))) [
          | inl empty ↦ absurd (max_order-some before after row here empty)
          | inr (most, found) ↦ elim (Bool-cases (int_leb most first.sort_order)) [
            | inl lower ↦
                rw (counted, found, lower)
                  (int_leb_trans row.sort_order most first.sort_order (rw found at rest) lower)
            | inr higher ↦ rw (counted, found, higher) (rw found at rest)
          ]
        ]
      ]

  -- the first position: above each key that another source has in the category by the number of the
  -- incoming keys and eight more, or below each
  pub first_sort_order-outside :
      (incoming : ℕ) (before after : List SourceKeyRow) (row : SourceKeyRow)
      → beside category source row ≡ true
      → let rows = before ++ row ∷ after in
        (int_leb
            (first_sort_order category source true incoming rows)
            (int_minus row.sort_order (incoming + 8))
          ≡ true)
        × (int_leb (int_succ row.sort_order) (first_sort_order category source false incoming rows)
            ≡ true)
  unfolding first_sort_order
  first_sort_order-outside incoming before after row here = (
    int_minus_mono _ row.sort_order (incoming + 8) (min_order-le before after row (pos 1) here),
    int_succ_mono row.sort_order _ (max_order-le before after row (pos 0) here),
  )

  min_order-local :
      (before after : List SourceKeyRow) (row : SourceKeyRow)
      → row.source_id ≡ none
      → min_order category source (before ++ row ∷ after)
        ≡ min_order category source (before ++ after)
  unfolding min_order beside
  min_order-local [] after row local = ground (arith, local)
  min_order-local (first ∷ before) after row local =
      rw (min_order-local before after row local) refl

  max_order-local :
      (before after : List SourceKeyRow) (row : SourceKeyRow)
      → row.source_id ≡ none
      → max_order category source (before ++ row ∷ after)
        ≡ max_order category source (before ++ after)
  unfolding max_order beside
  max_order-local [] after row local = ground (arith, local)
  max_order-local (first ∷ before) after row local =
      rw (max_order-local before after row local) refl

  -- A local key, whose source is NULL, has no part in the placement, wherever it stands: the new keys
  -- are placed as if it did not exist.
  pub first_sort_order-local :
      (top : Bool) (incoming : ℕ) (before after : List SourceKeyRow) (row : SourceKeyRow)
      → row.source_id ≡ none
      → first_sort_order category source top incoming (before ++ row ∷ after)
        ≡ first_sort_order category source top incoming (before ++ after)
  unfolding first_sort_order
  first_sort_order-local top incoming before after row local =
      rw (min_order-local before after row local, max_order-local before after row local) refl
