-- ===== src/KeyOrder/Categories.antt =====
-- internal/storage/key_order_repository.go: the order of the key categories. Names are not checked:
-- one that is not stored changes nothing, and of one that stands twice the last position counts.
use sub_share_go.Common.{
  ℕ, suc, List, [], ◌∷◌, Option, none, some, ◌≡◌, ◌≢◌, ◌⊎◌, refl, ◌∙◌, arith, inl, inr,
  if◌then◌else◌, text, text_eq_iff, ◌==◌, Bool-cases, Option-cases,
}
use sub_share_go.Strings.{Text}
use sub_share_go.KeyOrder.{Faults, OrderError, database_failure}
use sub_share_go.Sources.Rows.{CategoryRow}

-- UPDATE key_categories SET sort_order = ? WHERE name = ?
unfoldable pub set_category_order : Text → ℕ → List CategoryRow → List CategoryRow
set_category_order name order [] = []
set_category_order name order (row ∷ rows) =
    (if row.name == name then record row { sort_order = order } else row)
    ∷ set_category_order name order rows

-- the loop from position `index`; `none` is a statement that failed
unfoldable pub save_category_rows :
    Faults → ℕ → List Text → List CategoryRow → Option (List CategoryRow)
save_category_rows faults index [] rows = some rows
save_category_rows faults index (name ∷ names) rows =
    let rest =
      save_category_rows faults (suc index) names (set_category_order name (suc index) rows) in
    if faults.exec index then none else rest

unfoldable pub reorder_key_categories :
    Faults → List Text → List CategoryRow → Option OrderError × List CategoryRow
reorder_key_categories faults names rows =
    if faults.begin
    then (some database_failure, rows)
    else if faults.prepare
    then (some database_failure, rows)
    else elim (save_category_rows faults 0 names rows) [
      | none ↦ (some database_failure, rows)
      | some saved ↦ if faults.commit then (some database_failure, rows) else (none, saved)
    ]

-- the last position of a name, counted from `index` + 1
pub last_position : ℕ → Text → List Text → Option ℕ
last_position index name [] = none
last_position index name (other ∷ names) =
    let later = last_position (suc index) name names in
    elim later [ some n ↦ some n | none ↦ if other == name then some (suc index) else none ]

-- the rows, each at its last position, or where it was
pub placed : ℕ → List Text → List CategoryRow → List CategoryRow
placed index names [] = []
placed index names (row ∷ rows) =
    record row {
      sort_order = elim (last_position index row.name names) [ none ↦ row.sort_order | some n ↦ n ];
    }
    ∷ placed index names rows

placed-set_category_order :
    (index : ℕ) (name : Text) (names : List Text) (rows : List CategoryRow)
    → placed (suc index) names (set_category_order name (suc index) rows)
      ≡ placed index (name ∷ names) rows
unfolding placed last_position set_category_order
placed-set_category_order index name names [] = refl
placed-set_category_order index name names (row ∷ rows) =
    let rest = placed-set_category_order index name names rows in
    elim (Bool-cases (row.name == name)) [
      | inl same ↦ ground (arith, same, rest, text_eq_iff row.name name, text_eq_iff name row.name)
      | inr other ↦
          ground (arith, other, rest, text_eq_iff row.name name, text_eq_iff name row.name)
    ]

placed-nil : (index : ℕ) (rows : List CategoryRow) → placed index [] rows ≡ rows
unfolding placed last_position
placed-nil index [] = refl
placed-nil index (row ∷ rows) = rw (placed-nil index rows) refl

save_category_rows-placed :
    (faults : Faults) (index : ℕ) (names : List Text) (rows saved : List CategoryRow)
    → save_category_rows faults index names rows ≡ some saved
    → saved ≡ placed index names rows
unfolding save_category_rows
save_category_rows-placed faults index [] rows saved h = ground (arith, placed-nil index rows)
save_category_rows-placed faults index (name ∷ names) rows saved h =
    save_category_rows-placed faults (suc index) names (set_category_order name (suc index) rows)
      saved (ground arith)
    ∙ placed-set_category_order index name names rows

-- A reorder of the categories either fails, of any statement or the commit, and changes nothing, or
-- leaves every row that is named at the last position of its name and every other row as it was.
pub reorder_key_categories-placed :
    (faults : Faults) (names : List Text) (rows : List CategoryRow)
    → let (error, rows') = reorder_key_categories faults names rows in
      ((error ≡ none) × (rows' ≡ placed 0 names rows)) ⊎ ((error ≢ none) × (rows' ≡ rows))
unfolding reorder_key_categories
reorder_key_categories-placed faults names rows =
    elim (Option-cases (save_category_rows faults 0 names rows)) [
      | inl failed ↦ ground arith
      | inr (saved, done) ↦
          let e = save_category_rows-placed faults 0 names rows saved done in ground arith
    ]
