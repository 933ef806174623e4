-- ===== src/KeyOrder/Saved.antt =====
-- What `ReorderKeys` leaves behind: the new order, or on any error the old one.
use mathlib.Core.List.{Perm, Nodup, Nodup-cons}
use mathlib.Core.List.Perm
use sub_share_go.Common.{
  ℕ, suc, List, [], ◌∷◌, ◌≡◌, ◌≢◌, ◌∙◌, refl, Option, none, some, arith, ℤ, int, ◌==◌, inl, inr,
  if◌then◌else◌, contains, ◌⊎◌, int_eq_iff, Bool, false, Bool-cases, not-Mem→not-contains,
}
use sub_share_go.KeyOrder.{
  KeyRow, Faults, set_order, save_rows, save_key_order, reorder_keys, ids_of, validate_key_order,
}
use sub_share_go.KeyOrder.Valid.{validate_key_order_iff}

-- the stored position of a key
pub order_of : ℤ → List KeyRow → Option ℕ
order_of id [] = none
order_of id (row ∷ rows) = if row.id == id then some row.sort_order else order_of id rows

-- the place that an order gives to a key: `index` + 1 is the first
abbrev pub position : ℕ → List ℤ → ℤ → Option ℕ
position index [] key = none
position index (id ∷ ids) key = if id == key then some (suc index) else position (suc index) ids key

-- a key that is named and stored has its place
abbrev pub placed_or : Option ℕ → Bool → Option ℕ → Option ℕ
placed_or none stored old = old
placed_or (some place) stored old = if stored then some place else none

-- What a reorder should leave as the position of `key`: its place in the order, if it is stored, and
-- its old position, if the order does not name it.
abbrev pub expected : ℕ → List ℤ → List KeyRow → ℤ → Option ℕ
expected index ids rows key =
    placed_or (position index ids key) (contains (ids_of rows) key) (order_of key rows)

ids_of-set_order :
    (id : ℤ) (order : ℕ) (rows : List KeyRow) → ids_of (set_order id order rows) ≡ ids_of rows
unfolding set_order
ids_of-set_order id order [] = refl
ids_of-set_order id order (row ∷ rows) = ground (arith, ids_of-set_order id order rows)

order_of-set_order_ne :
    (id other : ℤ) (order : ℕ) (rows : List KeyRow)
    → id ≢ other
    → order_of other (set_order id order rows) ≡ order_of other rows
unfolding set_order order_of
order_of-set_order_ne id other order [] ne = refl
order_of-set_order_ne id other order (row ∷ rows) ne = ground (
  arith,
  int_eq_iff row.id id,
  int_eq_iff row.id other,
  order_of-set_order_ne id other order rows ne,
)

order_of-set_order_self :
    (id : ℤ) (order : ℕ) (rows : List KeyRow)
    → order_of id (set_order id order rows)
      ≡ (if contains (ids_of rows) id then some order else none)
unfolding set_order order_of
order_of-set_order_self id order [] = refl
order_of-set_order_self id order (row ∷ rows) =
    ground (arith, order_of-set_order_self id order rows)

position-absent :
    (index : ℕ) (ids : List ℤ) (key : ℤ) → contains ids key ≡ false → position index ids key ≡ none
position-absent index [] key h = refl
position-absent index (id ∷ ids) key h = ground (arith, position-absent (suc index) ids key)

save_rows-ids :
    (faults : Faults) (index : ℕ) (ids : List ℤ) (rows saved : List KeyRow)
    → save_rows faults index ids rows ≡ some saved
    → ids_of saved ≡ ids_of rows
unfolding save_rows
save_rows-ids faults index [] rows saved h = ground arith
save_rows-ids faults index (first ∷ ids) rows saved h =
    save_rows-ids faults (suc index) ids (set_order first (suc index) rows) saved (ground arith)
    ∙ ids_of-set_order first (suc index) rows

save_rows-expected :
    (faults : Faults) (index : ℕ) (ids : List ℤ) (rows saved : List KeyRow) (key : ℤ)
    → save_rows faults index ids rows ≡ some saved
    → Nodup ids
    → order_of key saved ≡ expected index ids rows key
unfolding save_rows
save_rows-expected faults index [] rows saved key h distinct = ground arith
save_rows-expected faults index (first ∷ ids) rows saved key h distinct =
    let rows' = set_order first (suc index) rows in
    let (absent, distinct') = Nodup-cons.0 distinct in
    let rest : save_rows faults (suc index) ids rows' ≡ some saved = ground arith in
    let later = save_rows-expected faults (suc index) ids rows' saved key rest distinct' in
    elim (Bool-cases (first == key)) [
      | inl same ↦
          let gone =
            position-absent (suc index) ids first (not-Mem→not-contains ids first absent) in
          let e = (int_eq_iff first key).0 same in
          rw (same, ← e)
            ((rw (← e, gone) at later) ∙ order_of-set_order_self first (suc index) rows)
      | inr other ↦
          let ne : first ≢ key = λ e. ground (arith, int_eq_iff first key, e, other) in
          rw other (
            rw
              (
                order_of-set_order_ne first key (suc index) rows ne,
                ids_of-set_order first (suc index) rows,
              )
              at later)
    ]

reorder_keys_cases :
    (faults : Faults) (ids : List ℤ) (read rows : List KeyRow)
    → let (error, rows') = reorder_keys faults ids read rows in
      ((error ≡ none)
        × (validate_key_order (ids_of read) ids ≡ none)
        × (save_rows faults 0 ids rows ≡ some rows'))
      ⊎ ((error ≢ none) × (rows' ≡ rows))
unfolding reorder_keys save_key_order
reorder_keys_cases faults ids read rows = ground arith

-- The ids are checked against the table that the query reads, and the order is written to the table
-- that the transaction finds later. A call that reports no error was given a permutation of the ids
-- read and leaves every key that is then stored at its place in the order, or where it was when the
-- order does not name it, and adds and removes no key; a call that reports an error, a failed
-- statement or commit included, changes nothing.
pub reorder_keys-result :
    (faults : Faults) (ids : List ℤ) (read rows : List KeyRow) (key : ℤ)
    → Nodup (ids_of read)
    → let (error, rows') = reorder_keys faults ids read rows in
      ((error ≡ none)
        × Perm ids (ids_of read)
        × (order_of key rows' ≡ expected 0 ids rows key)
        × (ids_of rows' ≡ ids_of rows))
      ⊎ ((error ≢ none) × (rows' ≡ rows))
reorder_keys-result faults ids read rows key stored =
    elim (reorder_keys_cases faults ids read rows) [
      | inr failed ↦ inr failed
      | inl (ok, valid, saved) ↦
          let perm = (validate_key_order_iff (ids_of read) ids stored).0 valid in
          let rows' = (reorder_keys faults ids read rows).1 in
          inl (
            ok,
            perm,
            save_rows-expected faults 0 ids rows rows' key saved
                (Perm.nodup (Perm.symm perm) stored),
            save_rows-ids faults 0 ids rows rows' saved,
          )
    ]
