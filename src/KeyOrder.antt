-- ===== src/KeyOrder.antt =====
-- The order of the keys: internal/storage/key_order_repository.go. A table is the list of its rows;
-- each statement of a transaction may fail, which `Faults` says.
pub mod Valid
pub mod Saved
pub mod Categories
use sub_share_go.Common.{
  ℕ, suc, ◌+◌, List, [], ◌∷◌, map, Option, none, some, Bool, true, false, ◌≡◌, ℤ, int, ◌==◌, length,
  contains, nat_eq, if◌then◌else◌, not,
}

-- the columns of `vless_keys` that the order reads and writes
pub record KeyRow : Type 0 where
  pub id : ℤ
  pub sort_order : ℕ

pub data OrderError : Type 0 where
  invalid_key_order_count unknown_key_in_order duplicate_key_in_order : OrderError
  database_failure : OrderError

-- which statements of a call fail: the query, then each of the transaction, by its position
pub record Faults : Type 0 where
  pub load : Bool
  pub begin : Bool
  pub prepare : Bool
  pub exec : ℕ → Bool
  pub commit : Bool

-- the loop of `validateKeyOrder` over the new order
pub check_order : List ℤ → List ℤ → List ℤ → Option OrderError
check_order existing [] seen = none
check_order existing (id ∷ ids) seen =
    let rest = check_order existing ids (id ∷ seen) in
    if not (contains existing id)
    then some unknown_key_in_order
    else if contains seen id
    then some duplicate_key_in_order
    else rest

unfoldable pub validate_key_order : List ℤ → List ℤ → Option OrderError
unfolding check_order
validate_key_order existing ids =
    if not (nat_eq (length existing) (length ids))
    then some invalid_key_order_count
    else check_order existing ids []

-- UPDATE vless_keys SET sort_order = ? WHERE id = ?
unfoldable pub set_order : ℤ → ℕ → List KeyRow → List KeyRow
set_order id order [] = []
set_order id order (row ∷ rows) =
    (if row.id == id then record row { sort_order = order } else row) ∷ set_order id order rows

-- the loop of `saveKeyOrder`, from position `index`; `none` is a statement that failed
pub save_rows : Faults → ℕ → List ℤ → List KeyRow → Option (List KeyRow)
unfolding set_order
save_rows faults index [] rows = some rows
save_rows faults index (id ∷ ids) rows =
    let rest = save_rows faults (suc index) ids (set_order id (suc index) rows) in
    if faults.exec index then none else rest

-- a transaction that fails leaves the rows as they were
unfoldable pub save_key_order : Faults → List ℤ → List KeyRow → Option OrderError × List KeyRow
unfolding save_rows
save_key_order faults ids rows =
    if faults.begin
    then (some database_failure, rows)
    else if faults.prepare
    then (some database_failure, rows)
    else elim (save_rows faults 0 ids rows) [
      | none ↦ (some database_failure, rows)
      | some saved ↦ if faults.commit then (some database_failure, rows) else (none, saved)
    ]

-- SELECT id FROM vless_keys: the check reads the ids as a set, so their order is left out
abbrev pub ids_of : List KeyRow → List ℤ
ids_of [] = []
ids_of (row ∷ rows) = row.id ∷ ids_of rows

-- The query stands outside the transaction: `read` is the table that it reads, `rows` the one that the
-- transaction finds, which other requests may have changed.
unfoldable pub reorder_keys :
    Faults → List ℤ → List KeyRow → List KeyRow → Option OrderError × List KeyRow
reorder_keys faults ids read rows =
    if faults.load
    then (some database_failure, rows)
    else elim (validate_key_order (ids_of read) ids) [
      | some e ↦ (some e, rows)
      | none ↦ save_key_order faults ids rows
    ]
