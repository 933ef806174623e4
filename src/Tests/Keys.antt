-- ===== src/Tests/Keys.antt =====
-- A new order of two keys, and the ids of an assignment.
use mathlib.Core.List.{Nodup, Perm, Nodup-cons, Nodup-nil}
use sub_share_go.Common.{
  List, [], ◌∷◌, none, true, false, ◌≡◌, ◌≢◌, ◌⊎◌, ◌↔◌, refl, ℤ, pos, contains, int, above, arith,
  int_eq_iff, not-contains→not-Mem,
}
use sub_share_go.Common.Result.{Result, ok}
use sub_share_go.BulkKeys.{BulkError}
use sub_share_go.KeyOrder.{KeyRow, Faults, ids_of, reorder_keys, validate_key_order}
use sub_share_go.Strings.{codes}
use sub_share_go.Sources.Rows.{CategoryRow}
use sub_share_go.KeyOrder.Categories.{reorder_key_categories, placed, reorder_key_categories-placed}
use sub_share_go.KeyOrder.Valid.{validate_key_order_iff}
use sub_share_go.KeyOrder.Saved.{order_of, expected, reorder_keys-result}

abbrev stored_keys : List KeyRow
stored_keys = record { id = pos 4; sort_order = 1 } ∷ record { id = pos 9; sort_order = 2 } ∷ []

abbrev new_order : List ℤ
new_order = pos 9 ∷ pos 4 ∷ []

abbrev no_faults : Faults
no_faults = record {
  load = false;
  begin = false;
  prepare = false;
  exec = λ index. false;
  commit = false;
}

stored_keys-Nodup : Nodup (ids_of stored_keys)
stored_keys-Nodup = Nodup-cons.1 (
  not-contains→not-Mem (pos 9 ∷ []) (pos 4) refl,
  Nodup-cons.1 (not-contains→not-Mem [] (pos 9) refl, Nodup-nil),
)

validate_key_order_iff_example :
    (validate_key_order (ids_of stored_keys) new_order ≡ none) ↔ Perm new_order (ids_of stored_keys)
validate_key_order_iff_example =
    validate_key_order_iff (ids_of stored_keys) new_order stored_keys-Nodup

-- between the query and the transaction key 4 is deleted and key 5 is added
abbrev changed_keys : List KeyRow
changed_keys = record { id = pos 9; sort_order = 2 } ∷ record { id = pos 5; sort_order = 3 } ∷ []

reorder_keys-result_example :
    let (error, rows) = reorder_keys no_faults new_order stored_keys changed_keys in
    ((error ≡ none)
      × Perm new_order (ids_of stored_keys)
      × (order_of (pos 9) rows ≡ expected 0 new_order changed_keys (pos 9))
      × (ids_of rows ≡ ids_of changed_keys))
    ⊎ ((error ≢ none) × (rows ≡ changed_keys))
reorder_keys-result_example =
    reorder_keys-result no_faults new_order stored_keys changed_keys (pos 9) stored_keys-Nodup

abbrev asked : List ℤ
asked = pos 3 ∷ pos 5 ∷ pos 3 ∷ []

asked-positive : (a : ℤ) → contains asked a ≡ true → above a 0 ≡ true
asked-positive a h = ground (arith, int_eq_iff (pos 3) a, int_eq_iff (pos 5) a)

abbrev doomed : List ℤ
doomed = pos 9 ∷ pos 4 ∷ []

-- a repository that keeps the ids that it was given
abbrev keep_ids : List ℤ → List ℤ → Result BulkError (List ℤ)
keep_ids ids state = ok ids

abbrev stored_categories : List CategoryRow
stored_categories =
    record { id = 1; name = codes "a"; color = []; sort_order = 1 }
    ∷ record { id = 2; name = codes "b"; color = []; sort_order = 2 }
    ∷ []

reorder_key_categories-placed_example :
    let names = codes "b" ∷ codes "c" ∷ codes "a" ∷ [] in
    let (error, rows) = reorder_key_categories no_faults names stored_categories in
    ((error ≡ none) × (rows ≡ placed 0 names stored_categories))
    ⊎ ((error ≢ none) × (rows ≡ stored_categories))
reorder_key_categories-placed_example =
    reorder_key_categories-placed no_faults (codes "b" ∷ codes "c" ∷ codes "a" ∷ [])
      stored_categories
