-- ===== src/Sources/Categories.antt =====
-- internal/storage/category_store.go: the category that a synchronisation writes its keys to.
use sub_share_go.Common.{
  ℕ, suc, List, [], ◌∷◌, ◌++◌, Option, none, some, ltb, if◌then◌else◌, text, ◌==◌,
}
use sub_share_go.Common.Result.{Result, err, ok, ◌>>=◌}
use sub_share_go.Strings.{Text, codes, trim_space, is_empty}
use sub_share_go.Strings.Bytes.{cut}
use sub_share_go.Sources.Rows.{CategoryRow, Database, SyncError, database_failure}
use sub_share_go.Sources.Statements.{statement}

-- `NormalizeKeyCategory`
unfoldable pub normalize_key_category : Text → Text
normalize_key_category raw = cut 24 (trim_space raw)

unfoldable pub last_sort_order : List CategoryRow → ℕ
last_sort_order [] = 0
last_sort_order (row ∷ rows) =
    let rest = last_sort_order rows in if ltb rest row.sort_order then row.sort_order else rest

unfoldable pub category_id_of : Text → List CategoryRow → Option ℕ
category_id_of name [] = none
category_id_of name (row ∷ rows) =
    if row.name == name then some row.id else category_id_of name rows

abbrev pub with_category : Text → Text → Database → Database
with_category name color db = elim (category_id_of name db.categories) [
  | some id ↦ db
  | none ↦ record db {
    categories =
        db.categories
        ++ record {
          id = db.next_category_id;
          name = name;
          color = color;
          sort_order = suc (last_sort_order db.categories);
        }
          ∷ [];
    next_category_id = suc db.next_category_id;
  }
]

-- `upsertTx`: the sort order, the upsert, the id
unfoldable pub upsert_category : Text → Text → Database → Result SyncError (Database × Option ℕ)
upsert_category raw color db =
    let name = trim_space raw in
    if is_empty name
    then ok (db, none)
    else statement (λ d. d) db
      >>= statement (with_category name color)
      >>= statement (λ d. d)
      >>= λ db'. elim (category_id_of name db'.categories) [
        | none ↦ err database_failure
        | some id ↦ ok (db', some id)
      ]

unfoldable pub ensure_category : Text → Database → Result SyncError (Database × Option ℕ)
ensure_category name = upsert_category name (codes "#d8b33d")
