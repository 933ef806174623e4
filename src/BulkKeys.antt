-- ===== src/BulkKeys.antt =====
-- internal/keymanagement/bulk_health.go: one command on many keys. The repository behind the service
-- is an interface, of which the section takes the one operation that is used.
pub mod Accepted
use sub_share_go.Common.{
  ℕ, List, [], ◌∷◌, ◌++◌, Bool, true, false, not, ℤ, above, int, ◌==◌, contains, length, nat_eq,
  if◌then◌else◌,
}
use sub_share_go.Common.Result.{Result, ok, err, ◌>>=◌}

pub data BulkError : Type 0 where
  bulk_key_ids_required invalid_bulk_key_id duplicate_bulk_key_ids bulk_repository_failure :
      BulkError

-- the loop of `normalizeBulkKeyIDs`; the keys of `seen` are `normalized`
unfoldable pub normalize_bulk_ids_from : List ℤ → List ℤ → Result BulkError (List ℤ)
normalize_bulk_ids_from normalized [] = ok normalized
normalize_bulk_ids_from normalized (id ∷ ids) =
    let rest = normalize_bulk_ids_from (normalized ++ id ∷ []) ids in
    if not (above id 0)
    then err invalid_bulk_key_id
    else if contains normalized id
    then err duplicate_bulk_key_ids
    else rest

unfoldable pub normalize_bulk_key_ids : List ℤ → Result BulkError (List ℤ)
normalize_bulk_key_ids ids =
    if nat_eq (length ids) 0 then err bulk_key_ids_required else normalize_bulk_ids_from [] ids

module _ {State : Type 0} (bulk_delete : List ℤ → State → Result BulkError State) where
  -- the count of the answer, and what the repository leaves
  unfoldable pub bulk_delete_keys : List ℤ → State → Result BulkError (ℕ × State)
  bulk_delete_keys ids state = do
    normalized ← normalize_bulk_key_ids ids
    next ← bulk_delete normalized state
    ok (length normalized, next)
