-- ===== src/Sources/Repair/Assignments.antt =====
-- Who keeps which key when duplicates are merged.
use sub_share_go.Common.{
  ℕ, List, [], ◌∷◌, ◌++◌, true, false, not, ◌≡◌, refl, ◌∙◌, arith, nat_eq, if◌then◌else◌, ◌||◌,
  ◌&&◌,
}
use sub_share_go.Common.Result.{ok, ◌>>=◌, >>=-eq-ok}
use sub_share_go.Sources.Rows.{AssignedKey, Database, is_row, exists_where}
use sub_share_go.Sources.Statements.{
  assigned, assign, assign_users_of, unassign, merge_user_assignments, delete_source_key,
}
use sub_share_go.Sources.Statements.KeyStep.{statement-eq-ok}
use sub_share_go.Sources.State.{SyncState}
use sub_share_go.Sources.Repair.{remove_duplicate_row, one_removed}

assigned-append :
    (user key : ℕ) (all more : List AssignedKey)
    → assigned user key (all ++ more) ≡ (assigned user key all || assigned user key more)
assigned-append user key [] more = refl
assigned-append user key (a ∷ all) more = ground (arith, assigned-append user key all more)

assigned-assign :
    (user key u k : ℕ) (all : List AssignedKey)
    → assigned user key (assign u k all) ≡ (assigned user key all || nat_eq u user && nat_eq k key)
unfolding assign
assigned-assign user key u k all =
    ground (arith, assigned-append user key all (record { user_id = u; key_id = k } ∷ []))

assigned-assign_users_of :
    (user key survivor duplicate : ℕ) (rows all : List AssignedKey)
    → assigned user key (assign_users_of survivor duplicate rows all)
      ≡ (assigned user key all || nat_eq survivor key && assigned user duplicate rows)
unfolding assign_users_of
assigned-assign_users_of user key survivor duplicate [] all = ground arith
assigned-assign_users_of user key survivor duplicate (a ∷ rows) all = ground (
  arith,
  assigned-assign user key a.user_id survivor all,
  assigned-assign_users_of user key survivor duplicate rows all,
  assigned-assign_users_of user key survivor duplicate rows (assign a.user_id survivor all),
)

assigned-unassign :
    (user key gone : ℕ) (all : List AssignedKey)
    → assigned user key (unassign gone all) ≡ (not (nat_eq gone key) && assigned user key all)
unfolding unassign
assigned-unassign user key gone [] = ground arith
assigned-unassign user key gone (a ∷ all) = ground (arith, assigned-unassign user key gone all)

merged_keys :
    (survivor duplicate : ℕ) (d : Database) {e : Database}
    → merge_user_assignments survivor duplicate d ≡ ok e
    → e.keys ≡ d.keys
unfolding merge_user_assignments
merged_keys survivor duplicate d h = rw (statement-eq-ok _ d h) refl

merged_assignments :
    (survivor duplicate : ℕ) (d : Database) {e : Database}
    → merge_user_assignments survivor duplicate d ≡ ok e
    → e.assignments ≡ assign_users_of survivor duplicate d.assignments d.assignments
unfolding merge_user_assignments
merged_assignments survivor duplicate d h = rw (statement-eq-ok _ d h) refl

deleted_assigned :
    (source id : ℕ) (d e : Database) (user key : ℕ)
    → delete_source_key source id d ≡ ok e
    → exists_where (is_row source id) d.keys ≡ true
    → assigned user key e.assignments ≡ (not (nat_eq id key) && assigned user key d.assignments)
unfolding delete_source_key
deleted_assigned source id d e user key h here =
    rw (statement-eq-ok _ d h) (rw here (assigned-unassign user key id d.assignments))

-- When a duplicate that the source has is folded into another row, each user has the survivor who
-- had one of the two, no user has the duplicate, and every other key stays with its users.
pub remove_duplicate_row-assigned :
    (survivor duplicate : ℕ) (s t : SyncState) (user key : ℕ)
    → nat_eq duplicate survivor ≡ false
    → exists_where (is_row s.source.id duplicate) s.db.keys ≡ true
    → remove_duplicate_row survivor duplicate s ≡ ok t
    → assigned user key t.db.assignments ≡ (
        if nat_eq key duplicate
        then false
        else assigned user key s.db.assignments
          || nat_eq survivor key && assigned user duplicate s.db.assignments)
unfolding remove_duplicate_row
remove_duplicate_row-assigned survivor duplicate s t user key ne here h =
    let (e, both, last) =
      >>=-eq-ok
        (merge_user_assignments survivor duplicate s.db >>= delete_source_key s.source.id duplicate)
        (λ db. ok (one_removed duplicate db s)) (rw ne at h) in
    let (d, merged, gone) =
      >>=-eq-ok (merge_user_assignments survivor duplicate s.db)
        (delete_source_key s.source.id duplicate) both in
    let same : one_removed duplicate e s ≡ t = ground arith in
    rw (← same) (
      deleted_assigned s.source.id duplicate d e user key gone
        (rw (merged_keys survivor duplicate s.db merged) here)
      ∙ rw (merged_assignments survivor duplicate s.db merged) (
          ground (
            arith,
            assigned-assign_users_of user key survivor duplicate s.db.assignments s.db.assignments,
          )))
