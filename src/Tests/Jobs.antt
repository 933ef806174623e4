-- ===== src/Tests/Jobs.antt =====
-- A batch of two keys whose results arrive in reverse, and a persister that panics.
use mathlib.Core.List.Perm
use sub_share_go.Common.{
  ℕ_eq, ◌==◌, if◌then◌else◌, List, [], ◌∷◌, reverse, none, some, false, ◌≡◌, ◌≤◌, refl, text_eq,
  text,
}
use sub_share_go.Strings.{Text, codes, trim_space, to_lower}
use sub_share_go.Table.{lookup}
use sub_share_go.Model.Vocabulary.{active, real, normalize, normalize_check_status}
use sub_share_go.Jobs.HealthCheck.{
  HealthCheckTarget, Summary, CheckAnswer, PersistAnswer, reports, check_errs, persists,
  persist_panics, skip_target, tally, record_result, record_results, run_probes, dispatch,
  execute_batch,
}
use sub_share_go.Jobs.HealthCheck.Hang.{execute_batch_hang}
use sub_share_go.Jobs.HealthCheck.Counts.{classified, execute_batch_total, execute_batch-classified}
use sub_share_go.Jobs.Tracking.{JobRow}
use sub_share_go.Tests.Fixtures.{ascii}

abbrev target : Text → HealthCheckTarget
target url = record { id = 1; url = url; status = active; kind = real; unreadable = false }

abbrev batch : List HealthCheckTarget
batch = target (codes "a") ∷ target [] ∷ target (codes "b") ∷ []

abbrev all_up : HealthCheckTarget → CheckAnswer
all_up item = reports (codes "up")

abbrev saved : HealthCheckTarget → Text → PersistAnswer
saved item status = persists

abbrev panicking : HealthCheckTarget → Text → PersistAnswer
panicking item status = persist_panics

abbrev summary : Summary
summary = record {
  total_selected = 3;
  checked = 2;
  healthy = 2;
  unhealthy = 0;
  check_failed = 1;
  skipped_disabled = 0;
  skipped_unsupported = 0;
  persisted_ok = 2;
  persist_failed = 0;
}

batch-summary :
    execute_batch all_up saved (λ items. items) (λ results. results) batch ≡ some summary
unfolding execute_batch dispatch skip_target run_probes record_results record_result tally
    normalize_check_status normalize lookup to_lower trim_space text_eq
batch-summary = refl

execute_batch-classified_example :
    (classified summary ≡ 3) × (summary.total_selected ≡ 3) × (summary.checked ≤ 3)
execute_batch-classified_example =
    execute_batch-classified all_up saved (λ items. items) (λ results. results) batch summary
      (λ items. Perm.refl items) (λ results. Perm.refl results) batch-summary

execute_batch_total_example :
    (s : Summary) × (execute_batch all_up saved (λ items. items) reverse batch ≡ some s)
execute_batch_total_example =
    execute_batch_total all_up saved (λ items. items) reverse batch (λ item status h. cc h)

-- the check of the key in between fails
abbrev some_up : HealthCheckTarget → CheckAnswer
some_up item = if item.id == 2 then check_errs else reports (codes "up")

abbrev failing : HealthCheckTarget
failing = record { id = 2; url = codes "c"; status = active; kind = real; unreadable = false }

execute_batch_hang_example :
    execute_batch some_up panicking
      (λ items. items)
      (λ results. results)
      (target (codes "a") ∷ failing ∷ target (codes "b") ∷ [])
    ≡ none
unfolding dispatch skip_target normalize_check_status normalize lookup to_lower trim_space text_eq
execute_batch_hang_example =
    execute_batch_hang some_up panicking (λ items. items) (λ results. results)
      (target (codes "a") ∷ failing ∷ target (codes "b") ∷ []) [] (failing ∷ []) []
      (target (codes "a")) (target (codes "b")) (codes "up") (codes "up") refl refl refl refl

abbrev running_job : JobRow
running_job = record {
  id = 4;
  kind = codes "sync";
  status = codes "running";
  target_type = [];
  target_id = [];
  error_message = [];
}
