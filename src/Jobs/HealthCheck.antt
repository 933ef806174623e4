-- ===== src/Jobs/HealthCheck.antt =====
-- cmd/server/jobs.go: the check of a batch of keys. The probes run at the same time and send their
-- results to one channel, so `schedule` and `arrival` put probes and results in any order. What the
-- network and the database answer are `check` and `persist`; latency and detail are left out.
pub mod Counts
pub mod Hang
use sub_share_go.Common.{
  ℕ, suc, ◌+◌, List, [], ◌∷◌, map, Option, none, some, Bool, true, false, not, ◌||◌, ◌==◌, text,
  ltb, length, if◌then◌else◌, ◌≡◌,
}
use sub_share_go.Strings.{Text, Unicode, codes, trim_space, is_empty}
use sub_share_go.Model.Vocabulary.{
  active, informational, unsupported_check, normalize_key_status, normalize_key_kind,
  normalize_check_status, or_default,
}

-- `keymanagement.HealthCheckTarget`
pub record HealthCheckTarget : Type 0 where
  pub id : ℕ
  pub url : Text
  pub status : Text
  pub kind : Text
  pub unreadable : Bool

-- `keyHealthCheckJobSummary`
pub record Summary : Type 0 where
  pub total_selected : ℕ
  pub checked : ℕ
  pub healthy : ℕ
  pub unhealthy : ℕ
  pub check_failed : ℕ
  pub skipped_disabled : ℕ
  pub skipped_unsupported : ℕ
  pub persisted_ok : ℕ
  pub persist_failed : ℕ

-- `keyHealthCheckItemResult`
pub record ItemResult : Type 0 where
  pub status : Text
  pub check_failed : Bool
  pub unsupported : Bool
  pub persist_failed : Bool

-- how a call of the checker ends, and one of the persister
pub data CheckAnswer : Type 0 where
  reports : Text → CheckAnswer
  check_errs check_panics : CheckAnswer

pub data PersistAnswer : Type 0 where
  persists persist_errs persist_panics : PersistAnswer

abbrev pub empty_summary : ℕ → Summary
empty_summary total = record {
  total_selected = total;
  checked = 0;
  healthy = 0;
  unhealthy = 0;
  check_failed = 0;
  skipped_disabled = 0;
  skipped_unsupported = 0;
  persisted_ok = 0;
  persist_failed = 0;
}

-- the summary, and whether the target is skipped
unfoldable pub skip_target : ⦃u : Unicode⦄ → Summary → HealthCheckTarget → Summary × Bool
skip_target s target =
    if not (or_default (normalize_key_status target.status) [] == active)
    then (record s { skipped_disabled = suc s.skipped_disabled }, true)
    else if or_default (normalize_key_kind target.kind) [] == informational
    then (record s { skipped_unsupported = suc s.skipped_unsupported }, true)
    else if target.unreadable || is_empty (trim_space target.url)
    then (record s { check_failed = suc s.check_failed }, true)
    else (s, false)

-- the last switch of `record`
unfoldable pub tally : Summary → ItemResult → Summary
tally s result =
    if result.unsupported
    then record s { skipped_unsupported = suc s.skipped_unsupported }
    else if result.status == codes "up"
    then record s { healthy = suc s.healthy }
    else if result.status == codes "down"
    then record s { unhealthy = suc s.unhealthy }
    else record s { check_failed = suc s.check_failed }

abbrev pub count_persisted : Summary → Bool → Summary
count_persisted s true = record s { persist_failed = suc s.persist_failed }
count_persisted s false = record s { persisted_ok = suc s.persisted_ok }

unfoldable pub record_result : Summary → ItemResult → Summary
record_result old result =
    let s = record old { checked = suc old.checked } in
    if result.check_failed
    then record s { check_failed = suc s.check_failed }
    else tally (count_persisted s result.persist_failed) result

unfoldable pub record_results : Summary → List ItemResult → Summary
record_results s [] = s
record_results s (result ∷ results) = record_results (record_result s result) results

abbrev pub failed_check : ItemResult
failed_check = record {
  status = [];
  check_failed = true;
  unsupported = false;
  persist_failed = false;
}

abbrev pub checked_with : Text → Bool → ItemResult
checked_with status persist_failed = record {
  status = status;
  check_failed = false;
  unsupported = status == unsupported_check;
  persist_failed = persist_failed;
}

-- what the persister's answer makes of the result; a panic is reported as a failed check
abbrev pub persisted_with : Text → PersistAnswer → ItemResult
persisted_with status persists = checked_with status false
persisted_with status persist_errs = checked_with status true
persisted_with status persist_panics = failed_check

-- `persistenceMu` is unlocked by the statement after the call, which a panic skips
abbrev pub leaves_locked : PersistAnswer → Bool
leaves_locked persist_panics = true
leaves_locked _ = false

abbrev pub then_results : ItemResult → Option (List ItemResult) → Option (List ItemResult)
then_results result none = none
then_results result (some results) = some (result ∷ results)

-- the loop over the targets: the summary, and the targets that are probed
unfoldable pub dispatch :
    ⦃u : Unicode⦄ → Summary → List HealthCheckTarget → Summary × List HealthCheckTarget
dispatch s [] = (s, [])
dispatch s (target ∷ targets) =
    let (next, skipped) = skip_target s target in
    let (last, probed) = dispatch next targets in
    if skipped then (last, probed) else (last, target ∷ probed)

module _ (check : HealthCheckTarget → CheckAnswer)
    (persist : HealthCheckTarget → Text → PersistAnswer) where
  -- The probes in the order in which they reach the persister, with the state of its mutex; `none` is
  -- a probe that waits for the mutex for ever, and the batch with it.
  unfoldable pub run_probes :
      ⦃u : Unicode⦄ → Bool → List HealthCheckTarget → Option (List ItemResult)
  run_probes locked [] = some []
  run_probes locked (item ∷ items) = elim (check item) [
    | reports raw ↦
        let status = normalize_check_status raw in
        let answer = persist item status in
        let rest = run_probes (leaves_locked answer) items in
        if locked then none else then_results (persisted_with status answer) rest
    | check_errs ↦ then_results failed_check (run_probes locked items)
    | check_panics ↦ then_results failed_check (run_probes locked items)
  ]

  unfoldable pub execute_batch :
      ⦃u : Unicode⦄
      → (List HealthCheckTarget → List HealthCheckTarget)
      → (List ItemResult → List ItemResult)
      → List HealthCheckTarget
      → Option Summary
  execute_batch schedule arrival targets =
      let (s, probed) = dispatch (empty_summary (length targets)) targets in
      elim (run_probes false (schedule probed)) [
        | none ↦ none
        | some results ↦ some (record_results s (arrival results))
      ]

unfoldable pub job_status : Summary → Bool → Text
job_status summary fatal =
    if fatal
    then codes "failed"
    else if ltb 0 summary.check_failed || ltb 0 summary.persist_failed
    then codes "succeeded_with_warnings"
    else codes "succeeded"
