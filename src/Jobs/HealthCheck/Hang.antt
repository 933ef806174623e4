-- ===== src/Jobs/HealthCheck/Hang.antt =====
-- cmd/server/jobs.go: what a persister that panics does to a batch.
use sub_share_go.Common.{
  List, [], ◌∷◌, Bool, true, false, text, length, ◌≡◌, ◌∙◌, ◌++◌, refl, Option, none, inl, inr,
}
use sub_share_go.Strings.{Text, Unicode}
use sub_share_go.Model.Vocabulary.{normalize_check_status}
use sub_share_go.Jobs.HealthCheck.{
  HealthCheckTarget, ItemResult, CheckAnswer, PersistAnswer, reports, persist_panics, failed_check,
  empty_summary, run_probes, then_results, dispatch, execute_batch,
}
use sub_share_go.Jobs.HealthCheck.Counts.{CheckAnswer-cases, run_probes-cases}

module _ ⦃u : Unicode⦄ (check : HealthCheckTarget → CheckAnswer)
    (persist : HealthCheckTarget → Text → PersistAnswer) where
  then_results-none :
      (r : ItemResult) (rest : Option (List ItemResult)) → rest ≡ none → then_results r rest ≡ none
  then_results-none r rest e = rw (e) refl

  -- with the mutex locked nobody gets past a key whose check reports
  run_probes_locked :
      (before : List HealthCheckTarget) (item : HealthCheckTarget) (after : List HealthCheckTarget)
      (raw : Text)
      → check item ≡ reports raw
      → run_probes check persist true (before ++ item ∷ after) ≡ none
  unfolding run_probes
  run_probes_locked [] item after raw e = rw (e, run_probes) refl
  run_probes_locked (first ∷ before) item after raw e =
      let rest = run_probes_locked before item after raw e in
      elim (CheckAnswer-cases (check first)) [
        | inl (_, reported) ↦ rw (reported, run_probes) refl
        | inr (inl failed) ↦ rw (failed, run_probes) (then_results-none failed_check _ rest)
        | inr (inr failed) ↦ rw (failed, run_probes) (then_results-none failed_check _ rest)
      ]

  run_probes_panicked :
      (locked : Bool) (before : List HealthCheckTarget) (item : HealthCheckTarget)
      (between : List HealthCheckTarget) (other : HealthCheckTarget)
      (after : List HealthCheckTarget) (raw raw_other : Text)
      → check item ≡ reports raw
      → persist item (normalize_check_status raw) ≡ persist_panics
      → check other ≡ reports raw_other
      → run_probes check persist locked (before ++ item ∷ (between ++ other ∷ after)) ≡ none
  unfolding run_probes
  run_probes_panicked true before item between other after raw raw_other e panics later =
      run_probes_locked before item (between ++ other ∷ after) raw e
  run_probes_panicked false [] item between other after raw raw_other e panics later =
      rw (e, run_probes, panics)
        (then_results-none failed_check _ (run_probes_locked between other after raw_other later))
  run_probes_panicked false (first ∷ before) item between other after raw raw_other e panics later =
      elim (run_probes-cases check persist false first
        (before ++ item ∷ (between ++ other ∷ after))) [
          | inl (shut, stuck) ↦ stuck
          | inr (r, next, why, step) ↦
              step
              ∙ then_results-none r _ (
                  run_probes_panicked next before item between other after raw raw_other e panics
                    later)
        ]

  -- Once the persister panics on some key, the batch does not end when any later key in the order of
  -- the probes has a check that reports: that probe waits for the mutex for ever. It is so with any
  -- probes before, between and behind the two, failing checks included, and any order of arrival.
  pub execute_batch_hang :
      (schedule : List HealthCheckTarget → List HealthCheckTarget)
      (arrival : List ItemResult → List ItemResult)
      (targets before between after : List HealthCheckTarget) (item other : HealthCheckTarget)
      (raw raw_other : Text)
      → schedule (dispatch (empty_summary (length targets)) targets).1
        ≡ before ++ item ∷ (between ++ other ∷ after)
      → check item ≡ reports raw
      → persist item (normalize_check_status raw) ≡ persist_panics
      → check other ≡ reports raw_other
      → execute_batch check persist schedule arrival targets ≡ none
  unfolding execute_batch
  execute_batch_hang schedule arrival targets before between after item other raw raw_other order e
        panics later =
      let stuck =
        run_probes_panicked false before item between other after raw raw_other e panics later in
      rw (order, stuck, execute_batch) refl
