-- ===== src/Jobs/HealthCheck/Counts.antt =====
-- Every selected key is counted once, in whatever order the results arrive.
use mathlib.Core.List.{Perm}
use sub_share_go.Common.{
  ℕ, ◌+◌, ◌≤◌, List, [], ◌∷◌, Bool, true, false, text, length, if◌then◌else◌, ◌≡◌, ◌≢◌, arith, refl,
  Option, none, some, length-perm, ◌⊎◌, inl, inr, Bool-cases, Option-cases,
}
use sub_share_go.Strings.{Text, Unicode}
use sub_share_go.Model.Vocabulary.{normalize_check_status}
use sub_share_go.Jobs.HealthCheck.{
  HealthCheckTarget, Summary, ItemResult, CheckAnswer, PersistAnswer, reports, check_errs,
  check_panics, persists, persist_errs, persist_panics, failed_check, persisted_with, empty_summary,
  skip_target, tally, record_result, record_results, run_probes, then_results, leaves_locked,
  dispatch, execute_batch,
}

-- the classes that the counters of a summary put the targets into
abbrev pub classified : Summary → ℕ
classified s = s.healthy + s.unhealthy + s.check_failed + s.skipped_disabled + s.skipped_unsupported

pub CheckAnswer-cases :
    (a : CheckAnswer) → ((raw : Text) × (a ≡ reports raw)) ⊎ (a ≡ check_errs) ⊎ (a ≡ check_panics)
CheckAnswer-cases (reports raw) = inl (raw, refl)
CheckAnswer-cases check_errs = inr (inl refl)
CheckAnswer-cases check_panics = inr (inr refl)

record_result-classified :
    (s : Summary) (r : ItemResult) → classified (record_result s r) ≡ classified s + 1
unfolding record_result tally
record_result-classified s r = ground arith

record_result-kept :
    (s : Summary) (r : ItemResult)
    → ((record_result s r).checked ≡ s.checked + 1)
      × ((record_result s r).total_selected ≡ s.total_selected)
unfolding record_result tally
record_result-kept s r = (ground arith, ground arith)

record_results-classified :
    (s : Summary) (rs : List ItemResult)
    → (classified (record_results s rs) ≡ classified s + length rs)
      × ((record_results s rs).checked ≡ s.checked + length rs)
      × ((record_results s rs).total_selected ≡ s.total_selected)
unfolding record_results
record_results-classified s [] = (omega arith, omega arith, refl)
record_results-classified s (r ∷ rs) =
    let (classes, checks, total) = record_results-classified (record_result s r) rs in
    let (checked, kept) = record_result-kept s r in
    let class = record_result-classified s r in (omega arith, omega arith, omega arith)

skip_target-classified :
    ⦃u : Unicode⦄ (s : Summary) (target : HealthCheckTarget)
    → (classified (skip_target s target).0
        ≡ classified s + (if (skip_target s target).1 then 1 else 0))
      × ((skip_target s target).0.checked ≡ s.checked)
      × ((skip_target s target).0.total_selected ≡ s.total_selected)
unfolding skip_target
skip_target-classified s target = (ground arith, ground arith, ground arith)

dispatch-classified :
    ⦃u : Unicode⦄ (s : Summary) (targets : List HealthCheckTarget)
    → (classified (dispatch s targets).0 + length (dispatch s targets).1
        ≡ classified s + length targets)
      × ((dispatch s targets).0.checked ≡ s.checked)
      × ((dispatch s targets).0.total_selected ≡ s.total_selected)
unfolding dispatch
dispatch-classified s [] = (omega arith, refl, refl)
dispatch-classified s (target ∷ targets) =
    let (class, checks, total) = skip_target-classified s target in
    let (classes, checks', total') = dispatch-classified (skip_target s target).0 targets in
    (ground arith, ground arith, ground arith)

module _ ⦃u : Unicode⦄ (check : HealthCheckTarget → CheckAnswer)
    (persist : HealthCheckTarget → Text → PersistAnswer) where
  then_results-length :
      (r : ItemResult) (rest : Option (List ItemResult)) (rs : List ItemResult) (n : ℕ)
      → ((os : List ItemResult) → rest ≡ some os → length os ≡ n)
      → then_results r rest ≡ some rs
      → length rs ≡ n + 1
  then_results-length r none rs n h e = absurd (ground (arith, e))
  then_results-length r (some os) rs n h e = ground (arith, h os refl, e)

  pub run_probes-cases :
      (locked : Bool) (item : HealthCheckTarget) (items : List HealthCheckTarget)
      → ((locked ≡ true) × (run_probes check persist locked (item ∷ items) ≡ none))
        ⊎ ((r : ItemResult) × (later : Bool) × ((later ≡ true)
              → (locked ≡ true) ⊎ ((status : Text) × (leaves_locked (persist item status) ≡ true)))
            × (run_probes check persist locked (item ∷ items)
                ≡ then_results r (run_probes check persist later items)))
  unfolding run_probes
  run_probes-cases locked item items = elim (CheckAnswer-cases (check item)) [
    | inr (inl e) ↦ inr (failed_check, locked, (λ h. inl h), rw (e, run_probes) refl)
    | inr (inr e) ↦ inr (failed_check, locked, (λ h. inl h), rw (e, run_probes) refl)
    | inl (raw, e) ↦ elim (Bool-cases locked) [
      | inl shut ↦ inl (shut, rw (e, shut, run_probes) refl)
      | inr free ↦
          let status = normalize_check_status raw in
          inr (
            persisted_with status (persist item status),
            leaves_locked (persist item status),
            (λ h. inr (status, h)),
            rw (e, free, run_probes) refl,
          )
    ]
  ]

  length-none :
      (rs : List ItemResult)
      → ◌≡◌ {A = Option (List ItemResult)} (some []) (some rs)
      → length rs ≡ 0
  length-none rs h = ground (arith, h)

  length-run_probes :
      (locked : Bool) (items : List HealthCheckTarget) (rs : List ItemResult)
      → run_probes check persist locked items ≡ some rs
      → length rs ≡ length items
  length-run_probes locked [] rs h = length-none rs (unfold run_probes in h)
  length-run_probes locked (item ∷ items) rs h = elim (run_probes-cases locked item items) [
    | inl (shut, stuck) ↦ absurd (ground (arith, stuck, h))
    | inr (r, later, why, e) ↦ ground (
      arith,
      then_results-length r (run_probes check persist later items) rs (length items)
          (length-run_probes later items) (rw (← e) h),
    )
  ]

  then_results-some :
      (r : ItemResult) (rest : Option (List ItemResult)) (rs : List ItemResult)
      → rest ≡ some rs
      → then_results r rest ≡ some (r ∷ rs)
  then_results-some r rest rs e = rw (e) refl

  run_probes_total :
      (items : List HealthCheckTarget)
      → ((item : HealthCheckTarget) (status : Text) → leaves_locked (persist item status) ≡ false)
      → (rs : List ItemResult) × (run_probes check persist false items ≡ some rs)
  run_probes_total [] calm = ([], unfold run_probes in refl)
  run_probes_total (item ∷ items) calm =
      let (rs, e) = run_probes_total items calm in
      elim (run_probes-cases false item items) [
        | inl (shut, stuck) ↦ absurd (ground (arith, shut))
        | inr (r, later, why, step) ↦ elim (Bool-cases later) [
          | inr free ↦ (
            r ∷ rs,
            rw (step, free) (then_results-some r (run_probes check persist false items) rs e),
          )
          | inl shut ↦ elim (why shut) [
            | inl locked ↦ absurd (ground (arith, locked))
            | inr (status, panics) ↦ absurd (ground (arith, calm item status, panics))
          ]
        ]
      ]

  classified-result :
      (found summary : Summary) (n : ℕ)
      → ◌≡◌ {A = Option Summary} (some found) (some summary)
      → classified found ≡ n
      → found.total_selected ≡ n
      → found.checked ≤ n
      → (classified summary ≡ n) × (summary.total_selected ≡ n) × (summary.checked ≤ n)
  classified-result found summary n e a b c =
      (ground (arith, e, a), ground (arith, e, b), ground (arith, e, c))

  leaves_locked-panics : (a : PersistAnswer) → leaves_locked a ≡ true → a ≡ persist_panics
  leaves_locked-panics persists h = absurd (cc h)
  leaves_locked-panics persist_errs h = absurd (cc h)
  leaves_locked-panics persist_panics h = refl

  -- With a persister that does not panic the batch ends, whatever else fails: checks that fail or
  -- panic, and a persister that reports errors.
  pub execute_batch_total :
      (schedule : List HealthCheckTarget → List HealthCheckTarget)
      (arrival : List ItemResult → List ItemResult) (targets : List HealthCheckTarget)
      → ((item : HealthCheckTarget) (status : Text) → persist item status ≢ persist_panics)
      → (summary : Summary) × (execute_batch check persist schedule arrival targets ≡ some summary)
  unfolding execute_batch
  execute_batch_total schedule arrival targets calm =
      let (s, probed) = dispatch (empty_summary (length targets)) targets in
      let (rs, e) = run_probes_total (schedule probed) (λ item status.
        elim (Bool-cases (leaves_locked (persist item status))) [
          | inl shut ↦ absurd (calm item status (leaves_locked-panics (persist item status) shut))
          | inr free ↦ free
        ]) in
      (record_results s (arrival rs), rw (e, execute_batch) refl)

  -- When the batch ends, with the probes and the results in any order, the five classes of the
  -- summary add up to the number of selected keys, which is its total, and it has counted no more
  -- keys than those as checked.
  pub execute_batch-classified :
      (schedule : List HealthCheckTarget → List HealthCheckTarget)
      (arrival : List ItemResult → List ItemResult) (targets : List HealthCheckTarget)
      (summary : Summary)
      → ((items : List HealthCheckTarget) → Perm (schedule items) items)
      → ((results : List ItemResult) → Perm (arrival results) results)
      → execute_batch check persist schedule arrival targets ≡ some summary
      → (classified summary ≡ length targets)
        × (summary.total_selected ≡ length targets)
        × (summary.checked ≤ length targets)
  unfolding execute_batch
  execute_batch-classified schedule arrival targets summary any_schedule any_arrival h =
      let (s, probed) = dispatch (empty_summary (length targets)) targets in
      let (class, checks, total) = dispatch-classified (empty_summary (length targets)) targets in
      elim (Option-cases (run_probes check persist false (schedule probed))) [
        | inl stuck ↦ absurd (ground (arith, (rw (stuck, execute_batch) at h)))
        | inr (rs, e) ↦
            let (classes, checked, totals) = record_results-classified s (arrival rs) in
            let size = length-run_probes false (schedule probed) rs e in
            let scheduled = length-perm (any_schedule probed) in
            let arrived = length-perm (any_arrival rs) in
            let result : ◌≡◌ {A = Option Summary} (some (record_results s (arrival rs)))
                (some summary) =
              rw (e, execute_batch) at h in
            classified-result (record_results s (arrival rs)) summary (length targets) result
              (omega arith) (omega arith) (omega arith)
      ]
