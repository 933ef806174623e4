-- ===== src/Jobs/Tracking/Recovery.antt =====
-- After a restart no job is left unfinished.
use sub_share_go.Common.{List, [], ◌∷◌, true, false, text, ◌≡◌, All, arith, text_eq}
use sub_share_go.Jobs.Tracking.{JobRow, is_interrupted, interrupt, recover_interrupted_jobs}

interrupt-status : (job : JobRow) → is_interrupted (interrupt job) ≡ false
unfolding text_eq
interrupt-status job = ground arith

-- A recovery that takes place leaves no job queued or running.
pub recover_interrupted_jobs-finished :
    (jobs : List JobRow)
    → All (λ job. is_interrupted job ≡ false) (recover_interrupted_jobs true jobs)
unfolding recover_interrupted_jobs
recover_interrupted_jobs-finished [] = tt
recover_interrupted_jobs-finished (job ∷ jobs) =
    (interrupt-status job, recover_interrupted_jobs-finished jobs)
