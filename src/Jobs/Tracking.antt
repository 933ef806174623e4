-- ===== src/Jobs/Tracking.antt =====
-- cmd/server/job_tracking.go: the rows that record the state of a job. The writes are best effort:
-- the error of a statement is ignored, and `works` says whether it took place.
pub mod Recovery
use sub_share_go.Common.{
  ℕ, suc, List, [], ◌∷◌, map, Option, none, some, Bool, true, false, ◌||◌, ◌&&◌, ◌==◌, text, ℕ_eq,
  nat_eq, if◌then◌else◌, ◌++◌,
}
use sub_share_go.Strings.{Text, codes}

-- a row of `background_jobs`, less its times and counts
pub record JobRow : Type 0 where
  pub id : ℕ
  pub kind : Text
  pub status : Text
  pub target_type : Text
  pub target_id : Text
  pub error_message : Text

-- `jobDispatchPlan`
pub record JobTarget : Type 0 where
  pub kind : Text
  pub target_type : Text
  pub target_id : Text

abbrev pub is_interrupted : JobRow → Bool
is_interrupted job = job.status == codes "queued" || job.status == codes "running"

abbrev pub interrupt : JobRow → JobRow
interrupt job =
    if is_interrupted job
    then record job {
      status = codes "failed";
      error_message = codes "interrupted by service restart";
    }
    else job

-- the first statement of `recoverInterruptedJobs`
unfoldable pub recover_interrupted_jobs : Bool → List JobRow → List JobRow
recover_interrupted_jobs false jobs = jobs
recover_interrupted_jobs true jobs = map interrupt jobs

-- `next` is the id that the database gives; 0 stands for a failed insert
unfoldable pub insert_tracked_job : Bool → ℕ → Text → JobTarget → List JobRow → ℕ × List JobRow
insert_tracked_job false next status target jobs = (0, jobs)
insert_tracked_job true next status target jobs = (
  next,
  jobs
      ++ record {
        id = next;
        kind = target.kind;
        status = status;
        target_type = target.target_type;
        target_id = target.target_id;
        error_message = [];
      }
        ∷ [],
)

abbrev pub start_tracked_job : Bool → ℕ → JobTarget → List JobRow → ℕ × List JobRow
start_tracked_job works next = insert_tracked_job works next (codes "running")

abbrev pub queue_tracked_job : Bool → ℕ → JobTarget → List JobRow → ℕ × List JobRow
queue_tracked_job works next = insert_tracked_job works next (codes "queued")

-- UPDATE background_jobs SET … WHERE id = ?
unfoldable pub update_job : ℕ → (JobRow → JobRow) → List JobRow → List JobRow
update_job id change [] = []
update_job id change (job ∷ jobs) =
    (if job.id == id then change job else job) ∷ update_job id change jobs

abbrev pub to_running : JobRow → JobRow
to_running job =
    if job.status == codes "queued"
    then record job { status = codes "running"; error_message = [] }
    else job

unfoldable pub mark_tracked_job_running : Bool → ℕ → List JobRow → List JobRow
mark_tracked_job_running works id jobs =
    if nat_eq id 0 then jobs else if works then update_job id to_running jobs else jobs

abbrev pub to_finished : Option Text → JobRow → JobRow
to_finished none job = record job { status = codes "succeeded"; error_message = [] }
to_finished (some message) job = record job { status = codes "failed"; error_message = message }

unfoldable pub finish_tracked_job : Bool → ℕ → Option Text → List JobRow → List JobRow
finish_tracked_job works id error jobs =
    if nat_eq id 0 then jobs else if works then update_job id (to_finished error) jobs else jobs
