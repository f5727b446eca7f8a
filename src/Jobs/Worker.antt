-- ===== src/Jobs/Worker.antt =====
-- internal/jobs/worker.go and recover.go with the statements of internal/store/queries/jobs.sql: the state of a
-- job's row. A handler is cut in two at its call of the host, so that other calls can come between; all handlers
-- have this form and differ in the payload and the host's call.
pub mod Final
use nova_nas.Base.{
  ℤ, Bool, true, false, Option, none, some, List, [], ◌∷◌, Text, codes, text_eq, ◌=?◌, insert,
  Result, ok, err, if◌then◌else◌,
}

pub data JobState : Type 0 where
  queued running succeeded failed interrupted cancelled : JobState

-- Of the columns that the statements write, those but the times and the output, which is always empty.
pub record JobStatus : Type 0 where
  pub state : JobState
  pub stderr : Text
  pub exit_code : Option ℤ
  pub error : Option Text

abbrev pub Rows : Type 0
Rows = List (Text × JobStatus)

-- `UPDATE jobs SET … WHERE id = $1`, for the rows that the change does not leave alone.
unfoldable pub alter : (JobStatus → JobStatus) → Rows → Text → Rows
alter f [] id = []
alter f ((j, r) ∷ rows) id = if j =? id then (j, f r) ∷ rows else (j, r) ∷ alter f rows id

-- `InsertJob`
unfoldable pub insert_job : Rows → Text → Rows
insert_job rows id =
    insert rows id (record { state = queued; stderr = []; exit_code = none; error = none })

unfoldable pub set_running : JobState → JobStatus → JobStatus
set_running queued r = record r { state = running }
set_running interrupted r = record r { state = running }
set_running _ r = r

unfoldable pub mark_job_running : Rows → Text → Rows
mark_job_running rows id = alter (λ r. set_running r.state r) rows id

-- An error of a run; `host` has the output and the exit code where it is the host command's.
pub record RunError : Type 0 where
  pub message : Text
  pub host : Option (Text × ℤ)

unfoldable pub finished_row : Option RunError → JobStatus → JobStatus
finished_row none r = record r { state = succeeded; stderr = []; exit_code = none; error = none }
finished_row (some e) r = elim e.host as (λ _. JobStatus) [
  | none ↦ record r { state = failed; stderr = []; exit_code = none; error = some e.message }
  | some (stderr, code) ↦ record r {
    state = failed;
    stderr = stderr;
    exit_code = some code;
    error = some e.message;
  }
]

unfoldable pub set_finished : JobState → Option RunError → JobStatus → JobStatus
set_finished running run_err r = finished_row run_err r
set_finished _ run_err r = r

-- `finish`, without the message to the subscribers
unfoldable pub finish : Rows → Text → Option RunError → Rows
finish rows id run_err = alter (λ r. set_finished r.state run_err r) rows id

unfoldable pub set_interrupted : JobState → JobStatus → JobStatus
set_interrupted queued r = record r {
  state = interrupted;
  error = some (codes "process restarted");
}
set_interrupted running r = record r {
  state = interrupted;
  error = some (codes "process restarted");
}
set_interrupted _ r = r

-- `MarkInterruptedAtStartup`
unfoldable pub mark_interrupted_at_startup : Rows → Rows
mark_interrupted_at_startup [] = []
mark_interrupted_at_startup ((j, r) ∷ rows) =
    (j, set_interrupted r.state r) ∷ mark_interrupted_at_startup rows

unfoldable pub set_cancelled : JobState → JobStatus → JobStatus
set_cancelled queued r = record r { state = cancelled }
set_cancelled running r = record r { state = cancelled }
set_cancelled _ r = r

unfoldable pub cancel_job : Rows → Text → Rows
cancel_job rows id = alter (λ r. set_cancelled r.state r) rows id

-- A handler up to its call of the host. A task whose body or id is not readable changes no row.
unfoldable pub handle_begin : Rows → Option Text → Rows
handle_begin rows none = rows
handle_begin rows (some id) = mark_job_running rows id

-- A handler from the answer of the host on.
unfoldable pub handle_end : Rows → Text → Option RunError → Rows
handle_end rows id run_err = finish rows id run_err
