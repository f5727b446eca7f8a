-- ===== src/Tests/Worker.antt =====
-- A job that is cancelled while its handler is at work.
use nova_nas.Base.{◌≡◌, refl, none, some, [], ◌∷◌, codes, text_eq, text_beq, lookup, insert}
use nova_nas.Jobs.Worker.{
  Rows, JobStatus, cancelled, insert_job, handle_begin, handle_end, cancel_job, alter,
  mark_job_running, set_running, set_cancelled, mark_interrupted_at_startup,
}
use nova_nas.Jobs.Worker.Final.{here, next, ended, restarted, Steps-final}

abbrev cancelled_status : JobStatus
cancelled_status = record { state = cancelled; stderr = []; exit_code = none; error = none }

abbrev at_cancel : Rows
at_cancel = (codes "7", cancelled_status) ∷ []

-- The way there: the job was added, begun and cancelled.
cancelled_at_work :
    cancel_job (handle_begin (insert_job [] (codes "7")) (some (codes "7"))) (codes "7") ≡ at_cancel
unfolding cancel_job handle_begin insert_job alter mark_job_running set_running set_cancelled insert
    text_beq
cancelled_at_work = refl

-- The task of a job that was cancelled before is begun all the same, and its row stays cancelled.
begun_when_cancelled : handle_begin at_cancel (some (codes "7")) ≡ at_cancel
unfolding handle_begin alter mark_job_running set_running text_beq
begun_when_cancelled = refl

abbrev after_end : Rows
after_end = handle_end at_cancel (codes "7") none

Steps-final_example :
    lookup (mark_interrupted_at_startup after_end) (codes "7") ≡ some cancelled_status
unfolding lookup text_beq
Steps-final_example =
    Steps-final (codes "7") cancelled_status
      (next (next here (ended at_cancel (codes "7") none)) (restarted after_end)) refl refl
