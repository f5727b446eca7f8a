-- ===== src/Jobs/Worker/Final.antt =====
-- The ends of a job, whatever calls follow each other.
use nova_nas.Base.{
  ◌≡◌, ap, ◌∙◌, Bool, true, false, Option, none, some, [], ◌∷◌, Text, text_eq, ◌=?◌, lookup,
  lookup-insert, Bool-cases, inl, inr, arith,
}
use nova_nas.Jobs.Worker.{
  JobState, succeeded, failed, cancelled, JobStatus, Rows, alter, insert_job, set_running,
  mark_job_running, RunError, set_finished, finish, set_interrupted, mark_interrupted_at_startup,
  set_cancelled, cancel_job, handle_begin, handle_end,
}

abbrev pub is_final : JobState → Bool
is_final succeeded = true
is_final failed = true
is_final cancelled = true
is_final _ = false

-- A call that changes the rows: a job is added under an id that is new, a handler starts or ends, a job is
-- cancelled, or the process starts anew.
pub data Step : Rows → Rows → Type 0 where
  added : (rows : Rows) (id : Text) → lookup rows id ≡ none → Step rows (insert_job rows id)
  begun : (rows : Rows) (task : Option Text) → Step rows (handle_begin rows task)
  ended :
      (rows : Rows) (id : Text) (run_err : Option RunError) → Step rows (handle_end rows id run_err)
  stopped : (rows : Rows) (id : Text) → Step rows (cancel_job rows id)
  restarted : (rows : Rows) → Step rows (mark_interrupted_at_startup rows)

pub data Steps (rows : Rows) : Rows → Type 0 where
  here : Steps rows rows
  next : {mid last : Rows} → Steps rows mid → Step mid last → Steps rows last

-- A change that leaves a row alone leaves its lookup alone.
alter-lookup :
    (f : JobStatus → JobStatus) (rows : Rows) (id j : Text) (r : JobStatus)
    → lookup rows j ≡ some r
    → f r ≡ r
    → lookup (alter f rows id) j ≡ some r
unfolding alter lookup
alter-lookup f [] id j r h same = h
alter-lookup f ((i, q) ∷ rows) id j r h same = elim (Bool-cases (i =? j)) [
  | inl here_it_is ↦
      let is_row : (q ≡ r) = ground (arith, h, here_it_is) in
      let kept : (f q ≡ r) = ap f is_row ∙ same in ground (arith, here_it_is, is_row, kept)
  | inr elsewhere ↦ ground (arith, h, elsewhere, alter-lookup f rows id j r)
]

set_running-final : (r : JobStatus) → is_final r.state ≡ true → set_running r.state r ≡ r
unfolding set_running
set_running-final r h = ground (arith, h)

set_finished-final :
    (run_err : Option RunError) (r : JobStatus)
    → is_final r.state ≡ true
    → set_finished r.state run_err r ≡ r
unfolding set_finished
set_finished-final run_err r h = ground (arith, h)

set_cancelled-final : (r : JobStatus) → is_final r.state ≡ true → set_cancelled r.state r ≡ r
unfolding set_cancelled
set_cancelled-final r h = ground (arith, h)

set_interrupted-final : (r : JobStatus) → is_final r.state ≡ true → set_interrupted r.state r ≡ r
unfolding set_interrupted
set_interrupted-final r h = ground (arith, h)

restart-lookup :
    (rows : Rows) (j : Text) (r : JobStatus)
    → lookup rows j ≡ some r
    → is_final r.state ≡ true
    → lookup (mark_interrupted_at_startup rows) j ≡ some r
unfolding mark_interrupted_at_startup lookup
restart-lookup [] j r h final = h
restart-lookup ((i, q) ∷ rows) j r h final = elim (Bool-cases (i =? j)) [
  | inl here_it_is ↦
      let is_row : (q ≡ r) = ground (arith, h, here_it_is) in
      let kept : (set_interrupted q.state q ≡ r) =
        ap (λ t. set_interrupted t.state t) is_row ∙ set_interrupted-final r final in
      ground (arith, here_it_is, kept)
  | inr elsewhere ↦ ground (arith, h, elsewhere, restart-lookup rows j r)
]

added-lookup :
    (rows : Rows) (id j : Text) (r : JobStatus)
    → lookup rows id ≡ none
    → lookup rows j ≡ some r
    → lookup (insert_job rows id) j ≡ some r
unfolding insert_job
added-lookup rows id j r new h = elim (Bool-cases (id =? j)) [
  | inr other_id ↦ lookup-insert rows id j _ ∙ rw other_id h
  | inl same ↦
      let clash : (lookup rows id ≡ some r) =
        ap (lookup rows) ((text_eq.beq_iff id j).0 same) ∙ h in
      absurd (ground (arith, new, clash))
]

Step-final :
    {rows rows' : Rows} (j : Text) (r : JobStatus)
    → Step rows rows'
    → lookup rows j ≡ some r
    → is_final r.state ≡ true
    → lookup rows' j ≡ some r
unfolding insert_job handle_begin handle_end mark_job_running finish cancel_job
Step-final j r (added rows id new) h final = added-lookup rows id j r new h
Step-final j r (begun rows none) h final = h
Step-final j r (begun rows (some id)) h final =
    alter-lookup (λ q. set_running q.state q) rows id j r h (set_running-final r final)
Step-final j r (ended rows id run_err) h final =
    alter-lookup (λ q. set_finished q.state run_err q) rows id j r h
      (set_finished-final run_err r final)
Step-final j r (stopped rows id) h final =
    alter-lookup (λ q. set_cancelled q.state q) rows id j r h (set_cancelled-final r final)
Step-final j r (restarted rows) h final = restart-lookup rows j r h final

-- A job that has succeeded, failed or been cancelled keeps its row as it is, whatever is called in whatever
-- order after that: a handler that was already at work when the job was cancelled does not write its end over it.
pub Steps-final :
    {rows rows' : Rows} (j : Text) (r : JobStatus)
    → Steps rows rows'
    → lookup rows j ≡ some r
    → is_final r.state ≡ true
    → lookup rows' j ≡ some r
Steps-final j r here h final = h
Steps-final j r (next steps step) h final =
    Step-final j r step (Steps-final j r steps h final) final
