-- ===== src/Replication/Manager/Runs.antt =====
-- What `Create`, `Update` and `Run` of the replication manager leave in its store.
use Prim.Native.String.{String}
use nova_nas.Base.{
  ℕ, ◌≡◌, refl, sym, ap, ◌∙◌, Bool, true, false, ◌||◌, Option, none, some, List, [], ◌∷◌, ◌++◌,
  ◌==◌, ==_iff, if◌then◌else◌, ok, err, lookup, insert, ◌=?◌, string_eq, lookup-insert, nat_eq, pos,
  arith,
}
use nova_nas.Calendar.{Time}
use nova_nas.Replication.Store.{
  Job, Run, Error, not_found, not_registered, locked, run_failed, MemStore, runs_of, update_job,
  get_job, create_run, replace_run, update_run, try_lock, running,
}
use nova_nas.Replication.Manager.Locks.{run_end_held}
use nova_nas.Replication.Manager.{
  Backends, Backend, World, RunResult, Flight, update, run_begin, finished_run, store_snapshot,
  run_end, run_now,
}

-- Whether a list has a run with the id.
abbrev pub has_run : ℕ → List Run → Bool
has_run id [] = false
has_run id (r ∷ rs) = r.id == id || has_run id rs

replace_run-append :
    (xs : List Run) (old r : Run)
    → has_run r.id xs ≡ false
    → old.id ≡ r.id
    → replace_run (xs ++ old ∷ []) r ≡ some (xs ++ r ∷ [])
unfolding replace_run
replace_run-append [] old r h e = ground (arith, ==_iff old.id r.id)
replace_run-append (x ∷ xs) old r h e = ground (arith, replace_run-append xs old r)

runs_of-insert :
    (s : MemStore) (id key : ℕ) (rs : List Run)
    → runs_of (record s { runs = insert s.runs key rs }) id
      ≡ (if key == id then rs else runs_of s id)
unfolding runs_of
runs_of-insert s id key rs = ground (arith, lookup-insert s.runs key id rs)

store_snapshot_runs :
    (s : MemStore) (j : Job) (res : RunResult) (exec_err : Option String) (end : Time)
    → (store_snapshot s j res exec_err end).runs ≡ s.runs
unfolding store_snapshot update_job
store_snapshot_runs s j res exec_err end = ground arith

runs_of_ap : (s t : MemStore) (id : ℕ) → s.runs ≡ t.runs → runs_of s id ≡ runs_of t id
unfolding runs_of
runs_of_ap s t id h = ground (arith, h)

-- The run record that `Run` creates.
abbrev pub new_run : ℕ → ℕ → Time → Run
new_run run_id job_id start = record {
  id = run_id;
  job_id = job_id;
  started_at = start;
  finished_at = none;
  outcome = running;
  bytes_transferred = pos 0;
  snapshot = "";
  error = "";
}

run_begin_lem :
    (backends : Backends) (w : World) (job_id run_id : ℕ) (start : Time) (job : Job) (b : Backend)
    → get_job w.store job_id ≡ ok job
    → lookup backends job.backend ≡ some b
    → lookup w.held job.id ≡ none
    → run_begin backends w job_id run_id start ≡ (
      record {
        store = create_run w.store (new_run run_id job.id start);
        held = insert w.held job.id tt;
      },
      ok (record { job = job; run = new_run run_id job.id start }),
    )
unfolding run_begin try_lock
run_begin_lem backends w job_id run_id start job b found known free =
    rw (run_begin, found, known, try_lock, free)

-- What `Run` returns after `Execute`, when its run record is still stored.
abbrev pub failure_of : Option String → Option Error
failure_of none = none
failure_of (some e) = some (run_failed e)

update_run_lem :
    (s : MemStore) (xs : List Run) (old run : Run)
    → runs_of s run.job_id ≡ xs ++ old ∷ []
    → has_run run.id xs ≡ false
    → old.id ≡ run.id
    → update_run s run ≡ (record s { runs = insert s.runs run.job_id (xs ++ run ∷ []) }, ok run)
unfolding update_run
update_run_lem s xs old run here fresh e =
    rw (update_run, here, replace_run-append xs old run fresh e)

finished_run_key :
    (run : Run) (res : RunResult) (exec_err : Option String) (end : Time)
    → ((finished_run run res exec_err end).id ≡ run.id)
      × ((finished_run run res exec_err end).job_id ≡ run.job_id)
unfolding finished_run
finished_run_key run res none end = (refl, refl)
finished_run_key run res (some e) end = (refl, refl)

run_end_lem :
    (w : World) (f : Flight) (res : RunResult) (exec_err : Option String) (end : Time)
    (xs : List Run)
    → runs_of w.store f.run.job_id ≡ xs ++ f.run ∷ []
    → has_run f.run.id xs ≡ false
    → ((id : ℕ)
        → runs_of (run_end w f res exec_err end).0.store id ≡ (
            if f.run.job_id == id
            then xs ++ finished_run f.run res exec_err end ∷ []
            else runs_of w.store id))
      × ((run_end w f res exec_err end).2 ≡ failure_of exec_err)
unfolding run_end
run_end_lem w f res exec_err end xs here fresh =
    let run = finished_run f.run res exec_err end in
    let s = store_snapshot w.store f.job res exec_err end in
    let key = finished_run_key f.run res exec_err end in
    let same : ((id : ℕ) → runs_of s id ≡ runs_of w.store id) =
      λ id. runs_of_ap s w.store id (store_snapshot_runs w.store f.job res exec_err end) in
    let updated =
      update_run_lem s xs f.run run (same run.job_id ∙ ap (runs_of w.store) key.1 ∙ here)
        (ap (λ i. has_run i xs) key.0 ∙ fresh) (sym key.0) in
    (
      λ id. ground (arith, updated, key, same id, runs_of-insert s id run.job_id (xs ++ run ∷ [])),
      ground (arith, updated),
    )

runs_of-create_run :
    (s : MemStore) (r : Run) (id : ℕ)
    → runs_of (create_run s r) id
      ≡ (if r.job_id == id then runs_of s r.job_id ++ r ∷ [] else runs_of s id)
unfolding create_run
runs_of-create_run s r id = runs_of-insert s id r.job_id (runs_of s r.job_id ++ r ∷ [])

run_now_ok :
    (backends : Backends) (w w1 : World) (job_id run_id : ℕ) (start : Time) (f : Flight)
    (res : RunResult) (exec_err : Option String) (end : Time)
    → run_begin backends w job_id run_id start ≡ (w1, ok f)
    → run_now backends w job_id run_id start res exec_err end
      ≡ ((run_end w1 f res exec_err end).0, (run_end w1 f res exec_err end).2)
unfolding run_now
run_now_ok backends w w1 job_id run_id start f res exec_err end h =
    rw (run_now, ap (λ p. p.1) h, ap (λ p. p.0) h)

pub run_adds_one_record :
    (backends : Backends) (w : World) (job_id run_id : ℕ) (start : Time) (job : Job) (b : Backend)
    (res : RunResult) (exec_err : Option String) (end : Time)
    → get_job w.store job_id ≡ ok job
    → lookup backends job.backend ≡ some b
    → lookup w.held job.id ≡ none
    → has_run run_id (runs_of w.store job.id) ≡ false
    → (id : ℕ)
    → (runs_of (run_now backends w job_id run_id start res exec_err end).0.store id ≡ (
        if job.id == id
        then runs_of w.store job.id
          ++ finished_run (new_run run_id job.id start) res exec_err end ∷ []
        else runs_of w.store id))
      × ((run_now backends w job_id run_id start res exec_err end).1 ≡ failure_of exec_err)
      × (lookup (run_now backends w job_id run_id start res exec_err end).0.held job.id ≡ none)
run_adds_one_record backends w job_id run_id start job b res exec_err end found known free fresh
      id =
    let run = new_run run_id job.id start in
    let w1 : World = record { store = create_run w.store run; held = insert w.held job.id tt } in
    let f : Flight = record { job = job; run = run } in
    let begun = run_begin_lem backends w job_id run_id start job b found known free in
    let done = run_now_ok backends w w1 job_id run_id start f res exec_err end begun in
    let here = runs_of-create_run w.store run in
    let (runs, answer) =
      run_end_lem w1 f res exec_err end (runs_of w.store job.id) (ground (arith, here job.id))
        fresh in
    (
      ground (arith, done, runs id, here id),
      ground (arith, done, answer),
      ground (arith, done, run_end_held w1 f res exec_err end job.id),
    )

run_now_err :
    (backends : Backends) (w w1 : World) (job_id run_id : ℕ) (start : Time) (e : Error)
    (res : RunResult) (exec_err : Option String) (end : Time)
    → run_begin backends w job_id run_id start ≡ (w1, err e)
    → run_now backends w job_id run_id start res exec_err end ≡ (w1, some e)
unfolding run_now
run_now_err backends w w1 job_id run_id start e res exec_err end h =
    rw (run_now, ap (λ p. p.1) h, ap (λ p. p.0) h)

-- Why a run of a job does not begin, with the error of it.
pub data Refused (backends : Backends) (w : World) (job_id : ℕ) : Error → Type 0 where
  unknown : lookup w.store.jobs job_id ≡ none → Refused backends w job_id not_found
  unregistered :
      (job : Job)
      → lookup w.store.jobs job_id ≡ some job
      → lookup backends job.backend ≡ none
      → Refused backends w job_id not_registered
  busy :
      (job : Job) (b : Backend)
      → lookup w.store.jobs job_id ≡ some job
      → lookup backends job.backend ≡ some b
      → lookup w.held job.id ≡ some tt
      → Refused backends w job_id locked

-- For a job that is unknown, that has no registered backend, or whose lock is held, `Run` changes nothing
-- (no run record is created) and returns the error of that case.
run-Refused :
    (backends : Backends) (w : World) (job_id run_id : ℕ) (start : Time) (res : RunResult)
    (exec_err : Option String) (end : Time) (e : Error)
    → Refused backends w job_id e
    → run_now backends w job_id run_id start res exec_err end ≡ (w, some e)
unfolding run_now run_begin get_job try_lock
run-Refused backends w job_id run_id start res exec_err end e (Refused.unknown h) =
    run_now_err backends w w job_id run_id start e res exec_err end (rw (run_begin, get_job, h))
run-Refused backends w job_id run_id start res exec_err end e (Refused.unregistered job h k) =
    run_now_err backends w w job_id run_id start e res exec_err end (rw (run_begin, get_job, h, k))
run-Refused backends w job_id run_id start res exec_err end e (Refused.busy job b h k l) =
    run_now_err backends w w job_id run_id start e res exec_err end
      (rw (run_begin, get_job, h, k, try_lock, l))

-- What a successful ZFS run stores is the copy of the job it read when it began: however the job was
-- updated while the run was in flight, once the run has ended the stored job is the old one, with the
-- new snapshot and time.
pub run_end_reverts_update :
    (backends : Backends) (w w' : World) (f : Flight) (j stored : Job) (now : Time)
    (res : RunResult) (end : Time)
    → update backends w j now ≡ (w', ok stored)
    → stored.id ≡ f.job.id
    → (f.job.backend =? "zfs") ≡ true
    → (res.snapshot =? "") ≡ false
    → lookup (run_end w' f res none end).0.store.jobs f.job.id
      ≡ some (record f.job { last_snapshot = res.snapshot; updated_at = some end })
unfolding update update_job run_end store_snapshot update_run
run_end_reverts_update backends w w' f j stored now res end u same zfs new =
    let copy = record f.job { last_snapshot = res.snapshot; updated_at = some end } in
    ground (
      arith,
      lookup-insert w.store.jobs stored.id f.job.id stored,
      lookup-insert w'.store.jobs f.job.id f.job.id copy,
      ==_iff f.job.id f.job.id,
    )
