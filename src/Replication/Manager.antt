-- ===== src/Replication/Manager.antt =====
-- internal/replication/manager.go: the manager over its in-memory store and locker. What the source reads
-- from outside is an argument: the clock, new ids, and the registered backends with their two methods.
pub mod Locks
pub mod Runs
use Prim.Native.String.{String}
use nova_nas.Base.{
  ℕ, Bool, true, false, not, ◌&&◌, Option, none, some, List, [], ◌∷◌, ◌==◌, if◌then◌else◌, ℤ,
  Result, ok, err, ◌=?◌, string_eq, nat_eq, lookup,
}
use nova_nas.Calendar.{Time}
use nova_nas.Replication.Store.{
  RunOutcome, running, succeeded, failed, Job, Run, Error, not_registered, locked, rejected,
  run_failed, update_failed, validate, MemStore, create_job, update_job, delete_job, get_job,
  create_run, update_run, try_lock, release,
}

pub record RunResult : Type 0 where
  pub bytes_transferred : ℤ
  pub snapshot : String

-- A registered backend: `Validate`, whose error is a text. What `Execute` returns is an argument of the
-- end of a run.
pub record Backend : Type 0 where
  pub check : Job → Option String

abbrev pub Backends : Type 0
Backends = List (String × Backend)

pub record World : Type 0 where
  pub store : MemStore
  pub held : List (ℕ × Unit {0})

-- The checks that `Create` and `Update` share.
unfoldable pub check_job : Backends → Job → Option Error
check_job backends j = elim (validate j) [
  | some e ↦ some e
  | none ↦ elim (lookup backends j.backend) [
    | none ↦ some not_registered
    | some b ↦ elim (b.check j) [ some e ↦ some (rejected e) | none ↦ none ]
  ]
]

-- 0 is `uuid.Nil`.
unfoldable pub create : Backends → World → Job → ℕ → Time → World × Result Error Job
create backends w j new_id now =
    let id = if j.id == 0 then new_id else j.id in
    let created = elim j.created_at as (λ _. Option Time) [ none ↦ some now | some t ↦ some t ] in
    elim (check_job backends j) [
      | some e ↦ (w, err e)
      | none ↦
          let (store, r) =
            create_job w.store
              (record j { id = id; created_at = created; updated_at = some now }) in
          (record w { store = store }, r)
    ]

unfoldable pub update : Backends → World → Job → Time → World × Result Error Job
update backends w j now = elim (check_job backends j) [
  | some e ↦ (w, err e)
  | none ↦
      let (store, r) = update_job w.store (record j { updated_at = some now }) in
      (record w { store = store }, r)
]

unfoldable pub remove : World → ℕ → World × Option Error
remove w id = let (store, e) = delete_job w.store id in (record w { store = store }, e)

-- A run that holds its lock: the copy of the job that it read, and its record.
pub record Flight : Type 0 where
  pub job : Job
  pub run : Run

-- `Run` up to the call of `Execute`.
unfoldable pub run_begin : Backends → World → ℕ → ℕ → Time → World × Result Error Flight
run_begin backends w job_id run_id start = elim (get_job w.store job_id) [
  | err e ↦ (w, err e)
  | ok job ↦ elim (lookup backends job.backend) [
    | none ↦ (w, err not_registered)
    | some _ ↦
        let (held, got) = try_lock w.held job.id in
        let run : Run = record {
          id = run_id;
          job_id = job.id;
          started_at = start;
          finished_at = none;
          outcome = running;
          bytes_transferred = ℤ.pos 0;
          snapshot = "";
          error = "";
        } in
        if not got then (w, err locked) else (
          record { store = create_run w.store run; held = held },
          ok (record { job = job; run = run }),
        )
  ]
]

-- The run record when `Execute` has returned.
unfoldable pub finished_run : Run → RunResult → Option String → Time → Run
finished_run run res exec_err end =
    let done = record run {
      finished_at = some end;
      bytes_transferred = res.bytes_transferred;
      snapshot = res.snapshot;
    } in
    elim exec_err [
      | some e ↦ record done { outcome = failed; error = e }
      | none ↦ record done { outcome = succeeded }
    ]

-- The new last snapshot is stored for a ZFS job; an error of that is only logged.
unfoldable pub store_snapshot : MemStore → Job → RunResult → Option String → Time → MemStore
store_snapshot s job res exec_err end = elim exec_err [
  | some e ↦ s
  | none ↦
      if job.backend =? "zfs" && not (res.snapshot =? "")
      then (update_job s (record job { last_snapshot = res.snapshot; updated_at = some end })).0
      else s
]

-- `Run` from the return of `Execute` on, with the deferred release of the lock.
unfoldable pub run_end :
    World → Flight → RunResult → Option String → Time → World × Run × Option Error
run_end w f res exec_err end =
    let run = finished_run f.run res exec_err end in
    let (store, r) = update_run (store_snapshot w.store f.job res exec_err end) run in
    let failure = elim exec_err as (λ _. Option Error) [
      | none ↦ none
      | some e ↦ some (run_failed e)
    ] in
    let answer = elim r as (λ _. Option Error) [
      | err e ↦ some (update_failed e)
      | ok _ ↦ failure
    ] in
    (record { store = store; held = release w.held f.job.id }, run, answer)

-- `Run` with no other call between its two halves.
unfoldable pub run_now :
    Backends → World → ℕ → ℕ → Time → RunResult → Option String → Time → World × Option Error
run_now backends w job_id run_id start res exec_err end =
    let (w', begun) = run_begin backends w job_id run_id start in
    elim begun [
      | err e ↦ (w', some e)
      | ok f ↦ let (w'', run, e) = run_end w' f res exec_err end in (w'', e)
    ]
