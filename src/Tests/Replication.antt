-- ===== src/Tests/Replication.antt =====
-- The theorems on internal/replication, at concrete inputs.
use mathlib.Core.List.{Memᴰ}
use nova_nas.Base.{
  ℕ, ap, ◌||◌, ◌≤◌, ◌≡◌, refl, arith, none, some, true, false, List, [], ◌∷◌, ◌++◌, pos, contains,
  lookup, nat_eq, string_eq, if◌then◌else◌, ◌==◌,
}
use nova_nas.Calendar.{Time, stamp}
use nova_nas.Replication.Retention.{RetentionPolicy, RunRecord, daily_key}
use nova_nas.Replication.Retention.Laws.{daily}
use nova_nas.Replication.Retention.Keeps.{kept, retention_keeps_buckets}
use nova_nas.Replication.Store.{Job, get_job, runs_of, try_lock, update_job, validate}
use nova_nas.Replication.Manager.{
  Backends, World, check_job, RunResult, Flight, update, run_begin, run_end, run_now, finished_run,
}
use nova_nas.Replication.Manager.Locks.{Step, Reach, in_flight, lock_count, one_run_per_job}
use nova_nas.Replication.Manager.Runs.{
  new_run, failure_of, run_adds_one_record, run_end_reverts_update,
}

abbrev at_day : ℕ → Time
at_day d = record { year = 2024; month = 3; day = d; hour = 6; minute = 15; nanos = 0 }

abbrev records : List RunRecord
records = record { id = "a"; time = at_day 4 } ∷ record { id = "b"; time = at_day 5 } ∷ []

abbrev newest_one : RetentionPolicy
newest_one = record {
  keep_last_n = pos 1;
  keep_daily = pos 1;
  keep_weekly = pos 0;
  keep_monthly = pos 0;
  keep_yearly = pos 0;
}

abbrev run_b : RunRecord
run_b = record { id = "b"; time = at_day 5 }

run_b_alone :
    (s : RunRecord)
    → Memᴰ s records
    → stamp run_b.time ≤ stamp s.time
    → (daily_key s.time == daily_key run_b.time || contains [] (daily_key s.time)) ≡ true
unfolding daily_key contains
run_b_alone s (Memᴰ.head e) h = absurd (ground (arith, ap (λ (x : RunRecord). stamp x.time) e, h))
run_b_alone s (Memᴰ.tail (Memᴰ.head e)) h = rw e refl
run_b_alone s (Memᴰ.tail (Memᴰ.tail m)) h = elim m [ ]

retention_keeps_buckets_example :
    (b : RunRecord) × Memᴰ b (kept records newest_one)
    × (daily_key b.time ≡ daily_key run_b.time)
    × (stamp run_b.time ≤ stamp b.time)
retention_keeps_buckets_example =
    retention_keeps_buckets daily records newest_one {r = run_b} [] (Memᴰ.tail (Memᴰ.head refl))
      (omega arith) run_b_alone

abbrev backends : Backends
backends = ("zfs", record { check = λ j. none }) ∷ []

abbrev mirror : Job
mirror = record {
  id = 5;
  name = "mirror";
  backend = "zfs";
  direction = "push";
  enabled = true;
  last_snapshot = "";
  created_at = some (at_day 1);
  updated_at = some (at_day 1);
}

abbrev idle : World
idle = record { store = record { jobs = (5, mirror) ∷ []; runs = [] }; held = [] }

abbrev busy_world : World
busy_world = record { store = record { jobs = (5, mirror) ∷ []; runs = [] }; held = (5, tt) ∷ [] }

abbrev sent : RunResult
sent = record { bytes_transferred = pos 1000; snapshot = "tank@s1" }

run_adds_one_record_example :
    (runs_of (run_now backends idle 5 1 (at_day 2) sent none (at_day 3)).0.store 5 ≡ (
      if 5 == 5
      then runs_of idle.store 5 ++ finished_run (new_run 1 5 (at_day 2)) sent none (at_day 3) ∷ []
      else runs_of idle.store 5))
    × ((run_now backends idle 5 1 (at_day 2) sent none (at_day 3)).1 ≡ failure_of none)
    × (lookup (run_now backends idle 5 1 (at_day 2) sent none (at_day 3)).0.held 5 ≡ none)
unfolding lookup get_job runs_of
run_adds_one_record_example =
    run_adds_one_record backends idle 5 1 (at_day 2) mirror (record { check = λ j. none }) sent none
      (at_day 3) refl refl refl refl 5

abbrev flight : Flight
flight = record { job = mirror; run = new_run 1 5 (at_day 2) }

-- One run begins from the idle state.
one_run_per_job_example :
    (in_flight 5 (flight ∷ []) ≤ 1)
    × (in_flight 5 (flight ∷ [])
        ≡ lock_count (lookup (run_begin backends idle 5 1 (at_day 2)).0.held 5))
unfolding run_begin get_job lookup try_lock
one_run_per_job_example =
    one_run_per_job backends idle
      (record { world = (run_begin backends idle 5 1 (at_day 2)).0; flights = flight ∷ [] }) refl
      (Reach.next Reach.here
        (Step.begins 5 1 (at_day 2) (run_begin backends idle 5 1 (at_day 2)).0 flight refl refl))
      5

-- The job is disabled while its run is in flight, and enabled again when the run ends.
abbrev disabled : Job
disabled = record mirror { enabled = false }

run_end_reverts_update_example :
    lookup
      (run_end
        (update backends idle disabled (at_day 2)).0
        flight
        sent
        none
        (at_day 3)).0.store.jobs
      5
    ≡ some (record mirror { last_snapshot = "tank@s1"; updated_at = some (at_day 3) })
unfolding update check_job validate lookup update_job
run_end_reverts_update_example =
    run_end_reverts_update backends idle (update backends idle disabled (at_day 2)).0 flight
      disabled (record disabled { updated_at = some (at_day 2) }) (at_day 2) sent (at_day 3) refl
      refl refl refl
