-- ===== src/Scheduler/Manager/Passes.antt =====
-- Which snapshots a pass of the scheduler takes, and which schedules it marks.
use nova_nas.Base.{
  ℕ, ◌≡◌, refl, sym, ap, ◌∙◌, inl, inr, Bool, false, List, [], ◌∷◌, ◌++◌, Text, Bool-cases,
  if◌then◌else◌, ok, err, Result-cases,
}
use mathlib.Core.List.{append_assoc, append-nil}
use nova_nas.Calendar.{fixed_clock, Time}
use nova_nas.Scheduler.Cron.{should_fire_between}
use nova_nas.Scheduler.Cron.Parse.{parse_cron}
use nova_nas.Scheduler.Retention.{SnapInfo}
use nova_nas.Scheduler.SnapTime.{format_snap_time}
use nova_nas.Scheduler.Manager.{
  Call, list_snapshots, create_snapshot, destroy_snapshot, mark_snapshot_fired, get_target,
  send_receive, mark_replication_result, mark_replication_fired, Host, SnapshotSchedule, pruned,
  destroy_calls, prune_snapshots, fire_and_mark, run_snapshot_schedule, run_snapshot_schedules,
}

-- The dataset, the short name and the recursion of each snapshot that is taken, in order.
abbrev pub created : List Call → List (Text × Text × Bool)
created [] = []
created (create_snapshot d n r ∷ h) = (d, n, r) ∷ created h
created (list_snapshots _ ∷ h) = created h
created (destroy_snapshot _ ∷ h) = created h
created (mark_snapshot_fired _ _ ∷ h) = created h
created (get_target _ ∷ h) = created h
created (send_receive _ _ _ ∷ h) = created h
created (mark_replication_result _ _ _ ∷ h) = created h
created (mark_replication_fired _ _ ∷ h) = created h

-- The schedules that are marked as fired and the times of that, in order.
abbrev pub marked : List Call → List (ℕ × Time)
marked [] = []
marked (mark_snapshot_fired i t ∷ h) = (i, t) ∷ marked h
marked (create_snapshot _ _ _ ∷ h) = marked h
marked (list_snapshots _ ∷ h) = marked h
marked (destroy_snapshot _ ∷ h) = marked h
marked (get_target _ ∷ h) = marked h
marked (send_receive _ _ _ ∷ h) = marked h
marked (mark_replication_result _ _ _ ∷ h) = marked h
marked (mark_replication_fired _ _ ∷ h) = marked h

-- A schedule whose cron expression is good and fires between its last firing and now.
abbrev pub due : Time → SnapshotSchedule → Bool
due now s = elim (parse_cron s.cron) [
  | err _ ↦ false
  | ok expr ↦ should_fire_between fixed_clock expr s.last_fired_at now
]

-- One snapshot for each due schedule: of its dataset, named after its prefix and now, recursive as it says.
abbrev pub due_snapshots : Time → List SnapshotSchedule → List (Text × Text × Bool)
due_snapshots now [] = []
due_snapshots now (s ∷ ss) =
    (if due now s
      then (s.dataset, format_snap_time s.snapshot_prefix now, s.recursive) ∷ []
      else [])
    ++ due_snapshots now ss

abbrev pub due_marks : Time → List SnapshotSchedule → List (ℕ × Time)
due_marks now [] = []
due_marks now (s ∷ ss) = (if due now s then (s.id, now) ∷ [] else []) ++ due_marks now ss

created-append : (h k : List Call) → created (h ++ k) ≡ created h ++ created k
created-append [] k = refl
created-append (create_snapshot d n r ∷ h) k = ap (◌∷◌ (d, n, r)) (created-append h k)
created-append (list_snapshots _ ∷ h) k = created-append h k
created-append (destroy_snapshot _ ∷ h) k = created-append h k
created-append (mark_snapshot_fired _ _ ∷ h) k = created-append h k
created-append (get_target _ ∷ h) k = created-append h k
created-append (send_receive _ _ _ ∷ h) k = created-append h k
created-append (mark_replication_result _ _ _ ∷ h) k = created-append h k
created-append (mark_replication_fired _ _ ∷ h) k = created-append h k

marked-append : (h k : List Call) → marked (h ++ k) ≡ marked h ++ marked k
marked-append [] k = refl
marked-append (create_snapshot _ _ _ ∷ h) k = marked-append h k
marked-append (list_snapshots _ ∷ h) k = marked-append h k
marked-append (destroy_snapshot _ ∷ h) k = marked-append h k
marked-append (mark_snapshot_fired i t ∷ h) k = ap (◌∷◌ (i, t)) (marked-append h k)
marked-append (get_target _ ∷ h) k = marked-append h k
marked-append (send_receive _ _ _ ∷ h) k = marked-append h k
marked-append (mark_replication_result _ _ _ ∷ h) k = marked-append h k
marked-append (mark_replication_fired _ _ ∷ h) k = marked-append h k

destroy_calls_none :
    (ds : List SnapInfo) → (created (destroy_calls ds) ≡ []) × (marked (destroy_calls ds) ≡ [])
destroy_calls_none [] = (refl, refl)
destroy_calls_none (d ∷ ds) = destroy_calls_none ds

-- The calls that a pruning adds, none of which takes or marks.
prune_adds : Host → SnapshotSchedule → List Call → List Call
prune_adds host s h = elim (host.listing h s.dataset) [
  | err _ ↦ list_snapshots s.dataset ∷ []
  | ok all ↦ list_snapshots s.dataset ∷ destroy_calls (pruned s all)
]

prune_snapshots_lem :
    (host : Host) (s : SnapshotSchedule) (h : List Call)
    → prune_snapshots host s h ≡ h ++ prune_adds host s h
unfolding prune_snapshots prune_adds
prune_snapshots_lem host s h = elim (Result-cases (host.listing h s.dataset)) [
  | inl (e, failed) ↦ rw (prune_snapshots, prune_adds, failed) refl
  | inr (all, listing) ↦
      rw (prune_snapshots, prune_adds, listing)
        (append_assoc h (list_snapshots s.dataset ∷ []) (destroy_calls (pruned s all)))
]

prune_adds_none :
    (host : Host) (s : SnapshotSchedule) (h : List Call)
    → (created (prune_adds host s h) ≡ []) × (marked (prune_adds host s h) ≡ [])
unfolding prune_adds
prune_adds_none host s h = elim (Result-cases (host.listing h s.dataset)) [
  | inl (e, failed) ↦ rw (prune_adds, failed) (refl, refl)
  | inr (all, listing) ↦ rw (prune_adds, listing) (destroy_calls_none (pruned s all))
]

prune_snapshots_none :
    (host : Host) (s : SnapshotSchedule) (h : List Call)
    → (created (prune_snapshots host s h) ≡ created h)
      × (marked (prune_snapshots host s h) ≡ marked h)
prune_snapshots_none host s h =
    let same = prune_snapshots_lem host s h in
    let (no_create, no_mark) = prune_adds_none host s h in
    (
      ap created same
          ∙ created-append h (prune_adds host s h)
          ∙ ap (λ k. created h ++ k) no_create
          ∙ append-nil _,
      ap marked same
          ∙ marked-append h (prune_adds host s h)
          ∙ ap (λ k. marked h ++ k) no_mark
          ∙ append-nil _,
    )

fire_and_mark_adds :
    (s : SnapshotSchedule) (now : Time) (h : List Call)
    → (created (fire_and_mark s now h)
        ≡ created h ++ (s.dataset, format_snap_time s.snapshot_prefix now, s.recursive) ∷ [])
      × (marked (fire_and_mark s now h) ≡ marked h ++ (s.id, now) ∷ [])
unfolding fire_and_mark
fire_and_mark_adds s now h =
    let c = create_snapshot s.dataset (format_snap_time s.snapshot_prefix now) s.recursive ∷ [] in
    let m = mark_snapshot_fired s.id now ∷ [] in
    (
      created-append (h ++ c) m ∙ append-nil _ ∙ created-append h c,
      marked-append (h ++ c) m ∙ ap (λ k. k ++ (s.id, now) ∷ []) (marked-append h c ∙ append-nil _),
    )

run_snapshot_schedule_adds :
    (host : Host) (now : Time) (s : SnapshotSchedule) (h : List Call)
    → (created (run_snapshot_schedule host now s h)
        ≡ created h
          ++ (if due now s
              then (s.dataset, format_snap_time s.snapshot_prefix now, s.recursive) ∷ []
              else []))
      × (marked (run_snapshot_schedule host now s h)
          ≡ marked h ++ (if due now s then (s.id, now) ∷ [] else []))
unfolding run_snapshot_schedule
run_snapshot_schedule_adds host now s h = elim (Result-cases (parse_cron s.cron)) [
  | inl (e, bad) ↦ rw (run_snapshot_schedule, due, bad) (sym (append-nil _), sym (append-nil _))
  | inr (expr, good) ↦
      elim (Bool-cases (should_fire_between fixed_clock expr s.last_fired_at now)) [
        | inl fires ↦
            let (one, mark) = fire_and_mark_adds s now h in
            let (no_create, no_mark) = prune_snapshots_none host s (fire_and_mark s now h) in
            rw (run_snapshot_schedule, due, good, fires) (no_create ∙ one, no_mark ∙ mark)
        | inr waits ↦
            let (no_create, no_mark) = prune_snapshots_none host s h in
            rw (run_snapshot_schedule, due, good, waits)
              (no_create ∙ sym (append-nil _), no_mark ∙ sym (append-nil _))
      ]
]

-- One pass over the enabled schedules takes exactly one snapshot for each schedule with a good cron expression that
-- is due (once since it was last fired), in their order: of the schedule's dataset, with the short name that its
-- prefix and now give, and recursive as it says. It marks exactly those schedules, each once and with now,
-- whether or not a snapshot, a listing or a destruction failed.
pub run_snapshot_schedules_fire_due :
    (host : Host) (now : Time) (ss : List SnapshotSchedule) (h : List Call)
    → (created (run_snapshot_schedules host now ss h) ≡ created h ++ due_snapshots now ss)
      × (marked (run_snapshot_schedules host now ss h) ≡ marked h ++ due_marks now ss)
unfolding run_snapshot_schedules
run_snapshot_schedules_fire_due host now [] h = (sym (append-nil _), sym (append-nil _))
run_snapshot_schedules_fire_due host now (s ∷ ss) h =
    let (one, mark) = run_snapshot_schedule_adds host now s h in
    let (rest, marks) =
      run_snapshot_schedules_fire_due host now ss (run_snapshot_schedule host now s h) in
    (
      rest ∙ ap (λ k. k ++ due_snapshots now ss) one ∙ append_assoc (created h) _ _,
      marks ∙ ap (λ k. k ++ due_marks now ss) mark ∙ append_assoc (marked h) _ _,
    )
