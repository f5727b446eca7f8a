-- ===== src/Scheduler/Manager/Send.antt =====
-- A replication that succeeds: what was sent, from which base, and what is recorded.
use nova_nas.Base.{
  ◌≡◌, refl, sym, ap, ◌∙◌, inl, inr, true, false, Option, none, some, List, [], ◌∷◌, ◌++◌, ◌==◌,
  Text, ok, Result-cases, Option-cases, length, Bool-cases, cut, arith,
}
use nova_nas.Calendar.{Time}
use nova_nas.Scheduler.SnapTime.{format_snap_time}
use nova_nas.Scheduler.Manager.{
  Call, create_snapshot, get_target, send_receive, mark_replication_result, Host, Snapshot,
  ReplicationSchedule, has_name, then_call, snapshot_exists, incremental_base, send_to,
  fire_created, fire_replication, remote_dataset,
}

-- A send is full, or incremental from the snapshot of the last sync, which was found in a listing.
pub data Base (host : Host) (s : ReplicationSchedule) (base : Text) : Type 0 where
  full : base ≡ [] → Base host s base
  incremental :
      (ds : Text) (h : List Call) (all : List Snapshot)
      → s.last_sync_snapshot ≡ some base
      → host.listing h ds ≡ ok all
      → has_name base all ≡ true
      → Base host s base

-- The last two calls of a replication that succeeded.
pub record Sent (host : Host) (s : ReplicationSchedule) (snapshot : Text) (h : List Call)
    : Type 0 where
  pub before : List Call
  pub base : Text
  pub dst : Text
  pub base_ok : Base host s base
  pub calls :
      h
      ≡ then_call
          (then_call before (send_receive snapshot base dst))
          (mark_replication_result s.id (some snapshot) none)
  pub received : host.receiving before snapshot ≡ none
  pub sent : host.sending before snapshot ≡ none

snapshot_exists_found :
    (host : Host) (name : Text) (h : List Call)
    → (snapshot_exists host name h).1 ≡ ok true
    → (ds : Text) × (all : List Snapshot) × (host.listing h ds ≡ ok all)
      × (has_name name all ≡ true)
unfolding snapshot_exists
snapshot_exists_found host name h e = elim (Option-cases (cut b'@' name)) [
  | inl no_at ↦ absurd (ground (arith, no_at, e))
  | inr ((ds, rest), at) ↦ elim (Result-cases (host.listing h ds)) [
    | inl (x, failed) ↦ absurd (ground (arith, at, failed, e))
    | inr (all, listed) ↦ (ds, all, listed, ground (arith, at, listed, e))
  ]
]

incremental_base-Base :
    (host : Host) (s : ReplicationSchedule) (o : Option Text) (h : List Call) (b : Text)
    → s.last_sync_snapshot ≡ o
    → (incremental_base host o h).1 ≡ ok b
    → Base host s b
unfolding incremental_base
incremental_base-Base host s none h b same e = Base.full cc
incremental_base-Base host s (some last) h b same e = elim (Bool-cases (length last == 0)) [
  | inl empty ↦ Base.full (ground (arith, empty, e))
  | inr some_last ↦ elim (Result-cases (snapshot_exists host last h).1) [
    | inl (x, failed) ↦ absurd (ground (arith, some_last, failed, e))
    | inr (false, missing) ↦ Base.full (ground (arith, some_last, missing, e))
    | inr (true, found) ↦
        let (ds, all, listed, named) = snapshot_exists_found host last h found in
        let is_last : (last ≡ b) = ground (arith, some_last, found, e) in
        Base.incremental ds h all (same ∙ ap some is_last) listed
          (ap (λ n. has_name n all) (sym is_last) ∙ named)
  ]
]

send_to-Sent :
    (host : Host) (s : ReplicationSchedule) (snapshot b dst : Text) (h h' : List Call)
    → Base host s b
    → send_to host s snapshot b dst h ≡ (h', none)
    → Sent host s snapshot h'
unfolding send_to
send_to-Sent host s snapshot b dst h h' base e = elim (Option-cases (host.receiving h snapshot)) [
  | inr (x, failed) ↦ absurd (ground (arith, failed, e))
  | inl received ↦ elim (Option-cases (host.sending h snapshot)) [
    | inr (x, failed) ↦ absurd (ground (arith, received, failed, e))
    | inl sent ↦ record {
      before = h;
      base = b;
      dst = dst;
      base_ok = base;
      calls = ground (arith, received, sent, e);
      received = received;
      sent = sent;
    }
  ]
]

fire_created-Sent :
    (host : Host) (s : ReplicationSchedule) (snapshot target : Text) (h h' : List Call)
    → fire_created host s snapshot target h ≡ (h', none)
    → Sent host s snapshot h'
unfolding fire_created
fire_created-Sent host s snapshot target h h' e =
    let before = (incremental_base host s.last_sync_snapshot h).0 in
    elim (Result-cases (incremental_base host s.last_sync_snapshot h).1) [
      | inl (x, failed) ↦ absurd (ground (arith, failed, e))
      | inr (b, chosen) ↦
          send_to-Sent host s snapshot b (remote_dataset target s.src_dataset) before h'
            (incremental_base-Base host s s.last_sync_snapshot h b refl chosen)
            (ground (arith, chosen, e))
    ]

-- A replication that succeeds has sent the new snapshot, after which nothing but its record was called:
-- both ends of the send succeeded, the new snapshot is recorded as the last one synced, and what it was
-- incremental from, if it was, is the snapshot of the last sync, which a listing was found to have.
pub fire_replication-Sent :
    (host : Host) (s : ReplicationSchedule) (now : Time) (h h' : List Call)
    → fire_replication host s now h ≡ (h', none)
    → Sent host s (s.src_dataset ++ b'@' ∷ format_snap_time s.snapshot_prefix now) h'
unfolding fire_replication
fire_replication-Sent host s now h h' e =
    let short = format_snap_time s.snapshot_prefix now in
    let asked = then_call h (get_target s.target_id) in
    let created = then_call asked (create_snapshot s.src_dataset short false) in
    elim (Result-cases (host.target_prefix h s.target_id)) [
      | inl (x, failed) ↦ absurd (ground (arith, failed, e))
      | inr (target, known) ↦ elim (Option-cases (host.creating asked s.src_dataset short)) [
        | inr (x, failed) ↦ absurd (ground (arith, known, failed, e))
        | inl taken ↦
            fire_created-Sent host s (s.src_dataset ++ b'@' ∷ short) target created h'
              (ground (arith, known, taken, e))
      ]
    ]
