-- ===== src/Replication/Manager/Locks.antt =====
-- Any interleaving of the calls of the replication manager: at most one run per job is in flight.
use Prim.Native.String.{String}
use nova_nas.Base.{
  ℕ, ◌+◌, ◌≤◌, ◌≡◌, refl, sym, ap, Option, none, some, List, [], ◌∷◌, ◌++◌, ◌==◌, ==_iff,
  if◌then◌else◌, ok, err, lookup, lookup-insert, lookup-delete, nat_eq, arith,
}
use nova_nas.Calendar.{Time}
use nova_nas.Replication.Store.{Job, Error, try_lock, release}
use nova_nas.Replication.Manager.{
  Backends, World, RunResult, Flight, create, update, remove, run_begin, run_end,
}

-- The manager and the runs that are between their two halves.
pub record System : Type 0 where
  pub world : World
  pub flights : List Flight

-- One call, or one half of `Run`.
pub data Step (backends : Backends) (s t : System) : Type 0 where
  creates :
      (j : Job) (new_id : ℕ) (now : Time)
      → t ≡ record s { world = (create backends s.world j new_id now).0 }
      → Step backends s t
  updates :
      (j : Job) (now : Time)
      → t ≡ record s { world = (update backends s.world j now).0 }
      → Step backends s t
  removes : (id : ℕ) → t ≡ record s { world = (remove s.world id).0 } → Step backends s t
  begins :
      (job_id run_id : ℕ) (start : Time) (w : World) (f : Flight)
      → run_begin backends s.world job_id run_id start ≡ (w, ok f)
      → t ≡ record { world = w; flights = f ∷ s.flights }
      → Step backends s t
  fails :
      (job_id run_id : ℕ) (start : Time) (w : World) (e : Error)
      → run_begin backends s.world job_id run_id start ≡ (w, err e)
      → t ≡ record s { world = w }
      → Step backends s t
  ends :
      (xs ys : List Flight) (f : Flight) (res : RunResult) (exec_err : Option String) (end : Time)
      → s.flights ≡ xs ++ f ∷ ys
      → t ≡ record { world = (run_end s.world f res exec_err end).0; flights = xs ++ ys }
      → Step backends s t

pub data Reach (backends : Backends) (s : System) : System → Type 0 where
  here : Reach backends s s
  next : {t u : System} → Reach backends s t → Step backends t u → Reach backends s u

-- How many runs of a job are in flight.
abbrev pub in_flight : ℕ → List Flight → ℕ
in_flight id [] = 0
in_flight id (f ∷ fs) = (if f.job.id == id then 1 else 0) + in_flight id fs

abbrev pub lock_count : Option (Unit {0}) → ℕ
lock_count none = 0
lock_count (some _) = 1

-- The lock of a job is held exactly while one run of it is in flight.
abbrev pub LocksMatch : System → Type 0
LocksMatch s = (id : ℕ) → in_flight id s.flights ≡ lock_count (lookup s.world.held id)

in_flight-split :
    (id : ℕ) (xs ys : List Flight) (f : Flight)
    → in_flight id (xs ++ f ∷ ys) ≡ (if f.job.id == id then 1 else 0) + in_flight id (xs ++ ys)
in_flight-split id [] ys f = refl
in_flight-split id (x ∷ xs) ys f = ground (arith, in_flight-split id xs ys f)

create_held :
    (backends : Backends) (w : World) (j : Job) (new_id : ℕ) (now : Time)
    → (create backends w j new_id now).0.held ≡ w.held
unfolding create
create_held backends w j new_id now = ground arith

update_held :
    (backends : Backends) (w : World) (j : Job) (now : Time)
    → (update backends w j now).0.held ≡ w.held
unfolding update
update_held backends w j now = ground arith

remove_held : (w : World) (id : ℕ) → (remove w id).0.held ≡ w.held
unfolding remove
remove_held w id = ground arith

-- A run that begins found the lock of its job free and holds it now.
run_begin_held :
    (backends : Backends) (w w' : World) (job_id run_id : ℕ) (start : Time) (f : Flight)
    → run_begin backends w job_id run_id start ≡ (w', ok f)
    → (id : ℕ)
    → (lookup w.held f.job.id ≡ none)
      × (lookup w'.held id ≡ (if f.job.id == id then some tt else lookup w.held id))
unfolding run_begin try_lock
run_begin_held backends w w' job_id run_id start f h id =
    ground (arith, lookup-insert w.held f.job.id id tt)

run_begin_refused :
    (backends : Backends) (w w' : World) (job_id run_id : ℕ) (start : Time) (e : Error)
    → run_begin backends w job_id run_id start ≡ (w', err e)
    → w' ≡ w
unfolding run_begin
run_begin_refused backends w w' job_id run_id start e h = ground arith

pub run_end_held :
    (w : World) (f : Flight) (res : RunResult) (exec_err : Option String) (end : Time) (id : ℕ)
    → lookup (run_end w f res exec_err end).0.held id
      ≡ (if f.job.id == id then none else lookup w.held id)
unfolding run_end release
run_end_held w f res exec_err end id = lookup-delete w.held f.job.id id

Step-LocksMatch :
    (backends : Backends) (s t : System) → Step backends s t → LocksMatch s → LocksMatch t
Step-LocksMatch backends s t (Step.creates j new_id now e) h id =
    ground (arith, e, h id, create_held backends s.world j new_id now)
Step-LocksMatch backends s t (Step.updates j now e) h id =
    ground (arith, e, h id, update_held backends s.world j now)
Step-LocksMatch backends s t (Step.removes j e) h id =
    ground (arith, e, h id, remove_held s.world j)
Step-LocksMatch backends s t (Step.begins job_id run_id start w f b e) h id =
    let held = run_begin_held backends s.world w job_id run_id start f b id in
    ground (arith, e, h id, h f.job.id, held, ==_iff f.job.id id)
Step-LocksMatch backends s t (Step.fails job_id run_id start w x b e) h id =
    ground (arith, e, h id, run_begin_refused backends s.world w job_id run_id start x b)
Step-LocksMatch backends s t (Step.ends xs ys f res exec_err end split e) h id = ground (
  arith,
  e,
  h id,
  split,
  in_flight-split id xs ys f,
  ==_iff f.job.id id,
  run_end_held s.world f res exec_err end id,
)

Reach-LocksMatch :
    (backends : Backends) (s t : System) → LocksMatch s → Reach backends s t → LocksMatch t
Reach-LocksMatch backends s t h Reach.here = h
Reach-LocksMatch backends s t h (Reach.next {t = u} r step) =
    Step-LocksMatch backends u t step (Reach-LocksMatch backends s u h r)

-- Whatever calls of the manager follow each other, in whatever order runs begin and end: from a state
-- with no run in flight and no lock held, at most one run of a job is in flight, and as many as locks of
-- the job are held (one or none).
pub one_run_per_job :
    (backends : Backends) (w : World) (t : System)
    → w.held ≡ []
    → Reach backends (record { world = w; flights = [] }) t
    → (id : ℕ)
    → (in_flight id t.flights ≤ 1) × (in_flight id t.flights ≡ lock_count (lookup t.world.held id))
unfolding lookup
one_run_per_job backends w t empty r id =
    let same =
      Reach-LocksMatch backends (record { world = w; flights = [] }) t
        (λ i. sym (ap (λ h. lock_count (lookup h i)) empty)) r id in
    (ground (arith, same), same)
