-- ===== src/Replication/Store.antt =====
-- internal/replication: jobs and runs (replication.go), `MemStore` and `MemLocker` (manager.go). Ids are
-- numbers. Of a job the model leaves out what the manager only stores: source, destination, schedule,
-- retention, secret reference. Each method holds the mutex of its object throughout, so it is one step.
use Prim.Native.String.{String}
use mathlib.Core.List.{reverse}
use nova_nas.Base.{
  ℕ, Bool, true, false, ◌&&◌, ◌||◌, Option, none, some, List, [], ◌∷◌, ◌++◌, ltb, ◌==◌,
  if◌then◌else◌, ℤ, pos, pos_part, ltb_ℤ, length, take, Result, ok, err, ◌=?◌, nat_eq, string_eq,
  lookup, insert, delete,
}
use nova_nas.Calendar.{Time}

pub data RunOutcome : Type 0 where
  pending running succeeded failed cancelled : RunOutcome

pub record Job : Type 0 where
  pub id : ℕ
  pub name : String
  pub backend : String
  pub direction : String
  pub enabled : Bool
  pub last_snapshot : String
  pub created_at : Option Time  -- `none` is the zero time
  pub updated_at : Option Time

pub record Run : Type 0 where
  pub id : ℕ
  pub job_id : ℕ
  pub started_at : Time
  pub finished_at : Option Time
  pub outcome : RunOutcome
  pub bytes_transferred : ℤ
  pub snapshot : String
  pub error : String

pub data Error : Type 0 where
  name_required bad_backend bad_direction not_registered not_found locked already_exists : Error
  rejected : String → Error  -- by the backend's own validation
  run_failed : String → Error  -- by the backend's `Execute`
  update_failed : Error → Error

-- `(*Job).Validate`
unfoldable pub validate : Job → Option Error
validate j =
    if j.name =? ""
    then some name_required
    else if j.backend =? "zfs" || j.backend =? "s3" || j.backend =? "rsync"
    then (if j.direction =? "push" || j.direction =? "pull" then none else some bad_direction)
    else some bad_backend

pub record MemStore : Type 0 where
  pub jobs : List (ℕ × Job)
  pub runs : List (ℕ × List Run)

-- `s.runs[id]`, which is nil for a missing key.
unfoldable pub runs_of : MemStore → ℕ → List Run
runs_of s id = elim (lookup s.runs id) [ none ↦ [] | some rs ↦ rs ]

unfoldable pub create_job : MemStore → Job → MemStore × Result Error Job
create_job s j = elim (lookup s.jobs j.id) [
  | some _ ↦ (s, err already_exists)
  | none ↦ (record s { jobs = insert s.jobs j.id j }, ok j)
]

unfoldable pub update_job : MemStore → Job → MemStore × Result Error Job
update_job s j = elim (lookup s.jobs j.id) [
  | none ↦ (s, err not_found)
  | some _ ↦ (record s { jobs = insert s.jobs j.id j }, ok j)
]

unfoldable pub delete_job : MemStore → ℕ → MemStore × Option Error
delete_job s id = elim (lookup s.jobs id) [
  | none ↦ (s, some not_found)
  | some _ ↦ (record s { jobs = delete s.jobs id; runs = delete s.runs id }, none)
]

unfoldable pub get_job : MemStore → ℕ → Result Error Job
get_job s id = elim (lookup s.jobs id) [ none ↦ err not_found | some j ↦ ok j ]

unfoldable pub create_run : MemStore → Run → MemStore
create_run s r = record s { runs = insert s.runs r.job_id (runs_of s r.job_id ++ r ∷ []) }

-- The loop of `UpdateRun`: the first run with the id is replaced.
unfoldable pub replace_run : List Run → Run → Option (List Run)
replace_run [] r = none
replace_run (x ∷ xs) r = elim (replace_run xs r) [
  | none ↦ if x.id == r.id then some (r ∷ xs) else none
  | some ys ↦ if x.id == r.id then some (r ∷ xs) else some (x ∷ ys)
]

unfoldable pub update_run : MemStore → Run → MemStore × Result Error Run
update_run s r = elim (replace_run (runs_of s r.job_id) r) [
  | none ↦ (s, err not_found)
  | some rs ↦ (record s { runs = insert s.runs r.job_id rs }, ok r)
]

-- Newest first, and no more than a positive limit.
unfoldable pub list_runs : MemStore → ℕ → ℤ → List Run
list_runs s id limit =
    let out = reverse (runs_of s id) in
    if ltb_ℤ (pos 0) limit && ltb (pos_part limit) (length out)
    then take (pos_part limit) out
    else out

-- `MemLocker.TryLock`: whether the lock was got, and the set of locks held.
unfoldable pub try_lock : List (ℕ × Unit {0}) → ℕ → List (ℕ × Unit {0}) × Bool
try_lock held id = elim (lookup held id) [
  | some _ ↦ (held, false)
  | none ↦ (insert held id tt, true)
]

-- The release function at its first call; the manager calls it once.
unfoldable pub release : List (ℕ × Unit {0}) → ℕ → List (ℕ × Unit {0})
release held id = delete held id
