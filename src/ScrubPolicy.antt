-- ===== src/ScrubPolicy.antt =====
-- internal/scrubpolicy/scrubpolicy.go: the policies that scrub pools by a cron expression. A policy is kept under its
-- name, which is unique in the store, and the scrubs are dispatched through internal/jobs. Times are in one
-- location without changes of the clock.
pub mod Rate
pub mod Queue
use nova_nas.Base.{
  ℕ, ◌+◌, ◌*◌, Bool, true, false, not, ◌&&◌, ◌||◌, Option, none, some, List, [], ◌∷◌, ◌++◌, Text,
  codes, text_eq, ◌=?◌, insert, lookup, Result, ok, err, ltb, length, ◌==◌, trim_space, split,
  if◌then◌else◌,
}
use nova_nas.Calendar.{fixed_clock, Time, day_number}
use nova_nas.Scheduler.Cron.{should_fire_between}
use nova_nas.Scheduler.Cron.Parse.{parse_cron}
use nova_nas.Jobs.Dispatcher.{DispatchInput, DispatchError, duplicate, State, Backend, dispatch}

pub record Policy : Type 0 where
  pub name : Text
  pub pools : Text
  pub cron : Text
  pub priority : Text
  pub enabled : Bool
  pub builtin : Bool
  pub last_fired_at : Option Time
  pub last_error : Option Text

abbrev pub default_policy_name : Text
default_policy_name = codes "monthly-all-pools"

abbrev pub default_cron : Text
default_cron = codes "0 2 * * 0"

abbrev pub default_priority : Text
default_priority = codes "medium"

-- The default of `MinFireGap`, in nanoseconds.
abbrev pub seven_days : ℕ
seven_days = 7 * 24 * 3_600_000_000_000

-- The policies of the store, and the jobs.
pub record World : Type 0 where
  pub policies : List (Text × Policy)
  pub jobs : State

-- What the manager asks: the names of the pools, whether a pool is being scrubbed, a new id for a job, the job's
-- payload, and which calls to the store fail.
pub record Host : Type 0 where
  pub pool_names : Result Text (List Text)
  pub is_scrub_in_progress : Text → Result Text Bool
  pub new_id : Text → Text → Text
  pub payload : Text → Text
  pub list_enabled : Option Text
  pub get_by_name : Option Text
  pub create_fails : Option Text
  pub mark : Text → Option Text
  pub error_text : DispatchError → Text
  pub min_fire_gap : ℕ

-- Nanoseconds since the first day.
unfoldable pub nanos_of : Time → ℕ
nanos_of t =
    ((day_number t.year t.month t.day * 24 + t.hour) * 60 + t.minute) * 60_000_000_000 + t.nanos

-- `now.Sub(prev) < gap`
unfoldable pub too_soon : Option Time → Time → ℕ → Bool
too_soon none now gap = false
too_soon (some prev) now gap = ltb (nanos_of now) (nanos_of prev + gap)

unfoldable pub trimmed : List Text → List Text
trimmed [] = []
trimmed (p ∷ ps) =
    let rest = trimmed ps in if length (trim_space p) == 0 then rest else trim_space p ∷ rest

unfoldable pub expand_pools : Host → Text → Result Text (List Text)
expand_pools host spec =
    let spec' = trim_space spec in
    if spec' =? codes "*" || length spec' == 0
    then host.pool_names
    else ok (trimmed (split b',' spec'))

abbrev pub scrub_key : Text → Text
scrub_key pool = codes "pool:" ++ pool ++ codes ":scrub"

abbrev pub scrub_input : Host → Policy → Text → DispatchInput
scrub_input host p pool = record {
  kind = codes "pool.scrub";
  target = pool;
  payload = host.payload pool;
  command = codes "zpool scrub " ++ pool;
  request_id = codes "scrubpolicy:" ++ p.name;
  unique_key = scrub_key pool;
}

-- Whether any scrub was dispatched, and the first error.
abbrev pub Tally : Type 0
Tally = Bool × Option Text

unfoldable pub tallied : Host → Tally → Result DispatchError Text → Tally
tallied host (fired, first) (ok _) = (true, first)
tallied host (fired, first) (err duplicate) = (fired, first)
tallied host (fired, none) (err e) = (fired, some (host.error_text e))
tallied host (fired, some msg) (err e) = (fired, some msg)

module _ (backend : Backend) (host : Host) where
  -- The body of the loop of `firePolicy`.
  unfoldable pub fire_pool : Policy → Text → State → Tally → State × Tally
  fire_pool p pool st tally = elim (host.is_scrub_in_progress pool) as (λ _. State × Tally) [
    | err _ ↦ (st, tally)
    | ok true ↦ (st, tally)
    | ok false ↦
        let (st', r) = dispatch backend st (host.new_id p.name pool) (scrub_input host p pool) in
        (st', tallied host tally r)
  ]

  unfoldable pub fire_pools : Policy → List Text → State → Tally → State × Tally
  fire_pools p [] st tally = (st, tally)
  fire_pools p (pool ∷ pools) st tally =
      let (st', tally') = fire_pool p pool st tally in fire_pools p pools st' tally'

  -- `markFired`, whose error is dropped.
  unfoldable pub mark_fired : World → Text → Time → Option Text → World
  mark_fired w name now msg =
      let found = elim (lookup w.policies name) as (λ _. World) [
        | none ↦ w
        | some p ↦ record w {
          policies =
              insert w.policies name (record p { last_fired_at = some now; last_error = msg });
        }
      ] in
      elim (host.mark name) as (λ _. World) [ some _ ↦ w | none ↦ found ]

  -- The part of `firePolicy` after the pools are known.
  unfoldable pub fire_on : World → Policy → Time → List Text → World
  fire_on w p now [] = mark_fired w p.name now none
  fire_on w p now (pool ∷ pools) =
      let (jobs', (fired, first)) = fire_pools p (pool ∷ pools) w.jobs (false, none) in
      let w' : World = record w { jobs = jobs' } in
      let clean = elim first as (λ _. Bool) [ none ↦ true | some _ ↦ false ] in
      if fired || clean then mark_fired w' p.name now first else w'

  -- `firePolicy`; its error is only logged.
  unfoldable pub fire_policy : World → Policy → Time → World
  fire_policy w p now = elim (parse_cron p.cron) as (λ _. World) [
    | err _ ↦ w
    | ok expr ↦
        let fire = elim (expand_pools host p.pools) as (λ _. World) [
          | err _ ↦ w
          | ok pools ↦ fire_on w p now pools
        ] in
        if not (should_fire_between fixed_clock expr p.last_fired_at now)
          || too_soon p.last_fired_at now host.min_fire_gap
        then w
        else fire
  ]

  unfoldable pub fire_all : List (Text × Policy) → Time → World → World
  fire_all [] now w = w
  fire_all ((_, p) ∷ ps) now w =
      let w' = if p.enabled then fire_policy w p now else w in fire_all ps now w'

  -- `Tick`: the enabled policies as they are listed at its start.
  unfoldable pub tick : World → Time → World
  tick w now = elim host.list_enabled as (λ _. World) [
    | some _ ↦ w
    | none ↦ fire_all w.policies now w
  ]

  abbrev pub default_policy : Policy
  default_policy = record {
    name = default_policy_name;
    pools = codes "*";
    cron = default_cron;
    priority = default_priority;
    enabled = true;
    builtin = true;
    last_fired_at = none;
    last_error = none;
  }

  unfoldable pub ensure_default_policy : World → World × Result Text Policy
  ensure_default_policy w =
      let missing = elim host.create_fails as (λ _. World × Result Text Policy) [
        | some msg ↦ (w, err msg)
        | none ↦ (
          record w { policies = insert w.policies default_policy_name default_policy },
          ok default_policy,
        )
      ] in
      let found =
        elim (lookup w.policies default_policy_name) as (λ _. World × Result Text Policy) [
          | some p ↦ (w, ok p)
          | none ↦ missing
        ] in
      elim host.get_by_name as (λ _. World × Result Text Policy) [
        | some msg ↦ (w, err msg)
        | none ↦ found
      ]

-- `ValidatePriority`
unfoldable pub validate_priority : Text → Bool
validate_priority v = length v == 0 || v =? codes "low" || v =? codes "medium" || v =? codes "high"
