-- ===== src/ScrubPolicy/Queue.antt =====
-- What the policies put in the queue of jobs.
use nova_nas.Base.{
  ◌≡◌, inl, inr, ◌≤◌, true, false, Option, none, List, [], ◌∷◌, Text, text_eq, if◌then◌else◌, arith,
  Result-cases,
}
use nova_nas.Calendar.{Time}
use nova_nas.Scheduler.Cron.Parse.{parse_cron}
use nova_nas.Jobs.Dispatcher.{State, Backend}
use nova_nas.Jobs.Dispatcher.Outcomes.{count_id, dispatch-count_id}
use nova_nas.ScrubPolicy.{
  Policy, World, Host, Tally, fire_pool, fire_pools, fire_on, mark_fired, fire_policy, fire_all,
  tick, scrub_input, expand_pools,
}

module _ (backend : Backend) (host : Host) (key : Text) where
  fire_pool-count :
      (p : Policy) (pool : Text) (st : State) (tally : Tally)
      → count_id st.queue key ≤ 1
      → count_id (fire_pool backend host p pool st tally).0.queue key ≤ 1
  unfolding fire_pool
  fire_pool-count p pool st tally h = elim (Result-cases (host.is_scrub_in_progress pool)) [
    | inl (msg, bad) ↦ ground (arith, h, bad)
    | inr (true, busy) ↦ ground (arith, h, busy)
    | inr (false, free) ↦ ground (
      arith,
      free,
      dispatch-count_id backend st (host.new_id p.name pool) key (scrub_input host p pool) h,
    )
  ]

  fire_pools-count :
      (p : Policy) (pools : List Text) (st : State) (tally : Tally)
      → count_id st.queue key ≤ 1
      → count_id (fire_pools backend host p pools st tally).0.queue key ≤ 1
  unfolding fire_pools
  fire_pools-count p [] st tally h = h
  fire_pools-count p (pool ∷ pools) st tally h =
      let (st', tally') = fire_pool backend host p pool st tally in
      fire_pools-count p pools st' tally' (fire_pool-count p pool st tally h)

  mark_fired-jobs :
      (w : World) (name : Text) (now : Time) (msg : Option Text)
      → (mark_fired backend host w name now msg).jobs ≡ w.jobs
  unfolding mark_fired
  mark_fired-jobs w name now msg = ground arith

  fire_on-count :
      (w : World) (p : Policy) (now : Time) (pools : List Text)
      → count_id w.jobs.queue key ≤ 1
      → count_id (fire_on backend host w p now pools).jobs.queue key ≤ 1
  unfolding fire_on
  fire_on-count w p now [] h = rw (mark_fired-jobs w p.name now none) h
  fire_on-count w p now (pool ∷ pools) h =
      let fired = fire_pools backend host p (pool ∷ pools) w.jobs (false, none) in
      let w' : World = record w { jobs = fired.0 } in
      ground (
        arith,
        fire_pools-count p (pool ∷ pools) w.jobs (false, none) h,
        mark_fired-jobs w' p.name now fired.1.1,
      )

  fire_policy-count :
      (w : World) (p : Policy) (now : Time)
      → count_id w.jobs.queue key ≤ 1
      → count_id (fire_policy backend host w p now).jobs.queue key ≤ 1
  unfolding fire_policy
  fire_policy-count w p now h = elim (Result-cases (parse_cron p.cron)) [
    | inl (e, bad) ↦ ground (arith, h, bad)
    | inr (expr, good) ↦ elim (Result-cases (expand_pools host p.pools)) [
      | inl (msg, bad) ↦ ground (arith, h, good, bad)
      | inr (pools, known) ↦ ground (arith, h, good, known, fire_on-count w p now pools h)
    ]
  ]

  fire_all-count :
      (ps : List (Text × Policy)) (now : Time) (w : World)
      → count_id w.jobs.queue key ≤ 1
      → count_id (fire_all backend host ps now w).jobs.queue key ≤ 1
  unfolding fire_all
  fire_all-count [] now w h = h
  fire_all-count ((_, p) ∷ ps) now w h =
      let w' = if p.enabled then fire_policy backend host w p now else w in
      fire_all-count ps now w' (ground (arith, h, fire_policy-count w p now h))

  -- A key that at most one task of the queue has is had by at most one after a tick, whatever policies
  -- are due and whatever fails: no pool gets a second scrub while one is queued.
  pub tick-count_id :
      (w : World) (now : Time)
      → count_id w.jobs.queue key ≤ 1
      → count_id (tick backend host w now).jobs.queue key ≤ 1
  unfolding tick
  tick-count_id w now h = ground (arith, h, fire_all-count w.policies now w h)
