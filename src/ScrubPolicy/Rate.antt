-- ===== src/ScrubPolicy/Rate.antt =====
-- How often a policy fires, and the default policy.
use nova_nas.Base.{
  ◌≡◌, refl, ap, ◌∙◌, ◌⊎◌, inl, inr, ℕ, ◌+◌, ltb, true, false, not, ◌||◌, Option, none, some, List,
  [], ◌∷◌, Text, text_eq, lookup, lookup-insert, =?_refl, arith, Bool-cases, Option-cases,
  Result-cases,
}
use nova_nas.Calendar.{fixed_clock, Time}
use nova_nas.Scheduler.Cron.Parse.{parse_cron}
use nova_nas.Jobs.Dispatcher.{State, Backend, dispatch}
use nova_nas.Jobs.Dispatcher.Outcomes.{dispatch_err-rows}
use nova_nas.Scheduler.Cron.{should_fire_between}
use nova_nas.ScrubPolicy.{
  Policy, World, Host, Tally, fire_pools, fire_on, mark_fired, fire_policy, nanos_of, too_soon,
  fire_pool, tallied, scrub_input, expand_pools, default_policy_name, ensure_default_policy,
  default_policy,
}

module _ (backend : Backend) (host : Host) where
  -- A policy that was fired less than the gap ago does nothing, whatever its cron expression says.
  pub fire_policy-too_soon :
      (w : World) (p : Policy) (now : Time)
      → too_soon p.last_fired_at now host.min_fire_gap ≡ true
      → fire_policy backend host w p now ≡ w
  unfolding fire_policy
  fire_policy-too_soon w p now soon = elim (Result-cases (parse_cron p.cron)) [
    | inl (e, bad) ↦ ground (arith, bad)
    | inr (expr, good) ↦ ground (arith, good, soon)
  ]

  mark_fired_lem :
      (w : World) (p : Policy) (now : Time) (msg : Option Text)
      → lookup w.policies p.name ≡ some p
      → host.mark p.name ≡ none
      → lookup (mark_fired backend host w p.name now msg).policies p.name
        ≡ some (record p { last_fired_at = some now; last_error = msg })
  unfolding mark_fired
  mark_fired_lem w p now msg there marks =
      let p' : Policy = record p { last_fired_at = some now; last_error = msg } in
      ground (arith, there, marks, lookup-insert w.policies p.name p.name p', =?_refl p.name)

  -- Making sure of the default policy a second time changes nothing, and finds what the first call made,
  -- unless a call to the store fails.
  pub ensure_default_policy_twice :
      (w : World)
      → host.get_by_name ≡ none
      → host.create_fails ≡ none
      → ensure_default_policy backend host (ensure_default_policy backend host w).0
        ≡ ensure_default_policy backend host w
  unfolding ensure_default_policy
  ensure_default_policy_twice w gets creates =
      elim (Option-cases (lookup w.policies default_policy_name)) [
        | inr (p, there) ↦ ground (arith, gets, there)
        | inl missing ↦ ground (
          arith,
          gets,
          creates,
          missing,
          lookup-insert w.policies default_policy_name default_policy_name
              (default_policy backend host),
          =?_refl default_policy_name,
        )
      ]

  fire_pool-rows :
      (p : Policy) (pool : Text) (st : State) (tally : Tally)
      → (fire_pool backend host p pool st tally).1.0 ≡ false
      → ((fire_pool backend host p pool st tally).0.rows ≡ st.rows) × (tally.0 ≡ false)
  unfolding fire_pool tallied
  fire_pool-rows p pool st (fired, first) h = elim (Result-cases (host.is_scrub_in_progress pool)) [
    | inl (msg, bad) ↦ ground (arith, h, bad)
    | inr (true, busy) ↦ ground (arith, h, busy)
    | inr (false, free) ↦
        let sent = dispatch backend st (host.new_id p.name pool) (scrub_input host p pool) in
        elim (Result-cases sent.1) [
          | inr (id, done) ↦ absurd (ground (arith, h, free, done))
          | inl (e, failed) ↦
              let kept =
                dispatch_err-rows backend st sent.0 (host.new_id p.name pool)
                  (scrub_input host p pool) e (ap (λ x. (sent.0, x)) failed) in
              ground (arith, h, free, failed, kept)
        ]
  ]

  fire_pools-rows :
      (p : Policy) (pools : List Text) (st : State) (tally : Tally)
      → (fire_pools backend host p pools st tally).1.0 ≡ false
      → ((fire_pools backend host p pools st tally).0.rows ≡ st.rows) × (tally.0 ≡ false)
  unfolding fire_pools
  fire_pools-rows p [] st tally h = (refl, h)
  fire_pools-rows p (pool ∷ pools) st tally h =
      let step = fire_pool backend host p pool st tally in
      let (later, quiet) = fire_pools-rows p pools step.0 step.1 h in
      let (now, quiet') = fire_pool-rows p pool st tally quiet in (later ∙ now, quiet')

  -- The policy is marked, or no row of a job was added.
  abbrev pub Marked : World → World → Policy → Time → Type 0
  Marked w w' p now =
      (w'.jobs.rows ≡ w.jobs.rows)
      ⊎ ((msg : Option Text) × (lookup w'.policies p.name
            ≡ some (record p { last_fired_at = some now; last_error = msg })))

  fire_on-Marked :
      (w : World) (p : Policy) (now : Time) (pools : List Text)
      → lookup w.policies p.name ≡ some p
      → host.mark p.name ≡ none
      → Marked w (fire_on backend host w p now pools) p now
  unfolding fire_on
  fire_on-Marked w p now [] there marks = inr (none, mark_fired_lem w p now none there marks)
  fire_on-Marked w p now (pool ∷ pools) there marks =
      let run = fire_pools backend host p (pool ∷ pools) w.jobs (false, none) in
      let w' : World = record w { jobs = run.0 } in
      elim (Bool-cases run.1.0) [
        | inl fired ↦
            inr (run.1.1, ground (arith, fired, mark_fired_lem w' p now run.1.1 there marks))
        | inr quiet ↦ elim (Option-cases run.1.1) [
          | inl clean ↦
              inr (none, ground (arith, quiet, clean, mark_fired_lem w' p now none there marks))
          | inr (msg, failed) ↦ inl (
              ground
                (arith, quiet, failed, fire_pools-rows p (pool ∷ pools) w.jobs (false, none) quiet))
        ]
      ]

  fire_policy-Marked :
      (w : World) (p : Policy) (now : Time)
      → lookup w.policies p.name ≡ some p
      → host.mark p.name ≡ none
      → Marked w (fire_policy backend host w p now) p now
  unfolding fire_policy
  fire_policy-Marked w p now there marks = elim (Result-cases (parse_cron p.cron)) [
    | inl (e, bad) ↦ inl (ground (arith, bad))
    | inr (expr, good) ↦
        elim (Bool-cases (
          not (should_fire_between fixed_clock expr p.last_fired_at now)
          || too_soon p.last_fired_at now host.min_fire_gap)) [
            | inl rests ↦ inl (ground (arith, good, rests))
            | inr due ↦ elim (Result-cases (expand_pools host p.pools)) [
              | inl (msg, bad) ↦ inl (ground (arith, good, due, bad))
              | inr (pools, known) ↦
                  let same : (fire_policy backend host w p now
                      ≡ fire_on backend host w p now pools) =
                    ground (arith, good, due, known) in
                  elim (fire_on-Marked w p now pools there marks) [
                    | inl e ↦ inl (rw same e)
                    | inr (msg, e) ↦ inr (msg, rw same e)
                  ]
            ]
          ]
  ]

  too_soon_lem :
      (now later : Time) (gap : ℕ)
      → ltb (nanos_of later) (nanos_of now + gap) ≡ true
      → too_soon (some now) later gap ≡ true
  unfolding too_soon
  too_soon_lem now later gap h = h

  -- A firing that adds the row of a job marks its policy, if the store can be written, and until the gap is over
  -- the policy as it is then kept does nothing more.
  pub fire_policy_once :
      (w : World) (p : Policy) (now later : Time)
      → lookup w.policies p.name ≡ some p
      → host.mark p.name ≡ none
      → ltb (nanos_of later) (nanos_of now + host.min_fire_gap) ≡ true
      → ((fire_policy backend host w p now).jobs.rows ≡ w.jobs.rows)
        ⊎ ((p' : Policy) × (lookup (fire_policy backend host w p now).policies p.name ≡ some p')
            × (fire_policy backend host (fire_policy backend host w p now) p' later
                ≡ fire_policy backend host w p now))
  fire_policy_once w p now later there marks soon = elim (fire_policy-Marked w p now there marks) [
    | inl kept ↦ inl kept
    | inr (msg, marked) ↦
        let p' : Policy = record p { last_fired_at = some now; last_error = msg } in
        inr (
          p',
          marked,
          fire_policy-too_soon (fire_policy backend host w p now) p' later
              (too_soon_lem now later host.min_fire_gap soon),
        )
  ]
