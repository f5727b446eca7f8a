-- ===== src/Plugins/Dependencies/Named.antt =====
-- Which plugins the plan of internal/plugins/dependencies.go installs.
use nova_nas.Base.{
  ◌≡◌, refl, inl, inr, Bool, true, not, ◌&&◌, ◌||◌, none, some, List, [], ◌∷◌, ◌++◌, Text, text_eq,
  ◌=?◌, insert, lookup, ok, Result-cases, Option-cases, arith, pos, contains,
}
use nova_nas.Plugins.Dependencies.Versions.{Semver, join, filter_empty, pick_highest_satisfying}
use nova_nas.Plugins.Dependencies.{
  Dependency, Plugin, PlanStep, Resolver, ResolveState, is_install, tier2, record_step,
  walk_bundled, add_constraint, walk_installed, walk_picked, walk_marketplace, walk_tier2, walk_dep,
  walk_deps, walk, steps_of, plan, empty_state, constraints_of, skip, install,
}

module _ (semver : Semver) (good : Text → Bool) where
  -- A step that installs a good name, or installs nothing.
  abbrev pub fine : PlanStep → Bool
  fine s = not (is_install s.action) || good s.name

  abbrev pub all_fine : List PlanStep → Bool
  all_fine [] = true
  all_fine (s ∷ ss) = fine s && all_fine ss

  abbrev pub all_recorded : List (Text × PlanStep) → Bool
  all_recorded [] = true
  all_recorded ((k, s) ∷ m) = fine s && all_recorded m

  -- The dependencies that the engine installs have good names.
  abbrev pub all_good : List Dependency → Bool
  all_good [] = true
  all_good (d ∷ ds) = (not (d.source =? tier2) || good d.name) && all_good ds

  all_recorded-insert :
      (m : List (Text × PlanStep)) (k : Text) (s : PlanStep)
      → all_recorded m ≡ true
      → fine s ≡ true
      → all_recorded (insert m k s) ≡ true
  unfolding insert
  all_recorded-insert [] k s a f = ground (arith, f)
  all_recorded-insert ((j, t) ∷ m) k s a f = ground (arith, a, f, all_recorded-insert m k s)

  all_recorded-lookup :
      (m : List (Text × PlanStep)) (k : Text) (s : PlanStep)
      → all_recorded m ≡ true
      → lookup m k ≡ some s
      → fine s ≡ true
  unfolding lookup
  all_recorded-lookup [] k s a h = absurd cc
  all_recorded-lookup ((j, t) ∷ m) k s a h = ground (arith, a, h, all_recorded-lookup m k s)

  walk_bundled-fine :
      (st : ResolveState) (dep : Dependency)
      → all_recorded st.resolved ≡ true
      → all_recorded (walk_bundled st dep).resolved ≡ true
  unfolding walk_bundled record_step
  walk_bundled-fine st dep a = elim (Option-cases (lookup st.resolved dep.name)) [
    | inr (s, there) ↦ rw (walk_bundled, there) a
    | inl new ↦ rw (walk_bundled, new) (all_recorded-insert st.resolved dep.name _ a refl)
  ]

  walk_picked-fine :
      (st : ResolveState) (dep : Dependency) (version : Text)
      → all_recorded st.resolved ≡ true
      → good dep.name ≡ true
      → all_recorded (walk_picked semver st dep version).resolved ≡ true
  unfolding walk_picked record_step
  walk_picked-fine st dep version a g = elim (Option-cases (lookup st.resolved dep.name)) [
    | inl new ↦ rw (walk_picked, new) (all_recorded-insert st.resolved dep.name _ a g)
    | inr (s, there) ↦
        let narrowed : PlanStep = record s {
          version = version;
          constraint = join (filter_empty (constraints_of st dep.name));
        } in
        let f = all_recorded-lookup st.resolved dep.name s a there in
        ground (arith, there, a, all_recorded-insert st.resolved dep.name narrowed a f)
  ]

  walk_marketplace-fine :
      (r : Resolver) (st st' : ResolveState) (dep : Dependency)
      → all_recorded st.resolved ≡ true
      → good dep.name ≡ true
      → walk_marketplace semver r st dep ≡ ok st'
      → all_recorded st'.resolved ≡ true
  unfolding walk_marketplace
  walk_marketplace-fine r st st' dep a g h = elim (Option-cases r.marketplace) [
    | inl off ↦ absurd (ground (arith, h, off))
    | inr (find, on) ↦ elim (Result-cases (find dep.name)) [
      | inl (msg, bad) ↦ absurd (ground (arith, h, on, bad))
      | inr (versions, found) ↦
          elim (Result-cases
            (pick_highest_satisfying semver versions (constraints_of st dep.name))) [
              | inl (e, bad) ↦ absurd (ground (arith, h, on, found, bad))
              | inr (version, best) ↦
                  ground (arith, h, on, found, best, walk_picked-fine st dep version a g)
            ]
    ]
  ]

  walk_installed-fine :
      (st st' : ResolveState) (dep : Dependency) (cur : Text)
      → all_recorded st.resolved ≡ true
      → walk_installed semver st dep cur ≡ ok st'
      → all_recorded st'.resolved ≡ true
  unfolding walk_installed record_step
  walk_installed-fine st st' dep cur a h =
      let step : PlanStep = record {
        name = dep.name;
        version = cur;
        source = tier2;
        action = skip;
        constraint = dep.version_constraint;
      } in
      ground (arith, h, a, all_recorded-insert st.resolved dep.name step a refl)

  walk_tier2-fine :
      (r : Resolver) (st st' : ResolveState) (dep : Dependency)
      → all_recorded st.resolved ≡ true
      → good dep.name ≡ true
      → walk_tier2 semver r st dep ≡ ok st'
      → all_recorded st'.resolved ≡ true
  unfolding walk_tier2
  walk_tier2-fine r st st' dep a g h = elim (Option-cases r.installed) [
    | inl off ↦ ground (arith, h, off, walk_marketplace-fine r st st' dep a g)
    | inr (find, on) ↦ elim (Result-cases (find dep.name)) [
      | inl (msg, bad) ↦ absurd (ground (arith, h, on, bad))
      | inr (none, new) ↦ ground (arith, h, on, new, walk_marketplace-fine r st st' dep a g)
      | inr (some cur, old) ↦ ground (arith, h, on, old, walk_installed-fine st st' dep cur a)
    ]
  ]

  walk_deps-fine :
      (r : Resolver) (root : Text) (st st' : ResolveState) (deps : List Dependency)
      → all_recorded st.resolved ≡ true
      → all_good deps ≡ true
      → walk_deps semver r root st deps ≡ ok st'
      → all_recorded st'.resolved ≡ true
  unfolding walk_deps walk_dep add_constraint
  walk_deps-fine r root st st' [] a g h = ground (arith, h, a)
  walk_deps-fine r root st st' (dep ∷ deps) a g h =
      elim (Result-cases (walk_dep semver r root st dep)) [
        | inl (e, bad) ↦ absurd (ground (arith, h, bad))
        | inr (mid, so_far) ↦
            let kept : (all_recorded mid.resolved ≡ true) = ground (
              arith,
              so_far,
              a,
              g,
              walk_bundled-fine st dep a,
              walk_tier2-fine r (add_constraint st dep) mid dep a,
            ) in
            ground (arith, h, so_far, g, walk_deps-fine r root mid st' deps kept)
      ]

  steps_of-fine :
      (resolved : List (Text × PlanStep)) (names : List Text)
      → all_recorded resolved ≡ true
      → all_fine (steps_of semver resolved names) ≡ true
  unfolding steps_of
  steps_of-fine resolved [] a = refl
  steps_of-fine resolved (n ∷ ns) a = elim (Option-cases (lookup resolved n)) [
    | inl gone ↦ rw (steps_of, gone) (steps_of-fine resolved ns a)
    | inr (s, there) ↦
        ground (arith, there, all_recorded-lookup resolved n s a there, steps_of-fine resolved ns a)
  ]

  all_fine-append :
      (xs ys : List PlanStep) → all_fine xs ≡ true → all_fine ys ≡ true → all_fine (xs ++ ys) ≡ true
  all_fine-append [] ys a b = b
  all_fine-append (x ∷ xs) ys a b = ground (arith, a, b, all_fine-append xs ys)

  -- A plan installs only the root and plugins that the root's manifest names as dependencies to be installed.
  pub plan-fine :
      (r : Resolver) (root : Plugin) (steps : List PlanStep)
      → plan semver r (some root) ≡ ok steps
      → good root.name ≡ true
      → all_good root.dependencies ≡ true
      → all_fine steps ≡ true
  unfolding plan walk contains
  plan-fine r root steps h g deps =
      elim (Result-cases (walk semver r [] empty_state root (pos 0))) [
        | inl (e, bad) ↦ absurd (ground (arith, h, bad))
        | inr (st, walked) ↦
            let recorded : (all_recorded st.resolved ≡ true) = ground (
              arith,
              walked,
              walk_deps-fine r root.name empty_state st root.dependencies refl deps,
            ) in
            let last : PlanStep = record {
              name = root.name;
              version = root.version;
              source = tier2;
              action = install;
              constraint = [];
            } in
            let both =
              all_fine-append (steps_of semver st.resolved st.order) (last ∷ [])
                (steps_of-fine st.resolved st.order recorded) (ground (arith, g)) in
            ground (arith, h, walked, both)
      ]
