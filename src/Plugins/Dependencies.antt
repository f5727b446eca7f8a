-- ===== src/Plugins/Dependencies.antt =====
-- internal/plugins/dependencies.go: the install plan. Versions has the constraints and Tree the tree of a
-- plugin's direct dependencies. The two lookups are arguments.
pub mod Versions
pub mod Pick
pub mod Named
pub mod Tree
use nova_nas.Base.{
  ℕ, Bool, true, false, not, ◌&&◌, ◌||◌, Option, none, some, List, [], ◌∷◌, ◌++◌, ◌==◌, ltb,
  if◌then◌else◌, length, contains, Text, codes, text_eq, ◌=?◌, lookup, insert, trim_space, Result,
  ok, err, ℤ, pos, ltb_ℤ,
}
use nova_nas.Plugins.Dependencies.Versions.{
  Semver, ResolveError, too_deep, cycle, unknown_source, installed_lookup, unsatisfiable,
  no_marketplace, marketplace_lookup, invalid_constraint, no_version, root_is_nil, is_blank,
  filter_empty, join, constraint_satisfied, pick_highest_satisfying,
}

abbrev pub tier2 : Text
tier2 = codes "tier-2"

abbrev pub bundled : Text
bundled = codes "bundled"

pub record Dependency : Type 0 where
  pub name : Text
  pub version_constraint : Text
  pub source : Text

pub record Plugin : Type 0 where
  pub name : Text
  pub version : Text
  pub dependencies : List Dependency

pub data Action : Type 0 where
  install skip bundled_only : Action

pub record PlanStep : Type 0 where
  pub name : Text
  pub version : Text
  pub source : Text
  pub action : Action
  pub constraint : Text

-- `none` is a lookup that is not configured. The marketplace answers the versions of a plugin.
pub record Resolver : Type 0 where
  pub installed : Option (Text → Result Text (Option Text))
  pub marketplace : Option (Text → Result Text (List Text))
  pub max_depth : ℤ

unfoldable pub depth_limit : Resolver → ℤ
depth_limit r = if ltb_ℤ (pos 0) r.max_depth then r.max_depth else pos 32

-- The bookkeeping of a walk. The depth of a walk is 0, and it visits no plugin but the root.
pub record ResolveState : Type 0 where
  pub resolved : List (Text × PlanStep)
  pub order : List Text
  pub constraints : List (Text × List Text)

abbrev pub empty_state : ResolveState
empty_state = record { resolved = []; order = []; constraints = [] }

-- `st.constraints[name]`
unfoldable pub constraints_of : ResolveState → Text → List Text
constraints_of st name = elim (lookup st.constraints name) [ none ↦ [] | some cs ↦ cs ]

-- Records a step for a name that has none.
unfoldable pub record_step : ResolveState → PlanStep → ResolveState
record_step st step = record st {
  resolved = insert st.resolved step.name step;
  order = st.order ++ step.name ∷ [];
}

abbrev pub is_install : Action → Bool
is_install install = true
is_install skip = false
is_install bundled_only = false

abbrev pub is_skip : Action → Bool
is_skip install = false
is_skip skip = true
is_skip bundled_only = false

unfoldable pub walk_bundled : ResolveState → Dependency → ResolveState
walk_bundled st dep = elim (lookup st.resolved dep.name) [
  | some _ ↦ st
  | none ↦ record_step st (record {
    name = dep.name;
    version = [];
    source = bundled;
    action = bundled_only;
    constraint = dep.version_constraint;
  })
]

unfoldable pub add_constraint : ResolveState → Dependency → ResolveState
add_constraint st dep = record st {
  constraints =
      insert st.constraints dep.name (constraints_of st dep.name ++ dep.version_constraint ∷ []);
}

module _ (semver : Semver) where
  -- A dependency that is installed at a version.
  unfoldable pub walk_installed :
      ResolveState → Dependency → Text → Result ResolveError ResolveState
  walk_installed st dep cur =
      if not (constraint_satisfied semver dep.version_constraint cur)
      then err unsatisfiable
      else elim (lookup st.resolved dep.name) [
        | none ↦ ok (
            record_step st (record {
              name = dep.name;
              version = cur;
              source = tier2;
              action = skip;
              constraint = dep.version_constraint;
            }))
        | some existing ↦
            if is_skip existing.action
              && not (constraint_satisfied semver dep.version_constraint existing.version)
            then err unsatisfiable
            else ok st
      ]

  -- A dependency for which the marketplace's versions gave one.
  unfoldable pub walk_picked : ResolveState → Dependency → Text → ResolveState
  walk_picked st dep version =
      let constraint = join (filter_empty (constraints_of st dep.name)) in
      elim (lookup st.resolved dep.name) [
        | none ↦ record_step st (record {
          name = dep.name;
          version = version;
          source = tier2;
          action = install;
          constraint = constraint;
        })
        | some existing ↦
            let narrowed = record st {
              resolved =
                  insert st.resolved dep.name
                    (record existing { version = version; constraint = constraint });
            } in
            if is_install existing.action
              && not (constraint_satisfied semver dep.version_constraint existing.version)
            then narrowed
            else st
      ]

  unfoldable pub walk_marketplace :
      Resolver → ResolveState → Dependency → Result ResolveError ResolveState
  walk_marketplace r st dep = elim r.marketplace [
    | none ↦ err no_marketplace
    | some find ↦ elim (find dep.name) as (λ _. Result ResolveError ResolveState) [
      | err _ ↦ err marketplace_lookup
      | ok versions ↦
          elim (pick_highest_satisfying semver versions (constraints_of st dep.name))
            as (λ _. Result ResolveError ResolveState) [
              | err e ↦ err e
              | ok version ↦ ok (walk_picked st dep version)
            ]
    ]
  ]

  unfoldable pub walk_tier2 :
      Resolver → ResolveState → Dependency → Result ResolveError ResolveState
  walk_tier2 r st dep = elim r.installed [
    | none ↦ walk_marketplace r st dep
    | some find ↦ elim (find dep.name) as (λ _. Result ResolveError ResolveState) [
      | err _ ↦ err installed_lookup
      | ok none ↦ walk_marketplace r st dep
      | ok (some cur) ↦ walk_installed st dep cur
    ]
  ]

  -- The body of the loop of `walk`.
  unfoldable pub walk_dep :
      Resolver → Text → ResolveState → Dependency → Result ResolveError ResolveState
  walk_dep r root st dep =
      if dep.source =? bundled
      then ok (walk_bundled st dep)
      else if not (dep.source =? tier2)
      then err unknown_source
      else if dep.name =? root
      then err cycle
      else walk_tier2 r (add_constraint st dep) dep

  unfoldable pub walk_deps :
      Resolver → Text → ResolveState → List Dependency → Result ResolveError ResolveState
  walk_deps r root st [] = ok st
  walk_deps r root st (dep ∷ deps) =
      elim (walk_dep r root st dep) as (λ _. Result ResolveError ResolveState) [
        | err e ↦ err e
        | ok st' ↦ walk_deps r root st' deps
      ]

  -- `walk`, at a depth and with the names on the way to it.
  unfoldable pub walk :
      Resolver → List Text → ResolveState → Plugin → ℤ → Result ResolveError ResolveState
  walk r visiting st m depth =
      if ltb_ℤ (depth_limit r) depth
      then err too_deep
      else if contains visiting m.name
      then err cycle
      else walk_deps r m.name st m.dependencies

  unfoldable pub steps_of : List (Text × PlanStep) → List Text → List PlanStep
  steps_of resolved [] = []
  steps_of resolved (name ∷ names) = elim (lookup resolved name) [
    | none ↦ steps_of resolved names
    | some step ↦ step ∷ steps_of resolved names
  ]

  unfoldable pub plan : Resolver → Option Plugin → Result ResolveError (List PlanStep)
  plan r none = err root_is_nil
  plan r (some root) =
      elim (walk r [] empty_state root (pos 0)) as (λ _. Result ResolveError (List PlanStep)) [
        | err e ↦ err e
        | ok st ↦ ok (
            steps_of st.resolved st.order
            ++ record {
              name = root.name;
              version = root.version;
              source = tier2;
              action = install;
              constraint = [];
            }
              ∷ [])
      ]
