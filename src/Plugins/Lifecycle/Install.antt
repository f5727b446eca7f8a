-- ===== src/Plugins/Lifecycle/Install.antt =====
-- `Install`. A plugin's dependencies are installed by calls of it under the plugin's lock, so a call is given the
-- names that are locked by the calls around it; one that asks for such a name waits for ever, `blocked`.
use nova_nas.Base.{
  ℕ, zero, suc, Bool, true, false, not, ◌||◌, Option, none, some, List, [], ◌∷◌, Text, text_eq,
  ◌=?◌, insert, delete, contains, Result, ok, err, pos, length, ◌==◌, if◌then◌else◌,
}
use nova_nas.Plugins.Dependencies.{PlanStep, Resolver, plan, is_install}
use nova_nas.Plugins.Needs.{Resource}
use nova_nas.Plugins.Lifecycle.{
  Engine, World, Row, Manifest, EngineError, no_store, already_exists, invalid, plan_failed,
  store_failed, source_failed, deploy_failed, dependency_failed, InstallRequest, get_plugin,
  mount_routes, unmount_routes, register_ui, deregister_ui, remove_tree, roll_back, recorded,
  run_deploy, manifest_for_planning, fetch_verify_unpack_provision, status_installed,
}

-- `Installation`, as `Install` returns it.
pub record Installation : Type 0 where
  pub name : Text
  pub version : Text
  pub manifest : Manifest
  pub status : Text
  pub resources : List Resource
  pub installed_deps : List PlanStep

pub data Outcome : Type 0 where
  installed : Installation → Outcome
  failed : EngineError → Outcome
  blocked out_of_fuel : Outcome

-- The steps for other plugins than the one installed.
unfoldable pub other_steps : Text → List PlanStep → List PlanStep
other_steps name [] = []
other_steps name (s ∷ ss) =
    let rest = other_steps name ss in if s.name =? name then rest else s ∷ rest

module _ (env : Engine) where
  -- `installedLookup`
  unfoldable pub installed_version : World env → Text → Result Text (Option Text)
  installed_version w name = elim (get_plugin env w name) [
    | none ↦ ok none
    | some row ↦ ok (some row.version)
  ]

  -- `dependencyLookup`, as the resolver uses it: the versions of a plugin.
  unfoldable pub dependency_lookup : Option (Text → Result Text (List Text))
  dependency_lookup =
      let from_single = elim env.single as (λ _. Option (Text → Result Text (List Text))) [
        | none ↦ none
        | some market ↦ some (λ name.
            elim (market.find_version name []) as (λ _. Result Text (List Text)) [
              | err msg ↦ err msg
              | ok (versions, _) ↦ ok versions
            ])
      ] in
      elim env.multi as (λ _. Option (Text → Result Text (List Text))) [
        | none ↦ from_single
        | some markets ↦ some (λ name.
            elim (markets.find_version name [] []) as (λ _. Result Text (List Text)) [
              | err msg ↦ err msg
              | ok (versions, _, _) ↦ ok versions
            ])
      ]

  -- `Resolver`
  unfoldable pub resolver : World env → Resolver
  resolver w = record {
    installed = some (installed_version w);
    marketplace = dependency_lookup;
    max_depth = pos 32;
  }

  unfoldable pub plan_install : World env → InstallRequest → Result EngineError (List PlanStep)
  plan_install w req =
      elim (manifest_for_planning env req.name req.version req.marketplace_id)
        as (λ _. Result EngineError (List PlanStep)) [
          | err e ↦ err e
          | ok m ↦
              elim (plan env.semver (resolver w) (some m.meta))
                as (λ _. Result EngineError (List PlanStep)) [
                  | err e ↦ err (plan_failed e)
                  | ok steps ↦ ok steps
                ]
        ]

  -- The state after a row is written, with the routes mounted and the user interface registered.
  unfoldable pub go_live : World env → Text → Row → Manifest → Bool → World env
  go_live w name row m has_ui =
      register_ui env
        (mount_routes env (record w { plugins = insert w.plugins name row }) name m.routes) name
        has_ui

  -- The rollback after a deployment that failed. An error of the store is dropped.
  unfoldable pub undo_install : World env → Text → List Resource → World env
  undo_install w name done =
      let w' = deregister_ui env (unmount_routes env w name) name in
      let w'' = elim (env.delete_fails name) as (λ _. World env) [
        | some _ ↦ w'
        | none ↦ record w' { plugins = delete w'.plugins name }
      ] in
      remove_tree env (roll_back env w'' name done) name

  -- From the manifest to the row, the mounts and the runtime.
  unfoldable pub finish_install :
      World env → Text → List PlanStep → Manifest × Bool × List Resource → World env × Outcome
  finish_install w name steps (m, has_ui, done) =
      let undone = remove_tree env (roll_back env w name done) name in
      elim (env.marshal m) as (λ _. World env × Outcome) [
        | err msg ↦ (undone, failed (source_failed msg))
        | ok json ↦ elim (env.create_fails name) as (λ _. World env × Outcome) [
          | some msg ↦ (undone, failed (store_failed msg))
          | none ↦
              let row : Row = record {
                version = m.meta.version;
                manifest = json;
                status = status_installed;
                resources = recorded env done;
              } in
              let live = go_live w name row m has_ui in
              let (w', e) = run_deploy env live m in
              elim e as (λ _. World env × Outcome) [
                | some msg ↦ (undo_install w' name done, failed (deploy_failed msg))
                | none ↦ (
                  w',
                  installed (record {
                    name = name;
                    version = m.meta.version;
                    manifest = m;
                    status = status_installed;
                    resources = done;
                    installed_deps = other_steps name steps;
                  }),
                )
              ]
        ]
      ]

  -- The part of `Install` after the dependencies.
  unfoldable pub install_root : World env → InstallRequest → List PlanStep → World env × Outcome
  install_root w req steps =
      let (w', r) = fetch_verify_unpack_provision env w req.name req.version req.marketplace_id in
      elim r as (λ _. World env × Outcome) [
        | err e ↦ (w', failed e)
        | ok unpacked ↦ finish_install w' req.name steps unpacked
      ]

  -- Whether the loop over the plan goes past a step.
  unfoldable pub passes_over : World env → InstallRequest → PlanStep → Bool
  passes_over w req s =
      s.name =? req.name
      || not (is_install s.action)
      || (elim (get_plugin env w s.name) as (λ _. Bool) [ none ↦ false | some _ ↦ true ])

  -- What ends the loop after a dependency's install.
  unfoldable pub ends_loop : Text → Outcome → Option Outcome
  ends_loop dep (installed _) = none
  ends_loop dep (failed e) = some (failed (dependency_failed dep e))
  ends_loop dep blocked = some blocked
  ends_loop dep out_of_fuel = some out_of_fuel

  -- The loop of `Install` over the plan.
  unfoldable pub install_deps :
      (World env → InstallRequest → World env × Outcome)
      → InstallRequest
      → List PlanStep
      → World env
      → World env × Option Outcome
  install_deps run req [] w = (w, none)
  install_deps run req (s ∷ ss) w =
      elim (passes_over w req s) as (λ _. World env × Option Outcome) [
        | true ↦ install_deps run req ss w
        | false ↦
            let (w', o) = run w (record {
              name = s.name;
              version = s.version;
              marketplace_id = req.marketplace_id;
            }) in
            elim (ends_loop s.name o) as (λ _. World env × Option Outcome) [
              | some out ↦ (w', some out)
              | none ↦ install_deps run req ss w'
            ]
      ]

  -- The tests before the plan is made, the lock among them.
  unfoldable pub refuses : List Text → World env → InstallRequest → Option Outcome
  refuses held w req =
      let present = elim (get_plugin env w req.name) as (λ _. Option Outcome) [
        | some _ ↦ some (failed already_exists)
        | none ↦ none
      ] in
      if length req.name == 0
      then some (failed invalid)
      else if not env.has_store
      then some (failed no_store)
      else if contains held req.name
      then some blocked
      else present

  unfoldable pub install : ℕ → List Text → World env → InstallRequest → World env × Outcome
  install zero held w req = (w, out_of_fuel)
  install (suc fuel) held w req = elim (refuses held w req) as (λ _. World env × Outcome) [
    | some out ↦ (w, out)
    | none ↦ elim (plan_install w req) as (λ _. World env × Outcome) [
      | err e ↦ (w, failed e)
      | ok steps ↦
          let (w', stopped) = install_deps (install fuel (req.name ∷ held)) req steps w in
          elim stopped as (λ _. World env × Outcome) [
            | some out ↦ (w', out)
            | none ↦ install_root w' req steps
          ]
    ]
  ]
