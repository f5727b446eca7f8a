-- ===== src/Plugins/Lifecycle/Restore.antt =====
-- `RestoreAtStartup`, `Restart`, `Logs`, `Get` and `List`.
use nova_nas.Base.{
  ℕ, Option, none, some, List, [], ◌∷◌, ◌++◌, Text, text_eq, lookup, Result, ok, err, if◌then◌else◌,
}
use nova_nas.Plugins.Needs.{Resource}
use nova_nas.Plugins.Lifecycle.{
  Engine, World, Row, EngineError, not_found, store_failed, deployer_failed, no_deployer,
  get_plugin, mount_routes, register_ui, restart,
}

module _ (env : Engine) where
  -- The user interface of a plugin is registered when its tree has a ui directory.
  unfoldable pub restore_ui : World env → Text → World env
  restore_ui w name = elim (lookup w.disk name) [
    | none ↦ w
    | some has_ui ↦ register_ui env w name has_ui
  ]

  unfoldable pub restore_row : World env → Text → Row → World env
  restore_row w name row = elim (env.unmarshal row.manifest) [
    | none ↦ w
    | some m ↦ restore_ui (mount_routes env w name m.routes) name
  ]

  unfoldable pub restore_rows : List (Text × Row) → World env → World env
  restore_rows [] w = w
  restore_rows ((name, row) ∷ rows) w = restore_rows rows (restore_row w name row)

  unfoldable pub restore_at_startup : World env → World env
  restore_at_startup w =
      let restored = elim env.list_fails as (λ _. World env) [
        | some _ ↦ w
        | none ↦ restore_rows w.plugins w
      ] in
      if env.has_store then restored else w

  -- `Restart` for a deployer that answers as it is told.
  unfoldable pub restart_plugin :
      (Text → Option Text) → World env → Text → World env × Result EngineError (Unit {0})
  restart_plugin bounce w name =
      let started = elim env.deployer as (λ _. World env × Result EngineError (Unit {0})) [
        | none ↦ (w, err no_deployer)
        | some _ ↦ (
          record w { runtime = w.runtime ++ restart name ∷ [] },
          elim (bounce name) as (λ _. Result EngineError (Unit {0})) [
            | none ↦ ok tt
            | some msg ↦ err (deployer_failed msg)
          ],
        )
      ] in
      elim (get_plugin env w name) as (λ _. World env × Result EngineError (Unit {0})) [
        | none ↦ (w, err not_found)
        | some _ ↦ if env.has_store then started else (w, err not_found)
      ]

  -- `Get`: the row, and the resources as far as they can be listed.
  unfoldable pub get : World env → Text → Result EngineError (Row × List Resource)
  get w name =
      let found = elim (get_plugin env w name) as (λ _. Result EngineError (Row × List Resource)) [
        | none ↦ err not_found
        | some row ↦ ok (row, if env.list_resources_fails name then [] else row.resources)
      ] in
      if env.has_store then found else err not_found

  -- `List`
  unfoldable pub list_installed : World env → Result EngineError (List (Text × Row))
  list_installed w =
      let listed = elim env.list_fails as (λ _. Result EngineError (List (Text × Row))) [
        | some msg ↦ err (store_failed msg)
        | none ↦ ok w.plugins
      ] in
      if env.has_store then listed else ok []

  -- `Logs` for a deployer that answers as it is told.
  unfoldable pub logs :
      (Text → ℕ → Result Text (List Text)) → World env → Text → ℕ → Result EngineError (List Text)
  logs journal w name lines =
      let asked = elim (journal name lines) as (λ _. Result EngineError (List Text)) [
        | err msg ↦ err (deployer_failed msg)
        | ok entries ↦ ok entries
      ] in
      let found = elim env.deployer as (λ _. Result EngineError (List Text)) [
        | none ↦ err no_deployer
        | some _ ↦ asked
      ] in
      elim (get_plugin env w name) as (λ _. Result EngineError (List Text)) [
        | none ↦ err not_found
        | some _ ↦ if env.has_store then found else err not_found
      ]
