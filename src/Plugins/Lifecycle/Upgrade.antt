-- ===== src/Plugins/Lifecycle/Upgrade.antt =====
-- `Upgrade`. What a plugin needs is provisioned again, and what is provisioned is added to its ledger.
use nova_nas.Base.{
  Bool, not, none, some, List, [], ◌++◌, Text, codes, text_eq, insert, lookup, Result, ok, err,
  if◌then◌else◌,
}
use nova_nas.Plugins.Needs.{Resource}
use nova_nas.Plugins.Lifecycle.{
  Engine, World, Row, Manifest, EngineError, no_store, not_found, source_failed, store_failed,
  get_plugin, mount_routes, register_ui, remove_tree, recorded, run_deploy,
  fetch_verify_unpack_provision, status_installed,
}

module _ (env : Engine) where
  -- From the manifest to the row, the mounts and the runtime, whose error is logged. An update that finds no
  -- row fails.
  unfoldable pub finish_upgrade :
      World env → Text → Manifest × Bool × List Resource → World env × Result EngineError Manifest
  finish_upgrade w name (m, has_ui, done) =
      elim (env.marshal m) as (λ _. World env × Result EngineError Manifest) [
        | err msg ↦ (remove_tree env w name, err (source_failed msg))
        | ok json ↦ elim (env.update_fails name) as (λ _. World env × Result EngineError Manifest) [
          | some msg ↦ (remove_tree env w name, err (store_failed msg))
          | none ↦ elim (lookup w.plugins name) as (λ _. World env × Result EngineError Manifest) [
            | none ↦ (remove_tree env w name, err (store_failed (codes "no rows")))
            | some old ↦
                let row : Row = record {
                  version = m.meta.version;
                  manifest = json;
                  status = status_installed;
                  resources = old.resources ++ recorded env done;
                } in
                let updated : World env = record w { plugins = insert w.plugins name row } in
                let live = register_ui env (mount_routes env updated name m.routes) name has_ui in
                ((run_deploy env live m).0, ok m)
          ]
        ]
      ]

  unfoldable pub upgrade : World env → Text → Text → World env × Result EngineError Manifest
  upgrade w name version =
      let (w', r) = fetch_verify_unpack_provision env w name version [] in
      let found = elim (get_plugin env w name) as (λ _. World env × Result EngineError Manifest) [
        | none ↦ (w, err not_found)
        | some _ ↦ elim r as (λ _. World env × Result EngineError Manifest) [
          | err e ↦ (w', err e)
          | ok unpacked ↦ finish_upgrade w' name unpacked
        ]
      ] in
      if not env.has_store then (w, err no_store) else found
