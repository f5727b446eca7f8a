-- ===== src/Plugins/Lifecycle/Uninstall.antt =====
-- `Uninstall`, with the guard of the dependents.
use nova_nas.Base.{
  Bool, true, false, not, ◌&&◌, ◌||◌, none, some, List, [], ◌∷◌, ◌++◌, Text, text_eq, ◌=?◌, delete,
  Result, ok, err, if◌then◌else◌,
}
use nova_nas.Plugins.Dependencies.{Dependency, tier2}
use nova_nas.Plugins.Lifecycle.{
  Engine, World, Row, EngineError, no_store, not_found, has_dependents, store_failed, get_plugin,
  unmount_routes, deregister_ui, remove_tree, roll_back, undeploy,
}

pub record UninstallOptions : Type 0 where
  pub purge : Bool
  pub force : Bool

-- Whether a manifest's dependencies name a plugin as a dependency that the engine installs.
unfoldable pub depends_on : List Dependency → Text → Bool
depends_on [] name = false
depends_on (d ∷ ds) name = d.source =? tier2 && d.name =? name || depends_on ds name

module _ (env : Engine) where
  -- Whether a row holds up the removal of a plugin. A manifest that cannot be read does not.
  unfoldable pub row_depends : Row → Text → Bool
  row_depends row name = elim (env.unmarshal row.manifest) [
    | none ↦ false
    | some m ↦ depends_on m.meta.dependencies name
  ]

  unfoldable pub dependents_from : List (Text × Row) → Text → List Text
  dependents_from [] name = []
  dependents_from ((n, row) ∷ rows) name =
      let rest = dependents_from rows name in
      if n =? name then rest else if row_depends row name then n ∷ rest else rest

  -- `dependentsOf`
  unfoldable pub dependents_of : World env → Text → Result Text (List Text)
  dependents_of w name = elim env.list_fails [
    | some msg ↦ err msg
    | none ↦ ok (dependents_from w.plugins name)
  ]

  -- The names that hold up a removal, as far as the listing succeeds.
  abbrev pub blocking : World env → Text → List Text
  blocking w name = elim (dependents_of w name) as (λ _. List Text) [ err _ ↦ [] | ok ds ↦ ds ]

  abbrev pub configured_ui : World env → Bool
  configured_ui w = elim w.ui as (λ _. Bool) [ none ↦ false | some _ ↦ true ]

  -- The runtime, the routes and the user interface are taken down; the deployer's error is logged.
  unfoldable pub take_down : World env → Text → World env
  take_down w name =
      let w' : World env = elim env.deployer as (λ _. World env) [
        | none ↦ w
        | some _ ↦ record w { runtime = w.runtime ++ undeploy name ∷ [] }
      ] in
      deregister_ui env (unmount_routes env w' name) name

  unfoldable pub purge_needs : World env → Text → Row → Bool → World env
  purge_needs w name row purge =
      if purge && not (env.list_resources_fails name) then roll_back env w name row.resources else w

  unfoldable pub remove_plugin :
      World env → Text → Row → Bool → World env × Result EngineError (Unit {0})
  remove_plugin w name row purge =
      let w1 = purge_needs (take_down w name) name row purge in
      let w2 = if configured_ui w1 then remove_tree env w1 name else w1 in
      elim (env.delete_fails name) as (λ _. World env × Result EngineError (Unit {0})) [
        | some msg ↦ (w2, err (store_failed msg))
        | none ↦ (record w2 { plugins = delete w2.plugins name }, ok tt)
      ]

  unfoldable pub uninstall :
      World env → Text → UninstallOptions → World env × Result EngineError (Unit {0})
  uninstall w name opts =
      let found = elim (get_plugin env w name) as (λ _. World env × Result EngineError (Unit {0})) [
        | none ↦ (w, err not_found)
        | some row ↦ elim (blocking w name) as (λ _. World env × Result EngineError (Unit {0})) [
          | [] ↦ remove_plugin w name row opts.purge
          | d ∷ ds ↦
              if opts.force
              then remove_plugin w name row opts.purge
              else (w, err (has_dependents (d ∷ ds)))
        ]
      ] in
      if not env.has_store then (w, err no_store) else found
