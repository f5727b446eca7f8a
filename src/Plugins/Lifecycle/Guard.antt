-- ===== src/Plugins/Lifecycle/Guard.antt =====
-- What `Uninstall` of internal/plugins/lifecycle.go refuses, and what it removes.
use nova_nas.Base.{
  ◌≡◌, refl, inl, inr, Bool, true, false, not, ◌&&◌, ◌||◌, none, some, List, [], ◌∷◌, Text, text_eq,
  ◌=?◌, lookup, lookup-delete, contains, if◌then◌else◌, arith, Bool-cases, Option-cases, ok, err,
  text_beq_iff,
}
use nova_nas.Plugins.Needs.{Resource, resource_eq, Outside}
use nova_nas.Plugins.Needs.Rollback.{AllKnown, Removes, GoneOrSame, rollback_needs_lem}
use nova_nas.Plugins.Lifecycle.{
  Engine, World, Row, EngineError, no_store, not_found, has_dependents, get_plugin, unmount_routes,
  deregister_ui,
}
use nova_nas.Plugins.Lifecycle.Uninstall.{
  UninstallOptions, uninstall, remove_plugin, purge_needs, take_down, row_depends, dependents_from,
  dependents_of,
}
use nova_nas.Plugins.Lifecycle.Consistency.{mounted, served}
use nova_nas.Plugins.Lifecycle.Consistency.Operations.{take_down_lem}

module _ (env : Engine) where
  dependents_from_lem :
      (rows : List (Text × Row)) (name n : Text) (row : Row)
      → lookup rows n ≡ some row
      → (n =? name) ≡ false
      → row_depends env row name ≡ true
      → (d : Text) × (ds : List Text) × (dependents_from env rows name ≡ d ∷ ds)
  unfolding dependents_from lookup
  dependents_from_lem [] name n row h other dep = absurd cc
  dependents_from_lem ((k, v) ∷ rows) name n row h other dep = elim (Bool-cases (k =? n)) [
    | inl here ↦
        let same : (v ≡ row) = ground (arith, h, here) in
        let other' : ((k =? name) ≡ false) = ground (arith, other, here, text_beq_iff k n) in
        (k, dependents_from env rows name, rw (dependents_from, other', same, dep) refl)
    | inr there ↦
        let (d, ds, rest) = dependents_from_lem rows name n row (rw there at h) other dep in
        elim (Bool-cases (k =? name)) [
          | inl own ↦ (d, ds, rw (dependents_from, own) rest)
          | inr fine ↦ elim (Bool-cases (row_depends env v name)) [
            | inl holds ↦ (k, dependents_from env rows name, rw (dependents_from, fine, holds) refl)
            | inr free ↦ (d, ds, rw (dependents_from, fine, free) rest)
          ]
        ]
  ]

  -- While another plugin has the named one among the dependencies that the engine installs, a removal
  -- without force changes nothing and returns an error, provided the plugins can be listed.
  pub uninstall-dependents :
      (w : World env) (name n : Text) (row : Row) (opts : UninstallOptions)
      → lookup w.plugins n ≡ some row
      → (n =? name) ≡ false
      → row_depends env row name ≡ true
      → opts.force ≡ false
      → env.list_fails ≡ none
      → (e : EngineError) × (uninstall env w name opts ≡ (w, err e))
  unfolding uninstall dependents_of
  uninstall-dependents w name n row opts h other dep gentle listed =
      let (d, ds, blocks) = dependents_from_lem w.plugins name n row h other dep in
      elim (Bool-cases env.has_store) [
        | inr no_db ↦ (no_store, ground (arith, no_db))
        | inl db ↦ elim (Option-cases (get_plugin env w name)) [
          | inl gone ↦ (not_found, ground (arith, db, gone))
          | inr (own, there) ↦
              (has_dependents (d ∷ ds), ground (arith, db, there, listed, blocks, gentle))
        ]
      ]

  take_down-outside : (w : World env) (name : Text) → (take_down env w name).outside ≡ w.outside
  unfolding take_down unmount_routes deregister_ui
  take_down-outside w name = ground arith

  removed :
      (w w' : World env) (name q : Text) (row : Row) (purge : Bool)
      → remove_plugin env w name row purge ≡ (w', ok tt)
      → (lookup w'.plugins q ≡ (if name =? q then none else lookup w.plugins q))
        × ((mounted env w' q || served env w' q)
            ≡ ((mounted env w q || served env w q) && not (name =? q)))
  unfolding remove_plugin purge_needs
  removed w w' name q row purge h =
      ground (arith, h, take_down_lem env q w name, lookup-delete w.plugins name q)

  -- A removal that succeeds takes away the plugin's row, its routes and its user interface, and those of no
  -- other plugin.
  pub uninstall_ok :
      (w w' : World env) (name q : Text) (opts : UninstallOptions)
      → uninstall env w name opts ≡ (w', ok tt)
      → (lookup w'.plugins q ≡ (if name =? q then none else lookup w.plugins q))
        × ((mounted env w' q || served env w' q)
            ≡ ((mounted env w q || served env w q) && not (name =? q)))
  unfolding uninstall
  uninstall_ok w w' name q opts h = elim (Option-cases (get_plugin env w name)) [
    | inl gone ↦ absurd (ground (arith, h, gone))
    | inr (row, there) ↦ ground (arith, h, there, removed w w' name q row opts.purge)
  ]

  -- The ledger's resources are taken back.
  abbrev purges : Text → Bool → Bool
  purges name purge = purge && not (env.list_resources_fails name)

  -- What a removal leaves outside of a resource.
  abbrev Purged : Text → Row → Bool → Resource → Outside → Outside → Type 0
  Purged name row purge r out out' =
      GoneOrSame r out out'
      × ((purges name purge && contains row.resources r) ≡ true → lookup out' r ≡ none)
      × (purges name purge ≡ false → out' ≡ out)

  purge_needs-outside :
      (w : World env) {name : Text} (row : Row) (purge : Bool) {r : Resource}
      → Removes env.provisioner name r
      → AllKnown row.resources
      → Purged name row purge r w.outside (purge_needs env w name row purge).outside
  unfolding purge_needs
  purge_needs-outside w {name} row purge removes known =
      let (left, own) = rollback_needs_lem removes row.resources w.outside known in
      elim (Bool-cases (purges name purge)) [
        | inl taken ↦ rw (Purged, taken) (left, own, λ h. absurd cc)
        | inr kept ↦ rw (Purged, kept) (inr refl, λ h. absurd cc, λ h. refl)
      ]

  removed-outside :
      (w w' : World env) (name : Text) (row : Row) (purge : Bool)
      → remove_plugin env w name row purge ≡ (w', ok tt)
      → w'.outside ≡ (purge_needs env (take_down env w name) name row purge).outside
  unfolding remove_plugin
  removed-outside w w' name row purge h = ground (arith, h)

  -- A removal that succeeds takes back the resources of the plugin's ledger when it purges and the
  -- ledger can be listed, and leaves everything outside as it was otherwise, for each resource that the
  -- provisioner takes back.
  pub uninstall-purge :
      (w w' : World env) (name : Text) (row : Row) (opts : UninstallOptions) (r : Resource)
      → uninstall env w name opts ≡ (w', ok tt)
      → lookup w.plugins name ≡ some row
      → Removes env.provisioner name r
      → AllKnown row.resources
      → Purged name row opts.purge r w.outside w'.outside
  unfolding uninstall get_plugin take_down
  uninstall-purge w w' name row opts r h there removes known =
      let down = take_down env w name in
      let same : (w'.outside ≡ (purge_needs env down name row opts.purge).outside) =
        removed-outside w w' name row opts.purge (ground (arith, h, there)) in
      let purged = purge_needs-outside down row opts.purge removes known in
      rw (same, ← take_down-outside w name) purged
