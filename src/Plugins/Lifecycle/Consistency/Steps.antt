-- ===== src/Plugins/Lifecycle/Consistency/Steps.antt =====
-- The states that the engine reaches by its operations and by starts of the process.
use nova_nas.Base.{
  ◌≡◌, refl, ◌∙◌, inl, inr, ℕ, Bool, true, false, Option, none, some, List, [], ◌∷◌, ◌++◌, Text,
  text_eq, lookup, arith, Option-cases, Result-cases, =?_refl, text_beq_iff,
}
use nova_nas.Plugins.Router.{is_mounted}
use nova_nas.Plugins.Needs.{Resource}
use nova_nas.Plugins.Lifecycle.{
  Engine, World, Row, Manifest, InstallRequest, mount_routes, recorded, status_installed,
  run_deploy, fetch_verify_unpack_provision,
}
use nova_nas.Plugins.Lifecycle.Install.{install, go_live}
use nova_nas.Plugins.Lifecycle.Uninstall.{UninstallOptions, uninstall}
use nova_nas.Plugins.Lifecycle.Upgrade.{upgrade, finish_upgrade}
use nova_nas.Plugins.Lifecycle.Restore.{
  restore_at_startup, restore_rows, restore_row, restore_ui, restart_plugin,
}
use nova_nas.Plugins.Lifecycle.Consistency.{has_row, orphan}
use nova_nas.Plugins.Lifecycle.Consistency.Parts.{
  mounted-mount_routes, served-register_ui, orphan-Same, fetch_verify_unpack_provision-Same,
  mount_routes_rest, register_ui_rest, run_deploy-Same,
}
use nova_nas.Plugins.Lifecycle.Consistency.Operations.{
  go_live-orphan, install-orphan, uninstall-orphan,
}

module _ (env : Engine) where
  -- The state as `NewRouter` and `NewUIAssets` make it when a process starts.
  abbrev pub booted : World env → World env
  booted w = record w { router = some []; ui = some [] }

  pub data Step : World env → World env → Type 0 where
    installs :
        (fuel : ℕ) (w : World env) (req : InstallRequest) → Step w (install env fuel [] w req).0
    uninstalls :
        (w : World env) (name : Text) (opts : UninstallOptions)
        → Step w (uninstall env w name opts).0
    upgrades : (w : World env) (name version : Text) → Step w (upgrade env w name version).0
    restarts :
        (bounce : Text → Option Text) (w : World env) (name : Text)
        → Step w (restart_plugin env bounce w name).0
    boots : (w : World env) → Step w (restore_at_startup env (booted w))

  pub data Steps : World env → World env → Type 0 where
    start : (w : World env) → Steps w w
    then_step : {w w' w'' : World env} → Steps w w' → Step w' w'' → Steps w w''

  module _ (q : Text) where
    finish_upgrade-orphan :
        (w : World env) (name : Text) (m : Manifest) (has_ui : Bool) (done : List Resource)
        → orphan env w q ≡ false
        → orphan env (finish_upgrade env w name (m, has_ui, done)).0 q ≡ false
    unfolding finish_upgrade go_live
    finish_upgrade-orphan w name m has_ui done h = elim (Result-cases (env.marshal m)) [
      | inl (msg, bad) ↦ rw (finish_upgrade, bad) h
      | inr (json, good) ↦ elim (Option-cases (lookup w.plugins name)) [
        | inl gone ↦ ground (arith, h, good, gone)
        | inr (old, there) ↦
            let row : Row = record {
              version = m.meta.version;
              manifest = json;
              status = status_installed;
              resources = old.resources ++ recorded env done;
            } in
            let live = go_live env w name row m has_ui in
            let alive = go_live-orphan env q w name row m has_ui h in
            let deployed =
              orphan-Same env live (run_deploy env live m).0 q (run_deploy-Same env live m)
              ∙ alive in
            ground (arith, h, good, there, deployed)
      ]
    ]

    upgrade-orphan :
        (w : World env) (name version : Text)
        → orphan env w q ≡ false
        → orphan env (upgrade env w name version).0 q ≡ false
    unfolding upgrade
    upgrade-orphan w name version h =
        let unpacked = fetch_verify_unpack_provision env w name version [] in
        let kept =
          orphan-Same env w unpacked.0 q (fetch_verify_unpack_provision-Same env w name version [])
          ∙ h in
        elim (Result-cases unpacked.1) [
          | inl (e, bad) ↦ ground (arith, h, bad, kept)
          | inr ((m, has_ui, made), good) ↦
              ground (arith, h, good, finish_upgrade-orphan unpacked.0 name m has_ui made kept)
        ]

    restore_row-orphan :
        (w : World env) (name : Text) (row : Row)
        → has_row env w name ≡ true
        → orphan env w q ≡ false
        → (orphan env (restore_row env w name row) q ≡ false)
          × ((restore_row env w name row).plugins ≡ w.plugins)
    unfolding restore_row restore_ui
    restore_row-orphan w name row there h = elim (Option-cases (env.unmarshal row.manifest)) [
      | inl bad ↦ ground (arith, h, bad)
      | inr (m, good) ↦
          let w1 = mount_routes env w name m.routes in
          ground (
            arith,
            h,
            good,
            there,
            text_beq_iff name q,
            mounted-mount_routes env w name q m.routes,
            mount_routes_rest env w name m.routes,
            served-register_ui env w1 name q true,
            served-register_ui env w1 name q false,
            register_ui_rest env w1 name true,
            register_ui_rest env w1 name false,
          )
    ]

    abbrev AllIn : List (Text × Row) → List (Text × Row) → Type 0
    AllIn [] table = Unit
    AllIn ((name, row) ∷ rows) table =
        ((elim (lookup table name) as (λ _. Bool) [ none ↦ false | some _ ↦ true ]) ≡ true)
        × AllIn rows table

    AllIn-cons :
        (rows table : List (Text × Row)) (k : Text) (v : Row)
        → AllIn rows table
        → AllIn rows ((k, v) ∷ table)
    unfolding lookup
    AllIn-cons [] table k v a = tt
    AllIn-cons ((name, row) ∷ rows) table k v a =
        (ground (arith, a.0), AllIn-cons rows table k v a.1)

    AllIn-self : (rows : List (Text × Row)) → AllIn rows rows
    unfolding lookup
    AllIn-self [] = tt
    AllIn-self ((name, row) ∷ rows) =
        (ground (arith, =?_refl name), AllIn-cons rows rows name row (AllIn-self rows))

    restore_rows-orphan :
        (rows : List (Text × Row)) (w : World env)
        → AllIn rows w.plugins
        → orphan env w q ≡ false
        → orphan env (restore_rows env rows w) q ≡ false
    unfolding restore_rows
    restore_rows-orphan [] w a h = h
    restore_rows-orphan ((name, row) ∷ rows) w a h =
        let (kept, table) = restore_row-orphan w name row a.0 h in
        restore_rows-orphan rows (restore_row env w name row) (rw table a.1) kept

    restore_at_startup-orphan :
        (w : World env) → orphan env (restore_at_startup env (booted w)) q ≡ false
    unfolding restore_at_startup is_mounted lookup
    restore_at_startup-orphan w =
        ground (arith, restore_rows-orphan w.plugins (booted w) (AllIn-self w.plugins) refl)

    Step-orphan : {w w' : World env} → Step w w' → orphan env w q ≡ false → orphan env w' q ≡ false
    unfolding restart_plugin
    Step-orphan (installs fuel w req) h = install-orphan env q fuel [] w req h
    Step-orphan (uninstalls w name opts) h = uninstall-orphan env q w name opts h
    Step-orphan (upgrades w name version) h = upgrade-orphan w name version h
    Step-orphan (restarts bounce w name) h = ground (arith, h)
    Step-orphan (boots w) h = restore_at_startup-orphan w

    -- Where a plugin that the router or the user interfaces serve has a row, it has one after any sequence of
    -- installs, removals, upgrades, restarts and starts of the process too, whatever fails in them.
    pub Steps-orphan :
        {w w' : World env} → Steps w w' → orphan env w q ≡ false → orphan env w' q ≡ false
    Steps-orphan (start w) h = h
    Steps-orphan (then_step before step) h = Step-orphan step (Steps-orphan before h)
