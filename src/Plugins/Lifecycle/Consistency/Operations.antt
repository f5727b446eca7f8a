-- ===== src/Plugins/Lifecycle/Consistency/Operations.antt =====
-- No operation of the engine leaves a plugin served without a row.
use nova_nas.Base.{
  ◌≡◌, ◌∙◌, inl, inr, ℕ, zero, suc, Bool, false, not, ◌&&◌, List, [], ◌∷◌, ◌++◌, Text, text_eq,
  ◌=?◌, insert, lookup-insert, lookup-delete, arith, Bool-cases, Option-cases, Result-cases,
}
use nova_nas.Plugins.Dependencies.{PlanStep}
use nova_nas.Plugins.Needs.{Resource}
use nova_nas.Plugins.Lifecycle.{
  Engine, World, Row, Manifest, InstallRequest, get_plugin, mount_routes, unmount_routes,
  deregister_ui, run_deploy, undeploy, recorded, status_installed, fetch_verify_unpack_provision,
}
use nova_nas.Plugins.Lifecycle.Install.{
  install, install_deps, install_root, finish_install, go_live, undo_install, refuses, plan_install,
  passes_over, ends_loop, Outcome,
}
use nova_nas.Plugins.Lifecycle.Uninstall.{
  UninstallOptions, uninstall, remove_plugin, take_down, purge_needs,
}
use nova_nas.Plugins.Lifecycle.Consistency.{mounted, served, orphan}
use nova_nas.Plugins.Lifecycle.Consistency.Parts.{
  mounted-mount_routes, mounted-unmount_routes, served-register_ui, served-deregister_ui,
  orphan-Same, fetch_verify_unpack_provision-Same, mount_routes_rest, register_ui_rest,
  unmount_routes_rest, deregister_ui_rest, run_deploy-Same,
}

module _ (env : Engine) (q : Text) where
  pub go_live-orphan :
      (w : World env) (name : Text) (row : Row) (m : Manifest) (has_ui : Bool)
      → orphan env w q ≡ false
      → orphan env (go_live env w name row m has_ui) q ≡ false
  unfolding go_live
  go_live-orphan w name row m has_ui h =
      let w1 : World env = record w { plugins = insert w.plugins name row } in
      let w2 = mount_routes env w1 name m.routes in
      ground (
        arith,
        h,
        lookup-insert w.plugins name q row,
        mounted-mount_routes env w1 name q m.routes,
        mount_routes_rest env w1 name m.routes,
        served-register_ui env w2 name q has_ui,
        register_ui_rest env w2 name has_ui,
      )

  undo_install-orphan :
      (w : World env) (name : Text) (done : List Resource)
      → orphan env w q ≡ false
      → orphan env (undo_install env w name done) q ≡ false
  unfolding undo_install
  undo_install-orphan w name done h =
      let w1 = unmount_routes env w name in
      ground (
        arith,
        h,
        mounted-unmount_routes env w name q,
        unmount_routes_rest env w name,
        served-deregister_ui env w1 name q,
        deregister_ui_rest env w1 name,
        lookup-delete w.plugins name q,
      )

  finish_install-orphan :
      (w : World env) (name : Text) (steps : List PlanStep) (m : Manifest) (has_ui : Bool)
      (done : List Resource)
      → orphan env w q ≡ false
      → orphan env (finish_install env w name steps (m, has_ui, done)).0 q ≡ false
  unfolding finish_install
  finish_install-orphan w name steps m has_ui done h = elim (Result-cases (env.marshal m)) [
    | inl (msg, bad) ↦ rw (finish_install, bad) h
    | inr (json, good) ↦ elim (Option-cases (env.create_fails name)) [
      | inr (msg, bad) ↦ rw (finish_install, good, bad) h
      | inl fine ↦
          let row : Row = record {
            version = m.meta.version;
            manifest = json;
            status = status_installed;
            resources = recorded env done;
          } in
          let live = go_live env w name row m has_ui in
          let alive = go_live-orphan w name row m has_ui h in
          let deployed =
            orphan-Same env live (run_deploy env live m).0 q (run_deploy-Same env live m) ∙ alive in
          ground (
            arith,
            good,
            fine,
            deployed,
            undo_install-orphan (run_deploy env live m).0 name done deployed,
          )
    ]
  ]

  install_root-orphan :
      (w : World env) (req : InstallRequest) (steps : List PlanStep)
      → orphan env w q ≡ false
      → orphan env (install_root env w req steps).0 q ≡ false
  unfolding install_root
  install_root-orphan w req steps h =
      let unpacked = fetch_verify_unpack_provision env w req.name req.version req.marketplace_id in
      let kept =
        orphan-Same env w unpacked.0 q
          (fetch_verify_unpack_provision-Same env w req.name req.version req.marketplace_id)
        ∙ h in
      elim (Result-cases unpacked.1) [
        | inl (e, bad) ↦ rw (install_root, bad) kept
        | inr ((m, has_ui, done), good) ↦
            rw (install_root, good)
              (finish_install-orphan unpacked.0 req.name steps m has_ui done kept)
      ]

  install_deps-orphan :
      (run : World env → InstallRequest → World env × Outcome) (req : InstallRequest)
      (steps : List PlanStep) (w : World env)
      → ((v : World env) (r : InstallRequest)
          → orphan env v q ≡ false
          → orphan env (run v r).0 q ≡ false)
      → orphan env w q ≡ false
      → orphan env (install_deps env run req steps w).0 q ≡ false
  unfolding install_deps
  install_deps-orphan run req [] w keeps h = h
  install_deps-orphan run req (s ∷ ss) w keeps h = elim (Bool-cases (passes_over env w req s)) [
    | inl over ↦ rw (install_deps, over) (install_deps-orphan run req ss w keeps h)
    | inr go ↦
        let asked : InstallRequest = record {
          name = s.name;
          version = s.version;
          marketplace_id = req.marketplace_id;
        } in
        let kept = keeps w asked h in
        elim (Option-cases (ends_loop env s.name (run w asked).1)) [
          | inl on ↦
              rw (install_deps, go, on) (install_deps-orphan run req ss (run w asked).0 keeps kept)
          | inr (out, stop) ↦ rw (install_deps, go, stop) kept
        ]
  ]

  pub install-orphan :
      (fuel : ℕ) (held : List Text) (w : World env) (req : InstallRequest)
      → orphan env w q ≡ false
      → orphan env (install env fuel held w req).0 q ≡ false
  unfolding install
  install-orphan zero held w req h = h
  install-orphan (suc fuel) held w req h = elim (Option-cases (refuses env held w req)) [
    | inr (out, no_way) ↦ rw (install, no_way) h
    | inl accepted ↦ elim (Result-cases (plan_install env w req)) [
      | inl (e, bad) ↦ rw (install, accepted, bad) h
      | inr (steps, good) ↦
          let loop = install_deps env (install env fuel (req.name ∷ held)) req steps w in
          let kept =
            install_deps-orphan (install env fuel (req.name ∷ held)) req steps w
              (install-orphan fuel (req.name ∷ held)) h in
          elim (Option-cases loop.1) [
            | inr (out, stop) ↦ rw (install, accepted, good, stop) kept
            | inl on ↦ rw (install, accepted, good, on) (install_root-orphan loop.0 req steps kept)
          ]
    ]
  ]

  taken_down :
      (w : World env) (name : Text)
      → let w' = deregister_ui env (unmount_routes env w name) name in
        (mounted env w' q ≡ (mounted env w q && not (name =? q)))
        × (served env w' q ≡ (served env w q && not (name =? q)))
        × (w'.plugins ≡ w.plugins)
  taken_down w name =
      let w1 = unmount_routes env w name in
      ground (
        arith,
        mounted-unmount_routes env w name q,
        unmount_routes_rest env w name,
        served-deregister_ui env w1 name q,
        deregister_ui_rest env w1 name,
      )

  pub take_down_lem :
      (w : World env) (name : Text)
      → (mounted env (take_down env w name) q ≡ (mounted env w q && not (name =? q)))
        × (served env (take_down env w name) q ≡ (served env w q && not (name =? q)))
        × ((take_down env w name).plugins ≡ w.plugins)
  unfolding take_down
  take_down_lem w name = elim (Option-cases env.deployer) [
    | inl off ↦ ground (arith, off, taken_down w name)
    | inr (start, on) ↦
        rw (take_down, on)
          (taken_down (record w { runtime = w.runtime ++ undeploy name ∷ [] }) name)
  ]

  remove_plugin-orphan :
      (w : World env) (name : Text) (row : Row) (purge : Bool)
      → orphan env w q ≡ false
      → orphan env (remove_plugin env w name row purge).0 q ≡ false
  unfolding remove_plugin purge_needs
  remove_plugin-orphan w name row purge h =
      ground (arith, h, take_down_lem w name, lookup-delete w.plugins name q)

  pub uninstall-orphan :
      (w : World env) (name : Text) (opts : UninstallOptions)
      → orphan env w q ≡ false
      → orphan env (uninstall env w name opts).0 q ≡ false
  unfolding uninstall
  uninstall-orphan w name opts h = elim (Option-cases (get_plugin env w name)) [
    | inl none_there ↦ ground (arith, h, none_there)
    | inr (row, there) ↦ ground (arith, h, there, remove_plugin-orphan w name row opts.purge h)
  ]
