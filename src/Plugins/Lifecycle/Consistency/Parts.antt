-- ===== src/Plugins/Lifecycle/Consistency/Parts.antt =====
-- What the parts of an operation do to what is mounted, served and recorded.
use nova_nas.Base.{
  ◌≡◌, refl, inl, inr, Bool, true, not, ◌&&◌, ◌||◌, List, [], ◌∷◌, Text, text_eq, ◌=?◌, insert,
  delete, lookup-insert, lookup-delete, arith, Option-cases, Result-cases,
}
use nova_nas.Plugins.Router.{ApiRoute, is_mounted, mount, unmount, proxies}
use nova_nas.Plugins.Lifecycle.{
  Engine, World, mount_routes, unmount_routes, register_ui, deregister_ui,
  fetch_verify_unpack_provision, unpack, provision_manifest, fetch_verified_tarball, run_deploy,
  Manifest,
}
use nova_nas.Plugins.Lifecycle.Consistency.{mounted, served, orphan}

module _ (env : Engine) where
  pub mounted-mount_routes :
      (w : World env) (name q : Text) (routes : List ApiRoute)
      → (not (mounted env (mount_routes env w name routes) q) || mounted env w q || name =? q)
        ≡ true
  unfolding mount_routes mount is_mounted
  mounted-mount_routes w name q [] = ground arith
  mounted-mount_routes w name q (r ∷ rs) = elim (Option-cases w.router) [
    | inl off ↦ rw (mount_routes, off) (ground (arith, off))
    | inr (mounts, on) ↦ elim (Option-cases (proxies env.urls (r ∷ rs))) [
      | inl bad ↦ ground (arith, on, bad)
      | inr (ps, good) ↦ ground (arith, on, good, lookup-insert mounts name q ps)
    ]
  ]

  pub mounted-unmount_routes :
      (w : World env) (name q : Text)
      → mounted env (unmount_routes env w name) q ≡ (mounted env w q && not (name =? q))
  unfolding unmount_routes unmount is_mounted
  mounted-unmount_routes w name q = elim (Option-cases w.router) [
    | inl off ↦ ground (arith, off)
    | inr (mounts, on) ↦ ground (arith, on, lookup-delete mounts name q)
  ]

  pub served-register_ui :
      (w : World env) (name q : Text) (has_ui : Bool)
      → (not (served env (register_ui env w name has_ui) q) || served env w q || name =? q) ≡ true
  unfolding register_ui
  served-register_ui w name q has_ui = elim (Option-cases w.ui) [
    | inl off ↦ ground (arith, off)
    | inr (dirs, on) ↦ ground (arith, on, lookup-insert dirs name q name)
  ]

  pub served-deregister_ui :
      (w : World env) (name q : Text)
      → served env (deregister_ui env w name) q ≡ (served env w q && not (name =? q))
  unfolding deregister_ui
  served-deregister_ui w name q = elim (Option-cases w.ui) [
    | inl off ↦ ground (arith, off)
    | inr (dirs, on) ↦ ground (arith, on, lookup-delete dirs name q)
  ]

  -- Two states with the same rows, mounts and user interfaces.
  pub record Same (w w' : World env) : Type 0 where
    pub plugins : w.plugins ≡ w'.plugins
    pub router : w.router ≡ w'.router
    pub ui : w.ui ≡ w'.ui

  abbrev pub same : (w : World env) → Same w w
  same w = record { plugins = refl; router = refl; ui = refl }

  pub orphan-Same : (w w' : World env) (q : Text) → Same w w' → orphan env w' q ≡ orphan env w q
  orphan-Same w w' q s = ground (arith, s.plugins, s.router, s.ui)

  provision_manifest-Same :
      (w : World env) (name : Text) (m : Manifest) (has_ui : Bool)
      → Same w (provision_manifest env w name (m, has_ui)).0
  unfolding provision_manifest
  provision_manifest-Same w name m has_ui = record {
    plugins = ground arith;
    router = ground arith;
    ui = ground arith;
  }

  unpack-Same :
      (w : World env) (name : Text) (tarball : env.Tarball) → Same w (unpack env w name tarball).0
  unfolding unpack
  unpack-Same w name tarball = elim (Result-cases (env.extract tarball)) [
    | inl (msg, bad) ↦ rw (unpack, bad) (record { plugins = refl; router = refl; ui = refl })
    | inr ((bytes, has_ui), good) ↦ elim (Result-cases (env.parse_manifest bytes)) [
      | inl (msg, bad) ↦
          rw (unpack, good, bad) (record { plugins = refl; router = refl; ui = refl })
      | inr (m, fine) ↦
          let on_disk : World env = record w { disk = insert w.disk name has_ui } in
          let s = provision_manifest-Same on_disk name m has_ui in
          rw (unpack, good, fine) (record { plugins = s.plugins; router = s.router; ui = s.ui })
    ]
  ]

  pub fetch_verify_unpack_provision-Same :
      (w : World env) (name version id : Text)
      → Same w (fetch_verify_unpack_provision env w name version id).0
  unfolding fetch_verify_unpack_provision
  fetch_verify_unpack_provision-Same w name version id =
      elim (Result-cases (fetch_verified_tarball env name version id)) [
        | inl (e, bad) ↦ rw (fetch_verify_unpack_provision, bad) (same w)
        | inr (tarball, good) ↦
            let w' : World env = record w { disk = delete w.disk name } in
            let s = unpack-Same w' name tarball in
            rw (fetch_verify_unpack_provision, good)
              (record { plugins = s.plugins; router = s.router; ui = s.ui })
      ]

  pub mount_routes_rest :
      (w : World env) (name : Text) (routes : List ApiRoute)
      → ((mount_routes env w name routes).plugins ≡ w.plugins)
        × ((mount_routes env w name routes).ui ≡ w.ui)
  unfolding mount_routes
  mount_routes_rest w name [] = (refl, refl)
  mount_routes_rest w name (r ∷ rs) = ground arith

  pub register_ui_rest :
      (w : World env) (name : Text) (has_ui : Bool)
      → ((register_ui env w name has_ui).plugins ≡ w.plugins)
        × ((register_ui env w name has_ui).router ≡ w.router)
  unfolding register_ui
  register_ui_rest w name has_ui = ground arith

  pub unmount_routes_rest :
      (w : World env) (name : Text)
      → ((unmount_routes env w name).plugins ≡ w.plugins) × ((unmount_routes env w name).ui ≡ w.ui)
  unfolding unmount_routes
  unmount_routes_rest w name = ground arith

  pub deregister_ui_rest :
      (w : World env) (name : Text)
      → ((deregister_ui env w name).plugins ≡ w.plugins)
        × ((deregister_ui env w name).router ≡ w.router)
  unfolding deregister_ui
  deregister_ui_rest w name = ground arith

  pub run_deploy-Same : (w : World env) (m : Manifest) → Same w (run_deploy env w m).0
  unfolding run_deploy
  run_deploy-Same w m = record { plugins = ground arith; router = ground arith; ui = ground arith }
