-- ===== src/Plugins/Lifecycle/Undo.antt =====
-- What the rollback of a deployment that failed restores.
use nova_nas.Base.{
  ◌≡◌, refl, sym, inl, inr, Bool, false, not, ◌&&◌, none, List, [], ◌∷◌, Text, text_eq,
  text_beq_iff, ◌=?◌, insert, lookup, lookup-insert, lookup-delete, if◌then◌else◌, arith,
  Bool-cases, Option-cases,
}
use nova_nas.Plugins.Router.{ApiRoute, is_mounted, mount, proxies}
use nova_nas.Plugins.Needs.{Resource, resource_eq, Outside}
use nova_nas.Plugins.Needs.Rollback.{Removes}
use nova_nas.Plugins.Lifecycle.{
  Engine, World, Row, Manifest, mount_routes, unmount_routes, register_ui, deregister_ui,
  run_deploy, roll_back,
}
use nova_nas.Plugins.Lifecycle.Install.{go_live, undo_install}
use nova_nas.Plugins.Lifecycle.Leftovers.{NotNew, Provisioned, rolled_back}
use nova_nas.Plugins.Lifecycle.Consistency.{mounted, served, orphan}
use nova_nas.Plugins.Lifecycle.Consistency.Parts.{
  mounted-unmount_routes, served-deregister_ui, mount_routes_rest, register_ui_rest,
  unmount_routes_rest, deregister_ui_rest, run_deploy-Same,
}

module _ (env : Engine) where
  pub mount_routes-outside :
      (w : World env) (name : Text) (routes : List ApiRoute)
      → (mount_routes env w name routes).outside ≡ w.outside
  unfolding mount_routes
  mount_routes-outside w name [] = refl
  mount_routes-outside w name (x ∷ xs) = ground arith

  pub go_live-outside :
      (w : World env) (name : Text) (row : Row) (m : Manifest) (has_ui : Bool)
      → (go_live env w name row m has_ui).outside ≡ w.outside
  unfolding go_live register_ui
  go_live-outside w name row m has_ui =
      ground (
        arith,
        mount_routes-outside (record w { plugins = insert w.plugins name row }) name m.routes,
      )

  pub mount_routes_other :
      (w : World env) (name q : Text) (routes : List ApiRoute)
      → (name =? q) ≡ false
      → mounted env (mount_routes env w name routes) q ≡ mounted env w q
  unfolding mount_routes mount is_mounted
  mount_routes_other w name q [] other = refl
  mount_routes_other w name q (x ∷ xs) other = elim (Option-cases w.router) [
    | inl off ↦ ground (arith, off)
    | inr (mounts, on) ↦ elim (Option-cases (proxies env.urls (x ∷ xs))) [
      | inl bad ↦ ground (arith, on, bad)
      | inr (ps, good) ↦ ground (arith, on, good, other, lookup-insert mounts name q ps)
    ]
  ]

  pub register_ui_other :
      (w : World env) (name q : Text) (has_ui : Bool)
      → (name =? q) ≡ false
      → served env (register_ui env w name has_ui) q ≡ served env w q
  unfolding register_ui
  register_ui_other w name q has_ui other = elim (Option-cases w.ui) [
    | inl off ↦ ground (arith, off)
    | inr (dirs, on) ↦ ground (arith, on, other, lookup-insert dirs name q name)
  ]

  pub run_deploy-outside :
      (w : World env) (m : Manifest) → (run_deploy env w m).0.outside ≡ w.outside
  unfolding run_deploy
  run_deploy-outside w m = ground arith

  -- Two states that serve a plugin alike and have the same row for it.
  abbrev pub Alike : World env → World env → Text → Type 0
  Alike w w' q =
      (lookup w'.plugins q ≡ lookup w.plugins q)
      × (mounted env w' q ≡ mounted env w q)
      × (served env w' q ≡ served env w q)

  pub go_live_other :
      (w : World env) (name q : Text) (row : Row) (m : Manifest) (has_ui : Bool)
      → (name =? q) ≡ false
      → Alike w (go_live env w name row m has_ui) q
  unfolding go_live
  go_live_other w name q row m has_ui other =
      let w1 : World env = record w { plugins = insert w.plugins name row } in
      let w2 = mount_routes env w1 name m.routes in
      ground (
        arith,
        other,
        lookup-insert w.plugins name q row,
        mount_routes_other w1 name q m.routes other,
        mount_routes_rest env w1 name m.routes,
        register_ui_other w2 name q has_ui other,
        register_ui_rest env w2 name has_ui,
      )

  pub undo_install_lem :
      (w : World env) (name q : Text) (made : List Resource)
      → env.delete_fails name ≡ none
      → (lookup (undo_install env w name made).plugins q
          ≡ (if name =? q then none else lookup w.plugins q))
        × (mounted env (undo_install env w name made) q ≡ (mounted env w q && not (name =? q)))
        × (served env (undo_install env w name made) q ≡ (served env w q && not (name =? q)))
  unfolding undo_install
  undo_install_lem w name q made deletes =
      let w1 = unmount_routes env w name in
      ground (
        arith,
        deletes,
        mounted-unmount_routes env w name q,
        unmount_routes_rest env w name,
        served-deregister_ui env w1 name q,
        deregister_ui_rest env w1 name,
        lookup-delete w.plugins name q,
      )

  pub undo_install-NotNew :
      {name : Text} {r : Resource} (removes : Removes env.provisioner name r) (out : Outside)
      (w : World env) (made : List Resource)
      → Provisioned env removes out w made
      → NotNew env removes out (undo_install env w name made)
  unfolding undo_install unmount_routes deregister_ui
  undo_install-NotNew {name = name} removes out w made p =
      let w' = undo_install env w name made in
      let back = rolled_back env removes out w made p in
      let same : (w'.outside ≡ (roll_back env w name made).outside) = ground arith in
      elim back [ inl e ↦ inl (rw same e) | inr e ↦ inr (rw same e) ]

  -- A deployment that is undone leaves what was served before.
  pub undo_install-Alike :
      (w : World env) (name q : Text) (row : Row) (m : Manifest) (has_ui : Bool)
      (made : List Resource)
      → env.delete_fails name ≡ none
      → lookup w.plugins name ≡ none
      → orphan env w name ≡ false
      → Alike w
          (undo_install env (run_deploy env (go_live env w name row m has_ui) m).0 name made)
          q
  undo_install-Alike w name q row m has_ui made deletes new no_orphan =
      let live = go_live env w name row m has_ui in
      let deployed = (run_deploy env live m).0 in
      let s = run_deploy-Same env live m in
      let undone = undo_install_lem deployed name q made deletes in
      elim (Bool-cases (name =? q)) [
        | inl own ↦
            let same : (name ≡ q) = (text_beq_iff name q).0 own in
            let new' : (lookup w.plugins q ≡ none) = rw (sym same) new in
            let quiet : (orphan env w q ≡ false) = rw (sym same) no_orphan in
            ground (arith, own, new', quiet, undone)
        | inr other ↦ ground (
          arith,
          other,
          undone,
          s.plugins,
          s.router,
          s.ui,
          go_live_other w name q row m has_ui other,
        )
      ]
