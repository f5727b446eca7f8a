-- ===== src/Plugins/Lifecycle/Failure.antt =====
-- What an `Install` that fails after its dependencies leaves behind.
use nova_nas.Base.{
  ◌≡◌, refl, ◌∙◌, inl, inr, Bool, false, none, List, Text, text_eq, lookup, arith, Option-cases,
  Result-cases, Result, ok, err,
}
use nova_nas.Plugins.Dependencies.{PlanStep}
use nova_nas.Plugins.Needs.{Resource, resource_eq, Outside}
use nova_nas.Plugins.Needs.Rollback.{Removes}
use nova_nas.Plugins.Lifecycle.{
  Engine, World, Row, Manifest, EngineError, InstallRequest, fetch_verify_unpack_provision,
  run_deploy, recorded, status_installed,
}
use nova_nas.Plugins.Lifecycle.Install.{
  install_root, finish_install, go_live, failed, installed, blocked, out_of_fuel, Outcome,
}
use nova_nas.Plugins.Lifecycle.Leftovers.{
  Fetched, NotNew, Provisioned, rolled_back, fetch_verify_unpack_provision-Fetched,
}
use nova_nas.Plugins.Lifecycle.Consistency.{orphan}
use nova_nas.Plugins.Lifecycle.Consistency.Parts.{
  run_deploy-Same, Same, orphan-Same, fetch_verify_unpack_provision-Same,
}
use nova_nas.Plugins.Lifecycle.Undo.{
  go_live-outside, run_deploy-outside, Alike, undo_install-NotNew, undo_install-Alike,
}

module _ (env : Engine) where
  -- What the last part of an install leaves when it fails.
  abbrev Undone :
      {name : Text} {r : Resource}
      → Removes env.provisioner name r
      → Outside
      → World env
      → World env × Outcome
      → Text
      → Type 0
  Undone removes out w (w', failed _) q = NotNew env removes out w' × Alike env w w' q
  Undone removes out w (w', _) q = Unit

  finish_install-Undone :
      {name : Text} {r : Resource} (removes : Removes env.provisioner name r) (out : Outside)
      (w : World env) (q : Text) (steps : List PlanStep) (m : Manifest) (has_ui : Bool)
      (made : List Resource)
      → Provisioned env removes out w made
      → env.delete_fails name ≡ none
      → lookup w.plugins name ≡ none
      → orphan env w name ≡ false
      → Undone removes out w (finish_install env w name steps (m, has_ui, made)) q
  unfolding finish_install
  finish_install-Undone {name = name} removes out w q steps m has_ui made p deletes new no_orphan =
      let back = rolled_back env removes out w made p in
      elim (Result-cases (env.marshal m)) [
        | inl (msg, bad) ↦ rw (finish_install, bad) (back, (refl, refl, refl))
        | inr (json, good) ↦ elim (Option-cases (env.create_fails name)) [
          | inr (msg, bad) ↦ rw (finish_install, good, bad) (back, (refl, refl, refl))
          | inl created ↦
              let row : Row = record {
                version = m.meta.version;
                manifest = json;
                status = status_installed;
                resources = recorded env made;
              } in
              let live = go_live env w name row m has_ui in
              let deployed = (run_deploy env live m).0 in
              elim (Option-cases (run_deploy env live m).1) [
                | inl up ↦ rw (finish_install, good, created, up) tt
                | inr (msg, down) ↦
                    let s = run_deploy-Same env live m in
                    let there : Provisioned env removes out deployed made = (
                      p.0,
                      ground (
                        arith,
                        p.1,
                        run_deploy-outside env live m,
                        go_live-outside env w name row m has_ui,
                      ),
                    ) in
                    rw (finish_install, good, created, down)
                      (
                        undo_install-NotNew env removes out deployed made there,
                        undo_install-Alike env w name q row m has_ui made deletes new no_orphan,
                      )
              ]
        ]
      ]

  Undone-Same :
      {name : Text} {r : Resource} (removes : Removes env.provisioner name r) (out : Outside)
      (w w1 : World env) (q : Text) (x : World env × Outcome)
      → Same env w w1
      → Undone removes out w1 x q
      → Undone removes out w x q
  Undone-Same removes out w w1 q (w', failed e) s (p, a) =
      (p, ground (arith, a, s.plugins, s.router, s.ui))
  Undone-Same removes out w w1 q (w', installed _) s u = tt
  Undone-Same removes out w w1 q (w', blocked) s u = tt
  Undone-Same removes out w w1 q (w', out_of_fuel) s u = tt

  Fetched-Undone :
      {name : Text} {r : Resource} (removes : Removes env.provisioner name r) (w : World env)
      (q : Text) (steps : List PlanStep)
      (u : World env × Result EngineError (Manifest × Bool × List Resource))
      → Fetched env removes w.outside u
      → Same env w u.0
      → env.delete_fails name ≡ none
      → lookup w.plugins name ≡ none
      → orphan env w name ≡ false
      → Undone removes w.outside w
          (elim u.1 as (λ _. World env × Outcome) [
            | err e ↦ (u.0, failed e)
            | ok unpacked ↦ finish_install env u.0 name steps unpacked
          ])
          q
  Fetched-Undone {name = name} removes w q steps (w1, err e) f s deletes new no_orphan =
      (f, ground (arith, s.plugins, s.router, s.ui))
  Fetched-Undone {name = name} removes w q steps (w1, ok (m, has_ui, made)) f s deletes new
        no_orphan =
      Undone-Same removes w.outside w w1 q (finish_install env w1 name steps (m, has_ui, made)) s (
        finish_install-Undone removes w.outside w1 q steps m has_ui made f deletes
          (ground (arith, new, s.plugins)) (orphan-Same env w w1 name s ∙ no_orphan))

  install_root-Undone :
      {r : Resource} (req : InstallRequest) (removes : Removes env.provisioner req.name r)
      (w : World env) (q : Text) (steps : List PlanStep)
      → env.delete_fails req.name ≡ none
      → lookup w.plugins req.name ≡ none
      → orphan env w req.name ≡ false
      → Undone removes w.outside w (install_root env w req steps) q
  unfolding install_root
  install_root-Undone req removes w q steps deletes new no_orphan =
      Fetched-Undone removes w q steps
        (fetch_verify_unpack_provision env w req.name req.version req.marketplace_id)
        (fetch_verify_unpack_provision-Fetched env removes w req.version req.marketplace_id)
        (fetch_verify_unpack_provision-Same env w req.name req.version req.marketplace_id) deletes
        new no_orphan

  pub install_root-failed :
      {r : Resource} (w w' : World env) (req : InstallRequest)
      (removes : Removes env.provisioner req.name r) (q : Text) (steps : List PlanStep)
      (e : EngineError)
      → env.delete_fails req.name ≡ none
      → lookup w.plugins req.name ≡ none
      → orphan env w req.name ≡ false
      → install_root env w req steps ≡ (w', failed e)
      → NotNew env removes w.outside w' × Alike env w w' q
  install_root-failed w w' req removes q steps e deletes new no_orphan h =
      rw h at (install_root-Undone req removes w q steps deletes new no_orphan)
