-- ===== src/Plugins/Lifecycle/Leftovers.antt =====
-- What a rollback leaves of the resources that an install provisions.
use nova_nas.Base.{
  ◌≡◌, refl, ap, inl, inr, Bool, some, List, Text, text_eq, ◌=?◌, insert, delete, lookup, contains,
  if◌then◌else◌, arith, Bool-cases, Option-cases, Result-cases, Result, ok, err,
}
use nova_nas.Plugins.Needs.{Resource, resource_eq, Outside, run_needs}
use nova_nas.Plugins.Needs.Rollback.{
  AllKnown, Removes, GoneOrSame, GoneOrSame-trans, rollback_needs_lem,
}
use nova_nas.Plugins.Needs.Runs.{run_needs_failed, run_needs_ok, run_needs-AllKnown}
use nova_nas.Plugins.Lifecycle.{
  Engine, World, Manifest, EngineError, fetch_verify_unpack_provision, unpack, provision_manifest,
  fetch_verified_tarball, roll_back,
}

module _ (env : Engine) {name : Text} {r : Resource}
    (removes : Removes env.provisioner name r) where
  -- A resource is as it was or gone.
  abbrev pub NotNew : Outside → World env → Type 0
  NotNew out w = GoneOrSame r out w.outside

  -- What was provisioned on the way to a state is known and there, and all else is as it was.
  abbrev pub Provisioned : Outside → World env → List Resource → Type 0
  Provisioned out w made =
      AllKnown made × (lookup w.outside r ≡ (if contains made r then some tt else lookup out r))

  -- Both outcomes of the part that provisions.
  abbrev pub Fetched :
      Outside → World env × Result EngineError (Manifest × Bool × List Resource) → Type 0
  Fetched out (w, err _) = NotNew out w
  Fetched out (w, ok (_, _, made)) = Provisioned out w made

  provision_manifest-Fetched :
      (w : World env) (m : Manifest) (has_ui : Bool)
      → Fetched w.outside (provision_manifest env w name (m, has_ui))
  unfolding provision_manifest
  provision_manifest-Fetched w m has_ui =
      let run = run_needs env.provisioner name m.needs w.outside in
      elim (Bool-cases (m.meta.name =? name)) [
        | inr other ↦ rw (provision_manifest, other) (inr refl)
        | inl own ↦ elim (Option-cases run.2) [
          | inl fine ↦
              rw (provision_manifest, own, fine)
                (
                  run_needs-AllKnown env.provisioner name m.needs w.outside,
                  run_needs_ok env.provisioner name m.needs w.outside run.0 run.1 r
                      (ap (λ x. (run.0, run.1, x)) fine),
                )
          | inr (e, bad) ↦
              rw (provision_manifest, own, bad)
                (run_needs_failed env.provisioner name removes m.needs w.outside run.0 run.1 e
                  (ap (λ x. (run.0, run.1, x)) bad))
        ]
      ]

  unpack-Fetched :
      (w : World env) (tarball : env.Tarball) → Fetched w.outside (unpack env w name tarball)
  unfolding unpack
  unpack-Fetched w tarball = elim (Result-cases (env.extract tarball)) [
    | inl (msg, bad) ↦ rw (unpack, bad) (inr refl)
    | inr ((bytes, has_ui), good) ↦ elim (Result-cases (env.parse_manifest bytes)) [
      | inl (msg, bad) ↦ rw (unpack, good, bad) (inr refl)
      | inr (m, fine) ↦
          let on_disk : World env = record w { disk = insert w.disk name has_ui } in
          rw (unpack, good, fine) (provision_manifest-Fetched on_disk m has_ui)
    ]
  ]

  pub fetch_verify_unpack_provision-Fetched :
      (w : World env) (version id : Text)
      → Fetched w.outside (fetch_verify_unpack_provision env w name version id)
  unfolding fetch_verify_unpack_provision
  fetch_verify_unpack_provision-Fetched w version id =
      elim (Result-cases (fetch_verified_tarball env name version id)) [
        | inl (e, bad) ↦ rw (fetch_verify_unpack_provision, bad) (inr refl)
        | inr (tarball, good) ↦
            rw (fetch_verify_unpack_provision, good)
              (unpack-Fetched (record w { disk = delete w.disk name }) tarball)
      ]

  pub rolled_back :
      (out : Outside) (w : World env) (made : List Resource)
      → Provisioned out w made
      → NotNew out (roll_back env w name made)
  rolled_back out w made (known, there) =
      let (left, own) = rollback_needs_lem removes made w.outside known in
      elim (Bool-cases (contains made r)) [
        | inl c ↦ inl (own c)
        | inr c ↦
            GoneOrSame-trans r out w.outside (roll_back env w name made).outside
              (inr (ground (arith, there, c))) left
      ]
