-- ===== src/Plugins/Lifecycle/Ranking.antt =====
-- When an install ends: dependencies without a cycle never wait for a lock that the same install holds.
use nova_nas.Base.{
  ◌≡◌, refl, ap, inl, inr, ℕ, zero, suc, ltb, ◌<◌, Bool, true, false, ◌&&◌, ◌||◌, some, List, [],
  ◌∷◌, Text, text_eq, text_beq_iff, ◌=?◌, contains, arith, Bool-cases, Option-cases, Result-cases,
  ok,
}
use nova_nas.Plugins.Dependencies.{PlanStep, plan}
use nova_nas.Plugins.Dependencies.Named.{all_good, all_fine, plan-fine}
use nova_nas.Plugins.Lifecycle.{
  Engine, World, Manifest, InstallRequest, manifest_for_planning, fetch_verify_unpack_provision,
}
use nova_nas.Plugins.Lifecycle.Install.{
  Outcome, installed, failed, blocked, out_of_fuel, install, install_deps, install_root,
  finish_install, refuses, plan_install, passes_over, ends_loop, resolver,
}

-- An install that returns, with a plugin or with an error.
abbrev pub returns : Outcome → Bool
returns (installed _) = true
returns (failed _) = true
returns blocked = false
returns out_of_fuel = false

module _ (rank : Text → ℕ) where
  -- A name, and the names of lower rank.
  abbrev pub at_most : Text → Text → Bool
  at_most name n = n =? name || ltb (rank n) (rank name)

  abbrev pub all_above : ℕ → List Text → Bool
  all_above k [] = true
  all_above k (n ∷ ns) = ltb k (rank n) && all_above k ns

  all_above-contains :
      (held : List Text) (name : Text)
      → all_above (rank name) held ≡ true
      → contains held name ≡ false
  unfolding contains
  all_above-contains [] name a = refl
  all_above-contains (n ∷ ns) name a = elim (Bool-cases (n =? name)) [
    | inl e ↦
        let same : (n ≡ name) = (text_beq_iff n name).0 e in
        absurd (ground (arith, a, ap rank same))
    | inr f ↦ ground (arith, a, f, all_above-contains ns name)
  ]

  all_above-less :
      (held : List Text) (j k : ℕ) → all_above k held ≡ true → j < k → all_above j held ≡ true
  all_above-less [] j k a l = refl
  all_above-less (n ∷ ns) j k a l = ground (arith, a, l, all_above-less ns j k)

  module _ (env : Engine) where
    -- The package of a plugin is named as it, or lower, and so are the dependencies to be installed.
    abbrev pub ranked : Text → Manifest → Bool
    ranked name m =
        at_most name m.meta.name && all_good env.semver (at_most name) m.meta.dependencies

    plan_install-fine :
        (w : World env) (req : InstallRequest) (steps : List PlanStep)
        → ((version id : Text) (m : Manifest)
            → manifest_for_planning env req.name version id ≡ ok m
            → ranked req.name m ≡ true)
        → plan_install env w req ≡ ok steps
        → all_fine env.semver (at_most req.name) steps ≡ true
    unfolding plan_install
    plan_install-fine w req steps low h =
        elim (Result-cases (manifest_for_planning env req.name req.version req.marketplace_id)) [
          | inl (e, bad) ↦ absurd (ground (arith, h, bad))
          | inr (m, good) ↦ elim (Result-cases (plan env.semver (resolver env w) (some m.meta))) [
            | inl (e, bad) ↦ absurd (ground (arith, h, good, bad))
            | inr (made, planned) ↦
                let r = low req.version req.marketplace_id m good in
                let f =
                  plan-fine env.semver (at_most req.name) (resolver env w) m.meta made planned
                    (ground (arith, r)) (ground (arith, r)) in
                ground (arith, h, good, planned, f)
          ]
        ]

    install_deps-returns :
        (run : World env → InstallRequest → World env × Outcome) (req : InstallRequest)
        (steps : List PlanStep) (w : World env) (out : Outcome)
        → ((v : World env) (r : InstallRequest)
            → ltb (rank r.name) (rank req.name) ≡ true
            → returns (run v r).1 ≡ true)
        → all_fine env.semver (at_most req.name) steps ≡ true
        → (install_deps env run req steps w).1 ≡ some out
        → returns out ≡ true
    unfolding install_deps passes_over ends_loop
    install_deps-returns run req [] w out lower f h = absurd (ground (arith, h))
    install_deps-returns run req (s ∷ ss) w out lower f h =
        elim (Bool-cases (passes_over env w req s)) [
          | inl over ↦
              install_deps-returns run req ss w out lower (ground (arith, f))
                (rw (install_deps, over) at h)
          | inr go ↦
              let asked : InstallRequest = record {
                name = s.name;
                version = s.version;
                marketplace_id = req.marketplace_id;
              } in
              let back = lower w asked (ground (arith, go, f)) in
              elim (Option-cases (ends_loop env s.name (run w asked).1)) [
                | inl on ↦
                    install_deps-returns run req ss (run w asked).0 out lower (ground (arith, f))
                      (rw (install_deps, go, on) at h)
                | inr (end, stop) ↦ ground (arith, stop, back, h, go)
              ]
        ]

    install_root-returns :
        (w : World env) (req : InstallRequest) (steps : List PlanStep)
        → returns (install_root env w req steps).1 ≡ true
    unfolding install_root finish_install
    install_root-returns w req steps =
        elim (Result-cases
          (fetch_verify_unpack_provision env w req.name req.version req.marketplace_id).1) [
            | inl (e, bad) ↦ ground (arith, bad)
            | inr ((m, has_ui, done), good) ↦ ground (arith, good)
          ]

    install-returns_under :
        (fuel : ℕ) (held : List Text) (w : World env) (req : InstallRequest)
        → ((name version id : Text) (m : Manifest)
            → manifest_for_planning env name version id ≡ ok m
            → ranked name m ≡ true)
        → all_above (rank req.name) held ≡ true
        → rank req.name < fuel
        → returns (install env fuel held w req).1 ≡ true
    unfolding install refuses
    install-returns_under zero held w req low a enough = absurd (ground (arith, enough))
    install-returns_under (suc fuel) held w req low a enough =
        elim (Option-cases (refuses env held w req)) [
          | inr (out, no_way) ↦ ground (arith, no_way, all_above-contains held req.name a)
          | inl accepted ↦ elim (Result-cases (plan_install env w req)) [
            | inl (e, bad) ↦ ground (arith, accepted, bad)
            | inr (steps, good) ↦
                let inner = install env fuel (req.name ∷ held) in
                let lower : ((v : World env) (r : InstallRequest)
                    → ltb (rank r.name) (rank req.name) ≡ true
                    → returns (inner v r).1 ≡ true) =
                  λ v r less.
                    install-returns_under fuel (req.name ∷ held) v r low
                      (ground (arith, less, all_above-less held (rank r.name) (rank req.name) a))
                      (ground (arith, less, enough)) in
                elim (Option-cases (install_deps env inner req steps w).1) [
                  | inl on ↦ ground (
                    arith,
                    accepted,
                    good,
                    on,
                    install_root-returns (install_deps env inner req steps w).0 req steps,
                  )
                  | inr (out, stop) ↦ ground (
                    arith,
                    accepted,
                    good,
                    stop,
                    install_deps-returns inner req steps w out lower
                        (plan_install-fine w req steps (low req.name) good) stop,
                  )
                ]
          ]
        ]

    -- Where every package is named as it was asked for, or lower, and depends only on plugins of lower rank,
    -- an install returns, with the plugin or with an error: no lock is waited for for ever, and the depth of
    -- the calls is at most the rank.
    pub install-returns :
        (w : World env) (req : InstallRequest)
        → ((name version id : Text) (m : Manifest)
            → manifest_for_planning env name version id ≡ ok m
            → ranked name m ≡ true)
        → returns (install env (suc (rank req.name)) [] w req).1 ≡ true
    install-returns w req low =
        install-returns_under (suc (rank req.name)) [] w req low refl (ground arith)
