-- ===== src/Plugins/Needs/Runs.antt =====
-- `runNeeds` on both of its branches.
use nova_nas.Base.{
  ◌≡◌, refl, sym, inl, inr, true, false, not, ◌&&◌, Option, none, some, List, [], ◌∷◌, ◌++◌, Text,
  insert, lookup, contains, contains-append, ok, Bool-cases, Result-cases, lookup-insert,
  if◌then◌else◌, arith,
}
use nova_nas.Plugins.Needs.{
  rollback_needs, Need, Resource, resource_eq, resource_beq_iff, Outside, Provisioner, is_known,
  NeedsError, provision_one, needs_loop, run_needs,
}
use nova_nas.Plugins.Needs.Rollback.{
  AllKnown, AllKnown-append, Removes, GoneOrSame, GoneOrSame-trans, rollback_needs_lem,
}

provision_one_known :
    (p : Provisioner) (plugin : Text) (n : Need) (out : Outside) (id : Text)
    → provision_one p plugin n out ≡ ok id
    → is_known n.kind ≡ true
unfolding provision_one
provision_one_known p plugin n out id h = ground arith

module _ (p : Provisioner) (plugin : Text) {r : Resource} (removes : Removes p plugin r) where
  -- What is outside when a need fails, where the resources provisioned so far are there and the rest is as it was.
  needs_loop_failed :
      (ns : List Need) (done : List Resource) (out0 out out' : Outside) (done' : List Resource)
      (e : NeedsError)
      → AllKnown done
      → lookup out r ≡ (if contains done r then some tt else lookup out0 r)
      → needs_loop p plugin ns done out ≡ (out', done', some e)
      → GoneOrSame r out0 out'
  unfolding needs_loop
  needs_loop_failed [] done out0 out out' done' e known held h = absurd (ground (arith, h))
  needs_loop_failed (n ∷ ns) done out0 out out' done' e known held h =
      elim (Result-cases (provision_one p plugin n out)) [
        | inl (msg, failed) ↦
            let back = (rollback_needs p plugin done out).0 in
            let same : (back ≡ out') = ground (arith, failed, h) in
            let (left, own) = rollback_needs_lem removes done out known in
            let after : GoneOrSame r out0 back = elim (Bool-cases (contains done r)) [
              | inl c ↦ inl (own c)
              | inr c ↦ GoneOrSame-trans r out0 out back (inr (ground (arith, held, c))) left
            ] in
            rw same at after
        | inr (id, fine) ↦
            let x : Resource = record { kind = n.kind; id = id } in
            let known' =
              AllKnown-append done (x ∷ []) known
                (provision_one_known p plugin n out id fine, tt) in
            needs_loop_failed ns (done ++ x ∷ []) out0 (insert out x tt) out' done' e known'
              (unfold contains in
                ground (
                  arith,
                  held,
                  contains-append done (x ∷ []) r,
                  lookup-insert out x r tt,
                  resource_beq_iff x r,
                ))
              (rw (needs_loop, fine) at h)
      ]

  -- When a need fails, a resource that can be taken back is as it was before or gone: gone if the run provisioned it,
  -- also where it existed before.
  pub run_needs_failed :
      (needs : List Need) (out out' : Outside) (done : List Resource) (e : NeedsError)
      → run_needs p plugin needs out ≡ (out', done, some e)
      → GoneOrSame r out out'
  unfolding run_needs contains
  run_needs_failed needs out out' done e h =
      needs_loop_failed needs [] out out out' done e tt refl h

needs_loop_ok :
    (p : Provisioner) (plugin : Text) (ns : List Need) (done : List Resource) (out out' : Outside)
    (done' : List Resource) (r : Resource)
    → needs_loop p plugin ns done out ≡ (out', done', none)
    → (lookup out r ≡ (if contains done r then some tt else lookup out r))
    → (lookup out' r ≡ (if contains done' r then some tt else lookup out r))
      × ((contains done r && not (contains done' r)) ≡ false)
unfolding needs_loop contains
needs_loop_ok p plugin [] done out out' done' r h held = ground (arith, h)
needs_loop_ok p plugin (n ∷ ns) done out out' done' r h held =
    elim (Result-cases (provision_one p plugin n out)) [
      | inl (msg, failed) ↦ absurd (ground (arith, failed, h))
      | inr (id, fine) ↦
          let x : Resource = record { kind = n.kind; id = id } in
          let later =
            needs_loop_ok p plugin ns (done ++ x ∷ []) (insert out x tt) out' done' r
              (rw (needs_loop, fine) at h)
              (ground (
                arith,
                held,
                contains-append done (x ∷ []) r,
                lookup-insert out x r tt,
                resource_beq_iff x r,
              )) in
          ground (
            arith,
            later,
            contains-append done (x ∷ []) r,
            lookup-insert out x r tt,
            resource_beq_iff x r,
          )
    ]

-- When no need fails, what exists outside is what existed before and the resources provisioned.
pub run_needs_ok :
    (p : Provisioner) (plugin : Text) (needs : List Need) (out out' : Outside)
    (done : List Resource) (r : Resource)
    → run_needs p plugin needs out ≡ (out', done, none)
    → lookup out' r ≡ (if contains done r then some tt else lookup out r)
unfolding run_needs contains lookup
run_needs_ok p plugin needs out out' done r h =
    (needs_loop_ok p plugin needs [] out out' done r h refl).0

needs_loop_known :
    (p : Provisioner) (plugin : Text) (ns : List Need) (done : List Resource) (out out' : Outside)
    (done' : List Resource) (e : Option NeedsError)
    → AllKnown done
    → needs_loop p plugin ns done out ≡ (out', done', e)
    → AllKnown done'
unfolding needs_loop
needs_loop_known p plugin [] done out out' done' e known h =
    let same : (done ≡ done') = ground (arith, h) in rw (sym same) known
needs_loop_known p plugin (n ∷ ns) done out out' done' e known h =
    elim (Result-cases (provision_one p plugin n out)) [
      | inl (msg, failed) ↦
          let same : (done ≡ done') = ground (arith, failed, h) in rw (sym same) known
      | inr (id, fine) ↦
          let x : Resource = record { kind = n.kind; id = id } in
          needs_loop_known p plugin ns (done ++ x ∷ []) (insert out x tt) out' done' e
            (AllKnown-append done (x ∷ []) known (provision_one_known p plugin n out id fine, tt))
            (rw (needs_loop, fine) at h)
    ]

-- Only resources of known kinds are provisioned.
pub run_needs-AllKnown :
    (p : Provisioner) (plugin : Text) (needs : List Need) (out : Outside)
    → AllKnown (run_needs p plugin needs out).1
unfolding run_needs
run_needs-AllKnown p plugin needs out = needs_loop_known p plugin needs [] out _ _ _ tt refl
