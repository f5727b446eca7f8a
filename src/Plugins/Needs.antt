-- ===== src/Plugins/Needs.antt =====
-- internal/plugins/needs.go: the resources that a plugin needs are provisioned in order, and taken back in
-- reverse order. The systems behind them are an argument, `Provisioner`; a resource that is provisioned
-- again stays as it is, as each method is idempotent. What kind-specific block a need holds is its `body`.
pub mod Rollback
pub mod Runs
use mathlib.Core.List.{reverse}
use nova_nas.Base.{
  Bool, true, false, not, ◌&&◌, ◌||◌, Option, none, some, List, [], ◌∷◌, ◌++◌, Text, codes, text_eq,
  ◌=?◌, Eq, insert, delete, Result, ok, err, ◌≡◌, ◌↔◌, text_beq, text_beq_iff, arith, if◌then◌else◌,
}

abbrev pub need_dataset : Text
need_dataset = codes "dataset"

abbrev pub need_oidc_client : Text
need_oidc_client = codes "oidcClient"

abbrev pub need_tls_cert : Text
need_tls_cert = codes "tlsCert"

abbrev pub need_permission : Text
need_permission = codes "permission"

pub record Need : Type 0 where
  pub kind : Text
  pub body : Text

-- `provisionedResource`
pub record Resource : Type 0 where
  pub kind : Text
  pub id : Text

abbrev pub resource_beq : Resource → Resource → Bool
resource_beq a b = text_beq a.kind b.kind && text_beq a.id b.id

pub resource_beq_iff : (a b : Resource) → (resource_beq a b ≡ true) ↔ (a ≡ b)
resource_beq_iff a b = ground (arith, text_beq_iff a.kind b.kind, text_beq_iff a.id b.id)

instance abbrev pub resource_eq : Eq Resource
resource_eq = record { beq = resource_beq; beq_iff = resource_beq_iff }

-- The resources that exist outside.
abbrev pub Outside : Type 0
Outside = List (Resource × Unit {0})

-- Each answer is given from what exists, the plugin and the need or the resource. What is left after a resource
-- was to be taken back is the provisioner's too: with an error or without, it may be gone or there.
pub record Provisioner : Type 0 where
  pub provision : Outside → Text → Need → Result Text Text
  pub unprovision : Outside → Text → Resource → Outside × Option Text

unfoldable pub is_known : Text → Bool
is_known kind =
    kind =? need_dataset
    || kind =? need_oidc_client
    || kind =? need_tls_cert
    || kind =? need_permission

-- The error of a failed need, and those of the rollback after it.
pub record NeedsError : Type 0 where
  pub cause : Text
  pub rollback_errors : List Text

abbrev pub unknown_kind : Text
unknown_kind = codes "unknown kind"

-- One round of the loop of `rollbackNeeds`. A kind that is not known is passed over.
unfoldable pub unprovision_one : Provisioner → Text → Resource → Outside → Outside × Option Text
unprovision_one p plugin r out = if is_known r.kind then p.unprovision out plugin r else (out, none)

unfoldable pub rollback_each : Provisioner → Text → List Resource → Outside → Outside × List Text
rollback_each p plugin [] out = (out, [])
rollback_each p plugin (r ∷ rs) out =
    let (out', e) = unprovision_one p plugin r out in
    let (out'', es) = rollback_each p plugin rs out' in
    (out'', elim e [ none ↦ es | some msg ↦ msg ∷ es ])

-- `rollbackNeeds`, with the errors that it joins.
unfoldable pub rollback_needs : Provisioner → Text → List Resource → Outside → Outside × List Text
rollback_needs p plugin done out = rollback_each p plugin (reverse done) out

unfoldable pub provision_one : Provisioner → Text → Need → Outside → Result Text Text
provision_one p plugin n out =
    if is_known n.kind then p.provision out plugin n else err unknown_kind

-- The loop of `runNeeds`: what exists outside after it, what was provisioned, and the error.
unfoldable pub needs_loop :
    Provisioner
    → Text
    → List Need
    → List Resource
    → Outside
    → Outside × List Resource × Option NeedsError
needs_loop p plugin [] done out = (out, done, none)
needs_loop p plugin (n ∷ ns) done out = elim (provision_one p plugin n out) [
  | err e ↦
      let (out', es) = rollback_needs p plugin done out in
      (out', done, some (record { cause = e; rollback_errors = es }))
  | ok id ↦
      let r : Resource = record { kind = n.kind; id = id } in
      needs_loop p plugin ns (done ++ r ∷ []) (insert out r tt)
]

unfoldable pub run_needs :
    Provisioner → Text → List Need → Outside → Outside × List Resource × Option NeedsError
run_needs p plugin needs out = needs_loop p plugin needs [] out
