-- ===== src/Csi/Maintenance.antt =====
-- internal/csi/controller.go: the controller's calls on volumes that exist and on snapshots.
use nova_nas.Base.{
  ℤ, Bool, true, false, ◌||◌, Option, none, some, List, [], ◌∷◌, Text, codes, text_eq, ◌=?◌, Result,
  ok, err, length, ◌==◌, if◌then◌else◌,
}
use nova_nas.Csi.VolumeId.{encode_snapshot_id, parse_volume_id, parse_snapshot_id}
use nova_nas.Csi.Volumes.{
  mount, block, unset, Capability, CapacityRange, VolumeKind, CsiError, invalid_argument,
  not_found_error, internal, Params, one_mib, classify, requested_capacity, round_up, Props, bytes,
  quota_props, Dataset, dataset_capacity, Volume, kind_context, access_mode_supported,
}
use nova_nas.Csi.Controller.{missing, other, Client, or_internal, removed, await_job}

-- The new capacity and whether the node has to grow a file system.
abbrev pub Expansion : Type 0
Expansion = ℤ × Bool

unfoldable pub is_mount : Option Capability → Bool
is_mount none = false
is_mount (some c) = elim c.access_type [ mount ↦ true | block ↦ false | unset ↦ false ]

module _ {S : Type 0} (client : Client S) where
  unfoldable pub set_size : S → Text → Props → Expansion → S × Result CsiError Expansion
  set_size s full props grown =
      let (s', outcome) = await_job client (client.set_dataset_props s full props) in
      (s', or_internal grown outcome)

  unfoldable pub expand_dataset :
      S → Text → ℤ → Option Capability → Dataset → S × Result CsiError Expansion
  expand_dataset s full capacity cap ds =
      if ds.dataset_type =? codes "filesystem"
      then set_size s full (quota_props (round_up capacity one_mib) [])
          (round_up capacity one_mib, false)
      else if ds.dataset_type =? codes "volume"
      then set_size s full ((codes "volsize", bytes capacity) ∷ []) (capacity, is_mount cap)
      else (s, err internal)

  unfoldable pub expand_volume :
      S → Text → Option CapacityRange → Option Capability → S × Result CsiError Expansion
  expand_volume s id range cap = elim (parse_volume_id id) as (λ _. S × Result CsiError Expansion) [
    | err e ↦ (s, err invalid_argument)
    | ok v ↦ elim (client.get_dataset s v.full) as (λ _. S × Result CsiError Expansion) [
      | err missing ↦ (s, err not_found_error)
      | err other ↦ (s, err internal)
      | ok ds ↦ expand_dataset s v.full (requested_capacity range) cap ds
    ]
  ]

  unfoldable pub get_volume : S → Text → Result CsiError Volume
  get_volume s id = elim (parse_volume_id id) as (λ _. Result CsiError Volume) [
    | err e ↦ err invalid_argument
    | ok v ↦ elim (client.get_dataset s v.full) as (λ _. Result CsiError Volume) [
      | err missing ↦ err not_found_error
      | err other ↦ err internal
      | ok ds ↦ ok (record {
        volume_id = v.full;
        capacity_bytes = dataset_capacity ds;
        volume_context = kind_context ds.dataset_type ∷ [];
      })
    ]
  ]

  -- The id of the new snapshot, and the volume it is of.
  unfoldable pub create_snapshot : S → Text → Text → S × Result CsiError (Text × Text)
  create_snapshot s name source =
      let made = elim (parse_volume_id source) as (λ _. S × Result CsiError (Text × Text)) [
        | err e ↦ (s, err invalid_argument)
        | ok v ↦
            let (s', outcome) = await_job client (client.create_snapshot s v.full name) in
            (s', or_internal (encode_snapshot_id v.full name, v.full) outcome)
      ] in
      if length name == 0 then (s, err invalid_argument) else made

  unfoldable pub delete_snapshot : S → Text → S × Result CsiError (Unit {0})
  delete_snapshot s id =
      let parsed = elim (parse_snapshot_id id) as (λ _. S × Result CsiError (Unit {0})) [
        | err e ↦ (s, err invalid_argument)
        | ok v ↦
            let (s', outcome) = await_job client (client.destroy_snapshot s id) in
            (s', removed outcome)
      ] in
      if length id == 0 then (s, err invalid_argument) else parsed

unfoldable pub all_modes_supported : VolumeKind → List Capability → Bool
all_modes_supported kind [] = true
all_modes_supported kind (c ∷ cs) =
    let rest = all_modes_supported kind cs in
    if access_mode_supported kind c.mode then rest else false

-- `some` with what is confirmed, or with nothing where the answer is a message.
unfoldable pub validate_capabilities :
    Text → List Capability → Params → Result CsiError (Option (List Capability))
validate_capabilities id caps params =
    let checked = elim (classify caps params) as (λ _. Option (List Capability)) [
      | err e ↦ none
      | ok kind ↦ if all_modes_supported kind caps then some caps else none
    ] in
    if length id == 0 || length caps == 0 then err invalid_argument else ok checked
