-- ===== src/Csi/Controller.antt =====
-- internal/csi/controller.go: the controller's calls, over the client of the appliance's API. The state `S` is
-- what the appliance keeps; a call that starts a job answers with the job's id.
pub mod Idempotent
use nova_nas.Base.{
  ℤ, Bool, true, false, not, ◌&&◌, ◌||◌, Option, none, some, List, [], ◌∷◌, ◌++◌, Text, codes,
  text_eq, ◌=?◌, Result, ok, err, length, ◌==◌, if◌then◌else◌,
}
use nova_nas.Csi.VolumeId.{
  VolumeId, SnapshotId, IdError, encode_volume_id, parse_volume_id, encode_snapshot_id,
  parse_snapshot_id,
}
use nova_nas.Csi.Volumes.{
  AccessType, mount, Capability, CapacityRange, VolumeKind, filesystem, zvol, nfs, CsiError,
  invalid_argument, not_found_error, already_exists, internal, Params, param, param_pool,
  param_parent, param_nfs_clients, param_mount_options, one_mib, classify, requested_capacity,
  round_up, rounded, zfs_type, Props, PropValue, bytes, quota_props, build_props, Dataset,
  size_compatible, dataset_capacity, Volume, first_non_empty, build_volume, dataset_subpath,
  extract_pool, build_nfs_client_rules, access_mode_supported,
}

-- `IsNotFound` tells the two apart.
pub data ApiError : Type 0 where
  missing other : ApiError

pub record DatasetSpec : Type 0 where
  pub parent : Text
  pub name : Text
  pub dataset_type : Text
  pub properties : Props
  pub volume_size_bytes : Option ℤ

pub record ShareSpec : Type 0 where
  pub name : Text
  pub pool : Text
  pub dataset_name : Text
  pub protocols : List Text
  pub quota_bytes : ℤ
  pub nfs_clients : List Text

abbrev pub Started : Type 0 → Type 0
Started S = S × Result ApiError Text

-- `NovaNASClient`. A share is asked for by its name, its pool and its dataset.
pub record Client (S : Type 0) : Type 0 where
  pub get_dataset : S → Text → Result ApiError Dataset
  pub create_dataset : S → DatasetSpec → Started S
  pub destroy_dataset : S → Text → Started S
  pub set_dataset_props : S → Text → Props → Started S
  pub create_snapshot : S → Text → Text → Started S
  pub destroy_snapshot : S → Text → Started S
  pub create_share : S → ShareSpec → Started S
  pub has_share : S → Text → Text → Text → Result ApiError (Unit {0})
  pub delete_share : S → Text → Text → Text → Started S
  pub wait_job : S → Text → S × Bool

pub record Config : Type 0 where
  pub default_pool : Text
  pub default_parent : Text
  pub nfs_server : Text
  pub default_nfs_clients : Text
  pub default_nfs_mount_options : Text

pub record CreateRequest : Type 0 where
  pub name : Text
  pub capabilities : List Capability
  pub parameters : Params
  pub capacity_range : Option CapacityRange

unfoldable pub resolved_parent : Config → Text → Text
resolved_parent cfg pool =
    let p = first_non_empty pool cfg.default_pool in
    if not (length cfg.default_parent == 0)
    then cfg.default_parent
    else if length p == 0
    then []
    else p ++ codes "/csi"

pub data JobOutcome : Type 0 where
  done : JobOutcome
  not_started : ApiError → JobOutcome
  not_done : JobOutcome

-- An error on any of the steps of a job is internal.
unfoldable pub or_internal : {A : Type 0} → A → JobOutcome → Result CsiError A
or_internal a done = ok a
or_internal a (not_started e) = err internal
or_internal a not_done = err internal

-- What is removed may be gone already.
unfoldable pub removed : JobOutcome → Result CsiError (Unit {0})
removed done = ok tt
removed (not_started missing) = ok tt
removed (not_started other) = err internal
removed not_done = err internal

unfoldable pub volume_size : VolumeKind → ℤ → Option ℤ
volume_size zvol capacity = some capacity
volume_size filesystem capacity = none
volume_size nfs capacity = none

unfoldable pub spec_of : VolumeKind → Text → Text → Params → ℤ → DatasetSpec
spec_of kind parent leaf params capacity = record {
  parent = parent;
  name = leaf;
  dataset_type = zfs_type kind;
  properties = build_props kind params capacity;
  volume_size_bytes = volume_size kind capacity;
}

-- The dataset is there: it is taken when its type and its size fit.
unfoldable pub take_existing : VolumeKind → Text → Params → ℤ → Dataset → Result CsiError Volume
take_existing kind full params capacity ds =
    if not (ds.dataset_type =? zfs_type kind)
    then err already_exists
    else if not (size_compatible ds kind capacity)
    then err already_exists
    else ok (build_volume full capacity kind params)

unfoldable pub build_nfs_volume : Config → Text → ℤ → Params → Text → Volume
build_nfs_volume cfg id capacity params ds_name = record {
  volume_id = id;
  capacity_bytes = capacity;
  volume_context =
      (codes "volumeKind", codes "nfs")
      ∷ (codes "nfsServer", cfg.nfs_server)
      ∷ (codes "nfsPath", b'/' ∷ (extract_pool id ++ (b'/' ∷ ds_name)))
      ∷ (
        codes "mountOptions",
        first_non_empty (param params param_mount_options) cfg.default_nfs_mount_options,
      )
      ∷ [];
}

unfoldable pub share_spec : Config → Text → Text → Text → Params → ℤ → ShareSpec
share_spec cfg pool leaf ds_name params capacity = record {
  name = leaf;
  pool = pool;
  dataset_name = ds_name;
  protocols = codes "nfs" ∷ [];
  quota_bytes = capacity;
  nfs_clients =
      build_nfs_client_rules
        (first_non_empty (param params param_nfs_clients) cfg.default_nfs_clients);
}

module _ {S : Type 0} (client : Client S) where
  -- `WaitJob` on a job that was started.
  unfoldable pub await_job : Started S → S × JobOutcome
  await_job (s, err e) = (s, not_started e)
  await_job (s, ok id) =
      let (s', fine) = client.wait_job s id in (s', if fine then done else not_done)

  unfoldable pub provision :
      S → VolumeKind → Text → Text → Text → Params → ℤ → S × Result CsiError Volume
  provision s kind parent leaf full params capacity =
      let (s', outcome) =
        await_job (client.create_dataset s (spec_of kind parent leaf params capacity)) in
      (s', or_internal (build_volume full capacity kind params) outcome)

  unfoldable pub create_dataset_volume :
      S → VolumeKind → Text → Text → Text → Params → ℤ → S × Result CsiError Volume
  create_dataset_volume s kind parent leaf full params capacity =
      elim (client.get_dataset s full) as (λ _. S × Result CsiError Volume) [
        | ok ds ↦ (s, take_existing kind full params capacity ds)
        | err other ↦ (s, err internal)
        | err missing ↦ provision s kind parent leaf full params capacity
      ]

  module _ (cfg : Config) where
    unfoldable pub provision_share :
        S → Text → Text → Text → Text → Params → ℤ → S × Result CsiError Volume
    provision_share s pool leaf full ds_name params capacity =
        let (s', outcome) =
          await_job (client.create_share s (share_spec cfg pool leaf ds_name params capacity)) in
        (s', or_internal (build_nfs_volume cfg full capacity params ds_name) outcome)

    unfoldable pub create_nfs_volume :
        S → Text → Text → Text → Params → ℤ → S × Result CsiError Volume
    create_nfs_volume s pool leaf full params capacity =
        let ds_name = dataset_subpath pool full in
        let asked =
          elim (client.has_share s leaf pool ds_name) as (λ _. S × Result CsiError Volume) [
            | ok there ↦ (s, ok (build_nfs_volume cfg full capacity params ds_name))
            | err other ↦ (s, err internal)
            | err missing ↦ provision_share s pool leaf full ds_name params capacity
          ] in
        if length ds_name == 0 then (s, err invalid_argument) else asked

    unfoldable pub create_kind :
        VolumeKind → S → Text → Text → Text → Text → Params → ℤ → S × Result CsiError Volume
    create_kind nfs s pool parent leaf full params capacity =
        create_nfs_volume s pool leaf full params capacity
    create_kind filesystem s pool parent leaf full params capacity =
        create_dataset_volume s filesystem parent leaf full params capacity
    create_kind zvol s pool parent leaf full params capacity =
        create_dataset_volume s zvol parent leaf full params capacity

    unfoldable pub create_volume : S → CreateRequest → S × Result CsiError Volume
    create_volume s req =
        let params = req.parameters in
        let pool = first_non_empty (param params param_pool) cfg.default_pool in
        let parent = first_non_empty (param params param_parent) (resolved_parent cfg pool) in
        let full = encode_volume_id parent req.name in
        let classified =
          elim (classify req.capabilities params) as (λ _. S × Result CsiError Volume) [
            | err e ↦ (s, err e)
            | ok kind ↦
                let capacity = rounded kind (requested_capacity req.capacity_range) in
                if length pool == 0
                then (s, err invalid_argument)
                else create_kind kind s pool parent req.name full params capacity
          ] in
        if length req.name == 0 then (s, err invalid_argument) else classified

  -- From the call of `DestroyDataset` on.
  unfoldable pub destroy_volume : S → Text → S × Result CsiError (Unit {0})
  destroy_volume s full =
      let (s', outcome) = await_job (client.destroy_dataset s full) in (s', removed outcome)

  unfoldable pub delete_share_of : S → VolumeId → Text → S × Result CsiError (Unit {0})
  delete_share_of s id ds_name =
      let (s', outcome) = await_job (client.delete_share s id.leaf id.pool ds_name) in
      (s', removed outcome)

  -- A share under the volume's name is removed whole. A failure to ask for it counts as none.
  unfoldable pub delete_parsed : S → VolumeId → S × Result CsiError (Unit {0})
  delete_parsed s id =
      let ds_name = dataset_subpath id.pool id.full in
      let asked =
        elim (client.has_share s id.leaf id.pool ds_name) as (λ _. S × Result CsiError (Unit {0})) [
          | ok there ↦ delete_share_of s id ds_name
          | err e ↦ destroy_volume s id.full
        ] in
      if length ds_name == 0 then destroy_volume s id.full else asked

  unfoldable pub delete_volume : S → Text → S × Result CsiError (Unit {0})
  delete_volume s id = elim (parse_volume_id id) as (λ _. S × Result CsiError (Unit {0})) [
    | err e ↦ (s, err invalid_argument)
    | ok v ↦ delete_parsed s v
  ]
