-- ===== src/Tests/Csi.antt =====
-- The storage driver on small concrete inputs, over an appliance on which every job ends well, and whose
-- client reports no quota and no size.
use nova_nas.Base.{
  ◌≡◌, refl, sym, ap, ◌∙◌, inr, pos, Bool, true, false, Option, none, some, List, [], ◌∷◌, Text,
  codes, text_eq, text_beq, contains, lookup, insert, lookup-insert, =?_refl, split, Result, ok,
  err, equal_fold,
}
use nova_nas.Csi.VolumeId.{encode_volume_id, parse_volume_id, has_empty, first_or}
use nova_nas.Csi.VolumeId.RoundTrip.{parse_volume_id-encode_volume_id}
use nova_nas.Csi.Volumes.{
  mount, single_node_writer, Dataset, round_up, param_pool, classify, classify_caps, agree, kind_of,
  same_kind, requested_capacity, rounded, param, first_non_empty, build_props, quota_props,
  compression_of, zfs_type, build_volume, volume_context, Volume,
}
use nova_nas.Csi.Controller.{
  ApiError, missing, DatasetSpec, ShareSpec, Client, Config, CreateRequest, create_volume,
  create_kind, create_dataset_volume, provision, spec_of, volume_size, await_job, or_internal,
  resolved_parent,
}
use nova_nas.Csi.Controller.Idempotent.{Provisions, create_volume_twice}

pub record Appliance : Type 0 where
  pub datasets : List (Text × Dataset)
  pub shares : List Text

abbrev dataset_of : DatasetSpec → Dataset
dataset_of spec = record {
  dataset_type = spec.dataset_type;
  used_bytes = pos 0;
  available_bytes = pos 0;
  volsize = pos 0;
  quota = pos 0;
}

abbrev found_or_missing : Option Dataset → Result ApiError Dataset
found_or_missing none = err missing
found_or_missing (some ds) = ok ds

abbrev there_or_missing : Bool → Result ApiError (Unit {0})
there_or_missing true = ok tt
there_or_missing false = err missing

abbrev add_dataset : Appliance → DatasetSpec → Appliance
add_dataset s spec = record s {
  datasets = insert s.datasets (encode_volume_id spec.parent spec.name) (dataset_of spec);
}

abbrev add_share : Appliance → ShareSpec → Appliance
add_share s spec = record s { shares = spec.name ∷ s.shares }

abbrev appliance : Client Appliance
appliance = record {
  get_dataset = λ s name. found_or_missing (lookup s.datasets name);
  create_dataset = λ s spec. (add_dataset s spec, ok []);
  destroy_dataset = λ s name. (s, ok []);
  set_dataset_props = λ s name props. (s, ok []);
  create_snapshot = λ s dataset short. (s, ok []);
  destroy_snapshot = λ s name. (s, ok []);
  create_share = λ s spec. (add_share s spec, ok []);
  has_share = λ s name pool dataset. there_or_missing (contains s.shares name);
  delete_share = λ s name pool dataset. (s, ok []);
  wait_job = λ s id. (s, true);
}

dataset_there :
    (s s1 s2 : Appliance) (spec : DatasetSpec) (id : Text)
    → appliance.create_dataset s spec ≡ (s1, ok id)
    → appliance.wait_job s1 id ≡ (s2, true)
    → appliance.get_dataset s2 (encode_volume_id spec.parent spec.name) ≡ ok (dataset_of spec)
dataset_there s s1 s2 spec id c w =
    let name = encode_volume_id spec.parent spec.name in
    let same : (add_dataset s spec ≡ s2) = ap (λ r. r.0) c ∙ ap (λ r. r.0) w in
    let kept : (lookup (insert s.datasets name (dataset_of spec)) name ≡ some (dataset_of spec)) =
      lookup-insert s.datasets name name (dataset_of spec) ∙ rw (=?_refl name) in
    ap (λ t. found_or_missing (lookup t.datasets name)) (sym same) ∙ ap found_or_missing kept

share_there :
    (s s1 s2 : Appliance) (spec : ShareSpec) (id : Text)
    → appliance.create_share s spec ≡ (s1, ok id)
    → appliance.wait_job s1 id ≡ (s2, true)
    → appliance.has_share s2 spec.name spec.pool spec.dataset_name ≡ ok tt
unfolding contains
share_there s s1 s2 spec id c w =
    let same : (add_share s spec ≡ s2) = ap (λ r. r.0) c ∙ ap (λ r. r.0) w in
    ap (λ t. there_or_missing (contains t.shares spec.name)) (sym same) ∙ rw (=?_refl spec.name)

appliance-Provisions : Provisions appliance
appliance-Provisions = record {
  has_dataset = λ s s1 s2 spec id c w.
      (dataset_of spec, dataset_there s s1 s2 spec id c w, refl, λ v h. inr refl, λ v h. inr refl);
  has_new_share = λ s s1 s2 spec id c w. share_there s s1 s2 spec id c w;
}

parse_volume_id-encode_volume_id_example :
    parse_volume_id (encode_volume_id (codes "tank/csi") (codes "pvc"))
    ≡ ok (record {
      full = encode_volume_id (codes "tank/csi") (codes "pvc");
      pool = first_or [] (split b'/' (codes "tank/csi"));
      parent = codes "tank/csi";
      leaf = codes "pvc";
    })
unfolding has_empty split contains
parse_volume_id-encode_volume_id_example =
    parse_volume_id-encode_volume_id (codes "tank/csi") (codes "pvc") refl refl refl

abbrev config : Config
config = record {
  default_pool = [];
  default_parent = [];
  nfs_server = [];
  default_nfs_clients = [];
  default_nfs_mount_options = [];
}

abbrev request : CreateRequest
request = record {
  name = codes "pvc";
  capabilities = record { access_type = mount; mode = single_node_writer } ∷ [];
  parameters = (param_pool, codes "tank") ∷ [];
  capacity_range = some (record { required_bytes = pos 1000; limit_bytes = pos 0 });
}

abbrev made : Volume
made = record {
  volume_id = codes "tank/csi/pvc";
  capacity_bytes = pos 1048576;
  volume_context = (codes "volumeKind", codes "filesystem") ∷ [];
}

abbrev empty : Appliance
empty = record { datasets = []; shares = [] }

abbrev kept : Appliance
kept = record {
  datasets =
      (
        codes "tank/csi/pvc",
        record {
          dataset_type = codes "filesystem";
          used_bytes = pos 0;
          available_bytes = pos 0;
          volsize = pos 0;
          quota = pos 0;
        },
      )
      ∷ [];
  shares = [];
}

first_create : create_volume appliance config empty request ≡ (kept, ok made)
unfolding create_volume create_kind create_dataset_volume provision spec_of volume_size await_job
    or_internal resolved_parent classify classify_caps agree kind_of same_kind requested_capacity
    rounded round_up param first_non_empty build_props quota_props compression_of zfs_type
    build_volume volume_context lookup insert text_beq encode_volume_id equal_fold
first_create = refl

create_volume_twice_example : create_volume appliance config kept request ≡ (kept, ok made)
create_volume_twice_example =
    create_volume_twice appliance appliance-Provisions config request empty kept made first_create
