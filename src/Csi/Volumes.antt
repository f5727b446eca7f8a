-- ===== src/Csi/Volumes.antt =====
-- internal/csi/controller.go: the kinds of volumes, their capacity and their properties.
pub mod Rounding
use nova_nas.Base.{
  ℕ, suc, ◌+◌, ◌*◌, ◌/◌, ◌%◌, ℤ, pos, negsuc, sub_ℕ, ltb_ℤ, eqb_ℤ, wrap_int, add_int, Bool, true,
  false, not, ◌&&◌, ◌||◌, Option, none, some, List, [], ◌∷◌, ◌++◌, Text, codes, text_eq, ◌=?◌,
  Result, ok, err, length, drop, split, lookup, insert, has_prefix, trim_space, equal_fold, cut,
  ◌==◌, if◌then◌else◌,
}

-- `VolumeCapability`: the access type, `unset` for a message without one, and the mode.
pub data AccessType : Type 0 where
  mount block unset : AccessType

pub data AccessMode : Type 0 where
  unknown single_node_writer single_node_reader_only multi_node_reader_only
        multi_node_single_writer :
      AccessMode
  multi_node_multi_writer single_node_single_writer single_node_multi_writer : AccessMode

pub record Capability : Type 0 where
  pub access_type : AccessType
  pub mode : AccessMode

pub data VolumeKind : Type 0 where
  filesystem zvol nfs : VolumeKind

pub data CsiError : Type 0 where
  invalid_argument not_found_error already_exists internal : CsiError

-- The messages' fields that are read, and the parameters of the storage class.
pub record CapacityRange : Type 0 where
  pub required_bytes : ℤ
  pub limit_bytes : ℤ

abbrev pub Params : Type 0
Params = List (Text × Text)

abbrev pub or_empty : Option Text → Text
or_empty none = []
or_empty (some v) = v

-- `params[key]`
unfoldable pub param : Params → Text → Text
param params key = or_empty (lookup params key)

abbrev pub param_pool : Text
param_pool = codes "pool"

abbrev pub param_parent : Text
param_parent = codes "parent"

abbrev pub param_compression : Text
param_compression = codes "compression"

abbrev pub param_recordsize : Text
param_recordsize = codes "recordsize"

abbrev pub param_volblocksize : Text
param_volblocksize = codes "volblocksize"

abbrev pub param_fs_type : Text
param_fs_type = codes "fsType"

abbrev pub param_access_protocol : Text
param_access_protocol = codes "accessProtocol"

abbrev pub param_mount_options : Text
param_mount_options = codes "mountOptions"

abbrev pub param_nfs_clients : Text
param_nfs_clients = codes "nfsClients"

abbrev pub default_capacity_bytes : ℤ
default_capacity_bytes = pos 1073741824

abbrev pub one_mib : ℕ
one_mib = 1048576

unfoldable pub kind_of : AccessType → Result CsiError VolumeKind
kind_of mount = ok filesystem
kind_of block = ok zvol
kind_of unset = err invalid_argument

unfoldable pub same_kind : VolumeKind → VolumeKind → Bool
same_kind filesystem filesystem = true
same_kind zvol zvol = true
same_kind nfs nfs = true
same_kind _ _ = false

-- The rest of the loop over the capabilities: all have the kind of the first.
unfoldable pub agree : VolumeKind → List Capability → Result CsiError VolumeKind
agree kind [] = ok kind
agree kind (c ∷ cs) =
    let rest = agree kind cs in
    elim (kind_of c.access_type) as (λ _. Result CsiError VolumeKind) [
      | err e ↦ err e
      | ok k ↦ if same_kind k kind then rest else err invalid_argument
    ]

unfoldable pub classify_caps : List Capability → Result CsiError VolumeKind
classify_caps [] = err invalid_argument
classify_caps (c ∷ cs) = elim (kind_of c.access_type) as (λ _. Result CsiError VolumeKind) [
  | err e ↦ err e
  | ok k ↦ agree k cs
]

unfoldable pub classify : List Capability → Params → Result CsiError VolumeKind
classify caps params = elim (classify_caps caps) as (λ _. Result CsiError VolumeKind) [
  | err e ↦ err e
  | ok k ↦
      if equal_fold (param params param_access_protocol) (codes "nfs")
      then (if same_kind k filesystem then ok nfs else err invalid_argument)
      else ok k
]

unfoldable pub requested_capacity : Option CapacityRange → ℤ
requested_capacity none = default_capacity_bytes
requested_capacity (some r) =
    if ltb_ℤ (pos 0) r.required_bytes
    then r.required_bytes
    else if ltb_ℤ (pos 0) r.limit_bytes
    then r.limit_bytes
    else default_capacity_bytes

-- Go's division of a negative number rounds towards zero.
unfoldable pub round_up : ℤ → ℕ → ℤ
round_up (pos n) m =
    if m == 0 then pos n else if n % m == 0 then pos n else wrap_int (pos ((n / m + 1) * m))
round_up (negsuc k) m =
    if m == 0 then negsuc k else if suc k % m == 0 then negsuc k else sub_ℕ m (suc k / m * m)

-- Sizes of a zvol are passed on as they are asked for.
unfoldable pub rounded : VolumeKind → ℤ → ℤ
rounded zvol capacity = capacity
rounded filesystem capacity = round_up capacity one_mib
rounded nfs capacity = round_up capacity one_mib

unfoldable pub zfs_type : VolumeKind → Text
zfs_type zvol = codes "volume"
zfs_type nfs = codes "filesystem"
zfs_type filesystem = codes "filesystem"

-- A value of a ZFS property: a text, or a number of bytes as `FormatInt` writes it.
pub data PropValue : Type 0 where
  text : Text → PropValue
  bytes : ℤ → PropValue

abbrev pub Props : Type 0
Props = List (Text × PropValue)

abbrev pub set_unless_empty : Text → Text → Props → Props
set_unless_empty key v props = if length v == 0 then props else insert props key (text v)

unfoldable pub quota_props : ℤ → Props → Props
quota_props capacity props =
    insert (insert props (codes "quota") (bytes capacity)) (codes "refquota") (bytes capacity)

unfoldable pub compression_of : Params → Text
compression_of params =
    if length (param params param_compression) == 0
    then codes "lz4"
    else param params param_compression

unfoldable pub build_props : VolumeKind → Params → ℤ → Props
build_props filesystem params capacity = quota_props capacity (
    set_unless_empty (codes "recordsize") (param params param_recordsize)
      ((codes "compression", text (compression_of params)) ∷ []))
build_props zvol params capacity =
    set_unless_empty (codes "volblocksize") (param params param_volblocksize)
      ((codes "compression", text (compression_of params)) ∷ [])
build_props nfs params capacity = (codes "compression", text (compression_of params)) ∷ []

pub record Dataset : Type 0 where
  pub dataset_type : Text
  pub used_bytes : ℤ
  pub available_bytes : ℤ
  pub volsize : ℤ
  pub quota : ℤ

unfoldable pub size_compatible : Dataset → VolumeKind → ℤ → Bool
size_compatible ds zvol want = eqb_ℤ ds.volsize (pos 0) || eqb_ℤ ds.volsize want
size_compatible ds filesystem want = eqb_ℤ ds.quota (pos 0) || eqb_ℤ ds.quota want
size_compatible ds nfs want = false

unfoldable pub dataset_capacity : Dataset → ℤ
dataset_capacity ds =
    if ltb_ℤ (pos 0) ds.volsize
    then ds.volsize
    else if ltb_ℤ (pos 0) ds.quota
    then ds.quota
    else add_int ds.used_bytes ds.available_bytes

-- `csipb.Volume`
pub record Volume : Type 0 where
  pub volume_id : Text
  pub capacity_bytes : ℤ
  pub volume_context : List (Text × Text)

unfoldable pub first_non_empty : Text → Text → Text
first_non_empty a b = if length a == 0 then b else a

abbrev pub kind_context : Text → Text × Text
kind_context kind = (codes "volumeKind", kind)

unfoldable pub volume_context : VolumeKind → Params → List (Text × Text)
volume_context zvol params =
    kind_context (zfs_type zvol)
    ∷ (codes "fsType", first_non_empty (param params param_fs_type) (codes "ext4"))
    ∷ []
volume_context filesystem params = kind_context (zfs_type filesystem) ∷ []
volume_context nfs params = kind_context (zfs_type nfs) ∷ []

unfoldable pub build_volume : Text → ℤ → VolumeKind → Params → Volume
build_volume id capacity kind params = record {
  volume_id = id;
  capacity_bytes = capacity;
  volume_context = volume_context kind params;
}

-- The text after the pool and a slash, empty where the name has another pool.
unfoldable pub dataset_subpath : Text → Text → Text
dataset_subpath pool full =
    let prefix = pool ++ (b'/' ∷ []) in
    if has_prefix full prefix then drop (length prefix) full else []

unfoldable pub extract_pool : Text → Text
extract_pool full = elim (cut b'/' full) as (λ _. Text) [
  | none ↦ full
  | some (a, b) ↦ if length a == 0 then full else a
]

unfoldable pub client_rules : List Text → List Text
client_rules [] = []
client_rules (p ∷ ps) =
    let rest = client_rules ps in if length (trim_space p) == 0 then rest else trim_space p ∷ rest

-- The rules have the client alone; their options are empty.
unfoldable pub build_nfs_client_rules : Text → List Text
build_nfs_client_rules csv =
    if length (trim_space csv) == 0 then [] else client_rules (split b',' csv)

unfoldable pub access_mode_supported : VolumeKind → AccessMode → Bool
access_mode_supported zvol single_node_writer = true
access_mode_supported zvol single_node_single_writer = true
access_mode_supported zvol _ = false
access_mode_supported _ single_node_writer = true
access_mode_supported _ single_node_single_writer = true
access_mode_supported _ single_node_multi_writer = true
access_mode_supported _ multi_node_reader_only = true
access_mode_supported _ multi_node_multi_writer = true
access_mode_supported _ _ = false
