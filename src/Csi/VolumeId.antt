-- ===== src/Csi/VolumeId.antt =====
-- internal/csi/volume_id.go: the ids of volumes and snapshots.
pub mod RoundTrip
use nova_nas.Base.{
  Bool, true, false, ◌||◌, Option, none, some, List, [], ◌∷◌, ◌++◌, Text, codes, Result, ok, err,
  length, split, drop_last, last_or, ltb, ◌==◌, if◌then◌else◌,
}

pub record VolumeId : Type 0 where
  pub full : Text
  pub pool : Text
  pub parent : Text
  pub leaf : Text

pub record SnapshotId : Type 0 where
  pub full : Text
  pub dataset : Text
  pub short_tag : Text

pub data IdError : Type 0 where
  empty_id no_name empty_segment bad_snapshot : IdError

unfoldable pub encode_volume_id : Text → Text → Text
encode_volume_id parent leaf = if length parent == 0 then leaf else parent ++ (b'/' ∷ leaf)

unfoldable pub has_empty : List Text → Bool
has_empty [] = false
has_empty (p ∷ ps) = length p == 0 || has_empty ps

-- `strings.Join(parts, "/")`
unfoldable pub join_parts : List Text → Text
join_parts [] = []
join_parts (p ∷ []) = p
join_parts (p ∷ q ∷ ps) = p ++ (b'/' ∷ join_parts (q ∷ ps))

unfoldable pub first_or : Text → List Text → Text
first_or d [] = d
first_or d (p ∷ ps) = p

unfoldable pub parse_volume_id : Text → Result IdError VolumeId
parse_volume_id id =
    let parts = split b'/' id in
    if length id == 0
    then err empty_id
    else if ltb (length parts) 2
    then err no_name
    else if has_empty parts
    then err empty_segment
    else ok (record {
      full = id;
      pool = first_or [] parts;
      parent = join_parts (drop_last parts);
      leaf = last_or [] parts;
    })

unfoldable pub encode_snapshot_id : Text → Text → Text
encode_snapshot_id dataset short = dataset ++ (b'@' ∷ short)

-- The text before and after the last `@`, which `strings.LastIndex` finds.
unfoldable pub cut_last : Text → Option (Text × Text)
cut_last [] = none
cut_last (c ∷ cs) = elim (cut_last cs) [
  | some (a, b) ↦ some (c ∷ a, b)
  | none ↦ if c == b'@' then some ([], cs) else none
]

unfoldable pub parse_snapshot_id : Text → Result IdError SnapshotId
parse_snapshot_id id = elim (cut_last id) as (λ _. Result IdError SnapshotId) [
  | none ↦ err bad_snapshot
  | some (dataset, short) ↦
      if length dataset == 0 || length short == 0
      then err bad_snapshot
      else ok (record { full = id; dataset = dataset; short_tag = short })
]
