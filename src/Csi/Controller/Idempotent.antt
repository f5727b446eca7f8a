-- ===== src/Csi/Controller/Idempotent.antt =====
-- A volume that is created again.
use nova_nas.Base.{
  ◌≡◌, refl, sym, ap, ◌∙◌, ◌⊎◌, pos, inl, inr, ℤ, eqb_ℤ_iff, true, some, Text, codes, text_eq,
  Result, ok, err, lookup, lookup-insert, text_beq, arith, Bool-cases, Result-cases,
}
use nova_nas.Csi.VolumeId.{encode_volume_id}
use nova_nas.Csi.Volumes.{
  VolumeKind, filesystem, zvol, nfs, Params, bytes, quota_props, build_props, Dataset,
  size_compatible, zfs_type, Volume, build_volume, classify, dataset_subpath, rounded,
  requested_capacity, first_non_empty, param, param_pool, param_parent,
}
use nova_nas.Csi.Controller.{
  ApiError, missing, other, DatasetSpec, ShareSpec, Client, Config, CreateRequest, or_internal,
  await_job, volume_size, spec_of, take_existing, provision, create_dataset_volume, provision_share,
  create_nfs_volume, create_kind, create_volume, resolved_parent, build_nfs_volume, share_spec,
}

-- A quota or a size is reported as it was set, or left at zero, as the client of cmd/nova-csi does with both.
abbrev pub Reported : ℤ → ℤ → Type 0
Reported got v = (got ≡ v) ⊎ (got ≡ pos 0)

-- What the appliance's API promises of a job that has created something: a dataset is there with the type that was
-- asked for, and with the quota and the size where they are reported; and a share is there.
pub record Provisions {S : Type 0} (client : Client S) : Type 0 where
  pub has_dataset :
      (s s1 s2 : S) (spec : DatasetSpec) (id : Text)
      → client.create_dataset s spec ≡ (s1, ok id)
      → client.wait_job s1 id ≡ (s2, true)
      → (ds : Dataset) × (client.get_dataset s2 (encode_volume_id spec.parent spec.name) ≡ ok ds)
        × (ds.dataset_type ≡ spec.dataset_type)
        × ((v : ℤ) → lookup spec.properties (codes "quota") ≡ some (bytes v) → Reported ds.quota v)
        × ((v : ℤ) → spec.volume_size_bytes ≡ some v → Reported ds.volsize v)
  pub has_new_share :
      (s s1 s2 : S) (spec : ShareSpec) (id : Text)
      → client.create_share s spec ≡ (s1, ok id)
      → client.wait_job s1 id ≡ (s2, true)
      → client.has_share s2 spec.name spec.pool spec.dataset_name ≡ ok tt

module _ {S : Type 0} (client : Client S) where
  -- A job whose outcome is no error was started, and ended well.
  await_job-done :
      {A : Type 0} (started : S × Result ApiError Text) (a v : A)
      → or_internal a (await_job client started).1 ≡ ok v
      → (id : Text) × (started.1 ≡ ok id)
        × (client.wait_job started.0 id ≡ ((await_job client started).0, true))
        × (a ≡ v)
  unfolding await_job or_internal
  await_job-done (s, err e) a v h = absurd cc
  await_job-done (s, ok id) a v h = elim (Bool-cases (client.wait_job s id).1) [
    | inl fine ↦ (id, refl, ground (arith, fine), ground (arith, fine, h))
    | inr bad ↦ absurd (ground (arith, bad, h))
  ]

quota_of_props :
    (params : Params) (capacity : ℤ)
    → lookup (build_props filesystem params capacity) (codes "quota") ≡ some (bytes capacity)
unfolding build_props quota_props text_beq
quota_of_props params capacity =
    lookup-insert _ (codes "refquota") (codes "quota") (bytes capacity)
    ∙ lookup-insert _ (codes "quota") (codes "quota") (bytes capacity)

take_filesystem :
    (full : Text) (params : Params) (capacity : ℤ) (ds : Dataset)
    → ds.dataset_type ≡ zfs_type filesystem
    → Reported ds.quota capacity
    → take_existing filesystem full params capacity ds
      ≡ ok (build_volume full capacity filesystem params)
unfolding take_existing size_compatible
take_filesystem full params capacity ds t q =
    let type = (text_eq.beq_iff ds.dataset_type (zfs_type filesystem)).1 t in
    elim q [
      | inl set ↦ ground (arith, type, (eqb_ℤ_iff ds.quota capacity).1 set)
      | inr unset ↦ ground (arith, type, (eqb_ℤ_iff ds.quota (pos 0)).1 unset)
    ]

take_zvol :
    (full : Text) (params : Params) (capacity : ℤ) (ds : Dataset)
    → ds.dataset_type ≡ zfs_type zvol
    → Reported ds.volsize capacity
    → take_existing zvol full params capacity ds ≡ ok (build_volume full capacity zvol params)
unfolding take_existing size_compatible
take_zvol full params capacity ds t q =
    let type = (text_eq.beq_iff ds.dataset_type (zfs_type zvol)).1 t in
    elim q [
      | inl set ↦ ground (arith, type, (eqb_ℤ_iff ds.volsize capacity).1 set)
      | inr unset ↦ ground (arith, type, (eqb_ℤ_iff ds.volsize (pos 0)).1 unset)
    ]

abbrev IsDatasetKind : VolumeKind → Type 0
IsDatasetKind filesystem = Unit {0}
IsDatasetKind zvol = Unit {0}
IsDatasetKind nfs = ⊥

module _ {S : Type 0} (client : Client S) (api : Provisions client) where
  -- What was provisioned is found, and fits.
  found_after :
      (s s1 s2 : S) (kind : VolumeKind) (parent leaf : Text) (params : Params) (capacity : ℤ)
      (id : Text)
      → IsDatasetKind kind
      → client.create_dataset s (spec_of kind parent leaf params capacity) ≡ (s1, ok id)
      → client.wait_job s1 id ≡ (s2, true)
      → create_dataset_volume client s2 kind parent leaf
          (encode_volume_id parent leaf)
          params
          capacity
        ≡ (s2, ok (build_volume (encode_volume_id parent leaf) capacity kind params))
  unfolding create_dataset_volume spec_of volume_size
  found_after s s1 s2 filesystem parent leaf params capacity id k c w =
      let spec = spec_of filesystem parent leaf params capacity in
      let (ds, there, type, quota, size) = api.has_dataset s s1 s2 spec id c w in
      ground (
        arith,
        there,
        take_filesystem (encode_volume_id parent leaf) params capacity ds type
            (quota capacity (quota_of_props params capacity)),
      )
  found_after s s1 s2 zvol parent leaf params capacity id k c w =
      let spec = spec_of zvol parent leaf params capacity in
      let (ds, there, type, quota, size) = api.has_dataset s s1 s2 spec id c w in
      ground (
        arith,
        there,
        take_zvol (encode_volume_id parent leaf) params capacity ds type (size capacity refl),
      )
  found_after s s1 s2 nfs parent leaf params capacity id k c w = elim k [ ]

  create_dataset_volume_again :
      (s s' : S) (kind : VolumeKind) (parent leaf : Text) (params : Params) (capacity : ℤ)
      (v : Volume)
      → IsDatasetKind kind
      → create_dataset_volume client s kind parent leaf
          (encode_volume_id parent leaf)
          params
          capacity
        ≡ (s', ok v)
      → create_dataset_volume client s' kind parent leaf
          (encode_volume_id parent leaf)
          params
          capacity
        ≡ (s', ok v)
  unfolding create_dataset_volume provision
  create_dataset_volume_again s s' kind parent leaf params capacity v k h =
      let full = encode_volume_id parent leaf in
      let spec = spec_of kind parent leaf params capacity in
      let started = client.create_dataset s spec in
      let ended = await_job client started in
      elim (Result-cases (client.get_dataset s full)) [
        | inr (ds, there) ↦
            let same : (s ≡ s') = ground (arith, there, h) in
            ap (λ t. create_dataset_volume client t kind parent leaf full params capacity)
              (sym same)
            ∙ h
        | inl (missing, gone) ↦
            let worked : (or_internal (build_volume full capacity kind params) ended.1 ≡ ok v) =
              ground (arith, gone, h) in
            let same : (ended.0 ≡ s') = ground (arith, gone, h) in
            let (id, began, waited, made) = await_job-done client started _ v worked in
            let again =
              found_after s started.0 ended.0 kind parent leaf params capacity id k
                (ap (λ (r : Result ApiError Text). (started.0, r)) began) waited in
            ap (λ t. create_dataset_volume client t kind parent leaf full params capacity)
              (sym same)
            ∙ again
            ∙ ground (arith, same, made)
        | inl (other, failed) ↦ absurd (ground (arith, failed, h))
      ]

  create_nfs_volume_again :
      (cfg : Config) (s s' : S) (pool leaf full : Text) (params : Params) (capacity : ℤ)
      (v : Volume)
      → create_nfs_volume client cfg s pool leaf full params capacity ≡ (s', ok v)
      → create_nfs_volume client cfg s' pool leaf full params capacity ≡ (s', ok v)
  unfolding create_nfs_volume provision_share
  create_nfs_volume_again cfg s s' pool leaf full params capacity v h =
      let name = dataset_subpath pool full in
      let started = client.create_share s (share_spec cfg pool leaf name params capacity) in
      let ended = await_job client started in
      elim (Result-cases (client.has_share s leaf pool name)) [
        | inr (tt, there) ↦
            let same : (s ≡ s') = ground (arith, there, h) in
            ap (λ t. create_nfs_volume client cfg t pool leaf full params capacity) (sym same) ∙ h
        | inl (missing, gone) ↦
            let worked : (or_internal (build_nfs_volume cfg full capacity params name) ended.1
                ≡ ok v) =
              ground (arith, gone, h) in
            let same : (ended.0 ≡ s') = ground (arith, gone, h) in
            let (id, began, waited, made) = await_job-done client started _ v worked in
            let there : (client.has_share ended.0 leaf pool name ≡ ok tt) =
              unfold share_spec in
              api.has_new_share s started.0 ended.0 (share_spec cfg pool leaf name params capacity)
                id (ap (λ (r : Result ApiError Text). (started.0, r)) began) waited in
            let there' : (client.has_share s' leaf pool name ≡ ok tt) =
              ap (λ t. client.has_share t leaf pool name) (sym same) ∙ there in
            ground (arith, there', made, gone, h)
        | inl (other, failed) ↦ absurd (ground (arith, failed, h))
      ]

  create_kind_again :
      (cfg : Config) (kind : VolumeKind) (s s' : S) (pool parent leaf : Text) (params : Params)
      (capacity : ℤ) (v : Volume)
      → create_kind client cfg kind s pool parent leaf
          (encode_volume_id parent leaf)
          params
          capacity
        ≡ (s', ok v)
      → create_kind client cfg kind s' pool parent leaf
          (encode_volume_id parent leaf)
          params
          capacity
        ≡ (s', ok v)
  unfolding create_kind
  create_kind_again cfg nfs s s' pool parent leaf params capacity v h =
      create_nfs_volume_again cfg s s' pool leaf (encode_volume_id parent leaf) params capacity v h
  create_kind_again cfg filesystem s s' pool parent leaf params capacity v h =
      create_dataset_volume_again s s' filesystem parent leaf params capacity v tt h
  create_kind_again cfg zvol s s' pool parent leaf params capacity v h =
      create_dataset_volume_again s s' zvol parent leaf params capacity v tt h

pub create_volume_twice :
    {S : Type 0} (client : Client S) (api : Provisions client) (cfg : Config) (req : CreateRequest)
    (s s' : S) (v : Volume)
    → create_volume client cfg s req ≡ (s', ok v)
    → create_volume client cfg s' req ≡ (s', ok v)
unfolding create_volume
create_volume_twice client api cfg req s s' v h =
    elim (Result-cases (classify req.capabilities req.parameters)) [
      | inl (e, bad) ↦ absurd (ground (arith, bad, h))
      | inr (kind, fine) ↦
          let pool = first_non_empty (param req.parameters param_pool) cfg.default_pool in
          let parent =
            first_non_empty (param req.parameters param_parent) (resolved_parent cfg pool) in
          ground (
            arith,
            fine,
            h,
            create_kind_again client api cfg kind s s' pool parent req.name req.parameters
                (rounded kind (requested_capacity req.capacity_range)) v,
          )
    ]
