-- ===== src/Plugins/Marketplaces.antt =====
-- internal/plugins/marketplaces.go and the lookup of internal/plugins/marketplace.go: which marketplace a plugin comes
-- from, the check of a package with that marketplace's key, and the store of marketplaces in memory. The index
-- of a marketplace, the downloads and the check of a signature are arguments.
pub mod Trust
use nova_nas.Base.{
  ℕ, Bool, true, false, not, ◌&&◌, ◌||◌, Option, none, some, List, [], ◌∷◌, ◌++◌, Text, codes,
  text_eq, ◌=?◌, insert, delete, lookup, Result, ok, err, length, ◌==◌, ltb, sort_stable, map,
  if◌then◌else◌,
}

-- `IndexVersion`
pub record IndexVersion : Type 0 where
  pub version : Text
  pub tarball_url : Text
  pub signature_url : Text

pub record IndexPlugin : Type 0 where
  pub name : Text
  pub versions : List IndexVersion

pub record Marketplace : Type 0 where
  pub id : Text
  pub name : Text
  pub index_url : Text
  pub trust_key_pem : Text
  pub locked : Bool
  pub enabled : Bool
  pub added_at : ℕ

pub data MarketError : Type 0 where
  not_in_index no_versions no_such_version not_found disabled not_anywhere exists_already :
      MarketError
  bad_id fetch_failed download_failed key_failed signature_refused : Text → MarketError

abbrev pub found_version :
    IndexPlugin → Option IndexVersion → Result MarketError (IndexPlugin × IndexVersion)
found_version p none = err no_such_version
found_version p (some v) = ok (p, v)

unfoldable pub version_in : List IndexVersion → Text → Option IndexVersion
version_in [] version = none
version_in (v ∷ vs) version = if v.version =? version then some v else version_in vs version

-- The first plugin of a name decides. The first version listed stands for an empty version.
unfoldable pub find_in_index :
    List IndexPlugin → Text → Text → Result MarketError (IndexPlugin × IndexVersion)
find_in_index [] name version = err not_in_index
find_in_index (p ∷ ps) name version =
    let here = elim p.versions as (λ _. Result MarketError (IndexPlugin × IndexVersion)) [
      | [] ↦ err no_versions
      | v ∷ vs ↦
          if length version == 0 then ok (p, v) else found_version p (version_in (v ∷ vs) version)
    ] in
    if p.name =? name then here else find_in_index ps name version

-- The index of a marketplace, the parser of ids, the downloads of a version, and the signature check with a
-- key, which tells why it refuses.
pub record Network : Type 1 where
  pub Tarball : Type 0
  pub fetch_index : Text → Result Text (List IndexPlugin)
  pub parse_id : Text → Option Text
  pub download : Text → IndexVersion → Result Text (Tarball × Text)
  pub write_key : Marketplace → Option Text
  pub verify : Text → Tarball → Text → Option Text

module _ (net : Network) where
  -- `MarketplaceClient.FindVersion`
  unfoldable pub find_version_at :
      Marketplace → Text → Text → Result MarketError (IndexPlugin × IndexVersion)
  find_version_at m name version =
      elim (net.fetch_index m.index_url) as (λ _. Result MarketError (IndexPlugin × IndexVersion)) [
        | err msg ↦ err (fetch_failed msg)
        | ok plugins ↦ find_in_index plugins name version
      ]

  abbrev pub Found : Type 0
  Found = Result MarketError (IndexPlugin × IndexVersion × Marketplace)

  abbrev pub none_found : Option MarketError → Found
  none_found none = err not_anywhere
  none_found (some e) = err e

  abbrev pub first_error : Option MarketError → MarketError → Option MarketError
  first_error none e = some e
  first_error (some e') e = some e'

  -- The loop over the enabled marketplaces, with the first error.
  unfoldable pub search : List Marketplace → Text → Text → Option MarketError → Found
  search [] name version first = none_found first
  search (m ∷ ms) name version first = elim (find_version_at m name version) as (λ _. Found) [
    | ok (p, v) ↦ ok (p, v, m)
    | err e ↦ search ms name version (first_error first e)
  ]

  -- The rows of the store in memory, by id.
  abbrev pub Rows : Type 0
  Rows = List (Text × Marketplace)

  abbrev pub before : Marketplace → Marketplace → Bool
  before a b =
      if a.locked
      then not b.locked || ltb a.added_at b.added_at
      else not b.locked && ltb a.added_at b.added_at

  abbrev pub values : Rows → List Marketplace
  values [] = []
  values ((_, m) ∷ rows) = m ∷ values rows

  -- `List`: the locked ones first, then the older ones.
  unfoldable pub list_all : Rows → List Marketplace
  list_all rows = sort_stable before (values rows)

  unfoldable pub enabled_of : List Marketplace → List Marketplace
  enabled_of [] = []
  enabled_of (m ∷ ms) = let rest = enabled_of ms in if m.enabled then m ∷ rest else rest

  unfoldable pub list_enabled : Rows → List Marketplace
  list_enabled rows = enabled_of (list_all rows)

  unfoldable pub get_row : Rows → Text → Result MarketError Marketplace
  get_row rows id = elim (lookup rows id) as (λ _. Result MarketError Marketplace) [
    | none ↦ err not_found
    | some m ↦ ok m
  ]

  unfoldable pub find_pinned : Rows → Text → Text → Text → Found
  find_pinned rows name version id = elim (get_row rows id) as (λ _. Found) [
    | err e ↦ err e
    | ok m ↦
        let asked = elim (find_version_at m name version) as (λ _. Found) [
          | err e ↦ err e
          | ok (p, v) ↦ ok (p, v, m)
        ] in
        if m.enabled then asked else err disabled
  ]

  -- `MultiMarketplaceClient.FindVersion`
  unfoldable pub find_version : Rows → Text → Text → Text → Found
  find_version rows name version id =
      let pinned = elim (net.parse_id id) as (λ _. Found) [
        | none ↦ err (bad_id id)
        | some i ↦ find_pinned rows name version i
      ] in
      if length id == 0 then search (list_enabled rows) name version none else pinned

  -- The end of `DownloadAndVerify`, with the marketplace's own key.
  unfoldable pub check_package : Marketplace → net.Tarball → Text → Result MarketError net.Tarball
  check_package m tarball sig = elim (net.write_key m) as (λ _. Result MarketError net.Tarball) [
    | some msg ↦ err (key_failed msg)
    | none ↦
        elim (net.verify m.trust_key_pem tarball sig) as (λ _. Result MarketError net.Tarball) [
          | some msg ↦ err (signature_refused msg)
          | none ↦ ok tarball
        ]
  ]

  unfoldable pub download_and_verify : Rows → Text → IndexVersion → Result MarketError net.Tarball
  download_and_verify rows id v = elim (get_row rows id) as (λ _. Result MarketError net.Tarball) [
    | err e ↦ err e
    | ok m ↦ elim (net.download m.index_url v) as (λ _. Result MarketError net.Tarball) [
      | err msg ↦ err (download_failed msg)
      | ok (tarball, sig) ↦ check_package m tarball sig
    ]
  ]

  unfoldable pub has_name : Rows → Text → Bool
  has_name [] name = false
  has_name ((_, m) ∷ rows) name = m.name =? name || has_name rows name

  -- `Create`, of a marketplace that has an id and a time.
  unfoldable pub create_row : Rows → Marketplace → Rows × Result MarketError Marketplace
  create_row rows m =
      if has_name rows m.name then (rows, err exists_already) else (insert rows m.id m, ok m)

  unfoldable pub update_enabled : Rows → Text → Bool → Rows × Result MarketError Marketplace
  update_enabled rows id enabled =
      elim (lookup rows id) as (λ _. Rows × Result MarketError Marketplace) [
        | none ↦ (rows, err not_found)
        | some m ↦
            let m' : Marketplace = record m { enabled = enabled } in (insert rows id m', ok m')
      ]

  unfoldable pub update_trust_key : Rows → Text → Text → Rows × Result MarketError Marketplace
  update_trust_key rows id pem =
      elim (lookup rows id) as (λ _. Rows × Result MarketError Marketplace) [
        | none ↦ (rows, err not_found)
        | some m ↦
            let m' : Marketplace = record m { trust_key_pem = pem } in (insert rows id m', ok m')
      ]

  unfoldable pub delete_row : Rows → Text → Rows × Option MarketError
  delete_row rows id = elim (lookup rows id) as (λ _. Rows × Option MarketError) [
    | none ↦ (rows, some not_found)
    | some _ ↦ (delete rows id, none)
  ]
