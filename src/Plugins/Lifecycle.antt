-- ===== src/Plugins/Lifecycle.antt =====
-- internal/plugins/lifecycle.go: the state of the plugin engine and what an install and an upgrade share. An
-- operation runs under the lock of its plugin's name, so it is one step on the state, `World`. The table
-- plugins and its resource ledger, whose rows go with their plugin, are one map from a plugin's name.
pub mod Install
pub mod Uninstall
pub mod Upgrade
pub mod Restore
pub mod Consistency
pub mod Guard
pub mod Leftovers
pub mod Undo
pub mod Failure
pub mod Ranking
use nova_nas.Base.{
  Bool, true, false, not, ◌&&◌, ◌||◌, Option, none, some, List, [], ◌∷◌, ◌++◌, Text, codes, text_eq,
  ◌=?◌, insert, delete, lookup, Result, ok, err, ◌>>=◌, ℤ, pos, ◌≡◌, if◌then◌else◌,
}
use nova_nas.Plugins.Dependencies.Versions.{Semver, ResolveError}
use nova_nas.Plugins.Dependencies.{Plugin, Dependency, PlanStep, Resolver, plan, tier2}
use nova_nas.Plugins.Needs.{
  Need, Resource, Outside, Provisioner, NeedsError, run_needs, rollback_needs,
}
use nova_nas.Plugins.Router.{ApiRoute, UrlParser, Mounts, mount, unmount}

-- `Plugin` of manifest.go, the parts that the engine reads.
pub record Manifest : Type 0 where
  pub meta : Plugin
  pub needs : List Need
  pub routes : List ApiRoute

-- A row of the table plugins, with the rows of plugin_resources that belong to it.
pub record Row : Type 0 where
  pub version : Text
  pub manifest : Text
  pub status : Text
  pub resources : List Resource

abbrev pub status_installed : Text
status_installed = codes "installed"

pub data EngineError : Type 0 where
  not_found already_exists invalid no_store no_marketplace no_deployer name_mismatch : EngineError
  has_dependents : List Text → EngineError
  source_failed signature_failed extract_failed bad_manifest : Text → EngineError
  needs_failed : NeedsError → EngineError
  plan_failed : ResolveError → EngineError
  store_failed deploy_failed deployer_failed : Text → EngineError
  dependency_failed : Text → EngineError → EngineError

pub record InstallRequest : Type 0 where
  pub name : Text
  pub version : Text
  pub marketplace_id : Text

-- What the runtime of a plugin is asked to do.
pub data RuntimeCall : Type 0 where
  deploy : Text → Text → RuntimeCall
  undeploy restart : Text → RuntimeCall

-- A package: its manifest's bytes and whether it has a ui directory.
abbrev pub Unpacked : Type 0
Unpacked = Text × Bool

-- The registry of marketplaces: a version of a plugin with all the plugin's versions and the marketplace that
-- has it, and the download, which that marketplace's key verifies.
pub record Multi (Entry Tarball : Type 0) : Type 0 where
  pub find_version : Text → Text → Text → Result Text (List Text × Entry × Text)
  pub download_and_verify : Text → Entry → Result Text Tarball

pub record Single (Entry Tarball : Type 0) : Type 0 where
  pub find_version : Text → Text → Result Text (List Text × Entry)
  pub download_artifacts : Entry → Result Text (Tarball × Text)

-- The engine's collaborators. A call to the store is told to fail by the name it is made for. A package that
-- cannot be unpacked leaves a tree behind, for which `left_ui` tells whether it has a ui directory.
pub record Engine : Type 1 where
  pub semver : Semver
  pub urls : UrlParser
  pub Entry : Type 0
  pub Tarball : Type 0
  pub multi : Option (Multi Entry Tarball)
  pub single : Option (Single Entry Tarball)
  pub verifier : Option (Tarball → Text → Option Text)
  pub extract : Tarball → Result Text Unpacked
  pub left_ui : Tarball → Bool
  pub temp_fails : Option Text
  pub parse_manifest : Text → Result Text Manifest
  pub marshal : Manifest → Result Text Text
  pub unmarshal : Text → Option Manifest
  pub provisioner : Provisioner
  pub deployer : Option (Manifest → Option Text)
  pub has_store : Bool
  pub get_fails : Text → Bool
  pub create_fails : Text → Option Text
  pub update_fails : Text → Option Text
  pub delete_fails : Text → Option Text
  pub add_resource_fails : Resource → Bool
  pub list_fails : Option Text
  pub list_resources_fails : Text → Bool

module _ (env : Engine) where
  -- The rows are kept in the order in which the store lists them. The router and the served user interfaces
  -- are nothing where they are not configured, and a served directory is told by its plugin's name. On disk is the
  -- tree of a plugin by the plugin's name, with whether it has a ui directory.
  pub record World : Type 0 where
    pub plugins : List (Text × Row)
    pub router : Option (Mounts env.urls)
    pub ui : Option (List (Text × Text))
    pub disk : List (Text × Bool)
    pub outside : Outside
    pub runtime : List RuntimeCall

  -- `GetPluginByName`, whose errors all count as no row.
  unfoldable pub get_plugin : World → Text → Option Row
  get_plugin w name = if env.get_fails name then none else lookup w.plugins name

  -- `Mount` on a configured router, for a manifest with routes. Its error is logged.
  unfoldable pub mount_routes : World → Text → List ApiRoute → World
  mount_routes w name [] = w
  mount_routes w name (r ∷ rs) = elim w.router as (λ _. World) [
    | none ↦ w
    | some mounts ↦ record w { router = some (mount env.urls mounts name (r ∷ rs)).0 }
  ]

  unfoldable pub unmount_routes : World → Text → World
  unmount_routes w name = elim w.router as (λ _. World) [
    | none ↦ w
    | some mounts ↦ record w { router = some (unmount env.urls mounts name) }
  ]

  -- `Register`, of a ui directory that is there.
  unfoldable pub register_ui : World → Text → Bool → World
  register_ui w name has_ui = elim w.ui as (λ _. World) [
    | none ↦ w
    | some served ↦ if has_ui then record w { ui = some (insert served name name) } else w
  ]

  unfoldable pub deregister_ui : World → Text → World
  deregister_ui w name = elim w.ui as (λ _. World) [
    | none ↦ w
    | some served ↦ record w { ui = some (delete served name) }
  ]

  abbrev pub remove_tree : World → Text → World
  remove_tree w name = record w { disk = delete w.disk name }

  -- `rollbackNeeds`, whose errors are dropped.
  abbrev pub roll_back : World → Text → List Resource → World
  roll_back w name rs = record w { outside = (rollback_needs env.provisioner name rs w.outside).0 }

  -- The loop of `AddPluginResource`: a resource whose row cannot be added is left out.
  unfoldable pub recorded : List Resource → List Resource
  recorded [] = []
  recorded (r ∷ rs) = let rest = recorded rs in if env.add_resource_fails r then rest else r ∷ rest

  -- The call of the deployer, where there is one: the state, and its error.
  unfoldable pub run_deploy : World → Manifest → World × Option Text
  run_deploy w m = elim env.deployer as (λ _. World × Option Text) [
    | none ↦ (w, none)
    | some start ↦
        (record w { runtime = w.runtime ++ deploy m.meta.name m.meta.version ∷ [] }, start m)
  ]

  abbrev pub check_signature : env.Tarball → Text → Result EngineError env.Tarball
  check_signature tarball sig = elim env.verifier as (λ _. Result EngineError env.Tarball) [
    | none ↦ ok tarball
    | some verify ↦ elim (verify tarball sig) as (λ _. Result EngineError env.Tarball) [
      | none ↦ ok tarball
      | some msg ↦ err (signature_failed msg)
    ]
  ]

  abbrev pub source {ℓ} : {A : Type ℓ} → Result Text A → Result EngineError A
  source (ok a) = ok a
  source (err msg) = err (source_failed msg)

  unfoldable pub fetch_verified_tarball : Text → Text → Text → Result EngineError env.Tarball
  fetch_verified_tarball name version id =
      let from_single = elim env.single as (λ _. Result EngineError env.Tarball) [
        | none ↦ err no_marketplace
        | some market ↦ do
          (_, entry) ← source (market.find_version name version)
          (tarball, sig) ← source (market.download_artifacts entry)
          check_signature tarball sig
      ] in
      elim env.multi as (λ _. Result EngineError env.Tarball) [
        | none ↦ from_single
        | some markets ↦ do
          (_, entry, market) ← source (markets.find_version name version id)
          source (markets.download_and_verify market entry)
      ]

  -- `ParseManifest` on what `ExtractTarball` unpacks.
  unfoldable pub read_manifest : env.Tarball → Result EngineError (Manifest × Bool)
  read_manifest tarball =
      elim (env.extract tarball) as (λ _. Result EngineError (Manifest × Bool)) [
        | err msg ↦ err (extract_failed msg)
        | ok (bytes, has_ui) ↦
            elim (env.parse_manifest bytes) as (λ _. Result EngineError (Manifest × Bool)) [
              | err msg ↦ err (bad_manifest msg)
              | ok m ↦ ok (m, has_ui)
            ]
      ]

  -- `ManifestForPlanning`, which unpacks into a temporary directory and installs nothing.
  unfoldable pub manifest_for_planning : Text → Text → Text → Result EngineError Manifest
  manifest_for_planning name version id = do
    tarball ← fetch_verified_tarball name version id
    (m, _) ← elim env.temp_fails as (λ _. Result EngineError (Manifest × Bool)) [
      | some msg ↦ err (extract_failed msg)
      | none ↦ read_manifest tarball
    ]
    ok m

  -- `fetchVerifyUnpackProvision`. A package that cannot be unpacked leaves its tree on disk.
  unfoldable pub provision_manifest :
      World → Text → Manifest × Bool → World × Result EngineError (Manifest × Bool × List Resource)
  provision_manifest w name (m, has_ui) =
      let (outside', done, failed) = run_needs env.provisioner name m.needs w.outside in
      let w' : World = record w { outside = outside' } in
      let provisioned =
        elim failed as (λ _. World × Result EngineError (Manifest × Bool × List Resource)) [
          | some e ↦ (remove_tree w' name, err (needs_failed e))
          | none ↦ (w', ok (m, has_ui, done))
        ] in
      if m.meta.name =? name then provisioned else (remove_tree w name, err name_mismatch)

  unfoldable pub unpack :
      World → Text → env.Tarball → World × Result EngineError (Manifest × Bool × List Resource)
  unpack w name tarball =
      elim (env.extract tarball)
        as (λ _. World × Result EngineError (Manifest × Bool × List Resource)) [
          | err msg ↦ (
            record w { disk = insert w.disk name (env.left_ui tarball) },
            err (extract_failed msg),
          )
          | ok (bytes, has_ui) ↦
              elim (env.parse_manifest bytes)
                as (λ _. World × Result EngineError (Manifest × Bool × List Resource)) [
                  | err msg ↦ (remove_tree w name, err (bad_manifest msg))
                  | ok m ↦
                      provision_manifest (record w { disk = insert w.disk name has_ui }) name
                        (m, has_ui)
                ]
        ]

  unfoldable pub fetch_verify_unpack_provision :
      World → Text → Text → Text → World × Result EngineError (Manifest × Bool × List Resource)
  fetch_verify_unpack_provision w name version id =
      elim (fetch_verified_tarball name version id)
        as (λ _. World × Result EngineError (Manifest × Bool × List Resource)) [
          | err e ↦ (w, err e)
          | ok tarball ↦ unpack (remove_tree w name) name tarball
        ]
