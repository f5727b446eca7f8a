-- ===== src/Plugins/Validate.antt =====
-- internal/plugins/manifest.go: `Validate`, with the resources that each category
-- may claim. The parser of version constraints is an argument.
pub mod Privilege
use nova_nas.Base.{
  ℕ, suc, ◌+◌, Bool, true, false, not, ◌&&◌, ◌||◌, Option, none, some, List, [], ◌∷◌, ◌++◌, Text,
  codes, text_eq, ◌=?◌, contains, ltb, leb, length, ◌==◌, trim_space, has_prefix, if◌then◌else◌,
}
use nova_nas.Plugins.Grammar.{name_re, tag_re, version_re}
use nova_nas.Plugins.Dependencies.{Dependency, tier2, bundled}
use nova_nas.Plugins.Needs.{need_dataset, need_oidc_client, need_tls_cert, need_permission}
use nova_nas.Plugins.Router.{ApiRoute, auth_bearer_passthrough, auth_service_token}

abbrev pub category_storage : Text
category_storage = codes "storage"

abbrev pub category_networking : Text
category_networking = codes "networking"

abbrev pub category_observability : Text
category_observability = codes "observability"

abbrev pub category_developer : Text
category_developer = codes "developer"

abbrev pub category_utility : Text
category_utility = codes "utility"

-- `Need`: the fields of its blocks that are required, where the block is there.
pub record NeedBlocks : Type 0 where
  pub kind : Text
  pub dataset : Option (Text × Text)
  pub oidc_client : Option Text
  pub tls_cert : Option Text
  pub permission : Option Text

pub record Deployment : Type 0 where
  pub type : Text
  pub chart : Text
  pub unit : Text

pub record UiWindow : Type 0 where
  pub name : Text
  pub route : Text
  pub bundle : Text

-- `Plugin`, with the fields that are checked.
pub record PluginManifest : Type 0 where
  pub api_version : Text
  pub kind : Text
  pub name : Text
  pub version : Text
  pub vendor : Text
  pub description : Text
  pub category : Text
  pub display_category : Text
  pub tags : List Text
  pub deployment : Deployment
  pub needs : List NeedBlocks
  pub dependencies : List Dependency
  pub routes : List ApiRoute
  pub window : UiWindow

pub data ManifestError : Type 0 where
  bad_api_version bad_kind bad_name bad_version no_vendor no_description : ManifestError
  bad_category bad_display_category too_many_tags no_chart no_unit bad_deployment : ManifestError
  long_tag bad_tag may_not_claim incomplete_need : ℕ → ManifestError
  bad_path no_upstream bad_auth bad_dependency_name bad_source : ℕ → ManifestError
  bad_constraint self_dependency : ℕ → ManifestError
  incomplete_window : ManifestError

abbrev pub valid_categories : List Text
valid_categories =
    category_storage ∷ category_networking ∷ category_observability ∷ category_developer
    ∷ category_utility ∷ []

-- `AllDisplayCategories`
abbrev pub all_display_categories : List Text
all_display_categories =
    codes "backup"
    ∷ codes "files"
    ∷ codes "multimedia"
    ∷ codes "photos"
    ∷ codes "productivity"
    ∷ codes "security"
    ∷ codes "communication"
    ∷ codes "home"
    ∷ codes "developer"
    ∷ codes "network"
    ∷ codes "storage"
    ∷ codes "surveillance"
    ∷ codes "utilities"
    ∷ codes "observability"
    ∷ []

-- `DefaultDisplayCategoryFor`
unfoldable pub default_display_category_for : Text → Text
default_display_category_for c =
    if c =? category_storage
    then codes "storage"
    else if c =? category_networking
    then codes "network"
    else if c =? category_observability
    then codes "observability"
    else if c =? category_developer
    then codes "developer"
    else if c =? category_utility
    then codes "utilities"
    else []

-- `privilegedNeedsByCategory[category][kind]`
unfoldable pub may_claim : Text → Text → Bool
may_claim category kind =
    if category =? category_storage
    then contains (need_dataset ∷ need_oidc_client ∷ need_tls_cert ∷ need_permission ∷ []) kind
    else if category =? category_networking || category =? category_observability
    then contains (need_oidc_client ∷ need_tls_cert ∷ need_permission ∷ []) kind
    else if category =? category_developer
    then contains (need_oidc_client ∷ need_permission ∷ []) kind
    else if category =? category_utility
    then contains (need_permission ∷ []) kind
    else false

abbrev pub is_empty : Text → Bool
is_empty s = length s == 0

abbrev pub filled : Option Text → Bool
filled none = false
filled (some s) = not (is_empty s)

-- Whether the block of a need's kind is there with what it requires.
unfoldable pub is_complete : NeedBlocks → Bool
is_complete n =
    let has_dataset = elim n.dataset as (λ _. Bool) [
      | none ↦ false
      | some (pool, name) ↦ not (is_empty pool) && not (is_empty name)
    ] in
    if n.kind =? need_dataset
    then has_dataset
    else if n.kind =? need_oidc_client
    then filled n.oidc_client
    else if n.kind =? need_tls_cert
    then filled n.tls_cert
    else filled n.permission

-- One error, where a test fails.
abbrev pub unless : Bool → ManifestError → List ManifestError
unless true e = []
unless false e = e ∷ []

-- The bytes of a text in UTF-8, as `len` counts them.
unfoldable pub byte_length : Text → ℕ
byte_length [] = 0
byte_length (c ∷ s) =
    let rest = byte_length s in
    if ltb c 0x80
    then 1 + rest
    else if ltb c 0x800
    then 2 + rest
    else if ltb c 0x10000
    then 3 + rest
    else 4 + rest

unfoldable pub tag_errors : ℕ → List Text → List ManifestError
tag_errors i [] = []
tag_errors i (t ∷ ts) =
    (if ltb 32 (byte_length t) then long_tag i ∷ [] else unless (tag_re t) (bad_tag i))
    ++ tag_errors (suc i) ts

unfoldable pub deployment_errors : Deployment → List ManifestError
deployment_errors d =
    if d.type =? codes "helm"
    then unless (not (is_empty d.chart)) no_chart
    else if d.type =? codes "systemd"
    then unless (not (is_empty d.unit)) no_unit
    else bad_deployment ∷ []

-- A kind that a category may claim is one of the four known.
unfoldable pub need_errors : Text → ℕ → List NeedBlocks → List ManifestError
need_errors category i [] = []
need_errors category i (n ∷ ns) =
    (if not (may_claim category n.kind)
      then may_not_claim i ∷ []
      else unless (is_complete n) (incomplete_need i))
    ++ need_errors category (suc i) ns

unfoldable pub route_errors : ℕ → List ApiRoute → List ManifestError
route_errors i [] = []
route_errors i (r ∷ rs) =
    unless (has_prefix r.path (b'/' ∷ [])) (bad_path i)
    ++ unless (not (is_empty r.upstream)) (no_upstream i)
    ++ unless (r.auth =? auth_bearer_passthrough || r.auth =? auth_service_token) (bad_auth i)
    ++ route_errors (suc i) rs

unfoldable pub dependency_errors : (Text → Bool) → Text → ℕ → List Dependency → List ManifestError
dependency_errors parses name i [] = []
dependency_errors parses name i (d ∷ ds) =
    unless (name_re d.name) (bad_dependency_name i)
    ++ unless (d.source =? tier2 || d.source =? bundled) (bad_source i)
    ++ unless (is_empty d.version_constraint || parses d.version_constraint) (bad_constraint i)
    ++ unless (not (d.name =? name)) (self_dependency i)
    ++ dependency_errors parses name (suc i) ds

unfoldable pub head_errors : PluginManifest → List ManifestError
head_errors p =
    unless (p.api_version =? codes "novanas.io/v1") bad_api_version
    ++ unless (p.kind =? codes "Plugin") bad_kind
    ++ unless (name_re p.name) bad_name
    ++ unless (version_re p.version) bad_version
    ++ unless (not (is_empty (trim_space p.vendor))) no_vendor
    ++ unless (not (is_empty (trim_space p.description))) no_description
    ++ unless (contains valid_categories p.category) bad_category
    ++ unless (is_empty p.display_category || contains all_display_categories p.display_category)
        bad_display_category
    ++ unless (leb (length p.tags) 16) too_many_tags

-- `Validate`, given whether a version constraint parses: the errors that it joins.
unfoldable pub validate : (Text → Bool) → PluginManifest → List ManifestError
validate parses p =
    head_errors p
    ++ tag_errors 0 p.tags
    ++ deployment_errors p.deployment
    ++ need_errors p.category 0 p.needs
    ++ route_errors 0 p.routes
    ++ dependency_errors parses p.name 0 p.dependencies
    ++ unless (is_empty p.window.bundle || not (is_empty p.window.name || is_empty p.window.route))
        incomplete_window

-- The part of `ParseManifest` after the YAML is decoded.
unfoldable pub parse_decoded : (Text → Bool) → PluginManifest → PluginManifest × List ManifestError
parse_decoded parses p =
    let p' : PluginManifest =
      if is_empty p.display_category
      then record p { display_category = default_display_category_for p.category }
      else p in
    (p', validate parses p')
