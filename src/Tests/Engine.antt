-- ===== src/Tests/Engine.antt =====
-- The plugin engine of internal/plugins on small concrete inputs.
use mathlib.Core.List.{Memᴰ}
use nova_nas.Base.{
  length, has_prefix, ◌≡◌, refl, sym, inl, inr, ℕ, ◌≤◌, true, false, Option, none, some, List, [],
  ◌∷◌, Text, codes, text_eq, text_beq, ◌=?◌, =?_refl, lookup, delete, lookup-delete, ◌∙◌, ok, err,
  if◌then◌else◌, arith, Bool-cases,
}
use nova_nas.Plugins.Dependencies.Versions.{Semver}
use nova_nas.Plugins.Dependencies.{Dependency, tier2}
use nova_nas.Plugins.Needs.{
  Resource, resource_eq, Outside, Provisioner, run_needs, needs_loop, provision_one, is_known,
  need_dataset,
}
use nova_nas.Plugins.Router.{
  is_mounted, UrlParser, RouteProxy, Mounts, serve_proxy, transform, with_slash, matches,
  auth_service_token,
}
use nova_nas.Plugins.Router.Serving.{serve_proxy-longest}
use nova_nas.Plugins.Marketplaces.{
  Network, Marketplace, IndexVersion, download_and_verify, get_row, check_package,
}
use nova_nas.Plugins.Marketplaces.Trust.{download_and_verify_ok}
use nova_nas.Plugins.Lifecycle.{
  Engine, World, Row, Manifest, Single, InstallRequest, EngineError, fetch_verified_tarball,
  read_manifest, fetch_verify_unpack_provision, unpack, provision_manifest, run_deploy,
  deploy_failed, manifest_for_planning, status_installed,
}
use nova_nas.Plugins.Lifecycle.Install.{install, install_root, finish_install}
use nova_nas.Plugins.Lifecycle.Uninstall.{uninstall, row_depends, depends_on}
use nova_nas.Plugins.Lifecycle.Guard.{uninstall-dependents}
use nova_nas.Plugins.Lifecycle.Failure.{install_root-failed}
use nova_nas.Plugins.Needs.Rollback.{Removes, GoneOrSame}
use nova_nas.Plugins.Lifecycle.Undo.{Alike}
use nova_nas.Plugins.Lifecycle.Leftovers.{NotNew}
use nova_nas.Plugins.Lifecycle.Ranking.{install-returns, ranked, returns}
use nova_nas.Plugins.Lifecycle.Consistency.{orphan}
use nova_nas.Plugins.Lifecycle.Consistency.Steps.{
  Steps-orphan, start, then_step, installs, uninstalls,
}

abbrev alpha : Text
alpha = codes "alpha"

abbrev beta : Text
beta = codes "beta"

abbrev one : Text
one = codes "1.0.0"

abbrev any_version : Semver
any_version = record {
  Version = Text;
  Constraints = Text;
  new_version = λ v. some v;
  new_constraint = λ c. some c;
  check = λ c v. true;
  greater_than = λ a b. false;
}

abbrev all_urls : UrlParser
all_urls = record { Url = Text; parse = λ u. some u; path = λ u. [] }

abbrev needs_beta : List Dependency
needs_beta = record { name = beta; version_constraint = []; source = tier2 } ∷ []

abbrev manifest_of : Text → Manifest
manifest_of name = record {
  meta = record {
    name = name;
    version = one;
    dependencies = if name =? alpha then needs_beta else [];
  };
  needs = record { kind = need_dataset; body = codes "tank/data" } ∷ [];
  routes =
      record {
        path = codes "/buckets";
        upstream = codes "u";
        scopes = [];
        auth = auth_service_token;
      }
      ∷ [];
}

abbrev market : Single Text Text
market = record {
  find_version = λ name v. ok (one ∷ [], name);
  download_artifacts = λ entry. ok (entry, []);
}

abbrev easy : Provisioner
easy = record { provision = λ out p n. ok n.body; unprovision = λ out p r. (delete out r, none) }

-- A stored manifest is the plugin's name.
abbrev engine_with : Option (Manifest → Option Text) → Engine
engine_with deployer = record {
  semver = any_version;
  urls = all_urls;
  Entry = Text;
  Tarball = Text;
  multi = none;
  single = some market;
  verifier = none;
  extract = λ t. ok (t, true);
  left_ui = λ t. false;
  temp_fails = none;
  parse_manifest = λ t. ok (manifest_of t);
  marshal = λ m. ok m.meta.name;
  unmarshal = λ t. some (manifest_of t);
  provisioner = easy;
  deployer = deployer;
  has_store = true;
  get_fails = λ t. false;
  create_fails = λ t. none;
  update_fails = λ t. none;
  delete_fails = λ t. none;
  add_resource_fails = λ r. false;
  list_fails = none;
  list_resources_fails = λ t. false;
}

abbrev engine : Engine
engine = engine_with none

abbrev empty_world : World engine
empty_world = record {
  plugins = [];
  router = some [];
  ui = some [];
  disk = [];
  outside = [];
  runtime = [];
}

abbrev ask : Text → InstallRequest
ask name = record { name = name; version = one; marketplace_id = [] }

Steps-orphan_example :
    orphan engine
      (uninstall engine
        (install engine 2 [] empty_world (ask alpha)).0
        alpha
        (record { purge = true; force = false })).0
      beta
    ≡ false
unfolding is_mounted lookup
Steps-orphan_example =
    Steps-orphan engine beta
      (then_step (then_step (start empty_world) (installs 2 empty_world (ask alpha))) (
        uninstalls (install engine 2 [] empty_world (ask alpha)).0 alpha
          (record { purge = true; force = false })))
      refl

abbrev rank : Text → ℕ
rank name = if name =? alpha then 1 else 0

beta_apart : (beta =? alpha) ≡ false
unfolding text_beq
beta_apart = refl

catalog-ranked :
    (name version id : Text) (m : Manifest)
    → manifest_for_planning engine name version id ≡ ok m
    → ranked rank engine name m ≡ true
unfolding manifest_for_planning fetch_verified_tarball read_manifest
catalog-ranked name version id m h =
    let same : (manifest_of name ≡ m) = ground (arith, h) in
    rw (sym same) (elim (Bool-cases (name =? alpha)) [
      | inl a ↦ ground (arith, a, =?_refl name, beta_apart, =?_refl tier2)
      | inr b ↦ ground (arith, b, =?_refl name)
    ])

install-returns_example : returns (install engine 2 [] empty_world (ask alpha)).1 ≡ true
unfolding text_beq
install-returns_example = install-returns rank engine empty_world (ask alpha) catalog-ranked

abbrev broken : Engine
broken = engine_with (some (λ m. some (codes "no unit")))

abbrev blank : World broken
blank = record {
  plugins = [];
  router = some [];
  ui = some [];
  disk = [];
  outside = [];
  runtime = [];
}

abbrev dataset_resource : Resource
dataset_resource = record { kind = need_dataset; id = codes "tank/data" }

easy_adds_none : (r q : Resource) (out : Outside) → GoneOrSame r out (delete out q)
easy_adds_none r q out = elim (Bool-cases (q =? r)) [
  | inl own ↦ inl (lookup-delete out q r ∙ rw own refl)
  | inr other ↦ inr (lookup-delete out q r ∙ rw other refl)
]

easy-Removes : (r : Resource) → Removes easy beta r
easy-Removes r = record {
  takes_back = λ out. lookup-delete out r r ∙ rw (=?_refl r);
  adds_none = λ out q. easy_adds_none r q out;
}

install_root-failed_example :
    NotNew broken (easy-Removes dataset_resource) [] (install_root broken blank (ask beta) []).0
    × Alike broken blank (install_root broken blank (ask beta) []).0 beta
unfolding is_mounted lookup install_root fetch_verify_unpack_provision fetch_verified_tarball unpack
    provision_manifest run_needs needs_loop provision_one finish_install run_deploy text_beq
    is_known
install_root-failed_example =
    install_root-failed broken blank (install_root broken blank (ask beta) []).0 (ask beta)
      (easy-Removes dataset_resource) beta [] (deploy_failed (codes "no unit")) refl refl refl refl

abbrev alpha_row : Row
alpha_row = record { version = one; manifest = alpha; status = status_installed; resources = [] }

abbrev both_installed : World engine
both_installed = record empty_world {
  plugins = (alpha, alpha_row) ∷ (beta, record alpha_row { manifest = beta }) ∷ [];
}

uninstall-dependents_example :
    (e : EngineError) × (uninstall engine both_installed beta
        (record { purge = true; force = false })
      ≡ (both_installed, err e))
unfolding lookup text_beq row_depends depends_on
uninstall-dependents_example =
    uninstall-dependents engine both_installed beta alpha alpha_row
      (record { purge = true; force = false }) refl refl refl refl refl

abbrev route_to : Text → RouteProxy all_urls
route_to path = record {
  prefix = path;
  auth = auth_service_token;
  scopes = [];
  upstream = codes "u";
}

abbrev buckets_mounted : Mounts all_urls
buckets_mounted = (alpha, route_to (codes "/buckets") ∷ route_to (codes "/buckets/logs") ∷ []) ∷ []

serve_proxy-longest_example :
    (rp : RouteProxy all_urls) × Memᴰ rp
      (route_to (codes "/buckets") ∷ route_to (codes "/buckets/logs") ∷ [])
    × (matches all_urls (with_slash all_urls (codes "/buckets/logs/1")) rp ≡ true)
    × (length (codes "/buckets/logs") ≤ length rp.prefix)
    × (serve_proxy all_urls buckets_mounted none alpha (codes "/buckets/logs/1") none
        ≡ transform all_urls none alpha (with_slash all_urls (codes "/buckets/logs/1")) none rp)
unfolding lookup text_beq matches with_slash has_prefix
serve_proxy-longest_example =
    serve_proxy-longest all_urls buckets_mounted none alpha (codes "/buckets/logs/1") none
      (route_to (codes "/buckets") ∷ route_to (codes "/buckets/logs") ∷ [])
      (route_to (codes "/buckets/logs")) refl (Memᴰ.tail (Memᴰ.head refl)) refl

abbrev network : Network
network = record {
  Tarball = Text;
  fetch_index = λ url. ok [];
  parse_id = λ id. some id;
  download = λ url v. ok (url, v.signature_url);
  write_key = λ m. none;
  verify = λ key tarball sig. if key =? sig then none else some (codes "bad signature");
}

abbrev official : Marketplace
official = record {
  id = codes "1";
  name = codes "novanas-official";
  index_url = codes "index";
  trust_key_pem = codes "key";
  locked = true;
  enabled = true;
  added_at = 0;
}

abbrev signed_version : IndexVersion
signed_version = record { version = one; tarball_url = codes "t"; signature_url = codes "key" }

download_and_verify_ok_example :
    (m : Marketplace) × (sig : Text) × (lookup ((codes "1", official) ∷ []) (codes "1") ≡ some m)
    × (network.download m.index_url signed_version ≡ ok (codes "index", sig))
    × (network.verify m.trust_key_pem (codes "index") sig ≡ none)
unfolding lookup text_beq download_and_verify get_row check_package
download_and_verify_ok_example =
    download_and_verify_ok network ((codes "1", official) ∷ []) (codes "1") signed_version
      (codes "index") refl
