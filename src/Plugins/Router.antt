-- ===== src/Plugins/Router.antt =====
-- internal/plugins/router.go: the routes of the mounted plugins, and which route serves a request. The parser
-- of an upstream's address and the minter of service tokens are arguments.
pub mod Match
pub mod Serving
use nova_nas.Base.{
  Bool, true, false, not, ◌&&◌, ◌||◌, Option, none, some, List, [], ◌∷◌, ◌++◌, Text, codes, text_eq,
  ◌=?◌, insert, delete, lookup, Result, ok, err, length, ltb, ◌==◌, has_prefix, trim_right_of,
  if◌then◌else◌,
}

abbrev pub auth_bearer_passthrough : Text
auth_bearer_passthrough = codes "bearer-passthrough"

abbrev pub auth_service_token : Text
auth_service_token = codes "service-token"

-- `APIRoute`
pub record ApiRoute : Type 0 where
  pub path : Text
  pub upstream : Text
  pub scopes : List Text
  pub auth : Text

-- What `url.Parse` makes of an address, or nothing, and the path of an address.
pub record UrlParser : Type 1 where
  pub Url : Type 0
  pub parse : Text → Option Url
  pub path : Url → Text

-- `ServiceTokenMinter`; nothing when there is none.
abbrev pub Minter : Type 0
Minter = Option (Text → Result Text Text)

module _ (urls : UrlParser) where
  pub record RouteProxy : Type 0 where
    pub prefix : Text
    pub auth : Text
    pub scopes : List Text
    pub upstream : urls.Url

  abbrev pub Mounts : Type 0
  Mounts = List (Text × List RouteProxy)

  -- The loop of `Mount`; `none` when an upstream cannot be parsed.
  unfoldable pub proxies : List ApiRoute → Option (List RouteProxy)
  proxies [] = some []
  proxies (r ∷ rs) = elim (urls.parse r.upstream) as (λ _. Option (List RouteProxy)) [
    | none ↦ none
    | some u ↦ elim (proxies rs) as (λ _. Option (List RouteProxy)) [
      | none ↦ none
      | some ps ↦
          let p : RouteProxy = record {
            prefix = trim_right_of b'/' r.path;
            auth = r.auth;
            scopes = r.scopes;
            upstream = u;
          } in
          some (p ∷ ps)
    ]
  ]

  -- `Mount`: the mounts after it, and whether it succeeds.
  unfoldable pub mount : Mounts → Text → List ApiRoute → Mounts × Bool
  mount mounts plugin routes = elim (proxies routes) as (λ _. Mounts × Bool) [
    | none ↦ (mounts, false)
    | some ps ↦ (insert mounts plugin ps, true)
  ]

  unfoldable pub unmount : Mounts → Text → Mounts
  unmount mounts plugin = delete mounts plugin

  unfoldable pub is_mounted : Mounts → Text → Bool
  is_mounted mounts plugin = elim (lookup mounts plugin) as (λ _. Bool) [
    | none ↦ false
    | some _ ↦ true
  ]

  unfoldable pub mounted_plugins : Mounts → List Text
  mounted_plugins [] = []
  mounted_plugins ((plugin, _) ∷ mounts) = plugin ∷ mounted_plugins mounts

  unfoldable pub matches : Text → RouteProxy → Bool
  matches rest rp = length rp.prefix == 0 || has_prefix rest rp.prefix

  unfoldable pub longer_than : RouteProxy → Option RouteProxy → Bool
  longer_than rp none = true
  longer_than rp (some best) = ltb (length best.prefix) (length rp.prefix)

  -- The loop of `ServeProxy` over the routes.
  unfoldable pub find_match : List RouteProxy → Text → Option RouteProxy → Option RouteProxy
  find_match [] rest best = best
  find_match (rp ∷ routes) rest best =
      find_match routes rest (if matches rest rp && longer_than rp best then some rp else best)

  -- What `ServeProxy` answers: an error, or the request that it gives to the reverse proxy of an upstream, with its
  -- path and its Authorization header. The proxy's own rewriting comes after that: it puts the path of the
  -- upstream in front once more.
  pub data Response : Type 0 where
    not_mounted no_route service_token_unavailable service_token_failed : Response
    forwarded : urls.Url → Text → Option Text → Response

  unfoldable pub with_slash : Text → Text
  with_slash rest = if has_prefix rest (b'/' ∷ []) then rest else b'/' ∷ rest

  unfoldable pub forward : RouteProxy → Text → Option Text → Response
  forward rp rest header =
      forwarded rp.upstream (trim_right_of b'/' (urls.path rp.upstream) ++ rest) header

  -- The auth transform, and the forwarding after it.
  unfoldable pub transform : Minter → Text → Text → Option Text → RouteProxy → Response
  transform minter plugin rest header rp =
      let with_token = elim minter as (λ _. Response) [
        | none ↦ service_token_unavailable
        | some mint ↦ elim (mint plugin) as (λ _. Response) [
          | err _ ↦ service_token_failed
          | ok tok ↦ forward rp rest (some (codes "Bearer " ++ tok))
        ]
      ] in
      if rp.auth =? auth_service_token then with_token else forward rp rest header

  unfoldable pub serve_proxy : Mounts → Minter → Text → Text → Option Text → Response
  serve_proxy mounts minter plugin rest header = elim (lookup mounts plugin) as (λ _. Response) [
    | none ↦ not_mounted
    | some routes ↦ elim (find_match routes (with_slash rest) none) as (λ _. Response) [
      | none ↦ no_route
      | some rp ↦ transform minter plugin (with_slash rest) header rp
    ]
  ]
