-- ===== src/Plugins/Router/Serving.antt =====
-- What `ServeProxy` of internal/plugins/router.go answers, after mounts and unmounts.
use mathlib.Core.List.{Memᴰ}
use nova_nas.Base.{
  ◌≡◌, refl, inl, inr, true, Option, none, some, List, ◌++◌, Text, codes, text_eq, ◌=?◌, length,
  ◌≤◌, if◌then◌else◌, arith, Option-cases, lookup, lookup-insert, lookup-delete, insert, Result, ok,
  Result-cases,
}
use nova_nas.Plugins.Router.{
  UrlParser, RouteProxy, ApiRoute, Mounts, Minter, matches, serve_proxy, transform, with_slash,
  mount, unmount, proxies, forwarded, not_mounted, forward, auth_service_token,
}
use nova_nas.Plugins.Router.Match.{find_match-From, find_match-longest}

module _ (urls : UrlParser) where
  -- When some route of a mounted plugin matches a request, the request is handled by a route of the plugin
  -- that matches and whose prefix is at least as long.
  pub serve_proxy-longest :
      (mounts : Mounts urls) (minter : Minter) (plugin rest : Text) (header : Option Text)
      (routes : List (RouteProxy urls)) (other : RouteProxy urls)
      → lookup mounts plugin ≡ some routes
      → Memᴰ other routes
      → matches urls (with_slash urls rest) other ≡ true
      → (rp : RouteProxy urls) × Memᴰ rp routes
        × (matches urls (with_slash urls rest) rp ≡ true)
        × (length other.prefix ≤ length rp.prefix)
        × (serve_proxy urls mounts minter plugin rest header
            ≡ transform urls minter plugin (with_slash urls rest) header rp)
  unfolding serve_proxy
  serve_proxy-longest mounts minter plugin rest header routes other mounted m fits =
      let (rp, found, longer) =
        find_match-longest urls routes (with_slash urls rest) none other m fits in
      elim (find_match-From urls routes (with_slash urls rest) none rp found) [
        | inl e ↦ absurd cc
        | inr (mem, good) ↦ (rp, mem, good, longer, rw (serve_proxy, mounted, found) refl)
      ]

  -- On a route of service tokens, what reaches the upstream carries a token minted for the plugin, whatever
  -- the caller sent.
  pub transform-token :
      (minter : Minter) (plugin rest : Text) (header : Option Text) (rp : RouteProxy urls)
      (u : urls.Url) (path : Text) (sent : Option Text)
      → (rp.auth =? auth_service_token) ≡ true
      → transform urls minter plugin rest header rp ≡ forwarded u path sent
      → (mint : Text → Result Text Text) × (tok : Text) × (minter ≡ some mint)
        × (mint plugin ≡ ok tok)
        × (sent ≡ some (codes "Bearer " ++ tok))
  unfolding transform forward
  transform-token none plugin rest header rp u path sent auth h = absurd (ground (arith, auth, h))
  transform-token (some mint) plugin rest header rp u path sent auth h =
      elim (Result-cases (mint plugin)) [
        | inl (msg, failed) ↦ absurd (ground (arith, auth, h, failed))
        | inr (tok, minted) ↦ (mint, tok, refl, minted, ground (arith, auth, h, minted))
      ]

  serve_proxy-lookup :
      (m m' : Mounts urls) (minter : Minter) (plugin rest : Text) (header : Option Text)
      → lookup m plugin ≡ lookup m' plugin
      → serve_proxy urls m minter plugin rest header ≡ serve_proxy urls m' minter plugin rest header
  unfolding serve_proxy
  serve_proxy-lookup m m' minter plugin rest header h = rw (serve_proxy, h) refl

  -- Mounting a plugin and taking it away again, whether or not the mount succeeds, leaves the plugin's
  -- requests unserved and those of every other plugin as they were.
  pub unmount-mount :
      (mounts : Mounts urls) (minter : Minter) (plugin q rest : Text) (header : Option Text)
      (routes : List ApiRoute)
      → serve_proxy urls
          (unmount urls (mount urls mounts plugin routes).0 plugin)
          minter
          q
          rest
          header
        ≡ (if plugin =? q then not_mounted else serve_proxy urls mounts minter q rest header)
  unfolding serve_proxy mount unmount
  unmount-mount mounts minter plugin q rest header routes =
      elim (Option-cases (proxies urls routes)) [
        | inl bad ↦ rw (mount, bad) (ground (arith, lookup-delete mounts plugin q))
        | inr (ps, good) ↦ ground (
          arith,
          good,
          lookup-delete (insert mounts plugin ps) plugin q,
          lookup-insert mounts plugin q ps,
        )
      ]
