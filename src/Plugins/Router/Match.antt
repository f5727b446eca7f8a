-- ===== src/Plugins/Router/Match.antt =====
-- The loop of `ServeProxy` over a plugin's routes.
use mathlib.Core.List.{Memᴰ}
use nova_nas.Base.{
  ◌≡◌, refl, sym, ap, ◌∙◌, ◌⊎◌, inl, inr, true, ◌&&◌, Option, none, some, List, [], ◌∷◌, Text,
  length, ltb, ◌≤◌, if◌then◌else◌, arith, Bool-cases,
}
use nova_nas.Plugins.Router.{UrlParser, RouteProxy, matches, longer_than, find_match}

module _ (urls : UrlParser) where
  -- The route found is one of the routes that match, or the best so far.
  abbrev pub From :
      List (RouteProxy urls) → Text → Option (RouteProxy urls) → RouteProxy urls → Type 0
  From routes rest best rp = (best ≡ some rp) ⊎ (Memᴰ rp routes × (matches urls rest rp ≡ true))

  pub find_match-From :
      (routes : List (RouteProxy urls)) (rest : Text) (best : Option (RouteProxy urls))
      (rp : RouteProxy urls)
      → find_match urls routes rest best ≡ some rp
      → From routes rest best rp
  unfolding find_match
  find_match-From [] rest best rp h = inl h
  find_match-From (x ∷ routes) rest best rp h =
      elim (Bool-cases (matches urls rest x && longer_than urls x best)) [
        | inl take ↦ elim (find_match-From routes rest (some x) rp (rw (find_match, take) at h)) [
          | inl e ↦
              let same : (x ≡ rp) = cc in
              inr (Memᴰ.head (sym same), ap (matches urls rest) (sym same) ∙ ground (arith, take))
          | inr (m, fits) ↦ inr (Memᴰ.tail m, fits)
        ]
        | inr skip ↦ elim (find_match-From routes rest best rp (rw (find_match, skip) at h)) [
          | inl e ↦ inl e
          | inr (m, fits) ↦ inr (Memᴰ.tail m, fits)
        ]
      ]

  -- The best so far is never longer than the route found.
  find_match-old :
      (routes : List (RouteProxy urls)) (rest : Text) (old rp : RouteProxy urls)
      → find_match urls routes rest (some old) ≡ some rp
      → length old.prefix ≤ length rp.prefix
  unfolding find_match longer_than
  find_match-old [] rest old rp h = let e : (old ≡ rp) = cc in rw e (ground arith)
  find_match-old (x ∷ routes) rest old rp h =
      elim (Bool-cases (matches urls rest x && ltb (length old.prefix) (length x.prefix))) [
        | inl take ↦
            let later = find_match-old routes rest x rp (rw (find_match, longer_than, take) at h) in
            ground (arith, take, later)
        | inr skip ↦ find_match-old routes rest old rp (rw (find_match, longer_than, skip) at h)
      ]

  find_match-some :
      (routes : List (RouteProxy urls)) (rest : Text) (old : RouteProxy urls)
      → (rp : RouteProxy urls) × (find_match urls routes rest (some old) ≡ some rp)
  unfolding find_match longer_than
  find_match-some [] rest old = (old, refl)
  find_match-some (x ∷ routes) rest old =
      elim (Bool-cases (matches urls rest x && ltb (length old.prefix) (length x.prefix))) [
        | inl take ↦ rw (find_match, longer_than, take) (find_match-some routes rest x)
        | inr skip ↦ rw (find_match, longer_than, skip) (find_match-some routes rest old)
      ]

  -- A route that matches makes the loop find a route at least as long.
  pub find_match-longest :
      (routes : List (RouteProxy urls)) (rest : Text) (best : Option (RouteProxy urls))
      (other : RouteProxy urls)
      → Memᴰ other routes
      → matches urls rest other ≡ true
      → (rp : RouteProxy urls) × (find_match urls routes rest best ≡ some rp)
        × (length other.prefix ≤ length rp.prefix)
  unfolding find_match longer_than
  find_match-longest [] rest best other m fits = elim m [ ]
  find_match-longest (x ∷ routes) rest none other (Memᴰ.head e) fits =
      let fits' : (matches urls rest x ≡ true) = ap (matches urls rest) (sym e) ∙ fits in
      let (rp, found) = find_match-some routes rest x in
      (rp, rw (find_match, longer_than, fits') found, rw e (find_match-old routes rest x rp found))
  find_match-longest (x ∷ routes) rest (some old) other (Memᴰ.head e) fits =
      let fits' : (matches urls rest x ≡ true) = ap (matches urls rest) (sym e) ∙ fits in
      elim (Bool-cases (ltb (length old.prefix) (length x.prefix))) [
        | inl more ↦
            let (rp, found) = find_match-some routes rest x in
            (
              rp,
              rw (find_match, longer_than, fits', more) found,
              rw e (find_match-old routes rest x rp found),
            )
        | inr less ↦
            let (rp, found) = find_match-some routes rest old in
            (
              rp,
              rw (find_match, longer_than, fits', less) found,
              rw e (ground (arith, less, find_match-old routes rest old rp found)),
            )
      ]
  find_match-longest (x ∷ routes) rest best other (Memᴰ.tail m) fits =
      find_match-longest routes rest
        (if matches urls rest x && longer_than urls x best then some x else best) other m fits
