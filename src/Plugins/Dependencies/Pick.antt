-- ===== src/Plugins/Dependencies/Pick.antt =====
-- `pickHighestSatisfying` of internal/plugins/dependencies.go.
use mathlib.Core.List.{Memᴰ}
use nova_nas.Base.{
  ◌≡◌, refl, sym, ap, ◌∙◌, ◌⊎◌, inl, inr, true, false, ◌&&◌, Option, none, some, List, [], ◌∷◌,
  if◌then◌else◌, Text, ok, Bool-cases, Option-cases, arith, length, ◌==◌,
}
use nova_nas.Plugins.Dependencies.Versions.{
  Semver, Best, allowed, better, pick_best, picked, pick_highest_satisfying, filter_empty, join,
}

-- What the version library documents of its order.
pub record Ordered (semver : Semver) : Type 0 where
  pub irreflexive : (v : semver.Version) → semver.greater_than v v ≡ false
  pub no_greater :
      (a b c : semver.Version)
      → semver.greater_than a b ≡ false
      → semver.greater_than b c ≡ false
      → semver.greater_than a c ≡ false
  pub asymmetric :
      (a b : semver.Version) → semver.greater_than a b ≡ true → semver.greater_than b a ≡ false

module _ (semver : Semver) (ordered : Ordered semver) (c : Option semver.Constraints) where
  -- The best so far is never greater than the best in the end.
  pick_best-old :
      (versions : List Text) (b v : semver.Version) (braw raw : Text)
      → pick_best semver c versions (some (b, braw)) ≡ some (v, raw)
      → semver.greater_than b v ≡ false
  unfolding pick_best better
  pick_best-old [] b v braw raw h = let e : (b ≡ v) = cc in rw e (ordered.irreflexive v)
  pick_best-old (w ∷ versions) b v braw raw h = elim (Option-cases (semver.new_version w)) [
    | inl bad ↦ pick_best-old versions b v braw raw (rw (pick_best, bad) at h)
    | inr (x, parsed) ↦ elim (Bool-cases (allowed semver c x && semver.greater_than x b)) [
      | inl take_it ↦
          let later =
            pick_best-old versions x v w raw (rw (pick_best, parsed, better, take_it) at h) in
          ordered.no_greater b x v (ordered.asymmetric x b (ground (arith, take_it))) later
      | inr keep ↦ pick_best-old versions b v braw raw (rw (pick_best, parsed, better, keep) at h)
    ]
  ]

  pick_best-max :
      (versions : List Text) (best : Best semver) (v : semver.Version) (raw w : Text)
      (x : semver.Version)
      → pick_best semver c versions best ≡ some (v, raw)
      → Memᴰ w versions
      → semver.new_version w ≡ some x
      → allowed semver c x ≡ true
      → semver.greater_than x v ≡ false
  unfolding pick_best better
  pick_best-max [] best v raw w x h m parsed fine = elim m [ ]
  pick_best-max (u ∷ versions) none v raw w x h (Memᴰ.head same) parsed fine =
      let here : (semver.new_version u ≡ some x) = ap semver.new_version (sym same) ∙ parsed in
      pick_best-old versions x v u raw (rw (pick_best, here, better, fine) at h)
  pick_best-max (u ∷ versions) (some (b, braw)) v raw w x h (Memᴰ.head same) parsed fine =
      let here : (semver.new_version u ≡ some x) = ap semver.new_version (sym same) ∙ parsed in
      elim (Bool-cases (semver.greater_than x b)) [
        | inl more ↦
            pick_best-old versions x v u raw (rw (pick_best, here, better, fine, more) at h)
        | inr less ↦
            ordered.no_greater x b v less
              (pick_best-old versions b v braw raw (rw (pick_best, here, better, fine, less) at h))
      ]
  pick_best-max (u ∷ versions) best v raw w x h (Memᴰ.tail m) parsed fine =
      elim (Option-cases (semver.new_version u)) [
        | inl bad ↦ pick_best-max versions best v raw w x (rw (pick_best, bad) at h) m parsed fine
        | inr (y, good) ↦
            pick_best-max versions
              (if allowed semver c y && better semver best y then some (y, u) else best) v raw w x
              (rw (pick_best, good) at h) m parsed fine
      ]

  -- Where the best in the end comes from.
  abbrev pub Found : List Text → Best semver → semver.Version → Text → Type 0
  Found versions best v raw =
      (best ≡ some (v, raw))
      ⊎ (Memᴰ raw versions × (semver.new_version raw ≡ some v) × (allowed semver c v ≡ true))

  Found-cons :
      (u : Text) {versions : List Text} {best : Best semver} {v : semver.Version} {raw : Text}
      → Found versions best v raw
      → Found (u ∷ versions) best v raw
  Found-cons u (inl old) = inl old
  Found-cons u (inr (m, parsed, fine)) = inr (Memᴰ.tail m, parsed, fine)

  Found-taken :
      (u : Text) {versions : List Text} (best : Best semver) {v : semver.Version} {raw : Text}
      (y : semver.Version)
      → semver.new_version u ≡ some y
      → allowed semver c y ≡ true
      → Found versions (some (y, u)) v raw
      → Found (u ∷ versions) best v raw
  Found-taken u best {v} {raw} y good fine (inl e) =
      let same : (y ≡ v) = cc in
      let written : (raw ≡ u) = cc in
      inr (
        Memᴰ.head written,
        ap semver.new_version written ∙ good ∙ ap some same,
        ap (allowed semver c) (sym same) ∙ fine,
      )
  Found-taken u best y good fine (inr (m, parsed, good_too)) = inr (Memᴰ.tail m, parsed, good_too)

  pick_best-Found :
      (versions : List Text) (best : Best semver) (v : semver.Version) (raw : Text)
      → pick_best semver c versions best ≡ some (v, raw)
      → Found versions best v raw
  unfolding pick_best
  pick_best-Found [] best v raw h = inl h
  pick_best-Found (u ∷ versions) best v raw h = elim (Option-cases (semver.new_version u)) [
    | inl bad ↦ Found-cons u (pick_best-Found versions best v raw (rw (pick_best, bad) at h))
    | inr (y, good) ↦ elim (Bool-cases (allowed semver c y && better semver best y)) [
      | inl take_it ↦
          Found-taken u best y good (ground (arith, take_it))
            (pick_best-Found versions (some (y, u)) v raw (rw (pick_best, good, take_it) at h))
      | inr keep ↦
          Found-cons u (pick_best-Found versions best v raw (rw (pick_best, good, keep) at h))
    ]
  ]

-- `v`, written `raw` in the list, is allowed, and no allowed version of the list is greater.
pub record Highest (semver : Semver) (c : Option semver.Constraints) (versions : List Text)
    (raw : Text) : Type 0 where
  pub version : semver.Version
  pub listed : Memᴰ raw versions
  pub parsed : semver.new_version raw ≡ some version
  pub fits : allowed semver c version ≡ true
  pub highest :
      (w : Text) (x : semver.Version)
      → Memᴰ w versions
      → semver.new_version w ≡ some x
      → allowed semver c x ≡ true
      → semver.greater_than x version ≡ false

picked-Highest :
    (semver : Semver) (ordered : Ordered semver) (c : Option semver.Constraints)
    (versions : List Text) (raw : Text)
    → picked semver (pick_best semver c versions none) ≡ ok raw
    → Highest semver c versions raw
picked-Highest semver ordered c versions raw h =
    elim (Option-cases (pick_best semver c versions none)) [
      | inl nothing ↦ absurd (ground (arith, nothing, h))
      | inr ((v, r), best) ↦
          let same : (r ≡ raw) = ground (arith, best, h) in
          elim (pick_best-Found semver ordered c versions none v r best) [
            | inl impossible ↦ absurd cc
            | inr (m, parsed, fine) ↦ rw (← same) (record {
              version = v;
              listed = m;
              parsed = parsed;
              fits = fine;
              highest = λ w x. pick_best-max semver ordered c versions none v r w x best;
            })
          ]
    ]

-- The constraints as one: none at all when all are blank, and else what the library makes of them joined.
pub data Combined (semver : Semver) (cs : List Text) (c : Option semver.Constraints) : Type 0 where
  unbounded : filter_empty cs ≡ [] → c ≡ none → Combined semver cs c
  joined :
      (k : semver.Constraints)
      → semver.new_constraint (join (filter_empty cs)) ≡ some k
      → c ≡ some k
      → Combined semver cs c

-- The version that `pickHighestSatisfying` picks is one of those given, fits the constraints joined, and
-- no version given that fits them is greater, for a version library whose order is one.
pub pick_highest_satisfying-Highest :
    (semver : Semver) (ordered : Ordered semver) (versions constraints : List Text) (raw : Text)
    → pick_highest_satisfying semver versions constraints ≡ ok raw
    → (c : Option semver.Constraints) × Combined semver constraints c
      × Highest semver c versions raw
unfolding pick_highest_satisfying
pick_highest_satisfying-Highest semver ordered versions constraints raw h =
    elim (Bool-cases (length (filter_empty constraints) == 0)) [
      | inl free ↦ (
        none,
        Combined.unbounded (ground (arith, free)) refl,
        picked-Highest semver ordered none versions raw (rw (pick_highest_satisfying, free) at h),
      )
      | inr bounded ↦
          elim (Option-cases (semver.new_constraint (join (filter_empty constraints)))) [
            | inl bad ↦ absurd (ground (arith, bounded, bad, h))
            | inr (k, good) ↦ (
              some k,
              Combined.joined k good refl,
              picked-Highest semver ordered (some k) versions raw
                  (rw (pick_highest_satisfying, bounded, good) at h),
            )
          ]
    ]
