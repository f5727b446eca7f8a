-- ===== src/Plugins/Dependencies/Versions.antt =====
-- internal/plugins/dependencies.go: constraints on versions, and the version that is picked. The version library
-- is an argument: a constraint and a version are what the library's parsers make of a text, or nothing when it
-- refuses it.
use nova_nas.Base.{
  Bool, true, false, not, ◌&&◌, Option, none, some, List, [], ◌∷◌, ◌++◌, ◌==◌, if◌then◌else◌,
  length, Text, text_eq, trim_space, Result, ok, err,
}

-- The calls of github.com/Masterminds/semver.
pub record Semver : Type 1 where
  pub Version : Type 0
  pub Constraints : Type 0
  pub new_version : Text → Option Version
  pub new_constraint : Text → Option Constraints
  pub check : Constraints → Version → Bool
  pub greater_than : Version → Version → Bool

pub data ResolveError : Type 0 where
  too_deep cycle unknown_source installed_lookup unsatisfiable no_marketplace : ResolveError
  marketplace_lookup invalid_constraint no_version root_is_nil : ResolveError

-- `strings.TrimSpace(s) == ""`
unfoldable pub is_blank : Text → Bool
is_blank s = length (trim_space s) == 0

unfoldable pub filter_empty : List Text → List Text
filter_empty [] = []
filter_empty (s ∷ ss) = let rest = filter_empty ss in if not (is_blank s) then s ∷ rest else rest

-- `strings.Join(ss, ",")`
unfoldable pub join : List Text → Text
join [] = []
join (s ∷ []) = s
join (s ∷ t ∷ ss) = s ++ b',' ∷ join (t ∷ ss)

module _ (semver : Semver) where
  unfoldable pub constraint_satisfied : Text → Text → Bool
  constraint_satisfied constraint ver =
      if is_blank constraint then true else elim (semver.new_constraint constraint) as (λ _. Bool) [
        | none ↦ false
        | some c ↦ elim (semver.new_version ver) as (λ _. Bool) [
          | none ↦ false
          | some v ↦ semver.check c v
        ]
      ]

  -- `none` stands for no constraint at all.
  abbrev pub allowed : Option semver.Constraints → semver.Version → Bool
  allowed none v = true
  allowed (some c) v = semver.check c v

  -- The best version so far, parsed and as it is written.
  abbrev pub Best : Type 0
  Best = Option (semver.Version × Text)

  unfoldable pub better : Best → semver.Version → Bool
  better none v = true
  better (some (b, _)) v = semver.greater_than v b

  -- The loop of `pickHighestSatisfying`.
  unfoldable pub pick_best : Option semver.Constraints → List Text → Best → Best
  pick_best c [] best = best
  pick_best c (raw ∷ versions) best = elim (semver.new_version raw) as (λ _. Best) [
    | none ↦ pick_best c versions best
    | some v ↦ pick_best c versions (if allowed c v && better best v then some (v, raw) else best)
  ]

  abbrev pub picked : Best → Result ResolveError Text
  picked none = err no_version
  picked (some (_, raw)) = ok raw

  unfoldable pub pick_highest_satisfying : List Text → List Text → Result ResolveError Text
  pick_highest_satisfying versions constraints =
      let cs = filter_empty constraints in
      let unbounded = picked (pick_best none versions none) in
      if length cs == 0
      then unbounded
      else elim (semver.new_constraint (join cs)) as (λ _. Result ResolveError Text) [
        | none ↦ err invalid_constraint
        | some c ↦ picked (pick_best (some c) versions none)
      ]
