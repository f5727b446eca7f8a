-- ===== src/Plugins/Dependencies/Tree.antt =====
-- internal/plugins/dependencies.go: the tree of a plugin's direct dependencies.
use nova_nas.Base.{
  Bool, true, false, Option, none, some, List, [], ◌∷◌, ◌==◌, if◌then◌else◌, length, Text, text_eq,
  ◌=?◌, Result, ok, err, pos, ltb_ℤ,
}
use nova_nas.Plugins.Dependencies.Versions.{
  Semver, ResolveError, too_deep, root_is_nil, constraint_satisfied,
}
use nova_nas.Plugins.Dependencies.{depth_limit, Dependency, Plugin, Resolver, tier2, bundled}

-- A node of the tree. The tree has one level: a child's own children are never filled in.
pub record TreeNode : Type 0 where
  pub name : Text
  pub version : Text
  pub constraint : Text
  pub source : Text
  pub installed : Bool
  pub satisfied : Bool

module _ (semver : Semver) where
  abbrev new_child : Dependency → TreeNode
  new_child dep = record {
    name = dep.name;
    version = [];
    constraint = dep.version_constraint;
    source = dep.source;
    installed = false;
    satisfied = false;
  }

  -- An error of the lookup counts as not installed.
  unfoldable pub with_installed : Resolver → Dependency → TreeNode → TreeNode
  with_installed r dep child = elim r.installed [
    | none ↦ child
    | some find ↦ elim (find dep.name) as (λ _. TreeNode) [
      | err _ ↦ child
      | ok none ↦ child
      | ok (some cur) ↦ record child {
        installed = true;
        version = cur;
        satisfied = constraint_satisfied semver dep.version_constraint cur;
      }
    ]
  ]

  -- `newest` is the version that the marketplace gives for an empty version, if it has one.
  unfoldable pub with_newest : Option Text → TreeNode → TreeNode
  with_newest none child = child
  with_newest (some newest) child =
      if length child.version == 0 then record child { version = newest } else child

  unfoldable pub tree_child : Resolver → (Text → Option Text) → Dependency → TreeNode
  tree_child r newest dep =
      if dep.source =? bundled
      then record (new_child dep) { satisfied = true }
      else with_newest (newest dep.name) (with_installed r dep (new_child dep))

  unfoldable pub tree_children : Resolver → (Text → Option Text) → List Dependency → List TreeNode
  tree_children r newest [] = []
  tree_children r newest (dep ∷ deps) = tree_child r newest dep ∷ tree_children r newest deps

  -- `Tree` of a root, whose walk is at depth 0 and visits no other plugin.
  unfoldable pub tree :
      Resolver
      → (Text → Option Text)
      → Option Plugin
      → Result ResolveError (TreeNode × List TreeNode)
  tree r newest none = err root_is_nil
  tree r newest (some m) =
      if ltb_ℤ (depth_limit r) (pos 0)
      then err too_deep
      else ok (
        record {
          name = m.name;
          version = m.version;
          constraint = [];
          source = tier2;
          installed = false;
          satisfied = false;
        },
        tree_children r newest m.dependencies,
      )
