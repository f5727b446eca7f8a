-- ===== src/Plugins/Lifecycle/Consistency.antt =====
-- Whether a plugin is served, by the router or with its user interface, without a row of the store.
pub mod Parts
pub mod Operations
pub mod Steps
use nova_nas.Base.{
  Bool, true, false, not, ◌&&◌, ◌||◌, Option, none, some, List, [], ◌∷◌, Text, text_eq, lookup,
}
use nova_nas.Plugins.Router.{is_mounted}
use nova_nas.Plugins.Lifecycle.{Engine, World}

module _ (env : Engine) where
  abbrev pub mounted : World env → Text → Bool
  mounted w q = elim w.router as (λ _. Bool) [
    | none ↦ false
    | some mounts ↦ is_mounted env.urls mounts q
  ]

  abbrev pub served : World env → Text → Bool
  served w q = elim w.ui as (λ _. Bool) [
    | none ↦ false
    | some dirs ↦ elim (lookup dirs q) as (λ _. Bool) [ none ↦ false | some _ ↦ true ]
  ]

  abbrev pub has_row : World env → Text → Bool
  has_row w q = elim (lookup w.plugins q) as (λ _. Bool) [ none ↦ false | some _ ↦ true ]

  abbrev pub orphan : World env → Text → Bool
  orphan w q = (mounted w q || served w q) && not (has_row w q)
