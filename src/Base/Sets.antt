-- ===== src/Base/Sets.antt =====
-- Membership in the lists that the loops over Go maps and sets make.
use mathlib.Core.Path.{◌≡◌, refl, ap, ◌∙◌}
use mathlib.Core.Logic.{inl, inr}
use mathlib.Core.Bool.{Bool, ◌&&◌, ◌||◌}
use mathlib.Core.List.{List, [], ◌∷◌}
use native.Mathlib.Omega.{arith}
use nova_nas.Base.Tests.{if◌then◌else◌, Bool-cases}
use nova_nas.Base.Keys.{Eq, ◌=?◌, contains, insert}
use nova_nas.Base.Lists.{keep_if}
use nova_nas.Base.Sorting.{insert_sorted, sort_stable}

-- The keys of a map, in the order of its list.
unfoldable pub keys_of {ℓ κ} : {K : Type ℓ} {V : Type κ} → List (K × V) → List K
keys_of [] = []
keys_of ((k, v) ∷ m) = k ∷ keys_of m

module _ {ℓ} {A : Type ℓ} ⦃e : Eq A⦄ where
  -- A set of names as a list that has each once.
  unfoldable pub set_of : List A → List A
  set_of [] = []
  set_of (n ∷ ns) = let rest = set_of ns in if contains rest n then rest else n ∷ rest

  pub contains-set_of : (ns : List A) (a : A) → contains (set_of ns) a ≡ contains ns a
  unfolding set_of contains
  contains-set_of [] a = refl
  contains-set_of (n ∷ ns) a = elim (Bool-cases (n =? a)) [
    | inr f ↦ ground (arith, contains-set_of ns a)
    | inl t ↦
        let same : (n ≡ a) = (e.beq_iff n a).0 t in
        ground (arith, contains-set_of ns a, ap (contains (set_of ns)) same)
  ]

  contains-insert_sorted :
      (before : A → A → Bool) (x : A) (xs : List A) (a : A)
      → contains (insert_sorted before x xs) a ≡ (x =? a || contains xs a)
  unfolding insert_sorted contains
  contains-insert_sorted before x [] a = refl
  contains-insert_sorted before x (y ∷ ys) a = ground (arith, contains-insert_sorted before x ys a)

  -- Sorting changes no set.
  pub contains-sort_stable :
      (before : A → A → Bool) (xs : List A) (a : A)
      → contains (sort_stable before xs) a ≡ contains xs a
  unfolding sort_stable contains
  contains-sort_stable before [] a = refl
  contains-sort_stable before (x ∷ xs) a =
      contains-insert_sorted before x (sort_stable before xs) a
      ∙ ap (λ b. x =? a || b) (contains-sort_stable before xs a)

  pub contains-keep_if :
      (p : A → Bool) (xs : List A) (a : A) → contains (keep_if p xs) a ≡ (p a && contains xs a)
  unfolding keep_if contains
  contains-keep_if p [] a = ground arith
  contains-keep_if p (x ∷ xs) a = elim (Bool-cases (x =? a)) [
    | inr f ↦ ground (arith, contains-keep_if p xs a)
    | inl t ↦ ground (arith, contains-keep_if p xs a, ap p ((e.beq_iff x a).0 t))
  ]

  pub contains-keys_of-insert {κ} :
      {V : Type κ} (m : List (A × V)) (k : A) (v : V) (a : A)
      → contains (keys_of (insert m k v)) a ≡ (k =? a || contains (keys_of m) a)
  unfolding keys_of insert contains
  contains-keys_of-insert [] k v a = refl
  contains-keys_of-insert ((j, w) ∷ m) k v a = elim (Bool-cases (j =? k)) [
    | inr f ↦ ground (arith, contains-keys_of-insert m k v a)
    | inl t ↦ ground (arith, ap (λ i. i =? a) ((e.beq_iff j k).0 t))
  ]
