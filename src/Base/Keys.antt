-- ===== src/Base/Keys.antt =====
-- Types with a Boolean equality, and Go maps over such keys as association lists.
use Prim.Native.String.{String}
use mathlib.Core.Path.{◌≡◌, refl, sym, ap}
use mathlib.Core.Logic.{◌↔◌, ◌≢◌, inl, inr}
use mathlib.Core.Bool.{Bool, true, false, ◌||◌}
use mathlib.Core.List.{List, [], ◌∷◌, ◌++◌, Memᴰ, reverse, reverse-append}
use mathlib.Core.Option.{Option, none, some}
use native.Mathlib.Omega.{arith}
use text.Mathlib.Text.{◌==◌ as str_eq}
use text.Mathlib.TextEquality.{eq_iff}
use Prim.Native.Nat.{ℕ}
use nova_nas.Base.Tests.{◌==◌, ==_iff, if◌then◌else◌, Bool-cases}

pub record Eq {ℓ} (A : Type ℓ) : Type ℓ where
  pub beq : A → A → Bool
  pub beq_iff : (a b : A) → (beq a b ≡ true) ↔ (a ≡ b)

instance abbrev pub string_eq : Eq String
string_eq = record { beq = str_eq; beq_iff = eq_iff }

instance abbrev pub nat_eq : Eq ℕ
nat_eq = record { beq = ◌==◌; beq_iff = ==_iff }

-- Go's `==` on a key.
infix 50 ◌=?◌
abbrev pub ◌=?◌ {ℓ} : {A : Type ℓ} ⦃e : Eq A⦄ → A → A → Bool
◌=?◌ ⦃e⦄ = e.beq

module _ {ℓ} {A : Type ℓ} ⦃e : Eq A⦄ where
  pub =?_refl : (a : A) → (a =? a) ≡ true
  =?_refl a = (e.beq_iff a a).1 refl

  pub =?_false : {a b : A} → a ≢ b → (a =? b) ≡ false
  =?_false {a} {b} h = elim (Bool-cases (a =? b)) [
    | inl t ↦ absurd (h ((e.beq_iff a b).0 t))
    | inr f ↦ f
  ]

  unfoldable pub contains : List A → A → Bool
  contains [] a = false
  contains (x ∷ xs) a = x =? a || contains xs a

  pub contains_sound : (xs : List A) (a : A) → contains xs a ≡ true → Memᴰ a xs
  unfolding contains
  contains_sound [] a h = cc
  contains_sound (x ∷ xs) a h = elim (Bool-cases (x =? a)) [
    | inl t ↦ Memᴰ.head (sym ((e.beq_iff x a).0 t))
    | inr f ↦ Memᴰ.tail (contains_sound xs a (rw f at h))
  ]

  pub contains_complete : {a : A} {xs : List A} → Memᴰ a xs → contains xs a ≡ true
  unfolding contains
  contains_complete {a} (Memᴰ.head {x = b} {xs = l} p) = ground (arith, (e.beq_iff b a).1 (sym p))
  contains_complete {a} (Memᴰ.tail {xs = l} m) = ground (arith, contains_complete m)

  pub contains-append :
      (xs ys : List A) (a : A) → contains (xs ++ ys) a ≡ (contains xs a || contains ys a)
  unfolding contains
  contains-append [] ys a = refl
  contains-append (x ∷ xs) ys a = ground (arith, contains-append xs ys a)

  pub contains-reverse : (xs : List A) (a : A) → contains (reverse xs) a ≡ contains xs a
  unfolding contains
  contains-reverse [] a = refl
  contains-reverse (x ∷ xs) a = ground (
    arith,
    ap (λ l. contains l a) (reverse-append (x ∷ []) xs),
    contains-append (reverse xs) (x ∷ []) a,
    contains-reverse xs a,
  )

module _ {ℓ κ} {K : Type ℓ} {V : Type κ} ⦃e : Eq K⦄ where
  -- `m[k]`
  unfoldable pub lookup : List (K × V) → K → Option V
  lookup [] k = none
  lookup ((j, v) ∷ m) k = if j =? k then some v else lookup m k

  -- `m[k] = v`
  unfoldable pub insert : List (K × V) → K → V → List (K × V)
  insert [] k v = (k, v) ∷ []
  insert ((j, w) ∷ m) k v = if j =? k then (j, v) ∷ m else (j, w) ∷ insert m k v

  -- `delete(m, k)`
  unfoldable pub delete : List (K × V) → K → List (K × V)
  delete [] k = []
  delete ((j, w) ∷ m) k = let rest = delete m k in if j =? k then rest else (j, w) ∷ rest

  pub lookup-insert :
      (m : List (K × V)) (k j : K) (v : V)
      → lookup (insert m k v) j ≡ (if k =? j then some v else lookup m j)
  unfolding lookup insert
  lookup-insert [] k j v = refl
  lookup-insert ((i, w) ∷ m) k j v =
      ground (arith, e.beq_iff k j, e.beq_iff i k, e.beq_iff i j, lookup-insert m k j v)

  pub lookup-delete :
      (m : List (K × V)) (k j : K) → lookup (delete m k) j ≡ (if k =? j then none else lookup m j)
  unfolding lookup delete
  lookup-delete [] k j = ground arith
  lookup-delete ((i, w) ∷ m) k j =
      ground (arith, e.beq_iff k j, e.beq_iff i k, e.beq_iff i j, lookup-delete m k j)
