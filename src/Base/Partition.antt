-- ===== src/Base/Partition.antt =====
-- A loop that appends each element to one of two lists.
use mathlib.Core.Path.{◌≡◌}
use mathlib.Core.Logic.{inl, inr}
use mathlib.Core.Bool.{Bool, true, false}
use mathlib.Core.List.{List, [], ◌∷◌, ◌++◌, Perm, Memᴰ, perm_middle}
use mathlib.Core.List.Perm
use nova_nas.Base.Tests.{if◌then◌else◌, Bool-cases}

module _ {ℓ} {A : Type ℓ} (p : A → Bool) where
  -- Those that pass the test and those that do not, each in the order of the list.
  unfoldable pub partition_if : List A → List A × List A
  partition_if [] = ([], [])
  partition_if (x ∷ xs) =
      let (keep, drop) = partition_if xs in if p x then (x ∷ keep, drop) else (keep, x ∷ drop)

  pub partition_if-perm : (xs : List A) → Perm ((partition_if xs).0 ++ (partition_if xs).1) xs
  unfolding partition_if
  partition_if-perm [] = Perm.refl []
  partition_if-perm (x ∷ xs) = elim (Bool-cases (p x)) [
    | inl kept ↦ rw kept (Perm.cons x (partition_if-perm xs))
    | inr dropped ↦ rw dropped (Perm.trans (perm_middle _ _) (Perm.cons x (partition_if-perm xs)))
  ]

  abbrev pub AllAre : Bool → List A → Type 0
  AllAre b [] = Unit
  AllAre b (x ∷ xs) = (p x ≡ b) × AllAre b xs

  pub partition_if-AllAre :
      (xs : List A) → AllAre true (partition_if xs).0 × AllAre false (partition_if xs).1
  unfolding partition_if
  partition_if-AllAre [] = (tt, tt)
  partition_if-AllAre (x ∷ xs) = elim (Bool-cases (p x)) [
    | inl kept ↦ rw kept ((kept, (partition_if-AllAre xs).0), (partition_if-AllAre xs).1)
    | inr dropped ↦ rw dropped ((partition_if-AllAre xs).0, (dropped, (partition_if-AllAre xs).1))
  ]

  -- What passes the test is in the first list, and what does not is in the second.
  pub partition_if-mem :
      {a : A} {xs : List A}
      → Memᴰ a xs
      → (p a ≡ true → Memᴰ a (partition_if xs).0) × (p a ≡ false → Memᴰ a (partition_if xs).1)
  unfolding partition_if
  partition_if-mem {a} (Memᴰ.head {x} {xs} e) = elim (Bool-cases (p x)) [
    | inl kept ↦ rw kept (λ _. Memᴰ.head e, λ f. cc (rw e at f))
    | inr dropped ↦ rw dropped (λ t. cc (rw e at t), λ _. Memᴰ.head e)
  ]
  partition_if-mem {a} (Memᴰ.tail {x} {xs} m) = elim (Bool-cases (p x)) [
    | inl kept ↦ rw kept (λ t. Memᴰ.tail ((partition_if-mem m).0 t), (partition_if-mem m).1)
    | inr dropped ↦ rw dropped ((partition_if-mem m).0, λ f. Memᴰ.tail ((partition_if-mem m).1 f))
  ]

  -- The second list has only elements that do not pass it.
  pub mem_of_dropped :
      {a : A} (xs : List A) → Memᴰ a (partition_if xs).1 → Memᴰ a xs × (p a ≡ false)
  unfolding partition_if
  mem_of_dropped [] m = elim m [ ]
  mem_of_dropped {a} (x ∷ xs) m = elim (Bool-cases (p x)) [
    | inl kept ↦ let (l, f) = mem_of_dropped xs (rw (partition_if, kept) at m) in (Memᴰ.tail l, f)
    | inr dropped ↦ elim (rw (partition_if, dropped) at m) [
      | Memᴰ.head e ↦ (Memᴰ.head e, rw e dropped)
      | Memᴰ.tail r ↦ let (l, f) = mem_of_dropped xs r in (Memᴰ.tail l, f)
    ]
  ]
