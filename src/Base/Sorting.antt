-- ===== src/Base/Sorting.antt =====
-- Go's `sort.SliceStable` by a Boolean order, and the first element of each bucket of a list.
use Prim.Native.Nat.{ℕ, zero, suc}
use mathlib.Core.Path.{◌≡◌, refl, sym, subst, ap}
use mathlib.Core.Logic.{◌⊎◌, inl, inr}
use mathlib.Core.Bool.{Bool, true, false}
use mathlib.Core.List.{List, [], ◌∷◌, Perm, Memᴰ}
use mathlib.Core.List.Perm
use nova_nas.Base.Tests.{if◌then◌else◌, Bool-cases, ◌==◌, ==_iff}
use nova_nas.Base.Keys.{contains, nat_eq}
use nova_nas.Base.Lists.{take}

module _ {ℓ} {A : Type ℓ} (before : A → A → Bool) where
  -- `x` goes behind what stands before it, and in front of its equals.
  unfoldable pub insert_sorted : A → List A → List A
  insert_sorted x [] = x ∷ []
  insert_sorted x (y ∷ ys) =
      let rest = insert_sorted x ys in if before y x then y ∷ rest else x ∷ y ∷ ys

  unfoldable pub sort_stable : List A → List A
  unfolding insert_sorted
  sort_stable [] = []
  sort_stable (x ∷ xs) = insert_sorted x (sort_stable xs)

  pub insert_sorted-perm : (x : A) (xs : List A) → Perm (insert_sorted x xs) (x ∷ xs)
  unfolding insert_sorted
  insert_sorted-perm x [] = Perm.refl (x ∷ [])
  insert_sorted-perm x (y ∷ ys) = elim (Bool-cases (before y x)) [
    | inl b ↦ rw b (Perm.trans (Perm.cons y (insert_sorted-perm x ys)) (Perm.swap x y ys))
    | inr n ↦ rw n (Perm.refl (x ∷ y ∷ ys))
  ]

  pub sort_stable-perm : (xs : List A) → Perm (sort_stable xs) xs
  unfolding sort_stable
  sort_stable-perm [] = Perm.refl []
  sort_stable-perm (x ∷ xs) =
      Perm.trans (insert_sorted-perm x (sort_stable xs)) (Perm.cons x (sort_stable-perm xs))

  mem-insert_sorted_self : (x : A) (xs : List A) → Memᴰ x (insert_sorted x xs)
  unfolding insert_sorted
  mem-insert_sorted_self x [] = Memᴰ.head refl
  mem-insert_sorted_self x (y ∷ ys) = elim (Bool-cases (before y x)) [
    | inl b ↦ rw b (Memᴰ.tail (mem-insert_sorted_self x ys))
    | inr n ↦ rw n (Memᴰ.head refl)
  ]

  mem-insert_sorted : {a : A} (x : A) {xs : List A} → Memᴰ a xs → Memᴰ a (insert_sorted x xs)
  unfolding insert_sorted
  mem-insert_sorted x (Memᴰ.head {x = y} {xs = ys} e) = elim (Bool-cases (before y x)) [
    | inl b ↦ rw b (Memᴰ.head e)
    | inr n ↦ rw n (Memᴰ.tail (Memᴰ.head e))
  ]
  mem-insert_sorted x (Memᴰ.tail {x = y} {xs = ys} m) = elim (Bool-cases (before y x)) [
    | inl b ↦ rw b (Memᴰ.tail (mem-insert_sorted x m))
    | inr n ↦ rw n (Memᴰ.tail (Memᴰ.tail m))
  ]

  -- Sorting loses no element.
  pub mem-sort_stable : {a : A} {xs : List A} → Memᴰ a xs → Memᴰ a (sort_stable xs)
  unfolding sort_stable
  mem-sort_stable {a} (Memᴰ.head {x = y} {xs = ys} e) =
      subst (λ b. Memᴰ b (insert_sorted y (sort_stable ys))) (sym e)
        (mem-insert_sorted_self y (sort_stable ys))
  mem-sort_stable (Memᴰ.tail {x = y} {xs = ys} m) = mem-insert_sorted y (mem-sort_stable m)

  -- No element of the list stands before `x`.
  abbrev pub NoneBefore : A → List A → Type 0
  NoneBefore x [] = Unit
  NoneBefore x (y ∷ ys) = (before y x ≡ false) × NoneBefore x ys

  abbrev pub SortedBy : List A → Type 0
  SortedBy [] = Unit
  SortedBy (x ∷ xs) = NoneBefore x xs × SortedBy xs

  pub NoneBefore-mem :
      {a : A} (x : A) {xs : List A} → NoneBefore x xs → Memᴰ a xs → before a x ≡ false
  NoneBefore-mem x n (Memᴰ.head e) = rw e n.0
  NoneBefore-mem x n (Memᴰ.tail m) = NoneBefore-mem x n.1 m

  -- `before` is a strict weak order.
  pub record IsOrder : Type ℓ where
    pub asymm : (x y : A) → before x y ≡ true → before y x ≡ false
    pub trans : (x y z : A) → before y x ≡ false → before z y ≡ false → before z x ≡ false

  module _ (o : IsOrder) where
    NoneBefore-trans :
        (x y : A) (zs : List A) → before y x ≡ false → NoneBefore y zs → NoneBefore x zs
    NoneBefore-trans x y [] h n = tt
    NoneBefore-trans x y (z ∷ zs) h n = (o.trans x y z h n.0, NoneBefore-trans x y zs h n.1)

    NoneBefore-insert :
        (x v : A) (xs : List A)
        → before v x ≡ false
        → NoneBefore x xs
        → NoneBefore x (insert_sorted v xs)
    unfolding insert_sorted
    NoneBefore-insert x v [] h n = (h, tt)
    NoneBefore-insert x v (y ∷ ys) h n = elim (Bool-cases (before y v)) [
      | inl b ↦ rw b (n.0, NoneBefore-insert x v ys h n.1)
      | inr c ↦ rw c (h, n)
    ]

    insert_sorted-SortedBy : (v : A) (xs : List A) → SortedBy xs → SortedBy (insert_sorted v xs)
    unfolding insert_sorted
    insert_sorted-SortedBy v [] s = (tt, tt)
    insert_sorted-SortedBy v (y ∷ ys) (n, s) = elim (Bool-cases (before y v)) [
      | inl b ↦ rw b (NoneBefore-insert y v ys (o.asymm y v b) n, insert_sorted-SortedBy v ys s)
      | inr c ↦ rw c ((c, NoneBefore-trans v y ys c n), (n, s))
    ]

    pub sort_stable-SortedBy : (xs : List A) → SortedBy (sort_stable xs)
    unfolding sort_stable
    sort_stable-SortedBy [] = tt
    sort_stable-SortedBy (x ∷ xs) =
        insert_sorted-SortedBy x (sort_stable xs) (sort_stable-SortedBy xs)

module _ {ℓ} {A : Type ℓ} where
  pub mem-cons_map :
      {a x : A} {xs ys : List A} → (Memᴰ a xs → Memᴰ a ys) → Memᴰ a (x ∷ xs) → Memᴰ a (x ∷ ys)
  mem-cons_map f (Memᴰ.head e) = Memᴰ.head e
  mem-cons_map f (Memᴰ.tail m) = Memᴰ.tail (f m)

  pub mem_of_take : {a : A} (n : ℕ) (xs : List A) → Memᴰ a (take n xs) → Memᴰ a xs
  mem_of_take zero xs m = elim m [ ]
  mem_of_take (suc n) [] m = elim m [ ]
  mem_of_take (suc n) (x ∷ xs) m = mem-cons_map (mem_of_take n xs) m

module _ {ℓ} {A : Type ℓ} (key : A → ℕ) where
  -- The first element of each bucket, in the order of the list. `seen` holds the buckets passed.
  unfoldable pub firsts_from : List ℕ → List A → List A
  firsts_from seen [] = []
  firsts_from seen (x ∷ xs) =
      let skipped = firsts_from seen xs in
      let rest = firsts_from (key x ∷ seen) xs in
      if contains seen (key x) then skipped else x ∷ rest

  -- Each element has the first of its bucket in the result, and on a sorted list nothing of the bucket
  -- stands before that.
  pub firsts_from_cover :
      {a : A} (before : A → A → Bool) (seen : List ℕ) {xs : List A}
      → ((x : A) → before x x ≡ false)
      → SortedBy before xs
      → Memᴰ a xs
      → (contains seen (key a) ≡ true)
        ⊎ ((b : A) × Memᴰ b (firsts_from seen xs) × (key b ≡ key a) × (before a b ≡ false))
  unfolding firsts_from contains
  firsts_from_cover {a} before seen irr s (Memᴰ.head {x} {xs} e) =
      elim (Bool-cases (contains seen (key x))) [
        | inl old ↦ inl (rw e old)
        | inr new ↦ rw new (inr (x, Memᴰ.head refl, ap key (sym e), rw e (irr x)))
      ]
  firsts_from_cover {a} before seen irr sorted (Memᴰ.tail {x} {xs} m) =
      elim (Bool-cases (contains seen (key x))) [
        | inl old ↦ rw old (firsts_from_cover before seen irr sorted.1 m)
        | inr new ↦ rw new (elim (firsts_from_cover before (key x ∷ seen) irr sorted.1 m) [
          | inl claimed ↦ elim (Bool-cases (key x == key a)) [
            | inl same ↦ inr (
              x,
              Memᴰ.head refl,
              (==_iff (key x) (key a)).0 same,
              NoneBefore-mem before x sorted.0 m,
            )
            | inr other ↦ inl (rw other at claimed)
          ]
          | inr (b, mb, k, nb) ↦ inr (b, Memᴰ.tail mb, k, nb)
        ])
      ]

  pub mem_of_firsts_from :
      {a : A} (seen : List ℕ) (xs : List A) → Memᴰ a (firsts_from seen xs) → Memᴰ a xs
  unfolding firsts_from
  mem_of_firsts_from seen [] m = m
  mem_of_firsts_from {a} seen (x ∷ xs) m = elim (Bool-cases (contains seen (key x))) [
    | inl old ↦ Memᴰ.tail (mem_of_firsts_from seen xs (rw (firsts_from, old) at m))
    | inr new ↦ mem-cons_map (mem_of_firsts_from (key x ∷ seen) xs) (rw (firsts_from, new) at m)
  ]
