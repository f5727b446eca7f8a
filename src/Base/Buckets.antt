-- ===== src/Base/Buckets.antt =====
-- Where the bucket of an element stands among the buckets of a sorted list.
use Prim.Native.Nat.{ℕ, zero, suc, ◌-◌, ◌≤◌, ◌<◌}
use mathlib.Core.Path.{◌≡◌, refl, sym, ap, ◌∙◌}
use mathlib.Core.Logic.{inl, inr}
use mathlib.Core.Bool.{Bool, true, false, not, ◌&&◌, ◌||◌}
use mathlib.Core.List.{List, [], ◌∷◌, Memᴰ}
use native.Mathlib.Omega.{arith}
use nova_nas.Base.Tests.{if◌then◌else◌, ltb, Bool-cases, ◌==◌, ==_iff}
use nova_nas.Base.Keys.{contains, nat_eq}
use nova_nas.Base.Lists.{take, drop, length}
use nova_nas.Base.Sorting.{
  insert_sorted, sort_stable, NoneBefore-mem, SortedBy, IsOrder, mem-cons_map, firsts_from,
}

without_key : ℕ → List ℕ → List ℕ
without_key k [] = []
without_key k (j ∷ js) = let rest = without_key k js in if j == k then rest else j ∷ rest

contains-without_key :
    (k : ℕ) (js : List ℕ) (i : ℕ) → contains (without_key k js) i ≡ (contains js i && not (k == i))
unfolding without_key contains
contains-without_key k [] i = refl
contains-without_key k (j ∷ js) i =
    ground (arith, ==_iff j k, ==_iff j i, ==_iff k i, contains-without_key k js i)

length-without_key_le : (k : ℕ) (js : List ℕ) → length (without_key k js) ≤ length js
unfolding without_key
length-without_key_le k [] = omega arith
length-without_key_le k (j ∷ js) = ground (arith, length-without_key_le k js)

length-without_key :
    (k : ℕ) (js : List ℕ) → contains js k ≡ true → length (without_key k js) < length js
unfolding without_key contains
length-without_key k [] h = absurd cc
length-without_key k (j ∷ js) h = elim (Bool-cases (j == k)) [
  | inl same ↦ rw (without_key, same) (omega (arith, length-without_key_le k js))
  | inr other ↦
      rw (without_key, other) (omega (arith, length-without_key k js (ground (arith, other, h))))
]

module _ {ℓ} {A : Type ℓ} (before : A → A → Bool) where
  mem_of_insert_sorted :
      {a : A} (x : A) (xs : List A) → Memᴰ a (insert_sorted before x xs) → Memᴰ a (x ∷ xs)
  unfolding insert_sorted
  mem_of_insert_sorted x [] m = m
  mem_of_insert_sorted {a} x (y ∷ ys) m = elim (Bool-cases (before y x)) [
    | inr n ↦ rw (insert_sorted, n) at m
    | inl b ↦ elim (rw (insert_sorted, b) at m) [
      | Memᴰ.head e ↦ Memᴰ.tail (Memᴰ.head e)
      | Memᴰ.tail r ↦ mem-cons_map Memᴰ.tail (mem_of_insert_sorted x ys r)
    ]
  ]

  -- Sorting adds no element.
  pub mem_of_sort_stable : {a : A} (xs : List A) → Memᴰ a (sort_stable before xs) → Memᴰ a xs
  unfolding sort_stable
  mem_of_sort_stable [] m = m
  mem_of_sort_stable (x ∷ xs) m =
      mem-cons_map (mem_of_sort_stable xs) (mem_of_insert_sorted x (sort_stable before xs) m)

module _ {ℓ} {A : Type ℓ} (key : A → ℕ) where
  -- The keys of the elements for which `p` holds are among those seen, those to come, and `k`.
  abbrev KeysIn : ℕ → List ℕ → List ℕ → A → Type 0
  KeysIn k seen later s = (key s == k || contains seen (key s) || contains later (key s)) ≡ true

  KeysIn-next :
      (k : ℕ) (seen later : List ℕ) (x s : A)
      → KeysIn k seen later s
      → KeysIn k (key x ∷ seen) (without_key (key x) later) s
  unfolding contains
  KeysIn-next k seen later x s h =
      ground (arith, h, contains-without_key (key x) later (key s), ==_iff (key x) (key s))

  -- A bucket with fewer than `n` others before it is among the first `n`.
  pub take-firsts_from :
      {a : A} (before : A → A → Bool) (seen later : List ℕ) (n : ℕ) {xs : List A}
      → ((x : A) → before x x ≡ false)
      → SortedBy before xs
      → Memᴰ a xs
      → contains seen (key a) ≡ false
      → length later < n
      → ((s : A) → Memᴰ s xs → before a s ≡ false → KeysIn (key a) seen later s)
      → (b : A) × Memᴰ b (take n (firsts_from key seen xs)) × (key b ≡ key a) × (before a b ≡ false)
  unfolding firsts_from contains
  take-firsts_from before seen later zero irr sorted m fresh few into = absurd (ground (arith, few))
  take-firsts_from {a} before seen later (suc n) irr sorted (Memᴰ.head {x} {xs} e) fresh few into =
      let new : (contains seen (key x) ≡ false) = ap (λ y. contains seen (key y)) (sym e) ∙ fresh in
      rw new (x, Memᴰ.head refl, ap key (sym e), rw e (irr x))
  take-firsts_from {a} before seen later (suc n) irr sorted (Memᴰ.tail {x} {xs} m) fresh few into =
      elim (Bool-cases (contains seen (key x))) [
        | inl old ↦ rw old (
            take-firsts_from before seen later (suc n) irr sorted.1 m fresh few
              (λ s ms late. into s (Memᴰ.tail ms) late))
        | inr new ↦ elim (Bool-cases (key x == key a)) [
          | inl own ↦ rw new (
            x,
            Memᴰ.head refl,
            (==_iff (key x) (key a)).0 own,
            NoneBefore-mem before x sorted.0 m,
          )
          | inr other ↦
              let counted : (contains later (key x) ≡ true) =
                ground (
                  arith,
                  new,
                  other,
                  into x (Memᴰ.head refl) (NoneBefore-mem before x sorted.0 m),
                ) in
              let (b, mb, k, early) =
                take-firsts_from before (key x ∷ seen) (without_key (key x) later) n irr sorted.1 m
                  (ground (arith, other, fresh))
                  (omega (arith, few, length-without_key (key x) later counted))
                  (λ s ms nb. KeysIn-next (key a) seen later x s (into s (Memᴰ.tail ms) nb)) in
              rw new (b, Memᴰ.tail mb, k, early)
        ]
      ]

  -- No more buckets are left than keys to come.
  length-firsts_from :
      (seen later : List ℕ) (xs : List A)
      → ((s : A) → Memᴰ s xs → (contains seen (key s) || contains later (key s)) ≡ true)
      → length (firsts_from key seen xs) ≤ length later
  unfolding firsts_from contains
  length-firsts_from seen later [] into = omega arith
  length-firsts_from seen later (x ∷ xs) into = elim (Bool-cases (contains seen (key x))) [
    | inl old ↦ rw old (length-firsts_from seen later xs (λ s ms. into s (Memᴰ.tail ms)))
    | inr new ↦
        let counted : (contains later (key x) ≡ true) =
          ground (arith, new, into x (Memᴰ.head refl)) in
        let rest = length-firsts_from (key x ∷ seen) (without_key (key x) later) xs (λ s ms.
          ground (
            arith,
            into s (Memᴰ.tail ms),
            contains-without_key (key x) later (key s),
            ==_iff (key x) (key s),
          )) in
        rw new (omega (arith, rest, length-without_key (key x) later counted))
  ]

pub mem_of_drop {ℓ} : {A : Type ℓ} {b : A} (n : ℕ) (xs : List A) → Memᴰ b (drop n xs) → Memᴰ b xs
mem_of_drop zero xs m = m
mem_of_drop (suc n) [] m = m
mem_of_drop (suc n) (x ∷ xs) m = Memᴰ.tail (mem_of_drop n xs m)

mem-drop-cons {ℓ} :
    {A : Type ℓ} {b : A} (x : A) (n : ℕ) (xs : List A)
    → Memᴰ b (drop (length xs - n) xs)
    → Memᴰ b (drop (suc (length xs) - n) (x ∷ xs))
mem-drop-cons x n xs m = elim (Bool-cases (ltb (length xs) n)) [
  | inl short ↦
      let all : (suc (length xs) - n ≡ 0) = ground (arith, short) in
      let all' : (length xs - n ≡ 0) = ground (arith, short) in rw all (Memᴰ.tail (rw all' at m))
  | inr long ↦
      let one_more : (suc (length xs) - n ≡ suc (length xs - n)) = ground (arith, long) in
      rw one_more m
]

mem-drop-head {ℓ} :
    {A : Type ℓ} (x : A) (n : ℕ) (xs : List A)
    → length xs < n
    → Memᴰ x (drop (suc (length xs) - n) (x ∷ xs))
mem-drop-head x n xs short =
    let all : (suc (length xs) - n ≡ 0) = omega (arith, short) in rw all (Memᴰ.head refl)

module _ {ℓ} {A : Type ℓ} (key : A → ℕ) (before : A → A → Bool) (order : IsOrder before) where
  -- A bucket with fewer than `n` others after it is among the last `n`.
  pub drop-firsts_from :
      {a : A} (seen later : List ℕ) (n : ℕ) {xs : List A}
      → ((x : A) → before x x ≡ false)
      → SortedBy before xs
      → Memᴰ a xs
      → contains seen (key a) ≡ false
      → length later < n
      → ((s : A) → Memᴰ s xs → key s ≡ key a → before s a ≡ false)
      → ((s : A) → Memᴰ s xs → before s a ≡ false → KeysIn key (key a) seen later s)
      → (b : A) × Memᴰ b (drop (length (firsts_from key seen xs) - n) (firsts_from key seen xs))
        × (key b ≡ key a)
        × (before a b ≡ false)
  unfolding firsts_from contains
  drop-firsts_from {a} seen later n irr sorted (Memᴰ.head {x} {xs} e) fresh few first into =
      let new : (contains seen (key x) ≡ false) = ap (λ y. contains seen (key y)) (sym e) ∙ fresh in
      let rest = length-firsts_from key (key x ∷ seen) later xs (λ s ms. ground (
        arith,
        into s (Memᴰ.tail ms) (rw e (NoneBefore-mem before x sorted.0 ms)),
        ap key e,
        ==_iff (key x) (key s),
      )) in
      rw new (
        x,
        mem-drop-head x n (firsts_from key (key x ∷ seen) xs) (omega (arith, rest, few)),
        ap key (sym e),
        rw e (irr x),
      )
  drop-firsts_from {a} seen later n irr sorted (Memᴰ.tail {x} {xs} m) fresh few first into =
      elim (Bool-cases (contains seen (key x))) [
        | inl old ↦ rw old (
            drop-firsts_from seen later n irr sorted.1 m fresh few (λ s ms. first s (Memᴰ.tail ms))
              (λ s ms. into s (Memᴰ.tail ms)))
        | inr new ↦ elim (Bool-cases (key x == key a)) [
          | inl own ↦
              let same : (key x ≡ key a) = (==_iff (key x) (key a)).0 own in
              let earliest = first x (Memᴰ.head refl) same in
              let rest = length-firsts_from key (key x ∷ seen) later xs (λ s ms. ground (
                arith,
                into s (Memᴰ.tail ms)
                    (order.trans a x s earliest (NoneBefore-mem before x sorted.0 ms)),
                same,
                ==_iff (key x) (key s),
              )) in
              rw new (
                x,
                mem-drop-head x n (firsts_from key (key x ∷ seen) xs) (omega (arith, rest, few)),
                same,
                NoneBefore-mem before x sorted.0 m,
              )
          | inr other ↦
              let (b, mb, k, early) =
                drop-firsts_from (key x ∷ seen) later n irr sorted.1 m
                  (ground (arith, other, fresh)) few (λ s ms. first s (Memᴰ.tail ms))
                  (λ s ms late. ground (arith, into s (Memᴰ.tail ms) late)) in
              rw new (b, mem-drop-cons x n (firsts_from key (key x ∷ seen) xs) mb, k, early)
        ]
      ]
