-- ===== src/Base/Marks.antt =====
-- A Go set of names, `map[string]struct{}`, to which a loop adds the names of the elements of a list.
use Prim.Native.Nat.{◌+◌}
use mathlib.Core.Path.{◌≡◌, sym, ap}
use mathlib.Core.Bool.{true}
use mathlib.Core.List.{List, [], ◌∷◌, Memᴰ}
use native.Mathlib.Omega.{arith}
use nova_nas.Base.Keys.{Eq, contains}
use nova_nas.Base.Lists.{length}

module _ {ℓ κ} {A : Type ℓ} {K : Type κ} ⦃e : Eq K⦄ (name : A → K) where
  unfoldable pub mark : List A → List K → List K
  mark [] set = set
  mark (x ∷ xs) set = mark xs (name x ∷ set)

  pub mark_old :
      (xs : List A) (set : List K) (n : K) → contains set n ≡ true → contains (mark xs set) n ≡ true
  unfolding mark contains
  mark_old [] set n h = h
  mark_old (x ∷ xs) set n h = mark_old xs (name x ∷ set) n (ground arith)

  pub mark_new :
      {a : A} (set : List K) {xs : List A} → Memᴰ a xs → contains (mark xs set) (name a) ≡ true
  unfolding mark contains
  mark_new {a} set (Memᴰ.head {x} {xs} p) =
      mark_old xs (name x ∷ set) (name a)
        (ground (arith, (e.beq_iff (name x) (name a)).1 (ap name (sym p))))
  mark_new {a} set (Memᴰ.tail {x} {xs} m) = mark_new (name x ∷ set) m

  pub length-mark : (xs : List A) (set : List K) → length (mark xs set) ≡ length xs + length set
  unfolding mark
  length-mark [] set = omega arith
  length-mark (x ∷ xs) set = omega (arith, length-mark xs (name x ∷ set))
