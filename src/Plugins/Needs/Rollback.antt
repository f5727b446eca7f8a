-- ===== src/Plugins/Needs/Rollback.antt =====
-- What is left outside after a rollback.
use mathlib.Core.List.{reverse, reverse-append}
use nova_nas.Base.{
  ◌≡◌, refl, sym, ap, ◌∙◌, ◌⊎◌, inl, inr, true, none, List, [], ◌∷◌, ◌++◌, Text, text_eq, lookup,
  contains, contains-reverse, arith, ◌=?◌, Bool-cases,
}
use nova_nas.Plugins.Needs.{
  Resource, resource_eq, resource_beq_iff, Outside, Provisioner, is_known, unprovision_one,
  rollback_each, rollback_needs,
}

abbrev pub AllKnown : List Resource → Type 0
AllKnown [] = Unit
AllKnown (r ∷ rs) = (is_known r.kind ≡ true) × AllKnown rs

-- The resource is taken back from the plugin when that is asked for, and while others are taken back it stays as
-- it is or goes too (as a role binding does with its client). Nothing is said of whether others can be taken back.
pub record Removes (p : Provisioner) (plugin : Text) (r : Resource) : Type 0 where
  pub takes_back : (out : Outside) → lookup (p.unprovision out plugin r).0 r ≡ none
  pub adds_none :
      (out : Outside) (q : Resource)
      → (lookup (p.unprovision out plugin q).0 r ≡ none)
        ⊎ (lookup (p.unprovision out plugin q).0 r ≡ lookup out r)

-- A resource is as it was or gone.
abbrev pub GoneOrSame : Resource → Outside → Outside → Type 0
GoneOrSame r out out' = (lookup out' r ≡ none) ⊎ (lookup out' r ≡ lookup out r)

pub GoneOrSame-trans :
    (r : Resource) (a b c : Outside) → GoneOrSame r a b → GoneOrSame r b c → GoneOrSame r a c
GoneOrSame-trans r a b c (inl x) (inl y) = inl y
GoneOrSame-trans r a b c (inl x) (inr y) = inl (y ∙ x)
GoneOrSame-trans r a b c (inr x) (inl y) = inl y
GoneOrSame-trans r a b c (inr x) (inr y) = inr (y ∙ x)

stays_gone :
    (r : Resource) (a b : Outside) → lookup a r ≡ none → GoneOrSame r a b → lookup b r ≡ none
stays_gone r a b h (inl x) = x
stays_gone r a b h (inr x) = x ∙ h

module _ {p : Provisioner} {plugin : Text} {r : Resource} (removes : Removes p plugin r) where
  one_lem : (x : Resource) (out : Outside) → GoneOrSame r out (unprovision_one p plugin x out).0
  unfolding unprovision_one
  one_lem x out = elim (Bool-cases (is_known x.kind)) [
    | inl known ↦ rw known (removes.adds_none out x)
    | inr strange ↦ rw strange (inr refl)
  ]

  one_own :
      (x : Resource) (out : Outside)
      → is_known x.kind ≡ true
      → (x =? r) ≡ true
      → lookup (unprovision_one p plugin x out).0 r ≡ none
  unfolding unprovision_one
  one_own x out known own =
      let same : (r ≡ x) = sym ((resource_beq_iff x r).0 own) in
      rw known
        (ap (λ y. lookup (p.unprovision out plugin y).0 r) (sym same) ∙ removes.takes_back out)

  each_lem :
      (rs : List Resource) (out : Outside) → GoneOrSame r out (rollback_each p plugin rs out).0
  unfolding rollback_each
  each_lem [] out = inr refl
  each_lem (x ∷ rs) out =
      let out' = (unprovision_one p plugin x out).0 in
      GoneOrSame-trans r out out' (rollback_each p plugin rs out').0 (one_lem x out)
        (each_lem rs out')

  each_own :
      (rs : List Resource) (out : Outside)
      → AllKnown rs
      → contains rs r ≡ true
      → lookup (rollback_each p plugin rs out).0 r ≡ none
  unfolding rollback_each contains
  each_own [] out known h = absurd cc
  each_own (x ∷ rs) out known h =
      let out' = (unprovision_one p plugin x out).0 in
      elim (Bool-cases (x =? r)) [
        | inl own ↦
            stays_gone r out' (rollback_each p plugin rs out').0 (one_own x out known.0 own)
              (each_lem rs out')
        | inr other ↦ each_own rs out' known.1 (ground (arith, other, h))
      ]

pub AllKnown-append : (xs ys : List Resource) → AllKnown xs → AllKnown ys → AllKnown (xs ++ ys)
AllKnown-append [] ys k l = l
AllKnown-append (x ∷ xs) ys k l = (k.0, AllKnown-append xs ys k.1 l)

AllKnown-reverse : (xs : List Resource) → AllKnown xs → AllKnown (reverse xs)
AllKnown-reverse [] k = tt
AllKnown-reverse (x ∷ xs) k =
    rw (reverse-append (x ∷ []) xs)
      (AllKnown-append (reverse xs) (x ∷ []) (AllKnown-reverse xs k.1) (k.0, tt))

-- After a rollback a resource is as it was or gone, and gone if it was to be taken back.
pub rollback_needs_lem :
    {p : Provisioner} {plugin : Text} {r : Resource}
    → Removes p plugin r
    → (done : List Resource) (out : Outside) → AllKnown done
    → GoneOrSame r out (rollback_needs p plugin done out).0
      × (contains done r ≡ true → lookup (rollback_needs p plugin done out).0 r ≡ none)
unfolding rollback_needs
rollback_needs_lem {r = r} removes done out known = (
  each_lem removes (reverse done) out,
  λ h.
      each_own removes (reverse done) out (AllKnown-reverse done known)
        (contains-reverse done r ∙ h),
)
