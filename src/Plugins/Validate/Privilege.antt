-- ===== src/Plugins/Validate/Privilege.antt =====
-- What a manifest may claim that `Validate` of internal/plugins/manifest.go accepts.
use mathlib.Core.List.{Memᴰ}
use nova_nas.Base.{
  ◌≡◌, refl, sym, ◌∙◌, inl, inr, ℕ, suc, Bool, true, false, not, ◌&&◌, ◌||◌, List, [], ◌∷◌, ◌++◌,
  Text, text_eq, text_beq, text_beq_iff, ◌=?◌, contains, arith, Bool-cases,
}
use nova_nas.Plugins.Needs.{
  need_dataset, need_oidc_client, need_tls_cert, need_permission, is_known,
}
use nova_nas.Plugins.Validate.{
  PluginManifest, NeedBlocks, ManifestError, validate, need_errors, may_claim, is_complete,
  category_storage, category_developer, category_utility, category_networking,
  category_observability,
}

append-eq-nil : (xs ys : List ManifestError) → (xs ++ ys) ≡ [] → (xs ≡ []) × (ys ≡ [])
append-eq-nil [] ys h = (refl, h)
append-eq-nil (x ∷ xs) ys h = absurd cc

need_errors-mem :
    (category : Text) (n : NeedBlocks) (ns : List NeedBlocks) (i : ℕ)
    → Memᴰ n ns
    → need_errors category i ns ≡ []
    → (may_claim category n.kind ≡ true) × (is_complete n ≡ true)
unfolding need_errors
need_errors-mem category n ns i (Memᴰ.head {x} {xs} e) h =
    let (first, rest) = append-eq-nil _ (need_errors category (suc i) xs) h in
    rw e (ground (arith, first))
need_errors-mem category n ns i (Memᴰ.tail {x} {xs} m) h =
    let (first, rest) = append-eq-nil _ (need_errors category (suc i) xs) h in
    need_errors-mem category n xs (suc i) m rest

validate-need_errors :
    (parses : Text → Bool) (p : PluginManifest)
    → validate parses p ≡ []
    → need_errors p.category 0 p.needs ≡ []
unfolding validate
validate-need_errors parses p h =
    let (before_window, _) = append-eq-nil _ _ h in
    let (before_dependencies, _) = append-eq-nil _ _ before_window in
    let (before_routes, _) = append-eq-nil _ _ before_dependencies in
    (append-eq-nil _ (need_errors p.category 0 p.needs) before_routes).1

-- Two different texts are not both equal to a third.
differ : (c a b : Text) → (a =? b) ≡ false → (c =? a && c =? b) ≡ false
differ c a b h = elim (Bool-cases (c =? a)) [
  | inr other ↦ ground (arith, other)
  | inl own ↦ let same : (c ≡ a) = (text_beq_iff c a).0 own in rw (own, same) h
]

flip : (a b : Text) → (a =? b) ≡ (b =? a)
flip a b = elim (Bool-cases (a =? b)) [
  | inl e ↦ let same : (a ≡ b) = (text_beq_iff a b).0 e in rw same refl
  | inr n ↦ elim (Bool-cases (b =? a)) [
    | inl e ↦ let same : (b ≡ a) = (text_beq_iff b a).0 e in rw same refl
    | inr m ↦ n ∙ sym m
  ]
]

-- A text is one category at most, and one kind at most.
categories_apart :
    (category : Text)
    → ((category =? category_storage && category =? category_developer) ≡ false)
      × ((category =? category_storage && category =? category_utility) ≡ false)
      × ((category =? category_networking && category =? category_developer) ≡ false)
      × ((category =? category_networking && category =? category_utility) ≡ false)
      × ((category =? category_observability && category =? category_developer) ≡ false)
      × ((category =? category_observability && category =? category_utility) ≡ false)
      × ((category =? category_developer && category =? category_utility) ≡ false)
unfolding text_beq
categories_apart category = (
  differ category category_storage category_developer refl,
  differ category category_storage category_utility refl,
  differ category category_networking category_developer refl,
  differ category category_networking category_utility refl,
  differ category category_observability category_developer refl,
  differ category category_observability category_utility refl,
  differ category category_developer category_utility refl,
)

kinds_apart :
    (kind : Text)
    → ((kind =? need_dataset && kind =? need_oidc_client) ≡ false)
      × ((kind =? need_dataset && kind =? need_tls_cert) ≡ false)
      × ((kind =? need_dataset && kind =? need_permission) ≡ false)
      × ((kind =? need_oidc_client && kind =? need_tls_cert) ≡ false)
      × ((kind =? need_oidc_client && kind =? need_permission) ≡ false)
      × ((kind =? need_tls_cert && kind =? need_permission) ≡ false)
unfolding text_beq
kinds_apart kind = (
  differ kind need_dataset need_oidc_client refl,
  differ kind need_dataset need_tls_cert refl,
  differ kind need_dataset need_permission refl,
  differ kind need_oidc_client need_tls_cert refl,
  differ kind need_oidc_client need_permission refl,
  differ kind need_tls_cert need_permission refl,
)

may_claim_lem :
    (category kind : Text)
    → may_claim category kind ≡ true
    → ((kind =? need_dataset && not (category =? category_storage)) ≡ false)
      × ((kind =? need_tls_cert && (category =? category_developer || category =? category_utility))
          ≡ false)
      × ((kind =? need_oidc_client && category =? category_utility) ≡ false)
      × (is_known kind ≡ true)
unfolding may_claim contains is_known
may_claim_lem category kind h = ground (
  arith,
  h,
  categories_apart category,
  kinds_apart kind,
  flip need_dataset kind,
  flip need_oidc_client kind,
  flip need_tls_cert kind,
  flip need_permission kind,
)

-- In a manifest that is accepted, each need has what its kind requires and is of a known kind; only a plugin for
-- storage claims a dataset, a plugin for developers or of utilities claims no certificate, and one of
-- utilities no client of the identity provider either.
pub validate-Privileged :
    (parses : Text → Bool) (p : PluginManifest) (n : NeedBlocks)
    → validate parses p ≡ []
    → Memᴰ n p.needs
    → (is_complete n ≡ true)
      × (is_known n.kind ≡ true)
      × ((n.kind =? need_dataset && not (p.category =? category_storage)) ≡ false)
      × ((n.kind =? need_tls_cert
            && (p.category =? category_developer || p.category =? category_utility))
          ≡ false)
      × ((n.kind =? need_oidc_client && p.category =? category_utility) ≡ false)
validate-Privileged parses p n h m =
    let (claims, complete) =
      need_errors-mem p.category n p.needs 0 m (validate-need_errors parses p h) in
    let (a, b, c, d) = may_claim_lem p.category n.kind claims in (complete, d, a, b, c)
