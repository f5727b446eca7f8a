-- ===== src/Names/Accepts.antt =====
-- internal/host/zfs/names accepts exactly the names of the grammar.
use nova_nas.Base.{
  ℕ, ◌<◌, ◌≡◌, refl, ap, ◌∙◌, ◌↔◌, inl, inr, ◌++◌, true, false, ◌||◌, none, some, List, [], ◌∷◌,
  length, contains, Text, text_eq, nat_eq, split, cut, arith, ◌==◌, ==_iff, onto_first, Bool-cases,
  Option-cases,
}
use nova_nas.Names.{
  is_alpha, is_allowed_component, has_illegal, starts_alpha, validate_pool_name, validate_component,
  validate_components, validate_parts, validate_dataset_name, validate_short,
  validate_snapshot_name,
}
use nova_nas.Names.Grammar.{Allowed, Component, Components, Pool, path, Dataset, Snapshot}

has_illegal_iff : (p : Text) → (has_illegal p ≡ false) ↔ Allowed p
unfolding has_illegal
has_illegal_iff [] = ground arith
has_illegal_iff (c ∷ p) = ground (arith, has_illegal_iff p)

validate_component_iff : (p : Text) → (validate_component p ≡ none) ↔ Component p
unfolding validate_component
validate_component_iff p = ground (arith, has_illegal_iff p)

validate_short_iff : (p : Text) → (validate_short p ≡ none) ↔ Component p
unfolding validate_short
validate_short_iff p = ground (arith, has_illegal_iff p)

validate_components_iff : (ps : List Text) → (validate_components ps ≡ none) ↔ Components ps
unfolding validate_components
validate_components_iff [] = ground arith
validate_components_iff (p ∷ ps) =
    ground (arith, validate_component_iff p, validate_components_iff ps)

starts_alpha-length : (p : Text) → starts_alpha p ≡ true → 0 < length p
unfolding starts_alpha
starts_alpha-length [] h = absurd cc
starts_alpha-length (c ∷ p) h = ground arith

-- `ValidatePoolName` accepts exactly the pool names of the grammar: up to 255 bytes that start with a
-- letter, all of them letters, digits or `_-.:`, and no reserved name.
validate_pool_name_iff : (p : Text) → (validate_pool_name p ≡ none) ↔ Pool p
unfolding validate_pool_name
validate_pool_name_iff p = ground (arith, has_illegal_iff p, starts_alpha-length p)

Allowed-no : (c : ℕ) (p : Text) → is_allowed_component c ≡ false → Allowed p → contains p c ≡ false
unfolding contains
Allowed-no c [] h a = refl
Allowed-no c (x ∷ p) h a = ground (arith, Allowed-no c p h, ==_iff x c)

path-onto_first :
    (c : ℕ) (ps : List Text) (s : Text) → path ps ≡ b'/' ∷ s → path (onto_first c ps) ≡ b'/' ∷ c ∷ s
path-onto_first c [] s h = ground arith
path-onto_first c (p ∷ ps) s h = ground (arith, h)

path-split : (s : Text) → path (split b'/' s) ≡ b'/' ∷ s
unfolding split
path-split [] = refl
path-split (c ∷ s) =
    let ih = path-split s in
    elim (Bool-cases (c == b'/')) [
      | inl slash ↦ ground (arith, slash, ih, ==_iff c b'/')
      | inr other ↦ rw other (path-onto_first c (split b'/' s) s ih)
    ]

abbrev NoSlashes : List Text → Type 0
NoSlashes [] = Unit
NoSlashes (p ∷ ps) = (contains p b'/' ≡ false) × NoSlashes ps

split-path :
    (p : Text) (ps : List Text)
    → contains p b'/' ≡ false
    → NoSlashes ps
    → split b'/' (p ++ path ps) ≡ p ∷ ps
unfolding split contains
split-path [] [] h k = refl
split-path [] (q ∷ qs) h k = ap (λ l. [] ∷ l) (split-path q qs k.0 k.1)
split-path (c ∷ p) ps h k = ground (arith, split-path p ps, k)

Components-NoSlashes : (ps : List Text) → Components ps → NoSlashes ps
unfolding is_allowed_component is_alpha
Components-NoSlashes [] c = tt
Components-NoSlashes (p ∷ ps) c = (Allowed-no b'/' p refl c.0.2, Components-NoSlashes ps c.1)

contains-append : (xs ys : Text) (c : ℕ) → contains (xs ++ ys) c ≡ (contains xs c || contains ys c)
unfolding contains
contains-append [] ys c = refl
contains-append (x ∷ xs) ys c = ground (arith, contains-append xs ys c)

path_no_at : (ps : List Text) → Components ps → contains (path ps) b'@' ≡ false
unfolding contains is_allowed_component is_alpha
path_no_at [] c = refl
path_no_at (p ∷ ps) c =
    ground
      (arith, contains-append p (path ps) b'@', Allowed-no b'@' p refl c.0.2, path_no_at ps c.1)

cut_sound :
    (sep : ℕ) (s a b : Text)
    → cut sep s ≡ some (a, b)
    → (s ≡ a ++ sep ∷ b) × (contains a sep ≡ false)
unfolding cut contains
cut_sound sep [] a b h = absurd cc
cut_sound sep (c ∷ s) a b h = elim (Option-cases (cut sep s)) [
  | inl none_left ↦ ground (arith, none_left, ==_iff c sep)
  | inr ((a', b'), found) ↦ ground (arith, found, ==_iff c sep, cut_sound sep s a' b' found)
]

cut_complete :
    (sep : ℕ) (a b : Text) → contains a sep ≡ false → cut sep (a ++ sep ∷ b) ≡ some (a, b)
unfolding cut contains
cut_complete sep [] b h = ground (arith, ==_iff sep sep)
cut_complete sep (c ∷ a) b h = ground (arith, cut_complete sep a b)

validate_parts-cons :
    (pool : Text) (ps : List Text)
    → (validate_parts (pool ∷ ps) ≡ none) ↔ (Pool pool × Components ps)
unfolding validate_parts
validate_parts-cons pool ps =
    ground
      (arith, validate_pool_name_iff pool, validate_components_iff ps, starts_alpha-length pool)

abbrev Parts : Text → Type 0
Parts s = (pool : Text) × (ps : List Text) × (s ≡ pool ++ path ps) × Pool pool × Components ps

Parts-of : (s : Text) (ps : List Text) → path ps ≡ b'/' ∷ s → validate_parts ps ≡ none → Parts s
unfolding validate_parts
Parts-of s [] e h = absurd cc
Parts-of s (pool ∷ ps) e h = let (p, c) = (validate_parts-cons pool ps).0 h in (pool, ps, cc, p, c)

validate_parts_iff : (s : Text) → (validate_parts (split b'/' s) ≡ none) ↔ Parts s
unfolding is_allowed_component is_alpha
validate_parts_iff s = (
  Parts-of s (split b'/' s) (path-split s),
  λ (pool, ps, e, p, c).
      ap (λ t. validate_parts (split b'/' t)) e
      ∙ ap validate_parts
          (split-path pool ps (Allowed-no b'/' pool refl p.3) (Components-NoSlashes ps c))
      ∙ (validate_parts-cons pool ps).1 (p, c),
)

Parts-no_at : (s : Text) → Parts s → contains s b'@' ≡ false
unfolding is_allowed_component is_alpha
Parts-no_at s (pool, ps, e, p, c) =
    ground (
      arith,
      e,
      contains-append pool (path ps) b'@',
      Allowed-no b'@' pool refl p.3,
      path_no_at ps c,
    )

append_length : (a b : Text) → 0 < length a → 0 < length (a ++ b)
append_length [] b h = absurd (ground arith)
append_length (x ∷ a) b h = ground arith

Parts-length : (s : Text) → Parts s → 0 < length s
Parts-length s (pool, ps, e, p, c) =
    ground (arith, e, append_length pool (path ps), starts_alpha-length pool p.2)

-- `ValidateDatasetName` accepts exactly the dataset names of the grammar: up to 255 bytes, a pool name and
-- then any number of non-empty components, each after one slash, none of which starts with a dash or
-- has a byte other than a letter, a digit or `_-.:`.
validate_dataset_name_iff : (s : Text) → (validate_dataset_name s ≡ none) ↔ Dataset s
unfolding validate_dataset_name
validate_dataset_name_iff s = ground (arith, validate_parts_iff s, Parts-no_at s, Parts-length s)

Dataset-facts : (s : Text) → Dataset s → (0 < length s) × (contains s b'@' ≡ false)
Dataset-facts s (n, pool, ps, e, p, c) =
    (Parts-length s (pool, ps, e, p, c), Parts-no_at s (pool, ps, e, p, c))

Component-no_at : (p : Text) → Component p → contains p b'@' ≡ false
unfolding is_allowed_component is_alpha
Component-no_at p c = Allowed-no b'@' p refl c.2

accepted_halves :
    (s ds short : Text)
    → cut b'@' s ≡ some (ds, short)
    → validate_snapshot_name s ≡ none
    → (validate_dataset_name ds ≡ none) × (validate_short short ≡ none)
unfolding validate_snapshot_name
accepted_halves s ds short e h = ground (arith, e, h)

validate_halves :
    (ds short : Text)
    → validate_dataset_name ds ≡ none
    → 0 < length ds
    → contains ds b'@' ≡ false
    → contains short b'@' ≡ false
    → validate_short short ≡ none
    → validate_snapshot_name (ds ++ b'@' ∷ short) ≡ none
unfolding validate_snapshot_name
validate_halves ds short d l n m c = ground (arith, cut_complete b'@' ds short n)

snapshot_of :
    (s ds short : Text)
    → cut b'@' s ≡ some (ds, short)
    → validate_snapshot_name s ≡ none
    → Snapshot s
snapshot_of s ds short e h =
    let (a, b) = accepted_halves s ds short e h in
    (
      ds,
      short,
      (cut_sound b'@' s ds short e).0,
      (validate_dataset_name_iff ds).0 a,
      (validate_short_iff short).0 b,
    )

-- `ValidateSnapshotName` accepts exactly the snapshot names of the grammar: a dataset name, one `@`, and a
-- component.
pub validate_snapshot_name_iff : (s : Text) → (validate_snapshot_name s ≡ none) ↔ Snapshot s
unfolding validate_snapshot_name
validate_snapshot_name_iff s = (
  λ h. elim (Option-cases (cut b'@' s)) [
    | inl missing ↦ absurd (ground (arith, missing, h))
    | inr ((ds, short), found) ↦ snapshot_of s ds short found h
  ],
  λ (ds, short, e, d, c).
      ap validate_snapshot_name e
      ∙ validate_halves ds short ((validate_dataset_name_iff ds).1 d) (Dataset-facts ds d).0
          (Dataset-facts ds d).1 (Component-no_at short c) ((validate_short_iff short).1 c),
)
