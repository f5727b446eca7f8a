-- ===== src/Csi/VolumeId/RoundTrip.antt =====
-- Encoding and parsing the ids of volumes and snapshots.
use nova_nas.Base.{
  ◌≡◌, refl, sym, ap, ◌∙◌, inl, inr, ℕ, false, ◌||◌, none, some, List, [], ◌∷◌, ◌++◌, Text, ok,
  length, split, onto_first, contains, nat_eq, drop_last, drop_last-append, last_or, last_or-snoc,
  arith, Bool-cases, ◌==◌, ltb,
}
use mathlib.Core.List.{append-nil, append_assoc}
use nova_nas.Csi.VolumeId.{
  VolumeId, encode_volume_id, has_empty, join_parts, first_or, parse_volume_id, encode_snapshot_id,
  cut_last, parse_snapshot_id,
}

-- Splitting gives at least one piece.
onto_first-snoc :
    (c : ℕ) (s b : Text)
    → onto_first c (split b'/' s ++ b ∷ []) ≡ onto_first c (split b'/' s) ++ b ∷ []
unfolding split
onto_first-snoc c [] b = refl
onto_first-snoc c (d ∷ s) b = elim (Bool-cases (d == b'/')) [
  | inl slash ↦ rw slash
  | inr other ↦ rw (other) (helper d (split b'/' s))
]
  where
    helper :
        (d : ℕ) (ps : List Text)
        → onto_first c (onto_first d ps ++ b ∷ []) ≡ onto_first c (onto_first d ps) ++ b ∷ []
    helper d [] = refl
    helper d (p ∷ ps) = refl

split_of_no_slash : (s : Text) → contains s b'/' ≡ false → split b'/' s ≡ s ∷ []
unfolding split contains
split_of_no_slash [] h = refl
split_of_no_slash (c ∷ s) h = ground (arith, h, split_of_no_slash s)

split-snoc :
    (a b : Text) → contains b b'/' ≡ false → split b'/' (a ++ (b'/' ∷ b)) ≡ split b'/' a ++ b ∷ []
unfolding split
split-snoc [] b h = ap (λ l. [] ∷ l) (split_of_no_slash b h)
split-snoc (c ∷ a) b h = elim (Bool-cases (c == b'/')) [
  | inl slash ↦ rw slash (ap (λ l. [] ∷ l) (split-snoc a b h))
  | inr other ↦ rw other (ap (onto_first c) (split-snoc a b h) ∙ onto_first-snoc c a b)
]

join_parts-onto_first :
    (c : ℕ) (p : Text) (ps : List Text) → join_parts ((c ∷ p) ∷ ps) ≡ c ∷ join_parts (p ∷ ps)
unfolding join_parts
join_parts-onto_first c p [] = refl
join_parts-onto_first c p (q ∷ ps) = refl

-- `split s` as a head and a tail.
split-cons : (s : Text) → (p : Text) × (ps : List Text) × (split b'/' s ≡ p ∷ ps)
unfolding split
split-cons [] = ([], [], refl)
split-cons (c ∷ s) = elim (Bool-cases (c == b'/')) [
  | inl slash ↦ ([], split b'/' s, rw slash)
  | inr other ↦ let (p, ps, e) = split-cons s in (c ∷ p, ps, rw (other, e))
]

-- Joining the pieces of a text gives it back.
join_parts-split : (s : Text) → join_parts (split b'/' s) ≡ s
unfolding split join_parts
join_parts-split [] = refl
join_parts-split (c ∷ s) =
    let (p, ps, e) = split-cons s in
    let joined : (join_parts (p ∷ ps) ≡ s) = ap join_parts (sym e) ∙ join_parts-split s in
    elim (Bool-cases (c == b'/')) [
      | inl slash ↦ ground (arith, slash, e, joined)
      | inr other ↦ rw (other, e) (join_parts-onto_first c p ps ∙ ap (λ l. c ∷ l) joined)
    ]

has_empty-snoc :
    (ps : List Text) (p : Text) → has_empty (ps ++ p ∷ []) ≡ (has_empty ps || length p == 0)
unfolding has_empty
has_empty-snoc [] p = ground arith
has_empty-snoc (q ∷ ps) p = ground (arith, has_empty-snoc ps p)

drop_last-snoc : (ps : List Text) (p : Text) → drop_last (ps ++ p ∷ []) ≡ ps
unfolding drop_last
drop_last-snoc ps p = drop_last-append ps p [] ∙ append-nil ps

join_parts-ends :
    (p q : Text) (qs : List Text)
    → join_parts (p ∷ q ∷ qs)
      ≡ join_parts (drop_last (p ∷ q ∷ qs)) ++ (b'/' ∷ last_or [] (p ∷ q ∷ qs))
unfolding join_parts drop_last last_or
join_parts-ends p q [] = refl
join_parts-ends p q (r ∷ qs) =
    ap (λ l. p ++ (b'/' ∷ l)) (join_parts-ends q r qs)
    ∙ sym (append_assoc p (b'/' ∷ join_parts (drop_last (q ∷ r ∷ qs))) _)

length-join_parts :
    (p : Text) (ps : List Text)
    → (length p == 0) ≡ false
    → (length (join_parts (p ∷ ps)) == 0) ≡ false
unfolding join_parts
length-join_parts p [] h = h
length-join_parts [] (q ∷ ps) h = absurd cc
length-join_parts (c ∷ p) (q ∷ ps) h = ground arith

encode_of_parts :
    (parent leaf : Text)
    → (length parent == 0) ≡ false
    → encode_volume_id parent leaf ≡ parent ++ (b'/' ∷ leaf)
unfolding encode_volume_id
encode_of_parts parent leaf h = rw h

length_append_pos : (a b : Text) → (length (a ++ (b'/' ∷ b)) == 0) ≡ false
length_append_pos [] b = ground arith
length_append_pos (c ∷ a) b = ground arith

length-snoc-two :
    (p : Text) (ps : List Text) (q : Text) → ltb (length ((p ∷ ps) ++ q ∷ [])) 2 ≡ false
length-snoc-two p [] q = refl
length-snoc-two p (r ∷ ps) q = ground arith

first_or-snoc : (p : Text) (ps : List Text) (q : Text) → first_or [] ((p ∷ ps) ++ q ∷ []) ≡ p
unfolding first_or
first_or-snoc p ps q = refl

-- The id that is made for a volume under a parent with no empty segment, with a leaf that is not empty and has
-- no slash, is parsed back: into the parent and the leaf, with the parent's first segment as the pool.
pub parse_volume_id-encode_volume_id :
    (parent leaf : Text)
    → has_empty (split b'/' parent) ≡ false
    → (length leaf == 0) ≡ false
    → contains leaf b'/' ≡ false
    → parse_volume_id (encode_volume_id parent leaf)
      ≡ ok (record {
        full = encode_volume_id parent leaf;
        pool = first_or [] (split b'/' parent);
        parent = parent;
        leaf = leaf;
      })
unfolding parse_volume_id has_empty first_or
parse_volume_id-encode_volume_id parent leaf h n k =
    let (p, ps, e) = split-cons parent in
    let parent_full : ((length parent == 0) ≡ false) = ground (
      arith,
      ap length (join_parts-split parent),
      ap (λ l. length (join_parts l)) e,
      length-join_parts p ps (ground (arith, h, e)),
    ) in
    let id : (encode_volume_id parent leaf ≡ parent ++ (b'/' ∷ leaf)) =
      encode_of_parts parent leaf parent_full in
    let parts : (split b'/' (encode_volume_id parent leaf) ≡ split b'/' parent ++ leaf ∷ []) =
      ap (split b'/') id ∙ split-snoc parent leaf k in
    ground (
      arith,
      parts,
      ap length id,
      length_append_pos parent leaf,
      length-snoc-two p ps leaf,
      ap (λ l. length (l ++ leaf ∷ [])) e,
      has_empty-snoc (split b'/' parent) leaf,
      h,
      n,
      first_or-snoc p ps leaf,
      ap (λ l. first_or [] (l ++ leaf ∷ [])) e,
      ap (first_or []) e,
      drop_last-snoc (split b'/' parent) leaf,
      join_parts-split parent,
      last_or-snoc [] (split b'/' parent) leaf,
    )

encode_of_split :
    (id : Text) (v : VolumeId) (p : Text) (ps : List Text)
    → split b'/' id ≡ p ∷ ps
    → id ≡ join_parts (p ∷ ps)
    → parse_volume_id id ≡ ok v
    → encode_volume_id v.parent v.leaf ≡ id
unfolding parse_volume_id has_empty drop_last
encode_of_split id v p [] e whole h = absurd (ground (arith, e, h))
encode_of_split id v p (q ∷ qs) e whole h =
    let parts = p ∷ q ∷ qs in
    let parent : (join_parts (drop_last parts) ≡ v.parent) = ground (arith, e, h) in
    let leaf : (last_or [] parts ≡ v.leaf) = ground (arith, e, h) in
    let full : ((length p == 0) ≡ false) = ground (arith, e, h) in
    encode_of_parts v.parent v.leaf
      (ap (λ l. length l == 0) (sym parent) ∙ length-join_parts p (drop_last (q ∷ qs)) full)
    ∙ ap (λ l. l ++ (b'/' ∷ v.leaf)) (sym parent)
    ∙ ap (λ l. join_parts (drop_last parts) ++ (b'/' ∷ l)) (sym leaf)
    ∙ sym (join_parts-ends p q qs)
    ∙ sym whole

-- A volume id that is parsed is the one that its parent and its leaf are encoded to.
pub encode_volume_id-parse_volume_id :
    (id : Text) (v : VolumeId) → parse_volume_id id ≡ ok v → encode_volume_id v.parent v.leaf ≡ id
unfolding parse_volume_id has_empty
encode_volume_id-parse_volume_id id v h =
    let (p, ps, e) = split-cons id in
    encode_of_split id v p ps e (sym (ap join_parts (sym e) ∙ join_parts-split id)) h

cut_last-none : (s : Text) → contains s b'@' ≡ false → cut_last s ≡ none
unfolding cut_last contains
cut_last-none [] h = refl
cut_last-none (c ∷ s) h = ground (arith, h, cut_last-none s)

cut_last-encode :
    (dataset short : Text)
    → contains short b'@' ≡ false
    → cut_last (dataset ++ (b'@' ∷ short)) ≡ some (dataset, short)
unfolding cut_last
cut_last-encode [] short h = ground (arith, cut_last-none short h)
cut_last-encode (c ∷ dataset) short h = ground (arith, cut_last-encode dataset short h)

-- So is the id of a snapshot, for a dataset and a name that are not empty, with no `@` in the name.
pub parse_snapshot_id-encode_snapshot_id :
    (dataset short : Text)
    → (length dataset == 0) ≡ false
    → (length short == 0) ≡ false
    → contains short b'@' ≡ false
    → parse_snapshot_id (encode_snapshot_id dataset short)
      ≡ ok
          (record { full = encode_snapshot_id dataset short; dataset = dataset; short_tag = short })
unfolding parse_snapshot_id encode_snapshot_id
parse_snapshot_id-encode_snapshot_id dataset short d n k =
    ground (arith, d, n, cut_last-encode dataset short k)
