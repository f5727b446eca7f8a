-- ===== src/Names.antt =====
-- internal/host/zfs/names/names.go: pool, dataset and snapshot names. A name is the list of its bytes: the
-- source walks runes, and every rune that is not one ASCII byte is refused, as each of its bytes is here.
pub mod Grammar
pub mod Accepts
use nova_nas.Base.{
  ℕ, Bool, true, false, not, ◌&&◌, ◌||◌, Option, none, some, List, [], ◌∷◌, ltb, leb, ◌==◌,
  if◌then◌else◌, length, contains, Text, codes, text_eq, nat_eq, split, cut,
}

abbrev pub max_name_len : ℕ
max_name_len = 255

abbrev pub reserved_pool_names : List Text
reserved_pool_names =
    codes "mirror"
    ∷ codes "raidz"
    ∷ codes "raidz1"
    ∷ codes "raidz2"
    ∷ codes "raidz3"
    ∷ codes "draid"
    ∷ codes "spare"
    ∷ codes "log"
    ∷ codes "cache"
    ∷ codes "special"
    ∷ []

unfoldable pub is_alpha : ℕ → Bool
is_alpha r = leb b'a' r && leb r b'z' || leb b'A' r && leb r b'Z'

unfoldable pub is_allowed_component : ℕ → Bool
is_allowed_component r =
    is_alpha r || leb b'0' r && leb r b'9' || r == b'_' || r == b'-' || r == b'.' || r == b':'

-- The loops over a component: whether some character is illegal.
unfoldable pub has_illegal : Text → Bool
has_illegal [] = false
has_illegal (r ∷ rs) = not (is_allowed_component r) || has_illegal rs

unfoldable pub starts_with : ℕ → Text → Bool
starts_with c [] = false
starts_with c (r ∷ rs) = r == c

unfoldable pub starts_alpha : Text → Bool
starts_alpha [] = false
starts_alpha (r ∷ rs) = is_alpha r

pub data NameError : Type 0 where
  pool_empty pool_too_long pool_reserved pool_not_letter pool_illegal : NameError
  dataset_empty dataset_too_long dataset_has_at dataset_no_pool : NameError
  invalid_pool : NameError → NameError
  component_empty component_dash component_illegal : NameError
  snapshot_no_at snapshot_many_at short_empty short_dash short_illegal : NameError

unfoldable pub validate_pool_name : Text → Option NameError
validate_pool_name s =
    if length s == 0
    then some pool_empty
    else if ltb max_name_len (length s)
    then some pool_too_long
    else if contains reserved_pool_names s
    then some pool_reserved
    else if not (starts_alpha s)
    then some pool_not_letter
    else if has_illegal s
    then some pool_illegal
    else none

-- The body of the loop over the components after the pool.
unfoldable pub validate_component : Text → Option NameError
validate_component p =
    if length p == 0
    then some component_empty
    else if starts_with b'-' p
    then some component_dash
    else if has_illegal p
    then some component_illegal
    else none

unfoldable pub validate_components : List Text → Option NameError
validate_components [] = none
validate_components (p ∷ ps) = elim (validate_component p) [
  | some e ↦ some e
  | none ↦ validate_components ps
]

-- The parts of a dataset name, the pool first.
unfoldable pub validate_parts : List Text → Option NameError
validate_parts [] = some dataset_no_pool
validate_parts (pool ∷ rest) =
    if length pool == 0
    then some dataset_no_pool
    else elim (validate_pool_name pool) as (λ _. Option NameError) [
      | some e ↦ some (invalid_pool e)
      | none ↦ validate_components rest
    ]

unfoldable pub validate_dataset_name : Text → Option NameError
validate_dataset_name s =
    if length s == 0
    then some dataset_empty
    else if ltb max_name_len (length s)
    then some dataset_too_long
    else if contains s b'@'
    then some dataset_has_at
    else validate_parts (split b'/' s)

unfoldable pub validate_short : Text → Option NameError
validate_short short =
    if length short == 0
    then some short_empty
    else if starts_with b'-' short
    then some short_dash
    else if has_illegal short
    then some short_illegal
    else none

-- The two sides of the first `@`: the source indexes it, and counts that it is the only one.
unfoldable pub validate_snapshot_name : Text → Option NameError
validate_snapshot_name s = elim (cut b'@' s) [
  | none ↦ some snapshot_no_at
  | some (ds, short) ↦
      if length ds == 0
      then some snapshot_no_at
      else if contains short b'@'
      then some snapshot_many_at
      else elim (validate_dataset_name ds) as (λ _. Option NameError) [
        | some e ↦ some e
        | none ↦ validate_short short
      ]
]
