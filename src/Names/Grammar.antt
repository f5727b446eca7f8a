-- ===== src/Names/Grammar.antt =====
-- A grammar of pool, dataset and snapshot names, which the validators of internal/host/zfs/names are held
-- against.
use nova_nas.Base.{
  ◌≤◌, ◌<◌, ◌≡◌, ◌++◌, true, false, List, [], ◌∷◌, length, contains, Text, text_eq, AllAre,
}
use nova_nas.Names.{reserved_pool_names, is_allowed_component, starts_with, starts_alpha}

abbrev pub Allowed : Text → Type 0
Allowed = AllAre is_allowed_component true

abbrev pub Component : Text → Type 0
Component p = (0 < length p) × (starts_with b'-' p ≡ false) × Allowed p

abbrev pub Components : List Text → Type 0
Components [] = Unit
Components (p ∷ ps) = Component p × Components ps

abbrev pub Pool : Text → Type 0
Pool p =
    (length p ≤ 255)
    × (contains reserved_pool_names p ≡ false)
    × (starts_alpha p ≡ true)
    × Allowed p

-- Components, each after a slash.
abbrev pub path : List Text → Text
path [] = []
path (p ∷ ps) = b'/' ∷ p ++ path ps

abbrev pub Dataset : Text → Type 0
Dataset s =
    (length s ≤ 255)
    × (pool : Text) × (ps : List Text) × (s ≡ pool ++ path ps)
    × Pool pool
    × Components ps

abbrev pub Snapshot : Text → Type 0
Snapshot s = (ds : Text) × (short : Text) × (s ≡ ds ++ b'@' ∷ short) × Dataset ds × Component short
