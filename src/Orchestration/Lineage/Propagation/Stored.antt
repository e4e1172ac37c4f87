-- ===== src/Orchestration/Lineage/Propagation/Stored.antt =====
-- What a later session sees of `update_upstream_status` (libs/orchestration/lineage.py), once it is
-- flushed.
use optaic_trading.Prelude.{Bool, Option, none, some, [], ◌∷◌, String, string_eq, true, false}
use optaic_trading.Prelude.Dict.{Dict}

abbrev is_unset : Option (Dict String) → Bool
is_unset none = true
is_unset (some []) = true
is_unset (some (entry ∷ entries)) = false
