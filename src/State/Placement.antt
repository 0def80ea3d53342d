-- ===== src/State/Placement.antt =====
-- state/placement_cache.py: a dictionary from container ids.
use browseterm_device_agent.Prelude.{
  ℕ, String, ◌≡◌, refl, Option, none, some, List, [], ◌∷◌, arith, ◌==◌, eq_iff, if◌then◌else◌,
}

-- The rows `container_id -> (device_id, placement_generation)`.
abbrev pub PlacementCache : Type 0
PlacementCache = List (String × (String × ℕ))

unfoldable pub get : String → PlacementCache → Option (String × ℕ)
get id [] = none
get id ((k, v) ∷ c) = if k == id then some v else get id c

-- `self._entries[k] = v`
put : String → String × ℕ → PlacementCache → PlacementCache
put k v [] = (k, v) ∷ []
put k v ((j, w) ∷ c) = if j == k then (k, v) ∷ c else (j, w) ∷ put k v c

unfoldable pub record_placement :
    (container_id device_id : String) (generation : ℕ) → PlacementCache → PlacementCache
unfolding put
record_placement container_id device_id generation c =
    if container_id == "" then c else put container_id (device_id, generation) c

-- `self._entries.pop(container_id, None)`
unfoldable pub forget : String → PlacementCache → PlacementCache
forget id [] = []
forget id ((k, v) ∷ c) = let rest = forget id c in if k == id then rest else (k, v) ∷ rest

get-put :
    (k j : String) (v : String × ℕ) (c : PlacementCache)
    → get j (put k v c) ≡ (if k == j then some v else get j c)
unfolding get put
get-put k j v [] = refl
get-put k j v ((i, w) ∷ c) = ground (arith, eq_iff k j, eq_iff i k, eq_iff i j, get-put k j v c)

-- A placement is recorded for its own container alone, and none is recorded for the empty id.
pub get-record_placement :
    (id device_id other : String) (generation : ℕ) (c : PlacementCache)
    → get other (record_placement id device_id generation c) ≡ (
        if id == ""
        then get other c
        else if id == other
        then some (device_id, generation)
        else get other c)
unfolding record_placement
get-record_placement id device_id other generation c =
    ground (arith, get-put id other (device_id, generation) c)

-- A forgotten container is gone from the cache, and every other one is as it was.
pub get-forget :
    (id other : String) (c : PlacementCache)
    → get other (forget id c) ≡ (if id == other then none else get other c)
unfolding get forget
get-forget id other [] = ground arith
get-forget id other ((k, v) ∷ c) =
    ground (arith, eq_iff k id, eq_iff k other, eq_iff id other, get-forget id other c)
