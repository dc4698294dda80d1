-- ===== src/Cache/Set.antt =====
-- The visitors behind `Cache::set` in src/libs/system/cache.cpp, with the parameters of `Cache.Get`.
use trans_lucid.Prelude.{ℕ, Bool, List, [], ◌∷◌, if◌then◌else◌}
use trans_lucid.Prelude.Int.{ℤ}
use trans_lucid.Cache.Tree.{
  Constant, demand, Result, ok, cache_error, ◌>>=◌, CacheEntry, constant, level, CacheNode,
  map_node, entry_node, CacheMap, no_binding, bind,
}

-- `set_cache_value`: "overwrites entry with value, but if value is a demand it becomes a new
-- CacheLevel". The age of the entry stays.
unfoldable pub set_cache_value : {V : Type 0} → ℕ → Constant V → CacheEntry V
set_cache_value age (demand dims) = level dims (map_node no_binding) age
set_cache_value age c = constant c age

module _ {V : Type 0} (beq : Constant V → Constant V → Bool) (k : ℤ → Constant V)
    (v : Constant V) where
  unfoldable mutual
    unfolding set_cache_value

    -- `set_level_node`
    pub set_node : CacheNode V → List ℤ → Result (CacheNode V)
    set_node (entry_node e) (d ∷ dims) = cache_error
    set_node (entry_node e) [] = do e' ← set_entry e; ok (entry_node e')
    set_node (map_node m) [] = cache_error
    set_node (map_node m) (d ∷ dims) = do m' ← set_map m (k d) dims; ok (map_node m')

    -- The `find` of `set_level_node` on a map, and the visit of what it finds.
    pub set_map : CacheMap V → Constant V → List ℤ → Result (CacheMap V)
    set_map no_binding key dims = cache_error
    set_map (bind c n m) key dims =
        let here = (do n' ← set_node n dims; ok (bind c n' m)) in
        let there = (do m' ← set_map m key dims; ok (bind c n m')) in
        if beq c key then here else there

    -- `set_visit_top_entry`
    pub set_entry : CacheEntry V → Result (CacheEntry V)
    set_entry (constant c age) = ok (set_cache_value age v)
    set_entry (level dims n age) = do n' ← set_node n dims; ok (level dims n' age)
