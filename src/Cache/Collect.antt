-- ===== src/Cache/Collect.antt =====
-- The visitors behind `Cache::garbageCollect` in src/libs/system/cache.cpp.
use trans_lucid.Prelude.{ℕ, ◌+◌, Bool, true, false, ◌&&◌, if◌then◌else◌}
use trans_lucid.Prelude.Int.{ℤ, pos, ltb_ℤ}
use trans_lucid.Cache.Tree.{
  CacheEntry, constant, level, CacheNode, map_node, entry_node, CacheMap, no_binding, bind,
}

-- The age of an entry that survives.
unfoldable pub older : {V : Type 0} → CacheEntry V → CacheEntry V
older (constant c age) = constant c (age + 1)
older (level dims n age) = level dims n (age + 1)

abbrev pub age_of : {V : Type 0} → CacheEntry V → ℕ
age_of (constant c age) = age
age_of (level dims n age) = age

-- `entrymap.entry.empty()`
abbrev pub is_empty : {V : Type 0} → CacheMap V → Bool
is_empty no_binding = true
is_empty (bind c n m) = false

-- The end of `collect_level_node::operator()(CacheEntry&)`: whether the entry goes, and the entry.
unfoldable pub retire : {V : Type 0} → ℤ → Bool → CacheEntry V → Bool × CacheEntry V
unfolding older
retire retirement_age result e =
    if result && ltb_ℤ retirement_age (pos (age_of e)) then (true, e) else (false, older e)

module _ {V : Type 0} (retirement_age : ℤ) where
  unfoldable mutual
    unfolding retire

    -- `collect_level_node`: whether the node can be collected, and the node after the visit.
    pub collect_node : CacheNode V → Bool × CacheNode V
    collect_node (map_node m) = let m' = collect_map m in (is_empty m', map_node m')
    collect_node (entry_node e) = let (gone, e') = collect_entry e in (gone, entry_node e')

    -- The loop of `collect_entry_map`: the bindings that are left.
    pub collect_map : CacheMap V → CacheMap V
    collect_map no_binding = no_binding
    collect_map (bind c n m) =
        let (gone, n') = collect_node n in
        let rest = collect_map m in if gone then rest else bind c n' rest

    -- `collect_entry` on what the entry holds, and then its age.
    pub collect_entry : CacheEntry V → Bool × CacheEntry V
    collect_entry (constant c age) = retire retirement_age true (constant c age)
    collect_entry (level dims n age) =
        let (gone, n') = collect_node n in retire retirement_age gone (level dims n' age)
