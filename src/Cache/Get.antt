-- ===== src/Cache/Get.antt =====
-- The visitors behind `Cache::get` in src/libs/system/cache.cpp. `k` is what `Context::lookup` gives
-- for a dimension, `in_delta` is `Delta::contains`, `beq` the equality of constants.
use trans_lucid.Prelude.{ℕ, ◌+◌, Bool, not, List, [], ◌∷◌, if◌then◌else◌}
use trans_lucid.Prelude.Int.{ℤ, pos, ltb_ℤ}
use trans_lucid.Cache.Tree.{
  Constant, calc, loop, demand, Result, ok, cache_error, ◌>>=◌, CacheEntry, constant, level,
  CacheNode, map_node, entry_node, CacheMap, no_binding, bind, Counters,
}

-- `Cache::updateRetirementAge`
unfoldable pub update_retirement_age : ℕ → Counters → Counters
update_retirement_age age s =
    if ltb_ℤ s.retirement_age (pos age) then record s { retirement_age = pos age } else s

-- `Cache::hit` and `Cache::miss`
unfoldable pub hit : Counters → Counters
hit s = record s { hits = s.hits + 1 }

unfoldable pub miss : Counters → Counters
miss s = record s { misses = s.misses + 1 }

-- What is found for a stored constant: a calculation under way is a loop.
unfoldable pub answer : {V : Type 0} → Constant V → Constant V
answer calc = loop
answer c = c

-- `for (auto d : l.dims) if (!delta.contains(d)) demands.push_back(d);`
unfoldable pub missing : (ℤ → Bool) → List ℤ → List ℤ
missing in_delta [] = []
missing in_delta (d ∷ dims) =
    if not (in_delta d) then d ∷ missing in_delta dims else missing in_delta dims

-- `if (demands.size() > 0)`: the demands, and otherwise what follows.
abbrev pub unless_missing {ℓ} : {A : Type ℓ} → List ℤ → (List ℤ → A) → A → A
unless_missing [] ask rest = rest
unless_missing (d ∷ demands) ask rest = ask (d ∷ demands)

module _ {V : Type 0} (k : ℤ → Constant V) where
  -- What `set_calc` puts below the current dimension: a map for each dimension left, and a
  -- calculation under way at the end.
  unfoldable pub calc_node : List ℤ → CacheNode V
  calc_node [] = entry_node (constant calc 0)
  calc_node (d ∷ dims) = map_node (bind (k d) (calc_node dims) no_binding)

module _ {V : Type 0} (beq : Constant V → Constant V → Bool) (k : ℤ → Constant V)
    (in_delta : ℤ → Bool) where
  unfoldable mutual
    unfolding update_retirement_age hit miss answer missing calc_node

    -- `get_cache_level_visitor`; a map goes on in `lookup_entry_map`.
    pub get_node : CacheNode V → List ℤ → Counters → Result (Constant V × CacheNode V × Counters)
    get_node (map_node m) [] s = cache_error
    get_node (map_node m) (d ∷ dims) s = do
      (c, m', s') ← get_map m (k d) dims s
      ok (c, map_node m', s')
    get_node (entry_node e) (d ∷ dims) s = cache_error
    get_node (entry_node e) [] s = do (c, e', s') ← get_entry e s; ok (c, entry_node e', s')

    -- `lookup_entry_map`, at the key of the current dimension.
    pub get_map :
        CacheMap V → Constant V → List ℤ → Counters → Result (Constant V × CacheMap V × Counters)
    get_map no_binding key dims s = ok (calc, bind key (calc_node k dims) no_binding, miss s)
    get_map (bind c n m) key dims s =
        let here = (do (found, n', s') ← get_node n dims s; ok (found, bind c n' m, s')) in
        let there = (do (found, m', s') ← get_map m key dims s; ok (found, bind c n m', s')) in
        if beq c key then here else there

    -- The entry reached: `get_cache_level_visitor` on a `CacheEntry`, and `get_cache_entry_visitor`.
    pub get_entry : CacheEntry V → Counters → Result (Constant V × CacheEntry V × Counters)
    get_entry (constant c age) s = ok (answer c, constant c 0, hit (update_retirement_age age s))
    get_entry (level dims n age) s =
        let s0 = update_retirement_age age s in
        let below = (do (c, n', s') ← get_node n dims s0; ok (c, level dims n' 0, s')) in
        unless_missing (missing in_delta dims) (λ demands. ok (demand demands, level dims n 0, s0))
          below
