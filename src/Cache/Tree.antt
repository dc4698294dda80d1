-- ===== src/Cache/Tree.antt =====
-- The data of src/include/tl/cache.hpp: the tree of cached values, and the outcomes of its visitors.
use trans_lucid.Prelude.{ℕ, List}
use trans_lucid.Prelude.Int.{ℤ}

-- The constants that the cache tells apart: `calc` and `loop` (the special constant SP_LOOP), a
-- demand with the dimensions that it asks for, in order, and all others.
pub data Constant (V : Type 0) : Type 0 where
  calc : Constant V
  loop : Constant V
  demand : List ℤ → Constant V
  value : V → Constant V

-- `throw __FILE__ ": Cache error ..."`
pub data Result {ℓ} (A : Type ℓ) : Type ℓ where
  ok : A → Result A
  cache_error : Result A

infixl 5 ◌>>=◌
abbrev pub ◌>>=◌ {ℓ κ} : {A : Type ℓ} {B : Type κ} → Result A → (A → Result B) → Result B
ok a >>= f = f a
cache_error >>= f = cache_error

-- `CacheEntry`: a constant or a `CacheLevel` (its dimensions and its node), and the age.
-- `CacheLevelNode`: a map or an entry. `CacheEntryMap`: the bindings of a std::map, whose order no
-- operation depends on.
mutual
  pub data CacheEntry (V : Type 0) : Type 0 where
    constant : Constant V → ℕ → CacheEntry V
    level : List ℤ → CacheNode V → ℕ → CacheEntry V

  pub data CacheNode (V : Type 0) : Type 0 where
    map_node : CacheMap V → CacheNode V
    entry_node : CacheEntry V → CacheNode V

  pub data CacheMap (V : Type 0) : Type 0 where
    no_binding : CacheMap V
    bind : Constant V → CacheNode V → CacheMap V → CacheMap V

-- The numbers that a visitor changes in the `Cache`. The retirement age is an int that can become
-- negative.
pub record Counters : Type 0 where
  pub retirement_age : ℤ
  pub misses : ℕ
  pub hits : ℕ
