-- ===== src/Cache.antt =====
-- `Cache` of src/libs/system/cache.cpp and src/include/tl/cache.hpp: the root of the tree, which is
-- null before the first `get`, and the counters.
pub mod Tree
pub mod Get
pub mod Set
pub mod Collect
pub mod Shape
pub mod Memo
pub mod Keep
pub mod Laws
pub mod Path
pub mod Lookup
pub mod Place
pub mod Right
pub mod Found
pub mod Known
pub mod Root
pub mod Workshop
pub mod Remember
pub mod Lacking
pub mod Sound
pub mod Again
pub mod Link
pub mod Asks
pub mod Stays
pub mod Linked
mod Examples
use trans_lucid.Prelude.{ℕ, Bool, Option, none, some, List, [], ◌∷◌}
use trans_lucid.Prelude.Int.{ℤ, pos, ◌-ℤ◌}
use Tree.{
  Constant, calc, demand, Result, ok, cache_error, ◌>>=◌, constant, CacheNode, entry_node, Counters,
}
use Get.{get_node, missing, unless_missing}
use Set.{set_node}
use Collect.{collect_node}

-- `m_entry`, a `CacheLevel`: its dimensions and its node.
pub record Level (V : Type 0) : Type 0 where
  pub dims : List ℤ
  pub node : CacheNode V

pub record Cache (V : Type 0) : Type 0 where
  pub entry : Option (Level V)
  pub counters : Counters

-- `Cache::Cache()`. It leaves `m_misses` and `m_hits` as the memory was.
unfoldable pub initial : {V : Type 0} → ℕ → ℕ → Cache V
initial misses hits = record {
  entry = none;
  counters = record { retirement_age = pos 2; misses = misses; hits = hits };
}

-- `CacheLevel::CacheLevel()`
unfoldable pub new_level : {V : Type 0} → Level V
new_level = record { dims = []; node = entry_node (constant calc 0) }

module _ {V : Type 0} (beq : Constant V → Constant V → Bool) (k : ℤ → Constant V) where
  -- `Cache::get`; the root goes through `get_cache_entry_visitor` on a `CacheLevel`.
  unfoldable pub get_level : (ℤ → Bool) → Level V → Counters → Result (Constant V × Cache V)
  get_level in_delta l s =
      let below = (do
        (c, n, s') ← get_node beq k in_delta l.node l.dims s
        ok (c, record { entry = some (record l { node = n }); counters = s' })) in
      unless_missing (missing in_delta l.dims)
        (λ demands. ok (demand demands, record { entry = some l; counters = s })) below

  unfoldable pub get : (ℤ → Bool) → Cache V → Result (Constant V × Cache V)
  unfolding get_level new_level
  get in_delta c = elim c.entry [
    | none ↦ ok (calc, record c { entry = some new_level })
    | some l ↦ get_level in_delta l c.counters
  ]

  -- `Cache::set`
  unfoldable pub set : Constant V → Cache V → Result (Cache V)
  set v c = elim c.entry [
    | none ↦ cache_error
    | some l ↦ do
      n ← set_node beq k v l.node l.dims
      ok (record c { entry = some (record l { node = n }) })
  ]

-- `Cache::garbageCollect`
unfoldable pub garbage_collect : {V : Type 0} → Cache V → Cache V
garbage_collect c = elim c.entry [
  | none ↦ c
  | some l ↦
      let s = c.counters in
      record {
        entry = some (record l { node = (collect_node s.retirement_age l.node).1 });
        counters = record s { retirement_age = s.retirement_age -ℤ pos 1 };
      }
]
