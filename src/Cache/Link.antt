-- ===== src/Cache/Link.antt =====
-- `CacheWS::operator()(Context&)` of src/libs/system/cache.cpp, the link from the evaluation in a
-- context to that with a `Delta`. `all` is what a context has where nothing is set.
use trans_lucid.Prelude.{
  ℕ, zero, suc, Bool, Option, none, some, List, [], ◌∷◌, if◌then◌else◌, length,
}
use trans_lucid.Prelude.Int.{ℤ}
use trans_lucid.Context.{Context, perturb, lookup}
use trans_lucid.Cache.Tree.{Constant, demand, Result, ok, cache_error}
use trans_lucid.Cache.{Cache}
use trans_lucid.Cache.Workshop.{Evaluated, cache_ws, empty}
use trans_lucid.Workshops.Delta.{Delta, insert_all}

module _ {V : Type 0} (all : Constant V) where
  -- `p.perturb(d, kappa.lookup(d))` for each demanded dimension.
  unfoldable pub perturb_demands : List ℤ → Context (Constant V) → Context (Constant V)
  perturb_demands [] k = k
  perturb_demands (d ∷ ds) k = perturb_demands ds (perturb all d (lookup all k d) k)

  -- A constant, with the cache afterwards.
  abbrev pub Linked : Type 0
  Linked = Option (Result (Constant V × Cache V))

  module _ (beq : Constant V → Constant V → Bool)
      (expr : (ℤ → Constant V) → Delta → ℕ → Cache V → Evaluated V) where
    -- `operator()(kappa, delta, w, 0)`, with a round for each dimension of the set and one more.
    unfoldable pub ask : Context (Constant V) → Delta → Cache V → Evaluated V
    unfolding cache_ws
    ask k delta c = cache_ws beq expr (suc (length delta.dims)) (lookup all k) delta 0 c

    -- The loop, on fuel for its rounds: `while (c.second.index() == TYPE_INDEX_DEMAND)`. `again` is
    -- the next round, with the perturbed context.
    unfoldable pub drive_answer :
        (Context (Constant V) → Delta → Cache V → Linked)
        → Context (Constant V)
        → Delta
        → Evaluated V
        → Linked
    unfolding perturb_demands insert_all
    drive_answer again k delta none = none
    drive_answer again k delta (some cache_error) = some cache_error
    drive_answer again k delta (some (ok (t, demand ds, c))) =
        again (perturb_demands ds k) (insert_all ds delta) c
    drive_answer again k delta (some (ok (t, v, c))) = some (ok (v, c))

    unfoldable pub drive : ℕ → Context (Constant V) → Delta → Cache V → Linked
    unfolding drive_answer ask
    drive zero k delta c = none
    drive (suc fuel) k delta c = drive_answer (drive fuel) k delta (ask k delta c)

    -- The operator. `plain` is the expression's own operator of a context, for a system without the
    -- cache.
    unfoldable pub link :
        Bool
        → (Context (Constant V) → Cache V → Linked)
        → ℕ
        → Context (Constant V)
        → Cache V
        → Linked
    unfolding drive
    link cache_enabled plain fuel k c =
        let cached = drive fuel k empty c in if cache_enabled then cached else plain k c
