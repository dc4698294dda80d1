-- ===== src/Cache/Workshop.antt =====
-- `CacheWS::operator()(Context&, Delta&, const Thread&, size_t)` of src/libs/system/cache.cpp, the
-- evaluation of an expression with the cache in front of it. The perturbed `subcontext` is left out:
-- nothing reads it.
use trans_lucid.Prelude.{ℕ, zero, suc, Bool, false, Option, none, some, List, [], ◌∷◌}
use trans_lucid.Prelude.Int.{ℤ}
use trans_lucid.Cache.Tree.{Constant, calc, demand, Result, ok, cache_error}
use trans_lucid.Cache.Get.{missing}
use trans_lucid.Cache.{Cache, get, set}
use trans_lucid.Workshops.Delta.{Delta, contains, insert_all, mem}

-- A time and a constant, with the cache afterwards; `none` stands for fuel that was too little.
abbrev pub Evaluated : Type 0 → Type 0
Evaluated V = Option (Result (ℕ × Constant V × Cache V))

abbrev pub evaluated : {V : Type 0} → ℕ → Result (Constant V × Cache V) → Evaluated V
evaluated t (ok (v, c)) = some (ok (t, v, c))
evaluated t cache_error = some cache_error

-- `std::set_difference` of the demands and the dimensions of `delta`.
unfoldable pub difference : List ℤ → Delta → List ℤ
unfolding missing
difference ds delta = missing (λ d. mem d delta.dims) ds

-- `Delta subdelta;`
abbrev pub empty : Delta
empty = record { all = false; dims = [] }

module _ {V : Type 0} (beq : Constant V → Constant V → Bool)
    (expr : (ℤ → Constant V) → Delta → ℕ → Cache V → Evaluated V) where
  module _ (k : ℤ → Constant V) (delta : Delta) (t : ℕ) where
    -- After the loop: what the cache has for `delta`.
    unfoldable pub final_get : Cache V → Evaluated V
    final_get c = evaluated t (get beq k (contains delta) c)

    -- The test of the difference, and the next round, which `again` stands for.
    unfoldable pub on_difference : List ℤ → Evaluated V → Cache V → Evaluated V
    on_difference [] again c = again
    on_difference (d ∷ diff) again c = some (ok (t, demand (d ∷ diff), c))

    -- A round from where `d` is known.
    unfoldable pub on_answer :
        (Delta → Cache V → Evaluated V) → Delta → Constant V → Cache V → Evaluated V
    unfolding final_get on_difference difference
    on_answer again subdelta (demand ds) c =
        on_difference (difference ds delta) (again (insert_all ds subdelta) c) c
    on_answer again subdelta v c = final_get c

    -- `m_cache.set(kappa, subdelta, result.second)` and `d = result.second`.
    unfoldable pub on_result : (Delta → Cache V → Evaluated V) → Delta → Evaluated V → Evaluated V
    unfolding on_answer
    on_result again subdelta none = none
    on_result again subdelta (some cache_error) = some cache_error
    on_result again subdelta (some (ok (time, v, c))) = elim (set beq k v c) [
      | ok c' ↦ on_answer again subdelta v c'
      | cache_error ↦ some cache_error
    ]

    -- `if (d.index() == TYPE_INDEX_CALC)`
    unfoldable pub on_get :
        (Delta → Cache V → Evaluated V) → Delta → Result (Constant V × Cache V) → Evaluated V
    unfolding on_result on_answer
    on_get again subdelta cache_error = some cache_error
    on_get again subdelta (ok (calc, c)) = on_result again subdelta (expr k subdelta t c)
    on_get again subdelta (ok (v, c)) = on_answer again subdelta v c

    -- `while (true)`, on fuel for its rounds.
    unfoldable pub cached_loop : ℕ → Delta → Cache V → Evaluated V
    unfolding on_get
    cached_loop zero subdelta c = none
    cached_loop (suc fuel) subdelta c =
        on_get (cached_loop fuel) subdelta (get beq k (contains subdelta) c)

  -- The operator.
  unfoldable pub cache_ws : ℕ → (ℤ → Constant V) → Delta → ℕ → Cache V → Evaluated V
  unfolding cached_loop
  cache_ws fuel k delta t c = cached_loop k delta t fuel empty c
