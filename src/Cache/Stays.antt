-- ===== src/Cache/Stays.antt =====
-- The dimensions that `CacheWS::operator()` with a Delta (src/libs/system/cache.cpp) can demand: those
-- that its expression demands.
use trans_lucid.Prelude.{ℕ, zero, suc, Bool, true, none, some, ◌≡◌, refl, sym, subst, List, [], ◌∷◌}
use trans_lucid.Prelude.Int.{ℤ}
use trans_lucid.Cache.Tree.{Constant, calc, loop, demand, value, Result, ok, cache_error}
use trans_lucid.Cache.{Cache, get, set}
use trans_lucid.Cache.Keep.{WhenOk}
use trans_lucid.Cache.Known.{In}
use trans_lucid.Cache.Lookup.{mem-missing}
use trans_lucid.Cache.Asks.{AsksIn, LevelsIn, get-GotCache, set-LevelsIn}
use trans_lucid.Cache.Workshop.{
  Evaluated, cache_ws, cached_loop, on_get, on_result, on_answer, on_difference, final_get,
  difference, empty, evaluated,
}
use trans_lucid.Workshops.Delta.{Delta, contains, insert_all, mem}

-- Every demand of the expression is for dimensions of the list, and it leaves levels for these alone.
abbrev pub DemandsIn :
    {V : Type 0}
    → List ℤ
    → ((ℤ → Constant V) → Delta → ℕ → Cache V → Evaluated V)
    → (ℤ → Constant V)
    → Type 0
DemandsIn {V} u expr k =
    (sub : Delta) (t t' : ℕ) (c c' : Cache V) (v : Constant V)
    → expr k sub t c ≡ some (ok (t', v, c'))
    → LevelsIn u c
    → AsksIn u v × LevelsIn u c'

module _ {V : Type 0} (u : List ℤ) (beq : Constant V → Constant V → Bool)
    (expr : (ℤ → Constant V) → Delta → ℕ → Cache V → Evaluated V) (k : ℤ → Constant V)
    (within : DemandsIn u expr k) (delta : Delta) (t : ℕ) where
  -- What the operator with a `Delta` returns asks only for dimensions of the list, as do the levels of
  -- the cache that it leaves.
  abbrev pub StaysIn : Evaluated V → Type 0
  StaysIn none = Unit
  StaysIn (some cache_error) = Unit
  StaysIn (some (ok (t', v, c))) = AsksIn u v × LevelsIn u c

  evaluated-StaysIn :
      (r : Result (Constant V × Cache V))
      → WhenOk (λ (c, a). AsksIn u c × LevelsIn u a) r
      → StaysIn (evaluated t r)
  evaluated-StaysIn (ok (v, c)) h = h
  evaluated-StaysIn cache_error h = tt

  difference-StaysIn :
      (ds diff : List ℤ) (again : Evaluated V) (c : Cache V)
      → difference ds delta ≡ diff
      → In ds u
      → LevelsIn u c
      → StaysIn again
      → StaysIn (on_difference beq expr k delta t diff again c)
  unfolding on_difference difference
  difference-StaysIn ds [] again c e i l h = h
  difference-StaysIn ds (d ∷ diff) again c e i l h = (
    λ x m. i x (mem-missing (λ d. mem d delta.dims) ds x (subst (λ y. mem x y ≡ true) (sym e) m)),
    l,
  )

  module _ (again : Delta → Cache V → Evaluated V)
      (stays : (sub : Delta) (c : Cache V) → LevelsIn u c → StaysIn (again sub c)) where
    on_answer-StaysIn :
        (sub : Delta) (v : Constant V) (c : Cache V)
        → AsksIn u v
        → LevelsIn u c
        → StaysIn (on_answer beq expr k delta t again sub v c)
    unfolding on_answer final_get
    on_answer-StaysIn sub (demand ds) c a l =
        difference-StaysIn ds (difference ds delta) (again (insert_all ds sub) c) c refl a l
          (stays (insert_all ds sub) c l)
    on_answer-StaysIn sub calc c a l =
        evaluated-StaysIn _ (get-GotCache u beq k (contains delta) c l)
    on_answer-StaysIn sub loop c a l =
        evaluated-StaysIn _ (get-GotCache u beq k (contains delta) c l)
    on_answer-StaysIn sub (value x) c a l =
        evaluated-StaysIn _ (get-GotCache u beq k (contains delta) c l)

    -- After the expression, when `set` has been called.
    on_set-StaysIn :
        (sub : Delta) (v : Constant V) (r : Result (Cache V))
        → AsksIn u v
        → WhenOk (LevelsIn u) r
        → StaysIn (elim r [
          | ok c' ↦ on_answer beq expr k delta t again sub v c'
          | cache_error ↦ some cache_error
        ])
    on_set-StaysIn sub v (ok c) a l = on_answer-StaysIn sub v c a l
    on_set-StaysIn sub v cache_error a l = tt

    on_result-StaysIn :
        (sub : Delta) (r : Evaluated V)
        → StaysIn r
        → StaysIn (on_result beq expr k delta t again sub r)
    unfolding on_result
    on_result-StaysIn sub none h = tt
    on_result-StaysIn sub (some cache_error) h = tt
    on_result-StaysIn sub (some (ok (time, v, c))) h =
        on_set-StaysIn sub v (set beq k v c) h.0 (set-LevelsIn u beq k v h.0 c h.1)

    expr-StaysIn :
        (sub : Delta) (c : Cache V) (r : Evaluated V)
        → expr k sub t c ≡ r
        → LevelsIn u c
        → StaysIn r
    expr-StaysIn sub c none e l = tt
    expr-StaysIn sub c (some cache_error) e l = tt
    expr-StaysIn sub c (some (ok (t', v, c'))) e l = within sub t t' c c' v e l

    on_get-StaysIn :
        (sub : Delta) (r : Result (Constant V × Cache V))
        → WhenOk (λ (c, a). AsksIn u c × LevelsIn u a) r
        → StaysIn (on_get beq expr k delta t again sub r)
    unfolding on_get
    on_get-StaysIn sub cache_error h = tt
    on_get-StaysIn sub (ok (calc, c)) h =
        on_result-StaysIn sub (expr k sub t c) (expr-StaysIn sub c (expr k sub t c) refl h.1)
    on_get-StaysIn sub (ok (loop, c)) h = on_answer-StaysIn sub loop c h.0 h.1
    on_get-StaysIn sub (ok (demand ds, c)) h = on_answer-StaysIn sub (demand ds) c h.0 h.1
    on_get-StaysIn sub (ok (value x, c)) h = on_answer-StaysIn sub (value x) c h.0 h.1

  loop-StaysIn :
      (fuel : ℕ) (sub : Delta) (c : Cache V)
      → LevelsIn u c
      → StaysIn (cached_loop beq expr k delta t fuel sub c)
  unfolding cached_loop
  loop-StaysIn zero sub c l = tt
  loop-StaysIn (suc fuel) sub c l =
      on_get-StaysIn (cached_loop beq expr k delta t fuel) (loop-StaysIn fuel) sub
        (get beq k (contains sub) c) (get-GotCache u beq k (contains sub) c l)

  pub cache_ws-StaysIn :
      (fuel : ℕ) (c : Cache V) → LevelsIn u c → StaysIn (cache_ws beq expr fuel k delta t c)
  unfolding cache_ws
  cache_ws-StaysIn fuel c l = loop-StaysIn fuel empty c l
