-- ===== src/Cache/Laws.antt =====
-- The cache of src/libs/system/cache.cpp as its users see it: `get`, `set`, `garbageCollect`.
use trans_lucid.Prelude.{
  Bool, true, Option, none, some, List, [], ◌∷◌, ◌≡◌, ◌↔◌, refl, subst, inl, inr,
}
use trans_lucid.Prelude.Int.{ℤ}
use trans_lucid.Cache.Tree.{
  Constant, calc, demand, loop, value, Result, ok, cache_error, ◌>>=◌, CacheNode, Counters,
}
use trans_lucid.Cache.Get.{get_node, missing, calc_node}
use trans_lucid.Cache.Set.{set_node}
use trans_lucid.Cache.Shape.{WfNode, missing_cases, get_node_total}
use trans_lucid.Cache.Memo.{
  stored_answer, IsUseful, get_node-WhenCalc, WhenCalc, SettledNode, SettledNode-calc_node,
}
use trans_lucid.Cache.Keep.{IsProper, WhenOk, WhenOk-map, set_node-Wf, collect_node-Wf}
use trans_lucid.Cache.{Cache, Level, get, set, get_level, new_level, garbage_collect}

-- The tree of the cache, if there is one, has the shape that the visitors rely on.
abbrev RootWf : {V : Type 0} → Option (Level V) → Type 0
RootWf none = Unit
RootWf (some l) = WfNode l.node l.dims

abbrev pub IsValid : {V : Type 0} → Cache V → Type 0
IsValid c = RootWf c.entry

module _ {V : Type 0} (beq : Constant V → Constant V → Bool) (k : ℤ → Constant V)
    (in_delta : ℤ → Bool) where
  get_level_total :
      (l : Level V) (s : Counters)
      → WfNode l.node l.dims
      → (r : Constant V) × (c' : Cache V) × (get_level beq k in_delta l s ≡ ok (r, c')) × IsValid c'
  get_level_total l s w = elim (missing_cases in_delta l.dims) [
    | inl all_there ↦
        let (r, n, s', e, w') = get_node_total beq k in_delta l.node l.dims s w in
        (
          r,
          record { entry = some (record l { node = n }); counters = s' },
          unfold get_level in rw (all_there, e),
          w',
        )
    | inr (d, demands, some_missing) ↦ (
      demand (d ∷ demands),
      record { entry = some l; counters = s },
      unfold get_level in rw some_missing,
      w,
    )
  ]

  root_total :
      (o : Option (Level V)) (s : Counters)
      → RootWf o
      → (r : Constant V) × (c' : Cache V) × (get beq k in_delta (record { entry = o; counters = s })
          ≡ ok (r, c'))
        × IsValid c'
  unfolding get
  root_total none s w =
      (calc, record { entry = some new_level; counters = s }, refl, unfold WfNode new_level in tt)
  root_total (some l) s w = get_level_total l s w

  -- On a valid cache `get` never meets the cache error, and leaves a valid cache.
  pub get_total :
      (c : Cache V)
      → IsValid c
      → (r : Constant V) × (c' : Cache V) × (get beq k in_delta c ≡ ok (r, c')) × IsValid c'
  get_total c w = root_total c.entry c.counters w

module _ {V : Type 0} (beq : Constant V → Constant V → Bool)
    (beq_iff : (a b : Constant V) → (beq a b ≡ true) ↔ (a ≡ b)) (k : ℤ → Constant V)
    (in_delta : ℤ → Bool) (v : Constant V) (useful : IsUseful in_delta v) where
  -- The cache after a `get` that answered `calc`: the value can be set, and is answered from then.
  abbrev Settled : Cache V → Type 0
  Settled c =
      (c' : Cache V) × (set beq k v c ≡ ok c')
      × ((c'' : Cache V) × (get beq k in_delta c' ≡ ok (stored_answer in_delta v, c'')))

  abbrev WhenCalcCache : Result (Constant V × Cache V) → Type 0
  WhenCalcCache (ok (calc, c)) = Settled c
  WhenCalcCache _ = Unit

  Settled-node :
      (dims : List ℤ) (n : CacheNode V) (s : Counters)
      → missing in_delta dims ≡ []
      → SettledNode beq beq_iff k in_delta v useful n dims
      → Settled (record { entry = some (record { dims = dims; node = n }); counters = s })
  unfolding get set
  Settled-node dims n s all_there (n', put, got) =
      let (n'', s', e) = got s in
      (
        record { entry = some (record { dims = dims; node = n' }); counters = s },
        rw put,
        (
          record { entry = some (record { dims = dims; node = n'' }); counters = s' },
          rw (all_there, e),
        ),
      )

  WhenCalcCache-root :
      (l : Level V)
      → missing in_delta l.dims ≡ []
      → (r : Result (Constant V × CacheNode V × Counters))
      → WhenCalc beq beq_iff k in_delta v useful
          (λ n'. SettledNode beq beq_iff k in_delta v useful n' l.dims)
          r
      → WhenCalcCache (
          r >>= λ (c, n, s').
          ok (c, record { entry = some (record l { node = n }); counters = s' }))
  WhenCalcCache-root l there (ok (calc, n, s)) h = Settled-node l.dims n s there h
  WhenCalcCache-root l there (ok (loop, n, s)) h = tt
  WhenCalcCache-root l there (ok (demand dims, n, s)) h = tt
  WhenCalcCache-root l there (ok (value x, n, s)) h = tt
  WhenCalcCache-root l there cache_error h = tt

  get-WhenCalcCache :
      (o : Option (Level V)) (s : Counters)
      → WhenCalcCache (get beq k in_delta (record { entry = o; counters = s }))
  unfolding get
  get-WhenCalcCache none s =
      Settled-node [] _ s (unfold missing in refl)
        (unfold calc_node in SettledNode-calc_node beq beq_iff k in_delta v useful [])
  get-WhenCalcCache (some l) s = elim (missing_cases in_delta l.dims) [
    | inr (d, demands, some_missing) ↦ rw some_missing tt
    | inl all_there ↦ rw all_there (
        WhenCalcCache-root l all_there (get_node beq k in_delta l.node l.dims s)
          (get_node-WhenCalc beq beq_iff k in_delta v useful l.node l.dims s))
  ]

  -- Let `beq` decide the equality of constants, and let the value be no demand whose dimensions are
  -- all in the delta already. A `get` that answers `calc` leaves a place for the value: `set` in the
  -- same context fills it without an error, and the next `get` answers with the value (with the
  -- missing dimensions, for a demand; with the special constant for a loop, if the value is `calc`
  -- itself).
  pub get-set-get :
      (c c' : Cache V)
      → get beq k in_delta c ≡ ok (calc, c')
      → (c'' : Cache V) × (set beq k v c' ≡ ok c'')
        × ((c3 : Cache V) × (get beq k in_delta c'' ≡ ok (stored_answer in_delta v, c3)))
  get-set-get c c' e = subst WhenCalcCache e (get-WhenCalcCache c.entry c.counters)

module _ {V : Type 0} (beq : Constant V → Constant V → Bool) (k : ℤ → Constant V) (v : Constant V)
    (proper : IsProper v) where
  root_set :
      (o : Option (Level V)) (s : Counters)
      → RootWf o
      → WhenOk IsValid (set beq k v (record { entry = o; counters = s }))
  unfolding set
  root_set none s w = tt
  root_set (some l) s w =
      WhenOk-map (λ n. WfNode n l.dims) IsValid
        (λ n. record { entry = some (record l { node = n }); counters = s }) (λ n h. h)
        (set_node beq k v l.node l.dims) (set_node-Wf beq k v proper l.node l.dims w)

  -- `set` on a valid cache, when it throws nothing, leaves a valid cache, unless the value is a demand that asks for nothing.
  pub set-IsValid : (c c' : Cache V) → IsValid c → set beq k v c ≡ ok c' → IsValid c'
  set-IsValid c c' w e = subst (WhenOk IsValid) e (root_set c.entry c.counters w)

root_collect :
    {V : Type 0} (o : Option (Level V)) (s : Counters)
    → RootWf o
    → IsValid (garbage_collect (record { entry = o; counters = s }))
unfolding garbage_collect
root_collect none s w = w
root_collect (some l) s w = collect_node-Wf s.retirement_age l.node l.dims w

-- A garbage collection of a valid cache leaves a valid cache.
pub garbage_collect-IsValid : {V : Type 0} (c : Cache V) → IsValid c → IsValid (garbage_collect c)
garbage_collect-IsValid c w = root_collect c.entry c.counters w
