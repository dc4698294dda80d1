-- ===== src/Cache/Shape.antt =====
-- The shape that the visitors of src/libs/system/cache.cpp rely on: below a level with n dimensions
-- there are n maps, and then an entry. On such a tree no visitor throws, and each keeps the shape.
use trans_lucid.Prelude.{Bool, List, [], ◌∷◌, ◌≡◌, refl, Bool-cases, List-cases, ◌⊎◌, inl, inr}
use trans_lucid.Prelude.Int.{ℤ}
use trans_lucid.Cache.Tree.{
  Constant, calc, demand, ok, CacheEntry, constant, level, CacheNode, map_node, entry_node,
  CacheMap, no_binding, bind, Counters,
}
use trans_lucid.Cache.Get.{
  get_node, get_map, get_entry, answer, missing, calc_node, hit, miss, update_retirement_age,
}

module _ {V : Type 0} where
  unfoldable mutual
    pub WfNode : CacheNode V → List ℤ → Type 0
    WfNode (map_node m) [] = ⊥
    WfNode (map_node m) (d ∷ dims) = WfMap m dims
    WfNode (entry_node e) [] = WfEntry e
    WfNode (entry_node e) (d ∷ dims) = ⊥

    pub WfMap : CacheMap V → List ℤ → Type 0
    WfMap no_binding dims = Unit
    WfMap (bind c n m) dims = WfNode n dims × WfMap m dims

    pub WfEntry : CacheEntry V → Type 0
    WfEntry (constant c age) = Unit
    WfEntry (level dims n age) = WfNode n dims

  WfNode-calc_node : (k : ℤ → Constant V) (dims : List ℤ) → WfNode (calc_node k dims) dims
  unfolding WfNode calc_node
  WfNode-calc_node k [] = tt
  WfNode-calc_node k (d ∷ dims) = (WfNode-calc_node k dims, tt)

pub missing_cases :
    (in_delta : ℤ → Bool) (dims : List ℤ)
    → (missing in_delta dims ≡ [])
      ⊎ ((d : ℤ) × (demands : List ℤ) × (missing in_delta dims ≡ d ∷ demands))
missing_cases in_delta dims = List-cases (missing in_delta dims)

module _ {V : Type 0} (beq : Constant V → Constant V → Bool) (k : ℤ → Constant V)
    (in_delta : ℤ → Bool) where
  mutual
    unfolding get_node WfNode

    pub get_node_total :
        (n : CacheNode V) (dims : List ℤ) (s : Counters)
        → WfNode n dims
        → (c : Constant V) × (n' : CacheNode V) × (s' : Counters) × (get_node beq k in_delta n dims
              s
            ≡ ok (c, n', s'))
          × WfNode n' dims
    get_node_total (map_node m) [] s h = absurd h
    get_node_total (map_node m) (d ∷ dims) s h =
        let (c, m', s', e, w) = get_map_total m (k d) dims s h in (c, map_node m', s', rw e, w)
    get_node_total (entry_node x) (d ∷ dims) s h = absurd h
    get_node_total (entry_node x) [] s h =
        let (c, x', s', e, w) = get_entry_total x s h in (c, entry_node x', s', rw e, w)

    get_map_total :
        (m : CacheMap V) (key : Constant V) (dims : List ℤ) (s : Counters)
        → WfMap m dims
        → (c : Constant V) × (m' : CacheMap V) × (s' : Counters) × (get_map beq k in_delta m key
              dims s
            ≡ ok (c, m', s'))
          × WfMap m' dims
    get_map_total no_binding key dims s h =
        (calc, bind key (calc_node k dims) no_binding, miss s, refl, (WfNode-calc_node k dims, tt))
    get_map_total (bind c n m) key dims s h = elim (Bool-cases (beq c key)) [
      | inl same ↦
          let (found, n', s', e, w) = get_node_total n dims s h.0 in
          (found, bind c n' m, s', rw (same, e), (w, h.1))
      | inr not_here ↦
          let (found, m', s', e, w) = get_map_total m key dims s h.1 in
          (found, bind c n m', s', rw (not_here, e), (h.0, w))
    ]

    get_entry_total :
        (x : CacheEntry V) (s : Counters)
        → WfEntry x
        → (c : Constant V) × (x' : CacheEntry V) × (s' : Counters) × (get_entry beq k in_delta x s
            ≡ ok (c, x', s'))
          × WfEntry x'
    get_entry_total (constant c age) s h =
        (answer c, constant c 0, hit (update_retirement_age age s), refl, tt)
    get_entry_total (level dims n age) s h =
        let (c, n', s', e, w) = get_node_total n dims (update_retirement_age age s) h in
        elim (missing_cases in_delta dims) [
          | inl all_there ↦ (c, level dims n' 0, s', rw (all_there, e), w)
          | inr (d, demands, some_missing) ↦ (
            demand (d ∷ demands),
            level dims n 0,
            update_retirement_age age s,
            rw some_missing,
            h,
          )
        ]
