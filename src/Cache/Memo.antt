-- ===== src/Cache/Memo.antt =====
-- What `get` and `set` of src/libs/system/cache.cpp promise each other: a `get` that answers `calc`
-- leaves a place for the value, `set` fills it, and from then on `get` answers with the value.
use trans_lucid.Prelude.{
  ℕ, Bool, true, false, List, [], ◌∷◌, ◌≡◌, ◌≢◌, ◌↔◌, refl, Bool-cases, inl, inr,
}
use trans_lucid.Prelude.Int.{ℤ}
use trans_lucid.Cache.Tree.{
  Constant, calc, demand, value, loop, Result, ok, cache_error, ◌>>=◌, CacheEntry, constant, level,
  CacheNode, map_node, entry_node, CacheMap, no_binding, bind, Counters,
}
use trans_lucid.Cache.Get.{
  get_node, get_map, get_entry, answer, missing, calc_node, hit, update_retirement_age,
}
use trans_lucid.Cache.Set.{set_node, set_map, set_entry, set_cache_value}
use trans_lucid.Cache.Shape.{missing_cases}

module _ {V : Type 0} (in_delta : ℤ → Bool) where
  -- What a `get` answers once a value is stored: a demand is cut down to what is still missing.
  unfoldable pub stored_answer : Constant V → Constant V
  stored_answer (demand dims) = demand (missing in_delta dims)
  stored_answer c = answer c

  -- A demand is only of use if it asks for a dimension that is not there yet.
  abbrev pub IsUseful : Constant V → Type 0
  IsUseful (demand dims) = missing in_delta dims ≢ []
  IsUseful _ = Unit

module _ {V : Type 0} (beq : Constant V → Constant V → Bool)
    (beq_iff : (a b : Constant V) → (beq a b ≡ true) ↔ (a ≡ b)) (k : ℤ → Constant V)
    (in_delta : ℤ → Bool) (v : Constant V) (useful : IsUseful in_delta v) where
  -- The place is filled by `set`, and read by the `get`s after it.
  abbrev pub SettledNode : CacheNode V → List ℤ → Type 0
  SettledNode n dims =
      (n' : CacheNode V) × (set_node beq k v n dims ≡ ok n')
      × ((s : Counters)
          → (n'' : CacheNode V) × (s' : Counters) × (get_node beq k in_delta n' dims s
              ≡ ok (stored_answer in_delta v, n'', s')))

  abbrev SettledMap : CacheMap V → Constant V → List ℤ → Type 0
  SettledMap m key dims =
      (m' : CacheMap V) × (set_map beq k v m key dims ≡ ok m')
      × ((s : Counters)
          → (m'' : CacheMap V) × (s' : Counters) × (get_map beq k in_delta m' key dims s
              ≡ ok (stored_answer in_delta v, m'', s')))

  abbrev SettledEntry : CacheEntry V → Type 0
  SettledEntry e =
      (e' : CacheEntry V) × (set_entry beq k v e ≡ ok e')
      × ((s : Counters)
          → (e'' : CacheEntry V) × (s' : Counters) × (get_entry beq k in_delta e' s
              ≡ ok (stored_answer in_delta v, e'', s')))

  -- Of an outcome: if it is `calc`, the tree that came with it has the place.
  abbrev pub WhenCalc : {A : Type 0} → (A → Type 0) → Result (Constant V × A × Counters) → Type 0
  WhenCalc P (ok (calc, a, s)) = P a
  WhenCalc P _ = Unit

  WhenCalc-map :
      {A B : Type 0} (P : A → Type 0) (Q : B → Type 0) (f : A → B)
      → ((a : A) → P a → Q (f a))
      → (r : Result (Constant V × A × Counters)) → WhenCalc P r
      → WhenCalc Q (r >>= λ (c, a, s). ok (c, f a, s))
  WhenCalc-map P Q f h (ok (calc, a, s)) p = h a p
  WhenCalc-map P Q f h (ok (loop, a, s)) p = tt
  WhenCalc-map P Q f h (ok (demand dims, a, s)) p = tt
  WhenCalc-map P Q f h (ok (value x, a, s)) p = tt
  WhenCalc-map P Q f h cache_error p = tt

  stored :
      (u : Constant V) (age : ℕ) (s : Counters)
      → IsUseful in_delta u
      → (e : CacheEntry V) × (s' : Counters) × (get_entry beq k in_delta (set_cache_value age u) s
          ≡ ok (stored_answer in_delta u, e, s'))
  unfolding get_entry stored_answer set_cache_value
  stored (demand dims) age s h = elim (missing_cases in_delta dims) [
    | inl none_missing ↦ absurd (h none_missing)
    | inr (d, demands, e) ↦ (level dims (map_node no_binding) 0, update_retirement_age age s, rw e)
  ]
  stored calc age s h = (constant calc 0, hit (update_retirement_age age s), refl)
  stored loop age s h = (constant loop 0, hit (update_retirement_age age s), refl)
  stored (value x) age s h = (constant (value x) 0, hit (update_retirement_age age s), refl)

  SettledNode-map_node :
      (d : ℤ) (dims : List ℤ) (m : CacheMap V)
      → SettledMap m (k d) dims
      → SettledNode (map_node m) (d ∷ dims)
  unfolding get_node set_node
  SettledNode-map_node d dims m (m', put, got) =
      (map_node m', rw put, λ s. let (m'', s', e) = got s in (map_node m'', s', rw e))

  SettledNode-entry_node : (e : CacheEntry V) → SettledEntry e → SettledNode (entry_node e) []
  unfolding get_node set_node
  SettledNode-entry_node e (e', put, got) =
      (entry_node e', rw put, λ s. let (e'', s', q) = got s in (entry_node e'', s', rw q))

  SettledMap-here :
      (c key : Constant V) (n : CacheNode V) (m : CacheMap V) (dims : List ℤ)
      → beq c key ≡ true
      → SettledNode n dims
      → SettledMap (bind c n m) key dims
  unfolding get_map set_map
  SettledMap-here c key n m dims same (n', put, got) = (
    bind c n' m,
    rw (same, put),
    λ s. let (n'', s', e) = got s in (bind c n'' m, s', rw (same, e)),
  )

  SettledMap-there :
      (c key : Constant V) (n : CacheNode V) (m : CacheMap V) (dims : List ℤ)
      → beq c key ≡ false
      → SettledMap m key dims
      → SettledMap (bind c n m) key dims
  unfolding get_map set_map
  SettledMap-there c key n m dims not_here (m', put, got) = (
    bind c n m',
    rw (not_here, put),
    λ s. let (m'', s', e) = got s in (bind c n m'', s', rw (not_here, e)),
  )

  pub SettledNode-calc_node : (dims : List ℤ) → SettledNode (calc_node k dims) dims
  unfolding calc_node
  SettledNode-calc_node [] =
      SettledNode-entry_node _
        (set_cache_value 0 v, unfold set_entry in refl, λ s. stored v 0 s useful)
  SettledNode-calc_node (d ∷ dims) =
      SettledNode-map_node d dims _
        (SettledMap-here _ _ _ _ dims ((beq_iff (k d) (k d)).1 refl) (SettledNode-calc_node dims))

  SettledEntry-level :
      (dims : List ℤ) (n : CacheNode V) (age : ℕ)
      → missing in_delta dims ≡ []
      → SettledNode n dims
      → SettledEntry (level dims n age)
  unfolding get_entry set_entry
  SettledEntry-level dims n age all_there (n', put, got) = (
    level dims n' age,
    rw put,
    λ s.
        let (n'', s', e) = got (update_retirement_age age s) in
        (level dims n'' 0, s', rw (all_there, e)),
  )

  never_calc :
      (c : Constant V) {A : Type 0} (P : A → Type 0) (a : A) (s : Counters)
      → WhenCalc P (ok (answer c, a, s))
  unfolding answer
  never_calc calc P a s = tt
  never_calc loop P a s = tt
  never_calc (demand dims) P a s = tt
  never_calc (value x) P a s = tt

  mutual
    unfolding get_node

    pub get_node-WhenCalc :
        (n : CacheNode V) (dims : List ℤ) (s : Counters)
        → WhenCalc (λ n'. SettledNode n' dims) (get_node beq k in_delta n dims s)
    get_node-WhenCalc (map_node m) [] s = tt
    get_node-WhenCalc (map_node m) (d ∷ dims) s =
        WhenCalc-map (λ m'. SettledMap m' (k d) dims) (λ n'. SettledNode n' (d ∷ dims)) map_node
          (SettledNode-map_node d dims) (get_map beq k in_delta m (k d) dims s)
          (get_map-WhenCalc m (k d) dims s)
    get_node-WhenCalc (entry_node e) (d ∷ dims) s = tt
    get_node-WhenCalc (entry_node e) [] s =
        WhenCalc-map SettledEntry (λ n'. SettledNode n' []) entry_node SettledNode-entry_node
          (get_entry beq k in_delta e s) (get_entry-WhenCalc e s)

    get_map-WhenCalc :
        (m : CacheMap V) (key : Constant V) (dims : List ℤ) (s : Counters)
        → WhenCalc (λ m'. SettledMap m' key dims) (get_map beq k in_delta m key dims s)
    get_map-WhenCalc no_binding key dims s =
        SettledMap-here key key _ _ dims ((beq_iff key key).1 refl) (SettledNode-calc_node dims)
    get_map-WhenCalc (bind c n m) key dims s = elim (Bool-cases (beq c key)) [
      | inl same ↦ rw same (
          WhenCalc-map (λ n'. SettledNode n' dims) (λ m'. SettledMap m' key dims)
            (λ n'. bind c n' m) (λ n'. SettledMap-here c key n' m dims same)
            (get_node beq k in_delta n dims s) (get_node-WhenCalc n dims s))
      | inr not_here ↦ rw not_here (
          WhenCalc-map (λ m'. SettledMap m' key dims) (λ m'. SettledMap m' key dims) (bind c n)
            (λ m'. SettledMap-there c key n m' dims not_here) (get_map beq k in_delta m key dims s)
            (get_map-WhenCalc m key dims s))
    ]

    get_entry-WhenCalc :
        (e : CacheEntry V) (s : Counters) → WhenCalc SettledEntry (get_entry beq k in_delta e s)
    get_entry-WhenCalc (constant c age) s = never_calc c SettledEntry _ _
    get_entry-WhenCalc (level dims n age) s = elim (missing_cases in_delta dims) [
      | inr (d, demands, some_missing) ↦ rw some_missing tt
      | inl all_there ↦ rw all_there (
          WhenCalc-map (λ n'. SettledNode n' dims) SettledEntry (λ n'. level dims n' 0)
            (λ n'. SettledEntry-level dims n' 0 all_there)
            (get_node beq k in_delta n dims (update_retirement_age age s))
            (get_node-WhenCalc n dims (update_retirement_age age s)))
    ]
