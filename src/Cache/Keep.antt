-- ===== src/Cache/Keep.antt =====
-- `set` and `garbageCollect` of src/libs/system/cache.cpp keep the shape of the tree.
use trans_lucid.Prelude.{ℕ, Bool, true, List, [], ◌∷◌, ◌≢◌, refl, arith, Bool-cases, inl, inr}
use trans_lucid.Prelude.Int.{ℤ}
use trans_lucid.Cache.Tree.{
  Constant, calc, demand, value, loop, Result, ok, cache_error, ◌>>=◌, CacheEntry, constant, level,
  CacheNode, map_node, entry_node, CacheMap, no_binding, bind,
}
use trans_lucid.Cache.Set.{set_node, set_map, set_entry, set_cache_value}
use trans_lucid.Cache.Collect.{collect_node, collect_map, collect_entry, retire}
use trans_lucid.Cache.Shape.{WfNode, WfMap, WfEntry}

-- A demand asks for something.
abbrev pub IsProper : {V : Type 0} → Constant V → Type 0
IsProper (demand dims) = dims ≢ []
IsProper _ = Unit

-- The result of a visitor, if it does not throw.
abbrev pub WhenOk : {A : Type 0} → (A → Type 0) → Result A → Type 0
WhenOk P (ok a) = P a
WhenOk P cache_error = Unit

pub WhenOk-map :
    {A B : Type 0} (P : A → Type 0) (Q : B → Type 0) (f : A → B)
    → ((a : A) → P a → Q (f a))
    → (r : Result A) → WhenOk P r
    → WhenOk Q (r >>= λ a. ok (f a))
WhenOk-map P Q f h (ok a) p = h a p
WhenOk-map P Q f h cache_error p = tt

module _ {V : Type 0} (beq : Constant V → Constant V → Bool) (k : ℤ → Constant V) (v : Constant V)
    (proper : IsProper v) where
  set_cache_value-Wf : (u : Constant V) (age : ℕ) → IsProper u → WfEntry (set_cache_value age u)
  unfolding set_cache_value WfNode
  set_cache_value-Wf (demand []) age h = h refl
  set_cache_value-Wf (demand (d ∷ dims)) age h = tt
  set_cache_value-Wf calc age h = tt
  set_cache_value-Wf loop age h = tt
  set_cache_value-Wf (value x) age h = tt

  mutual
    unfolding set_node WfNode

    pub set_node-Wf :
        (n : CacheNode V) (dims : List ℤ)
        → WfNode n dims
        → WhenOk (λ n'. WfNode n' dims) (set_node beq k v n dims)
    set_node-Wf (map_node m) [] h = tt
    set_node-Wf (map_node m) (d ∷ dims) h =
        WhenOk-map (λ m'. WfMap m' dims) (λ n'. WfNode n' (d ∷ dims)) map_node (λ m' w. w)
          (set_map beq k v m (k d) dims) (set_map-Wf m (k d) dims h)
    set_node-Wf (entry_node e) (d ∷ dims) h = tt
    set_node-Wf (entry_node e) [] h =
        WhenOk-map WfEntry (λ n'. WfNode n' []) entry_node (λ e' w. w) (set_entry beq k v e)
          (set_entry-Wf e h)

    set_map-Wf :
        (m : CacheMap V) (key : Constant V) (dims : List ℤ)
        → WfMap m dims
        → WhenOk (λ m'. WfMap m' dims) (set_map beq k v m key dims)
    set_map-Wf no_binding key dims h = tt
    set_map-Wf (bind c n m) key dims h = elim (Bool-cases (beq c key)) [
      | inl same ↦ rw same (
          WhenOk-map (λ n'. WfNode n' dims) (λ m'. WfMap m' dims) (λ n'. bind c n' m)
            (λ n' w. (w, h.1)) (set_node beq k v n dims) (set_node-Wf n dims h.0))
      | inr not_here ↦ rw not_here (
          WhenOk-map (λ m'. WfMap m' dims) (λ m'. WfMap m' dims) (bind c n) (λ m' w. (h.0, w))
            (set_map beq k v m key dims) (set_map-Wf m key dims h.1))
    ]

    set_entry-Wf : (e : CacheEntry V) → WfEntry e → WhenOk WfEntry (set_entry beq k v e)
    set_entry-Wf (constant c age) h = set_cache_value-Wf v age proper
    set_entry-Wf (level dims n age) h =
        WhenOk-map (λ n'. WfNode n' dims) WfEntry (λ n'. level dims n' age) (λ n' w. w)
          (set_node beq k v n dims) (set_node-Wf n dims h)

module _ {V : Type 0} (retirement_age : ℤ) where
  retire-Wf :
      (result : Bool) (e : CacheEntry V) → WfEntry e → WfEntry (retire retirement_age result e).1
  unfolding retire WfNode
  retire-Wf result (constant c age) h = ground arith
  retire-Wf result (level dims n age) h = ground arith

  mutual
    unfolding collect_node WfNode

    pub collect_node-Wf :
        (n : CacheNode V) (dims : List ℤ)
        → WfNode n dims
        → WfNode (collect_node retirement_age n).1 dims
    collect_node-Wf (map_node m) [] h = h
    collect_node-Wf (map_node m) (d ∷ dims) h = collect_map-Wf m dims h
    collect_node-Wf (entry_node e) (d ∷ dims) h = h
    collect_node-Wf (entry_node e) [] h = collect_entry-Wf e h

    collect_map-Wf :
        (m : CacheMap V) (dims : List ℤ) → WfMap m dims → WfMap (collect_map retirement_age m) dims
    collect_map-Wf no_binding dims h = tt
    collect_map-Wf (bind c n m) dims h = elim (Bool-cases (collect_node retirement_age n).0) [
      | inl gone ↦ rw gone (collect_map-Wf m dims h.1)
      | inr kept ↦ rw kept (collect_node-Wf n dims h.0, collect_map-Wf m dims h.1)
    ]

    collect_entry-Wf : (e : CacheEntry V) → WfEntry e → WfEntry (collect_entry retirement_age e).1
    collect_entry-Wf (constant c age) h = retire-Wf true (constant c age) h
    collect_entry-Wf (level dims n age) h =
        retire-Wf _ (level dims (collect_node retirement_age n).1 age) (collect_node-Wf n dims h)
