-- ===== src/Cache/Found.antt =====
-- `get` of src/libs/system/cache.cpp where the path of the context ends at a stored constant: a larger
-- delta finds it too.
use trans_lucid.Prelude.{
  Bool, true, not, ◌≡◌, refl, subst, ap, List, [], ◌∷◌, if◌then◌else◌, Bool-cases, inl, inr,
}
use trans_lucid.Prelude.Int.{ℤ}
use trans_lucid.Cache.Tree.{
  Constant, Result, ok, ◌>>=◌, CacheEntry, constant, level, CacheNode, map_node, entry_node,
  CacheMap, no_binding, bind, Counters,
}
use trans_lucid.Cache.Get.{
  get_node, get_map, get_entry, answer, missing, hit, update_retirement_age,
}
use trans_lucid.Cache.Shape.{missing_cases}
use trans_lucid.Cache.Path.{
  Stop, stored, short, AtLevel, LeadsNode, LeadsMap, LeadsEntry, RightNode, RightMap, RightEntry,
  on_true, on_false,
}

pub missing-larger :
    (sub delta : ℤ → Bool) (dims : List ℤ)
    → ((d : ℤ) → sub d ≡ true → delta d ≡ true)
    → missing sub dims ≡ []
    → missing delta dims ≡ []
unfolding missing
missing-larger sub delta [] h e = refl
missing-larger sub delta (d ∷ dims) h e = elim (Bool-cases (sub d)) [
  | inl p ↦ rw (h d p) (
      missing-larger sub delta dims h
        (subst (λ b. (if not b then d ∷ missing sub dims else missing sub dims) ≡ []) p e))
  | inr p ↦ cc
]

module _ {V : Type 0} (beq : Constant V → Constant V → Bool) (k : ℤ → Constant V)
    (Sem : (ℤ → Constant V) → Constant V → Type 0) (sub delta : ℤ → Bool)
    (larger : (d : ℤ) → sub d ≡ true → delta d ≡ true) (v : Constant V) where
  abbrev pub EndsAt : List ℤ → Stop V → Type 0
  EndsAt passed s = s ≡ stored v

  -- The answer is the constant, and the tree keeps its invariant.
  abbrev pub Found : {A : Type 0} → (A → Type 0) → Result (Constant V × A × Counters) → Type 0
  Found {A} Inv r = (a : A) × (s : Counters) × (r ≡ ok (answer v, a, s)) × Inv a

  Found-map :
      {A B : Type 0} (InvA : A → Type 0) (InvB : B → Type 0) (f : A → B)
      → ((a : A) → InvA a → InvB (f a))
      → (r : Result (Constant V × A × Counters)) → Found InvA r
      → Found InvB (r >>= λ (c, a, s). ok (c, f a, s))
  Found-map InvA InvB f h r (a, s, e, i) =
      (f a, s, ap (λ r. r >>= λ (c, a, s). ok (c, f a, s)) e, h a i)

  not_stored : short ≡ stored v → ⊥
  not_stored e = cc

  mutual
    unfolding get_node RightNode LeadsNode

    pub get_node-Found :
        (P : (ℤ → Constant V) → Type 0) (n : CacheNode V) (dims passed : List ℤ) (s : Counters)
        → RightNode Sem P n dims
        → LeadsNode beq k sub EndsAt n dims passed
        → Found (λ n'. RightNode Sem P n' dims) (get_node beq k delta n dims s)
    get_node-Found P (map_node m) [] passed s r h = absurd h
    get_node-Found P (map_node m) (d ∷ dims) passed s r h =
        Found-map (λ m'. RightMap Sem P m' d dims) (λ n'. RightNode Sem P n' (d ∷ dims)) map_node
          (λ m' i. i) (get_map beq k delta m (k d) dims s)
          (get_map-Found P m d (k d) dims (d ∷ passed) s r h)
    get_node-Found P (entry_node e) (d ∷ dims) passed s r h = absurd h
    get_node-Found P (entry_node e) [] passed s r h =
        Found-map (RightEntry Sem P) (λ n'. RightNode Sem P n' []) entry_node (λ e' i. i)
          (get_entry beq k delta e s) (get_entry-Found P e passed s r h)

    get_map-Found :
        (P : (ℤ → Constant V) → Type 0) (m : CacheMap V) (d : ℤ) (key : Constant V)
        (dims passed : List ℤ) (s : Counters)
        → RightMap Sem P m d dims
        → LeadsMap beq k sub EndsAt m key dims passed
        → Found (λ m'. RightMap Sem P m' d dims) (get_map beq k delta m key dims s)
    get_map-Found P no_binding d key dims passed s r h = cc
    get_map-Found P (bind c n m) d key dims passed s r h = elim (Bool-cases (beq c key)) [
      | inl same ↦ rw same (
          Found-map (λ n'. RightNode Sem (λ k'. P k' × (k' d ≡ c)) n' dims)
            (λ m'. RightMap Sem P m' d dims) (λ n'. bind c n' m) (λ n' i. (i, r.1))
            (get_node beq k delta n dims s)
            (get_node-Found (λ k'. P k' × (k' d ≡ c)) n dims passed s r.0 (on_true _ _ _ same h)))
      | inr other ↦ rw other (
          Found-map (λ m'. RightMap Sem P m' d dims) (λ m'. RightMap Sem P m' d dims)
            (λ m'. bind c n m') (λ m' i. (r.0, i)) (get_map beq k delta m key dims s)
            (get_map-Found P m d key dims passed s r.1 (on_false _ _ _ other h)))
    ]

    get_entry-Found :
        (P : (ℤ → Constant V) → Type 0) (e : CacheEntry V) (passed : List ℤ) (s : Counters)
        → RightEntry Sem P e
        → LeadsEntry beq k sub EndsAt e passed
        → Found (RightEntry Sem P) (get_entry beq k delta e s)
    get_entry-Found P (constant c age) passed s r h =
        let same : c ≡ v = cc in (constant c 0, hit (update_retirement_age age s), rw same refl, r)
    get_entry-Found P (level dims n age) passed s r h = elim (missing_cases sub dims) [
      | inr (d, ds, e) ↦ absurd (
          not_stored (
            subst (λ l. AtLevel l (LeadsNode beq k sub EndsAt n dims passed) (short ≡ stored v)) e
              h))
      | inl e ↦ rw (missing-larger sub delta dims larger e) (
          Found-map (λ n'. RightNode Sem P n' dims) (RightEntry Sem P) (λ n'. level dims n' 0)
            (λ n' i. i) (get_node beq k delta n dims (update_retirement_age age s))
            (get_node-Found P n dims passed (update_retirement_age age s) r (
              subst (λ l. AtLevel l (LeadsNode beq k sub EndsAt n dims passed) (short ≡ stored v)) e
                h)))
    ]
