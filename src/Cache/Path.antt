-- ===== src/Cache/Path.antt =====
-- Where a context leads in the tree of cached values (src/libs/system/cache.cpp), and the invariant
-- of a tree that only holds right values.
use trans_lucid.Prelude.{
  Bool, true, false, ◌||◌, ◌≡◌, refl, subst, List, [], ◌∷◌, ◌++◌, arith, if◌then◌else◌, Bool-cases,
  inl, inr,
}
use trans_lucid.Prelude.Int.{ℤ}
use trans_lucid.Cache.Tree.{
  Constant, calc, demand, CacheEntry, constant, level, CacheNode, map_node, entry_node, CacheMap,
  no_binding, bind,
}
use trans_lucid.Cache.Get.{missing}
use trans_lucid.Workshops.Delta.{mem}

-- Where the path of a context stops: at a map without its key, with the dimensions left of the
-- level; at a stored constant; at a level of which the delta lacks a dimension.
pub data Stop (V : Type 0) : Type 0 where
  fresh : List ℤ → Stop V
  stored : Constant V → Stop V
  short : Stop V

abbrev pub Subset : (ℤ → Bool) → List ℤ → Type 0
Subset delta ds = (d : ℤ) → delta d ≡ true → mem d ds ≡ true

-- Every dimension of the delta has been passed.
abbrev pub Covers : {V : Type 0} → (ℤ → Bool) → List ℤ → Stop V → Type 0
Covers delta passed (fresh dims) = Subset delta (passed ++ dims)
Covers delta passed s = Subset delta passed

-- At a level: what holds when no dimension is lacking, and what when one is.
abbrev pub AtLevel : List ℤ → Type 0 → Type 0 → Type 0
AtLevel [] Below Short = Below
AtLevel (d ∷ ds) Below Short = Short

pub AtLevel-both : (ds : List ℤ) (Below Short : Type 0) → Below → Short → AtLevel ds Below Short
AtLevel-both [] Below Short b s = b
AtLevel-both (d ∷ ds) Below Short b s = s

pub on_true : (b : Bool) (A B : Type 0) → b ≡ true → (if b then A else B) → A
on_true b A B e h = subst (λ x. if x then A else B) e h

pub on_false : (b : Bool) (A B : Type 0) → b ≡ false → (if b then A else B) → B
on_false b A B e h = subst (λ x. if x then A else B) e h

-- `R` holds of the dimensions passed and of the stop, on the path of the ordinates `k`.
module _ {V : Type 0} (beq : Constant V → Constant V → Bool) (k : ℤ → Constant V) (delta : ℤ → Bool)
    (R : List ℤ → Stop V → Type 0) where
  unfoldable mutual
    pub LeadsNode : CacheNode V → List ℤ → List ℤ → Type 0
    LeadsNode (map_node m) [] passed = ⊥
    LeadsNode (map_node m) (d ∷ dims) passed = LeadsMap m (k d) dims (d ∷ passed)
    LeadsNode (entry_node e) (d ∷ dims) passed = ⊥
    LeadsNode (entry_node e) [] passed = LeadsEntry e passed

    pub LeadsMap : CacheMap V → Constant V → List ℤ → List ℤ → Type 0
    LeadsMap no_binding key dims passed = R passed (fresh dims)
    LeadsMap (bind c n m) key dims passed =
        let here = LeadsNode n dims passed in
        let there = LeadsMap m key dims passed in if beq c key then here else there

    pub LeadsEntry : CacheEntry V → List ℤ → Type 0
    LeadsEntry (constant c age) passed = R passed (stored c)
    LeadsEntry (level dims n age) passed =
        let below = LeadsNode n dims passed in AtLevel (missing delta dims) below (R passed short)

-- The invariant: `Sem k' c` says that `c` is right in the context `k'`; what is stored under the keys
-- of a path is right in all contexts `P` that have these keys. No calculation is under way.
module _ {V : Type 0} (Sem : (ℤ → Constant V) → Constant V → Type 0) where
  abbrev pub RightIn : ((ℤ → Constant V) → Type 0) → Constant V → Type 0
  RightIn P calc = ⊥
  RightIn P (demand ds) = ⊥
  RightIn P c = (k' : ℤ → Constant V) → P k' → Sem k' c

  unfoldable mutual
    pub RightNode : ((ℤ → Constant V) → Type 0) → CacheNode V → List ℤ → Type 0
    RightNode P (map_node m) [] = ⊥
    RightNode P (map_node m) (d ∷ dims) = RightMap P m d dims
    RightNode P (entry_node e) (d ∷ dims) = ⊥
    RightNode P (entry_node e) [] = RightEntry P e

    pub RightMap : ((ℤ → Constant V) → Type 0) → CacheMap V → ℤ → List ℤ → Type 0
    RightMap P no_binding d dims = Unit
    RightMap P (bind c n m) d dims =
        RightNode (λ k'. P k' × (k' d ≡ c)) n dims × RightMap P m d dims

    pub RightEntry : ((ℤ → Constant V) → Type 0) → CacheEntry V → Type 0
    RightEntry P (constant c age) = RightIn P c
    RightEntry P (level dims n age) = RightNode P n dims

pub mem-append : (d : ℤ) (xs ys : List ℤ) → mem d (xs ++ ys) ≡ (mem d xs || mem d ys)
mem-append d [] ys = refl
mem-append d (x ∷ xs) ys = ground (arith, mem-append d xs ys)

-- A dimension goes from those that are left to those that are passed.
pub Subset-move :
    (delta : ℤ → Bool) (d : ℤ) (dims passed : List ℤ)
    → Subset delta (passed ++ d ∷ dims)
    → Subset delta ((d ∷ passed) ++ dims)
Subset-move delta d dims passed h e p =
    ground (arith, h e p, mem-append e passed (d ∷ dims), mem-append e passed dims)

module _ {V : Type 0} (beq : Constant V → Constant V → Bool) (k : ℤ → Constant V)
    (Sem : (ℤ → Constant V) → Constant V → Type 0) (delta : ℤ → Bool) where
  Subset-level : (dims passed : List ℤ) → Subset delta passed → Subset delta (passed ++ dims)
  Subset-level dims passed h e p = ground (arith, h e p, mem-append e passed dims)

  mutual
    unfolding LeadsNode RightNode

    -- A delta whose dimensions are passed, or in the level at hand, is covered by every right tree.
    pub Covers-node :
        (P : (ℤ → Constant V) → Type 0) (n : CacheNode V) (dims passed : List ℤ)
        → RightNode Sem P n dims
        → Subset delta (passed ++ dims)
        → LeadsNode beq k delta (Covers delta) n dims passed
    Covers-node P (map_node m) [] passed r h = absurd r
    Covers-node P (map_node m) (d ∷ dims) passed r h =
        Covers-map P m d (k d) dims (d ∷ passed) r (Subset-move delta d dims passed h)
    Covers-node P (entry_node e) (d ∷ dims) passed r h = absurd r
    Covers-node P (entry_node e) [] passed r h =
        Covers-entry P e passed r (λ d p. ground (arith, h d p, mem-append d passed []))

    Covers-map :
        (P : (ℤ → Constant V) → Type 0) (m : CacheMap V) (d : ℤ) (key : Constant V)
        (dims passed : List ℤ)
        → RightMap Sem P m d dims
        → Subset delta (passed ++ dims)
        → LeadsMap beq k delta (Covers delta) m key dims passed
    Covers-map P no_binding d key dims passed r h = h
    Covers-map P (bind c n m) d key dims passed r h = elim (Bool-cases (beq c key)) [
      | inl same ↦ rw same (Covers-node (λ k'. P k' × (k' d ≡ c)) n dims passed r.0 h)
      | inr other ↦ rw other (Covers-map P m d key dims passed r.1 h)
    ]

    pub Covers-entry :
        (P : (ℤ → Constant V) → Type 0) (e : CacheEntry V) (passed : List ℤ)
        → RightEntry Sem P e
        → Subset delta passed
        → LeadsEntry beq k delta (Covers delta) e passed
    Covers-entry P (constant c age) passed r h = h
    Covers-entry P (level dims n age) passed r h =
        AtLevel-both (missing delta dims) _ _
          (Covers-node P n dims passed r (Subset-level dims passed h)) h
