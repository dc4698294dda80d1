-- ===== src/Workshops/Delta.antt =====
-- `Delta` of src/include/tl/types.hpp, the set of dimensions that are known, and `DeltaPerturber` of
-- src/include/tl/context.hpp.
use trans_lucid.Prelude.{
  Bool, true, false, ◌||◌, not, List, [], ◌∷◌, ◌≡◌, refl, if◌then◌else◌, arith,
}
use trans_lucid.Prelude.Int.{ℤ, eqb_ℤ, eqb_ℤ_iff}
use trans_lucid.Context.{set_insert, set_erase}

pub record Delta : Type 0 where
  pub all : Bool
  pub dims : List ℤ

abbrev pub mem : ℤ → List ℤ → Bool
mem d [] = false
mem d (e ∷ l) = eqb_ℤ d e || mem d l

-- `Delta::contains`
unfoldable pub contains : Delta → ℤ → Bool
contains delta d = if delta.all then true else mem d delta.dims

-- `Delta::insert`, of one dimension and of several.
unfoldable pub insert : ℤ → Delta → Delta
unfolding set_insert
insert d delta = record delta { dims = set_insert d delta.dims }

unfoldable pub insert_all : List ℤ → Delta → Delta
unfolding insert
insert_all [] delta = delta
insert_all (d ∷ ds) delta = insert_all ds (insert d delta)

-- `Delta::erase`
unfoldable pub erase : ℤ → Delta → Delta
unfolding set_erase
erase d delta = record delta { dims = set_erase d delta.dims }

-- `DeltaPerturber`: the set, and whether each perturbed dimension was new, with the first answer for
-- each dimension.
pub record Perturber : Type 0 where
  pub delta : Delta
  pub perturbations : List (ℤ × Bool)

abbrev pub begin : Delta → Perturber
begin delta = record { delta = delta; perturbations = [] }

unfoldable pub keep_first : ℤ → Bool → List (ℤ × Bool) → List (ℤ × Bool)
keep_first d b [] = (d, b) ∷ []
keep_first d b ((e, c) ∷ l) = if eqb_ℤ d e then (e, c) ∷ l else (e, c) ∷ keep_first d b l

-- `DeltaPerturber::perturb(dimension_index)`
unfoldable pub perturb_dim : ℤ → Perturber → Perturber
unfolding insert keep_first
perturb_dim d p = record {
  delta = insert d p.delta;
  perturbations = keep_first d (not (mem d p.delta.dims)) p.perturbations;
}

-- `DeltaPerturber::perturb` of a list of pairs.
unfoldable pub perturb_each {ℓ} : {V : Type ℓ} → List (ℤ × V) → Perturber → Perturber
unfolding perturb_dim
perturb_each [] p = p
perturb_each ((d, c) ∷ t) p = perturb_each t (perturb_dim d p)

-- The destructor.
unfoldable pub erase_new : List (ℤ × Bool) → Delta → Delta
unfolding erase
erase_new [] delta = delta
erase_new ((d, new) ∷ l) delta = erase_new l (if new then erase d delta else delta)

unfoldable pub finish : Perturber → Delta
unfolding erase_new
finish p = erase_new p.perturbations p.delta

-- The set inside a `DeltaPerturber` that perturbs the dimensions of a tuple.
abbrev pub perturbed {ℓ} : {V : Type ℓ} → List (ℤ × V) → Delta → Delta
perturbed t delta = (perturb_each t (begin delta)).delta

mem-set_insert : (d e : ℤ) (l : List ℤ) → mem e (set_insert d l) ≡ (eqb_ℤ e d || mem e l)
unfolding set_insert
mem-set_insert d e [] = refl
mem-set_insert d e (x ∷ l) = ground (arith, mem-set_insert d e l, eqb_ℤ_iff d x)

-- What a set contains after an insertion.
pub contains-insert :
    (d e : ℤ) (delta : Delta) → contains (insert d delta) e ≡ (eqb_ℤ e d || contains delta e)
unfolding contains insert
contains-insert d e delta = ground (arith, mem-set_insert d e delta.dims)

abbrev pub has_key {ℓ} : {V : Type ℓ} → ℤ → List (ℤ × V) → Bool
has_key e [] = false
has_key e ((d, c) ∷ t) = eqb_ℤ e d || has_key e t

contains-perturb_each {ℓ} :
    {V : Type ℓ} (t : List (ℤ × V)) (p : Perturber) (e : ℤ)
    → contains (perturb_each t p).delta e ≡ (has_key e t || contains p.delta e)
unfolding perturb_each
contains-perturb_each [] p e = refl
contains-perturb_each ((d, c) ∷ t) p e =
    ground (arith, contains-perturb_each t (perturb_dim d p) e, contains-insert d e p.delta)

-- What a set contains while a tuple perturbs it.
pub contains-perturbed {ℓ} :
    {V : Type ℓ} (t : List (ℤ × V)) (delta : Delta) (e : ℤ)
    → contains (perturbed t delta) e ≡ (has_key e t || contains delta e)
contains-perturbed t delta e = contains-perturb_each t (begin delta) e
