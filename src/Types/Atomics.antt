-- ===== src/Types/Atomics.antt =====
-- `TypeAtomicUnion` of src/libs/system/tyinf/type.cpp and src/include/tl/tyinf/type.hpp: a union of
-- constants and of whole atomic types. The constants are any type `C` with its `index()` and its
-- `operator<`. Its private map holds iterators into its set of constants; those of a copy still point
-- into the set that was copied.
pub mod Laws
use trans_lucid.Prelude.{
  ℕ, Bool, true, false, not, ◌&&◌, ◌||◌, Option, none, some, List, [], ◌∷◌, ◌++◌, if◌then◌else◌,
  ltb, ◌==◌,
}
use trans_lucid.OrderedSet.{insert, has, erase_all, intersect}

-- The map from an index to what was filed under it, in order.
abbrev pub IndexMap : Type 0 → Type 0
IndexMap A = List (ℕ × List A)

-- An iterator, by its constant and whether it points into the union's own set.
abbrev pub Iterator : Type 0 → Type 0
Iterator C = Bool × C

pub record AtomicUnion (C : Type 0) : Type 0 where
  pub constants : List C
  pub atomics : List ℕ
  pub atomic_map : IndexMap (Iterator C)

-- `none` is an erasure through an iterator of another set, where the source has no defined behaviour.
infixl 5 ◌>>=◌
abbrev pub ◌>>=◌ : {A B : Type 0} → Option A → (A → Option B) → Option B
none >>= f = none
some a >>= f = f a

module _ {C : Type 0} where
  abbrev pub empty_union : AtomicUnion C
  empty_union = record { constants = []; atomics = []; atomic_map = [] }

  -- `atomic_map[index].push_back(c)`
  unfoldable pub map_push : ℕ → C → IndexMap C → IndexMap C
  map_push i c [] = (i, c ∷ []) ∷ []
  map_push i c ((j, cs) ∷ m) = if i == j then (j, cs ++ c ∷ []) ∷ m else (j, cs) ∷ map_push i c m

  -- `atomic_map.find(index)`, and the empty list where there is none.
  unfoldable pub map_at : ℕ → IndexMap C → List C
  map_at i [] = []
  map_at i ((j, cs) ∷ m) = if i == j then cs else map_at i m

  unfoldable pub map_erase : ℕ → IndexMap C → IndexMap C
  map_erase i [] = []
  map_erase i ((j, cs) ∷ m) = let rest = map_erase i m in if i == j then rest else (j, cs) ∷ rest

  -- The copy constructor.
  unfoldable pub stray : List (Iterator C) → List (Iterator C)
  stray [] = []
  stray ((own, c) ∷ l) = (false, c) ∷ stray l

  unfoldable pub map_copy : IndexMap (Iterator C) → IndexMap (Iterator C)
  unfolding stray
  map_copy [] = []
  map_copy ((j, l) ∷ m) = (j, stray l) ∷ map_copy m

  unfoldable pub copied : AtomicUnion C → AtomicUnion C
  unfolding map_copy
  copied u = record u { atomic_map = map_copy u.atomic_map }

  -- The constants of some iterators, and whether these are all the union's own.
  unfoldable pub values : List (Iterator C) → List C
  values [] = []
  values ((own, c) ∷ l) = c ∷ values l

  unfoldable pub all_own : List (Iterator C) → Bool
  all_own [] = true
  all_own ((own, c) ∷ l) = own && all_own l

  -- `atomic_in`
  unfoldable pub atomic_in : ℕ → AtomicUnion C → Bool
  unfolding has
  atomic_in i u = has ltb i u.atomics

module _ {C : Type 0} (index : C → ℕ) (lt : C → C → Bool) where
  -- `add` of a constant
  unfoldable pub add_constant : C → AtomicUnion C → AtomicUnion C
  unfolding has insert map_push
  add_constant c u =
      if has ltb (index c) u.atomics then u else if has lt c u.constants then u else record u {
        constants = insert lt c u.constants;
        atomic_map = map_push (index c) (true, c) u.atomic_map;
      }

  -- `add_atomic`
  unfoldable pub add_atomic : ℕ → AtomicUnion C → Option (AtomicUnion C)
  unfolding insert erase_all map_at map_erase values all_own
  add_atomic i u =
      let covered = map_at i u.atomic_map in
      let u' : AtomicUnion C = record {
        constants = erase_all lt (values covered) u.constants;
        atomics = insert ltb i u.atomics;
        atomic_map = map_erase i u.atomic_map;
      } in
      if all_own covered then some u' else none

  -- The two loops of `join`.
  unfoldable pub add_atomics : List ℕ → AtomicUnion C → Option (AtomicUnion C)
  unfolding add_atomic
  add_atomics [] u = some u
  add_atomics (i ∷ is) u = add_atomic i u >>= add_atomics is

  unfoldable pub add_constants : List C → AtomicUnion C → AtomicUnion C
  unfolding add_constant
  add_constants [] u = u
  add_constants (c ∷ cs) u = add_constants cs (add_constant c u)

  unfoldable pub join : AtomicUnion C → AtomicUnion C → Option (AtomicUnion C)
  unfolding add_atomics add_constants
  join u v = do u' ← add_atomics v.atomics u; some (add_constants v.constants u')

  -- `in` of a constant
  unfoldable pub constant_in : C → AtomicUnion C → Bool
  unfolding has
  constant_in c u = has ltb (index c) u.atomics || has lt c u.constants

  -- `intersection`, which fills no map.
  unfoldable pub intersection : AtomicUnion C → AtomicUnion C → AtomicUnion C
  unfolding intersect
  intersection a b = record {
    constants = intersect lt a.constants b.constants;
    atomics = intersect ltb a.atomics b.atomics;
    atomic_map = [];
  }

  -- `within` an atomic type: the two loops.
  unfoldable pub all_are : ℕ → List ℕ → Bool
  all_are i [] = true
  all_are i (j ∷ js) = let rest = all_are i js in if not (j == i) then false else rest

  unfoldable pub all_of_index : ℕ → List C → Bool
  all_of_index i [] = true
  all_of_index i (c ∷ cs) =
      let rest = all_of_index i cs in if not (index c == i) then false else rest

  unfoldable pub within : ℕ → AtomicUnion C → Bool
  unfolding all_are all_of_index
  within i u = all_are i u.atomics && all_of_index i u.constants
