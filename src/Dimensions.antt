-- ===== src/Dimensions.antt =====
-- The numbering of dimensions: `ObjectRegistry` of src/include/tl/object_registry.hpp and
-- `DimensionTranslator` of src/libs/system/dimtranslator.cpp (src/include/tl/dimtranslator.hpp). A
-- std::unordered_map is the list of its bindings.
pub mod Laws
pub mod Start
mod Examples
use trans_lucid.Prelude.{
  ℕ, Bool, true, false, ◌&&◌, ◌==◌, Option, none, some, List, [], ◌∷◌, if◌then◌else◌,
}
use trans_lucid.Prelude.Int.{ℤ, pos, negsuc, ◌-ℤ◌, eqb_ℤ}

module _ {K V : Type 0} (eqb : K → K → Bool) where
  -- `find`
  unfoldable pub find : K → List (K × V) → Option V
  find k [] = none
  find k ((j, v) ∷ m) = if eqb k j then some v else find k m

  -- `insert`, which leaves a binding that is there.
  unfoldable pub insert : K → V → List (K × V) → List (K × V)
  unfolding find
  insert k v m = elim (find k m) [ none ↦ (k, v) ∷ m | some _ ↦ m ]

-- `ObjectRegistry`; the next index is a variable outside it.
pub record Registry (T : Type 0) : Type 0 where
  pub objects : List (T × ℤ)
  pub reverse : List (ℤ × T)

module _ {T : Type 0} (eqb : T → T → Bool) where
  -- The loop of the constructor over the initial bindings.
  unfoldable pub load : List (T × ℤ) → Registry T → Registry T
  unfolding insert
  load [] r = r
  load ((v, i) ∷ more) r =
      load more
        (record { objects = insert eqb v i r.objects; reverse = insert eqb_ℤ i v r.reverse })

  -- `operator()`, with `m_next` as `step`: the index, the registry and the next index.
  unfoldable pub get_index : (ℤ → ℤ) → T → Registry T → ℤ → ℤ × Registry T × ℤ
  unfolding find insert
  get_index step v r next = elim (find eqb v r.objects) [
    | some i ↦ (i, r, next)
    | none ↦ (
      next,
      record { objects = insert eqb v next r.objects; reverse = insert eqb_ℤ next v r.reverse },
      step next,
    )
  ]

  -- `assignIndex`
  unfoldable pub assign : T → ℤ → Registry T → Bool × Registry T
  unfolding find insert
  assign v i r = elim (find eqb v r.objects) [
    | some _ ↦ (false, r)
    | none ↦
        (true, record { objects = insert eqb v i r.objects; reverse = insert eqb_ℤ i v r.reverse })
  ]

  -- `reverseLookup`
  unfoldable pub reverse_lookup : ℤ → Registry T → Option T
  unfolding find
  reverse_lookup i r = find eqb_ℤ i r.reverse

-- `DimensionTranslator`, for constants of type `C`.
pub record Translator (C : Type 0) : Type 0 where
  pub next_index : ℤ
  pub named : Registry (List ℕ)
  pub constants : Registry C

unfoldable pub same_name : List ℕ → List ℕ → Bool
same_name [] [] = true
same_name (a ∷ s) (b ∷ t) = a == b && same_name s t
same_name _ _ = false

-- `Decrement`
unfoldable pub decrement : ℤ → ℤ
decrement i = i -ℤ pos 1

abbrev pub first_names : List (List ℕ × ℤ)
first_names =
    (b't' ∷ b'y' ∷ b'p' ∷ b'e' ∷ b'n' ∷ b'a' ∷ b'm' ∷ b'e' ∷ [], negsuc 4)
    ∷ (b'p' ∷ b'r' ∷ b'i' ∷ b'o' ∷ b'r' ∷ b'i' ∷ b't' ∷ b'y' ∷ [], negsuc 1)
    ∷ (b't' ∷ b'e' ∷ b'x' ∷ b't' ∷ [], negsuc 5)
    ∷ (b'n' ∷ b'a' ∷ b'm' ∷ b'e' ∷ [], negsuc 6)
    ∷ (b'i' ∷ b'd' ∷ [], negsuc 3)
    ∷ (b'v' ∷ b'a' ∷ b'l' ∷ b'u' ∷ b'e' ∷ [], negsuc 7)
    ∷ (b's' ∷ b'y' ∷ b'm' ∷ b'b' ∷ b'o' ∷ b'l' ∷ [], negsuc 8)
    ∷ (b't' ∷ b'i' ∷ b'm' ∷ b'e' ∷ [], negsuc 0)
    ∷ (b'a' ∷ b'l' ∷ b'l' ∷ [], negsuc 2)
    ∷ (b'c' ∷ b'o' ∷ b'n' ∷ b's' ∷ [], negsuc 14)
    ∷ (b't' ∷ b'y' ∷ b'p' ∷ b'e' ∷ [], negsuc 4)
    ∷ (b'a' ∷ b'r' ∷ b'g' ∷ b'0' ∷ [], negsuc 16)
    ∷ (b'a' ∷ b'r' ∷ b'g' ∷ b'1' ∷ [], negsuc 17)
    ∷ (b'a' ∷ b'r' ∷ b'g' ∷ b'2' ∷ [], negsuc 18)
    ∷ (b'a' ∷ b'r' ∷ b'g' ∷ b'3' ∷ [], negsuc 19)
    ∷ []

module _ {C : Type 0} where
  unfoldable pub lookup_name : List ℕ → Translator C → ℤ × Translator C
  unfolding get_index same_name decrement
  lookup_name name t =
      let (i, r, next) = get_index same_name decrement name t.named t.next_index in
      (i, record t { named = r; next_index = next })

  -- `unique`
  unfoldable pub unique : Translator C → ℤ × Translator C
  unfolding decrement
  unique t = (t.next_index, record t { next_index = decrement t.next_index })

  unfoldable pub assign_index : List ℕ → ℤ → Translator C → Bool × Translator C
  unfolding assign same_name
  assign_index name i t =
      let (new, r) = assign same_name name i t.named in (new, record t { named = r })

module _ {C : Type 0} (eqb : C → C → Bool) where
  -- The constructor, for the constants 0, 1 and 2.
  unfoldable pub initial : C → C → C → Translator C
  unfolding load same_name
  initial zero one two = record {
    next_index = negsuc 20;
    named = load same_name first_names (record { objects = []; reverse = [] });
    constants =
        load eqb ((zero, negsuc 11) ∷ (one, negsuc 12) ∷ (two, negsuc 13) ∷ [])
          (record { objects = []; reverse = [] });
  }

  -- `as_dimension` is the index in a constant of the type of dimensions.
  unfoldable pub lookup_constant : (C → Option ℤ) → C → Translator C → ℤ × Translator C
  unfolding get_index decrement
  lookup_constant as_dimension c t =
      let (i, r, next) = get_index eqb decrement c t.constants t.next_index in
      elim (as_dimension c) [
        | some d ↦ (d, t)
        | none ↦ (i, record t { constants = r; next_index = next })
      ]
