-- ===== src/Context.antt =====
-- The evaluation context of src/libs/system/context.cpp and src/include/tl/context.hpp: for each
-- dimension the stack of ordinates that it was perturbed by, in a deque that grows at both ends.
-- A `dimension_index` is an integer (the source's int32_t, which a deque of that size never
-- leaves); an ordinate is of any type `V`, and `all` is the ordinate `Special(SP_DIMENSION)`.
pub mod Stacks
pub mod Restore
pub mod Delta
pub mod Compare
pub mod Perturber
mod Examples
use trans_lucid.Prelude.{
  ℕ, zero, suc, ◌+◌, ◌-◌, Bool, true, false, not, ◌&&◌, ◌||◌, Option, none, some, List, [], ◌∷◌,
  ◌++◌, replicate, if◌then◌else◌, get_elem?,
}
use mathlib.Core.Option
use trans_lucid.Prelude.Int.{ℤ, pos, negsuc, ◌+ℤ◌, ◌-ℤ◌, ltb_ℤ, leb_ℤ, eqb_ℤ, minus}

-- One place of the deque: the current ordinate, and the stack with its top first.
pub record Slot (V : Type 0) : Type 0 where
  pub first : V
  pub stack : List V

-- `min` is one before the smallest index of the deque, `max` one after the biggest. `set_dims` is
-- the ordered set `m_setDims`, `rho` the deque `m_rho` with its front first.
pub record Context (V : Type 0) : Type 0 where
  pub min : ℤ
  pub max : ℤ
  pub slots : List (Slot V)
  pub set_dims : List ℤ
  pub rho : List ℕ

abbrev pub is_empty {ℓ} : {A : Type ℓ} → List A → Bool
is_empty [] = true
is_empty (x ∷ xs) = false

infixl 5 ◌>>=◌
abbrev pub ◌>>=◌ {ℓ} : {A B : Type ℓ} → Option A → (A → Option B) → Option B
none >>= f = none
some a >>= f = f a

-- std::set<dimension_index>
unfoldable pub set_insert : ℤ → List ℤ → List ℤ
set_insert d [] = d ∷ []
set_insert d (e ∷ l) =
    if ltb_ℤ d e then d ∷ e ∷ l else if eqb_ℤ d e then e ∷ l else e ∷ set_insert d l

unfoldable pub set_erase : ℤ → List ℤ → List ℤ
set_erase d [] = []
set_erase d (e ∷ l) = if eqb_ℤ d e then l else e ∷ set_erase d l

-- The top of a stack, or the ordinate `all`.
abbrev pub top_or {ℓ} : {V : Type ℓ} → V → List V → V
top_or all [] = all
top_or all (c ∷ cs) = c

module _ {V : Type 0} where
  -- `m_context[index].second`, and the empty stack past the end.
  abbrev pub stack_at : List (Slot V) → ℕ → List V
  stack_at [] i = []
  stack_at (s ∷ ss) zero = s.stack
  stack_at (s ∷ ss) (suc i) = stack_at ss i

  -- `makeIndex`, for a dimension above `min`.
  abbrev pub make_index : Context V → ℤ → ℕ
  make_index k d = minus d k.min - 1

  -- `m_context[index].second.push(c); m_context[index].first = c`
  abbrev pub push_at : List (Slot V) → ℕ → V → List (Slot V)
  push_at [] i c = []
  push_at (s ∷ ss) zero c = record { first = c; stack = c ∷ s.stack } ∷ ss
  push_at (s ∷ ss) (suc i) c = s ∷ push_at ss i c

  -- `has_entry`
  unfoldable pub has_entry : Context V → ℤ → Bool
  has_entry k d =
      ltb_ℤ k.min d && (ltb_ℤ d k.max && not (is_empty (stack_at k.slots (make_index k d))))

  -- `if (size() == 0) m_setDims.erase(v)`
  unfoldable pub forget_dim : ℤ → Context V → Context V
  unfolding set_erase
  forget_dim d k =
      if is_empty (stack_at k.slots (make_index k d))
      then record k { set_dims = set_erase d k.set_dims }
      else k

  -- `operator Tuple`: the loop from `d`, with the rounds left.
  unfoldable pub tuple_from : ℕ → ℤ → Context V → List (ℤ × V)
  tuple_from zero d k = []
  tuple_from (suc n) d k =
      let rest = tuple_from n (d +ℤ pos 1) k in
      elim (stack_at k.slots (make_index k d)) [ [] ↦ rest | c ∷ cs ↦ (d, c) ∷ rest ]

  unfoldable pub to_tuple : Context V → List (ℤ × V)
  unfolding tuple_from
  to_tuple k = tuple_from (minus k.max k.min - 1) (k.min +ℤ pos 1) k

  -- `fillDelta`: the loop `while (m != max())` on fuel, `none` when the fuel runs out. Its body
  -- does not change `m`.
  unfoldable pub fill_from : ℕ → ℤ → Context V → List ℤ → Option (List ℤ)
  unfolding has_entry set_insert
  fill_from zero m k delta = none
  fill_from (suc fuel) m k delta =
      let rest = fill_from fuel m k (if has_entry k m then set_insert m delta else delta) in
      if eqb_ℤ m k.max then some delta else rest

  unfoldable pub fill_delta : ℕ → Context V → List ℤ → Option (List ℤ)
  unfolding fill_from
  fill_delta fuel k delta = fill_from fuel (k.min +ℤ pos 1) k delta

module _ {V : Type 0} (all : V) where
  abbrev pub blank : Slot V
  blank = record { first = all; stack = [] }

  -- `Context::Context()`
  abbrev pub empty : Context V
  empty = record { min = negsuc 0; max = pos 0; slots = []; set_dims = []; rho = [] }

  -- The pop of `restore`, and the new `first`. A pop of an empty stack or past the end, where the
  -- source's behaviour is undefined, is `none`.
  abbrev pub pop_slot : List V → Option (Slot V)
  pop_slot [] = none
  pop_slot (c ∷ cs) = some (record { first = top_or all cs; stack = cs })

  abbrev pub pop_at : List (Slot V) → ℕ → Option (List (Slot V))
  pop_at [] i = none
  pop_at (s ∷ ss) zero = Option.map (λ s'. s' ∷ ss) (pop_slot s.stack)
  pop_at (s ∷ ss) (suc i) = Option.map (λ ss'. s ∷ ss') (pop_at ss i)

  -- The two ways in which `perturb` allocates more slots.
  unfoldable pub grow_back : ℤ → Context V → Context V
  grow_back d k = record k {
    slots = k.slots ++ replicate (minus d k.max + 1) blank;
    max = d +ℤ pos 1;
  }

  unfoldable pub grow_front : ℤ → Context V → Context V
  grow_front d k = record k {
    slots = replicate (minus k.min d + 1) blank ++ k.slots;
    min = d -ℤ pos 1;
  }

  -- `perturb`: "do we need to allocate some more slots"
  unfoldable pub grow : ℤ → Context V → Context V
  unfolding grow_back grow_front
  grow d k = if leb_ℤ k.max d then grow_back d k else if leb_ℤ d k.min then grow_front d k else k

  -- `perturb(dimension_index, const Constant&)`
  unfoldable pub perturb : ℤ → V → Context V → Context V
  unfolding grow set_insert
  perturb d c k =
      let k' = grow d k in
      record k' {
        slots = push_at k'.slots (make_index k' d) c;
        set_dims = set_insert d k'.set_dims;
      }

  -- `perturb(const Tuple&)`; a tuple is the list of its entries, in the order of the map.
  unfoldable pub perturb_tuple : List (ℤ × V) → Context V → Context V
  unfolding perturb
  perturb_tuple [] k = k
  perturb_tuple ((d, c) ∷ t) k = perturb_tuple t (perturb d c k)

  -- `lookup`
  unfoldable pub lookup : Context V → ℤ → V
  lookup k d =
      if leb_ℤ d k.min || leb_ℤ k.max d
      then all
      else (elim (get_elem? k.slots (make_index k d)) [ none ↦ all | some s ↦ s.first ])

  -- The body of the loop of `restore(const Tuple&)`: the dimension stays in `set_dims`.
  unfoldable pub restore_entry : ℤ → Context V → Option (Context V)
  restore_entry d k =
      if leb_ℤ d k.min
      then none
      else Option.map (λ ss. record k { slots = ss }) (pop_at k.slots (make_index k d))

  -- `restore(const Tuple&)`
  unfoldable pub restore_tuple : List (ℤ × V) → Context V → Option (Context V)
  unfolding restore_entry
  restore_tuple [] k = some k
  restore_tuple ((d, c) ∷ t) k = restore_entry d k >>= restore_tuple t

  -- The body of the loop of `restore(const List&)`.
  unfoldable pub restore_dim : ℤ → Context V → Option (Context V)
  unfolding restore_entry forget_dim
  restore_dim d k = Option.map (forget_dim d) (restore_entry d k)

  -- `restore(const List&)`
  unfoldable pub restore : List ℤ → Context V → Option (Context V)
  unfolding restore_dim
  restore [] k = some k
  restore (d ∷ ds) k = restore_dim d k >>= restore ds

  -- `reset`
  unfoldable pub reset : Context V → Context V
  reset k = record k { slots = []; min = negsuc 0; max = pos 0 }
