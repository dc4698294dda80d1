-- ===== src/Types.antt =====
-- The types of src/include/tl/tyinf/type.hpp. A set of type variables is the list of them in order;
-- the constants are any type `C`.
pub mod Atomics
pub mod Bounds
pub mod Compare
pub mod Subtype
mod Examples
use trans_lucid.Prelude.{ℕ, zero, suc, ◌+◌, Bool, true, false, ◌&&◌, ◌==◌, List, [], ◌∷◌}
use trans_lucid.Prelude.Int.{ℤ, eqb_ℤ}
use Atomics.{AtomicUnion}

-- The alternatives of the variant `Type`, with `TypeTuple` as its fields and its record variable.
mutual
  pub data TypeTerm (C : Type 0) : Type 0 where
    nothing top bot region : TypeTerm C
    var : ℕ → TypeTerm C
    constant : C → TypeTerm C
    atomic : List ℕ → ℕ → TypeTerm C
    union : AtomicUnion C → TypeTerm C
    glb lub : List ℕ → TypeTerm C → TypeTerm C
    intension : TypeTerm C → TypeTerm C
    cbv : TypeTerm C → TypeTerm C → TypeTerm C
    base : Types C → TypeTerm C → TypeTerm C
    tuple : Fields C → ℕ → TypeTerm C

  pub data Types (C : Type 0) : Type 0 where
    no_type : Types C
    next_type : TypeTerm C → Types C → Types C

  pub data Fields (C : Type 0) : Type 0 where
    no_field : Fields C
    next_field : ℤ → TypeTerm C → Fields C → Fields C

module _ {C : Type 0} where
  -- `lhs.size()`
  abbrev pub size : Types C → ℕ
  size no_type = 0
  size (next_type t ts) = suc (size ts)

  -- `variant_is_type`
  abbrev pub is_top : TypeTerm C → Bool
  is_top top = true
  is_top _ = false

  abbrev pub is_bot : TypeTerm C → Bool
  is_bot bot = true
  is_bot _ = false

  abbrev pub is_nothing : TypeTerm C → Bool
  is_nothing nothing = true
  is_nothing _ = false
