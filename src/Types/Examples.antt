-- ===== src/Types/Examples.antt =====
-- Types whose constants are numbers, of the index of their tens.
use trans_lucid.Prelude.{
  ℕ, ◌/◌, ◌≡◌, refl, Bool, true, false, ◌&&◌, ◌||◌, none, some, Bool-cases, inl, inr, [], ◌∷◌, ltb,
  ◌==◌, ==_iff, arith,
}
use trans_lucid.Ordered.{ltb_order}
use trans_lucid.OrderedSet.{has}
use trans_lucid.Types.{
  TypeTerm, nothing, var, constant, atomic, union, lub, glb, base, no_type, next_type, is_bot,
  is_top,
}
use trans_lucid.Types.Atomics.{
  AtomicUnion, copied, map_at, values, empty_union, add_constant, add_atomic,
}
use trans_lucid.Types.Atomics.Laws.{IsNormal, add_constant-IsNormal}
use trans_lucid.Types.Bounds.{construct_lub, construct_glb}
use trans_lucid.Types.Bounds.Elementary.{
  stands, IsElementary, is_constant, is_atomic, is_union, Apart, construct_lub_lem,
}
use trans_lucid.Types.Bounds.Lower.{leaves_out, construct_glb_lem}
use trans_lucid.Types.Bounds.Lost.{bounds_forget}
use trans_lucid.Types.Compare.{contains_pos}
use trans_lucid.Types.Compare.Sound.{contains_pos_lem}
use trans_lucid.Types.Subtype.{
  subc, sub_step, sub_upper, sub_rest, is_elementary, sub_constructed, each_argument,
}
use trans_lucid.ConstraintGraph.Constraints.{done}

abbrev tens : ℕ → ℕ
tens c = c / 10

-- The atomic type of the twenties, and the constants 12 and 47.
abbrev twenties : AtomicUnion ℕ
twenties = record { constants = []; atomics = 2 ∷ []; atomic_map = [] }

twenties-IsNormal : IsNormal tens ltb_order twenties
unfolding has map_at values
twenties-IsNormal = record { uncovered = λ c h. ground (arith, h); mapped = λ c i. refl }

twenties_made : add_atomic tens ltb 2 empty_union ≡ some twenties
unfolding add_atomic
twenties_made = refl

abbrev three : AtomicUnion ℕ
unfolding add_constant
three = add_constant tens ltb 47 (add_constant tens ltb 12 twenties)

three-IsNormal : IsNormal tens ltb_order three
unfolding three
three-IsNormal =
    add_constant-IsNormal tens ltb_order 47 _
      (add_constant-IsNormal tens ltb_order 12 _ twenties-IsNormal)

-- With the forties added, 47 is erased; in a copy, that is undefined.
erased :
    add_atomic tens ltb 4 three
    ≡ some (record {
      constants = 12 ∷ [];
      atomics = 2 ∷ 4 ∷ [];
      atomic_map = (1, (true, 12) ∷ []) ∷ [];
    })
unfolding add_atomic add_constant
erased = refl

erased_in_copy : add_atomic tens ltb 4 (copied three) ≡ none
unfolding add_atomic add_constant copied
erased_in_copy = refl

is_three : IsElementary tens ◌==◌ ltb_order ==_iff (union three)
is_three = is_union three three-IsNormal

is_twenty : IsElementary tens ◌==◌ ltb_order ==_iff (constant 20)
is_twenty = is_constant 20

is_thirty : IsElementary tens ◌==◌ ltb_order ==_iff (atomic [] 3)
is_thirty = is_atomic [] 3

three-Apart : Apart tens ◌==◌ ltb_order ==_iff (union three) (atomic [] 3)
unfolding add_constant has
three-Apart c h = elim (Bool-cases (c == 12)) [
  | inl p ↦ let e : c ≡ 12 = ground (arith, p) in rw e refl
  | inr p ↦ let e : c ≡ 47 = ground (arith, p, h) in rw e refl
]

construct_lub_lem_example :
    (t : TypeTerm ℕ) × (construct_lub tens ◌==◌ ltb (union three) (atomic [] 3) ≡ some t)
    × IsElementary tens ◌==◌ ltb_order ==_iff t
    × ((c : ℕ)
        → stands tens ◌==◌ ltb c t
          ≡ (stands tens ◌==◌ ltb c (union three) || stands tens ◌==◌ ltb c (atomic [] 3)))
construct_lub_lem_example =
    construct_lub_lem tens ◌==◌ ltb_order ==_iff is_three is_thirty three-Apart

construct_glb_lem_example :
    (t : TypeTerm ℕ) × (construct_glb tens ◌==◌ ltb (union three) (constant 20) ≡ some t)
    × ((c : ℕ)
        → (stands tens ◌==◌ ltb c t ≡ true
            → (stands tens ◌==◌ ltb c (union three) && stands tens ◌==◌ ltb c (constant 20)) ≡ true)
          × (leaves_out tens ◌==◌ ltb_order ==_iff (union three) (constant 20) ≡ false
              → stands tens ◌==◌ ltb c t
                ≡ (stands tens ◌==◌ ltb c (union three) && stands tens ◌==◌ ltb c (constant 20))))
construct_glb_lem_example = construct_glb_lem tens ◌==◌ ltb_order ==_iff is_three is_twenty

contains_pos_lem_example :
    (r : Bool) × (contains_pos tens ◌==◌ ltb (union three) (atomic [] 3) ≡ some r)
    × (r ≡ true
        → (c : ℕ) → stands tens ◌==◌ ltb c (atomic [] 3) ≡ true
        → stands tens ◌==◌ ltb c (union three) ≡ true)
contains_pos_lem_example =
    contains_pos_lem tens ◌==◌ ltb_order ==_iff is_three is_thirty three-Apart

contains_twenty : contains_pos tens ◌==◌ ltb (union three) (constant 20) ≡ some true
unfolding contains_pos construct_lub
contains_twenty = refl

bounds_forget_example :
    (is_bot {C = ℕ} (constant 3) ≡ false
      → construct_lub tens ◌==◌ ltb (lub (1 ∷ []) (constant 20)) (constant 3)
        ≡ construct_lub tens ◌==◌ ltb (lub (1 ∷ []) nothing) (constant 3))
    × (is_top {C = ℕ} (constant 3) ≡ false
        → construct_glb tens ◌==◌ ltb (glb (1 ∷ []) (constant 20)) (constant 3)
          ≡ construct_glb tens ◌==◌ ltb (glb (1 ∷ []) nothing) (constant 3))
bounds_forget_example = bounds_forget tens ◌==◌ ltb (1 ∷ []) (constant 20) (constant 3)

-- Two functions of one argument.
abbrev lower : TypeTerm ℕ
lower = base (next_type (atomic [] 2) no_type) (var 0)

abbrev higher : TypeTerm ℕ
higher = base (next_type (var 1) no_type) (atomic [] 4)

subc_functions :
    subc tens ◌==◌ ltb 11 lower higher
    ≡ done
        (record { lhs = var 1; rhs = atomic [] 2 } ∷ record { lhs = var 0; rhs = atomic [] 4 } ∷ [])
unfolding subc sub_step sub_upper sub_rest is_elementary sub_constructed each_argument
subc_functions = refl
