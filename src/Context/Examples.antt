-- ===== src/Context/Examples.antt =====
-- Contexts of numbers, with 0 for the ordinate `all`.
use trans_lucid.Prelude.{
  ◌==◌, ==_iff, ◌↔◌, true, ℕ, ◌≡◌, refl, arith, List, [], ◌∷◌, none, some, if◌then◌else◌,
}
use trans_lucid.Prelude.Int.{ℤ, pos, negsuc, eqb_ℤ, ◌+ℤ◌, ◌-ℤ◌, ◌<ℤ◌}
use trans_lucid.Context.{
  Context, empty, to_tuple, fill_delta, perturb, perturb_tuple, restore, lookup, top_or, grow,
  grow_back, grow_front, set_insert,
}
use trans_lucid.Context.Stacks.{
  IsValid, stack_of, perturb-IsValid, stack_of-perturb, lookup-stack_of,
}
use trans_lucid.Context.Compare.{le, empty_from, same_from, Agree, le_iff}
use trans_lucid.Context.Perturber.{
  Perturber, begin, perturb_each, perturb_by, finish, Reaches, started, by_each, by_context,
  finish-Reaches,
}
use trans_lucid.Context.Delta.{fill_delta-none, find-to_tuple, top_of}
use trans_lucid.Tuple.{find}
use trans_lucid.Context.Restore.{dims, SameStacks, restore-perturb_tuple}

abbrev all : ℕ
all = 0

abbrev start : Context ℕ
start = empty all

empty-IsValid : IsValid all start
empty-IsValid = record { min_neg = omega arith; max_nonneg = omega arith; size = refl; tops = tt }

-- Perturbations on both sides of 0, one dimension twice.
abbrev changes : List (ℤ × ℕ)
changes = (pos 2, 7) ∷ (negsuc 1, 8) ∷ (pos 2, 9) ∷ []

abbrev changed : Context ℕ
changed = perturb_tuple all changes start

reads_changes : lookup all changed (pos 2) ≡ 9
unfolding perturb_tuple lookup perturb grow grow_back grow_front set_insert ◌+ℤ◌ ◌-ℤ◌
reads_changes = refl

perturb-IsValid_example : IsValid all (perturb all (pos 3) 5 start)
perturb-IsValid_example = perturb-IsValid all (pos 3) start empty-IsValid 5

stack_of-perturb_example : stack_of (perturb all (negsuc 4) 5 start) (negsuc 4) ≡ (
    if eqb_ℤ (negsuc 4) (negsuc 4)
    then 5 ∷ stack_of start (negsuc 4)
    else stack_of start (negsuc 4))
stack_of-perturb_example = stack_of-perturb all (negsuc 4) start empty-IsValid 5 (negsuc 4)

lookup-stack_of_example :
    lookup all (perturb all (pos 3) 5 start) (pos 3)
    ≡ top_or all (stack_of (perturb all (pos 3) 5 start) (pos 3))
lookup-stack_of_example =
    lookup-stack_of all (perturb all (pos 3) 5 start) (pos 3)
      (perturb-IsValid all (pos 3) start empty-IsValid 5)

restore-perturb_tuple_example :
    (k' : Context ℕ) × (restore all (dims changes) changed ≡ some k') × SameStacks all start k'
restore-perturb_tuple_example = restore-perturb_tuple all changes start empty-IsValid

find-to_tuple_example :
    find (pos 3) (to_tuple (perturb all (pos 3) 5 start))
    ≡ top_of (stack_of (perturb all (pos 3) 5 start) (pos 3))
find-to_tuple_example =
    find-to_tuple all (perturb all (pos 3) 5 start) (pos 3)
      (perturb-IsValid all (pos 3) start empty-IsValid 5)

-- A context in which the dimension 0 has the ordinate 5.
abbrev one_place : Context ℕ
one_place = record {
  min = negsuc 0;
  max = pos 1;
  slots = record { first = 5; stack = 5 ∷ [] } ∷ [];
  set_dims = pos 0 ∷ [];
  rho = [];
}

room_in_one_place : one_place.min +ℤ pos 1 <ℤ one_place.max
unfolding ◌+ℤ◌
room_in_one_place = omega arith

fill_delta-none_example : fill_delta 100 one_place [] ≡ none
fill_delta-none_example = fill_delta-none 100 one_place [] room_in_one_place

-- A context that `le` finds below another with one ordinate more.
abbrev more : Context ℕ
more = perturb all (pos 3) 5 (perturb all (negsuc 4) 6 start)

more_is_above : le ◌==◌ (perturb all (pos 3) 5 start) more ≡ true
unfolding le empty_from same_from perturb grow grow_back grow_front set_insert ◌+ℤ◌ ◌-ℤ◌
more_is_above = refl

le_iff_example :
    (le ◌==◌ start more ≡ true)
    ↔ ((e : ℤ) → Agree (top_of (stack_of start e)) (top_of (stack_of more e)))
le_iff_example = le_iff all ◌==◌ ==_iff start more empty-IsValid (
    perturb-IsValid all (pos 3) (perturb all (negsuc 4) 6 start)
      (perturb-IsValid all (negsuc 4) start empty-IsValid 6) 5)

-- A perturber that uses a tuple, then all that another context has.
abbrev used : Perturber ℕ
used = perturb_by all one_place (perturb_each all changes (begin all start))

used-Reaches : Reaches all start used
used-Reaches = by_context one_place (by_each changes started)

finish-Reaches_example : (k' : Context ℕ) × (finish all used ≡ some k') × SameStacks all start k'
finish-Reaches_example = finish-Reaches all start used empty-IsValid used-Reaches
