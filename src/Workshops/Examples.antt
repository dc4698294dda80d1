-- ===== src/Workshops/Examples.antt =====
-- Runs of the evaluations, and the theorems about them on concrete expressions.
use trans_lucid.Prelude.{
  ℕ, true, false, ◌≡◌, refl, sym, subst, Bool-cases, inl, inr, none, some, [], ◌∷◌, arith,
}
use trans_lucid.Prelude.Int.{ℤ, pos, ◌+ℤ◌, ◌-ℤ◌, eqb_ℤ, eqb_ℤ_iff}
use trans_lucid.Context.{Context, empty, perturb, lookup, grow, grow_back, grow_front, set_insert}
use trans_lucid.Context.Stacks.{IsValid, perturb-IsValid}
use trans_lucid.Workshops.{
  Value, special, bool, intmp, dimension, dimension_error, undefined, loop, access, Node, constant,
  hash, if_node, at, no_pair, World, dimension_index, dim_time, dim_rho, tuple, entry, no_entry,
}
use trans_lucid.Workshops.Delta.{Delta, contains}
use trans_lucid.Workshops.Uncached.{eval, ordinate}
use trans_lucid.Workshops.Uncached
use trans_lucid.Workshops.Cached.{eval_cached, Answer, value, demand, Timed, dim_set}
use trans_lucid.Workshops.Cached
use trans_lucid.Workshops.Answers.{Answers}
use trans_lucid.Workshops.Answers.Result.{eval_cached-Answers}
use trans_lucid.Workshops.Support.{eval_cached-Agree}
use trans_lucid.Workshops.Support.Steps.{Agree, seen}
use trans_lucid.Workshops.Tuples.{two_specials, specials_differ, time_undemanded}

abbrev world : {X : Type 0} → World X
world = record { constant_index = λ c. pos 1000; idents = λ name. none; misread = λ c. pos 0 }

abbrev start : {X : Type 0} → Context (Value X)
start = empty (special dimension_error)

start-IsValid : {X : Type 0} → IsValid {V = Value X} (special dimension_error) start
start-IsValid = record { min_neg = omega arith; max_nonneg = omega arith; size = refl; tops = tt }

-- The context in which the dimension 3 has the ordinate false and the dimension 4 the ordinate 7.
abbrev k : {X : Type 0} → Context (Value X)
k =
    perturb (special dimension_error) (pos 4) (intmp (pos 7))
      (perturb (special dimension_error) (pos 3) (bool false) start)

k-IsValid : {X : Type 0} → IsValid {V = Value X} (special dimension_error) k
k-IsValid =
    perturb-IsValid (special dimension_error) (pos 4) _
      (perturb-IsValid (special dimension_error) (pos 3) start start-IsValid (bool false))
      (intmp (pos 7))

-- if #3 then 1 else #4
abbrev choice : {X : Type 0} → Node X
choice =
    if_node (hash (constant (dimension (pos 3)))) (constant (intmp (pos 1))) no_pair
      (hash (constant (dimension (pos 4))))

abbrev nothing_known : Delta
nothing_known = record { all = false; dims = [] }

k3 : {X : Type 0} → ordinate {X = X} k (pos 3) ≡ bool false
unfolding lookup perturb grow grow_back grow_front set_insert ◌+ℤ◌ ◌-ℤ◌
k3 = refl

k4 : {X : Type 0} → ordinate {X = X} k (pos 4) ≡ intmp (pos 7)
unfolding lookup perturb grow grow_back grow_front set_insert ◌+ℤ◌ ◌-ℤ◌
k4 = refl

choice_value : {X : Type 0} → eval {X = X} world 4 choice k ≡ some (intmp (pos 7))
unfolding eval Uncached.step Uncached.if_ws Uncached.hash_ws Uncached.lookup_context
choice_value = rw (k3, k4) refl

choice_demand :
    {X : Type 0}
    → eval_cached {X = X} world 4 choice k nothing_known 5 ≡ some (5, demand (pos 3 ∷ []))
unfolding eval_cached Cached.step dimension_index contains dim_set set_insert
choice_demand = refl

eval_cached-Answers_example :
    Answers {X = ⊥} nothing_known
      (eval world 4 choice k)
      (eval_cached world 4 choice k nothing_known 5)
eval_cached-Answers_example = eval_cached-Answers world 4 choice k nothing_known 5

-- Another context that has another ordinate at the dimension 4.
abbrev k2 : {X : Type 0} → Context (Value X)
k2 = perturb (special dimension_error) (pos 4) (intmp (pos 8)) k

same_time : ordinate {X = ⊥} k dim_time ≡ ordinate k2 dim_time
unfolding lookup perturb grow grow_back grow_front set_insert ◌+ℤ◌ ◌-ℤ◌
same_time = refl

same_rho : ordinate {X = ⊥} k dim_rho ≡ ordinate k2 dim_rho
unfolding lookup perturb grow grow_back grow_front set_insert ◌+ℤ◌ ◌-ℤ◌
same_rho = refl

is_rho : (e : ℤ) → eqb_ℤ e dim_time ≡ false → seen nothing_known e ≡ true → e ≡ dim_rho
unfolding contains
is_rho e p s = ground (arith, eqb_ℤ_iff e dim_rho)

agreeing : Agree {X = ⊥} nothing_known k k2
agreeing = record {
  valid = k-IsValid;
  valid' = perturb-IsValid (special dimension_error) (pos 4) k k-IsValid (intmp (pos 8));
  same = λ e s. elim (Bool-cases (eqb_ℤ e dim_time)) [
    | inl p ↦
        subst (λ d. ordinate {X = ⊥} k d ≡ ordinate k2 d) (sym ((eqb_ℤ_iff e dim_time).0 p))
          same_time
    | inr p ↦ subst (λ d. ordinate {X = ⊥} k d ≡ ordinate k2 d) (sym (is_rho e p s)) same_rho
  ];
}

eval_cached-Agree_example :
    eval_cached {X = ⊥} world 4 choice k nothing_known 5
    ≡ eval_cached world 4 choice k2 nothing_known 5
eval_cached-Agree_example = eval_cached-Agree world 4 choice k k2 nothing_known 5 agreeing

-- A context in which the dimension 3 has a special ordinate.
abbrev odd : Context (Value Unit)
odd = perturb (special dimension_error) (pos 3) (special undefined) start

odd3 : ordinate odd (pos 3) ≡ special undefined
unfolding lookup perturb grow grow_back grow_front set_insert ◌+ℤ◌ ◌-ℤ◌
odd3 = refl

three_missing : contains nothing_known (pos 3) ≡ false
unfolding contains
three_missing = refl

specials_differ_example :
    (eval world 3 (two_specials tt (pos 3) loop (bool true)) odd ≡ some (special undefined))
    × ((u : ℕ) × (eval_cached world 3 (two_specials tt (pos 3) loop (bool true)) odd nothing_known 0
          ≡ some (u, value (special loop))))
specials_differ_example =
    specials_differ world tt 0 odd nothing_known 0 (pos 3) undefined loop (bool true) odd3
      three_missing

-- Two contexts at the times 2 and 9.
abbrev early : Context (Value ⊥)
early = perturb (special dimension_error) dim_time (intmp (pos 2)) start

abbrev late : Context (Value ⊥)
late = perturb (special dimension_error) dim_time (intmp (pos 9)) start

early_time : ordinate early dim_time ≡ intmp (pos 2)
unfolding lookup perturb grow grow_back grow_front set_insert ◌+ℤ◌ ◌-ℤ◌
early_time = refl

late_time : ordinate late dim_time ≡ intmp (pos 9)
unfolding lookup perturb grow grow_back grow_front set_insert ◌+ℤ◌ ◌-ℤ◌
late_time = refl

abbrev at_five : Node ⊥
at_five = at (constant (tuple (entry dim_time (intmp (pos 5)) no_entry))) (constant (bool true))

time_undemanded_example :
    (eval_cached world 2 at_five early nothing_known 0 ≡ some (0, value (special access)))
    × (eval_cached world 2 at_five late nothing_known 0 ≡ some (0, value (bool true)))
time_undemanded_example =
    time_undemanded world 0 early late nothing_known 0 (pos 2) (pos 9) (pos 5) (bool true)
      early_time late_time refl refl
