-- ===== src/Cache/Examples.antt =====
-- Caches of numbers.
use trans_lucid.Prelude.{
  ℕ, ◌≡◌, ◌↔◌, refl, arith, List, [], ◌∷◌, Bool, true, false, ◌==◌, ◌&&◌, ==_iff, some, none,
  if◌then◌else◌, Bool-cases, inl, inr, sym,
}
use trans_lucid.Prelude.Int.{ℤ, pos, eqb_ℤ, eqb_ℤ_iff}
use trans_lucid.Cache.Tree.{Constant, calc, loop, demand, value, ok}
use trans_lucid.Cache.{Cache, initial, new_level, get, set}
use trans_lucid.Cache.Get.{get_node}
use trans_lucid.Cache.Set.{set_node}
use trans_lucid.Cache.Shape.{WfNode}
use trans_lucid.Cache.Memo.{stored_answer}
use trans_lucid.Cache.Laws.{IsValid, get_total, get-set-get}
use trans_lucid.Cache.Root.{IsRight}
use trans_lucid.Cache.Workshop.{
  final_get, Evaluated, cache_ws, cached_loop, on_get, on_result, on_answer, on_difference,
  difference, empty,
}
use trans_lucid.Cache.Sound.{AnswersRightly, Returns, cache_ws_lem}
use trans_lucid.Cache.Again.{cache_ws-cache_ws}
use trans_lucid.Workshops.Delta.{Delta, contains, insert_all}
use trans_lucid.Prelude.{subst, ◌∙◌}
use trans_lucid.Prelude.Int.{◌+ℤ◌, ◌-ℤ◌}
use trans_lucid.Context
use trans_lucid.Context.{Context, perturb, lookup, grow, grow_back, grow_front, set_insert}
use trans_lucid.Context.Stacks
use trans_lucid.Context.Stacks.{perturb-IsValid}
use trans_lucid.Cache.Asks.{AsksIn, LevelsIn}
use trans_lucid.Cache.Stays.{DemandsIn}
use trans_lucid.Cache.Link.{Linked, link}
use trans_lucid.Cache.Linked.{IsLinked, link_lem}
use trans_lucid.Cache.Sound.{IsPlain}

abbrev same_dims : List ℤ → List ℤ → Bool
same_dims [] [] = true
same_dims (d ∷ ds) (e ∷ es) = eqb_ℤ d e && same_dims ds es
same_dims _ _ = false

same_dims_iff : (ds es : List ℤ) → (same_dims ds es ≡ true) ↔ (ds ≡ es)
same_dims_iff [] [] = ground arith
same_dims_iff [] (e ∷ es) = ground arith
same_dims_iff (d ∷ ds) [] = ground arith
same_dims_iff (d ∷ ds) (e ∷ es) = ground (arith, eqb_ℤ_iff d e, same_dims_iff ds es)

abbrev beq : Constant ℕ → Constant ℕ → Bool
beq calc calc = true
beq loop loop = true
beq (demand ds) (demand es) = same_dims ds es
beq (value m) (value n) = m == n
beq _ _ = false

beq_iff : (a b : Constant ℕ) → (beq a b ≡ true) ↔ (a ≡ b)
beq_iff calc calc = ground arith
beq_iff calc loop = ground arith
beq_iff calc (demand es) = ground arith
beq_iff calc (value n) = ground arith
beq_iff loop calc = ground arith
beq_iff loop loop = ground arith
beq_iff loop (demand es) = ground arith
beq_iff loop (value n) = ground arith
beq_iff (demand ds) calc = ground arith
beq_iff (demand ds) loop = ground arith
beq_iff (demand ds) (demand es) = ground (arith, same_dims_iff ds es)
beq_iff (demand ds) (value n) = ground arith
beq_iff (value m) calc = ground arith
beq_iff (value m) loop = ground arith
beq_iff (value m) (demand es) = ground arith
beq_iff (value m) (value n) = ground (arith, ==_iff m n)

-- Every dimension has the ordinate 1, and only the dimension 0 is in the delta.
abbrev k : ℤ → Constant ℕ
k d = value 1

abbrev in_delta : ℤ → Bool
in_delta d = eqb_ℤ d (pos 0)

abbrev start : Cache ℕ
start = initial 0 0

-- The cache after the first `get`.
abbrev asked : Cache ℕ
asked = record { entry = some new_level; counters = start.counters }

start-IsValid : IsValid start
unfolding initial
start-IsValid = tt

asked-IsValid : IsValid asked
unfolding initial new_level WfNode
asked-IsValid = tt

get-asked : get beq k in_delta start ≡ ok (calc, asked)
unfolding get initial
get-asked = refl

get_total_example :
    (r : Constant ℕ) × (c' : Cache ℕ) × (get beq k in_delta asked ≡ ok (r, c')) × IsValid c'
get_total_example = get_total beq k in_delta asked asked-IsValid

get-set-get_example :
    (c'' : Cache ℕ) × (set beq k (value 5) asked ≡ ok c'')
    × ((c3 : Cache ℕ) × (get beq k in_delta c'' ≡ ok (stored_answer in_delta (value 5), c3)))
get-set-get_example = get-set-get beq beq_iff k in_delta (value 5) tt start asked get-asked

-- An expression whose value is the ordinate of the dimension 3.
abbrev reads : (ℤ → Constant ℕ) → Delta → ℕ → Cache ℕ → Evaluated ℕ
reads ord sub t c =
    if contains sub (pos 3)
    then some (ok (t, ord (pos 3), c))
    else some (ok (t, demand (pos 3 ∷ []), c))

abbrev IsOrdinate : (ℤ → Constant ℕ) → Constant ℕ → Type 0
IsOrdinate ord c = c ≡ ord (pos 3)

reads-AnswersRightly : AnswersRightly IsOrdinate reads k 7
reads-AnswersRightly sub c = elim (Bool-cases (contains sub (pos 3))) [
  | inl there ↦ (7, value 1, rw there refl, λ k' same. sym (same (pos 3) there))
  | inr missing ↦ (7, demand (pos 3 ∷ []), rw missing refl, (tt, (missing, tt)))
]

abbrev knows : Delta
knows = record { all = false; dims = pos 2 ∷ pos 3 ∷ [] }

start-IsRight : IsRight IsOrdinate start
unfolding initial
start-IsRight = tt

cache_ws_lem_example : Returns IsOrdinate k knows 7 (cache_ws beq reads 3 k knows 7 start)
cache_ws_lem_example =
    cache_ws_lem beq beq_iff IsOrdinate reads k knows 7 reads-AnswersRightly 3 start (omega arith)
      start-IsRight

-- Without the dimension, it is demanded, and nothing else.
cache_ws_demand :
    (c : Cache ℕ) × (cache_ws beq reads 3 k empty 7 start ≡ some (ok (7, demand (pos 3 ∷ []), c)))
unfolding cache_ws cached_loop on_get on_result on_answer on_difference difference get set initial
    new_level set_node contains
cache_ws_demand = (_, refl)

-- The first call, and an expression that never answers.
first_call : (c : Cache ℕ) × (cache_ws beq reads 3 k knows 7 start ≡ some (ok (7, value 1, c)))
unfolding cache_ws cached_loop on_get on_result on_answer on_difference difference final_get get set
    initial new_level set_node contains get_node insert_all
first_call = (_, refl)

abbrev silent : (ℤ → Constant ℕ) → Delta → ℕ → Cache ℕ → Evaluated ℕ
silent ord sub t c = none

abbrev knows_more : Delta
knows_more = record { all = false; dims = pos 2 ∷ pos 3 ∷ pos 5 ∷ [] }

cache_ws-cache_ws_example :
    (c : Cache ℕ) × (cache_ws beq silent 3 k knows_more 9 first_call.0 ≡ some (ok (9, value 1, c)))
cache_ws-cache_ws_example =
    cache_ws-cache_ws beq beq_iff IsOrdinate reads k knows 7 reads-AnswersRightly 3 start
      first_call.0 (value 1) (omega arith) start-IsRight tt first_call.1 silent 3 9 knows_more
      (λ d m. ground (arith, m)) (omega arith)

abbrev no_dimensions : Context (Constant ℕ)
no_dimensions = Context.empty (value 0)

no_dimensions-IsValid : Stacks.IsValid (value 0) no_dimensions
no_dimensions-IsValid = record {
  min_neg = omega arith;
  max_nonneg = omega arith;
  size = refl;
  tops = tt;
}

-- A context that has the ordinate 1 at the dimension 3.
abbrev context : Context (Constant ℕ)
context = perturb (value 0) (pos 3) (value 1) no_dimensions

context-IsValid : Stacks.IsValid (value 0) context
context-IsValid = perturb-IsValid (value 0) (pos 3) no_dimensions no_dimensions-IsValid (value 1)

ordinate_one : lookup (value 0) context (pos 3) ≡ value 1
unfolding lookup perturb grow grow_back grow_front set_insert ◌+ℤ◌ ◌-ℤ◌
ordinate_one = refl

reads_context : AnswersRightly IsOrdinate reads (lookup (value 0) context) 0
reads_context sub c = elim (Bool-cases (contains sub (pos 3))) [
  | inl there ↦ (
    0,
    value 1,
    rw (there, ordinate_one) refl,
    λ k' same. sym (same (pos 3) there ∙ ordinate_one),
  )
  | inr missing ↦ (0, demand (pos 3 ∷ []), rw missing refl, (tt, (missing, tt)))
]

abbrev three : List ℤ
three = pos 3 ∷ []

abbrev Within : Evaluated ℕ → Type 0
Within (some (ok (t, v, c))) = AsksIn three v × LevelsIn three c
Within _ = Unit

reads-Within :
    (sub : Delta) (t : ℕ) (c : Cache ℕ)
    → LevelsIn three c
    → Within (reads (lookup (value 0) context) sub t c)
reads-Within sub t c l = elim (Bool-cases (contains sub (pos 3))) [
  | inl there ↦ rw (there, ordinate_one) (tt, l)
  | inr missing ↦ rw missing ((λ d m. m), l)
]

reads-DemandsIn : DemandsIn three reads (lookup (value 0) context)
reads-DemandsIn sub t t' c c' v e l = subst Within e (reads-Within sub t c l)

start-LevelsIn : LevelsIn three start
unfolding initial
start-LevelsIn = tt

-- The expression's own operator.
abbrev all_zero : Constant ℕ
all_zero = value 0

abbrev reads_plain : Context (Constant ℕ) → Cache ℕ → Linked all_zero
reads_plain ctx c = some (ok (lookup (value 0) ctx (pos 3), c))

reads_plain-right :
    (v : Constant ℕ) × (reads_plain context start ≡ some (ok (v, start)))
    × IsPlain v
    × IsOrdinate (lookup (value 0) context) v
reads_plain-right = (value 1, rw ordinate_one refl, tt, sym ordinate_one)

link_lem_example :
    IsLinked
      (value 0)
      beq
      beq_iff
      IsOrdinate
      reads
      context
      context-IsValid
      reads_context
      three
      reads-DemandsIn
      (link (value 0) beq reads true reads_plain 2 context start)
link_lem_example =
    link_lem (value 0) beq beq_iff IsOrdinate reads context context-IsValid reads_context three
      reads-DemandsIn true reads_plain start reads_plain-right start-IsRight start-LevelsIn
