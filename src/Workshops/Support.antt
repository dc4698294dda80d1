-- ===== src/Workshops/Support.antt =====
-- What the evaluation with a `Delta` (src/libs/system/eval_workshops.cpp) depends on.
pub mod Contexts
pub mod Steps
use trans_lucid.Prelude.{ℕ, zero, suc, ◌≡◌, refl}
use trans_lucid.Context.{Context}
use trans_lucid.Workshops.{Value, Node, World}
use trans_lucid.Workshops.Delta.{Delta}
use trans_lucid.Workshops.Cached.{eval_cached}
use trans_lucid.Workshops.Support.Steps.{Agree, step_eq}

-- On two valid contexts that agree on the dimensions of the set, on the time and on `DIM_RHO`, the
-- evaluation with the set gives one result: the same time with the same value or demand, or none.
pub eval_cached-Agree :
    {X : Type 0} (W : World X) (fuel : ℕ) (n : Node X) (k k' : Context (Value X)) (delta : Delta)
    (t : ℕ)
    → Agree delta k k'
    → eval_cached W fuel n k delta t ≡ eval_cached W fuel n k' delta t
unfolding eval_cached
eval_cached-Agree W zero n k k' delta t a = refl
eval_cached-Agree W (suc f) n k k' delta t a =
    step_eq W (eval_cached W f) (eval_cached-Agree W f) k k' delta a n t
