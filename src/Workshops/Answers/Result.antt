-- ===== src/Workshops/Answers/Result.antt =====
-- The two evaluations of src/libs/system/eval_workshops.cpp compared.
use trans_lucid.Prelude.{ℕ, zero, suc, refl, Option}
use trans_lucid.Context.{Context}
use trans_lucid.Workshops.{
  Value, Node, World, constant, ident, if_node, hash, region_node, at, at_tuple, make_inten,
  eval_inten, tuple_node, hash_symbol,
}
use trans_lucid.Workshops.Delta.{Delta}
use trans_lucid.Workshops.Uncached.{eval, pairs_list, parts_list, nodes_list}
use trans_lucid.Workshops.Uncached
use trans_lucid.Workshops.Cached.{eval_cached, Timed}
use trans_lucid.Workshops.Cached
use trans_lucid.Workshops.Answers.{Answers}
use trans_lucid.Workshops.Answers.Branches.{
  ident_ws-Answers, hash_ws-Answers, if_ws-Answers, at_ws-Answers, eval_inten_ws-Answers,
}
use trans_lucid.Workshops.Answers.Lists.{
  region_ws-Answers, at_tuple_ws-Answers, make_inten_ws-Answers,
}

module _ (W : World ⊥) (ev : Node ⊥ → Context (Value ⊥) → Option (Value ⊥))
    (evc : Node ⊥ → Context (Value ⊥) → Delta → ℕ → Option (Timed ⊥))
    (h : (n : Node ⊥) (k : Context (Value ⊥)) (delta : Delta) (t : ℕ)
      → Answers delta (ev n k) (evc n k delta t)) where
  step-Answers :
      (n : Node ⊥) (k : Context (Value ⊥)) (delta : Delta) (t : ℕ)
      → Answers delta (Uncached.step W ev n k) (Cached.step W evc n k delta t)
  unfolding Uncached.step Cached.step
  step-Answers (constant c) k delta t = refl
  step-Answers (ident name) k delta t = ident_ws-Answers W ev evc h name k delta t
  step-Answers (if_node c b elsifs e) k delta t =
      if_ws-Answers W ev evc h c b (pairs_list elsifs) e k delta t
  step-Answers (hash e) k delta t = hash_ws-Answers W ev evc h e k delta t
  step-Answers (region_node parts) k delta t =
      region_ws-Answers W ev evc h (parts_list parts) k delta t
  step-Answers (at e1 e2) k delta t = at_ws-Answers W ev evc h e1 e2 k delta t
  step-Answers (at_tuple e2 pairs) k delta t =
      at_tuple_ws-Answers W ev evc h e2 (pairs_list pairs) k delta t
  step-Answers (make_inten rhs binds scope) k delta t =
      make_inten_ws-Answers W ev evc h rhs (nodes_list binds) scope k delta t
  step-Answers (eval_inten e) k delta t = eval_inten_ws-Answers W ev evc h e k delta t
  step-Answers (tuple_node x pairs) k delta t = absurd x
  step-Answers (hash_symbol x) k delta t = absurd x

-- Where an expression without tuples and without `#` alone has a value in a context, the evaluation
-- with a set of dimensions returns with the same fuel: the same value, or a demand for dimensions,
-- at least one, that are all outside the set.
pub eval_cached-Answers :
    (W : World ⊥) (fuel : ℕ) (n : Node ⊥) (k : Context (Value ⊥)) (delta : Delta) (t : ℕ)
    → Answers delta (eval W fuel n k) (eval_cached W fuel n k delta t)
unfolding eval eval_cached
eval_cached-Answers W zero n k delta t = tt
eval_cached-Answers W (suc f) n k delta t =
    step-Answers W (eval W f) (eval_cached W f) (eval_cached-Answers W f) n k delta t
