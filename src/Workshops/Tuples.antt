-- ===== src/Workshops/Tuples.antt =====
-- Where the two evaluations of src/libs/system/eval_workshops.cpp differ, and where that with a
-- `Delta` looks at a dimension that it has not asked for.
use Prim.Native.Nat.{max}
use trans_lucid.Prelude.{ℕ, suc, true, false, ◌≡◌, refl, some}
use trans_lucid.Prelude.Int.{ℤ, ltb_ℤ}
use trans_lucid.Context.{Context}
use trans_lucid.Workshops.{
  Value, Special, special, intmp, dimension, tuple, no_entry, entry, Node, constant, hash, at,
  tuple_node, no_pair, pair, World, access, dim_time, dimension_index,
}
use trans_lucid.Workshops.Delta.{Delta, contains}
use trans_lucid.Workshops.Uncached.{eval, ordinate, too_late}
use trans_lucid.Workshops.Uncached
use trans_lucid.Workshops.Cached.{eval_cached, value}
use trans_lucid.Workshops.Cached

-- A tuple whose first dimension is the ordinate of `d`, and whose second dimension is the special
-- constant `s'`.
abbrev pub two_specials : {X : Type 0} → X → ℤ → Special → Value X → Node X
two_specials x d s' c = tuple_node x (
    pair (hash (constant (dimension d))) (constant c)
      (pair (constant (special s')) (constant c) no_pair))

-- Let the ordinate of `d` be a special constant in the context, and `d` outside the set. Then the
-- tuple [#d : c, s' : c] has the ordinate of `d` as its value, but the evaluation with the set
-- answers with the other special constant s' and does not demand `d`.
pub specials_differ :
    {X : Type 0} (W : World X) (x : X) (fuel : ℕ) (k : Context (Value X)) (delta : Delta) (t : ℕ)
    (d : ℤ) (s s' : Special) (c : Value X)
    → ordinate k d ≡ special s
    → contains delta d ≡ false
    → (eval W (suc (suc (suc fuel))) (two_specials x d s' c) k ≡ some (special s))
      × ((u : ℕ) × (eval_cached W (suc (suc (suc fuel))) (two_specials x d s' c) k delta t
            ≡ some (u, value (special s'))))
unfolding eval eval_cached Uncached.step Cached.step dimension_index Uncached.lookup_context
specials_differ W x fuel k delta t d s s' c e m =
    (rw e refl, (max (max (max (max 0 t) t) t) t, rw m refl))

-- An expression that sets the time to `m` is answered without a demand for the time, by the special
-- constant for an access in a context with an earlier time and by its value in one with a later
-- time, whatever the set: the answer depends on a dimension that is not demanded.
pub time_undemanded :
    {X : Type 0} (W : World X) (fuel : ℕ) (k k' : Context (Value X)) (delta : Delta) (t : ℕ)
    (a b m : ℤ) (c : Value X)
    → ordinate k dim_time ≡ intmp a
    → ordinate k' dim_time ≡ intmp b
    → ltb_ℤ a m ≡ true
    → ltb_ℤ b m ≡ false
    → (eval_cached W
          (suc (suc fuel))
          (at (constant (tuple (entry dim_time (intmp m) no_entry))) (constant c))
          k
          delta
          t
        ≡ some (t, value (special access)))
      × (eval_cached W
            (suc (suc fuel))
            (at (constant (tuple (entry dim_time (intmp m) no_entry))) (constant c))
            k'
            delta
            t
          ≡ some (t, value c))
unfolding eval_cached Cached.step too_late
time_undemanded W fuel k k' delta t a b m c p q r s = (rw (p, r) refl, rw (q, s) refl)
