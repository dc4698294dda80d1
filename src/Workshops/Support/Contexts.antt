-- ===== src/Workshops/Support/Contexts.antt =====
-- Contexts (src/libs/system/context.cpp) that give some dimensions the same ordinates.
use trans_lucid.Prelude.{
  Bool, true, ◌||◌, ◌≡◌, ◌∙◌, refl, sym, ap, List, [], ◌∷◌, if◌then◌else◌, arith, Bool-cases, inl,
  inr,
}
use trans_lucid.Prelude.Int.{ℤ, eqb_ℤ}
use trans_lucid.Context.{Context, perturb, lookup, perturb_tuple, top_or}
use trans_lucid.Context.Stacks.{
  IsValid, stack_of, perturb-IsValid, stack_of-perturb, lookup-stack_of,
}
use trans_lucid.Workshops.Delta.{has_key}

module _ {V : Type 0} (all : V) where
  -- What `lookup` reads after `perturb`, on a valid context.
  pub lookup-perturb :
      (d e : ℤ) (c : V) (k : Context V)
      → IsValid all k
      → lookup all (perturb all d c k) e ≡ (if eqb_ℤ d e then c else lookup all k e)
  lookup-perturb d e c k v =
      lookup-stack_of all (perturb all d c k) e (perturb-IsValid all d k v c)
      ∙ ap (top_or all) (stack_of-perturb all d k v c e)
      ∙ by_test
    where
      by_test :
          top_or all (if eqb_ℤ d e then c ∷ stack_of k e else stack_of k e)
          ≡ (if eqb_ℤ d e then c else lookup all k e)
      by_test = elim (Bool-cases (eqb_ℤ d e)) [
        | inl same ↦ rw same refl
        | inr other ↦ rw other (sym (lookup-stack_of all k e v))
      ]

  -- Two valid contexts that agree on the dimensions of `Seen`.
  pub record AgreeOn (Seen : ℤ → Bool) (k k' : Context V) : Type 0 where
    pub valid : IsValid all k
    pub valid' : IsValid all k'
    pub same : (e : ℤ) → Seen e ≡ true → lookup all k e ≡ lookup all k' e

  AgreeOn-perturb :
      (Seen : ℤ → Bool) (d : ℤ) (c : V) (k k' : Context V)
      → AgreeOn Seen k k'
      → AgreeOn (λ e. eqb_ℤ e d || Seen e) (perturb all d c k) (perturb all d c k')
  AgreeOn-perturb Seen d c k k' a = record {
    valid = perturb-IsValid all d k a.valid c;
    valid' = perturb-IsValid all d k' a.valid' c;
    same = λ e s.
        lookup-perturb d e c k a.valid ∙ by_test e s ∙ sym (lookup-perturb d e c k' a.valid');
  }
    where
      by_test :
          (e : ℤ)
          → (eqb_ℤ e d || Seen e) ≡ true
          → (if eqb_ℤ d e then c else lookup all k e) ≡ (if eqb_ℤ d e then c else lookup all k' e)
      by_test e s = ground (arith, a.same e)

  -- A tuple perturbs both, and they agree on its dimensions too.
  pub AgreeOn-perturb_tuple :
      (t : List (ℤ × V)) (Seen Seen' : ℤ → Bool) (k k' : Context V)
      → AgreeOn Seen k k'
      → ((e : ℤ) → Seen' e ≡ true → (has_key e t || Seen e) ≡ true)
      → AgreeOn Seen' (perturb_tuple all t k) (perturb_tuple all t k')
  unfolding perturb_tuple
  AgreeOn-perturb_tuple [] Seen Seen' k k' a h = record {
    valid = a.valid;
    valid' = a.valid';
    same = λ e s. a.same e (h e s);
  }
  AgreeOn-perturb_tuple ((d, c) ∷ t) Seen Seen' k k' a h =
      AgreeOn-perturb_tuple t (λ e. eqb_ℤ e d || Seen e) Seen' (perturb all d c k)
        (perturb all d c k') (AgreeOn-perturb Seen d c k k' a) (λ e s. ground (arith, h e s))
