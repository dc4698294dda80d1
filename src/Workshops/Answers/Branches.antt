-- ===== src/Workshops/Answers/Branches.antt =====
-- The workshops of src/libs/system/eval_workshops.cpp that look at one value after the other: each
-- answers well if those that it holds do.
use trans_lucid.Prelude.{
  ℕ, if◌then◌else◌, true, false, ◌≡◌, refl, Option, none, some, List, [], ◌∷◌, Bool-cases, inl, inr,
}
use Prim.Native.Nat.{max}
use trans_lucid.Prelude.Int.{ℤ}
use trans_lucid.Context.{Context}
use trans_lucid.Workshops.{
  Value, special, bool, dimension, Node, World, type_error, access, undefined, dimension_index,
  as_tuple, as_intension,
}
use trans_lucid.Workshops.Delta.{Delta, contains, perturbed}
use trans_lucid.Workshops.Uncached.{ordinate, within, too_late, lookup_context}
use trans_lucid.Workshops.Uncached
use trans_lucid.Workshops.Cached.{Answer, value, demand, Timed, create_demand, dim_set}
use trans_lucid.Workshops.Cached
use trans_lucid.Workshops.Answers.{
  Answers, Answers->>=, Answers-demand, AllMissing-dim_set, NonEmpty-dim_set, Answers-perturbed,
}

module _ {X : Type 0} where
  Answers-choose :
      (delta : Delta) (c : Value X) (t : ℕ) (o o' : Option (Value X)) (r r' : Option (Timed X))
      → Answers delta o r
      → Answers delta o' r'
      → Answers delta
          (Uncached.choose c some o o')
          (Cached.choose (value c) (λ a. some (t, a)) r r')
  Answers-choose delta (bool true) t o o' r r' h h' = h
  Answers-choose delta (bool false) t o o' r r' h h' = h'
  Answers-choose delta (special s) t o o' r r' h h' = refl
  Answers-choose delta c t o o' r r' h h' = refl

  lookup_context_lem :
      (W : World X) (c : Value X) (k : Context (Value X))
      → lookup_context W c k ≡ ordinate k (dimension_index W c)
  unfolding lookup_context dimension_index
  lookup_context_lem W (dimension d) k = refl
  lookup_context_lem W c k = refl

  Answers-lookup :
      (delta : Delta) (d : ℤ) (t : ℕ) (k : Context (Value X))
      → Answers delta (some (ordinate k d)) (
          if contains delta d
          then some (t, value (ordinate k d))
          else some (t, create_demand (d ∷ [])))
  Answers-lookup delta d t k = elim (Bool-cases (contains delta d)) [
    | inl e ↦ rw e refl
    | inr e ↦ rw e (NonEmpty-dim_set d [], AllMissing-dim_set delta (d ∷ []) (e, tt))
  ]

module _ {X : Type 0} (W : World X) (ev : Node X → Context (Value X) → Option (Value X))
    (evc : Node X → Context (Value X) → Delta → ℕ → Option (Timed X))
    (h : (n : Node X) (k : Context (Value X)) (delta : Delta) (t : ℕ)
      → Answers delta (ev n k) (evc n k delta t)) where
  pub ident_ws-Answers :
      (name : List ℕ) (k : Context (Value X)) (delta : Delta) (t : ℕ)
      → Answers delta (Uncached.ident_ws W ev name k) (Cached.ident_ws W evc name k delta t)
  unfolding Uncached.ident_ws Cached.ident_ws
  ident_ws-Answers name k delta t = bound (W.idents name)
    where
      bound :
          (o : Option (Node X))
          → Answers delta
              (elim o [ none ↦ some (special undefined) | some e ↦ ev e k ])
              (elim o [ none ↦ some (t, value (special undefined)) | some e ↦ evc e k delta t ])
      bound none = refl
      bound (some e) = h e k delta t

  pub hash_ws-Answers :
      (e : Node X) (k : Context (Value X)) (delta : Delta) (t : ℕ)
      → Answers delta (Uncached.hash_ws W ev e k) (Cached.hash_ws W evc e k delta t)
  unfolding Uncached.hash_ws Cached.hash_ws
  hash_ws-Answers e k delta t =
      Answers->>= delta (ev e k) (evc e k delta t) _ _ (h e k delta t)
        (λ c t1. rw (lookup_context_lem W c k) (Answers-lookup delta (dimension_index W c) t1 k))
        (λ c t1 ds p q. (p, q))

  elsif_loop-Answers :
      (elsifs : List (Node X × Node X)) (e : Node X) (k : Context (Value X)) (delta : Delta)
      (t u : ℕ)
      → Answers delta
          (Uncached.elsif_loop W ev elsifs e k)
          (Cached.elsif_loop W evc elsifs e k delta t u)
  unfolding Uncached.elsif_loop Cached.elsif_loop
  elsif_loop-Answers [] e k delta t u = h e k delta u
  elsif_loop-Answers ((c, b) ∷ more) e k delta t u =
      let rest = λ (t1 : ℕ). elsif_loop-Answers more e k delta t (max u t1) in
      Answers->>= delta (ev c k) (evc c k delta t) _ _ (h c k delta t)
        (λ v t1. Answers-choose delta v t1 _ _ _ _ (h b k delta t1) (rest t1))
        (λ v t1 ds p q. Answers-demand delta _ t1 ds p q)

  pub if_ws-Answers :
      (c b : Node X) (elsifs : List (Node X × Node X)) (e : Node X) (k : Context (Value X))
      (delta : Delta) (t : ℕ)
      → Answers delta
          (Uncached.if_ws W ev c b elsifs e k)
          (Cached.if_ws W evc c b elsifs e k delta t)
  unfolding Uncached.if_ws Cached.if_ws
  if_ws-Answers c b elsifs e k delta t =
      Answers->>= delta (ev c k) (evc c k delta t) _ _ (h c k delta t)
        (λ v t1.
          Answers-choose delta v t1 _ _ _ _ (h b k delta t1)
            (elsif_loop-Answers elsifs e k delta t1 t1))
        (λ v t1 ds p q. Answers-demand delta _ t1 ds p q)

  -- A workshop in the context and the set that a tuple perturbs.
  pub within-Answers :
      (e : Node X) (change : List (ℤ × Value X)) (k : Context (Value X)) (delta : Delta) (t : ℕ)
      → Answers delta (ev e (within change k)) (evc e (within change k) (perturbed change delta) t)
  within-Answers e change k delta t =
      Answers-perturbed change delta _ _ (h e (within change k) (perturbed change delta) t)

  at-Answers :
      (o : Option (List (ℤ × Value X))) (e2 : Node X) (k : Context (Value X)) (delta : Delta)
      (t : ℕ)
      → Answers delta
          (elim o [
            | none ↦ some (special type_error)
            | some c ↦ if too_late W c k then some (special access) else ev e2 (within c k)
          ])
          (Cached.at_change W evc o e2 k delta t)
  at-Answers none e2 k delta t = refl
  at-Answers (some c) e2 k delta t = elim (Bool-cases (too_late W c k)) [
    | inl p ↦ rw p refl
    | inr p ↦ rw p (within-Answers e2 c k delta t)
  ]

  pub at_ws-Answers :
      (e1 e2 : Node X) (k : Context (Value X)) (delta : Delta) (t : ℕ)
      → Answers delta (Uncached.at_ws W ev e1 e2 k) (Cached.at_ws W evc e1 e2 k delta t)
  unfolding Uncached.at_ws Cached.at_ws
  at_ws-Answers e1 e2 k delta t =
      Answers->>= delta (ev e1 k) (evc e1 k delta t) _ _ (h e1 k delta t)
        (λ v t1. at-Answers (as_tuple v) e2 k delta t1)
        (λ v t1 ds p q. Answers-demand delta _ t1 ds p q)

  intension-Answers :
      (o : Option (Node X × List (ℤ × Value X))) (k : Context (Value X)) (delta : Delta) (t : ℕ)
      → Answers delta
          (elim o [
            | none ↦ some (special type_error)
            | some (body, bound) ↦ ev body (within bound k)
          ])
          (Cached.open_intension W evc o k delta t)
  intension-Answers none k delta t = refl
  intension-Answers (some (body, bound)) k delta t = within-Answers body bound k delta t

  pub eval_inten_ws-Answers :
      (e : Node X) (k : Context (Value X)) (delta : Delta) (t : ℕ)
      → Answers delta (Uncached.eval_inten_ws W ev e k) (Cached.eval_inten_ws W evc e k delta t)
  unfolding Uncached.eval_inten_ws Cached.eval_inten_ws
  eval_inten_ws-Answers e k delta t =
      Answers->>= delta (ev e k) (evc e k delta t) _ _ (h e k delta t)
        (λ v t1. intension-Answers (as_intension v) k delta t)
        (λ v t1 ds p q. Answers-demand delta _ t1 ds p q)
