-- ===== src/Dimensions/Start.antt =====
-- The constructor of `DimensionTranslator` (src/libs/system/dimtranslator.cpp).
use trans_lucid.Prelude.{
  Bool, true, ◌&&◌, some, List, [], ◌∷◌, ◌≡◌, ◌⊎◌, inl, inr, refl, subst, arith, Option-cases,
}
use trans_lucid.Prelude.Int.{ℤ, negsuc, ltb_ℤ, eqb_ℤ, eqb_ℤ_iff}
use trans_lucid.Dimensions.{
  find, insert, load, Registry, reverse_lookup, same_name, first_names, initial,
}
use trans_lucid.Dimensions.Laws.{find-insert, IsAbove, IsValid}

module _ {K V : Type 0} (eqb : K → K → Bool) where
  insert-known : (k : K) (v y : V) (m : List (K × V)) → find eqb k m ≡ some y → insert eqb k v m ≡ m
  unfolding insert
  insert-known k v y m h = rw (h, insert) refl

  find_of_insert :
      (j k : K) (v x : V) (m : List (K × V))
      → find eqb j (insert eqb k v m) ≡ some x
      → (find eqb j m ≡ some x) ⊎ ((eqb j k ≡ true) × (x ≡ v))
  find_of_insert j k v x m h = elim (Option-cases (find eqb k m)) [
    | inl new ↦ ground (arith, find-insert eqb j k v m new)
    | inr (y, e) ↦ inl (subst (λ n. find eqb j n ≡ some x) (insert-known k v y m e) h)
  ]

abbrev all_above : {T : Type 0} → ℤ → List (T × ℤ) → Bool
all_above next [] = true
all_above next ((v, i) ∷ l) = ltb_ℤ next i && all_above next l

module _ {T : Type 0} (eqb : T → T → Bool) where
  load-IsAbove :
      (l : List (T × ℤ)) (r : Registry T) (next : ℤ)
      → all_above next l ≡ true
      → IsAbove eqb r next
      → IsAbove eqb (load eqb l r) next
  unfolding load
  load-IsAbove [] r next h a = a
  load-IsAbove ((v, i) ∷ l) r next h a = load-IsAbove l _ next (ground arith) (record {
    objects_above =
        λ w j e. ground (arith, find_of_insert eqb w v i j r.objects e, a.objects_above w j);
    reverse_above = λ j w e. ground (
      arith,
      find_of_insert eqb_ℤ j i v w r.reverse (unfold reverse_lookup in e),
      a.reverse_above j w,
      eqb_ℤ_iff j i,
      unfolded j w,
    );
  })
    where
      unfolded : (j : ℤ) (w : T) → find eqb_ℤ j r.reverse ≡ some w → reverse_lookup eqb j r ≡ some w
      unfolded j w e = unfold reverse_lookup in e

  empty-IsAbove : (next : ℤ) → IsAbove eqb (record { objects = []; reverse = [] }) next
  empty-IsAbove next = record {
    objects_above = λ v i h. unfold find in ground arith;
    reverse_above = λ i v h. unfold reverse_lookup find in ground arith;
  }

module _ {C : Type 0} (eqb : C → C → Bool) where
  -- The constructor makes a valid translator.
  pub initial-IsValid : (zero one two : C) → IsValid eqb (initial eqb zero one two)
  unfolding initial
  initial-IsValid zero one two = record {
    names_above =
        load-IsAbove same_name first_names _ (negsuc 20) refl (empty-IsAbove same_name (negsuc 20));
    constants_above =
        load-IsAbove eqb ((zero, negsuc 11) ∷ (one, negsuc 12) ∷ (two, negsuc 13) ∷ []) _
          (negsuc 20) refl (empty-IsAbove eqb (negsuc 20));
  }
