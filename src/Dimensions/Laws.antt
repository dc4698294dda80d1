-- ===== src/Dimensions/Laws.antt =====
-- The indices that a `DimensionTranslator` (src/libs/system/dimtranslator.cpp) gives out.
use trans_lucid.Prelude.{
  ℕ, Bool, true, none, some, List, [], ◌∷◌, ◌≡◌, ◌≢◌, ◌↔◌, refl, sym, subst, ap, arith,
  if◌then◌else◌, Option-cases, inl, inr,
}
use trans_lucid.Prelude.Int.{ℤ, pos, ◌<ℤ◌, eqb_ℤ, eqb_ℤ_iff, -ℤ_parts}
use trans_lucid.Dimensions.{
  find, insert, Registry, get_index, reverse_lookup, Translator, same_name, decrement, lookup_name,
}

decrement-lt : (i : ℤ) → decrement i <ℤ i
unfolding decrement
decrement-lt i = ground (arith, -ℤ_parts i (pos 1))

module _ {K V : Type 0} (eqb : K → K → Bool) where
  pub find-insert :
      (j k : K) (v : V) (m : List (K × V))
      → find eqb k m ≡ none
      → find eqb j (insert eqb k v m) ≡ (if eqb j k then some v else find eqb j m)
  unfolding insert
  find-insert j k v m h = rw (h, insert) (unfold find in refl)

module _ {T : Type 0} (eqb : T → T → Bool) where
  -- Every index that the registry has is above the next one.
  pub record IsAbove (r : Registry T) (next : ℤ) : Type 0 where
    pub objects_above : (v : T) (i : ℤ) → find eqb v r.objects ≡ some i → next <ℤ i
    pub reverse_above : (i : ℤ) (v : T) → reverse_lookup eqb i r ≡ some v → next <ℤ i

  pub IsAbove-decrement : (r : Registry T) (next : ℤ) → IsAbove r next → IsAbove r (decrement next)
  IsAbove-decrement r next a = record {
    objects_above = λ v i h. ground (arith, decrement-lt next, a.objects_above v i h);
    reverse_above = λ i v h. ground (arith, decrement-lt next, a.reverse_above i v h);
  }

  -- The registry after the first demand for `v`.
  abbrev extended : T → ℤ → Registry T → Registry T
  extended v i r = record {
    objects = insert eqb v i r.objects;
    reverse = insert eqb_ℤ i v r.reverse;
  }

  no_reverse : (r : Registry T) (next : ℤ) → IsAbove r next → find eqb_ℤ next r.reverse ≡ none
  no_reverse r next a = elim (Option-cases (find eqb_ℤ next r.reverse)) [
    | inl e ↦ e
    | inr (v, e) ↦ ground (arith, a.reverse_above next v (unfold reverse_lookup in e))
  ]

  get_index-known :
      (v : T) (r : Registry T) (next i : ℤ)
      → find eqb v r.objects ≡ some i
      → get_index eqb decrement v r next ≡ (i, r, next)
  unfolding get_index
  get_index-known v r next i h = rw (h, get_index) refl

  get_index-new :
      (v : T) (r : Registry T) (next : ℤ)
      → find eqb v r.objects ≡ none
      → get_index eqb decrement v r next ≡ (next, extended v next r, decrement next)
  unfolding get_index
  get_index-new v r next h = rw (h, get_index) refl

  module _ (eqb_iff : (a b : T) → (eqb a b ≡ true) ↔ (a ≡ b)) (v : T) (r : Registry T) (next : ℤ)
      (a : IsAbove r next) (new : find eqb v r.objects ≡ none) where
    objects-extended :
        (w : T)
        → find eqb w (extended v next r).objects
          ≡ (if eqb w v then some next else find eqb w r.objects)
    objects-extended w = find-insert eqb w v next r.objects new

    reverse-extended :
        (i : ℤ)
        → reverse_lookup eqb i (extended v next r)
          ≡ (if eqb_ℤ i next then some v else reverse_lookup eqb i r)
    unfolding reverse_lookup
    reverse-extended i = find-insert eqb_ℤ i next v r.reverse (no_reverse r next a)

    extended-IsAbove : IsAbove (extended v next r) (decrement next)
    extended-IsAbove = record {
      objects_above =
          λ w i h. ground (arith, decrement-lt next, objects-extended w, a.objects_above w i);
      reverse_above = λ i w h.
          ground
            (arith, decrement-lt next, reverse-extended i, a.reverse_above i w, eqb_ℤ_iff i next);
    }

module _ {C : Type 0} (eqb : C → C → Bool) where
  -- Both registries are above the index that they share.
  pub record IsValid (t : Translator C) : Type 0 where
    pub names_above : IsAbove same_name t.named t.next_index
    pub constants_above : IsAbove eqb t.constants t.next_index

same_name_iff : (s t : List ℕ) → (same_name s t ≡ true) ↔ (s ≡ t)
unfolding same_name
same_name_iff [] [] = (λ h. refl, λ h. refl)
same_name_iff [] (b ∷ t) = ground arith
same_name_iff (a ∷ s) [] = ground arith
same_name_iff (a ∷ s) (b ∷ t) = ground (arith, same_name_iff s t)

module _ {C : Type 0} (eqb : C → C → Bool) where
  -- What is known of a name's index before and after it is looked up.
  Looked : List ℕ → Translator C → ℤ × Translator C → Type 0
  Looked name t (i, t') =
      IsValid eqb t'
      × (lookup_name name t' ≡ (i, t'))
      × ((other : List ℕ)
          → other ≢ name
          → find same_name other t'.named.objects ≡ find same_name other t.named.objects)
      × (find same_name name t.named.objects ≡ none
          → (reverse_lookup same_name i t'.named ≡ some name)
            × ((other : List ℕ) → find same_name other t.named.objects ≢ some i)
            × ((c : C) → find eqb c t.constants.objects ≢ some i))

  lookup_name-known :
      (name : List ℕ) (t : Translator C) (i : ℤ)
      → find same_name name t.named.objects ≡ some i
      → lookup_name name t ≡ (i, t)
  unfolding lookup_name
  lookup_name-known name t i h =
      ap (λ (j, r, next). (j, record t { named = r; next_index = next }))
        (get_index-known same_name name t.named t.next_index i h)

  abbrev with_name : List ℕ → Translator C → Translator C
  with_name name t = record t {
    named = extended same_name name t.next_index t.named;
    next_index = decrement t.next_index;
  }

  lookup_name-new :
      (name : List ℕ) (t : Translator C)
      → find same_name name t.named.objects ≡ none
      → lookup_name name t ≡ (t.next_index, with_name name t)
  unfolding lookup_name
  lookup_name-new name t h =
      ap (λ (j, r, next). (j, record t { named = r; next_index = next }))
        (get_index-new same_name name t.named t.next_index h)

  known-Looked :
      (name : List ℕ) (t : Translator C) (i : ℤ)
      → IsValid eqb t
      → find same_name name t.named.objects ≡ some i
      → Looked name t (i, t)
  unfolding Looked
  known-Looked name t i v h =
      (v, lookup_name-known name t i h, λ other e. refl, λ new. ground (arith, h, new))

  new-Looked :
      (name : List ℕ) (t : Translator C)
      → IsValid eqb t
      → find same_name name t.named.objects ≡ none
      → Looked name t (t.next_index, with_name name t)
  unfolding Looked
  new-Looked name t v new =
      let at =
        objects-extended same_name same_name_iff name t.named t.next_index v.names_above new in
      let back =
        reverse-extended same_name same_name_iff name t.named t.next_index v.names_above new in
      (
        record {
          names_above =
              extended-IsAbove same_name same_name_iff name t.named t.next_index v.names_above new;
          constants_above = IsAbove-decrement eqb t.constants t.next_index v.constants_above;
        },
        lookup_name-known name (with_name name t) t.next_index
            (ground (arith, at name, same_name_iff name name)),
        λ other e. ground (arith, at other, same_name_iff other name),
        λ n. (
          ground (arith, back t.next_index),
          λ other e. ground (arith, v.names_above.objects_above other t.next_index e),
          λ c e. ground (arith, v.constants_above.objects_above c t.next_index e),
        ),
      )

  lookup_name-Looked :
      (name : List ℕ) (t : Translator C) → IsValid eqb t → Looked name t (lookup_name name t)
  lookup_name-Looked name t v = elim (Option-cases (find same_name name t.named.objects)) [
    | inr (i, known) ↦
        subst (Looked name t) (sym (lookup_name-known name t i known))
          (known-Looked name t i v known)
    | inl new ↦ subst (Looked name t) (sym (lookup_name-new name t new)) (new-Looked name t v new)
  ]

  -- On a valid translator, `lookup` of a name keeps it valid, gives the same index when it is asked
  -- again, and moves no other name. A name that had no index gets one that neither a name nor a constant
  -- had, and the reverse lookup of that index gives the name.
  pub lookup_name_lem :
      (name : List ℕ) (t t' : Translator C) (i : ℤ)
      → IsValid eqb t
      → lookup_name name t ≡ (i, t')
      → IsValid eqb t'
        × (lookup_name name t' ≡ (i, t'))
        × ((other : List ℕ)
            → other ≢ name
            → find same_name other t'.named.objects ≡ find same_name other t.named.objects)
        × (find same_name name t.named.objects ≡ none
            → (reverse_lookup same_name i t'.named ≡ some name)
              × ((other : List ℕ) → find same_name other t.named.objects ≢ some i)
              × ((c : C) → find eqb c t.constants.objects ≢ some i))
  unfolding Looked
  lookup_name_lem name t t' i v e = subst (Looked name t) e (lookup_name-Looked name t v)
