-- ===== src/OrderedSet.antt =====
-- std::set by an `operator<`, as the sources use it: the list of its elements, in order. Two elements
-- are the same when neither is below the other.
use trans_lucid.Prelude.{
  Bool, true, false, not, ◌&&◌, ◌||◌, List, [], ◌∷◌, ◌≡◌, ◌↔◌, refl, if◌then◌else◌, arith,
  Bool-cases, inl, inr,
}
use trans_lucid.Ordered.{StrictOrder}

module _ {A : Type 0} (lt : A → A → Bool) where
  abbrev pub same : A → A → Bool
  same a b = not (lt a b) && not (lt b a)

  unfoldable pub insert : A → List A → List A
  insert a [] = a ∷ []
  insert a (b ∷ l) = if lt a b then a ∷ b ∷ l else if lt b a then b ∷ insert a l else b ∷ l

  -- Whether `find` finds the element.
  unfoldable pub has : A → List A → Bool
  has a [] = false
  has a (b ∷ l) = same a b || has a l

  unfoldable pub erase : A → List A → List A
  erase a [] = []
  erase a (b ∷ l) = let rest = erase a l in if same a b then rest else b ∷ rest

  unfoldable pub insert_all : List A → List A → List A
  unfolding insert
  insert_all [] l = l
  insert_all (a ∷ more) l = insert_all more (insert a l)

  unfoldable pub erase_all : List A → List A → List A
  unfolding erase
  erase_all [] l = l
  erase_all (a ∷ more) l = erase_all more (erase a l)

  -- std::set_intersection
  unfoldable pub intersect : List A → List A → List A
  unfolding has
  intersect [] m = []
  intersect (a ∷ l) m = let rest = intersect l m in if has a m then a ∷ rest else rest

module _ {A : Type 0} {lt : A → A → Bool} (o : StrictOrder lt) where
  pub same_iff : (a b : A) → (same lt a b ≡ true) ↔ (a ≡ b)
  same_iff a b = ground (arith, o.irrefl a, o.total a b)

  pub has-insert : (a b : A) (l : List A) → has lt a (insert lt b l) ≡ (same lt a b || has lt a l)
  unfolding has insert
  has-insert a b [] = refl
  has-insert a b (c ∷ l) = ground (arith, has-insert a b l, o.total b c)

  pub has-erase :
      (a b : A) (l : List A) → has lt a (erase lt b l) ≡ (not (same lt a b) && has lt a l)
  unfolding has erase
  has-erase a b [] = ground arith
  has-erase a b (c ∷ l) = ground (arith, has-erase a b l, same_iff b c, same_iff a c, same_iff a b)

  pub has-insert_all :
      (a : A) (m l : List A) → has lt a (insert_all lt m l) ≡ (has lt a m || has lt a l)
  unfolding has insert_all
  has-insert_all a [] l = refl
  has-insert_all a (b ∷ m) l = ground (arith, has-insert_all a m (insert lt b l), has-insert a b l)

  pub has-erase_all :
      (a : A) (m l : List A) → has lt a (erase_all lt m l) ≡ (not (has lt a m) && has lt a l)
  unfolding has erase_all
  has-erase_all a [] l = ground arith
  has-erase_all a (b ∷ m) l = ground (arith, has-erase_all a m (erase lt b l), has-erase a b l)

  pub has-intersect :
      (a : A) (l m : List A) → has lt a (intersect lt l m) ≡ (has lt a l && has lt a m)
  unfolding has intersect
  has-intersect a [] m = refl
  has-intersect a (b ∷ l) m = elim (Bool-cases (same lt a b)) [
    | inl e ↦ rw ((same_iff a b).0 e) (ground (arith, has-intersect b l m, o.irrefl b))
    | inr e ↦ ground (arith, has-intersect a l m, e)
  ]
