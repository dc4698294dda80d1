-- ===== src/Ordered.antt =====
-- What the ordered containers of the sources ask of an `operator<`, and the loop by which
-- `Region::operator<` (src/libs/system/region.cpp) and `Tuple::operator<` (src/libs/system/types.cpp)
-- compare two sequences of entries.
use trans_lucid.Prelude.{
  Bool, true, false, Option, none, some, List, [], ◌∷◌, ◌≡◌, refl, arith, if◌then◌else◌, ltb,
}
use trans_lucid.Prelude.Int.{ltb_ℤ}

-- A strict total order: the contract of `operator<` on the keys of a std::map or std::set.
pub record StrictOrder {A : Type 0} (lt : A → A → Bool) : Type 0 where
  pub irrefl : (a : A) → lt a a ≡ false
  pub trans : (a b c : A) → lt a b ≡ true → lt b c ≡ true → lt a c ≡ true
  pub total : (a b : A) → lt a b ≡ false → lt b a ≡ false → a ≡ b

pub ℤ_order : StrictOrder ltb_ℤ
ℤ_order = record {
  irrefl = λ a. ground arith;
  trans = λ a b c h k. ground arith;
  total = λ a b h k. ground arith;
}

pub ltb_order : StrictOrder ltb
ltb_order = record {
  irrefl = λ a. ground arith;
  trans = λ a b c h k. ground arith;
  total = λ a b h k. ground arith;
}

module _ {A : Type 0} (lt : A → A → Bool) where
  -- `if (a < b) return true; else if (b < a) return false;`, and `none` to go on.
  abbrev pub settle : A → A → Option Bool → Option Bool
  settle a b rest = if lt a b then some true else if lt b a then some false else rest

-- The loop over the entries, and what is returned at the end of the shorter sequence.
module _ {A : Type 0} (step : A → A → Option Bool) where
  unfoldable pub lex : List A → List A → Bool
  lex [] [] = false
  lex [] (y ∷ ys) = true
  lex (x ∷ xs) [] = false
  lex (x ∷ xs) (y ∷ ys) = elim (step x y) [ none ↦ lex xs ys | some answer ↦ answer ]

-- What the test on two entries has to satisfy for `lex` to be a strict total order.
pub record ThreeWay {A : Type 0} (step : A → A → Option Bool) : Type 0 where
  pub self : (a : A) → step a a ≡ none
  pub same : (a b : A) → step a b ≡ none → a ≡ b
  pub flip : (a b : A) → step a b ≡ some false → step b a ≡ some true
  pub trans : (a b c : A) → step a b ≡ some true → step b c ≡ some true → step a c ≡ some true

module _ {A : Type 0} {step : A → A → Option Bool} (t : ThreeWay step) where
  lex_irrefl : (xs : List A) → lex step xs xs ≡ false
  unfolding lex
  lex_irrefl [] = refl
  lex_irrefl (x ∷ xs) = ground (arith, t.self x, lex_irrefl xs)

  lex_trans :
      (xs ys zs : List A) → lex step xs ys ≡ true → lex step ys zs ≡ true → lex step xs zs ≡ true
  unfolding lex
  lex_trans [] [] zs h k = k
  lex_trans [] (y ∷ ys) [] h k = k
  lex_trans [] (y ∷ ys) (z ∷ zs) h k = refl
  lex_trans (x ∷ xs) [] zs h k = absurd (cc)
  lex_trans (x ∷ xs) (y ∷ ys) [] h k = k
  lex_trans (x ∷ xs) (y ∷ ys) (z ∷ zs) h k =
      ground (arith, lex_trans xs ys zs, t.trans x y z, t.same x y, t.same y z)

  lex_total : (xs ys : List A) → lex step xs ys ≡ false → lex step ys xs ≡ false → xs ≡ ys
  unfolding lex
  lex_total [] [] h k = refl
  lex_total [] (y ∷ ys) h k = absurd (cc)
  lex_total (x ∷ xs) [] h k = absurd (cc)
  lex_total (x ∷ xs) (y ∷ ys) h k =
      ground (arith, lex_total xs ys, t.flip x y, t.same x y, t.same y x, t.self x)

  pub lex_order : StrictOrder (lex step)
  lex_order = record { irrefl = lex_irrefl; trans = lex_trans; total = lex_total }

-- The innermost test: nothing is left to compare.
pub settle-ThreeWay :
    {A : Type 0} {lt : A → A → Bool} (o : StrictOrder lt) → ThreeWay (λ a b. settle lt a b none)
settle-ThreeWay {A} {lt} o = record {
  self = λ a. ground (arith, o.irrefl a);
  same = λ a b h. ground (arith, o.total a b);
  flip = λ a b h. ground (arith, o.total a b, o.irrefl a, o.trans a b a);
  trans = λ a b c h k. ground (arith, o.trans a b c);
}

-- Entries that are compared part by part are compared three ways.
module _ {A B : Type 0} {lt : A → A → Bool} (o : StrictOrder lt) {step : B → B → Option Bool}
    (t : ThreeWay step) where
  abbrev pub settle_pair : A × B → A × B → Option Bool
  settle_pair p q = settle lt p.0 q.0 (step p.1 q.1)

  pub settle_pair-ThreeWay : ThreeWay settle_pair
  settle_pair-ThreeWay = record {
    self = λ p. ground (arith, o.irrefl p.0, t.self p.1);
    same = λ p q h. ground (arith, o.total p.0 q.0, t.same p.1 q.1);
    flip =
        λ p q h. ground (arith, t.flip p.1 q.1, o.total p.0 q.0, o.irrefl p.0, o.trans p.0 q.0 p.0);
    trans = λ p q r h k. ground (
      arith,
      o.trans p.0 q.0 r.0,
      o.trans r.0 p.0 q.0,
      o.trans q.0 r.0 p.0,
      o.total p.0 q.0,
      o.total q.0 r.0,
      t.trans p.1 q.1 r.1,
    );
  }
