-- ===== src/BestFit/Priorities.antt =====
-- The priorities of equations: the constructor of `ConditionalBestfitWS` and its `operator()` in
-- src/libs/system/bestfit.cpp. What the guard of an equation evaluates to is a field of the equation.
pub mod Highest
use trans_lucid.Prelude.{
  ℕ, Bool, true, false, not, ◌&&◌, Option, none, some, List, [], ◌∷◌, ◌++◌, if◌then◌else◌,
}
use trans_lucid.Prelude.Int.{ℤ, ltb_ℤ, eqb_ℤ}
use trans_lucid.Region.{Region}
use trans_lucid.BestFit.{ConstantOps, Applicable, Choice, region_applicable, bestfit}

-- `CompiledEquationWS`; `region` is `guard.evaluate(k)`, with `none` where that fails, and `holds` is
-- `booleanTrue(guard, k)`.
pub record Equation (C : Type 0) : Type 0 where
  pub priority : ℤ
  pub provenance : ℕ
  pub guarded : Bool
  pub region : (ℤ → C) → Option (Region C)
  pub holds : (ℤ → C) → Bool

-- `m_priorityVars`, from the lowest priority to the highest.
abbrev pub PriorityList : Type 0 → Type 0
PriorityList C = List (ℤ × List (Equation C))

module _ {C : Type 0} where
  -- The body of the constructor's loop.
  unfoldable pub file : Equation C → PriorityList C → PriorityList C
  file e [] = (e.priority, e ∷ []) ∷ []
  file e ((p, es) ∷ m) =
      let later = file e m in
      if ltb_ℤ e.priority p
      then (e.priority, e ∷ []) ∷ (p, es) ∷ m
      else if ltb_ℤ p e.priority
      then (p, es) ∷ later
      else (p, es ++ e ∷ []) ∷ m

  unfoldable pub file_all : List (Equation C) → PriorityList C → PriorityList C
  unfolding file
  file_all [] m = m
  file_all (e ∷ es) m = file_all es (file e m)

module _ {C : Type 0} (ops : ConstantOps C) (look : ℤ → C) where
  -- The test on one equation: the region under which it applies.
  unfoldable pub applies : Equation C → Option (Region C)
  unfolding region_applicable
  applies e =
      if e.guarded
      then (elim (e.region look) [
        | none ↦ none
        | some r ↦ if region_applicable ops look r && e.holds look then some r else none
      ])
      else some []

  -- The loop over the equations of one priority.
  unfoldable pub applicable_at : List (Equation C) → List (Applicable ops)
  unfolding applies
  applicable_at [] = []
  applicable_at (e ∷ es) =
      let rest = applicable_at es in
      elim (applies e) [ none ↦ rest | some r ↦ (r, e.provenance) ∷ rest ]

  abbrev pub is_none : List (Applicable ops) → Bool
  is_none [] = true
  is_none (e ∷ es) = false

  -- The loop over the priorities, from the highest down, until something applies.
  unfoldable pub walk : PriorityList C → List (Applicable ops)
  unfolding applicable_at
  walk [] = []
  walk ((p, es) ∷ m) = let higher = walk m in if is_none higher then applicable_at es else higher

  -- `ConditionalBestfitWS::operator()`
  unfoldable pub evaluate : List (Equation C) → Choice ops
  unfolding walk file_all bestfit
  evaluate es = bestfit ops (walk (file_all es []))
