-- ===== src/BestFit/Examples.antt =====
-- Equations over integers and ranges.
use trans_lucid.Prelude.{false, ℕ, true, ◌≡◌, ◌≢◌, ◌⊎◌, refl, some, List, [], ◌∷◌, get_elem?}
use trans_lucid.Prelude.Int.{ℤ, pos, ltb_ℤ, to_int16}
use trans_lucid.Region.{Region, is, is_in, imp}
use trans_lucid.Union.{int, range, simple_refines, same_simple}
use trans_lucid.BestFit.{
  Applicable, region_applicable, value_inside, value_smaller, region_subset, subset_loop,
  below_others, best_from, reverse_onto, count_latest, run, undefined, newest, bestfit,
}
use trans_lucid.BestFit.Values.{Value, simple, is_plain, value_ops, same_value, value_refines}
use trans_lucid.BestFit.Plain.{same_value_sound, value_refines_trans}
use trans_lucid.BestFit.Subset.{
  agree, agree_at, all_plain, all_int16, region_subset_unchecked, region_subset_sound,
}
use trans_lucid.BestFit.Priorities.{
  Equation, file, file_all, applies, applicable_at, is_none, walk, evaluate,
}
use trans_lucid.BestFit.Priorities.Highest.{of_priority, evaluate_lem}
use trans_lucid.BestFit.Chosen.{bestfit_lem}

abbrev at : ℕ → Value
at n = simple (int (pos n))

abbrev between : ℕ → ℕ → Value
between a b = simple (range (record { lower = some (pos a); upper = some (pos b) }))

-- f @ [d is 3], and f @ [d in 1..9], of the times 0 and 1.
abbrev three : Region Value
three = (pos 1, (is, at 3)) ∷ []

abbrev up_to_nine : Region Value
up_to_nine = (pos 1, (is_in, between 1 9)) ∷ []

abbrev equations : List (Applicable value_ops)
equations = (up_to_nine, 0) ∷ (three, 1) ∷ []

abbrev look : ℤ → Value
look d = at 3

chosen : bestfit value_ops equations ≡ run 1
unfolding bestfit best_from below_others newest count_latest reverse_onto region_subset subset_loop
    to_int16 value_smaller same_value value_refines
chosen = refl

bestfit_lem_example :
    (e : Applicable value_ops) × (get_elem? equations 1 ≡ some e)
    × ((m : ℕ) (f : Applicable value_ops)
        → get_elem? equations m ≡ some f
        → m ≢ 1
        → region_subset value_ops true e.0 f.0 ≡ true)
bestfit_lem_example = bestfit_lem value_ops equations 1 chosen

region_subset_unchecked_example :
    (region_subset value_ops true ((pos 1, (is, at 30)) ∷ []) ((pos 1, (is_in, between 1 9)) ∷ [])
      ≡ true)
    × (region_subset value_ops true ((pos 1, (is, at 30)) ∷ []) ((pos 1, (imp, between 1 9)) ∷ [])
        ≡ true)
region_subset_unchecked_example = region_subset_unchecked value_ops (pos 1) (at 30) (between 1 9)

inside : region_subset value_ops true three up_to_nine ≡ true
unfolding region_subset to_int16
inside = refl

agrees : agree value_ops three up_to_nine ≡ true
unfolding agree agree_at value_inside value_refines simple_refines
agrees = refl

three_plain : all_plain value_ops is_plain three ≡ true
unfolding all_plain
three_plain = refl

nine_plain : all_plain value_ops is_plain up_to_nine ≡ true
unfolding all_plain
nine_plain = refl

three_fits : all_int16 value_ops three ≡ true
unfolding all_int16
three_fits = refl

nine_fits : all_int16 value_ops up_to_nine ≡ true
unfolding all_int16
nine_fits = refl

three_applies : region_applicable value_ops look three ≡ true
unfolding region_applicable value_inside same_value same_simple
three_applies = refl

region_subset_sound_example : region_applicable value_ops look up_to_nine ≡ true
region_subset_sound_example =
    region_subset_sound value_ops is_plain same_value_sound value_refines_trans look three
      up_to_nine inside agrees three_plain nine_plain three_fits nine_fits three_applies

-- f @ [d in 1..9] of priority 5, before f @ [d is 3] of priority 0, and one that does not apply of priority 7.
abbrev equation : ℤ → Region Value → Equation Value
equation p r = record {
  priority = p;
  provenance = 0;
  guarded = true;
  region = λ k. some r;
  holds = λ k. true;
}

abbrev of_all : List (Equation Value)
of_all =
    equation (pos 0) three
    ∷ equation (pos 5) up_to_nine
    ∷ equation (pos 7) ((pos 1, (is, at 8)) ∷ [])
    ∷ []

fifth : walk value_ops look (file_all of_all []) ≡ (up_to_nine, 0) ∷ []
unfolding walk file_all file applicable_at applies region_applicable value_inside value_refines
    simple_refines same_value same_simple
fifth = refl

evaluate_lem_example :
    ((evaluate value_ops look of_all ≡ undefined)
      × ((q : ℤ) → applicable_at value_ops look (of_priority q of_all) ≡ []))
    ⊎ ((p : ℤ) × (evaluate value_ops look of_all
          ≡ bestfit value_ops (applicable_at value_ops look (of_priority p of_all)))
        × (is_none value_ops look (applicable_at value_ops look (of_priority p of_all)) ≡ false)
        × ((q : ℤ) → ltb_ℤ p q ≡ true → applicable_at value_ops look (of_priority q of_all) ≡ []))
evaluate_lem_example = evaluate_lem value_ops look of_all
