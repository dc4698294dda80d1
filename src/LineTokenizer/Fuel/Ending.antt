-- ===== src/LineTokenizer/Fuel/Ending.antt =====
-- Outcomes of src/libs/system/line_tokenizer.cpp that are not out of fuel.
use trans_lucid.Prelude.{ℕ, Bool, true, false, if◌then◌else◌}
use trans_lucid.LineTokenizer.Reader.{
  Tokenizer, Outcome, done, end_of_input, new_line_in_string, out_of_fuel, M, then_do,
}
use trans_lucid.LineTokenizer.Fuel.Reads.{Below}

-- Nothing of the outcome is left out.
unfoldable pub Ends {ℓ} : {A : Type ℓ} → Outcome A → Type 0
Ends (done a st) = Unit
Ends (end_of_input st) = Unit
Ends (new_line_in_string st) = Unit
Ends out_of_fuel = ⊥

pub Below-Ends {ℓ} : {A : Type ℓ} (n : ℕ) (r : Outcome A) → Below n r → Ends r
unfolding Ends
Below-Ends n (done a st) b = tt
Below-Ends n (end_of_input st) b = tt
Below-Ends n (new_line_in_string st) b = tt
Below-Ends n out_of_fuel b = b

pub Ends-bind {ℓ κ} :
    {A : Type ℓ} {B : Type κ} (r : Outcome A) (f : A → M B)
    → Ends r
    → ((a : A) (st : Tokenizer) → Ends (f a st))
    → Ends (then_do r f)
unfolding Ends
Ends-bind (done a st) f b h = h a st
Ends-bind (end_of_input st) f b h = tt
Ends-bind (new_line_in_string st) f b h = tt
Ends-bind out_of_fuel f b h = b

pub Ends-if {ℓ} :
    {A : Type ℓ} (b : Bool) (x y : M A) (st : Tokenizer)
    → Ends (x st)
    → Ends (y st)
    → Ends ((if b then x else y) st)
Ends-if true x y st hx hy = hx
Ends-if false x y st hx hy = hy

pub Ends-test {ℓ} :
    {A : Type ℓ} (b : Bool) (x y : Outcome A) → Ends x → Ends y → Ends (if b then x else y)
Ends-test true x y hx hy = hx
Ends-test false x y hx hy = hy
