-- ===== src/LineTokenizer/Fuel.antt =====
-- Every loop of src/libs/system/line_tokenizer.cpp ends: each round reads a character, so the fuel
-- of the model is enough.
mod Reads
mod Loops
mod Ending
mod Outer
use trans_lucid.Prelude.{
  ◌≢◌, subst, ℕ, zero, suc, ◌+◌, ◌<◌, ◌≤◌, ◌≡◌, ◌≢◌, refl, subst, Bool, true, false, List, [], ◌∷◌,
  ◌++◌, length, length-append, get_elem?, Option, none, some, ==_iff, arith, ◌==◌, ◌&&◌,
  if◌then◌else◌, Bool-cases, Option-cases, inl, inr,
}
use trans_lucid.Prelude.Int.{pos, eqb_ℤ}
use trans_lucid.LineTokenizer.Reader.{
  out_of_fuel, Tokenizer, Outcome, done, end_of_input, new_line_in_string, out_of_fuel, M, then_do,
  ◌>>=◌, ◌>>◌, size, set_state, semi, skip_space, scanning, raw, interpreted, append_line, arrive,
  no_char, advance, read_buffer, next_char_common, next_char, next_char_discard, peek, peek_new,
  raise_new_line, pure, get_current,
}
use trans_lucid.LineTokenizer.{
  LineType, line, double_dollar, double_percent, Line, fuelled, skip_spaces, is_space,
  skip_until_newline, pre_line_loop, pre_line_skip, raw_loop, read_raw_string, end_ident,
  interpreted_loop, read_interpreted_string, skip_to_newline, track_ident, at_end, ends_line,
  outer_loop, double_or_line, read_outer, enter, start_of_line, mark_start, finish, next,
}
use Reads.{
  Below, Below-mono, Below-bind, advance-Below, read_buffer-Below, next_char_common-Below,
  next_char_discard-Below, next_char-Below, after_char, after_discard, fuelled-Below, Below-if,
}
use Loops.{
  skip_spaces-Below, skip_until-Below, keep_until-Below, raw_loop-Below, interpreted_loop-Below,
  AtPeek, peek_new-AtPeek, peek-AtPeek, AtPeek-bind, after_slashes, pre_line_loop-Below,
}
use Ending.{Ends, Below-Ends, Ends-bind, Ends-if, Ends-test}
use Outer.{
  read_interpreted_string-Below, read_raw_string-Below, skip_to_newline-Below, size-track_ident,
  again_after, outer_loop-Below,
}

outer_loop-Ends : (c : ℕ) (st : Tokenizer) → Ends (fuelled (λ n. outer_loop n line c) st)
outer_loop-Ends c st =
    Below-Ends (suc (size st)) _
      (fuelled-Below _ (outer_loop-Below line c) (suc (size st)) st (omega arith))

double_or_line-Ends :
    (mark : ℕ) (type : LineType) (st : Tokenizer) → Ends (double_or_line mark type st)
unfolding double_or_line Ends
double_or_line-Ends mark type st =
    Ends-bind (next_char st) _ (Below-Ends (size st) _ (next_char-Below (size st) st (omega arith)))
      (λ d st'. Ends-if (d == mark) _ _ st' tt (outer_loop-Ends d st'))

read_outer-Ends : (st : Tokenizer) → Ends (read_outer st)
unfolding read_outer
read_outer-Ends st =
    Ends-if (st.current_char == b'$') _ _ st (double_or_line-Ends b'$' double_dollar st) (
      Ends-if (st.current_char == b'%') _ _ st (double_or_line-Ends b'%' double_percent st)
        (outer_loop-Ends st.current_char st))

pub read_outer_total : (st : Tokenizer) → read_outer st ≢ out_of_fuel
unfolding Ends
read_outer_total st e = subst Ends e (read_outer-Ends st)

pre_line_skip-Ends : (st : Tokenizer) → Ends (pre_line_skip st)
unfolding pre_line_skip
pre_line_skip-Ends st =
    let n = suc (size st) in
    Below-Ends (suc n) _ (pre_line_loop-Below st.current_char n n st (omega arith) (omega arith))

enter-Ends : (input : List ℕ) (st : Tokenizer) → Ends (enter input st)
unfolding enter Ends
enter-Ends [] st = tt
enter-Ends (c ∷ cs) st = pre_line_skip-Ends (record st { current_char = c })

start_of_line-Ends : (st : Tokenizer) → Ends (start_of_line st)
unfolding start_of_line Ends
start_of_line-Ends st = Ends-test st.first _ _ (enter-Ends st.rest (record st { first = false })) (
    Ends-test (at_end st) _ _ tt (
      Ends-bind (next_char_discard st) _
        (Below-Ends (size st) _ (next_char_discard-Below (size st) st (omega arith)))
        (λ c st'. pre_line_skip-Ends st')))

finish_returns :
    (r : Outcome LineType) → Ends r → (l : Line) × (st' : Tokenizer) × (finish r ≡ done l st')
unfolding finish Ends
finish_returns (done t st) e = (_, _, refl)
finish_returns (end_of_input st) e = (_, _, refl)
finish_returns (new_line_in_string st) e = (_, _, refl)
finish_returns out_of_fuel e = absurd e

-- `next` returns a line from every state of the tokenizer: no loop runs for ever, and the fuel of
-- the model, one round more than there are characters left, is enough for each.
pub next_total : (st : Tokenizer) → (l : Line) × (st' : Tokenizer) × (next st ≡ done l st')
unfolding next mark_start Ends
next_total st =
    let st0 = record st { state = skip_space; line = [] } in
    finish_returns _ (
      Ends-bind (start_of_line st0) _ (start_of_line-Ends st0)
        (λ a st1. Ends-bind (mark_start st1) _ tt (λ a st2. read_outer-Ends st2)))
