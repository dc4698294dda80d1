-- ===== src/LineTokenizer/Fuel/Outer.antt =====
-- `readOuter` of src/libs/system/line_tokenizer.cpp reads on.
use trans_lucid.Prelude.{ℕ, zero, suc, ◌<◌, ◌≤◌, ◌≡◌, arith, ◌==◌, ◌&&◌, Bool-cases, inl, inr}
use trans_lucid.Prelude.Int.{pos, eqb_ℤ}
use trans_lucid.LineTokenizer.Reader.{
  Tokenizer, Outcome, then_do, ◌>>=◌, size, semi, raw, interpreted, next_char,
}
use trans_lucid.LineTokenizer.{
  LineType, read_raw_string, end_ident, read_interpreted_string, skip_to_newline, track_ident,
  at_end, outer_loop,
}
use trans_lucid.LineTokenizer.Fuel.Reads.{
  Below, Below-mono, Below-bind, next_char-Below, after_char, fuelled-Below, Below-if,
}
use trans_lucid.LineTokenizer.Fuel.Loops.{keep_until-Below, raw_loop-Below, interpreted_loop-Below}

-- `readInterpretedString`, `readRawString` and `skipToNewline` read at least one character.
pub read_interpreted_string-Below :
    (n : ℕ) (st : Tokenizer) → size st < suc n → Below n (read_interpreted_string st)
unfolding read_interpreted_string
read_interpreted_string-Below n st h =
    Below-bind n n _ _ (next_char-Below n (record st { state = interpreted }) h)
      (λ c st' less. fuelled-Below _ (interpreted_loop-Below c) n st' less)

pub read_raw_string-Below :
    (n : ℕ) (st : Tokenizer) → size st < suc n → Below n (read_raw_string st)
unfolding read_raw_string
read_raw_string-Below n st h =
    Below-bind n n _ _ (next_char-Below n (record st { state = raw }) h)
      (λ c st' less. fuelled-Below _ (raw_loop-Below c) n st' less)

pub skip_to_newline-Below :
    (n : ℕ) (st : Tokenizer) → size st < suc n → Below n (skip_to_newline st)
unfolding skip_to_newline
skip_to_newline-Below n st h =
    Below-bind n n _ _ (next_char-Below n st h)
      (λ c st' less. fuelled-Below _ (keep_until-Below c) n st' less)

pub size-track_ident : (c : ℕ) (st : Tokenizer) → size (track_ident c st) ≡ size st
size-track_ident c st = unfold track_ident end_ident in ground arith

-- A turn of `readOuter` that reads something by `r`, and then goes on.
pub again_after {ℓ} :
    {A : Type ℓ} (n : ℕ) (f : ℕ) (type : LineType) (r : Outcome A)
    → Below n r
    → ((c : ℕ) (st : Tokenizer) → size st < n → Below n (outer_loop f type c st))
    → Below (suc n) (then_do r (λ _. next_char >>= λ c. outer_loop f type c))
again_after n f type r b h = Below-mono n (suc n) _ (omega arith) (
    Below-bind n n r _ b
      (λ a st less. Below-bind n n (next_char st) _ (next_char-Below n st (omega arith)) h))

pub outer_loop-Below :
    (type : LineType) (c f n : ℕ) (st : Tokenizer)
    → size st < n
    → n ≤ f
    → Below n (outer_loop f type c st)
unfolding outer_loop
outer_loop-Below type c zero n st h b = absurd (omega arith)
outer_loop-Below type c (suc f) zero st h b = absurd (omega arith)
outer_loop-Below type c (suc f) (suc n) st h b =
    let rest : (c' : ℕ) (st' : Tokenizer) → size st' < n → Below n (outer_loop f type c' st') =
      λ c' st' less. outer_loop-Below type c' f n st' less (omega arith) in
    let st' = track_ident c st in
    let h' : size st' < suc n = rw (size-track_ident c st) h in
    let on : (st2 : Tokenizer)
        → size st2 < n
        → Below n (then_do (next_char st2) (λ c'. outer_loop f type c')) =
      λ st2 less. Below-bind n n (next_char st2) _ (next_char-Below n st2 (omega arith)) rest in
    let more : Below (suc n) (then_do (next_char st') (λ c'. outer_loop f type c')) =
      after_char n st' _ h' rest in
    elim (Bool-cases (at_end st)) [
      | inl over ↦ rw over h
      | inr left ↦ rw left (
          Below-if (c == b';') (suc n) _ _ st'
            (λ _.
              after_char n (record st' { state = semi }) _ h'
                (λ d st2 less.
                  Below-if (d == b';' && eqb_ℤ st2.where_depth (pos 0)) n _ _ st2 (λ _. less)
                    (λ _. on st2 less)))
            (λ _.
              Below-if (c == b'/') (suc n) _ _ st'
                (λ _. after_char n st' _ h' (λ d st2 less.
                  Below-if (d == b'/') n _ _ st2
                    (λ _.
                      Below-bind n n _ _ (skip_to_newline-Below n st2 (omega arith))
                        (λ a st3 less3. on st3 less3))
                    (λ _. on st2 less)))
                (λ _.
                  Below-if (c == b'"') (suc n) _ _ st'
                    (λ _. again_after n f type _ (read_interpreted_string-Below n st' h') rest)
                    (λ _.
                      Below-if (c == b'`') (suc n) _ _ st'
                        (λ _. again_after n f type _ (read_raw_string-Below n st' h') rest)
                        (λ _. more)))))
    ]
