-- ===== src/LineTokenizer/Fuel/Loops.antt =====
-- The loops of src/libs/system/line_tokenizer.cpp over spaces, comments and strings read on.
use trans_lucid.Prelude.{
  ℕ, zero, suc, ◌+◌, ◌<◌, ◌≤◌, ◌≡◌, List, [], ◌∷◌, length, length-append, get_elem?, Option, none,
  some, ==_iff, arith, ◌==◌,
}
use trans_lucid.LineTokenizer.Reader.{
  Tokenizer, Outcome, done, end_of_input, new_line_in_string, out_of_fuel, M, then_do, ◌>>=◌, size,
  no_char, next_char, next_char_discard, peek, peek_new,
}
use trans_lucid.LineTokenizer.{
  fuelled, skip_spaces, is_space, skip_until_newline, pre_line_loop, raw_loop, interpreted_loop,
}
use trans_lucid.LineTokenizer.Fuel.Reads.{
  Below, Below-mono, Below-bind, next_char_discard-Below, next_char-Below, after_char,
  after_discard, fuelled-Below, Below-if,
}

-- The loops that read one character in a round.
pub skip_spaces-Below :
    (c f n : ℕ) (st : Tokenizer) → size st < n → n ≤ f → Below n (skip_spaces f c st)
unfolding skip_spaces
skip_spaces-Below c zero n st h b = absurd (omega arith)
skip_spaces-Below c (suc f) zero st h b = absurd (omega arith)
skip_spaces-Below c (suc f) (suc n) st h b =
    Below-if (is_space c) (suc n) _ _ st
      (λ _. after_discard n st _ h (λ c' st' less. skip_spaces-Below c' f n st' less (omega arith)))
      (λ _. h)

pub skip_until-Below :
    (c f n : ℕ) (st : Tokenizer)
    → size st < n
    → n ≤ f
    → Below n (skip_until_newline next_char_discard f c st)
unfolding skip_until_newline
skip_until-Below c zero n st h b = absurd (omega arith)
skip_until-Below c (suc f) zero st h b = absurd (omega arith)
skip_until-Below c (suc f) (suc n) st h b =
    Below-if (c == b'\n') (suc n) _ _ st (λ _. h)
      (λ _. after_discard n st _ h (λ c' st' less. skip_until-Below c' f n st' less (omega arith)))

pub keep_until-Below :
    (c f n : ℕ) (st : Tokenizer)
    → size st < n
    → n ≤ f
    → Below n (skip_until_newline next_char f c st)
unfolding skip_until_newline
keep_until-Below c zero n st h b = absurd (omega arith)
keep_until-Below c (suc f) zero st h b = absurd (omega arith)
keep_until-Below c (suc f) (suc n) st h b =
    Below-if (c == b'\n') (suc n) _ _ st (λ _. h)
      (λ _. after_char n st _ h (λ c' st' less. keep_until-Below c' f n st' less (omega arith)))

pub raw_loop-Below : (c f n : ℕ) (st : Tokenizer) → size st < n → n ≤ f → Below n (raw_loop f c st)
unfolding raw_loop
raw_loop-Below c zero n st h b = absurd (omega arith)
raw_loop-Below c (suc f) zero st h b = absurd (omega arith)
raw_loop-Below c (suc f) (suc n) st h b =
    Below-if (c == b'`') (suc n) _ _ st (λ _. h)
      (λ _. after_char n st _ h (λ c' st' less. raw_loop-Below c' f n st' less (omega arith)))

pub interpreted_loop-Below :
    (c f n : ℕ) (st : Tokenizer) → size st < n → n ≤ f → Below n (interpreted_loop f c st)
unfolding interpreted_loop
interpreted_loop-Below c zero n st h b = absurd (omega arith)
interpreted_loop-Below c (suc f) zero st h b = absurd (omega arith)
interpreted_loop-Below c (suc f) (suc n) st h b =
    Below-if (c == b'"') (suc n) _ _ st (λ _. h)
      (λ _.
        Below-if (c == b'\\') (suc n) _ _ st
          (λ _. after_char n st _ h (λ c' st' less.
            Below-bind n n (next_char st') _ (next_char-Below n st' (omega arith))
              (λ c2 st2 less2. interpreted_loop-Below c2 f n st2 less2 (omega arith))))
          (λ _.
            Below-if (c == b'\n') (suc n) _ _ st (λ _. tt)
              (λ _.
                after_char n st _ h
                  (λ c' st' less. interpreted_loop-Below c' f n st' less (omega arith)))))

-- A peek leaves no more characters, unless it stores the end of the input.
pub AtPeek : ℕ → Outcome ℕ → Type 0
AtPeek n (done p st) = (p ≡ b'/' → size st < n) × (size st < suc n)
AtPeek n _ = ⊥

pub peek_new-AtPeek :
    (n : ℕ) (rest : List ℕ) (st : Tokenizer)
    → length rest + length st.peek_buffer < n
    → AtPeek n (peek_new rest st)
unfolding AtPeek
peek_new-AtPeek n [] st h =
    unfold peek_new in ground (arith, length-append st.peek_buffer (no_char ∷ []))
peek_new-AtPeek n (x ∷ []) st h =
    unfold peek_new in ground (arith, length-append st.peek_buffer (no_char ∷ []))
peek_new-AtPeek n (x ∷ c ∷ rest) st h =
    unfold peek_new in ground (arith, length-append st.peek_buffer (c ∷ []))

pub peek-AtPeek : (n : ℕ) (st : Tokenizer) → size st < n → AtPeek n (peek st)
unfolding AtPeek peek
peek-AtPeek n st h = go (get_elem? st.peek_buffer st.peeked)
  where
    go :
        (o : Option ℕ)
        → AtPeek n (elim o [
          | some c ↦ done c (record st { peeked = st.peeked + 1 })
          | none ↦ peek_new st.rest st
        ])
    go (some c) = (λ _. h, omega arith)
    go none = peek_new-AtPeek n st.rest st h

pub AtPeek-bind :
    {B : Type 0} (n : ℕ) (r : Outcome ℕ) (f : ℕ → M B)
    → AtPeek n r
    → ((p : ℕ) (st : Tokenizer)
        → (p ≡ b'/' → size st < n)
        → size st < suc n
        → Below (suc n) (f p st))
    → Below (suc n) (then_do r f)
unfolding AtPeek
AtPeek-bind n (done p st) f h k = k p st h.0 h.1
AtPeek-bind n (end_of_input st) f h k = absurd h
AtPeek-bind n (new_line_in_string st) f h k = absurd h
AtPeek-bind n out_of_fuel f h k = absurd h

-- The rest of a comment, and what comes after it.
pub after_slashes :
    (n : ℕ) (st : Tokenizer) (g : ℕ → M (Unit {0}))
    → size st < n
    → ((e k : ℕ) (st' : Tokenizer) → size st' < k → k < n → Below (suc k) (g e st'))
    → Below (suc n) (
        then_do (next_char_discard st) (λ _. next_char_discard >>= λ d.
        fuelled (λ k. skip_until_newline next_char_discard k d) >>= λ e. g e))
after_slashes n st g h more =
    let k = size st in
    Below-mono (suc k) (suc n) _ (omega arith) (
      Below-bind k (suc k) (next_char_discard st) _ (next_char_discard-Below k st (omega arith))
        (λ c3 st3 h3.
          Below-bind k (suc k) (next_char_discard st3) _
            (next_char_discard-Below k st3 (omega arith))
            (λ d st4 h4.
              Below-bind k (suc k) _ _ (fuelled-Below _ (skip_until-Below d) k st4 h4)
                (λ e st5 h5. more e k st5 h5 h))))

pub pre_line_loop-Below :
    (c f n : ℕ) (st : Tokenizer) → size st < n → n ≤ f → Below (suc n) (pre_line_loop f c st)
unfolding pre_line_loop
pre_line_loop-Below c zero n st h b = absurd (omega arith)
pre_line_loop-Below c (suc f) n st h b =
    Below-bind n (suc n) _ _ (fuelled-Below _ (skip_spaces-Below c) n st h) (λ d st1 h1.
      Below-if (d == b'/') (suc n) _ _ st1
        (λ _. AtPeek-bind n (peek st1) _ (peek-AtPeek n st1 h1) (λ p st2 same h2.
          Below-if (p == b'/') (suc n) _ _ st2
            (λ e.
              after_slashes n st2 _ (same ((==_iff p b'/').0 e))
                (λ e3 k st3 h3 less. pre_line_loop-Below e3 f k st3 h3 (omega arith)))
            (λ _. h2)))
        (λ _. omega arith))
