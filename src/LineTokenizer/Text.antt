-- ===== src/LineTokenizer/Text.antt =====
-- The text of a line: `readOuter` of src/libs/system/line_tokenizer.cpp, with all that it calls,
-- adds the characters that it reads to the line, and loses none.
use mathlib.Core.List.{append-nil, append_assoc}
use trans_lucid.Prelude.{
  ℕ, zero, suc, ◌≡◌, ◌≢◌, refl, sym, ap, ◌∙◌, Bool, true, false, List, [], ◌∷◌, ◌++◌, drop,
  if◌then◌else◌, ◌==◌, ◌&&◌, arith, Bool-cases, inl, inr,
}
use trans_lucid.Prelude.Int.{pos, eqb_ℤ}
use trans_lucid.LineTokenizer.Reader.{
  Tokenizer, Outcome, done, end_of_input, new_line_in_string, out_of_fuel, M, then_do, arrive,
  advance, read_buffer, next_char_common, next_char, semi, raw, interpreted,
}
use trans_lucid.LineTokenizer.Fuel.{read_outer_total}
use trans_lucid.LineTokenizer.{
  LineType, line, double_dollar, double_percent, skip_until_newline, skip_to_newline, raw_loop,
  read_raw_string, interpreted_loop, read_interpreted_string, outer_loop, double_or_line,
  read_outer, track_ident, end_ident, at_end,
}

-- The characters after the current one: those that were peeked at, and the input behind.
abbrev pub to_come : Tokenizer → List ℕ
to_come st = st.peek_buffer ++ drop 1 st.rest

-- From `st` to `st'` the characters `read` came in, and were added to the line.
pub record Took (st st' : Tokenizer) : Type 0 where
  pub read : List ℕ
  pub line_is : st'.line ≡ st.line ++ read
  pub to_come_is : to_come st ≡ read ++ to_come st'

Took-refl : (st st' : Tokenizer) → st'.line ≡ st.line → to_come st ≡ to_come st' → Took st st'
Took-refl st st' h k = record { read = []; line_is = h ∙ sym (append-nil st.line); to_come_is = k }

Took-trans : {a b c : Tokenizer} → Took a b → Took b c → Took a c
Took-trans p q = record {
  read = p.read ++ q.read;
  line_is = q.line_is ∙ ap (λ l. l ++ q.read) p.line_is ∙ append_assoc _ p.read q.read;
  to_come_is =
      p.to_come_is ∙ ap (λ l. p.read ++ l) q.to_come_is ∙ sym (append_assoc p.read q.read _);
}

-- However a function ends, by its result or by an exception.
abbrev pub Keeps {ℓ} : {A : Type ℓ} → Tokenizer → Outcome A → Type 0
Keeps st (done a st') = Took st st'
Keeps st (end_of_input st') = Took st st'
Keeps st (new_line_in_string st') = Took st st'
Keeps st out_of_fuel = Unit

Keeps-trans {ℓ} : {A : Type ℓ} (a b : Tokenizer) (r : Outcome A) → Took a b → Keeps b r → Keeps a r
Keeps-trans a b (done x c) p q = Took-trans p q
Keeps-trans a b (end_of_input c) p q = Took-trans p q
Keeps-trans a b (new_line_in_string c) p q = Took-trans p q
Keeps-trans a b out_of_fuel p q = tt

Keeps-bind {ℓ κ} :
    {A : Type ℓ} {B : Type κ} (st : Tokenizer) (r : Outcome A) (f : A → M B)
    → Keeps st r
    → ((a : A) (st' : Tokenizer) → Keeps st' (f a st'))
    → Keeps st (then_do r f)
Keeps-bind st (done a st') f h k = Keeps-trans st st' (f a st') h (k a st')
Keeps-bind st (end_of_input st') f h k = h
Keeps-bind st (new_line_in_string st') f h k = h
Keeps-bind st out_of_fuel f h k = tt

Keeps-if {ℓ} :
    {A : Type ℓ} (b : Bool) (x y : M A) (st : Tokenizer)
    → Keeps st (x st)
    → Keeps st (y st)
    → Keeps st ((if b then x else y) st)
Keeps-if true x y st hx hy = hx
Keeps-if false x y st hx hy = hy

-- The character read, before it is added to the line.
Arrived : Tokenizer → Outcome ℕ → Type 0
Arrived st (done c st') = (st'.line ≡ st.line) × (to_come st ≡ c ∷ to_come st')
Arrived st (end_of_input st') = (st'.line ≡ st.line) × (to_come st ≡ to_come st')
Arrived st _ = ⊥

advance-Arrived :
    (rest : List ℕ) (st : Tokenizer)
    → rest ≡ st.rest
    → [] ≡ st.peek_buffer
    → Arrived st (advance rest st)
unfolding advance arrive Arrived
advance-Arrived [] st h k = (refl, refl)
advance-Arrived (x ∷ []) st h k = ground (arith)
advance-Arrived (x ∷ c ∷ rest) st h k = ground (arith)

read_buffer-Arrived :
    (buffer : List ℕ) (st : Tokenizer)
    → buffer ≡ st.peek_buffer
    → Arrived st (read_buffer buffer st)
unfolding read_buffer Arrived
read_buffer-Arrived [] st h = advance-Arrived st.rest st refl h
read_buffer-Arrived (c ∷ buffer) st h = unfold arrive in ground arith

-- `nextChar` adds the character that it reads.
Arrived-Keeps :
    (st : Tokenizer) (r : Outcome ℕ)
    → Arrived st r
    → Keeps st (then_do r (λ c st'. done c (record st' { line = st'.line ++ c ∷ [] })))
unfolding Arrived
Arrived-Keeps st (done c st') h = record {
  read = c ∷ [];
  line_is = ap (λ l. l ++ c ∷ []) h.0;
  to_come_is = h.1;
}
Arrived-Keeps st (end_of_input st') h = Took-refl st st' h.0 h.1
Arrived-Keeps st (new_line_in_string st') h = absurd h
Arrived-Keeps st out_of_fuel h = absurd h

next_char-Keeps : (st : Tokenizer) → Keeps st (next_char st)
unfolding next_char next_char_common
next_char-Keeps st = Arrived-Keeps st _ (read_buffer-Arrived st.peek_buffer st refl)

after_char-Keeps :
    {B : Type 0} (st : Tokenizer) (f : ℕ → M B)
    → ((c : ℕ) (st' : Tokenizer) → Keeps st' (f c st'))
    → Keeps st (then_do (next_char st) f)
after_char-Keeps st f h = Keeps-bind st (next_char st) f (next_char-Keeps st) h

-- A change of the state that leaves the line and the input alone.
from_same {ℓ} :
    {A : Type ℓ} (st st' : Tokenizer) (r : Outcome A)
    → st'.line ≡ st.line
    → to_come st ≡ to_come st'
    → Keeps st' r
    → Keeps st r
from_same st st' r h k = Keeps-trans st st' r (Took-refl st st' h k)

keep_until-Keeps : (f c : ℕ) (st : Tokenizer) → Keeps st (skip_until_newline next_char f c st)
unfolding skip_until_newline
keep_until-Keeps zero c st = tt
keep_until-Keeps (suc f) c st =
    Keeps-if (c == b'\n') _ _ st (Took-refl st st refl refl)
      (after_char-Keeps st _ (λ c' st'. keep_until-Keeps f c' st'))

raw_loop-Keeps : (f c : ℕ) (st : Tokenizer) → Keeps st (raw_loop f c st)
unfolding raw_loop
raw_loop-Keeps zero c st = tt
raw_loop-Keeps (suc f) c st =
    Keeps-if (c == b'`') _ _ st (Took-refl _ _ refl refl)
      (after_char-Keeps st _ (λ c' st'. raw_loop-Keeps f c' st'))

interpreted_loop-Keeps : (f c : ℕ) (st : Tokenizer) → Keeps st (interpreted_loop f c st)
unfolding interpreted_loop
interpreted_loop-Keeps zero c st = tt
interpreted_loop-Keeps (suc f) c st = Keeps-if (c == b'"') _ _ st (Took-refl _ _ refl refl) (
    Keeps-if (c == b'\\') _ _ st
      (after_char-Keeps st _
        (λ c' st'. after_char-Keeps st' _ (λ d st2. interpreted_loop-Keeps f d st2)))
      (Keeps-if (c == b'\n') _ _ st (Took-refl _ _ refl refl)
        (after_char-Keeps st _ (λ c' st'. interpreted_loop-Keeps f c' st'))))

read_raw_string-Keeps : (st : Tokenizer) → Keeps st (read_raw_string st)
unfolding read_raw_string
read_raw_string-Keeps st =
    let st' = record st { state = raw } in
    from_same st st' _ refl refl (after_char-Keeps st' _ (λ c st2. raw_loop-Keeps _ c st2))

read_interpreted_string-Keeps : (st : Tokenizer) → Keeps st (read_interpreted_string st)
unfolding read_interpreted_string
read_interpreted_string-Keeps st =
    let st' = record st { state = interpreted } in
    from_same st st' _ refl refl (after_char-Keeps st' _ (λ c st2. interpreted_loop-Keeps _ c st2))

skip_to_newline-Keeps : (st : Tokenizer) → Keeps st (skip_to_newline st)
unfolding skip_to_newline
skip_to_newline-Keeps st = after_char-Keeps st _ (λ c st2. keep_until-Keeps _ c st2)

line-track_ident : (c : ℕ) (st : Tokenizer) → (track_ident c st).line ≡ st.line
line-track_ident c st = unfold track_ident end_ident in ground arith

to_come-track_ident : (c : ℕ) (st : Tokenizer) → to_come st ≡ to_come (track_ident c st)
to_come-track_ident c st = unfold track_ident end_ident in ground arith

outer_loop-Keeps : (type : LineType) (f c : ℕ) (st : Tokenizer) → Keeps st (outer_loop f type c st)
unfolding outer_loop
outer_loop-Keeps type zero c st = tt
outer_loop-Keeps type (suc f) c st =
    let rest : (c' : ℕ) (st' : Tokenizer) → Keeps st' (outer_loop f type c' st') =
      λ c' st'. outer_loop-Keeps type f c' st' in
    let again : (st' : Tokenizer)
        → Keeps st' (then_do (next_char st') (λ c'. outer_loop f type c')) =
      λ st'. after_char-Keeps st' _ rest in
    let st' = track_ident c st in
    elim (Bool-cases (at_end st)) [
      | inl over ↦ rw over (Took-refl st st refl refl)
      | inr left ↦ rw left (
          from_same st st' _ (line-track_ident c st) (to_come-track_ident c st) (
            Keeps-if (c == b';') _ _ st'
              (let st0 = record st' { state = semi } in
                from_same st' st0 _ refl refl (
                  after_char-Keeps st0 _ (λ d st2.
                    Keeps-if (d == b';' && eqb_ℤ st2.where_depth (pos 0)) _ _ st2
                      (Took-refl _ _ refl refl) (again st2))))
              (Keeps-if (c == b'/') _ _ st'
                (after_char-Keeps st' _ (λ d st2.
                  Keeps-if (d == b'/') _ _ st2
                    (Keeps-bind st2 _ _ (skip_to_newline-Keeps st2) (λ a st3. again st3))
                    (again st2)))
                (Keeps-if (c == b'"') _ _ st'
                  (Keeps-bind st' _ _ (read_interpreted_string-Keeps st') (λ a st3. again st3))
                  (Keeps-if (c == b'`') _ _ st'
                    (Keeps-bind st' _ _ (read_raw_string-Keeps st') (λ a st3. again st3))
                    (again st'))))))
    ]

double_or_line-Keeps :
    (mark : ℕ) (type : LineType) (st : Tokenizer) → Keeps st (double_or_line mark type st)
unfolding double_or_line
double_or_line-Keeps mark type st = after_char-Keeps st _ (λ d st'.
    Keeps-if (d == mark) _ _ st' (Took-refl st' st' refl refl) (outer_loop-Keeps line _ d st'))

read_outer-Keeps : (st : Tokenizer) → Keeps st (read_outer st)
unfolding read_outer
read_outer-Keeps st =
    Keeps-if (st.current_char == b'$') _ _ st (double_or_line-Keeps b'$' double_dollar st) (
      Keeps-if (st.current_char == b'%') _ _ st (double_or_line-Keeps b'%' double_percent st)
        (outer_loop-Keeps line _ st.current_char st))

-- `readOuter` ends, and adds the characters that it reads to the line, in their order and with none
-- left out or put in, whether it returns or throws at the end of the input or at a line break in a
-- string: what is new in the line, followed by the characters still to come, is what was to come
-- before.
pub read_outer_lem : (st : Tokenizer) → Keeps st (read_outer st) × (read_outer st ≢ out_of_fuel)
read_outer_lem st = (read_outer-Keeps st, read_outer_total st)
