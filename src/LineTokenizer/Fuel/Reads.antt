-- ===== src/LineTokenizer/Fuel/Reads.antt =====
-- Reading a character in src/libs/system/line_tokenizer.cpp leaves fewer characters, or ends the input.
use trans_lucid.Prelude.{
  ℕ, suc, ◌+◌, ◌<◌, ◌≤◌, ◌≡◌, refl, Bool, true, false, List, [], ◌∷◌, length, arith, if◌then◌else◌,
}
use trans_lucid.LineTokenizer.Reader.{
  Tokenizer, Outcome, done, end_of_input, new_line_in_string, out_of_fuel, M, then_do, size, arrive,
  advance, read_buffer, next_char_common, next_char, next_char_discard,
}
use trans_lucid.LineTokenizer.{fuelled}

-- What a function returns with leaves fewer than `n` characters.
abbrev pub Below {ℓ} : {A : Type ℓ} → ℕ → Outcome A → Type 0
Below n (done a st) = size st < n
Below n (end_of_input st) = Unit
Below n (new_line_in_string st) = Unit
Below n out_of_fuel = ⊥

pub Below-mono {ℓ} : {A : Type ℓ} (m n : ℕ) (r : Outcome A) → m ≤ n → Below m r → Below n r
Below-mono m n (done a st) h b = omega arith
Below-mono m n (end_of_input st) h b = tt
Below-mono m n (new_line_in_string st) h b = tt
Below-mono m n out_of_fuel h b = b

pub Below-bind {ℓ κ} :
    {A : Type ℓ} {B : Type κ} (m n : ℕ) (r : Outcome A) (f : A → M B)
    → Below m r
    → ((a : A) (st : Tokenizer) → size st < m → Below n (f a st))
    → Below n (then_do r f)
Below-bind m n (done a st) f b h = h a st b
Below-bind m n (end_of_input st) f b h = tt
Below-bind m n (new_line_in_string st) f b h = tt
Below-bind m n out_of_fuel f b h = b

pub advance-Below :
    (n : ℕ) (rest : List ℕ) (st : Tokenizer)
    → length rest + length st.peek_buffer < suc n
    → Below n (advance rest st)
unfolding advance
advance-Below n [] st h = tt
advance-Below n (x ∷ []) st h = tt
advance-Below n (x ∷ c ∷ rest) st h = ground arith

pub read_buffer-Below :
    (n : ℕ) (buffer : List ℕ) (st : Tokenizer)
    → length st.rest + length buffer < suc n
    → buffer ≡ st.peek_buffer
    → Below n (read_buffer buffer st)
read_buffer-Below n [] st h e = unfold read_buffer in advance-Below n st.rest st (rw (← e) h)
read_buffer-Below n (c ∷ buffer) st h e = unfold read_buffer arrive in ground arith

pub next_char_common-Below :
    (n : ℕ) (st : Tokenizer) → size st < suc n → Below n (next_char_common st)
next_char_common-Below n st h =
    unfold next_char_common in read_buffer-Below n st.peek_buffer st h refl

pub next_char_discard-Below :
    (n : ℕ) (st : Tokenizer) → size st < suc n → Below n (next_char_discard st)
next_char_discard-Below n st h = unfold next_char_discard in next_char_common-Below n st h

pub next_char-Below : (n : ℕ) (st : Tokenizer) → size st < suc n → Below n (next_char st)
next_char-Below n st h =
    unfold next_char in
    Below-bind n n (next_char_common st) _ (next_char_common-Below n st h) (λ a st' b. b)

-- A step that reads a character, and then what is fine with fewer characters.
pub after_char :
    {B : Type 0} (n : ℕ) (st : Tokenizer) (f : ℕ → M B)
    → size st < suc n
    → ((c : ℕ) (st' : Tokenizer) → size st' < n → Below n (f c st'))
    → Below (suc n) (then_do (next_char st) f)
after_char n st f h k =
    Below-mono n (suc n) _ (omega arith)
      (Below-bind n n (next_char st) f (next_char-Below n st h) k)

pub after_discard :
    {B : Type 0} (n : ℕ) (st : Tokenizer) (f : ℕ → M B)
    → size st < suc n
    → ((c : ℕ) (st' : Tokenizer) → size st' < n → Below n (f c st'))
    → Below (suc n) (then_do (next_char_discard st) f)
after_discard n st f h k =
    Below-mono n (suc n) _ (omega arith)
      (Below-bind n n (next_char_discard st) f (next_char_discard-Below n st h) k)

-- A loop that is fine on enough fuel is fine with the fuel that it is given.
pub fuelled-Below :
    {A : Type 0} (loop : ℕ → M A)
    → ((f n : ℕ) (st : Tokenizer) → size st < n → n ≤ f → Below n (loop f st))
    → (n : ℕ) (st : Tokenizer) → size st < n
    → Below n (fuelled loop st)
fuelled-Below loop h n st b =
    Below-mono (suc (size st)) n _ b
      (h (suc (size st)) (suc (size st)) st (omega arith) (omega arith))

-- Both branches of a test.
pub Below-if :
    {A : Type 0} (b : Bool) (n : ℕ) (x y : M A) (st : Tokenizer)
    → (b ≡ true → Below n (x st))
    → (b ≡ false → Below n (y st))
    → Below n ((if b then x else y) st)
Below-if true n x y st hx hy = hx refl
Below-if false n x y st hx hy = hy refl
