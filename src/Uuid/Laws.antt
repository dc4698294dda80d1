-- ===== src/Uuid/Laws.antt =====
-- Parsing and printing of UUIDs, src/libs/system/uuid.cpp, take each other back.
use Prim.Native.Nat.{bit_and, bit_or}
use mathlib.Core.List.{append_assoc, append-nil}
use trans_lucid.Prelude.{
  ℕ, zero, suc, ◌+◌, ◌-◌, ◌*◌, ◌/◌, ◌%◌, ◌^◌, ◌<◌, ◌≤◌, ◌⊎◌, ◌≡◌, ◌↔◌, refl, sym, ap, ◌∙◌, Bool,
  true, false, not, none, some, List, [], ◌∷◌, ◌++◌, if◌then◌else◌, leb, ◌==◌, ==_iff, length,
  arith, Bool-cases, inl, inr,
}
use trans_lucid.Uuid.{append_char, digit_value, parse_loop, parse_uuid, print_loop, print_uuid}

-- Two functions on bytes agree on the first `n` bytes.
same_table : (f g : ℕ → ℕ) → ℕ → Bool
same_table f g zero = true
same_table f g (suc n) = if f n == g n then same_table f g n else false

same_table-at : (f g : ℕ → ℕ) (byte n : ℕ) → byte < n → same_table f g n ≡ true → f byte ≡ g byte
unfolding same_table
same_table-at f g byte zero below same = absurd (omega arith)
same_table-at f g byte (suc n) below same =
    ground (arith, same_table-at f g byte n, ==_iff (f n) (g n))

or_table : same_table (λ x. bit_or (x / 16 * 16) (x % 16)) (λ x. x) 256 ≡ true
unfolding same_table
or_table = refl

low_table : same_table (λ x. bit_and x 0xf) (λ x. x % 16) 256 ≡ true
unfolding same_table
low_table = refl

join_digits : (x : ℕ) → x < 256 → bit_or (x / 16 * 16) (x % 16) ≡ x
join_digits x h = same_table-at _ _ x 256 h or_table

low_digit : (x : ℕ) → x < 256 → bit_and x 0xf ≡ x % 16
low_digit x h = same_table-at _ _ x 256 h low_table

-- The digit of a value below sixteen.
digit : ℕ → ℕ
digit v = if leb v 9 then v + b'0' else v - 10 + b'A'

append_char_lem : (v : ℕ) (r : List ℕ) → append_char v r ≡ r ++ digit v ∷ []
unfolding append_char digit
append_char_lem v r = ground arith

digit_value-digit : (v : ℕ) → v < 16 → digit_value (digit v) ≡ some v
unfolding digit_value digit
digit_value-digit v h = ground arith

digit-digit_value : (c v : ℕ) → digit_value c ≡ some v → (digit v ≡ c) × (v < 16)
unfolding digit_value digit
digit-digit_value c v h = ground arith

-- The text of a UUID, without the accumulator.
abbrev text_of : List ℕ → List ℕ
text_of [] = []
text_of (v ∷ u) = digit (v / 16) ∷ digit (v % 16) ∷ text_of u

abbrev pub AllBytes : List ℕ → Type 0
AllBytes [] = Unit
AllBytes (v ∷ u) = (v < 256) × AllBytes u

high_digit : (v : ℕ) → v < 256 → v / 16 % 16 ≡ v / 16
high_digit v h = omega arith

print_loop-text_of : (u result : List ℕ) → AllBytes u → print_loop u result ≡ result ++ text_of u
unfolding print_loop
print_loop-text_of [] result h = sym (append-nil result)
print_loop-text_of (v ∷ u) result h =
    rw (low_digit v h.0, low_digit (v / 16) (omega arith))
      (print_loop-text_of u _ h.1 ∙ rw (high_digit v h.0) (simp (append_char_lem, append_assoc)))

div_lt : (v : ℕ) → v < 256 → v / 16 < 16
div_lt v h = omega arith

length-text_of : (u : List ℕ) → length (text_of u) ≡ length u * 2
length-text_of [] = refl
length-text_of (v ∷ u) = omega (arith, length-text_of u)

pair_value : (v : ℕ) → v < 256 → bit_or (v / 16 * 2 ^ 4 % 256) (v % 16) ≡ v
pair_value v h =
    let fits : v / 16 * 16 % 256 ≡ v / 16 * 16 = omega arith in rw fits (join_digits v h)

parse_loop_pair :
    (c d : ℕ) {a b : ℕ} (text written : List ℕ) (current : ℕ)
    → digit_value c ≡ some a
    → digit_value d ≡ some b
    → parse_loop (c ∷ d ∷ text) true current written
      ≡ parse_loop text true 0 (written ++ bit_or (a * 2 ^ 4 % 256) b ∷ [])
unfolding parse_loop
parse_loop_pair c d text written current p q = ground arith

-- A run that succeeds found two digits.
parse_loop_pair_inv :
    {result : List ℕ} (c d : ℕ) (text written : List ℕ)
    → parse_loop (c ∷ d ∷ text) true 0 written ≡ some result
    → (a : ℕ) × (b : ℕ) × (digit_value c ≡ some a) × (digit_value d ≡ some b)
unfolding parse_loop
parse_loop_pair_inv c d text written h = ground arith

parse_loop-text_of :
    (u : List ℕ) (current : ℕ) (written : List ℕ)
    → AllBytes u
    → parse_loop (text_of u) true current written ≡ some (written ++ u)
parse_loop-text_of [] current written h = rw append-nil (unfold parse_loop in refl)
parse_loop-text_of (v ∷ u) current written h =
    parse_loop_pair _ _ (text_of u) written current (digit_value-digit (v / 16) (div_lt v h.0))
      (digit_value-digit (v % 16) (omega arith))
    ∙ rw (pair_value v h.0) (parse_loop-text_of u 0 (written ++ v ∷ []) h.1 ∙ rw append_assoc)

-- What the loop read from an even number of digits.
record Read (text written result : List ℕ) : Type 0 where
  bytes : List ℕ
  result_is : result ≡ written ++ bytes
  text_is : text ≡ text_of bytes
  in_range : AllBytes bytes

digit_pair :
    (h l : ℕ)
    → h < 16
    → l < 16
    → (bit_or (h * 2 ^ 4 % 256) l ≡ h * 16 + l) × ((h * 16 + l) / 16 ≡ h) × ((h * 16 + l) % 16 ≡ l)
digit_pair h l p q =
    let high : (h * 16 + l) / 16 ≡ h = omega arith in
    let low : (h * 16 + l) % 16 ≡ l = omega arith in
    (rw (high, low) at (pair_value (h * 16 + l) (omega arith)), high, low)

parse_loop-Read :
    (n : ℕ) (text written result : List ℕ)
    → length text ≡ n * 2
    → parse_loop text true 0 written ≡ some result
    → Read text written result
parse_loop-Read n [] written result e h = record {
  bytes = [];
  result_is = rw append-nil (unfold parse_loop in cc);
  text_is = refl;
  in_range = tt;
}
parse_loop-Read n (c ∷ []) written result e h = absurd (omega arith)
parse_loop-Read zero (c ∷ d ∷ text) written result e h = absurd (omega arith)
parse_loop-Read (suc n) (c ∷ d ∷ text) written result e h =
    let (a, b, p, q) = parse_loop_pair_inv c d text written h in
    let (shown, below) = digit-digit_value c a p in
    let (shown', below') = digit-digit_value d b q in
    let (joined, high, low) = digit_pair a b below below' in
    let rest =
      parse_loop-Read n text _ result (omega arith)
        (sym (parse_loop_pair c d text written 0 p q) ∙ h) in
    record {
      bytes = (a * 16 + b) ∷ rest.bytes;
      result_is = rest.result_is ∙ rw joined (rw append_assoc);
      text_is = rw (high, low, shown, shown') (ap (λ t. c ∷ d ∷ t) rest.text_is);
      in_range = (omega arith, rest.in_range);
    }

parse_uuid_lem :
    (text : List ℕ)
    → parse_uuid text ≡ (if not (length text == 32) then none else parse_loop text true 0 [])
unfolding parse_uuid
parse_uuid_lem text = refl

print_uuid-text_of : (u : List ℕ) → AllBytes u → print_uuid u ≡ text_of u
print_uuid-text_of u h = unfold print_uuid in print_loop-text_of u [] h

-- Printing a UUID, of sixteen bytes, and parsing the text gives the UUID back.
pub parse_uuid-print_uuid :
    (u : List ℕ) → length u ≡ 16 → AllBytes u → parse_uuid (print_uuid u) ≡ some u
parse_uuid-print_uuid u n h =
    rw (print_uuid-text_of u h, parse_uuid_lem)
      (ground (arith, length-text_of u, parse_loop-text_of u 0 [] h))

parsed : (text u : List ℕ) → parse_uuid text ≡ some u → (length text ≡ 32) × Read text [] u
parsed text u h = elim (Bool-cases (length text == 32)) [
  | inl fits ↦
      let n : length text ≡ 32 = (==_iff _ 32).0 fits in
      (n, parse_loop-Read 16 text [] u n (rw (parse_uuid_lem, fits) at h))
  | inr wrong ↦ let failed : none ≡ some u = rw (parse_uuid_lem, wrong) at h in absurd (cc)
]

-- A text that parses is the printed form of the UUID that it gives, which has sixteen bytes.
pub print_uuid-parse_uuid :
    (text : List ℕ) {u : List ℕ}
    → parse_uuid text ≡ some u
    → (print_uuid u ≡ text) × (length u ≡ 16) × AllBytes u
print_uuid-parse_uuid text {u} h =
    let (n, r) = parsed text u h in
    let bytes_are : u ≡ r.bytes = r.result_is in
    rw bytes_are (
      print_uuid-text_of r.bytes r.in_range ∙ sym r.text_is,
      omega (arith, length-text_of r.bytes, ap length r.text_is),
      r.in_range,
    )

-- The characters of a UUID's text.
abbrev pub IsDigit : ℕ → Type 0
IsDigit c = ((b'0' ≤ c) × (c ≤ b'9')) ⊎ ((b'A' ≤ c) × (c ≤ b'F'))

abbrev pub AllDigits : List ℕ → Type 0
AllDigits [] = Unit
AllDigits (c ∷ text) = IsDigit c × AllDigits text

digit_value-some : (c : ℕ) → IsDigit c → (v : ℕ) × (digit_value c ≡ some v)
unfolding digit_value
digit_value-some c (inl h) = (c - b'0', ground arith)
digit_value-some c (inr h) = (c - b'A' + 10, ground arith)

parse_loop-some :
    (text : List ℕ) (first : Bool) (current : ℕ) (written : List ℕ)
    → AllDigits text
    → (u : List ℕ) × (parse_loop text first current written ≡ some u)
unfolding parse_loop
parse_loop-some [] first current written h = (written, refl)
parse_loop-some (c ∷ text) true current written h =
    let (v, e) = digit_value-some c h.0 in
    let (u, r) = parse_loop-some text false (v * 2 ^ 4 % 256) written h.1 in
    (u, rw (e, parse_loop) r)
parse_loop-some (c ∷ text) false current written h =
    let (v, e) = digit_value-some c h.0 in
    let (u, r) = parse_loop-some text true 0 (written ++ bit_or current v ∷ []) h.1 in
    (u, rw (e, parse_loop) r)

IsDigit-digit : (v : ℕ) → v < 16 → IsDigit (digit v)
unfolding digit
IsDigit-digit v h = ground arith

AllDigits-text_of : (u : List ℕ) → AllBytes u → AllDigits (text_of u)
AllDigits-text_of [] h = tt
AllDigits-text_of (v ∷ u) h = (
  IsDigit-digit (v / 16) (div_lt v h.0),
  (IsDigit-digit (v % 16) (omega arith), AllDigits-text_of u h.1),
)

-- A text parses exactly when it has thirty-two characters, all of them digits or letters from A
-- to F; any other is refused by the exception.
pub parse_uuid-some_iff :
    (text : List ℕ)
    → ((u : List ℕ) × (parse_uuid text ≡ some u)) ↔ ((length text ≡ 32) × AllDigits text)
parse_uuid-some_iff text = (
  (λ (u, h).
      let (n, r) = parsed text u h in (n, rw r.text_is (AllDigits-text_of r.bytes r.in_range))),
  (λ (n, h).
      let (u, e) = parse_loop-some text true 0 [] h in (u, rw parse_uuid_lem (ground (arith, e)))),
)
