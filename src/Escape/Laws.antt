-- ===== src/Escape/Laws.antt =====
-- Escape sequences as src/libs/system/lexer_util.cpp reads them: the loop ends, well-formed sequences
-- are read in full, and the values of digits do not overflow.
use mathlib.Core.List.{append-nil, append_assoc}
use native.Mathlib.Nat.{pow-suc}
use trans_lucid.Prelude.{
  Option, some, ℕ, zero, suc, ◌+◌, ◌-◌, ◌*◌, ◌^◌, ◌<◌, ◌≤◌, ◌≡◌, ◌≢◌, ◌∙◌, subst, refl, true, ◌&&◌,
  List, [], ◌∷◌, ◌++◌, if◌then◌else◌, leb, ◌==◌, length, length-append, arith, Bool-cases, inl, inr,
}
use trans_lucid.Escape.{
  Outcome, built, past_end, out_of_fuel, is_hex, read_digits, add_digit, hex_value, Control, digits,
  simple, invalid, control, value_bytes, escape_turn, escape_loop, convert,
  build_escaped_characters, through,
}

length-read_digits :
    (n : ℕ) (chars text : List ℕ) → length (read_digits n chars text).rest ≤ length text
unfolding read_digits
length-read_digits zero chars text = omega arith
length-read_digits (suc n) chars [] = omega arith
length-read_digits (suc n) chars (c ∷ text) =
    ground (arith, length-read_digits n (chars ++ c ∷ []) text)

abbrev pub AllHex : List ℕ → Type 0
AllHex [] = Unit
AllHex (c ∷ s) = (is_hex c ≡ true) × AllHex s

read_digits_lem :
    (ds chars text : List ℕ)
    → AllHex ds
    → read_digits (length ds) chars (ds ++ text)
      ≡ record { to_read = 0; chars = chars ++ ds; rest = text }
unfolding read_digits
read_digits_lem [] chars text h = rw append-nil
read_digits_lem (c ∷ ds) chars text h =
    ground (arith, read_digits_lem ds (chars ++ c ∷ []) text h.1, append_assoc chars (c ∷ []) ds)

-- The number that hexadecimal digits spell, the most significant first.
abbrev pub digit_number : ℕ → ℕ
digit_number c = if leb b'0' c && leb c b'9' then c - b'0' else c - b'A' + 10

abbrev pub spelled : List ℕ → ℕ
spelled [] = 0
spelled (c ∷ ds) = digit_number c * 16 ^ length ds + spelled ds

abbrev IsTotal : Outcome → Type 0
IsTotal out_of_fuel = ⊥
IsTotal _ = Unit

module _ (utf32_to_utf8 : List ℕ → List ℕ) where
  escape_turn-IsTotal :
      (again : List ℕ → List ℕ → Outcome) (k : Control) (building : List ℕ) (c : ℕ) (text : List ℕ)
      → ((b t : List ℕ) → length t ≤ length text → IsTotal (again b t))
      → IsTotal (escape_turn utf32_to_utf8 again k building c text)
  unfolding escape_turn
  escape_turn-IsTotal again invalid building c text h = tt
  escape_turn-IsTotal again (simple s) building c text h = h _ text (omega arith)
  escape_turn-IsTotal again (digits n) building c text h =
      elim (Bool-cases ((read_digits n [] text).to_read == 0)) [
        | inl all_read ↦ rw all_read (h _ _ (length-read_digits n [] text))
        | inr too_few ↦ rw too_few tt
      ]

  escape_loop-IsTotal :
      (f : ℕ) (building text : List ℕ)
      → length text < f
      → IsTotal (escape_loop utf32_to_utf8 f building text)
  unfolding escape_loop
  escape_loop-IsTotal zero building text h = absurd (omega arith)
  escape_loop-IsTotal (suc f) building [] h = tt
  escape_loop-IsTotal (suc f) building (b ∷ []) h = ground arith
  escape_loop-IsTotal (suc f) building (b ∷ c ∷ text) h = elim (Bool-cases (b == b'\\')) [
    | inl backslash ↦ rw backslash (
        escape_turn-IsTotal (escape_loop utf32_to_utf8 f) (control c) building c text
          (λ b' t below. escape_loop-IsTotal f b' t (omega arith)))
    | inr plain ↦ rw plain tt
  ]

  convert-IsTotal :
      (utf8_to_utf32 : List ℕ → List ℕ) (r : Outcome)
      → IsTotal r
      → IsTotal (convert utf8_to_utf32 r)
  convert-IsTotal g (built good b rest) h = tt
  convert-IsTotal g past_end h = tt
  convert-IsTotal g out_of_fuel h = h

  not_out_of_fuel : {r : Outcome} → IsTotal r → r ≢ out_of_fuel
  not_out_of_fuel h e = subst IsTotal e h

  -- A run of well-formed escape sequences, and the bytes that it stands for.
  pub data Spells : List ℕ → List ℕ → Type 0 where
    nothing : Spells [] []
    simple_escape :
        (c s : ℕ) {text bytes : List ℕ}
        → control c ≡ simple s
        → Spells text bytes
        → Spells (b'\\' ∷ c ∷ text) (s ∷ bytes)
    digit_escape :
        (c : ℕ) (ds : List ℕ) {text bytes : List ℕ}
        → control c ≡ digits (length ds)
        → AllHex ds
        → Spells text bytes
        → Spells (b'\\' ∷ c ∷ (ds ++ text)) (value_bytes utf32_to_utf8 ds ++ bytes)

  module _ (no_nul : utf32_to_utf8 (0 ∷ []) ≡ []) where
    value_bytes_nil : value_bytes utf32_to_utf8 [] ≡ []
    unfolding value_bytes hex_value
    value_bytes_nil = no_nul

    -- The loop stops in front of any character but the backslash.
    escape_loop_stop :
        (f : ℕ) (building : List ℕ) (d : ℕ) (rest : List ℕ)
        → d ≢ b'\\'
        → escape_loop utf32_to_utf8 (suc f) building (d ∷ rest) ≡ built true building (d ∷ rest)
    unfolding escape_loop
    escape_loop_stop f building d [] ne = ground arith
    escape_loop_stop f building d (e ∷ rest) ne = ground arith

    escape_loop_simple :
        (f : ℕ) (building : List ℕ) (c s : ℕ) (text : List ℕ)
        → control c ≡ simple s
        → escape_loop utf32_to_utf8 (suc f) building (b'\\' ∷ c ∷ text)
          ≡ escape_loop utf32_to_utf8 f (building ++ s ∷ []) text
    unfolding escape_loop
    escape_loop_simple f building c s text k =
        rw k (unfold escape_turn in rw (value_bytes_nil, append-nil))

    escape_loop_digits :
        (f : ℕ) (building : List ℕ) (c : ℕ) (ds text : List ℕ)
        → control c ≡ digits (length ds)
        → AllHex ds
        → escape_loop utf32_to_utf8 (suc f) building (b'\\' ∷ c ∷ (ds ++ text))
          ≡ escape_loop utf32_to_utf8 f (building ++ value_bytes utf32_to_utf8 ds) text
    unfolding escape_loop
    escape_loop_digits f building c ds text k a =
        rw k (unfold escape_turn in rw (read_digits_lem ds [] text a))

    escape_loop-Spells :
        (f : ℕ) (building : List ℕ) (d : ℕ) (rest : List ℕ) {text bytes : List ℕ}
        → Spells text bytes
        → length text < f
        → d ≢ b'\\'
        → escape_loop utf32_to_utf8 f building (text ++ d ∷ rest)
          ≡ built true (building ++ bytes) (d ∷ rest)
    escape_loop-Spells zero building d rest t h ne = absurd (omega arith)
    escape_loop-Spells (suc f) building d rest nothing h ne =
        escape_loop_stop f building d rest ne ∙ rw append-nil
    escape_loop-Spells (suc f) building d rest (simple_escape c s k t) h ne =
        escape_loop_simple f building c s _ k
        ∙ escape_loop-Spells f (building ++ s ∷ []) d rest t (omega arith) ne
        ∙ rw append_assoc
    escape_loop-Spells (suc f) building d rest (digit_escape c ds {text} k a t) h ne =
        let filled = building ++ value_bytes utf32_to_utf8 ds in
        let run = escape_loop-Spells f filled d rest t (omega (arith, length-append ds text)) ne in
        rw append_assoc
          (escape_loop_digits f building c ds (text ++ d ∷ rest) k a ∙ run ∙ rw append_assoc)

module _ (to_utf8 to_utf32 : List ℕ → Option (List ℕ)) where
  build_lem :
      (text : List ℕ)
      → build_escaped_characters to_utf8 to_utf32 text
        ≡ convert (through to_utf32) (escape_loop (through to_utf8) (suc (length text)) [] text)
  unfolding build_escaped_characters
  build_lem text = refl

  -- The loop of `build_escaped_characters` ends on every input: the fuel of the model, one round more
  -- than there are characters, is enough.
  pub build_escaped_characters_total :
      (text : List ℕ) → build_escaped_characters to_utf8 to_utf32 text ≢ out_of_fuel
  build_escaped_characters_total text = not_out_of_fuel (through to_utf8) (
      rw build_lem (
        convert-IsTotal (through to_utf8) (through to_utf32) _
          (escape_loop-IsTotal (through to_utf8) _ [] text (omega arith))))

  -- Let iconv write the character 0 as a single byte 0. A run of well-formed escapes before a character
  -- other than a backslash is read in full: the result is the decoded string of the bytes that the
  -- escapes stand for, and `current` is behind the run.
  pub build_escaped_characters-Spells :
      {text bytes : List ℕ} (d : ℕ) (rest : List ℕ)
      → to_utf8 (0 ∷ []) ≡ some (0 ∷ [])
      → Spells (through to_utf8) text bytes
      → d ≢ b'\\'
      → build_escaped_characters to_utf8 to_utf32 (text ++ d ∷ rest)
        ≡ built true (through to_utf32 bytes) (d ∷ rest)
  build_escaped_characters-Spells {text} d rest nul t ne = rw build_lem (
      rw (
        escape_loop-Spells (through to_utf8) (unfold through in rw nul refl)
          (suc (length (text ++ d ∷ rest))) [] d rest t
          (omega (arith, length-append text (d ∷ rest))) ne))

add_digit_lem :
    (value c : ℕ)
    → is_hex c ≡ true
    → value < 2 ^ 28
    → (add_digit value c ≡ value * 16 + digit_number c) × (digit_number c < 16)
unfolding add_digit is_hex
add_digit_lem value c h b = ground arith

pow_pos : (n : ℕ) → 0 < 16 ^ n
pow_pos zero = omega arith
pow_pos (suc n) = rw (pow-suc 16 n) (omega (arith, pow_pos n))

no_wrap : (v p : ℕ) → 0 < p → (v + 1) * (p * 16) ≤ 2 ^ 32 → v < 2 ^ 28
no_wrap v p h b = grind arith

room : (v p n : ℕ) → n < 16 → (v + 1) * (p * 16) ≤ 2 ^ 32 → (v * 16 + n + 1) * p ≤ 2 ^ 32
room v p n h b = grind arith

hex_value_from :
    (value : ℕ) (ds : List ℕ)
    → AllHex ds
    → (value + 1) * 16 ^ length ds ≤ 2 ^ 32
    → hex_value value ds ≡ value * 16 ^ length ds + spelled ds
unfolding hex_value
hex_value_from value [] h b = omega arith
hex_value_from value (c ∷ ds) h b =
    let b' : (value + 1) * (16 ^ length ds * 16) ≤ 2 ^ 32 = rw (← pow-suc 16 (length ds)) b in
    let (e, small) =
      add_digit_lem value c h.0 (no_wrap value (16 ^ length ds) (pow_pos (length ds)) b') in
    rw e (
      hex_value_from (value * 16 + digit_number c) ds h.1
        (room value (16 ^ length ds) (digit_number c) small b')
      ∙ rw (pow-suc 16 (length ds)) (omega arith))

pow_small : (n : ℕ) → n ≤ 8 → (0 + 1) * 16 ^ n ≤ 2 ^ 32
pow_small zero h = omega arith
pow_small (suc zero) h = omega arith
pow_small (suc (suc zero)) h = omega arith
pow_small (suc (suc (suc zero))) h = omega arith
pow_small (suc (suc (suc (suc zero)))) h = omega arith
pow_small (suc (suc (suc (suc (suc zero))))) h = omega arith
pow_small (suc (suc (suc (suc (suc (suc zero)))))) h = omega arith
pow_small (suc (suc (suc (suc (suc (suc (suc zero))))))) h = omega arith
pow_small (suc (suc (suc (suc (suc (suc (suc (suc zero)))))))) h = omega arith
pow_small (suc (suc (suc (suc (suc (suc (suc (suc (suc n))))))))) h = absurd (omega arith)

-- The value of at most eight hexadecimal digits is the number that they spell: the uint32_t does not wrap.
pub hex_value-spelled : (ds : List ℕ) → AllHex ds → length ds ≤ 8 → hex_value 0 ds ≡ spelled ds
hex_value-spelled ds h b = hex_value_from 0 ds h (pow_small (length ds) b) ∙ omega arith
