-- ===== src/Charset/Laws.antt =====
-- What the checks of src/include/tl/charset.hpp accept.
use mathlib.Core.List.{append-nil, append_assoc}
use trans_lucid.Prelude.{
  ℕ, true, false, some, List, [], ◌∷◌, ◌++◌, ◌≡◌, ◌↔◌, ◌⊎◌, ◌<◌, refl, inl, inr, arith, Bool-cases,
}
use trans_lucid.Charset.{
  validate_uchar, validate_loop, validate_ustring, ascii_loop, u32_to_ascii, chars_loop,
  chars_to_u32string,
}

-- A Unicode scalar value: a code point that is no surrogate.
abbrev pub IsScalar : ℕ → Type 0
IsScalar c = (c < 0x110000) × ((c < 0xd800) ⊎ (0xdfff < c))

abbrev pub AllScalar : List ℕ → Type 0
AllScalar [] = Unit
AllScalar (c ∷ s) = IsScalar c × AllScalar s

abbrev pub AllAscii : List ℕ → Type 0
AllAscii [] = Unit
AllAscii (c ∷ s) = (c < 128) × AllAscii s

validate_uchar_iff : (c : ℕ) → (validate_uchar c ≡ true) ↔ IsScalar c
unfolding validate_uchar
validate_uchar_iff c = ground arith

validate_loop-false : (s : List ℕ) → validate_loop false s ≡ false
unfolding validate_loop
validate_loop-false [] = refl
validate_loop-false (c ∷ s) = refl

validate_loop_cons :
    (c : ℕ) (s : List ℕ) → validate_loop true (c ∷ s) ≡ validate_loop (validate_uchar c) s
unfolding validate_loop
validate_loop_cons c s = refl

validate_loop_iff : (s : List ℕ) → (validate_loop true s ≡ true) ↔ AllScalar s
validate_loop_iff [] = (λ e. tt, λ a. unfold validate_loop in refl)
validate_loop_iff (c ∷ s) = elim (Bool-cases (validate_uchar c)) [
  | inl good ↦
      rw (validate_loop_cons, good)
        (
          λ e. ((validate_uchar_iff c).0 good, (validate_loop_iff s).0 e),
          λ a. (validate_loop_iff s).1 a.1,
        )
  | inr bad ↦
      rw (validate_loop_cons, bad, validate_loop-false)
        (λ e. absurd (cc), λ a. cc ((validate_uchar_iff c).1 a.0))
]

-- `validate_ustring` accepts a string exactly when all its characters are Unicode scalar values.
pub validate_ustring_iff : (s : List ℕ) → (validate_ustring s ≡ true) ↔ AllScalar s
validate_ustring_iff s = unfold validate_ustring in validate_loop_iff s

ascii_loop_all : (r s : List ℕ) → AllAscii s → ascii_loop r s ≡ some (r ++ s)
unfolding ascii_loop
ascii_loop_all r [] h = rw append-nil
ascii_loop_all r (c ∷ s) h =
    ground (arith, ascii_loop_all (r ++ c ∷ []) s h.1, append_assoc r (c ∷ []) s)

ascii_loop_inv : (r s t : List ℕ) → ascii_loop r s ≡ some t → AllAscii s
unfolding ascii_loop
ascii_loop_inv r [] t h = tt
ascii_loop_inv r (c ∷ s) t h = ground (arith, ascii_loop_inv (r ++ c ∷ []) s t)

ascii_forth : (s t : List ℕ) → u32_to_ascii s ≡ some t → AllAscii s × (t ≡ s)
unfolding u32_to_ascii
ascii_forth s t h = let a = ascii_loop_inv [] s t h in (a, cc (ascii_loop_all [] s a))

-- The conversion to ASCII gives back the string itself, and throws exactly when some character is
-- no ASCII character.
pub u32_to_ascii_iff : (s t : List ℕ) → (u32_to_ascii s ≡ some t) ↔ (AllAscii s × (t ≡ s))
u32_to_ascii_iff s t =
    (ascii_forth s t, λ (a, e). rw e (unfold u32_to_ascii in ascii_loop_all [] s a))

abbrev pub AllNonzero : List ℕ → Type 0
AllNonzero [] = Unit
AllNonzero (c ∷ s) = (0 < c) × AllNonzero s

chars_loop_lem : (r s rest : List ℕ) → AllNonzero s → chars_loop r (s ++ 0 ∷ rest) ≡ some (r ++ s)
unfolding chars_loop
chars_loop_lem r [] rest h = rw append-nil
chars_loop_lem r (c ∷ s) rest h =
    ground (arith, chars_loop_lem (r ++ c ∷ []) s rest h.1, append_assoc r (c ∷ []) s)

-- `chars_to_u32string` reads a text of characters other than zero back from its zero-terminated
-- array, whatever follows the zero.
pub chars_to_u32string_lem :
    (s rest : List ℕ) → AllNonzero s → chars_to_u32string (s ++ 0 ∷ rest) ≡ some s
unfolding chars_to_u32string
chars_to_u32string_lem s rest h = chars_loop_lem [] s rest h
