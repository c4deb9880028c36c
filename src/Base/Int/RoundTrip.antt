-- ===== src/Base/Int/RoundTrip.antt =====
-- `strconv.Atoi` reads what `strconv.Itoa` prints, also behind `strings.TrimSpace` and with a
-- newline.
use dra_driver_integration_e.Base.{
  ℕ, zero, suc, ◌+◌, ◌-◌, ◌*◌, ◌/◌, ◌%◌, ◌^◌, ◌<◌, ◌≡◌, refl, ap, ◌∙◌, inl, inr, false, some, [],
  ◌∷◌, ◌++◌, arith, ltb, ◌==◌, lt→ltb, ltb→lt, ltb→le, Bool-cases, All, All-imp, Bytes, codes,
}
use dra_driver_integration_e.Base.Decimal.{itoa, emit_digits, IsDigit, itoa-IsDigit}
use dra_driver_integration_e.Base.Space.{trim_space}
use dra_driver_integration_e.Base.Space.Trim.{IsVisible, trim_space-newline}
use dra_driver_integration_e.Base.Int.{
  ℤ, pos, negsuc, int_text, digits_value, unsigned, positive, negative, atoi,
}

one_digit :
    (acc d : ℕ) (out : Bytes)
    → d < 10
    → digits_value acc ((b'0' + d) ∷ out) ≡ digits_value (acc * 10 + d) out
unfolding digits_value
one_digit acc d out h = let same : b'0' + d - b'0' ≡ d = omega arith in ground (arith, same)

digits_value-emit_digits :
    (fuel n : ℕ) (out : Bytes)
    → n < fuel
    → digits_value 0 (emit_digits fuel n out) ≡ digits_value n out
unfolding emit_digits
digits_value-emit_digits zero n out h = absurd (omega arith)
digits_value-emit_digits (suc fuel) n out h = elim (Bool-cases (ltb n 10)) [
  | inl small ↦
      let alone : 0 * 10 + n ≡ n = omega arith in
      rw (small, emit_digits) (rw alone at (one_digit 0 n out (ltb→lt n 10 small)))
  | inr large ↦
      let whole : n / 10 * 10 + n % 10 ≡ n = omega arith in
      let ten = ltb→le n 10 large in
      rw (large, emit_digits)
        (digits_value-emit_digits fuel (n / 10) ((b'0' + n % 10) ∷ out) (omega arith)
          ∙ one_digit (n / 10) (n % 10) out (omega arith)
          ∙ ap (λ m. digits_value m out) whole)
]

pub digits_value-itoa : (n : ℕ) → digits_value 0 (itoa n) ≡ some n
unfolding itoa digits_value
digits_value-itoa n = digits_value-emit_digits (suc n) n [] (omega arith)

-- The digits of a number are not empty: their value would be 0, and that has a digit too.
record Starts (s : Bytes) : Type 0 where
  first : ℕ
  rest : Bytes
  is : s ≡ first ∷ rest
  digit : IsDigit first

emit_digits-Starts : (fuel n : ℕ) (out : Bytes) → n < fuel → Starts (emit_digits fuel n out)
unfolding emit_digits
emit_digits-Starts zero n out h = absurd (omega arith)
emit_digits-Starts (suc fuel) n out h = elim (Bool-cases (ltb n 10)) [
  | inl small ↦
      let less = ltb→lt n 10 small in
      rw (small, emit_digits)
        (record { first = b'0' + n; rest = out; is = refl; digit = omega arith })
  | inr large ↦
      let ten = ltb→le n 10 large in
      rw (large, emit_digits)
        (emit_digits-Starts fuel (n / 10) ((b'0' + n % 10) ∷ out) (omega arith))
]

itoa-Starts : (n : ℕ) → Starts (itoa n)
unfolding itoa
itoa-Starts n = emit_digits-Starts (suc n) n [] (omega arith)

unsigned-itoa : (n : ℕ) → unsigned (itoa n) ≡ some n
unfolding unsigned
unsigned-itoa n = let s = itoa-Starts n in rw s.is (rw s.is at (digits_value-itoa n))

-- The numbers of 64 bits.
abbrev pub IsInt64 : ℤ → Type 0
IsInt64 (pos n) = n < 2 ^ 63
IsInt64 (negsuc n) = n < 2 ^ 63

pub atoi-int_text : (z : ℤ) → IsInt64 z → atoi (int_text z) ≡ some z
unfolding atoi int_text positive negative
atoi-int_text (pos n) h =
    let s = itoa-Starts n in
    let (low, high) = s.digit in
    let value = rw s.is at (unsigned-itoa n) in
    let no_minus : (s.first == b'-') ≡ false = ground arith in
    let no_plus : (s.first == b'+') ≡ false = ground arith in
    let fits = lt→ltb n (2 ^ 63) h in rw s.is (rw (no_minus, no_plus, value, fits) refl)
atoi-int_text (negsuc n) h =
    let fits = lt→ltb n (2 ^ 63) h in rw (unsigned-itoa (suc n), negative, fits) refl

itoa-IsVisible : (n : ℕ) → All IsVisible (itoa n)
itoa-IsVisible n = All-imp IsDigit IsVisible (λ c is. omega arith) (itoa n) (itoa-IsDigit n)

int_text-IsVisible : (z : ℤ) → All IsVisible (int_text z)
unfolding int_text
int_text-IsVisible (pos n) = itoa-IsVisible n
int_text-IsVisible (negsuc n) = (omega arith, itoa-IsVisible (suc n))

-- What a file holds once a number has been written to it is read as that number.
pub atoi-trim_space : (z : ℤ) → IsInt64 z → atoi (trim_space (int_text z ++ codes "\n")) ≡ some z
atoi-trim_space z h =
    rw (trim_space-newline (int_text z) (int_text-IsVisible z)) (atoi-int_text z h)
