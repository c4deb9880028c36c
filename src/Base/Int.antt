-- ===== src/Base/Int.antt =====
-- Go's `int`, of 64 bits, as a signed integer over the native numbers, with `strconv.Itoa` and
-- `strconv.Atoi`. No sum or product that the code forms leaves its range.
pub mod RoundTrip
use dra_driver_integration_e.Base.{
  ℕ, zero, suc, ◌+◌, ◌-◌, ◌*◌, ◌/◌, ◌%◌, ◌^◌, ◌≡◌, ◌↔◌, ◌⊎◌, Bool, true, false, not, ◌&&◌, Option,
  none, some, [], ◌∷◌, arith, ltb, leb, ◌==◌, if◌then◌else◌, Holds, Bytes,
}
use dra_driver_integration_e.Base.Decimal.{itoa}

-- `negsuc n` is -(n + 1).
pub data ℤ : Type 0 where
  pos : ℕ → ℤ
  negsuc : ℕ → ℤ

abbrev pub is_negative : ℤ → Bool
is_negative (pos n) = false
is_negative (negsuc n) = true

abbrev pub ltb_ℤ : ℤ → ℤ → Bool
ltb_ℤ (pos m) (pos n) = ltb m n
ltb_ℤ (pos m) (negsuc n) = false
ltb_ℤ (negsuc m) (pos n) = true
ltb_ℤ (negsuc m) (negsuc n) = ltb n m

abbrev pub leb_ℤ : ℤ → ℤ → Bool
leb_ℤ a b = not (ltb_ℤ b a)

abbrev pub eq_ℤ : ℤ → ℤ → Bool
eq_ℤ (pos m) (pos n) = m == n
eq_ℤ (negsuc m) (negsuc n) = m == n
eq_ℤ _ _ = false

pub eq_ℤ_iff : (a b : ℤ) → (eq_ℤ a b ≡ true) ↔ (a ≡ b)
eq_ℤ_iff a b = ground arith

pub leb_ℤ_total : (a b : ℤ) → Holds (leb_ℤ a b) ⊎ Holds (leb_ℤ b a)
leb_ℤ_total a b = ground arith

pub leb_ℤ_trans : (a b c : ℤ) → Holds (leb_ℤ a b) → Holds (leb_ℤ b c) → Holds (leb_ℤ a c)
leb_ℤ_trans a b c h k = ground arith

-- a - b and -n, as integers.
abbrev pub sub_ℕ : ℕ → ℕ → ℤ
sub_ℕ a b = if leb b a then pos (a - b) else negsuc (b - a - 1)

abbrev pub neg_ℕ : ℕ → ℤ
neg_ℕ zero = pos 0
neg_ℕ (suc n) = negsuc n

infixl 65 ◌+ℤ◌
abbrev pub ◌+ℤ◌ : ℤ → ℤ → ℤ
pos m +ℤ pos n = pos (m + n)
pos m +ℤ negsuc n = sub_ℕ m (suc n)
negsuc m +ℤ pos n = sub_ℕ n (suc m)
negsuc m +ℤ negsuc n = negsuc (m + n + 1)

pub +ℤ_assoc : (a b c : ℤ) → (a +ℤ b) +ℤ c ≡ a +ℤ (b +ℤ c)
+ℤ_assoc a b c = ground arith

-- `a / n` and `a % n` of Go, which round towards zero, for `n` that is not 0.
abbrev pub quot : ℤ → ℕ → ℤ
quot (pos a) n = pos (a / n)
quot (negsuc a) n = neg_ℕ (suc a / n)

abbrev pub rem : ℤ → ℕ → ℤ
rem (pos a) n = pos (a % n)
rem (negsuc a) n = neg_ℕ (suc a % n)

-- `strconv.Itoa`
unfoldable pub int_text : ℤ → Bytes
int_text (pos n) = itoa n
int_text (negsuc n) = b'-' ∷ itoa (suc n)

is_digit : ℕ → Bool
is_digit c = leb b'0' c && leb c b'9'

-- The value of a text of digits behind those that give `acc`.
unfoldable pub digits_value : ℕ → Bytes → Option ℕ
unfolding is_digit
digits_value acc [] = some acc
digits_value acc (c ∷ s) =
    let rest = digits_value (acc * 10 + (c - b'0')) s in if is_digit c then rest else none

-- There is one digit at least, and the value is one of the type's.
unfoldable pub unsigned : Bytes → Option ℕ
unsigned [] = none
unsigned (c ∷ s) = digits_value 0 (c ∷ s)

unfoldable pub positive : Option ℕ → Option ℤ
positive none = none
positive (some n) = if ltb n (2 ^ 63) then some (pos n) else none

unfoldable pub negative : Option ℕ → Option ℤ
negative none = none
negative (some zero) = some (pos 0)
negative (some (suc n)) = if ltb n (2 ^ 63) then some (negsuc n) else none

-- `strconv.Atoi`: `none` stands for either of its errors.
unfoldable pub atoi : Bytes → Option ℤ
unfolding unsigned positive negative digits_value
atoi [] = none
atoi (c ∷ s) =
    if c == b'-'
    then negative (unsigned s)
    else if c == b'+'
    then positive (unsigned s)
    else positive (unsigned (c ∷ s))
