-- ===== src/Base/Decimal.antt =====
-- `strconv.Itoa` and `%d` on numbers that are not negative. The fuel `suc n` is enough, since each
-- round divides `n` by ten.
use dra_driver_integration_e.Base.Tests.{ltb, if◌then◌else◌}
use dra_driver_integration_e.Base.Lists.{All}
use dra_driver_integration_e.Base.Order.{Bytes}
use Prim.Native.Nat.{ℕ, zero, suc, ◌+◌, ◌/◌, ◌%◌, ◌≤◌}
use mathlib.Core.List.{[], ◌∷◌}
use native.Mathlib.Omega.{arith}

unfoldable pub emit_digits : ℕ → ℕ → Bytes → Bytes
emit_digits zero n out = out
emit_digits (suc fuel) n out =
    let more = emit_digits fuel (n / 10) ((b'0' + n % 10) ∷ out) in
    if ltb n 10 then (b'0' + n) ∷ out else more

unfoldable pub itoa : ℕ → Bytes
unfolding emit_digits
itoa n = emit_digits (suc n) n []

abbrev pub IsDigit : ℕ → Type 0
IsDigit c = (b'0' ≤ c) × (c ≤ b'9')

emit_digits-IsDigit :
    (fuel n : ℕ) (out : Bytes) → All IsDigit out → All IsDigit (emit_digits fuel n out)
unfolding emit_digits
emit_digits-IsDigit zero n out h = h
emit_digits-IsDigit (suc fuel) n out h =
    ground (arith, emit_digits-IsDigit fuel (n / 10) ((b'0' + n % 10) ∷ out))

pub itoa-IsDigit : (n : ℕ) → All IsDigit (itoa n)
unfolding itoa
itoa-IsDigit n = emit_digits-IsDigit (suc n) n [] tt
