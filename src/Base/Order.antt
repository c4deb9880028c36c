-- ===== src/Base/Order.antt =====
-- Go strings as byte lists: the bytes of a literal, `==`, the order `<` by bytes, and
-- `strings.Contains`.
use Prim.Native.Nat.{ℕ, ◌<◌}
use Prim.Native.Char.{code}
use Prim.Native.String.{String}
use mathlib.Core.Path.{◌≡◌, refl}
use mathlib.Core.Logic.{◌↔◌, ◌⊎◌, inl, inr}
use mathlib.Core.Bool.{Bool, true, false, ◌&&◌, ◌||◌}
use mathlib.Core.List.{List, [], ◌∷◌, ◌++◌}
use native.Mathlib.Omega.{arith}
use dra_driver_integration_e.Base.Tests.{ltb, ◌==◌}
use dra_driver_integration_e.Base.Lists.{replicate}

abbrev pub Bytes : Type 0
Bytes = List ℕ

abbrev pub IsByte : ℕ → Type 0
IsByte b = b < 256

-- `make([]byte, n)`
abbrev pub make_bytes : ℕ → Bytes
make_bytes n = replicate n 0

-- The bytes of an ASCII literal.
abbrev pub codes : String → Bytes
codes String.[] = []
codes (String.◌∷◌ c s) = code c ∷ codes s

unfoldable pub eq_bytes : Bytes → Bytes → Bool
eq_bytes [] [] = true
eq_bytes (x ∷ xs) (y ∷ ys) = x == y && eq_bytes xs ys
eq_bytes _ _ = false

pub eq_bytes_iff : (s t : Bytes) → (eq_bytes s t ≡ true) ↔ (s ≡ t)
unfolding eq_bytes
eq_bytes_iff (x ∷ xs) (y ∷ ys) = ground (arith, eq_bytes_iff xs ys)
eq_bytes_iff _ _ = ground arith

-- `s <= t` on strings.
unfoldable pub leb_bytes : Bytes → Bytes → Bool
leb_bytes [] t = true
leb_bytes (x ∷ xs) [] = false
leb_bytes (x ∷ xs) (y ∷ ys) = ltb x y || (x == y && leb_bytes xs ys)

pub leb_bytes_total : (s t : Bytes) → (leb_bytes s t ≡ true) ⊎ (leb_bytes t s ≡ true)
unfolding leb_bytes
leb_bytes_total [] t = inl refl
leb_bytes_total (x ∷ xs) [] = inr refl
leb_bytes_total (x ∷ xs) (y ∷ ys) = ground (arith, leb_bytes_total xs ys)

pub leb_bytes_trans :
    (s t u : Bytes) → leb_bytes s t ≡ true → leb_bytes t u ≡ true → leb_bytes s u ≡ true
unfolding leb_bytes
leb_bytes_trans [] t u p q = refl
leb_bytes_trans (x ∷ xs) [] u p q = cc
leb_bytes_trans (x ∷ xs) (y ∷ ys) [] p q = cc
leb_bytes_trans (x ∷ xs) (y ∷ ys) (z ∷ zs) p q = ground (arith, leb_bytes_trans xs ys zs)

pub leb_bytes_antisymm : (s t : Bytes) → leb_bytes s t ≡ true → leb_bytes t s ≡ true → s ≡ t
unfolding leb_bytes
leb_bytes_antisymm [] [] p q = refl
leb_bytes_antisymm [] (y ∷ ys) p q = cc
leb_bytes_antisymm (x ∷ xs) [] p q = cc
leb_bytes_antisymm (x ∷ xs) (y ∷ ys) p q = ground (arith, leb_bytes_antisymm xs ys)

-- A common prefix does not matter to the order.
pub leb_bytes-append : (p s t : Bytes) → leb_bytes (p ++ s) (p ++ t) ≡ leb_bytes s t
unfolding leb_bytes
leb_bytes-append [] s t = refl
leb_bytes-append (x ∷ p) s t = ground (arith, leb_bytes-append p s t)

-- `strings.HasPrefix(s, p)`
unfoldable pub has_prefix : Bytes → Bytes → Bool
has_prefix s [] = true
has_prefix [] (y ∷ p) = false
has_prefix (x ∷ s) (y ∷ p) = x == y && has_prefix s p

-- `strings.Contains(s, sub)`
unfoldable pub contains : Bytes → Bytes → Bool
unfolding has_prefix
contains [] sub = has_prefix [] sub
contains (x ∷ s) sub = has_prefix (x ∷ s) sub || contains s sub
