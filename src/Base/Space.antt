-- ===== src/Base/Space.antt =====
-- White space as `strings.TrimSpace` reads it: the code points of `unicode.IsSpace`, in UTF-8.
pub mod Trim
use Prim.Native.Nat.{ℕ, zero, suc}
use mathlib.Core.Bool.{Bool, true, false, ◌&&◌, ◌||◌}
use mathlib.Core.List.{[], ◌∷◌, reverse}
use mathlib.Core.Option.{Option, none, some}
use dra_driver_integration_e.Base.Tests.{leb, ◌==◌, if◌then◌else◌}
use dra_driver_integration_e.Base.Order.{Bytes}

-- U+0009 to U+000D and U+0020.
unfoldable pub is_space : ℕ → Bool
is_space c = (leb 9 c && leb c 13) || c == 32

-- U+0085 and U+00A0.
unfoldable pub is_space_pair : ℕ → ℕ → Bool
is_space_pair a b = a == 0xc2 && (b == 0x85 || b == 0xa0)

-- U+1680, U+2000 to U+200A, U+2028, U+2029, U+202F, U+205F and U+3000.
unfoldable pub is_space_triple : ℕ → ℕ → ℕ → Bool
is_space_triple a b c =
    (a == 0xe1 && b == 0x9a && c == 0x80)
    || (a == 0xe2
        && b == 0x80
        && ((leb 0x80 c && leb c 0x8a) || c == 0xa8 || c == 0xa9 || c == 0xaf))
    || (a == 0xe2 && b == 0x81 && c == 0x9f)
    || (a == 0xe3 && b == 0x80 && c == 0x80)

-- How many bytes behind the first belong to the space that the text begins with.
unfoldable pub space_tail : Bytes → Option ℕ
space_tail [] = none
space_tail (a ∷ []) = if is_space a then some 0 else none
space_tail (a ∷ b ∷ []) = if is_space a then some 0 else if is_space_pair a b then some 1 else none
space_tail (a ∷ b ∷ c ∷ s) =
    if is_space a
    then some 0
    else if is_space_pair a b
    then some 1
    else if is_space_triple a b c
    then some 2
    else none

-- The number counts the bytes that a space still takes.
blank_from : ℕ → Bytes → Bool
blank_from k [] = true
blank_from (suc k) (c ∷ s) = blank_from k s
blank_from zero (c ∷ s) = elim (space_tail (c ∷ s)) [ none ↦ false | some k ↦ blank_from k s ]

-- `strings.TrimSpace(s) == ""`
unfoldable pub is_blank : Bytes → Bool
unfolding blank_from space_tail is_space is_space_pair is_space_triple
is_blank s = blank_from 0 s

-- The text behind the spaces that it begins with; `tail` finds one, as `space_tail` does.
unfoldable pub skip : (Bytes → Option ℕ) → ℕ → Bytes → Bytes
skip tail k [] = []
skip tail (suc k) (c ∷ s) = skip tail k s
skip tail zero (c ∷ s) = elim (tail (c ∷ s)) [ none ↦ c ∷ s | some k ↦ skip tail k s ]

-- `space_tail` on a text that is read from its end: UTF-8 can be read backwards.
unfoldable pub space_tail_back : Bytes → Option ℕ
space_tail_back [] = none
space_tail_back (a ∷ []) = if is_space a then some 0 else none
space_tail_back (a ∷ b ∷ []) =
    if is_space a then some 0 else if is_space_pair b a then some 1 else none
space_tail_back (a ∷ b ∷ c ∷ s) =
    if is_space a
    then some 0
    else if is_space_pair b a
    then some 1
    else if is_space_triple c b a
    then some 2
    else none

-- `strings.TrimSpace`
unfoldable pub trim_space : Bytes → Bytes
unfolding skip space_tail_back is_blank
trim_space s = reverse (skip space_tail_back 0 (reverse (skip space_tail 0 s)))
