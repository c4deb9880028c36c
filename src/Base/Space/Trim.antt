-- ===== src/Base/Space/Trim.antt =====
-- `strings.TrimSpace` takes the newline off a text of visible ASCII characters.
use mathlib.Core.List.{reverse, reverse-cons, reverse-append, reverse-reverse}
use dra_driver_integration_e.Base.{
  ℕ, ◌≤◌, ◌≡◌, refl, none, some, [], ◌∷◌, ◌++◌, arith, All, All-append, Bytes, codes,
}
use dra_driver_integration_e.Base.Space.{
  space_tail, space_tail_back, is_space, is_space_pair, is_space_triple, skip, trim_space,
}

abbrev pub IsVisible : ℕ → Type 0
IsVisible c = (33 ≤ c) × (c ≤ 126)

no_space : (c : ℕ) (s : Bytes) → IsVisible c → space_tail (c ∷ s) ≡ none
unfolding space_tail is_space is_space_pair is_space_triple
no_space c [] h = ground arith
no_space c (b ∷ []) h = ground arith
no_space c (b ∷ d ∷ s) h = ground arith

no_space_back : (c : ℕ) (s : Bytes) → IsVisible c → space_tail_back (c ∷ s) ≡ none
unfolding space_tail_back is_space is_space_pair is_space_triple
no_space_back c [] h = ground arith
no_space_back c (b ∷ []) h = ground arith
no_space_back c (b ∷ d ∷ s) h = ground arith

newline_back : (s : Bytes) → space_tail_back (b'\n' ∷ s) ≡ some 0
unfolding space_tail_back is_space
newline_back [] = refl
newline_back (b ∷ []) = refl
newline_back (b ∷ d ∷ s) = refl

skip_visible : (c : ℕ) (s : Bytes) → IsVisible c → skip space_tail 0 (c ∷ s) ≡ c ∷ s
unfolding skip
skip_visible c s h = ground (arith, no_space c s h)

skip_visible_back : (s : Bytes) → All IsVisible s → skip space_tail_back 0 s ≡ s
unfolding skip
skip_visible_back [] h = refl
skip_visible_back (c ∷ s) (hc, h) = ground (arith, no_space_back c s hc)

skip_newline : (s : Bytes) → All IsVisible s → skip space_tail_back 0 (b'\n' ∷ s) ≡ s
unfolding skip
skip_newline s h = ground (arith, newline_back s, skip_visible_back s h)

All-reverse : (P : ℕ → Type 0) (s : Bytes) → All P s → All P (reverse s)
All-reverse P [] h = tt
All-reverse P (c ∷ s) (pc, h) =
    rw (reverse-cons c s) (All-append P (reverse s) (c ∷ []) (All-reverse P s h) (pc, tt))

pub trim_space-newline : (s : Bytes) → All IsVisible s → trim_space (s ++ codes "\n") ≡ s
unfolding trim_space
trim_space-newline [] h = ground arith
trim_space-newline (c ∷ s) (hc, h) =
    rw
      (
        skip_visible c (s ++ codes "\n") hc,
        reverse-append (c ∷ s) (codes "\n"),
        skip_newline (reverse (c ∷ s)) (All-reverse IsVisible (c ∷ s) (hc, h)),
      )
      (reverse-reverse (c ∷ s))
