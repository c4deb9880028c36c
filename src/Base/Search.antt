-- ===== src/Base/Search.antt =====
-- `strings.Contains`: a text that lacks a byte does not contain a text that has it; what contains a
-- text still does with more in front.
use dra_driver_integration_e.Base.{
  ℕ, ◌≡◌, refl, inl, inr, true, false, [], ◌∷◌, ◌++◌, arith, Member, Bytes, has_prefix, contains,
}
use dra_driver_integration_e.Base.FilePath.{Lacks}

has_prefix-Lacks : (c : ℕ) (s sub : Bytes) → Lacks c s → Member c sub → has_prefix s sub ≡ false
unfolding has_prefix
has_prefix-Lacks c s [] h m = elim m [ ]
has_prefix-Lacks c [] (y ∷ sub) h m = refl
has_prefix-Lacks c (x ∷ s) (y ∷ sub) (ne, h) (inl here) = ground arith
has_prefix-Lacks c (x ∷ s) (y ∷ sub) (ne, h) (inr later) =
    ground (arith, has_prefix-Lacks c s sub h later)

pub contains-Lacks : (c : ℕ) (s sub : Bytes) → Lacks c s → Member c sub → contains s sub ≡ false
unfolding contains
contains-Lacks c [] sub h m = has_prefix-Lacks c [] sub h m
contains-Lacks c (x ∷ s) sub (ne, h) m =
    ground (arith, has_prefix-Lacks c (x ∷ s) sub (ne, h) m, contains-Lacks c s sub h m)

pub contains-append : (pre s sub : Bytes) → contains s sub ≡ true → contains (pre ++ s) sub ≡ true
unfolding contains
contains-append [] s sub h = h
contains-append (x ∷ pre) s sub h = ground (arith, contains-append pre s sub h)
