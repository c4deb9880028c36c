-- ===== src/Base/Sort.antt =====
-- `sort.Strings`, `sort.Ints` and `sort.Slice` on a total order: what they return does not depend
-- on the algorithm, which is insertion here.
use mathlib.Core.Logic.{◌⊎◌, inl, inr}
use mathlib.Core.Bool.{Bool}
use mathlib.Core.List.{List, [], ◌∷◌}
use dra_driver_integration_e.Base.Tests.{Holds, Bool-cases, if◌then◌else◌}
use dra_driver_integration_e.Base.Lists.{Member, All}
use mathlib.Core.List.{Perm}
use mathlib.Core.List.Perm

module _ {ℓ} {A : Type ℓ} (le : A → A → Bool) where
  insert : A → List A → List A
  insert x [] = x ∷ []
  insert x (y ∷ ys) = let later = insert x ys in if le x y then x ∷ y ∷ ys else y ∷ later

  unfoldable pub sort : List A → List A
  unfolding insert
  sort [] = []
  sort (x ∷ xs) = insert x (sort xs)

  abbrev pub IsSorted : List A → Type ℓ
  IsSorted [] = Unit
  IsSorted (x ∷ xs) = All (λ y. Holds (le x y)) xs × IsSorted xs

  insert-perm : (x : A) (xs : List A) → Perm (insert x xs) (x ∷ xs)
  unfolding insert
  insert-perm x [] = Perm.refl (x ∷ [])
  insert-perm x (y ∷ ys) = elim (Bool-cases (le x y)) [
    | inl e ↦ rw (e, insert) (Perm.refl (x ∷ y ∷ ys))
    | inr e ↦ rw (e, insert) (Perm.trans (Perm.cons y (insert-perm x ys)) (Perm.swap x y ys))
  ]

  -- Nothing is lost and nothing is added.
  pub sort-perm : (xs : List A) → Perm (sort xs) xs
  unfolding sort
  sort-perm [] = Perm.refl []
  sort-perm (x ∷ xs) = Perm.trans (insert-perm x (sort xs)) (Perm.cons x (sort-perm xs))

  insert-All {κ} : (P : A → Type κ) (x : A) (xs : List A) → P x → All P xs → All P (insert x xs)
  unfolding insert
  insert-All P x [] px h = (px, tt)
  insert-All P x (y ∷ ys) px (py, h) = elim (Bool-cases (le x y)) [
    | inl e ↦ rw (e, insert) (px, (py, h))
    | inr e ↦ rw (e, insert) (py, insert-All P x ys px h)
  ]

  pub sort-All {κ} : (P : A → Type κ) (xs : List A) → All P xs → All P (sort xs)
  unfolding sort
  sort-All P [] h = tt
  sort-All P (x ∷ xs) (px, h) = insert-All P x (sort xs) px (sort-All P xs h)

module _ {ℓ} {A : Type ℓ} (le : A → A → Bool) (total : (x y : A) → Holds (le x y) ⊎ Holds (le y x))
    (trans : (x y z : A) → Holds (le x y) → Holds (le y z) → Holds (le x z)) where
  All-below :
      (x y : A) (ys : List A)
      → Holds (le x y)
      → All (λ z. Holds (le y z)) ys
      → All (λ z. Holds (le x z)) ys
  All-below x y [] h hs = tt
  All-below x y (z ∷ zs) h (hz, hs) = (trans x y z h hz, All-below x y zs h hs)

  insert-IsSorted : (x : A) (xs : List A) → IsSorted le xs → IsSorted le (insert le x xs)
  unfolding insert
  insert-IsSorted x [] s = (tt, tt)
  insert-IsSorted x (y ∷ ys) (h, s) = elim (total x y) [
    | inl e ↦ rw (e, insert) ((e, All-below x y ys e h), (h, s))
    | inr e ↦ elim (Bool-cases (le x y)) [
      | inl f ↦ rw (f, insert) ((f, All-below x y ys f h), (h, s))
      | inr f ↦
          rw (f, insert) (insert-All le (λ z. Holds (le y z)) x ys e h, insert-IsSorted x ys s)
    ]
  ]

  pub sort-IsSorted : (xs : List A) → IsSorted le (sort le xs)
  unfolding sort
  sort-IsSorted [] = tt
  sort-IsSorted (x ∷ xs) = insert-IsSorted x (sort le xs) (sort-IsSorted xs)

module _ {A : Type 0} (le : A → A → Bool) where
  insert-Member : (a x : A) (xs : List A) → Member a (x ∷ xs) → Member a (insert le x xs)
  unfolding insert
  insert-Member a x [] m = m
  insert-Member a x (y ∷ ys) m = elim (Bool-cases (le x y)) [
    | inl e ↦ rw (e, insert) m
    | inr e ↦
        rw (e, insert)
          (elim m [
            | inl here ↦ inr (insert-Member a x ys (inl here))
            | inr (inl next) ↦ inl next
            | inr (inr later) ↦ inr (insert-Member a x ys (inr later))
          ])
  ]

  pub sort-Member : (a : A) (xs : List A) → Member a xs → Member a (sort le xs)
  unfolding sort
  sort-Member a [] m = m
  sort-Member a (x ∷ xs) (inl here) = insert-Member a x (sort le xs) (inl here)
  sort-Member a (x ∷ xs) (inr later) = insert-Member a x (sort le xs) (inr (sort-Member a xs later))
