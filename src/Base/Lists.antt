-- ===== src/Base/Lists.antt =====
-- Slices as lists: measured and cut by native numbers, with Go's `copy` into a buffer.
use Prim.Native.Nat.{ℕ, zero, suc, ◌+◌, ◌-◌, ◌≤◌, min}
use mathlib.Core.Path.{◌≡◌, refl, sym, ap, subst}
use mathlib.Core.Logic.{◌⊎◌, inl, inr}
use mathlib.Core.List.{List, [], ◌∷◌, ◌++◌}
use mathlib.Core.Option.{Option, none, some}
use native.Mathlib.Omega.{arith}

module _ {ℓ} {A : Type ℓ} where
  abbrev pub length : List A → ℕ
  length [] = 0
  length (x ∷ xs) = suc (length xs)

  abbrev pub get_elem? : List A → ℕ → Option A
  get_elem? [] i = none
  get_elem? (x ∷ xs) zero = some x
  get_elem? (x ∷ xs) (suc i) = get_elem? xs i

  abbrev pub take : ℕ → List A → List A
  take zero xs = []
  take (suc n) [] = []
  take (suc n) (x ∷ xs) = x ∷ take n xs

  abbrev pub drop : ℕ → List A → List A
  drop zero xs = xs
  drop (suc n) [] = []
  drop (suc n) (x ∷ xs) = drop n xs

  -- `xs[lo:hi]`, where Go panics unless `lo <= hi` and `hi` is at most the length.
  abbrev pub slice : ℕ → ℕ → List A → List A
  slice lo hi xs = take (hi - lo) (drop lo xs)

  abbrev pub replicate : ℕ → A → List A
  replicate zero a = []
  replicate (suc n) a = a ∷ replicate n a

  -- `copy(dst, src)` copies as many elements as both have.
  abbrev pub copy : List A → List A → List A
  copy [] src = []
  copy (d ∷ dst) [] = d ∷ dst
  copy (d ∷ dst) (s ∷ src) = s ∷ copy dst src

  -- `copy(dst[n:], src)`
  abbrev pub copy_at : ℕ → List A → List A → List A
  copy_at zero dst src = copy dst src
  copy_at (suc n) [] src = []
  copy_at (suc n) (d ∷ dst) src = d ∷ copy_at n dst src

  abbrev pub All {κ} : (A → Type κ) → List A → Type κ
  All P [] = Unit
  All P (x ∷ xs) = P x × All P xs

module _ {ℓ} {A : Type ℓ} where
  pub length-append : (xs ys : List A) → length (xs ++ ys) ≡ length xs + length ys
  length-append [] ys = omega arith
  length-append (x ∷ xs) ys = omega (arith, length-append xs ys)

  pub take-append-drop : (n : ℕ) (xs : List A) → take n xs ++ drop n xs ≡ xs
  take-append-drop zero xs = refl
  take-append-drop (suc n) [] = refl
  take-append-drop (suc n) (x ∷ xs) = ap (◌∷◌ x) (take-append-drop n xs)

  pub length-take : (n : ℕ) (xs : List A) → length (take n xs) ≡ min n (length xs)
  length-take zero xs = omega arith
  length-take (suc n) [] = omega arith
  length-take (suc n) (x ∷ xs) = omega (arith, length-take n xs)

  pub length-drop : (n : ℕ) (xs : List A) → length (drop n xs) ≡ length xs - n
  length-drop zero xs = omega arith
  length-drop (suc n) [] = omega arith
  length-drop (suc n) (x ∷ xs) = omega (arith, length-drop n xs)

  drop-nil : (n : ℕ) → drop {A = A} n [] ≡ []
  drop-nil zero = refl
  drop-nil (suc n) = refl

  pub drop-drop : (m k : ℕ) (xs : List A) → drop (m + k) xs ≡ drop k (drop m xs)
  drop-drop zero k xs = let e : 0 + k ≡ k = omega arith in rw e
  drop-drop (suc m) k [] = let e : suc m + k ≡ suc (m + k) = omega arith in rw e (sym (drop-nil k))
  drop-drop (suc m) k (x ∷ xs) =
      let e : suc m + k ≡ suc (m + k) = omega arith in rw e (drop-drop m k xs)

  pub take-add : (m k : ℕ) (xs : List A) → take (m + k) xs ≡ take m xs ++ take k (drop m xs)
  take-add zero k xs = let e : 0 + k ≡ k = omega arith in rw e
  take-add (suc m) zero [] = let e : suc m + 0 ≡ suc m = omega arith in rw e
  take-add (suc m) (suc k) [] = let e : suc m + suc k ≡ suc (suc (m + k)) = omega arith in rw e
  take-add (suc m) k (x ∷ xs) =
      let e : suc m + k ≡ suc (m + k) = omega arith in rw e (ap (◌∷◌ x) (take-add m k xs))

  pub take_of_length_le : (n : ℕ) (xs : List A) → length xs ≤ n → take n xs ≡ xs
  take_of_length_le zero [] h = refl
  take_of_length_le zero (x ∷ xs) h = absurd (omega arith)
  take_of_length_le (suc n) [] h = refl
  take_of_length_le (suc n) (x ∷ xs) h = ap (◌∷◌ x) (take_of_length_le n xs (omega arith))

  pub length-replicate : (n : ℕ) (a : A) → length (replicate n a) ≡ n
  length-replicate zero a = refl
  length-replicate (suc n) a = ap suc (length-replicate n a)

  pub take-length-append : (xs ys : List A) → take (length xs) (xs ++ ys) ≡ xs
  take-length-append [] ys = refl
  take-length-append (x ∷ xs) ys = ap (◌∷◌ x) (take-length-append xs ys)

  pub drop-length-append : (xs ys : List A) → drop (length xs) (xs ++ ys) ≡ ys
  drop-length-append [] ys = refl
  drop-length-append (x ∷ xs) ys = drop-length-append xs ys

  pub replicate-append : (m n : ℕ) (a : A) → replicate (m + n) a ≡ replicate m a ++ replicate n a
  replicate-append zero n a = let e : 0 + n ≡ n = omega arith in rw e
  replicate-append (suc m) n a =
      let e : suc m + n ≡ suc (m + n) = omega arith in rw e (ap (◌∷◌ a) (replicate-append m n a))

  pub All-append {κ} : (P : A → Type κ) (xs ys : List A) → All P xs → All P ys → All P (xs ++ ys)
  All-append P [] ys hx hy = hy
  All-append P (x ∷ xs) ys (px, hx) hy = (px, All-append P xs ys hx hy)

  pub All-right {κ} : (P : A → Type κ) (xs ys : List A) → All P (xs ++ ys) → All P ys
  All-right P [] ys h = h
  All-right P (x ∷ xs) ys (px, h) = All-right P xs ys h

  pub All-imp {κ μ} :
      (P : A → Type κ) (Q : A → Type μ)
      → ((x : A) → P x → Q x)
      → (xs : List A) → All P xs
      → All Q xs
  All-imp P Q f [] h = tt
  All-imp P Q f (x ∷ xs) (px, h) = (f x px, All-imp P Q f xs h)

  pub All-take {κ} : (P : A → Type κ) (n : ℕ) (xs : List A) → All P xs → All P (take n xs)
  All-take P zero xs h = tt
  All-take P (suc n) [] h = tt
  All-take P (suc n) (x ∷ xs) (px, h) = (px, All-take P n xs h)

  pub All-drop {κ} : (P : A → Type κ) (n : ℕ) (xs : List A) → All P xs → All P (drop n xs)
  All-drop P zero xs h = h
  All-drop P (suc n) [] h = tt
  All-drop P (suc n) (x ∷ xs) (px, h) = All-drop P n xs h

  -- A `copy` over a stretch of its own length replaces that stretch.
  pub copy-append :
      (mid post src : List A) → length mid ≡ length src → copy (mid ++ post) src ≡ src ++ post
  copy-append [] [] [] e = refl
  copy-append [] (p ∷ post) [] e = refl
  copy-append [] post (s ∷ src) e = absurd (omega arith)
  copy-append (m ∷ mid) post [] e = absurd (omega arith)
  copy-append (m ∷ mid) post (s ∷ src) e = ap (◌∷◌ s) (copy-append mid post src (omega arith))

  pub copy_at-append :
      (pre mid post src : List A)
      → length mid ≡ length src
      → copy_at (length pre) (pre ++ (mid ++ post)) src ≡ pre ++ (src ++ post)
  copy_at-append [] mid post src e = copy-append mid post src e
  copy_at-append (p ∷ pre) mid post src e = ap (◌∷◌ p) (copy_at-append pre mid post src e)

  pub copy_at_here :
      (n : ℕ) (pre mid post src : List A)
      → length pre ≡ n
      → length mid ≡ length src
      → copy_at n (pre ++ (mid ++ post)) src ≡ pre ++ (src ++ post)
  copy_at_here n pre mid post src e same = rw (← e) (copy_at-append pre mid post src same)

  pub take_here : (n : ℕ) (xs ys : List A) → length xs ≡ n → take n (xs ++ ys) ≡ xs
  take_here n xs ys e = rw (← e) (take-length-append xs ys)

  pub drop_here : (n : ℕ) (xs ys : List A) → length xs ≡ n → drop n (xs ++ ys) ≡ ys
  drop_here n xs ys e = rw (← e) (drop-length-append xs ys)

module _ {A : Type 0} where
  abbrev pub Member : A → List A → Type 0
  Member a [] = ⊥
  Member a (x ∷ xs) = (a ≡ x) ⊎ Member a xs

  pub Member-All {κ} : (P : A → Type κ) (a : A) (xs : List A) → All P xs → Member a xs → P a
  Member-All P a [] h m = elim m [ ]
  Member-All P a (x ∷ xs) (p, h) (inl e) = subst P (sym e) p
  Member-All P a (x ∷ xs) (p, h) (inr m) = Member-All P a xs h m
