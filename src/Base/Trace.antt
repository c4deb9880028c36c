-- ===== src/Base/Trace.antt =====
-- Calls of code of others, in their order, up to the first that fails: what a function has called,
-- with the value or the error that it ends with.
use mathlib.Core.Path.{subst}
use dra_driver_integration_e.Base.{
  ◌≡◌, refl, ap, sym, ◌∙◌, Option, none, some, List, [], ◌∷◌, ◌++◌, arith, All, Result, ok, err,
  append_assoc,
}

abbrev pub Traced {ℓ κ μ} : Type ℓ → Type κ → Type μ → Type (ℓ ⊔ κ ⊔ μ)
Traced C E A = List C × Result E A

-- The rest of a function, behind the calls that were made.
abbrev pub behind {ℓ κ μ} :
    {C : Type ℓ} {E : Type κ} {A : Type μ} → List C → Traced C E A → Traced C E A
behind calls (later, r) = (calls ++ later, r)

infixl 5 ◌>>=◌
abbrev pub ◌>>=◌ {ℓ κ μ ν} :
    {C : Type ℓ} {E : Type κ} {A : Type μ} {B : Type ν}
    → Traced C E A
    → (A → Traced C E B)
    → Traced C E B
(calls, err e) >>= f = (calls, err e)
(calls, ok a) >>= f = behind calls (f a)

-- An error that may be, with what it becomes.
abbrev pub wrapped {ℓ κ} : {X : Type ℓ} {E : Type κ} → (X → E) → Option X → Option E
wrapped wrap none = none
wrapped wrap (some e) = some (wrap e)

module _ {C : Type 0} {E : Type 0} where
  -- One call that gives a value or an error.
  abbrev pub call {ℓ} : {A : Type ℓ} → C → Result E A → Traced C E A
  call c r = (c ∷ [], r)

  -- One call that may fail, with what its error becomes; `none` is no error.
  abbrev pub attempt {ℓ} : {X : Type ℓ} → C → (X → E) → Option X → Traced C E (Unit {0})
  attempt c wrap none = call c (ok tt)
  attempt c wrap (some e) = call c (err (wrap e))

  abbrev pub done : C → Traced C E (Unit {0})
  done c = call c (ok tt)

  -- A list of calls, up to the first that fails, with the calls that clean up behind it.
  unfoldable pub until_failure : (C → List C) → (C → Option E) → List C → Traced C E (Unit {0})
  until_failure clean_up failure [] = ([], ok tt)
  until_failure clean_up failure (c ∷ cs) = elim (failure c) [
    | some e ↦ (c ∷ clean_up c, err e)
    | none ↦ behind (c ∷ []) (until_failure clean_up failure cs)
  ]

  behind-bind :
      (calls : List C) (m : Traced C E (Unit {0})) (f : Unit {0} → Traced C E (Unit {0}))
      → (behind calls m >>= f) ≡ behind calls (m >>= f)
  behind-bind calls (later, err e) f = refl
  behind-bind calls (later, ok a) f = ap (λ cs. (cs, (f a).1)) (append_assoc calls later (f a).0)

  pub until_failure-append :
      (clean_up : C → List C) (failure : C → Option E) (xs ys : List C)
      → until_failure clean_up failure (xs ++ ys)
        ≡ (until_failure clean_up failure xs >>= λ _. until_failure clean_up failure ys)
  unfolding until_failure
  until_failure-append clean_up failure [] ys = refl
  until_failure-append clean_up failure (c ∷ xs) ys =
      go (until_failure-append clean_up failure xs ys) (failure c) refl
    where
      go :
          until_failure clean_up failure (xs ++ ys)
            ≡ (until_failure clean_up failure xs >>= λ _. until_failure clean_up failure ys)
          → (r : Option E) → failure c ≡ r
          → until_failure clean_up failure (c ∷ (xs ++ ys))
            ≡ (until_failure clean_up failure (c ∷ xs) >>= λ _. until_failure clean_up failure ys)
      go ih (some e) p = rw (until_failure, p) refl
      go ih none p =
          rw (until_failure, p)
            (ap (behind (c ∷ [])) ih
              ∙ sym (
                  behind-bind (c ∷ []) (until_failure clean_up failure xs)
                    (λ _. until_failure clean_up failure ys)))

  pub until_failure-bind :
      (clean_up : C → List C) (failure : C → Option E) (xs ys : List C)
      (m n : Traced C E (Unit {0}))
      → m ≡ until_failure clean_up failure xs
      → n ≡ until_failure clean_up failure ys
      → (m >>= λ _. n) ≡ until_failure clean_up failure (xs ++ ys)
  until_failure-bind clean_up failure xs ys m n p q =
      rw (p, q, until_failure-append clean_up failure xs ys) refl

  -- The calls are the list's up to one, which failed with the error that is given, with those that
  -- clean up behind it, or all of them.
  abbrev pub StopsAt : (C → List C) → (C → Option E) → List C → Traced C E (Unit {0}) → Type 0
  StopsAt clean_up failure cs (calls, ok u) = (calls ≡ cs) × All (λ c. failure c ≡ none) cs
  StopsAt clean_up failure cs (calls, err e) =
      (before : List C) × (c : C) × (after : List C) × (cs ≡ before ++ (c ∷ after))
      × (calls ≡ before ++ (c ∷ clean_up c))
      × (failure c ≡ some e)
      × All (λ b. failure b ≡ none) before

  pub until_failure-StopsAt :
      (clean_up : C → List C) (failure : C → Option E) (cs : List C)
      → StopsAt clean_up failure cs (until_failure clean_up failure cs)
  unfolding until_failure
  until_failure-StopsAt clean_up failure [] = (refl, tt)
  until_failure-StopsAt clean_up failure (c ∷ cs) =
      go (until_failure-StopsAt clean_up failure cs) (failure c) refl
    where
      step :
          failure c ≡ none
          → (m : Traced C E (Unit {0})) → StopsAt clean_up failure cs m
          → StopsAt clean_up failure (c ∷ cs) (behind (c ∷ []) m)
      step p (calls, ok u) (e, h) = (ap (◌∷◌ c) e, (p, h))
      step p (calls, err e) (before, d, after, e1, e2, e3, h) =
          (c ∷ before, d, after, ap (◌∷◌ c) e1, ap (◌∷◌ c) e2, e3, (p, h))

      go :
          StopsAt clean_up failure cs (until_failure clean_up failure cs)
          → (r : Option E) → failure c ≡ r
          → StopsAt clean_up failure (c ∷ cs) (until_failure clean_up failure (c ∷ cs))
      go ih (some e) p = rw (until_failure, p) ([], c, cs, refl, refl, p, tt)
      go ih none p = rw (until_failure, p) (step p (until_failure clean_up failure cs) ih)

  -- What holds of each call of the list, and of those behind it, holds of those that are made.
  pub until_failure-All :
      (P : C → Type 0) (clean_up : C → List C) (failure : C → Option E) (cs : List C)
      → All (λ c. P c × All P (clean_up c)) cs
      → All P (until_failure clean_up failure cs).0
  unfolding until_failure
  until_failure-All P clean_up failure [] h = tt
  until_failure-All P clean_up failure (c ∷ cs) ((p, cleaned), h) =
      go (until_failure-All P clean_up failure cs h) (failure c) refl
    where
      go :
          All P (until_failure clean_up failure cs).0
          → (r : Option E) → failure c ≡ r
          → All P (until_failure clean_up failure (c ∷ cs)).0
      go ih (some e) q = rw (until_failure, q) (p, cleaned)
      go ih none q = rw (until_failure, q) (p, ih)

  pub until_failure_safe :
      (clean_up : C → List C) (failure : C → Option E) (cs : List C)
      → All (λ c. failure c ≡ none) cs
      → until_failure clean_up failure cs ≡ (cs, ok tt)
  unfolding until_failure
  until_failure_safe clean_up failure [] h = refl
  until_failure_safe clean_up failure (c ∷ cs) (p, h) =
      rw (until_failure, p, until_failure_safe clean_up failure cs h) refl

  -- Calls that do not fail, at the end of the list, are not made by a run that fails.
  pub until_failure_err :
      (clean_up : C → List C) (failure : C → Option E) (xs ys calls : List C) (e : E)
      → All (λ c. failure c ≡ none) ys
      → until_failure clean_up failure (xs ++ ys) ≡ (calls, err e)
      → until_failure clean_up failure xs ≡ (calls, err e)
  until_failure_err clean_up failure xs ys calls e h p =
      go (until_failure clean_up failure xs) (sym (until_failure-append clean_up failure xs ys) ∙ p)
    where
      go :
          (m : Traced C E (Unit {0}))
          → (m >>= λ _. until_failure clean_up failure ys) ≡ (calls, err e)
          → m ≡ (calls, err e)
      go (before, err d) q = q
      go (before, ok u) q = absurd (ground (arith, until_failure_safe clean_up failure ys h))

  -- A run that fails has ended with the call that failed, and those that clean up behind it.
  pub until_failure_last :
      (clean_up : C → List C) (failure : C → Option E) (cs calls : List C) (e : E)
      → until_failure clean_up failure cs ≡ (calls, err e)
      → (before : List C) × (c : C) × (calls ≡ before ++ (c ∷ clean_up c))
        × (failure c ≡ some e)
        × All (λ b. failure b ≡ none) before
  until_failure_last clean_up failure cs calls e h =
      go (subst (StopsAt clean_up failure cs) h (until_failure-StopsAt clean_up failure cs))
    where
      go :
          StopsAt clean_up failure cs (calls, err e)
          → (before : List C) × (c : C) × (calls ≡ before ++ (c ∷ clean_up c))
            × (failure c ≡ some e)
            × All (λ b. failure b ≡ none) before
      go (before, c, after, _, e2, e3, h2) = (before, c, e2, e3, h2)
