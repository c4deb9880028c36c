-- ===== src/Hugepages/Split.antt =====
-- How the pages of a group are split over the nodes.
use native.Mathlib.Nat.{mod-add-div}
use dra_driver_integration_e.Base.{
  ℕ, zero, suc, ◌+◌, ◌*◌, ◌/◌, ◌%◌, ◌<◌, ◌≡◌, refl, sym, ap, ◌∙◌, List, [], ◌∷◌, arith,
}
use dra_driver_integration_e.Base.Int.{ℤ, pos, negsuc, ◌+ℤ◌, quot, rem, neg_ℕ}

-- The nodes with their counts: the first node has the pages that are left over, and the others have
-- the same number each.
abbrev pub shares_from : ℕ → ℕ → ℤ → List (ℤ × ℤ)
shares_from zero numa_node per_node = []
shares_from (suc more) numa_node per_node =
    (pos numa_node, per_node) ∷ shares_from more (suc numa_node) per_node

abbrev pub shares : ℕ → ℤ → List (ℤ × ℤ)
shares zero hp_count = []
shares (suc n) hp_count =
    (pos 0, quot hp_count (suc n) +ℤ rem hp_count (suc n)) ∷ shares_from n 1 (quot hp_count (suc n))

abbrev pub total : List (ℤ × ℤ) → ℤ
total [] = pos 0
total ((numa_node, hp_count) ∷ rest) = hp_count +ℤ total rest

neg_ℕ-+ℤ : (a b : ℕ) → neg_ℕ a +ℤ neg_ℕ b ≡ neg_ℕ (a + b)
neg_ℕ-+ℤ zero zero = ground arith
neg_ℕ-+ℤ zero (suc b) = ground arith
neg_ℕ-+ℤ (suc a) zero = ground arith
neg_ℕ-+ℤ (suc a) (suc b) = let e : suc a + suc b ≡ suc (a + b + 1) = omega arith in rw e refl

suc_times : (m p : ℕ) → suc m * p ≡ p + m * p
suc_times m p = omega arith

total-pos : (more k p : ℕ) → total (shares_from more k (pos p)) ≡ pos (more * p)
total-pos zero k p = ground arith
total-pos (suc more) k p = rw (total-pos more (suc k) p) (ap pos (sym (suc_times more p)))

total-neg_ℕ : (more k q : ℕ) → total (shares_from more k (neg_ℕ q)) ≡ neg_ℕ (more * q)
total-neg_ℕ zero k q = ground arith
total-neg_ℕ (suc more) k q =
    rw (total-neg_ℕ more (suc k) q) (neg_ℕ-+ℤ q (more * q) ∙ ap neg_ℕ (sym (suc_times more q)))

-- A quotient, a remainder, and the quotient for each of the other nodes.
whole : (n a : ℕ) → a / suc n + a % suc n + n * (a / suc n) ≡ a
whole n a = let parts = mod-add-div a (suc n) in let more = suc_times n (a / suc n) in omega arith

-- No page is lost and none is added, whatever the count and the number of nodes.
pub total-shares : (n : ℕ) (hp_count : ℤ) → 0 < n → total (shares n hp_count) ≡ hp_count
total-shares zero hp_count h = absurd (omega arith)
total-shares (suc n) (pos a) h = rw (total-pos n 1 (a / suc n)) (ap pos (whole n a))
total-shares (suc n) (negsuc a) h =
    rw
      (
        total-neg_ℕ n 1 (suc a / suc n),
        neg_ℕ-+ℤ (suc a / suc n) (suc a % suc n),
        neg_ℕ-+ℤ (suc a / suc n + suc a % suc n) (n * (suc a / suc n)),
      )
      (ap neg_ℕ (whole n (suc a)))
