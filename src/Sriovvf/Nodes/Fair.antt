-- ===== src/Sriovvf/Nodes/Fair.antt =====
-- The loops over the virtual functions as one loop over pairs of a function and a node, and how the
-- nodes are shared out.
use native.Mathlib.Nat.{suc-mod, mod-lt, mod-eq_of_lt, mod_self}
use dra_driver_integration_e.Base.{
  ℕ, zero, suc, ◌+◌, ◌-◌, ◌%◌, ◌≤◌, ◌<◌, ◌≡◌, refl, ap, ◌∙◌, ◌≢◌, ◌⊎◌, inl, inr, Option, none, some,
  List, [], ◌∷◌, map, arith, ltb, leb, ◌==◌, if◌then◌else◌, ltb→lt, ltb→le, Bool-cases, length,
  get_elem?, Bytes,
}
use dra_driver_integration_e.Base.Int.{ℤ, pos}
use dra_driver_integration_e.Sriovvf.{Sysfs, SriovError, node_index}
use dra_driver_integration_e.Sriovvf.Nodes.{set_vf_node, pin_vf_numa, balance_from, balance_vf_numa}

-- The functions with the positions of their nodes: in turns, the first again after the last.
abbrev pub turns : ℕ → ℕ → List Bytes → List (Bytes × ℕ)
turns n idx [] = []
turns n idx (vf_path ∷ vf_paths) = (vf_path, idx % n) ∷ turns n (suc idx) vf_paths

-- How many functions a position has.
abbrev pub served : ℕ → List (Bytes × ℕ) → ℕ
served j [] = 0
served j ((vf_path, i) ∷ shares) = (if i == j then 1 else 0) + served j shares

-- How many turns pass from the position `r` to `j`.
abbrev ahead : ℕ → ℕ → ℕ → ℕ
ahead n r j = if leb r j then j - r else j + n - r

suc-mod_cases :
    (n idx : ℕ)
    → 0 < n
    → ((suc (idx % n) < n) × (suc idx % n ≡ suc (idx % n)))
      ⊎ ((suc (idx % n) ≡ n) × (suc idx % n ≡ 0))
suc-mod_cases n idx h =
    let less = mod-lt idx h in
    elim (Bool-cases (ltb (suc (idx % n)) n)) [
      | inl e ↦ let more = ltb→lt _ _ e in inl (more, suc-mod idx n ∙ mod-eq_of_lt more)
      | inr e ↦
          let full : suc (idx % n) ≡ n = let k = ltb→le _ _ e in omega arith in
          inr (full, suc-mod idx n ∙ ap (λ m. m % n) full ∙ mod_self n)
    ]

module _ (n : ℕ) (some_node : 0 < n) where
  -- The position whose turn comes first has as many functions as the other, or one more.
  first_served :
      (vf_paths : List Bytes) (idx i j : ℕ)
      → i < n
      → j < n
      → ahead n (idx % n) i ≤ ahead n (idx % n) j
      → (served j (turns n idx vf_paths) ≤ served i (turns n idx vf_paths))
        × (served i (turns n idx vf_paths) ≤ served j (turns n idx vf_paths) + 1)
  first_served [] idx i j hi hj h = omega arith
  first_served (vf_path ∷ vf_paths) idx i j hi hj h =
      let less = mod-lt idx some_node in
      let next = suc-mod_cases n idx some_node in
      elim (Bool-cases (idx % n == i)) [
        | inl mine ↦
            let later : ahead n (suc idx % n) j ≤ ahead n (suc idx % n) i = ground arith in
            let rest = first_served vf_paths (suc idx) j i hj hi later in ground arith
        | inr other ↦
            let later : ahead n (suc idx % n) i ≤ ahead n (suc idx % n) j = ground arith in
            let rest = first_served vf_paths (suc idx) i j hi hj later in ground arith
      ]

-- Any two nodes get the same number of functions, up to one.
pub served-turns :
    (vf_paths : List Bytes) (n i j : ℕ)
    → i < n
    → j < n
    → served i (turns n 0 vf_paths) ≤ served j (turns n 0 vf_paths) + 1
served-turns vf_paths n i j hi hj =
    let first = first_served n (omega arith) vf_paths 0 i j hi hj in
    let second = first_served n (omega arith) vf_paths 0 j i hj hi in
    elim (Bool-cases (leb (ahead n (0 % n) i) (ahead n (0 % n) j))) [
      | inl e ↦ (first (ground arith)).1
      | inr e ↦ let le = (second (ground arith)).0 in omega arith
    ]

-- The node at a position, where there is one.
abbrev pub node_at : List ℤ → ℕ → ℤ
node_at [] i = pos 0
node_at (node ∷ nodes) zero = node
node_at (node ∷ nodes) (suc i) = node_at nodes i

get_elem?-node_at :
    (nodes : List ℤ) (i : ℕ) → i < length nodes → get_elem? nodes i ≡ some (node_at nodes i)
get_elem?-node_at [] i h = absurd (omega arith)
get_elem?-node_at (node ∷ nodes) zero h = refl
get_elem?-node_at (node ∷ nodes) (suc i) h = get_elem?-node_at nodes i (omega arith)

abbrev pub placed : List ℤ → List (Bytes × ℕ) → List (Bytes × ℤ)
placed nodes [] = []
placed nodes ((vf_path, i) ∷ shares) = (vf_path, node_at nodes i) ∷ placed nodes shares

module _ (S : Sysfs) where
  -- The writes in order, up to the first that fails.
  unfoldable pub set_all : S.World → List (Bytes × ℤ) → Option SriovError × S.World
  set_all w [] = (none, w)
  set_all w ((vf_path, node) ∷ pairs) =
      let (failure, w') = set_vf_node S w vf_path node in
      let rest = set_all w' pairs in elim failure [ none ↦ rest | some e ↦ (some e, w') ]

  pub pin_vf_numa-set_all :
      (w : S.World) (vf_paths : List Bytes) (node : ℤ)
      → pin_vf_numa S w vf_paths node ≡ set_all w (map (λ vf_path. (vf_path, node)) vf_paths)
  unfolding pin_vf_numa set_all
  pin_vf_numa-set_all w [] node = refl
  pin_vf_numa-set_all w (vf_path ∷ vf_paths) node =
      ground (arith, pin_vf_numa-set_all (set_vf_node S w vf_path node).1 vf_paths node)

  pub balance_from-set_all :
      (vf_paths : List Bytes) (idx : ℕ) (w : S.World) (nodes : List ℤ)
      → 0 < length nodes
      → balance_from S idx w vf_paths nodes
        ≡ set_all w (placed nodes (turns (length nodes) idx vf_paths))
  unfolding balance_from set_all
  balance_from-set_all [] idx w nodes h = refl
  balance_from-set_all (vf_path ∷ vf_paths) idx w nodes h =
      let i = idx % length nodes in
      let node = node_at nodes i in
      let found = get_elem?-node_at nodes i (mod-lt idx h) in
      let rest = balance_from-set_all vf_paths (suc idx) (set_vf_node S w vf_path node).1 nodes h in
      ground (arith, found, rest)

  -- Balancing writes, in the order of the functions and up to the first failure, the node whose
  -- turn it is; and in that plan any two nodes have the same number of functions, up to one.
  pub balance_vf_numa_lem :
      (w : S.World) (vf_paths : List Bytes) (nodes : List ℤ) (i j : ℕ)
      → i < length nodes
      → j < length nodes
      → let plan = turns (length nodes) 0 vf_paths in
        (balance_vf_numa S w vf_paths nodes ≡ set_all w (placed nodes plan))
        × (served i plan ≤ served j plan + 1)
  unfolding balance_vf_numa
  balance_vf_numa_lem w vf_paths nodes i j hi hj = (
    balance_from-set_all vf_paths 0 w nodes (omega arith),
    served-turns vf_paths (length nodes) i j hi hj,
  )

  set_vf_node_no_panic :
      (w : S.World) (vf_path : Bytes) (node : ℤ)
      → (set_vf_node S w vf_path node).0 ≢ some node_index
  unfolding set_vf_node
  set_vf_node_no_panic w vf_path node h = ground arith

  set_all_no_panic :
      (pairs : List (Bytes × ℤ)) (w : S.World) → (set_all w pairs).0 ≢ some node_index
  unfolding set_all
  set_all_no_panic [] w h = ground arith
  set_all_no_panic ((vf_path, node) ∷ pairs) w h =
      let r = set_vf_node S w vf_path node in
      ground (arith, set_vf_node_no_panic w vf_path node, set_all_no_panic pairs r.1)

  -- With at least one node no index is out of range, and there is no division by zero.
  pub balance_vf_numa_no_panic :
      (w : S.World) (vf_paths : List Bytes) (nodes : List ℤ)
      → 0 < length nodes
      → (balance_vf_numa S w vf_paths nodes).0 ≢ some node_index
  unfolding balance_vf_numa
  balance_vf_numa_no_panic w vf_paths nodes h =
      rw (balance_from-set_all vf_paths 0 w nodes h)
        (set_all_no_panic (placed nodes (turns (length nodes) 0 vf_paths)) w)
