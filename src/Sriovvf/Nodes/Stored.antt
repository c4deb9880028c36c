-- ===== src/Sriovvf/Nodes/Stored.antt =====
-- What the functions' files hold behind the loops over them.
use dra_driver_integration_e.Base.{
  ℕ, zero, suc, ◌<◌, ◌≡◌, refl, sym, ap, ◌∙◌, ◌≢◌, Option, none, some, List, [], ◌∷◌, ◌++◌, map,
  arith, length, All, ok, Bytes, codes,
}
use dra_driver_integration_e.Base.Int.{ℤ, int_text}
use dra_driver_integration_e.Base.Int.RoundTrip.{IsInt64, atoi-trim_space}
use dra_driver_integration_e.Sriovvf.{
  FsError, Sysfs, SriovError, read_int_from_file, write_int_to_file,
}
use dra_driver_integration_e.Sriovvf.Nodes.{numa_path, set_vf_node, pin_vf_numa, balance_vf_numa}
use dra_driver_integration_e.Sriovvf.Nodes.Fair.{
  turns, node_at, placed, set_all, pin_vf_numa-set_all, balance_from-set_all,
}

-- What sysfs does with the files `numa_node`: it keeps what was written, and a write to one,
-- whether it succeeds or not, leaves the others as they are.
pub record Keeps (S : Sysfs) : Type 0 where
  pub reads_back :
      (w : S.World) (vf_path contents : Bytes) (w' : S.World)
      → S.write_file w (numa_path vf_path) contents ≡ (none, w')
      → S.read_file w' (numa_path vf_path) ≡ ok contents
  pub others :
      (w : S.World) (vf_path other contents : Bytes)
      → numa_path other ≢ numa_path vf_path
      → S.read_file (S.write_file w (numa_path vf_path) contents).1 (numa_path other)
        ≡ S.read_file w (numa_path other)

-- No file is written twice.
abbrev pub Apart : List (Bytes × ℤ) → Type 0
Apart [] = Unit
Apart ((vf_path, node) ∷ pairs) = All (λ p. numa_path vf_path ≢ numa_path p.0) pairs × Apart pairs

range_at : (nodes : List ℤ) (i : ℕ) → All IsInt64 nodes → IsInt64 (node_at nodes i)
range_at [] i h = omega arith
range_at (node ∷ nodes) zero (first, h) = first
range_at (node ∷ nodes) (suc i) (first, h) = range_at nodes i h

module _ (S : Sysfs) (keeps : Keeps S) where
  -- The function's file holds the node.
  abbrev pub HoldsNode : S.World → Bytes × ℤ → Type 0
  HoldsNode w (vf_path, node) = read_int_from_file S w (numa_path vf_path) ≡ ok node

  stored :
      (w : S.World) (vf_path : Bytes) (node : ℤ) (w' : S.World)
      → IsInt64 node
      → set_vf_node S w vf_path node ≡ (none, w')
      → HoldsNode w' (vf_path, node)
  unfolding set_vf_node write_int_to_file read_int_from_file
  stored w vf_path node w' range h =
      go (S.write_file w (numa_path vf_path) (int_text node ++ codes "\n")).0
        (S.write_file w (numa_path vf_path) (int_text node ++ codes "\n")).1 refl
    where
      go :
          (f : Option FsError) (u : S.World)
          → S.write_file w (numa_path vf_path) (int_text node ++ codes "\n") ≡ (f, u)
          → HoldsNode w' (vf_path, node)
      go (some e) u p = absurd (ground arith)
      go none u p =
          let same : u ≡ w' = ground arith in
          ground (
            arith,
            keeps.reads_back w vf_path (int_text node ++ codes "\n") u p,
            atoi-trim_space node range,
          )

  kept :
      (w : S.World) (vf_path : Bytes) (node : ℤ) (other : Bytes)
      → numa_path other ≢ numa_path vf_path
      → S.read_file (set_vf_node S w vf_path node).1 (numa_path other)
        ≡ S.read_file w (numa_path other)
  unfolding set_vf_node write_int_to_file
  kept w vf_path node other h = keeps.others w vf_path other (int_text node ++ codes "\n") h

  -- Writes to other files leave a file alone.
  kept-All :
      (pairs : List (Bytes × ℤ)) (w : S.World) (other : Bytes)
      → All (λ p. numa_path other ≢ numa_path p.0) pairs
      → S.read_file (set_all S w pairs).1 (numa_path other) ≡ S.read_file w (numa_path other)
  unfolding set_all
  kept-All [] w other h = refl
  kept-All ((vf_path, node) ∷ pairs) w other (ne, h) =
      let r = set_vf_node S w vf_path node in
      ground (arith, kept w vf_path node other ne, kept-All pairs r.1 other h)

  same_number :
      (w v : S.World) (path : Bytes)
      → S.read_file v path ≡ S.read_file w path
      → read_int_from_file S v path ≡ read_int_from_file S w path
  unfolding read_int_from_file
  same_number w v path h = ground (arith, h)

  -- When no write fails, each file holds the node that was written to it.
  set_all_stored :
      (pairs : List (Bytes × ℤ)) (w w' : S.World)
      → Apart pairs
      → All (λ p. IsInt64 p.1) pairs
      → set_all S w pairs ≡ (none, w')
      → All (HoldsNode w') pairs
  unfolding set_all
  set_all_stored [] w w' apart range h = tt
  set_all_stored ((vf_path, node) ∷ pairs) w w' (ne, apart) (small, range) h =
      go (set_vf_node S w vf_path node).0 (set_vf_node S w vf_path node).1 refl
        (λ u. set_all_stored pairs u w' apart range)
    where
      go :
          (f : Option SriovError) (u : S.World)
          → set_vf_node S w vf_path node ≡ (f, u)
          → ((v : S.World) → set_all S v pairs ≡ (none, w') → All (HoldsNode w') pairs)
          → All (HoldsNode w') ((vf_path, node) ∷ pairs)
      go (some e) u p more = absurd (ground arith)
      go none u p more =
          let rest : set_all S u pairs ≡ (none, w') = ground arith in
          let first = stored w vf_path node u small p in
          let same = rw (ap (λ r. r.1) rest) at (kept-All pairs u vf_path ne) in
          (same_number u w' (numa_path vf_path) same ∙ first, more u rest)

  range_placed :
      (nodes : List ℤ) (plan : List (Bytes × ℕ))
      → All IsInt64 nodes
      → All (λ p. IsInt64 p.1) (placed nodes plan)
  range_placed nodes [] h = tt
  range_placed nodes ((vf_path, i) ∷ plan) h = (range_at nodes i h, range_placed nodes plan h)

  -- When balancing succeeds over at least one node, the file of each virtual function holds the
  -- node whose turn it was, if the files are distinct and the nodes numbers of 64 bits.
  pub balance_vf_numa_stored :
      (w w' : S.World) (vf_paths : List Bytes) (nodes : List ℤ)
      → 0 < length nodes
      → All IsInt64 nodes
      → Apart (placed nodes (turns (length nodes) 0 vf_paths))
      → balance_vf_numa S w vf_paths nodes ≡ (none, w')
      → All (HoldsNode w') (placed nodes (turns (length nodes) 0 vf_paths))
  unfolding balance_vf_numa
  balance_vf_numa_stored w w' vf_paths nodes some_node range apart h =
      set_all_stored (placed nodes (turns (length nodes) 0 vf_paths)) w w' apart
        (range_placed nodes (turns (length nodes) 0 vf_paths) range)
        (sym (balance_from-set_all S vf_paths 0 w nodes some_node) ∙ h)

  range_pinned :
      (vf_paths : List Bytes) (node : ℤ)
      → IsInt64 node
      → All {A = Bytes × ℤ} (λ p. IsInt64 p.1) (map (λ vf_path. (vf_path, node)) vf_paths)
  range_pinned [] node h = tt
  range_pinned (vf_path ∷ vf_paths) node h = (h, range_pinned vf_paths node h)

  -- When pinning succeeds the file of each virtual function holds the node, if the files are
  -- distinct and the node a number of 64 bits.
  pub pin_vf_numa_stored :
      (w w' : S.World) (vf_paths : List Bytes) (node : ℤ)
      → IsInt64 node
      → Apart (map (λ vf_path. (vf_path, node)) vf_paths)
      → pin_vf_numa S w vf_paths node ≡ (none, w')
      → All (HoldsNode w') (map (λ vf_path. (vf_path, node)) vf_paths)
  pin_vf_numa_stored w w' vf_paths node range apart h =
      set_all_stored (map (λ vf_path. (vf_path, node)) vf_paths) w w' apart
        (range_pinned vf_paths node range) (sym (pin_vf_numa-set_all S w vf_paths node) ∙ h)
