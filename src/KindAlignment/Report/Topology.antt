-- ===== src/KindAlignment/Report/Topology.antt =====
-- The topology of a machine whose nodes have distinct numbers.
use dra_driver_integration_e.Base.{
  ℕ, ◌^◌, ◌<◌, ◌≡◌, refl, sym, ap, ◌≢◌, List, [], ◌∷◌, ◌++◌, map, arith, All, All-append, Result,
  ok, Bytes, codes, append_assoc, append-nil,
}
use dra_driver_integration_e.Base.Decimal.{itoa}
use dra_driver_integration_e.Base.Int.{pos, eq_ℤ_iff}
use dra_driver_integration_e.Base.Int.RoundTrip.{digits_value-itoa}
use dra_driver_integration_e.Base.FilePath.{join}
use dra_driver_integration_e.KindAlignment.Report.{
  CpuSets, Topology, node_root, node_id, set_zone, load_cpu_set_from_file, load_zones, node_names,
  load_physical_topology,
}

abbrev pub node_name : ℕ → Bytes
node_name n = codes "node" ++ itoa n

node_id-node_name : (n : ℕ) → n < 2 ^ 63 → node_id (node_name n) ≡ pos n
unfolding node_id
node_id-node_name n h = ground (arith, digits_value-itoa n)

-- No number stands twice.
abbrev pub Distinct : List ℕ → Type 0
Distinct [] = Unit
Distinct (n ∷ ns) = All (λ m. m ≢ n) ns × Distinct ns

module _ (C : CpuSets) (read_file : Bytes → Result Bytes Bytes) where
  abbrev Lacks : ℕ → Topology C read_file → Type 0
  Lacks n = All (λ z. z.0 ≢ pos n)

  set_zone-Lacks :
      (n : ℕ) (cpus : C.Set) (topo : Topology C read_file)
      → Lacks n topo
      → set_zone C read_file (pos n) cpus topo ≡ topo ++ ((pos n, cpus) ∷ [])
  unfolding set_zone
  set_zone-Lacks n cpus [] h = refl
  set_zone-Lacks n cpus ((id, old) ∷ topo) (ne, h) =
      ground (arith, set_zone-Lacks n cpus topo h, eq_ℤ_iff id (pos n))

  -- The file of a node is parsed to its CPUs.
  abbrev pub IsLoaded : (ℕ → C.Set) → ℕ → Type 0
  IsLoaded cpus n =
      (n < 2 ^ 63)
      × (load_cpu_set_from_file C read_file (join (node_root ∷ node_name n ∷ codes "cpulist" ∷ []))
          ≡ ok (cpus n))

  abbrev pub zones : (ℕ → C.Set) → List ℕ → Topology C read_file
  zones cpus ns = map (λ n. (pos n, cpus n)) ns

  load_zones_ok :
      (cpus : ℕ → C.Set) (ns : List ℕ) (topo : Topology C read_file)
      → All (IsLoaded cpus) ns
      → Distinct ns
      → All (λ n. Lacks n topo) ns
      → load_zones C read_file topo (map node_name ns) ≡ ok (topo ++ zones cpus ns)
  unfolding load_zones
  load_zones_ok cpus [] topo loaded distinct fresh = ap ok (sym (append-nil topo))
  load_zones_ok cpus (n ∷ ns) topo ((small, here), loaded) (new, distinct) (lacks, fresh) =
      let topo' = topo ++ ((pos n, cpus n) ∷ []) in
      let ih = load_zones_ok cpus ns topo' loaded distinct (extend ns new fresh) in
      rw (load_zones, here, node_id-node_name n small, set_zone-Lacks n (cpus n) topo lacks, ih)
        (ap ok (append_assoc topo ((pos n, cpus n) ∷ []) (zones cpus ns)))
    where
      extend :
          (ms : List ℕ)
          → All (λ m. m ≢ n) ms
          → All (λ m. Lacks m topo) ms
          → All (λ m. Lacks m (topo ++ ((pos n, cpus n) ∷ []))) ms
      extend [] a b = tt
      extend (m ∷ ms) (ne, a) (l, b) = (
        All-append (λ z. z.0 ≢ pos m) topo ((pos n, cpus n) ∷ []) l ((λ e. ne (ground arith)), tt),
        extend ms a b,
      )

  -- Where the names of the directory that match are those of nodes with distinct numbers, each of
  -- which has a file that can be parsed, the topology has these numbers with the CPUs of their
  -- files, and no other.
  pub load_physical_topology_ok :
      (cpus : ℕ → C.Set) (ns : List ℕ) (names : List Bytes)
      → node_names C read_file names ≡ map node_name ns
      → All (IsLoaded cpus) ns
      → Distinct ns
      → load_physical_topology C read_file names ≡ ok (zones cpus ns)
  unfolding load_physical_topology
  load_physical_topology_ok cpus ns names same loaded distinct =
      rw same (load_zones_ok cpus ns [] loaded distinct (all_fresh ns))
    where
      all_fresh : (ms : List ℕ) → All (λ m. Lacks m []) ms
      all_fresh [] = tt
      all_fresh (m ∷ ms) = (tt, all_fresh ms)
