-- ===== src/KindAlignment/Report/Placed.antt =====
-- The report on a container, from the directory of the nodes to its lines: `loadPhysicalTopology`
-- and the loop of `main` of validation/kind/alignment/main.go together.
use dra_driver_integration_e.Base.{
  ℕ, ◌≡◌, refl, ap, ap₂, ◌∙◌, ◌↔◌, inl, inr, Bool, false, List, [], ◌∷◌, map, if◌then◌else◌, Member,
  All, Result, ok, Bytes, codes,
}
use dra_driver_integration_e.Base.Int.{ℤ, pos}
use dra_driver_integration_e.Base.FilePath.{join}
use dra_driver_integration_e.KindAlignment.{Pod, find_kind_cgroup_path}
use dra_driver_integration_e.KindAlignment.Report.{
  CpuSets, Topology, load_cpu_set_from_file, node_names, load_physical_topology, cpu_zone,
  memory_zone, ContainerStatus, container_lines,
}
use dra_driver_integration_e.KindAlignment.Report.Topology.{
  node_name, Distinct, IsLoaded, zones, load_physical_topology_ok,
}
use dra_driver_integration_e.KindAlignment.Report.Zones.{Meets, container_lines_zones}

module _ (C : CpuSets) (read_file : Bytes → Result Bytes Bytes) where
  -- A node among some, with those of its CPUs that are in a set, where there are any.
  abbrev pub Placed : (ℕ → C.Set) → List ℕ → C.Set → ℤ → C.Set → Type 0
  Placed cpus ns assigned id matches =
      (n : ℕ) × Member n ns
      × (id ≡ pos n)
      × (matches ≡ C.intersection (cpus n) assigned)
      × (C.is_empty matches ≡ false)

  Placed-Meets :
      (cpus : ℕ → C.Set) (ns : List ℕ) (assigned : C.Set) (id : ℤ) (matches : C.Set)
      → Meets C read_file assigned (zones C read_file cpus ns) id matches
        ↔ Placed cpus ns assigned id matches
  Placed-Meets cpus ns assigned id matches = (
    (λ (own, m, e, f).
        let (n, there, same, its) = unmap ns own m in
        (n, there, same, e ∙ ap (λ s. C.intersection s assigned) its, f)),
    (λ (n, m, same, e, f). (cpus n, onto ns n m same, e, f)),
  )
    where
      unmap :
          (ms : List ℕ) (own : C.Set)
          → Member (id, own) (zones C read_file cpus ms)
          → (n : ℕ) × Member n ms × (id ≡ pos n) × (own ≡ cpus n)
      unmap [] own m = absurd m
      unmap (k ∷ ms) own (inl e) = (k, inl refl, ap (λ z. z.0) e, ap (λ z. z.1) e)
      unmap (k ∷ ms) own (inr m) =
          let (n, there, same, its) = unmap ms own m in (n, inr there, same, its)

      onto :
          (ms : List ℕ) (n : ℕ)
          → Member n ms
          → id ≡ pos n
          → Member (id, cpus n) (zones C read_file cpus ms)
      onto [] n m same = absurd m
      onto (k ∷ ms) n (inl e) same = inl (ap₂ (λ a b. (a, b)) (same ∙ ap pos e) (ap cpus e))
      onto (k ∷ ms) n (inr m) same = inr (onto ms n m same)

  module _ (is_missing : Bytes → Bool) (kind_node_id : Bytes) (pod : Pod)
      (all_numa_nodes : C.Set) where
    -- On a machine whose nodes have distinct numbers, each with a file of its CPUs that can be
    -- parsed, the topology is loaded; and with it, in whatever order its map is ranged over, the
    -- report on a container whose control group is found and whose two files can be read has a line
    -- for a NUMA zone and CPUs exactly if it is a node of the machine, and these are the CPUs of
    -- the node that the container was given, and some. It has a line for the memory of a zone
    -- exactly if the container was given it or, where it was given no zone, the zone is online.
    pub container_lines-Placed :
        (cpus : ℕ → C.Set) (ns : List ℕ) (names : List Bytes) (ranged : Topology C read_file)
        (status : ContainerStatus C read_file) (path : Bytes) (assigned nodes : C.Set) (id : ℤ)
        (matches : C.Set)
        → node_names C read_file names ≡ map node_name ns
        → All (IsLoaded C read_file cpus) ns
        → Distinct ns
        → ((z : ℤ × C.Set) → Member z ranged ↔ Member z (zones C read_file cpus ns))
        → find_kind_cgroup_path is_missing kind_node_id pod status.container_id ≡ ok path
        → load_cpu_set_from_file C read_file (join (path ∷ codes "cpuset.cpus" ∷ [])) ≡ ok assigned
        → load_cpu_set_from_file C read_file (join (path ∷ codes "cpuset.mems" ∷ [])) ≡ ok nodes
        → (load_physical_topology C read_file names ≡ ok (zones C read_file cpus ns))
          × (Member (cpu_zone id matches) (
                container_lines C read_file is_missing kind_node_id pod all_numa_nodes ranged
                  status)
              ↔ Placed cpus ns assigned id matches)
          × (Member (memory_zone id) (
                container_lines C read_file is_missing kind_node_id pod all_numa_nodes ranged
                  status)
              ↔ Member id (C.list (if C.is_empty nodes then all_numa_nodes else nodes)))
    container_lines-Placed cpus ns names ranged status path assigned nodes id matches same loaded
          distinct order found own mems =
        let (cpu, memory) =
          container_lines_zones C read_file is_missing kind_node_id pod all_numa_nodes
            (zones C read_file cpus ns) ranged status path assigned nodes id matches order found own
            mems in
        let (there, back) = Placed-Meets cpus ns assigned id matches in
        (
          load_physical_topology_ok C read_file cpus ns names same loaded distinct,
          (λ m. there (cpu.0 m), λ p. cpu.1 (back p)),
          memory,
        )
