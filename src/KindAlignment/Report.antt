-- ===== src/KindAlignment/Report.antt =====
-- validation/kind/alignment/main.go: the NUMA topology of the machine, and the report on the
-- containers of a pod. The sets of CPUs are a library's, and so are the clients; files are read by
-- a function.
pub mod Zones
pub mod Topology
pub mod Placed
use dra_driver_integration_e.Base.{
  ℕ, suc, ◌-◌, ◌^◌, Bool, false, not, ◌&&◌, none, some, List, [], ◌∷◌, ◌++◌, map, ltb, leb,
  if◌then◌else◌, drop, Result, ok, err, ◌>>=◌, Bytes, codes, has_prefix,
}
use dra_driver_integration_e.Base.Int.{ℤ, pos, eq_ℤ, digits_value}
use dra_driver_integration_e.Base.FilePath.{join}
use dra_driver_integration_e.Base.Space.{trim_space}
use dra_driver_integration_e.KindAlignment.{Pod, CgroupError, find_kind_cgroup_path}

-- `cpuset.CPUSet`
pub record CpuSets : Type 1 where
  pub Set : Type 0
  pub parse : Bytes → Result Bytes Set
  pub is_empty : Set → Bool
  pub list : Set → List ℤ
  pub intersection : Set → Set → Set

abbrev pub node_root : Bytes
node_root = codes "/sys/devices/system/node"

-- What matches `node[0-9]*` among the names of a directory.
unfoldable pub is_node_name : Bytes → Bool
is_node_name name = has_prefix name (codes "node") && starts_digit (drop 4 name)
  where
    starts_digit : Bytes → Bool
    starts_digit [] = false
    starts_digit (c ∷ s) = leb b'0' c && leb c b'9'

-- `strconv.Atoi` with its error left out, on a text that begins with a digit: 0 for a text that is
-- no number, and the largest number for one that is out of range.
unfoldable pub node_id : Bytes → ℤ
node_id name = elim (digits_value 0 (drop 4 name)) [
  | none ↦ pos 0
  | some n ↦ if ltb n (2 ^ 63) then pos n else pos (2 ^ 63 - 1)
]

module _ (C : CpuSets) (read_file : Bytes → Result Bytes Bytes) where
  -- A map from the identifiers of nodes: its entries, one for each key, in no order that counts.
  abbrev pub Topology : Type 0
  Topology = List (ℤ × C.Set)

  -- `topo[nodeID] = cpus`
  unfoldable pub set_zone : ℤ → C.Set → Topology → Topology
  set_zone id cpus [] = (id, cpus) ∷ []
  set_zone id cpus ((other, old) ∷ topo) =
      if eq_ℤ other id then (id, cpus) ∷ topo else (other, old) ∷ set_zone id cpus topo

  unfoldable pub load_cpu_set_from_file : Bytes → Result Bytes C.Set
  load_cpu_set_from_file path = (do raw ← read_file path; C.parse (trim_space raw))

  -- The loop of `loadPhysicalTopology`.
  unfoldable pub load_zones : Topology → List Bytes → Result Bytes Topology
  load_zones topo [] = ok topo
  load_zones topo (name ∷ names) =
      elim (load_cpu_set_from_file (join (node_root ∷ name ∷ codes "cpulist" ∷ []))) [
        | err e ↦ err e
        | ok cpus ↦ load_zones (set_zone (node_id name) cpus topo) names
      ]

  -- The names that `filepath.Glob` keeps, of those in the directory, which it sorts.
  unfoldable pub node_names : List Bytes → List Bytes
  node_names [] = []
  node_names (name ∷ names) =
      if is_node_name name then name ∷ node_names names else node_names names

  unfoldable pub load_physical_topology : List Bytes → Result Bytes Topology
  load_physical_topology names = load_zones [] (node_names names)

  -- What is printed, line by line; a failure is logged.
  pub data Line : Type 0 where
    header : Bytes → Line
    container_line : Bytes → Line
    path_failed : CgroupError → Line
    cpus_failed nodes_failed : Bytes → Line
    memory_title cpu_title blank : Line
    memory_zone : ℤ → Line
    cpu_zone : ℤ → C.Set → Line

  pub record ContainerStatus : Type 0 where
    pub name : Bytes
    pub container_id : Bytes

  -- The loop over the topology.
  unfoldable pub cpu_zones : C.Set → Topology → List Line
  cpu_zones assigned [] = []
  cpu_zones assigned ((id, cpus) ∷ topo) =
      let matches = C.intersection cpus assigned in
      if not (C.is_empty matches)
      then cpu_zone id matches ∷ cpu_zones assigned topo
      else cpu_zones assigned topo

  module _ (is_missing : Bytes → Bool) (kind_node_id : Bytes) (pod : Pod)
      (all_numa_nodes : C.Set) where
    -- One round of the loop over the containers; `topo` is in the order in which the map is ranged
    -- over.
    unfoldable pub container_lines : Topology → ContainerStatus → List Line
    container_lines topo status =
        container_line status.name
        ∷ elim (find_kind_cgroup_path is_missing kind_node_id pod status.container_id) [
          | err e ↦ path_failed e ∷ []
          | ok path ↦ elim (load_cpu_set_from_file (join (path ∷ codes "cpuset.cpus" ∷ []))) [
            | err e ↦ cpus_failed e ∷ []
            | ok assigned ↦ elim (load_cpu_set_from_file (join (path ∷ codes "cpuset.mems" ∷ []))) [
              | err e ↦ nodes_failed e ∷ []
              | ok nodes ↦
                  let shown = if C.is_empty nodes then all_numa_nodes else nodes in
                  (memory_title ∷ map memory_zone (C.list shown))
                  ++ ((cpu_title ∷ cpu_zones assigned topo) ++ (blank ∷ []))
            ]
          ]
        ]

    -- The loop; Go chooses an order of the map for each container.
    unfoldable pub report :
        (ℕ → Topology → Topology) → ℕ → Topology → List ContainerStatus → List Line
    report order n topo [] = []
    report order n topo (status ∷ statuses) =
        container_lines (order n topo) status ++ report order (suc n) topo statuses
