-- ===== src/KindAlignment/ReportExamples.antt =====
-- A machine of two nodes and a pod of one container, and the theorems on its report.
use dra_driver_integration_e.Base.{
  ℕ, ◌-◌, ◌≡◌, refl, ◌↔◌, false, List, [], ◌∷◌, map, arith, ◌==◌, bit_and, has_prefix, Member, All,
  Result, ok, err, Bytes, codes,
}
use dra_driver_integration_e.Base.Int.{ℤ, pos}
use dra_driver_integration_e.Base.Decimal.{itoa}
use dra_driver_integration_e.Base.Space.{trim_space}
use dra_driver_integration_e.KindAlignment.{
  Pod, burstable, cut, first_part, runtime_and_id, cgroup_path, find_kind_cgroup_path,
}
use dra_driver_integration_e.KindAlignment.Report.{
  CpuSets, Topology, is_node_name, node_names, load_physical_topology, load_cpu_set_from_file, Line,
  cpu_zone, memory_zone, ContainerStatus, container_lines,
}
use dra_driver_integration_e.KindAlignment.Report.Placed.{Placed, container_lines-Placed}
use dra_driver_integration_e.KindAlignment.Report.Topology.{node_name, IsLoaded, zones}
use dra_driver_integration_e.KindAlignment.Command.{PodAnswer, Answers, Machine, print_report}

-- A set is a mask of bits, which a file has as one digit.
abbrev masks : CpuSets
masks = record {
  Set = ℕ;
  parse = λ s. elim s [ [] ↦ err (codes "empty") | c ∷ cs ↦ ok (c - b'0') ];
  is_empty = λ n. n == 0;
  list = λ n. pos 0 ∷ pos 1 ∷ [];
  intersection = bit_and;
}

abbrev threes : Bytes → Result Bytes Bytes
threes path = ok (codes "3\n")

read : (path : Bytes) → load_cpu_set_from_file masks threes path ≡ ok 3
unfolding load_cpu_set_from_file trim_space
read path = refl

abbrev names : List Bytes
names = codes "has_cpu" ∷ codes "node0" ∷ codes "node1" ∷ codes "online" ∷ []

abbrev cpus : ℕ → ℕ
cpus n = 3

kept : node_names masks threes names ≡ map node_name (0 ∷ 1 ∷ [])
unfolding node_names is_node_name has_prefix itoa
kept = refl

loaded : All (IsLoaded masks threes cpus) (0 ∷ 1 ∷ [])
loaded = ((omega arith, read _), ((omega arith, read _), tt))

abbrev ranged : Topology masks threes
ranged = (pos 1, 3) ∷ (pos 0, 3) ∷ []

ranged_same : (z : ℤ × ℕ) → Member z ranged ↔ Member z (zones masks threes cpus (0 ∷ 1 ∷ []))
ranged_same z = ground arith

abbrev status : ContainerStatus masks threes
status = record { name = codes "app"; container_id = codes "containerd://ab" }

abbrev pod : Pod
pod = record { uid = codes "1"; qos_class = burstable }

abbrev path : Bytes
path = cgroup_path (codes "f0") pod (codes "containerd") (codes "ab")

found : find_kind_cgroup_path (λ p. false) (codes "f0") pod status.container_id ≡ ok path
unfolding find_kind_cgroup_path runtime_and_id first_part cut has_prefix
found = refl

container_lines-Placed_example :
    (load_physical_topology masks threes names ≡ ok (zones masks threes cpus (0 ∷ 1 ∷ [])))
    × (Member
          (cpu_zone (pos 1) 3)
          (container_lines masks threes (λ p. false) (codes "f0") pod 3 ranged status)
        ↔ Placed masks threes cpus (0 ∷ 1 ∷ []) 3 (pos 1) 3)
    × (Member
          (memory_zone (pos 1))
          (container_lines masks threes (λ p. false) (codes "f0") pod 3 ranged status)
        ↔ Member (pos 1) (pos 0 ∷ pos 1 ∷ []))
container_lines-Placed_example =
    container_lines-Placed masks threes (λ p. false) (codes "f0") pod 3 cpus (0 ∷ 1 ∷ []) names
      ranged status path 3 3 (pos 1) 3 kept loaded (((λ e. absurd (omega arith)), tt), (tt, tt))
      ranged_same found (read _) (read _)

abbrev answer : PodAnswer masks threes
answer = record {
  namespace = codes "ns";
  name = codes "p";
  qos_class = codes "Burstable";
  node_name = codes "kind";
  pod = pod;
  container_statuses = status ∷ record { name = codes "lost"; container_id = codes "none" } ∷ [];
}

abbrev answers : Answers masks threes
answers = record {
  config = ok tt;
  client = ok tt;
  moby_client = ok tt;
  get_pod = λ namespace name. ok answer;
  container_id = λ node. ok (codes "f0");
}

abbrev machine : Machine masks threes
machine = record { names = names; is_missing = λ p. false; order = λ n topo. topo }

abbrev printed : List (Line masks threes)
printed =
    print_report masks threes machine 3 (zones masks threes cpus (0 ∷ 1 ∷ [])) answer (codes "f0")
