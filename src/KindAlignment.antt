-- ===== src/KindAlignment.antt =====
-- validation/kind/alignment/main.go: where the control group of a container in a kind node is. What
-- the API server and the container engine answer is an argument; the CPU sets are a library's.
mod Examples
mod ReportExamples
pub mod Report
pub mod Command
use dra_driver_integration_e.Base.{
  ◌≡◌, refl, Bool, true, Option, none, some, [], ◌∷◌, ◌++◌, map, arith, ◌==◌, if◌then◌else◌, length,
  drop, Result, ok, err, Bytes, codes, eq_bytes, has_prefix,
}
use dra_driver_integration_e.Base.FilePath.{join, clean, Lacks}

-- `corev1.PodQOSClass`, as far as the code tells its values apart.
pub data QosClass : Type 0 where
  burstable best_effort other_class : QosClass

pub record Pod : Type 0 where
  pub uid : Bytes
  pub qos_class : QosClass

pub data CgroupError : Type 0 where
  invalid_id : CgroupError
  not_found : Bytes → CgroupError

abbrev pub cgroup_root : Bytes
cgroup_root = codes "/sys/fs/cgroup"

-- What stands in front of the first `sep` and behind it.
unfoldable pub cut : Bytes → Bytes → Option (Bytes × Bytes)
cut sep [] = none
cut sep (c ∷ s) =
    let later = cut sep s in
    if has_prefix (c ∷ s) sep
    then some ([], drop (length sep) (c ∷ s))
    else elim later [ none ↦ none | some (front, back) ↦ some (c ∷ front, back) ]

-- The first part of `strings.Split(s, sep)`.
unfoldable pub first_part : Bytes → Bytes → Bytes
first_part sep s = elim (cut sep s) [ none ↦ s | some (front, back) ↦ front ]

-- The first two parts of the identifier, where there are two.
unfoldable pub runtime_and_id : Bytes → Option (Bytes × Bytes)
runtime_and_id full_container_id = elim (cut (codes "://") full_container_id) [
  | none ↦ none
  | some (runtime, rest) ↦ some (runtime, first_part (codes "://") rest)
]

-- `strings.ReplaceAll(s, "-", "_")`
abbrev pub underscored : Bytes → Bytes
underscored s = map (λ c. if c == b'-' then b'_' else c) s

abbrev pub qos_slice : QosClass → Bytes
qos_slice burstable = codes "kubelet-kubepods-burstable.slice"
qos_slice best_effort = codes "kubelet-kubepods-besteffort.slice"
qos_slice other_class = []

abbrev pub qos_sub_slice : QosClass → Bytes → Bytes
qos_sub_slice burstable pod_uid =
    codes "kubelet-kubepods-burstable-pod" ++ (pod_uid ++ codes ".slice")
qos_sub_slice best_effort pod_uid =
    codes "kubelet-kubepods-besteffort-pod" ++ (pod_uid ++ codes ".slice")
qos_sub_slice other_class pod_uid = codes "kubelet-kubepods-pod" ++ (pod_uid ++ codes ".slice")

unfoldable pub container_scope : Bytes → Bytes → Bytes
container_scope runtime container_id =
    if eq_bytes runtime (codes "containerd")
    then codes "cri-containerd-" ++ (container_id ++ codes ".scope")
    else codes "crio-" ++ (container_id ++ codes ".scope")

unfoldable pub cgroup_path : Bytes → Pod → Bytes → Bytes → Bytes
cgroup_path kind_node_id pod runtime container_id =
    let base_kind_path = join (
      cgroup_root
      ∷ codes "system.slice"
      ∷ (codes "docker-" ++ (kind_node_id ++ codes ".scope"))
      ∷ []) in
    let path = clean (
      join (
        base_kind_path
        ∷ codes "kubelet.slice"
        ∷ codes "kubelet-kubepods.slice"
        ∷ qos_slice pod.qos_class
        ∷ [])) in
    join (
      path
      ∷ qos_sub_slice pod.qos_class (underscored pod.uid)
      ∷ container_scope runtime container_id
      ∷ [])

-- `is_missing` is `os.IsNotExist` of the error of `os.Stat`.
unfoldable pub find_kind_cgroup_path :
    (Bytes → Bool) → Bytes → Pod → Bytes → Result CgroupError Bytes
find_kind_cgroup_path is_missing kind_node_id pod full_container_id =
    elim (runtime_and_id full_container_id) [
      | none ↦ err invalid_id
      | some (runtime, container_id) ↦
          let path = cgroup_path kind_node_id pod runtime container_id in
          if is_missing path then err (not_found path) else ok path
    ]

has_prefix_self : (s t : Bytes) → has_prefix (s ++ t) s ≡ true
unfolding has_prefix
has_prefix_self [] t = refl
has_prefix_self (c ∷ s) t = ground (arith, has_prefix_self s t)

abbrev scheme : Bytes
scheme = codes "://"

cut_here :
    (front back : Bytes)
    → Lacks b':' front
    → cut scheme (front ++ (scheme ++ back)) ≡ some (front, back)
unfolding cut has_prefix
cut_here [] back h = refl
cut_here (c ∷ front) back (ne, h) = ground (arith, cut_here front back h)

cut-Lacks : (s : Bytes) → Lacks b':' s → cut scheme s ≡ none
unfolding cut has_prefix
cut-Lacks [] h = refl
cut-Lacks (c ∷ s) (ne, h) = ground (arith, cut-Lacks s h)

-- An identifier of the form `runtime://id` gives its two parts, and another one without a colon is
-- refused.
pub find_kind_cgroup_path_lem :
    (is_missing : Bytes → Bool) (kind_node_id : Bytes) (pod : Pod) (runtime id : Bytes)
    → Lacks b':' runtime
    → Lacks b':' id
    → (find_kind_cgroup_path is_missing kind_node_id pod (runtime ++ (codes "://" ++ id)) ≡ (
        if is_missing (cgroup_path kind_node_id pod runtime id)
        then err (not_found (cgroup_path kind_node_id pod runtime id))
        else ok (cgroup_path kind_node_id pod runtime id)))
      × (find_kind_cgroup_path is_missing kind_node_id pod id ≡ err invalid_id)
unfolding find_kind_cgroup_path runtime_and_id first_part
find_kind_cgroup_path_lem is_missing kind_node_id pod runtime id hr hi =
    ground (arith, cut_here runtime id hr, cut-Lacks id hi)
