-- ===== src/Hugepages.antt =====
-- setup/pkg/hugepages/provision and setup/hugepages: how huge pages are asked of the kernel, over
-- the NUMA nodes of the machine. The YAML parser and the discovery of the topology are parameters;
-- the log is left out.
pub mod Split
pub mod Writes
pub mod Reading
mod Examples
use dra_driver_integration_e.Base.{
  ℕ, zero, suc, ◌||◌, Option, none, some, List, [], ◌∷◌, ◌++◌, ◌==◌, if◌then◌else◌, Result, ok, err,
  Bytes, codes, eq_bytes,
}
use dra_driver_integration_e.Base.FilePath.{join}
use dra_driver_integration_e.Base.Int.{ℤ, pos, ◌+ℤ◌, quot, rem, int_text}

pub record TypeMeta : Type 0 where
  pub kind : Bytes
  pub api_version : Bytes

-- The two maps as association lists.
pub record ObjectMeta : Type 0 where
  pub name : Bytes
  pub namespace : Bytes
  pub labels : List (Bytes × Bytes)
  pub annotations : List (Bytes × Bytes)

-- The count and the node are of the type `int32`, and are converted to `int`, which keeps them.
pub record HugePage : Type 0 where
  pub size : Bytes
  pub count : ℤ
  pub node : Option ℤ

pub record HugePageProvisionSpec : Type 0 where
  pub default_huge_pages_size : Option Bytes
  pub pages : List HugePage

pub record HugePageProvision : Type 0 where
  pub type_meta : TypeMeta
  pub object_meta : ObjectMeta
  pub spec : HugePageProvisionSpec

-- The build tag that chooses between the two files.
pub data Arch : Type 0 where
  amd64 others : Arch

-- `division` is no error but the panic of a division by zero.
pub data ProvisionError : Type 0 where
  bad_size : Bytes → ProvisionError
  opening : Bytes → ProvisionError
  writing : Bytes → Bytes → ProvisionError
  division : ProvisionError

-- Sysfs over a state of its own: opening a file for writing, and a write to an open file, which may
-- change the state whether it fails or not.
pub record Sysfs : Type 1 where
  pub World : Type 0
  pub open_file : World → Bytes → Option Bytes
  pub write_string : World → Bytes → Bytes → Option Bytes × World

unfoldable pub validate_huge_page_size : Arch → Bytes → Result Bytes Bytes
validate_huge_page_size amd64 hp_size =
    if eq_bytes hp_size (codes "1G")
      || eq_bytes hp_size (codes "1Gi")
      || eq_bytes hp_size (codes "1g")
    then ok (codes "1048576kB")
    else if eq_bytes hp_size (codes "2M")
        || eq_bytes hp_size (codes "2Mi")
        || eq_bytes hp_size (codes "2m")
    then ok (codes "2048kB")
    else err (codes "unsupported size")
validate_huge_page_size others hp_size = err (codes "not yet unsupported")

unfoldable pub pick_node : HugePage → ℤ
pick_node hp = elim hp.node [ none ↦ pos 0 | some node ↦ node ]

abbrev pub hp_path : Bytes → ℤ → Bytes → Bytes
hp_path sys_root numa_node hp_size = join (
    sys_root
    ∷ codes "sys"
    ∷ codes "devices"
    ∷ codes "system"
    ∷ codes "node"
    ∷ (codes "node" ++ int_text numa_node)
    ∷ codes "hugepages"
    ∷ (codes "hugepages-" ++ hp_size)
    ∷ codes "nr_hugepages"
    ∷ [])

module _ (S : Sysfs) (arch : Arch) (sys_root : Bytes) where
  -- The write of `provisionOnNode` once the size is known.
  write_count : S.World → Bytes → ℤ → Option ProvisionError × S.World
  write_count w path hp_count = elim (S.open_file w path) [
    | some e ↦ (some (opening e), w)
    | none ↦
        let (failure, w') = S.write_string w path (int_text hp_count) in
        (elim failure [ none ↦ none | some e ↦ some (writing path e) ], w')
  ]

  unfoldable pub provision_on_node : S.World → ℤ → ℤ → Bytes → Option ProvisionError × S.World
  unfolding write_count
  provision_on_node w numa_node hp_count api_hp_size =
      elim (validate_huge_page_size arch api_hp_size) [
        | err e ↦ (some (bad_size e), w)
        | ok hp_size ↦ write_count w (hp_path sys_root numa_node hp_size) hp_count
      ]

  -- The loop of `provisionOnMultiNode`: the nodes that are left, and the first of them.
  unfoldable pub other_nodes : ℕ → ℕ → S.World → ℤ → Bytes → Option ProvisionError × S.World
  other_nodes zero numa_node w per_node hp_size = (none, w)
  other_nodes (suc more) numa_node w per_node hp_size =
      let (failure, w') = provision_on_node w (pos numa_node) per_node hp_size in
      let rest = other_nodes more (suc numa_node) w' per_node hp_size in
      elim failure [ some e ↦ (some e, w') | none ↦ rest ]

  unfoldable pub provision_on_multi_node : S.World → ℕ → ℤ → Bytes → Option ProvisionError × S.World
  unfolding other_nodes
  provision_on_multi_node w zero hp_count hp_size = (some division, w)
  provision_on_multi_node w (suc more) hp_count hp_size =
      let extra = rem hp_count (suc more) in
      let per_node = quot hp_count (suc more) in
      let (failure, w') = provision_on_node w (pos 0) (per_node +ℤ extra) hp_size in
      let rest = other_nodes more 1 w' per_node hp_size in
      elim failure [ some e ↦ (some e, w') | none ↦ rest ]

  -- One round of the loop of `RuntimeHugepages`.
  unfoldable pub provision_group : S.World → ℕ → HugePage → Option ProvisionError × S.World
  provision_group w numa_zones conf =
      if numa_zones == 1
      then provision_on_node w (pick_node conf) conf.count conf.size
      else provision_on_multi_node w numa_zones conf.count conf.size

  unfoldable pub provision_groups : S.World → ℕ → List HugePage → Option ProvisionError × S.World
  provision_groups w numa_zones [] = (none, w)
  provision_groups w numa_zones (conf ∷ pages) =
      let (failure, w') = provision_group w numa_zones conf in
      let rest = provision_groups w' numa_zones pages in
      elim failure [ some e ↦ (some e, w') | none ↦ rest ]

  unfoldable pub runtime_hugepages :
      S.World → HugePageProvision → ℕ → Option ProvisionError × S.World
  runtime_hugepages w hpp numa_zones = provision_groups w numa_zones hpp.spec.pages

-- The command: what it reads, and the status it exits with.
module _ (S : Sysfs) (arch : Arch) (sys_root : Bytes)
    (read_configuration : S.World → Bytes → Result Bytes HugePageProvision) where
  unfoldable pub provision_files : S.World → ℕ → List Bytes → ℕ × S.World
  provision_files w numa_zones [] = (0, w)
  provision_files w numa_zones (arg ∷ args) = elim (read_configuration w arg) [
    | err e ↦ (2, w)
    | ok config ↦
        let (failure, w') = runtime_hugepages S arch sys_root w config numa_zones in
        let rest = provision_files w' numa_zones args in
        elim failure [ some e ↦ (4, w') | none ↦ rest ]
  ]

  unfoldable pub main : (S.World → Result Bytes ℕ) → S.World → List Bytes → ℕ × S.World
  main discover w args = elim (discover w) [
    | err e ↦ (1, w)
    | ok numa_zones ↦ provision_files w numa_zones args
  ]
