-- ===== src/Sriovvf.antt =====
-- setup/sriovvf/main.go: the command that creates the virtual functions of a network device and
-- gives them NUMA nodes. This file has its data, what it asks of sysfs, and the helpers at the end
-- of the source; the log is left out.
pub mod Address
pub mod Device
pub mod Nodes
pub mod Run
pub mod Command
mod Examples
mod RunExamples
mod CommandExamples
use dra_driver_integration_e.Base.{
  Bool, Option, none, some, List, ◌++◌, if◌then◌else◌, Result, ok, err, Bytes, codes,
}
use dra_driver_integration_e.Base.Int.{ℤ, int_text, atoi}
use dra_driver_integration_e.Base.Space.{trim_space}

-- Without the verbosity, which the log alone reads.
pub record Config : Type 0 where
  pub sysfs_root : Bytes
  pub num_vfs : ℤ
  pub pf_numa_node : ℤ
  pub pci_addr : Bytes
  pub try_mode : Bool

pub record PfDevice : Type 0 where
  pub pci_addr : Bytes
  pub path : Bytes
  pub total_vfs : ℤ
  pub current_vfs : ℤ

-- Errors of the file system: `errors.Is(err, os.ErrNotExist)` tells the two apart.
pub data FsError : Type 0 where
  not_exist failed : Bytes → FsError

pub record Entry : Type 0 where
  pub name : Bytes
  pub is_dir : Bool
  pub is_link : Bool

-- Sysfs over a state of its own. `stat` says whether there is a directory behind the links. A write
-- may change the state, in whatever way the kernel does, whether it fails or not.
pub record Sysfs : Type 1 where
  pub World : Type 0
  pub stat : World → Bytes → Result FsError Bool
  pub read_dir : World → Bytes → Result FsError (List Entry)
  pub eval_symlinks : World → Bytes → Result FsError Bytes
  pub read_file : World → Bytes → Result FsError Bytes
  pub write_file : World → Bytes → Bytes → Option FsError × World

pub data DirError : Type 0 where
  no_stat : FsError → DirError
  not_directory : Bytes → DirError

pub data NumberError : Type 0 where
  unreadable : FsError → NumberError
  no_number : Bytes → NumberError

-- The errors of this command, with what they name and wrap; `node_index` is no error but the panic
-- of `idx % len(nodes)` or of the index.
pub data SriovError : Type 0 where
  negative_count : ℤ → SriovError
  invalid_root : Bytes → DirError → SriovError
  invalid_address : Bytes → SriovError
  listing_devices : Bytes → FsError → SriovError
  no_device : SriovError
  not_found : Bytes → DirError → SriovError
  is_vf : Bytes → SriovError
  unknown_role : Bytes → FsError → SriovError
  not_network : Bytes → SriovError
  not_capable : Bytes → NumberError → SriovError
  no_capacity : Bytes → SriovError
  unknown_count : Bytes → NumberError → SriovError
  too_many : ℤ → ℤ → Bytes → SriovError
  resetting : Bytes → FsError → SriovError
  configuring : ℤ → Bytes → FsError → SriovError
  pf_node : Bytes → ℤ → FsError → SriovError
  listing_vfs : Bytes → FsError → SriovError
  resolving_vf : Bytes → FsError → SriovError
  listing_nodes : FsError → SriovError
  vf_node : Bytes → ℤ → FsError → SriovError
  node_index : SriovError

module _ (S : Sysfs) where
  unfoldable pub ensure_dir : S.World → Bytes → Result DirError (Unit {0})
  ensure_dir w path = elim (S.stat w path) [
    | err e ↦ err (no_stat e)
    | ok is_dir ↦ if is_dir then ok tt else err (not_directory path)
  ]

  unfoldable pub read_int_from_file : S.World → Bytes → Result NumberError ℤ
  read_int_from_file w path = elim (S.read_file w path) [
    | err e ↦ err (unreadable e)
    | ok contents ↦
        let text = trim_space contents in
        elim (atoi text) [ none ↦ err (no_number text) | some n ↦ ok n ]
  ]

  unfoldable pub write_int_to_file : S.World → Bytes → ℤ → Option FsError × S.World
  write_int_to_file w path value = S.write_file w path (int_text value ++ codes "\n")
