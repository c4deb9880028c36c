-- ===== src/Sriovvf/Examples.antt =====
-- A machine with one network device and two nodes, runs of the command on it, and the theorems
-- there.
use dra_driver_integration_e.Base.{
  ◌+◌, ◌≤◌, ◌≡◌, refl, sym, ap, ◌≢◌, ◌↔◌, inl, inr, Bool, true, false, not, ◌||◌, none, List, [],
  ◌∷◌, arith, if◌then◌else◌, Bool-cases, All, Result, ok, err, Bytes, codes, eq_bytes, eq_bytes_iff,
  leb_bytes,
}
use dra_driver_integration_e.Base.FilePath.{join, clean, split}
use dra_driver_integration_e.Base.Sort.{sort}
use dra_driver_integration_e.Base.Decimal.{itoa, emit_digits}
use dra_driver_integration_e.Base.Space.{trim_space}
use dra_driver_integration_e.Base.Int.{ℤ, pos, int_text, atoi}
use dra_driver_integration_e.Sriovvf.{
  PfDevice, FsError, not_exist, Entry, Sysfs, ensure_dir, read_int_from_file, write_int_to_file,
}
use dra_driver_integration_e.Sriovvf.Address.{
  is_fixed_hex, is_pci_address, IsAddress, is_pci_address_iff,
}
use dra_driver_integration_e.Sriovvf.Device.{
  leb_entry, validate_pf_device, candidate, first_candidate, resolve_pf, set_num_vfs,
}
use dra_driver_integration_e.Sriovvf.Device.Choice.{IsFirst, device_root, resolve_pf-IsFirst}
use dra_driver_integration_e.Sriovvf.Nodes.{
  numa_path, set_vf_node, pin_vf_numa, balance_from, balance_vf_numa,
}
use dra_driver_integration_e.Sriovvf.Nodes.Fair.{
  turns, served, placed, set_all, balance_vf_numa_lem,
}
use dra_driver_integration_e.Sriovvf.Nodes.Stored.{Keeps, Apart, HoldsNode, balance_vf_numa_stored}

abbrev address : Bytes
address = codes "0000:3b:00.0"

abbrev device : Bytes
device = codes "/sys/bus/pci/devices/0000:3b:00.0"

abbrev entry : Bytes → Bool → Entry
entry name is_dir = record { name = name; is_dir = is_dir; is_link = not is_dir }

-- The state is what has been written, the last first.
abbrev lookup : List (Bytes × Bytes) → Bytes → Result FsError Bytes
lookup [] path =
    if eq_bytes path (codes "/sys/bus/pci/devices/0000:3b:00.0/sriov_totalvfs")
    then ok (codes "8\n")
    else if eq_bytes path (codes "/sys/bus/pci/devices/0000:3b:00.0/sriov_numvfs")
    then ok (codes "2\n")
    else err (not_exist path)
lookup ((written, contents) ∷ w) path =
    let earlier = lookup w path in if eq_bytes path written then ok contents else earlier

abbrev is_folder : Bytes → Bool
is_folder path =
    eq_bytes path (codes "/sys")
    || eq_bytes path device
    || eq_bytes path (codes "/sys/bus/pci/devices/0000:3b:00.0/net")

abbrev pub machine : Sysfs
machine = record {
  World = List (Bytes × Bytes);
  stat = λ w path. if is_folder path then ok true else err (not_exist path);
  read_dir = λ w path.
      if eq_bytes path device
      then ok (
          entry (codes "net") true
          ∷ entry (codes "virtfn0") false
          ∷ entry (codes "virtfn1") false
          ∷ [])
      else if eq_bytes path (codes "/sys/bus/pci/devices")
      then ok (entry (codes "0000:00:1f.0") false ∷ entry address false ∷ [])
      else if eq_bytes path (codes "/sys/devices/system/node")
      then ok (
          entry (codes "has_cpu") false
          ∷ entry (codes "node1") true
          ∷ entry (codes "node0") true
          ∷ [])
      else err (not_exist path);
  eval_symlinks = λ w path. ok path;
  read_file = lookup;
  write_file = λ w path contents. (none, (path, contents) ∷ w);
}

keeps : Keeps machine
keeps = record {
  reads_back = λ w vf_path contents w' h.
      let same = (eq_bytes_iff (numa_path vf_path) (numa_path vf_path)).1 refl in
      let after : w' ≡ (numa_path vf_path, contents) ∷ w = sym (ap (λ r. r.1) h) in
      rw (after, same) refl;
  others = λ w vf_path other contents h.
      elim (Bool-cases (eq_bytes (numa_path other) (numa_path vf_path))) [
        | inl same ↦ absurd (h ((eq_bytes_iff (numa_path other) (numa_path vf_path)).0 same))
        | inr differs ↦ rw differs refl
      ];
}

accepted : is_pci_address address ≡ true
unfolding is_pci_address is_fixed_hex split
accepted = refl

refused : is_pci_address (codes "0000:3b:0g.0") ≡ false
unfolding is_pci_address is_fixed_hex split
refused = refl

is_pci_address_iff_example : (is_pci_address address ≡ true) ↔ IsAddress address
is_pci_address_iff_example = is_pci_address_iff address

abbrev pf : PfDevice
pf = record { pci_addr = address; path = device; total_vfs = pos 8; current_vfs = pos 2 }

found : resolve_pf machine [] (codes "/sys") [] ≡ ok pf
unfolding resolve_pf first_candidate candidate validate_pf_device ensure_dir read_int_from_file
    is_pci_address is_fixed_hex split join clean sort eq_bytes leb_bytes trim_space atoi
found = refl

resolve_pf-IsFirst_example :
    (entries : List Entry) × (machine.read_dir [] (device_root machine [] (codes "/sys"))
      ≡ ok entries)
    × IsFirst machine [] (device_root machine [] (codes "/sys")) (sort leb_entry entries) pf
resolve_pf-IsFirst_example = resolve_pf-IsFirst machine [] (codes "/sys") pf found

abbrev counted : List (Bytes × Bytes)
counted =
    (codes "/sys/bus/pci/devices/0000:3b:00.0/sriov_numvfs", codes "3\n")
    ∷ (codes "/sys/bus/pci/devices/0000:3b:00.0/sriov_numvfs", codes "0\n")
    ∷ []

set_to_three : set_num_vfs machine [] pf (pos 3) ≡ (none, counted)
unfolding set_num_vfs write_int_to_file int_text itoa emit_digits join clean split eq_bytes
set_to_three = refl

-- Three functions on two nodes.
abbrev vfs : List Bytes
vfs = codes "/a" ∷ codes "/b" ∷ codes "/c" ∷ []

abbrev nodes : List ℤ
nodes = pos 0 ∷ pos 7 ∷ []

balance_vf_numa_lem_example :
    (balance_vf_numa machine [] vfs nodes ≡ set_all machine [] (placed nodes (turns 2 0 vfs)))
    × (served 0 (turns 2 0 vfs) ≤ served 1 (turns 2 0 vfs) + 1)
balance_vf_numa_lem_example =
    balance_vf_numa_lem machine [] vfs nodes 0 1 (omega arith) (omega arith)

abbrev balanced : List (Bytes × Bytes)
balanced =
    (codes "/c/numa_node", codes "0\n")
    ∷ (codes "/b/numa_node", codes "7\n")
    ∷ (codes "/a/numa_node", codes "0\n")
    ∷ []

balance_three : balance_vf_numa machine [] vfs nodes ≡ (none, balanced)
unfolding balance_vf_numa balance_from set_vf_node write_int_to_file int_text itoa emit_digits join
    clean split eq_bytes
balance_three = refl

differ : (s t : Bytes) → eq_bytes s t ≡ false → s ≢ t
differ s t h e = let same = (eq_bytes_iff s t).1 e in ground arith

apart : Apart (placed nodes (turns 2 0 vfs))
unfolding join clean split eq_bytes
apart = ((differ _ _ refl, (differ _ _ refl, tt)), ((differ _ _ refl, tt), (tt, tt)))

balance_vf_numa_stored_example :
    All (HoldsNode machine keeps balanced) (placed nodes (turns 2 0 vfs))
balance_vf_numa_stored_example =
    balance_vf_numa_stored machine keeps [] balanced vfs nodes (omega arith) (omega arith) apart
      balance_three

abbrev pinned : List (Bytes × Bytes)
pinned = (codes "/a/numa_node", codes "1\n") ∷ []

pin_one : pin_vf_numa machine [] (codes "/a" ∷ []) (pos 1) ≡ (none, pinned)
unfolding pin_vf_numa set_vf_node write_int_to_file int_text itoa emit_digits join clean split
    eq_bytes
pin_one = refl
