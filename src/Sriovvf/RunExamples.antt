-- ===== src/Sriovvf/RunExamples.antt =====
-- A whole run of the command, and the theorems on it.
use dra_driver_integration_e.Base.{
  ◌≡◌, refl, ◌↔◌, true, false, List, [], ◌∷◌, ok, Bytes, codes, eq_bytes, leb_bytes, has_prefix,
}
use dra_driver_integration_e.Base.FilePath.{join, clean, split}
use dra_driver_integration_e.Base.Sort.{sort}
use dra_driver_integration_e.Base.Decimal.{itoa, emit_digits}
use dra_driver_integration_e.Base.Space.{trim_space}
use dra_driver_integration_e.Base.Int.{pos, negsuc, int_text, atoi}
use dra_driver_integration_e.Sriovvf.{Config, ensure_dir, read_int_from_file, write_int_to_file}
use dra_driver_integration_e.Sriovvf.Address.{is_fixed_hex, is_pci_address}
use dra_driver_integration_e.Sriovvf.Device.{
  validate_pf_device, candidate, first_candidate, resolve_pf, set_num_vfs,
}
use dra_driver_integration_e.Sriovvf.Nodes.{
  list_vf_paths, node_of_entry, list_numa_nodes, set_vf_node, balance_from, balance_vf_numa,
}
use dra_driver_integration_e.Sriovvf.Run.{
  quiet, succeeded, run, configure, place_pf, find_vfs, assign_nodes,
}
use dra_driver_integration_e.Sriovvf.Run.TryMode.{run_try_iff}
use dra_driver_integration_e.Sriovvf.Run.Outcome.{Done, run_ok}
use dra_driver_integration_e.Sriovvf.Examples.{machine}

abbrev cfg : Config
cfg = record {
  sysfs_root = codes "/sys";
  num_vfs = pos 2;
  pf_numa_node = negsuc 0;
  pci_addr = [];
  try_mode = false;
}

abbrev done : List (Bytes × Bytes)
done =
    (codes "/sys/bus/pci/devices/0000:3b:00.0/virtfn1/numa_node", codes "1\n")
    ∷ (codes "/sys/bus/pci/devices/0000:3b:00.0/virtfn0/numa_node", codes "0\n")
    ∷ []

run_try_iff_example :
    (run machine cfg [] ≡ (ok quiet, done))
    ↔ (run machine (record cfg { try_mode = true }) [] ≡ (ok succeeded, done))
run_try_iff_example = run_try_iff machine cfg [] done

ran : run machine cfg [] ≡ (ok quiet, done)
unfolding run configure place_pf find_vfs assign_nodes set_num_vfs list_vf_paths list_numa_nodes
    node_of_entry has_prefix balance_vf_numa balance_from set_vf_node write_int_to_file int_text
    itoa emit_digits resolve_pf first_candidate candidate validate_pf_device ensure_dir
    read_int_from_file is_pci_address is_fixed_hex split join clean sort eq_bytes leb_bytes
    trim_space atoi
ran = refl

run_ok_example : Done machine cfg refl [] done
run_ok_example = run_ok machine cfg refl [] quiet done ran
