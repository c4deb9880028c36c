-- ===== src/Sriovvf/Device.antt =====
-- The choice of the physical function, and the writes to it.
pub mod Choice
pub mod Count
use dra_driver_integration_e.Base.{
  Bool, not, ◌&&◌, Option, none, some, List, [], ◌∷◌, if◌then◌else◌, Result, ok, err, ◌>>=◌,
  map_err, Bytes, codes, eq_bytes, leb_bytes,
}
use dra_driver_integration_e.Base.FilePath.{join}
use dra_driver_integration_e.Base.Sort.{sort}
use dra_driver_integration_e.Base.Int.{ℤ, pos, ltb_ℤ, leb_ℤ, eq_ℤ}
use dra_driver_integration_e.Sriovvf.{
  PfDevice, not_exist, failed, Entry, Sysfs, NumberError, SriovError, invalid_address,
  listing_devices, no_device, not_found, is_vf, unknown_role, not_network, not_capable, no_capacity,
  unknown_count, resetting, configuring, pf_node, ensure_dir, read_int_from_file, write_int_to_file,
}
use dra_driver_integration_e.Sriovvf.Address.{is_pci_address}

-- `sort.Slice` by name. The names of a directory differ, so that the order is the only one.
abbrev pub leb_entry : Entry → Entry → Bool
leb_entry a b = leb_bytes a.name b.name

-- The device's directory with a file in it.
abbrev pub file_of : Bytes → Bytes → Bytes
file_of path name = join (path ∷ name ∷ [])

-- The test of the number of functions that the device can have.
check_capacity : Bytes → Result NumberError ℤ → Result SriovError ℤ
check_capacity pci (err e) = err (not_capable pci e)
check_capacity pci (ok total) = if leb_ℤ total (pos 0) then err (no_capacity pci) else ok total

module _ (S : Sysfs) where
  -- The second step of `validatePFDevice`: there must be no `physfn`.
  check_role : S.World → Bytes → Bytes → Result SriovError (Unit {0})
  check_role w pci dev_path = elim (S.stat w (file_of dev_path (codes "physfn"))) [
    | ok _ ↦ err (is_vf pci)
    | err (not_exist e) ↦ ok tt
    | err (failed e) ↦ err (unknown_role pci (failed e))
  ]

  unfoldable pub validate_pf_device : S.World → Bytes → Bytes → Result SriovError PfDevice
  unfolding check_role check_capacity
  validate_pf_device w dev_root pci =
      let dev_path = join (dev_root ∷ pci ∷ []) in
      (do
        _ ← map_err (not_found pci) (ensure_dir S w dev_path)
        _ ← check_role w pci dev_path
        _ ← map_err (λ e. not_network pci) (ensure_dir S w (file_of dev_path (codes "net")))
        total ←
            check_capacity pci (read_int_from_file S w (file_of dev_path (codes "sriov_totalvfs")))
        current ←
            map_err (unknown_count pci)
              (read_int_from_file S w (file_of dev_path (codes "sriov_numvfs")))
        ok (record { pci_addr = pci; path = dev_path; total_vfs = total; current_vfs = current }))

  -- One round of the loop of `resolvePF`: the device, if the entry is one.
  unfoldable pub candidate : S.World → Bytes → Entry → Option PfDevice
  candidate w dev_root entry =
      if not entry.is_dir && not entry.is_link
      then none
      else if not (is_pci_address entry.name)
      then none
      else elim (validate_pf_device w dev_root entry.name) [ ok pf ↦ some pf | err e ↦ none ]

  unfoldable pub first_candidate : S.World → Bytes → List Entry → Result SriovError PfDevice
  first_candidate w dev_root [] = err no_device
  first_candidate w dev_root (entry ∷ entries) =
      let rest = first_candidate w dev_root entries in
      elim (candidate w dev_root entry) [ some pf ↦ ok pf | none ↦ rest ]

  unfoldable pub resolve_pf : S.World → Bytes → Bytes → Result SriovError PfDevice
  resolve_pf w sysfs_root user_pci =
      let dev_root = join (sysfs_root ∷ codes "bus" ∷ codes "pci" ∷ codes "devices" ∷ []) in
      if not (eq_bytes user_pci [])
      then (if not (is_pci_address user_pci)
          then err (invalid_address user_pci)
          else validate_pf_device w dev_root user_pci)
      else elim (S.read_dir w dev_root) [
        | err e ↦ err (listing_devices dev_root e)
        | ok entries ↦ first_candidate w dev_root (sort leb_entry entries)
      ]

  -- The last step of `setNumVFs`.
  configure_count : S.World → PfDevice → ℤ → Option SriovError × S.World
  configure_count w pf requested =
      let (failure, w') =
        write_int_to_file S w (file_of pf.path (codes "sriov_numvfs")) requested in
      (elim failure [ none ↦ none | some e ↦ some (configuring requested pf.pci_addr e) ], w')

  unfoldable pub set_num_vfs : S.World → PfDevice → ℤ → Option SriovError × S.World
  unfolding configure_count
  set_num_vfs w pf requested =
      if eq_ℤ pf.current_vfs requested
      then (none, w)
      else if ltb_ℤ (pos 0) pf.current_vfs
      then (let (failure, w') =
            write_int_to_file S w (file_of pf.path (codes "sriov_numvfs")) (pos 0) in
          elim failure [
            | some e ↦ (some (resetting pf.pci_addr e), w')
            | none ↦ configure_count w' pf requested
          ])
      else configure_count w pf requested

  unfoldable pub set_pf_numa_node : S.World → PfDevice → ℤ → Option SriovError × S.World
  set_pf_numa_node w pf node =
      let (failure, w') = write_int_to_file S w (file_of pf.path (codes "numa_node")) node in
      (elim failure [ none ↦ none | some e ↦ some (pf_node pf.pci_addr node e) ], w')
