-- ===== src/Sriovvf/Device/Choice.antt =====
-- Which device is chosen: it is a physical function, and the first that is one.
use dra_driver_integration_e.Base.{
  ◌≡◌, refl, ap, ◌∙◌, ◌⊎◌, inl, inr, Bool, true, false, ◌||◌, none, some, List, [], ◌∷◌, ◌++◌,
  arith, Bool-cases, Option-cases, All, Result, ok, err, ◌>>=◌, map_err, Bytes, codes, eq_bytes,
}
use dra_driver_integration_e.Base.FilePath.{join}
use dra_driver_integration_e.Base.Sort.{sort}
use dra_driver_integration_e.Base.Int.{ℤ, pos, ltb_ℤ}
use dra_driver_integration_e.Sriovvf.{
  PfDevice, FsError, not_exist, failed, Entry, Sysfs, NumberError, SriovError, not_found,
  not_network, unknown_count, ensure_dir, read_int_from_file,
}
use dra_driver_integration_e.Sriovvf.Address.{is_pci_address}
use dra_driver_integration_e.Sriovvf.Device.{
  file_of, leb_entry, check_role, check_capacity, validate_pf_device, candidate, first_candidate,
  resolve_pf,
}

steps_passed :
    (pci path : Bytes) (a b c : Result SriovError (Unit {0})) (d e : Result SriovError ℤ)
    (pf : PfDevice)
    → (do
      _ ← a
      _ ← b
      _ ← c
      total ← d
      current ← e
      ok (record { pci_addr = pci; path = path; total_vfs = total; current_vfs = current }))
      ≡ ok pf
    → (a ≡ ok tt)
      × (b ≡ ok tt)
      × (c ≡ ok tt)
      × (d ≡ ok pf.total_vfs)
      × (e ≡ ok pf.current_vfs)
      × (pf.pci_addr ≡ pci)
      × (pf.path ≡ path)
steps_passed pci path (err x) b c d e pf h = absurd (ground arith)
steps_passed pci path (ok _) (err x) c d e pf h = absurd (ground arith)
steps_passed pci path (ok _) (ok _) (err x) d e pf h = absurd (ground arith)
steps_passed pci path (ok _) (ok _) (ok _) (err x) e pf h = absurd (ground arith)
steps_passed pci path (ok _) (ok _) (ok _) (ok t) (err x) pf h = absurd (ground arith)
steps_passed pci path (ok _) (ok _) (ok _) (ok t) (ok n) pf h = ground arith

module _ {E F A : Type 0} (f : E → F) where
  map_err_ok : (r : Result E A) (a : A) → map_err f r ≡ ok a → r ≡ ok a
  map_err_ok (ok b) a h = ground arith
  map_err_ok (err e) a h = absurd (ground arith)

check_capacity_ok :
    (pci : Bytes) (r : Result NumberError ℤ) (total : ℤ)
    → check_capacity pci r ≡ ok total
    → (r ≡ ok total) × (ltb_ℤ (pos 0) total ≡ true)
unfolding check_capacity
check_capacity_ok pci (err e) total h = absurd (ground arith)
check_capacity_ok pci (ok n) total h = ground arith

module _ (S : Sysfs) (w : S.World) where
  -- A device that is no virtual function, is a network device, and can have virtual functions; the
  -- numbers are those that sysfs shows.
  pub record IsPf (dev_root : Bytes) (pf : PfDevice) : Type 0 where
    pub path_is : pf.path ≡ join (dev_root ∷ pf.pci_addr ∷ [])
    pub there : ensure_dir S w pf.path ≡ ok tt
    pub missing : Bytes
    pub no_vf : S.stat w (file_of pf.path (codes "physfn")) ≡ err (not_exist missing)
    pub network : ensure_dir S w (file_of pf.path (codes "net")) ≡ ok tt
    pub total : read_int_from_file S w (file_of pf.path (codes "sriov_totalvfs")) ≡ ok pf.total_vfs
    pub positive : ltb_ℤ (pos 0) pf.total_vfs ≡ true
    pub current :
        read_int_from_file S w (file_of pf.path (codes "sriov_numvfs")) ≡ ok pf.current_vfs

  check_role_ok :
      (pci path : Bytes)
      → check_role S w pci path ≡ ok tt
      → (e : Bytes) × (S.stat w (file_of path (codes "physfn")) ≡ err (not_exist e))
  unfolding check_role
  check_role_ok pci path h = go (S.stat w (file_of path (codes "physfn"))) refl
    where
      go :
          (s : Result FsError Bool)
          → S.stat w (file_of path (codes "physfn")) ≡ s
          → (e : Bytes) × (S.stat w (file_of path (codes "physfn")) ≡ err (not_exist e))
      go (ok b) p = absurd (ground arith)
      go (err (not_exist e)) p = (e, p)
      go (err (failed e)) p = absurd (ground arith)

  validate_pf_device_ok :
      (dev_root pci : Bytes) (pf : PfDevice)
      → validate_pf_device S w dev_root pci ≡ ok pf
      → IsPf dev_root pf × (pf.pci_addr ≡ pci)
  unfolding validate_pf_device
  validate_pf_device_ok dev_root pci pf h =
      let path = join (dev_root ∷ pci ∷ []) in
      let (a, b, c, d, e, same, path_is) = steps_passed pci path _ _ _ _ _ pf h in
      let (missing, no_vf) = check_role_ok pci path b in
      let (total, positive) = check_capacity_ok pci _ pf.total_vfs d in
      (
        record {
          path_is = rw same path_is;
          there = rw path_is (map_err_ok (not_found pci) _ tt a);
          missing = missing;
          no_vf = rw path_is no_vf;
          network = rw path_is (map_err_ok (λ e. not_network pci) _ tt c);
          total = rw path_is total;
          positive = positive;
          current = rw path_is (map_err_ok (unknown_count pci) _ pf.current_vfs e);
        },
        same,
      )

  -- An entry is passed over if it is neither a directory nor a link, has no name of the form of an
  -- address, or is refused as a device.
  pub data Passed (dev_root : Bytes) (entry : Entry) : Type 0 where
    other_kind : entry.is_dir ≡ false → entry.is_link ≡ false → Passed dev_root entry
    other_name : is_pci_address entry.name ≡ false → Passed dev_root entry
    refused :
        (e : SriovError)
        → validate_pf_device S w dev_root entry.name ≡ err e
        → Passed dev_root entry

  candidate-Passed :
      (dev_root : Bytes) (entry : Entry)
      → candidate S w dev_root entry ≡ none
      → Passed dev_root entry
  unfolding candidate
  candidate-Passed dev_root entry h = elim (Bool-cases (entry.is_dir || entry.is_link)) [
    | inr other ↦ other_kind (ground arith) (ground arith)
    | inl there ↦ elim (Bool-cases (is_pci_address entry.name)) [
      | inr other ↦ other_name other
      | inl form ↦ go (validate_pf_device S w dev_root entry.name) refl (ground arith)
    ]
  ]
    where
      go :
          (r : Result SriovError PfDevice)
          → validate_pf_device S w dev_root entry.name ≡ r
          → (elim r [ ok pf ↦ some pf | err e ↦ none ]) ≡ none
          → Passed dev_root entry
      go (err e) p k = refused e p
      go (ok pf) p k = absurd (ground arith)

  candidate_taken :
      (dev_root : Bytes) (entry : Entry) (pf : PfDevice)
      → candidate S w dev_root entry ≡ some pf
      → (entry.is_dir || entry.is_link ≡ true)
        × (is_pci_address entry.name ≡ true)
        × (validate_pf_device S w dev_root entry.name ≡ ok pf)
  unfolding candidate
  candidate_taken dev_root entry pf h = go (validate_pf_device S w dev_root entry.name) refl
    where
      go :
          (r : Result SriovError PfDevice)
          → validate_pf_device S w dev_root entry.name ≡ r
          → (entry.is_dir || entry.is_link ≡ true)
            × (is_pci_address entry.name ≡ true)
            × (validate_pf_device S w dev_root entry.name ≡ ok pf)
      go (err e) p = absurd (ground arith)
      go (ok found) p = (ground arith, ground arith, ground arith)

  -- The entry that is chosen, with those in front of it, each of which is passed over.
  pub record IsFirst (dev_root : Bytes) (entries : List Entry) (pf : PfDevice) : Type 0 where
    pub before : List Entry
    pub entry : Entry
    pub later : List Entry
    pub splits : entries ≡ before ++ (entry ∷ later)
    pub passed : All (Passed dev_root) before
    pub kind : entry.is_dir || entry.is_link ≡ true
    pub form : is_pci_address entry.name ≡ true
    pub valid : validate_pf_device S w dev_root entry.name ≡ ok pf

  first_candidate_ok :
      (dev_root : Bytes) (entries : List Entry) (pf : PfDevice)
      → first_candidate S w dev_root entries ≡ ok pf
      → IsFirst dev_root entries pf
  unfolding first_candidate
  first_candidate_ok dev_root [] pf h = absurd (ground arith)
  first_candidate_ok dev_root (entry ∷ entries) pf h =
      elim (Option-cases (candidate S w dev_root entry)) [
        | inr (found, c) ↦
            let (kind, form, valid) =
              candidate_taken dev_root entry pf (c ∙ ap some (ground arith)) in
            record {
              before = [];
              entry = entry;
              later = entries;
              splits = refl;
              passed = tt;
              kind = kind;
              form = form;
              valid = valid;
            }
        | inl c ↦
            let rest = first_candidate_ok dev_root entries pf (ground arith) in
            record {
              before = entry ∷ rest.before;
              entry = rest.entry;
              later = rest.later;
              splits = ap (◌∷◌ entry) rest.splits;
              passed = (candidate-Passed dev_root entry c, rest.passed);
              kind = rest.kind;
              form = rest.form;
              valid = rest.valid;
            }
      ]

  abbrev pub device_root : Bytes → Bytes
  device_root sysfs_root = join (sysfs_root ∷ codes "bus" ∷ codes "pci" ∷ codes "devices" ∷ [])

  resolve_user :
      (sysfs_root user_pci : Bytes) (pf : PfDevice)
      → eq_bytes user_pci [] ≡ false
      → resolve_pf S w sysfs_root user_pci ≡ ok pf
      → IsPf (device_root sysfs_root) pf
        × (pf.pci_addr ≡ user_pci)
        × (is_pci_address user_pci ≡ true)
  unfolding resolve_pf
  resolve_user sysfs_root user_pci pf given h = elim (Bool-cases (is_pci_address user_pci)) [
    | inl form ↦
        let (sound, name) =
          validate_pf_device_ok (device_root sysfs_root) user_pci pf (ground arith) in
        (sound, name, form)
    | inr form ↦ absurd (ground arith)
  ]

  -- Without an address the directory is read, and the device is that of the first entry, in the
  -- order of the names, that is a directory or a link, has a name of the form of an address, and is
  -- accepted as a device: every entry in front of it is neither a directory nor a link, has no such
  -- name, or is refused as a device.
  pub resolve_pf-IsFirst :
      (sysfs_root : Bytes) (pf : PfDevice)
      → resolve_pf S w sysfs_root [] ≡ ok pf
      → (entries : List Entry) × (S.read_dir w (device_root sysfs_root) ≡ ok entries)
        × IsFirst (device_root sysfs_root) (sort leb_entry entries) pf
  unfolding resolve_pf eq_bytes
  resolve_pf-IsFirst sysfs_root pf h = go (S.read_dir w (device_root sysfs_root)) refl
    where
      go :
          (r : Result FsError (List Entry))
          → S.read_dir w (device_root sysfs_root) ≡ r
          → (entries : List Entry) × (S.read_dir w (device_root sysfs_root) ≡ ok entries)
            × IsFirst (device_root sysfs_root) (sort leb_entry entries) pf
      go (err e) p = absurd (ground arith)
      go (ok entries) p = (
        entries,
        p,
        first_candidate_ok (device_root sysfs_root) (sort leb_entry entries) pf (ground arith),
      )

  -- The device that is chosen, by its address or by the search, is a physical network function that
  -- can have virtual functions, its address has the form of one, and an address that was given is
  -- its.
  pub resolve_pf_ok :
      (sysfs_root user_pci : Bytes) (pf : PfDevice)
      → resolve_pf S w sysfs_root user_pci ≡ ok pf
      → IsPf (device_root sysfs_root) pf
        × (is_pci_address pf.pci_addr ≡ true)
        × ((user_pci ≡ []) ⊎ (pf.pci_addr ≡ user_pci))
  resolve_pf_ok sysfs_root [] pf h =
      let (entries, read, first) = resolve_pf-IsFirst sysfs_root pf h in
      let (sound, name) =
        validate_pf_device_ok (device_root sysfs_root) first.entry.name pf first.valid in
      (sound, rw name first.form, inl refl)
  resolve_pf_ok sysfs_root (c ∷ user_pci) pf h =
      let (sound, name, form) =
        resolve_user sysfs_root (c ∷ user_pci) pf (unfold eq_bytes in refl) h in
      (sound, rw name form, inr name)
