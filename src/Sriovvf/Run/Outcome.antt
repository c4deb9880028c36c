-- ===== src/Sriovvf/Run/Outcome.antt =====
-- What has been done when the command succeeds, and that it does not panic.
use dra_driver_integration_e.Base.{
  ◌<◌, ◌≡◌, refl, sym, ◌∙◌, ◌⊎◌, inl, inr, true, false, ◌||◌, Option, none, some, List, [], ◌∷◌,
  map, length, arith, Bool-cases, Result, ok, err, Bytes, codes,
}
use dra_driver_integration_e.Base.Int.{ℤ, pos, is_negative, ltb_ℤ, eq_ℤ}
use dra_driver_integration_e.Sriovvf.{
  Config, PfDevice, Sysfs, FsError, SriovError, write_int_to_file,
}
use dra_driver_integration_e.Sriovvf.Device.{file_of, resolve_pf, set_num_vfs, set_pf_numa_node}
use dra_driver_integration_e.Sriovvf.Nodes.{
  list_vf_paths, list_numa_nodes, pin_vf_numa, balance_vf_numa,
}
use dra_driver_integration_e.Sriovvf.Device.Choice.{IsPf, device_root, resolve_pf_ok}
use dra_driver_integration_e.Sriovvf.Device.Count.{WasSet, set_num_vfs_ok}
use dra_driver_integration_e.Sriovvf.Nodes.Fair.{
  turns, placed, set_all, pin_vf_numa-set_all, balance_from-set_all,
}
use dra_driver_integration_e.Sriovvf.Run.{
  Ending, is_nil, assign_nodes, find_vfs, place_pf, configure, run,
}

module _ (S : Sysfs) (cfg : Config) (strict : cfg.try_mode ≡ false) where
  -- The nodes are given to the functions: the one that was given to all; or, where none was given,
  -- those that are online in turns, or none as there is none.
  pub data Assigned (w : S.World) (vf_paths : List Bytes) (w' : S.World) : Type 0 where
    pinned :
        is_negative cfg.pf_numa_node ≡ false
        → set_all S w (map (λ vf_path. (vf_path, cfg.pf_numa_node)) vf_paths) ≡ (none, w')
        → Assigned w vf_paths w'
    balanced :
        (nodes : List ℤ)
        → is_negative cfg.pf_numa_node ≡ true
        → list_numa_nodes S w cfg.sysfs_root ≡ ok nodes
        → 0 < length nodes
        → set_all S w (placed nodes (turns (length nodes) 0 vf_paths)) ≡ (none, w')
        → Assigned w vf_paths w'
    no_node :
        is_negative cfg.pf_numa_node ≡ true
        → list_numa_nodes S w cfg.sysfs_root ≡ ok []
        → w' ≡ w
        → Assigned w vf_paths w'

  -- The steps of a run that succeeded, with the states between them.
  pub record Done (w w' : S.World) : Type 0 where
    pub device : PfDevice
    pub not_negative : is_negative cfg.num_vfs ≡ false
    pub resolved : resolve_pf S w cfg.sysfs_root cfg.pci_addr ≡ ok device
    pub sound : IsPf S w (device_root S w cfg.sysfs_root) device
    pub asked_for : (cfg.pci_addr ≡ []) ⊎ (device.pci_addr ≡ cfg.pci_addr)
    pub enough : ltb_ℤ device.total_vfs cfg.num_vfs ≡ false
    pub configured : S.World
    pub counted :
        ((device.current_vfs ≡ cfg.num_vfs) × (configured ≡ w))
        ⊎ WasSet S w device cfg.num_vfs configured
    pub positioned : S.World
    pub moved :
        ((is_negative cfg.pf_numa_node ≡ true) × (positioned ≡ configured))
        ⊎ ((is_negative cfg.pf_numa_node ≡ false)
            × (write_int_to_file S configured
                  (file_of device.path (codes "numa_node"))
                  cfg.pf_numa_node
                ≡ (none, positioned)))
    pub vf_paths : List Bytes
    pub found : list_vf_paths S positioned device.path ≡ ok vf_paths
    pub assigned :
        ((is_nil vf_paths || eq_ℤ cfg.num_vfs (pos 0) ≡ true) × (w' ≡ positioned))
        ⊎ Assigned positioned vf_paths w'

  pin_result :
      (w : S.World) (vf_paths : List Bytes) (end : Ending) (w' : S.World)
      → is_negative cfg.pf_numa_node ≡ false
      → assign_nodes S cfg vf_paths false w ≡ (ok end, w')
      → pin_vf_numa S w vf_paths cfg.pf_numa_node ≡ (none, w')
  unfolding assign_nodes
  pin_result w vf_paths end w' h k = ground arith

  balance_result :
      (w : S.World) (vf_paths : List Bytes) (end : Ending) (w' : S.World) (node : ℤ)
      (nodes : List ℤ)
      → is_negative cfg.pf_numa_node ≡ true
      → list_numa_nodes S w cfg.sysfs_root ≡ ok (node ∷ nodes)
      → assign_nodes S cfg vf_paths false w ≡ (ok end, w')
      → balance_vf_numa S w vf_paths (node ∷ nodes) ≡ (none, w')
  unfolding assign_nodes
  balance_result w vf_paths end w' node nodes h l k = ground arith

  in_turns :
      (w w' : S.World) (vf_paths : List Bytes) (nodes : List ℤ)
      → 0 < length nodes
      → balance_vf_numa S w vf_paths nodes ≡ (none, w')
      → set_all S w (placed nodes (turns (length nodes) 0 vf_paths)) ≡ (none, w')
  unfolding balance_vf_numa
  in_turns w w' vf_paths nodes some_node h =
      sym (balance_from-set_all S vf_paths 0 w nodes some_node) ∙ h

  assign_nodes_ok :
      (w : S.World) (vf_paths : List Bytes) (end : Ending) (w' : S.World)
      → assign_nodes S cfg vf_paths false w ≡ (ok end, w')
      → Assigned w vf_paths w'
  unfolding assign_nodes
  assign_nodes_ok w vf_paths end w' h = elim (Bool-cases (is_negative cfg.pf_numa_node)) [
    | inr fixed ↦ pinned fixed (
        sym (pin_vf_numa-set_all S w vf_paths cfg.pf_numa_node)
        ∙ pin_result w vf_paths end w' fixed h)
    | inl free ↦ go free (list_numa_nodes S w cfg.sysfs_root) refl
  ]
    where
      go :
          is_negative cfg.pf_numa_node ≡ true
          → (l : Result FsError (List ℤ)) → list_numa_nodes S w cfg.sysfs_root ≡ l
          → Assigned w vf_paths w'
      go free (err e) p = absurd (ground arith)
      go free (ok []) p = no_node free p (ground arith)
      go free (ok (node ∷ nodes)) p = balanced (node ∷ nodes) free p (omega arith) (
          in_turns w w' vf_paths (node ∷ nodes) (omega arith)
            (balance_result w vf_paths end w' node nodes free p h))

  -- What `find_vfs` and `place_pf` leave for the record.
  Found : PfDevice → S.World → S.World → Type 0
  Found pf w w' =
      (vf_paths : List Bytes) × (list_vf_paths S w pf.path ≡ ok vf_paths)
      × (((is_nil vf_paths || eq_ℤ cfg.num_vfs (pos 0) ≡ true) × (w' ≡ w)) ⊎ Assigned w vf_paths w')

  find_vfs_ok :
      (pf : PfDevice) (w : S.World) (end : Ending) (w' : S.World)
      → find_vfs S cfg pf false w ≡ (ok end, w')
      → Found pf w w'
  unfolding find_vfs Found
  find_vfs_ok pf w end w' h = go (list_vf_paths S w pf.path) refl
    where
      go : (l : Result SriovError (List Bytes)) → list_vf_paths S w pf.path ≡ l → Found pf w w'
      go (err e) p = absurd (ground arith)
      go (ok vf_paths) p = elim (Bool-cases (is_nil vf_paths || eq_ℤ cfg.num_vfs (pos 0))) [
        | inl nothing ↦ (vf_paths, p, inl (nothing, ground arith))
        | inr some_vf ↦ (vf_paths, p, inr (assign_nodes_ok w vf_paths end w' (ground arith)))
      ]

  Moved : PfDevice → S.World → S.World → Type 0
  Moved pf w u =
      ((is_negative cfg.pf_numa_node ≡ true) × (u ≡ w))
      ⊎ ((is_negative cfg.pf_numa_node ≡ false)
          × (write_int_to_file S w (file_of pf.path (codes "numa_node")) cfg.pf_numa_node
              ≡ (none, u)))

  set_pf_numa_node_ok :
      (pf : PfDevice) (w u : S.World)
      → set_pf_numa_node S w pf cfg.pf_numa_node ≡ (none, u)
      → write_int_to_file S w (file_of pf.path (codes "numa_node")) cfg.pf_numa_node ≡ (none, u)
  unfolding set_pf_numa_node
  set_pf_numa_node_ok pf w u h =
      go (write_int_to_file S w (file_of pf.path (codes "numa_node")) cfg.pf_numa_node).0
        (write_int_to_file S w (file_of pf.path (codes "numa_node")) cfg.pf_numa_node).1 refl
    where
      go :
          (f : Option FsError) (v : S.World)
          → write_int_to_file S w (file_of pf.path (codes "numa_node")) cfg.pf_numa_node ≡ (f, v)
          → write_int_to_file S w (file_of pf.path (codes "numa_node")) cfg.pf_numa_node ≡ (none, u)
      go none v p = ground arith
      go (some e) v p = absurd (ground arith)

  place_pf_ok :
      (pf : PfDevice) (w : S.World) (end : Ending) (w' : S.World)
      → place_pf S cfg pf false w ≡ (ok end, w')
      → (u : S.World) × Moved pf w u × Found pf u w'
  unfolding place_pf Moved
  place_pf_ok pf w end w' h = elim (Bool-cases (is_negative cfg.pf_numa_node)) [
    | inl free ↦ (w, inl (free, refl), find_vfs_ok pf w end w' (ground arith))
    | inr fixed ↦
        let r = set_pf_numa_node S w pf cfg.pf_numa_node in
        (
          r.1,
          inr (fixed, set_pf_numa_node_ok pf w r.1 (ground arith)),
          find_vfs_ok pf r.1 end w' (ground arith),
        )
  ]

  configure_ok :
      (pf : PfDevice) (w : S.World) (end : Ending) (w' : S.World)
      → configure S cfg pf w ≡ (ok end, w')
      → (ltb_ℤ pf.total_vfs cfg.num_vfs ≡ false)
        × (set_num_vfs S w pf cfg.num_vfs ≡ (none, (set_num_vfs S w pf cfg.num_vfs).1))
        × (place_pf S cfg pf false (set_num_vfs S w pf cfg.num_vfs).1 ≡ (ok end, w'))
  unfolding configure
  configure_ok pf w end w' h = ground arith

  -- Outside of try mode, a run that succeeds found a physical network function, the one whose
  -- address was given if one was, that can have the functions asked for. Their number was right
  -- already, or was written, behind a 0 where there were functions before; it moved the device to
  -- the node that was given, if one was, and listed the functions. Where there are any and some
  -- were asked for, it wrote for each of them the node that was given, without one those that are
  -- online in turns, and nothing only if no node was given and none is online.
  pub run_ok : (w : S.World) (end : Ending) (w' : S.World) → run S cfg w ≡ (ok end, w') → Done w w'
  unfolding run Found Moved
  run_ok w end w' h = go (resolve_pf S w cfg.sysfs_root cfg.pci_addr) refl
    where
      go :
          (r : Result SriovError PfDevice)
          → resolve_pf S w cfg.sysfs_root cfg.pci_addr ≡ r
          → Done w w'
      go (err e) p = absurd (ground arith)
      go (ok pf) p =
          let (enough, counted, rest) = configure_ok pf w end w' (ground arith) in
          let (sound, form, asked_for) = resolve_pf_ok S w cfg.sysfs_root cfg.pci_addr pf p in
          let (u, moved, (vf_paths, found, assigned)) =
            place_pf_ok pf (set_num_vfs S w pf cfg.num_vfs).1 end w' rest in
          record {
            device = pf;
            not_negative = ground arith;
            resolved = p;
            sound = sound;
            asked_for = asked_for;
            enough = enough;
            configured = (set_num_vfs S w pf cfg.num_vfs).1;
            counted = set_num_vfs_ok S w pf cfg.num_vfs _ counted;
            positioned = u;
            moved = moved;
            vf_paths = vf_paths;
            found = found;
            assigned = assigned;
          }
