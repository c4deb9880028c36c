-- ===== src/Sriovvf/Run.antt =====
-- `run`: the steps of the command, in their order, with its try mode.
pub mod TryMode
pub mod Outcome
use dra_driver_integration_e.Base.{
  Bool, true, false, not, ◌||◌, Option, none, some, List, [], ◌∷◌, if◌then◌else◌, Result, ok, err,
  Bytes,
}
use dra_driver_integration_e.Base.Int.{pos, is_negative, ltb_ℤ, eq_ℤ}
use dra_driver_integration_e.Sriovvf.{
  Config, PfDevice, Sysfs, SriovError, negative_count, invalid_root, too_many, listing_nodes,
  ensure_dir,
}
use dra_driver_integration_e.Sriovvf.Device.{resolve_pf, set_num_vfs, set_pf_numa_node}
use dra_driver_integration_e.Sriovvf.Nodes.{
  list_vf_paths, list_numa_nodes, pin_vf_numa, balance_vf_numa,
}

-- What `finishTryMode` logs: nothing outside of try mode.
pub data Ending : Type 0 where
  quiet not_fully succeeded : Ending

abbrev pub finish_try_mode : Bool → Bool → Ending
finish_try_mode false had_failures = quiet
finish_try_mode true true = not_fully
finish_try_mode true false = succeeded

abbrev pub is_nil : {A : Type 0} → List A → Bool
is_nil [] = true
is_nil (x ∷ xs) = false

module _ (S : Sysfs) (cfg : Config) where
  abbrev pub Ended : Type 0
  Ended = Result SriovError Ending × S.World

  abbrev pub finish : Bool → S.World → Ended
  finish had_failures w = (ok (finish_try_mode cfg.try_mode had_failures), w)

  -- `handleFailure` in front of a `finishTryMode`.
  abbrev pub stop : SriovError → S.World → Ended
  stop e w = if cfg.try_mode then finish true w else (err e, w)

  -- `handleFailure` behind a step that writes, and the rest of the function.
  abbrev pub after : Option SriovError → Bool → S.World → (Bool → S.World → Ended) → Ended
  after none had_failures w rest = rest had_failures w
  after (some e) had_failures w rest = if cfg.try_mode then rest true w else (err e, w)

  -- The step for the virtual functions: all on the node of the physical function, or in turns.
  unfoldable pub assign_nodes : List Bytes → Bool → S.World → Ended
  assign_nodes vf_paths had_failures w =
      if not (is_negative cfg.pf_numa_node)
      then (let (failure, w') = pin_vf_numa S w vf_paths cfg.pf_numa_node in
          after failure had_failures w' finish)
      else elim (list_numa_nodes S w cfg.sysfs_root) [
        | err e ↦ stop (listing_nodes e) w
        | ok nodes ↦
            if is_nil nodes
            then finish had_failures w
            else (let (failure, w') = balance_vf_numa S w vf_paths nodes in
                after failure had_failures w' finish)
      ]

  unfoldable pub find_vfs : PfDevice → Bool → S.World → Ended
  find_vfs pf had_failures w = elim (list_vf_paths S w pf.path) [
    | err e ↦ stop e w
    | ok vf_paths ↦
        if is_nil vf_paths || eq_ℤ cfg.num_vfs (pos 0)
        then finish had_failures w
        else assign_nodes vf_paths had_failures w
  ]

  unfoldable pub place_pf : PfDevice → Bool → S.World → Ended
  place_pf pf had_failures w =
      if not (is_negative cfg.pf_numa_node)
      then (let (failure, w') = set_pf_numa_node S w pf cfg.pf_numa_node in
          after failure had_failures w' (find_vfs pf))
      else find_vfs pf had_failures w

  unfoldable pub configure : PfDevice → S.World → Ended
  configure pf w =
      if ltb_ℤ pf.total_vfs cfg.num_vfs
      then stop (too_many cfg.num_vfs pf.total_vfs pf.pci_addr) w
      else (let (failure, w') = set_num_vfs S w pf cfg.num_vfs in
          after failure false w' (place_pf pf))

  unfoldable pub run : S.World → Ended
  run w =
      if is_negative cfg.num_vfs
      then stop (negative_count cfg.num_vfs) w
      else elim (ensure_dir S w cfg.sysfs_root) [
        | err e ↦ stop (invalid_root cfg.sysfs_root e) w
        | ok _ ↦ elim (resolve_pf S w cfg.sysfs_root cfg.pci_addr) [
          | err e ↦ stop e w
          | ok pf ↦ configure pf w
        ]
      ]
