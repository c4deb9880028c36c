-- ===== src/Sriovvf/Nodes.antt =====
-- The virtual functions, the NUMA nodes, and which function gets which node.
pub mod Fair
pub mod Stored
use dra_driver_integration_e.Base.{
  ℕ, suc, ◌%◌, Bool, true, false, not, ◌||◌, Option, none, some, List, [], ◌∷◌, if◌then◌else◌,
  length, get_elem?, drop, Result, ok, err, ◌>>=◌, Bytes, codes, leb_bytes, has_prefix,
}
use dra_driver_integration_e.Base.FilePath.{join}
use dra_driver_integration_e.Base.Sort.{sort}
use dra_driver_integration_e.Base.Int.{ℤ, leb_ℤ, eq_ℤ, pos, atoi}
use dra_driver_integration_e.Sriovvf.{
  FsError, Entry, Sysfs, SriovError, listing_vfs, resolving_vf, vf_node, node_index,
  read_int_from_file, write_int_to_file,
}

abbrev pub numa_path : Bytes → Bytes
numa_path vf_path = join (vf_path ∷ codes "numa_node" ∷ [])

module _ (S : Sysfs) where
  -- The loop of `listVFPaths`.
  resolve_vfs : S.World → Bytes → List Entry → Result SriovError (List Bytes)
  resolve_vfs w pf_path [] = ok []
  resolve_vfs w pf_path (entry ∷ entries) =
      let rest = resolve_vfs w pf_path entries in
      let link_path = join (pf_path ∷ entry.name ∷ []) in
      if not (has_prefix entry.name (codes "virtfn"))
      then rest
      else elim (S.eval_symlinks w link_path) [
        | err e ↦ err (resolving_vf link_path e)
        | ok resolved ↦ rest >>= (λ paths. ok (resolved ∷ paths))
      ]

  unfoldable pub list_vf_paths : S.World → Bytes → Result SriovError (List Bytes)
  unfolding resolve_vfs
  list_vf_paths w pf_path = elim (S.read_dir w pf_path) [
    | err e ↦ err (listing_vfs pf_path e)
    | ok entries ↦ resolve_vfs w pf_path entries >>= (λ paths. ok (sort leb_bytes paths))
  ]

  -- A node without the file is online; with the file, it must hold a number other than 0.
  is_online : S.World → Bytes → Bool
  is_online w online_path = elim (S.stat w online_path) [
    | err e ↦ true
    | ok _ ↦ elim (read_int_from_file S w online_path) [
      | err e ↦ false
      | ok online ↦ not (eq_ℤ online (pos 0))
    ]
  ]

  -- One round of the loop of `listNUMANodes`: the index that is appended, if any.
  unfoldable pub node_of_entry : S.World → Bytes → Entry → Option ℤ
  unfolding is_online
  node_of_entry w node_root entry =
      if not entry.is_dir || not (has_prefix entry.name (codes "node"))
      then none
      else elim (atoi (drop 4 entry.name)) [
        | none ↦ none
        | some idx ↦
            if is_online w (join (node_root ∷ entry.name ∷ codes "online" ∷ []))
            then some idx
            else none
      ]

  nodes_of_entries : S.World → Bytes → List Entry → List ℤ
  nodes_of_entries w node_root [] = []
  nodes_of_entries w node_root (entry ∷ entries) =
      let rest = nodes_of_entries w node_root entries in
      elim (node_of_entry w node_root entry) [ none ↦ rest | some idx ↦ idx ∷ rest ]

  unfoldable pub list_numa_nodes : S.World → Bytes → Result FsError (List ℤ)
  unfolding nodes_of_entries
  list_numa_nodes w sysfs_root =
      let node_root = join (sysfs_root ∷ codes "devices" ∷ codes "system" ∷ codes "node" ∷ []) in
      elim (S.read_dir w node_root) [
        | err e ↦ err e
        | ok entries ↦ ok (sort leb_ℤ (nodes_of_entries w node_root entries))
      ]

  -- The body of the loops of `pinVFNUMA` and `balanceVFNUMA`.
  unfoldable pub set_vf_node : S.World → Bytes → ℤ → Option SriovError × S.World
  set_vf_node w vf_path node =
      let (failure, w') = write_int_to_file S w (numa_path vf_path) node in
      (elim failure [ none ↦ none | some e ↦ some (vf_node vf_path node e) ], w')

  unfoldable pub pin_vf_numa : S.World → List Bytes → ℤ → Option SriovError × S.World
  pin_vf_numa w [] node = (none, w)
  pin_vf_numa w (vf_path ∷ vf_paths) node =
      let (failure, w') = set_vf_node w vf_path node in
      let rest = pin_vf_numa w' vf_paths node in
      elim failure [ none ↦ rest | some e ↦ (some e, w') ]

  -- The loop of `balanceVFNUMA` from the index on.
  unfoldable pub balance_from : ℕ → S.World → List Bytes → List ℤ → Option SriovError × S.World
  balance_from idx w [] nodes = (none, w)
  balance_from idx w (vf_path ∷ vf_paths) nodes = elim (get_elem? nodes (idx % length nodes)) [
    | none ↦ (some node_index, w)
    | some node ↦
        let (failure, w') = set_vf_node w vf_path node in
        elim failure [ none ↦ balance_from (suc idx) w' vf_paths nodes | some e ↦ (some e, w') ]
  ]

  unfoldable pub balance_vf_numa : S.World → List Bytes → List ℤ → Option SriovError × S.World
  balance_vf_numa w vf_paths nodes = balance_from 0 w vf_paths nodes
