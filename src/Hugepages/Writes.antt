-- ===== src/Hugepages/Writes.antt =====
-- A run as one list of writes, in order and up to the first that fails.
use dra_driver_integration_e.Base.{
  ℕ, zero, suc, ◌<◌, ◌≡◌, refl, sym, ap, ap₂, ◌∙◌, inl, inr, Option, none, some, List, [], ◌∷◌,
  ◌++◌, arith, ◌==◌, if◌then◌else◌, Bool-cases, err, Bytes,
}
use dra_driver_integration_e.Base.Int.{ℤ, pos, ◌+ℤ◌, +ℤ_assoc, quot, rem}
use dra_driver_integration_e.Hugepages.{
  HugePage, HugePageProvision, Arch, Sysfs, ProvisionError, bad_size, validate_huge_page_size,
  pick_node, provision_on_node, other_nodes, provision_on_multi_node, provision_group,
  provision_groups, runtime_hugepages,
}
use dra_driver_integration_e.Hugepages.Split.{shares_from, shares, total, total-shares}

-- A node, a count and a size.
abbrev pub Grant : Type 0
Grant = ℤ × ℤ × Bytes

abbrev pub tagged : Bytes → List (ℤ × ℤ) → List Grant
tagged size [] = []
tagged size ((numa_node, hp_count) ∷ rest) = (numa_node, hp_count, size) ∷ tagged size rest

-- The node that a group names, or node 0.
abbrev pub named_node : Option ℤ → ℤ
named_node (some numa_node) = numa_node
named_node none = pos 0

-- What one group asks for.
abbrev pub grants : ℕ → HugePage → List Grant
grants numa_zones conf =
    if numa_zones == 1
    then (named_node conf.node, conf.count, conf.size) ∷ []
    else tagged conf.size (shares numa_zones conf.count)

abbrev pub all_grants : ℕ → List HugePage → List Grant
all_grants numa_zones [] = []
all_grants numa_zones (conf ∷ pages) = grants numa_zones conf ++ all_grants numa_zones pages

-- The pages of some grants, and those that the groups ask for.
abbrev pub granted : List Grant → ℤ
granted [] = pos 0
granted ((numa_node, hp_count, size) ∷ rest) = hp_count +ℤ granted rest

abbrev pub asked : List HugePage → ℤ
asked [] = pos 0
asked (conf ∷ pages) = conf.count +ℤ asked pages

granted-append : (xs ys : List Grant) → granted (xs ++ ys) ≡ granted xs +ℤ granted ys
granted-append [] ys = ground arith
granted-append ((numa_node, hp_count, size) ∷ xs) ys =
    ap (λ n. hp_count +ℤ n) (granted-append xs ys)
    ∙ sym (+ℤ_assoc hp_count (granted xs) (granted ys))

granted-tagged : (size : Bytes) (pairs : List (ℤ × ℤ)) → granted (tagged size pairs) ≡ total pairs
granted-tagged size [] = refl
granted-tagged size ((numa_node, hp_count) ∷ pairs) =
    ap (λ n. hp_count +ℤ n) (granted-tagged size pairs)

granted-grants : (n : ℕ) (conf : HugePage) → 0 < n → granted (grants n conf) ≡ conf.count
granted-grants n conf h =
    ground (arith, granted-tagged conf.size (shares n conf.count), total-shares n conf.count h)

granted-all_grants :
    (n : ℕ) (pages : List HugePage) → 0 < n → granted (all_grants n pages) ≡ asked pages
granted-all_grants n [] h = refl
granted-all_grants n (conf ∷ pages) h =
    granted-append (grants n conf) (all_grants n pages)
    ∙ ap₂ (λ a b. a +ℤ b) (granted-grants n conf h) (granted-all_grants n pages h)

module _ (S : Sysfs) (arch : Arch) (sys_root : Bytes) where
  pub give_all : S.World → List Grant → Option ProvisionError × S.World
  give_all w [] = (none, w)
  give_all w ((numa_node, hp_count, size) ∷ rest) =
      let (failure, w') = provision_on_node S arch sys_root w numa_node hp_count size in
      let later = give_all w' rest in elim failure [ some e ↦ (some e, w') | none ↦ later ]

  -- What comes behind writes: nothing, if one of them fails.
  abbrev and_then : Option ProvisionError × S.World → List Grant → Option ProvisionError × S.World
  and_then (none, w) rest = give_all w rest
  and_then (some e, w) rest = (some e, w)

  give_all-append :
      (front : List Grant) (w : S.World) (rest : List Grant)
      → give_all w (front ++ rest) ≡ and_then (give_all w front) rest
  unfolding give_all
  give_all-append [] w rest = refl
  give_all-append ((numa_node, hp_count, size) ∷ front) w rest =
      let r = provision_on_node S arch sys_root w numa_node hp_count size in
      ground (arith, give_all-append front r.1 rest)

  other_nodes-give_all :
      (more k : ℕ) (w : S.World) (per_node : ℤ) (size : Bytes)
      → other_nodes S arch sys_root more k w per_node size
        ≡ give_all w (tagged size (shares_from more k per_node))
  unfolding other_nodes give_all
  other_nodes-give_all zero k w per_node size = refl
  other_nodes-give_all (suc more) k w per_node size =
      let r = provision_on_node S arch sys_root w (pos k) per_node size in
      ground (arith, other_nodes-give_all more (suc k) r.1 per_node size)

  provision_on_multi_node-give_all :
      (n : ℕ) (w : S.World) (hp_count : ℤ) (size : Bytes)
      → 0 < n
      → provision_on_multi_node S arch sys_root w n hp_count size
        ≡ give_all w (tagged size (shares n hp_count))
  unfolding provision_on_multi_node give_all
  provision_on_multi_node-give_all zero w hp_count size h = absurd (omega arith)
  provision_on_multi_node-give_all (suc n) w hp_count size h =
      let per_node = quot hp_count (suc n) in
      let first = per_node +ℤ rem hp_count (suc n) in
      let r = provision_on_node S arch sys_root w (pos 0) first size in
      ground (arith, other_nodes-give_all n 1 r.1 per_node size)

  provision_group-give_all :
      (numa_zones : ℕ) (w : S.World) (conf : HugePage)
      → 0 < numa_zones
      → provision_group S arch sys_root w numa_zones conf ≡ give_all w (grants numa_zones conf)
  unfolding provision_group give_all pick_node
  provision_group-give_all numa_zones w conf h =
      let multi = provision_on_multi_node-give_all numa_zones w conf.count conf.size h in
      elim (Bool-cases (numa_zones == 1)) [ inl one ↦ ground arith | inr many ↦ rw many multi ]

  provision_groups-give_all :
      (pages : List HugePage) (numa_zones : ℕ) (w : S.World)
      → 0 < numa_zones
      → provision_groups S arch sys_root w numa_zones pages
        ≡ give_all w (all_grants numa_zones pages)
  unfolding provision_groups give_all
  provision_groups-give_all [] numa_zones w h = refl
  provision_groups-give_all (conf ∷ pages) numa_zones w h =
      let r = provision_group S arch sys_root w numa_zones conf in
      let later = provision_groups-give_all pages numa_zones r.1 h in
      let first = provision_group-give_all numa_zones w conf h in
      let both = give_all-append (grants numa_zones conf) w (all_grants numa_zones pages) in
      rw (both, ← first) (ground (arith, later))

  -- On a machine with at least one node the run is the writes of all groups in their order, up to
  -- the first that fails. A group is one write to the node that it names, or to node 0, where there
  -- is one node; where there are more, it is a write to each, whatever node it names.
  -- Over all groups the counts add up to what they ask for.
  pub runtime_hugepages_lem :
      (w : S.World) (hpp : HugePageProvision) (numa_zones : ℕ)
      → 0 < numa_zones
      → (runtime_hugepages S arch sys_root w hpp numa_zones
          ≡ give_all w (all_grants numa_zones hpp.spec.pages))
        × (granted (all_grants numa_zones hpp.spec.pages) ≡ asked hpp.spec.pages)
  unfolding runtime_hugepages
  runtime_hugepages_lem w hpp numa_zones h = (
    provision_groups-give_all hpp.spec.pages numa_zones w h,
    granted-all_grants numa_zones hpp.spec.pages h,
  )

  -- On at least one node a group that is split is written to the nodes in order, up to the first
  -- failure, and the counts add up to the count of the group.
  pub provision_on_multi_node_lem :
      (w : S.World) (numa_node_count : ℕ) (hp_count : ℤ) (size : Bytes)
      → 0 < numa_node_count
      → (provision_on_multi_node S arch sys_root w numa_node_count hp_count size
          ≡ give_all w (tagged size (shares numa_node_count hp_count)))
        × (total (shares numa_node_count hp_count) ≡ hp_count)
  provision_on_multi_node_lem w numa_node_count hp_count size h = (
    provision_on_multi_node-give_all numa_node_count w hp_count size h,
    total-shares numa_node_count hp_count h,
  )

  bad_size_on_node :
      (w : S.World) (numa_node hp_count : ℤ) (size e : Bytes)
      → validate_huge_page_size arch size ≡ err e
      → provision_on_node S arch sys_root w numa_node hp_count size ≡ (some (bad_size e), w)
  unfolding provision_on_node
  bad_size_on_node w numa_node hp_count size e h = ground arith

  -- A group whose size the architecture does not have is refused and nothing is written for it, on
  -- any machine with at least one node.
  pub provision_group_bad_size :
      (w : S.World) (numa_zones : ℕ) (conf : HugePage) (e : Bytes)
      → 0 < numa_zones
      → validate_huge_page_size arch conf.size ≡ err e
      → provision_group S arch sys_root w numa_zones conf ≡ (some (bad_size e), w)
  unfolding provision_group provision_on_multi_node
  provision_group_bad_size w zero conf e h bad = absurd (omega arith)
  provision_group_bad_size w (suc n) conf e h bad =
      let single = bad_size_on_node w (pick_node conf) conf.count conf.size e bad in
      let first = quot conf.count (suc n) +ℤ rem conf.count (suc n) in
      ground (arith, single, bad_size_on_node w (pos 0) first conf.size e bad)
