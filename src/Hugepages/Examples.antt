-- ===== src/Hugepages/Examples.antt =====
-- A kernel that takes every write, and the theorems at a configuration of two groups.
use dra_driver_integration_e.Base.{
  ◌≡◌, refl, none, some, List, [], ◌∷◌, arith, err, Bytes, codes, eq_bytes,
}
use dra_driver_integration_e.Base.Int.{pos}
use dra_driver_integration_e.Hugepages.{
  HugePage, HugePageProvision, amd64, Sysfs, validate_huge_page_size, provision_on_multi_node,
  runtime_hugepages,
}
use dra_driver_integration_e.Hugepages.Split.{shares, total}
use dra_driver_integration_e.Hugepages.Writes.{
  tagged, all_grants, granted, give_all, runtime_hugepages_lem, provision_on_multi_node_lem,
}

abbrev kernel : Sysfs
kernel = record {
  World = List (Bytes × Bytes);
  open_file = λ w path. none;
  write_string = λ w path contents. (none, (path, contents) ∷ w);
}

abbrev large : HugePage
large = record { size = codes "1Gi"; count = pos 7; node = some (pos 1) }

abbrev odd : HugePage
odd = record { size = codes "4k"; count = pos 2; node = none }

abbrev both : HugePageProvision
both = record {
  type_meta = record { kind = codes "HugePageProvision"; api_version = codes "v0" };
  object_meta = record { name = []; namespace = []; labels = []; annotations = [] };
  spec = record { default_huge_pages_size = none; pages = large ∷ odd ∷ [] };
}

-- Three nodes get 3, 2 and 2 pages.
split_seven : shares 3 (pos 7) ≡ (pos 0, pos 3) ∷ (pos 1, pos 2) ∷ (pos 2, pos 2) ∷ []
split_seven = refl

runtime_hugepages_lem_example :
    (runtime_hugepages kernel amd64 (codes "/") [] both 1
      ≡ give_all kernel amd64 (codes "/") [] (all_grants 1 (large ∷ odd ∷ [])))
    × (granted (all_grants 1 (large ∷ odd ∷ [])) ≡ pos 9)
runtime_hugepages_lem_example =
    runtime_hugepages_lem kernel amd64 (codes "/") [] both 1 (omega arith)

provision_on_multi_node_lem_example :
    (provision_on_multi_node kernel amd64 (codes "/") [] 3 (pos 7) (codes "2M")
      ≡ give_all kernel amd64 (codes "/") [] (tagged (codes "2M") (shares 3 (pos 7))))
    × (total (shares 3 (pos 7)) ≡ pos 7)
provision_on_multi_node_lem_example =
    provision_on_multi_node_lem kernel amd64 (codes "/") [] 3 (pos 7) (codes "2M") (omega arith)

odd_refused : validate_huge_page_size amd64 (codes "4k") ≡ err (codes "unsupported size")
unfolding validate_huge_page_size eq_bytes
odd_refused = refl
