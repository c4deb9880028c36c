-- ===== src/WorkerNode/Examples.antt =====
-- A cluster of three nodes, two of them workers, and the theorem on its job.
use dra_driver_integration_e.Base.{
  ◌≡◌, refl, sym, ◌∙◌, ap, Bool, true, List, [], ◌∷◌, ◌++◌, arith, length, ok, ok_injective, Bytes,
  codes, eq_bytes,
}
use dra_driver_integration_e.Base.Int.{pos}
use dra_driver_integration_e.WorkerNode.{
  SpreadConstraint, ChrootJob, validate_or_fail, Labels, Job, make_setup_runtime_job, Cluster,
  create_clientset, get_nodes_by_selector, get_nodes_by_role, get_worker_nodes, main,
}
use dra_driver_integration_e.WorkerNode.Placement.{select, IsComplete, main_ok}

-- A node is known by its one label, which is empty.
abbrev nodes : List Bytes
nodes =
    codes "node-role.kubernetes.io/worker"
    ∷ codes "plain"
    ∷ codes "node-role.kubernetes.io/worker"
    ∷ []

-- A selector admits a node whose label is the first that it asks for.
abbrev satisfies : Labels → Bytes → Bool
satisfies [] n = true
satisfies ((key, value) ∷ more) n = eq_bytes (n ++ codes "=") (key ++ codes "=")

abbrev small : Cluster
small = record {
  Selector = Bytes;
  Config = Bytes;
  Client = Bytes;
  Node = Bytes;
  parse = ok;
  show = λ s. s;
  build_config_from_flags = ok;
  in_cluster_config = ok [];
  with_content_types = λ c a b. c;
  new_for_config = ok;
  list_nodes = λ cs text. ok (select (λ n. eq_bytes (n ++ codes "=") text) nodes);
  marshal = λ job. ok job.generate_name;
}

small_lists :
    (cs key selector : Bytes) (found : List Bytes)
    → small.parse (key ++ codes "=") ≡ ok selector
    → small.list_nodes cs (small.show selector) ≡ ok found
    → found ≡ select (satisfies ((key, []) ∷ [])) nodes
small_lists cs key selector found p q =
    let same : key ++ codes "=" ≡ selector = ok_injective p in
    sym (ok_injective q)
    ∙ ap (λ text. select (λ n. eq_bytes (n ++ codes "=") text) nodes) (sym same)

abbrev setup : ChrootJob
setup = record {
  name = codes "dra";
  namespace = codes "ns";
  service_account = codes "sa";
  image = codes "img";
  kubeconfig = [];
}

printed : main small setup ≡ ok (codes "dra-\n")
unfolding main validate_or_fail create_clientset get_worker_nodes get_nodes_by_role
    get_nodes_by_selector make_setup_runtime_job eq_bytes
printed = refl

main_ok_example :
    (job : Job) × (job_data : Bytes) × (small.marshal job ≡ ok job_data)
    × (codes "dra-\n" ≡ job_data ++ codes "\n")
    × IsComplete setup
    × (job.parallelism ≡ pos (length (select (satisfies job.template.node_selector) nodes)))
    × (job.completions ≡ job.parallelism)
    × ((c : SpreadConstraint) × (job.template.topology_spread_constraints ≡ c ∷ [])
        × (c.match_labels ≡ job.template.labels)
        × (c.topology_key ≡ codes "kubernetes.io/hostname")
        × (c.max_skew ≡ 1)
        × (c.when_unsatisfiable ≡ codes "DoNotSchedule"))
main_ok_example =
    main_ok small nodes satisfies small_lists setup (codes "dra-\n") (omega arith) printed
