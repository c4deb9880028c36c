-- ===== src/WorkerNode/Placement.antt =====
-- setup/workernode/main.go: which job main prints, and for how many nodes.
use dra_driver_integration_e.Base.{
  ℕ, ◌%◌, ◌^◌, ◌≤◌, ◌<◌, ◌≡◌, refl, sym, ◌≢◌, Bool, List, [], ◌∷◌, ◌++◌, if◌then◌else◌, arith,
  length, ok, map_err, ok_injective, bind_ok, map_err_ok, Bytes, codes, eq_bytes_iff,
}
use dra_driver_integration_e.Base.Int.{pos}
use dra_driver_integration_e.WorkerNode.{
  ChrootJob, SpreadConstraint, no_client, no_workers, no_yaml, validate_or_fail, Labels, Job, int32,
  role_label, role_worker, spread_constraint, pod_template, make_setup_runtime_job, Cluster,
  create_clientset, get_nodes_by_selector, get_nodes_by_role, get_worker_nodes, main,
}

-- The elements that pass a test.
abbrev pub select : {A : Type 0} → (A → Bool) → List A → List A
select p [] = []
select p (x ∷ xs) = if p x then x ∷ select p xs else select p xs

length-select : {A : Type 0} (p : A → Bool) (xs : List A) → length (select p xs) ≤ length xs
length-select p [] = omega arith
length-select p (x ∷ xs) = ground (arith, length-select p xs)

-- What a job needs to be valid.
pub record IsComplete (cj : ChrootJob) : Type 0 where
  pub has_namespace : cj.namespace ≢ []
  pub has_name : cj.name ≢ []
  pub has_service_account : cj.service_account ≢ []
  pub has_image : cj.image ≢ []

validate_or_fail-IsComplete :
    (cj : ChrootJob) (u : Unit {0}) → validate_or_fail cj ≡ ok u → IsComplete cj
unfolding validate_or_fail
validate_or_fail-IsComplete cj u h = record {
  has_namespace = ground (arith, eq_bytes_iff cj.namespace []);
  has_name = ground (arith, eq_bytes_iff cj.name []);
  has_service_account = ground (arith, eq_bytes_iff cj.service_account []);
  has_image = ground (arith, eq_bytes_iff cj.image []);
}

int32_small : (n : ℕ) → n < 2 ^ 31 → int32 n ≡ pos n
int32_small n h = let e : n % 2 ^ 32 ≡ n = omega arith in ground arith

module _ (K : Cluster) where
  -- What `main` has done when it prints.
  Printed : ChrootJob → Bytes → Type 0
  Printed cj out =
      (cs : K.Client) × (workers : List K.Node) × (job_data : Bytes) × (get_worker_nodes K cs
        ≡ ok workers)
      × (K.marshal (make_setup_runtime_job cj workers) ≡ ok job_data)
      × (out ≡ job_data ++ codes "\n")
      × IsComplete cj

  main-Printed : (cj : ChrootJob) (out : Bytes) → main K cj ≡ ok out → Printed cj out
  unfolding main Printed
  main-Printed cj out h =
      let (u, valid, h1) = bind_ok (validate_or_fail cj) _ out h in
      let (cs, client, h2) =
        bind_ok (map_err no_client (create_clientset K cj.kubeconfig)) _ out h1 in
      let (workers, listed, h3) = bind_ok (map_err no_workers (get_worker_nodes K cs)) _ out h2 in
      let (job_data, printed, h4) =
        bind_ok (map_err no_yaml (K.marshal (make_setup_runtime_job cj workers))) _ out h3 in
      (
        cs,
        workers,
        job_data,
        map_err_ok no_workers _ workers listed,
        map_err_ok no_yaml _ job_data printed,
        sym (ok_injective h4),
        validate_or_fail-IsComplete cj u valid,
      )

  -- The nodes of the cluster, and those that a selector of labels lets pods run on: what is listed
  -- by the text `key=` are those whose label `key` is empty.
  module _ (nodes : List K.Node) (satisfies : Labels → K.Node → Bool)
      (lists : (cs : K.Client) (key : Bytes) (selector : K.Selector) (found : List K.Node)
        → K.parse (key ++ codes "=") ≡ ok selector
        → K.list_nodes cs (K.show selector) ≡ ok found
        → found ≡ select (satisfies ((key, []) ∷ [])) nodes) where
    get_worker_nodes_ok :
        (cs : K.Client) (workers : List K.Node)
        → get_worker_nodes K cs ≡ ok workers
        → workers ≡ select (satisfies ((role_label role_worker, []) ∷ [])) nodes
    unfolding get_worker_nodes get_nodes_by_role get_nodes_by_selector
    get_worker_nodes_ok cs workers h =
        let (selector, parsed, found) =
          bind_ok (K.parse (role_label role_worker ++ codes "=")) _ workers h in
        lists cs (role_label role_worker) selector workers parsed found

    -- If main prints, the flags were complete, and the text is the YAML of a job, with a line
    -- break. The job runs as many pods, all of them at once, as there are nodes that the node
    -- selector of its pods admits, and it has one constraint, by which the pods with the labels of
    -- these pods must be spread over the hosts with a skew of at most one. There must be less than
    -- 2 ^ 31 nodes, and a list by `key=` gives those with an empty label `key`.
    pub main_ok :
        (cj : ChrootJob) (out : Bytes)
        → length nodes < 2 ^ 31
        → main K cj ≡ ok out
        → (job : Job) × (job_data : Bytes) × (K.marshal job ≡ ok job_data)
          × (out ≡ job_data ++ codes "\n")
          × IsComplete cj
          × (job.parallelism ≡ pos (length (select (satisfies job.template.node_selector) nodes)))
          × (job.completions ≡ job.parallelism)
          × ((c : SpreadConstraint) × (job.template.topology_spread_constraints ≡ c ∷ [])
              × (c.match_labels ≡ job.template.labels)
              × (c.topology_key ≡ codes "kubernetes.io/hostname")
              × (c.max_skew ≡ 1)
              × (c.when_unsatisfiable ≡ codes "DoNotSchedule"))
    unfolding Printed make_setup_runtime_job pod_template spread_constraint
    main_ok cj out few h =
        let (cs, workers, job_data, listed, printed, text, complete) = main-Printed cj out h in
        let are = get_worker_nodes_ok cs workers listed in
        let admitted = satisfies ((role_label role_worker, []) ∷ []) in
        let bound = length-select admitted nodes in
        let count : int32 (length workers) ≡ pos (length (select admitted nodes)) =
          rw are (int32_small (length (select admitted nodes)) (omega arith)) in
        (
          make_setup_runtime_job cj workers,
          job_data,
          printed,
          text,
          complete,
          count,
          refl,
          (_, refl, refl, refl, refl, refl),
        )
