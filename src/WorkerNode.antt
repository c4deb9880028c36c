-- ===== src/WorkerNode.antt =====
-- setup/workernode/main.go: the job that sets up the worker nodes. The cluster, the client's
-- configuration and the YAML printer are parameters; of the Kubernetes types, the fields that are
-- set.
pub mod Placement
mod Examples
use dra_driver_integration_e.Base.{
  ℕ, ◌-◌, ◌%◌, ◌^◌, Bool, true, List, [], ◌∷◌, ◌++◌, if◌then◌else◌, ltb, length, Result, ok, err,
  ◌>>=◌, map_err, Bytes, codes, eq_bytes,
}
use dra_driver_integration_e.Base.Int.{ℤ, pos, negsuc}

abbrev pub role_worker : Bytes
role_worker = codes "worker"

abbrev pub label_role : Bytes
label_role = codes "node-role.kubernetes.io"

pub record ChrootJob : Type 0 where
  pub name : Bytes
  pub namespace : Bytes
  pub service_account : Bytes
  pub image : Bytes
  pub kubeconfig : Bytes

unfoldable pub chroot_job_with_defaults : ChrootJob
chroot_job_with_defaults = record {
  name = codes "drasetup";
  namespace = codes "kube-system";
  service_account = codes "drasetup";
  image = [];
  kubeconfig = [];
}

-- The messages that main ends with, by `log.Fatalf`.
pub data Failure : Type 0 where
  missing_namespace missing_name missing_service_account missing_image : Failure
  no_client no_workers no_yaml : Bytes → Failure

-- `ValidateOrFail`
unfoldable pub validate_or_fail : ChrootJob → Result Failure (Unit {0})
validate_or_fail cj =
    if eq_bytes cj.namespace []
    then err missing_namespace
    else if eq_bytes cj.name []
    then err missing_name
    else if eq_bytes cj.service_account []
    then err missing_service_account
    else if eq_bytes cj.image []
    then err missing_image
    else ok tt

-- A map from strings to strings.
abbrev pub Labels : Type 0
Labels = List (Bytes × Bytes)

pub record Container : Type 0 where
  pub name : Bytes
  pub image : Bytes
  pub command : List Bytes
  pub requests : Labels
  pub privileged : Bool
  pub run_as_user : ℤ
  pub volume_mounts : List (Bytes × Bytes)

pub record SpreadConstraint : Type 0 where
  pub max_skew : ℕ
  pub when_unsatisfiable : Bytes
  pub topology_key : Bytes
  pub match_labels : Labels
  pub match_label_keys : List Bytes

pub record HostPathVolume : Type 0 where
  pub name : Bytes
  pub path : Bytes
  pub type : Bytes

pub record PodTemplate : Type 0 where
  pub labels : Labels
  pub containers : List Container
  pub restart_policy : Bytes
  pub service_account_name : Bytes
  pub node_selector : Labels
  pub host_network : Bool
  pub host_pid : Bool
  pub run_as_user : ℤ
  pub topology_spread_constraints : List SpreadConstraint
  pub volumes : List HostPathVolume

pub record Job : Type 0 where
  pub api_version : Bytes
  pub kind : Bytes
  pub namespace : Bytes
  pub generate_name : Bytes
  pub parallelism : ℤ
  pub completions : ℤ
  pub template : PodTemplate

-- `int32(n)` of a length.
abbrev pub int32 : ℕ → ℤ
int32 n = let low = n % 2 ^ 32 in if ltb low (2 ^ 31) then pos low else negsuc (2 ^ 32 - low - 1)

-- `fmt.Sprintf("%s/%s", labelRole, role)`
unfoldable pub role_label : Bytes → Bytes
role_label role = label_role ++ (codes "/" ++ role)

unfoldable pub setup_container : ChrootJob → Container
setup_container cj = record {
  name = codes "setup-runtime";
  image = cj.image;
  command = codes "/bin/setup-runtime" ∷ [];
  requests = (codes "cpu", codes "100m") ∷ (codes "memory", codes "256Mi") ∷ [];
  privileged = true;
  run_as_user = pos 0;
  volume_mounts = (codes "/etc", codes "etc") ∷ [];
}

unfoldable pub spread_constraint : Labels → SpreadConstraint
spread_constraint job_labels = record {
  max_skew = 1;
  when_unsatisfiable = codes "DoNotSchedule";
  topology_key = codes "kubernetes.io/hostname";
  match_labels = job_labels;
  match_label_keys = codes "pod-template-hash" ∷ [];
}

unfoldable pub pod_template : ChrootJob → Labels → PodTemplate
pod_template cj job_labels = record {
  labels = job_labels;
  containers = setup_container cj ∷ [];
  restart_policy = codes "Never";
  service_account_name = cj.service_account;
  node_selector = (role_label role_worker, []) ∷ [];
  host_network = true;
  host_pid = true;
  run_as_user = pos 0;
  topology_spread_constraints = spread_constraint job_labels ∷ [];
  volumes = record { name = codes "etc"; path = codes "/etc"; type = codes "Directory" } ∷ [];
}

-- `makeSetupRuntimeJob`, which returns no error.
unfoldable pub make_setup_runtime_job : {Node : Type 0} → ChrootJob → List Node → Job
make_setup_runtime_job cj workers =
    let parallelism = int32 (length workers) in
    let job_labels = (codes "app", cj.name) ∷ [] in
    record {
      api_version = codes "batch/v1";
      kind = codes "Job";
      namespace = cj.namespace;
      generate_name = cj.name ++ codes "-";
      parallelism = parallelism;
      completions = parallelism;
      template = pod_template cj job_labels;
    }

-- `labels`, `clientcmd`, `rest`, `kubernetes` and `yaml`, as far as the code calls them: a selector
-- is parsed and printed; nodes are listed by a printed selector.
pub record Cluster : Type 1 where
  pub Selector : Type 0
  pub Config : Type 0
  pub Client : Type 0
  pub Node : Type 0
  pub parse : Bytes → Result Bytes Selector
  pub show : Selector → Bytes
  pub build_config_from_flags : Bytes → Result Bytes Config
  pub in_cluster_config : Result Bytes Config
  pub with_content_types : Config → Bytes → Bytes → Config
  pub new_for_config : Config → Result Bytes Client
  pub list_nodes : Client → Bytes → Result Bytes (List Node)
  pub marshal : Job → Result Bytes Bytes

module _ (K : Cluster) where
  unfoldable pub create_clientset : Bytes → Result Bytes K.Client
  create_clientset kubeconfig = (do
    config ←
        (if eq_bytes kubeconfig []
          then K.in_cluster_config
          else K.build_config_from_flags kubeconfig)
    K.new_for_config (
        K.with_content_types config (codes "application/vnd.kubernetes.protobuf,application/json")
          (codes "application/vnd.kubernetes.protobuf")))

  unfoldable pub get_nodes_by_selector : K.Client → K.Selector → Result Bytes (List K.Node)
  get_nodes_by_selector cs selector = K.list_nodes cs (K.show selector)

  unfoldable pub get_nodes_by_role : K.Client → Bytes → Result Bytes (List K.Node)
  get_nodes_by_role cs role = (do
    selector ← K.parse (role_label role ++ codes "=")
    get_nodes_by_selector cs selector)

  unfoldable pub get_worker_nodes : K.Client → Result Bytes (List K.Node)
  get_worker_nodes cs = get_nodes_by_role cs role_worker

  -- `main` behind its flags: the text that it prints.
  unfoldable pub main : ChrootJob → Result Failure Bytes
  main cj = (do
    _ ← validate_or_fail cj
    cs ← map_err no_client (create_clientset cj.kubeconfig)
    workers ← map_err no_workers (get_worker_nodes cs)
    job_data ← map_err no_yaml (K.marshal (make_setup_runtime_job cj workers))
    ok (job_data ++ codes "\n"))
