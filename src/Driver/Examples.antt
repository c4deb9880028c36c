-- ===== src/Driver/Examples.antt =====
-- Runs of the commands that start drivers, and the theorems on them.
use dra_driver_integration_e.Base.{
  ◌≡◌, refl, inl, inr, true, false, none, some, List, [], ◌∷◌, ◌++◌, ok, err, Bytes, codes,
  eq_bytes, All, Member,
}
use dra_driver_integration_e.Driver.Sriov
use dra_driver_integration_e.Driver.Sriov.{
  run_plugin, prepare_cdi_root, start_parts, start_controller, wait_until_synced, serve,
}
use dra_driver_integration_e.Driver.Sriov.Order.{failure, clean_up, IsStart, run_plugin_err}
use dra_driver_integration_e.Driver.Memory
use dra_driver_integration_e.Driver.Memory.{Params}
use dra_driver_integration_e.Driver.Cpu
use dra_driver_integration_e.Driver.Cpu.{
  Words, DriverConfig, parse_flags, init, set_cpu_device_mode, health, client_config, finish,
  driver_config,
}
use dra_driver_integration_e.Driver.Cpu.Settings.{IsKnown, main-IsKnown}
use dra_driver_integration_e.Driver.Cpu.Health.{HasStarted, health_ready}

-- The directory for device files is missing, and the NRI plugin does not start.
abbrev no_nri : Sriov.Answers
no_nri = record {
  plugin_dir = none;
  cdi_root = Sriov.missing (codes "no such file");
  cdi_root_made = none;
  cdi_handler = none;
  device_state = none;
  pod_manager = none;
  driver = none;
  rest_config = none;
  manager = none;
  controller = none;
  cache_synced = true;
  nri_plugin = none;
  nri_start = some (codes "no socket");
}

abbrev no_nri_calls : List Sriov.Call
no_nri_calls =
    Sriov.make_plugin_dir ∷ Sriov.stat_cdi_root ∷ Sriov.make_cdi_root ∷ Sriov.new_cdi_handler
    ∷ Sriov.new_device_state ∷ Sriov.new_pod_manager ∷ Sriov.start_driver ∷ Sriov.set_republish
    ∷ Sriov.new_rest_config ∷ Sriov.new_manager ∷ Sriov.setup_controller ∷ Sriov.start_manager
    ∷ Sriov.wait_for_cache ∷ Sriov.new_nri_plugin ∷ Sriov.start_nri_plugin ∷ []

no_nri_fails : run_plugin no_nri ≡ (no_nri_calls, err (Sriov.nri_start_failed (codes "no socket")))
unfolding run_plugin prepare_cdi_root start_parts start_controller wait_until_synced serve
no_nri_fails = refl

run_plugin_err_example :
    All IsStart no_nri_calls
    × ((before : List Sriov.Call) × (c : Sriov.Call) × (no_nri_calls ≡ before ++ (c ∷ clean_up c))
        × (failure no_nri c ≡ some (Sriov.nri_start_failed (codes "no socket")))
        × All (λ b. failure no_nri b ≡ none) before)
run_plugin_err_example =
    run_plugin_err no_nri no_nri_calls (Sriov.nri_start_failed (codes "no socket")) no_nri_fails

-- Behind the wait for a cache that was not synced the context is cancelled.
not_synced_fails :
    (run_plugin (record no_nri { cache_synced = false })).1 ≡ err Sriov.cache_not_synced
unfolding run_plugin prepare_cdi_root start_parts start_controller wait_until_synced serve
not_synced_fails = refl

-- A validation that fails.
abbrev validating : Params
validating = record {
  do_version = false;
  inspect_mode = codes "none";
  do_validation = true;
  do_manifests = true;
}

abbrev invalid : Memory.Answers
invalid = record {
  logger = none;
  version = none;
  inspection = none;
  validation = some (codes "bad");
  manifests = none;
  daemon = none;
}

abbrev words : Words
words = record {
  grouped = codes "grouped";
  individual = codes "individual";
  socket = codes "socket";
  numa_node = codes "numanode";
}

abbrev globals : Cpu.Globals
globals = record {
  hostname_override = codes "n";
  kubeconfig = [];
  bind_address = codes ":8080";
  reserved_cpus = codes "0";
  cpu_device_mode = codes "individual";
  group_by = codes "numanode";
}

abbrev settings : List Cpu.Setting
settings =
    Cpu.cpu_device_mode (codes "individual")
    ∷ Cpu.reserved_cpus (codes "0")
    ∷ Cpu.hostname_override (codes "n")
    ∷ []

parsed : parse_flags words (init words) settings ≡ ok globals
unfolding parse_flags init set_cpu_device_mode eq_bytes
parsed = refl

abbrev config : DriverConfig Bytes
config = record {
  driver_name = codes "dra.cpu";
  node_name = codes "n";
  reserved_cpus = codes "0";
  cpu_device_mode = codes "individual";
  cpu_device_group_by = codes "numanode";
}

-- A set of CPUs is its text; all calls succeed, up to the signal.
abbrev fine : Cpu.Answers Bytes
fine = record {
  cpus = ok;
  from_flags = λ path. none;
  in_cluster = none;
  clientset = none;
  hostname = ok;
  driver = λ c. none;
  event = Cpu.signal;
}

abbrev begun : List (Cpu.Call Bytes)
begun =
    Cpu.print_version
    ∷ Cpu.log_flags
    ∷ Cpu.parse_cpus (codes "0")
    ∷ Cpu.listen (codes ":8080")
    ∷ Cpu.in_cluster_config
    ∷ Cpu.new_clientset
    ∷ Cpu.get_hostname (codes "n")
    ∷ Cpu.notify
    ∷ Cpu.start_driver config
    ∷ Cpu.store_ready
    ∷ []

ran : (Cpu.main fine globals).0 ≡ begun ++ finish Cpu.signal
unfolding Cpu.main client_config finish driver_config eq_bytes
ran = refl

started : Member (Cpu.start_driver config) (Cpu.main fine globals).0
unfolding Cpu.main client_config finish driver_config eq_bytes
started = inr (inr (inr (inr (inr (inr (inr (inr (inl refl))))))))

main-IsKnown_example :
    IsKnown words config.cpu_device_mode config.cpu_device_group_by
    × (fine.cpus globals.reserved_cpus ≡ ok config.reserved_cpus)
    × (fine.hostname globals.hostname_override ≡ ok config.node_name)
main-IsKnown_example = main-IsKnown words settings globals fine config parsed started

ready : health begun ≡ 200
unfolding health
ready = refl

health_ready_example : (c : Cpu.Call Bytes) × Member c begun × HasStarted fine c
health_ready_example = health_ready fine globals begun (finish Cpu.signal) ran ready
