-- ===== src/Driver/Cpu.antt =====
-- driver/cpu/main.go: the flags with their checks, the start of the driver, the health endpoint,
-- and the end. The libraries' answers are given, their sets of CPUs and the words of the modes are
-- parameters.
pub mod Settings
pub mod Health
use dra_driver_integration_e.Base.{
  ℕ, not, ◌&&◌, Option, none, some, List, [], ◌∷◌, ◌++◌, if◌then◌else◌, Result, ok, err, Bytes,
  eq_bytes, codes,
}
use dra_driver_integration_e.Base.Trace.{Traced, call, attempt, done, ◌>>=◌}

abbrev pub driver_name : Bytes
driver_name = codes "dra.cpu"

-- The package's variables that flags set.
pub record Globals : Type 0 where
  pub hostname_override : Bytes
  pub kubeconfig : Bytes
  pub bind_address : Bytes
  pub reserved_cpus : Bytes
  pub cpu_device_mode : Bytes
  pub group_by : Bytes

-- The words of the driver's package for its modes.
pub record Words : Type 0 where
  pub grouped : Bytes
  pub individual : Bytes
  pub socket : Bytes
  pub numa_node : Bytes

-- A value that is refused, with the two that are not.
pub data ValueError : Type 0 where
  invalid_value : Bytes → Bytes → Bytes → ValueError

-- `(*cpuDeviceModeValue).Set`, on the variable that the value points to.
unfoldable pub set_cpu_device_mode : Words → Globals → Bytes → Result ValueError Globals
set_cpu_device_mode words g s =
    if not (eq_bytes s words.grouped) && not (eq_bytes s words.individual)
    then err (invalid_value s words.grouped words.individual)
    else ok (record g { cpu_device_mode = s })

-- `(*groupByValue).Set`
unfoldable pub set_group_by : Words → Globals → Bytes → Result ValueError Globals
set_group_by words g s =
    if not (eq_bytes s words.socket) && not (eq_bytes s words.numa_node)
    then err (invalid_value s words.socket words.numa_node)
    else ok (record g { group_by = s })

-- `init`: the defaults.
unfoldable pub init : Words → Globals
init words = record {
  hostname_override = [];
  kubeconfig = [];
  bind_address = codes ":8080";
  reserved_cpus = [];
  cpu_device_mode = words.grouped;
  group_by = words.numa_node;
}

-- A flag of the command line with its value; those of the log change nothing here.
pub data Setting : Type 0 where
  kubeconfig hostname_override bind_address reserved_cpus : Bytes → Setting
  cpu_device_mode group_by log_flag : Bytes → Setting

apply_setting : Words → Globals → Setting → Result ValueError Globals
apply_setting words g (kubeconfig s) = ok (record g { kubeconfig = s })
apply_setting words g (hostname_override s) = ok (record g { hostname_override = s })
apply_setting words g (bind_address s) = ok (record g { bind_address = s })
apply_setting words g (reserved_cpus s) = ok (record g { reserved_cpus = s })
apply_setting words g (cpu_device_mode s) = set_cpu_device_mode words g s
apply_setting words g (group_by s) = set_group_by words g s
apply_setting words g (log_flag s) = ok g

-- `flag.Parse` sets the flags in their order, and ends the process at the first error.
unfoldable pub parse_flags : Words → Globals → List Setting → Result ValueError Globals
unfolding apply_setting
parse_flags words g [] = ok g
parse_flags words g (s ∷ settings) = elim (apply_setting words g s) [
  | err e ↦ err e
  | ok g' ↦ parse_flags words g' settings
]

-- What `driver.Start` is given.
pub record DriverConfig (CpuSet : Type 0) : Type 0 where
  pub driver_name : Bytes
  pub node_name : Bytes
  pub reserved_cpus : CpuSet
  pub cpu_device_mode : Bytes
  pub cpu_device_group_by : Bytes

-- What main calls, in the order of the source; `listen` is its goroutine.
pub data Call (CpuSet : Type 0) : Type 0 where
  print_version log_flags : Call CpuSet
  parse_cpus listen build_config_from_flags : Bytes → Call CpuSet
  in_cluster_config new_clientset : Call CpuSet
  get_hostname : Bytes → Call CpuSet
  notify : Call CpuSet
  start_driver : DriverConfig CpuSet → Call CpuSet
  store_ready wait cancel shutdown_server shutdown_cancel stop_driver close_signals : Call CpuSet

-- What ends the wait.
pub data Event : Type 0 where
  signal cancelled : Event

-- What the calls give, in one run.
pub record Answers (CpuSet : Type 0) : Type 0 where
  pub cpus : Bytes → Result Bytes CpuSet
  pub from_flags : Bytes → Option Bytes
  pub in_cluster : Option Bytes
  pub clientset : Option Bytes
  pub hostname : Bytes → Result Bytes Bytes
  pub driver : DriverConfig CpuSet → Option Bytes
  pub event : Event

-- The fatal errors, by what failed.
pub data Fatal : Type 0 where
  reserved_cpus_failed configuration_failed client_failed : Bytes → Fatal
  node_name_failed driver_failed : Bytes → Fatal

abbrev pub Main : Type 0 → Type 0 → Type 0
Main CpuSet A = Traced (Call CpuSet) Fatal A

module _ {CpuSet : Type 0} where
  -- A call with a value.
  abbrev pub value : {A : Type 0} → Call CpuSet → (Bytes → Fatal) → Result Bytes A → Main CpuSet A
  value c wrap (ok a) = call c (ok a)
  value c wrap (err e) = call c (err (wrap e))

  -- The client's configuration: from a file, or from the cluster.
  unfoldable pub client_config : Answers CpuSet → Globals → Main CpuSet (Unit {0})
  client_config answers g =
      if eq_bytes g.kubeconfig []
      then attempt in_cluster_config configuration_failed answers.in_cluster
      else attempt (build_config_from_flags g.kubeconfig) configuration_failed
          (answers.from_flags g.kubeconfig)

  -- The select, the shutdown of the server, and what main deferred.
  unfoldable pub finish : Event → List (Call CpuSet)
  finish signal =
      wait ∷ cancel ∷ shutdown_server ∷ shutdown_cancel ∷ stop_driver ∷ close_signals ∷ cancel ∷ []
  finish cancelled =
      wait ∷ shutdown_server ∷ shutdown_cancel ∷ stop_driver ∷ close_signals ∷ cancel ∷ []

  unfoldable pub driver_config : Globals → Bytes → CpuSet → DriverConfig CpuSet
  driver_config g node_name cpus = record {
    driver_name = driver_name;
    node_name = node_name;
    reserved_cpus = cpus;
    cpu_device_mode = g.cpu_device_mode;
    cpu_device_group_by = g.group_by;
  }

  -- `main`, once the flags are parsed.
  unfoldable pub main : Answers CpuSet → Globals → Main CpuSet (Unit {0})
  unfolding client_config finish driver_config
  main answers g = (do
    _ ← done print_version
    _ ← done log_flags
    cpus ← value (parse_cpus g.reserved_cpus) reserved_cpus_failed (answers.cpus g.reserved_cpus)
    _ ← done (listen g.bind_address)
    _ ← client_config answers g
    _ ← attempt new_clientset client_failed answers.clientset
    node_name ←
        value (get_hostname g.hostname_override) node_name_failed
          (answers.hostname g.hostname_override)
    _ ← done notify
    let config = driver_config g node_name cpus
    _ ← attempt (start_driver config) driver_failed (answers.driver config)
    _ ← done store_ready
    (finish answers.event, ok tt))

  -- The handler of /healthz, once these calls were made: the status.
  unfoldable pub health : List (Call CpuSet) → ℕ
  health [] = 503
  health (store_ready ∷ calls) = 200
  health (c ∷ calls) = health calls

-- `debug.ReadBuildInfo`: the version of Go, and the settings with their keys.
pub record BuildInfo : Type 0 where
  pub go_version : Bytes
  pub settings : List (Bytes × Bytes)

-- The loop of `printVersion`: the revision and the time.
vcs_values : Bytes → Bytes → List (Bytes × Bytes) → Bytes × Bytes
vcs_values revision time [] = (revision, time)
vcs_values revision time ((key, value) ∷ settings) =
    vcs_values (if eq_bytes key (codes "vcs.revision") then value else revision)
      (if eq_bytes key (codes "vcs.time") then value else time) settings

-- `printVersion`: the line that it logs, if any.
unfoldable pub version_line : Option BuildInfo → Option Bytes
unfolding vcs_values
version_line none = none
version_line (some info) =
    let (revision, time) = vcs_values [] [] info.settings in
    some (
      codes "dracpu go "
      ++ (info.go_version ++ (codes " build: " ++ (revision ++ (codes " time: " ++ time)))))
