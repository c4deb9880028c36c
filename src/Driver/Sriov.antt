-- ===== src/Driver/Sriov.antt =====
-- driver/sriov/main.go: `RunPlugin`, the start and the end of the SR-IOV driver, and the
-- application around it. What the libraries and the system answer in a run is given; the log is
-- left out.
pub mod Order
pub mod App
pub mod Flags
use dra_driver_integration_e.Base.{Bool, Option, none, [], if◌then◌else◌, ok, err, Bytes}
use dra_driver_integration_e.Base.Trace.{Traced, call, attempt, done, ◌>>=◌}

-- The calls that may fail, and those that start or end something, in the order of the source.
pub data Call : Type 0 where
  make_plugin_dir stat_cdi_root make_cdi_root new_cdi_handler new_device_state : Call
  new_pod_manager start_driver set_republish new_rest_config new_manager setup_controller : Call
  start_manager wait_for_cache cancel_context new_nri_plugin start_nri_plugin wait_for_end : Call
  stop_nri_plugin shutdown_driver : Call

-- `os.Stat`: a directory or not, or an error, which may say that there is nothing.
pub data CdiRoot : Type 0 where
  directory other_file : CdiRoot
  missing unreadable : Bytes → CdiRoot

-- What each call gives, in one run; `none` is no error.
pub record Answers : Type 0 where
  pub plugin_dir : Option Bytes
  pub cdi_root : CdiRoot
  pub cdi_root_made : Option Bytes
  pub cdi_handler : Option Bytes
  pub device_state : Option Bytes
  pub pod_manager : Option Bytes
  pub driver : Option Bytes
  pub rest_config : Option Bytes
  pub manager : Option Bytes
  pub controller : Option Bytes
  pub cache_synced : Bool
  pub nri_plugin : Option Bytes
  pub nri_start : Option Bytes

-- The errors that `RunPlugin` returns, with the error inside; `not_a_directory` prints the error of
-- `os.Stat`, which is nil where it is returned.
pub data PluginError : Type 0 where
  passed_on : Bytes → PluginError
  not_a_directory : Option Bytes → PluginError
  cdi_handler_failed driver_failed rest_config_failed : Bytes → PluginError
  manager_failed controller_failed nri_failed nri_start_failed : Bytes → PluginError
  cache_not_synced : PluginError

abbrev pub Plugin : Type 0 → Type 0
Plugin A = Traced Call PluginError A

-- The `switch` on the directory for device files.
unfoldable pub prepare_cdi_root : Answers → Plugin (Unit {0})
prepare_cdi_root a = elim a.cdi_root [
  | directory ↦ call stat_cdi_root (ok tt)
  | other_file ↦ call stat_cdi_root (err (not_a_directory none))
  | unreadable e ↦ call stat_cdi_root (err (passed_on e))
  | missing e ↦ (do _ ← done stat_cdi_root; attempt make_cdi_root passed_on a.cdi_root_made)
]

-- The managers and the driver.
unfoldable pub start_parts : Answers → Plugin (Unit {0})
start_parts a = (do
  _ ← attempt new_cdi_handler cdi_handler_failed a.cdi_handler
  _ ← attempt new_device_state passed_on a.device_state
  _ ← attempt new_pod_manager passed_on a.pod_manager
  _ ← attempt start_driver driver_failed a.driver
  done set_republish)

-- The controller manager, up to its goroutine.
unfoldable pub start_controller : Answers → Plugin (Unit {0})
start_controller a = (do
  _ ← attempt new_rest_config rest_config_failed a.rest_config
  _ ← attempt new_manager manager_failed a.manager
  _ ← attempt setup_controller controller_failed a.controller
  done start_manager)

unfoldable pub wait_until_synced : Answers → Plugin (Unit {0})
wait_until_synced a =
    if a.cache_synced
    then done wait_for_cache
    else (do _ ← done wait_for_cache; _ ← done cancel_context; ([], err cache_not_synced))

-- The plugin, the wait for a signal, and the end; an error of the shutdown is logged.
unfoldable pub serve : Answers → Plugin (Unit {0})
serve a = (do
  _ ← attempt new_nri_plugin nri_failed a.nri_plugin
  _ ← attempt start_nri_plugin nri_start_failed a.nri_start
  _ ← done wait_for_end
  _ ← done stop_nri_plugin
  done shutdown_driver)

unfoldable pub run_plugin : Answers → Plugin (Unit {0})
run_plugin a = (do
  _ ← attempt make_plugin_dir passed_on a.plugin_dir
  _ ← prepare_cdi_root a
  _ ← start_parts a
  _ ← start_controller a
  _ ← wait_until_synced a
  serve a)
