-- ===== src/Driver/Sriov/Order.antt =====
-- driver/sriov/main.go: `RunPlugin` as a list of calls, each with the error that it stops the run
-- with.
use mathlib.Core.Path.{subst}
use dra_driver_integration_e.Base.{
  ◌≡◌, refl, sym, ◌∙◌, ap, ◌≢◌, Option, none, some, List, [], ◌∷◌, ◌++◌, arith, if◌then◌else◌, err,
  All,
}
use dra_driver_integration_e.Base.Trace.{
  attempt, wrapped, ◌>>=◌, until_failure, until_failure-bind, until_failure_last, until_failure-All,
  until_failure_err,
}
use dra_driver_integration_e.Driver.Sriov.{
  Call, make_plugin_dir, stat_cdi_root, make_cdi_root, new_cdi_handler, new_device_state,
  new_pod_manager, start_driver, set_republish, new_rest_config, new_manager, setup_controller,
  start_manager, wait_for_cache, cancel_context, new_nri_plugin, start_nri_plugin, wait_for_end,
  stop_nri_plugin, shutdown_driver, CdiRoot, directory, other_file, missing, unreadable, Answers,
  PluginError, passed_on, not_a_directory, cdi_handler_failed, driver_failed, rest_config_failed,
  manager_failed, controller_failed, nri_failed, nri_start_failed, cache_not_synced, Plugin,
  prepare_cdi_root, start_parts, start_controller, wait_until_synced, serve, run_plugin,
}

-- The error of `RunPlugin`, if the call is one that fails.
abbrev pub failure : Answers → Call → Option PluginError
failure a make_plugin_dir = wrapped passed_on a.plugin_dir
failure a stat_cdi_root = elim a.cdi_root [
  | directory ↦ none
  | other_file ↦ some (not_a_directory none)
  | missing e ↦ none
  | unreadable e ↦ some (passed_on e)
]
failure a make_cdi_root = wrapped passed_on a.cdi_root_made
failure a new_cdi_handler = wrapped cdi_handler_failed a.cdi_handler
failure a new_device_state = wrapped passed_on a.device_state
failure a new_pod_manager = wrapped passed_on a.pod_manager
failure a start_driver = wrapped driver_failed a.driver
failure a set_republish = none
failure a new_rest_config = wrapped rest_config_failed a.rest_config
failure a new_manager = wrapped manager_failed a.manager
failure a setup_controller = wrapped controller_failed a.controller
failure a start_manager = none
failure a wait_for_cache = if a.cache_synced then none else some cache_not_synced
failure a cancel_context = none
failure a new_nri_plugin = wrapped nri_failed a.nri_plugin
failure a start_nri_plugin = wrapped nri_start_failed a.nri_start
failure a wait_for_end = none
failure a stop_nri_plugin = none
failure a shutdown_driver = none

-- What is called behind one that failed: the context is cancelled where the cache was not synced.
abbrev pub clean_up : Call → List Call
clean_up wait_for_cache = cancel_context ∷ []
clean_up _ = []

abbrev pub cdi_calls : CdiRoot → List Call
cdi_calls (missing e) = stat_cdi_root ∷ make_cdi_root ∷ []
cdi_calls _ = stat_cdi_root ∷ []

abbrev pub part_calls : List Call
part_calls =
    new_cdi_handler ∷ new_device_state ∷ new_pod_manager ∷ start_driver ∷ set_republish ∷ []

abbrev pub controller_calls : List Call
controller_calls = new_rest_config ∷ new_manager ∷ setup_controller ∷ start_manager ∷ []

abbrev serve_calls : List Call
serve_calls =
    new_nri_plugin ∷ start_nri_plugin ∷ wait_for_end ∷ stop_nri_plugin ∷ shutdown_driver ∷ []

prepare_cdi_root_lem :
    (a : Answers) → prepare_cdi_root a ≡ until_failure clean_up (failure a) (cdi_calls a.cdi_root)
unfolding prepare_cdi_root until_failure
prepare_cdi_root_lem a = ground arith

start_parts_lem : (a : Answers) → start_parts a ≡ until_failure clean_up (failure a) part_calls
unfolding start_parts until_failure
start_parts_lem a = ground arith

start_controller_lem :
    (a : Answers) → start_controller a ≡ until_failure clean_up (failure a) controller_calls
unfolding start_controller until_failure
start_controller_lem a = ground arith

wait_until_synced_lem :
    (a : Answers) → wait_until_synced a ≡ until_failure clean_up (failure a) ((wait_for_cache ∷ []))
unfolding wait_until_synced until_failure
wait_until_synced_lem a = ground arith

serve_lem : (a : Answers) → serve a ≡ until_failure clean_up (failure a) serve_calls
unfolding serve until_failure
serve_lem a = ground arith

-- The calls of a run without an error, but for the end.
abbrev pub start_calls : Answers → List Call
start_calls a =
    make_plugin_dir ∷ cdi_calls a.cdi_root
    ++ (part_calls
        ++ (controller_calls
            ++ ((wait_for_cache ∷ []) ++ (new_nri_plugin ∷ start_nri_plugin ∷ []))))

abbrev all_calls : Answers → List Call
all_calls a =
    make_plugin_dir ∷ cdi_calls a.cdi_root
    ++ (part_calls ++ (controller_calls ++ ((wait_for_cache ∷ []) ++ serve_calls)))

first :
    (a : Answers)
    → attempt make_plugin_dir passed_on a.plugin_dir
      ≡ until_failure clean_up (failure a) (make_plugin_dir ∷ [])
unfolding until_failure
first a = ground arith

abbrev pub end_calls : List Call
end_calls = wait_for_end ∷ stop_nri_plugin ∷ shutdown_driver ∷ []

all_calls-split : (a : Answers) → all_calls a ≡ start_calls a ++ end_calls
all_calls-split a = ground arith

-- `RunPlugin` makes the calls of its list in their order, up to the first that fails, and returns
-- the error of that call. The list is the plugin's directory, the check of the CDI root (which is
-- made if it is missing), the CDI handler, the device state, the pods, the driver, the callback,
-- the configuration and the manager of the controller, its setup and its start, the wait for the
-- cache (with the cancelling of the context behind it if it was not synced), the NRI plugin and its
-- start, the wait for the end, the stop of the NRI plugin and only then the shutdown of the driver,
-- whose error does not fail the run.
pub run_plugin_lem :
    (a : Answers) → run_plugin a ≡ until_failure clean_up (failure a) (start_calls a ++ end_calls)
unfolding run_plugin
run_plugin_lem a =
    chain (make_plugin_dir ∷ []) _ (first a) (
      chain (cdi_calls a.cdi_root) _ (prepare_cdi_root_lem a) (
        chain part_calls _ (start_parts_lem a) (
          chain controller_calls _ (start_controller_lem a)
            (chain ((wait_for_cache ∷ [])) _ (wait_until_synced_lem a) (serve_lem a)))))
    ∙ ap (until_failure clean_up (failure a)) (all_calls-split a)
  where
    chain :
        (xs ys : List Call) {m n : Plugin (Unit {0})}
        → m ≡ until_failure clean_up (failure a) xs
        → n ≡ until_failure clean_up (failure a) ys
        → (m >>= λ _. n) ≡ until_failure clean_up (failure a) (xs ++ ys)
    chain xs ys {m} {n} = until_failure-bind clean_up (failure a) xs ys m n

-- A call of the start of a run.
abbrev pub IsStart : Call → Type 0
IsStart c = (c ≢ stop_nri_plugin) × (c ≢ shutdown_driver)

start_calls-IsStart :
    (a : Answers) → All (λ c. IsStart c × All IsStart (clean_up c)) (start_calls a)
start_calls-IsStart a = ground arith

-- In a run of `RunPlugin` that returns an error some call failed with it, and no call before it had
-- failed. It is the last, but for the cancelling of the context, which is called behind the wait
-- for the cache where this is what failed. Neither the NRI plugin is stopped nor the driver shut
-- down, whether they run or not.
pub run_plugin_err :
    (a : Answers) (calls : List Call) (e : PluginError)
    → run_plugin a ≡ (calls, err e)
    → All IsStart calls
      × ((before : List Call) × (c : Call) × (calls ≡ before ++ (c ∷ clean_up c))
          × (failure a c ≡ some e)
          × All (λ b. failure a b ≡ none) before)
run_plugin_err a calls e h =
    let started : until_failure clean_up (failure a) (start_calls a) ≡ (calls, err e) =
      until_failure_err clean_up (failure a) (start_calls a) end_calls calls e
        (refl, (refl, (refl, tt))) (sym (run_plugin_lem a) ∙ h) in
    (All_of started, until_failure_last clean_up (failure a) (start_calls a) calls e started)
  where
    All_of : until_failure clean_up (failure a) (start_calls a) ≡ (calls, err e) → All IsStart calls
    All_of p =
        subst (λ m. All IsStart m.0) p
          (until_failure-All IsStart clean_up (failure a) (start_calls a) (start_calls-IsStart a))
