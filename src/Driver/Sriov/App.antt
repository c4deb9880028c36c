-- ===== src/Driver/Sriov/App.antt =====
-- driver/sriov/main.go: the application around `RunPlugin`, which the library of the command line
-- runs.
use dra_driver_integration_e.Base.{ℕ, ◌≡◌, Option, none, some, List, [], ◌∷◌, arith, ok, err, Bytes}
use dra_driver_integration_e.Driver.Sriov.{Call, Answers, PluginError, run_plugin}

pub data AppError : Type 0 where
  arguments_not_supported : List Bytes → AppError
  logging_failed create_client_failed : Bytes → AppError
  plugin_failed : PluginError → AppError

-- `Before`: no arguments, and the logging can be set up.
unfoldable pub before : List Bytes → Option Bytes → Option AppError
before (arg ∷ args) logging = some (arguments_not_supported (arg ∷ args))
before [] (some e) = some (logging_failed e)
before [] none = none

-- `Action`, with the calls of `RunPlugin`.
unfoldable pub action : Option Bytes → Answers → List Call × Option AppError
action (some e) a = ([], some (create_client_failed e))
action none a =
    let (calls, r) = run_plugin a in
    (calls, elim r [ ok u ↦ none | err e ↦ some (plugin_failed e) ])

-- `main`: the status of the process.
unfoldable pub exit_status : Option AppError → ℕ
exit_status none = 0
exit_status (some e) = 1

-- An action without an error is one for which the clients could be made, and whose `RunPlugin`
-- ended without one.
action_ok :
    (clients : Option Bytes) (a : Answers) (calls : List Call)
    → action clients a ≡ (calls, none)
    → (clients ≡ none) × (run_plugin a ≡ (calls, ok tt))
unfolding action
action_ok clients a calls h = ground arith
