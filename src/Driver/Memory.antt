-- ===== src/Driver/Memory.antt =====
-- driver/memory/main.go: the modes of the command. Flags, the signals and the driver's package are
-- given by what the calls answer.
use dra_driver_integration_e.Base.{
  ℕ, ◌≡◌, Bool, true, false, not, Option, none, some, List, [], ◌∷◌, ◌++◌, arith, if◌then◌else◌, ok,
  err, Bytes, codes, eq_bytes,
}
use dra_driver_integration_e.Base.Trace.{Traced, call, attempt, done, ◌>>=◌}

-- The parameters that main looks at; `InspectMode` is a text of the driver's package.
pub record Params : Type 0 where
  pub do_version : Bool
  pub inspect_mode : Bytes
  pub do_validation : Bool
  pub do_manifests : Bool

pub record Version : Type 0 where
  pub build : Bytes
  pub golang : Bytes

pub data Call : Type 0 where
  make_logger get_version inspect validate make_manifests dump_flags run_daemon : Call
  print_line : Bytes → Call

-- What the calls give, in one run; `none` is no error.
pub record Answers : Type 0 where
  pub logger : Option Bytes
  pub version : Option Version
  pub inspection : Option Bytes
  pub validation : Option Bytes
  pub manifests : Option Bytes
  pub daemon : Option Bytes

abbrev pub is_none : Option Bytes → Bool
is_none none = true
is_none (some e) = false

-- A result `err n` is `os.Exit(n)`; that of `ok` is the return from main.
abbrev pub Main : Type 0
Main = Traced Call ℕ (Unit {0})

-- A mode: one call, and the status that says whether it failed.
unfoldable pub mode : Call → Option Bytes → Main
mode c failure = (do _ ← attempt c (λ e. 1) failure; ([], err 0))

unfoldable pub show_version : Option Version → Main
show_version none = call get_version (err 1)
show_version (some ver) = (do
  _ ← done get_version
  _ ← done (print_line (ver.build ++ (codes " " ++ ver.golang)))
  ([], err 0))

unfoldable pub run_mode : Answers → Main
run_mode answers = (do _ ← done dump_flags; attempt run_daemon (λ e. 1) answers.daemon)

-- `main`, where `InspectNone` is the mode that inspects nothing.
unfoldable pub main : Bytes → Params → Answers → Main
unfolding mode show_version run_mode
main inspect_none params answers = (do
  _ ← attempt make_logger (λ e. 1) answers.logger
  (if params.do_version
      then show_version answers.version
      else if not (eq_bytes params.inspect_mode inspect_none)
      then mode inspect answers.inspection
      else if params.do_validation
      then mode validate answers.validation
      else if params.do_manifests
      then mode make_manifests answers.manifests
      else run_mode answers))

-- The status of the process.
abbrev pub status : Main → ℕ
status (calls, ok _) = 0
status (calls, err n) = n

-- The calls that do the command's work.
abbrev pub work : List Call → List Call
work [] = []
work (make_logger ∷ calls) = work calls
work (dump_flags ∷ calls) = work calls
work (print_line s ∷ calls) = work calls
work (c ∷ calls) = c ∷ work calls

-- Whether a call succeeds.
abbrev pub succeeds : Answers → Call → Bool
succeeds answers get_version = elim answers.version [ some ver ↦ true | none ↦ false ]
succeeds answers inspect = is_none answers.inspection
succeeds answers validate = is_none answers.validation
succeeds answers make_manifests = is_none answers.manifests
succeeds answers run_daemon = is_none answers.daemon
succeeds answers c = true

-- The first that is asked for, or the last.
abbrev pub first_asked : List (Bool × Call) → Call → Call
first_asked [] c = c
first_asked ((asked, d) ∷ more) c = if asked then d else first_asked more c

abbrev pub requests : Bytes → Params → List (Bool × Call)
requests inspect_none params =
    (params.do_version, get_version)
    ∷ (not (eq_bytes params.inspect_mode inspect_none), inspect)
    ∷ (params.do_validation, validate)
    ∷ (params.do_manifests, make_manifests)
    ∷ []

-- With a logger, a run does the work of one mode, whatever the flags: the first that is asked for
-- of the version, the inspection, the validation and the manifests, or else the daemon. Its status
-- is 0 if the call of that mode succeeds, and 1 if not.
pub main_lem :
    (inspect_none : Bytes) (params : Params) (answers : Answers)
    → answers.logger ≡ none
    → (work (main inspect_none params answers).0
        ≡ first_asked (requests inspect_none params) run_daemon ∷ [])
      × (status (main inspect_none params answers) ≡ (
          if succeeds answers (first_asked (requests inspect_none params) run_daemon)
          then 0
          else 1))
unfolding main
main_lem inspect_none params answers h = ground arith

-- Without one it does nothing, with status 1.
main_no_logger :
    (inspect_none : Bytes) (params : Params) (answers : Answers) (e : Bytes)
    → answers.logger ≡ some e
    → main inspect_none params answers ≡ (make_logger ∷ [], err 1)
unfolding main
main_no_logger inspect_none params answers e h = ground arith
