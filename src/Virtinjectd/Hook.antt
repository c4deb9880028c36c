-- ===== src/Virtinjectd/Hook.antt =====
-- virtinjectd/hook.go: the chain of hook scripts. What the code calls of the system, files and
-- processes, is a parameter over an unknown state; the log is left out.
pub mod Listing
pub mod Setup
pub mod ByName
pub mod Chain
use dra_driver_integration_e.Base.{
  ℕ, bit_and, Bool, true, false, not, ◌&&◌, Option, none, some, List, [], ◌∷◌, ◌++◌, ◌==◌,
  if◌then◌else◌, Result, ◌>>=◌, ok, err, Bytes, codes, eq_bytes, leb_bytes,
}
use dra_driver_integration_e.Base.FilePath.{join}
use dra_driver_integration_e.Base.Sort.{sort}
use dra_driver_integration_e.Base.Space.{is_blank}

pub data FileKind : Type 0 where
  regular directory special : FileKind

-- `fs.FileInfo`: what `IsDir()` and `Mode().IsRegular()` tell apart, and the permission bits.
pub record FileInfo : Type 0 where
  pub kind : FileKind
  pub perm : ℕ

abbrev pub is_directory : FileKind → Bool
is_directory directory = true
is_directory _ = false

abbrev pub is_regular : FileKind → Bool
is_regular regular = true
is_regular _ = false

-- `info.Mode()&0111 != 0`
abbrev pub is_executable : FileInfo → Bool
is_executable info = not (bit_and info.perm 0o111 == 0)

pub record DirEntry : Type 0 where
  pub name : Bytes
  pub is_dir : Bool

-- What a process has written when it ends, and the error of `cmd.Run`, if any: it did not start,
-- its exit status is not zero, or the timeout killed it.
pub record Outcome : Type 0 where
  pub stdout : Bytes
  pub failure : Option Bytes

-- The file system and the processes. An error is known by its text; `exec` is given the timeout in
-- seconds, the argument vector and the standard input, and may change the state.
pub record System : Type 1 where
  pub World : Type 0
  pub stat : World → Bytes → Result Bytes FileInfo
  pub read_dir : World → Bytes → Result Bytes (List DirEntry)
  pub exec : World → ℕ → List Bytes → Bytes → Outcome × World

abbrev pub hook_timeout : ℕ
hook_timeout = 3

abbrev pub default_hook_domain_name : Bytes
default_hook_domain_name = codes "virtinjectd"

pub record HookChain : Type 0 where
  pub hook_path : Bytes
  pub hook_dir_path : Bytes
  pub hook_domain_name : Bytes

-- The errors of this file, with the path and what they wrap.
pub data HookError : Type 0 where
  no_hook : HookError
  hook_stat : Bytes → Bytes → HookError
  hook_is_dir : Bytes → HookError
  hook_not_executable : Bytes → HookError
  dir_stat : Bytes → Bytes → HookError
  not_a_dir : Bytes → HookError
  reading_dir : Bytes → Bytes → HookError
  listing_dir : Bytes → HookError → HookError
  hook_failed : Bytes → Bytes → HookError

abbrev pub is_empty : Bytes → Bool
is_empty s = eq_bytes s []

module _ (S : System) where
  -- The first block of checks of `NewHookChain`.
  check_hook_path : S.World → Bytes → Result HookError (Unit {0})
  check_hook_path w hook_path = if is_empty hook_path then ok tt else elim (S.stat w hook_path) [
    | err e ↦ err (hook_stat hook_path e)
    | ok info ↦
        if is_directory info.kind
        then err (hook_is_dir hook_path)
        else if is_executable info
        then ok tt
        else err (hook_not_executable hook_path)
  ]

  -- The second block.
  check_hook_dir : S.World → Bytes → Result HookError (Unit {0})
  check_hook_dir w hook_dir_path =
      if is_empty hook_dir_path then ok tt else elim (S.stat w hook_dir_path) [
        | err e ↦ err (dir_stat hook_dir_path e)
        | ok info ↦ if is_directory info.kind then ok tt else err (not_a_dir hook_dir_path)
      ]

  unfoldable pub new_hook_chain : S.World → Bytes → Bytes → Bytes → Result HookError HookChain
  unfolding check_hook_path check_hook_dir
  new_hook_chain w hook_path hook_dir_path hook_domain_name =
      if is_empty hook_path && is_empty hook_dir_path then err no_hook else (do
        _ ← check_hook_path w hook_path
        _ ← check_hook_dir w hook_dir_path
        ok (record {
          hook_path = hook_path;
          hook_dir_path = hook_dir_path;
          hook_domain_name =
              if is_empty hook_domain_name then default_hook_domain_name else hook_domain_name;
        }))

  -- One round of the loop of `listHookDir`: the path that is appended, if any.
  unfoldable pub hook_of_entry : S.World → Bytes → DirEntry → Option Bytes
  hook_of_entry w dir_path entry =
      let full_path = join (dir_path ∷ entry.name ∷ []) in
      if entry.is_dir then none else elim (S.stat w full_path) [
        | err e ↦ none
        | ok info ↦
            if not (is_regular info.kind)
            then none
            else if is_executable info
            then some full_path
            else none
      ]

  hooks_of_entries : S.World → Bytes → List DirEntry → List Bytes
  hooks_of_entries w dir_path [] = []
  hooks_of_entries w dir_path (entry ∷ entries) =
      let rest = hooks_of_entries w dir_path entries in
      elim (hook_of_entry w dir_path entry) [ none ↦ rest | some path ↦ path ∷ rest ]

  unfoldable pub list_hook_dir : S.World → Bytes → Result HookError (List Bytes)
  unfolding hooks_of_entries
  list_hook_dir w dir_path = elim (S.read_dir w dir_path) [
    | err e ↦ err (reading_dir dir_path e)
    | ok entries ↦ ok (sort leb_bytes (hooks_of_entries w dir_path entries))
  ]

  abbrev pub hook_argv : Bytes → Bytes → List Bytes
  hook_argv hook_path domain_name =
      hook_path ∷ domain_name ∷ codes "prepare" ∷ codes "begin" ∷ codes "-" ∷ []

  -- The XML that the script leaves, or the XML it was given and the error.
  unfoldable pub run_hook : S.World → Bytes → Bytes → Bytes → (Bytes × Option HookError) × S.World
  run_hook w hook_path domain_name xml_input =
      let (outcome, w') = S.exec w hook_timeout (hook_argv hook_path domain_name) xml_input in
      elim outcome.failure [
        | some e ↦ ((xml_input, some (hook_failed hook_path e)), w')
        | none ↦ ((if is_blank outcome.stdout then xml_input else outcome.stdout, none), w')
      ]

  -- The loop of `Run`: a hook that fails is passed over.
  unfoldable pub run_hooks : S.World → Bytes → List Bytes → Bytes → Bytes × S.World
  run_hooks w domain_name [] current_xml = (current_xml, w)
  run_hooks w domain_name (hook_path ∷ hooks) current_xml =
      let ((output, failure), w') = run_hook w hook_path domain_name current_xml in
      run_hooks w' domain_name hooks (elim failure [ none ↦ output | some e ↦ current_xml ])

  -- The list that the first two steps of `Run` build.
  unfoldable pub discover : S.World → HookChain → Result HookError (List Bytes)
  discover w hc =
      let single = if is_empty hc.hook_path then [] else hc.hook_path ∷ [] in
      if is_empty hc.hook_dir_path then ok single else elim (list_hook_dir w hc.hook_dir_path) [
        | err e ↦ err (listing_dir hc.hook_dir_path e)
        | ok hooks_from_dir ↦ ok (single ++ hooks_from_dir)
      ]

  unfoldable pub run : S.World → HookChain → Bytes → (Bytes × Option HookError) × S.World
  run w hc xml_input = elim (discover w hc) [
    | err e ↦ ((xml_input, some e), w)
    | ok hooks ↦
        let (xml, w') = run_hooks w hc.hook_domain_name hooks xml_input in ((xml, none), w')
  ]
