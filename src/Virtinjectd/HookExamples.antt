-- ===== src/Virtinjectd/HookExamples.antt =====
-- A system with a few files and scripts, runs of the chain over it, and the theorems at such data.

use dra_driver_integration_e.Base.{
  ℕ, ◌+◌, ◌≡◌, refl, ◌↔◌, inl, inr, Bool, true, false, ◌||◌, none, some, List, [], ◌∷◌, ◌++◌, arith,
  if◌then◌else◌, Member, All, Result, ok, err, Bytes, codes, eq_bytes, leb_bytes,
}
use dra_driver_integration_e.Base.FilePath.{join, clean, split}
use dra_driver_integration_e.Base.Sort.{IsSorted, sort}
use dra_driver_integration_e.Base.Space.{is_blank}
use dra_driver_integration_e.Virtinjectd.Hook.{
  regular, directory, FileInfo, DirEntry, Outcome, System, HookChain, HookError, listing_dir,
  reading_dir, hook_of_entry, list_hook_dir, new_hook_chain, run_hook, run_hooks, discover, run,
}
use dra_driver_integration_e.Virtinjectd.Hook.Listing.{IsHookAmong, list_hook_dir-IsHookAmong}
use dra_driver_integration_e.Virtinjectd.Hook.Chain.{IsNeutral, Piped, run-Piped, run_neutral}

abbrev script : FileInfo
script = record { kind = regular; perm = 0o755 }

abbrev text_file : FileInfo
text_file = record { kind = regular; perm = 0o644 }

abbrev folder : FileInfo
folder = record { kind = directory; perm = 0o755 }

abbrev file_info : Bytes → Result Bytes FileInfo
file_info path =
    if eq_bytes path (codes "/h/b") || eq_bytes path (codes "/h/a") || eq_bytes path (codes "/one")
    then ok script
    else if eq_bytes path (codes "/h/notes")
    then ok text_file
    else if eq_bytes path (codes "/h")
    then ok folder
    else err (codes "no such file")

abbrev entry : Bytes → Bool → DirEntry
entry name is_dir = record { name = name; is_dir = is_dir }

abbrev entries : List DirEntry
entries =
    entry (codes "b") false
    ∷ entry (codes "notes") false
    ∷ entry (codes "sub") true
    ∷ entry (codes "a") false
    ∷ []

-- `/one` appends a bang, `/h/a` prints a newline, `/h/b` fails. The state counts the processes.
abbrev run_script : ℕ → List Bytes → Bytes → Outcome × ℕ
run_script n [] input = (record { stdout = []; failure = none }, n + 1)
run_script n (path ∷ args) input =
    if eq_bytes path (codes "/one")
    then (record { stdout = input ++ codes "!"; failure = none }, n + 1)
    else if eq_bytes path (codes "/h/a")
    then (record { stdout = codes "\n"; failure = none }, n + 1)
    else (record { stdout = codes "junk"; failure = some (codes "exit status 1") }, n + 1)

abbrev pub small_system : System
small_system = record {
  World = ℕ;
  stat = λ w path. file_info path;
  read_dir =
      λ w path. if eq_bytes path (codes "/h") then ok entries else err (codes "no such directory");
  exec = λ w timeout argv input. run_script w argv input;
}

abbrev pub both : HookChain
both = record {
  hook_path = codes "/one";
  hook_dir_path = codes "/h";
  hook_domain_name = codes "virtinjectd";
}

abbrev listed : List Bytes
listed = codes "/h/a" ∷ codes "/h/b" ∷ []

listing : list_hook_dir small_system 0 (codes "/h") ≡ ok listed
unfolding list_hook_dir hook_of_entry join clean split sort leb_bytes eq_bytes
listing = refl

whole_run : run small_system 0 both (codes "x") ≡ ((codes "x!", none), 3)
unfolding run discover run_hooks run_hook list_hook_dir hook_of_entry join clean split sort
    leb_bytes eq_bytes is_blank
whole_run = refl

built : new_hook_chain small_system 0 (codes "/one") (codes "/h") [] ≡ ok both
unfolding new_hook_chain eq_bytes
built = refl

abbrev pub no_dir : HookChain
no_dir = record { hook_path = []; hook_dir_path = codes "/gone"; hook_domain_name = codes "vm" }

abbrev pub no_dir_error : HookError
no_dir_error = listing_dir (codes "/gone") (reading_dir (codes "/gone") (codes "no such directory"))

pub failed_run : run small_system 7 no_dir (codes "x") ≡ ((codes "x", some no_dir_error), 7)
unfolding run discover list_hook_dir eq_bytes
failed_run = refl

run-Piped_example :
    (out : Bytes) × (w' : ℕ) × (run small_system 0 both (codes "x") ≡ ((out, none), w'))
    × Piped small_system (codes "virtinjectd") 0 (codes "/one" ∷ listed) (codes "x") out w'
run-Piped_example =
    run-Piped small_system 0 both (codes "x") listed (unfold eq_bytes in refl)
      (unfold eq_bytes in refl) listing

abbrev only_dir : HookChain
only_dir = record { hook_path = []; hook_dir_path = codes "/h"; hook_domain_name = codes "vm" }

found : discover small_system 0 only_dir ≡ ok listed
unfolding discover list_hook_dir hook_of_entry join clean split sort leb_bytes eq_bytes
found = refl

-- `/h/a` prints white space only, and `/h/b` fails.
blank_or_failed : All (IsNeutral small_system (codes "vm")) listed
unfolding eq_bytes is_blank
blank_or_failed = (λ w xml. inr refl, (λ w xml. inl (λ p. ground arith), tt))

run_neutral_example : (run small_system 0 only_dir (codes "x")).0 ≡ (codes "x", none)
run_neutral_example = run_neutral small_system 0 only_dir (codes "x") listed found blank_or_failed

list_hook_dir-IsHookAmong_example :
    IsSorted leb_bytes listed
    × ((path : Bytes) → Member path listed ↔ IsHookAmong small_system 0 (codes "/h") entries path)
list_hook_dir-IsHookAmong_example =
    list_hook_dir-IsHookAmong small_system 0 (codes "/h") listed entries listing
      (unfold eq_bytes in refl)
