-- ===== src/Sriovvf/Command.antt =====
-- setup/sriovvf/main.go: the flags, the level of the log, and the status of the process.
use mathlib.Core.Path.{subst}
use dra_driver_integration_e.Base.{
  ℕ, ◌+◌, ◌≤◌, ◌<◌, ◌≡◌, refl, sym, ap, ◌⊎◌, inl, inr, Bool, true, false, ◌&&◌, ◌||◌, Option, none,
  some, List, [], ◌∷◌, arith, length, leb, ◌==◌, if◌then◌else◌, Result, ok, err, Bytes, codes,
  eq_bytes,
}
use dra_driver_integration_e.Base.Int.{ℤ, pos, negsuc}
use dra_driver_integration_e.Base.Space.{trim_space}
use dra_driver_integration_e.Sriovvf.{Config, Sysfs, SriovError}
use dra_driver_integration_e.Sriovvf.Run.{Ending, succeeded, not_fully, run}
use dra_driver_integration_e.Sriovvf.Run.TryMode.{run_try}

-- The flags, once they are parsed.
pub record Options : Type 0 where
  pub sysfs : Bytes
  pub num_vfs : ℤ
  pub pf_numa_node : ℤ
  pub verbosity : Bytes
  pub try_mode : Bool

-- Their defaults.
unfoldable pub default_options : Options
default_options = record {
  sysfs = codes "/sys";
  num_vfs = pos 4;
  pf_numa_node = negsuc 0;
  verbosity = codes "info";
  try_mode = false;
}

abbrev configured : Options → Bytes → Config
configured o address = record {
  sysfs_root = o.sysfs;
  num_vfs = o.num_vfs;
  pf_numa_node = o.pf_numa_node;
  pci_addr = address;
  try_mode = o.try_mode;
}

-- `parseFlags` behind `flag.Parse`: the address, if there is one; an error is the status of
-- `os.Exit`.
unfoldable pub parse_flags : Options → List Bytes → Result ℕ Config
parse_flags o [] = ok (configured o [])
parse_flags o (address ∷ []) = ok (configured o address)
parse_flags o _ = err 2

-- `strings.ToLower`, as far as a comparison with a text of ASCII characters can tell: U+0130
-- becomes i and U+212A k, and no other character outside of ASCII becomes one of it.
lower : ℕ → ℕ
lower c = if leb b'A' c && leb c b'Z' then c + 32 else c

unfoldable pub to_lower : Bytes → Bytes
unfolding lower
to_lower [] = []
to_lower (a ∷ []) = lower a ∷ []
to_lower (a ∷ b ∷ []) = if a == 0xc4 && b == 0xb0 then b'i' ∷ [] else lower a ∷ lower b ∷ []
to_lower (a ∷ b ∷ c ∷ s) =
    let after_two = to_lower (c ∷ s) in
    let after_three = to_lower s in
    let after_one = to_lower (b ∷ c ∷ s) in
    if a == 0xc4 && b == 0xb0
    then b'i' ∷ after_two
    else if a == 0xe2 && b == 0x84 && c == 0xaa
    then b'k' ∷ after_three
    else lower a ∷ after_one

pub data Level : Type 0 where
  level_error level_info level_debug : Level

-- `newLogger`: the level, where the word is known.
unfoldable pub new_logger : Bytes → Option Level
unfolding to_lower
new_logger verbosity =
    let word = to_lower (trim_space verbosity) in
    if eq_bytes word (codes "quiet") || eq_bytes word (codes "error")
    then some level_error
    else if eq_bytes word (codes "info") || eq_bytes word (codes "normal")
    then some level_info
    else if eq_bytes word (codes "debug")
    then some level_debug
    else none

module _ (S : Sysfs) where
  -- `main`: the status, and the state at the end.
  unfoldable pub exit_with : Result SriovError Ending × S.World → ℕ × S.World
  exit_with (ok ending, w) = (0, w)
  exit_with (err e, w) = (1, w)

  unfoldable pub main : S.World → Options → List Bytes → ℕ × S.World
  main w o args = elim (parse_flags o args) [
    | err status ↦ (status, w)
    | ok cfg ↦ elim (new_logger o.verbosity) [
      | none ↦ (2, w)
      | some level ↦ exit_with (run S cfg w)
    ]
  ]

  run_try_ends :
      (cfg : Config) (w : S.World)
      → cfg.try_mode ≡ true
      → (ending : Ending) × ((run S cfg w).0 ≡ ok ending)
  run_try_ends cfg w h =
      let trying : record cfg { try_mode = true } ≡ cfg =
        ap (λ b. record cfg { try_mode = b }) (sym h) in
      elim (run_try S cfg w) [
        | inl e ↦ (succeeded, subst (λ c. (run S c w).0 ≡ ok succeeded) trying e)
        | inr e ↦ (not_fully, subst (λ c. (run S c w).0 ≡ ok not_fully) trying e)
      ]

  -- What main does in try mode. A refused command line has more than one argument or an unknown
  -- word for the level of the log.
  pub data Tried (w : S.World) (o : Options) (args : List Bytes) : ℕ → S.World → Type 0 where
    refused : (1 < length args) ⊎ (new_logger o.verbosity ≡ none) → Tried w o args 2 w
    completed :
        (cfg : Config) (level : Level) (ending : Ending) (w' : S.World)
        → parse_flags o args ≡ ok cfg
        → length args ≤ 1
        → new_logger o.verbosity ≡ some level
        → run S cfg w ≡ (ok ending, w')
        → Tried w o args 0 w'

  Tried-run :
      (w : S.World) (o : Options) (args : List Bytes) (cfg : Config)
      → cfg.try_mode ≡ true
      → parse_flags o args ≡ ok cfg
      → length args ≤ 1
      → (l : Option Level) → new_logger o.verbosity ≡ l
      → Tried w o args (main w o args).0 (main w o args).1
  unfolding main exit_with
  Tried-run w o args cfg h parsed few none p = rw (main, parsed, p) (refused (inr p))
  Tried-run w o args cfg h parsed few (some level) p =
      let (ending, ended) = run_try_ends cfg w h in
      let r : run S cfg w ≡ (ok ending, (run S cfg w).1) = ap (λ x. (x, (run S cfg w).1)) ended in
      rw (main, parsed, p, r) (completed cfg level ending (run S cfg w).1 parsed few p r)

  -- In try mode a command line with more than one argument, or with an unknown word for the level
  -- of the log, ends the process with status 2, and nothing is changed. Every other is run, and
  -- then the status is 0, whatever fails on the machine.
  pub main-Tried :
      (w : S.World) (o : Options) (args : List Bytes)
      → o.try_mode ≡ true
      → Tried w o args (main w o args).0 (main w o args).1
  unfolding main parse_flags
  main-Tried w o [] h =
      Tried-run w o [] (configured o []) h refl (omega arith) (new_logger o.verbosity) refl
  main-Tried w o (a ∷ []) h =
      Tried-run w o (a ∷ []) (configured o a) h refl (omega arith) (new_logger o.verbosity) refl
  main-Tried w o (a ∷ b ∷ args) h = refused (inl (omega arith))
