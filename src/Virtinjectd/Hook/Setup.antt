-- ===== src/Virtinjectd/Hook/Setup.antt =====
-- `NewHookChain`: what a chain that was built promises, and that nothing else is refused.
use dra_driver_integration_e.Base.{
  ◌≡◌, refl, ◌⊎◌, inl, inr, Bool, true, false, ◌&&◌, arith, if◌then◌else◌, Bool-cases, Result,
  ◌>>=◌, ok, err, Bytes, eq_bytes,
}
use dra_driver_integration_e.Virtinjectd.Hook.{
  FileInfo, is_directory, is_executable, System, HookChain, HookError, no_hook,
  default_hook_domain_name, is_empty, check_hook_path, check_hook_dir, new_hook_chain,
}

steps_passed :
    (refused : Bool) (first second : Result HookError (Unit {0})) (built hc : HookChain)
    → (if refused then err no_hook else (do _ ← first; _ ← second; ok built)) ≡ ok hc
    → (refused ≡ false) × (first ≡ ok tt) × (second ≡ ok tt) × (hc ≡ built)
steps_passed true first second built hc h = absurd (ground arith)
steps_passed false (err e) second built hc h = absurd (ground arith)
steps_passed false (ok _) (err e) built hc h = absurd (ground arith)
steps_passed false (ok _) (ok _) built hc h = (refl, refl, refl, ground arith)

module _ (S : System) (w : S.World) where
  -- A script that `NewHookChain` takes: no directory, and executable by somebody.
  pub record IsScript (path : Bytes) : Type 0 where
    pub info : FileInfo
    pub stated : S.stat w path ≡ ok info
    pub no_dir : is_directory info.kind ≡ false
    pub executable : is_executable info ≡ true

  pub record IsHookDir (path : Bytes) : Type 0 where
    pub info : FileInfo
    pub stated : S.stat w path ≡ ok info
    pub dir : is_directory info.kind ≡ true

  IsScript-checked :
      (path : Bytes) → check_hook_path S w path ≡ ok tt → is_empty path ≡ false → IsScript path
  unfolding check_hook_path
  IsScript-checked path h given = go (S.stat w path) refl
    where
      go : (s : Result Bytes FileInfo) → S.stat w path ≡ s → IsScript path
      go (err e) p = absurd (ground arith)
      go (ok info) p = record {
        info = info;
        stated = p;
        no_dir = ground arith;
        executable = ground arith;
      }

  IsHookDir-checked :
      (path : Bytes) → check_hook_dir S w path ≡ ok tt → is_empty path ≡ false → IsHookDir path
  unfolding check_hook_dir
  IsHookDir-checked path h given = go (S.stat w path) refl
    where
      go : (s : Result Bytes FileInfo) → S.stat w path ≡ s → IsHookDir path
      go (err e) p = absurd (ground arith)
      go (ok info) p = record { info = info; stated = p; dir = ground arith }

  check_hook_path_ok : (path : Bytes) → IsScript path → check_hook_path S w path ≡ ok tt
  unfolding check_hook_path
  check_hook_path_ok path s = ground arith

  check_hook_dir_ok : (path : Bytes) → IsHookDir path → check_hook_dir S w path ≡ ok tt
  unfolding check_hook_dir
  check_hook_dir_ok path s = ground arith

  -- The chain for a domain name that may be empty.
  abbrev pub chain : Bytes → Bytes → Bytes → HookChain
  chain hook dir domain = record {
    hook_path = hook;
    hook_dir_path = dir;
    hook_domain_name = if is_empty domain then default_hook_domain_name else domain;
  }

  domain_given :
      (domain : Bytes)
      → is_empty (if is_empty domain then default_hook_domain_name else domain) ≡ false
  domain_given domain = elim (Bool-cases (is_empty domain)) [
    | inl e ↦ rw e (unfold eq_bytes in refl)
    | inr e ↦ rw e e
  ]

  checks_passed :
      (hook dir domain : Bytes) (hc : HookChain)
      → new_hook_chain S w hook dir domain ≡ ok hc
      → (is_empty hook && is_empty dir ≡ false)
        × (check_hook_path S w hook ≡ ok tt)
        × (check_hook_dir S w dir ≡ ok tt)
        × (hc ≡ chain hook dir domain)
  unfolding new_hook_chain
  checks_passed hook dir domain hc h =
      steps_passed _ (check_hook_path S w hook) (check_hook_dir S w dir) _ hc h

  -- A chain that was built has a script or a directory, each that it has was there and of the right
  -- kind, and it keeps the paths and a domain name that is not empty.
  pub new_hook_chain_ok :
      (hook dir domain : Bytes) (hc : HookChain)
      → new_hook_chain S w hook dir domain ≡ ok hc
      → (is_empty hook && is_empty dir ≡ false)
        × ((is_empty hook ≡ true) ⊎ IsScript hook)
        × ((is_empty dir ≡ true) ⊎ IsHookDir dir)
        × (hc ≡ chain hook dir domain)
        × (is_empty hc.hook_domain_name ≡ false)
  new_hook_chain_ok hook dir domain hc h =
      let passed = checks_passed hook dir domain hc h in
      (
        passed.0,
        elim (Bool-cases (is_empty hook)) [
          | inl e ↦ inl e
          | inr e ↦ inr (IsScript-checked hook passed.1 e)
        ],
        elim (Bool-cases (is_empty dir)) [
          | inl e ↦ inl e
          | inr e ↦ inr (IsHookDir-checked dir passed.2 e)
        ],
        passed.3,
        rw passed.3 (domain_given domain),
      )
