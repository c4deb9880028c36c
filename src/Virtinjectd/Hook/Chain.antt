-- ===== src/Virtinjectd/Hook/Chain.antt =====
-- `Run`: the hooks as a chain of filters.
use dra_driver_integration_e.Base.{
  ◌≡◌, refl, ◌∙◌, ◌≢◌, ◌⊎◌, true, false, none, some, List, [], ◌∷◌, arith, All, Result, ok, err,
  Bytes, codes, Option-cases, Bool-cases, inl, inr,
}
use dra_driver_integration_e.Base.Space.{is_blank}
use dra_driver_integration_e.Virtinjectd.Hook.{
  Outcome, System, HookChain, HookError, listing_dir, hook_timeout, hook_argv, is_empty,
  list_hook_dir, run_hook, run_hooks, discover, run,
}

module _ (S : System) where
  -- What QEMU's hooks are called with.
  abbrev pub argv : Bytes → Bytes → List Bytes
  argv domain hook = hook ∷ domain ∷ codes "prepare" ∷ codes "begin" ∷ codes "-" ∷ []

  -- One call of a hook with the XML on its input, for at most three seconds: a failure leaves the
  -- XML as it was, and so does an output of white space; any other output takes its place.
  pub data Filtered (w : S.World) (domain hook xml : Bytes) (xml' : Bytes) (w' : S.World)
      : Type 0 where
    failed :
        (outcome : Outcome) (e : Bytes)
        → S.exec w 3 (argv domain hook) xml ≡ (outcome, w')
        → outcome.failure ≡ some e
        → xml' ≡ xml
        → Filtered w domain hook xml xml' w'
    silent :
        (outcome : Outcome)
        → S.exec w 3 (argv domain hook) xml ≡ (outcome, w')
        → outcome.failure ≡ none
        → is_blank outcome.stdout ≡ true
        → xml' ≡ xml
        → Filtered w domain hook xml xml' w'
    changed :
        (outcome : Outcome)
        → S.exec w 3 (argv domain hook) xml ≡ (outcome, w')
        → outcome.failure ≡ none
        → is_blank outcome.stdout ≡ false
        → xml' ≡ outcome.stdout
        → Filtered w domain hook xml xml' w'

  -- The calls of hooks in their order, each on what the one before it left.
  pub data Piped (domain : Bytes) : S.World → List Bytes → Bytes → Bytes → S.World → Type 0 where
    nothing : {w : S.World} {xml : Bytes} → Piped domain w [] xml xml w
    behind :
        {w w' w'' : S.World} {hook xml xml' xml'' : Bytes} {hooks : List Bytes}
        → Filtered w domain hook xml xml' w'
        → Piped domain w' hooks xml' xml'' w''
        → Piped domain w (hook ∷ hooks) xml xml'' w''

  run_hook-Filtered :
      (w : S.World) (domain hook xml : Bytes)
      → let r = run_hook S w hook domain xml in
        Filtered w domain hook xml (elim r.0.1 [ none ↦ r.0.0 | some e ↦ xml ]) r.1
  unfolding run_hook
  run_hook-Filtered w domain hook xml =
      let outcome = (S.exec w hook_timeout (hook_argv S hook domain) xml).0 in
      elim (Option-cases outcome.failure) [
        | inr (e, f) ↦ failed outcome e (ground arith) f (ground arith)
        | inl f ↦ elim (Bool-cases (is_blank outcome.stdout)) [
          | inl b ↦ silent outcome (ground arith) f b (ground arith)
          | inr b ↦ changed outcome (ground arith) f b (ground arith)
        ]
      ]

  pub run_hooks-Piped :
      (hooks : List Bytes) (w : S.World) (domain xml : Bytes)
      → Piped domain w hooks xml
          (run_hooks S w domain hooks xml).0
          (run_hooks S w domain hooks xml).1
  unfolding run_hooks
  run_hooks-Piped [] w domain xml = nothing
  run_hooks-Piped (hook ∷ hooks) w domain xml =
      let r = run_hook S w hook domain xml in
      behind (run_hook-Filtered w domain hook xml)
        (run_hooks-Piped hooks r.1 domain (elim r.0.1 [ none ↦ r.0.0 | some e ↦ xml ]))

  -- A hook that never changes the XML: at every call it fails or writes nothing but white space.
  abbrev pub IsNeutral : Bytes → Bytes → Type 0
  IsNeutral domain hook =
      (w : S.World) (xml : Bytes)
      → let outcome = (S.exec w hook_timeout (hook_argv S hook domain) xml).0 in
        (outcome.failure ≢ none) ⊎ (is_blank outcome.stdout ≡ true)

  run_hook_neutral :
      (w : S.World) (domain hook xml : Bytes)
      → IsNeutral domain hook
      → (run_hook S w hook domain xml).0.0 ≡ xml
  unfolding run_hook
  run_hook_neutral w domain hook xml h = ground (arith, h w xml)

  -- A chain of such hooks leaves the XML as it was, however many fail.
  pub run_hooks_neutral :
      (hooks : List Bytes) (w : S.World) (domain xml : Bytes)
      → All (IsNeutral domain) hooks
      → (run_hooks S w domain hooks xml).0 ≡ xml
  unfolding run_hooks
  run_hooks_neutral [] w domain xml h = refl
  run_hooks_neutral (hook ∷ hooks) w domain xml (n, h) =
      let r = run_hook S w hook domain xml in
      let kept = run_hook_neutral w domain hook xml n in
      let passed : (elim r.0.1 [ none ↦ r.0.0 | some e ↦ xml ]) ≡ xml = ground arith in
      run_hooks_neutral hooks r.1 domain _ h ∙ passed

  -- A failure of `Run` is a failure to list the directory; the XML comes back as it was and no
  -- script has been started.
  pub run_error :
      (w : S.World) (hc : HookChain) (xml out : Bytes) (e : HookError) (w' : S.World)
      → run S w hc xml ≡ ((out, some e), w')
      → (cause : HookError) × (list_hook_dir S w hc.hook_dir_path ≡ err cause)
        × (e ≡ listing_dir hc.hook_dir_path cause)
        × (is_empty hc.hook_dir_path ≡ false)
        × (out ≡ xml)
        × (w' ≡ w)
  unfolding run discover
  run_error w hc xml out e w' h = go (list_hook_dir S w hc.hook_dir_path) refl
    where
      go :
          (l : Result HookError (List Bytes))
          → list_hook_dir S w hc.hook_dir_path ≡ l
          → (cause : HookError) × (list_hook_dir S w hc.hook_dir_path ≡ err cause)
            × (e ≡ listing_dir hc.hook_dir_path cause)
            × (is_empty hc.hook_dir_path ≡ false)
            × (out ≡ xml)
            × (w' ≡ w)
      go (err cause) p = (cause, p, ground arith, ground arith, ground arith, ground arith)
      go (ok hooks) p = absurd (ground arith)

  -- With a script and a directory that can be listed, the script is called first, on the XML that
  -- came in, and the hooks of the directory follow in the order of the listing, each on what the
  -- one before it left: the XML as it was where it failed or wrote only white space, and what it
  -- wrote otherwise. The XML that the last one left comes back, without an error.
  pub run-Piped :
      (w : S.World) (hc : HookChain) (xml : Bytes) (hooks : List Bytes)
      → is_empty hc.hook_path ≡ false
      → is_empty hc.hook_dir_path ≡ false
      → list_hook_dir S w hc.hook_dir_path ≡ ok hooks
      → (out : Bytes) × (w' : S.World) × (run S w hc xml ≡ ((out, none), w'))
        × Piped hc.hook_domain_name w (hc.hook_path ∷ hooks) xml out w'
  unfolding run discover
  run-Piped w hc xml hooks single dir listed =
      let r = run_hooks S w hc.hook_domain_name (hc.hook_path ∷ hooks) xml in
      (r.0, r.1, ground arith, run_hooks-Piped (hc.hook_path ∷ hooks) w hc.hook_domain_name xml)

  -- Where the hooks are found, and each of them at any call fails or writes nothing but white
  -- space, the XML stays as it was and the run does not fail.
  pub run_neutral :
      (w : S.World) (hc : HookChain) (xml : Bytes) (hooks : List Bytes)
      → discover S w hc ≡ ok hooks
      → All (IsNeutral hc.hook_domain_name) hooks
      → (run S w hc xml).0 ≡ (xml, none)
  unfolding run
  run_neutral w hc xml hooks found neutral =
      ground (arith, run_hooks_neutral hooks w hc.hook_domain_name xml neutral)
