-- ===== src/Driver/Cpu/Health.antt =====
-- driver/cpu/main.go: what /healthz says while the driver starts, and the end of main.
use mathlib.Core.Path.{subst}
use dra_driver_integration_e.Base.{
  ◌≡◌, refl, ◌⊎◌, inl, inr, none, List, [], ◌∷◌, ◌++◌, arith, err, Member,
}
use dra_driver_integration_e.Driver.Cpu.{
  Globals, DriverConfig, Call, start_driver, store_ready, Answers, Fatal, client_config, finish,
  main, health,
}

module _ {CpuSet : Type 0} (answers : Answers CpuSet) where
  -- A call that started the driver without an error.
  abbrev pub HasStarted : Call CpuSet → Type 0
  HasStarted c =
      (config : DriverConfig CpuSet) × (c ≡ start_driver config) × (answers.driver config ≡ none)

  -- Such a call stands before each that sets the flag of /healthz.
  IsGuarded : List (Call CpuSet) → Type 0
  IsGuarded [] = Unit
  IsGuarded (store_ready ∷ calls) = ⊥
  IsGuarded (start_driver config ∷ calls) = (answers.driver config ≡ none) ⊎ IsGuarded calls
  IsGuarded (c ∷ calls) = IsGuarded calls

  main-IsGuarded : (g : Globals) → IsGuarded (main answers g).0
  unfolding main IsGuarded client_config finish
  main-IsGuarded g = ground arith

  HasBegun : List (Call CpuSet) → Type 0
  HasBegun calls = (c : Call CpuSet) × Member c calls × HasStarted c

  later : (c : Call CpuSet) (calls : List (Call CpuSet)) → HasBegun calls → HasBegun (c ∷ calls)
  unfolding HasBegun
  later c calls (d, m, s) = (d, inr m, s)

  health_guarded :
      (before after : List (Call CpuSet))
      → IsGuarded (before ++ after)
      → health before ≡ 200
      → HasBegun before
  unfolding IsGuarded health HasBegun
  health_guarded [] after h e = absurd (omega arith)
  health_guarded (store_ready ∷ before) after h e = absurd h
  health_guarded (start_driver config ∷ before) after (inl s) e =
      (start_driver config, inl refl, (config, refl, s))
  health_guarded (start_driver config ∷ before) after (inr h) e =
      later _ before (health_guarded before after h e)
  health_guarded (c ∷ before) after h e = later _ before (health_guarded before after h e)

  -- At every moment of main, whatever it calls later: if /healthz answers with status 200, the
  -- driver was started before, without an error.
  pub health_ready :
      (g : Globals) (before after : List (Call CpuSet))
      → (main answers g).0 ≡ before ++ after
      → health before ≡ 200
      → (c : Call CpuSet) × Member c before × HasStarted c
  unfolding HasBegun
  health_ready g before after e h =
      health_guarded before after (subst IsGuarded e (main-IsGuarded g)) h

  -- A main that ends by a fatal error was never ready.
  main_fatal :
      (g : Globals) (calls : List (Call CpuSet)) (e : Fatal)
      → main answers g ≡ (calls, err e)
      → health calls ≡ 503
  unfolding main client_config finish health
  main_fatal g calls e h = ground arith
