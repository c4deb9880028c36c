-- ===== src/Containerd/Command.antt =====
-- setup/containerd/main.go: the command around `Config`. The script is the file that the build
-- embeds.
use dra_driver_integration_e.Base.{
  ℕ, ◌≡◌, refl, ◌⊎◌, inl, inr, Bool, true, false, Option, none, some, List, [], ◌∷◌, arith, Bytes,
}
use dra_driver_integration_e.Containerd.{Toolkit, config}

-- What a run of the command has done, with its status.
pub record Outcome (W : Type 0) : Type 0 where
  pub status : ℕ
  pub printed : Option Bytes
  pub world : W

module _ (K : Toolkit) (setup_script : Bytes) where
  unfoldable pub config_status : K.World → Bytes → Outcome K.World
  config_status w name =
      let (failure, w') = config K w name in
      record { status = elim failure [ none ↦ 0 | some e ↦ 127 ]; printed = none; world = w' }

  -- `main`, with the flag and the arguments behind the flags.
  unfoldable pub main : K.World → Bool → List Bytes → Outcome K.World
  main w true args = record { status = 0; printed = some setup_script; world = w }
  main w false (name ∷ []) = config_status w name
  main w false _ = record { status = 1; printed = none; world = w }

  -- Without the script, the command ends with status 0 exactly where it has one argument and
  -- `Config` gives no error for it; and with status 1 only where it has done nothing.
  main_status :
      (w : K.World) (args : List Bytes)
      → (((main w false args).status ≡ 0)
          × ((name : Bytes) × (args ≡ name ∷ []) × ((config K w name).0 ≡ none)))
        ⊎ (((main w false args).status ≡ 1) × ((main w false args).world ≡ w))
        ⊎ ((main w false args).status ≡ 127)
  unfolding main config_status
  main_status w [] = inr (inl (refl, refl))
  main_status w (name ∷ []) = go (config K w name).0 refl
    where
      go :
          (r : Option Bytes)
          → (config K w name).0 ≡ r
          → (((main w false (name ∷ [])).status ≡ 0)
              × ((n : Bytes) × (name ∷ [] ≡ n ∷ []) × ((config K w n).0 ≡ none)))
            ⊎ (((main w false (name ∷ [])).status ≡ 1) × ((main w false (name ∷ [])).world ≡ w))
            ⊎ ((main w false (name ∷ [])).status ≡ 127)
      go none e = inl (ground arith, (name, refl, e))
      go (some x) e = inr (inr (ground arith))
  main_status w (a ∷ b ∷ args) = inr (inl (refl, refl))
