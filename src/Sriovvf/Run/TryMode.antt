-- ===== src/Sriovvf/Run/TryMode.antt =====
-- What the try mode changes.
use dra_driver_integration_e.Base.{
  ◌≡◌, refl, ap, ◌↔◌, ◌⊎◌, inl, inr, Bool, true, false, Option, none, some, List, arith, ok, err,
  Bytes,
}
use dra_driver_integration_e.Sriovvf.{Config, PfDevice, Sysfs, SriovError}
use dra_driver_integration_e.Sriovvf.Run.{
  quiet, not_fully, succeeded, Ended, stop, after, assign_nodes, find_vfs, place_pf, configure, run,
}

module _ (S : Sysfs) (cfg : Config) where
  abbrev strict : Config
  strict = record cfg { try_mode = false }

  abbrev trying : Config
  trying = record cfg { try_mode = true }

  -- What the two modes do with the same work: without the mode it succeeds, and then the mode says
  -- so and the states agree; or it fails, and then the mode says that as its only sign of it.
  abbrev pub Agree : Ended S strict → Ended S trying → Type 0
  Agree (ok end, w) r = (end ≡ quiet) × (r ≡ (ok succeeded, w))
  Agree (err e, w) r = r.0 ≡ ok not_fully

  Agree-stop : (e : SriovError) (w : S.World) → Agree (stop S strict e w) (stop S trying e w)
  Agree-stop e w = refl

  -- Once something has failed the mode ends with that.
  abbrev Failed : (Bool → S.World → Ended S trying) → Type 0
  Failed rest = (w : S.World) → (rest true w).0 ≡ ok not_fully

  Agree-after :
      (failure : Option SriovError) (w : S.World) (rest : Bool → S.World → Ended S strict)
      (rest' : Bool → S.World → Ended S trying)
      → Failed rest'
      → Agree (rest false w) (rest' false w)
      → Agree (after S strict failure false w rest) (after S trying failure false w rest')
  Agree-after none w rest rest' h k = k
  Agree-after (some e) w rest rest' h k = h w

  Failed-after :
      (failure : Option SriovError) (w : S.World) (rest : Bool → S.World → Ended S trying)
      → Failed rest
      → (after S trying failure true w rest).0 ≡ ok not_fully
  Failed-after none w rest h = h w
  Failed-after (some e) w rest h = h w

  Failed-assign : (vf_paths : List Bytes) → Failed (assign_nodes S trying vf_paths)
  unfolding assign_nodes
  Failed-assign vf_paths w = ground arith

  Failed-find : (pf : PfDevice) → Failed (find_vfs S trying pf)
  unfolding find_vfs
  Failed-find pf w = grind (arith, Failed-assign)

  Failed-place : (pf : PfDevice) → Failed (place_pf S trying pf)
  unfolding place_pf
  Failed-place pf w = grind (arith, Failed-find)

  Agree-assign :
      (vf_paths : List Bytes) (w : S.World)
      → Agree (assign_nodes S strict vf_paths false w) (assign_nodes S trying vf_paths false w)
  unfolding assign_nodes
  Agree-assign vf_paths w = ground arith

  Agree-find :
      (pf : PfDevice) (w : S.World)
      → Agree (find_vfs S strict pf false w) (find_vfs S trying pf false w)
  unfolding find_vfs
  Agree-find pf w = grind (arith, Agree-assign)

  Agree-place :
      (pf : PfDevice) (w : S.World)
      → Agree (place_pf S strict pf false w) (place_pf S trying pf false w)
  unfolding place_pf
  Agree-place pf w = grind (arith, Agree-find, Failed-find)

  Agree-configure :
      (pf : PfDevice) (w : S.World) → Agree (configure S strict pf w) (configure S trying pf w)
  unfolding configure
  Agree-configure pf w = grind (arith, Agree-place, Failed-place)

  Agree-run : (w : S.World) → Agree (run S strict w) (run S trying w)
  unfolding run
  Agree-run w = grind (arith, Agree-configure)

  Agree-never_fails :
      (r : Ended S strict) (t : Ended S trying)
      → Agree r t
      → (t.0 ≡ ok succeeded) ⊎ (t.0 ≡ ok not_fully)
  Agree-never_fails (ok end, u) t h = inl (ap (λ p. p.0) h.1)
  Agree-never_fails (err e, u) t h = inr h

  Agree-iff :
      (r : Ended S strict) (t : Ended S trying) (u : S.World)
      → Agree r t
      → (r ≡ (ok quiet, u)) ↔ (t ≡ (ok succeeded, u))
  Agree-iff (ok end, v) t u h = ground arith
  Agree-iff (err e, v) t u h = ground arith

  -- In try mode the command never fails: it ends with one of the two messages.
  pub run_try :
      (w : S.World) → ((run S trying w).0 ≡ ok succeeded) ⊎ ((run S trying w).0 ≡ ok not_fully)
  run_try w = Agree-never_fails (run S strict w) (run S trying w) (Agree-run w)

  -- The command reports success in try mode exactly where it succeeds without the mode, with the
  -- same state at the end: a step that failed is never taken for a success.
  pub run_try_iff :
      (w w' : S.World) → (run S strict w ≡ (ok quiet, w')) ↔ (run S trying w ≡ (ok succeeded, w'))
  run_try_iff w w' = Agree-iff (run S strict w) (run S trying w) w' (Agree-run w)
