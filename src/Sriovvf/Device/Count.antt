-- ===== src/Sriovvf/Device/Count.antt =====
-- `setNumVFs`: the writes to the number of functions.
use dra_driver_integration_e.Base.{
  ◌≡◌, refl, ◌⊎◌, inl, inr, true, false, Option, none, some, arith, Bool-cases, codes,
}
use dra_driver_integration_e.Base.Int.{ℤ, pos, ltb_ℤ, eq_ℤ, eq_ℤ_iff}
use dra_driver_integration_e.Sriovvf.{PfDevice, FsError, Sysfs, write_int_to_file}
use dra_driver_integration_e.Sriovvf.Device.{file_of, configure_count, set_num_vfs}

module _ (S : Sysfs) (w : S.World) where
  -- What `setNumVFs` may have written when it succeeds.
  pub record WasSet (pf : PfDevice) (requested : ℤ) (w' : S.World) : Type 0 where
    pub between : S.World
    pub reset :
        (eq_ℤ pf.current_vfs requested ≡ false)
        × (((ltb_ℤ (pos 0) pf.current_vfs ≡ false) × (between ≡ w))
            ⊎ (write_int_to_file S w (file_of pf.path (codes "sriov_numvfs")) (pos 0)
                ≡ (none, between)))
    pub written :
        write_int_to_file S between (file_of pf.path (codes "sriov_numvfs")) requested ≡ (none, w')

  configure_count_ok :
      (v : S.World) (pf : PfDevice) (requested : ℤ) (w' : S.World)
      → configure_count S v pf requested ≡ (none, w')
      → write_int_to_file S v (file_of pf.path (codes "sriov_numvfs")) requested ≡ (none, w')
  unfolding configure_count
  configure_count_ok v pf requested w' h =
      go (write_int_to_file S v (file_of pf.path (codes "sriov_numvfs")) requested).0
        (write_int_to_file S v (file_of pf.path (codes "sriov_numvfs")) requested).1 refl
    where
      go :
          (f : Option FsError) (u : S.World)
          → write_int_to_file S v (file_of pf.path (codes "sriov_numvfs")) requested ≡ (f, u)
          → write_int_to_file S v (file_of pf.path (codes "sriov_numvfs")) requested ≡ (none, w')
      go none u p = ground arith
      go (some e) u p = absurd (ground arith)

  -- When the number of functions is set without an error, it was right already and nothing was
  -- written, or the last write is that of the number asked for; where there were functions before,
  -- a write of 0 that succeeded stands in front of it.
  pub set_num_vfs_ok :
      (pf : PfDevice) (requested : ℤ) (w' : S.World)
      → set_num_vfs S w pf requested ≡ (none, w')
      → ((pf.current_vfs ≡ requested) × (w' ≡ w)) ⊎ WasSet pf requested w'
  unfolding set_num_vfs
  set_num_vfs_ok pf requested w' h = elim (Bool-cases (eq_ℤ pf.current_vfs requested)) [
    | inl same ↦ inl ((eq_ℤ_iff pf.current_vfs requested).0 same, ground arith)
    | inr other ↦ elim (Bool-cases (ltb_ℤ (pos 0) pf.current_vfs)) [
      | inr fresh ↦ inr (record {
        between = w;
        reset = (other, inl (fresh, refl));
        written = configure_count_ok w pf requested w' (ground arith);
      })
      | inl used ↦
          let target = file_of pf.path (codes "sriov_numvfs") in
          go other used (write_int_to_file S w target (pos 0)).0
            (write_int_to_file S w target (pos 0)).1 refl
    ]
  ]
    where
      go :
          eq_ℤ pf.current_vfs requested ≡ false
          → ltb_ℤ (pos 0) pf.current_vfs ≡ true
          → (f : Option FsError) (u : S.World)
          → write_int_to_file S w (file_of pf.path (codes "sriov_numvfs")) (pos 0) ≡ (f, u)
          → ((pf.current_vfs ≡ requested) × (w' ≡ w)) ⊎ WasSet pf requested w'
      go other used (some e) u p = absurd (ground arith)
      go other used none u p = inr (record {
        between = u;
        reset = (other, inr p);
        written = configure_count_ok u pf requested w' (ground arith);
      })
