-- ===== src/Driver/Cpu/Settings.antt =====
-- driver/cpu/main.go: the modes that the flags let through to the driver.
use dra_driver_integration_e.Base.{
  ◌≡◌, refl, ◌≢◌, ◌⊎◌, inl, inr, List, [], ◌∷◌, arith, Result, ok, err, Bytes, eq_bytes_iff, All,
  Member, Member-All,
}
use dra_driver_integration_e.Driver.Cpu.{
  driver_name, Globals, Words, ValueError, invalid_value, set_cpu_device_mode, set_group_by, init,
  Setting, kubeconfig, hostname_override, bind_address, reserved_cpus, cpu_device_mode, group_by,
  log_flag, apply_setting, parse_flags, DriverConfig, Call, start_driver, Answers, client_config,
  finish, main,
}

-- Both modes are words of the driver's.
abbrev pub IsKnown : Words → Bytes → Bytes → Type 0
IsKnown words mode group =
    ((mode ≡ words.grouped) ⊎ (mode ≡ words.individual))
    × ((group ≡ words.socket) ⊎ (group ≡ words.numa_node))

set_cpu_device_mode-IsKnown :
    (words : Words) (g g' : Globals) (s : Bytes)
    → IsKnown words g.cpu_device_mode g.group_by
    → set_cpu_device_mode words g s ≡ ok g'
    → IsKnown words g'.cpu_device_mode g'.group_by
unfolding set_cpu_device_mode
set_cpu_device_mode-IsKnown words g g' s h p =
    ground (arith, eq_bytes_iff s words.grouped, eq_bytes_iff s words.individual)

set_group_by-IsKnown :
    (words : Words) (g g' : Globals) (s : Bytes)
    → IsKnown words g.cpu_device_mode g.group_by
    → set_group_by words g s ≡ ok g'
    → IsKnown words g'.cpu_device_mode g'.group_by
unfolding set_group_by
set_group_by-IsKnown words g g' s h p =
    ground (arith, eq_bytes_iff s words.socket, eq_bytes_iff s words.numa_node)

apply_setting-IsKnown :
    (words : Words) (g g' : Globals) (s : Setting)
    → IsKnown words g.cpu_device_mode g.group_by
    → apply_setting words g s ≡ ok g'
    → IsKnown words g'.cpu_device_mode g'.group_by
unfolding apply_setting
apply_setting-IsKnown words g g' (kubeconfig s) h p = ground arith
apply_setting-IsKnown words g g' (hostname_override s) h p = ground arith
apply_setting-IsKnown words g g' (bind_address s) h p = ground arith
apply_setting-IsKnown words g g' (reserved_cpus s) h p = ground arith
apply_setting-IsKnown words g g' (cpu_device_mode s) h p =
    set_cpu_device_mode-IsKnown words g g' s h p
apply_setting-IsKnown words g g' (group_by s) h p = set_group_by-IsKnown words g g' s h p
apply_setting-IsKnown words g g' (log_flag s) h p = ground arith

parse_flags-IsKnown :
    (words : Words) (g g' : Globals) (settings : List Setting)
    → IsKnown words g.cpu_device_mode g.group_by
    → parse_flags words g settings ≡ ok g'
    → IsKnown words g'.cpu_device_mode g'.group_by
unfolding parse_flags
parse_flags-IsKnown words g g' [] h p = ground arith
parse_flags-IsKnown words g g' (s ∷ settings) h p =
    go (λ k. parse_flags-IsKnown words k g' settings) (apply_setting words g s) refl
  where
    go :
        ((k : Globals)
          → IsKnown words k.cpu_device_mode k.group_by
          → parse_flags words k settings ≡ ok g'
          → IsKnown words g'.cpu_device_mode g'.group_by)
        → (r : Result ValueError Globals) → apply_setting words g s ≡ r
        → IsKnown words g'.cpu_device_mode g'.group_by
    go ih (err e) q = absurd (ground arith)
    go ih (ok k) q = ih k (apply_setting-IsKnown words g k s h q) (ground arith)

-- What the call to start the driver carries.
StartsWith : {CpuSet : Type 0} → Answers CpuSet → Globals → Call CpuSet → Type 0
StartsWith answers g (start_driver config) =
    (config.driver_name ≡ driver_name)
    × (config.cpu_device_mode ≡ g.cpu_device_mode)
    × (config.cpu_device_group_by ≡ g.group_by)
    × (answers.cpus g.reserved_cpus ≡ ok config.reserved_cpus)
    × (answers.hostname g.hostname_override ≡ ok config.node_name)
StartsWith answers g c = Unit

module _ {CpuSet : Type 0} (answers : Answers CpuSet) (g : Globals) where
  main-StartsWith : All (StartsWith answers g) (main answers g).0
  unfolding main StartsWith client_config finish
  main-StartsWith = ground arith

-- Whatever flags the command line sets, in whatever order, and refused values included: where main
-- starts the driver, both of its modes are words that the driver knows, its CPUs are those that the
-- text of --reserved-cpus was parsed to, and its node is the host that was found for
-- --hostname-override.
pub main-IsKnown :
    {CpuSet : Type 0} (words : Words) (settings : List Setting) (g : Globals)
    (answers : Answers CpuSet) (config : DriverConfig CpuSet)
    → parse_flags words (init words) settings ≡ ok g
    → Member (start_driver config) (main answers g).0
    → IsKnown words config.cpu_device_mode config.cpu_device_group_by
      × (answers.cpus g.reserved_cpus ≡ ok config.reserved_cpus)
      × (answers.hostname g.hostname_override ≡ ok config.node_name)
unfolding StartsWith init
main-IsKnown words settings g answers config p m =
    let known : IsKnown words g.cpu_device_mode g.group_by =
      parse_flags-IsKnown words (init words) g settings (inl refl, inr refl) p in
    let (_, mode, group, cpus, host) =
      Member-All (StartsWith answers g) (start_driver config) (main answers g).0
        (main-StartsWith answers g) m in
    (rw (mode, group) known, cpus, host)

apply_setting_refused :
    (words : Words) (g : Globals) (x : Setting) (s a b : Bytes)
    → apply_setting words g x ≡ err (invalid_value s a b)
    → (s ≢ a) × (s ≢ b)
unfolding apply_setting set_cpu_device_mode set_group_by
apply_setting_refused words g (cpu_device_mode t) s a b e =
    ground (arith, eq_bytes_iff t words.grouped, eq_bytes_iff t words.individual)
apply_setting_refused words g (group_by t) s a b e =
    ground (arith, eq_bytes_iff t words.socket, eq_bytes_iff t words.numa_node)
apply_setting_refused words g (kubeconfig t) s a b e = absurd (ground arith)
apply_setting_refused words g (hostname_override t) s a b e = absurd (ground arith)
apply_setting_refused words g (bind_address t) s a b e = absurd (ground arith)
apply_setting_refused words g (reserved_cpus t) s a b e = absurd (ground arith)
apply_setting_refused words g (log_flag t) s a b e = absurd (ground arith)

-- A process that a flag ends names the value that was refused, which is none of the two that it
-- lists.
parse_flags_refused :
    (words : Words) (g : Globals) (settings : List Setting) (s a b : Bytes)
    → parse_flags words g settings ≡ err (invalid_value s a b)
    → (s ≢ a) × (s ≢ b)
unfolding parse_flags
parse_flags_refused words g [] s a b p = absurd (ground arith)
parse_flags_refused words g (x ∷ settings) s a b p =
    go (λ k. parse_flags_refused words k settings s a b) (apply_setting words g x) refl
  where
    go :
        ((k : Globals)
          → parse_flags words k settings ≡ err (invalid_value s a b)
          → (s ≢ a) × (s ≢ b))
        → (r : Result ValueError Globals) → apply_setting words g x ≡ r
        → (s ≢ a) × (s ≢ b)
    go ih (ok k) q = ih k (ground arith)
    go ih (err e) q = apply_setting_refused words g x s a b (ground arith)
