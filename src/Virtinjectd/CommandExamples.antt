-- ===== src/Virtinjectd/CommandExamples.antt =====
-- A start of the proxy, and the theorem on it.
use dra_driver_integration_e.Base.{ℕ, ◌+◌, ◌≡◌, refl, ◌⊎◌, none, some, [], ok, codes, eq_bytes}
use dra_driver_integration_e.Base.Int.{pos}
use dra_driver_integration_e.Virtinjectd.Hook.{HookChain, new_hook_chain}
use dra_driver_integration_e.Virtinjectd.HookExamples.{small_system, both}
use dra_driver_integration_e.Virtinjectd.Command.{
  Flags, Sockets, missing, exit, serving, start, IsRemoved, start_lem,
}

-- A path at which there is no stale socket.
abbrev no_socket : Sockets ℕ
no_socket = record {
  remove = λ w path. (some (missing (codes "no such file")), w);
  listen = λ w path. (none, w + 100);
  close = λ w. w;
}

abbrev flags : Flags
flags = record {
  listen = codes "/tmp/proxy.sock";
  upstream = codes "/run/libvirt.sock";
  hook = codes "/one";
  hook_dir = codes "/h";
  hook_domain_name = [];
  verbosity = pos 1;
}

started : start small_system no_socket 0 flags ≡ (serving both, 100)
unfolding start new_hook_chain eq_bytes
started = refl

start_lem_example :
    ((serving both ≡ exit 1)
      × ((◌≡◌ {A = ℕ} 100 0)
          ⊎ ((hooks : HookChain) × (new_hook_chain small_system 0 (codes "/one") (codes "/h") []
                ≡ ok hooks))))
    ⊎ ((hooks : HookChain) × (serving both ≡ serving hooks)
        × (new_hook_chain small_system 0 (codes "/one") (codes "/h") [] ≡ ok hooks)
        × IsRemoved small_system no_socket 0 (codes "/tmp/proxy.sock")
        × (no_socket.listen 0 (codes "/tmp/proxy.sock") ≡ (none, 100)))
start_lem_example = start_lem small_system no_socket 0 flags (serving both) 100 started
