-- ===== src/Virtinjectd/Proxy/Session/Control.antt =====
-- A session, its data left out, is a run of the connection's machine: what holds of the one's
-- closing holds of the other's.
use dra_driver_integration_e.Base.{ℕ, suc, ◌≡◌, refl, sym, true, false, arith, Bytes}
use mathlib.Core.Path.{subst}
use dra_driver_integration_e.Virtinjectd.Protocol.{Header}
use dra_driver_integration_e.Virtinjectd.Proxy.Connection
use dra_driver_integration_e.Virtinjectd.Proxy.Connection.{
  Connection, to_upstream, to_client, Reach-closed,
}
use dra_driver_integration_e.Virtinjectd.Proxy.Session.{
  Half, Session, opened, Step, relay_up, relay_down, fail_up, fail_down, cut_up, cut_down, close,
  Reach, here, next,
}

abbrev pub Run : Connection → Connection → Type 0
Run c d = (n : ℕ) × Connection.Reach c n d

Run-next : {c d e : Connection} → Run c d → Connection.Step d e → Run c e
Run-next (n, r) st = (suc n, Connection.next r st)

module _ {W : Type 0} {processor : W → Header → Bytes → Bytes × W} where
  Step-control :
      (c : Connection) {s t : Session W} → Run c s.control → Step processor s t → Run c t.control
  Step-control c {s} run (relay_up w src dst f e same) = subst (λ u. Run c u.control) (sym same) run
  Step-control c {s} run (relay_down src dst f e same) = subst (λ u. Run c u.control) (sym same) run
  Step-control c {s} run (fail_up r f e same) =
      subst (λ u. Run c u.control) (sym same) (Run-next run (Connection.fail to_upstream f refl))
  Step-control c {s} run (fail_down r f e same) =
      subst (λ u. Run c u.control) (sym same) (Run-next run (Connection.fail to_client f refl))
  Step-control c {s} run (cut_up src dst f o less same) =
      subst (λ u. Run c u.control) (sym same) run
  Step-control c {s} run (cut_down src dst f o less same) =
      subst (λ u. Run c u.control) (sym same) run
  Step-control c {s} run (close d st u v same) =
      subst (λ u. Run c u.control) (sym same) (Run-next run st)

  pub Reach-control : {s t : Session W} → Reach processor s t → Run s.control t.control
  Reach-control here = (0, Connection.here)
  Reach-control (next r st) = Step-control _ (Reach-control r) st

-- A session whose `handleConnection` has returned has both connections closed.
pub Reach-returned :
    {W : Type 0} (processor : W → Header → Bytes → Bytes × W) (w : W) (up down : Half)
    (s : Session W)
    → Reach processor (opened w up down) s
    → s.control.returned ≡ true
    → (s.control.client_open ≡ false) × (s.control.upstream_open ≡ false)
Reach-returned processor w up down s r h =
    let (n, run) = Reach-control r in
    let (closed, _) = Reach-closed true run in (ground arith, ground arith)
