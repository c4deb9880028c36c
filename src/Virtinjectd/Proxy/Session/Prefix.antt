-- ===== src/Virtinjectd/Proxy/Session/Prefix.antt =====
-- Whatever the order of the steps, each direction of a connection has written a prefix of what
-- `forward` writes.
use dra_driver_integration_e.Base.{◌≡◌, sym, ap, ◌∙◌, true, some, arith, All, Bytes, IsByte}
use mathlib.Core.Path.{subst}
use dra_driver_integration_e.Virtinjectd.Protocol.{Header, Source, Sink}
use dra_driver_integration_e.Virtinjectd.Proxy.{Stopped, passthrough, forward}
use dra_driver_integration_e.Virtinjectd.Proxy.Round.{halt, pass, round}
use dra_driver_integration_e.Virtinjectd.Proxy.Behind.{Less, IsPrefix}
use dra_driver_integration_e.Virtinjectd.Proxy.Behind.Rounds.{
  Behind, Behind-here, Behind-stop, Behind-pass, Behind-written, Behind-Less,
}
use dra_driver_integration_e.Virtinjectd.Proxy.Connection.{
  Stage, forwarding, closing_client, connect,
}
use dra_driver_integration_e.Virtinjectd.Proxy.Session.{
  Half, Session, is_forwarding, opened, Step, relay_up, relay_down, fail_up, fail_down, cut_up,
  cut_down, close, Reach, here, next,
}

module _ {V : Type 0} (processor : V → Header → Bytes → Bytes × V) where
  record IsBehind (st : Stage) (v : V) (h : Half) (r : Stopped V) : Type 0 where
    behind : is_forwarding st ≡ true → Behind processor v h.source h.sink r
    written : IsPrefix h.sink.written r.sink.written

  relay-IsBehind :
      {st : Stage} {v v' : V} {h : Half} {r : Stopped V} {src : Source} {dst : Sink}
      → st ≡ forwarding
      → round processor v h.source h.sink ≡ pass v' src dst
      → IsBehind st v h r
      → IsBehind st v' (record { source = src; sink = dst }) r
  relay-IsBehind {st} {v} {v'} {h} {r} {src} {dst} f e b =
      let next_one =
        Behind-pass processor v h.source h.sink r v' src dst (b.behind (ap is_forwarding f)) e in
      record { behind = λ _. next_one; written = Behind-written processor v' src dst r next_one }

  stop-IsBehind :
      {st : Stage} {v : V} {h : Half} {r s : Stopped V}
      → st ≡ forwarding
      → round processor v h.source h.sink ≡ halt s
      → IsBehind st v h r
      → IsBehind closing_client s.world (record { source = s.source; sink = s.sink }) r
  stop-IsBehind {st} {v} {h} {r} {s} f e b = record {
    behind = λ p. absurd (ground arith);
    written = Behind-stop processor v h.source h.sink r s (b.behind (ap is_forwarding f)) e;
  }

  cut-IsBehind :
      {st : Stage} {v : V} {h : Half} {r : Stopped V} {src : Source} {dst : Sink}
      → st ≡ forwarding
      → Less src dst h.source h.sink
      → IsBehind st v h r
      → IsBehind st v (record { source = src; sink = dst }) r
  cut-IsBehind {st} {v} {h} {r} {src} {dst} f less b =
      let next_one =
        Behind-Less processor v h.source h.sink src dst r less (b.behind (ap is_forwarding f)) in
      record { behind = λ _. next_one; written = Behind-written processor v src dst r next_one }

  stage-IsBehind :
      {st st' : Stage} {v : V} {h : Half} {r : Stopped V}
      → is_forwarding st' ≡ is_forwarding st
      → IsBehind st v h r
      → IsBehind st' v h r
  stage-IsBehind same b = record { behind = λ p. b.behind (sym same ∙ p); written = b.written }

module _ {W : Type 0} (processor : W → Header → Bytes → Bytes × W) (up : Stopped W)
    (down : Stopped (Unit {0})) where
  record IsSound (s : Session W) : Type 0 where
    upward : IsBehind processor s.control.upward s.world s.up up
    downward : IsBehind passthrough s.control.downward tt s.down down

  Step-IsSound : {s t : Session W} → Step processor s t → IsSound s → IsSound t
  Step-IsSound {s} (relay_up w src dst f e same) h =
      subst IsSound (sym same)
        (record { upward = relay-IsBehind processor f e h.upward; downward = h.downward })
  Step-IsSound {s} (relay_down src dst f e same) h =
      subst IsSound (sym same)
        (record { upward = h.upward; downward = relay-IsBehind passthrough f e h.downward })
  Step-IsSound {s} (fail_up r f e same) h =
      subst IsSound (sym same)
        (record { upward = stop-IsBehind processor f e h.upward; downward = h.downward })
  Step-IsSound {s} (fail_down r f e same) h =
      subst IsSound (sym same)
        (record { upward = h.upward; downward = stop-IsBehind passthrough f e h.downward })
  Step-IsSound {s} (cut_up src dst f o less same) h =
      subst IsSound (sym same)
        (record { upward = cut-IsBehind processor f less h.upward; downward = h.downward })
  Step-IsSound {s} (cut_down src dst f o less same) h =
      subst IsSound (sym same)
        (record { upward = h.upward; downward = cut-IsBehind passthrough f less h.downward })
  Step-IsSound {s} (close c st u d same) h = subst IsSound (sym same) (record {
    upward = stage-IsBehind processor u h.upward;
    downward = stage-IsBehind passthrough d h.downward;
  })

  Reach-IsSound : {s t : Session W} → IsSound s → Reach processor s t → IsSound t
  Reach-IsSound h here = h
  Reach-IsSound h (next r st) = Step-IsSound st (Reach-IsSound h r)

-- At every moment of a connection, in whatever order its goroutines take their steps and wherever
-- closing the connections cuts them, each direction has written a prefix of the bytes that
-- `forward` writes alone, from what its source holds: with the processor upwards, and with
-- `passthrough` downwards. The sources hold bytes.
pub Reach-forward :
    {W : Type 0} (processor : W → Header → Bytes → Bytes × W) (w : W) (up down : Half)
    (r : Stopped W) (q : Stopped (Unit {0})) (s : Session W)
    → All IsByte up.source.unread
    → All IsByte down.source.unread
    → forward processor w up.source up.sink ≡ some r
    → forward passthrough tt down.source down.sink ≡ some q
    → Reach processor (opened w up down) s
    → IsPrefix s.up.sink.written r.sink.written × IsPrefix s.down.sink.written q.sink.written
unfolding connect
Reach-forward processor w up down r q s ub db uf df reach =
    let start_up = Behind-here processor w up.source up.sink r ub uf in
    let start_down = Behind-here passthrough tt down.source down.sink q db df in
    let start : IsSound processor r q (opened w up down) = record {
      upward = record {
        behind = λ _. start_up;
        written = Behind-written processor w up.source up.sink r start_up;
      };
      downward = record {
        behind = λ _. start_down;
        written = Behind-written passthrough tt down.source down.sink q start_down;
      };
    } in
    let sound = Reach-IsSound processor r q start reach in
    (sound.upward.written, sound.downward.written)
