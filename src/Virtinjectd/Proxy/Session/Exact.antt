-- ===== src/Virtinjectd/Proxy/Session/Exact.antt =====
-- One direction of a session that has lost nothing, and the steps that close a connection.
use dra_driver_integration_e.Base.{
  ◌≡◌, sym, ap, ◌∙◌, ◌⊎◌, inl, inr, true, false, some, arith, Bytes,
}
use dra_driver_integration_e.Virtinjectd.Protocol.{Header, Source, Sink}
use dra_driver_integration_e.Virtinjectd.Proxy.{Stopped, forward}
use dra_driver_integration_e.Virtinjectd.Proxy.Round.{halt, pass, round, forward-round}
use dra_driver_integration_e.Virtinjectd.Proxy.Connection
use dra_driver_integration_e.Virtinjectd.Proxy.Connection.{
  Connection, to_upstream, to_client, Stage, forwarding, closing_client,
}
use dra_driver_integration_e.Virtinjectd.Proxy.Session.{Half, is_forwarding, is_open}

module _ {V : Type 0} (processor : V → Header → Bytes → Bytes × V) where
  -- A direction has written all that `forward` writes, or is on the way to it.
  pub record IsExact (st : Stage) (v : V) (h : Half) (r : Stopped V) : Type 0 where
    pub ahead : is_forwarding st ≡ true → forward processor v h.source h.sink ≡ some r
    pub whole : is_forwarding st ≡ false → h.sink ≡ r.sink

  pub relay-IsExact :
      {st : Stage} {v v' : V} {h : Half} {r : Stopped V} {src : Source} {dst : Sink}
      → st ≡ forwarding
      → round processor v h.source h.sink ≡ pass v' src dst
      → IsExact st v h r
      → IsExact st v' (record { source = src; sink = dst }) r
  relay-IsExact {st} {v} {v'} {h} {r} {src} {dst} f e x =
      let before = x.ahead (ap is_forwarding f) in
      record {
        ahead = λ _. ground (arith, forward-round processor v h.source h.sink);
        whole = λ p. absurd (ground arith);
      }

  pub stop-IsExact :
      {st : Stage} {v : V} {h : Half} {r s : Stopped V}
      → st ≡ forwarding
      → round processor v h.source h.sink ≡ halt s
      → IsExact st v h r
      → IsExact closing_client s.world (record { source = s.source; sink = s.sink }) r
  stop-IsExact {st} {v} {h} {r} {s} f e x =
      let before = x.ahead (ap is_forwarding f) in
      record {
        ahead = λ p. absurd (ground arith);
        whole = λ _. ground (arith, forward-round processor v h.source h.sink);
      }

  pub stage-IsExact :
      {st st' : Stage} {v : V} {h : Half} {r : Stopped V}
      → is_forwarding st' ≡ is_forwarding st
      → IsExact st v h r
      → IsExact st' v h r
  stage-IsExact same x = record {
    ahead = λ p. x.ahead (sym same ∙ p);
    whole = λ p. x.whole (sym same ∙ p);
  }

-- A goroutine that is done forwarding, with all that its direction should write.
abbrev pub IsWhole : {V : Type 0} → Stage → Half → Stopped V → Type 0
IsWhole st h r = (is_forwarding st ≡ false) × (h.sink ≡ r.sink)

-- A step that closes a connection is one of a goroutine which is done forwarding.
pub Step-closes :
    {c d : Connection}
    → Connection.Step c d
    → is_open c ≡ true
    → is_open d ≡ false
    → is_forwarding d.upward ≡ is_forwarding c.upward
    → is_forwarding d.downward ≡ is_forwarding c.downward
    → (is_forwarding c.upward ≡ false) ⊎ (is_forwarding c.downward ≡ false)
Step-closes (Connection.relay s a o p e) h k u v = absurd (ground arith)
Step-closes (Connection.fail to_upstream a e) h k u v = absurd (ground arith)
Step-closes (Connection.fail to_client a e) h k u v = absurd (ground arith)
Step-closes (Connection.close_client to_upstream a e) h k u v = inl (ground arith)
Step-closes (Connection.close_client to_client a e) h k u v = inr (ground arith)
Step-closes (Connection.close_upstream to_upstream a e) h k u v = inl (ground arith)
Step-closes (Connection.close_upstream to_client a e) h k u v = inr (ground arith)
Step-closes (Connection.join a b r e) h k u v = inl (ground arith)

-- A closed connection is not opened again.
pub Step-shut : {c d : Connection} → Connection.Step c d → is_open c ≡ false → is_open d ≡ false
Step-shut (Connection.relay s a o p e) h = ground arith
Step-shut (Connection.fail to_upstream a e) h = ground arith
Step-shut (Connection.fail to_client a e) h = ground arith
Step-shut (Connection.close_client to_upstream a e) h = ground arith
Step-shut (Connection.close_client to_client a e) h = ground arith
Step-shut (Connection.close_upstream to_upstream a e) h = ground arith
Step-shut (Connection.close_upstream to_client a e) h = ground arith
Step-shut (Connection.join a b r e) h = ground arith
