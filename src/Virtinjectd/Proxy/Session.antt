-- ===== src/Virtinjectd/Proxy/Session.antt =====
-- A connection of virtinjectd/proxy.go with its data: the machine of `handleConnection`, whose two
-- goroutines run the rounds of `forward` in any order, upwards with a processor and downwards with
-- `passthrough`.
pub mod Prefix
pub mod Exact
pub mod Whole
pub mod Control
use dra_driver_integration_e.Base.{◌≡◌, Bool, true, false, ◌&&◌, Bytes}
use dra_driver_integration_e.Virtinjectd.Protocol.{Header, Source, Sink}
use dra_driver_integration_e.Virtinjectd.Proxy.{Stopped, passthrough}
use dra_driver_integration_e.Virtinjectd.Proxy.Round.{halt, pass, round}
use dra_driver_integration_e.Virtinjectd.Proxy.Behind.{Less}
use dra_driver_integration_e.Virtinjectd.Proxy.Connection
use dra_driver_integration_e.Virtinjectd.Proxy.Connection.{
  Connection, to_upstream, to_client, Stage, forwarding, closing_client, set_stage, connect,
}

-- What one direction has yet to read, and what it has written.
pub record Half : Type 0 where
  pub source : Source
  pub sink : Sink

pub record Session (W : Type 0) : Type 0 where
  pub control : Connection
  pub world : W
  pub up : Half
  pub down : Half

abbrev pub is_forwarding : Stage → Bool
is_forwarding forwarding = true
is_forwarding _ = false

abbrev pub is_open : Connection → Bool
is_open c = c.client_open && c.upstream_open

-- Once the upstream has been dialled.
abbrev pub opened : {W : Type 0} → W → Half → Half → Session W
opened w up down = record { control = connect true; world = w; up = up; down = down }

-- A round that hands on relays a message; one that returns ends its goroutine's forwarding. Once a
-- connection is closed, what a goroutine may still read and write is cut, at any place: a message
-- that was read before may be written yet, in whole, in part or not at all. The other steps are
-- those of the machine.
pub data Step {W : Type 0} (processor : W → Header → Bytes → Bytes × W) (s s' : Session W)
    : Type 0 where
  relay_up :
      (w : W) (src : Source) (dst : Sink)
      → s.control.upward ≡ forwarding
      → round processor s.world s.up.source s.up.sink ≡ pass w src dst
      → s' ≡ record s { world = w; up = record { source = src; sink = dst } }
      → Step processor s s'
  relay_down :
      (src : Source) (dst : Sink)
      → s.control.downward ≡ forwarding
      → round passthrough tt s.down.source s.down.sink ≡ pass (tt {0}) src dst
      → s' ≡ record s { down = record { source = src; sink = dst } }
      → Step processor s s'
  fail_up :
      (r : Stopped W)
      → s.control.upward ≡ forwarding
      → round processor s.world s.up.source s.up.sink ≡ halt r
      → s' ≡ record s {
        control = set_stage to_upstream closing_client s.control;
        world = r.world;
        up = record { source = r.source; sink = r.sink };
      }
      → Step processor s s'
  fail_down :
      (r : Stopped (Unit {0}))
      → s.control.downward ≡ forwarding
      → round passthrough tt s.down.source s.down.sink ≡ halt r
      → s' ≡ record s {
        control = set_stage to_client closing_client s.control;
        down = record { source = r.source; sink = r.sink };
      }
      → Step processor s s'
  cut_up :
      (src : Source) (dst : Sink)
      → s.control.upward ≡ forwarding
      → is_open s.control ≡ false
      → Less src dst s.up.source s.up.sink
      → s' ≡ record s { up = record { source = src; sink = dst } }
      → Step processor s s'
  cut_down :
      (src : Source) (dst : Sink)
      → s.control.downward ≡ forwarding
      → is_open s.control ≡ false
      → Less src dst s.down.source s.down.sink
      → s' ≡ record s { down = record { source = src; sink = dst } }
      → Step processor s s'
  close :
      (c : Connection)
      → Connection.Step s.control c
      → is_forwarding c.upward ≡ is_forwarding s.control.upward
      → is_forwarding c.downward ≡ is_forwarding s.control.downward
      → s' ≡ record s { control = c }
      → Step processor s s'

pub data Reach {W : Type 0} (processor : W → Header → Bytes → Bytes × W) (s : Session W)
    : Session W → Type 0 where
  here : Reach processor s s
  next : {t u : Session W} → Reach processor s t → Step processor t u → Reach processor s u
