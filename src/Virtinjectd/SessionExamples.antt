-- ===== src/Virtinjectd/SessionExamples.antt =====
-- A session whose client sends a message and goes away while the upstream's answer is cut, and the
-- theorems on it.
use dra_driver_integration_e.Base.{
  ℕ, ◌≡◌, refl, ◌⊎◌, true, false, some, [], ◌∷◌, replicate, drop, arith, All, Bytes, IsByte,
}
use dra_driver_integration_e.Virtinjectd.Protocol.{
  Source, Sink, eof, net_closed, reading_length, read_message, write_message, read_full,
  split_message, parse_header, message_buffer, sink_write, marshal_header,
}
use dra_driver_integration_e.Virtinjectd.Uint32.{be_uint32, put_uint32}
use dra_driver_integration_e.Virtinjectd.Proxy.{Stopped, passthrough, forward}
use dra_driver_integration_e.Virtinjectd.Proxy.Round.{round}
use dra_driver_integration_e.Virtinjectd.Proxy.Behind.{IsPrefix}
use dra_driver_integration_e.Virtinjectd.Proxy.Connection
use dra_driver_integration_e.Virtinjectd.Proxy.Connection.{
  Connection, to_upstream, forwarding, closing_client, closing_upstream, connect,
}
use dra_driver_integration_e.Virtinjectd.Proxy.Session.{
  Half, Session, is_open, opened, Step, relay_up, fail_up, cut_down, close, Reach, here, next,
}
use dra_driver_integration_e.Virtinjectd.Proxy.Session.Prefix.{Reach-forward}
use dra_driver_integration_e.Virtinjectd.Proxy.Session.Whole.{Reach-whole}

-- A message without a payload.
abbrev message : Bytes
message = 0 ∷ 0 ∷ 0 ∷ 28 ∷ replicate 24 7

abbrev empty : Sink
empty = record { written = []; room = 100; broken = net_closed }

abbrev holding : Bytes → Half
holding bytes = record { source = record { unread = bytes; ending = eof }; sink = empty }

abbrev sent : Sink
sent = record { written = message; room = 72; broken = net_closed }

abbrev end : Source
end = record { unread = []; ending = eof }

abbrev forwarded : Stopped ℕ
forwarded = record { reason = reading_length eof; source = end; sink = sent; world = 5 }

abbrev answered : Stopped (Unit {0})
answered = record { reason = reading_length eof; source = end; sink = sent; world = tt }

abbrev cut_off : Source
cut_off = record { unread = 0 ∷ 0 ∷ []; ending = net_closed }

-- The client's goroutine has closed the client's connection.
abbrev client_gone : Session ℕ
client_gone = record {
  control = record {
    client_open = false;
    upstream_open = true;
    upward = closing_upstream;
    downward = forwarding;
    returned = false;
  };
  world = 5;
  up = record { source = end; sink = sent };
  down = record { source = cut_off; sink = empty };
}

up_forwards :
    forward passthrough 5 (record { unread = message; ending = eof }) empty ≡ some forwarded
unfolding forward passthrough read_message write_message read_full split_message parse_header
    message_buffer sink_write marshal_header be_uint32 put_uint32
up_forwards = refl

down_forwards :
    forward passthrough tt (record { unread = message; ending = eof }) empty ≡ some answered
unfolding forward passthrough read_message write_message read_full split_message parse_header
    message_buffer sink_write marshal_header be_uint32 put_uint32
down_forwards = refl

relayed :
    Step {W = ℕ} passthrough
      (opened 5 (holding message) (holding message))
      (record (opened 5 (holding message) (holding message)) {
        up = record { source = end; sink = sent };
      })
unfolding connect round passthrough read_message write_message read_full split_message parse_header
    message_buffer sink_write marshal_header be_uint32 put_uint32
relayed = relay_up 5 end sent refl refl refl

failed :
    Step {W = ℕ} passthrough
      (record (opened 5 (holding message) (holding message)) {
        up = record { source = end; sink = sent };
      })
      (record client_gone {
        control = record (connect true) { upward = closing_client };
        down = holding message;
      })
unfolding connect round read_message read_full
failed = fail_up forwarded refl refl refl

closed :
    Step {W = ℕ} passthrough
      (record client_gone {
        control = record (connect true) { upward = closing_client };
        down = holding message;
      })
      (record client_gone { down = holding message })
unfolding connect
closed = close client_gone.control (Connection.close_client to_upstream refl refl) refl refl refl

cut : Step {W = ℕ} passthrough (record client_gone { down = holding message }) client_gone
cut =
    cut_down cut_off empty refl refl
      (record { unread = (drop 2 message, refl); written = refl; room = omega arith }) refl

reached : Reach {W = ℕ} passthrough (opened 5 (holding message) (holding message)) client_gone
reached = next (next (next (next here relayed) failed) closed) cut

message_bytes : All IsByte message
message_bytes = omega arith

Reach-forward_example :
    IsPrefix client_gone.up.sink.written forwarded.sink.written
    × IsPrefix client_gone.down.sink.written answered.sink.written
Reach-forward_example =
    Reach-forward passthrough 5 (holding message) (holding message) forwarded answered client_gone
      message_bytes message_bytes up_forwards down_forwards reached

Reach-whole_example :
    ((is_open client_gone.control ≡ false)
      × ((client_gone.up.sink ≡ forwarded.sink) ⊎ (client_gone.down.sink ≡ answered.sink)))
    ⊎ ((is_open client_gone.control ≡ true)
        × ((client_gone.control.upward ≡ forwarding) ⊎ (client_gone.up.sink ≡ forwarded.sink))
        × ((client_gone.control.downward ≡ forwarding) ⊎ (client_gone.down.sink ≡ answered.sink)))
Reach-whole_example =
    Reach-whole passthrough 5 (holding message) (holding message) forwarded answered client_gone
      up_forwards down_forwards reached
