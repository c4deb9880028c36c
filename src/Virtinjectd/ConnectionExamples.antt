-- ===== src/Virtinjectd/ConnectionExamples.antt =====
-- Connections that are accepted, one whose client goes away, and the theorems on them.

use dra_driver_integration_e.Virtinjectd.Protocol.{GoError, net_closed, other}
use dra_driver_integration_e.Virtinjectd.Proxy.{is_connection_closed, accept_loop}
use dra_driver_integration_e.Virtinjectd.Proxy.Accept.{GoesOn, accept_loop_lem}
use dra_driver_integration_e.Base.{
  ℕ, List, ◌∷◌, Result, ok, err, codes, ◌++◌, contains, [], has_prefix, ◌≡◌, refl, true, false, not,
  ◌&&◌, ◌||◌,
}
use dra_driver_integration_e.Virtinjectd.Proxy.Connection.{
  Connection, to_upstream, forwarding, closing_upstream, finished, connect, fail, close_client,
  close_upstream, Reach, here, next, past_upstream, Reach-closed,
}
use dra_driver_integration_e.Virtinjectd.Proxy.Connection.Returning.{
  SureStep, progress, Returns, Reach-Returns,
}

-- The client goes away: its goroutine fails and closes the client's connection.
abbrev client_gone : Connection
client_gone = record {
  client_open = false;
  upstream_open = true;
  upward = closing_upstream;
  downward = forwarding;
  returned = false;
}

reached : Reach (connect true) 2 client_gone
unfolding connect
reached = next (next here (fail to_upstream refl refl)) (close_client to_upstream refl refl)

Reach-closed_example :
    (client_gone.returned
        && (client_gone.client_open
            || client_gone.upstream_open
            || not (past_upstream client_gone.upward && past_upstream client_gone.downward))
      ≡ false)
    × ((past_upstream client_gone.upward || past_upstream client_gone.downward)
          && (client_gone.client_open || client_gone.upstream_open)
        ≡ false)
Reach-closed_example = Reach-closed true reached

-- The client's goroutine is done, and the other waits for libvirtd.
abbrev one_done : Connection
one_done = record client_gone { upstream_open = false; upward = finished }

waiting : Reach (connect true) 3 one_done
waiting = next reached (close_upstream to_upstream refl refl)

progress_example : SureStep one_done
progress_example = progress true waiting refl refl

Reach-Returns_example : Returns one_done 6
Reach-Returns_example = Reach-Returns true waiting refl

-- Two connections with an error between them, and one that comes too late.
abbrev accepts : List (Result GoError ℕ)
accepts = ok 1 ∷ err (other (codes "too many open files")) ∷ ok 2 ∷ []

accepts-GoesOn : GoesOn accepts
unfolding is_connection_closed contains has_prefix
accepts-GoesOn = (refl, tt)

accept_loop_lem_example : accept_loop (accepts ++ (err net_closed ∷ ok 3 ∷ [])) ≡ (1 ∷ 2 ∷ [], true)
accept_loop_lem_example =
    accept_loop_lem accepts (ok 3 ∷ []) net_closed accepts-GoesOn
      (unfold is_connection_closed in refl)
