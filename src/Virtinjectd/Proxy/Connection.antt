-- ===== src/Virtinjectd/Proxy/Connection.antt =====
-- `handleConnection` of virtinjectd/proxy.go as a machine: two goroutines, each of which forwards
-- until it fails, closes both connections and is done, and the function that waits for both.
pub mod Returning
use dra_driver_integration_e.Base.{ℕ, suc, ◌≡◌, Bool, true, false, not, ◌&&◌, ◌||◌, arith}

pub data Side : Type 0 where
  to_upstream to_client : Side

-- Where a goroutine stands: in `forward`, in front of the first `Close`, of the second, at its end.
pub data Stage : Type 0 where
  forwarding closing_client closing_upstream finished : Stage

pub record Connection : Type 0 where
  pub client_open : Bool
  pub upstream_open : Bool
  pub upward : Stage
  pub downward : Stage
  pub returned : Bool

abbrev pub stage : Side → Connection → Stage
stage to_upstream c = c.upward
stage to_client c = c.downward

abbrev pub set_stage : Side → Stage → Connection → Connection
set_stage to_upstream st c = record c { upward = st }
set_stage to_client st c = record c { downward = st }

-- The state once the upstream has been dialled: none if that failed, and the client is closed.
unfoldable pub connect : Bool → Connection
connect true = record {
  client_open = true;
  upstream_open = true;
  upward = forwarding;
  downward = forwarding;
  returned = false;
}
connect false = record {
  client_open = false;
  upstream_open = false;
  upward = finished;
  downward = finished;
  returned = true;
}

-- A goroutine forwards a message only while both connections are open; one that is under way when
-- they are closed is part of the step that fails. `forward` may fail at any time, as its peer may
-- go away; where nothing happens it waits, and it is sure to fail only once both connections are
-- closed. When both are done the function returns, and its deferred calls close both connections.
pub data Step (c c' : Connection) : Type 0 where
  relay :
      (s : Side)
      → stage s c ≡ forwarding
      → c.client_open ≡ true
      → c.upstream_open ≡ true
      → c' ≡ c
      → Step c c'
  fail : (s : Side) → stage s c ≡ forwarding → c' ≡ set_stage s closing_client c → Step c c'
  close_client :
      (s : Side)
      → stage s c ≡ closing_client
      → c' ≡ set_stage s closing_upstream (record c { client_open = false })
      → Step c c'
  close_upstream :
      (s : Side)
      → stage s c ≡ closing_upstream
      → c' ≡ set_stage s finished (record c { upstream_open = false })
      → Step c c'
  join :
      c.upward ≡ finished
      → c.downward ≡ finished
      → c.returned ≡ false
      → c' ≡ record c { returned = true; client_open = false; upstream_open = false }
      → Step c c'

-- The number says how many steps there were.
pub data Reach (c : Connection) : ℕ → Connection → Type 0 where
  here : Reach c 0 c
  next : {n : ℕ} {d e : Connection} → Reach c n d → Step d e → Reach c (suc n) e

-- What a goroutine has closed by the stage it has reached.
abbrev pub past_client : Stage → Bool
past_client closing_upstream = true
past_client finished = true
past_client _ = false

abbrev pub past_upstream : Stage → Bool
past_upstream finished = true
past_upstream _ = false

pub record IsSound (c : Connection) : Type 0 where
  pub client_closed : (past_client c.upward || past_client c.downward) && c.client_open ≡ false
  pub upstream_closed :
      (past_upstream c.upward || past_upstream c.downward) && c.upstream_open ≡ false
  pub both_done : c.returned && not (past_upstream c.upward && past_upstream c.downward) ≡ false

connect-IsSound : (dialled : Bool) → IsSound (connect dialled)
unfolding connect
connect-IsSound true = ground arith
connect-IsSound false = ground arith

Step-IsSound : {c d : Connection} → Step c d → IsSound c → IsSound d
Step-IsSound (relay s a o p e) h = ground arith
Step-IsSound (fail to_upstream a e) h = ground arith
Step-IsSound (fail to_client a e) h = ground arith
Step-IsSound (close_client to_upstream a e) h = ground arith
Step-IsSound (close_client to_client a e) h = ground arith
Step-IsSound (close_upstream to_upstream a e) h = ground arith
Step-IsSound (close_upstream to_client a e) h = ground arith
Step-IsSound (join a b r e) h = ground arith

Reach-IsSound : {c d : Connection} {n : ℕ} → IsSound c → Reach c n d → IsSound d
Reach-IsSound h here = h
Reach-IsSound h (next r st) = Step-IsSound st (Reach-IsSound h r)

-- When `handleConnection` has returned, both goroutines are done and both connections are closed;
-- and wherever one goroutine is done, both connections are closed already.
pub Reach-closed :
    {c : Connection} {n : ℕ} (dialled : Bool)
    → Reach (connect dialled) n c
    → (c.returned
          && (c.client_open
              || c.upstream_open
              || not (past_upstream c.upward && past_upstream c.downward))
        ≡ false)
      × ((past_upstream c.upward || past_upstream c.downward) && (c.client_open || c.upstream_open)
          ≡ false)
Reach-closed {c} dialled r = let h = Reach-IsSound (connect-IsSound dialled) r in ground arith
