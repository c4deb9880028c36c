-- ===== src/Virtinjectd/Proxy/Connection/Returning.antt =====
-- `handleConnection` of virtinjectd/proxy.go, when no peer does anything more: how the goroutine
-- that fails first ends the other, which may wait in a read, and with it the function.
use dra_driver_integration_e.Base.{
  ℕ, zero, suc, ◌+◌, ◌≤◌, ◌<◌, ◌≡◌, refl, inl, inr, Bool, true, false, ◌&&◌, arith, if◌then◌else◌,
  Bool-cases,
}
use dra_driver_integration_e.Virtinjectd.Proxy.Connection.{
  Connection, Stage, forwarding, closing_client, closing_upstream, finished, to_upstream, to_client,
  connect, Step, relay, fail, close_client, close_upstream, join, Reach, IsSound, connect-IsSound,
  Step-IsSound, Reach-IsSound,
}

-- A step that comes without a peer's doing. A goroutine that forwards waits in a read of the one
-- connection or in a write of the other, and fails by itself only where both are closed.
abbrev pub IsSure : {c d : Connection} → Step c d → Type 0
IsSure (relay s a o p e) = ⊥
IsSure {c} (fail s a e) = (c.client_open ≡ false) × (c.upstream_open ≡ false)
IsSure (close_client s a e) = Unit
IsSure (close_upstream s a e) = Unit
IsSure (join a b r e) = Unit

abbrev pub is_forwarding : Stage → Bool
is_forwarding forwarding = true
is_forwarding _ = false

-- The steps that a goroutine has yet to make, and those of the function.
abbrev pub ahead : Stage → ℕ
ahead forwarding = 3
ahead closing_client = 2
ahead closing_upstream = 1
ahead finished = 0

abbrev pub left : Connection → ℕ
left c = ahead c.upward + ahead c.downward + (if c.returned then 0 else 1)

-- A sure step that brings the end nearer.
abbrev pub SureStep : Connection → Type 0
SureStep c = (d : Connection) × (st : Step c d) × IsSure st × (left d < left c)

sound_step :
    (c : Connection)
    → IsSound c
    → c.returned ≡ false
    → is_forwarding c.upward && is_forwarding c.downward ≡ false
    → SureStep c
sound_step c sound running failed = go c.upward c.downward refl refl
  where
    go : (u v : Stage) → c.upward ≡ u → c.downward ≡ v → SureStep c
    go closing_client v a b = (_, close_client to_upstream a refl, tt, ground arith)
    go closing_upstream v a b = (_, close_upstream to_upstream a refl, tt, ground arith)
    go u closing_client a b = (_, close_client to_client b refl, tt, ground arith)
    go u closing_upstream a b = (_, close_upstream to_client b refl, tt, ground arith)
    go forwarding forwarding a b = absurd (ground arith)
    go forwarding finished a b =
        (_, fail to_upstream a refl, (ground (arith, sound), ground (arith, sound)), ground arith)
    go finished forwarding a b =
        (_, fail to_client b refl, (ground (arith, sound), ground (arith, sound)), ground arith)
    go finished finished a b = (_, join a b running refl, tt, ground arith)

-- Once one goroutine has failed, and until the function has returned, there is a step that needs
-- nothing of a peer and brings the end nearer: no deadlock is reached, even where the other
-- goroutine waits in a read that nothing answers.
pub progress :
    {c : Connection} {n : ℕ} (dialled : Bool)
    → Reach (connect dialled) n c
    → c.returned ≡ false
    → is_forwarding c.upward && is_forwarding c.downward ≡ false
    → SureStep c
progress {c} dialled r running failed =
    sound_step c (Reach-IsSound (connect-IsSound dialled) r) running failed

-- Steps one after the other, none of which needs a peer, with their number.
pub data Surely (d : Connection) : ℕ → Connection → Type 0 where
  at_end : Surely d 0 d
  first :
      {n : ℕ} {c e : Connection} → (st : Step c e) → IsSure st → Surely d n e → Surely d (suc n) c

-- It can go on to its return by itself, in a number of steps, and then both connections are closed.
abbrev pub Returns : Connection → ℕ → Type 0
Returns c most =
    (d : Connection) × (n : ℕ) × Surely d n c
    × (n ≤ most)
    × (d.returned ≡ true)
    × (d.client_open ≡ false)
    × (d.upstream_open ≡ false)

Step-failed :
    {c d : Connection}
    → Step c d
    → is_forwarding c.upward && is_forwarding c.downward ≡ false
    → is_forwarding d.upward && is_forwarding d.downward ≡ false
Step-failed (relay s a o p e) h = ground arith
Step-failed (fail to_upstream a e) h = ground arith
Step-failed (fail to_client a e) h = ground arith
Step-failed (close_client to_upstream a e) h = ground arith
Step-failed (close_client to_client a e) h = ground arith
Step-failed (close_upstream to_upstream a e) h = ground arith
Step-failed (close_upstream to_client a e) h = ground arith
Step-failed (join a b r e) h = ground arith

run_within :
    (fuel : ℕ) (c : Connection)
    → left c ≤ fuel
    → IsSound c
    → is_forwarding c.upward && is_forwarding c.downward ≡ false
    → Returns c (left c)
run_within zero c enough sound failed =
    let done : c.returned ≡ true = ground arith in
    (c, 0, at_end, omega arith, done, ground (arith, sound), ground (arith, sound))
run_within (suc m) c enough sound failed = elim (Bool-cases c.returned) [
  | inl done ↦ (c, 0, at_end, omega arith, done, ground (arith, sound), ground (arith, sound))
  | inr running ↦
      let (e, st, sure, less) = sound_step c sound running failed in
      let (d, n, run, near, done, client, upstream) =
        run_within m e (omega arith) (Step-IsSound st sound) (Step-failed st failed) in
      (d, suc n, first st sure run, omega arith, done, client, upstream)
]

-- Once one goroutine has failed the function can return in at most six steps, none of which needs a
-- peer: both goroutines are brought to their end, and both connections are closed then.
pub Reach-Returns :
    {c : Connection} {n : ℕ} (dialled : Bool)
    → Reach (connect dialled) n c
    → is_forwarding c.upward && is_forwarding c.downward ≡ false
    → Returns c 6
Reach-Returns {c} dialled r failed =
    let sound = Reach-IsSound (connect-IsSound dialled) r in
    let (d, n, run, near, done, client, upstream) =
      run_within (left c) c (omega arith) sound failed in
    let most : left c ≤ 6 = ground arith in (d, n, run, omega arith, done, client, upstream)
