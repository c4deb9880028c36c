-- ===== src/Virtinjectd/Proxy/Round.antt =====
-- One round of the loop of `forward`, as a step of its goroutine, and what a goroutine writes whose
-- connections are closed at any moment.
use dra_driver_integration_e.Base.{
  ℕ, zero, suc, ◌+◌, ◌≤◌, ◌<◌, ◌≡◌, refl, ◌⊎◌, inl, inr, none, some, arith, length, ok, err, Bytes,
}
use dra_driver_integration_e.Virtinjectd.Protocol.{
  Header, Source, Sink, read_message, write_message,
}
use dra_driver_integration_e.Virtinjectd.Protocol.Reading.{read_message_shrinks}
use dra_driver_integration_e.Virtinjectd.Proxy.{Stopped, forward_loop, forward}
use dra_driver_integration_e.Virtinjectd.Proxy.Forward.{read_cases}

-- A round returns from `forward`, or hands on what the next one starts with.
pub data Round (W : Type 0) : Type 0 where
  halt : Stopped W → Round W
  pass : W → Source → Sink → Round W

module _ {W : Type 0} (processor : W → Header → Bytes → Bytes × W) where
  unfoldable pub round : W → Source → Sink → Round W
  round w src dst =
      let (message, src') = read_message src in
      elim message [
        | err e ↦ halt (record { reason = e; source = src'; sink = dst; world = w })
        | ok (header, payload) ↦
            let (payload', w') = processor w header payload in
            let (dst', failed) = write_message dst header payload' in
            elim failed [
              | some e ↦ halt (record { reason = e; source = src'; sink = dst'; world = w' })
              | none ↦ pass w' src' dst'
            ]
      ]

  loop_round :
      (fuel : ℕ) (w : W) (src : Source) (dst : Sink)
      → forward_loop processor (suc fuel) w src dst ≡ (elim (round w src dst) [
        | halt r ↦ some r
        | pass w' src' dst' ↦ forward_loop processor fuel w' src' dst'
      ])
  unfolding forward_loop round
  loop_round fuel w src dst = ground arith

  -- What a round that hands on has done.
  abbrev pub Passed : W → Source → Sink → W → Source → Sink → Type 0
  Passed w src dst w' src' dst' =
      (header : Header) × (payload : Bytes) × (read_message src ≡ (ok (header, payload), src'))
      × (write_message dst header (processor w header payload).0 ≡ (dst', none))
      × ((processor w header payload).1 ≡ w')

  pub round_pass :
      (w : W) (src : Source) (dst : Sink) (w' : W) (src' : Source) (dst' : Sink)
      → round w src dst ≡ pass w' src' dst'
      → Passed w src dst w' src' dst'
  unfolding round
  round_pass w src dst w' src' dst' h = elim (read_cases src) [
    | inl (e, p) ↦ absurd (ground arith)
    | inr (header, payload, p) ↦ (header, payload, ground arith, ground arith, ground arith)
  ]

  pub pass_round :
      (w : W) (src : Source) (dst : Sink) (w' : W) (src' : Source) (dst' : Sink)
      → Passed w src dst w' src' dst'
      → round w src dst ≡ pass w' src' dst'
  unfolding round
  pass_round w src dst w' src' dst' (header, payload, p, q, r) = ground arith

  pub round_shrinks :
      (w : W) (src : Source) (dst : Sink) (w' : W) (src' : Source) (dst' : Sink)
      → round w src dst ≡ pass w' src' dst'
      → length src'.unread + 28 ≤ length src.unread
  round_shrinks w src dst w' src' dst' h =
      let (header, payload, p, _, _) = round_pass w src dst w' src' dst' h in
      read_message_shrinks src header payload src' p

  pub Round-cases :
      (r : Round W)
      → ((s : Stopped W) × (r ≡ halt s))
        ⊎ ((w : W) × (src : Source) × (dst : Sink) × (r ≡ pass w src dst))
  Round-cases (halt s) = inl (s, refl)
  Round-cases (pass w src dst) = inr (w, src, dst, refl)

  -- Enough fuel is enough.
  loop_fuel :
      (f g : ℕ) (w : W) (src : Source) (dst : Sink)
      → length src.unread < f
      → length src.unread < g
      → forward_loop processor f w src dst ≡ forward_loop processor g w src dst
  loop_fuel zero g w src dst h k = absurd (omega arith)
  loop_fuel (suc f) zero w src dst h k = absurd (omega arith)
  loop_fuel (suc f) (suc g) w src dst h k = elim (Round-cases (round w src dst)) [
    | inl (s, e) ↦ rw (loop_round f w src dst, loop_round g w src dst, e) refl
    | inr (w', src', dst', e) ↦
        let near = round_shrinks w src dst w' src' dst' e in
        rw (loop_round f w src dst, loop_round g w src dst, e)
          (loop_fuel f g w' src' dst' (omega arith) (omega arith))
  ]

  -- A round of `forward`: it returns, or goes on as `forward` from there.
  pub forward-round :
      (w : W) (src : Source) (dst : Sink)
      → forward processor w src dst ≡ (elim (round w src dst) [
        | halt r ↦ some r
        | pass w' src' dst' ↦ forward processor w' src' dst'
      ])
  unfolding forward
  forward-round w src dst = elim (Round-cases (round w src dst)) [
    | inl (s, e) ↦ rw (loop_round (length src.unread) w src dst, e) refl
    | inr (w', src', dst', e) ↦
        let near = round_shrinks w src dst w' src' dst' e in
        rw (loop_round (length src.unread) w src dst, e)
          (loop_fuel (length src.unread) (suc (length src'.unread)) w' src' dst' (omega arith)
            (omega arith))
  ]
