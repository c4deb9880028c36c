-- ===== src/Virtinjectd/Proxy/Session/Whole.antt =====
-- As long as both connections are open neither direction has lost anything; behind that, one of
-- them at least has written all that `forward` writes.
use dra_driver_integration_e.Base.{
  ◌≡◌, refl, sym, ◌∙◌, ◌⊎◌, inl, inr, true, false, some, arith, Bytes, Bool-cases,
}
use mathlib.Core.Path.{subst}
use dra_driver_integration_e.Virtinjectd.Protocol.{Header, Source, Sink}
use dra_driver_integration_e.Virtinjectd.Proxy.{Stopped, passthrough, forward}
use dra_driver_integration_e.Virtinjectd.Proxy.Round.{halt, pass, round}
use dra_driver_integration_e.Virtinjectd.Proxy.Connection
use dra_driver_integration_e.Virtinjectd.Proxy.Connection.{
  Connection, Stage, forwarding, closing_client, closing_upstream, finished, connect,
}
use dra_driver_integration_e.Virtinjectd.Proxy.Session.{
  Half, Session, is_forwarding, is_open, opened, Step, relay_up, relay_down, fail_up, fail_down,
  cut_up, cut_down, close, Reach, here, next,
}
use dra_driver_integration_e.Virtinjectd.Proxy.Session.Exact.{
  IsExact, relay-IsExact, stop-IsExact, stage-IsExact, IsWhole, Step-closes, Step-shut,
}

module _ {W : Type 0} (processor : W → Header → Bytes → Bytes × W) (up : Stopped W)
    (down : Stopped (Unit {0})) where
  record IsExactly (s : Session W) : Type 0 where
    upward : IsExact processor s.control.upward s.world s.up up
    downward : IsExact passthrough s.control.downward tt s.down down

  OneWhole : Session W → Type 0
  OneWhole s = IsWhole s.control.upward s.up up ⊎ IsWhole s.control.downward s.down down

  record IsSound (s : Session W) : Type 0 where
    while_open : is_open s.control ≡ true → IsExactly s
    behind_open : is_open s.control ≡ false → OneWhole s

  fail_up-IsSound :
      {s : Session W} (r : Stopped W)
      → s.control.upward ≡ forwarding
      → round processor s.world s.up.source s.up.sink ≡ halt r
      → IsSound s
      → IsSound (record s {
        control = record (s.control) { upward = closing_client };
        world = r.world;
        up = record { source = r.source; sink = r.sink };
      })
  unfolding OneWhole
  fail_up-IsSound {s} r f e h = record {
    while_open = λ o. record {
      upward = stop-IsExact processor f e ((h.while_open o).upward);
      downward = (h.while_open o).downward;
    };
    behind_open =
        λ o. elim (h.behind_open o) [ inl (p, _) ↦ absurd (ground arith) | inr w ↦ inr w ];
  }

  fail_down-IsSound :
      {s : Session W} (r : Stopped (Unit {0}))
      → s.control.downward ≡ forwarding
      → round passthrough tt s.down.source s.down.sink ≡ halt r
      → IsSound s
      → IsSound (record s {
        control = record (s.control) { downward = closing_client };
        down = record { source = r.source; sink = r.sink };
      })
  unfolding OneWhole
  fail_down-IsSound {s} r f e h = record {
    while_open = λ o. record {
      upward = (h.while_open o).upward;
      downward = stop-IsExact passthrough f e ((h.while_open o).downward);
    };
    behind_open =
        λ o. elim (h.behind_open o) [ inl w ↦ inl w | inr (p, _) ↦ absurd (ground arith) ];
  }

  -- A step on a direction that forwards leaves the other one whole.
  cut_up-IsSound :
      {s : Session W} (h' : Half)
      → s.control.upward ≡ forwarding
      → is_open s.control ≡ false
      → IsSound s
      → IsSound (record s { up = h' })
  unfolding OneWhole
  cut_up-IsSound {s} h' f o h = record {
    while_open = λ p. absurd (ground arith);
    behind_open =
        λ _. elim (h.behind_open o) [ inl (p, _) ↦ absurd (ground arith) | inr w ↦ inr w ];
  }

  cut_down-IsSound :
      {s : Session W} (h' : Half)
      → s.control.downward ≡ forwarding
      → is_open s.control ≡ false
      → IsSound s
      → IsSound (record s { down = h' })
  unfolding OneWhole
  cut_down-IsSound {s} h' f o h = record {
    while_open = λ p. absurd (ground arith);
    behind_open =
        λ _. elim (h.behind_open o) [ inl w ↦ inl w | inr (p, _) ↦ absurd (ground arith) ];
  }

  relay_up-IsSound :
      {s : Session W} (w : W) (src : Source) (dst : Sink)
      → s.control.upward ≡ forwarding
      → round processor s.world s.up.source s.up.sink ≡ pass w src dst
      → IsSound s
      → IsSound (record s { world = w; up = record { source = src; sink = dst } })
  unfolding OneWhole
  relay_up-IsSound {s} w src dst f e h = record {
    while_open = λ o. record {
      upward = relay-IsExact processor f e (h.while_open o).upward;
      downward = (h.while_open o).downward;
    };
    behind_open =
        λ o. elim (h.behind_open o) [ inl (p, _) ↦ absurd (ground arith) | inr w ↦ inr w ];
  }

  relay_down-IsSound :
      {s : Session W} (src : Source) (dst : Sink)
      → s.control.downward ≡ forwarding
      → round passthrough tt s.down.source s.down.sink ≡ pass (tt {0}) src dst
      → IsSound s
      → IsSound (record s { down = record { source = src; sink = dst } })
  unfolding OneWhole
  relay_down-IsSound {s} src dst f e h = record {
    while_open = λ o. record {
      upward = (h.while_open o).upward;
      downward = relay-IsExact passthrough f e (h.while_open o).downward;
    };
    behind_open =
        λ o. elim (h.behind_open o) [ inl w ↦ inl w | inr (p, _) ↦ absurd (ground arith) ];
  }

  close-OneWhole :
      (s : Session W) (c : Connection)
      → Connection.Step s.control c
      → is_forwarding c.upward ≡ is_forwarding s.control.upward
      → is_forwarding c.downward ≡ is_forwarding s.control.downward
      → IsSound s
      → is_open c ≡ false
      → OneWhole s
  unfolding OneWhole
  close-OneWhole s c st u d h o = elim (Bool-cases (is_open s.control)) [
    | inr shut ↦ h.behind_open shut
    | inl open_yet ↦ elim (Step-closes st open_yet o u d) [
      | inl p ↦ inl (p, (h.while_open open_yet).upward.whole p)
      | inr p ↦ inr (p, (h.while_open open_yet).downward.whole p)
    ]
  ]

  close-IsSound :
      (s : Session W) (c : Connection)
      → Connection.Step s.control c
      → is_forwarding c.upward ≡ is_forwarding s.control.upward
      → is_forwarding c.downward ≡ is_forwarding s.control.downward
      → IsSound s
      → IsSound (record s { control = c })
  unfolding OneWhole
  close-IsSound s c st u d h = record {
    while_open = λ o.
        let was = was_open o (Bool-cases (is_open s.control)) in
        record {
          upward = stage-IsExact processor u (h.while_open was).upward;
          downward = stage-IsExact passthrough d (h.while_open was).downward;
        };
    behind_open = λ o. elim (close-OneWhole s c st u d h o) [
      | inl (p, w) ↦ inl (u ∙ p, w)
      | inr (p, w) ↦ inr (d ∙ p, w)
    ];
  }
    where
      was_open :
          is_open c ≡ true
          → (is_open s.control ≡ true) ⊎ (is_open s.control ≡ false)
          → is_open s.control ≡ true
      was_open o (inl p) = p
      was_open o (inr p) = absurd (ground (arith, Step-shut st p))

  Step-IsSound : {s t : Session W} → Step processor s t → IsSound s → IsSound t
  Step-IsSound (relay_up w src dst f e same) h =
      subst IsSound (sym same) (relay_up-IsSound w src dst f e h)
  Step-IsSound (relay_down src dst f e same) h =
      subst IsSound (sym same) (relay_down-IsSound src dst f e h)
  Step-IsSound (fail_up r f e same) h = subst IsSound (sym same) (fail_up-IsSound r f e h)
  Step-IsSound (fail_down r f e same) h = subst IsSound (sym same) (fail_down-IsSound r f e h)
  Step-IsSound (cut_up src dst f o less same) h = subst IsSound (sym same) (cut_up-IsSound _ f o h)
  Step-IsSound (cut_down src dst f o less same) h =
      subst IsSound (sym same) (cut_down-IsSound _ f o h)
  Step-IsSound {s} (close c st u d same) h = subst IsSound (sym same) (close-IsSound s c st u d h)

  Reach-IsSound : {s t : Session W} → IsSound s → Reach processor s t → IsSound t
  Reach-IsSound h here = h
  Reach-IsSound h (next r st) = Step-IsSound st (Reach-IsSound h r)

-- Once a connection is closed, and so when `handleConnection` has returned, one of the two
-- directions at least has written all that `forward` writes alone, and nothing else. As long as
-- both are open, each direction forwards yet, or has written that.
pub Reach-whole :
    {W : Type 0} (processor : W → Header → Bytes → Bytes × W) (w : W) (up down : Half)
    (r : Stopped W) (q : Stopped (Unit {0})) (s : Session W)
    → forward processor w up.source up.sink ≡ some r
    → forward passthrough tt down.source down.sink ≡ some q
    → Reach processor (opened w up down) s
    → ((is_open s.control ≡ false) × ((s.up.sink ≡ r.sink) ⊎ (s.down.sink ≡ q.sink)))
      ⊎ ((is_open s.control ≡ true)
          × ((s.control.upward ≡ forwarding) ⊎ (s.up.sink ≡ r.sink))
          × ((s.control.downward ≡ forwarding) ⊎ (s.down.sink ≡ q.sink)))
unfolding connect OneWhole
Reach-whole processor w up down r q s uf df reach =
    let start : IsSound processor r q (opened w up down) = record {
      while_open = λ _. record {
        upward = record { ahead = λ _. uf; whole = λ p. absurd (ground arith) };
        downward = record { ahead = λ _. df; whole = λ p. absurd (ground arith) };
      };
      behind_open = λ p. absurd (ground arith);
    } in
    let sound = Reach-IsSound processor r q start reach in
    elim (Bool-cases (is_open s.control)) [
      | inr shut ↦ elim (sound.behind_open shut) [
        | inl (_, e) ↦ inl (shut, inl e)
        | inr (_, e) ↦ inl (shut, inr e)
      ]
      | inl o ↦ inr (
        o,
        either s.control.upward (sound.while_open o).upward.whole,
        either s.control.downward (sound.while_open o).downward.whole,
      )
    ]
  where
    either : {P : Type 0} (st : Stage) → (is_forwarding st ≡ false → P) → (st ≡ forwarding) ⊎ P
    either forwarding f = inl refl
    either closing_client f = inr (f refl)
    either closing_upstream f = inr (f refl)
    either finished f = inr (f refl)
