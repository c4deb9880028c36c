-- ===== src/Virtinjectd/Proxy/Behind/Rounds.antt =====
-- The rounds of a direction that has less to read, and less room, than the `forward` it is compared
-- with.
use dra_driver_integration_e.Base.{
  ℕ, zero, suc, ◌<◌, ◌≡◌, refl, sym, ◌∙◌, ◌⊎◌, inl, inr, some, [], append-nil, arith, length, All,
  ok, err, Bytes, IsByte,
}
use mathlib.Core.Path.{subst}
use dra_driver_integration_e.Virtinjectd.Protocol.{
  Header, MessageError, Source, Sink, read_message, write_message,
}
use dra_driver_integration_e.Virtinjectd.Proxy.{Stopped, forward}
use dra_driver_integration_e.Virtinjectd.Proxy.Forward.{read_cases}
use dra_driver_integration_e.Virtinjectd.Proxy.Round.{
  Round, halt, pass, round, round_pass, pass_round, forward-round, Round-cases, round_shrinks,
}
use dra_driver_integration_e.Virtinjectd.Proxy.Behind.{
  IsPrefix, IsPrefix-trans, All-left, Less, write_message-written, write_message-IsPrefix,
  write_message-Less, read_message-Less,
}

module _ {W : Type 0} (processor : W → Header → Bytes → Bytes × W) where
  abbrev sink_of : Round W → Sink
  sink_of (halt r) = r.sink
  sink_of (pass w src dst) = dst

  -- The sink of a round: as it was, or behind the write of the message that was read.
  round_sink :
      (w : W) (src : Source) (dst : Sink)
      → (((e : MessageError) × ((read_message src).0 ≡ err e))
          × (sink_of (round processor w src dst) ≡ dst))
        ⊎ ((header : Header) × (payload : Bytes) × (read_message src
              ≡ (ok (header, payload), (read_message src).1))
            × (sink_of (round processor w src dst)
                ≡ (write_message dst header (processor w header payload).0).0))
  unfolding round
  round_sink w src dst = elim (read_cases src) [
    | inl (e, p) ↦ inl ((e, ground arith), ground arith)
    | inr (header, payload, p) ↦ inr (header, payload, p, ground arith)
  ]

  round_grows :
      (w : W) (src : Source) (dst : Sink)
      → IsPrefix dst.written (sink_of (round processor w src dst)).written
  round_grows w src dst = elim (round_sink w src dst) [
    | inl (_, e) ↦ rw e ([], append-nil dst.written)
    | inr (header, payload, _, e) ↦
        rw (e, write_message-written dst header (processor w header payload).0) (_, refl)
  ]

  -- What a round has written stays in front of what `forward` writes.
  round-forward :
      (fuel : ℕ) (w : W) (src : Source) (dst : Sink) (r : Stopped W)
      → length src.unread < fuel
      → forward processor w src dst ≡ some r
      → IsPrefix (sink_of (round processor w src dst)).written r.sink.written
  round-forward zero w src dst r h p = absurd (omega arith)
  round-forward (suc fuel) w src dst r h p =
      elim (Round-cases processor (round processor w src dst)) [
        | inl (s, e) ↦
            ([], ground (arith, forward-round processor w src dst, append-nil s.sink.written))
        | inr (w', src', dst', e) ↦
            let q : forward processor w' src' dst' ≡ some r =
              ground (arith, forward-round processor w src dst) in
            let near = round_shrinks processor w src dst w' src' dst' e in
            let later = round-forward fuel w' src' dst' r (omega arith) q in
            rw e (IsPrefix-trans dst'.written _ r.sink.written (round_grows w' src' dst') later)
      ]

  -- What one direction still has to read and to write, against the `forward` that ends as `r` does.
  pub record Behind (w : W) (src : Source) (dst : Sink) (r : Stopped W) : Type 0 where
    pub full_source : Source
    pub full_sink : Sink
    pub forwards : forward processor w full_source full_sink ≡ some r
    pub less : Less src dst full_source full_sink
    pub bytes : All IsByte src.unread

  round_sink_ok :
      (w : W) (src : Source) (dst : Sink) (header : Header) (payload : Bytes) (src' : Source)
      → read_message src ≡ (ok (header, payload), src')
      → sink_of (round processor w src dst)
        ≡ (write_message dst header (processor w header payload).0).0
  unfolding round
  round_sink_ok w src dst header payload src' p = ground arith

  Behind-round :
      (w : W) (src : Source) (dst : Sink) (r : Stopped W)
      → Behind w src dst r
      → IsPrefix (sink_of (round processor w src dst)).written r.sink.written
  Behind-round w src dst r b =
      let full = b.full_sink in
      let later =
        round-forward (suc (length b.full_source.unread)) w b.full_source full r (omega arith)
          b.forwards in
      elim (round_sink w src dst) [
        | inl (_, e) ↦
            rw (e, b.less.written)
              (IsPrefix-trans full.written _ r.sink.written (round_grows w b.full_source full)
                later)
        | inr (header, payload, read, e) ↦
            let (src1, read1, _, _) =
              read_message-Less src b.full_source _ header payload b.bytes b.less.unread read in
            let wrote = round_sink_ok w b.full_source full header payload src1 read1 in
            let near =
              write_message-IsPrefix dst full header (processor w header payload).0 b.less.written
                b.less.room in
            rw e (IsPrefix-trans _ _ r.sink.written near (rw wrote at later))
      ]

  pub Behind-stop :
      (w : W) (src : Source) (dst : Sink) (r s : Stopped W)
      → Behind w src dst r
      → round processor w src dst ≡ halt s
      → IsPrefix s.sink.written r.sink.written
  Behind-stop w src dst r s b e = rw e at (Behind-round w src dst r b)

  pub Behind-written :
      (w : W) (src : Source) (dst : Sink) (r : Stopped W)
      → Behind w src dst r
      → IsPrefix dst.written r.sink.written
  Behind-written w src dst r b =
      IsPrefix-trans dst.written _ r.sink.written (round_grows w src dst)
        (Behind-round w src dst r b)

  pub Behind-here :
      (w : W) (src : Source) (dst : Sink) (r : Stopped W)
      → All IsByte src.unread
      → forward processor w src dst ≡ some r
      → Behind w src dst r
  Behind-here w src dst r bytes e = record {
    full_source = src;
    full_sink = dst;
    forwards = e;
    less = record { unread = ([], append-nil src.unread); written = refl; room = omega arith };
    bytes = bytes;
  }

  pub Behind-Less :
      (w : W) (src : Source) (dst : Sink) (src' : Source) (dst' : Sink) (r : Stopped W)
      → Less src' dst' src dst
      → Behind w src dst r
      → Behind w src' dst' r
  Behind-Less w src dst src' dst' r cut b = record {
    full_source = b.full_source;
    full_sink = b.full_sink;
    forwards = b.forwards;
    less = record {
      unread = IsPrefix-trans src'.unread src.unread b.full_source.unread cut.unread b.less.unread;
      written = cut.written ∙ b.less.written;
      room = omega (arith, cut.room, b.less.room);
    };
    bytes = All-left src'.unread cut.unread.0 (subst (All IsByte) (sym cut.unread.1) b.bytes);
  }

  pub Behind-pass :
      (w : W) (src : Source) (dst : Sink) (r : Stopped W) (w' : W) (src' : Source) (dst' : Sink)
      → Behind w src dst r
      → round processor w src dst ≡ pass w' src' dst'
      → Behind w' src' dst' r
  Behind-pass w src dst r w' src' dst' b e =
      let (header, payload, read, wrote, world) = round_pass processor w src dst w' src' dst' e in
      let (src1, read1, rest, bytes) =
        read_message-Less src b.full_source src' header payload b.bytes b.less.unread read in
      let (dst1, wrote1, same, room) =
        write_message-Less dst b.full_sink dst' header (processor w header payload).0 b.less.written
          b.less.room wrote in
      record {
        full_source = src1;
        full_sink = dst1;
        forwards = ground (
          arith,
          forward-round processor w b.full_source b.full_sink,
          pass_round processor w b.full_source b.full_sink w' src1 dst1
              (header, payload, read1, wrote1, world),
          b.forwards,
        );
        less = record { unread = rest; written = same; room = room };
        bytes = bytes;
      }
