-- ===== src/Virtinjectd/Proxy/Passthrough.antt =====
-- The direction from libvirtd to the client: whole messages pass as they came.
use mathlib.Core.Path.{subst}
use dra_driver_integration_e.Base.{
  ℕ, zero, suc, ◌≤◌, ◌<◌, ◌≡◌, refl, sym, ap, ◌∙◌, inl, inr, some, List, [], ◌∷◌, ◌++◌,
  append_assoc, arith, length, All, length-append, All-right, err, Bytes, IsByte,
}
use dra_driver_integration_e.Virtinjectd.Protocol.{MessageError, Source, Sink, read_message}
use dra_driver_integration_e.Virtinjectd.Protocol.Framing.{frame}
use dra_driver_integration_e.Virtinjectd.Protocol.Reading.{read_message_ok, read_message_shrinks}
use dra_driver_integration_e.Virtinjectd.Proxy.{passthrough, forward}
use dra_driver_integration_e.Virtinjectd.Proxy.Forward.{
  Message, frames, IsMessage, Fits, put, read_cases, processed, forward-frames,
}

-- The wire sizes of messages that were read.
valid-Fits : (messages : List Message) → All IsMessage messages → Fits messages
valid-Fits [] h = tt
valid-Fits ((header, payload) ∷ messages) ((wire, small), h) = (omega arith, valid-Fits messages h)

-- Any input is whole messages and a rest on which `ReadMessage` fails.
record Parsed (src : Source) : Type 0 where
  messages : List Message
  rest : Bytes
  reason : MessageError
  last : Source
  splits : src.unread ≡ frames messages ++ rest
  valid : All IsMessage messages
  stop : read_message (record { unread = rest; ending = src.ending }) ≡ (err reason, last)

parse_messages :
    (fuel : ℕ) (src : Source) → All IsByte src.unread → length src.unread < fuel → Parsed src
parse_messages zero src bytes h = absurd (omega arith)
parse_messages (suc fuel) src bytes h = elim (read_cases src) [
  | inl (e, read) ↦ record {
    messages = [];
    rest = src.unread;
    reason = e;
    last = (read_message src).1;
    splits = refl;
    valid = tt;
    stop = read;
  }
  | inr (header, payload, read) ↦
      let src' = (read_message src).1 in
      let (framed, wire, small, ending) = read_message_ok src header payload src' bytes read in
      let shrinks = read_message_shrinks src header payload src' read in
      let rest_bytes =
        All-right IsByte (frame header payload) src'.unread (subst (All IsByte) framed bytes) in
      let later = parse_messages fuel src' rest_bytes (omega arith) in
      record {
        messages = (header, payload) ∷ later.messages;
        rest = later.rest;
        reason = later.reason;
        last = later.last;
        splits =
            framed
            ∙ ap (λ bs. frame header payload ++ bs) later.splits
            ∙ sym (append_assoc (frame header payload) (frames later.messages) later.rest);
        valid = ((wire, small), later.valid);
        stop =
            subst
              (λ end.
                read_message (record { unread = later.rest; ending = end })
                ≡ (err later.reason, later.last))
              ending later.stop;
      }
]

module _ {W : Type 0} (w : W) where
  processed_same : (messages : List Message) → processed passthrough w messages ≡ (messages, w)
  unfolding passthrough
  processed_same [] = refl
  processed_same (message ∷ messages) = ap (λ r. (message ∷ r.0, r.1)) (processed_same messages)

  passed_on :
      (src : Source) (dst : Sink) (parsed : Parsed src)
      → length src.unread ≤ dst.room
      → forward passthrough w src dst
        ≡ some (record {
          reason = parsed.reason;
          source = parsed.last;
          sink = put dst (frames parsed.messages);
          world = w;
        })
  passed_on src dst parsed room =
      let same = processed_same parsed.messages in
      let sizes = length-append (frames parsed.messages) parsed.rest in
      let enough : length (frames parsed.messages) ≤ dst.room =
        omega (arith, ap length parsed.splits) in
      let whole =
        forward-frames passthrough parsed.messages w parsed.rest src.ending dst parsed.reason
          parsed.last parsed.valid (rw same (valid-Fits parsed.messages parsed.valid))
          (rw same enough) parsed.stop in
      let sent = put dst (frames parsed.messages) in
      subst
        (λ bs.
          forward passthrough w (record { unread = bs; ending = src.ending }) dst
          ≡ some (record { reason = parsed.reason; source = parsed.last; sink = sent; world = w }))
        (sym parsed.splits) (rw same at whole)

  -- In the direction from libvirtd the input is whole messages, each with a header and a payload
  -- that respect the limits, and a rest on which reading a message fails. What is written is these
  -- messages, byte for byte as they came, and nothing of the rest; the error is the one of reading
  -- the rest. There must be room for the input, which is one of bytes.
  pub forward-passthrough :
      (src : Source) (dst : Sink)
      → All IsByte src.unread
      → length src.unread ≤ dst.room
      → (messages : List Message) × (rest : Bytes) × (reason : MessageError) × (last : Source)
        × (src.unread ≡ frames messages ++ rest)
        × All IsMessage messages
        × (read_message (record { unread = rest; ending = src.ending }) ≡ (err reason, last))
        × (forward passthrough w src dst
            ≡ some (record {
              reason = reason;
              source = last;
              sink = put dst (frames messages);
              world = w;
            }))
  forward-passthrough src dst bytes room =
      let parsed = parse_messages (suc (length src.unread)) src bytes (omega arith) in
      (
        parsed.messages,
        parsed.rest,
        parsed.reason,
        parsed.last,
        parsed.splits,
        parsed.valid,
        parsed.stop,
        passed_on src dst parsed room,
      )
