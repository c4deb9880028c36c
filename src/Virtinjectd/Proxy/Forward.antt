-- ===== src/Virtinjectd/Proxy/Forward.antt =====
-- `forward`: what one direction of a connection writes for what it reads.

use dra_driver_integration_e.Base.{
  ℕ, zero, suc, ◌+◌, ◌-◌, ◌^◌, ◌≤◌, ◌<◌, ◌≡◌, refl, ap, ◌∙◌, ◌⊎◌, inl, inr, none, some, List, [],
  ◌∷◌, ◌++◌, append_assoc, append-nil, arith, Option-cases, length, All, length-append, Result, ok,
  err, Bytes,
}
use dra_driver_integration_e.Virtinjectd.Protocol.{
  Header, IsWire, GoError, MessageError, Source, Sink, header_size, max_message_size, read_message,
  write_message,
}
use dra_driver_integration_e.Virtinjectd.Protocol.Framing.{
  frame, length-frame, read_message-frame, write_message_lem,
}
use dra_driver_integration_e.Virtinjectd.Protocol.Reading.{read_message_shrinks}
use dra_driver_integration_e.Virtinjectd.Proxy.{Stopped, forward_loop, forward}

abbrev pub Message : Type 0
Message = Header × Bytes

-- The bytes of messages one after the other.
abbrev pub frames : List Message → Bytes
frames [] = []
frames ((header, payload) ∷ messages) = frame header payload ++ frames messages

-- A message that can be read: fields of 32 bits, and at most 32 MiB.
abbrev pub IsMessage : Message → Type 0
IsMessage (header, payload) = IsWire header × (header_size + length payload ≤ max_message_size)

-- Each fits the length word, which Go's `uint32` holds.
abbrev pub Fits : List Message → Type 0
Fits [] = Unit
Fits ((header, payload) ∷ messages) = (28 + length payload < 2 ^ 32) × Fits messages

-- The output once it has taken some bytes, where there is room for them.
abbrev pub put : Sink → Bytes → Sink
put dst bytes = record dst { written = dst.written ++ bytes; room = dst.room - length bytes }

put-nil : (dst : Sink) → put dst [] ≡ dst
put-nil dst = ground (arith, append-nil dst.written)

put-put : (dst : Sink) (a b : Bytes) → put (put dst a) b ≡ put dst (a ++ b)
put-put dst a b = ground (arith, append_assoc dst.written a b, length-append a b)

write_message-put :
    (dst : Sink) (header : Header) (payload : Bytes)
    → 28 + length payload < 2 ^ 32
    → length (frame header payload) ≤ dst.room
    → write_message dst header payload ≡ (put dst (frame header payload), none)
write_message-put dst header payload small room =
    ground (arith, write_message_lem dst header payload small, length-frame header payload)

pub read_cases :
    (src : Source)
    → ((e : MessageError) × (read_message src ≡ (err e, (read_message src).1)))
      ⊎ ((header : Header) × (payload : Bytes) × (read_message src
            ≡ (ok (header, payload), (read_message src).1)))
read_cases src = go (read_message src).0 (read_message src).1 refl
  where
    go :
        (m : Result MessageError Message) (src' : Source)
        → read_message src ≡ (m, src')
        → ((e : MessageError) × (read_message src ≡ (err e, src')))
          ⊎ ((header : Header) × (payload : Bytes) × (read_message src
                ≡ (ok (header, payload), src')))
    go (err e) src' p = inl (e, p)
    go (ok (header, payload)) src' p = inr (header, payload, p)

module _ {W : Type 0} (processor : W → Header → Bytes → Bytes × W) where
  -- One round: the input ends, the output fails, or the loop goes on.
  round_ended :
      (fuel : ℕ) (w : W) (src : Source) (dst : Sink) (e : MessageError) (src' : Source)
      → read_message src ≡ (err e, src')
      → forward_loop processor (suc fuel) w src dst
        ≡ some (record { reason = e; source = src'; sink = dst; world = w })
  unfolding forward_loop
  round_ended fuel w src dst e src' read = ground arith

  round_broken :
      (fuel : ℕ) (w : W) (src : Source) (dst : Sink) (header : Header) (payload : Bytes)
      (src' : Source) (dst' : Sink) (e : MessageError)
      → read_message src ≡ (ok (header, payload), src')
      → write_message dst header (processor w header payload).0 ≡ (dst', some e)
      → forward_loop processor (suc fuel) w src dst
        ≡ some (record {
          reason = e;
          source = src';
          sink = dst';
          world = (processor w header payload).1;
        })
  unfolding forward_loop
  round_broken fuel w src dst header payload src' dst' e read wrote = ground arith

  round_passed :
      (fuel : ℕ) (w : W) (src : Source) (dst : Sink) (header : Header) (payload : Bytes)
      (src' : Source) (dst' : Sink)
      → read_message src ≡ (ok (header, payload), src')
      → write_message dst header (processor w header payload).0 ≡ (dst', none)
      → forward_loop processor (suc fuel) w src dst
        ≡ forward_loop processor fuel (processor w header payload).1 src' dst'
  unfolding forward_loop
  round_passed fuel w src dst header payload src' dst' read wrote = ground arith

  -- The loop ends: each round takes 28 bytes of the input at least.
  forward_loop_total :
      (fuel : ℕ) (w : W) (src : Source) (dst : Sink)
      → length src.unread < fuel
      → (r : Stopped W) × (forward_loop processor fuel w src dst ≡ some r)
  forward_loop_total zero w src dst h = absurd (omega arith)
  forward_loop_total (suc fuel) w src dst h = elim (read_cases src) [
    | inl (e, read) ↦ (_, round_ended fuel w src dst e (read_message src).1 read)
    | inr (header, payload, read) ↦
        let src' = (read_message src).1 in
        let wrote = write_message dst header (processor w header payload).0 in
        let shrinks = read_message_shrinks src header payload src' read in
        elim (Option-cases wrote.1) [
          | inl fine ↦
              let (r, rest) =
                forward_loop_total fuel (processor w header payload).1 src' wrote.0 (omega arith) in
              (
                r,
                round_passed fuel w src dst header payload src' wrote.0 read
                      (ap (λ f. (wrote.0, f)) fine)
                    ∙ rest,
              )
          | inr (e, failed) ↦ (
            _,
            round_broken fuel w src dst header payload src' wrote.0 e read
                (ap (λ f. (wrote.0, f)) failed),
          )
        ]
  ]

  -- `forward` returns, with an error, on every input and whatever the processor does.
  pub forward_total :
      (w : W) (src : Source) (dst : Sink) → (r : Stopped W) × (forward processor w src dst ≡ some r)
  unfolding forward
  forward_total w src dst = forward_loop_total (suc (length src.unread)) w src dst (omega arith)

  -- The messages that the processor makes of messages, and the state after them.
  abbrev pub processed : W → List Message → List Message × W
  processed w [] = ([], w)
  processed w ((header, payload) ∷ messages) =
      let (payload', w') = processor w header payload in
      let (rest, w'') = processed w' messages in ((header, payload') ∷ rest, w'')

  forward_loop-frames :
      (messages : List Message) (fuel : ℕ) (w : W) (rest : Bytes) (ending : GoError) (dst : Sink)
      (e : MessageError) (last : Source)
      → All IsMessage messages
      → Fits (processed w messages).0
      → length (frames (processed w messages).0) ≤ dst.room
      → read_message (record { unread = rest; ending = ending }) ≡ (err e, last)
      → length (frames messages ++ rest) < fuel
      → forward_loop processor fuel w
          (record { unread = frames messages ++ rest; ending = ending })
          dst
        ≡ some (record {
          reason = e;
          source = last;
          sink = put dst (frames (processed w messages).0);
          world = (processed w messages).1;
        })
  forward_loop-frames messages zero w rest ending dst e last valid fits room stop enough =
      absurd (omega arith)
  forward_loop-frames [] (suc fuel) w rest ending dst e last valid fits room stop enough =
      rw (put-nil dst)
        (round_ended fuel w (record { unread = rest; ending = ending }) dst e last stop)
  forward_loop-frames ((header, payload) ∷ messages) (suc fuel) w rest ending dst e last
        ((wire, small), valid) (fits, later) room stop enough =
      let (payload', w') = processor w header payload in
      let out = frame header payload' in
      let outs = frames (processed w' messages).0 in
      let here = frame header payload in
      let src' : Source = record { unread = frames messages ++ rest; ending = ending } in
      let sizes = length-append out outs in
      let taken = length-append here (frames messages ++ rest) in
      let long = length-frame header payload in
      let regroup = append_assoc here (frames messages) rest in
      let bound : length (here ++ (frames messages ++ rest)) < suc fuel = rw (← regroup) enough in
      let read = read_message-frame header payload (frames messages ++ rest) ending wire small in
      let wrote = write_message-put dst header payload' fits (omega arith) in
      let next =
        forward_loop-frames messages fuel w' rest ending (put dst out) e last valid later
          (omega arith) stop (omega arith) in
      rw (regroup, ← put-put dst out outs)
        (round_passed fuel w
            (record { unread = here ++ (frames messages ++ rest); ending = ending }) dst header
            payload src' (put dst out) read wrote
          ∙ next)

  -- On an input of whole messages and a rest that holds none, `forward` writes each message with
  -- its header and the payload that the processor makes of it, in order and with the state handed
  -- on, writes nothing of the rest, and returns the error of reading that rest. There must be room
  -- for the output, and no payload may reach 4 GiB.
  pub forward-frames :
      (messages : List Message) (w : W) (rest : Bytes) (ending : GoError) (dst : Sink)
      (e : MessageError) (last : Source)
      → All IsMessage messages
      → Fits (processed w messages).0
      → length (frames (processed w messages).0) ≤ dst.room
      → read_message (record { unread = rest; ending = ending }) ≡ (err e, last)
      → forward processor w (record { unread = frames messages ++ rest; ending = ending }) dst
        ≡ some (record {
          reason = e;
          source = last;
          sink = put dst (frames (processed w messages).0);
          world = (processed w messages).1;
        })
  unfolding forward
  forward-frames messages w rest ending dst e last valid fits room stop =
      forward_loop-frames messages (suc (length (frames messages ++ rest))) w rest ending dst e last
        valid fits room stop (omega arith)
