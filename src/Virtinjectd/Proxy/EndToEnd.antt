-- ===== src/Virtinjectd/Proxy/EndToEnd.antt =====
-- A define call on its way from the client to libvirtd, from the bytes that come in to what
-- libvirtd decodes.
use dra_driver_integration_e.Base.{
  ℕ, ◌+◌, ◌≤◌, ◌≡◌, refl, true, sym, none, some, List, [], ◌∷◌, ◌++◌, append-nil, arith, Bool-cases,
  inl, inr, length, drop, length-append, length-drop, ok, err, Bytes, eq_bytes,
}
use mathlib.Core.Path.{subst}
use dra_driver_integration_e.Virtinjectd.Xdr.{
  xdr_string_max_len, encode_xdr_string, decode_xdr_string,
}
use dra_driver_integration_e.Virtinjectd.Xdr.Encode.{xdr_pad_lt, length-encode_xdr_string}
use dra_driver_integration_e.Virtinjectd.Protocol.{
  Header, GoError, reading_length, Sink, header_size, max_message_size, read_full, read_message,
  is_domain_define_call,
}
use dra_driver_integration_e.Virtinjectd.Protocol.Framing.{frame, length-frame, read_message-frame}
use dra_driver_integration_e.Virtinjectd.Hook.{System, HookChain, run}
use dra_driver_integration_e.Virtinjectd.Proxy.{forward, intercept}
use dra_driver_integration_e.Virtinjectd.Proxy.Patch.{
  patched_payload, intercept_define, decoded_payload,
}
use dra_driver_integration_e.Virtinjectd.Proxy.Forward.{
  Message, IsMessage, Fits, frames, processed, put, forward-frames,
}

nothing_read :
    (ending : GoError)
    → read_message (record { unread = []; ending = ending })
      ≡ (err (reading_length ending), record { unread = []; ending = ending })
unfolding read_message read_full
nothing_read ending = refl

length-patched_payload :
    (S : System) (hooks : HookChain) (payload xml out : Bytes) (consumed : ℕ)
    → length (patched_payload S hooks payload xml out consumed) ≤ length payload + length out + 7
length-patched_payload S hooks payload xml out consumed = elim (Bool-cases (eq_bytes out xml)) [
  | inl same ↦ rw same (omega arith)
  | inr differs ↦
      let sizes = length-append (encode_xdr_string out) (drop consumed payload) in
      let new = length-encode_xdr_string out in
      let old = length-drop consumed payload in
      let pad = xdr_pad_lt (length out) in rw differs (omega arith)
]

module _ (S : System) (hooks : HookChain) where
  -- For a client that sends one define call, whose XML the hooks turn into a text of at most 4 MiB,
  -- one message is sent to libvirtd: libvirtd reads the same header, whatever follows it, and a
  -- payload from which it decodes that text, with the bytes behind it that stood behind the XML.
  -- The lengths of the payload and the text, and 7 bytes more, must fit in a message of 32 MiB and
  -- in the room of the connection.
  pub forward-define :
      (w : S.World) (header : Header) (payload xml out rest : Bytes) (consumed : ℕ) (w' : S.World)
      (ending later : GoError) (dst : Sink)
      → IsMessage (header, payload)
      → is_domain_define_call header ≡ true
      → decode_xdr_string payload ≡ ok (xml, consumed)
      → run S w hooks xml ≡ ((out, none), w')
      → length out ≤ xdr_string_max_len
      → header_size + (length payload + length out + 7) ≤ max_message_size
      → 28 + (length payload + length out + 7) ≤ dst.room
      → (sent : Bytes) × (size : ℕ) × (forward
            (intercept S hooks)
            w
            (record { unread = frame header payload; ending = ending })
            dst
          ≡ some (record {
            reason = reading_length ending;
            source = record { unread = []; ending = ending };
            sink = put dst (frame header sent);
            world = w';
          }))
        × (read_message (record { unread = frame header sent ++ rest; ending = later })
            ≡ (ok (header, sent), record { unread = rest; ending = later }))
        × (decode_xdr_string sent ≡ ok (out, size))
        × (drop size sent ≡ drop consumed payload)
  forward-define w header payload xml out rest consumed w' ending later dst valid define decoded ran
        small fits room =
      let sent = patched_payload S hooks payload xml out consumed in
      let bound = length-patched_payload S hooks payload xml out consumed in
      let patched : intercept S hooks w header payload ≡ (sent, w') =
        intercept_define S hooks w header payload xml out consumed w' define decoded ran in
      let (size, decodes, behind) =
        decoded_payload S hooks payload xml out consumed decoded small in
      let (wire, _) = valid in
      let one : List Message = (header, payload) ∷ [] in
      let made : processed (intercept S hooks) w one ≡ ((header, sent) ∷ [], w') =
        rw patched refl in
      let size_of = length-frame header sent in
      let whole =
        forward-frames (intercept S hooks) one w [] ending dst (reading_length ending)
          (record { unread = []; ending = ending }) (valid, tt)
          (subst (λ m. Fits m.0) (sym made) ((omega arith), tt))
          (subst (λ m. length (frames m.0) ≤ dst.room) (sym made) (rw append-nil (omega arith)))
          (nothing_read ending) in
      let renamed =
        subst
          (λ m.
            forward (intercept S hooks) w (record { unread = frames one ++ []; ending = ending })
              dst
            ≡ some (record {
              reason = reading_length ending;
              source = record { unread = []; ending = ending };
              sink = put dst (frames m.0);
              world = m.1;
            }))
          made whole in
      (
        sent,
        size,
        rw
            (
              append-nil (frame header payload ++ []),
              append-nil (frame header payload),
              append-nil (frame header sent),
            )
            at renamed,
        read_message-frame header sent rest later wire (omega arith),
        decodes,
        behind,
      )
