-- ===== src/Virtinjectd/Protocol/Reading.antt =====
-- What a successful `ReadMessage` says of the input, and what each failure says.
use dra_driver_integration_e.Base.{
  ℕ, ◌+◌, ◌-◌, ◌≤◌, ◌≡◌, refl, ◌∙◌, ◌++◌, append_assoc, arith, length, take, drop, All,
  take-append-drop, take_of_length_le, length-take, length-drop, All-take, All-drop, ok, Bytes,
  IsByte,
}
use dra_driver_integration_e.Virtinjectd.Uint32.{be_uint32, put_uint32, put_uint32-be_uint32}
use dra_driver_integration_e.Virtinjectd.Protocol.{
  Header, IsWire, header_size, max_message_size, parse_header, marshal_header, Source,
  split_message, read_full, read_message,
}
use dra_driver_integration_e.Virtinjectd.Protocol.Codec.{marshal_header-parse_header}
use dra_driver_integration_e.Virtinjectd.Protocol.Framing.{frame}

-- What the reader has seen when it returns a message.
record Seen (src : Source) (header : Header) (payload : Bytes) (src' : Source) : Type 0 where
  total : ℕ
  total_is : total ≡ be_uint32 (take 4 src.unread)
  prefixed : 4 ≤ length src.unread
  long : 28 ≤ total
  small : total - 4 ≤ max_message_size
  whole : total - 4 ≤ length (drop 4 src.unread)
  parsed : parse_header (take header_size (take (total - 4) (drop 4 src.unread))) ≡ ok header
  payload_is : payload ≡ drop header_size (take (total - 4) (drop 4 src.unread))
  rest_is : src'.unread ≡ drop (total - 4) (drop 4 src.unread)
  ending_is : src'.ending ≡ src.ending

read_message-Seen :
    (src : Source) (header : Header) (payload : Bytes) (src' : Source)
    → read_message src ≡ (ok (header, payload), src')
    → Seen src header payload src'
unfolding read_message split_message read_full
read_message-Seen src header payload src' e = record {
  total = be_uint32 (take 4 src.unread);
  total_is = refl;
  prefixed = ground arith;
  long = ground arith;
  small = ground arith;
  whole = ground arith;
  parsed = ground arith;
  payload_is = ground arith;
  rest_is = ground arith;
  ending_is = ground arith;
}

module _ (src : Source) (header : Header) (payload : Bytes) (src' : Source)
    (bytes : All IsByte src.unread) (seen : Seen src header payload src') where
  abbrev body : Bytes
  body = take (seen.total - 4) (drop 4 src.unread)

  length-body : length body ≡ seen.total - 4
  length-body = omega (arith, length-take (seen.total - 4) (drop 4 src.unread), seen.whole)

  body-IsByte : All IsByte body
  body-IsByte = All-take IsByte (seen.total - 4) _ (All-drop IsByte 4 _ bytes)

  header_kept : (marshal_header header ≡ take header_size body) × IsWire header
  header_kept =
      let (same, wire) =
        marshal_header-parse_header (take header_size body) header
          (All-take IsByte header_size body body-IsByte) seen.parsed in
      (same ∙ take_of_length_le 24 _ (omega (arith, length-take 24 body)), wire)

  length-payload : 28 + length payload ≡ seen.total
  length-payload = rw seen.payload_is (omega (arith, length-drop 24 body, length-body, seen.long))

  prefix_kept : put_uint32 seen.total ≡ take 4 src.unread
  prefix_kept =
      let four : length (take 4 src.unread) ≡ 4 =
        omega (arith, length-take 4 src.unread, seen.prefixed) in
      rw seen.total_is (
        put_uint32-be_uint32 (take 4 src.unread) (All-take IsByte 4 src.unread bytes) (omega arith)
        ∙ take_of_length_le 4 _ (omega arith))

  frame_read : src.unread ≡ frame header payload ++ src'.unread
  unfolding frame
  frame_read =
      let joined : marshal_header header ++ payload ≡ body =
        rw (header_kept.0, seen.payload_is) (take-append-drop header_size body) in
      rw (
        length-payload,
        prefix_kept,
        joined,
        seen.rest_is,
        append_assoc,
        take-append-drop (seen.total - 4) (drop 4 src.unread),
        take-append-drop 4 src.unread,
      )

-- A message that is read from bytes stood in front of the input as its frame, its header's fields
-- have 32 bits, its size respects the limit, and the rest of the input is left.
pub read_message_ok :
    (src : Source) (header : Header) (payload : Bytes) (src' : Source)
    → All IsByte src.unread
    → read_message src ≡ (ok (header, payload), src')
    → (src.unread ≡ frame header payload ++ src'.unread)
      × IsWire header
      × (header_size + length payload ≤ max_message_size)
      × (src'.ending ≡ src.ending)
read_message_ok src header payload src' bytes e =
    let seen = read_message-Seen src header payload src' e in
    (
      frame_read src header payload src' bytes seen,
      (header_kept src header payload src' bytes seen).1,
      omega (arith, length-payload src header payload src' bytes seen, seen.small, seen.long),
      seen.ending_is,
    )

-- A message takes 28 bytes at least, whatever the bytes are.
pub read_message_shrinks :
    (src : Source) (header : Header) (payload : Bytes) (src' : Source)
    → read_message src ≡ (ok (header, payload), src')
    → length src'.unread + 28 ≤ length src.unread
read_message_shrinks src header payload src' e =
    let seen = read_message-Seen src header payload src' e in
    rw seen.rest_is (
      omega (
        arith,
        length-drop (seen.total - 4) (drop 4 src.unread),
        length-drop 4 src.unread,
        seen.prefixed,
        seen.long,
        seen.whole,
      ))
