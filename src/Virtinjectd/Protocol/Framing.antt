-- ===== src/Virtinjectd/Protocol/Framing.antt =====
-- The bytes of a message, what `WriteMessage` does with them, and that `ReadMessage` reads them.
use dra_driver_integration_e.Base.{
  ℕ, ◌+◌, ◌-◌, ◌%◌, ◌^◌, ◌≤◌, ◌<◌, ◌≡◌, refl, sym, ap, ◌∙◌, none, some, [], ◌++◌, append_assoc,
  append-nil, arith, leb, if◌then◌else◌, length, take, copy, copy_at, length-append,
  length-replicate, replicate-append, copy-append, copy_at_here, take_here, drop_here, ok, err,
  Bytes, make_bytes,
}
use dra_driver_integration_e.Virtinjectd.Uint32.{
  put_uint32, length-put_uint32, be_uint32-put_uint32,
}
use dra_driver_integration_e.Virtinjectd.Protocol.{
  Header, IsWire, GoError, too_large, writing, header_size, max_message_size, marshal_header,
  message_buffer, write_message, Sink, sink_write, read_full, split_message, read_body,
  read_message,
}
use dra_driver_integration_e.Virtinjectd.Protocol.Codec.{
  length-marshal_header, parse_header-marshal_header,
}

-- The frame of a message: the length of the whole, the header, the payload.
unfoldable pub frame : Header → Bytes → Bytes
frame header payload = put_uint32 (28 + length payload) ++ (marshal_header header ++ payload)

pub length-frame : (h : Header) (p : Bytes) → length (frame h p) ≡ 28 + length p
unfolding frame
length-frame h p =
    rw (length-append, length-put_uint32, length-append, length-marshal_header) (omega arith)

buffer_filled :
    (word head payload : Bytes)
    → length word ≡ 4
    → length head ≡ 24
    → copy_at 28 (copy_at 4 (copy (make_bytes (28 + length payload)) word) head) payload
      ≡ word ++ (head ++ payload)
buffer_filled word head payload four long =
    let n = length payload in
    let zeros : make_bytes (28 + n) ≡ make_bytes 4 ++ (make_bytes 24 ++ make_bytes n) =
      rw (replicate-append {A = ℕ} 28 n 0) refl in
    let headed = copy_at_here 4 word (make_bytes 24) (make_bytes n) head four (sym long) in
    let whole =
      copy_at_here 28 (word ++ head) (make_bytes n) [] payload
        (length-append word head ∙ omega arith) (length-replicate n 0) in
    rw (zeros, copy-append (make_bytes 4) (make_bytes 24 ++ make_bytes n) word (sym four), headed)
      (simp (append-nil, append_assoc) at whole)

-- `WriteMessage` builds the frame of its arguments.
pub message_buffer-frame :
    (header : Header) (payload : Bytes)
    → 28 + length payload < 2 ^ 32
    → message_buffer header payload ≡ frame header payload
unfolding message_buffer frame
message_buffer-frame header payload small =
    let fits : (28 + length payload) % 2 ^ 32 ≡ 28 + length payload = omega arith in
    rw fits (buffer_filled _ _ payload (length-put_uint32 _) (length-marshal_header header))

read_full_here :
    (n : ℕ) (bs rest : Bytes) (ending : GoError)
    → length bs ≡ n
    → read_full n (record { unread = bs ++ rest; ending = ending })
      ≡ (ok bs, record { unread = rest; ending = ending })
unfolding read_full
read_full_here n bs rest ending e =
    rw (take_here n bs rest e, drop_here n bs rest e) (ground (arith, length-append bs rest))

split_message_here :
    (header : Header) (payload : Bytes)
    → IsWire header
    → split_message (marshal_header header ++ payload) ≡ ok (header, payload)
unfolding split_message
split_message_here header payload wire =
    let head = marshal_header header in
    let long = length-marshal_header header in
    let parsed = rw append-nil at (parse_header-marshal_header header [] wire) in
    ground (arith, take_here 24 head payload long, drop_here 24 head payload long, parsed)

read_body_here :
    (header : Header) (payload rest : Bytes) (ending : GoError)
    → IsWire header
    → header_size + length payload ≤ max_message_size
    → read_body
        (28 + length payload)
        (record { unread = (marshal_header header ++ payload) ++ rest; ending = ending })
      ≡ (ok (header, payload), record { unread = rest; ending = ending })
unfolding read_body
read_body_here header payload rest ending wire small =
    let body = marshal_header header ++ payload in
    let whole : length body ≡ 24 + length payload =
      length-append (marshal_header header) payload
      ∙ ap (λ (n : ℕ). n + length payload) (length-marshal_header header) in
    let less : 28 + length payload - 4 ≡ 24 + length payload = omega arith in
    ground (
      arith,
      less,
      read_full_here (24 + length payload) body rest ending whole,
      split_message_here header payload wire,
    )

-- A frame is read back, and the input after it stays, where the header's fields have 32 bits and
-- the header and the payload have at most 32 MiB.
pub read_message-frame :
    (header : Header) (payload rest : Bytes) (ending : GoError)
    → IsWire header
    → header_size + length payload ≤ max_message_size
    → read_message (record { unread = frame header payload ++ rest; ending = ending })
      ≡ (ok (header, payload), record { unread = rest; ending = ending })
unfolding read_message frame
read_message-frame header payload rest ending wire small =
    let word = put_uint32 (28 + length payload) in
    let body = marshal_header header ++ payload in
    let value = rw append-nil at (be_uint32-put_uint32 (28 + length payload) []) in
    rw (append_assoc word body rest) (
      ground (
        arith,
        read_full_here 4 word (body ++ rest) ending (length-put_uint32 _),
        value,
        read_body_here header payload rest ending wire small,
      ))

-- A frame of more than 32 MiB, and of less than 4 GiB, is refused after its length word, and the
-- rest stays unread.
pub read_message-frame_large :
    (header : Header) (payload rest : Bytes) (ending : GoError)
    → max_message_size < header_size + length payload
    → 28 + length payload < 2 ^ 32
    → read_message (record { unread = frame header payload ++ rest; ending = ending }) ≡ (
      err (too_large (24 + length payload)),
      record { unread = marshal_header header ++ (payload ++ rest); ending = ending },
    )
unfolding read_message frame read_body
read_message-frame_large header payload rest ending large small =
    let word = put_uint32 (28 + length payload) in
    let after = marshal_header header ++ (payload ++ rest) in
    let value = rw append-nil at (be_uint32-put_uint32 (28 + length payload) []) in
    let less : 28 + length payload - 4 ≡ 24 + length payload = omega arith in
    rw
      (
        append_assoc word (marshal_header header ++ payload) rest,
        append_assoc (marshal_header header) payload rest,
      )
      (ground (arith, less, read_full_here 4 word after ending (length-put_uint32 _), value))

-- A message of less than 4 GiB is written whole as its frame where there is room for it; without,
-- the connection takes what fits and `WriteMessage` fails.
pub write_message_lem :
    (dst : Sink) (header : Header) (payload : Bytes)
    → 28 + length payload < 2 ^ 32
    → write_message dst header payload ≡ (
        if leb (28 + length payload) dst.room
        then (
          record dst {
            written = dst.written ++ frame header payload;
            room = dst.room - (28 + length payload);
          },
          none,
        )
        else (
          record dst { written = dst.written ++ take dst.room (frame header payload); room = 0 },
          some (writing (28 + length payload) dst.broken),
        ))
unfolding write_message sink_write
write_message_lem dst header payload small =
    ground (arith, message_buffer-frame header payload small, length-frame header payload)
