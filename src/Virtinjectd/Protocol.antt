-- ===== src/Virtinjectd/Protocol.antt =====
-- virtinjectd/protocol.go: the framing of libvirt RPC messages. A connection that is read is the
-- bytes that are still to come and the error that ends them; one that is written takes some bytes
-- yet, and then fails.
pub mod Codec
pub mod Framing
pub mod Failures
pub mod Reading
use dra_driver_integration_e.Base.{
  ℕ, ◌+◌, ◌-◌, ◌%◌, ◌^◌, Bool, ◌&&◌, ◌||◌, Option, none, some, [], ◌∷◌, ◌++◌, ltb, leb, ◌==◌,
  if◌then◌else◌, length, take, drop, slice, copy, copy_at, Result, ok, err, Bytes, make_bytes,
  codes,
}
use dra_driver_integration_e.Base.Decimal.{itoa}
use dra_driver_integration_e.Virtinjectd.Uint32.{IsUint32, be_uint32, put_uint32}

abbrev pub remote_program : ℕ
remote_program = 0x20008086

abbrev pub remote_protocol_version : ℕ
remote_protocol_version = 1

abbrev pub proc_domain_define_xml : ℕ
proc_domain_define_xml = 11

abbrev pub proc_domain_define_xml_flags : ℕ
proc_domain_define_xml_flags = 350

abbrev pub type_call : ℕ
type_call = 0

abbrev pub header_size : ℕ
header_size = 24

abbrev pub length_prefix_size : ℕ
length_prefix_size = 4

abbrev pub max_message_size : ℕ
max_message_size = 33554432

pub record Header : Type 0 where
  pub program : ℕ
  pub version : ℕ
  pub procedure : ℕ
  pub type : ℕ
  pub serial : ℕ
  pub status : ℕ

-- What the type `uint32` of the six fields promises.
pub record IsWire (h : Header) : Type 0 where
  pub program_fits : IsUint32 h.program
  pub version_fits : IsUint32 h.version
  pub procedure_fits : IsUint32 h.procedure
  pub type_fits : IsUint32 h.type
  pub serial_fits : IsUint32 h.serial
  pub status_fits : IsUint32 h.status

-- Errors of the standard library: three values that code compares with, and the rest by text.
pub data GoError : Type 0 where
  eof unexpected_eof net_closed : GoError
  other : Bytes → GoError

abbrev pub error_text : GoError → Bytes
error_text eof = codes "EOF"
error_text unexpected_eof = codes "unexpected EOF"
error_text net_closed = codes "use of closed network connection"
error_text (other text) = text

-- The errors that this file formats, with what they wrap.
pub data MessageError : Type 0 where
  short_header : ℕ → MessageError
  reading_length : GoError → MessageError
  too_short : ℕ → MessageError
  too_large : ℕ → MessageError
  reading_data : ℕ → GoError → MessageError
  parsing_header : MessageError → MessageError
  writing : ℕ → GoError → MessageError

unfoldable pub message_text : MessageError → Bytes
message_text (short_header n) =
    codes "header buffer too short: " ++ (itoa n ++ (codes " < " ++ itoa header_size))
message_text (reading_length e) = codes "reading message length: " ++ error_text e
message_text (too_short n) = codes "message too short: " ++ (itoa n ++ codes " bytes")
message_text (too_large n) =
    codes "message too large: " ++ (itoa n ++ (codes " > " ++ itoa max_message_size))
message_text (reading_data n e) =
    codes "reading message data (" ++ (itoa n ++ (codes " bytes): " ++ error_text e))
message_text (parsing_header e) = codes "parsing header: " ++ message_text e
message_text (writing n e) =
    codes "writing message (" ++ (itoa n ++ (codes " bytes): " ++ error_text e))

pub record Source : Type 0 where
  pub unread : Bytes
  pub ending : GoError

pub record Sink : Type 0 where
  pub written : Bytes
  pub room : ℕ
  pub broken : GoError

-- The bytes of an unfinished read are lost, and an end inside them is another error than an end
-- in front of them.
pub short_read : Bytes → GoError → GoError
short_read [] e = e
short_read (b ∷ bs) eof = unexpected_eof
short_read (b ∷ bs) e = e

-- `io.ReadFull` into a buffer of `n` bytes.
unfoldable pub read_full : ℕ → Source → Result GoError Bytes × Source
unfolding short_read
read_full n src =
    if leb n (length src.unread)
    then (ok (take n src.unread), record src { unread = drop n src.unread })
    else (err (short_read src.unread src.ending), record src { unread = [] })

-- `conn.Write`: what fits is written.
unfoldable pub sink_write : Sink → Bytes → Sink × Option GoError
sink_write dst buf =
    if leb (length buf) dst.room
    then (record dst { written = dst.written ++ buf; room = dst.room - length buf }, none)
    else (record dst { written = dst.written ++ take dst.room buf; room = 0 }, some dst.broken)

unfoldable pub parse_header : Bytes → Result MessageError Header
parse_header buf =
    if ltb (length buf) header_size
    then err (short_header (length buf))
    else ok (record {
      program = be_uint32 (slice 0 4 buf);
      version = be_uint32 (slice 4 8 buf);
      procedure = be_uint32 (slice 8 12 buf);
      type = be_uint32 (slice 12 16 buf);
      serial = be_uint32 (slice 16 20 buf);
      status = be_uint32 (slice 20 24 buf);
    })

unfoldable pub marshal_header : Header → Bytes
marshal_header h =
    let program = copy_at 0 (make_bytes header_size) (put_uint32 h.program) in
    let version = copy_at 4 program (put_uint32 h.version) in
    let procedure = copy_at 8 version (put_uint32 h.procedure) in
    let type = copy_at 12 procedure (put_uint32 h.type) in
    let serial = copy_at 16 type (put_uint32 h.serial) in copy_at 20 serial (put_uint32 h.status)

-- The last two steps of `ReadMessage`.
unfoldable pub split_message : Bytes → Result MessageError (Header × Bytes)
split_message body = elim (parse_header (slice 0 header_size body)) [
  | err e ↦ err (parsing_header e)
  | ok header ↦ ok (header, drop header_size body)
]

-- `ReadMessage` once the length word has been read. `totalLength - LengthPrefixSize` cannot wrap
-- behind the first test.
read_body : ℕ → Source → Result MessageError (Header × Bytes) × Source
read_body total_length src =
    if ltb total_length (length_prefix_size + header_size)
    then (err (too_short total_length), src)
    else (let data_length = total_length - length_prefix_size in
        if ltb max_message_size data_length
        then (err (too_large data_length), src)
        else (let (body, rest) = read_full data_length src in
            elim body [
              | err e ↦ (err (reading_data data_length e), rest)
              | ok bytes ↦ (split_message bytes, rest)
            ]))

unfoldable pub read_message : Source → Result MessageError (Header × Bytes) × Source
unfolding read_body
read_message src =
    let (prefix, rest) = read_full length_prefix_size src in
    elim prefix [
      | err e ↦ (err (reading_length e), rest)
      | ok length_buf ↦ read_body (be_uint32 length_buf) rest
    ]

-- The buffer that `WriteMessage` builds. `uint32(…)` wraps: a payload of 4 GiB or more, which no
-- caller has, would be cut, or panic where the wrapped length is below 28.
unfoldable pub message_buffer : Header → Bytes → Bytes
message_buffer header payload =
    let total_length = (length_prefix_size + header_size + length payload) % 2 ^ 32 in
    let prefixed = copy (make_bytes total_length) (put_uint32 total_length) in
    let headed = copy_at length_prefix_size prefixed (marshal_header header) in
    copy_at (length_prefix_size + header_size) headed payload

unfoldable pub write_message : Sink → Header → Bytes → Sink × Option MessageError
write_message dst header payload =
    let buf = message_buffer header payload in
    let (dst', failed) = sink_write dst buf in
    (dst', elim failed [ none ↦ none | some e ↦ some (writing (length buf) e) ])

unfoldable pub is_domain_define_call : Header → Bool
is_domain_define_call h =
    h.program == remote_program
    && h.version == remote_protocol_version
    && h.type == type_call
    && (h.procedure == proc_domain_define_xml || h.procedure == proc_domain_define_xml_flags)
