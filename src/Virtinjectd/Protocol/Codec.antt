-- ===== src/Virtinjectd/Protocol/Codec.antt =====
-- `ParseHeader` and `MarshalHeader`.
use dra_driver_integration_e.Base.{
  ℕ, ◌+◌, ◌≤◌, ◌≡◌, refl, ◌∙◌, ◌++◌, arith, length, take, drop, slice, All, take-add,
  take_of_length_le, length-take, length-drop, drop-drop, All-take, All-drop, ok, Bytes, IsByte,
}
use dra_driver_integration_e.Virtinjectd.Uint32.{
  IsUint32, be_uint32, put_uint32, put_uint32-be_uint32, be_uint32-IsUint32,
}
use dra_driver_integration_e.Virtinjectd.Protocol.{
  Header, IsWire, header_size, parse_header, marshal_header,
}

pub marshal_header_lem :
    (h : Header)
    → marshal_header h
      ≡ put_uint32 h.program
        ++ (put_uint32 h.version
            ++ (put_uint32 h.procedure
                ++ (put_uint32 h.type ++ (put_uint32 h.serial ++ put_uint32 h.status))))
unfolding marshal_header put_uint32
marshal_header_lem h = refl

pub length-marshal_header : (h : Header) → length (marshal_header h) ≡ header_size
unfolding marshal_header put_uint32
length-marshal_header h = refl

pub marshal_header-IsByte : (h : Header) → All IsByte (marshal_header h)
unfolding marshal_header put_uint32
marshal_header-IsByte h = omega arith

-- A header is parsed as it was marshalled, whatever follows.
pub parse_header-marshal_header :
    (h : Header) (rest : Bytes) → IsWire h → parse_header (marshal_header h ++ rest) ≡ ok h
unfolding parse_header marshal_header put_uint32 be_uint32
parse_header-marshal_header h rest w = ground arith

six_words :
    (buf : Bytes)
    → take header_size buf
      ≡ slice 0 4 buf
        ++ (slice 4 8 buf
            ++ (slice 8 12 buf ++ (slice 12 16 buf ++ (slice 16 20 buf ++ slice 20 24 buf))))
six_words buf = rw (
  take-add 4 20 buf,
  take-add 4 16 (drop 4 buf),
  ← drop-drop 4 4 buf,
  take-add 4 12 (drop 8 buf),
  ← drop-drop 8 4 buf,
  take-add 4 8 (drop 12 buf),
  ← drop-drop 12 4 buf,
  take-add 4 4 (drop 16 buf),
  ← drop-drop 16 4 buf,
)

word_kept :
    (lo : ℕ) (buf : Bytes)
    → All IsByte buf
    → lo + 4 ≤ length buf
    → (put_uint32 (be_uint32 (take 4 (drop lo buf))) ≡ take 4 (drop lo buf))
      × IsUint32 (be_uint32 (take 4 (drop lo buf)))
word_kept lo buf bytes fits =
    let cut = take 4 (drop lo buf) in
    let cut_bytes = All-take IsByte 4 (drop lo buf) (All-drop IsByte lo buf bytes) in
    let four : length cut ≡ 4 = omega (arith, length-take 4 (drop lo buf), length-drop lo buf) in
    (
      put_uint32-be_uint32 cut cut_bytes (omega arith) ∙ take_of_length_le 4 cut (omega arith),
      be_uint32-IsUint32 cut cut_bytes,
    )

-- What `ParseHeader` reads from a buffer that is long enough.
abbrev fields : Bytes → Header
fields buf = record {
  program = be_uint32 (slice 0 4 buf);
  version = be_uint32 (slice 4 8 buf);
  procedure = be_uint32 (slice 8 12 buf);
  type = be_uint32 (slice 12 16 buf);
  serial = be_uint32 (slice 16 20 buf);
  status = be_uint32 (slice 20 24 buf);
}

parse_header-fields :
    (buf : Bytes) (h : Header)
    → parse_header buf ≡ ok h
    → (header_size ≤ length buf) × (fields buf ≡ h)
unfolding parse_header
parse_header-fields buf h e = ground arith

marshal_header-fields :
    (buf : Bytes)
    → All IsByte buf
    → header_size ≤ length buf
    → (marshal_header (fields buf) ≡ take header_size buf) × IsWire (fields buf)
marshal_header-fields buf bytes enough =
    let w = λ (lo : ℕ) (fits : lo + 4 ≤ length buf). word_kept lo buf bytes fits in
    let w0 = w 0 (omega arith) in
    let w4 = w 4 (omega arith) in
    let w8 = w 8 (omega arith) in
    let w12 = w 12 (omega arith) in
    let w16 = w 16 (omega arith) in
    let w20 = w 20 (omega arith) in
    (
      rw (marshal_header_lem (fields buf), six_words buf, w0.0, w4.0, w8.0, w12.0, w16.0, w20.0),
      record {
        program_fits = w0.1;
        version_fits = w4.1;
        procedure_fits = w8.1;
        type_fits = w12.1;
        serial_fits = w16.1;
        status_fits = w20.1;
      },
    )

-- The bytes of a parsed header are marshalled as they were.
pub marshal_header-parse_header :
    (buf : Bytes) (h : Header)
    → All IsByte buf
    → parse_header buf ≡ ok h
    → (marshal_header h ≡ take header_size buf) × IsWire h
marshal_header-parse_header buf h bytes e =
    let (enough, same) = parse_header-fields buf h e in
    rw same at (marshal_header-fields buf bytes enough)
