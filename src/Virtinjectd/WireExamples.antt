-- ===== src/Virtinjectd/WireExamples.antt =====
-- Runs of the codecs, and the theorems on them at concrete data.
use dra_driver_integration_e.Base.{
  ◌+◌, ◌≤◌, ◌≡◌, refl, none, [], ◌∷◌, ◌++◌, arith, length, ok, err, Bytes, codes,
}
use dra_driver_integration_e.Virtinjectd.Uint32.{be_uint32, put_uint32}
use dra_driver_integration_e.Virtinjectd.Xdr.{
  short_data, xdr_pad, decode_xdr_string, encode_xdr_string, replace_xdr_string,
}
use dra_driver_integration_e.Virtinjectd.Xdr.RoundTrip.{
  decode_xdr_string-encode_xdr_string, Splits, decode_xdr_string-Splits,
}
use dra_driver_integration_e.Virtinjectd.Protocol.{
  Header, IsWire, GoError, eof, unexpected_eof, reading_length, header_size, max_message_size,
  parse_header, Source, split_message, read_full, read_message,
}
use dra_driver_integration_e.Virtinjectd.Protocol.Framing.{frame, read_message-frame}
use dra_driver_integration_e.Virtinjectd.Protocol.Reading.{read_message_ok}
use dra_driver_integration_e.Virtinjectd.Protocol.Failures.{Explains, read_message_err}

-- `<a/>` has four bytes and needs no padding; `ab` needs two.
abbrev xml : Bytes
xml = codes "<a/>"

abbrev flags : Bytes
flags = 0 ∷ 0 ∷ 0 ∷ 1 ∷ []

encode_short : encode_xdr_string (codes "ab") ≡ 0 ∷ 0 ∷ 0 ∷ 2 ∷ b'a' ∷ b'b' ∷ 0 ∷ 0 ∷ []
unfolding encode_xdr_string put_uint32 xdr_pad
encode_short = refl

replaced :
    replace_xdr_string (encode_xdr_string (codes "ab") ++ flags) xml
    ≡ (encode_xdr_string xml ++ flags, none)
unfolding replace_xdr_string decode_xdr_string encode_xdr_string put_uint32 be_uint32 xdr_pad
replaced = refl

decode_short : decode_xdr_string (0 ∷ 0 ∷ 0 ∷ 9 ∷ 1 ∷ []) ≡ err (short_data 16 5)
unfolding decode_xdr_string be_uint32 xdr_pad
decode_short = refl

decode_xdr_string-encode_xdr_string_example :
    decode_xdr_string (encode_xdr_string xml ++ flags) ≡ ok (xml, length (encode_xdr_string xml))
decode_xdr_string-encode_xdr_string_example =
    decode_xdr_string-encode_xdr_string xml flags (omega arith)

-- `ab`, padded with bytes that are not zero, and one byte more.
abbrev padded : Bytes
padded = 0 ∷ 0 ∷ 0 ∷ 2 ∷ b'a' ∷ b'b' ∷ 7 ∷ 7 ∷ 9 ∷ []

padded_decoded : decode_xdr_string padded ≡ ok (codes "ab", 8)
unfolding decode_xdr_string be_uint32 xdr_pad
padded_decoded = refl

decode_xdr_string-Splits_example : Splits padded (codes "ab") 8
decode_xdr_string-Splits_example =
    decode_xdr_string-Splits padded (codes "ab") 8 (omega arith) padded_decoded

abbrev define_header : Header
define_header = record {
  program = 0x20008086;
  version = 1;
  procedure = 11;
  type = 0;
  serial = 5;
  status = 0;
}

abbrev define_bytes : Bytes
define_bytes =
    0x20 ∷ 0 ∷ 0x80 ∷ 0x86 ∷ 0 ∷ 0 ∷ 0 ∷ 1 ∷ 0 ∷ 0 ∷ 0 ∷ 11 ∷ 0 ∷ 0 ∷ 0 ∷ 0 ∷ 0 ∷ 0 ∷ 0 ∷ 5 ∷ 0 ∷ 0
    ∷ 0 ∷ 0 ∷ []

define_parsed : parse_header define_bytes ≡ ok define_header
unfolding parse_header be_uint32
define_parsed = refl

read_message-frame_example :
    read_message (record { unread = frame define_header xml ++ flags; ending = eof })
    ≡ (ok (define_header, xml), record { unread = flags; ending = eof })
read_message-frame_example =
    read_message-frame define_header xml flags eof (omega arith) (omega arith)

abbrev one_message : Source
one_message = record { unread = (0 ∷ 0 ∷ 0 ∷ 32 ∷ (define_bytes ++ xml)) ++ flags; ending = eof }

abbrev one_left : Source
one_left = record { unread = flags; ending = eof }

one_read : read_message one_message ≡ (ok (define_header, xml), one_left)
unfolding read_message split_message read_full parse_header be_uint32
one_read = refl

read_message_ok_example :
    (one_message.unread ≡ frame define_header xml ++ flags)
    × IsWire define_header
    × (header_size + length xml ≤ max_message_size)
    × (◌≡◌ {A = GoError} eof eof)
read_message_ok_example =
    read_message_ok one_message define_header xml one_left (omega arith) one_read

cut_read :
    read_message (record { unread = 0 ∷ 0 ∷ []; ending = eof })
    ≡ (err (reading_length unexpected_eof), record { unread = []; ending = eof })
unfolding read_message read_full
cut_read = refl

read_message_err_example :
    Explains (record { unread = 0 ∷ 0 ∷ []; ending = eof }) (reading_length unexpected_eof)
read_message_err_example = read_message_err _ _ _ cut_read
