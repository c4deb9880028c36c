-- ===== src/Virtinjectd/Xdr/RoundTrip.antt =====
-- Decoding what `EncodeXDRString` wrote, and what a successful decode says of the input.
use dra_driver_integration_e.Base.{
  ℕ, ◌+◌, ◌%◌, ◌^◌, ◌≤◌, ◌<◌, ◌≡◌, ◌∙◌, ◌++◌, append_assoc, arith, length, take, drop, All,
  length-append, take-append-drop, length-take, length-drop, drop-drop, take-length-append,
  drop-length-append, ok, err, Bytes, IsByte, make_bytes,
}
use dra_driver_integration_e.Virtinjectd.Uint32.{
  be_uint32, put_uint32, length-put_uint32, be_uint32-put_uint32, put_uint32-be_uint32,
}
use dra_driver_integration_e.Virtinjectd.Xdr.{
  out_of_range, xdr_string_max_len, xdr_pad, encode_xdr_string, decode_xdr_string,
}
use dra_driver_integration_e.Virtinjectd.Xdr.Encode.{
  encode_xdr_string_lem, length-encode_xdr_string,
}

-- The encoding behind which `rest` follows, with its length word in front.
encode_ahead :
    (s rest : Bytes)
    → encode_xdr_string s ++ rest
      ≡ put_uint32 (length s % 2 ^ 32) ++ (s ++ (make_bytes (xdr_pad (length s)) ++ rest))
encode_ahead s rest = rw (encode_xdr_string_lem s, append_assoc, append_assoc)

be_uint32-encode_xdr_string :
    (s rest : Bytes) → be_uint32 (encode_xdr_string s ++ rest) ≡ length s % 2 ^ 32
be_uint32-encode_xdr_string s rest =
    rw (encode_ahead s rest) (be_uint32-put_uint32 _ _ ∙ omega arith)

text-encode_xdr_string :
    (s rest : Bytes) → take (length s) (drop 4 (encode_xdr_string s ++ rest)) ≡ s
text-encode_xdr_string s rest =
    let word = put_uint32 (length s % 2 ^ 32) in
    let dropped =
      rw (length-put_uint32 (length s % 2 ^ 32)) at
        (drop-length-append word (s ++ (make_bytes (xdr_pad (length s)) ++ rest))) in
    rw (encode_ahead s rest, dropped) (take-length-append s _)

-- A string of at most 4 MiB is decoded as it was encoded, whatever follows it, and the decoder
-- consumes the encoding and nothing of what follows.
pub decode_xdr_string-encode_xdr_string :
    (s rest : Bytes)
    → length s ≤ xdr_string_max_len
    → decode_xdr_string (encode_xdr_string s ++ rest) ≡ ok (s, length (encode_xdr_string s))
unfolding decode_xdr_string
decode_xdr_string-encode_xdr_string s rest h = ground (
  arith,
  be_uint32-encode_xdr_string s rest,
  text-encode_xdr_string s rest,
  length-append (encode_xdr_string s) rest,
  length-encode_xdr_string s,
)

-- A string of more than 4 MiB, and of less than 4 GiB, is encoded all the same, and its encoding is
-- refused by the decoder.
pub decode_xdr_string_long :
    (s rest : Bytes)
    → xdr_string_max_len < length s
    → length s < 2 ^ 32
    → decode_xdr_string (encode_xdr_string s ++ rest) ≡ err (out_of_range (length s))
unfolding decode_xdr_string
decode_xdr_string_long s rest h k = ground (
  arith,
  be_uint32-encode_xdr_string s rest,
  length-append (encode_xdr_string s) rest,
  length-encode_xdr_string s,
)

-- The input splits into the length word, the string, the padding, and the rest.
pub record Splits (payload s : Bytes) (consumed : ℕ) : Type 0 where
  pub padding : Bytes
  pub pieces : payload ≡ put_uint32 (length s) ++ (s ++ (padding ++ drop consumed payload))
  pub padded : length padding ≡ xdr_pad (length s)
  pub bounded : length s ≤ xdr_string_max_len
  pub consumes : consumed ≡ 4 + length s + xdr_pad (length s)
  pub within : consumed ≤ length payload

decoded_length :
    (payload s : Bytes) (consumed : ℕ)
    → decode_xdr_string payload ≡ ok (s, consumed)
    → (4 ≤ length payload)
      × (be_uint32 payload ≤ xdr_string_max_len)
      × (consumed ≡ 4 + be_uint32 payload + xdr_pad (be_uint32 payload))
      × (consumed ≤ length payload)
      × (s ≡ take (be_uint32 payload) (drop 4 payload))
unfolding decode_xdr_string
decoded_length payload s consumed h = ground arith

in_pieces :
    (payload : Bytes) (n pad : ℕ) {consumed : ℕ}
    → consumed ≡ 4 + n + pad
    → payload
      ≡ take 4 payload
        ++ (take n (drop 4 payload)
            ++ (take pad (drop n (drop 4 payload)) ++ drop consumed payload))
in_pieces payload n pad e = rw (
  e,
  drop-drop (4 + n) pad payload,
  drop-drop 4 n payload,
  take-append-drop pad (drop n (drop 4 payload)),
  take-append-drop n (drop 4 payload),
  take-append-drop 4 payload,
)

-- Whatever a successful decode of bytes returns, the input starts with it: every cut lies within
-- the input, the string respects the limit, and the padding is as long as it must be (its bytes may
-- be any).
pub decode_xdr_string-Splits :
    (payload s : Bytes) (consumed : ℕ)
    → All IsByte payload
    → decode_xdr_string payload ≡ ok (s, consumed)
    → Splits payload s consumed
decode_xdr_string-Splits payload s consumed bytes h =
    let (four, bounded, consumes, within, text) = decoded_length payload s consumed h in
    let n = be_uint32 payload in
    let body = drop 4 payload in
    let pad = xdr_pad n in
    let measured : length s ≡ n =
      rw text (omega (arith, length-take n body, length-drop 4 payload)) in
    record {
      padding = take pad (drop n body);
      pieces =
          rw (measured, text, put_uint32-be_uint32 payload bytes four)
            (in_pieces payload n pad consumes);
      padded =
          rw (measured) (
            omega
              (arith, length-take pad (drop n body), length-drop n body, length-drop 4 payload));
      bounded = rw measured bounded;
      consumes = rw measured consumes;
      within = within;
    }
