-- ===== src/Virtinjectd/Xdr.antt =====
-- virtinjectd/xdr.go: XDR strings. A Go string and a byte slice are both a list of bytes; `int`
-- has 64 bits, so that `int(uint32)` keeps the value and is never negative.
pub mod Encode
pub mod RoundTrip
pub mod Replace
use dra_driver_integration_e.Base.{
  ℕ, ◌+◌, ◌-◌, ◌%◌, ◌^◌, Option, none, some, ltb, ◌==◌, if◌then◌else◌, length, take, drop, copy,
  copy_at, Result, ok, err, Bytes, make_bytes,
}
use dra_driver_integration_e.Virtinjectd.Uint32.{be_uint32, put_uint32}

abbrev pub xdr_string_max_len : ℕ
xdr_string_max_len = 4194304

-- The errors that `DecodeXDRString` formats, with the numbers that they print.
pub data XdrError : Type 0 where
  short_length : ℕ → XdrError
  out_of_range : ℕ → XdrError
  short_data : ℕ → ℕ → XdrError

unfoldable pub xdr_pad : ℕ → ℕ
xdr_pad n = let remainder = n % 4 in if remainder == 0 then 0 else 4 - remainder

-- The string and the number of bytes that it takes.
unfoldable pub decode_xdr_string : Bytes → Result XdrError (Bytes × ℕ)
decode_xdr_string payload =
    if ltb (length payload) 4
    then err (short_length (length payload))
    else (let str_len = be_uint32 payload in
        if ltb xdr_string_max_len str_len
        then err (out_of_range str_len)
        else (let total_consumed = 4 + str_len + xdr_pad str_len in
            if ltb (length payload) total_consumed
            then err (short_data total_consumed (length payload))
            else ok (take str_len (drop 4 payload), total_consumed)))

-- `uint32(strLen)` keeps the low 32 bits, which is what `put_uint32` writes.
unfoldable pub encode_xdr_string : Bytes → Bytes
encode_xdr_string s =
    let str_len = length s in
    let buf = make_bytes (4 + str_len + xdr_pad str_len) in
    copy_at 4 (copy buf (put_uint32 (str_len % 2 ^ 32))) s

-- The new payload, or the payload unchanged and the error.
unfoldable pub replace_xdr_string : Bytes → Bytes → Bytes × Option XdrError
replace_xdr_string payload new_str = elim (decode_xdr_string payload) [
  | err e ↦ (payload, some e)
  | ok (_, consumed) ↦
      let new_encoded = encode_xdr_string new_str in
      let remainder = drop consumed payload in
      let result = make_bytes (length new_encoded + length remainder) in
      (copy_at (length new_encoded) (copy result new_encoded) remainder, none)
]
