-- ===== src/Virtinjectd/Xdr/Encode.antt =====
-- `EncodeXDRString` with no buffer: the pieces one after the other.
use dra_driver_integration_e.Base.{
  ℕ, ◌+◌, ◌%◌, ◌^◌, ◌<◌, ◌≡◌, sym, ◌++◌, append_assoc, arith, length, copy, copy_at, length-append,
  length-replicate, replicate-append, copy-append, copy_at-append, Bytes, make_bytes,
}
use dra_driver_integration_e.Virtinjectd.Uint32.{put_uint32, length-put_uint32}
use dra_driver_integration_e.Virtinjectd.Xdr.{xdr_pad, encode_xdr_string}

pub xdr_pad_lt : (n : ℕ) → xdr_pad n < 4
unfolding xdr_pad
xdr_pad_lt n = ground arith

pub xdr_pad_aligns : (n : ℕ) → (n + xdr_pad n) % 4 ≡ 0
unfolding xdr_pad
xdr_pad_aligns n = ground arith

zeros_split :
    (n pad : ℕ) → make_bytes (4 + n + pad) ≡ make_bytes 4 ++ (make_bytes n ++ make_bytes pad)
zeros_split n pad =
    rw (replicate-append {A = ℕ} (4 + n) pad 0, replicate-append {A = ℕ} 4 n 0)
      (append_assoc (make_bytes 4) (make_bytes n) (make_bytes pad))

-- Two copies into a zeroed buffer put `word` and `s` in front of the padding.
copies :
    (word s : Bytes) (pad : ℕ)
    → length word ≡ 4
    → copy_at 4 (copy (make_bytes (4 + length s + pad)) word) s ≡ word ++ (s ++ make_bytes pad)
copies word s pad e =
    rw (zeros_split (length s) pad, copy-append (make_bytes 4) _ word (sym e))
      (rw e at
        (copy_at-append word (make_bytes (length s)) (make_bytes pad) s (length-replicate _ _)))

-- The length word, the string, and zeros up to the next multiple of four.
pub encode_xdr_string_lem :
    (s : Bytes)
    → encode_xdr_string s ≡ put_uint32 (length s % 2 ^ 32) ++ (s ++ make_bytes (xdr_pad (length s)))
unfolding encode_xdr_string
encode_xdr_string_lem s = copies _ s _ (length-put_uint32 _)

pub length-encode_xdr_string :
    (s : Bytes) → length (encode_xdr_string s) ≡ 4 + length s + xdr_pad (length s)
length-encode_xdr_string s =
    rw (encode_xdr_string_lem s, length-append, length-append, length-put_uint32, length-replicate)
      (omega arith)
