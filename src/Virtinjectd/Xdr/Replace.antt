-- ===== src/Virtinjectd/Xdr/Replace.antt =====
-- `ReplaceXDRString`: the string changes, what follows it stays.
use dra_driver_integration_e.Base.{
  ℕ, ◌+◌, ◌≤◌, ◌≡◌, ap, ◌∙◌, none, some, [], ◌++◌, append-nil, length, drop, copy, copy_at,
  length-replicate, drop-length-append, replicate-append, copy-append, copy_at-append, ok, err,
  Bytes, make_bytes,
}
use dra_driver_integration_e.Virtinjectd.Xdr.{
  XdrError, xdr_string_max_len, encode_xdr_string, decode_xdr_string, replace_xdr_string,
}
use dra_driver_integration_e.Virtinjectd.Xdr.RoundTrip.{decode_xdr_string-encode_xdr_string}

-- Two copies into a buffer of the right size are a concatenation.
join_copies :
    (s t : Bytes) → copy_at (length s) (copy (make_bytes (length s + length t)) s) t ≡ s ++ t
join_copies s t =
    let filled = copy_at-append s (make_bytes (length t)) [] t (length-replicate _ _) in
    rw
      (
        replicate-append {A = ℕ} (length s) (length t) 0,
        copy-append (make_bytes (length s)) (make_bytes (length t)) s (length-replicate _ _),
      )
      (simp append-nil at filled)

-- Where the payload starts with a string that decodes, the result is the encoding of the new one
-- and the bytes that followed.
pub replace_xdr_string_ok :
    (payload new_str s : Bytes) (consumed : ℕ)
    → decode_xdr_string payload ≡ ok (s, consumed)
    → replace_xdr_string payload new_str
      ≡ (encode_xdr_string new_str ++ drop consumed payload, none)
unfolding replace_xdr_string
replace_xdr_string_ok payload new_str s consumed h =
    rw (h, replace_xdr_string)
      (ap (λ bytes. (bytes, none))
        (join_copies (encode_xdr_string new_str) (drop consumed payload)))

-- Without one, the payload comes back unchanged with the decoder's error.
pub replace_xdr_string_err :
    (payload new_str : Bytes) {e : XdrError}
    → decode_xdr_string payload ≡ err e
    → replace_xdr_string payload new_str ≡ (payload, some e)
unfolding replace_xdr_string
replace_xdr_string_err payload new_str h = rw (h, replace_xdr_string)

-- Replacing the string of a payload that was encoded with `rest` behind it.
pub replace_xdr_string-encode_xdr_string :
    (old new_str rest : Bytes)
    → length old ≤ xdr_string_max_len
    → replace_xdr_string (encode_xdr_string old ++ rest) new_str
      ≡ (encode_xdr_string new_str ++ rest, none)
replace_xdr_string-encode_xdr_string old new_str rest h =
    replace_xdr_string_ok _ new_str old _ (decode_xdr_string-encode_xdr_string old rest h)
    ∙ rw (drop-length-append (encode_xdr_string old) rest)
