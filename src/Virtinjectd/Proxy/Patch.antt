-- ===== src/Virtinjectd/Proxy/Patch.antt =====
-- `patchDefineXML` and the interception: what reaches libvirtd.
use dra_driver_integration_e.Base.{
  ℕ, ◌≤◌, ◌≡◌, refl, inl, inr, true, false, none, some, ◌++◌, arith, if◌then◌else◌, Bool-cases,
  length, drop, drop-length-append, ok, err, Bytes, eq_bytes, eq_bytes_iff,
}
use dra_driver_integration_e.Virtinjectd.Xdr.{
  XdrError, xdr_string_max_len, encode_xdr_string, decode_xdr_string,
}
use dra_driver_integration_e.Virtinjectd.Xdr.RoundTrip.{decode_xdr_string-encode_xdr_string}
use dra_driver_integration_e.Virtinjectd.Xdr.Replace.{replace_xdr_string_ok}
use dra_driver_integration_e.Virtinjectd.Protocol.{Header, is_domain_define_call}
use dra_driver_integration_e.Virtinjectd.Hook.{System, HookChain, HookError, run}
use dra_driver_integration_e.Virtinjectd.Proxy.{replace_xml, patch_define_xml, intercept}

module _ (S : System) (hooks : HookChain) where
  replace_xml_ok :
      (payload patched xml : Bytes) (consumed : ℕ)
      → decode_xdr_string payload ≡ ok (xml, consumed)
      → replace_xml S hooks payload patched
        ≡ (encode_xdr_string patched ++ drop consumed payload, none)
  unfolding replace_xml
  replace_xml_ok payload patched xml consumed h =
      ground (arith, replace_xdr_string_ok payload patched xml consumed h)

  -- The payload of a define call whose hooks end with `out`.
  abbrev pub patched_payload : Bytes → Bytes → Bytes → ℕ → Bytes
  patched_payload payload xml out consumed =
      if eq_bytes out xml then payload else encode_xdr_string out ++ drop consumed payload

  -- A define call whose string decodes, and for which the chain succeeds, is forwarded with the
  -- output of the chain in its place, and with the bytes that follow as they were; if the output is
  -- the input, byte for byte as it came.
  pub intercept_define :
      (w : S.World) (header : Header) (payload xml out : Bytes) (consumed : ℕ) (w' : S.World)
      → is_domain_define_call header ≡ true
      → decode_xdr_string payload ≡ ok (xml, consumed)
      → run S w hooks xml ≡ ((out, none), w')
      → intercept S hooks w header payload ≡ (patched_payload payload xml out consumed, w')
  unfolding intercept patch_define_xml
  intercept_define w header payload xml out consumed w' define decoded ran =
      ground (arith, replace_xml_ok payload out xml consumed decoded)

  -- Every other message passes as it came, and no hook runs for it.
  pub intercept_other :
      (w : S.World) (header : Header) (payload : Bytes)
      → is_domain_define_call header ≡ false
      → intercept S hooks w header payload ≡ (payload, w)
  unfolding intercept
  intercept_other w header payload other = ground arith

  -- A payload whose string does not decode passes as it came, and no hook runs for it.
  pub intercept_malformed :
      (w : S.World) (header : Header) (payload : Bytes) (e : XdrError)
      → decode_xdr_string payload ≡ err e
      → intercept S hooks w header payload ≡ (payload, w)
  unfolding intercept patch_define_xml
  intercept_malformed w header payload e bad = ground arith

  -- A define call for which the chain fails passes as it came.
  pub intercept_failed :
      (w : S.World) (header : Header) (payload xml out : Bytes) (consumed : ℕ) (e : HookError)
      (w' : S.World)
      → is_domain_define_call header ≡ true
      → decode_xdr_string payload ≡ ok (xml, consumed)
      → run S w hooks xml ≡ ((out, some e), w')
      → intercept S hooks w header payload ≡ (payload, w')
  unfolding intercept patch_define_xml
  intercept_failed w header payload xml out consumed e w' define decoded ran = ground arith

  pub decoded_payload :
      (payload xml out : Bytes) (consumed : ℕ)
      → decode_xdr_string payload ≡ ok (xml, consumed)
      → length out ≤ xdr_string_max_len
      → let sent = patched_payload payload xml out consumed in
        (size : ℕ) × (decode_xdr_string sent ≡ ok (out, size))
        × (drop size sent ≡ drop consumed payload)
  decoded_payload payload xml out consumed decoded small = elim (Bool-cases (eq_bytes out xml)) [
    | inl same ↦
        let unchanged = (eq_bytes_iff out xml).0 same in
        (consumed, rw same (rw unchanged decoded), rw same refl)
    | inr differs ↦
        let rest = drop consumed payload in
        (
          length (encode_xdr_string out),
          rw differs (decode_xdr_string-encode_xdr_string out rest small),
          rw differs (drop-length-append (encode_xdr_string out) rest),
        )
  ]

  -- Where the string of a define call decodes and the chain succeeds with an output of at most 4
  -- MiB, that output is what libvirtd decodes from the forwarded payload, and what follows the
  -- string is unchanged.
  pub decode_xdr_string-intercept :
      (w : S.World) (header : Header) (payload xml out : Bytes) (consumed : ℕ) (w' : S.World)
      → is_domain_define_call header ≡ true
      → decode_xdr_string payload ≡ ok (xml, consumed)
      → run S w hooks xml ≡ ((out, none), w')
      → length out ≤ xdr_string_max_len
      → let sent = (intercept S hooks w header payload).0 in
        (size : ℕ) × (decode_xdr_string sent ≡ ok (out, size))
        × (drop size sent ≡ drop consumed payload)
  decode_xdr_string-intercept w header payload xml out consumed w' define decoded ran small =
      rw (intercept_define w header payload xml out consumed w' define decoded ran)
        (decoded_payload payload xml out consumed decoded small)
