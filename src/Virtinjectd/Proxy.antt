-- ===== src/Virtinjectd/Proxy.antt =====
-- virtinjectd/proxy.go: patching a define call, and forwarding one direction of a connection. The
-- processor of `forward` is a function over a state, since the hooks may change the system's.
pub mod Errors
pub mod Accept
pub mod Patch
pub mod Forward
pub mod Passthrough
pub mod Connection
pub mod Round
pub mod Behind
pub mod Session
pub mod EndToEnd
use dra_driver_integration_e.Base.{
  ℕ, zero, suc, Bool, true, false, not, ◌||◌, Option, none, some, List, [], ◌∷◌, if◌then◌else◌,
  length, Result, ok, err, Bytes, codes, eq_bytes, contains,
}
use dra_driver_integration_e.Virtinjectd.Xdr.{XdrError, decode_xdr_string, replace_xdr_string}
use dra_driver_integration_e.Virtinjectd.Protocol.{
  Header, GoError, eof, net_closed, error_text, MessageError, message_text, Source, Sink,
  read_message, write_message, is_domain_define_call,
}
use dra_driver_integration_e.Virtinjectd.Hook.{System, HookChain, HookError, run}

-- The errors that `patchDefineXML` passes on, by the step they come from.
pub data PatchError : Type 0 where
  decoding : XdrError → PatchError
  running : HookError → PatchError
  replacing : XdrError → PatchError

module _ (S : System) (hooks : HookChain) where
  -- The last step of `patchDefineXML`.
  replace_xml : Bytes → Bytes → Bytes × Option PatchError
  replace_xml payload patched_xml =
      let (new_payload, failure) = replace_xdr_string payload patched_xml in
      elim failure [ some e ↦ (payload, some (replacing e)) | none ↦ (new_payload, none) ]

  unfoldable pub patch_define_xml : S.World → Bytes → (Bytes × Option PatchError) × S.World
  unfolding replace_xml
  patch_define_xml w payload = elim (decode_xdr_string payload) [
    | err e ↦ ((payload, some (decoding e)), w)
    | ok (xml, _) ↦
        let ((patched_xml, failure), w') = run S w hooks xml in
        elim failure [
          | some e ↦ ((payload, some (running e)), w')
          | none ↦ (
            if eq_bytes patched_xml xml then (payload, none) else replace_xml payload patched_xml,
            w',
          )
        ]
  ]

  -- The closure `intercept` of `handleConnection`.
  unfoldable pub intercept : S.World → Header → Bytes → Bytes × S.World
  intercept w header payload =
      if not (is_domain_define_call header)
      then (payload, w)
      else (let ((updated_payload, failure), w') = patch_define_xml w payload in
          (elim failure [ some e ↦ payload | none ↦ updated_payload ], w'))

-- The closure `passthrough`.
unfoldable pub passthrough : {W : Type 0} → W → Header → Bytes → Bytes × W
passthrough w header payload = (payload, w)

-- How `forward` ends: with the error it returns, and what is left on both sides.
pub record Stopped (W : Type 0) : Type 0 where
  pub reason : MessageError
  pub source : Source
  pub sink : Sink
  pub world : W

module _ {W : Type 0} (processor : W → Header → Bytes → Bytes × W) where
  -- Each round of the loop reads 28 bytes at least; `none` means that the fuel ran out.
  pub forward_loop : ℕ → W → Source → Sink → Option (Stopped W)
  forward_loop zero w src dst = none
  forward_loop (suc fuel) w src dst =
      let (message, src') = read_message src in
      elim message [
        | err e ↦ some (record { reason = e; source = src'; sink = dst; world = w })
        | ok (header, payload) ↦
            let (payload', w') = processor w header payload in
            let (dst', failed) = write_message dst header payload' in
            elim failed [
              | some e ↦ some (record { reason = e; source = src'; sink = dst'; world = w' })
              | none ↦ forward_loop fuel w' src' dst'
            ]
      ]

  unfoldable pub forward : W → Source → Sink → Option (Stopped W)
  unfolding forward_loop
  forward w src dst = forward_loop (suc (length src.unread)) w src dst

-- An error that `fmt.Errorf` has formatted is a new value: it is equal to none that code compares
-- with, and is known by its text.
abbrev pub as_error : MessageError → GoError
as_error e = GoError.other (message_text e)

is_sentinel : GoError → Bool
is_sentinel eof = true
is_sentinel net_closed = true
is_sentinel _ = false

-- For an error that is not nil.
unfoldable pub is_connection_closed : GoError → Bool
unfolding is_sentinel
is_connection_closed e =
    is_sentinel e
    || contains (error_text e) (codes "use of closed network connection")
    || contains (error_text e) (codes "connection reset by peer")

-- `Run`: the outcomes of `listener.Accept`, in order. The connections that get a goroutine, and
-- whether the loop has returned; it goes on for ever otherwise.
unfoldable pub accept_loop : {C : Type 0} → List (Result GoError C) → List C × Bool
accept_loop [] = ([], false)
accept_loop (ok conn ∷ outcomes) =
    let (conns, returned) = accept_loop outcomes in (conn ∷ conns, returned)
accept_loop (err e ∷ outcomes) =
    let rest = accept_loop outcomes in if is_connection_closed e then ([], true) else rest
