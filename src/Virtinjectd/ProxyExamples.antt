-- ===== src/Virtinjectd/ProxyExamples.antt =====
-- Messages through the proxy with a small system behind it, and the theorems at such data.
use mathlib.Core.Path.{subst}
use dra_driver_integration_e.Base.{
  ℕ, ◌≤◌, ◌≡◌, refl, sym, false, none, some, List, [], ◌∷◌, ◌++◌, arith, length, take, drop,
  replicate, All, length-replicate, ok, err, Bytes, codes, eq_bytes,
}
use dra_driver_integration_e.Virtinjectd.Xdr.{
  short_data, out_of_range, encode_xdr_string, decode_xdr_string, xdr_pad,
}
use dra_driver_integration_e.Virtinjectd.Xdr.RoundTrip.{decode_xdr_string_long}
use dra_driver_integration_e.Virtinjectd.Uint32.{be_uint32, put_uint32}
use dra_driver_integration_e.Virtinjectd.Protocol.{
  Header, eof, unexpected_eof, MessageError, reading_length, Source, Sink, read_full, read_message,
  marshal_header, is_domain_define_call,
}
use dra_driver_integration_e.Virtinjectd.Protocol.Framing.{frame}
use dra_driver_integration_e.Virtinjectd.Hook.{
  HookChain, run, discover, run_hooks, run_hook, list_hook_dir,
}
use dra_driver_integration_e.Base.Space.{is_blank}
use dra_driver_integration_e.Virtinjectd.HookExamples.{small_system, no_dir, no_dir_error}
use dra_driver_integration_e.Virtinjectd.Proxy.{
  intercept, passthrough, Stopped, forward, as_error, is_connection_closed,
}
use dra_driver_integration_e.Virtinjectd.Proxy.Errors.{is_connection_closed_end}
use dra_driver_integration_e.Virtinjectd.Proxy.Patch.{intercept_define, intercept_other}
use dra_driver_integration_e.Virtinjectd.Proxy.EndToEnd.{forward-define}
use dra_driver_integration_e.Virtinjectd.Proxy.Forward.{
  Message, IsMessage, Fits, frames, put, processed, forward_total, forward-frames,
}
use dra_driver_integration_e.Virtinjectd.Proxy.Passthrough.{forward-passthrough}

-- The chain of `/one`, which appends a bang.
abbrev one : HookChain
one = record { hook_path = codes "/one"; hook_dir_path = []; hook_domain_name = codes "vm" }

abbrev define : Header
define = record {
  program = 0x20008086;
  version = 1;
  procedure = 350;
  type = 0;
  serial = 5;
  status = 0;
}

abbrev reply : Header
reply = record define { type = 1 }

-- `abc` with its padding, and the flags of the call.
abbrev payload : Bytes
payload = 0 ∷ 0 ∷ 0 ∷ 3 ∷ b'a' ∷ b'b' ∷ b'c' ∷ 0 ∷ 0 ∷ 0 ∷ 0 ∷ 1 ∷ []

decoded : decode_xdr_string payload ≡ ok (codes "abc", 8)
unfolding decode_xdr_string be_uint32 xdr_pad
decoded = refl

ran : run small_system 0 one (codes "abc") ≡ ((codes "abc!", none), 1)
unfolding run discover run_hooks run_hook eq_bytes is_blank
ran = refl

cut : decode_xdr_string (take 6 payload) ≡ err (short_data 8 6)
unfolding decode_xdr_string be_uint32 xdr_pad
cut = refl

failed_abc : run small_system 7 no_dir (codes "abc") ≡ ((codes "abc", some no_dir_error), 7)
unfolding run discover list_hook_dir eq_bytes
failed_abc = refl

-- A string and a payload above the limits; neither
-- is ever written out.
zeros : ℕ → Bytes
zeros n = replicate n 0

length-zeros : (n : ℕ) → length (zeros n) ≡ n
unfolding zeros
length-zeros n = length-replicate n 0

decode_xdr_string_long_example :
    decode_xdr_string (encode_xdr_string (zeros 4194305) ++ [])
    ≡ err (out_of_range (length (zeros 4194305)))
decode_xdr_string_long_example =
    decode_xdr_string_long (zeros 4194305) [] (omega (arith, length-zeros 4194305))
      (omega (arith, length-zeros 4194305))

ended :
    read_message (record { unread = []; ending = eof })
    ≡ (err (reading_length eof), record { unread = []; ending = eof })
unfolding read_message read_full
ended = refl

is_connection_closed_end_example : is_connection_closed (as_error (reading_length eof)) ≡ false
is_connection_closed_end_example =
    is_connection_closed_end (record { unread = []; ending = eof }) (reading_length eof)
      (record { unread = []; ending = eof }) refl ended

abbrev roomy : Sink
roomy = record { written = []; room = 1000; broken = eof }

abbrev two : List Message
two = (define, payload) ∷ (reply, codes "x") ∷ []

abbrev junk : Bytes
junk = 1 ∷ 2 ∷ []

forward_total_example :
    (r : Stopped ℕ) × (forward
        (intercept small_system one)
        0
        (record { unread = junk; ending = eof })
        roomy
      ≡ some r)
forward_total_example =
    forward_total (intercept small_system one) 0 (record { unread = junk; ending = eof }) roomy

junk_stops :
    read_message (record { unread = junk; ending = eof })
    ≡ (err (reading_length unexpected_eof), record { unread = []; ending = eof })
unfolding read_message read_full
junk_stops = refl

abbrev two_sent : List Message
two_sent = (define, encode_xdr_string (codes "abc!") ++ drop 8 payload) ∷ (reply, codes "x") ∷ []

processed-two : processed (intercept small_system one) 0 two ≡ (two_sent, 1)
unfolding encode_xdr_string eq_bytes
processed-two =
    let first =
      intercept_define small_system one 0 define payload (codes "abc") (codes "abc!") 8 1
        (unfold is_domain_define_call in refl) decoded ran in
    let second =
      intercept_other small_system one 1 reply (codes "x") (unfold is_domain_define_call in refl) in
    rw (first, second) refl

two_fit : Fits (processed (intercept small_system one) 0 two).0
unfolding encode_xdr_string put_uint32 xdr_pad
two_fit = subst (λ r. Fits r.0) (sym processed-two) (omega arith)

two_have_room : length (frames (processed (intercept small_system one) 0 two).0) ≤ roomy.room
unfolding encode_xdr_string frame marshal_header put_uint32 xdr_pad
two_have_room = subst (λ r. length (frames r.0) ≤ roomy.room) (sym processed-two) (omega arith)

two_valid : All IsMessage two
two_valid = omega arith

forward-frames_example :
    forward
      (intercept small_system one)
      0
      (record { unread = frames two ++ junk; ending = eof })
      roomy
    ≡ some (record {
      reason = reading_length unexpected_eof;
      source = record { unread = []; ending = eof };
      sink = put roomy (frames (processed (intercept small_system one) 0 two).0);
      world = (processed (intercept small_system one) 0 two).1;
    })
forward-frames_example =
    forward-frames (intercept small_system one) two 0 junk eof roomy (reading_length unexpected_eof)
      (record { unread = []; ending = eof }) two_valid two_fit two_have_room junk_stops

abbrev raw : Bytes
raw = 0 ∷ 0 ∷ 0 ∷ 28 ∷ (replicate 24 7 ++ junk)

forward-passthrough_example :
    (messages : List Message) × (rest : Bytes) × (reason : MessageError) × (last : Source) × (raw
      ≡ frames messages ++ rest)
    × All IsMessage messages
    × (read_message (record { unread = rest; ending = eof }) ≡ (err reason, last))
    × (forward passthrough tt (record { unread = raw; ending = eof }) roomy
        ≡ some (record {
          reason = reason;
          source = last;
          sink = put roomy (frames messages);
          world = tt;
        }))
forward-passthrough_example =
    forward-passthrough tt (record { unread = raw; ending = eof }) roomy (omega arith) (omega arith)

forward-define_example :
    (sent : Bytes) × (size : ℕ) × (forward
        (intercept small_system one)
        0
        (record { unread = frame define payload; ending = eof })
        roomy
      ≡ some (record {
        reason = reading_length eof;
        source = record { unread = []; ending = eof };
        sink = put roomy (frame define sent);
        world = 1;
      }))
    × (read_message (record { unread = frame define sent ++ junk; ending = eof })
        ≡ (ok (define, sent), record { unread = junk; ending = eof }))
    × (decode_xdr_string sent ≡ ok (codes "abc!", size))
    × (drop size sent ≡ drop 8 payload)
forward-define_example =
    forward-define small_system one 0 define payload (codes "abc") (codes "abc!") junk 8 1 eof eof
      roomy (two_valid.0) (unfold is_domain_define_call in refl) decoded ran (omega arith)
      (omega arith) (omega arith)
