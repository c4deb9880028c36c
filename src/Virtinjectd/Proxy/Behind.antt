-- ===== src/Virtinjectd/Proxy/Behind.antt =====
-- What one direction has written when its connections are closed while it runs: a prefix of what
-- `forward` writes without that.
pub mod Rounds
use dra_driver_integration_e.Base.{
  ℕ, zero, suc, ◌-◌, ◌≤◌, ◌≡◌, refl, sym, ap, ◌∙◌, none, [], ◌∷◌, ◌++◌, append_assoc, arith, length,
  take, take_of_length_le, All, All-right, ok, Bytes, IsByte,
}
use mathlib.Core.Path.{subst}
use dra_driver_integration_e.Virtinjectd.Protocol.{
  Header, Source, Sink, read_message, write_message, message_buffer, sink_write,
}
use dra_driver_integration_e.Virtinjectd.Protocol.Framing.{frame, read_message-frame}
use dra_driver_integration_e.Virtinjectd.Protocol.Reading.{read_message_ok}

abbrev pub IsPrefix : Bytes → Bytes → Type 0
IsPrefix a b = (more : Bytes) × (a ++ more ≡ b)

pub All-left : (xs ys : Bytes) → All IsByte (xs ++ ys) → All IsByte xs
All-left [] ys h = tt
All-left (x ∷ xs) ys (p, h) = (p, All-left xs ys h)

pub IsPrefix-trans : (a b c : Bytes) → IsPrefix a b → IsPrefix b c → IsPrefix a c
IsPrefix-trans a b c (m, p) (n, q) = (m ++ n, sym (append_assoc a m n) ∙ (ap (λ s. s ++ n) p ∙ q))

-- A source that has less to read, and a sink that has less room.
pub record Less (src : Source) (dst : Sink) (src1 : Source) (dst1 : Sink) : Type 0 where
  pub unread : IsPrefix src.unread src1.unread
  pub written : dst.written ≡ dst1.written
  pub room : dst.room ≤ dst1.room

-- What a write leaves behind.
pub write_message-written :
    (dst : Sink) (header : Header) (payload : Bytes)
    → (write_message dst header payload).0.written
      ≡ dst.written ++ take dst.room (message_buffer header payload)
unfolding write_message sink_write
write_message-written dst header payload =
    ground (arith, take_of_length_le dst.room (message_buffer header payload))

pub write_message-Less :
    (dst dst1 dst' : Sink) (header : Header) (payload : Bytes)
    → dst.written ≡ dst1.written
    → dst.room ≤ dst1.room
    → write_message dst header payload ≡ (dst', none)
    → (dst1' : Sink) × (write_message dst1 header payload ≡ (dst1', none))
      × (dst'.written ≡ dst1'.written)
      × (dst'.room ≤ dst1'.room)
unfolding write_message sink_write
write_message-Less dst dst1 dst' header payload same room h =
    let buf = message_buffer header payload in
    (
      record dst1 { written = dst1.written ++ buf; room = dst1.room - length buf },
      ground arith,
      ground arith,
      ground arith,
    )

pub read_message-Less :
    (src src1 src' : Source) (header : Header) (payload : Bytes)
    → All IsByte src.unread
    → IsPrefix src.unread src1.unread
    → read_message src ≡ (ok (header, payload), src')
    → (src1' : Source) × (read_message src1 ≡ (ok (header, payload), src1'))
      × IsPrefix src'.unread src1'.unread
      × All IsByte src'.unread
read_message-Less src src1 src' header payload bytes (more, e) h =
    let (whole, wire, small, _) = read_message_ok src header payload src' bytes h in
    let src1' : Source = record { unread = src'.unread ++ more; ending = src1.ending } in
    let regroup : src1.unread ≡ frame header payload ++ (src'.unread ++ more) =
      sym e ∙ (ap (λ s. s ++ more) whole ∙ append_assoc (frame header payload) src'.unread more) in
    (
      src1',
      subst
          (λ u.
            read_message (record { unread = u; ending = src1.ending })
            ≡ (ok (header, payload), src1'))
          (sym regroup)
          (read_message-frame header payload (src'.unread ++ more) src1.ending wire small),
      (more, refl),
      All-right IsByte (frame header payload) src'.unread (subst (All IsByte) whole bytes),
    )

take-IsPrefix : (m n : ℕ) (xs : Bytes) → m ≤ n → IsPrefix (take m xs) (take n xs)
take-IsPrefix zero n xs h = (take n xs, refl)
take-IsPrefix (suc m) zero xs h = absurd (omega arith)
take-IsPrefix (suc m) (suc n) [] h = ([], refl)
take-IsPrefix (suc m) (suc n) (x ∷ xs) h =
    let (more, e) = take-IsPrefix m n xs (omega arith) in (more, ap (◌∷◌ x) e)

-- More room takes at least as many bytes of a message.
pub write_message-IsPrefix :
    (dst dst1 : Sink) (header : Header) (payload : Bytes)
    → dst.written ≡ dst1.written
    → dst.room ≤ dst1.room
    → IsPrefix
        (write_message dst header payload).0.written
        (write_message dst1 header payload).0.written
write_message-IsPrefix dst dst1 header payload same room =
    let buf = message_buffer header payload in
    let (more, e) = take-IsPrefix dst.room dst1.room buf room in
    rw (write_message-written dst header payload, write_message-written dst1 header payload, same)
      (more, append_assoc dst1.written (take dst.room buf) more ∙ ap (◌++◌ dst1.written) e)
