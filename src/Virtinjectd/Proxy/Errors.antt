-- ===== src/Virtinjectd/Proxy/Errors.antt =====
-- `isConnectionClosed` on the errors that `forward` returns.
use dra_driver_integration_e.Base.{
  ℕ, ◌<◌, ◌≡◌, ◌≢◌, ◌⊎◌, inl, inr, true, false, ◌++◌, arith, drop, Member, All-append, All-imp, err,
  Bytes, codes, contains,
}
use dra_driver_integration_e.Base.Decimal.{itoa, itoa-IsDigit, IsDigit}
use dra_driver_integration_e.Base.FilePath.{Lacks}
use dra_driver_integration_e.Base.Search.{contains-Lacks, contains-append}
use dra_driver_integration_e.Virtinjectd.Protocol.{
  GoError, eof, unexpected_eof, other, error_text, MessageError, short_header, reading_length,
  too_short, too_large, reading_data, parsing_header, writing, message_text, max_message_size,
  Source, read_message,
}
use dra_driver_integration_e.Virtinjectd.Protocol.Failures.{
  read_message_err, Explains, short_read_eof,
}
use dra_driver_integration_e.Virtinjectd.Proxy.{is_connection_closed, as_error}

abbrev closed_text : Bytes
closed_text = codes "use of closed network connection"

abbrev reset_text : Bytes
reset_text = codes "connection reset by peer"

-- Digits are no letters.
itoa-Lacks : (c n : ℕ) → b'9' < c → Lacks c (itoa n)
itoa-Lacks c n h = All-imp IsDigit (λ d. d ≢ c) (λ d is. omega arith) (itoa n) (itoa-IsDigit n)

Lacks-append : (c : ℕ) (s t : Bytes) → Lacks c s → Lacks c t → Lacks c (s ++ t)
Lacks-append c s t hs ht = All-append (λ d. d ≢ c) s t hs ht

-- A number between two texts.
around-Lacks :
    (c n : ℕ) (front back : Bytes)
    → b'9' < c
    → Lacks c front
    → Lacks c back
    → Lacks c (front ++ (itoa n ++ back))
around-Lacks c n front back digit hf hb =
    Lacks-append c front (itoa n ++ back) hf
      (Lacks-append c (itoa n) back (itoa-Lacks c n digit) hb)

-- An error is not recognised if its text lacks a byte of each of the two texts.
not_closed :
    (e : MessageError) (c d : ℕ)
    → Lacks c (message_text e)
    → Lacks d (message_text e)
    → Member c closed_text
    → Member d reset_text
    → is_connection_closed (as_error e) ≡ false
unfolding is_connection_closed
not_closed e c d h k m n =
    rw (contains-Lacks c (message_text e) closed_text h m)
      (contains-Lacks d (message_text e) reset_text k n)

-- The two errors of an input that has ended.
abbrev IsEnd : GoError → Type 0
IsEnd e = (e ≡ eof) ⊎ (e ≡ unexpected_eof)

end_text : (e : GoError) → IsEnd e → Lacks b'o' (error_text e)
end_text e (inl p) = rw p (omega arith)
end_text e (inr p) = rw p (omega arith)

module _ (g : GoError) (end : IsEnd g) where
  not_closed_length : is_connection_closed (as_error (reading_length g)) ≡ false
  unfolding message_text
  not_closed_length =
      let text =
        Lacks-append b'o' (codes "reading message length: ") (error_text g) (omega arith)
          (end_text g end) in
      not_closed (reading_length g) b'o' b'o' text text (ground arith) (ground arith)

  not_closed_data : (n : ℕ) → is_connection_closed (as_error (reading_data n g)) ≡ false
  unfolding message_text
  not_closed_data n =
      let back = codes " bytes): " ++ error_text g in
      let lacks_back : Lacks b'o' back =
        Lacks-append b'o' (codes " bytes): ") (error_text g) (omega arith) (end_text g end) in
      let text =
        around-Lacks b'o' n (codes "reading message data (") back (omega arith) (omega arith)
          lacks_back in
      not_closed (reading_data n g) b'o' b'o' text text (ground arith) (ground arith)

not_closed_short : (n : ℕ) → is_connection_closed (as_error (too_short n)) ≡ false
unfolding message_text
not_closed_short n =
    let front = codes "message too short: " in
    let back = codes " bytes" in
    not_closed (too_short n) b'w' b'p'
      (around-Lacks b'w' n front back (omega arith) (omega arith) (omega arith))
      (around-Lacks b'p' n front back (omega arith) (omega arith) (omega arith)) (ground arith)
      (ground arith)

limit-Lacks :
    (c : ℕ) → b'9' < c → Lacks c (codes " > ") → Lacks c (codes " > " ++ itoa max_message_size)
limit-Lacks c digit h =
    Lacks-append c (codes " > ") (itoa max_message_size) h (itoa-Lacks c max_message_size digit)

not_closed_large : (n : ℕ) → is_connection_closed (as_error (too_large n)) ≡ false
unfolding message_text
not_closed_large n =
    let front = codes "message too large: " in
    let back = codes " > " ++ itoa max_message_size in
    not_closed (too_large n) b'w' b'p'
      (around-Lacks b'w' n front back (omega arith) (omega arith)
        (limit-Lacks b'w' (omega arith) (omega arith)))
      (around-Lacks b'p' n front back (omega arith) (omega arith)
        (limit-Lacks b'p' (omega arith) (omega arith)))
      (ground arith) (ground arith)

unrecognised :
    (src : Source) (e : MessageError)
    → src.ending ≡ eof
    → Explains src e
    → is_connection_closed (as_error e) ≡ false
unrecognised src (reading_length g) end (_, is) =
    not_closed_length g (rw (is, end) (short_read_eof src.unread))
unrecognised src (reading_data n g) end x =
    not_closed_data g (rw (x.5, end) (short_read_eof (drop 4 src.unread))) n
unrecognised src (too_short n) end x = not_closed_short n
unrecognised src (too_large n) end x = not_closed_large n
unrecognised src (short_header n) end x = elim x [ ]
unrecognised src (parsing_header e) end x = elim x [ ]
unrecognised src (writing n g) end x = elim x [ ]

-- When the peer has closed its end, the error that `ReadMessage` returns is not recognised as a
-- closed connection, wherever the input ends: the wrapped `io.EOF` is not `io.EOF`.
pub is_connection_closed_end :
    (src : Source) (e : MessageError) (src' : Source)
    → src.ending ≡ eof
    → read_message src ≡ (err e, src')
    → is_connection_closed (as_error e) ≡ false
is_connection_closed_end src e src' end h = unrecognised src e end (read_message_err src e src' h)

-- A connection that the other goroutine has closed is recognised by its text through the wrapping,
-- also where it is closed inside a message.
pub is_connection_closed_text :
    (n : ℕ) (text : Bytes)
    → contains text (codes "use of closed network connection") ≡ true
    → (is_connection_closed (as_error (reading_length (other text))) ≡ true)
      × (is_connection_closed (as_error (reading_data n (other text))) ≡ true)
      × (is_connection_closed (as_error (writing n (other text))) ≡ true)
unfolding is_connection_closed message_text
is_connection_closed_text n text h =
    let tail = contains-append (codes " bytes): ") text closed_text h in
    let number = contains-append (itoa n) _ closed_text tail in
    let size = contains-append (codes "reading message length: ") text closed_text h in
    let read = contains-append (codes "reading message data (") _ closed_text number in
    let wrote = contains-append (codes "writing message (") _ closed_text number in
    (rw size, rw read, rw wrote)
