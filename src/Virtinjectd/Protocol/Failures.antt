-- ===== src/Virtinjectd/Protocol/Failures.antt =====
-- Each failure of `ReadMessage`, with the input that causes it.
use dra_driver_integration_e.Base.{
  ℕ, ◌+◌, ◌-◌, ◌≤◌, ◌<◌, ◌≡◌, refl, ◌≢◌, ◌⊎◌, inl, inr, [], ◌∷◌, arith, length, take, drop,
  length-take, length-drop, err, Bytes,
}
use dra_driver_integration_e.Virtinjectd.Uint32.{be_uint32}
use dra_driver_integration_e.Virtinjectd.Protocol.{
  GoError, eof, unexpected_eof, MessageError, short_header, reading_length, too_short, too_large,
  reading_data, parsing_header, writing, short_read, max_message_size, parse_header, Source,
  split_message, read_full, read_message,
}

-- The length that the input declares.
abbrev declared : Source → ℕ
declared src = be_uint32 (take 4 src.unread)

-- What each error of `ReadMessage` says of the input. The last three are not errors of it:
-- `ParseHeader` is given 24 bytes, and nothing is written.
abbrev pub Explains : Source → MessageError → Type 0
Explains src (reading_length e) = (length src.unread < 4) × (e ≡ short_read src.unread src.ending)
Explains src (too_short n) = (4 ≤ length src.unread) × (n ≡ declared src) × (n < 28)
Explains src (too_large n) =
    (4 ≤ length src.unread) × (n + 4 ≡ declared src) × (max_message_size < n)
Explains src (reading_data n e) =
    (4 ≤ length src.unread)
    × (n + 4 ≡ declared src)
    × (24 ≤ n)
    × (n ≤ max_message_size)
    × (length src.unread < n + 4)
    × (e ≡ short_read (drop 4 src.unread) src.ending)
Explains src (short_header n) = ⊥
Explains src (parsing_header e) = ⊥
Explains src (writing n e) = ⊥

-- A buffer of 24 bytes is parsed.
parse_header_total : (buf : Bytes) (e : MessageError) → 24 ≤ length buf → parse_header buf ≢ err e
unfolding parse_header
parse_header_total buf e h = ground arith

-- The only error of the last two steps would be that of `ParseHeader`.
split_message_total :
    (body : Bytes) (e : MessageError) → 24 ≤ length body → split_message body ≢ err e
unfolding split_message
split_message_total body (parsing_header g) long h =
    ground (arith, parse_header_total (take 24 body) g, length-take 24 body)
split_message_total body _ long h = ground arith

-- The data that `ReadMessage` asks for, and that they are not the cause of an error.
abbrev asked : Source → Bytes
asked src = take (declared src - 4) (drop 4 src.unread)

asked_total :
    (src : Source) (e : MessageError)
    → 28 ≤ declared src
    → declared src ≤ length src.unread
    → split_message (asked src) ≢ err e
asked_total src e long whole =
    split_message_total (asked src) e
      (omega (arith, length-take (declared src - 4) (drop 4 src.unread), length-drop 4 src.unread))

no_header_error :
    (src : Source) (e : MessageError) (src' : Source)
    → read_message src ≡ (err (parsing_header e), src')
    → ⊥
unfolding read_message read_full
no_header_error src e src' h =
    ground (arith, asked_total src (parsing_header e), length-drop 4 src.unread)

-- One lemma for each other error.
module _ (src src' : Source) where
  reading_length-Explains :
      (g : GoError)
      → read_message src ≡ (err (reading_length g), src')
      → Explains src (reading_length g)
  unfolding read_message read_full split_message
  reading_length-Explains g h = ground arith

  too_short-Explains :
      (n : ℕ) → read_message src ≡ (err (too_short n), src') → Explains src (too_short n)
  unfolding read_message read_full split_message
  too_short-Explains n h = ground arith

  too_large-Explains :
      (n : ℕ) → read_message src ≡ (err (too_large n), src') → Explains src (too_large n)
  unfolding read_message read_full split_message
  too_large-Explains n h = ground arith

  reading_data-Explains :
      (n : ℕ) (g : GoError)
      → read_message src ≡ (err (reading_data n g), src')
      → Explains src (reading_data n g)
  unfolding read_message read_full split_message
  reading_data-Explains n g h = ground arith

  short_header-Explains :
      (n : ℕ) → read_message src ≡ (err (short_header n), src') → Explains src (short_header n)
  unfolding read_message read_full split_message
  short_header-Explains n h = ground arith

  writing-Explains :
      (n : ℕ) (g : GoError)
      → read_message src ≡ (err (writing n g), src')
      → Explains src (writing n g)
  unfolding read_message read_full split_message
  writing-Explains n g h = ground arith

-- Every failure of `ReadMessage` has the cause that its error names: the input ends inside the
-- length word or inside the body, or the declared length is below 28 or above the limit. No other
-- error is returned.
pub read_message_err :
    (src : Source) (e : MessageError) (src' : Source)
    → read_message src ≡ (err e, src')
    → Explains src e
read_message_err src (reading_length g) src' h = reading_length-Explains src src' g h
read_message_err src (too_short n) src' h = too_short-Explains src src' n h
read_message_err src (too_large n) src' h = too_large-Explains src src' n h
read_message_err src (reading_data n g) src' h = reading_data-Explains src src' n g h
read_message_err src (short_header n) src' h = short_header-Explains src src' n h
read_message_err src (writing n g) src' h = writing-Explains src src' n g h
read_message_err src (parsing_header g) src' h = no_header_error src g src' h

-- The end of the input, in front of a read or inside it.
pub short_read_eof : (bs : Bytes) → (short_read bs eof ≡ eof) ⊎ (short_read bs eof ≡ unexpected_eof)
unfolding short_read
short_read_eof [] = inl refl
short_read_eof (b ∷ bs) = inr refl
