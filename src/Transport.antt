-- ===== src/Transport.antt =====
-- server/transport/stream.go: frames on a QUIC stream. The stream of the library quic-go enters as
-- a value that holds its answers to come, so that the theorems range over what it may do.
pub mod Write
pub mod Read
pub mod RoundTrip
pub mod Copy
mod Tests
use ppgram.Prelude.{
  ℕ, zero, suc, ◌+◌, ◌*◌, ◌/◌, ◌%◌, ◌^◌, ◌-◌, min, Bool, true, false, List, [], ◌∷◌, ◌++◌, Option,
  none, some, GoString, length, take, drop, ltb, leb, ◌==◌, if◌then◌else◌,
}

abbrev pub Bytes : Type 0
Bytes = List ℕ

-- `io_error` is an error of the stream or of the reader; `stuck` is no Go value: the loop of
-- `write_rest` ran out of fuel.
pub data TransportError : Type 0 where
  nil_quic_stream nil_reader nil_writer frame_too_large : TransportError
  eof unexpected_eof short_write : TransportError
  io_error : ℕ → TransportError
  stuck : TransportError

-- One answer of `Write`: how many bytes it takes at most, and the error beside.
pub record Accept : Type 0 where
  pub count : ℕ
  pub error : Option ℕ

-- A `quic.Stream`: what the peer's bytes are and how reading ends after them, what has been written,
-- and the answers to the next writes. After those every write is taken whole.
pub record Wire : Type 0 where
  pub inbox : Bytes
  pub ending : TransportError
  pub sent : Bytes
  pub accepts : List Accept
  pub closed : Bool

abbrev pub io_error_of : Option ℕ → Option TransportError
io_error_of none = none
io_error_of (some code) = some (io_error code)

-- `stream.Write(p)`, with its answer taken from the list.
unfoldable pub answer_write : List Accept → Bytes → Wire → ℕ × Option TransportError × Wire
answer_write [] p w = (length p, none, record w { sent = w.sent ++ p })
answer_write (a ∷ rest) p w =
    let n = min a.count (length p) in
    (n, io_error_of a.error, record w { sent = w.sent ++ take n p; accepts = rest })

unfoldable pub stream_write : Bytes → Wire → ℕ × Option TransportError × Wire
unfolding answer_write
stream_write p w = answer_write w.accepts p w

pub record QuicStream : Type 0 where
  pub stream : Option Wire
  pub conn_id : GoString
  pub id : GoString

-- `ID` and `ConnectionID`, which a nil stream has, too
unfoldable pub stream_id : Option QuicStream → GoString
stream_id none = []
stream_id (some s) = s.id

unfoldable pub connection_id : Option QuicStream → GoString
connection_id none = []
connection_id (some s) = s.conn_id

abbrev pub frame_type_invalid : ℕ
frame_type_invalid = 0

abbrev pub frame_type_data : ℕ
frame_type_data = 5

abbrev pub frame_header_size : ℕ
frame_header_size = 5

abbrev pub default_chunk_size : ℕ
default_chunk_size = 64 * 1024

pub record Frame : Type 0 where
  pub frame_type : ℕ
  pub length : ℕ
  pub payload : Bytes

-- `binary.BigEndian.PutUint32`
abbrev pub put_uint32 : ℕ → Bytes
put_uint32 n = n / 2 ^ 24 % 256 ∷ n / 2 ^ 16 % 256 ∷ n / 2 ^ 8 % 256 ∷ n % 256 ∷ []

-- `binary.BigEndian.Uint32`
abbrev pub uint32 : ℕ → ℕ → ℕ → ℕ → ℕ
uint32 b3 b2 b1 b0 = b3 * 2 ^ 24 + b2 * 2 ^ 16 + b1 * 2 ^ 8 + b0

-- The header that `WriteFrame` fills in.
abbrev pub frame_header : Frame → Bytes
frame_header frame = frame.frame_type % 256 ∷ put_uint32 (length frame.payload % 2 ^ 32)

-- The tests after one write of the loop: an error, no progress, or the next round, which is given
-- one less than the count.
unfoldable pub after_write :
    Option TransportError
    → ℕ
    → Wire
    → (ℕ → Option TransportError × ℕ × Wire)
    → Option TransportError × ℕ × Wire
after_write (some e) n w more = (some e, n, w)
after_write none zero w more = (some short_write, 0, w)
after_write none (suc k) w more = let (err, m, w') = more k in (err, suc k + m, w')

-- `for written < len(p)`, with the number of bytes that it writes. Each round but the last writes a
-- byte at least, so `length p` rounds are enough.
unfoldable pub write_rest : ℕ → Bytes → Wire → Option TransportError × ℕ × Wire
unfolding after_write
write_rest fuel [] w = (none, 0, w)
write_rest zero (b ∷ p) w = (some stuck, 0, w)
write_rest (suc fuel) (b ∷ p) w =
    let (n, err, w') = stream_write (b ∷ p) w in
    after_write err n w' (λ k. write_rest fuel (drop k p) w')

-- `WriteFrame` after the header.
unfoldable pub write_payload : Bytes → Option TransportError → Wire → Option TransportError × Wire
write_payload payload (some e) w = (some e, w)
write_payload payload none w =
    if length payload == 0
    then (none, w)
    else (let (err, m, w') = write_rest (length payload) payload w in (err, w'))

-- `WriteFrame` on a stream that is there.
unfoldable pub write_frame_wire : Frame → Wire → Option TransportError × Wire
write_frame_wire frame w =
    if ltb (2 ^ 32 - 1) (length frame.payload)
    then (some frame_too_large, w)
    else (let (n, err, w') = stream_write (frame_header frame) w in
        write_payload frame.payload err w')

unfoldable pub write_frame : Frame → Option QuicStream → Option TransportError × Option QuicStream
write_frame frame none = (some nil_quic_stream, none)
write_frame frame (some s) = elim s.stream [
  | none ↦ (some nil_quic_stream, some s)
  | some w ↦ let (err, w') = write_frame_wire frame w in (err, some (record s { stream = some w' }))
]

-- `io.ReadFull(stream, buf)` for a buffer of `n` bytes, with the bytes read or the error.
pub data ReadResult {ℓ} (A : Type ℓ) : Type ℓ where
  ok : A → ReadResult A
  err : TransportError → ReadResult A

-- How a read that runs into the end of the stream fails, by what it has read before.
unfoldable pub end_of : Bytes → TransportError → TransportError
end_of [] ending = ending
end_of (b ∷ bs) eof = unexpected_eof
end_of (b ∷ bs) ending = ending

unfoldable pub read_full : ℕ → Wire → ReadResult Bytes × Wire
read_full n w =
    if leb n (length w.inbox)
    then (ok (take n w.inbox), record w { inbox = drop n w.inbox })
    else (err (end_of w.inbox w.ending), record w { inbox = [] })

-- The frame type and the length in a header.
unfoldable pub decode_header : Bytes → ℕ × ℕ
decode_header (t ∷ b3 ∷ b2 ∷ b1 ∷ b0 ∷ _) = (t, uint32 b3 b2 b1 b0)
decode_header _ = (0, 0)

-- `if err != nil { return nil, err }` after a read.
abbrev pub after_read {ℓ κ} :
    {A : Type ℓ} {B : Type κ}
    → ReadResult A × Wire
    → (A → Wire → ReadResult B × Wire)
    → ReadResult B × Wire
after_read (err e, w) f = (err e, w)
after_read (ok a, w) f = f a w

-- `ReadFrame` after the header.
unfoldable pub read_payload : ℕ × ℕ → Wire → ReadResult Frame × Wire
read_payload (t, n) w =
    if n == 0
    then (ok (record { frame_type = t; length = n; payload = [] }), w)
    else after_read (read_full n w)
        λ payload w'. (ok (record { frame_type = t; length = n; payload = payload }), w')

-- `ReadFrame` on a stream that is there.
unfoldable pub read_frame_wire : Wire → ReadResult Frame × Wire
read_frame_wire w =
    after_read (read_full frame_header_size w) λ header w'. read_payload (decode_header header) w'

unfoldable pub read_frame : Option QuicStream → ReadResult Frame × Option QuicStream
read_frame none = (err nil_quic_stream, none)
read_frame (some s) = elim s.stream [
  | none ↦ (err nil_quic_stream, some s)
  | some w ↦ let (r, w') = read_frame_wire w in (r, some (record s { stream = some w' }))
]
