-- ===== src/Transport/Copy.antt =====
-- `WriteFrom` of server/transport/stream.go: what a reader gives is written to a stream.
pub mod Copied
mod Tests
use ppgram.Prelude.{
  ℕ, zero, suc, ◌+◌, ◌*◌, ◌%◌, ◌^◌, true, false, List, [], ◌∷◌, ◌++◌, Option, none, some, length,
  take, drop, ltb, ◌==◌, if◌then◌else◌,
}
use ppgram.Transport.{
  Bytes, TransportError, nil_quic_stream, nil_reader, io_error, stuck, Wire, QuicStream, write_rest,
  default_chunk_size,
}

-- io.EOF, or another error of a reader
pub data ReaderEnd : Type 0 where
  reader_eof : ReaderEnd
  reader_error : ℕ → ReaderEnd

-- What a reader has to give: bytes, and the error beside the last of them.
pub record Part : Type 0 where
  pub bytes : Bytes
  pub error : Option ReaderEnd

-- An `io.Reader`, by its answers to come. It gives a part as far as the buffer reaches, and what is
-- left of it the next time; after the last part it gives io.EOF.
abbrev pub Reader : Type 0
Reader = List Part

-- `reader.Read(buf)` for a buffer of `size` bytes
unfoldable pub read_part : ℕ → Reader → Bytes × Option ReaderEnd × Reader
read_part size [] = ([], some reader_eof, [])
read_part size (part ∷ reader) =
    if ltb size (length part.bytes)
    then (take size part.bytes, none, record part { bytes = drop size part.bytes } ∷ reader)
    else (part.bytes, part.error, reader)

-- `total += int64(m)`, on the 64 bits of the number
abbrev pub add_int64 : ℕ → ℕ → ℕ
add_int64 total m = (total + m) % 2 ^ 64

abbrev pub Copy : Type 0
Copy = ℕ × Option TransportError × Wire

-- What the loop returns when the reader has ended.
unfoldable pub reader_result : ReaderEnd → Option TransportError
reader_result reader_eof = none
reader_result (reader_error code) = some (io_error code)

-- The tests after the inner loop: an error of the stream, the end of the reader, or the next round.
unfoldable pub after_part :
    Option TransportError × ℕ × Wire → Option ReaderEnd → ℕ → (ℕ → Wire → Copy) → Copy
unfolding reader_result
after_part (some e, n, w) end total more = (add_int64 total n, some e, w)
after_part (none, n, w) (some end) total more = (add_int64 total n, reader_result end, w)
after_part (none, n, w) none total more = more (add_int64 total n) w

-- `for { … }`. The inner loop is that of WriteFrame. A round takes a byte or a part from the reader
-- or ends the loop, which bounds the rounds.
unfoldable pub copy_parts : ℕ → ℕ → Reader → ℕ → Wire → Copy
unfolding read_part after_part
copy_parts zero size reader total w = (total, some stuck, w)
copy_parts (suc fuel) size reader total w =
    let (p, end, reader') = read_part size reader in
    after_part (write_rest (length p) p w) end total
      (λ total' w'. copy_parts fuel size reader' total' w')

-- Rounds that are enough.
abbrev pub rounds : Reader → ℕ
rounds [] = 1
rounds (part ∷ reader) = suc (length part.bytes + rounds reader)

-- A size that is not positive is 0 here.
unfoldable pub chunk_or_default : ℕ → ℕ
chunk_or_default size = if size == 0 then default_chunk_size else size

unfoldable pub write_from_wire : Reader → ℕ → Wire → Copy
unfolding copy_parts chunk_or_default
write_from_wire reader size w = copy_parts (rounds reader) (chunk_or_default size) reader 0 w

-- The tests on nil.
unfoldable pub write_from :
    Option Reader → ℕ → Option QuicStream → ℕ × Option TransportError × Option QuicStream
unfolding write_from_wire
write_from reader size none = (0, some nil_quic_stream, none)
write_from reader size (some s) = elim s.stream [
  | none ↦ (0, some nil_quic_stream, some s)
  | some w ↦ elim reader [
    | none ↦ (0, some nil_reader, some s)
    | some parts ↦
        let (total, err, w') = write_from_wire parts size w in
        (total, err, some (record s { stream = some w' }))
  ]
]
