-- ===== src/Transport/Tests.antt =====
-- Runs of the frame code, and its theorems at concrete inputs.
use ppgram.Prelude.{[], ◌∷◌, ◌++◌, none, some, false, ◌≡◌, refl, ap, arith}
use ppgram.Transport.{
  eof, unexpected_eof, short_write, Wire, Frame, ok, err, read_full, decode_header, read_payload,
  read_frame_wire, frame_type_data, write_frame_wire, write_payload, write_rest, after_write,
  stream_write, answer_write, end_of,
}
use ppgram.Transport.Write.{encode_frame, FrameWritten, write_frame-FrameWritten}
use ppgram.Transport.Read.{IsFrame}
use ppgram.Transport.RoundTrip.{read_frame-write_frame, read_frame_sound}

abbrev pong : Frame
pong = record { frame_type = frame_type_data; length = 3; payload = 7 ∷ 8 ∷ 9 ∷ [] }

-- A stream that takes the header, then two bytes, then the rest.
abbrev slow : Wire
slow = record {
  inbox = [];
  ending = eof;
  sent = [];
  accepts = record { count = 5; error = none } ∷ record { count = 2; error = none } ∷ [];
  closed = false;
}

-- One that stops taking bytes.
abbrev stalled : Wire
stalled = record slow {
  accepts =
      record { count = 5; error = none }
      ∷ record { count = 1; error = none }
      ∷ record { count = 0; error = none }
      ∷ [];
}

slow_write :
    write_frame_wire pong slow
    ≡ (none, record slow { sent = 5 ∷ 0 ∷ 0 ∷ 0 ∷ 3 ∷ 7 ∷ 8 ∷ 9 ∷ []; accepts = [] })
unfolding write_frame_wire write_payload write_rest after_write stream_write answer_write
slow_write = refl

stalled_write : (write_frame_wire pong stalled).0 ≡ some short_write
unfolding write_frame_wire write_payload write_rest after_write stream_write answer_write
stalled_write = refl

cut_read : (read_frame_wire (record slow { inbox = 5 ∷ 0 ∷ 0 ∷ [] })).0 ≡ err unexpected_eof
unfolding read_frame_wire read_full end_of
cut_read = refl

write_frame-FrameWritten_example : FrameWritten pong slow (write_frame_wire pong slow)
unfolding stream_write answer_write
write_frame-FrameWritten_example = write_frame-FrameWritten pong slow (λ _. refl)

read_frame-write_frame_example :
    read_frame_wire (record slow { inbox = (write_frame_wire pong slow).1.sent ++ 1 ∷ [] })
    ≡ (ok pong, record slow { inbox = 1 ∷ [] })
unfolding stream_write answer_write
read_frame-write_frame_example =
    read_frame-write_frame pong slow slow (1 ∷ []) (omega arith) (λ _. refl) refl
      (ap (λ r. r.0) slow_write)

abbrev arrived : Wire
arrived = record slow { inbox = 5 ∷ 0 ∷ 0 ∷ 0 ∷ 3 ∷ 7 ∷ 8 ∷ 9 ∷ 4 ∷ [] }

arrived_read : (read_frame_wire arrived).0 ≡ ok pong
unfolding read_frame_wire read_full decode_header read_payload
arrived_read = refl

read_frame_sound_example :
    IsFrame pong × (arrived.inbox ≡ encode_frame pong ++ (read_frame_wire arrived).1.inbox)
read_frame_sound_example = read_frame_sound arrived (omega arith) arrived_read
