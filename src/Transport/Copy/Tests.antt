-- ===== src/Transport/Copy/Tests.antt =====
-- A reader copied to a stream that is slow.
use ppgram.Prelude.{false, [], ◌∷◌, none, some, ◌≡◌, refl}
use ppgram.Transport.{eof, io_error, Wire, write_rest, after_write, stream_write, answer_write}
use ppgram.Transport.Copy.{
  Reader, reader_error, read_part, reader_result, after_part, copy_parts, chunk_or_default,
  write_from_wire,
}
use ppgram.Transport.Copy.Copied.{Copied, write_from-Copied}

abbrev slow : Wire
slow = record {
  inbox = [];
  ending = eof;
  sent = [];
  accepts = record { count = 1; error = none } ∷ record { count = 9; error = none } ∷ [];
  closed = false;
}

abbrev two_parts : Reader
two_parts =
    record { bytes = 1 ∷ 2 ∷ 3 ∷ []; error = none }
    ∷ record { bytes = 4 ∷ []; error = some (reader_error 7) }
    ∷ record { bytes = 5 ∷ []; error = none }
    ∷ []

abbrev written : Wire
written = record slow { sent = 1 ∷ 2 ∷ 3 ∷ 4 ∷ []; accepts = [] }

copies : write_from_wire two_parts 2 slow ≡ (4, some (io_error 7), written)
unfolding write_from_wire copy_parts read_part after_part reader_result chunk_or_default write_rest
    after_write stream_write answer_write
copies = refl

write_from-Copied_example : Copied two_parts 0 slow (write_from_wire two_parts 2 slow)
write_from-Copied_example = write_from-Copied two_parts 2 slow
