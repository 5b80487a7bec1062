-- ===== src/Transport/Read.antt =====
-- What `ReadFrame` takes from the stream.
use ppgram.Prelude.{
  ℕ, ◌^◌, ◌<◌, false, [], ◌∷◌, ◌++◌, length, ◌==◌, ◌≡◌, ap, arith, ◌∙◌, length-append, le→leb,
  take-append, drop-append,
}
use ppgram.Transport.{
  after_read, Bytes, Wire, Frame, frame_header, ok, read_full, decode_header, read_payload,
  read_frame_wire,
}
use ppgram.Transport.Write.{encode_frame}

abbrev pub IsByte : ℕ → Type 0
IsByte b = b < 256

-- A frame that fits the header: the type is a byte, and the length is that of the payload and has 32
-- bits.
pub record IsFrame (frame : Frame) : Type 0 where
  pub type_byte : frame.frame_type < 256
  pub length : frame.length ≡ length frame.payload
  pub fits : frame.length < 2 ^ 32

read_full-append :
    (p rest : Bytes) (w : Wire)
    → read_full (length p) (record w { inbox = p ++ rest }) ≡ (ok p, record w { inbox = rest })
unfolding read_full
read_full-append p rest w = rw (
  le→leb (length p) (length (p ++ rest)) (omega (arith, length-append p rest)),
  take-append p rest,
  drop-append p rest,
)

decode_header-frame_header :
    (frame : Frame)
    → IsFrame frame
    → decode_header (frame_header frame) ≡ (frame.frame_type, frame.length)
unfolding decode_header
decode_header-frame_header frame h = ground arith

read_payload-append :
    (t n : ℕ) (p rest : Bytes) (w : Wire)
    → n ≡ length p
    → read_payload (t, n) (record w { inbox = p ++ rest })
      ≡ (ok (record { frame_type = t; length = n; payload = p }), record w { inbox = rest })
unfolding read_payload
read_payload-append t n [] rest w e = rw e
read_payload-append t n (b ∷ p) rest w e =
    let some_bytes : (n == 0) ≡ false = ground arith in
    rw (
      some_bytes,
      ap (λ (k : ℕ). read_full k (record w { inbox = b ∷ (p ++ rest) })) e
          ∙ read_full-append (b ∷ p) rest w,
    )

-- What stands in front of the next frame is read as that frame, and the rest stays.
pub read_frame-encode_frame :
    (frame : Frame) (rest : Bytes) (w : Wire)
    → IsFrame frame
    → read_frame_wire (record w { inbox = encode_frame frame ++ rest })
      ≡ (ok frame, record w { inbox = rest })
unfolding encode_frame read_frame_wire
read_frame-encode_frame frame rest w h =
    ap (λ r. after_read r (λ header w'. read_payload (decode_header header) w'))
      (read_full-append (frame_header frame) (frame.payload ++ rest) w)
    ∙ ap (λ x. read_payload x (record w { inbox = frame.payload ++ rest }))
        (decode_header-frame_header frame h)
    ∙ read_payload-append frame.frame_type frame.length frame.payload rest w h.length
