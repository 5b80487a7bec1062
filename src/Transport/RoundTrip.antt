-- ===== src/Transport/RoundTrip.antt =====
-- `WriteFrame` and `ReadFrame` together, and what `ReadFrame` makes of any bytes.
use ppgram.Prelude.{
  ℕ, ◌/◌, ◌%◌, ◌^◌, ◌<◌, [], ◌∷◌, ◌++◌, none, length, take, leb, ◌==◌, ◌≡◌, refl, ap, arith,
  append_assoc, length-take_le, ◌∙◌, Bool-cases, inl, inr, sym, take-append-drop, All, leb→le,
}
use ppgram.Transport.{
  Bytes, Wire, Frame, frame_header, ReadResult, ok, err, read_full, decode_header, read_payload,
  read_frame_wire, put_uint32, uint32, after_read, write_frame_wire, frame_header_size,
}
use ppgram.Transport.Write.{encode_frame, HeaderWhole, write_frame-FrameWritten}
use ppgram.Transport.Read.{IsByte, IsFrame, read_frame-encode_frame}

-- A frame with an eight-bit type and a length that is that of its payload and fits into 32 bits,
-- written without an error to a stream on which nothing was sent before and that reports an error
-- when it takes only a part of the header, is the frame that the peer reads, and the bytes behind
-- it are left.
pub read_frame-write_frame :
    (frame : Frame) (sender receiver : Wire) (rest : Bytes)
    → IsFrame frame
    → HeaderWhole frame sender
    → sender.sent ≡ []
    → (write_frame_wire frame sender).0 ≡ none
    → read_frame_wire (record receiver { inbox = (write_frame_wire frame sender).1.sent ++ rest })
      ≡ (ok frame, record receiver { inbox = rest })
read_frame-write_frame frame sender receiver rest h full fresh done =
    rw ((write_frame-FrameWritten frame sender full).whole done, fresh)
      (read_frame-encode_frame frame rest receiver h)

after_read-eq-ok {ℓ κ} :
    {A : Type ℓ} {B : Type κ} (r : ReadResult A × Wire) (f : A → Wire → ReadResult B × Wire) {b : B}
    → (after_read r f).0 ≡ ok b
    → (a : A) × (r.0 ≡ ok a) × (after_read r f ≡ f a r.1)
after_read-eq-ok (ok a, w) f h = (a, refl, refl)
after_read-eq-ok (err e, w) f h = cc

-- Reading takes the bytes that it gives from the front.
read_full_sound :
    (n : ℕ) (w : Wire) {p : Bytes}
    → (read_full n w).0 ≡ ok p
    → (w.inbox ≡ p ++ (read_full n w).1.inbox) × (length p ≡ n)
unfolding read_full
read_full_sound n w {p} h = elim (Bool-cases (leb n (length w.inbox))) [
  | inl enough ↦
      let same : take n w.inbox ≡ p = ground arith in
      rw (enough, ← same)
        (sym (take-append-drop n w.inbox), length-take_le n w.inbox (leb→le n _ enough))
  | inr short ↦ ground arith
]

payload_read :
    (t n : ℕ) (p left whole : Bytes) {frame : Frame} (r : ReadResult Frame × Wire)
    → r.0 ≡ ok (record { frame_type = t; length = n; payload = p })
    → r.1.inbox ≡ left
    → r.0 ≡ ok frame
    → whole ≡ p ++ left
    → length p ≡ n
    → (frame.frame_type ≡ t)
      × (frame.length ≡ n)
      × (length frame.payload ≡ n)
      × (whole ≡ frame.payload ++ r.1.inbox)
payload_read t n p left whole {frame} r found rest h front size =
    let same : frame ≡ record { frame_type = t; length = n; payload = p } = cc in
    rw (same, rest) (refl, refl, size, front)

read_payload_sound :
    (t n : ℕ) (w : Wire) {frame : Frame}
    → (read_payload (t, n) w).0 ≡ ok frame
    → (frame.frame_type ≡ t)
      × (frame.length ≡ n)
      × (length frame.payload ≡ n)
      × (w.inbox ≡ frame.payload ++ (read_payload (t, n) w).1.inbox)
unfolding read_payload
read_payload_sound t n w {frame} h = elim (Bool-cases (n == 0)) [
  | inl none_left ↦ ground arith
  | inr some_left ↦
      let (p, found, same) = after_read-eq-ok (read_full n w) _ (rw some_left at h) in
      let (front, size) = read_full_sound n w found in
      rw some_left (
        payload_read t n p (read_full n w).1.inbox w.inbox
          (after_read (read_full n w)
            (λ payload w'. (ok (record { frame_type = t; length = n; payload = payload }), w')))
          (ap (λ r. r.0) same) (ap (λ r. r.1.inbox) same) (rw some_left at h) front size)
]

put_uint32-uint32 :
    (b3 b2 b1 b0 : ℕ)
    → b3 < 256
    → b2 < 256
    → b1 < 256
    → b0 < 256
    → put_uint32 (uint32 b3 b2 b1 b0 % 2 ^ 32) ≡ b3 ∷ b2 ∷ b1 ∷ b0 ∷ []
put_uint32-uint32 b3 b2 b1 b0 h3 h2 h1 h0 =
    let n : ℕ = uint32 b3 b2 b1 b0 in
    let e3 : n % 2 ^ 32 / 2 ^ 24 % 256 ≡ b3 = omega arith in
    let e2 : n % 2 ^ 32 / 2 ^ 16 % 256 ≡ b2 = omega arith in
    let e1 : n % 2 ^ 32 / 2 ^ 8 % 256 ≡ b1 = omega arith in
    let e0 : n % 2 ^ 32 % 256 ≡ b0 = omega arith in cc

-- The header of a frame, byte by byte.
header_bytes :
    (p : Bytes)
    → length p ≡ 5
    → All IsByte p
    → (frame : Frame) → frame.frame_type ≡ (decode_header p).0
    → length frame.payload ≡ (decode_header p).1
    → (frame_header frame ≡ p) × ((decode_header p).0 < 256) × ((decode_header p).1 < 2 ^ 32)
unfolding decode_header
header_bytes (t ∷ b3 ∷ b2 ∷ b1 ∷ b0 ∷ []) e (ht, (h3, (h2, (h1, (h0, _))))) frame same_type
      same_length =
    let kind : frame.frame_type % 256 ≡ t = omega arith in
    (
      rw (kind, same_length)
          (ap (λ (l : Bytes). t ∷ l) (put_uint32-uint32 b3 b2 b1 b0 h3 h2 h1 h0)),
      ht,
      omega arith,
    )
header_bytes _ e h frame same_type same_length = absurd (omega arith)

All-append_left : (xs ys : Bytes) → All IsByte (xs ++ ys) → All IsByte xs
All-append_left [] ys h = tt
All-append_left (x ∷ xs) ys (p, h) = (p, All-append_left xs ys h)

-- Whatever bytes arrive: if ReadFrame returns a frame, its type fits into a byte, its length is
-- that of its payload and below 2^32, and what was taken from the front is exactly the encoding
-- of that frame.
pub read_frame_sound :
    (w : Wire) {frame : Frame}
    → All IsByte w.inbox
    → (read_frame_wire w).0 ≡ ok frame
    → IsFrame frame × (w.inbox ≡ encode_frame frame ++ (read_frame_wire w).1.inbox)
unfolding read_frame_wire encode_frame
read_frame_sound w {frame} bytes h =
    let (p, found, same) = after_read-eq-ok (read_full frame_header_size w) _ h in
    let (front, five) = read_full_sound frame_header_size w found in
    let w' : Wire = (read_full frame_header_size w).1 in
    let (kind, len, size, tail) =
      read_payload_sound (decode_header p).0 (decode_header p).1 w' {frame = frame}
        (rw same at h) in
    let (header, type_fits, len_fits) =
      header_bytes p five (All-append_left p w'.inbox (rw front at bytes)) frame kind size in
    (
      record { type_byte = rw kind type_fits; length = len ∙ sym size; fits = rw len len_fits },
      front
          ∙ ap (λ (l : Bytes). l ++ w'.inbox) (sym header)
          ∙ ap (λ (l : Bytes). frame_header frame ++ l)
              (tail ∙ ap (λ (r : ReadResult Frame × Wire). frame.payload ++ r.1.inbox) (sym same))
          ∙ sym (append_assoc (frame_header frame) frame.payload (read_frame_wire w).1.inbox),
    )
