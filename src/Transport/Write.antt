-- ===== src/Transport/Write.antt =====
-- What `WriteFrame` sends, whatever the stream does with its writes.
use ppgram.Prelude.{
  ℕ, zero, suc, ◌+◌, ◌-◌, ◌^◌, ◌≤◌, List, [], ◌∷◌, ◌++◌, Option, none, some, length, take, drop,
  ltb, ◌≡◌, ◌≢◌, refl, ap, arith, append_assoc, append-nil, length-drop, ◌∙◌, Bool-cases, inl, inr,
  sym,
}
use Prim.Native.Nat.add
use ppgram.Transport.{
  after_write, write_payload, Bytes, TransportError, stuck, Accept, Wire, answer_write,
  stream_write, Frame, frame_header, write_rest, write_frame_wire,
}

take_all : (p : Bytes) → take (length p) p ≡ p
take_all [] = refl
take_all (b ∷ p) = ap (λ (t : Bytes). b ∷ t) (take_all p)

-- What one write does with the answer that it gets.
record Wrote (p : Bytes) (w : Wire) (n : ℕ) (err : Option TransportError) (w' : Wire) : Type 0 where
  count : n ≤ length p
  sent : w'.sent ≡ w.sent ++ take n p
  runs : err ≢ some stuck
  inbox : w'.inbox ≡ w.inbox

answer_write-Wrote :
    (accepts : List Accept) (p : Bytes) (w : Wire)
    → Wrote p w
        (answer_write accepts p w).0
        (answer_write accepts p w).1
        (answer_write accepts p w).2
unfolding answer_write
answer_write-Wrote [] p w = record {
  count = omega arith;
  sent = rw (take_all p);
  runs = ground arith;
  inbox = refl;
}
answer_write-Wrote (a ∷ rest) p w = record {
  count = omega arith;
  sent = refl;
  runs = ground arith;
  inbox = refl;
}

stream_write-Wrote :
    (p : Bytes) (w : Wire)
    → Wrote p w (stream_write p w).0 (stream_write p w).1 (stream_write p w).2
unfolding stream_write
stream_write-Wrote p w = answer_write-Wrote w.accepts p w

-- What the loop does.
pub record WroteRest (p : Bytes) (w : Wire) (r : Option TransportError × ℕ × Wire) : Type 0 where
  pub count : r.1 ≤ length p
  pub sent : r.2.sent ≡ w.sent ++ take r.1 p
  pub runs : r.0 ≢ some stuck
  pub whole : r.0 ≡ none → r.1 ≡ length p
  pub inbox : r.2.inbox ≡ w.inbox

take_nil : (m : ℕ) → take {A = ℕ} m [] ≡ []
take_nil zero = refl
take_nil (suc m) = refl

take-add : (k m : ℕ) (p : Bytes) → take (k + m) p ≡ take k p ++ take m (drop k p)
take-add zero m p = ap (λ (n : ℕ). take n p) (omega arith)
take-add (suc k) m [] = rw add.suc (sym (take_nil m))
take-add (suc k) m (b ∷ p) = rw (add.suc, take-add k m p)

after_write-WroteRest :
    (b : ℕ) (p : Bytes) (w : Wire) (err : Option TransportError) (n : ℕ) (w' : Wire)
    (more : ℕ → Option TransportError × ℕ × Wire)
    → Wrote (b ∷ p) w n err w'
    → ((k : ℕ) → WroteRest (drop k p) w' (more k))
    → WroteRest (b ∷ p) w (after_write err n w' more)
unfolding after_write
after_write-WroteRest b p w (some e) n w' more h rest = record {
  count = h.count;
  sent = h.sent;
  runs = h.runs;
  whole = λ q. cc;
  inbox = h.inbox;
}
after_write-WroteRest b p w none zero w' more h rest = record {
  count = omega arith;
  sent = h.sent;
  runs = λ q. cc;
  whole = λ q. cc;
  inbox = h.inbox;
}
after_write-WroteRest b p w none (suc k) w' more h rest = record {
  count = omega (arith, h.count, (rest k).count, length-drop k p);
  sent =
      rw (add.suc, take-add k (more k).1 p, (rest k).sent, h.sent)
        (append_assoc w.sent (take (suc k) (b ∷ p)) (take (more k).1 (drop k p)));
  runs = (rest k).runs;
  whole = λ q. omega (arith, h.count, (rest k).whole q, length-drop k p);
  inbox = (rest k).inbox ∙ h.inbox;
}

pub write_rest-WroteRest :
    (fuel : ℕ) (p : Bytes) (w : Wire) → length p ≤ fuel → WroteRest p w (write_rest fuel p w)
unfolding write_rest
write_rest-WroteRest fuel [] w h = record {
  count = omega arith;
  sent = sym (append-nil w.sent);
  runs = λ q. cc;
  whole = λ q. refl;
  inbox = refl;
}
write_rest-WroteRest zero (b ∷ p) w h = absurd (omega arith)
write_rest-WroteRest (suc fuel) (b ∷ p) w h =
    after_write-WroteRest b p w _ _ _ _ (stream_write-Wrote (b ∷ p) w) (λ k.
      write_rest-WroteRest fuel (drop k p) (stream_write (b ∷ p) w).2
        (omega (arith, length-drop k p)))

-- The bytes of a frame on the wire.
unfoldable pub encode_frame : Frame → Bytes
encode_frame frame = frame_header frame ++ frame.payload

-- What `WriteFrame` gives: the loop ends; on success the whole frame was sent and nothing else; on
-- an error a part of the frame from its start on; and what can be read is untouched.
pub record FrameWritten (frame : Frame) (w : Wire) (r : Option TransportError × Wire) : Type 0 where
  pub runs : r.0 ≢ some stuck
  pub whole : r.0 ≡ none → r.1.sent ≡ w.sent ++ encode_frame frame
  pub part : (k : ℕ) × (r.1.sent ≡ w.sent ++ take k (encode_frame frame))
  pub inbox : r.1.inbox ≡ w.inbox

-- The contract of `io.Writer` at the write of the header: a short write comes with an error.
abbrev pub HeaderWhole : Frame → Wire → Type 0
HeaderWhole frame w =
    (stream_write (frame_header frame) w).1 ≡ none
    → (stream_write (frame_header frame) w).0 ≡ length (frame_header frame)

-- The front of two texts.
pub take-append_part : (k : ℕ) (xs ys : Bytes) → k ≤ length xs → take k (xs ++ ys) ≡ take k xs
take-append_part zero xs ys h = refl
take-append_part (suc k) [] ys h = absurd (omega arith)
take-append_part (suc k) (x ∷ xs) ys h =
    ap (λ (t : Bytes). x ∷ t) (take-append_part k xs ys (omega arith))

pub take-append_past : (k : ℕ) (xs ys : Bytes) → take (length xs + k) (xs ++ ys) ≡ xs ++ take k ys
take-append_past k [] ys = ap (λ (n : ℕ). take n ys) (omega arith)
take-append_past k (x ∷ xs) ys = rw add.suc (ap (λ (t : Bytes). x ∷ t) (take-append_past k xs ys))

-- After the header, without an error, the loop runs.
pub write_payload-none :
    (payload : Bytes) (w : Wire)
    → write_payload payload none w
      ≡ ((write_rest (length payload) payload w).0, (write_rest (length payload) payload w).2)
unfolding write_payload
write_payload-none [] w = unfold write_rest in refl
write_payload-none (b ∷ p) w = ground arith

rest-FrameWritten :
    (frame : Frame) (w w' : Wire) (r : Option TransportError × ℕ × Wire)
    → w'.sent ≡ w.sent ++ frame_header frame
    → w'.inbox ≡ w.inbox
    → WroteRest frame.payload w' r
    → FrameWritten frame w (r.0, r.2)
unfolding encode_frame
rest-FrameWritten frame w w' r header inbox h = record {
  runs = h.runs;
  whole = λ q.
      rw (h.sent, h.whole q, take_all frame.payload, header)
        (append_assoc w.sent (frame_header frame) frame.payload);
  part = (
    length (frame_header frame) + r.1,
    rw (h.sent, header, take-append_past r.1 (frame_header frame) frame.payload)
        (append_assoc w.sent (frame_header frame) (take r.1 frame.payload)),
  );
  inbox = h.inbox ∙ inbox;
}

write_payload-FrameWritten :
    (frame : Frame) (w : Wire) (n : ℕ) (err : Option TransportError) (w' : Wire)
    → Wrote (frame_header frame) w n err w'
    → (err ≡ none → n ≡ length (frame_header frame))
    → FrameWritten frame w (write_payload frame.payload err w')
unfolding write_payload encode_frame
write_payload-FrameWritten frame w n (some e) w' h full = record {
  runs = h.runs;
  whole = λ q. cc;
  part = (
    n,
    h.sent ∙ ap (λ (t : Bytes). w.sent ++ t) (sym (take-append_part n _ frame.payload h.count)),
  );
  inbox = h.inbox;
}
write_payload-FrameWritten frame w n none w' h full = rw (write_payload-none frame.payload w') (
    rest-FrameWritten frame w w' _
      (h.sent
        ∙ ap (λ (t : Bytes). w.sent ++ t)
            (ap (λ (m : ℕ). take m (frame_header frame)) (full refl)
              ∙ take_all (frame_header frame)))
      h.inbox (write_rest-WroteRest _ frame.payload w' (omega arith)))

-- On a stream that reports an error when it takes only a part of the header, WriteFrame ends; if
-- it returns nil, exactly the header and the payload have been sent behind what was sent before,
-- otherwise a part of them from the start, and what the peer has sent is untouched.
pub write_frame-FrameWritten :
    (frame : Frame) (w : Wire)
    → HeaderWhole frame w
    → FrameWritten frame w (write_frame_wire frame w)
unfolding write_frame_wire
write_frame-FrameWritten frame w full =
    elim (Bool-cases (ltb (2 ^ 32 - 1) (length frame.payload))) [
      | inl large ↦ rw large (record {
        runs = λ q. cc;
        whole = λ q. cc;
        part = (0, sym (append-nil w.sent));
        inbox = refl;
      })
      | inr fits ↦ rw fits (
          write_payload-FrameWritten frame w _ _ _ (stream_write-Wrote (frame_header frame) w) full)
    ]
