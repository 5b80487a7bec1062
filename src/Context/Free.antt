-- ===== src/Context/Free.antt =====
-- Writing to a stream that takes whatever it is given.
use ppgram.Prelude.{
  ℕ, zero, suc, ◌-◌, ◌^◌, ◌≤◌, false, List, [], ◌∷◌, ◌++◌, none, length, drop, ltb, ◌≡◌, refl, ap,
  arith, append_assoc, append-nil, ◌∙◌, sym,
}
use ppgram.Transport.{
  Bytes, Wire, Accept, Frame, frame_header, answer_write, stream_write, after_write, write_rest,
  write_payload, write_frame_wire,
}
use ppgram.Transport.Write.{encode_frame, write_payload-none}

-- More bytes behind those that were sent.
abbrev pub add_sent : Bytes → Wire → Wire
add_sent p w = record w { sent = w.sent ++ p }

answer_write-free :
    (accepts : List Accept) (p : Bytes) (w : Wire)
    → accepts ≡ []
    → answer_write accepts p w ≡ (length p, none, add_sent p w)
unfolding answer_write
answer_write-free [] p w h = refl
answer_write-free (a ∷ rest) p w h = cc h

stream_write-free :
    (p : Bytes) (w : Wire) → w.accepts ≡ [] → stream_write p w ≡ (length p, none, add_sent p w)
unfolding stream_write
stream_write-free p w h = answer_write-free w.accepts p w h

add_sent-nil : (w : Wire) → add_sent [] w ≡ w
add_sent-nil w = ap (λ (s : Bytes). record w { sent = s }) (append-nil w.sent)

add_sent-append : (p q : Bytes) (w : Wire) → add_sent q (add_sent p w) ≡ add_sent (p ++ q) w
add_sent-append p q w = ap (λ (s : Bytes). record w { sent = s }) (append_assoc w.sent p q)

drop_all : (p : Bytes) → drop (length p) p ≡ []
drop_all [] = refl
drop_all (b ∷ p) = drop_all p

write_rest-nil : (fuel : ℕ) (q : Bytes) (w : Wire) → q ≡ [] → write_rest fuel q w ≡ (none, 0, w)
unfolding write_rest
write_rest-nil fuel [] w h = refl
write_rest-nil fuel (b ∷ q) w h = cc h

write_rest-free :
    (fuel : ℕ) (p : Bytes) (w : Wire)
    → w.accepts ≡ []
    → length p ≤ fuel
    → ((write_rest fuel p w).0 ≡ none) × ((write_rest fuel p w).2 ≡ add_sent p w)
unfolding write_rest after_write
write_rest-free zero [] w h k = (refl, sym (add_sent-nil w))
write_rest-free (suc fuel) [] w h k = (refl, sym (add_sent-nil w))
write_rest-free zero (b ∷ p) w h k = absurd (omega arith)
write_rest-free (suc fuel) (b ∷ p) w h k =
    let done = write_rest-nil fuel (drop (length p) p) (add_sent (b ∷ p) w) (drop_all p) in
    rw (stream_write-free (b ∷ p) w h) (ap (λ r. r.0) done, ap (λ r. r.2) done)

write_payload-free :
    (p : Bytes) (w : Wire) → w.accepts ≡ [] → write_payload p none w ≡ (none, add_sent p w)
write_payload-free p w h =
    let (runs, sent) = write_rest-free (length p) p w h (omega arith) in
    rw (write_payload-none p w, runs, sent) refl

-- A frame that is not too large is sent whole.
pub write_frame-free :
    (frame : Frame) (w : Wire)
    → w.accepts ≡ []
    → ltb (2 ^ 32 - 1) (length frame.payload) ≡ false
    → write_frame_wire frame w ≡ (none, add_sent (encode_frame frame) w)
unfolding write_frame_wire encode_frame
write_frame-free frame w h fits =
    rw (fits, stream_write-free (frame_header frame) w h)
      (write_payload-free frame.payload (add_sent (frame_header frame) w) h
        ∙ ap (λ (v : Wire). (none, v)) (add_sent-append (frame_header frame) frame.payload w))
