-- ===== src/Transport/Copy/Copied.antt =====
-- What `WriteFrom` has sent, and that it ends.
use ppgram.Prelude.{
  ℕ, zero, suc, ◌+◌, ◌%◌, ◌^◌, ◌≤◌, ◌<◌, [], ◌∷◌, ◌++◌, Option, none, some, length, take, drop, ltb,
  ◌≡◌, ◌≢◌, refl, ap, arith, sym, ◌∙◌, append_assoc, append-nil, take-append-drop, length-append,
  length-drop, Bool-cases, inl, inr, ltb→lt,
}
use ppgram.Transport.{Bytes, TransportError, stuck, Wire, write_rest}
use ppgram.Transport.Write.{WroteRest, write_rest-WroteRest, take-append_part, take-append_past}
use ppgram.Transport.Copy.{
  ReaderEnd, reader_eof, reader_error, Reader, read_part, add_int64, Copy, reader_result,
  after_part, copy_parts, rounds, chunk_or_default, write_from_wire,
}

-- Everything that a reader gives until it ends.
unfoldable pub content : Reader → Bytes
content [] = []
content (part ∷ reader) =
    let rest = content reader in
    elim part.error [ none ↦ part.bytes ++ rest | some end ↦ part.bytes ]

-- How it ends.
unfoldable pub end_of_reader : Reader → ReaderEnd
end_of_reader [] = reader_eof
end_of_reader (part ∷ reader) =
    let rest = end_of_reader reader in elim part.error [ none ↦ rest | some end ↦ end ]

-- What one read takes off.
record Took (reader : Reader) (p : Bytes) (end : Option ReaderEnd) (reader' : Reader) : Type 0 where
  goes_on :
      end ≡ none
      → (content reader ≡ p ++ content reader')
        × (end_of_reader reader ≡ end_of_reader reader')
        × (rounds reader' < rounds reader)
  ends : (e : ReaderEnd) → end ≡ some e → (content reader ≡ p) × (end_of_reader reader ≡ e)

part-Took :
    (bytes : Bytes) (error : Option ReaderEnd) (reader : Reader)
    → Took (record { bytes = bytes; error = error } ∷ reader) bytes error reader
unfolding content end_of_reader
part-Took bytes none reader = record {
  goes_on = λ h. (refl, refl, omega arith);
  ends = λ e h. cc h;
}
part-Took bytes (some end) reader = record { goes_on = λ h. cc h; ends = λ e h. (refl, cc h) }

cut-Took :
    (size : ℕ) (bytes : Bytes) (error : Option ReaderEnd) (reader : Reader)
    → 0 < size
    → size < length bytes
    → Took
        (record { bytes = bytes; error = error } ∷ reader)
        (take size bytes)
        none
        (record { bytes = drop size bytes; error = error } ∷ reader)
unfolding content end_of_reader
cut-Took size bytes none reader h k = record {
  goes_on = λ q. (
    ap (λ (b : Bytes). b ++ content reader) (sym (take-append-drop size bytes))
        ∙ append_assoc (take size bytes) (drop size bytes) (content reader),
    refl,
    omega (arith, length-drop size bytes),
  );
  ends = λ e q. cc q;
}
cut-Took size bytes (some end) reader h k = record {
  goes_on = λ q. (sym (take-append-drop size bytes), refl, omega (arith, length-drop size bytes));
  ends = λ e q. cc q;
}

read_part-Took :
    (size : ℕ) (reader : Reader)
    → 0 < size
    → Took reader (read_part size reader).0 (read_part size reader).1 (read_part size reader).2
unfolding read_part
read_part-Took size [] h = record {
  goes_on = λ q. cc q;
  ends = λ e q. unfold content in unfold end_of_reader in (refl, cc q);
}
read_part-Took size (part ∷ reader) h = elim (Bool-cases (ltb size (length part.bytes))) [
  | inl cut ↦ rw cut (cut-Took size part.bytes part.error reader h (ltb→lt _ _ cut))
  | inr whole ↦ rw whole (part-Took part.bytes part.error reader)
]

-- What the loop has done when it returns.
pub record Copied (reader : Reader) (before : ℕ) (w : Wire) (r : Copy) : Type 0 where
  pub count : ℕ
  pub runs : r.1 ≢ some stuck
  pub within : count ≤ length (content reader)
  pub sent : r.2.sent ≡ w.sent ++ take count (content reader)
  pub total : r.0 ≡ (before + count) % 2 ^ 64
  pub whole : r.1 ≡ none → (count ≡ length (content reader)) × (end_of_reader reader ≡ reader_eof)

reader_result-stuck : (end : ReaderEnd) → reader_result end ≢ some stuck
unfolding reader_result
reader_result-stuck reader_eof h = cc h
reader_result-stuck (reader_error code) h = cc h

reader_result-none : (end : ReaderEnd) → reader_result end ≡ none → end ≡ reader_eof
unfolding reader_result
reader_result-none reader_eof h = refl
reader_result-none (reader_error code) h = cc h

Took-front :
    (reader reader' : Reader) (p : Bytes) (end : Option ReaderEnd)
    → Took reader p end reader'
    → (tail : Bytes) × (content reader ≡ p ++ tail)
Took-front reader reader' p none h = (content reader', (h.goes_on refl).0)
Took-front reader reader' p (some end) h = ([], (h.ends end refl).0 ∙ sym (append-nil p))

take_whole : (p : Bytes) → take (length p) p ≡ p
take_whole [] = refl
take_whole (b ∷ p) = ap (λ (t : Bytes). b ∷ t) (take_whole p)

after_part-Copied :
    (reader reader' : Reader) (p : Bytes) (end : Option ReaderEnd) (before : ℕ) (w : Wire)
    (r : Option TransportError × ℕ × Wire) (more : ℕ → Wire → Copy)
    → Took reader p end reader'
    → WroteRest p w r
    → (end ≡ none → (total : ℕ) (v : Wire) → Copied reader' total v (more total v))
    → Copied reader before w (after_part r end before more)
unfolding after_part
after_part-Copied reader reader' p end before w (some e, n, v) more took h rest =
    let (tail, front) = Took-front reader reader' p end took in
    record {
      count = n;
      runs = h.runs;
      within = omega (arith, h.count, ap length front, length-append p tail);
      sent =
          h.sent
          ∙ ap (λ (b : Bytes). w.sent ++ b)
              (sym (ap (λ (b : Bytes). take n b) front ∙ take-append_part n p tail h.count));
      total = refl;
      whole = λ q. cc q;
    }
after_part-Copied reader reader' p (some end) before w (none, n, v) more took h rest =
    let (same, ending) = took.ends end refl in
    let all : n ≡ length p = h.whole refl in
    record {
      count = n;
      runs = reader_result-stuck end;
      within = omega (arith, h.count, ap length same);
      sent = h.sent ∙ ap (λ (b : Bytes). w.sent ++ b) (ap (λ (b : Bytes). take n b) (sym same));
      total = refl;
      whole = λ q. (all ∙ ap length (sym same), ending ∙ reader_result-none end q);
    }
after_part-Copied reader reader' p none before w (none, n, v) more took h rest =
    let (front, ending, _) = took.goes_on refl in
    let all : n ≡ length p = h.whole refl in
    let k = rest refl (add_int64 before n) v in
    record {
      count = length p + k.count;
      runs = k.runs;
      within = omega (arith, k.within, ap length front, length-append p (content reader'));
      sent =
          k.sent
          ∙ ap (λ (b : Bytes). b ++ take k.count (content reader'))
              (h.sent
                ∙ ap (λ (b : Bytes). w.sent ++ b) (ap (λ (m : ℕ). take m p) all ∙ take_whole p))
          ∙ append_assoc w.sent p (take k.count (content reader'))
          ∙ ap (λ (b : Bytes). w.sent ++ b)
              (sym (
                ap (λ (b : Bytes). take (length p + k.count) b) front
                ∙ take-append_past k.count p (content reader')));
      total = omega (arith, k.total, all);
      whole = λ q. (
        omega (arith, (k.whole q).0, ap length front, length-append p (content reader')),
        ending ∙ (k.whole q).1,
      );
    }

copy_parts-Copied :
    (fuel size : ℕ) (reader : Reader) (before : ℕ) (w : Wire)
    → 0 < size
    → rounds reader ≤ fuel
    → Copied reader before w (copy_parts fuel size reader before w)
unfolding copy_parts
copy_parts-Copied zero size [] before w h k = absurd (omega arith)
copy_parts-Copied zero size (part ∷ reader) before w h k = absurd (omega arith)
copy_parts-Copied (suc fuel) size reader before w h k =
    let took = read_part-Took size reader h in
    let p : Bytes = (read_part size reader).0 in
    after_part-Copied reader (read_part size reader).2 p (read_part size reader).1 before w
      (write_rest (length p) p w) _ took (write_rest-WroteRest (length p) p w (omega arith))
      (λ going total v.
        copy_parts-Copied fuel size (read_part size reader).2 total v h
          (omega (arith, (took.goes_on going).2)))

chunk-positive : (size : ℕ) → 0 < chunk_or_default size
unfolding chunk_or_default
chunk-positive size = ground arith

-- Whatever the stream does with its writes, WriteFrom ends; it has sent a part, from the start
-- on, of what the reader gives until it ends, and returns the number of its bytes modulo 2^64; if
-- it returns nil, that part is everything, and the reader has ended with io.EOF.
pub write_from-Copied :
    (reader : Reader) (size : ℕ) (w : Wire) → Copied reader 0 w (write_from_wire reader size w)
unfolding write_from_wire
write_from-Copied reader size w =
    copy_parts-Copied (rounds reader) (chunk_or_default size) reader 0 w (chunk-positive size)
      (omega arith)
