-- ===== src/Context/Samples.antt =====
-- A small codec and a stream for the tests.
use ppgram.Prelude.{true, false, ◌==◌, [], ◌∷◌, Option, none, some}
use ppgram.Transport.{Bytes, eof, Wire}
use ppgram.Context.{UpdateEnvelope, Codec}

unfoldable pub decode_toy : Bytes → Option UpdateEnvelope
decode_toy (seq ∷ last ∷ update) = some (record { seq = seq; last = last == 1; update = update })
decode_toy _ = none

unfoldable pub encode_toy : UpdateEnvelope → Bytes
encode_toy e = elim e.last [ true ↦ e.seq ∷ 1 ∷ e.update | false ↦ e.seq ∷ 0 ∷ e.update ]

abbrev pub toy_codec : {Message : Type 0} → (Message → Bytes) → Codec Message
toy_codec marshal = record {
  marshal = λ m. some (marshal m);
  marshal_response = λ e. some (e.status_code ∷ e.response);
  marshal_update = λ e. some (encode_toy e);
  unmarshal_update = decode_toy;
}

abbrev pub writer : Wire
writer = record { inbox = []; ending = eof; sent = []; accepts = []; closed = false }
