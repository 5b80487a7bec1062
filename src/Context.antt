-- ===== src/Context.antt =====
-- server/router/context_*.go: what a handler does with the stream of its request. The stream is one
-- that AcceptStream gave, so it is not nil. The generated code of the messages and the package proto
-- are a parameter, the codec.
pub mod Chain
pub mod Free
pub mod Feed
pub mod RoundTrip
pub mod Sequence
pub mod Samples
mod Tests
use ppgram.Prelude.{
  ℕ, ◌+◌, ◌%◌, ◌^◌, Bool, true, false, not, ◌==◌, List, [], ◌∷◌, Option, none, some, GoString,
  if◌then◌else◌,
}
use ppgram.Prelude.Maps.{lookup, insert}
use ppgram.Transport.{
  Bytes, Wire, Frame, TransportError, frame_type_data, ReadResult, ok, err, write_frame_wire,
  read_frame_wire,
}
use ppgram.Session.{Server, is_revoked}

pub record ResponseEnvelope : Type 0 where
  pub status_code : ℕ
  pub message : GoString
  pub response : Bytes

pub record UpdateEnvelope : Type 0 where
  pub seq : ℕ
  pub last : Bool
  pub update : Bytes

-- `proto.Marshal` and `proto.Unmarshal`, on the messages inside the envelopes, whose type is
-- `Message`, and on the envelopes.
pub record Codec (Message : Type 0) : Type 0 where
  pub marshal : Message → Option Bytes
  pub marshal_response : ResponseEnvelope → Option Bytes
  pub marshal_update : UpdateEnvelope → Option Bytes
  pub unmarshal_update : Bytes → Option UpdateEnvelope

-- `marshal_failed` and `unmarshal_failed` are the errors of the codec.
pub data ContextError : Type 0 where
  response_body_required update_body_required invalid_sequence : ContextError
  session_revoked marshal_failed unmarshal_failed : ContextError
  of_transport : TransportError → ContextError

pub data Reading {ℓ} (A : Type ℓ) : Type ℓ where
  gives : A → Reading A
  fails : ContextError → Reading A

abbrev pub context_error : Option TransportError → Option ContextError
context_error none = none
context_error (some e) = some (of_transport e)

-- The frame of an envelope; `Length` is not set, and WriteFrame does not look at it.
abbrev pub data_frame : Bytes → Frame
data_frame bytes = record { frame_type = frame_type_data; length = 0; payload = bytes }

-- `writeEnvelope`, given what `proto.Marshal` answers.
unfoldable pub write_envelope : Option Bytes → Wire → Option ContextError × Wire
write_envelope none w = (some marshal_failed, w)
write_envelope (some bytes) w =
    let (e, w') = write_frame_wire (data_frame bytes) w in (context_error e, w')

-- `c.Session != nil && c.Session.IsRevoked()`
unfoldable pub session_ended : Option ℕ → Server → Bool
session_ended none s = false
session_ended (some p) s = is_revoked (some p) s

-- The maps of a `BaseContext`.
pub record ContextMaps (V : Type 0) : Type 0 where
  pub params : List (GoString × GoString)
  pub values : List (GoString × V)

module _ {V : Type 0} where
  unfoldable pub set_value : GoString → V → ContextMaps V → ContextMaps V
  set_value key value c = record c { values = insert key value c.values }

  unfoldable pub get_value : GoString → ContextMaps V → Option V
  get_value key c = lookup key c.values

  -- A parameter that is not there is the empty text.
  unfoldable pub get_param : GoString → ContextMaps V → GoString
  get_param key c = elim (lookup key c.params) [ none ↦ [] | some value ↦ value ]

  unfoldable pub set_param : GoString → GoString → ContextMaps V → ContextMaps V
  set_param key value c = record c { params = insert key value c.params }

unfoldable pub decoded : Option UpdateEnvelope → Reading UpdateEnvelope
decoded none = fails unmarshal_failed
decoded (some envelope) = gives envelope

module _ {R : Type 0} (unmarshal : Bytes → Option R) (raw : Bytes) where
  unfoldable pub decode_request : Reading R
  decode_request = elim (unmarshal raw) [
    | none ↦ fails unmarshal_failed
    | some request ↦ gives request
  ]

  -- `NewServerUpdatesContext`, of which the handler gets the request beside the base.
  unfoldable pub new_server_updates_context : Reading R
  unfolding decode_request
  new_server_updates_context = decode_request

  -- `NewClientUpdatesContext`
  unfoldable pub new_client_updates_context : Reading R
  unfolding decode_request
  new_client_updates_context = decode_request

  -- `NewServerTransferContext`
  unfoldable pub new_server_transfer_context : Reading R
  unfolding decode_request
  new_server_transfer_context = decode_request

  -- `NewClientTransferContext`
  unfoldable pub new_client_transfer_context : Reading R
  unfolding decode_request
  new_client_transfer_context = decode_request

-- `ServerUpdatesContext`, without the request, which nothing here reads.
pub record ServerUpdates : Type 0 where
  pub next_seq : ℕ
  pub ended : Bool
  pub wire : Wire

pub record ClientUpdates : Type 0 where
  pub seq : ℕ
  pub update : Bytes
  pub ended : Bool
  pub next_seq : ℕ
  pub wire : Wire

abbrev pub new_server_updates : Wire → ServerUpdates
new_server_updates w = record { next_seq = 0; ended = false; wire = w }

abbrev pub new_client_updates : Wire → ClientUpdates
new_client_updates w = record { seq = 0; update = []; ended = false; next_seq = 0; wire = w }

module _ {Message : Type 0} (codec : Codec Message) where
  -- The response of an envelope: none if there is no message.
  unfoldable pub response_bytes : Option Message → Option Bytes
  response_bytes none = some []
  response_bytes (some message) = codec.marshal message

  unfoldable pub send_encoded : ℕ → GoString → Option Bytes → Wire → Option ContextError × Wire
  unfolding write_envelope
  send_encoded status_code message none w = (some marshal_failed, w)
  send_encoded status_code message (some bytes) w =
      write_envelope
        (codec.marshal_response
          (record { status_code = status_code; message = message; response = bytes }))
        w

  -- `SendResponse`
  unfoldable pub send_response : ℕ → GoString → Option Message → Wire → Option ContextError × Wire
  unfolding response_bytes send_encoded
  send_response status_code message response w =
      send_encoded status_code message (response_bytes response) w

  -- `Send` of the contexts of updates and transfers
  unfoldable pub send_with_body : ℕ → GoString → Option Message → Wire → Option ContextError × Wire
  send_with_body status_code message none w = (some response_body_required, w)
  send_with_body status_code message (some response) w =
      send_response status_code message (some response) w

  unfoldable pub write_update : ℕ → Bool → Option Bytes → Wire → Option ContextError × Wire
  unfolding write_envelope
  write_update seq last none w = (some marshal_failed, w)
  write_update seq last (some bytes) w =
      write_envelope (codec.marshal_update (record { seq = seq; last = last; update = bytes })) w

  -- `SendUpdate` of the base
  unfoldable pub send_base_update :
      Option ℕ → Server → ℕ → Bool → Message → Wire → Option ContextError × Wire
  unfolding session_ended write_update
  send_base_update session server seq last update w =
      if session_ended session server
      then (some session_revoked, w)
      else write_update seq last (codec.marshal update) w

  unfoldable pub decode_update : ReadResult Frame × Wire → Reading UpdateEnvelope × Wire
  unfolding decoded
  decode_update (err e, w) = (fails (of_transport e), w)
  decode_update (ok frame, w) = (decoded (codec.unmarshal_update frame.payload), w)

  -- `ReadUpdate`
  unfoldable pub read_update : Option ℕ → Server → Wire → Reading UpdateEnvelope × Wire
  unfolding session_ended decode_update
  read_update session server w =
      if session_ended session server
      then (fails session_revoked, w)
      else decode_update (read_frame_wire w)

  -- What `SendUpdate` of a feed does after that of the base.
  unfoldable pub after_update :
      Option ContextError × Wire → Bool → ServerUpdates → Option ContextError × ServerUpdates
  after_update (some e, w) last c = (some e, record c { wire = w })
  after_update (none, w) last c =
      (none, record { next_seq = (c.next_seq + 1) % 2 ^ 64; ended = last; wire = w })

  unfoldable pub send_some_update :
      Option ℕ
      → Server
      → Bool
      → Option Message
      → ServerUpdates
      → Option ContextError × ServerUpdates
  unfolding send_base_update after_update
  send_some_update session server last none c = (some update_body_required, c)
  send_some_update session server last (some update) c =
      after_update (send_base_update session server c.next_seq last update c.wire) last c

  -- `SendUpdate` of `ServerUpdatesContext`
  unfoldable pub send_update :
      Option ℕ
      → Server
      → Bool
      → Option Message
      → ServerUpdates
      → Option ContextError × ServerUpdates
  unfolding send_some_update
  send_update session server last update c =
      if c.ended then (none, c) else send_some_update session server last update c

  unfoldable pub take_update :
      Reading UpdateEnvelope × Wire → ClientUpdates → Reading Bool × ClientUpdates
  take_update (fails e, w) c = (fails e, record c { wire = w })
  take_update (gives envelope, w) c =
      if not (envelope.seq == c.next_seq)
      then (fails invalid_sequence, record c { wire = w })
      else (
        gives envelope.last,
        record {
          seq = envelope.seq;
          update = envelope.update;
          ended = envelope.last;
          next_seq = (c.next_seq + 1) % 2 ^ 64;
          wire = w;
        },
      )

  -- `NextUpdate`
  unfoldable pub next_update : Option ℕ → Server → ClientUpdates → Reading Bool × ClientUpdates
  unfolding read_update take_update
  next_update session server c =
      if c.ended then (gives true, c) else take_update (read_update session server c.wire) c
