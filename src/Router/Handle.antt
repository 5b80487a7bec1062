-- ===== src/Router/Handle.antt =====
-- `Handle` of server/router/router.go: a stream is served. The registration methods of the router
-- wrap a handler so that the request of a feed or a transfer is decoded first.
pub mod Served
mod Tests
use ppgram.Prelude.{
  ℕ, Bool, true, false, List, [], ◌∷◌, Option, none, some, GoString, codes, length,
}
use ppgram.Transport.{Bytes, Wire, Frame, ReadResult, read_frame_wire}
use ppgram.Session.{Server}
use ppgram.Context.{
  Codec, ContextError, session_revoked, Reading, gives, fails, ResponseEnvelope, write_envelope,
  new_server_updates_context, new_client_updates_context, new_server_transfer_context,
  new_client_transfer_context,
}
use ppgram.Context.Chain.{Script, Ran, Endpoint, base_next}
use ppgram.Router.{
  StreamType, response, server_updates, client_updates, server_transfer, client_transfer,
  RouteEntry, Router, Routes, Handling, closes, rejects, accepts, dispatch, register_route,
}

-- What a request works on: the server, and the stream.
pub record Exchange : Type 0 where
  pub server : Server
  pub wire : Wire

-- `Session` and `Bytes` of a `BaseContext`
pub record Request : Type 0 where
  pub session : Option ℕ
  pub bytes : Bytes

abbrev pub Middleware : Type 0
Middleware = Request → Script Exchange

abbrev pub Handler : Type 0
Handler = Request → Endpoint Exchange

abbrev pub err_code_internal : ℕ
err_code_internal = 5001

-- `Close` of a stream
abbrev pub close_stream : Exchange → Exchange
close_stream x = record x { wire = record x.wire { closed = true } }

abbrev pub new_request : Option ℕ → Bytes → Request
new_request session bytes = record { session = session; bytes = bytes }

abbrev pub chain_of : Request → List Middleware → List (Script Exchange)
chain_of request [] = []
chain_of request (m ∷ ms) = m request ∷ chain_of request ms

module _ {Message : Type 0} (codec : Codec Message) where
  unfoldable pub send_error_response : ℕ → GoString → Wire → Option ContextError × Wire
  unfolding write_envelope
  send_error_response status_code message w =
      write_envelope
        (codec.marshal_response
          (record { status_code = status_code; message = message; response = [] }))
        w

  -- An error response, whose failure is only logged, and the end of the stream.
  unfoldable pub reject : ℕ → GoString → Exchange → Exchange
  unfolding send_error_response
  reject status_code message x =
      let (e, w) = send_error_response status_code message x.wire in
      close_stream (record x { wire = w })

  -- After `base.Next()`.
  unfoldable pub after_next : Option ContextError → Exchange → Exchange
  unfolding reject
  after_next none x = x
  after_next (some session_revoked) x = close_stream x
  after_next (some e) x = reject err_code_internal (codes "internal error") x

  unfoldable pub finish_request : Ran Exchange → Option Exchange
  unfolding after_next
  finish_request none = none
  finish_request (some (e, index, x)) = some (after_next e x)

  unfoldable pub serve : Handling Middleware Handler → Option ℕ → Exchange → Option Exchange
  unfolding reject finish_request
  serve closes session x = some (close_stream x)
  serve (rejects status_code message) session x = some (reject status_code message x)
  serve (accepts route bytes) session x =
      let request = new_request session bytes in
      finish_request
        (base_next (chain_of request route.middleware) (some (route.handler request)) x)

  -- `Handle`, given `proto.Unmarshal` of a request envelope. It is none only if `Next` does not
  -- return.
  unfoldable pub handle :
      (Bytes → Option (GoString × Bytes))
      → Routes Middleware Handler
      → Option ℕ
      → Exchange
      → Option Exchange
  unfolding serve
  handle unmarshal routes session x =
      let (r, w) = read_frame_wire x.wire in
      serve (dispatch unmarshal routes r) session (record x { wire = w })

-- `if err != nil { return err }` after a context was made, in front of the handler.
unfoldable pub with_context : {R : Type 0} → Reading R → (R → Endpoint Exchange) → Endpoint Exchange
with_context (fails e) handler x = (some e, x)
with_context (gives message) handler x = handler message x

module _ (r : Router Middleware Handler) (path : GoString) where
  -- `Response`
  unfoldable pub register_response :
      Handler → List Middleware → Routes Middleware Handler → Option (Routes Middleware Handler)
  register_response handler middleware routes =
      register_route r response path middleware handler routes

  module _ {R : Type 0} (decode : Bytes → Option R) (handler : R → Handler)
      (middleware : List Middleware) (routes : Routes Middleware Handler) where
    -- `ServerUpdates`
    unfoldable pub register_server_updates : Option (Routes Middleware Handler)
    unfolding with_context new_server_updates_context
    register_server_updates =
        register_route r server_updates path middleware
          (λ request.
            with_context (new_server_updates_context decode request.bytes) (λ m. handler m request))
          routes

    -- `ClientUpdates`
    unfoldable pub register_client_updates : Option (Routes Middleware Handler)
    unfolding with_context new_client_updates_context
    register_client_updates =
        register_route r client_updates path middleware
          (λ request.
            with_context (new_client_updates_context decode request.bytes) (λ m. handler m request))
          routes

    -- `ServerTransfer`
    unfoldable pub register_server_transfer : Option (Routes Middleware Handler)
    unfolding with_context new_server_transfer_context
    register_server_transfer =
        register_route r server_transfer path middleware
          (λ request.
            with_context (new_server_transfer_context decode request.bytes)
              (λ m. handler m request))
          routes

    -- `ClientTransfer`
    unfoldable pub register_client_transfer : Option (Routes Middleware Handler)
    unfolding with_context new_client_transfer_context
    register_client_transfer =
        register_route r client_transfer path middleware
          (λ request.
            with_context (new_client_transfer_context decode request.bytes)
              (λ m. handler m request))
          routes

-- `RouteCount`
unfoldable pub route_count : Routes Middleware Handler → ℕ
route_count routes = length routes
