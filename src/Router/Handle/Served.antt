-- ===== src/Router/Handle/Served.antt =====
-- What `Handle` leaves of a stream, whatever arrives on it.
use ppgram.Prelude.{
  ℕ, ◌^◌, true, false, [], Option, none, some, GoString, length, ltb, ◌-◌, ◌≡◌, ◌⊎◌, inl, inr, refl,
  arith,
}
use ppgram.Transport.{Bytes, Wire, Frame, ok, read_frame_wire}
use ppgram.Transport.Write.{encode_frame}
use ppgram.Context.{Codec, ContextError, data_frame, write_envelope}
use ppgram.Context.Free.{add_sent, write_frame-free}
use ppgram.Context.Chain.{Ran, base_next}
use ppgram.Context.Chain.Termination.{base_next-Returned}
use ppgram.Router.{RouteEntry, Routes, Handling, closes, rejects, accepts, dispatch}
use ppgram.Router.Handle.{
  Exchange, Middleware, Handler, close_stream, new_request, chain_of, send_error_response, reject,
  after_next, finish_request, serve, handle,
}

-- The run of a route.
abbrev pub run_route : RouteEntry Middleware Handler → Option ℕ → Bytes → Exchange → Ran Exchange
run_route route session bytes x =
    base_next (chain_of (new_request session bytes) route.middleware)
      (some (route.handler (new_request session bytes))) x

-- The route and its middleware have returned nil, and the state is what they have left.
abbrev pub Completed : Handling Middleware Handler → Option ℕ → Exchange → Exchange → Type 0
Completed handling session x x' =
    (route : RouteEntry Middleware Handler) × (bytes : Bytes) × (index : ℕ) × (handling
      ≡ accepts route bytes)
    × (run_route route session bytes x ≡ some (none, index, x'))

-- Either the stream was closed, or the request was completed.
pub record Answered (handling : Handling Middleware Handler) (session : Option ℕ) (x : Exchange)
    (r : Option Exchange) : Type 0 where
  pub final : Exchange
  pub returned : r ≡ some final
  pub left : (final.wire.closed ≡ true) ⊎ Completed handling session x final

module _ {Message : Type 0} (codec : Codec Message) where
  reject-closed :
      (status_code : ℕ) (message : GoString) (x : Exchange)
      → (reject codec status_code message x).wire.closed ≡ true
  unfolding reject
  reject-closed status_code message x = refl

  after_next-some :
      (e : ContextError) (x : Exchange) → (after_next codec (some e) x).wire.closed ≡ true
  unfolding after_next reject
  after_next-some e x = ground arith

  finish_request-Answered :
      (route : RouteEntry Middleware Handler) (bytes : Bytes) (session : Option ℕ) (x : Exchange)
      (error : Option ContextError) (index : ℕ) (y : Exchange)
      → run_route route session bytes x ≡ some (error, index, y)
      → Answered
          (accepts route bytes)
          session
          x
          (finish_request codec (run_route route session bytes x))
  unfolding finish_request after_next
  finish_request-Answered route bytes session x none index y h = record {
    final = y;
    returned = rw h refl;
    left = inr (route, bytes, index, refl, h);
  }
  finish_request-Answered route bytes session x (some e) index y h = record {
    final = after_next codec (some e) y;
    returned = rw h refl;
    left = inl (after_next-some e y);
  }

  serve-Answered :
      (handling : Handling Middleware Handler) (session : Option ℕ) (x : Exchange)
      → Answered handling session x (serve codec handling session x)
  unfolding serve
  serve-Answered closes session x = record {
    final = close_stream x;
    returned = refl;
    left = inl refl;
  }
  serve-Answered (rejects status_code message) session x = record {
    final = reject codec status_code message x;
    returned = refl;
    left = inl (reject-closed status_code message x);
  }
  serve-Answered (accepts route bytes) session x =
      let run =
        base_next-Returned (chain_of (new_request session bytes) route.middleware)
          (some (route.handler (new_request session bytes))) x in
      finish_request-Answered route bytes session x run.error run.reached run.state run.returned

  module _ (unmarshal : Bytes → Option (GoString × Bytes)) (routes : Routes Middleware Handler)
      (session : Option ℕ) where
    -- Handle returns, whatever arrives, however often the middleware of a route call Next, and
    -- whatever the handler does; afterwards the stream is closed, or the route was found and its
    -- chain has returned nil, and the state is the one that the chain has left.
    pub handle-Answered :
        (x : Exchange)
        → Answered
            (dispatch unmarshal routes (read_frame_wire x.wire).0)
            session
            (record x { wire = (read_frame_wire x.wire).1 })
            (handle codec unmarshal routes session x)
    unfolding handle
    handle-Answered x =
        serve-Answered (dispatch unmarshal routes (read_frame_wire x.wire).0) session
          (record x { wire = (read_frame_wire x.wire).1 })

    -- If a frame arrives that the dispatch rejects with a code and a message, the response with
    -- them can be encoded and is not too large, and the stream takes what it is given, then
    -- Handle changes nothing of the server, writes exactly one data frame with that response
    -- behind what was sent before, and closes the stream.
    pub handle-rejects :
        (x : Exchange) (status_code : ℕ) (message : GoString) (w : Wire) (frame : Frame) (p : Bytes)
        → read_frame_wire x.wire ≡ (ok frame, w)
        → dispatch unmarshal routes (ok frame) ≡ rejects status_code message
        → codec.marshal_response
            (record { status_code = status_code; message = message; response = [] })
          ≡ some p
        → ltb (2 ^ 32 - 1) (length p) ≡ false
        → w.accepts ≡ []
        → handle codec unmarshal routes session x
          ≡ some (close_stream (record x { wire = add_sent (encode_frame (data_frame p)) w }))
    unfolding handle serve reject send_error_response write_envelope
    handle-rejects x status_code message w frame p arrived rejected marshals fits takes_all =
        rw (arrived, rejected, marshals, write_frame-free (data_frame p) w takes_all fits) refl
