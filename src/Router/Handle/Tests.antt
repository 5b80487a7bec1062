-- ===== src/Router/Handle/Tests.antt =====
-- Requests that the router refuses, and one that it serves.
use ppgram.Prelude.{
  false, [], ◌∷◌, Option, none, some, GoString, codes, ◌≡◌, refl, is_empty, ltb, ◌^◌, ◌-◌, length,
  ◌=s=◌,
}
use ppgram.Prelude.Maps.{lookup}
use ppgram.Text.{trim_space, trim_func, trim_left, trim_right, is_space, split, cons_head, join}
use ppgram.Route.{
  is_route_char, matches_from, is_dot_route, clean_parts, join_parts, normalize_route,
}
use ppgram.Transport.{
  Bytes, Wire, Frame, ok, read_frame_wire, read_full, decode_header, read_payload,
}
use ppgram.Transport.Write.{encode_frame}
use ppgram.Context.{Codec, data_frame}
use ppgram.Context.Free.{add_sent}
use ppgram.Context.Samples.{toy_codec, writer}
use ppgram.Context.Chain.{returns}
use ppgram.Session.Samples.{with_session}
use ppgram.Router.{
  Routes, rejects, response, dispatch, dispatch_envelope, dispatch_op, dispatch_route,
  err_code_not_found,
}
use ppgram.Router.Handle.{Exchange, Middleware, Handler, close_stream, handle}
use ppgram.Router.Handle.Served.{Answered, handle-Answered, handle-rejects}

abbrev toy : Codec Bytes
toy = toy_codec λ b. b

-- The whole payload names the route.
abbrev as_op : Bytes → Option (GoString × Bytes)
as_op payload = some (payload, 5 ∷ [])

abbrev one_route : Routes Middleware Handler
one_route =
    (
      codes "ping",
      record {
        stream_type = response;
        path = codes "ping";
        middleware = (λ request. returns none) ∷ [];
        handler = λ request x. (none, x);
      },
    )
    ∷ []

abbrev asked : Wire
asked = record writer { inbox = 5 ∷ 0 ∷ 0 ∷ 0 ∷ 4 ∷ codes "pong" }

abbrev exchange : Exchange
exchange = record { server = with_session; wire = asked }

handle-Answered_example :
    Answered
      (dispatch as_op one_route (read_frame_wire asked).0)
      (some 7)
      (record exchange { wire = (read_frame_wire asked).1 })
      (handle toy as_op one_route (some 7) exchange)
handle-Answered_example = handle-Answered toy as_op one_route (some 7) exchange

abbrev pong : Frame
pong = record { frame_type = 5; length = 4; payload = codes "pong" }

arrived : read_frame_wire asked ≡ (ok pong, writer)
unfolding read_frame_wire read_full decode_header read_payload
arrived = refl

not_found :
    dispatch as_op one_route (ok pong) ≡ rejects err_code_not_found (codes "route not found")
unfolding dispatch dispatch_envelope dispatch_op dispatch_route lookup is_dot_route matches_from
    is_route_char normalize_route trim_space trim_func trim_left trim_right is_space is_empty split
    cons_head clean_parts join_parts join ◌=s=◌
not_found = refl

small : ltb (2 ^ 32 - 1) (length (err_code_not_found ∷ [])) ≡ false
small = refl

handle-rejects_example :
    handle toy as_op one_route (some 7) exchange
    ≡ some (
        close_stream (record exchange {
          wire = add_sent (encode_frame (data_frame (err_code_not_found ∷ []))) writer;
        }))
handle-rejects_example =
    handle-rejects toy as_op one_route (some 7) exchange err_code_not_found
      (codes "route not found") writer pong (err_code_not_found ∷ []) arrived not_found refl small
      refl
