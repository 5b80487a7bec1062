-- ===== src/Main/Tests.antt =====
-- Requests for the routes of main.go.
use ppgram.Prelude.{
  ◌%◌, true, false, [], ◌∷◌, map, Option, none, some, GoString, codes, ◌≡◌, ◌⊎◌, refl, is_empty,
  ◌=s=◌,
}
use ppgram.Prelude.Maps.{lookup, insert}
use ppgram.Text.{trim_space, trim_func, trim_left, trim_right, is_space, split, cons_head, join}
use ppgram.Route.{
  is_route_char, matches_from, is_dot_route, clean_parts, join_parts, normalize_route, join_route,
}
use ppgram.Table.{exists}
use ppgram.Database.{deletion_of}
use ppgram.Transport.{
  Bytes, Wire, Frame, ok, read_frame_wire, read_full, decode_header, read_payload, write_frame_wire,
  stream_write, answer_write, write_payload, write_rest, after_write,
}
use ppgram.Auth.Samples.{sample_crypto, fresh, no_rows}
use ppgram.Session.{Server, new_device_session, set_session, is_authenticated, session_user_id}
use ppgram.Handlers.{Body, no_body, auth_response, account_delete_response, auth_middleware}
use ppgram.Context.{send_response, response_bytes, send_encoded, write_envelope}
use ppgram.Context.Samples.{toy_codec, writer}
use ppgram.Context.Chain.{nth, run_script, enter_chain, next_at, base_next}
use ppgram.Router.{
  Routes, dispatch, dispatch_envelope, dispatch_op, dispatch_route, register_at, register_route,
}
use ppgram.Router.Handle.{
  Exchange, Middleware, Handler, after_next, finish_request, serve, handle, register_response,
  route_count,
}
use ppgram.Main.{Messages, body_message, respond, auth_guard, pass, and_register, main_routes}
use ppgram.Database.Invariant.{IsConsistent}
use ppgram.Deletion.{process_due_account_deletions}
use ppgram.Session.Well.{IsWell}
use ppgram.Main.Invariant.{serves, connects, worker_runs, ServerRun, start, next, ServerRun-IsWell}
use ppgram.Main.Guard.{Unharmed, handle-account_delete}

abbrev body_bytes : Body → Bytes
body_bytes no_body = []
body_bytes (auth_response token) = map (λ c. c % 256) token
body_bytes (account_delete_response timestamp) = timestamp ∷ []

-- Messages of which no request can be read.
abbrev sample_messages : Messages
sample_messages = record {
  codec = toy_codec body_bytes;
  register_request = λ b. none;
  login_request = λ b. none;
  token_request = λ b. none;
  delete_request = λ b. none;
  cancel_request = λ b. none;
}

abbrev or_none : Option (Routes Middleware Handler) → Routes Middleware Handler
or_none none = []
or_none (some routes) = routes

abbrev sample_routes : Routes Middleware Handler
sample_routes = or_none (main_routes sample_messages sample_crypto)

abbrev as_op : Bytes → Option (GoString × Bytes)
as_op payload = some (payload, 5 ∷ [])

abbrev delete_op : GoString
delete_op = codes "account.delete"

abbrev asked : Wire
asked = record writer { inbox = 5 ∷ 0 ∷ 0 ∷ 0 ∷ 14 ∷ delete_op }

-- A server without a user, whose sessions belong to nobody.
abbrev empty_server : Server
empty_server = record {
  user_states = [];
  sessions = λ p. new_device_session none;
  closed = [];
  backend = fresh;
}

abbrev exchange : Exchange
exchange = record { server = empty_server; wire = asked }

built : main_routes sample_messages sample_crypto ≡ some sample_routes
unfolding main_routes and_register register_response register_route register_at insert lookup
    join_route is_dot_route matches_from is_route_char normalize_route trim_space trim_func
    trim_left trim_right is_space is_empty split cons_head clean_parts join_parts join ◌=s=◌
built = refl

six_routes : route_count sample_routes ≡ 6
unfolding main_routes and_register register_response register_route register_at insert lookup
    join_route is_dot_route matches_from is_route_char normalize_route trim_space trim_func
    trim_left trim_right is_space is_empty split cons_head clean_parts join_parts join ◌=s=◌
    route_count
six_routes = refl

abbrev delete_frame : Frame
delete_frame = record { frame_type = 5; length = 14; payload = delete_op }

arrived : read_frame_wire asked ≡ (ok delete_frame, writer)
unfolding read_frame_wire read_full decode_header read_payload
arrived = refl

named : trim_space delete_op ≡ codes "account.delete"
unfolding trim_space trim_func trim_left trim_right is_space
named = refl

-- The peer has the code 2001, and the stream is not closed.
abbrev answered : Exchange
answered = record {
  server = empty_server;
  wire = record writer { sent = 5 ∷ 0 ∷ 0 ∷ 0 ∷ 1 ∷ 2001 ∷ [] };
}

refused : handle sample_messages.codec as_op sample_routes (some 7) exchange ≡ some answered
unfolding main_routes and_register register_response register_route register_at insert lookup
    join_route is_dot_route matches_from is_route_char normalize_route trim_space trim_func
    trim_left trim_right is_space is_empty split cons_head clean_parts join_parts join ◌=s=◌
    read_frame_wire read_full decode_header read_payload handle dispatch dispatch_envelope
    dispatch_op dispatch_route serve base_next next_at enter_chain nth auth_guard run_script pass
    auth_middleware is_authenticated new_device_session respond body_message send_response
    response_bytes send_encoded write_envelope write_frame_wire stream_write answer_write
    write_payload write_rest after_write finish_request after_next
refused = refl

handle-account_delete_example :
    ((is_authenticated (some 7) empty_server ≡ true)
      × (exists
            (deletion_of (trim_space (session_user_id (some 7) empty_server)))
            empty_server.backend.db.pending_account_deletions
          ≡ false))
    ⊎ Unharmed empty_server answered.server
handle-account_delete_example =
    handle-account_delete sample_messages sample_crypto as_op (some 7) sample_routes exchange
      answered writer delete_frame delete_op (5 ∷ []) built arrived refl named refused

no_rows-IsConsistent : IsConsistent no_rows
no_rows-IsConsistent = record {
  user_ids = tt;
  usernames = tt;
  valid_names = tt;
  token_ids = tt;
  token_ids_used = tt;
  token_hashes = tt;
  token_devices = tt;
  token_users = tt;
  never_expires = tt;
  deletion_ids = tt;
  deletion_users = tt;
}

empty_server-IsWell : IsWell empty_server
unfolding new_device_session
empty_server-IsWell = record {
  sessions = λ p. record { woken = refl; nobody = λ r. refl };
  tables = no_rows-IsConsistent;
}

-- The request that is refused, a connection, and a run of the worker.
abbrev after_run : Server
after_run =
    let connected : Server = record empty_server {
      sessions = set_session 3 (new_device_session (some 1)) empty_server.sessions;
    } in
    record connected { backend = (process_due_account_deletions sample_crypto connected.backend).1 }

ran : ServerRun sample_messages sample_crypto as_op sample_routes empty_server after_run
ran = next (next (next start (serves (some 7) asked answered refused)) (connects 3 1)) worker_runs

ServerRun-IsWell_example : IsWell after_run
ServerRun-IsWell_example =
    ServerRun-IsWell sample_messages sample_crypto as_op sample_routes ran built empty_server-IsWell
