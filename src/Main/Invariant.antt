-- ===== src/Main/Invariant.antt =====
-- The server with the routes of main.go: what holds of it after any requests.
use ppgram.Prelude.{ℕ, not, List, Option, none, some, GoString, is_empty, ◌≡◌, refl, sym, subst}
use ppgram.Prelude.Maps.{lookup}
use ppgram.Text.{trim_space}
use ppgram.Route.{is_dot_route, normalize_route}
use ppgram.Transport.{Bytes, Wire, Frame, ReadResult, ok, err, read_frame_wire}
use ppgram.Password.{Crypto}
use ppgram.Session.{Server, set_session, new_device_session}
use ppgram.Session.Revocation.{set_session-IsSound}
use ppgram.Database.{Time}
use ppgram.Backend.{Fault}
use ppgram.Deletion.{process_due_account_deletions}
use ppgram.Service.Invariant.{Keeps-process_due_account_deletions}
use ppgram.Session.Revocation.{if_cases}
use ppgram.Session.Well.{IsWell}
use ppgram.Context.Chain.{Ran}
use ppgram.Context.Chain.Preserves.{Leaves, base_next-Leaves}
use ppgram.Router.{
  RouteEntry, Routes, Handling, closes, rejects, accepts, dispatch, dispatch_envelope, dispatch_op,
  dispatch_route,
}
use ppgram.Router.Handle.{
  Exchange, Middleware, Handler, new_request, chain_of, reject, finish_request, serve, handle,
}
use ppgram.Main.Guard.{after_next-server}
use ppgram.Main.{Messages, main_routes}
use ppgram.Main.Kept.{
  WellServed, RouteKeeps, AllKeep, SomeKeep, lookup-RouteKeeps, main_routes-SomeKeep,
}

module _ (messages : Messages) (crypto : Crypto) where
  -- A route that was chosen.
  abbrev HandlingKeeps : Handling Middleware Handler → Type 0
  HandlingKeeps (accepts route bytes) = RouteKeeps route.middleware route.handler
  HandlingKeeps _ = Unit

  dispatch_route-HandlingKeeps :
      (o : Option (RouteEntry Middleware Handler)) (bytes : Bytes)
      → ((entry : RouteEntry Middleware Handler)
          → o ≡ some entry
          → RouteKeeps entry.middleware entry.handler)
      → HandlingKeeps (dispatch_route o bytes)
  unfolding dispatch_route
  dispatch_route-HandlingKeeps none bytes h = tt
  dispatch_route-HandlingKeeps (some entry) bytes h = h entry refl

  dispatch_op-HandlingKeeps :
      (routes : Routes Middleware Handler) (op : GoString) (bytes : Bytes)
      → AllKeep routes
      → HandlingKeeps (dispatch_op routes op bytes)
  unfolding dispatch_op
  dispatch_op-HandlingKeeps routes op bytes h =
      if_cases HandlingKeeps (is_empty op) _ _ (λ r. tt)
        (λ r.
          if_cases HandlingKeeps (not (is_dot_route op)) _ _ (λ r'. tt)
            (λ r'.
              dispatch_route-HandlingKeeps (lookup (normalize_route op) routes) bytes
                (λ entry found. lookup-RouteKeeps (normalize_route op) routes h found)))

  dispatch-HandlingKeeps :
      (unmarshal : Bytes → Option (GoString × Bytes)) (routes : Routes Middleware Handler)
      (r : ReadResult Frame)
      → AllKeep routes
      → HandlingKeeps (dispatch unmarshal routes r)
  unfolding dispatch dispatch_envelope
  dispatch-HandlingKeeps unmarshal routes (err e) h = tt
  dispatch-HandlingKeeps unmarshal routes (ok frame) h =
      elim (unmarshal frame.payload) as (λ o. HandlingKeeps (dispatch_envelope routes o)) [
        | none ↦ tt
        | some (op, bytes) ↦ dispatch_op-HandlingKeeps routes (trim_space op) bytes h
      ]

  abbrev SomeServed : Option Exchange → Type 0
  SomeServed none = Unit
  SomeServed (some x) = WellServed x

  finish_request-SomeServed :
      (r : Ran Exchange) → Leaves WellServed r → SomeServed (finish_request messages.codec r)
  unfolding finish_request
  finish_request-SomeServed none h = tt
  finish_request-SomeServed (some (e, index, x)) h =
      subst IsWell (sym (after_next-server messages crypto e x)) h

  serve-SomeServed :
      (handling : Handling Middleware Handler) (session : Option ℕ) (x : Exchange)
      → HandlingKeeps handling
      → WellServed x
      → SomeServed (serve messages.codec handling session x)
  unfolding serve reject
  serve-SomeServed closes session x k h = h
  serve-SomeServed (rejects status_code message) session x k h = h
  serve-SomeServed (accepts route bytes) session x k h = finish_request-SomeServed _ (
      base_next-Leaves WellServed (chain_of (new_request session bytes) route.middleware)
        (route.handler (new_request session bytes)) x (k.chain (new_request session bytes))
        (k.endpoint (new_request session bytes)) h)

  module _ (unmarshal : Bytes → Option (GoString × Bytes))
      (routes : Routes Middleware Handler) where
    handle-IsWell :
        (session : Option ℕ) (x : Exchange) {x' : Exchange}
        → main_routes messages crypto ≡ some routes
        → IsWell x.server
        → handle messages.codec unmarshal routes session x ≡ some x'
        → IsWell x'.server
    unfolding handle
    handle-IsWell session x built h served =
        let keeps : AllKeep routes = subst SomeKeep built (main_routes-SomeKeep messages crypto) in
        subst SomeServed served (
          serve-SomeServed (dispatch unmarshal routes (read_frame_wire x.wire).0) session _
            (dispatch-HandlingKeeps unmarshal routes (read_frame_wire x.wire).0 keeps) h)

    -- A request on any stream, a new connection with its session, a run of the worker, or the
    -- environment: the clocks and the connections go on, the random numbers to come are others, and
    -- Redis may be emptied or written to by others.
    pub data ServerStep (s : Server) : Server → Type 0 where
      serves :
          (session : Option ℕ) (wire : Wire) (x' : Exchange)
          → handle messages.codec unmarshal routes session (record { server = s; wire = wire })
            ≡ some x'
          → ServerStep s x'.server
      connects :
          (p conn : ℕ)
          → ServerStep s
              (record s { sessions = set_session p (new_device_session (some conn)) s.sessions })
      worker_runs :
          ServerStep s (record s { backend = (process_due_account_deletions crypto s.backend).1 })
      time_passes :
          (now db_now : Time) (faults : List Fault) (entropy : ℕ → Option (ℕ → ℕ))
          → ServerStep s (record s {
            backend = record s.backend {
              now = now;
              db_now = db_now;
              faults = faults;
              entropy = entropy;
            };
          })
      redis_changes :
          (redis : List (GoString × GoString))
          → ServerStep s (record s { backend = record s.backend { redis = redis } })

    pub data ServerRun (s : Server) : Server → Type 0 where
      start : ServerRun s s
      next : {t u : Server} → ServerRun s t → ServerStep t u → ServerRun s u

    ServerStep-IsWell :
        {s t : Server}
        → ServerStep s t
        → main_routes messages crypto ≡ some routes
        → IsWell s
        → IsWell t
    ServerStep-IsWell {s} (serves session wire x' served) built h =
        handle-IsWell session (record { server = s; wire = wire }) built h served
    ServerStep-IsWell {s} (connects p conn) built h = record {
      sessions =
          set_session-IsSound p (new_device_session (some conn)) s.sessions
            (unfold new_device_session in record { woken = refl; nobody = λ r. refl }) h.sessions;
      tables = h.tables;
    }
    ServerStep-IsWell {s} worker_runs built h = record {
      sessions = h.sessions;
      tables = (Keeps-process_due_account_deletions crypto).at s.backend h.tables;
    }
    ServerStep-IsWell (time_passes now db_now faults entropy) built h = record {
      sessions = h.sessions;
      tables = h.tables;
    }
    ServerStep-IsWell (redis_changes redis) built h = record {
      sessions = h.sessions;
      tables = h.tables;
    }

    -- With the routes of main, from sound sessions and consistent tables, after any requests on
    -- any streams and sessions, new connections, runs of the worker, failures of the connections
    -- to the database and to Redis, and changes of Redis, in any order: every session is sound,
    -- which is that the readers of its channel have been woken just when it is revoked and that a
    -- revoked session belongs to nobody, and the tables are consistent.
    pub ServerRun-IsWell :
        {s t : Server}
        → ServerRun s t
        → main_routes messages crypto ≡ some routes
        → IsWell s
        → IsWell t
    ServerRun-IsWell start built h = h
    ServerRun-IsWell (next run step) built h =
        ServerStep-IsWell step built (ServerRun-IsWell run built h)
