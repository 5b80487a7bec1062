-- ===== src/Router.antt =====
-- server/router/router.go: the registration of routes in groups, and which route a request is given
-- to. The groups of a router share the routes of its root, which are passed on explicitly; a panic
-- is `none`. Middleware and handlers are of any types.
pub mod Registration
pub mod Requests
pub mod Handle
mod Tests
use ppgram.Prelude.{
  ℕ, Bool, true, false, not, List, [], ◌∷◌, ◌++◌, Option, none, some, GoString, codes, is_empty,
  if◌then◌else◌,
}
use ppgram.Prelude.Maps.{lookup, insert}
use ppgram.Text.{trim_space}
use ppgram.Route.{is_dot_route, normalize_route, join_route}
use ppgram.Transport.{Frame, TransportError, ReadResult, ok, err}

pub data StreamType : Type 0 where
  response server_updates client_updates server_transfer client_transfer : StreamType

module _ (M H : Type 0) where
  -- `route`
  pub record RouteEntry : Type 0 where
    pub stream_type : StreamType
    pub path : GoString
    pub middleware : List M
    pub handler : H

  pub record Router : Type 0 where
    pub prefix : GoString
    pub middleware : List M

  -- `routes` of the root
  abbrev pub Routes : Type 0
  Routes = List (GoString × RouteEntry)

module _ {M H : Type 0} where
  -- `New`
  abbrev pub new_router : Router M H
  new_router = record { prefix = []; middleware = [] }

  unfoldable pub group : Router M H → GoString → List M → Option (Router M H)
  group r prefix middleware =
      if not (is_dot_route prefix)
      then none
      else some
          (record { prefix = join_route r.prefix prefix; middleware = r.middleware ++ middleware })

  -- `Use`
  unfoldable pub add_middleware : Router M H → List M → Router M H
  add_middleware r middleware = record r { middleware = r.middleware ++ middleware }

  -- What `register` does with the route that stands at the path.
  unfoldable pub register_at :
      Option (RouteEntry M H) → RouteEntry M H → Routes M H → Option (Routes M H)
  register_at (some existing) entry routes = none
  register_at none entry routes = some (insert entry.path entry routes)

  unfoldable pub register_route :
      Router M H → StreamType → GoString → List M → H → Routes M H → Option (Routes M H)
  register_route r stream_type path route_middleware handler routes =
      let full_path = join_route r.prefix path in
      let entry : RouteEntry M H = record {
        stream_type = stream_type;
        path = full_path;
        middleware = r.middleware ++ route_middleware;
        handler = handler;
      } in
      if not (is_dot_route path) then none else register_at (lookup full_path routes) entry routes

-- What `Handle` does with a request before its route runs.
pub data Handling (M H : Type 0) : Type 0 where
  -- the stream is closed without an answer
  closes : Handling M H
  -- an error response, then the stream is closed
  rejects : (status_code : ℕ) (message : GoString) → Handling M H
  -- the route's chain runs with the bytes of the request
  accepts : RouteEntry M H → List ℕ → Handling M H

abbrev pub err_code_bad_request : ℕ
err_code_bad_request = 1001

abbrev pub err_code_not_found : ℕ
err_code_not_found = 1002

module _ {M H : Type 0} where
  unfoldable pub dispatch_route : Option (RouteEntry M H) → List ℕ → Handling M H
  dispatch_route none request = rejects err_code_not_found (codes "route not found")
  dispatch_route (some route) request = accepts route request

  unfoldable pub dispatch_op : Routes M H → GoString → List ℕ → Handling M H
  dispatch_op routes op request =
      if is_empty op
      then rejects err_code_bad_request (codes "route op is required")
      else if not (is_dot_route op)
      then rejects err_code_bad_request (codes "invalid route")
      else dispatch_route (lookup (normalize_route op) routes) request

  -- After `proto.Unmarshal`, which gives the fields `op` and `request` of the envelope.
  unfoldable pub dispatch_envelope : Routes M H → Option (GoString × List ℕ) → Handling M H
  dispatch_envelope routes none = rejects err_code_bad_request (codes "invalid request envelope")
  dispatch_envelope routes (some (op, request)) = dispatch_op routes (trim_space op) request

  -- After `ReadFrame`, with `proto.Unmarshal` on the payload.
  unfoldable pub dispatch :
      (List ℕ → Option (GoString × List ℕ)) → Routes M H → ReadResult Frame → Handling M H
  dispatch unmarshal routes (err e) = closes
  dispatch unmarshal routes (ok frame) = dispatch_envelope routes (unmarshal frame.payload)
