-- ===== src/Router/Requests.antt =====
-- `Handle` of server/router/router.go: which route a request is given to.
use ppgram.Prelude.{
  ℕ, true, false, List, [], ◌∷◌, Option, some, GoString, is_empty, ◌≡◌, ◌≢◌, refl, ap, sym, ◌∙◌,
  subst,
}
use ppgram.Prelude.Maps.{lookup}
use ppgram.Text.{trim_space}
use ppgram.Route.{is_dot_route, join_route}
use ppgram.Route.Join.{normalize_route_of_dot_route}
use ppgram.Transport.{Frame, ok}
use ppgram.Router.{
  StreamType, RouteEntry, Router, Routes, accepts, dispatch_route, dispatch_op, dispatch_envelope,
  dispatch, register_route,
}
use ppgram.Router.Registration.{IsPath, route_entry, register_route-RouteAdded}

path-is_empty : (path : GoString) → path ≢ [] → is_empty path ≡ false
unfolding is_empty
path-is_empty [] h = elim (h refl) [ ]
path-is_empty (c ∷ s) h = refl

module _ {M H : Type 0} (unmarshal : List ℕ → Option (GoString × List ℕ)) where
  -- A request for a path.
  pub dispatch-accepts :
      (routes : Routes M H) (frame : Frame) (op : GoString) (request : List ℕ)
      (entry : RouteEntry M H)
      → unmarshal frame.payload ≡ some (op, request)
      → IsPath (trim_space op)
      → lookup (trim_space op) routes ≡ some entry
      → dispatch unmarshal routes (ok frame) ≡ accepts entry request
  unfolding dispatch dispatch_envelope dispatch_op dispatch_route
  dispatch-accepts routes frame op request entry decoded path found =
      rw
        (
          decoded,
          path-is_empty (trim_space op) path.some_path,
          path.syntax,
          normalize_route_of_dot_route (trim_space op) path.syntax path.some_path,
          found,
        )
        refl

  -- If a route was registered in a group whose prefix is a route, a request whose envelope
  -- decodes and whose trimmed op is the full path of the route is given to exactly that route,
  -- with the bytes of the request.
  pub dispatch-register_route :
      (r : Router M H) (stream_type : StreamType) (path : GoString) (middleware : List M)
      (handler : H) (routes routes' : Routes M H) (frame : Frame) (op : GoString) (request : List ℕ)
      → is_dot_route r.prefix ≡ true
      → register_route r stream_type path middleware handler routes ≡ some routes'
      → unmarshal frame.payload ≡ some (op, request)
      → trim_space op ≡ join_route r.prefix path
      → dispatch unmarshal routes' (ok frame)
        ≡ accepts (route_entry r stream_type path middleware handler) request
  dispatch-register_route r stream_type path middleware handler routes routes' frame op request
        prefix h decoded named =
      let added =
        register_route-RouteAdded r stream_type path middleware handler routes routes' prefix h in
      dispatch-accepts routes' frame op request _ decoded (subst IsPath (sym named) added.is_path)
        (ap (λ x. lookup x routes') named ∙ added.found)
