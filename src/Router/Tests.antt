-- ===== src/Router/Tests.antt =====
-- A router with one route at a concrete request.
use ppgram.Prelude.{
  ℕ, true, List, [], ◌∷◌, Option, some, GoString, codes, is_empty, ◌≡◌, refl, ◌=s=◌,
}
use ppgram.Prelude.Maps.{lookup, insert}
use ppgram.Text.{trim_space, trim_func, trim_left, trim_right, is_space, split, cons_head, join}
use ppgram.Route.{
  is_route_char, matches_from, is_dot_route, clean_parts, join_parts, normalize_route, join_route,
}
use ppgram.Transport.{Frame, frame_type_data, ok}
use ppgram.Router.{response, Router, Routes, accepts, register_at, register_route, dispatch}
use ppgram.Router.Registration.{RouteAdded, route_entry, register_route-RouteAdded}
use ppgram.Router.Requests.{dispatch-register_route}

-- A group of routes with the middleware 1.
abbrev auth_group : Router ℕ ℕ
auth_group = record { prefix = codes "auth"; middleware = 1 ∷ [] }

abbrev one_route : Routes ℕ ℕ
one_route = (codes "auth.login", route_entry auth_group response (codes "login") (2 ∷ []) 9) ∷ []

registered : register_route auth_group response (codes "login") (2 ∷ []) 9 [] ≡ some one_route
unfolding register_route register_at is_dot_route matches_from is_route_char join_route
    normalize_route trim_space trim_func trim_left trim_right is_space is_empty split cons_head
    clean_parts join_parts join lookup insert ◌=s=◌
registered = refl

prefix_fine : is_dot_route auth_group.prefix ≡ true
unfolding is_dot_route matches_from is_route_char
prefix_fine = refl

register_route-RouteAdded_example :
    RouteAdded auth_group response (codes "login") (2 ∷ []) 9 [] one_route
register_route-RouteAdded_example =
    register_route-RouteAdded auth_group response (codes "login") (2 ∷ []) 9 [] one_route
      prefix_fine registered

-- An envelope that is the route itself.
abbrev as_op : List ℕ → Option (GoString × List ℕ)
as_op payload = some (payload, 5 ∷ [])

abbrev request_frame : Frame
request_frame = record { frame_type = frame_type_data; length = 11; payload = codes " auth.login" }

named : trim_space (codes " auth.login") ≡ join_route auth_group.prefix (codes "login")
unfolding join_route normalize_route trim_space trim_func trim_left trim_right is_space is_empty
    split cons_head clean_parts join_parts join ◌=s=◌
named = refl

dispatch-register_route_example :
    dispatch as_op one_route (ok request_frame)
    ≡ accepts (route_entry auth_group response (codes "login") (2 ∷ []) 9) (5 ∷ [])
dispatch-register_route_example =
    dispatch-register_route as_op auth_group response (codes "login") (2 ∷ []) 9 [] one_route
      request_frame (codes " auth.login") (5 ∷ []) prefix_fine registered refl named
