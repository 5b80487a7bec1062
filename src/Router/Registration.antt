-- ===== src/Router/Registration.antt =====
-- `register` and `Group` of server/router/router.go.
use ppgram.Prelude.{
  Bool, true, false, not, ◌==◌, List, [], ◌∷◌, ◌++◌, Option, none, some, GoString, is_empty,
  if◌then◌else◌, ◌≡◌, ◌≢◌, refl, ap, sym, ◌∙◌, subst, arith, Bool-cases, inl, inr, ◌=s=◌,
  str_eq_refl,
}
use ppgram.Prelude.Maps.{lookup, insert, lookup-insert}
use ppgram.Text.{trim_space, trim_func, trim_left, trim_right}
use ppgram.Route.{
  dot, root_name, is_route_char, matches_from, is_dot_route, normalize_route, join_route,
}
use ppgram.Route.Join.{normalize_route_of_dot_route}
use ppgram.Router.{StreamType, RouteEntry, Router, Routes, group, register_at, register_route}

-- A text that a request can name a route by.
pub record IsPath (path : GoString) : Type 0 where
  pub syntax : is_dot_route path ≡ true
  pub some_path : path ≢ []

matches_from-append :
    (started : Bool) (p s : GoString)
    → matches_from started p ≡ true
    → matches_from started (p ++ dot ∷ s) ≡ matches_from false s
unfolding matches_from
matches_from-append started [] s h = ground arith
matches_from-append started (c ∷ p) s h = ground (arith, matches_from-append (not (c == dot)) p s)

append-IsPath : (p s : GoString) → IsPath p → IsPath s → IsPath (p ++ dot ∷ s)
unfolding is_dot_route
append-IsPath [] s h k = elim (h.some_path refl) [ ]
append-IsPath (c ∷ p) [] h k = elim (k.some_path refl) [ ]
append-IsPath (c ∷ p) (d ∷ s) h k = record {
  syntax = matches_from-append false (c ∷ p) (d ∷ s) h.syntax ∙ k.syntax;
  some_path = λ e. ground arith;
}

normalize_route-nil : normalize_route [] ≡ root_name
unfolding normalize_route trim_space trim_func trim_left trim_right is_empty
normalize_route-nil = refl

root-is_dot_route : is_dot_route root_name ≡ true
unfolding is_dot_route matches_from is_route_char
root-is_dot_route = refl

normalize_route-IsPath :
    (route : GoString) → is_dot_route route ≡ true → IsPath (normalize_route route)
normalize_route-IsPath [] h =
    subst IsPath (sym normalize_route-nil)
      (record { syntax = root-is_dot_route; some_path = λ e. ground arith })
normalize_route-IsPath (c ∷ s) h =
    let some_route : (c ∷ s) ≢ [] = λ e. ground arith in
    subst IsPath (sym (normalize_route_of_dot_route (c ∷ s) h some_route))
      (record { syntax = h; some_path = some_route })

if_IsPath :
    (t u : Bool) (a b c : GoString)
    → IsPath a
    → IsPath b
    → IsPath c
    → IsPath (if t then a else if u then b else c)
if_IsPath true u a b c h k l = h
if_IsPath false true a b c h k l = k
if_IsPath false false a b c h k l = l

join_route-IsPath :
    (prefix route : GoString)
    → is_dot_route prefix ≡ true
    → is_dot_route route ≡ true
    → IsPath (join_route prefix route)
unfolding join_route
join_route-IsPath prefix route h k =
    let p = normalize_route-IsPath prefix h in
    let s = normalize_route-IsPath route k in
    if_IsPath _ _ _ _ _ s p (append-IsPath (normalize_route prefix) (normalize_route route) p s)

module _ {M H : Type 0} where
  -- Every group's prefix is a route.
  pub group-prefix :
      (r r' : Router M H) (prefix : GoString) (middleware : List M)
      → is_dot_route r.prefix ≡ true
      → group r prefix middleware ≡ some r'
      → (r'.prefix ≡ join_route r.prefix prefix) × (is_dot_route r'.prefix ≡ true)
  unfolding group
  group-prefix r r' prefix middleware h made = elim (Bool-cases (is_dot_route prefix)) [
    | inr bad ↦ cc (rw bad at made)
    | inl fine ↦
        let same : join_route r.prefix prefix ≡ r'.prefix = ap router_prefix (rw fine at made) in
        (
          sym same,
          subst (λ x. is_dot_route x ≡ true) same (join_route-IsPath r.prefix prefix h fine).syntax,
        )
  ]
    where
      router_prefix : Option (Router M H) → GoString
      router_prefix none = []
      router_prefix (some r) = r.prefix

  abbrev pub route_entry : Router M H → StreamType → GoString → List M → H → RouteEntry M H
  route_entry r stream_type path middleware handler = record {
    stream_type = stream_type;
    path = join_route r.prefix path;
    middleware = r.middleware ++ middleware;
    handler = handler;
  }

  -- What a successful registration has done.
  pub record RouteAdded (r : Router M H) (stream_type : StreamType) (path : GoString)
      (middleware : List M) (handler : H) (routes routes' : Routes M H) : Type 0 where
    pub is_path : IsPath (join_route r.prefix path)
    pub was_free : lookup (join_route r.prefix path) routes ≡ none
    pub found :
        lookup (join_route r.prefix path) routes'
        ≡ some (route_entry r stream_type path middleware handler)
    pub others :
        (other : GoString)
        → (join_route r.prefix path =s= other) ≡ false
        → lookup other routes' ≡ lookup other routes

  register_at-inserts :
      (o : Option (RouteEntry M H)) (entry : RouteEntry M H) (routes routes' : Routes M H)
      → register_at o entry routes ≡ some routes'
      → (o ≡ none) × (insert entry.path entry routes ≡ routes')
  unfolding register_at
  register_at-inserts none entry routes routes' h = (refl, cc h)
  register_at-inserts (some existing) entry routes routes' h = cc h

  -- In a group whose prefix is a route, a registration that does not panic has found the full
  -- path free; afterwards the route stands there with the group's middleware before its own, all
  -- other paths are as before, and the full path is a route that is not empty.
  pub register_route-RouteAdded :
      (r : Router M H) (stream_type : StreamType) (path : GoString) (middleware : List M)
      (handler : H) (routes routes' : Routes M H)
      → is_dot_route r.prefix ≡ true
      → register_route r stream_type path middleware handler routes ≡ some routes'
      → RouteAdded r stream_type path middleware handler routes routes'
  unfolding register_route
  register_route-RouteAdded r stream_type path middleware handler routes routes' prefix h =
      elim (Bool-cases (is_dot_route path)) [
        | inr bad ↦ cc (rw bad at h)
        | inl fine ↦
            let full_path = join_route r.prefix path in
            let entry = route_entry r stream_type path middleware handler in
            let (free, inserted) = register_at-inserts _ entry routes routes' (rw fine at h) in
            record {
              is_path = join_route-IsPath r.prefix path prefix fine;
              was_free = free;
              found =
                  ap (lookup full_path) (sym inserted)
                  ∙ lookup-insert full_path full_path entry routes
                  ∙ ap (λ t. if t then some entry else lookup full_path routes)
                      (str_eq_refl full_path);
              others = λ other differs.
                  ap (lookup other) (sym inserted)
                  ∙ lookup-insert full_path other entry routes
                  ∙ ap (λ t. if t then some entry else lookup other routes) differs;
            }
      ]
