-- ===== src/Route/Join.antt =====
-- `joinRoute`, and routes that normalising leaves alone.
use ppgram.Prelude.{
  append-ne-nil, All-append, ℕ, ◌≡◌, ◌≢◌, inl, inr, refl, ap, [], ◌∷◌, ◌++◌, true, false, GoString,
  All, arith, Bool-cases, List, append_assoc, ◌∙◌, not, all, sym, ◌=s=◌, str_eq_iff, if◌then◌else◌,
}
use ppgram.Text.{is_space, join}
use ppgram.Text.Trim.{trim_space_of_all}
use ppgram.Text.Split.{Without}
use ppgram.Route.{dot, normalize_route, join_route, root_name, is_dot_route}
use ppgram.Route.Syntax.{IsRoute, IsPart, IsRouteChar, is_dot_route_iff}
use ppgram.Route.Normal.{IsClean, IsNormal, normalize_route-IsNormal, normalize_route_of_IsNormal}

route_char-no_space : (c : ℕ) → IsRouteChar c → is_space c ≡ false
unfolding is_space
route_char-no_space c h = ground arith

part-no_space : (part : GoString) → All IsRouteChar part → all (λ c. not (is_space c)) part ≡ true
unfolding all
part-no_space [] h = refl
part-no_space (c ∷ part) h = rw (route_char-no_space c h.0) (part-no_space part h.1)

part-no_dot : (part : GoString) → All IsRouteChar part → Without dot part
part-no_dot [] h = tt
part-no_dot (c ∷ part) h = (ground arith, part-no_dot part h.1)

parts-IsClean : (parts : List GoString) → All IsPart parts → All IsClean parts
parts-IsClean [] h = tt
parts-IsClean (part ∷ parts) h = (
  record {
    some = h.0.0;
    no_dot = part-no_dot part h.0.1;
    trimmed = trim_space_of_all part (part-no_space part h.0.1);
  },
  parts-IsClean parts h.1,
)

IsRoute-IsNormal : {route : GoString} → IsRoute route → IsNormal route
IsRoute-IsNormal r = record {
  parts = r.parts;
  some = r.some_part;
  clean = parts-IsClean r.parts r.each;
  joined = r.joined;
}

-- A route that passes `isDotRoute` and is not empty is its own normal form.
pub normalize_route_of_dot_route :
    (route : GoString) → is_dot_route route ≡ true → route ≢ [] → normalize_route route ≡ route
normalize_route_of_dot_route route h some = elim ((is_dot_route_iff route).0 h) [
  | inl e ↦ absurd (some e)
  | inr r ↦ normalize_route_of_IsNormal (IsRoute-IsNormal r)
]

-- `joinRoute` after normalising.
abbrev pub join_normal : GoString → GoString → GoString
join_normal p s = if p =s= root_name then s else if s =s= root_name then p else p ++ dot ∷ s

has_dot : (p s : GoString) → Without dot (p ++ dot ∷ s) → ⊥
has_dot [] s h = h.0 refl
has_dot (c ∷ p) s h = has_dot p s h.1

dotted-ne-root : (p s : GoString) → ((p ++ dot ∷ s) =s= root_name) ≡ false
dotted-ne-root p s = elim (Bool-cases ((p ++ dot ∷ s) =s= root_name)) [
  | inl same ↦
      absurd (has_dot p s (rw ((str_eq_iff (p ++ dot ∷ s) root_name).0 same) (omega arith)))
  | inr other ↦ other
]

append-dot-parts :
    (ps qs : List GoString)
    → ps ≢ []
    → qs ≢ []
    → join dot (ps ++ qs) ≡ join dot ps ++ dot ∷ join dot qs
unfolding join
append-dot-parts [] qs some_p some_q = absurd (some_p refl)
append-dot-parts (p ∷ []) [] some_p some_q = absurd (some_q refl)
append-dot-parts (p ∷ []) (q ∷ qs) some_p some_q = refl
append-dot-parts (p ∷ p' ∷ ps) qs some_p some_q =
    ap (λ (t : GoString). p ++ dot ∷ t) (append-dot-parts (p' ∷ ps) qs (ground arith) some_q)
    ∙ sym (append_assoc p (dot ∷ join dot (p' ∷ ps)) (dot ∷ join dot qs))

dotted-IsNormal : {p s : GoString} → IsNormal p → IsNormal s → IsNormal (p ++ dot ∷ s)
dotted-IsNormal {p} {s} n m = record {
  parts = n.parts ++ m.parts;
  some = append-ne-nil n.parts m.parts m.some;
  clean = All-append IsClean n.parts m.parts n.clean m.clean;
  joined =
      ap (λ (t : GoString). t ++ dot ∷ s) n.joined
      ∙ ap (λ (t : GoString). join dot n.parts ++ dot ∷ t) m.joined
      ∙ sym (append-dot-parts n.parts m.parts n.some m.some);
}

join_normal-IsNormal : {p s : GoString} → IsNormal p → IsNormal s → IsNormal (join_normal p s)
join_normal-IsNormal {p} {s} n m = elim (Bool-cases (p =s= root_name)) [
  | inl e ↦ rw e m
  | inr e ↦ elim (Bool-cases (s =s= root_name)) [
    | inl e' ↦ rw (e, e') n
    | inr e' ↦ rw (e, e') (dotted-IsNormal n m)
  ]
]

join_normal_assoc :
    (p q r : GoString) → join_normal (join_normal p q) r ≡ join_normal p (join_normal q r)
join_normal_assoc p q r = ground (
  arith,
  dotted-ne-root p q,
  dotted-ne-root q r,
  str_eq_iff p root_name,
  str_eq_iff q root_name,
  str_eq_iff r root_name,
  append_assoc p (dot ∷ q) (dot ∷ r),
)

join_route_lem :
    (prefix route : GoString)
    → join_route prefix route ≡ join_normal (normalize_route prefix) (normalize_route route)
unfolding join_route
join_route_lem prefix route = refl

pub join_route-IsNormal : (prefix route : GoString) → IsNormal (join_route prefix route)
join_route-IsNormal prefix route =
    rw (join_route_lem prefix route)
      (join_normal-IsNormal (normalize_route-IsNormal prefix) (normalize_route-IsNormal route))

-- Joining routes is associative on all texts: a group in a group gives the path of one group with
-- the joined prefix.
pub join_route_assoc :
    (p q r : GoString) → join_route (join_route p q) r ≡ join_route p (join_route q r)
join_route_assoc p q r =
    rw
      (
        join_route_lem (join_route p q) r,
        join_route_lem p (join_route q r),
        normalize_route_of_IsNormal (join_route-IsNormal p q),
        normalize_route_of_IsNormal (join_route-IsNormal q r),
        join_route_lem p q,
        join_route_lem q r,
      )
      (join_normal_assoc (normalize_route p) (normalize_route q) (normalize_route r))

-- Two routes that pass isDotRoute and are neither empty nor the text "root" are joined by a dot.
pub join_route_of_dot_routes :
    (p s : GoString)
    → is_dot_route p ≡ true
    → is_dot_route s ≡ true
    → p ≢ []
    → s ≢ []
    → p ≢ root_name
    → s ≢ root_name
    → join_route p s ≡ p ++ dot ∷ s
join_route_of_dot_routes p s hp hs some_p some_s top_p top_s =
    rw
      (
        join_route_lem p s,
        normalize_route_of_dot_route p hp some_p,
        normalize_route_of_dot_route s hs some_s,
      )
      (ground (arith, str_eq_iff p root_name, str_eq_iff s root_name))
