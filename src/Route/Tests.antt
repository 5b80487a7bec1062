-- ===== src/Route/Tests.antt =====
-- Runs of the routes of server/router/router.go, and their theorems at concrete inputs.
use ppgram.Prelude.{true, false, [], ◌∷◌, ◌++◌, ◌≡◌, ◌⊎◌, ◌↔◌, refl, arith, codes, is_empty}
use ppgram.Text.{trim_space, trim_func, trim_left, trim_right, is_space, split, cons_head, join}
use ppgram.Route.{
  dot, is_route_char, matches_from, is_dot_route, clean_parts, join_parts, normalize_route,
  join_route,
}
use ppgram.Route.Syntax.{IsRoute, is_dot_route_iff}
use ppgram.Route.Normal.{normalize_route_idem}
use ppgram.Route.Join.{normalize_route_of_dot_route, join_route_assoc, join_route_of_dot_routes}

is_route : is_dot_route (codes "account.delete") ≡ true
unfolding is_dot_route matches_from is_route_char
is_route = refl

is_part : is_dot_route (codes "account") ≡ true
unfolding is_dot_route matches_from is_route_char
is_part = refl

not_route : is_dot_route (codes "account..delete") ≡ false
unfolding is_dot_route matches_from is_route_char
not_route = refl

cleaned : normalize_route (codes " .account. .delete.") ≡ codes "account.delete"
unfolding normalize_route trim_space trim_func trim_left trim_right is_space split cons_head
    clean_parts join_parts join is_empty
cleaned = refl

is_dot_route_iff_example :
    (is_dot_route (codes "account.delete") ≡ true)
    ↔ ((codes "account.delete" ≡ []) ⊎ IsRoute (codes "account.delete"))
is_dot_route_iff_example = is_dot_route_iff (codes "account.delete")

normalize_route_idem_example :
    normalize_route (normalize_route (codes " .account. .delete."))
    ≡ normalize_route (codes " .account. .delete.")
normalize_route_idem_example = normalize_route_idem (codes " .account. .delete.")

normalize_route_of_dot_route_example :
    normalize_route (codes "account.delete") ≡ codes "account.delete"
normalize_route_of_dot_route_example =
    normalize_route_of_dot_route (codes "account.delete") is_route (λ h. ground arith)

join_route_assoc_example :
    join_route (join_route (codes "a.") (codes "root")) (codes "b c")
    ≡ join_route (codes "a.") (join_route (codes "root") (codes "b c"))
join_route_assoc_example = join_route_assoc (codes "a.") (codes "root") (codes "b c")

joined_by_dot :
    join_route (codes "account") (codes "account.delete")
    ≡ codes "account" ++ dot ∷ codes "account.delete"
joined_by_dot =
    join_route_of_dot_routes (codes "account") (codes "account.delete") is_part is_route
      (λ h. ground arith) (λ h. ground arith) (λ h. ground arith) (λ h. ground arith)
