-- ===== src/Route.antt =====
-- server/router/router.go: the syntax of routes.
pub mod Syntax
pub mod Normal
pub mod Join
mod Tests
use ppgram.Prelude.{
  ℕ, List, [], ◌∷◌, ◌++◌, Bool, true, false, ◌&&◌, ◌||◌, not, leb, ◌==◌, GoString, codes, ◌=s=◌,
  is_empty, if◌then◌else◌,
}
use ppgram.Text.{trim_space, trim_func, split, join}

abbrev pub dot : ℕ
dot = b'.'

-- [A-Za-z_]
unfoldable pub is_route_char : ℕ → Bool
is_route_char c = (leb b'A' c && leb c b'Z') || (leb b'a' c && leb c b'z') || c == b'_'

-- `dotRoutePattern`, ^[A-Za-z_]+(\.[A-Za-z_]+)*$. The flag says whether the part before has a
-- character.
unfoldable pub matches_from : Bool → GoString → Bool
unfolding is_route_char
matches_from started [] = started
matches_from started (c ∷ s) =
    let rest = matches_from (not (c == dot)) s in
    if c == dot then started && rest else is_route_char c && rest

unfoldable pub is_dot_route : GoString → Bool
is_dot_route [] = true
is_dot_route (c ∷ s) = matches_from false (c ∷ s)

abbrev pub root_name : GoString
root_name = codes "root"

-- The loop of `normalizeRoute`.
unfoldable pub clean_parts : List GoString → List GoString
clean_parts [] = []
clean_parts (part ∷ parts) =
    let rest = clean_parts parts in
    let trimmed = trim_space part in if is_empty trimmed then rest else trimmed ∷ rest

-- `normalizeRoute` after its loop.
unfoldable pub join_parts : List GoString → GoString
join_parts [] = root_name
join_parts (part ∷ parts) = join dot (part ∷ parts)

unfoldable pub normalize_route : GoString → GoString
normalize_route route =
    let trimmed = trim_func (λ c. c == dot) (trim_space route) in
    if is_empty trimmed then root_name else join_parts (clean_parts (split dot trimmed))

unfoldable pub join_route : GoString → GoString → GoString
join_route prefix route =
    let p = normalize_route prefix in
    let s = normalize_route route in
    if p =s= root_name then s else if s =s= root_name then p else p ++ dot ∷ s
