-- ===== src/Route/Syntax.antt =====
-- `isDotRoute` against the grammar of routes.
use ppgram.Prelude.{
  ℕ, ◌≤◌, ◌≡◌, ◌≢◌, ◌↔◌, ◌⊎◌, inl, inr, refl, [], ◌∷◌, ◌++◌, Bool, true, false, ◌==◌, GoString, All,
  arith, Bool-cases, List, append-nil, ◌∙◌,
}
use ppgram.Text.{join}
use ppgram.Route.{dot, is_route_char, matches_from, is_dot_route}

abbrev pub IsRouteChar : ℕ → Type 0
IsRouteChar c = ((b'A' ≤ c) × (c ≤ b'Z')) ⊎ (((b'a' ≤ c) × (c ≤ b'z')) ⊎ (c ≡ b'_'))

-- One part: [A-Za-z_]+
abbrev pub IsPart : GoString → Type 0
IsPart part = (part ≢ []) × All IsRouteChar part

-- A route that names something: parts joined by dots.
pub record IsRoute (route : GoString) : Type 0 where
  pub parts : List GoString
  pub some_part : parts ≢ []
  pub each : All IsPart parts
  pub joined : route ≡ join dot parts

is_route_char_iff : (c : ℕ) → (is_route_char c ≡ true) ↔ IsRouteChar c
unfolding is_route_char
is_route_char_iff c = (λ h. ground arith, λ h. ground arith)

pub route_char-ne-dot : (c : ℕ) → IsRouteChar c → c ≢ dot
route_char-ne-dot c h = ground arith

-- What follows a prefix of a part that has been read: the rest of the part, and more parts.
record Follows (started : Bool) (s : GoString) : Type 0 where
  first : GoString
  others : List GoString
  whole : s ≡ join dot (first ∷ others)
  start : (started ≡ true) ⊎ (first ≢ [])
  chars : All IsRouteChar first
  each : All IsPart others

join-cons_char :
    (c : ℕ) (first : GoString) (others : List GoString)
    → join dot ((c ∷ first) ∷ others) ≡ c ∷ join dot (first ∷ others)
unfolding join
join-cons_char c first [] = refl
join-cons_char c first (part ∷ parts) = refl

matches_from_sound :
    (started : Bool) (s : GoString) → matches_from started s ≡ true → Follows started s
unfolding matches_from join
matches_from_sound started [] h = record {
  first = [];
  others = [];
  whole = unfold join in refl;
  start = inl h;
  chars = tt;
  each = tt;
}
matches_from_sound started (c ∷ s) h = elim (Bool-cases (c == dot)) [
  | inl at_dot ↦
      let after = matches_from_sound false s (ground arith) in
      record {
        first = [];
        others = after.first ∷ after.others;
        whole = let here : c ≡ dot = ground arith in rw (here, ← after.whole);
        start = inl (ground arith);
        chars = tt;
        each = ((ground arith, after.chars), after.each);
      }
  | inr other ↦
      let after = matches_from_sound true s (ground arith) in
      record {
        first = c ∷ after.first;
        others = after.others;
        whole = rw (join-cons_char c after.first after.others, ← after.whole);
        start = inr (ground arith);
        chars = ((is_route_char_iff c).0 (ground arith), after.chars);
        each = after.each;
      }
]

-- Reading a part to its end.
matches_from-part :
    (c : ℕ) (part rest : GoString) (started : Bool)
    → All IsRouteChar (c ∷ part)
    → matches_from started ((c ∷ part) ++ rest) ≡ matches_from true rest
unfolding matches_from
matches_from-part c [] rest started (h, _) =
    ground (arith, (is_route_char_iff c).1 h, route_char-ne-dot c h)
matches_from-part c (d ∷ part) rest started (h, hs) =
    ground (
      arith,
      (is_route_char_iff c).1 h,
      route_char-ne-dot c h,
      matches_from-part d part rest true hs,
    )

matches_from-join :
    (part : GoString) (parts : List GoString)
    → All IsPart (part ∷ parts)
    → matches_from false (join dot (part ∷ parts)) ≡ true
unfolding join matches_from
matches_from-join [] parts h = absurd (h.0.0 refl)
matches_from-join (c ∷ part) [] h =
    rw (← append-nil part) (matches_from-part c part [] false h.0.1 ∙ refl)
matches_from-join (c ∷ part) (next ∷ parts) h =
    matches_from-part c part (dot ∷ join dot (next ∷ parts)) false h.0.1
    ∙ matches_from-join next parts h.1

is_dot_route_sound : (c : ℕ) (s : GoString) → is_dot_route (c ∷ s) ≡ true → IsRoute (c ∷ s)
unfolding is_dot_route
is_dot_route_sound c s h =
    let all_read = matches_from_sound false (c ∷ s) h in
    record {
      parts = all_read.first ∷ all_read.others;
      some_part = ground arith;
      each = ((ground arith, all_read.chars), all_read.each);
      joined = all_read.whole;
    }

route-ne-nil : (parts : List GoString) → parts ≢ [] → All IsPart parts → join dot parts ≢ []
unfolding join
route-ne-nil [] some h = absurd (some refl)
route-ne-nil ([] ∷ []) some h = absurd (h.0.0 refl)
route-ne-nil ([] ∷ part ∷ parts) some h = absurd (h.0.0 refl)
route-ne-nil ((c ∷ p) ∷ []) some h = ground arith
route-ne-nil ((c ∷ p) ∷ part ∷ parts) some h = ground arith

pub IsRoute-ne-nil : {route : GoString} → IsRoute route → route ≢ []
IsRoute-ne-nil r = rw r.joined (route-ne-nil r.parts r.some_part r.each)

matches_from-route :
    (parts : List GoString)
    → parts ≢ []
    → All IsPart parts
    → matches_from false (join dot parts) ≡ true
matches_from-route [] some h = absurd (some refl)
matches_from-route (part ∷ parts) some h = matches_from-join part parts h

-- isDotRoute accepts the empty route and exactly those that consist of parts [A-Za-z_]+ joined by
-- single dots.
pub is_dot_route_iff :
    (route : GoString) → (is_dot_route route ≡ true) ↔ ((route ≡ []) ⊎ IsRoute route)
unfolding is_dot_route
is_dot_route_iff [] = (λ h. inl refl, λ h. refl)
is_dot_route_iff (c ∷ s) = (
  λ h. inr (is_dot_route_sound c s h),
  λ h. elim h [
    | inl e ↦ ground arith
    | inr r ↦ rw r.joined (matches_from-route r.parts r.some_part r.each)
  ],
)
