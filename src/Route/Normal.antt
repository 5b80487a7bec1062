-- ===== src/Route/Normal.antt =====
-- `normalizeRoute` and `joinRoute`.
use ppgram.Prelude.{
  append-ne-nil, ℕ, ◌≡◌, ◌≢◌, inl, inr, refl, [], ◌∷◌, Bool, true, false, ◌==◌, GoString, All,
  arith, Bool-cases, List, not, all, is_empty, is_empty_iff,
}
use ppgram.Text.{is_space, trim_left, trim_right, trim_space, trim_func, split, join}
use ppgram.Text.Trim.{
  Kept, trim_func_of_Kept, Kept-of_fixed, Kept-append, trim_right-append, Kept-of_all,
  All-trim_func, trim_space_idem,
}
use ppgram.Text.Split.{Without, split-Without, split-join}
use ppgram.Route.{dot, clean_parts, join_parts, normalize_route, root_name}

abbrev at_dot : ℕ → Bool
at_dot c = c == dot

-- What the loop of `normalizeRoute` keeps: a part that is not empty, without dots, and trimmed.
pub record IsClean (part : GoString) : Type 0 where
  pub some : part ≢ []
  pub no_dot : Without dot part
  pub trimmed : trim_space part ≡ part

-- A route that normalising has made.
pub record IsNormal (route : GoString) : Type 0 where
  pub parts : List GoString
  pub some : parts ≢ []
  pub clean : All IsClean parts
  pub joined : route ≡ join dot parts

Without-all : (part : GoString) → Without dot part → all (λ c. not (at_dot c)) part ≡ true
unfolding all
Without-all [] h = refl
Without-all (c ∷ part) h = ground (arith, Without-all part h.1)

All-no_dot : (parts : List GoString) → All IsClean parts → All (Without dot) parts
All-no_dot [] h = tt
All-no_dot (part ∷ parts) h = (h.0.no_dot, All-no_dot parts h.1)

Clean-space : (part : GoString) → IsClean part → Kept is_space part
unfolding trim_space
Clean-space part h = Kept-of_fixed is_space part h.trimmed

Clean-dot : (part : GoString) → IsClean part → Kept at_dot part
Clean-dot part h = Kept-of_all at_dot part (Without-all part h.no_dot)

join-ne-nil : (parts : List GoString) → parts ≢ [] → All IsClean parts → join dot parts ≢ []
unfolding join
join-ne-nil [] some h = absurd (some refl)
join-ne-nil (part ∷ []) some h = h.0.some
join-ne-nil (part ∷ next ∷ parts) some h = append-ne-nil part _ (ground arith)

module _ (p : ℕ → Bool) (keeps : (part : GoString) → IsClean part → Kept p part) where
  -- The join of parts that are kept by a trimming is kept.
  Kept-join : (parts : List GoString) → parts ≢ [] → All IsClean parts → Kept p (join dot parts)
  unfolding join
  Kept-join [] some h = absurd (some refl)
  Kept-join (part ∷ []) some h = keeps part h.0
  Kept-join (part ∷ next ∷ parts) some h =
      let rest = Kept-join (next ∷ parts) (ground arith) h.1 in
      Kept-append p part (dot ∷ join dot (next ∷ parts)) h.0.some (ground arith) (keeps part h.0).0
        (trim_right-append p (dot ∷ []) (join dot (next ∷ parts))
          (join-ne-nil (next ∷ parts) (ground arith) h.1) rest.1)

clean_parts_fixed : (parts : List GoString) → All IsClean parts → clean_parts parts ≡ parts
unfolding clean_parts
clean_parts_fixed [] h = refl
clean_parts_fixed (part ∷ parts) h =
    rw h.0.trimmed (ground (arith, is_empty_iff part, h.0.some, clean_parts_fixed parts h.1))

join_parts_lem : (parts : List GoString) → parts ≢ [] → join_parts parts ≡ join dot parts
unfolding join_parts
join_parts_lem [] some = absurd (some refl)
join_parts_lem (part ∷ parts) some = refl

-- Normalising leaves alone what it has made.
pub normalize_route_of_IsNormal :
    {route : GoString} → IsNormal route → normalize_route route ≡ route
unfolding normalize_route
normalize_route_of_IsNormal {route} n =
    let whole = join-ne-nil n.parts n.some n.clean in
    let spaces : trim_space (join dot n.parts) ≡ join dot n.parts =
      unfold trim_space in
      trim_func_of_Kept is_space _ (Kept-join is_space Clean-space n.parts n.some n.clean) in
    let dots : trim_func at_dot (join dot n.parts) ≡ join dot n.parts =
      trim_func_of_Kept at_dot _ (Kept-join at_dot Clean-dot n.parts n.some n.clean) in
    let some_text : is_empty (join dot n.parts) ≡ false =
      ground (arith, is_empty_iff (join dot n.parts)) in
    rw
      (
        n.joined,
        spaces,
        dots,
        some_text,
        split-join dot n.parts n.some (All-no_dot n.parts n.clean),
        clean_parts_fixed n.parts n.clean,
      )
      (join_parts_lem n.parts n.some)

clean_parts-IsClean :
    (parts : List GoString) → All (Without dot) parts → All IsClean (clean_parts parts)
unfolding clean_parts
clean_parts-IsClean [] h = tt
clean_parts-IsClean (part ∷ parts) h = elim (Bool-cases (is_empty (trim_space part))) [
  | inl gone ↦ rw gone (clean_parts-IsClean parts h.1)
  | inr left ↦ rw left (
    record {
      some = ground (arith, is_empty_iff (trim_space part));
      no_dot = unfold trim_space in All-trim_func is_space (λ c. c ≢ dot) part h.0;
      trimmed = trim_space_idem part;
    },
    clean_parts-IsClean parts h.1,
  )
]

pub IsNormal-root : IsNormal root_name
unfolding join trim_space trim_func trim_left trim_right is_space is_empty
IsNormal-root = record {
  parts = root_name ∷ [];
  some = ground arith;
  clean = (record { some = ground arith; no_dot = omega arith; trimmed = refl }, tt);
  joined = refl;
}

join_parts-IsNormal : (parts : List GoString) → All IsClean parts → IsNormal (join_parts parts)
unfolding join_parts
join_parts-IsNormal [] h = IsNormal-root
join_parts-IsNormal (part ∷ parts) h = record {
  parts = part ∷ parts;
  some = ground arith;
  clean = h;
  joined = refl;
}

-- Whatever the text, its normal form is made of clean parts.
pub normalize_route-IsNormal : (route : GoString) → IsNormal (normalize_route route)
unfolding normalize_route
normalize_route-IsNormal route =
    let trimmed = trim_func at_dot (trim_space route) in
    elim (Bool-cases (is_empty trimmed)) [
      | inl nothing ↦ rw nothing IsNormal-root
      | inr some_text ↦ rw some_text (
          join_parts-IsNormal (clean_parts (split dot trimmed))
            (clean_parts-IsClean (split dot trimmed) (split-Without dot trimmed)))
    ]

-- Normalising any text as a route a second time changes nothing.
pub normalize_route_idem :
    (route : GoString) → normalize_route (normalize_route route) ≡ normalize_route route
normalize_route_idem route = normalize_route_of_IsNormal (normalize_route-IsNormal route)
