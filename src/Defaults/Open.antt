-- ===== src/Defaults/Open.antt =====
-- Which pools and clients are open.
use ppgram.Prelude.{
  ℕ, ◌<◌, Bool, true, false, ◌||◌, ◌==◌, List, ◌∷◌, Option, none, some, ◌≡◌, ap, ◌∙◌, arith,
  Bool-cases, inl, inr,
}
use ppgram.Table.{exists}
use ppgram.Defaults.{Handles, make_handle, close_handle, close_previous}

abbrev pub is_default : Option ℕ → ℕ → Bool
is_default none other = false
is_default (some id) other = id == other

abbrev pub is_leaked : List ℕ → ℕ → Bool
is_leaked leaked other = exists (λ id. id == other) leaked

-- The default one is open, and beside it just the ones that were left open.
pub record OpenAre (leaked : List ℕ) (h : Handles) : Type 0 where
  pub open_iff : (id : ℕ) → h.is_open id ≡ (is_default h.default id || is_leaked leaked id)
  pub old : (id : ℕ) → h.is_open id ≡ true → id < h.next
  pub kept : (id : ℕ) → h.default ≡ some id → is_leaked leaked id ≡ false

nat_eq : (m n : ℕ) → (m == n) ≡ true → m ≡ n
nat_eq m n h = ground arith

-- None of the numbers that are left open is a new one.
new_not_leaked :
    (leaked : List ℕ) (h : Handles) → OpenAre leaked h → is_leaked leaked h.next ≡ false
new_not_leaked leaked h o = elim (Bool-cases (is_leaked leaked h.next)) [
  | inl left ↦ absurd (omega (arith, o.old h.next (o.open_iff h.next ∙ ground (arith, left))))
  | inr free ↦ free
]

default_old :
    (leaked : List ℕ) (h : Handles) (id : ℕ) → OpenAre leaked h → h.default ≡ some id → id < h.next
default_old leaked h id o e =
    let same : (id == id) ≡ true = ground arith in
    o.old id (
      o.open_iff id
      ∙ ap (λ (d : Option ℕ). is_default d id || is_leaked leaked id) e
      ∙ ap (λ (t : Bool). t || is_leaked leaked id) same)

-- One that was made and stays open without being the default.
pub make_handle-leaked :
    (leaked : List ℕ) (h : Handles) → OpenAre leaked h → OpenAre (h.next ∷ leaked) (make_handle h)
unfolding make_handle exists
make_handle-leaked leaked h o = record {
  open_iff = λ id. ground (arith, o.open_iff id);
  old = λ id. ground (arith, o.old id);
  kept = λ id e. ground (arith, o.kept id e, default_old leaked h id o e);
}

-- One that was made and closed again.
pub make_handle-closed :
    (leaked : List ℕ) (h : Handles)
    → OpenAre leaked h
    → OpenAre leaked (close_handle h.next (make_handle h))
unfolding make_handle close_handle
make_handle-closed leaked h o = record {
  open_iff = λ id. ground (arith, o.open_iff id, o.old id);
  old = λ id. ground (arith, o.old id);
  kept = λ id e. o.kept id e;
}

-- One that becomes the default.
pub close_previous-OpenAre :
    (leaked : List ℕ) (h : Handles) (previous : Option ℕ)
    → OpenAre leaked h
    → h.default ≡ previous
    → OpenAre leaked (close_previous previous (record (make_handle h) { default = some h.next }))
unfolding make_handle close_previous close_handle
close_previous-OpenAre leaked h none o e = record {
  open_iff = λ id.
      ground
        (arith, o.open_iff id ∙ ap (λ (d : Option ℕ). is_default d id || is_leaked leaked id) e);
  old = λ id. ground (arith, o.old id);
  kept = λ id q. ground (arith, q, new_not_leaked leaked h o);
}
close_previous-OpenAre leaked h (some previous) o e = record {
  open_iff = λ id. ground (
    arith,
    o.open_iff id ∙ ap (λ (d : Option ℕ). is_default d id || is_leaked leaked id) e,
    o.kept previous e,
    default_old leaked h previous o e,
  );
  old = λ id. ground (arith, o.old id);
  kept = λ id q. ground (arith, q, new_not_leaked leaked h o);
}
