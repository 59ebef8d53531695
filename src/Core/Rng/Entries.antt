-- ===== src/Core/Rng/Entries.antt =====
-- The sorted entries of `RngStreams` (core/src/rng.cpp): insertion, look-up and writes, as one
-- pass over the list each.
use sentinel_public.Prelude.{
  ℕ, zero, suc, ◌≡◌, refl, true, List, [], ◌∷◌, Option, none, some, All, All-mono, Pairs,
  if◌then◌else◌, get_elem?, insert_at, Bool-cases, inl, inr, arith,
}
use sentinel_public.Prelude.Text.{
  Text, text_eq, text_lt, text_eq_sound, text_eq_comm, text_lt_strict, text_lt_ne, text_lt_total,
}
use sentinel_public.Core.Rng.{Entry, lower_bound, is_named, rng_at, set_rng}

-- The entries stand in the order of their names, and no name stands twice.
abbrev pub IsOrdered : List Entry → Type 0
IsOrdered = Pairs (λ a b. text_lt a.name b.name ≡ true)

unfoldable pub find_rng : List Entry → Text → Option ℕ
find_rng [] name = none
find_rng (e ∷ es) name = if text_eq e.name name then some e.rng else find_rng es name

abbrev pub or_seed : Option ℕ → ℕ → ℕ
or_seed none seed = seed
or_seed (some state) seed = state

-- What `stream` does to the entries, as one pass.
unfoldable pub ensure : List Entry → Entry → List Entry
ensure [] new = new ∷ []
ensure (e ∷ es) new =
    if text_lt e.name new.name
    then e ∷ ensure es new
    else if text_eq e.name new.name
    then e ∷ es
    else new ∷ e ∷ es

abbrev pub placed : List Entry → Entry → List Entry
placed es new =
    if is_named (get_elem? es (lower_bound es new.name)) new.name
    then es
    else insert_at es (lower_bound es new.name) new

pub placed-eq-ensure : (es : List Entry) (new : Entry) → placed es new ≡ ensure es new
unfolding ensure lower_bound
placed-eq-ensure [] new = refl
placed-eq-ensure (e ∷ es) new = ground (arith, placed-eq-ensure es new)

above_head :
    (name : Text) (e : Entry) (es : List Entry)
    → text_lt name e.name ≡ true
    → IsOrdered (e ∷ es)
    → find_rng (e ∷ es) name ≡ none
unfolding find_rng
above_head name e [] h o = ground (arith, text_lt_ne name e.name, text_eq_comm name e.name)
above_head name e (f ∷ es) h o = ground (
  arith,
  text_lt_ne name e.name,
  text_eq_comm name e.name,
  above_head name f es (text_lt_strict name e.name f.name h o.0.0) o.1,
)

ensure-All :
    (P : Entry → Type 0) (es : List Entry) (new : Entry) → P new → All P es → All P (ensure es new)
unfolding ensure
ensure-All P [] new p h = (p, tt)
ensure-All P (e ∷ es) new p h = ground (arith, ensure-All P es new p h.1)

pub ensure-IsOrdered : (es : List Entry) (new : Entry) → IsOrdered es → IsOrdered (ensure es new)
unfolding ensure
ensure-IsOrdered [] new o = (tt, tt)
ensure-IsOrdered (e ∷ es) new o = elim (Bool-cases (text_lt e.name new.name)) [
  | inl lt ↦
      rw lt
        (ensure-All (λ b. text_lt e.name b.name ≡ true) es new lt o.0, ensure-IsOrdered es new o.1)
  | inr ge ↦ rw ge (elim (Bool-cases (text_eq e.name new.name)) [
    | inl eq ↦ rw eq o
    | inr ne ↦
        let below = text_lt_total e.name new.name ge ne in
        rw ne (
          (
            below,
            All-mono (λ b. text_lt e.name b.name ≡ true) (λ b. text_lt new.name b.name ≡ true) es
                (λ b k. text_lt_strict new.name e.name b.name below k) o.0,
          ),
          o,
        )
  ])
]

pub find_rng-ensure :
    (es : List Entry) (new : Entry) (name : Text)
    → IsOrdered es
    → find_rng (ensure es new) name ≡ (
        if text_eq new.name name
        then some (or_seed (find_rng es new.name) new.rng)
        else find_rng es name)
unfolding ensure find_rng
find_rng-ensure [] new name o = refl
find_rng-ensure (e ∷ es) new name o = elim (Bool-cases (text_lt e.name new.name)) [
  | inl lt ↦ rw lt (
      ground (
        arith,
        find_rng-ensure es new name o.1,
        text_lt_ne e.name new.name lt,
        text_eq_sound new.name name,
      ))
  | inr ge ↦ rw ge (elim (Bool-cases (text_eq e.name new.name)) [
    | inl eq ↦ rw eq (ground (arith, text_eq_sound e.name new.name eq))
    | inr ne ↦
        let below = text_lt_total e.name new.name ge ne in
        rw ne (ground (arith, above_head new.name e es below o))
  ])
]

-- A write to the entry that `ensure` has made sure of.
pub find_rng-set :
    (es : List Entry) (new : Entry) (state : ℕ) (name : Text)
    → IsOrdered es
    → find_rng (set_rng (ensure es new) (lower_bound es new.name) state) name
      ≡ (if text_eq new.name name then some state else find_rng es name)
unfolding ensure find_rng lower_bound set_rng
find_rng-set [] new state name o = refl
find_rng-set (e ∷ es) new state name o = elim (Bool-cases (text_lt e.name new.name)) [
  | inl lt ↦ rw lt (
      ground (
        arith,
        find_rng-set es new state name o.1,
        text_lt_ne e.name new.name lt,
        text_eq_sound new.name name,
      ))
  | inr ge ↦ rw ge (elim (Bool-cases (text_eq e.name new.name)) [
    | inl eq ↦ rw eq (ground (arith, text_eq_sound e.name new.name eq))
    | inr ne ↦ rw ne refl
  ])
]

pub rng_at-ensure :
    (es : List Entry) (new : Entry)
    → IsOrdered es
    → rng_at (ensure es new) (lower_bound es new.name) 0 ≡ or_seed (find_rng es new.name) new.rng
unfolding ensure find_rng lower_bound rng_at
rng_at-ensure [] new o = refl
rng_at-ensure (e ∷ es) new o = elim (Bool-cases (text_lt e.name new.name)) [
  | inl lt ↦ rw lt (ground (arith, rng_at-ensure es new o.1, text_lt_ne e.name new.name lt))
  | inr ge ↦ rw ge (elim (Bool-cases (text_eq e.name new.name)) [
    | inl eq ↦ rw eq refl
    | inr ne ↦ rw ne (
        unfold find_rng in
        ground (arith, above_head new.name e es (text_lt_total e.name new.name ge ne) o))
  ])
]

set_rng-All :
    (P : Text → Type 0) (es : List Entry) (i state : ℕ)
    → All (λ e. P e.name) es
    → All (λ e. P e.name) (set_rng es i state)
unfolding set_rng
set_rng-All P [] i state h = tt
set_rng-All P (e ∷ es) zero state h = h
set_rng-All P (e ∷ es) (suc i) state h = (h.0, set_rng-All P es i state h.1)

pub set_rng-IsOrdered :
    (es : List Entry) (i state : ℕ) → IsOrdered es → IsOrdered (set_rng es i state)
unfolding set_rng
set_rng-IsOrdered [] i state o = tt
set_rng-IsOrdered (e ∷ es) zero state o = o
set_rng-IsOrdered (e ∷ es) (suc i) state o =
    (set_rng-All (λ n. text_lt e.name n ≡ true) es i state o.0, set_rng-IsOrdered es i state o.1)
