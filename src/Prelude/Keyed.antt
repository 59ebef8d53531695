-- ===== src/Prelude/Keyed.antt =====
-- Sequences in the order of a text key: `std::lower_bound` with its test for the key, writes through
-- the reference that it gives, and `std::map::emplace`.
use mathlib.Core.Path.{◌≡◌, refl, ap, ◌∙◌, subst}
use mathlib.Core.Logic.{◌⊎◌, inl, inr}
use mathlib.Core.Bool.{Bool, true, false, ◌||◌}
use Prim.Native.Nat.{ℕ, zero, suc}
use mathlib.Core.Option.{Option, none, some}
use mathlib.Core.List.{List, [], ◌∷◌, map}
use native.Mathlib.Omega.{arith}
use sentinel_public.Prelude.Tests.{if◌then◌else◌, Bool-cases}
use sentinel_public.Prelude.Lists.{All, Pairs, get_elem?, get-All, map-get, some_inj}
use sentinel_public.Prelude.Text.{
  Text, text_eq, text_lt, text_eq_sound, text_eq_refl, text_eq_comm, text_lt_irrefl, text_lt_total,
  text_lt_trans,
}

-- Whether `std::adjacent_find` finds two neighbours with one key.
unfoldable pub repeats {ℓ} : {A : Type ℓ} → (A → Text) → List A → Bool
repeats key [] = false
repeats key (x ∷ []) = false
repeats key (x ∷ y ∷ ys) = text_eq (key x) (key y) || repeats key (y ∷ ys)

neither : (a b : Bool) → a || b ≡ false → (a ≡ false) × (b ≡ false)
neither a b h = ground arith

text_lt_between : (s t u : Text) → text_lt s t ≡ true → text_lt u t ≡ false → text_lt s u ≡ true
text_lt_between s t u h k = elim (Bool-cases (text_lt s u)) [
  | inl less ↦ less
  | inr more ↦ let no : text_lt s t ≡ false = text_lt_trans t u s k more in cc
]

-- `std::lower_bound`, as an index.
unfoldable pub position_key {ℓ} : {A : Type ℓ} → (A → Text) → List A → Text → ℕ
position_key key [] id = 0
position_key key (x ∷ xs) id = if text_lt (key x) id then suc (position_key key xs id) else 0

module _ {ℓ} {A : Type ℓ} (key : A → Text) where
  unfoldable pub find_key : List A → Text → Option A
  find_key [] id = none
  find_key (x ∷ xs) id =
      if text_lt (key x) id then find_key xs id else if text_eq (key x) id then some x else none

  -- Assigns to the element that has the key of the new one.
  unfoldable pub put_key : List A → A → List A
  put_key [] a = []
  put_key (x ∷ xs) a =
      if text_lt (key x) (key a)
      then x ∷ put_key xs a
      else if text_eq (key x) (key a)
      then a ∷ xs
      else x ∷ xs

  unfoldable pub emplace_key : List A → A → List A
  emplace_key [] a = a ∷ []
  emplace_key (x ∷ xs) a =
      if text_lt (key x) (key a)
      then x ∷ emplace_key xs a
      else if text_eq (key x) (key a)
      then x ∷ xs
      else a ∷ x ∷ xs

  -- What is found has the key.
  pub find_key-key : (xs : List A) (id : Text) {a : A} → find_key xs id ≡ some a → key a ≡ id
  unfolding find_key
  find_key-key [] id e = cc
  find_key-key (x ∷ xs) id e = elim (Bool-cases (text_lt (key x) id)) [
    | inl less ↦ find_key-key xs id (rw less at e)
    | inr more ↦ elim (Bool-cases (text_eq (key x) id)) [
      | inl same ↦
          let h : some x ≡ some _ = rw (more, same) at e in cc (text_eq_sound (key x) id same)
      | inr other ↦ let h : none ≡ some _ = rw (more, other) at e in cc
    ]
  ]

  module _ {κ} (P : A → Type κ) where
    pub find_key-All : (xs : List A) (id : Text) {a : A} → All P xs → find_key xs id ≡ some a → P a
    unfolding find_key
    find_key-All [] id h e = cc
    find_key-All (x ∷ xs) id h e = elim (Bool-cases (text_lt (key x) id)) [
      | inl less ↦ find_key-All xs id h.1 (rw less at e)
      | inr more ↦ elim (Bool-cases (text_eq (key x) id)) [
        | inl same ↦ let k : some x ≡ some _ = rw (more, same) at e in subst P (some_inj k) h.0
        | inr other ↦ let k : none ≡ some _ = rw (more, other) at e in cc
      ]
    ]

    pub put_key-All : (xs : List A) (a : A) → All P xs → P a → All P (put_key xs a)
    unfolding put_key
    put_key-All [] a h p = tt
    put_key-All (x ∷ xs) a h p = elim (Bool-cases (text_lt (key x) (key a))) [
      | inl less ↦ rw less (h.0, put_key-All xs a h.1 p)
      | inr more ↦ elim (Bool-cases (text_eq (key x) (key a))) [
        | inl same ↦ rw (more, same) (p, h.1)
        | inr other ↦ rw (more, other) h
      ]
    ]

    pub emplace_key-All : (xs : List A) (a : A) → All P xs → P a → All P (emplace_key xs a)
    unfolding emplace_key
    emplace_key-All [] a h p = (p, tt)
    emplace_key-All (x ∷ xs) a h p = elim (Bool-cases (text_lt (key x) (key a))) [
      | inl less ↦ rw less (h.0, emplace_key-All xs a h.1 p)
      | inr more ↦ elim (Bool-cases (text_eq (key x) (key a))) [
        | inl same ↦ rw (more, same) h
        | inr other ↦ rw (more, other) (p, h)
      ]
    ]

  -- A write changes what is found at its own key alone.
  pub find_key-put :
      (xs : List A) (a : A) (id : Text) {b : A}
      → find_key (put_key xs a) id ≡ some b
      → (find_key xs id ≡ some b) ⊎ ((b ≡ a) × (key a ≡ id))
  unfolding find_key put_key
  find_key-put [] a id e = cc
  find_key-put (x ∷ xs) a id e = elim (Bool-cases (text_lt (key x) (key a))) [
    | inl less ↦ elim (Bool-cases (text_lt (key x) id)) [
      | inl past ↦ rw past (find_key-put xs a id (rw (less, past) at e))
      | inr stop ↦ inl (rw stop (rw (less, stop) at e))
    ]
    | inr more ↦ elim (Bool-cases (text_eq (key x) (key a))) [
      | inl same ↦
          let k : key x ≡ key a = text_eq_sound (key x) (key a) same in
          elim (Bool-cases (text_lt (key a) id)) [
            | inl past ↦ inl (rw (k, past) (rw (more, same, past) at e))
            | inr stop ↦ elim (Bool-cases (text_eq (key a) id)) [
              | inl found ↦
                  let h : some a ≡ some _ = rw (more, same, stop, found) at e in
                  inr (cc, text_eq_sound (key a) id found)
              | inr other ↦ let h : none ≡ some _ = rw (more, same, stop, other) at e in inl cc
            ]
          ]
      | inr other ↦ inl (rw (more, other) at e)
    ]
  ]

  -- A write keeps the sequence of the keys.
  pub map-put : (xs : List A) (a : A) → map key (put_key xs a) ≡ map key xs
  unfolding put_key
  map-put [] a = refl
  map-put (x ∷ xs) a = elim (Bool-cases (text_lt (key x) (key a))) [
    | inl less ↦ rw less (ap (λ ks. key x ∷ ks) (map-put xs a))
    | inr more ↦ elim (Bool-cases (text_eq (key x) (key a))) [
      | inl same ↦ rw (more, same, text_eq_sound (key x) (key a) same) refl
      | inr other ↦ rw (more, other) refl
    ]
  ]

  -- In strict order each element is found by its key.
  pub find_key-get :
      (xs : List A) (i : ℕ) {a : A}
      → Pairs (λ j k. text_lt j k ≡ true) (map key xs)
      → get_elem? xs i ≡ some a
      → find_key xs (key a) ≡ some a
  unfolding find_key
  find_key-get [] i o e = cc
  find_key-get (x ∷ xs) zero o e =
      let same = some_inj e in rw (← same, text_lt_irrefl (key x), text_eq_refl (key x)) refl
  find_key-get (x ∷ xs) (suc i) o e =
      let less : text_lt (key x) (key _) ≡ true =
        get-All (λ k. text_lt (key x) k ≡ true) (map key xs) i o.0 (map-get key xs i e) in
      rw less (find_key-get xs i o.1 e)

  less_than_all :
      (s t : Text) (xs : List A)
      → text_lt s t ≡ true
      → All (λ x. text_lt (key x) t ≡ false) xs
      → All (λ k. text_lt s k ≡ true) (map key xs)
  less_than_all s t [] l h = tt
  less_than_all s t (x ∷ xs) l h = (text_lt_between s t (key x) l h.0, less_than_all s t xs l h.1)

  -- Neighbours in order and with different keys: a strict order.
  pub repeats-Pairs :
      (xs : List A)
      → Pairs (λ x y. text_lt (key y) (key x) ≡ false) xs
      → repeats key xs ≡ false
      → Pairs (λ j k. text_lt j k ≡ true) (map key xs)
  unfolding repeats
  repeats-Pairs [] o e = tt
  repeats-Pairs (x ∷ []) o e = (tt, tt)
  repeats-Pairs (x ∷ y ∷ ys) o e =
      let (other, rest) = neither (text_eq (key x) (key y)) (repeats key (y ∷ ys)) e in
      let less = text_lt_total (key y) (key x) o.0.0 (text_eq_comm (key y) (key x) ∙ other) in
      ((less, less_than_all (key x) (key y) ys less o.1.0), repeats-Pairs (y ∷ ys) o.1 rest)
