-- ===== src/Prelude/Order.antt =====
-- Orders as C++ uses them: a Boolean "less", combined as `std::tie` combines fields, and sorting.
use Prim.Native.Nat.{suc}
use mathlib.Core.Path.{◌≡◌, refl}
use mathlib.Core.Logic.{inl, inr}
use mathlib.Core.Bool.{Bool, true, false, not, ◌&&◌, ◌||◌}
use mathlib.Core.List.{List, [], ◌∷◌, Perm}
use mathlib.Core.List.Perm
use native.Mathlib.Omega.{arith}
use sentinel_public.Prelude.Tests.{ltb, if◌then◌else◌, Bool-cases}
use sentinel_public.Prelude.Lists.{length, any, All, All-mono, Pairs}
use sentinel_public.Prelude.Text.{text_lt, text_lt_asymm, text_lt_trans}

-- What `std::sort` asks of its comparison.
pub record StrictOrder {ℓ} {A : Type ℓ} (lt : A → A → Bool) : Type ℓ where
  pub asymm : (a b : A) → lt a b ≡ true → lt b a ≡ false
  pub trans : (a b c : A) → lt b a ≡ false → lt c b ≡ false → lt c a ≡ false

module _ {ℓ} {A : Type ℓ} where
  -- First by one comparison, then by the other: `std::tie(x, y) < std::tie(x', y')`.
  unfoldable pub tie : (A → A → Bool) → (A → A → Bool) → A → A → Bool
  tie lt lt' a b = lt a b || (not (lt b a) && lt' a b)

  abbrev pub by {κ} : {K : Type κ} → (A → K) → (K → K → Bool) → A → A → Bool
  by key lt a b = lt (key a) (key b)

  pub tie-StrictOrder :
      (lt lt' : A → A → Bool) → StrictOrder lt → StrictOrder lt' → StrictOrder (tie lt lt')
  unfolding tie
  tie-StrictOrder lt lt' o o' = record {
    asymm = λ a b h. ground (arith, o.asymm a b, o'.asymm a b);
    trans = λ a b c h k. ground (
      arith,
      o.trans a b c,
      o.trans b c a,
      o.trans c a b,
      o.asymm a b,
      o.asymm b c,
      o.asymm a c,
      o'.trans a b c,
    );
  }

  pub by-StrictOrder {κ} :
      {K : Type κ} (key : A → K) (lt : K → K → Bool) → StrictOrder lt → StrictOrder (by key lt)
  by-StrictOrder key lt o = record {
    asymm = λ a b. o.asymm (key a) (key b);
    trans = λ a b c. o.trans (key a) (key b) (key c);
  }

pub ltb-StrictOrder : StrictOrder ltb
ltb-StrictOrder = record { asymm = λ a b h. ground arith; trans = λ a b c h k. ground arith }

pub text_lt-StrictOrder : StrictOrder text_lt
text_lt-StrictOrder = record { asymm = text_lt_asymm; trans = text_lt_trans }

module _ {ℓ} {A : Type ℓ} (lt : A → A → Bool) where
  unfoldable pub insert_sorted : A → List A → List A
  insert_sorted x [] = x ∷ []
  insert_sorted x (y ∷ ys) = if lt y x then y ∷ insert_sorted x ys else x ∷ y ∷ ys

  -- `std::sort`, by insertion.
  unfoldable pub sort : List A → List A
  unfolding insert_sorted
  sort [] = []
  sort (x ∷ xs) = insert_sorted x (sort xs)

  -- No later element is smaller.
  abbrev pub IsSorted : List A → Type 0
  IsSorted = Pairs (λ x y. lt y x ≡ false)

  insert_sorted-perm : (x : A) (xs : List A) → Perm (insert_sorted x xs) (x ∷ xs)
  unfolding insert_sorted
  insert_sorted-perm x [] = Perm.rfl
  insert_sorted-perm x (y ∷ ys) = elim (Bool-cases (lt y x)) [
    | inl e ↦ rw e (Perm.trans (Perm.cons y (insert_sorted-perm x ys)) (Perm.swap x y ys))
    | inr e ↦ rw e Perm.rfl
  ]

  pub sort-perm : (xs : List A) → Perm (sort xs) xs
  unfolding sort
  sort-perm [] = Perm.rfl
  sort-perm (x ∷ xs) = Perm.trans (insert_sorted-perm x (sort xs)) (Perm.cons x (sort-perm xs))

  length-insert_sorted : (x : A) (xs : List A) → length (insert_sorted x xs) ≡ suc (length xs)
  unfolding insert_sorted
  length-insert_sorted x [] = refl
  length-insert_sorted x (y ∷ ys) = ground (arith, length-insert_sorted x ys)

  pub length-sort : (xs : List A) → length (sort xs) ≡ length xs
  unfolding sort
  length-sort [] = refl
  length-sort (x ∷ xs) = ground (arith, length-insert_sorted x (sort xs), length-sort xs)

  any-insert_sorted :
      (p : A → Bool) (x : A) (xs : List A) → any p (insert_sorted x xs) ≡ (p x || any p xs)
  unfolding insert_sorted
  any-insert_sorted p x [] = refl
  any-insert_sorted p x (y ∷ ys) = ground (arith, any-insert_sorted p x ys)

  pub any-sort : (p : A → Bool) (xs : List A) → any p (sort xs) ≡ any p xs
  unfolding sort
  any-sort p [] = refl
  any-sort p (x ∷ xs) = ground (arith, any-insert_sorted p x (sort xs), any-sort p xs)

  module _ {κ} (P : A → Type κ) where
    insert_sorted-All : (x : A) (xs : List A) → P x → All P xs → All P (insert_sorted x xs)
    unfolding insert_sorted
    insert_sorted-All x [] p h = (p, tt)
    insert_sorted-All x (y ∷ ys) p h = ground (arith, insert_sorted-All x ys p h.1)

    pub sort-All : (xs : List A) → All P xs → All P (sort xs)
    unfolding sort
    sort-All [] h = tt
    sort-All (x ∷ xs) h = insert_sorted-All x (sort xs) h.0 (sort-All xs h.1)

  -- A symmetric relation between any two elements does not depend on their order.
  module _ {κ} (R : A → A → Type κ) (symmetric : (a b : A) → R a b → R b a) where
    insert_sorted-Pairs :
        (x : A) (xs : List A) → All (R x) xs → Pairs R xs → Pairs R (insert_sorted x xs)
    unfolding insert_sorted
    insert_sorted-Pairs x [] h s = (tt, tt)
    insert_sorted-Pairs x (y ∷ ys) h s = ground (
      arith,
      insert_sorted-Pairs x ys h.1 s.1,
      insert_sorted-All (R y) x ys (symmetric x y h.0) s.0,
    )

    pub sort-Pairs : (xs : List A) → Pairs R xs → Pairs R (sort xs)
    unfolding sort
    sort-Pairs [] s = tt
    sort-Pairs (x ∷ xs) s =
        insert_sorted-Pairs x (sort xs) (sort-All (R x) xs s.0) (sort-Pairs xs s.1)

  module _ (o : StrictOrder lt) where
    insert_sorted-IsSorted : (x : A) (xs : List A) → IsSorted xs → IsSorted (insert_sorted x xs)
    unfolding insert_sorted
    insert_sorted-IsSorted x [] s = (tt, tt)
    insert_sorted-IsSorted x (y ∷ ys) s = ground (
      arith,
      insert_sorted-IsSorted x ys s.1,
      o.asymm y x,
      insert_sorted-All (λ z. lt z y ≡ false) x ys,
      λ (h : lt y x ≡ false).
          All-mono (λ z. lt z y ≡ false) (λ z. lt z x ≡ false) ys (λ z k. o.trans x y z h k) s.0,
    )

    -- The result of `std::sort` is in order.
    pub sort-IsSorted : (xs : List A) → IsSorted (sort xs)
    unfolding sort
    sort-IsSorted [] = tt
    sort-IsSorted (x ∷ xs) = insert_sorted-IsSorted x (sort xs) (sort-IsSorted xs)
