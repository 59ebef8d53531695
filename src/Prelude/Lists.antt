-- ===== src/Prelude/Lists.antt =====
-- Lists measured and indexed by native numbers, Boolean scans, and predicates by recursion.
use Prim.Native.Nat.{ℕ, zero, suc, ◌+◌, ◌≤◌}
use mathlib.Core.Path.{◌≡◌, refl, sym, ap, ◌∙◌, subst}
use mathlib.Core.Bool.{Bool, true, false, ◌&&◌, ◌||◌}
use mathlib.Core.List.{List, [], ◌∷◌, ◌++◌, map}
use mathlib.Core.Option.{Option, none, some}
use native.Mathlib.Omega.{arith}
use sentinel_public.Prelude.Tests.{if◌then◌else◌}

pub some_inj {ℓ} : {A : Type ℓ} {a b : A} → some a ≡ some b → a ≡ b
some_inj e = cc

module _ {ℓ} {A : Type ℓ} where
  abbrev pub length : List A → ℕ
  length [] = 0
  length (x ∷ xs) = suc (length xs)

  abbrev pub get_elem? : List A → ℕ → Option A
  get_elem? [] i = none
  get_elem? (x ∷ xs) zero = some x
  get_elem? (x ∷ xs) (suc i) = get_elem? xs i

  abbrev pub set : List A → ℕ → A → List A
  set [] i v = []
  set (x ∷ xs) zero v = v ∷ xs
  set (x ∷ xs) (suc i) v = x ∷ set xs i v

  abbrev pub take : ℕ → List A → List A
  take zero xs = []
  take (suc n) [] = []
  take (suc n) (x ∷ xs) = x ∷ take n xs

  abbrev pub drop : ℕ → List A → List A
  drop zero xs = xs
  drop (suc n) [] = []
  drop (suc n) (x ∷ xs) = drop n xs

  -- `vector::erase(begin() + i)`.
  abbrev pub erase_at : List A → ℕ → List A
  erase_at [] i = []
  erase_at (x ∷ xs) zero = xs
  erase_at (x ∷ xs) (suc i) = x ∷ erase_at xs i

  -- `vector::insert(begin() + i, v)`.
  abbrev pub insert_at : List A → ℕ → A → List A
  insert_at xs zero v = v ∷ xs
  insert_at [] (suc i) v = v ∷ []
  insert_at (x ∷ xs) (suc i) v = x ∷ insert_at xs i v

  -- `std::any_of`, `std::all_of`; `keep` is what `erase_if` of the negated test leaves.
  abbrev pub any : (A → Bool) → List A → Bool
  any p [] = false
  any p (x ∷ xs) = p x || any p xs

  abbrev pub all : (A → Bool) → List A → Bool
  all p [] = true
  all p (x ∷ xs) = p x && all p xs

  abbrev pub keep : (A → Bool) → List A → List A
  keep p [] = []
  keep p (x ∷ xs) = if p x then x ∷ keep p xs else keep p xs

  abbrev pub count_if : (A → Bool) → List A → ℕ
  count_if p [] = 0
  count_if p (x ∷ xs) = if p x then suc (count_if p xs) else count_if p xs

module _ {ℓ κ} {A : Type ℓ} where
  abbrev pub All : (A → Type κ) → List A → Type κ
  All P [] = Unit
  All P (x ∷ xs) = P x × All P xs

  abbrev pub Pairs : (A → A → Type κ) → List A → Type κ
  Pairs R [] = Unit
  Pairs R (x ∷ xs) = All (R x) xs × Pairs R xs

module _ {ℓ} {A : Type ℓ} where
  pub length-append : (xs ys : List A) → length (xs ++ ys) ≡ length xs + length ys
  length-append [] ys = omega arith
  length-append (x ∷ xs) ys = omega (arith, length-append xs ys)

  pub length-keep-le : (p : A → Bool) (xs : List A) → length (keep p xs) ≤ length xs
  length-keep-le p [] = omega arith
  length-keep-le p (x ∷ xs) = ground (arith, length-keep-le p xs)

  pub take-append : (xs ys : List A) → take (length xs) (xs ++ ys) ≡ xs
  take-append [] ys = refl
  take-append (x ∷ xs) ys = ap (◌∷◌ x) (take-append xs ys)

  pub drop-append : (xs ys : List A) → drop (length xs) (xs ++ ys) ≡ ys
  drop-append [] ys = refl
  drop-append (x ∷ xs) ys = drop-append xs ys

  pub length-keep-count : (p : A → Bool) (xs : List A) → length (keep p xs) ≡ count_if p xs
  length-keep-count p [] = refl
  length-keep-count p (x ∷ xs) = ground (arith, length-keep-count p xs)

module _ {ℓ κ} {A : Type ℓ} where
  pub All-append : (P : A → Type κ) (xs ys : List A) → All P xs → All P ys → All P (xs ++ ys)
  All-append P [] ys hx hy = hy
  All-append P (x ∷ xs) ys hx hy = (hx.0, All-append P xs ys hx.1 hy)

  pub All-keep : (P : A → Type κ) (p : A → Bool) (xs : List A) → All P xs → All P (keep p xs)
  All-keep P p [] h = tt
  All-keep P p (x ∷ xs) h = ground (arith, All-keep P p xs h.1)

  pub Pairs-keep :
      (R : A → A → Type κ) (p : A → Bool) (xs : List A) → Pairs R xs → Pairs R (keep p xs)
  Pairs-keep R p [] h = tt
  Pairs-keep R p (x ∷ xs) h = ground (arith, All-keep (R x) p xs h.0, Pairs-keep R p xs h.1)

  -- What is kept passes the test.
  pub keep-All :
      (P : A → Type κ) (p : A → Bool) (xs : List A)
      → ((x : A) → p x ≡ true → P x)
      → All P (keep p xs)
  keep-All P p [] h = tt
  keep-All P p (x ∷ xs) h = ground (arith, h x, keep-All P p xs h)

module _ {ℓ κ ι} {A : Type ℓ} where
  pub All-mono :
      (P : A → Type κ) (Q : A → Type ι) (xs : List A) → ((x : A) → P x → Q x) → All P xs → All Q xs
  All-mono P Q [] f h = tt
  All-mono P Q (x ∷ xs) f h = (f x h.0, All-mono P Q xs f h.1)

module _ {ℓ} {A : Type ℓ} where
  pub any-false : (p : A → Bool) (xs : List A) → any p xs ≡ false → All (λ x. p x ≡ false) xs
  any-false p [] h = tt
  any-false p (x ∷ xs) h = ground (arith, any-false p xs)

  pub any-append : (p : A → Bool) (xs ys : List A) → any p (xs ++ ys) ≡ (any p xs || any p ys)
  any-append p [] ys = refl
  any-append p (x ∷ xs) ys = ground (arith, any-append p xs ys)

module _ {ℓ κ} {A : Type ℓ} (R : A → A → Type κ) where
  pub Pairs-snoc : (xs : List A) (y : A) → Pairs R xs → All (λ x. R x y) xs → Pairs R (xs ++ y ∷ [])
  Pairs-snoc [] y h k = (tt, tt)
  Pairs-snoc (x ∷ xs) y h k = (All-append (R x) xs (y ∷ []) h.0 (k.0, tt), Pairs-snoc xs y h.1 k.1)

module _ {ℓ κ} {A : Type ℓ} (P : A → Type κ) where
  pub get-All : (xs : List A) (i : ℕ) {a : A} → All P xs → get_elem? xs i ≡ some a → P a
  get-All [] i h e = cc
  get-All (x ∷ xs) zero h e = subst P (some_inj e) h.0
  get-All (x ∷ xs) (suc i) h e = get-All xs i h.1 e

  pub set-All : (xs : List A) (i : ℕ) (a : A) → All P xs → P a → All P (set xs i a)
  set-All [] i a h p = tt
  set-All (x ∷ xs) zero a h p = (p, h.1)
  set-All (x ∷ xs) (suc i) a h p = (h.0, set-All xs i a h.1 p)

module _ {ℓ κ} {A : Type ℓ} {B : Type κ} (f : A → B) where
  -- A write that keeps the image of its element keeps the images.
  pub map-set :
      (xs : List A) (i : ℕ) {a : A} (b : A)
      → get_elem? xs i ≡ some a
      → f b ≡ f a
      → map f (set xs i b) ≡ map f xs
  map-set [] i b e k = refl
  map-set (x ∷ xs) zero b e k = ap (λ y. y ∷ map f xs) (k ∙ ap f (sym (some_inj e)))
  map-set (x ∷ xs) (suc i) b e k = ap (λ ys. f x ∷ ys) (map-set xs i b e k)

module _ {ℓ κ} {A : Type ℓ} {B : Type κ} (f : A → B) where
  -- An element of an image is the image of an element.
  pub get_elem-map :
      (xs : List A) (i : ℕ) {b : B}
      → get_elem? (map f xs) i ≡ some b
      → (a : A) × (get_elem? xs i ≡ some a) × (f a ≡ b)
  get_elem-map [] i e = cc
  get_elem-map (x ∷ xs) zero e = (x, refl, some_inj e)
  get_elem-map (x ∷ xs) (suc i) e = get_elem-map xs i e

  pub map-get :
      (xs : List A) (i : ℕ) {a : A} → get_elem? xs i ≡ some a → get_elem? (map f xs) i ≡ some (f a)
  map-get [] i e = cc
  map-get (x ∷ xs) zero e = ap (λ y. some (f y)) (some_inj e)
  map-get (x ∷ xs) (suc i) e = map-get xs i e

module _ {ℓ} {A : Type ℓ} where
  abbrev pub IsAt : List A → A → Type ℓ
  IsAt xs a = (i : ℕ) × (get_elem? xs i ≡ some a)

  IsAt-later : (x : A) (xs : List A) (a : A) → IsAt xs a → IsAt (x ∷ xs) a
  IsAt-later x xs a (i, e) = (suc i, e)

  IsAt-kept :
      (b : Bool) (x : A) (xs ys : List A) (i : ℕ) (a : A)
      → ((j : ℕ) → get_elem? ys j ≡ some a → IsAt xs a)
      → get_elem? (if b then x ∷ ys else ys) i ≡ some a
      → IsAt (x ∷ xs) a
  IsAt-kept true x xs ys zero a h e = (zero, e)
  IsAt-kept true x xs ys (suc i) a h e = IsAt-later x xs a (h i e)
  IsAt-kept false x xs ys i a h e = IsAt-later x xs a (h i e)

  -- What is kept was there.
  pub get_elem-keep :
      (p : A → Bool) (xs : List A) (i : ℕ) (a : A) → get_elem? (keep p xs) i ≡ some a → IsAt xs a
  get_elem-keep p [] i a e = cc
  get_elem-keep p (x ∷ xs) i a e =
      IsAt-kept (p x) x xs (keep p xs) i a (λ j. get_elem-keep p xs j a) e

module _ {ℓ κ ι} {A : Type ℓ} {B : Type κ} (f : A → B) where
  pub All-map : (P : B → Type ι) (xs : List A) → All (λ x. P (f x)) xs → All P (map f xs)
  All-map P [] h = tt
  All-map P (x ∷ xs) h = (h.0, All-map P xs h.1)

  pub map-All : (P : B → Type ι) (xs : List A) → All P (map f xs) → All (λ x. P (f x)) xs
  map-All P [] h = tt
  map-All P (x ∷ xs) h = (h.0, map-All P xs h.1)

  pub Pairs-map :
      (R : B → B → Type ι) (xs : List A) → Pairs (λ x y. R (f x) (f y)) xs → Pairs R (map f xs)
  Pairs-map R [] h = tt
  Pairs-map R (x ∷ xs) h = (All-map (R (f x)) xs h.0, Pairs-map R xs h.1)
