-- ===== src/Prelude/Exceptions.antt =====
-- Exceptions as values. The messages of the C++ exceptions are dropped, their classes are kept.
use mathlib.Core.Path.{◌≡◌, refl, subst}
use mathlib.Core.Bool.{Bool, true, false}
use mathlib.Core.List.{List, [], ◌∷◌}
use sentinel_public.Prelude.Tests.{if◌then◌else◌}

pub data Exception : Type 0 where
  invalid_argument overflow_error logic_error runtime_error : Exception
  -- No C++ exception: the bound on the rounds of a loop was met.
  out_of_fuel : Exception

pub data Except {ℓ} (A : Type ℓ) : Type ℓ where
  ok : A → Except A
  throw : Exception → Except A

module _ {ℓ κ} {X : Type ℓ} {Y : Type κ} where
  abbrev pub bind : Except X → (X → Except Y) → Except Y
  bind (throw e) next = throw e
  bind (ok x) next = next x

  -- Inversion of a successful chain.
  pub >>=-eq-ok :
      (run : Except X) (next : X → Except Y) {y : Y}
      → bind run next ≡ ok y
      → (x : X) × (run ≡ ok x) × (next x ≡ ok y)
  >>=-eq-ok (throw e) next same = cc
  >>=-eq-ok (ok x) next same = (x, refl, same)

-- For do blocks.
infixl 5 ◌>>=◌ ◌>>◌
abbrev pub ◌>>=◌ {ℓ κ} : {X : Type ℓ} {Y : Type κ} → Except X → (X → Except Y) → Except Y
run >>= next = bind run next

abbrev pub ◌>>◌ {κ} : {Y : Type κ} → Except (Unit {0}) → Except Y → Except Y
run >> rest = bind run (λ _. rest)

-- `if (bad) throw e;`
abbrev pub throw_if : Bool → Exception → Except (Unit {0})
throw_if true e = throw e
throw_if false e = ok tt

-- A postcondition of what returns: an exception ends the run and is not constrained.
abbrev pub Ensures {ℓ κ} : {A : Type ℓ} → (A → Type κ) → Except A → Type κ
Ensures P (ok a) = P a
Ensures P (throw e) = Unit

module _ {ℓ κ} {A : Type ℓ} (P : A → Type κ) where
  pub Ensures-elim : (m : Except A) {a : A} → Ensures P m → m ≡ ok a → P a
  Ensures-elim m {a} h e = subst (Ensures P) e h

  pub Ensures-intro : (m : Except A) → ((a : A) → m ≡ ok a → P a) → Ensures P m
  Ensures-intro (ok a) h = h a refl
  Ensures-intro (throw e) h = tt

  pub Ensures-all : (m : Except A) → ((a : A) → P a) → Ensures P m
  Ensures-all (ok a) h = h a
  Ensures-all (throw e) h = tt

  pub Ensures-if :
      (b : Bool) (x y : Except A)
      → (b ≡ true → Ensures P x)
      → (b ≡ false → Ensures P y)
      → Ensures P (if b then x else y)
  Ensures-if true x y h k = h refl
  Ensures-if false x y h k = k refl

module _ {ℓ κ ι} {A : Type ℓ} {B : Type κ} (P : B → Type ι) where
  pub Ensures-bind :
      (m : Except A) (f : A → Except B)
      → ((a : A) → m ≡ ok a → Ensures P (f a))
      → Ensures P (m >>= f)
  Ensures-bind (ok a) f h = h a refl
  Ensures-bind (throw e) f h = tt

-- A loop over a sequence that changes a state and may throw.
module _ {ℓ κ} {S : Type ℓ} {A : Type κ} where
  abbrev pub for_each : (S → A → Except S) → S → List A → Except S
  for_each round s [] = ok s
  for_each round s (x ∷ xs) = round s x >>= λ s'. for_each round s' xs

  pub for_each-Ensures {ι} :
      (P : S → Type ι) (round : S → A → Except S)
      → ((s : S) (x : A) → P s → Ensures P (round s x))
      → (xs : List A) (s : S) → P s
      → Ensures P (for_each round s xs)
  for_each-Ensures P round keeps [] s h = h
  for_each-Ensures P round keeps (x ∷ xs) s h =
      Ensures-bind P (round s x) (λ s'. for_each round s' xs)
        (λ s' e. for_each-Ensures P round keeps xs s' (Ensures-elim P (round s x) (keeps s x h) e))
