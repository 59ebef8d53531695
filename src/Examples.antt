-- ===== src/Examples.antt =====
-- Concrete runs of the modelled code, to which the theorems apply.
mod Generator
mod Digests
mod Table
mod Planner
mod Emulator
mod Frames
mod Yard
mod Simulation
use sentinel_public.Prelude.{◌≡◌, refl, Bool, true, false, Except, ok, throw}

abbrev pub is_ok {ℓ} : {A : Type ℓ} → Except A → Bool
is_ok (ok a) = true
is_ok (throw e) = false

-- The value that a run returns, or `a`.
abbrev pub value_or {ℓ} : {A : Type ℓ} → A → Except A → A
value_or a (ok b) = b
value_or a (throw e) = a

pub returned {ℓ} : {A : Type ℓ} (a : A) (m : Except A) → is_ok m ≡ true → m ≡ ok (value_or a m)
returned a (ok b) h = refl
returned a (throw e) h = cc
