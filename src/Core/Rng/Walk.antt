-- ===== src/Core/Rng/Walk.antt =====
-- The states that core/src/rng.cpp `next` goes through: an additive walk that meets all of them.
use sentinel_public.Prelude.{ℕ, zero, suc, ◌+◌, ◌-◌, ◌*◌, ◌%◌, ◌^◌, ◌<◌, ◌≡◌, refl, ◌∙◌, arith}
use sentinel_public.Core.Rng.{golden, next, mix}

-- The state after `n` draws.
abbrev pub after_draws : ℕ → ℕ → ℕ
after_draws zero state = state
after_draws (suc n) state = after_draws n (next state).state

pub next-state-lt : (s : ℕ) → (next s).state < 2 ^ 64
unfolding next
next-state-lt s = omega arith

-- The state after `n` draws is `n` times the increment further on.
pub after_draws_lem : (n s : ℕ) → s < 2 ^ 64 → after_draws n s ≡ (s + n * golden) % 2 ^ 64
after_draws_lem zero s h = omega arith
after_draws_lem (suc n) s h =
    after_draws_lem n (next s).state (next-state-lt s) ∙ (unfold next in omega arith)

abbrev pub draws_between : ℕ → ℕ → ℕ
draws_between s t = (t + 2 ^ 64 - s) * 17428512612931826493 % 2 ^ 64

-- From every 64-bit state every other one is met, within 2 ^ 64 draws.
pub after_draws_reaches :
    (s t : ℕ)
    → s < 2 ^ 64
    → t < 2 ^ 64
    → (draws_between s t < 2 ^ 64) × (after_draws (draws_between s t) s ≡ t)
after_draws_reaches s t hs ht =
    (omega arith, after_draws_lem (draws_between s t) s hs ∙ omega arith)

-- `mix` is the value that a draw from the same state returns.
pub mix-eq-next : (s : ℕ) → mix s ≡ (next s).value
unfolding mix next
mix-eq-next s = refl
