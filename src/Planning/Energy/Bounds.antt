-- ===== src/Planning/Energy/Bounds.antt =====
-- The roundings of planning/src/planner.cpp go the safe way.
use native.Mathlib.Nat.{div-add-mod', mod-lt, mod-eq_of_lt}
use sentinel_public.Prelude.{
  ℕ, suc, ◌+◌, ◌*◌, ◌/◌, ◌%◌, ◌^◌, ◌≤◌, ◌<◌, ◌≡◌, subst, zero, true, false, ◌==◌, leb, not,
  if◌then◌else◌, arith,
}
use sentinel_public.Prelude.Int.{ℤ, pos, negsuc, pos_part, ◌≤ℤ◌}
use sentinel_public.Core.Hash.{to_unsigned}
use sentinel_public.Protocol.Messages.{VehicleState}
use sentinel_public.Planning.Energy.{round_up, edge_ticks, reserve_energy, reserve_of}

-- `t` rounds of `d` cover `n`, and one round fewer does not.
pub record IsRoundedUp (n d t : ℕ) : Type 0 where
  pub covers : n ≤ t * d
  pub least : t * d < n + d

exact : (q d : ℕ) → 0 < d → IsRoundedUp (q * d + 0) d (q + 0)
exact q d h = record { covers = grind arith; least = grind arith }

excess : (q d r : ℕ) → suc r < d → IsRoundedUp (q * d + suc r) d (q + 1)
excess q d r h = record { covers = grind arith; least = grind arith }

rounded : (q d r : ℕ) → r < d → IsRoundedUp (q * d + r) d (q + (if not (r == 0) then 1 else 0))
rounded q d zero h = exact q d h
rounded q d (suc r) h = rw positive (excess q d r h)
  where
    positive : (suc r == 0) ≡ false
    positive = ground arith

round_up-IsRoundedUp : (n d : ℕ) → 0 < d → IsRoundedUp n d (round_up n d)
unfolding round_up
round_up-IsRoundedUp n d h =
    subst (λ m. IsRoundedUp m d (round_up n d)) (div-add-mod' n d)
      (rounded (n / d) d (n % d) (mod-lt n h))

-- The ticks of an edge are the least number of steps in which a vehicle of a positive speed covers the
-- distance, when the speed and both products of the quotient fit 64 bits and the step is positive.
pub edge_ticks_least :
    (distance speed step_ms : ℕ) (vehicle : VehicleState)
    → vehicle.max_speed_mm_s ≡ pos speed
    → 0 < speed * step_ms
    → speed < 2 ^ 64
    → speed * step_ms < 2 ^ 64
    → distance * 1000 < 2 ^ 64
    → IsRoundedUp (distance * 1000) (speed * step_ms) (edge_ticks (pos distance) vehicle step_ms)
unfolding edge_ticks to_unsigned
edge_ticks_least distance speed step_ms vehicle v p s q d =
    rw (v, mod-eq_of_lt small, mod-eq_of_lt d, mod-eq_of_lt s, mod-eq_of_lt q)
      (round_up-IsRoundedUp (distance * 1000) (speed * step_ms) p)
  where
    small : distance < 2 ^ 64
    small = omega arith

reserve_of-IsRoundedUp :
    (e : ℤ) → IsRoundedUp (pos_part e) 10 (pos_part (reserve_of e)) × (pos 0 ≤ℤ reserve_of e)
unfolding reserve_of
reserve_of-IsRoundedUp (pos zero) =
    (record { covers = omega arith; least = omega arith }, omega arith)
reserve_of-IsRoundedUp (pos (suc n)) =
    rw positive (round_up-IsRoundedUp (suc n) 10 (omega arith), omega arith)
  where
    positive : leb (suc n + 0) 0 ≡ false
    positive = ground arith
reserve_of-IsRoundedUp (negsuc n) =
    rw negative (record { covers = omega arith; least = omega arith }, omega arith)
  where
    negative : leb 0 (0 + suc n) ≡ true
    negative = ground arith

-- The reserve of a vehicle is not negative, and it is the least number of millijoules that is a tenth
-- of its initial energy or more, a negative energy counting as zero.
pub reserve_energy_least :
    (vehicle : VehicleState)
    → IsRoundedUp (pos_part vehicle.initial_energy_mj) 10 (pos_part (reserve_energy vehicle))
      × (pos 0 ≤ℤ reserve_energy vehicle)
unfolding reserve_energy
reserve_energy_least vehicle = reserve_of-IsRoundedUp vehicle.initial_energy_mj
