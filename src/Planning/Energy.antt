-- ===== src/Planning/Energy.antt =====
-- planning/src/planner.cpp: travel times, energy and its reserve. A product of two `std::int64_t`
-- is taken to fit 64 bits; the unsigned products of `edge_ticks` wrap around.
pub mod Bounds
use sentinel_public.Prelude.{
  ℕ, ◌+◌, ◌*◌, ◌/◌, ◌%◌, Bool, true, false, not, ◌||◌, ◌==◌, if◌then◌else◌, Except, ok, throw,
  throw_if, ◌>>◌, ◌>>=◌, invalid_argument,
}
use sentinel_public.Prelude.Int.{ℤ, pos, pos_part, ltb_ℤ, leb_ℤ}
use sentinel_public.Prelude.Word.{mul64, add64}
use sentinel_public.Core.Hash.{to_unsigned}
use sentinel_public.Protocol.Messages.{VehicleState}

-- A quotient rounded up, as the source writes it.
unfoldable pub round_up : ℕ → ℕ → ℕ
round_up numerator denominator =
    numerator / denominator + (if not (numerator % denominator == 0) then 1 else 0)

unfoldable pub edge_ticks : ℤ → VehicleState → ℕ → ℕ
unfolding to_unsigned round_up
edge_ticks distance_mm vehicle step_ms =
    let numerator = mul64 (to_unsigned distance_mm) 1000 in
    let denominator = mul64 (to_unsigned vehicle.max_speed_mm_s) step_ms in
    round_up numerator denominator

-- Both operands are nonnegative where the quotients are taken.
unfoldable pub motion_energy : VehicleState → ℤ → ℕ → Except ℤ
motion_energy vehicle distance_mm multiplier_permille = do
  throw_if (ltb_ℤ distance_mm (pos 0) || ltb_ℤ vehicle.energy_cost_mj_per_meter (pos 0))
      invalid_argument
  let base = pos_part distance_mm * pos_part vehicle.energy_cost_mj_per_meter / 1000
  ok (pos (base * multiplier_permille / 1000))

-- `reserve_energy` of a vehicle with this initial energy.
unfoldable pub reserve_of : ℤ → ℤ
unfolding round_up
reserve_of initial = if leb_ℤ initial (pos 0) then pos 0 else pos (round_up (pos_part initial) 10)

unfoldable pub reserve_energy : VehicleState → ℤ
unfolding reserve_of
reserve_energy vehicle = reserve_of vehicle.initial_energy_mj
