-- ===== src/Planning/Claims.antt =====
-- planning/src/planner.cpp: `feasible_route`, `make_claim` and `nearest_capable`. Search for a route is
-- a parameter, `route_from` of the same file with the world and the step applied, which throws only on
-- a negative energy cost, and here is taken not to.
use sentinel_public.Prelude.{
  ℕ, ◌-◌, Bool, true, false, not, ◌||◌, List, Option, none, some, map, ltb, if◌then◌else◌,
}
use sentinel_public.Prelude.Int.{ℤ, pos, ◌-ℤ◌, ◌*ℤ◌, ltb_ℤ}
use sentinel_public.Prelude.Text.{text_lt}
use sentinel_public.Prelude.Order.{tie, by}
use sentinel_public.Prelude.Best.{pick_all}
use sentinel_public.Protocol.Messages.{
  TaskStatus, pending, VehicleState, TaskState, AllocationClaim,
}
use sentinel_public.Planning.Geometry.{Coordinate, coordinate, has_capability}
use sentinel_public.Planning.Energy.{reserve_energy}

pub record Route : Type 0 where
  pub points : List Coordinate
  pub distance_mm : ℤ
  pub energy_mj : ℤ
  pub travel_ticks : ℕ

unfoldable pub is_pending : TaskStatus → Bool
is_pending pending = true
is_pending _ = false

-- What is left of a task's service.
unfoldable pub remaining_service : TaskState → ℕ
remaining_service task =
    if ltb task.progress_ticks task.service_ticks
    then task.service_ticks - task.progress_ticks
    else 0

-- `route_from` of a world and a step: a vehicle's route from one point to another.
abbrev pub Router : Type 0
Router = VehicleState → Coordinate → Coordinate → Option Route

-- The guard that `feasible_route` and the loop of `evaluate` share, at this payload and this tick.
unfoldable pub task_refused : VehicleState → TaskState → ℤ → ℕ → Bool
unfolding is_pending has_capability
task_refused vehicle task payload tick =
    not (is_pending task.status)
    || (not (has_capability vehicle task.required_capability)
        || (ltb_ℤ payload task.payload_required_grams || ltb task.deadline_tick tick))

-- The tests that `feasible_route` makes on the route it has found.
unfoldable pub route_fits : VehicleState → TaskState → ℕ → Route → Bool
unfolding remaining_service
route_fits vehicle task tick route =
    let service = remaining_service task in
    let deadline = task.deadline_tick - tick in
    let available = vehicle.energy_mj -ℤ reserve_energy vehicle in
    let service_energy = pos service *ℤ task.service_energy_mj_per_tick in
    if ltb deadline route.travel_ticks || ltb (deadline - route.travel_ticks) service
    then false
    else if ltb_ℤ available (pos 0) || ltb_ℤ available route.energy_mj
    then false
    else not (ltb_ℤ service_energy (pos 0) || ltb_ℤ (available -ℤ route.energy_mj) service_energy)

abbrev pub only_if {ℓ} : {A : Type ℓ} → (A → Bool) → Option A → Option A
only_if p none = none
only_if p (some a) = if p a then some a else none

-- The order of `nearest_capable`: the tuple of the distance and the agent.
unfoldable pub claim_order : AllocationClaim → AllocationClaim → Bool
claim_order = tie (by (λ c. c.distance_mm) ltb_ℤ) (by (λ c. c.agent_id) text_lt)

module _ (route_from : Router) where
  unfoldable pub feasible_route : VehicleState → TaskState → ℕ → Option Route
  unfolding task_refused route_fits
  feasible_route vehicle task tick =
      if not vehicle.active || task_refused vehicle task vehicle.payload_grams tick
      then none
      else only_if (route_fits vehicle task tick) (
          route_from vehicle (coordinate vehicle.position.x_mm vehicle.position.y_mm)
            (coordinate task.target.x_mm task.target.y_mm))

  unfoldable pub make_claim : VehicleState → TaskState → ℕ → ℕ → ℕ → AllocationClaim
  unfolding feasible_route
  make_claim vehicle task tick epoch version = elim (feasible_route vehicle task tick) [
    | none ↦ record {
      epoch = epoch;
      version = version;
      task_id = task.id;
      agent_id = vehicle.id;
      feasible = false;
      distance_mm = pos 0;
    }
    | some route ↦ record {
      epoch = epoch;
      version = version;
      task_id = task.id;
      agent_id = vehicle.id;
      feasible = true;
      distance_mm = route.distance_mm;
    }
  ]

  -- The round of the loop for one vehicle: its claim, if that is feasible.
  unfoldable pub feasible_claim : TaskState → ℕ → ℕ → ℕ → VehicleState → Option AllocationClaim
  feasible_claim task tick epoch version vehicle =
      only_if (λ c. c.feasible) (some (make_claim vehicle task tick epoch version))

  unfoldable pub nearest_capable :
      List VehicleState → TaskState → ℕ → ℕ → ℕ → Option AllocationClaim
  nearest_capable vehicles task tick epoch version =
      pick_all claim_order none (map (feasible_claim task tick epoch version) vehicles)
