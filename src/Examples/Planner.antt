-- ===== src/Examples/Planner.antt =====
-- Runs of planning/src/planner.cpp: one vehicle, a world with rough ground, and two tasks.
use sentinel_public.Prelude.{
  List, ℕ, ◌*◌, ◌≤◌, ◌≡◌, ◌↔◌, refl, Bool, true, false, [], ◌∷◌, Option, none, some, All, arith,
}
use sentinel_public.Prelude.Int.{pos, pos_part, ◌≤ℤ◌, ◌+ℤ◌, ◌-ℤ◌, ◌*ℤ◌, abs}
use sentinel_public.Prelude.Text.{Text, codes}
use sentinel_public.Protocol.Messages.{
  Point, Region, terrain, chokepoint, World, VehicleState, TaskState, inspection, pending,
  capability_number,
}
use sentinel_public.Planning.Geometry.{contested_resource}
use sentinel_public.Planning.Geometry.{
  coordinate, has_capability, segment_allowed, terrain_multiplier,
}
use sentinel_public.Planning.Geometry.Passage.{
  InWorld, IsClear, segment_allowed_iff, IsContested, contested_resource-IsContested, Slows,
  terrain_multiplier_iff,
}
use sentinel_public.Planning.Energy.{round_up, edge_ticks, reserve_of, reserve_energy}
use sentinel_public.Planning.Energy.Bounds.{IsRoundedUp, edge_ticks_least, reserve_energy_least}
use sentinel_public.Planning.Claims.{
  Route, Router, is_pending, remaining_service, task_refused, route_fits, feasible_route,
  nearest_capable,
}
use sentinel_public.Planning.Bundle.{
  BundleEvaluation, is_delivery, extend, exceeds, payload_after, target_of, visit, visit_all,
  evaluate,
}
use sentinel_public.Planning.Bundle.Cache.{CachedRoute, route_to, IsAnswer, route_to-IsAnswer}
use sentinel_public.Planning.Bundle.Feasible.{CanServe, feasible_route-CanServe}
use sentinel_public.Planning.Bundle.Budget.{AreServed, evaluate-AreServed}
use sentinel_public.Planning.Bundle.Choice.{IsNearest, nearest_capable-IsNearest}

abbrev point : ℕ → ℕ → Point
point x y = record { x_mm = pos x; y_mm = pos y }

-- The straight route along the axes, at a millimetre a tick and a millijoule.
abbrev pub direct : Router
direct v from to =
    let distance = abs (to.x -ℤ from.x) +ℤ abs (to.y -ℤ from.y) in
    some (record {
      points = from ∷ to ∷ [];
      distance_mm = distance;
      energy_mj = distance;
      travel_ticks = pos_part distance;
    })

abbrev rover : VehicleState
rover = record {
  id = codes "rover";
  kind = codes "ground";
  position = point 0 0;
  velocity_x_mm_s = pos 0;
  velocity_y_mm_s = pos 0;
  max_speed_mm_s = pos 1000;
  energy_mj = pos 1000;
  payload_grams = pos 5;
  capabilities = inspection ∷ [];
  terrain_access = codes "rough" ∷ [];
  active = true;
  initial_energy_mj = pos 1005;
  energy_cost_mj_per_meter = pos 1000;
  return_location_id = [];
  energy_capacity_mj = pos 1005;
}

abbrev task : Text → Point → TaskState
task id target = record {
  id = id;
  kind = codes "visit";
  target = target;
  required_capability = inspection;
  payload_required_grams = pos 1;
  deadline_tick = 100;
  completion_radius_mm = pos 1;
  assigned_agent_id = [];
  status = pending;
  service_ticks = 4;
  service_energy_mj_per_tick = pos 2;
  progress_ticks = 1;
  allocation_epoch = 0;
  allocation_version = 0;
  priority = 1;
  allocation_score = pos 0;
  bundle_position = 0;
}

abbrev near : TaskState
near = task (codes "near") (point 5 0)

abbrev far : TaskState
far = task (codes "far") (point 9 9)

abbrev rough : Region
rough = record {
  id = codes "r";
  kind = terrain;
  minimum = point 0 0;
  maximum = point 3 3;
  terrain_name = codes "rough";
  energy_multiplier_permille = 1500;
  closed = false;
}

abbrev gate : Region
gate = record rough {
  id = codes "gate";
  kind = chokepoint;
  minimum = point 4 0;
  maximum = point 6 9;
}

abbrev world : World
world = record {
  width_mm = pos 100;
  height_mm = pos 100;
  regions = rough ∷ gate ∷ [];
  grid_cell_mm = pos 1;
  map_version = 1;
  locations = [];
}

segment_allowed_iff_example :
    (segment_allowed world rover (coordinate (pos 0) (pos 0)) (coordinate (pos 9) (pos 0)) ≡ true)
    ↔ (InWorld world (coordinate (pos 0) (pos 0))
        × InWorld world (coordinate (pos 9) (pos 0))
        × All
            (IsClear rover (coordinate (pos 0) (pos 0)) (coordinate (pos 9) (pos 0)))
            world.regions)
segment_allowed_iff_example =
    segment_allowed_iff world rover (coordinate (pos 0) (pos 0)) (coordinate (pos 9) (pos 0))

terrain_multiplier_iff_example :
    (terrain_multiplier world (coordinate (pos 0) (pos 0)) (coordinate (pos 9) (pos 0)) ≤ 1500) ↔ (
      1000 ≤ 1500
      × All (Slows (coordinate (pos 0) (pos 0)) (coordinate (pos 9) (pos 0)) 1500) world.regions)
terrain_multiplier_iff_example =
    terrain_multiplier_iff world (coordinate (pos 0) (pos 0)) (coordinate (pos 9) (pos 0)) 1500

contested_resource-IsContested_example :
    IsContested
      (coordinate (pos 0) (pos 0))
      (coordinate (pos 9) (pos 0))
      world.regions
      (contested_resource world (coordinate (pos 0) (pos 0)) (coordinate (pos 9) (pos 0)))
contested_resource-IsContested_example =
    contested_resource-IsContested world (coordinate (pos 0) (pos 0)) (coordinate (pos 9) (pos 0))

edge_ticks_least_example : IsRoundedUp (250 * 1000) (1000 * 100) (edge_ticks (pos 250) rover 100)
edge_ticks_least_example =
    edge_ticks_least 250 1000 100 rover refl (omega arith) (omega arith) (omega arith) (omega arith)

reserve_energy_least_example :
    IsRoundedUp (pos_part rover.initial_energy_mj) 10 (pos_part (reserve_energy rover))
    × (pos 0 ≤ℤ reserve_energy rover)
reserve_energy_least_example = reserve_energy_least rover

nearest_capable-IsNearest_example :
    IsNearest direct near 3 1 1 (rover ∷ []) (nearest_capable direct (rover ∷ []) near 3 1 1)
nearest_capable-IsNearest_example = nearest_capable-IsNearest direct (rover ∷ []) near 3 1 1

abbrev route_or {ℓ} : {A : Type ℓ} → A → Option A → A
route_or a none = a
route_or a (some b) = b

abbrev is_some {ℓ} : {A : Type ℓ} → Option A → Bool
is_some none = false
is_some (some a) = true

found {ℓ} : {A : Type ℓ} (a : A) (o : Option A) → is_some o ≡ true → o ≡ some (route_or a o)
found a (some b) h = refl
found a none h = cc

abbrev no_route : Route
no_route = record { points = []; distance_mm = pos 0; energy_mj = pos 0; travel_ticks = 0 }

abbrev way : Route
way = route_or no_route (feasible_route direct rover near 3)

way_exists : is_some (feasible_route direct rover near 3) ≡ true
unfolding feasible_route task_refused is_pending has_capability capability_number route_fits
    remaining_service reserve_energy reserve_of round_up ◌+ℤ◌ ◌-ℤ◌ ◌*ℤ◌ abs
way_exists = refl

feasible_route-CanServe_example :
    CanServe rover near 3 way
    × (direct rover (coordinate (pos 0) (pos 0)) (coordinate (pos 5) (pos 0)) ≡ some way)
feasible_route-CanServe_example =
    feasible_route-CanServe direct rover near 3 way
      (found no_route (feasible_route direct rover near 3) way_exists)

abbrev no_bundle : BundleEvaluation
no_bundle = record {
  distance_mm = pos 0;
  energy_mj = pos 0;
  completion_tick = 0;
  task_completion_ticks = [];
}

abbrev bundle : BundleEvaluation
bundle = route_or no_bundle (evaluate direct rover 3 100 (far ∷ []))

bundle_exists : is_some (evaluate direct rover 3 100 (far ∷ [])) ≡ true
unfolding evaluate visit_all visit task_refused is_pending has_capability capability_number extend
    exceeds remaining_service payload_after is_delivery target_of reserve_energy reserve_of round_up
    ◌+ℤ◌ ◌-ℤ◌ ◌*ℤ◌ abs
bundle_exists = refl

is_bundle : evaluate direct rover 3 100 (far ∷ []) ≡ some bundle
is_bundle = found no_bundle (evaluate direct rover 3 100 (far ∷ [])) bundle_exists

evaluate-AreServed_example :
    (bundle.energy_mj ≤ℤ rover.energy_mj -ℤ reserve_energy rover)
    × AreServed rover (far ∷ []) bundle.task_completion_ticks
evaluate-AreServed_example = evaluate-AreServed direct rover 3 100 (far ∷ []) bundle is_bundle

-- One entry, for the way to `far`.
abbrev routes : List CachedRoute
routes =
    record {
      start = coordinate (pos 0) (pos 0);
      goal = coordinate (pos 9) (pos 9);
      route = direct rover (coordinate (pos 0) (pos 0)) (coordinate (pos 9) (pos 9));
    }
    ∷ []

route_to-IsAnswer_example :
    ((route_to direct rover routes (coordinate (pos 0) (pos 0)) (coordinate (pos 9) (pos 9))).0
      ≡ direct rover (coordinate (pos 0) (pos 0)) (coordinate (pos 9) (pos 9)))
    × All
        (IsAnswer direct rover)
        (route_to direct rover routes (coordinate (pos 0) (pos 0)) (coordinate (pos 9) (pos 9))).1
route_to-IsAnswer_example =
    route_to-IsAnswer direct rover routes (coordinate (pos 0) (pos 0)) (coordinate (pos 9) (pos 9))
      (refl, tt)
