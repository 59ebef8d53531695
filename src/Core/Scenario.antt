-- ===== src/Core/Scenario.antt =====
-- core/src/scenario.cpp: the normal form of a scenario, and (in the module below) what a scenario must be.
-- The file that a scenario is loaded from, and Protobuf's text format, are not modelled.
pub mod Checks
pub mod Valid
use sentinel_public.Prelude.{
  ℕ, ◌+◌, Bool, true, false, ◌&&◌, ◌||◌, List, [], ◌∷◌, map, min, ltb, ◌==◌, if◌then◌else◌,
}
use sentinel_public.Prelude.Int.{ℤ, pos, eq_ℤ}
use sentinel_public.Prelude.Text.{Text, text_lt}
use sentinel_public.Prelude.Order.{by, sort}
use sentinel_public.Protocol.Messages.{
  Capability, capability_number, AllocationPolicy, scripted, World,
}
use sentinel_public.Protocol.Actions.{VehicleSpec, TaskSpec, TapeEvent, Scenario}
use sentinel_public.Core.Hash.{hash_bytes}

abbrev pub by_name {ℓ} : {A : Type ℓ} → (A → Text) → List A → List A
by_name key = sort (by key text_lt)

unfoldable pub known_policy : AllocationPolicy → AllocationPolicy
known_policy AllocationPolicy.unspecified = scripted
known_policy policy = policy

unfoldable pub normal_world : World → World
normal_world world = record world {
  grid_cell_mm = if eq_ℤ world.grid_cell_mm (pos 0) then pos 100 else world.grid_cell_mm;
  map_version = if world.map_version == 0 then 1 else world.map_version;
  regions = by_name (λ r. r.id) world.regions;
  locations = by_name (λ l. l.id) world.locations;
}

unfoldable pub capability_order : Capability → Capability → Bool
unfolding capability_number
capability_order = by capability_number ltb

unfoldable pub normal_vehicle : VehicleSpec → VehicleSpec
unfolding capability_order
normal_vehicle vehicle = record vehicle {
  capabilities = sort capability_order vehicle.capabilities;
  terrain_access = sort text_lt vehicle.terrain_access;
}

unfoldable pub normal_task : TaskSpec → TaskSpec
normal_task task = record task { priority = if task.priority == 0 then 50 else task.priority }

-- The tick, and at one tick the name.
unfoldable pub event_order : TapeEvent → TapeEvent → Bool
event_order left right =
    ltb left.tick right.tick || (left.tick == right.tick && text_lt left.id right.id)

unfoldable pub normalize_scenario : Scenario → Scenario
unfolding normal_world known_policy normal_vehicle normal_task event_order
normalize_scenario scenario = record scenario {
  world = normal_world scenario.world;
  allocation_policy = known_policy scenario.allocation_policy;
  failure_detection_ticks =
      if scenario.failure_detection_ticks == 0
      then min 5 scenario.max_ticks
      else scenario.failure_detection_ticks;
  network_profiles = by_name (λ p. p.id) scenario.network_profiles;
  vehicles = map normal_vehicle (by_name (λ v. v.id) scenario.vehicles);
  tasks = map normal_task (by_name (λ t. t.id) scenario.tasks);
  events = sort event_order scenario.events;
}

unfoldable pub scenario_hash : (Scenario → Text) → Scenario → Text
unfolding hash_bytes normalize_scenario
scenario_hash deterministic_bytes scenario =
    hash_bytes (deterministic_bytes (normalize_scenario scenario))
