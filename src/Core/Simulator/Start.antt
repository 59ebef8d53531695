-- ===== src/Core/Simulator/Start.antt =====
-- The constructor of `Simulator` (core/src/simulator.cpp).
use sentinel_public.Prelude.{
  List, [], ◌∷◌, ◌++◌, map, none, if◌then◌else◌, true, false, Except, ok, ◌>>=◌, ◌>>◌,
}
use sentinel_public.Prelude.Int.{pos}
use sentinel_public.Prelude.Text.{is_empty}
use sentinel_public.Protocol.Messages.{pending}
use sentinel_public.Protocol.Actions.{idle, VehicleSpec, TaskSpec, Scenario}
use sentinel_public.Planning.Reservation.{empty_table}
use sentinel_public.Core.Network.State.{new_emulator, set_profile, NetworkEmulator}
use sentinel_public.Core.Scenario.{normalize_scenario}
use sentinel_public.Core.Scenario.Valid.{validate_scenario}
use sentinel_public.Core.Simulator.State.{
  Services, Vehicle, Task, Simulator, network_profile, begin_convergence,
}
use sentinel_public.Core.Simulator.Counters.{record_energy_invariant}
use sentinel_public.Core.Simulator.Motion.{no_view}
use sentinel_public.Core.Simulator.Digest.{compute_state_hash}

unfoldable pub new_vehicle : VehicleSpec → Vehicle
new_vehicle spec = record {
  spec = spec;
  x_mm = spec.initial_position.x_mm;
  y_mm = spec.initial_position.y_mm;
  velocity_x_mm_s = pos 0;
  velocity_y_mm_s = pos 0;
  energy_mj = spec.initial_energy_mj;
  energy_capacity_mj = spec.initial_energy_mj;
  max_speed_mm_s = spec.max_speed_mm_s;
  payload_grams = spec.payload_grams;
  active = true;
  failure_tick = none;
  failure_announced = false;
  behavior_mode = idle;
  route_version = 0;
}

-- The epoch is the first one, 1.
unfoldable pub new_task : TaskSpec → Task
new_task spec = record {
  spec = spec;
  released = spec.released;
  status = pending;
  assigned_agent_id = spec.assigned_agent_id;
  allocation_epoch = if is_empty spec.assigned_agent_id then 0 else 1;
  allocation_version = if is_empty spec.assigned_agent_id then 0 else 1;
  progress_ticks = 0;
  completion_tick = 0;
  allocation_score = pos 0;
  bundle_position = 0;
}

-- The state before the vehicles are entered.
unfoldable pub blank : Scenario → NetworkEmulator → Simulator
unfolding new_task
blank scenario network = record {
  scenario = scenario;
  vehicles = [];
  tasks = map new_task scenario.tasks;
  rng_streams = record { root_seed = scenario.seed; entries = [] };
  network = network;
  reservations = empty_table;
  network_profile = scenario.network_profile;
  delivered_messages = [];
  network_outcomes = [];
  allocation_views = map (λ v. no_view) scenario.vehicles;
  allocation_convergence = [];
  failure_monitors = [];
  failure_detections = [];
  task_reassignments = [];
  replanning_samples = [];
  allocation_epoch = 1;
  convergence = record {
    start_tick = 0;
    candidate_tick = 0;
    stable_ticks = 0;
    signature = [];
    is_open = false;
  };
  tick = 0;
  next_event = 0;
  state_hash = [];
  tick_hashes = [];
  measures = record {
    wait_ticks = 0;
    replan_count = 0;
    recharge_ticks = 0;
    return_ticks = 0;
    travel_distance_mm = 0;
    energy_consumed_mj = 0;
    rejected_commits = 0;
  };
  violations = record {
    agent_energy_below_zero = 0;
    committed_reservation_overlap = 0;
    completed_task_reassignment = 0;
    incapable_agent_commit = 0;
  };
}

-- The loop that enters the vehicles.
unfoldable pub enter_vehicles : Simulator → List VehicleSpec → Simulator
unfolding new_vehicle record_energy_invariant
enter_vehicles s [] = s
enter_vehicles s (spec ∷ specs) =
    let s' = record_energy_invariant s (new_vehicle spec) in
    enter_vehicles (record s' { vehicles = s'.vehicles ++ new_vehicle spec ∷ [] }) specs

-- The emulator and the streams take the seed and the step before the scenario is put in normal form,
-- which changes neither.
unfoldable pub new_simulator : Services → Scenario → Except Simulator
unfolding new_emulator normalize_scenario validate_scenario blank enter_vehicles network_profile
    set_profile begin_convergence compute_state_hash
new_simulator env given = do
  network ← new_emulator given.seed given.step_ms
  let scenario = normalize_scenario given
  validate_scenario scenario
  let s = enter_vehicles (blank scenario network) scenario.vehicles
  profiled ← set_profile s.network (network_profile s s.network_profile)
  let started = begin_convergence (record s { network = profiled })
  ok (record started { state_hash = compute_state_hash env started })
