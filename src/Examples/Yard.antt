-- ===== src/Examples/Yard.antt =====
-- A small scenario for the simulator (core/src/simulator.cpp): three vehicles and a task.
use sentinel_public.Prelude.{ℕ, true, false, List, [], ◌∷◌, none}
use sentinel_public.Prelude.Int.{pos}
use sentinel_public.Prelude.Text.{Text, codes}
use sentinel_public.Protocol.Messages.{inspection, delivery, nearest_capable}
use sentinel_public.Protocol.Actions.{
  VehicleSpec, TaskSpec, Scenario, AllocationCommit, AgentAction, Envelope, ActionBatch, idle,
}
use sentinel_public.Core.Network.State.{NetworkEmulator, no_profile}
use sentinel_public.Core.Simulator.State.{Services, Simulator}
use sentinel_public.Core.Simulator.Start.{new_vehicle, new_task, blank}
use sentinel_public.Examples.Planner.{direct}

-- Straight routes, and names for bytes.
abbrev pub services : Services
services = record {
  route_from = λ world step_ms. direct;
  envelope_size = λ sequence time message. 10;
  message_bytes = λ m. m.payload;
  event_bytes = λ e. e.id;
  bid_bytes = λ b. b.task_id;
  owner_bytes = λ o. o.task_id;
  view_bytes = λ v. v.sender_id;
  detection_bytes = λ d. d.failed_agent_id;
  reassignment_bytes = λ r. r.task_id;
  sample_bytes = λ r. r.agent_id;
  outcome_bytes = λ o. o.profile_id;
}

abbrev pub spec : Text → Text → ℕ → VehicleSpec
spec id kind x = record {
  id = id;
  kind = kind;
  initial_position = record { x_mm = pos x; y_mm = pos 0 };
  max_speed_mm_s = pos 1000;
  initial_energy_mj = pos 10000;
  energy_cost_mj_per_meter = pos 10;
  payload_grams = pos 5;
  capabilities = delivery ∷ inspection ∷ [];
  terrain_access = codes "flat" ∷ [];
  return_location_id = [];
}

abbrev pub visit : TaskSpec
visit = record {
  id = codes "t";
  kind = codes "visit";
  target = record { x_mm = pos 200; y_mm = pos 0 };
  required_capability = inspection;
  payload_required_grams = pos 1;
  deadline_tick = 500;
  completion_radius_mm = pos 10;
  assigned_agent_id = [];
  released = true;
  service_ticks = 2;
  service_energy_mj_per_tick = pos 3;
  priority = 0;
}

-- The vehicles out of order, and some defaults left open.
abbrev pub scenario : Scenario
scenario = record {
  schema_version = 1;
  name = codes "yard";
  seed = 7;
  step_ms = 100;
  max_ticks = 1000;
  world = record {
    width_mm = pos 1000;
    height_mm = pos 1000;
    regions = [];
    grid_cell_mm = pos 0;
    map_version = 0;
    locations = [];
  };
  vehicles =
      spec (codes "b") (codes "ground") 900
      ∷ spec (codes "a") (codes "ground") 100
      ∷ spec (codes "c") (codes "air") 500
      ∷ [];
  tasks = visit ∷ [];
  events = [];
  network_profile = codes "clear";
  allocation_policy = nearest_capable;
  network_profiles = [];
  failure_detection_ticks = 0;
}

abbrev pub action : List AllocationCommit → AgentAction
action commits = record {
  tick = 0;
  velocity_x_mm_s = pos 1000;
  velocity_y_mm_s = pos 0;
  outgoing_messages = [];
  allocation_commits = commits;
  task_reports = [];
  charge_location_id = [];
  behavior_mode = idle;
  route_version = 0;
  replanned = false;
  allocation_state = none;
  failure_detections = [];
  reservation_proposals = [];
  replanning_samples = [];
}

abbrev pub envelope : Text → ℕ → List AllocationCommit → Envelope
envelope sender sequence commits = record {
  schema_version = 1;
  sequence = sequence;
  simulation_time_ms = 0;
  sender_id = sender;
  recipient_id = codes "sim";
  has_action = true;
  action = action commits;
}

abbrev pub commit : AllocationCommit
commit = record {
  epoch = 1;
  version = 1;
  task_id = codes "t";
  agent_id = codes "a";
  distance_mm = pos 100;
  score = pos 0;
  bundle_position = 0;
}

abbrev pub batch : ActionBatch
batch = record {
  tick = 0;
  actions =
      envelope (codes "a") 1 (commit ∷ [])
      ∷ envelope (codes "c") 3 []
      ∷ envelope (codes "b") 2 []
      ∷ [];
}

abbrev pub emulator : NetworkEmulator
emulator = record {
  seed = 7;
  step_ms = 100;
  profile = no_profile;
  links = [];
  in_flight = [];
  blocked_links = [];
  next_sequence = 1;
  communication_bytes = 0;
  communication_messages = 0;
  delivered_messages = 0;
  dropped_messages = 0;
  reordered_messages = 0;
}

-- A state of its own at a tick.
abbrev pub quiet : ℕ → Simulator
quiet tick = record (blank scenario emulator) {
  vehicles =
      new_vehicle (spec (codes "a") (codes "ground") 200)
      ∷ new_vehicle (spec (codes "b") (codes "air") 900)
      ∷ [];
  tasks = record (new_task visit) { assigned_agent_id = codes "a" } ∷ [];
  tick = tick;
}
