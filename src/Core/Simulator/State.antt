-- ===== src/Core/Simulator/State.antt =====
-- core/include/sentinel/core/simulator.hpp and core/src/simulator.cpp: the state of the simulator, its
-- look-ups and the counters that it reports. The measures of a run, the counts of violations and the
-- state of the convergence measurement are grouped in records of their own.
use sentinel_public.Prelude.{
  ℕ, Bool, true, false, not, ◌&&◌, ◌||◌, List, [], ◌∷◌, Option, none, some, any, ltb, leb, ◌==◌,
  if◌then◌else◌, Except, ok, throw, invalid_argument,
}
use sentinel_public.Prelude.Int.{ℤ}
use sentinel_public.Prelude.Text.{Text}
use sentinel_public.Prelude.Keyed.{find_key}
use sentinel_public.Prelude.Word.{add64}
use sentinel_public.Protocol.Messages.{
  Capability, capability_number, TaskStatus, pending, completed, AllocationPolicy, scripted,
  ServiceLocation, NetworkProfile, VehicleState, TaskState, NetworkMessage, NetworkOutcome, World,
}
use sentinel_public.Protocol.Actions.{
  BehaviorMode, VehicleSpec, TaskSpec, TapeEvent, Scenario, AllocationBid, AllocationCommit,
  AllocationState, AllocationConvergence, FailureDetection, TaskReassignment, ReplanningSample,
}
use sentinel_public.Planning.Claims.{Router}
use sentinel_public.Planning.Reservation.{ReservationTable}
use sentinel_public.Core.Rng.{RngStreams}
use sentinel_public.Core.Network.State.{NetworkEmulator}
use sentinel_public.Core.Network.Step.{EnvelopeSize}

-- What the simulator calls: the search for routes of planning/src/planner.cpp, with a world and a
-- step, and Protobuf's deterministic serialization.
pub record Services : Type 0 where
  pub route_from : World → ℕ → Router
  pub envelope_size : EnvelopeSize
  pub message_bytes : NetworkMessage → Text
  pub event_bytes : TapeEvent → Text
  pub bid_bytes : AllocationBid → Text
  pub owner_bytes : AllocationCommit → Text
  pub view_bytes : AllocationState → Text
  pub detection_bytes : FailureDetection → Text
  pub reassignment_bytes : TaskReassignment → Text
  pub sample_bytes : ReplanningSample → Text
  pub outcome_bytes : NetworkOutcome → Text

pub record Vehicle : Type 0 where
  pub spec : VehicleSpec
  pub x_mm : ℤ
  pub y_mm : ℤ
  pub velocity_x_mm_s : ℤ
  pub velocity_y_mm_s : ℤ
  pub energy_mj : ℤ
  pub energy_capacity_mj : ℤ
  pub max_speed_mm_s : ℤ
  pub payload_grams : ℤ
  pub active : Bool
  pub failure_tick : Option ℕ
  pub failure_announced : Bool
  pub behavior_mode : BehaviorMode
  pub route_version : ℕ

pub record FailureMonitor : Type 0 where
  pub detector_id : Text
  pub failed_id : Text
  pub failure_tick : ℕ
  pub missed_ticks : ℕ
  pub detection_tick : Option ℕ

pub record Task : Type 0 where
  pub spec : TaskSpec
  pub released : Bool
  pub status : TaskStatus
  pub assigned_agent_id : Text
  pub allocation_epoch : ℕ
  pub allocation_version : ℕ
  pub progress_ticks : ℕ
  pub completion_tick : ℕ
  pub allocation_score : ℤ
  pub bundle_position : ℕ

pub record Convergence : Type 0 where
  pub start_tick : ℕ
  pub candidate_tick : ℕ
  pub stable_ticks : ℕ
  pub signature : Text
  pub is_open : Bool

pub record Measures : Type 0 where
  pub wait_ticks : ℕ
  pub replan_count : ℕ
  pub recharge_ticks : ℕ
  pub return_ticks : ℕ
  pub travel_distance_mm : ℕ
  pub energy_consumed_mj : ℕ
  pub rejected_commits : ℕ

pub record Violations : Type 0 where
  pub agent_energy_below_zero : ℕ
  pub committed_reservation_overlap : ℕ
  pub completed_task_reassignment : ℕ
  pub incapable_agent_commit : ℕ

pub record Simulator : Type 0 where
  pub scenario : Scenario
  pub vehicles : List Vehicle
  pub tasks : List Task
  pub rng_streams : RngStreams
  pub network : NetworkEmulator
  pub reservations : ReservationTable
  pub network_profile : Text
  pub delivered_messages : List NetworkMessage
  pub network_outcomes : List NetworkOutcome
  pub allocation_views : List AllocationState
  pub allocation_convergence : List AllocationConvergence
  pub failure_monitors : List FailureMonitor
  pub failure_detections : List FailureDetection
  pub task_reassignments : List TaskReassignment
  pub replanning_samples : List ReplanningSample
  pub allocation_epoch : ℕ
  pub convergence : Convergence
  pub tick : ℕ
  pub next_event : ℕ
  pub state_hash : Text
  pub tick_hashes : List Text
  pub measures : Measures
  pub violations : Violations

abbrev pub vehicle_id : Vehicle → Text
vehicle_id v = v.spec.id

abbrev pub task_id : Task → Text
task_id t = t.spec.id

-- An element of a sequence, or the exception of a missing one.
abbrev pub found {ℓ} : {A : Type ℓ} → Option A → Except A
found none = throw invalid_argument
found (some a) = ok a

unfoldable pub vehicle : Simulator → Text → Except Vehicle
unfolding find_key
vehicle s id = found (find_key vehicle_id s.vehicles id)

unfoldable pub task : Simulator → Text → Except Task
unfolding find_key
task s id = found (find_key task_id s.tasks id)

unfoldable pub location : Simulator → Text → Except ServiceLocation
unfolding find_key
location s id = found (find_key (λ l. l.id) s.scenario.world.locations id)

abbrev pub profile_or : NetworkProfile → Option NetworkProfile → NetworkProfile
profile_or p none = p
profile_or p (some q) = q

-- The profile of the name, or an unimpaired one.
unfoldable pub network_profile : Simulator → Text → NetworkProfile
unfolding find_key
network_profile s id =
    profile_or
      (record {
        id = id;
        latency_ticks = 0;
        jitter_ticks = 0;
        packet_loss_permyriad = 0;
        bandwidth_bytes_per_tick = 1000000000;
        reorder_permyriad = 0;
        reorder_window_ticks = 0;
      })
      (find_key (λ p. p.id) s.scenario.network_profiles id)

-- `std::binary_search` on the capabilities, which are in order.
unfoldable pub holds_capability : List Capability → Capability → Bool
unfolding capability_number
holds_capability [] capability = false
holds_capability (c ∷ cs) capability =
    if ltb (capability_number c) (capability_number capability)
    then holds_capability cs capability
    else capability_number c == capability_number capability

unfoldable pub has_capability : Vehicle → Capability → Bool
unfolding holds_capability
has_capability current capability = holds_capability current.spec.capabilities capability

unfoldable pub is_pending : TaskStatus → Bool
is_pending pending = true
is_pending _ = false

unfoldable pub is_completed : TaskStatus → Bool
is_completed completed = true
is_completed _ = false

unfoldable pub is_scripted : AllocationPolicy → Bool
is_scripted scripted = true
is_scripted _ = false

-- A task that agents may work on.
abbrev pub is_open_task : Task → Bool
is_open_task t = t.released && is_pending t.status

unfoldable pub vehicle_state : Vehicle → VehicleState
vehicle_state current = record {
  id = current.spec.id;
  kind = current.spec.kind;
  position = record { x_mm = current.x_mm; y_mm = current.y_mm };
  velocity_x_mm_s = current.velocity_x_mm_s;
  velocity_y_mm_s = current.velocity_y_mm_s;
  max_speed_mm_s = current.max_speed_mm_s;
  energy_mj = current.energy_mj;
  payload_grams = current.payload_grams;
  capabilities = current.spec.capabilities;
  terrain_access = current.spec.terrain_access;
  active = current.active;
  initial_energy_mj = current.spec.initial_energy_mj;
  energy_cost_mj_per_meter = current.spec.energy_cost_mj_per_meter;
  return_location_id = current.spec.return_location_id;
  energy_capacity_mj = current.energy_capacity_mj;
}

unfoldable pub task_state : Task → TaskState
task_state current = record {
  id = current.spec.id;
  kind = current.spec.kind;
  target = current.spec.target;
  required_capability = current.spec.required_capability;
  payload_required_grams = current.spec.payload_required_grams;
  deadline_tick = current.spec.deadline_tick;
  completion_radius_mm = current.spec.completion_radius_mm;
  assigned_agent_id = current.assigned_agent_id;
  status = current.status;
  service_ticks = current.spec.service_ticks;
  service_energy_mj_per_tick = current.spec.service_energy_mj_per_tick;
  progress_ticks = current.progress_ticks;
  allocation_epoch = current.allocation_epoch;
  allocation_version = current.allocation_version;
  priority = current.spec.priority;
  allocation_score = current.allocation_score;
  bundle_position = current.bundle_position;
}

unfoldable pub finished : Simulator → Bool
unfolding is_pending
finished s =
    if leb s.scenario.max_ticks s.tick
    then true
    else not (any (λ v. v.active) s.vehicles) || not (any (λ t. is_pending t.status) s.tasks)

unfoldable pub begin_convergence : Simulator → Simulator
unfolding is_scripted
begin_convergence s = if is_scripted s.scenario.allocation_policy then s else record s {
  convergence = record {
    start_tick = s.tick;
    candidate_tick = 0;
    stable_ticks = 0;
    signature = [];
    is_open = true;
  };
}

-- `++allocation_epoch_; begin_convergence();`.
abbrev pub next_epoch : Simulator → Simulator
next_epoch s = begin_convergence (record s { allocation_epoch = add64 s.allocation_epoch 1 })
