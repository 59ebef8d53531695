-- ===== src/Protocol/Actions.antt =====
-- proto/sentinel/v1/sentinel.proto: what a scenario, an agent's action and an applied event carry.
-- An enumeration may hold a value of no enumerator, which is `unrecognized`. The route plan of an
-- action, which the simulator does not read, is left out.
use sentinel_public.Prelude.{ℕ, Bool, List, Option}
use sentinel_public.Prelude.Int.{ℤ}
use sentinel_public.Prelude.Text.{Text}
use sentinel_public.Protocol.Messages.{
  Capability, AllocationPolicy, Point, World, NetworkProfile, NetworkMessage,
}

pub data TapeEventKind : Type 0 where
  unspecified release_task disable_vehicle energy_delta set_network_profile set_region_closed
        set_link_blocked set_speed_permille set_endurance_permille :
      TapeEventKind

pub data TaskReportKind : Type 0 where
  unspecified working rejected : TaskReportKind
  unrecognized : ℤ → TaskReportKind

pub data BehaviorMode : Type 0 where
  unspecified idle waiting navigating executing charging returning : BehaviorMode
  unrecognized : ℤ → BehaviorMode

pub data ReplanReason : Type 0 where
  unspecified blockage reservation endurance task owner : ReplanReason
  unrecognized : ℤ → ReplanReason

pub record VehicleSpec : Type 0 where
  pub id : Text
  pub kind : Text
  pub initial_position : Point
  pub max_speed_mm_s : ℤ
  pub initial_energy_mj : ℤ
  pub energy_cost_mj_per_meter : ℤ
  pub payload_grams : ℤ
  pub capabilities : List Capability
  pub terrain_access : List Text
  pub return_location_id : Text

pub record TaskSpec : Type 0 where
  pub id : Text
  pub kind : Text
  pub target : Point
  pub required_capability : Capability
  pub payload_required_grams : ℤ
  pub deadline_tick : ℕ
  pub completion_radius_mm : ℤ
  pub assigned_agent_id : Text
  pub released : Bool
  pub service_ticks : ℕ
  pub service_energy_mj_per_tick : ℤ
  pub priority : ℕ

pub record TapeEvent : Type 0 where
  pub id : Text
  pub tick : ℕ
  pub kind : TapeEventKind
  pub target_id : Text
  pub value_min : ℤ
  pub value_max : ℤ
  pub rng_stream : Text
  pub text_value : Text
  pub bool_value : Bool

pub record AppliedEvent : Type 0 where
  pub source : TapeEvent
  pub resolved_value : ℤ
  pub rng_stream : Text
  pub rng_state_after : ℕ

pub record Scenario : Type 0 where
  pub schema_version : ℕ
  pub name : Text
  pub seed : ℕ
  pub step_ms : ℕ
  pub max_ticks : ℕ
  pub world : World
  pub vehicles : List VehicleSpec
  pub tasks : List TaskSpec
  pub events : List TapeEvent
  pub network_profile : Text
  pub allocation_policy : AllocationPolicy
  pub network_profiles : List NetworkProfile
  pub failure_detection_ticks : ℕ

pub record AllocationCommit : Type 0 where
  pub epoch : ℕ
  pub version : ℕ
  pub task_id : Text
  pub agent_id : Text
  pub distance_mm : ℤ
  pub score : ℤ
  pub bundle_position : ℕ

pub record AllocationBid : Type 0 where
  pub epoch : ℕ
  pub version : ℕ
  pub task_id : Text
  pub bidder_id : Text
  pub score : ℤ
  pub distance_mm : ℤ
  pub energy_mj : ℤ
  pub completion_tick : ℕ
  pub bundle_position : ℕ

pub record AllocationRelay : Type 0 where
  pub bid : AllocationBid
  pub path_agent_ids : List Text

pub record AllocationState : Type 0 where
  pub epoch : ℕ
  pub version : ℕ
  pub sender_id : Text
  pub bids : List AllocationBid
  pub winners : List AllocationBid
  pub bundle_task_ids : List Text
  pub map_version : ℕ
  pub owners : List AllocationCommit
  pub winner_relays : List AllocationRelay

pub record TaskReport : Type 0 where
  pub task_id : Text
  pub kind : TaskReportKind

pub record AllocationConvergence : Type 0 where
  pub epoch : ℕ
  pub start_tick : ℕ
  pub end_tick : ℕ
  pub complete : Bool

pub record SpaceTimeReservation : Type 0 where
  pub resource_id : Text
  pub agent_id : Text
  pub start_tick : ℕ
  pub end_tick : ℕ
  pub version : ℕ
  pub route_version : ℕ
  pub map_version : ℕ

pub record FailureDetection : Type 0 where
  pub failed_agent_id : Text
  pub detector_agent_id : Text
  pub failure_tick : ℕ
  pub detection_tick : ℕ

pub record TaskReassignment : Type 0 where
  pub task_id : Text
  pub failed_agent_id : Text
  pub detector_agent_id : Text
  pub failure_tick : ℕ
  pub detection_tick : ℕ
  pub previous_epoch : ℕ
  pub previous_version : ℕ
  pub new_agent_id : Text
  pub new_epoch : ℕ
  pub new_version : ℕ
  pub commit_tick : ℕ
  pub complete : Bool

pub record ReplanningSample : Type 0 where
  pub agent_id : Text
  pub reason : ReplanReason
  pub start_tick : ℕ
  pub end_tick : ℕ
  pub wait_plan : Bool
  pub complete : Bool

pub record AgentAction : Type 0 where
  pub tick : ℕ
  pub velocity_x_mm_s : ℤ
  pub velocity_y_mm_s : ℤ
  pub outgoing_messages : List NetworkMessage
  pub allocation_commits : List AllocationCommit
  pub task_reports : List TaskReport
  pub charge_location_id : Text
  pub behavior_mode : BehaviorMode
  pub route_version : ℕ
  pub replanned : Bool
  pub allocation_state : Option AllocationState
  pub failure_detections : List FailureDetection
  pub reservation_proposals : List SpaceTimeReservation
  pub replanning_samples : List ReplanningSample

-- An envelope whose body is an action, or none of its bodies. The simulator looks at no other.
pub record Envelope : Type 0 where
  pub schema_version : ℕ
  pub sequence : ℕ
  pub simulation_time_ms : ℕ
  pub sender_id : Text
  pub recipient_id : Text
  pub has_action : Bool
  pub action : AgentAction

pub record ActionBatch : Type 0 where
  pub tick : ℕ
  pub actions : List Envelope
