-- ===== src/Protocol/Observations.antt =====
-- proto/sentinel/v1/sentinel.proto: what the simulator reports to the agents and at the end of a run.
use sentinel_public.Prelude.{ℕ, Bool, List, Option}
use sentinel_public.Prelude.Text.{Text}
use sentinel_public.Protocol.Messages.{
  AllocationPolicy, World, VehicleState, TaskState, NetworkMessage,
}
use sentinel_public.Protocol.Actions.{
  AllocationConvergence, SpaceTimeReservation, FailureDetection, TaskReassignment, ReplanningSample,
}

pub record AgentObservation : Type 0 where
  pub tick : ℕ
  pub step_ms : ℕ
  pub self : VehicleState
  pub assigned_tasks : List TaskState
  pub delivered_messages : List NetworkMessage
  pub world : World
  pub available_tasks : List TaskState
  pub peer_ids : List Text
  pub allocation_epoch : ℕ
  pub allocation_policy : AllocationPolicy
  pub known_tasks : List TaskState
  pub network_profile : Text
  pub failure_detections : List FailureDetection
  pub committed_reservations : List SpaceTimeReservation
  pub reachable_peer_ids : List Text

-- An envelope whose body is an observation.
pub record ObservationEnvelope : Type 0 where
  pub schema_version : ℕ
  pub sequence : ℕ
  pub simulation_time_ms : ℕ
  pub sender_id : Text
  pub recipient_id : Text
  pub observation : AgentObservation

pub record SimulationSummary : Type 0 where
  pub success : Bool
  pub ticks : ℕ
  pub terminal_hash : Text
  pub tick_hashes : List Text
  pub completed_tasks : ℕ
  pub total_tasks : ℕ
  pub active_agents : ℕ
  pub wait_ticks : ℕ
  pub replan_count : ℕ
  pub recharge_ticks : ℕ
  pub return_ticks : ℕ
  pub route_conflicts : ℕ
  pub travel_distance_mm : ℕ
  pub energy_consumed_mj : ℕ
  pub rejected_commits : ℕ
  pub communication_bytes : ℕ
  pub communication_messages : ℕ
  pub delivered_messages : ℕ
  pub dropped_messages : ℕ
  pub reordered_messages : ℕ
  pub allocation_convergence : List AllocationConvergence
  pub failure_detections : List FailureDetection
  pub task_reassignments : List TaskReassignment
  pub replanning_samples : List ReplanningSample
  pub maximum_reassignment_delay_ms : ℕ
  pub missing_reassignments : ℕ
  pub agent_energy_never_drops_below_zero : Bool
  pub agent_energy_below_zero_violations : ℕ
  pub committed_reservations_never_overlap : Bool
  pub committed_reservation_overlap_violations : ℕ
  pub completed_tasks_are_never_reassigned : Bool
  pub completed_task_reassignment_violations : ℕ
  pub incapable_agents_never_commit_tasks : Bool
  pub incapable_agent_commit_violations : ℕ

pub record ObservationBatch : Type 0 where
  pub tick : ℕ
  pub observations : List ObservationEnvelope
  pub finished : Bool
  pub summary : Option SimulationSummary
