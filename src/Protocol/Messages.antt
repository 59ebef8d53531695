-- ===== src/Protocol/Messages.antt =====
-- proto/sentinel/v1/sentinel.proto: the messages and enumerations that the model uses. Integers of
-- type `sint64` are `ℤ`, unsigned ones `ℕ`, strings and bytes lists of bytes. An enumeration has one
-- more constructor, `UNSPECIFIED`, which is what an absent field reads as.
use sentinel_public.Prelude.{ℕ, Bool, List}
use sentinel_public.Prelude.Int.{ℤ}
use sentinel_public.Prelude.Text.{Text}

pub data Capability : Type 0 where
  unspecified search_area inspection relay delivery : Capability

pub data RegionKind : Type 0 where
  unspecified obstacle restricted terrain chokepoint : RegionKind

pub data TaskStatus : Type 0 where
  unspecified pending completed missed : TaskStatus

pub data LocationKind : Type 0 where
  unspecified charging return : LocationKind

pub data AllocationPolicy : Type 0 where
  unspecified scripted nearest_capable sentinel_cbba : AllocationPolicy

pub data NetworkDisposition : Type 0 where
  unspecified queued dropped_loss dropped_partition delivered : NetworkDisposition

-- The values of the enumerators in the protocol.
unfoldable pub capability_number : Capability → ℕ
capability_number Capability.unspecified = 0
capability_number search_area = 1
capability_number inspection = 2
capability_number relay = 3
capability_number delivery = 4

unfoldable pub disposition_number : NetworkDisposition → ℕ
disposition_number NetworkDisposition.unspecified = 0
disposition_number queued = 1
disposition_number dropped_loss = 2
disposition_number dropped_partition = 3
disposition_number delivered = 4

pub record Point : Type 0 where
  pub x_mm : ℤ
  pub y_mm : ℤ

pub record Region : Type 0 where
  pub id : Text
  pub kind : RegionKind
  pub minimum : Point
  pub maximum : Point
  pub terrain_name : Text
  pub energy_multiplier_permille : ℕ
  pub closed : Bool

pub record ServiceLocation : Type 0 where
  pub id : Text
  pub kind : LocationKind
  pub position : Point
  pub radius_mm : ℤ
  pub charge_mj_per_tick : ℤ

pub record World : Type 0 where
  pub width_mm : ℤ
  pub height_mm : ℤ
  pub regions : List Region
  pub grid_cell_mm : ℤ
  pub map_version : ℕ
  pub locations : List ServiceLocation

pub record NetworkProfile : Type 0 where
  pub id : Text
  pub latency_ticks : ℕ
  pub jitter_ticks : ℕ
  pub packet_loss_permyriad : ℕ
  pub bandwidth_bytes_per_tick : ℕ
  pub reorder_permyriad : ℕ
  pub reorder_window_ticks : ℕ

pub record VehicleState : Type 0 where
  pub id : Text
  pub kind : Text
  pub position : Point
  pub velocity_x_mm_s : ℤ
  pub velocity_y_mm_s : ℤ
  pub max_speed_mm_s : ℤ
  pub energy_mj : ℤ
  pub payload_grams : ℤ
  pub capabilities : List Capability
  pub terrain_access : List Text
  pub active : Bool
  pub initial_energy_mj : ℤ
  pub energy_cost_mj_per_meter : ℤ
  pub return_location_id : Text
  pub energy_capacity_mj : ℤ

pub record TaskState : Type 0 where
  pub id : Text
  pub kind : Text
  pub target : Point
  pub required_capability : Capability
  pub payload_required_grams : ℤ
  pub deadline_tick : ℕ
  pub completion_radius_mm : ℤ
  pub assigned_agent_id : Text
  pub status : TaskStatus
  pub service_ticks : ℕ
  pub service_energy_mj_per_tick : ℤ
  pub progress_ticks : ℕ
  pub allocation_epoch : ℕ
  pub allocation_version : ℕ
  pub priority : ℕ
  pub allocation_score : ℤ
  pub bundle_position : ℕ

pub record AllocationClaim : Type 0 where
  pub epoch : ℕ
  pub version : ℕ
  pub task_id : Text
  pub agent_id : Text
  pub feasible : Bool
  pub distance_mm : ℤ

pub record NetworkMessage : Type 0 where
  pub sender_id : Text
  pub recipient_id : Text
  pub version : ℕ
  pub payload : Text

pub record NetworkOutcome : Type 0 where
  pub sequence : ℕ
  pub disposition : NetworkDisposition
  pub tick : ℕ
  pub message : NetworkMessage
  pub serialized_bytes : ℕ
  pub enqueue_tick : ℕ
  pub transmit_start_tick : ℕ
  pub transmit_end_tick : ℕ
  pub delivery_tick : ℕ
  pub jitter_ticks : ℤ
  pub reordered : Bool
  pub profile_id : Text
