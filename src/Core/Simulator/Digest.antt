-- ===== src/Core/Simulator/Digest.antt =====
-- `compute_state_hash` of core/src/simulator.cpp: what the hash of a tick covers.
use sentinel_public.Prelude.{ℕ, true, false, List, [], ◌∷◌, Option, none, some, length}
use sentinel_public.Prelude.Int.{ℤ}
use sentinel_public.Prelude.Text.{Text}
use sentinel_public.Protocol.Messages.{
  TaskStatus, pending, completed, missed, Region, NetworkMessage,
}
use sentinel_public.Protocol.Actions.{
  BehaviorMode, idle, waiting, navigating, executing, charging, returning, AllocationConvergence,
}
use sentinel_public.Planning.Reservation.{Reservation}
use sentinel_public.Core.Hash.{
  HashBuilder, new_hash, unsigned_integer, signed_integer, boolean, text, finish, to_unsigned,
}
use sentinel_public.Core.Rng.{states}
use sentinel_public.Core.Network.Digest.{numbers, append_hash}
use sentinel_public.Core.Simulator.State.{
  Services, Vehicle, FailureMonitor, Task, Convergence, Measures, Simulator,
}

unfoldable pub hash_each {ℓ} :
    {A : Type ℓ} → (HashBuilder → A → HashBuilder) → HashBuilder → List A → HashBuilder
hash_each append hash [] = hash
hash_each append hash (x ∷ xs) = hash_each append (append hash x) xs

-- Several calls of `signed_integer`.
unfoldable pub integers : HashBuilder → List ℤ → HashBuilder
unfolding hash_each signed_integer
integers = hash_each signed_integer

-- The values of the enumerators, as `std::uint64_t`.
unfoldable pub status_number : TaskStatus → ℕ
status_number TaskStatus.unspecified = 0
status_number pending = 1
status_number completed = 2
status_number missed = 3

unfoldable pub mode_number : BehaviorMode → ℕ
unfolding to_unsigned
mode_number BehaviorMode.unspecified = 0
mode_number idle = 1
mode_number waiting = 2
mode_number navigating = 3
mode_number executing = 4
mode_number charging = 5
mode_number returning = 6
mode_number (BehaviorMode.unrecognized n) = to_unsigned n

unfoldable pub hash_region : HashBuilder → Region → HashBuilder
unfolding text boolean
hash_region hash region = boolean (text hash region.id) region.closed

-- `has_value()` and `value_or(0)`.
unfoldable pub hash_tick : HashBuilder → Option ℕ → HashBuilder
unfolding boolean unsigned_integer
hash_tick hash none = unsigned_integer (boolean hash false) 0
hash_tick hash (some tick) = unsigned_integer (boolean hash true) tick

unfoldable pub hash_vehicle : HashBuilder → Vehicle → HashBuilder
unfolding text integers boolean hash_tick unsigned_integer mode_number
hash_vehicle hash v =
    let named = text (text hash v.spec.id) v.spec.kind in
    let measured = integers named (
      v.x_mm ∷ v.y_mm ∷ v.velocity_x_mm_s ∷ v.velocity_y_mm_s ∷ v.energy_mj ∷ v.energy_capacity_mj
      ∷ v.max_speed_mm_s ∷ v.payload_grams ∷ []) in
    let failed = hash_tick (boolean measured v.active) v.failure_tick in
    numbers (boolean failed v.failure_announced)
      (mode_number v.behavior_mode ∷ v.route_version ∷ [])

unfoldable pub hash_task : HashBuilder → Task → HashBuilder
unfolding text boolean unsigned_integer status_number signed_integer numbers
hash_task hash t =
    let status =
      unsigned_integer (boolean (text hash t.spec.id) t.released) (status_number t.status) in
    let owned =
      numbers (text status t.assigned_agent_id) (t.allocation_epoch ∷ t.allocation_version ∷ []) in
    numbers (signed_integer owned t.allocation_score)
      (t.bundle_position ∷ t.progress_ticks ∷ t.completion_tick ∷ [])

unfoldable pub hash_reservation : HashBuilder → Reservation → HashBuilder
unfolding text numbers
hash_reservation hash r =
    numbers (text (text hash r.resource_id) r.agent_id)
      (r.start_tick ∷ r.end_tick ∷ r.version ∷ r.route_version ∷ r.map_version ∷ [])

-- A count and what is counted.
unfoldable pub hash_counted {ℓ} :
    {A : Type ℓ} → (HashBuilder → A → HashBuilder) → HashBuilder → List A → HashBuilder
unfolding hash_each unsigned_integer
hash_counted append hash xs = hash_each append (unsigned_integer hash (length xs)) xs

unfoldable pub hash_convergence : HashBuilder → Convergence → HashBuilder
unfolding boolean numbers text
hash_convergence hash c =
    text (numbers (boolean hash c.is_open) (c.start_tick ∷ c.candidate_tick ∷ c.stable_ticks ∷ []))
      c.signature

unfoldable pub hash_sample : HashBuilder → AllocationConvergence → HashBuilder
unfolding boolean numbers
hash_sample hash sample =
    boolean (numbers hash (sample.epoch ∷ sample.start_tick ∷ sample.end_tick ∷ [])) sample.complete

unfoldable pub hash_monitor : HashBuilder → FailureMonitor → HashBuilder
unfolding text numbers hash_tick
hash_monitor hash m =
    hash_tick
      (numbers (text (text hash m.detector_id) m.failed_id) (m.failure_tick ∷ m.missed_ticks ∷ []))
      m.detection_tick

unfoldable pub hash_stream : HashBuilder → Text × ℕ → HashBuilder
unfolding text unsigned_integer
hash_stream hash stream = unsigned_integer (text hash stream.0) stream.1

unfoldable pub hash_message : HashBuilder → NetworkMessage → HashBuilder
unfolding text unsigned_integer
hash_message hash m =
    text (unsigned_integer (text (text hash m.sender_id) m.recipient_id) m.version) m.payload

abbrev pub measure_numbers : Measures → List ℕ
measure_numbers m =
    m.wait_ticks ∷ m.replan_count ∷ m.recharge_ticks ∷ m.return_ticks ∷ m.travel_distance_mm
    ∷ m.energy_consumed_mj ∷ m.rejected_commits ∷ []

-- The world, the vehicles and the tasks.
unfoldable pub hash_world : Simulator → HashBuilder
unfolding unsigned_integer text numbers hash_each hash_region hash_vehicle hash_task
hash_world s =
    let header =
      numbers (text (unsigned_integer new_hash s.tick) s.network_profile)
        (s.allocation_epoch ∷ s.scenario.world.map_version ∷ []) in
    hash_each hash_task
      (hash_each hash_vehicle (hash_each hash_region header s.scenario.world.regions) s.vehicles)
      s.tasks

-- The measures, the reservations and the network.
unfoldable pub hash_traffic : Services → Simulator → HashBuilder → HashBuilder
unfolding numbers unsigned_integer hash_counted hash_reservation append_hash
hash_traffic env s hash =
    let measured =
      unsigned_integer (numbers hash (measure_numbers s.measures)) s.reservations.conflicts in
    append_hash env.message_bytes
      (hash_counted hash_reservation
        (hash_counted hash_reservation measured s.reservations.committed) s.reservations.seen)
      s.network

abbrev pub by_bytes {ℓ} : {A : Type ℓ} → (A → Text) → HashBuilder → A → HashBuilder
by_bytes bytes hash x = text hash (bytes x)

-- The agents' views and the records of the run.
unfoldable pub hash_records : Services → Simulator → HashBuilder → HashBuilder
unfolding hash_convergence hash_counted hash_sample hash_monitor text
hash_records env s hash =
    let views =
      hash_counted (by_bytes env.view_bytes) (hash_convergence hash s.convergence)
        s.allocation_views in
    let monitors =
      hash_counted hash_monitor (hash_counted hash_sample views s.allocation_convergence)
        s.failure_monitors in
    hash_counted (by_bytes env.sample_bytes)
      (hash_counted (by_bytes env.reassignment_bytes)
        (hash_counted (by_bytes env.detection_bytes) monitors s.failure_detections)
        s.task_reassignments)
      s.replanning_samples

unfoldable pub compute_state_hash : Services → Simulator → Text
unfolding hash_world hash_traffic hash_records hash_each hash_stream hash_message hash_counted
    finish states
compute_state_hash env s =
    let records = hash_records env s (hash_traffic env s (hash_world s)) in
    finish (
      hash_counted (by_bytes env.outcome_bytes)
        (hash_each hash_message (hash_each hash_stream records (states s.rng_streams))
          s.delivered_messages)
        s.network_outcomes)
