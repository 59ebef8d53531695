-- ===== src/Core/Simulator/Motion.antt =====
-- core/src/simulator.cpp: the loop of `apply_actions` in which the vehicles move and recharge. A product
-- of two `std::int64_t` is taken to fit 64 bits.
use sentinel_public.Prelude.{
  ℕ, suc, Bool, true, false, not, ◌&&◌, ◌||◌, List, [], ◌∷◌, ◌++◌, Option, none, some, get_elem?,
  set, if◌then◌else◌, Except, ok, ◌>>=◌,
}
use sentinel_public.Prelude.Int.{ℤ, pos, ◌+ℤ◌, ◌-ℤ◌, ◌*ℤ◌, quot, abs, ltb_ℤ, leb_ℤ, eq_ℤ, min_ℤ}
use sentinel_public.Prelude.Text.{Text, is_empty}
use sentinel_public.Prelude.Word.{add64}
use sentinel_public.Protocol.Messages.{Point, ServiceLocation, NetworkMessage, NetworkOutcome}
use sentinel_public.Protocol.Actions.{
  BehaviorMode, idle, waiting, returning, AllocationState, AgentAction, Envelope, ActionBatch,
}
use sentinel_public.Planning.Geometry.{
  Coordinate, coordinate, segment_allowed, terrain_multiplier, contested_resource,
}
use sentinel_public.Planning.Energy.{motion_energy}
use sentinel_public.Core.Hash.{to_unsigned}
use sentinel_public.Core.Rng.{to_signed}
use sentinel_public.Core.Network.Step.{step, one_if}
use sentinel_public.Core.Simulator.State.{
  Services, Vehicle, Simulator, found, location, vehicle_state,
}
use sentinel_public.Core.Simulator.Counters.{record_energy_invariant}
use sentinel_public.Core.Simulator.Commits.{apply_commits, apply_rejections}
use sentinel_public.Core.Simulator.Failures.{apply_failure_detections}
use sentinel_public.Core.Simulator.Holds.{apply_reservations, has_reservation, occupied}

-- `std::clamp` between -limit and limit.
unfoldable pub axis_velocity : ℤ → ℤ → ℤ
unfolding ◌-ℤ◌
axis_velocity value limit =
    if ltb_ℤ value (pos 0 -ℤ limit)
    then pos 0 -ℤ limit
    else if ltb_ℤ limit value
    then limit
    else value

unfoldable pub inside : Point → ServiceLocation → Bool
unfolding abs ◌+ℤ◌ ◌-ℤ◌
inside point location =
    leb_ℤ (abs (point.x_mm -ℤ location.position.x_mm) +ℤ abs (point.y_mm -ℤ location.position.y_mm))
      location.radius_mm

unfoldable pub settle_mode : BehaviorMode → BehaviorMode
settle_mode BehaviorMode.unspecified = idle
settle_mode mode = mode

unfoldable pub is_waiting : BehaviorMode → Bool
is_waiting waiting = true
is_waiting _ = false

unfoldable pub is_returning : BehaviorMode → Bool
is_returning returning = true
is_returning _ = false

-- A cleared view.
abbrev pub no_view : AllocationState
no_view = record {
  epoch = 0;
  version = 0;
  sender_id = [];
  bids = [];
  winners = [];
  bundle_task_ids = [];
  map_version = 0;
  owners = [];
  winner_relays = [];
}

abbrev pub view_of : Option AllocationState → AllocationState
view_of none = no_view
view_of (some view) = view

abbrev pub stopped : Vehicle → Vehicle
stopped current = record current { velocity_x_mm_s = pos 0; velocity_y_mm_s = pos 0 }

-- The velocities that the vehicle's speed allows, and how far they take it in a step.
pub record Motion : Type 0 where
  pub velocity_x : ℤ
  pub velocity_y : ℤ
  pub delta_x : ℤ
  pub delta_y : ℤ

unfoldable pub limited : ℤ → ℤ → ℤ → ℤ
unfolding quot ◌*ℤ◌
limited velocity speed magnitude =
    if ltb_ℤ speed magnitude then quot (velocity *ℤ speed) magnitude else velocity

unfoldable pub motion_of : ℤ → ℕ → AgentAction → Motion
unfolding axis_velocity limited abs quot to_signed ◌+ℤ◌ ◌*ℤ◌
motion_of speed step_ms action =
    let velocity_x = axis_velocity action.velocity_x_mm_s speed in
    let velocity_y = axis_velocity action.velocity_y_mm_s speed in
    let magnitude = abs velocity_x +ℤ abs velocity_y in
    let limited_x = limited velocity_x speed magnitude in
    let limited_y = limited velocity_y speed magnitude in
    record {
      velocity_x = limited_x;
      velocity_y = limited_y;
      delta_x = quot (limited_x *ℤ to_signed step_ms) (pos 1000);
      delta_y = quot (limited_y *ℤ to_signed step_ms) (pos 1000);
    }

-- Whether the way leads through a chokepoint that the vehicle does not hold, or that is taken.
unfoldable pub reservation_blocked : Simulator → Vehicle → Motion → Option Text → Bool
unfolding has_reservation occupied
reservation_blocked s current m none = false
reservation_blocked s current m (some resource) =
    (not (eq_ℤ m.delta_x (pos 0)) || not (eq_ℤ m.delta_y (pos 0)))
    && (not (has_reservation s current.spec.id resource current.route_version)
        || occupied s resource current.spec.id)

-- The last branch: the vehicle pays for the way and is at its end.
unfoldable pub travel : Simulator → Vehicle → Motion → Coordinate → ℤ → ℤ → Simulator × Vehicle
unfolding record_energy_invariant to_unsigned ◌-ℤ◌
travel s current m to distance cost =
    let current' = record current {
      x_mm = to.x;
      y_mm = to.y;
      velocity_x_mm_s = m.velocity_x;
      velocity_y_mm_s = m.velocity_y;
      energy_mj = current.energy_mj -ℤ cost;
    } in
    let s' = record_energy_invariant s current' in
    (
      record s' {
        measures = record s'.measures {
          travel_distance_mm = add64 s'.measures.travel_distance_mm (to_unsigned distance);
          energy_consumed_mj = add64 s'.measures.energy_consumed_mj (to_unsigned cost);
        };
      },
      current',
    )

abbrev pub count_wait : Bool → Simulator → Simulator
count_wait b s = record s {
  measures = record s.measures { wait_ticks = add64 s.measures.wait_ticks (one_if b) };
}

-- The way is free: the vehicle goes it, if it may and can.
unfoldable pub drive_to : Simulator → Vehicle → Motion → Coordinate → Except (Simulator × Vehicle)
unfolding vehicle_state travel motion_energy abs ◌+ℤ◌
drive_to s current m to =
    let world = s.scenario.world in
    let from = coordinate current.x_mm current.y_mm in
    let state = vehicle_state current in
    let distance = abs m.delta_x +ℤ abs m.delta_y in
    if not (segment_allowed world state from to) then ok (s, stopped current) else do
      cost ← motion_energy state distance (terrain_multiplier world from to)
      if ltb_ℤ current.energy_mj cost
          then ok (s, stopped current)
          else ok (travel s current m to distance cost)

abbrev pub halted : Simulator → Vehicle → Simulator × Vehicle
halted s current = (
  count_wait (not (is_waiting current.behavior_mode)) s,
  record (stopped current) { behavior_mode = waiting },
)

-- Moving, for the vehicle in its new mode.
unfoldable pub drive : Simulator → Vehicle → AgentAction → Except (Simulator × Vehicle)
unfolding motion_of reservation_blocked is_waiting drive_to ◌+ℤ◌
drive s current action =
    let m = motion_of current.max_speed_mm_s s.scenario.step_ms action in
    let from = coordinate current.x_mm current.y_mm in
    let to = coordinate (current.x_mm +ℤ m.delta_x) (current.y_mm +ℤ m.delta_y) in
    if reservation_blocked s current m (contested_resource s.scenario.world from to)
    then ok (halted s current)
    else drive_to s current m to

-- A tick at a charging location that the vehicle is inside of.
unfoldable pub charge : Simulator → Vehicle → ServiceLocation → Simulator × Vehicle
unfolding inside record_energy_invariant ◌+ℤ◌
charge s current target =
    let current' = record current {
      energy_mj = min_ℤ current.energy_capacity_mj (current.energy_mj +ℤ target.charge_mj_per_tick);
    } in
    let s' = record_energy_invariant s current' in
    if not (inside (record { x_mm = current.x_mm; y_mm = current.y_mm }) target)
    then (s, current)
    else (
      record s' {
        measures = record s'.measures { recharge_ticks = add64 s'.measures.recharge_ticks 1 };
      },
      current',
    )

-- A standing vehicle may ask to charge.
abbrev pub asks_charge : AgentAction → Bool
asks_charge action =
    not (is_empty action.charge_location_id)
    && (eq_ℤ action.velocity_x_mm_s (pos 0) && eq_ℤ action.velocity_y_mm_s (pos 0))

unfoldable pub recharge : Simulator × Vehicle → AgentAction → Except (Simulator × Vehicle)
unfolding location charge
recharge r action =
    if not (asks_charge action)
    then ok r
    else do target ← location r.0 action.charge_location_id; ok (charge r.0 r.1 target)

-- What an active vehicle's action adds to the measures before it moves.
unfoldable pub count_modes : Simulator → BehaviorMode → AgentAction → Simulator
unfolding is_waiting is_returning
count_modes s mode action = record s {
  measures = record s.measures {
    wait_ticks = add64 s.measures.wait_ticks (one_if (is_waiting mode));
    return_ticks = add64 s.measures.return_ticks (one_if (is_returning mode));
    replan_count = add64 s.measures.replan_count (one_if action.replanned);
  };
  replanning_samples = s.replanning_samples ++ action.replanning_samples;
}

abbrev pub put_vehicle : Simulator → ℕ → Vehicle → Simulator
put_vehicle s index current = record s { vehicles = set s.vehicles index current }

abbrev pub in_mode : Vehicle → AgentAction → Vehicle
in_mode current action = record current { behavior_mode = settle_mode action.behavior_mode }

abbrev pub put_view : Simulator → ℕ → AgentAction → Simulator
put_view s index action = record s {
  allocation_views = set s.allocation_views index (view_of action.allocation_state);
}

-- An active vehicle's round: it moves and then recharges.
unfoldable pub move : Simulator → Vehicle → AgentAction → Except (Simulator × Vehicle)
unfolding count_modes drive recharge
move s current action = do
  moved ← drive (count_modes s current.behavior_mode action) current action
  recharge moved action

-- The round of the loop for the vehicle at an index: the new state and the messages that it sends.
unfoldable pub act : Simulator → ℕ → Envelope → Except (Simulator × List NetworkMessage)
unfolding settle_mode move
act s index envelope = do
  let action = envelope.action
  v ← found (get_elem? s.vehicles index)
  let current = in_mode v action
  let s' = put_view s index action
  if not v.active then ok (put_vehicle s' index (stopped current), []) else do
    done ← move s' current action
    ok (put_vehicle done.0 index done.1, action.outgoing_messages)

unfoldable pub act_all : Simulator → ℕ → List Envelope → Except (Simulator × List NetworkMessage)
unfolding act
act_all s index [] = ok (s, [])
act_all s index (e ∷ es) = do
  r ← act s index e
  rest ← act_all r.0 (suc index) es
  ok (rest.0, r.1 ++ rest.1)

-- The outcomes of the network are appended to those of the events.
unfoldable pub apply_actions :
    Services
    → Simulator
    → ActionBatch
    → List NetworkOutcome
    → Bool
    → Except (Simulator × List NetworkOutcome)
unfolding apply_failure_detections apply_commits apply_rejections apply_reservations act_all step
apply_actions env s actions network_outcomes coordination_fence = do
  s1 ← apply_failure_detections s actions
  s2 ← apply_commits env s1 actions coordination_fence
  s3 ← apply_rejections s2 actions
  s4 ← apply_reservations s3 actions coordination_fence
  r ← act_all s4 0 actions.actions
  n ← step env.envelope_size r.0.network r.0.tick r.1
  ok (
    record r.0 { network = n.0; delivered_messages = n.1.delivered },
    network_outcomes ++ n.1.outcomes,
  )
