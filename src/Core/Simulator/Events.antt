-- ===== src/Core/Simulator/Events.antt =====
-- core/src/simulator.cpp: what each kind of event on the tape does, in `Simulator::apply_events`.
use sentinel_public.Prelude.{
  ℕ, Bool, true, false, not, ◌&&◌, ◌||◌, List, [], ◌++◌, map, keep, Option, none, some, ◌==◌,
  bool_eq, if◌then◌else◌, Except, ok, throw, throw_if, ◌>>=◌, ◌>>◌, runtime_error,
}
use sentinel_public.Prelude.Int.{ℤ, pos, ◌+ℤ◌, ◌*ℤ◌, quot, eq_ℤ, min_ℤ, max_ℤ}
use sentinel_public.Prelude.Text.{Text, text_eq, is_empty}
use sentinel_public.Prelude.Keyed.{find_key, put_key}
use sentinel_public.Prelude.Word.{add64}
use sentinel_public.Protocol.Messages.{NetworkOutcome}
use sentinel_public.Protocol.Actions.{
  TapeEventKind, energy_delta, set_speed_permille, set_endurance_permille, TapeEvent, AppliedEvent,
  TaskReassignment,
}
use sentinel_public.Planning.Reservation.{release_agent, release_route, release_map}
use sentinel_public.Core.Rng.{RngStreams, stream, rng_at, draw_from}
use sentinel_public.Core.Network.State.{set_profile}
use sentinel_public.Core.Network.Links.{link_blocked, set_link_blocked as cut_link}
use sentinel_public.Core.Simulator.State.{
  Services, Vehicle, FailureMonitor, Task, Simulator, vehicle_id, task_id, found, vehicle, task,
  network_profile, begin_convergence, next_epoch,
}
use sentinel_public.Core.Simulator.Counters.{record_energy_invariant}
use sentinel_public.Core.Simulator.Failures.{is_orphan_of}
use sentinel_public.Core.Simulator.Motion.{stopped}

abbrev pub fresh : TapeEvent → AppliedEvent
fresh source = record {
  source = source;
  resolved_value = pos 0;
  rng_stream = [];
  rng_state_after = 0;
}

unfoldable pub is_random : TapeEventKind → Bool
is_random energy_delta = true
is_random set_speed_permille = true
is_random set_endurance_permille = true
is_random _ = false

-- The event on record that stands for the source, or a new one.
unfoldable pub begin_event : Services → TapeEvent → Option AppliedEvent → Except AppliedEvent
begin_event env source none = ok (fresh source)
begin_event env source (some event) =
    if text_eq (env.event_bytes event.source) (env.event_bytes source)
    then ok event
    else throw runtime_error

unfoldable pub release : Simulator → TapeEvent → Except Simulator
unfolding task put_key
release s source = do
  target ← task s source.target_id
  let s' = record s { tasks = put_key task_id s.tasks (record target { released = true }) }
  if target.released
      then ok s
      else ok (if is_empty target.assigned_agent_id then next_epoch s' else s')

-- One monitor for every other active vehicle.
unfoldable pub monitors_of : Text → ℕ → List Vehicle → List FailureMonitor
monitors_of failed tick vehicles =
    map
      (λ detector. record {
        detector_id = detector.spec.id;
        failed_id = failed;
        failure_tick = tick;
        missed_ticks = 0;
        detection_tick = none;
      })
      (keep (λ detector. detector.active && not (text_eq detector.spec.id failed)) vehicles)

-- One sample for every open task that the failed vehicle had.
unfoldable pub samples_of : Text → ℕ → List Task → List TaskReassignment
samples_of failed tick tasks =
    map
      (λ current. record {
        task_id = current.spec.id;
        failed_agent_id = failed;
        detector_agent_id = [];
        failure_tick = tick;
        detection_tick = 0;
        previous_epoch = current.allocation_epoch;
        previous_version = current.allocation_version;
        new_agent_id = [];
        new_epoch = 0;
        new_version = 0;
        commit_tick = 0;
        complete = false;
      })
      (keep (is_orphan_of failed) tasks)

unfoldable pub disable : Simulator → TapeEvent → Except Simulator
unfolding vehicle put_key release_agent monitors_of samples_of
disable s source = do
  target ← vehicle s source.target_id
  let id = target.spec.id
  let vehicles =
      put_key vehicle_id s.vehicles
        (record (stopped target) { active = false; failure_tick = some s.tick })
  if not target.active
      then ok s
      else ok (record s {
        vehicles = vehicles;
        reservations = release_agent s.reservations id;
        failure_monitors = s.failure_monitors ++ monitors_of id s.tick vehicles;
        task_reassignments = s.task_reassignments ++ samples_of id s.tick s.tasks;
      })

-- The drawn value, the event with it and the streams after the draw.
unfoldable pub resolve :
    RngStreams → TapeEvent → Option AppliedEvent → Except (ℤ × AppliedEvent × RngStreams)
unfolding draw_from stream rng_at
resolve streams source recorded = do
  r ← draw_from streams source.rng_stream source.value_min source.value_max
  let after = stream r.1 source.rng_stream
  let state = rng_at after.0.entries after.1 0
  elim recorded [
    | none ↦ ok (
      r.0,
      record (fresh source) {
        resolved_value = r.0;
        rng_stream = source.rng_stream;
        rng_state_after = state;
      },
      r.1,
    )
    | some event ↦ do
      throw_if
          (not (text_eq event.rng_stream source.rng_stream)
            || (not (eq_ℤ event.resolved_value r.0) || not (event.rng_state_after == state)))
          runtime_error
      ok (event.resolved_value, event, r.1)
  ]

unfoldable pub update_vehicle : Simulator → Vehicle → Simulator
unfolding put_key
update_vehicle s target = record s { vehicles = put_key vehicle_id s.vehicles target }

abbrev pub free_route : Simulator → Vehicle → Simulator
free_route s target = record s {
  reservations = release_route s.reservations target.spec.id target.route_version;
}

-- The drawn value, applied to the target.
unfoldable pub change_vehicle : Simulator → TapeEventKind → Vehicle → ℤ → Simulator
unfolding update_vehicle record_energy_invariant release_route begin_convergence quot ◌+ℤ◌ ◌*ℤ◌
change_vehicle s energy_delta target value =
    let target' = record target { energy_mj = max_ℤ (pos 0) (target.energy_mj +ℤ value) } in
    record_energy_invariant (update_vehicle s target') target'
change_vehicle s set_speed_permille target value =
    let target' = record target {
      max_speed_mm_s = max_ℤ (pos 1) (quot (target.spec.max_speed_mm_s *ℤ value) (pos 1000));
    } in
    next_epoch (free_route (update_vehicle s target') target')
change_vehicle s _ target value =
    let capacity = max_ℤ (pos 1) (quot (target.spec.initial_energy_mj *ℤ value) (pos 1000)) in
    let target' = record target {
      energy_capacity_mj = capacity;
      energy_mj = min_ℤ target.energy_mj capacity;
    } in
    next_epoch (free_route (record_energy_invariant (update_vehicle s target') target') target')

unfoldable pub change_profile : Simulator → TapeEvent → Except Simulator
unfolding network_profile set_profile
change_profile s source = do
  network ← set_profile s.network (network_profile s source.text_value)
  ok (record s { network_profile = source.text_value; network = network })

unfoldable pub close_region : Simulator → TapeEvent → Except Simulator
unfolding find_key put_key release_map begin_convergence
close_region s source = do
  let world = s.scenario.world
  region ← found (find_key (λ r. r.id) world.regions source.target_id)
  let version = add64 world.map_version 1
  let world' = record world {
    regions = put_key (λ r. r.id) world.regions (record region { closed = source.bool_value });
    map_version = version;
  }
  if bool_eq region.closed source.bool_value
      then ok s
      else ok (
          begin_convergence (record s {
            scenario = record s.scenario { world = world' };
            reservations = release_map s.reservations version;
          }))

unfoldable pub block_link : Simulator → TapeEvent → Except (Simulator × List NetworkOutcome)
unfolding link_blocked cut_link begin_convergence
block_link s source = do
  was_blocked ← link_blocked s.network source.target_id source.text_value
  r ← cut_link s.network source.target_id source.text_value source.bool_value s.tick
  let s' = record s { network = r.0 }
  ok (if bool_eq was_blocked source.bool_value then s' else begin_convergence s', r.1)
