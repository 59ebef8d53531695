-- ===== src/Core/Simulator/Tape.antt =====
-- `apply_events` of core/src/simulator.cpp: the scenario's events of a tick, drawn anew or replayed.
pub mod Replay
use sentinel_public.Prelude.{
  ℕ, ◌+◌, Bool, true, false, not, ◌&&◌, ◌||◌, List, [], ◌∷◌, ◌++◌, map, keep, Option, none, some,
  drop, ◌==◌, bool_eq, if◌then◌else◌, Except, ok, throw, throw_if, ◌>>=◌, ◌>>◌, runtime_error,
}
use sentinel_public.Prelude.Int.{ℤ, pos, ◌+ℤ◌, ◌*ℤ◌, quot, eq_ℤ, min_ℤ, max_ℤ}
use sentinel_public.Prelude.Text.{Text, text_eq, is_empty}
use sentinel_public.Prelude.Keyed.{find_key, put_key}
use sentinel_public.Prelude.Word.{add64}
use sentinel_public.Protocol.Messages.{NetworkOutcome}
use sentinel_public.Protocol.Actions.{
  TapeEventKind, release_task, disable_vehicle, energy_delta, set_network_profile,
  set_region_closed, set_link_blocked, set_speed_permille, set_endurance_permille, TapeEvent,
  AppliedEvent, TaskReassignment,
}
use sentinel_public.Planning.Reservation.{release_agent, release_route, release_map}
use sentinel_public.Core.Rng.{RngStreams, stream, rng_at, draw_from}
use sentinel_public.Core.Network.State.{set_profile}
use sentinel_public.Core.Network.Links.{link_blocked, set_link_blocked as cut_link}
use sentinel_public.Core.Simulator.State.{
  Services, Vehicle, FailureMonitor, Task, Simulator, vehicle_id, task_id, found, vehicle, task,
  network_profile, begin_convergence, next_epoch,
}
use sentinel_public.Core.Simulator.Counters.{record_energy_invariant}
use sentinel_public.Core.Simulator.Failures.{is_orphan_of}
use sentinel_public.Core.Simulator.Motion.{stopped}
use sentinel_public.Core.Simulator.Events.{
  fresh, is_random, begin_event, release, monitors_of, samples_of, disable, resolve, update_vehicle,
  free_route, change_vehicle, change_profile, close_region, block_link,
}

-- What an event makes of the state, the event as it is recorded, and the network's outcomes.
pub record Applied : Type 0 where
  pub simulator : Simulator
  pub event : AppliedEvent
  pub outcomes : List NetworkOutcome

abbrev pub applied : AppliedEvent → List NetworkOutcome → Simulator → Except Applied
applied event outcomes s = ok (record { simulator = s; event = event; outcomes = outcomes })

unfoldable pub apply_random :
    Simulator → TapeEventKind → TapeEvent → Option AppliedEvent → Except Applied
unfolding resolve vehicle change_vehicle
apply_random s kind source recorded = do
  r ← resolve s.rng_streams source recorded
  target ← vehicle s source.target_id
  applied r.1 [] (change_vehicle (record s { rng_streams = r.2 }) kind target r.0)

unfoldable pub apply_kind :
    Simulator → TapeEventKind → TapeEvent → Option AppliedEvent → AppliedEvent → Except Applied
unfolding release disable apply_random change_profile close_region block_link
apply_kind s release_task source recorded event = release s source >>= applied event []
apply_kind s disable_vehicle source recorded event = disable s source >>= applied event []
apply_kind s energy_delta source recorded event = apply_random s energy_delta source recorded
apply_kind s set_speed_permille source recorded event =
    apply_random s set_speed_permille source recorded
apply_kind s set_endurance_permille source recorded event =
    apply_random s set_endurance_permille source recorded
apply_kind s set_network_profile source recorded event =
    change_profile s source >>= applied event []
apply_kind s set_region_closed source recorded event = close_region s source >>= applied event []
apply_kind s set_link_blocked source recorded event =
    block_link s source >>= λ r. applied event r.1 r.0
apply_kind s TapeEventKind.unspecified source recorded event = applied event [] s

-- An event that draws nothing has no drawn value on record.
abbrev pub is_unresolved : AppliedEvent → Bool
is_unresolved event = not (
    not (eq_ℤ event.resolved_value (pos 0))
    || (not (is_empty event.rng_stream) || not (event.rng_state_after == 0)))

abbrev pub is_given {ℓ} : {A : Type ℓ} → Option A → Bool
is_given none = false
is_given (some a) = true

unfoldable pub apply_event : Services → Simulator → TapeEvent → Option AppliedEvent → Except Applied
unfolding begin_event apply_kind is_random
apply_event env s source recorded = do
  event ← begin_event env source recorded
  r ← apply_kind s source.kind source recorded event
  throw_if (is_given recorded && (not (is_random source.kind) && not (is_unresolved r.event)))
      runtime_error
  ok (record r { simulator = record r.simulator { next_event = r.simulator.next_event + 1 } })

-- The recorded events that are left: the next one, with `throw` where none is, and the others.
abbrev pub next_recorded :
    Option (List AppliedEvent) → Except (Option AppliedEvent × Option (List AppliedEvent))
next_recorded none = ok (none, none)
next_recorded (some []) = throw runtime_error
next_recorded (some (e ∷ es)) = ok (some e, some es)

abbrev pub none_left : Option (List AppliedEvent) → Except (Unit {0})
none_left none = ok tt
none_left (some []) = ok tt
none_left (some (e ∷ es)) = throw runtime_error

pub record Tape : Type 0 where
  pub simulator : Simulator
  pub events : List AppliedEvent
  pub outcomes : List NetworkOutcome

abbrev pub stop_tape : Simulator → Option (List AppliedEvent) → Except Tape
stop_tape s recorded = do
  none_left recorded
  ok (record { simulator = s; events = []; outcomes = [] })

-- The loop, over the events that are left.
unfoldable pub apply_tape :
    Services → Simulator → List TapeEvent → Option (List AppliedEvent) → Except Tape
unfolding apply_event
apply_tape env s [] recorded = stop_tape s recorded
apply_tape env s (source ∷ sources) recorded =
    if not (source.tick == s.tick) then stop_tape s recorded else do
      n ← next_recorded recorded
      r ← apply_event env s source n.0
      rest ← apply_tape env r.simulator sources n.1
      ok (record {
        simulator = rest.simulator;
        events = r.event ∷ rest.events;
        outcomes = r.outcomes ++ rest.outcomes;
      })

unfoldable pub apply_events : Services → Simulator → Option (List AppliedEvent) → Except Tape
unfolding apply_tape
apply_events env s recorded = apply_tape env s (drop s.next_event s.scenario.events) recorded
