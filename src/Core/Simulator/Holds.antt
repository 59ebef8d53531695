-- ===== src/Core/Simulator/Holds.antt =====
-- core/src/simulator.cpp: the reservations of chokepoints that the agents propose and hold.
use sentinel_public.Prelude.{
  ℕ, Bool, true, false, not, ◌&&◌, ◌||◌, Option, none, some, any, ltb, leb, ◌==◌, if◌then◌else◌,
  Except, ok, ◌>>=◌, for_each,
}
use sentinel_public.Prelude.Text.{Text, text_eq}
use sentinel_public.Prelude.Keyed.{find_key, put_key}
use sentinel_public.Protocol.Messages.{Region}
use sentinel_public.Protocol.Actions.{SpaceTimeReservation, Envelope, ActionBatch}
use sentinel_public.Planning.Geometry.{coordinate, contested_resource, is_chokepoint}
use sentinel_public.Planning.Reservation.{
  Reservation, ReservationResult, committed, reserve, release_before, release_route,
}
use sentinel_public.Core.Simulator.State.{Simulator, vehicle_id, vehicle}
use sentinel_public.Core.Simulator.Counters.{record_reservation_invariant}

-- `reservation` and `copy_reservation`.
unfoldable pub reservation_of : SpaceTimeReservation → Reservation
reservation_of value = record {
  resource_id = value.resource_id;
  agent_id = value.agent_id;
  start_tick = value.start_tick;
  end_tick = value.end_tick;
  version = value.version;
  route_version = value.route_version;
  map_version = value.map_version;
}

unfoldable pub copy_reservation : Reservation → SpaceTimeReservation
copy_reservation source = record {
  resource_id = source.resource_id;
  agent_id = source.agent_id;
  start_tick = source.start_tick;
  end_tick = source.end_tick;
  version = source.version;
  route_version = source.route_version;
  map_version = source.map_version;
}

abbrev pub is_free_chokepoint : Option Region → Bool
is_free_chokepoint none = false
is_free_chokepoint (some region) = is_chokepoint region.kind && not region.closed

unfoldable pub valid_reservation : Simulator → SpaceTimeReservation → Envelope → Bool
unfolding find_key is_chokepoint
valid_reservation s proposal envelope =
    if not (text_eq proposal.agent_id envelope.sender_id)
      || (proposal.version == 0
          || (proposal.route_version == 0
              || (not (proposal.route_version == envelope.action.route_version)
                  || (not (proposal.map_version == s.scenario.world.map_version)
                      || (leb proposal.start_tick s.tick
                          || ltb proposal.end_tick proposal.start_tick)))))
    then false
    else is_free_chokepoint (find_key (λ r. r.id) s.scenario.world.regions proposal.resource_id)

-- The first loop of `apply_reservations`: a new route frees what the old one held.
unfoldable pub change_route : Simulator → Envelope → Except Simulator
unfolding vehicle put_key release_route
change_route s envelope = do
  current ← vehicle s envelope.sender_id
  let next_route = envelope.action.route_version
  if next_route == current.route_version
      then ok s
      else ok (record s {
        reservations = release_route s.reservations current.spec.id current.route_version;
        vehicles = put_key vehicle_id s.vehicles (record current { route_version = next_route });
      })

abbrev pub is_committed : ReservationResult → Bool
is_committed committed = true
is_committed _ = false

unfoldable pub enter_reservation : Simulator → SpaceTimeReservation → Except Simulator
unfolding reserve reservation_of record_reservation_invariant
enter_reservation s proposal = do
  r ← reserve s.reservations (reservation_of proposal)
  let s' = record s { reservations = r.0 }
  ok (if is_committed r.1 then record_reservation_invariant s' else s')

unfoldable pub apply_reservation : Text → Simulator → SpaceTimeReservation → Except Simulator
unfolding vehicle enter_reservation
apply_reservation sender s proposal =
    if not (proposal.map_version == s.scenario.world.map_version) then ok s else do
      current ← vehicle s sender
      if not (proposal.route_version == current.route_version)
          then ok s
          else enter_reservation s proposal

unfoldable pub apply_proposals : Simulator → Envelope → Except Simulator
unfolding vehicle apply_reservation
apply_proposals s envelope = do
  sender ← vehicle s envelope.sender_id
  if not sender.active
      then ok s
      else for_each (apply_reservation envelope.sender_id) s envelope.action.reservation_proposals

unfoldable pub apply_reservations : Simulator → ActionBatch → Bool → Except Simulator
unfolding release_before change_route apply_proposals
apply_reservations s actions coordination_fence = do
  s' ←
      for_each change_route (record s { reservations = release_before s.reservations s.tick })
        actions.actions
  if coordination_fence then ok s' else for_each apply_proposals s' actions.actions

unfoldable pub has_reservation : Simulator → Text → Text → ℕ → Bool
has_reservation s agent_id resource_id route_version =
    any
      (λ c.
        text_eq c.agent_id agent_id
        && (text_eq c.resource_id resource_id
            && (leb c.start_tick s.tick
                && (leb s.tick c.end_tick
                    && (c.route_version == route_version
                        && c.map_version == s.scenario.world.map_version)))))
      s.reservations.committed

abbrev pub is_resource : Text → Option Text → Bool
is_resource id none = false
is_resource id (some resource) = text_eq resource id

-- Whether an active vehicle other than the agent's stands on the resource.
unfoldable pub occupied : Simulator → Text → Text → Bool
unfolding contested_resource
occupied s resource_id agent_id =
    any
      (λ current.
        not (not current.active || text_eq current.spec.id agent_id)
        && is_resource resource_id (
            contested_resource s.scenario.world (coordinate current.x_mm current.y_mm)
              (coordinate current.x_mm current.y_mm)))
      s.vehicles
