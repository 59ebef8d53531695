-- ===== src/Core/Simulator/Safe/Holds.antt =====
-- Proposals of reservations keep the simulator (core/src/simulator.cpp) safe: what is committed stays
-- apart, so no overlap is ever counted.
use sentinel_public.Prelude.{
  ℕ, subst, Bool, true, false, if◌then◌else◌, for_each, for_each-Ensures, Ensures, Ensures-bind,
  Ensures-if, Ensures-elim, ◌==◌, not,
}
use sentinel_public.Prelude.Text.{Text}
use sentinel_public.Protocol.Actions.{SpaceTimeReservation, Envelope, ActionBatch}
use sentinel_public.Planning.Reservation.{
  ReservationTable, ReservationResult, reserve, after_reserve, serve, releases_before,
  releases_agent, releases_route, releases_map, release_before, release_agent, release_route,
  release_map,
}
use sentinel_public.Planning.Reservation.Invariant.{IsTable, reserve-IsTable, serve-IsTable}
use sentinel_public.Core.Simulator.State.{Simulator, vehicle}
use sentinel_public.Core.Simulator.Counters.{record_reservation_invariant}
use sentinel_public.Core.Simulator.Holds.{
  change_route, is_committed, reservation_of, enter_reservation, apply_reservation, apply_proposals,
  apply_reservations,
}
use sentinel_public.Core.Simulator.Safe.{
  IsSafe, put_table-IsSafe, put_vehicle-IsSafe, record_reservation-IsSafe, vehicle-IsFit,
}

pub release_route-IsTable :
    (t : ReservationTable) (agent : Text) (version : ℕ)
    → IsTable t
    → IsTable (release_route t agent version)
unfolding serve
release_route-IsTable t agent version = serve-IsTable t (releases_route agent version)

pub release_agent-IsTable :
    (t : ReservationTable) (agent : Text) → IsTable t → IsTable (release_agent t agent)
unfolding serve
release_agent-IsTable t agent = serve-IsTable t (releases_agent agent)

pub release_map-IsTable :
    (t : ReservationTable) (version : ℕ) → IsTable t → IsTable (release_map t version)
unfolding serve
release_map-IsTable t version = serve-IsTable t (releases_map version)

release_before-IsTable :
    (t : ReservationTable) (tick : ℕ) → IsTable t → IsTable (release_before t tick)
unfolding serve
release_before-IsTable t tick = serve-IsTable t (releases_before tick)

change_route-IsSafe : (s : Simulator) (e : Envelope) → IsSafe s → Ensures IsSafe (change_route s e)
unfolding change_route
change_route-IsSafe s envelope h =
    Ensures-bind IsSafe (vehicle s envelope.sender_id) _ (λ current e.
      Ensures-if IsSafe (envelope.action.route_version == current.route_version) _ _ (λ _. h)
        (λ _.
          put_table-IsSafe _
            (release_route-IsTable s.reservations current.spec.id current.route_version h.table)
            (put_vehicle-IsSafe (record current { route_version = envelope.action.route_version })
              (vehicle-IsFit s envelope.sender_id h e) h)))

-- A reservation that is entered leaves the reservations apart.
enter_reservation-IsSafe :
    (s : Simulator) (p : SpaceTimeReservation) → IsSafe s → Ensures IsSafe (enter_reservation s p)
unfolding enter_reservation
enter_reservation-IsSafe s p h =
    Ensures-bind IsSafe (reserve s.reservations (reservation_of p)) _ (λ r e. entered r (
      subst (λ m. IsTable (after_reserve s.reservations m)) e
        (reserve-IsTable s.reservations (reservation_of p) h.table)))
  where
    counted :
        (b : Bool) (s' : Simulator)
        → IsSafe s'
        → IsSafe (if b then record_reservation_invariant s' else s')
    counted true s' k = record_reservation-IsSafe s' k
    counted false s' k = k

    entered :
        (r : ReservationTable × ReservationResult)
        → IsTable r.0
        → IsSafe (
            if is_committed r.1
            then record_reservation_invariant (record s { reservations = r.0 })
            else record s { reservations = r.0 })
    entered r k =
        counted (is_committed r.1) (record s { reservations = r.0 }) (put_table-IsSafe r.0 k h)

apply_reservation-IsSafe :
    (sender : Text) (s : Simulator) (p : SpaceTimeReservation)
    → IsSafe s
    → Ensures IsSafe (apply_reservation sender s p)
unfolding apply_reservation
apply_reservation-IsSafe sender s p h =
    Ensures-if IsSafe (not (p.map_version == s.scenario.world.map_version)) _ _ (λ _. h)
      (λ _. Ensures-bind IsSafe (vehicle s sender) _ (λ current e.
        Ensures-if IsSafe (not (p.route_version == current.route_version)) _ _ (λ _. h)
          (λ _. enter_reservation-IsSafe s p h)))

apply_proposals-IsSafe :
    (s : Simulator) (e : Envelope) → IsSafe s → Ensures IsSafe (apply_proposals s e)
unfolding apply_proposals
apply_proposals-IsSafe s envelope h =
    Ensures-bind IsSafe (vehicle s envelope.sender_id) _ (λ sender e.
      Ensures-if IsSafe (not sender.active) _ _ (λ _. h)
        (λ _.
          for_each-Ensures IsSafe (apply_reservation envelope.sender_id)
            (apply_reservation-IsSafe envelope.sender_id) envelope.action.reservation_proposals s
            h))

pub apply_reservations-IsSafe :
    (s : Simulator) (actions : ActionBatch) (fence : Bool)
    → IsSafe s
    → Ensures IsSafe (apply_reservations s actions fence)
unfolding apply_reservations
apply_reservations-IsSafe s actions fence h =
    let free = record s { reservations = release_before s.reservations s.tick } in
    let rerouted =
      for_each-Ensures IsSafe change_route change_route-IsSafe actions.actions free
        (put_table-IsSafe _ (release_before-IsTable s.reservations s.tick h.table) h) in
    Ensures-bind IsSafe (for_each change_route free actions.actions) _ (λ s' e.
      let k = Ensures-elim IsSafe (for_each change_route free actions.actions) rerouted e in
      Ensures-if IsSafe fence _ _ (λ _. k)
        (λ _. for_each-Ensures IsSafe apply_proposals apply_proposals-IsSafe actions.actions s' k))
