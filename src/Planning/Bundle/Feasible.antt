-- ===== src/Planning/Bundle/Feasible.antt =====
-- A route that `feasible_route` accepts leaves time for the service and energy for the reserve.
use sentinel_public.Prelude.{
  ℕ, ◌+◌, ◌-◌, ◌≤◌, ◌≡◌, ap, subst, Bool, true, false, not, ◌||◌, Option, none, some, ltb,
  if◌then◌else◌, Bool-cases, inl, inr, arith,
}
use sentinel_public.Prelude.Int.{ℤ, pos, ◌+ℤ◌, ◌-ℤ◌, ◌*ℤ◌, ◌≤ℤ◌, ltb_ℤ, int_laws}
use sentinel_public.Protocol.Messages.{VehicleState, TaskState}
use sentinel_public.Planning.Geometry.{coordinate, has_capability}
use sentinel_public.Planning.Energy.{reserve_energy}
use sentinel_public.Planning.Bundle.Budget.{only_if-eq-some}
use sentinel_public.Planning.Claims.{
  Router, Route, is_pending, task_refused, remaining_service, route_fits, only_if, feasible_route,
}

-- What the vehicle can do with the route at the tick.
pub record CanServe (v : VehicleState) (t : TaskState) (tick : ℕ) (route : Route) : Type 0 where
  pub is_active : v.active ≡ true
  pub is_pending_task : is_pending t.status ≡ true
  pub is_capable : has_capability v t.required_capability ≡ true
  pub carries : t.payload_required_grams ≤ℤ v.payload_grams
  pub deadline : tick + route.travel_ticks + remaining_service t ≤ t.deadline_tick
  pub energy :
      route.energy_mj
        +ℤ pos (remaining_service t) *ℤ t.service_energy_mj_per_tick
        +ℤ reserve_energy v
      ≤ℤ v.energy_mj

passed :
    (a b c : Bool)
    → (if a then false else if b then false else not c) ≡ true
    → (a ≡ false) × (c ≡ false)
passed a b c h = ground arith

in_time :
    (tick travel service deadline : ℕ)
    → tick ≤ deadline
    → ltb (deadline - tick) travel || ltb (deadline - tick - travel) service ≡ false
    → tick + travel + service ≤ deadline
in_time tick travel service deadline d h = ground arith

kept :
    (energy reserve travel service : ℤ)
    → ltb_ℤ service (pos 0) || ltb_ℤ (energy -ℤ reserve -ℤ travel) service ≡ false
    → travel +ℤ service +ℤ reserve ≤ℤ energy
kept energy reserve travel service h = omega (int_laws, below)
  where
    below : service ≤ℤ energy -ℤ reserve -ℤ travel
    below = ground arith

module _ (v : VehicleState) (t : TaskState) (tick : ℕ) (route : Route) where
  accepted :
      not v.active || task_refused v t v.payload_grams tick ≡ false
      → route_fits v t tick route ≡ true
      → CanServe v t tick route
  unfolding task_refused route_fits
  accepted h k =
      let (time, energy) = passed _ _ _ k in
      record {
        is_active = ground arith;
        is_pending_task = ground arith;
        is_capable = ground arith;
        carries = ground arith;
        deadline =
            in_time tick route.travel_ticks (remaining_service t) t.deadline_tick (ground arith)
              time;
        energy = kept v.energy_mj (reserve_energy v) route.energy_mj _ energy;
      }

-- A feasible route is one that the search found from the vehicle to the task's target; the vehicle is
-- active and has the capability and the payload for the task, which is pending, the travel and the
-- remaining service end by the deadline, and with the energy of both the reserve is kept.
pub feasible_route-CanServe :
    (route_from : Router) (v : VehicleState) (t : TaskState) (tick : ℕ) (route : Route)
    → feasible_route route_from v t tick ≡ some route
    → CanServe v t tick route
      × (route_from v
            (coordinate v.position.x_mm v.position.y_mm)
            (coordinate t.target.x_mm t.target.y_mm)
          ≡ some route)
unfolding feasible_route
feasible_route-CanServe route_from v t tick route h =
    elim (Bool-cases (not v.active || task_refused v t v.payload_grams tick)) [
      | inl refused ↦ cc (rw refused at h)
      | inr open_task ↦ found (route_from v _ _) open_task (rw open_task at h)
    ]
  where
    found :
        (o : Option Route)
        → not v.active || task_refused v t v.payload_grams tick ≡ false
        → only_if (route_fits v t tick) o ≡ some route
        → CanServe v t tick route × (o ≡ some route)
    found none q k = cc
    found (some r) q k =
        let (fits, same) = only_if-eq-some (route_fits v t tick) r route k in
        (
          accepted v t tick route q (subst (λ x. route_fits v t tick x ≡ true) same fits),
          ap some same,
        )
