-- ===== src/Planning/Bundle/Choice.antt =====
-- `nearest_capable` and `best_insertion` return a best candidate, and one wherever there is one.
use sentinel_public.Prelude.{
  ℕ, ◌≡◌, refl, sym, ◌∙◌, true, false, List, map, Option, none, some, All, get_elem?, Option-cases,
  inl, inr, some_inj, map-All, All-mono, get_elem-map, subst, arith,
}
use sentinel_public.Prelude.Int.{ltb_ℤ, ◌≤ℤ◌}
use sentinel_public.Prelude.Text.{text_lt}
use sentinel_public.Prelude.Order.{
  StrictOrder, tie, tie-StrictOrder, by-StrictOrder, text_lt-StrictOrder,
}
use sentinel_public.Prelude.Best.{IsBest, NotBetter, pick_all-IsBest}
use sentinel_public.Protocol.Messages.{VehicleState, TaskState, AllocationClaim}
use sentinel_public.Planning.Claims.{
  Route, Router, claim_order, feasible_route, make_claim, feasible_claim, nearest_capable,
}

ltb_ℤ-StrictOrder : StrictOrder ltb_ℤ
ltb_ℤ-StrictOrder = record { asymm = λ a b h. ground arith; trans = λ a b c h k. ground arith }

claim_order-StrictOrder : StrictOrder claim_order
unfolding claim_order
claim_order-StrictOrder =
    tie-StrictOrder _ _ (by-StrictOrder (λ c. c.distance_mm) ltb_ℤ ltb_ℤ-StrictOrder)
      (by-StrictOrder (λ c. c.agent_id) text_lt text_lt-StrictOrder)

-- The claim of a vehicle that has this route to the task.
abbrev claim_of : VehicleState → TaskState → ℕ → ℕ → Route → AllocationClaim
claim_of vehicle task epoch version route = record {
  epoch = epoch;
  version = version;
  task_id = task.id;
  agent_id = vehicle.id;
  feasible = true;
  distance_mm = route.distance_mm;
}

-- Not after another: a shorter way, or as long a one and a name that is not larger.
abbrev Precedes : AllocationClaim → VehicleState → Route → Type 0
Precedes w vehicle route =
    (w.distance_mm ≤ℤ route.distance_mm)
    × (w.distance_mm ≡ route.distance_mm → text_lt vehicle.id w.agent_id ≡ false)

module _ (route_from : Router) (task : TaskState) (tick epoch version : ℕ) where
  -- The answer is the claim of one of the vehicles with a feasible route, which precedes all others;
  -- no answer means that there is no such vehicle.
  abbrev pub IsNearest : List VehicleState → Option AllocationClaim → Type 0
  IsNearest vehicles none = All (λ v. feasible_route route_from v task tick ≡ none) vehicles
  IsNearest vehicles (some w) =
      ((i : ℕ) × (v : VehicleState) × (route : Route) × (get_elem? vehicles i ≡ some v)
        × (feasible_route route_from v task tick ≡ some route)
        × (w ≡ claim_of v task epoch version route))
      × All
          (λ u.
            (route : Route)
            → feasible_route route_from u task tick ≡ some route
            → Precedes w u route)
          vehicles

  abbrev claim_in : VehicleState → Option AllocationClaim
  claim_in = feasible_claim route_from task tick epoch version

  feasible_claim-none :
      (v : VehicleState) → feasible_route route_from v task tick ≡ none → claim_in v ≡ none
  unfolding feasible_claim make_claim
  feasible_claim-none v e = rw (e, make_claim) refl

  feasible_claim-some :
      (v : VehicleState) (route : Route)
      → feasible_route route_from v task tick ≡ some route
      → claim_in v ≡ some (claim_of v task epoch version route)
  unfolding feasible_claim make_claim
  feasible_claim-some v route e = rw (e, make_claim) refl

  no_route : (v : VehicleState) → claim_in v ≡ none → feasible_route route_from v task tick ≡ none
  no_route v e = elim (Option-cases (feasible_route route_from v task tick)) [
    | inl absent ↦ absent
    | inr (route, there) ↦ absurd (cc (feasible_claim-some v route there))
  ]

  a_route :
      (v : VehicleState) (w : AllocationClaim)
      → claim_in v ≡ some w
      → (route : Route) × (feasible_route route_from v task tick ≡ some route)
        × (w ≡ claim_of v task epoch version route)
  a_route v w e = elim (Option-cases (feasible_route route_from v task tick)) [
    | inl absent ↦ absurd (cc (feasible_claim-none v absent))
    | inr (route, there) ↦ (route, there, some_inj (sym e ∙ feasible_claim-some v route there))
  ]

  ordered :
      (w : AllocationClaim) (u : VehicleState) (route : Route)
      → claim_order (claim_of u task epoch version route) w ≡ false
      → Precedes w u route
  unfolding claim_order tie
  ordered w u route h = (ground arith, λ e. ground arith)

  best-IsNearest :
      (vehicles : List VehicleState) (best : Option AllocationClaim)
      → IsBest claim_order (map claim_in vehicles) best
      → IsNearest vehicles best
  best-IsNearest vehicles none h =
      All-mono (λ v. claim_in v ≡ none) (λ v. feasible_route route_from v task tick ≡ none) vehicles
        no_route (map-All claim_in (λ x. x ≡ none) vehicles h)
  best-IsNearest vehicles (some w) h =
      let at = get_elem-map claim_in vehicles h.0.0 h.0.1 in
      let r = a_route at.0 w at.2 in
      (
        (h.0.0, at.0, r.0, at.1, r.1, r.2),
        All-mono (λ u. NotBetter claim_order w (claim_in u))
            (λ u.
              (route : Route)
              → feasible_route route_from u task tick ≡ some route
              → Precedes w u route)
            vehicles
            (λ u k route e.
              ordered w u route (subst (NotBetter claim_order w) (feasible_claim-some u route e) k))
            (map-All claim_in (NotBetter claim_order w) vehicles h.1),
      )

-- No feasible claim is better than the answer.
pub nearest_capable-IsBest :
    (route_from : Router) (vehicles : List VehicleState) (task : TaskState) (tick epoch version : ℕ)
    → IsBest claim_order
        (map (feasible_claim route_from task tick epoch version) vehicles)
        (nearest_capable route_from vehicles task tick epoch version)
unfolding nearest_capable
nearest_capable-IsBest route_from vehicles task tick epoch version =
    pick_all-IsBest claim_order claim_order-StrictOrder
      (map (feasible_claim route_from task tick epoch version) vehicles)

-- The claim that `nearest_capable` answers is that of one of the vehicles with a feasible route, under
-- its name and with the length of its route, and no vehicle with a feasible route has a shorter one, or
-- as long a one and a smaller name; it answers none only where no vehicle has a feasible route.
pub nearest_capable-IsNearest :
    (route_from : Router) (vehicles : List VehicleState) (task : TaskState) (tick epoch version : ℕ)
    → IsNearest route_from task tick epoch version vehicles
        (nearest_capable route_from vehicles task tick epoch version)
nearest_capable-IsNearest route_from vehicles task tick epoch version =
    best-IsNearest route_from task tick epoch version vehicles
      (nearest_capable route_from vehicles task tick epoch version)
      (nearest_capable-IsBest route_from vehicles task tick epoch version)
