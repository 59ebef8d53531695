-- ===== src/Core/Simulator/Safe/Start.antt =====
-- A simulator (core/src/simulator.cpp) of a scenario that is accepted (core/src/scenario.cpp) starts safe.
use mathlib.Core.List.{append-nil, append_assoc}
use sentinel_public.Prelude.{
  ◌≤◌, ◌≡◌, refl, sym, ap, ◌∙◌, subst, Bool, true, false, ◌||◌, List, [], ◌∷◌, ◌++◌, map, All,
  All-map, All-mono, Pairs, Pairs-map, Except, Exception, ok, throw_if, ◌>>=◌, invalid_argument,
  Ensures, Ensures-bind, Ensures-intro, Ensures-all, Ensures-elim, ltb, arith,
}
use sentinel_public.Prelude.Int.{ℤ, pos, ◌≤ℤ◌, ltb_ℤ, leb_ℤ}
use sentinel_public.Prelude.Text.{text_lt}
use sentinel_public.Prelude.Order.{
  by, sort, sort-IsSorted, text_lt-StrictOrder, by-StrictOrder, ltb-StrictOrder,
}
use sentinel_public.Prelude.Keyed.{repeats, repeats-Pairs}
use sentinel_public.Protocol.Messages.{Capability, capability_number, ServiceLocation}
use sentinel_public.Protocol.Actions.{VehicleSpec, Scenario, ActionBatch}
use sentinel_public.Planning.Reservation.{empty_table}
use sentinel_public.Planning.Reservation.Invariant.{IsTable, empty_table-IsTable}
use sentinel_public.Core.Network.State.{new_emulator, set_profile}
use sentinel_public.Core.Scenario.{normalize_scenario, normal_vehicle, capability_order, by_name}
use sentinel_public.Core.Scenario.Checks.{
  require_unique, check_profile, check_region, check_location, check_vehicle, invalid_vehicle,
  invalid_location,
}
use sentinel_public.Core.Scenario.Valid.{validate_scenario, check_header, check_names}
use sentinel_public.Core.Simulator.State.{Services, Simulator, vehicle_id, network_profile}
use sentinel_public.Core.Simulator.Counters.{record_energy_invariant}
use sentinel_public.Core.Simulator.Views.{check_all}
use sentinel_public.Core.Simulator.Start.{new_vehicle, blank, enter_vehicles, new_simulator}
use sentinel_public.Core.Simulator.Step.{run}
use sentinel_public.Core.Simulator.Safe.{
  IsSafe, IsFit, Before, no_violations, not_negative, begin_convergence-IsSafe,
}
use sentinel_public.Core.Simulator.Safe.Run.{run-IsSafe}

throw_if-eq-ok : (b : Bool) (e : Exception) {u : Unit {0}} → throw_if b e ≡ ok u → b ≡ false
throw_if-eq-ok true e h = cc
throw_if-eq-ok false e h = refl

-- A loop of checks that returns has passed every one.
check_all-All :
    {A : Type 0} (P : A → Type 0) (check : A → Except (Unit {0}))
    → ((x : A) → Ensures (λ _. P x) (check x))
    → (xs : List A) → Ensures (λ _. All P xs) (check_all check xs)
check_all-All P check h [] = tt
check_all-All P check h (x ∷ xs) =
    Ensures-bind (λ _. All P (x ∷ xs)) (check x) _
      (λ u e.
        Ensures-intro (λ _. All P (x ∷ xs)) (check_all check xs)
          (λ w k. (
            Ensures-elim (λ _. P x) (check x) (h x) e,
            Ensures-elim (λ _. All P xs) (check_all check xs) (check_all-All P check h xs) k,
          )))

abbrev IsCharger : ServiceLocation → Type 0
IsCharger l = pos 0 ≤ℤ l.charge_mj_per_tick

abbrev IsPowered : VehicleSpec → Type 0
IsPowered v = pos 0 ≤ℤ v.initial_energy_mj

-- What the safety of a simulator asks of its scenario.
abbrev IsSound : Scenario → Type 0
IsSound scenario =
    All IsCharger scenario.world.locations
    × All IsPowered scenario.vehicles
    × (repeats (λ v. v.id) scenario.vehicles ≡ false)

first : (a b : Bool) → a || b ≡ false → a ≡ false
first a b h = ground arith

not_below : (e : ℤ) → ltb_ℤ e (pos 0) ≡ false → pos 0 ≤ℤ e
not_below e h = ground arith

above : (e : ℤ) → leb_ℤ e (pos 0) ≡ false → pos 0 ≤ℤ e
above e h = ground arith

charges : (l : ServiceLocation) → invalid_location l ≡ false → IsCharger l
unfolding invalid_location
charges l h = not_below l.charge_mj_per_tick (first _ _ h)

powered : (v : VehicleSpec) → invalid_vehicle v ≡ false → IsPowered v
unfolding invalid_vehicle
powered v h = above v.initial_energy_mj (first _ _ h)

module _ (scenario : Scenario) where
  location-IsCharger :
      (l : ServiceLocation) → Ensures (λ _. IsCharger l) (check_location scenario l)
  unfolding check_location
  location-IsCharger l =
      Ensures-bind (λ _. IsCharger l) (throw_if (invalid_location l) invalid_argument) _
        (λ u e. Ensures-all (λ _. IsCharger l) _ (λ _. charges l (throw_if-eq-ok _ _ e)))

  vehicle-IsPowered : (v : VehicleSpec) → Ensures (λ _. IsPowered v) (check_vehicle scenario v)
  unfolding check_vehicle
  vehicle-IsPowered v =
      Ensures-bind (λ _. IsPowered v) (throw_if (invalid_vehicle v) invalid_argument) _
        (λ u e. Ensures-all (λ _. IsPowered v) _ (λ _. powered v (throw_if-eq-ok _ _ e)))

  abbrev IsUnique : Unit {0} → Type 0
  IsUnique u = repeats (λ v. v.id) scenario.vehicles ≡ false

  check_names_lem : Ensures IsUnique (check_names scenario)
  unfolding check_names
  check_names_lem =
      Ensures-bind IsUnique (require_unique (λ r. r.id) scenario.world.regions) _ (λ _ _.
        Ensures-bind IsUnique (require_unique (λ l. l.id) scenario.world.locations) _ (λ _ _.
          Ensures-bind IsUnique (require_unique (λ v. v.id) scenario.vehicles) _
            (λ u e. Ensures-all IsUnique _ (λ _. throw_if-eq-ok _ _ e))))

  abbrev Sound : Unit {0} → Type 0
  Sound u = IsSound scenario

  validate_scenario-IsSound : Ensures Sound (validate_scenario scenario)
  unfolding validate_scenario
  validate_scenario-IsSound = Ensures-bind Sound (check_header scenario) _ (λ _ _.
      Ensures-bind Sound (check_names scenario) _ (λ _ unique.
        Ensures-bind Sound (check_all (check_profile scenario) scenario.network_profiles) _ (λ _ _.
          Ensures-bind Sound (check_all (check_region scenario) scenario.world.regions) _ (λ _ _.
            Ensures-bind Sound (check_all (check_location scenario) scenario.world.locations) _
              (λ _ ls.
                Ensures-bind Sound (check_all (check_vehicle scenario) scenario.vehicles) _ (λ _ vs.
                  Ensures-all Sound _ (λ _. (
                    Ensures-elim _ _
                        (check_all-All IsCharger (check_location scenario) location-IsCharger
                          scenario.world.locations)
                        ls,
                    Ensures-elim _ _
                        (check_all-All IsPowered (check_vehicle scenario) vehicle-IsPowered
                          scenario.vehicles)
                        vs,
                    Ensures-elim IsUnique (check_names scenario) check_names_lem unique,
                  ))))))))

abbrev AreOrdered : VehicleSpec → Type 0
AreOrdered v = Pairs (λ c d. capability_number c ≤ capability_number d) v.capabilities

ordered_by_number :
    (cs : List Capability)
    → Pairs (λ c d. capability_order d c ≡ false) cs
    → Pairs (λ c d. capability_number c ≤ capability_number d) cs
unfolding capability_order
ordered_by_number [] h = tt
ordered_by_number (c ∷ cs) h = (All-mono _ _ cs (λ d k. ground arith) h.0, ordered_by_number cs h.1)

normal_vehicle-AreOrdered : (v : VehicleSpec) → AreOrdered (normal_vehicle v)
unfolding normal_vehicle capability_order
normal_vehicle-AreOrdered v = ordered_by_number (sort capability_order v.capabilities) (
    sort-IsSorted capability_order (by-StrictOrder capability_number ltb ltb-StrictOrder)
      v.capabilities)

all_of : {A : Type 0} (P : A → Type 0) → ((a : A) → P a) → (xs : List A) → All P xs
all_of P h [] = tt
all_of P h (x ∷ xs) = (h x, all_of P h xs)

module _ (scenario : Scenario) where
  normal_abilities : All AreOrdered (normalize_scenario scenario).vehicles
  unfolding normalize_scenario
  normal_abilities = All-map normal_vehicle AreOrdered (by_name (λ v. v.id) scenario.vehicles) (
      all_of (λ v. AreOrdered (normal_vehicle v)) normal_vehicle-AreOrdered
        (by_name (λ v. v.id) scenario.vehicles))

  normal_names : Pairs (λ v w. text_lt w.id v.id ≡ false) (normalize_scenario scenario).vehicles
  unfolding normalize_scenario normal_vehicle
  normal_names =
      Pairs-map normal_vehicle (λ v w. text_lt w.id v.id ≡ false)
        (by_name (λ v. v.id) scenario.vehicles)
        (sort-IsSorted (by (λ v. v.id) text_lt)
          (by-StrictOrder (λ v. v.id) text_lt text_lt-StrictOrder) scenario.vehicles)

new_vehicle-names :
    (specs : List VehicleSpec) → map vehicle_id (map new_vehicle specs) ≡ map (λ v. v.id) specs
unfolding new_vehicle
new_vehicle-names [] = refl
new_vehicle-names (v ∷ vs) = ap (λ ids. v.id ∷ ids) (new_vehicle-names vs)

new_vehicles_lem :
    (specs : List VehicleSpec)
    → All IsPowered specs
    → All AreOrdered specs
    → All IsFit (map new_vehicle specs)
unfolding new_vehicle
new_vehicles_lem [] p o = tt
new_vehicles_lem (v ∷ vs) p o = (
  record { energy = p.0; capacity = p.0; initial = p.0; abilities = o.0 },
  new_vehicles_lem vs p.1 o.1,
)

-- What entering the vehicles leaves of the state.
record IsEntered (s r : Simulator) (specs : List VehicleSpec) : Type 0 where
  vehicles : r.vehicles ≡ s.vehicles ++ map new_vehicle specs
  scenario : r.scenario ≡ s.scenario
  reservations : r.reservations ≡ s.reservations
  clean : r.violations ≡ no_violations

enter_vehicles-IsEntered :
    (s : Simulator) (specs : List VehicleSpec)
    → All IsPowered specs
    → s.violations ≡ no_violations
    → IsEntered s (enter_vehicles s specs) specs
unfolding enter_vehicles
enter_vehicles-IsEntered s [] p c = record {
  vehicles = sym (append-nil s.vehicles);
  scenario = refl;
  reservations = refl;
  clean = c;
}
enter_vehicles-IsEntered s (v ∷ vs) p c =
    let s' = record_energy_invariant s (new_vehicle v) in
    let r =
      enter_vehicles-IsEntered (record s' { vehicles = s'.vehicles ++ new_vehicle v ∷ [] }) vs p.1
        (rw (c, not_negative v.initial_energy_mj p.0) refl) in
    record {
      vehicles = r.vehicles ∙ append_assoc s.vehicles (new_vehicle v ∷ []) (map new_vehicle vs);
      scenario = r.scenario;
      reservations = r.reservations;
      clean = r.clean;
    }

started-IsSafe :
    (scenario : Scenario) (s : Simulator)
    → IsSound scenario
    → All AreOrdered scenario.vehicles
    → Pairs (λ v w. text_lt w.id v.id ≡ false) scenario.vehicles
    → (s.vehicles ≡ []) × (s.scenario ≡ scenario) × (s.reservations ≡ empty_table)
    → IsEntered s (enter_vehicles s scenario.vehicles) scenario.vehicles
    → IsSafe (enter_vehicles s scenario.vehicles)
started-IsSafe scenario s (ls, vs, unique) able names (none, same, empty) e =
    let vehicles : (enter_vehicles s scenario.vehicles).vehicles
        ≡ map new_vehicle scenario.vehicles =
      e.vehicles ∙ ap (λ us. us ++ map new_vehicle scenario.vehicles) none in
    record {
      fit = subst (All IsFit) (sym vehicles) (new_vehicles_lem scenario.vehicles vs able);
      ordered =
          subst (λ us. Pairs Before (map vehicle_id us)) (sym vehicles)
            (subst (Pairs Before) (sym (new_vehicle-names scenario.vehicles))
              (repeats-Pairs (λ v. v.id) scenario.vehicles names unique));
      chargers = subst (λ sc. All IsCharger sc.world.locations) (sym (e.scenario ∙ same)) ls;
      table = subst IsTable (sym (e.reservations ∙ empty)) empty_table-IsTable;
      clean = e.clean;
    }

pub new_simulator-IsSafe :
    (env : Services) (given : Scenario) → Ensures IsSafe (new_simulator env given)
unfolding new_simulator
new_simulator-IsSafe env given =
    Ensures-bind IsSafe (new_emulator given.seed given.step_ms) _ (λ network _.
      let scenario = normalize_scenario given in
      Ensures-bind IsSafe (validate_scenario scenario) _ (λ _ valid.
        let sound =
          Ensures-elim (λ _. IsSound scenario) (validate_scenario scenario)
            (validate_scenario-IsSound scenario) valid in
        let s = enter_vehicles (blank scenario network) scenario.vehicles in
        Ensures-bind IsSafe (set_profile s.network (network_profile s s.network_profile)) _
          (λ profiled _.
            begin_convergence-IsSafe (record s { network = profiled })
              (started-IsSafe scenario (blank scenario network) sound (normal_abilities given)
                (normal_names given) (refl, refl, refl)
                (enter_vehicles-IsEntered (blank scenario network) scenario.vehicles sound.1
                  refl)))))

-- Every run of ticks from the start of a simulator whose scenario was accepted: where it returns, the
-- energy of no vehicle is negative, no two committed reservations overlap, the vehicles are in the
-- order of their names, and all four counts of violations are zero.
pub simulation-IsSafe :
    (env : Services) (given : Scenario) (batches : List ActionBatch)
    → Ensures IsSafe (new_simulator env given >>= λ s. run env s batches)
simulation-IsSafe env given batches =
    Ensures-bind IsSafe (new_simulator env given) (λ s. run env s batches)
      (λ s e.
        run-IsSafe env s batches
          (Ensures-elim IsSafe (new_simulator env given) (new_simulator-IsSafe env given) e))
