-- ===== src/Core/Simulator/Safe/Motion.antt =====
-- Moving and recharging keep the simulator (core/src/simulator.cpp) safe: a vehicle that cannot pay for its
-- way does not move.
use sentinel_public.Prelude.{
  ℕ, suc, ◌≡◌, refl, false, not, List, [], ◌∷◌, some, get_elem?, set, get-All, set-All, map-set,
  Ensures, Ensures-bind, Ensures-if, Ensures-elim, Bool-cases, inl, inr, arith,
}
use sentinel_public.Prelude.Int.{ℤ, pos, ◌+ℤ◌, ◌-ℤ◌, ◌≤ℤ◌, ltb_ℤ, min_ℤ, abs, int_laws}
use sentinel_public.Prelude.Text.{Text}
use sentinel_public.Prelude.Keyed.{find_key-All}
use sentinel_public.Protocol.Messages.{ServiceLocation}
use sentinel_public.Protocol.Actions.{AgentAction, Envelope}
use sentinel_public.Planning.Geometry.{
  Coordinate, coordinate, segment_allowed, terrain_multiplier, contested_resource,
}
use sentinel_public.Planning.Reservation.{ReservationTable}
use sentinel_public.Planning.Energy.{motion_energy}
use sentinel_public.Core.Simulator.State.{
  Vehicle, Simulator, Violations, vehicle_id, found, location, vehicle_state,
}
use sentinel_public.Core.Simulator.Motion.{
  Motion, motion_of, reservation_blocked, put_vehicle, put_view, in_mode, stopped, asks_charge,
  travel, drive_to, drive, move, charge, recharge, count_modes, act, act_all, inside,
}
use sentinel_public.Core.Simulator.Safe.{
  IsSafe, IsSafeState, IsFit, energy_counted-IsSafe, found-eq,
}

-- A safe state of the vehicles, and a fit vehicle to replace the one of this name among them.
abbrev Moved : List Vehicle → Text → Simulator × Vehicle → Type 0
Moved vs id r = IsSafe r.0 × IsFit r.1 × (vehicle_id r.1 ≡ id) × (r.0.vehicles ≡ vs)

pays : (energy cost : ℤ) → ltb_ℤ energy cost ≡ false → pos 0 ≤ℤ energy -ℤ cost
pays energy cost h = omega (int_laws, below)
  where
    below : cost ≤ℤ energy
    below = ground arith

travel-Moved :
    (s : Simulator) (v : Vehicle) (m : Motion) (to : Coordinate) (distance cost : ℤ)
    → IsSafe s
    → IsFit v
    → ltb_ℤ v.energy_mj cost ≡ false
    → Moved s.vehicles v.spec.id (travel s v m to distance cost)
unfolding travel
travel-Moved s v m to distance cost h f p = (
  energy_counted-IsSafe _ (pays v.energy_mj cost p) h,
  record {
    energy = pays v.energy_mj cost p;
    capacity = f.capacity;
    initial = f.initial;
    abilities = f.abilities;
  },
  refl,
  refl,
)

drive_to-Moved :
    (s : Simulator) (v : Vehicle) (m : Motion) (to : Coordinate)
    → IsSafe s
    → IsFit v
    → Ensures (Moved s.vehicles v.spec.id) (drive_to s v m to)
unfolding drive_to
drive_to-Moved s v m to h f =
    let goal = Moved s.vehicles v.spec.id in
    let from = coordinate v.x_mm v.y_mm in
    let distance = abs m.delta_x +ℤ abs m.delta_y in
    Ensures-if goal (not (segment_allowed s.scenario.world (vehicle_state v) from to)) _ _
      (λ _. (h, f, refl, refl))
      (λ _.
        Ensures-bind goal
          (motion_energy (vehicle_state v) distance (terrain_multiplier s.scenario.world from to)) _
          (λ cost e.
            Ensures-if goal (ltb_ℤ v.energy_mj cost) _ _ (λ _. (h, f, refl, refl))
              (λ p. travel-Moved s v m to distance cost h f p)))

drive-Moved :
    (s : Simulator) (v : Vehicle) (action : AgentAction)
    → IsSafe s
    → IsFit v
    → Ensures (Moved s.vehicles v.spec.id) (drive s v action)
unfolding drive
drive-Moved s v action h f =
    let m = motion_of v.max_speed_mm_s s.scenario.step_ms action in
    let to = coordinate (v.x_mm +ℤ m.delta_x) (v.y_mm +ℤ m.delta_y) in
    let from = coordinate v.x_mm v.y_mm in
    Ensures-if (Moved s.vehicles v.spec.id)
      (reservation_blocked s v m (contested_resource s.scenario.world from to)) _ _
      (λ _. (h, f, refl, refl)) (λ _. drive_to-Moved s v m to h f)

charged : (c e d : ℤ) → pos 0 ≤ℤ c → pos 0 ≤ℤ e → pos 0 ≤ℤ d → pos 0 ≤ℤ min_ℤ c (e +ℤ d)
charged c e d hc he hd = smaller c (e +ℤ d) hc (sum e d he hd)
  where
    sum : (e d : ℤ) → pos 0 ≤ℤ e → pos 0 ≤ℤ d → pos 0 ≤ℤ e +ℤ d
    sum e d he hd = omega int_laws

    smaller : (a b : ℤ) → pos 0 ≤ℤ a → pos 0 ≤ℤ b → pos 0 ≤ℤ min_ℤ a b
    smaller a b ha hb = ground arith

charge-Moved :
    (vs : List Vehicle) (id : Text) (s : Simulator) (v : Vehicle) (l : ServiceLocation)
    → pos 0 ≤ℤ l.charge_mj_per_tick
    → Moved vs id (s, v)
    → Moved vs id (charge s v l)
unfolding charge
charge-Moved vs id s v l p m =
    elim (Bool-cases (inside (record { x_mm = v.x_mm; y_mm = v.y_mm }) l)) [
      | inl within ↦
          let energy =
            charged v.energy_capacity_mj v.energy_mj l.charge_mj_per_tick m.1.capacity m.1.energy
              p in
          rw within (
            energy_counted-IsSafe _ energy m.0,
            record {
              energy = energy;
              capacity = m.1.capacity;
              initial = m.1.initial;
              abilities = m.1.abilities;
            },
            m.2,
            m.3,
          )
      | inr away ↦ rw away m
    ]

recharge-Moved :
    (vs : List Vehicle) (id : Text) (r : Simulator × Vehicle) (action : AgentAction)
    → Moved vs id r
    → Ensures (Moved vs id) (recharge r action)
unfolding recharge location
recharge-Moved vs id r action m =
    Ensures-if (Moved vs id) (not (asks_charge action)) _ _ (λ _. m)
      (λ _. Ensures-bind (Moved vs id) (location r.0 action.charge_location_id) _ (λ l e.
        charge-Moved vs id r.0 r.1 l
          (find_key-All (λ l. l.id) (λ l. pos 0 ≤ℤ l.charge_mj_per_tick) _ _ m.0.chargers
            (found-eq _ e))
          m))

module _ {vs : List Vehicle} {ls : List ServiceLocation} {t : ReservationTable}
    {n : Violations} where
  -- The vehicle at an index, replaced by one of its name.
  put_at :
      (i : ℕ) (v w : Vehicle)
      → get_elem? vs i ≡ some v
      → vehicle_id w ≡ vehicle_id v
      → IsFit w
      → IsSafeState vs ls t n
      → IsSafeState (set vs i w) ls t n
  put_at i v w e k f h = record {
    fit = set-All IsFit vs i w h.fit f;
    ordered = rw (map-set vehicle_id vs i w e k) h.ordered;
    chargers = h.chargers;
    table = h.table;
    clean = h.clean;
  }

replaced :
    (vs : List Vehicle) (i : ℕ) (v : Vehicle) (r : Simulator × Vehicle)
    → get_elem? vs i ≡ some v
    → Moved vs v.spec.id r
    → IsSafe (put_vehicle r.0 i r.1)
replaced vs i v r k m = put_at i v r.1 (rw m.3 k) m.2 m.1 m.0

move-Moved :
    (s : Simulator) (v : Vehicle) (action : AgentAction)
    → IsSafe s
    → IsFit v
    → Ensures (Moved s.vehicles v.spec.id) (move s v action)
unfolding move
move-Moved s v action h f =
    let goal = Moved s.vehicles v.spec.id in
    let s' = count_modes s v.behavior_mode action in
    Ensures-bind goal (drive s' v action) _ (λ moved m.
      recharge-Moved s.vehicles v.spec.id moved action
        (Ensures-elim goal (drive s' v action) (drive-Moved s' v action h f) m))

act-IsSafe :
    (s : Simulator) (i : ℕ) (e : Envelope) → IsSafe s → Ensures (λ r. IsSafe r.0) (act s i e)
unfolding act
act-IsSafe s i envelope h =
    Ensures-bind (λ r. IsSafe r.0) (found (get_elem? s.vehicles i)) _
      (λ v e.
        let k : get_elem? s.vehicles i ≡ some v = found-eq (get_elem? s.vehicles i) e in
        let f : IsFit v = get-All IsFit s.vehicles i h.fit k in
        let s' = put_view s i envelope.action in
        let v' = in_mode v envelope.action in
        let moving = move s' v' envelope.action in
        Ensures-if (λ r. IsSafe r.0) (not v.active) _ _ (λ _. put_at i v (stopped v') k refl f h)
          (λ _.
            Ensures-bind (λ r. IsSafe r.0) moving _
              (λ done m. replaced s.vehicles i v done k (
                Ensures-elim (Moved s.vehicles v.spec.id) moving
                  (move-Moved s' v' envelope.action h f) m))))

pub act_all-IsSafe :
    (s : Simulator) (i : ℕ) (es : List Envelope)
    → IsSafe s
    → Ensures (λ r. IsSafe r.0) (act_all s i es)
unfolding act_all
act_all-IsSafe s i [] h = h
act_all-IsSafe s i (e ∷ es) h =
    Ensures-bind (λ r. IsSafe r.0) (act s i e) _
      (λ r k.
        Ensures-bind (λ r. IsSafe r.0) (act_all r.0 (suc i) es) _
          (λ rest m.
            Ensures-elim (λ r. IsSafe r.0) (act_all r.0 (suc i) es)
              (act_all-IsSafe r.0 (suc i) es
                (Ensures-elim (λ r. IsSafe r.0) (act s i e) (act-IsSafe s i e h) k))
              m))
