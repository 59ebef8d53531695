-- ===== src/Core/Simulator/Safe.antt =====
-- The safety of the simulator (core/src/simulator.cpp): what the state of its vehicles and reservations
-- keeps to, so that no violation is ever counted.
pub mod Failures
pub mod Capable
pub mod Commits
pub mod Holds
pub mod Motion
pub mod Duties
pub mod Tape
pub mod Run
pub mod Start
use sentinel_public.Prelude.{
  ℕ, ◌+◌, ◌≤◌, ◌≡◌, refl, sym, subst, Bool, true, false, List, [], ◌∷◌, map, Option, none, some, ok,
  All, Pairs, Pairs-keep, All-keep, keep, Bool-cases, inl, inr, if◌then◌else◌, arith,
}
use sentinel_public.Prelude.Int.{ℤ, pos, ◌≤ℤ◌, ltb_ℤ}
use sentinel_public.Prelude.Word.{add64}
use sentinel_public.Prelude.Text.{Text, text_lt}
use sentinel_public.Prelude.Keyed.{find_key, find_key-All, put_key, put_key-All, map-put}
use sentinel_public.Protocol.Messages.{Capability, capability_number, ServiceLocation}
use sentinel_public.Protocol.Actions.{VehicleSpec}
use sentinel_public.Planning.Reservation.{Reservation, ReservationTable, overlaps}
use sentinel_public.Planning.Reservation.Invariant.{IsTable, Apart}
use sentinel_public.Core.Network.Step.{one_if}
use sentinel_public.Core.Simulator.State.{
  Vehicle, Task, Simulator, Violations, vehicle_id, task_id, found, vehicle, task,
  begin_convergence, next_epoch, is_scripted,
}
use sentinel_public.Core.Simulator.Counters.{
  record_energy_invariant, count_overlaps_with, count_overlaps, record_reservation_invariant,
}

-- Energy and capacity are not negative, and the capabilities are in order.
pub record IsFitWith (energy_mj energy_capacity_mj : ℤ) (spec : VehicleSpec) : Type 0 where
  pub energy : pos 0 ≤ℤ energy_mj
  pub capacity : pos 0 ≤ℤ energy_capacity_mj
  pub initial : pos 0 ≤ℤ spec.initial_energy_mj
  pub abilities : Pairs (λ c d. capability_number c ≤ capability_number d) spec.capabilities

abbrev pub IsFit : Vehicle → Type 0
IsFit v = IsFitWith v.energy_mj v.energy_capacity_mj v.spec

abbrev pub no_violations : Violations
no_violations = record {
  agent_energy_below_zero = 0;
  committed_reservation_overlap = 0;
  completed_task_reassignment = 0;
  incapable_agent_commit = 0;
}

abbrev pub Before : Text → Text → Type 0
Before a b = text_lt a b ≡ true

pub record IsSafeState (vs : List Vehicle) (ls : List ServiceLocation) (t : ReservationTable)
    (n : Violations) : Type 0 where
  pub fit : All IsFit vs
  pub ordered : Pairs Before (map vehicle_id vs)
  pub chargers : All (λ l. pos 0 ≤ℤ l.charge_mj_per_tick) ls
  pub table : IsTable t
  pub clean : n ≡ no_violations

-- Every vehicle is fit, the vehicles are in the order of their names, no location takes energy away,
-- the table of reservations keeps to its invariant, and no violation was counted.
abbrev pub IsSafe : Simulator → Type 0
IsSafe s = IsSafeState s.vehicles s.scenario.world.locations s.reservations s.violations

pub begin_convergence-IsSafe : (s : Simulator) → IsSafe s → IsSafe (begin_convergence s)
unfolding begin_convergence
begin_convergence-IsSafe s h = elim (Bool-cases (is_scripted s.scenario.allocation_policy)) [
  | inl scripted ↦ rw scripted h
  | inr allocated ↦ rw allocated h
]

pub next_epoch-IsSafe : (s : Simulator) → IsSafe s → IsSafe (next_epoch s)
next_epoch-IsSafe s h =
    begin_convergence-IsSafe (record s { allocation_epoch = add64 s.allocation_epoch 1 }) h

pub not_negative : (e : ℤ) → pos 0 ≤ℤ e → ltb_ℤ e (pos 0) ≡ false
not_negative e h = ground arith

abbrev pub energy_counted : Violations → ℤ → Violations
energy_counted n e = record n {
  agent_energy_below_zero = add64 n.agent_energy_below_zero (one_if (ltb_ℤ e (pos 0)));
}

count_overlaps_with-zero :
    (r : Reservation) (rs : List Reservation) → All (Apart r) rs → count_overlaps_with r rs ≡ 0
unfolding count_overlaps_with
count_overlaps_with-zero r [] h = refl
count_overlaps_with-zero r (x ∷ xs) h = rw (h.0, count_overlaps_with-zero r xs h.1) refl

pub count_overlaps-zero : (rs : List Reservation) → Pairs Apart rs → count_overlaps rs ≡ 0
unfolding count_overlaps
count_overlaps-zero [] h = refl
count_overlaps-zero (r ∷ rs) h =
    rw (count_overlaps_with-zero r rs h.0, count_overlaps-zero rs h.1) refl

-- Reservations that are kept apart are no violation.
pub record_reservation-IsSafe : (s : Simulator) → IsSafe s → IsSafe (record_reservation_invariant s)
unfolding record_reservation_invariant
record_reservation-IsSafe s h = record {
  fit = h.fit;
  ordered = h.ordered;
  chargers = h.chargers;
  table = h.table;
  clean = rw (h.clean, count_overlaps-zero s.reservations.committed h.table.apart) refl;
}

module _ {vs : List Vehicle} {ls : List ServiceLocation} {t : ReservationTable}
    {n : Violations} where
  -- Energy that is left is no violation.
  pub energy_counted-IsSafe :
      (e : ℤ) → pos 0 ≤ℤ e → IsSafeState vs ls t n → IsSafeState vs ls t (energy_counted n e)
  energy_counted-IsSafe e p h = record {
    fit = h.fit;
    ordered = h.ordered;
    chargers = h.chargers;
    table = h.table;
    clean = rw (h.clean, not_negative e p) refl;
  }

  -- A write to one of the vehicles.
  pub put_vehicle-IsSafe :
      (v : Vehicle) → IsFit v → IsSafeState vs ls t n → IsSafeState (put_key vehicle_id vs v) ls t n
  put_vehicle-IsSafe v f h = record {
    fit = put_key-All vehicle_id IsFit vs v h.fit f;
    ordered = rw (map-put vehicle_id vs v) h.ordered;
    chargers = h.chargers;
    table = h.table;
    clean = h.clean;
  }

  pub put_table-IsSafe :
      (t' : ReservationTable) → IsTable t' → IsSafeState vs ls t n → IsSafeState vs ls t' n
  put_table-IsSafe t' k h = record {
    fit = h.fit;
    ordered = h.ordered;
    chargers = h.chargers;
    table = k;
    clean = h.clean;
  }

pub found-eq {ℓ} : {A : Type ℓ} (o : Option A) {a : A} → found o ≡ ok a → o ≡ some a
found-eq none e = cc
found-eq (some b) e = cc

-- What the look-up of a vehicle returns is one of the vehicles, with its name.
pub vehicle-eq-ok :
    (s : Simulator) (id : Text) {v : Vehicle}
    → vehicle s id ≡ ok v
    → find_key vehicle_id s.vehicles id ≡ some v
unfolding vehicle
vehicle-eq-ok s id e = found-eq (find_key vehicle_id s.vehicles id) e

pub task-eq-ok :
    (s : Simulator) (id : Text) {t : Task} → task s id ≡ ok t → find_key task_id s.tasks id ≡ some t
unfolding task
task-eq-ok s id e = found-eq (find_key task_id s.tasks id) e

pub vehicle-IsFit :
    (s : Simulator) (id : Text) {v : Vehicle} → IsSafe s → vehicle s id ≡ ok v → IsFit v
vehicle-IsFit s id h e = find_key-All vehicle_id IsFit s.vehicles id h.fit (vehicle-eq-ok s id e)
