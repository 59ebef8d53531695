-- ===== src/Core/Simulator/Duties.antt =====
-- `update_tasks` of core/src/simulator.cpp: deadlines, service and completion. The tick is the one after
-- the actions. A sum of two `std::int64_t` is taken to fit 64 bits.
pub mod Phases
use sentinel_public.Prelude.{
  ℕ, ◌+◌, Bool, true, false, not, ◌&&◌, ◌||◌, List, [], ◌∷◌, Option, none, some, ltb, leb, ◌==◌,
  if◌then◌else◌, Except, ok, ◌>>=◌,
}
use sentinel_public.Prelude.Int.{ℤ, pos, ◌+ℤ◌, ◌-ℤ◌, quot, abs, ltb_ℤ, leb_ℤ}
use sentinel_public.Prelude.Text.{Text, is_empty}
use sentinel_public.Prelude.Keyed.{find_key, put_key}
use sentinel_public.Prelude.Word.{add64}
use sentinel_public.Protocol.Messages.{Capability, delivery, completed, missed}
use sentinel_public.Protocol.Actions.{TaskReportKind, working, TaskReport, Envelope, ActionBatch}
use sentinel_public.Core.Hash.{to_unsigned}
use sentinel_public.Core.Simulator.State.{
  Vehicle, Task, Simulator, vehicle_id, vehicle, has_capability, is_open_task, begin_convergence,
}
use sentinel_public.Core.Simulator.Counters.{record_energy_invariant}

unfoldable pub is_delivery : Capability → Bool
is_delivery delivery = true
is_delivery _ = false

unfoldable pub is_working : TaskReportKind → Bool
is_working working = true
is_working _ = false

-- The distance along the axes from the vehicle to the task.
unfoldable pub distance_to : Vehicle → Task → ℤ
unfolding abs ◌+ℤ◌ ◌-ℤ◌
distance_to assigned current =
    abs (assigned.x_mm -ℤ current.spec.target.x_mm)
    +ℤ abs (assigned.y_mm -ℤ current.spec.target.y_mm)

unfoldable pub is_capable : Vehicle → Task → Bool
unfolding has_capability
is_capable assigned current =
    assigned.active
    && (has_capability assigned current.spec.required_capability
        && leb_ℤ current.spec.payload_required_grams assigned.payload_grams)

abbrev pub is_work : Option TaskReport → Bool
is_work none = false
is_work (some report) = is_working report.kind

abbrev pub works_on : Option Envelope → Text → Bool
works_on none id = false
works_on (some envelope) id = is_work (find_key (λ r. r.task_id) envelope.action.task_reports id)

-- Whether the task's owner reports that it works on it, `working`.
unfoldable pub reports_work : ActionBatch → Task → Bool
unfolding find_key is_working
reports_work actions current =
    works_on (find_key (λ e. e.sender_id) actions.actions current.assigned_agent_id) current.spec.id

-- What the loop carries from task to task.
pub record Service : Type 0 where
  pub simulator : Simulator
  pub eligible_changed : Bool

abbrev pub changed : Service → Service
changed r = record r { eligible_changed = true }

abbrev pub assign_vehicle : Service → Vehicle → Service
assign_vehicle r assigned = record r {
  simulator = record r.simulator { vehicles = put_key vehicle_id r.simulator.vehicles assigned };
}

-- A delivered payload leaves the vehicle.
unfoldable pub unload : Task → Vehicle → Vehicle
unfolding is_delivery ◌-ℤ◌
unload current assigned =
    if is_delivery current.spec.required_capability
    then record assigned {
      payload_grams = assigned.payload_grams -ℤ current.spec.payload_required_grams;
    }
    else assigned

abbrev pub complete_at : ℕ → Task → Task
complete_at tick current = record current { status = completed; completion_tick = tick }

abbrev pub restarted : Task → Task
restarted current = record current { progress_ticks = 0 }

-- A task that is completed by arrival.
unfoldable pub arrive_at : Service → Vehicle → Task → Service × Task
unfolding is_capable distance_to unload put_key
arrive_at r assigned current =
    if is_capable assigned current
      && leb_ℤ (distance_to assigned current) current.spec.completion_radius_mm
    then (
      assign_vehicle (changed r) (unload current assigned),
      complete_at r.simulator.tick current,
    )
    else (r, current)

-- Whether the vehicle can serve the task in this tick.
unfoldable pub can_serve : ActionBatch → Vehicle → Task → Bool
unfolding is_capable distance_to reports_work quot ◌+ℤ◌
can_serve actions assigned current =
    let reserve = quot (assigned.spec.initial_energy_mj +ℤ pos 9) (pos 10) in
    not (
      not (is_capable assigned current)
      || (ltb_ℤ current.spec.completion_radius_mm (distance_to assigned current)
          || (not (reports_work actions current)
              || ltb_ℤ assigned.energy_mj (current.spec.service_energy_mj_per_tick +ℤ reserve))))

-- The energy of a tick's service, paid.
unfoldable pub pay : Service → Vehicle → ℤ → Service
unfolding record_energy_invariant to_unsigned
pay r assigned cost =
    let s = record_energy_invariant r.simulator assigned in
    record r {
      simulator = record s {
        measures = record s.measures {
          energy_consumed_mj = add64 s.measures.energy_consumed_mj (to_unsigned cost);
        };
      };
    }

abbrev pub tired_by : Vehicle → ℤ → Vehicle
tired_by assigned cost = record assigned { energy_mj = assigned.energy_mj -ℤ cost }

-- A tick of service.
unfoldable pub serve_task : ActionBatch → Service → Vehicle → Task → Service × Task
unfolding can_serve pay unload put_key ◌-ℤ◌
serve_task actions r assigned current =
    let cost = current.spec.service_energy_mj_per_tick in
    let tired = tired_by assigned cost in
    let served = record current { progress_ticks = add64 current.progress_ticks 1 } in
    let paid = pay r tired cost in
    if not (can_serve actions assigned current)
    then (r, restarted current)
    else if leb current.spec.service_ticks served.progress_ticks
    then (assign_vehicle (changed paid) (unload current tired), complete_at r.simulator.tick served)
    else (assign_vehicle paid tired, served)

unfoldable pub update_task : ActionBatch → Service → Task → Except (Service × Task)
unfolding vehicle arrive_at serve_task
update_task actions r current =
    if not (is_open_task current)
    then ok (r, current)
    else if ltb current.spec.deadline_tick r.simulator.tick
    then ok (changed r, record current { status = missed; progress_ticks = 0 })
    else if is_empty current.assigned_agent_id
    then ok (r, current)
    else do
      assigned ← vehicle r.simulator current.assigned_agent_id
      if current.spec.service_ticks == 0
          then ok (arrive_at r assigned current)
          else ok (serve_task actions r assigned current)

unfoldable pub update_each : ActionBatch → Service → List Task → Except (Service × List Task)
unfolding update_task
update_each actions r [] = ok (r, [])
update_each actions r (t ∷ ts) = do
  a ← update_task actions r t
  rest ← update_each actions a.0 ts
  ok (rest.0, a.1 ∷ rest.1)

unfoldable pub update_tasks : Simulator → ActionBatch → Except Simulator
unfolding update_each
update_tasks s actions = do
  r ← update_each actions (record { simulator = s; eligible_changed = false }) s.tasks
  let s' = record r.0.simulator { tasks = r.1 }
  ok (if r.0.eligible_changed then begin_convergence s' else s')
