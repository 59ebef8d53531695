-- ===== src/Core/Simulator/Safe/Duties.antt =====
-- Service keeps the simulator (core/src/simulator.cpp) safe: a vehicle serves only where its reserve is left.
use sentinel_public.Prelude.{
  ◌==◌, ◌≡◌, Bool, true, false, not, ◌||◌, ◌&&◌, List, [], ◌∷◌, ltb, leb, if◌then◌else◌, Ensures,
  Ensures-bind, Ensures-if, Ensures-elim, Bool-cases, inl, inr, arith,
}
use sentinel_public.Prelude.Int.{ℤ, pos, negsuc, ◌+ℤ◌, ◌-ℤ◌, ◌≤ℤ◌, quot, ltb_ℤ, leb_ℤ, int_laws}
use sentinel_public.Prelude.Word.{add64}
use sentinel_public.Prelude.Text.{is_empty}
use sentinel_public.Protocol.Actions.{ActionBatch}
use sentinel_public.Core.Simulator.State.{
  Vehicle, Task, Simulator, vehicle, is_open_task, begin_convergence,
}
use sentinel_public.Core.Simulator.Duties.{
  Service, tired_by, is_delivery, is_capable, distance_to, unload, arrive_at, can_serve,
  reports_work, serve_task, update_task, update_each, update_tasks,
}
use sentinel_public.Core.Simulator.Safe.{
  IsSafe, IsFit, energy_counted-IsSafe, put_vehicle-IsSafe, begin_convergence-IsSafe, vehicle-IsFit,
}

unload-IsFit : (t : Task) (v : Vehicle) → IsFit v → IsFit (unload t v)
unfolding unload
unload-IsFit t v f = elim (Bool-cases (is_delivery t.spec.required_capability)) [
  | inl held ↦ rw held f
  | inr off ↦ rw off f
]

arrive_at-IsSafe :
    (r : Service) (v : Vehicle) (t : Task)
    → IsFit v
    → IsSafe r.simulator
    → IsSafe (arrive_at r v t).0.simulator
unfolding arrive_at
arrive_at-IsSafe r v t f h =
    elim (Bool-cases (is_capable v t && leb_ℤ (distance_to v t) t.spec.completion_radius_mm)) [
      | inl there ↦ rw there (put_vehicle-IsSafe (unload t v) (unload-IsFit t v f) h)
      | inr away ↦ rw away h
    ]

quot-nonneg : (a : ℤ) → pos 0 ≤ℤ a → pos 0 ≤ℤ quot a (pos 10)
unfolding quot
quot-nonneg (pos n) h = omega arith
quot-nonneg (negsuc n) h = absurd (omega arith)

sum_nonneg : (a : ℤ) → pos 0 ≤ℤ a → pos 0 ≤ℤ a +ℤ pos 9
sum_nonneg a h = omega int_laws

covered :
    (energy cost reserve : ℤ)
    → pos 0 ≤ℤ reserve
    → ltb_ℤ energy (cost +ℤ reserve) ≡ false
    → pos 0 ≤ℤ energy -ℤ cost
covered energy cost reserve p h = omega (int_laws, below)
  where
    below : cost +ℤ reserve ≤ℤ energy
    below = ground arith

last_test : (a b c d : Bool) → not (a || (b || (c || d))) ≡ true → d ≡ false
last_test a b c d h = ground arith

-- Where a vehicle can serve a task, its energy covers the service.
can_serve-pays :
    (actions : ActionBatch) (v : Vehicle) (t : Task)
    → IsFit v
    → can_serve actions v t ≡ true
    → pos 0 ≤ℤ v.energy_mj -ℤ t.spec.service_energy_mj_per_tick
unfolding can_serve
can_serve-pays actions v t f h =
    covered v.energy_mj t.spec.service_energy_mj_per_tick _
      (quot-nonneg _ (sum_nonneg v.spec.initial_energy_mj f.initial))
      (last_test (not (is_capable v t)) (ltb_ℤ t.spec.completion_radius_mm (distance_to v t))
        (not (reports_work actions t)) _ h)

serve_task-IsSafe :
    (actions : ActionBatch) (r : Service) (v : Vehicle) (t : Task)
    → IsFit v
    → IsSafe r.simulator
    → IsSafe (serve_task actions r v t).0.simulator
unfolding serve_task
serve_task-IsSafe actions r v t f h = elim (Bool-cases (can_serve actions v t)) [
  | inr off ↦ rw off h
  | inl serves ↦
      let left = can_serve-pays actions v t f serves in
      let tired = tired_by v t.spec.service_energy_mj_per_tick in
      let rest : IsFit tired = record {
        energy = left;
        capacity = f.capacity;
        initial = f.initial;
        abilities = f.abilities;
      } in
      let counted = energy_counted-IsSafe tired.energy_mj left h in
      elim (Bool-cases (leb t.spec.service_ticks (add64 t.progress_ticks 1))) [
        | inl done ↦
            rw (serves, done)
              (put_vehicle-IsSafe (unload t tired) (unload-IsFit t tired rest) counted)
        | inr goes_on ↦ rw (serves, goes_on) (put_vehicle-IsSafe tired rest counted)
      ]
]

abbrev LeavesSafe : Service × Task → Type 0
LeavesSafe a = IsSafe a.0.simulator

update_task-IsSafe :
    (actions : ActionBatch) (r : Service) (t : Task)
    → IsSafe r.simulator
    → Ensures (λ a. IsSafe a.0.simulator) (update_task actions r t)
unfolding update_task
update_task-IsSafe actions r t h =
    Ensures-if LeavesSafe (not (is_open_task t)) _ _ (λ _. h)
      (λ _.
        Ensures-if LeavesSafe (ltb t.spec.deadline_tick r.simulator.tick) _ _ (λ _. h)
          (λ _.
            Ensures-if LeavesSafe (is_empty t.assigned_agent_id) _ _ (λ _. h)
              (λ _. Ensures-bind LeavesSafe (vehicle r.simulator t.assigned_agent_id) _ (λ v e.
                let f = vehicle-IsFit r.simulator t.assigned_agent_id h e in
                Ensures-if LeavesSafe (t.spec.service_ticks == 0) _ _
                  (λ _. arrive_at-IsSafe r v t f h) (λ _. serve_task-IsSafe actions r v t f h)))))

update_each-IsSafe :
    (actions : ActionBatch) (r : Service) (ts : List Task)
    → IsSafe r.simulator
    → Ensures (λ a. IsSafe a.0.simulator) (update_each actions r ts)
unfolding update_each
update_each-IsSafe actions r [] h = h
update_each-IsSafe actions r (t ∷ ts) h =
    Ensures-bind (λ a. IsSafe a.0.simulator) (update_task actions r t) _
      (λ a e.
        let k =
          Ensures-elim (λ a. IsSafe a.0.simulator) (update_task actions r t)
            (update_task-IsSafe actions r t h) e in
        Ensures-bind (λ a. IsSafe a.0.simulator) (update_each actions a.0 ts) _
          (λ rest m.
            Ensures-elim (λ a. IsSafe a.0.simulator) (update_each actions a.0 ts)
              (update_each-IsSafe actions a.0 ts k) m))

abbrev start : Simulator → Service
start s = record { simulator = s; eligible_changed = false }

pub update_tasks-IsSafe :
    (s : Simulator) (actions : ActionBatch) → IsSafe s → Ensures IsSafe (update_tasks s actions)
unfolding update_tasks
update_tasks-IsSafe s actions h =
    Ensures-bind IsSafe (update_each actions (start s) s.tasks) _ (λ r e. finish r (
      Ensures-elim (λ a. IsSafe a.0.simulator) (update_each actions (start s) s.tasks)
        (update_each-IsSafe actions (start s) s.tasks h) e))
  where
    finish :
        (r : Service × List Task)
        → IsSafe r.0.simulator
        → IsSafe (
            if r.0.eligible_changed
            then begin_convergence (record r.0.simulator { tasks = r.1 })
            else record r.0.simulator { tasks = r.1 })
    finish r k = elim (Bool-cases r.0.eligible_changed) [
      | inl held ↦ rw held (begin_convergence-IsSafe (record r.0.simulator { tasks = r.1 }) k)
      | inr off ↦ rw off k
    ]
