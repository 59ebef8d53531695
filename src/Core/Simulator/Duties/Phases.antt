-- ===== src/Core/Simulator/Duties/Phases.antt =====
-- The life of a task as a machine of phases, and `update_tasks` of core/src/simulator.cpp as its steps.
use sentinel_public.Prelude.{
  ℕ, ◌==◌, ◌≤◌, ◌<◌, ◌≡◌, refl, sym, ◌∙◌, subst, Bool, true, false, not, ◌&&◌, List, [], ◌∷◌, ltb,
  leb, ltb→lt, ==_iff, either_branch, if◌then◌else◌, Ensures, Ensures-bind, Ensures-if,
  Ensures-elim, Bool-cases, inl, inr, arith,
}
use sentinel_public.Prelude.Int.{leb_ℤ}
use sentinel_public.Prelude.Text.{is_empty}
use sentinel_public.Prelude.Word.{add64}
use sentinel_public.Protocol.Messages.{TaskStatus, pending, completed, missed}
use sentinel_public.Protocol.Actions.{ActionBatch}
use sentinel_public.Core.Simulator.State.{
  Vehicle, Task, Simulator, vehicle, is_pending, is_open_task, begin_convergence, is_scripted,
}
use sentinel_public.Core.Simulator.Duties.{
  Service, is_capable, distance_to, arrive_at, can_serve, serve_task, update_task, update_each,
  update_tasks,
}

-- Not released; released with so many ticks of service in a row; completed at a tick; missed.
pub data Phase : Type 0 where
  held expired : Phase
  underway : ℕ → Phase
  finished_at : ℕ → Phase

unfoldable pub phase_of : TaskStatus → Bool → ℕ → ℕ → Phase
phase_of pending released progress completion = if released then underway progress else held
phase_of completed released progress completion = finished_at completion
phase_of missed released progress completion = expired
phase_of TaskStatus.unspecified released progress completion = held

unfoldable pub phase : Task → Phase
unfolding phase_of
phase t = phase_of t.status t.released t.progress_ticks t.completion_tick

-- What may become of a task with this deadline and this service in the tick.
pub data Advances (tick deadline service : ℕ) : Phase → Phase → Type 0 where
  remains : (p : Phase) → Advances tick deadline service p p
  expires : (k : ℕ) → deadline < tick → Advances tick deadline service (underway k) expired
  restarts : (k : ℕ) → tick ≤ deadline → Advances tick deadline service (underway k) (underway 0)
  serves :
      (k : ℕ)
      → tick ≤ deadline
      → add64 k 1 < service
      → Advances tick deadline service (underway k) (underway (add64 k 1))
  completes :
      (k : ℕ)
      → tick ≤ deadline
      → service ≤ add64 k 1
      → Advances tick deadline service (underway k) (finished_at tick)

-- The task keeps its specification and moves on in its life.
pub record Follows (tick : ℕ) (t u : Task) : Type 0 where
  pub same_spec : u.spec ≡ t.spec
  pub advances : Advances tick t.spec.deadline_tick t.spec.service_ticks (phase t) (phase u)

pending_eq : (st : TaskStatus) → is_pending st ≡ true → st ≡ pending
unfolding is_pending
pending_eq TaskStatus.pending h = refl
pending_eq TaskStatus.unspecified h = cc
pending_eq TaskStatus.completed h = cc
pending_eq TaskStatus.missed h = cc

both : (a b : Bool) → not (a && b) ≡ false → (a ≡ true) × (b ≡ true)
both a b h = ground arith

open_phase : (t : Task) → not (is_open_task t) ≡ false → phase t ≡ underway t.progress_ticks
unfolding phase
open_phase t h =
    let (released, status) = both t.released (is_pending t.status) h in
    rw (pending_eq t.status status, released) refl

stays : (tick : ℕ) (t : Task) → Follows tick t t
stays tick t = record { same_spec = refl; advances = remains (phase t) }

module _ (tick : ℕ) (t : Task) (o : not (is_open_task t) ≡ false) where
  Next : Phase → Type 0
  Next = Advances tick t.spec.deadline_tick t.spec.service_ticks (underway t.progress_ticks)

  follows : (u : Task) → u.spec ≡ t.spec → Next (phase u) → Follows tick t u
  unfolding Next
  follows u s n = record {
    same_spec = s;
    advances =
        subst (λ p. Advances tick t.spec.deadline_tick t.spec.service_ticks p (phase u))
          (sym (open_phase t o)) n;
  }

  with_progress : (k : ℕ) → Next (underway k) → Follows tick t (record t { progress_ticks = k })
  with_progress k n =
      follows (record t { progress_ticks = k }) refl
        (subst Next (sym (open_phase (record t { progress_ticks = k }) o)) n)

abbrev Served : Service → Task → Service × Task → Type 0
Served r t a = (a.0.simulator.tick ≡ r.simulator.tick) × Follows r.simulator.tick t a.1

arrive_at-Served :
    (r : Service) (v : Vehicle) (t : Task)
    → not (is_open_task t) ≡ false
    → r.simulator.tick ≤ t.spec.deadline_tick
    → t.spec.service_ticks ≡ 0
    → Served r t (arrive_at r v t)
unfolding arrive_at phase Next
arrive_at-Served r v t o d z =
    elim (Bool-cases (is_capable v t && leb_ℤ (distance_to v t) t.spec.completion_radius_mm)) [
      | inr away ↦ rw away (refl, stays r.simulator.tick t)
      | inl there ↦
          rw there
            (refl, follows r.simulator.tick t o _ refl (completes t.progress_ticks d (omega arith)))
    ]

serve_task-Served :
    (actions : ActionBatch) (r : Service) (v : Vehicle) (t : Task)
    → not (is_open_task t) ≡ false
    → r.simulator.tick ≤ t.spec.deadline_tick
    → Served r t (serve_task actions r v t)
unfolding serve_task phase Next
serve_task-Served actions r v t o d = elim (Bool-cases (can_serve actions v t)) [
  | inr unable ↦
      rw unable (refl, with_progress r.simulator.tick t o 0 (restarts t.progress_ticks d))
  | inl able ↦ elim (Bool-cases (leb t.spec.service_ticks (add64 t.progress_ticks 1))) [
    | inl done ↦
        rw (able, done)
          (refl, follows r.simulator.tick t o _ refl (completes t.progress_ticks d (ground arith)))
    | inr goes_on ↦
        rw (able, goes_on)
          (
            refl,
            with_progress r.simulator.tick t o (add64 t.progress_ticks 1)
                (serves t.progress_ticks d (ground arith)),
          )
  ]
]

missed-Served :
    (r : Service) (t : Task)
    → not (is_open_task t) ≡ false
    → t.spec.deadline_tick < r.simulator.tick
    → Follows r.simulator.tick t (record t { status = missed; progress_ticks = 0 })
unfolding phase Next
missed-Served r t o d = follows r.simulator.tick t o _ refl (expires t.progress_ticks d)

update_task-Served :
    (actions : ActionBatch) (r : Service) (t : Task)
    → Ensures (Served r t) (update_task actions r t)
unfolding update_task
update_task-Served actions r t =
    Ensures-if (Served r t) (not (is_open_task t)) _ _ (λ _. (refl, stays r.simulator.tick t))
      (λ o.
        Ensures-if (Served r t) (ltb t.spec.deadline_tick r.simulator.tick) _ _
          (λ late. (refl, missed-Served r t o (ltb→lt _ _ late)))
          (λ timely.
            let d = not_late t.spec.deadline_tick r.simulator.tick timely in
            Ensures-if (Served r t) (is_empty t.assigned_agent_id) _ _
              (λ _. (refl, stays r.simulator.tick t))
              (λ _. Ensures-bind (Served r t) (vehicle r.simulator t.assigned_agent_id) _ (λ v _.
                Ensures-if (Served r t) (t.spec.service_ticks == 0) _ _
                  (λ z. arrive_at-Served r v t o d ((==_iff _ _).0 z))
                  (λ _. serve_task-Served actions r v t o d)))))
  where
    not_late : (deadline tick : ℕ) → ltb deadline tick ≡ false → tick ≤ deadline
    not_late deadline tick h = ground arith

-- Each task of the one list follows the task in its place in the other.
abbrev pub AllFollow : ℕ → List Task → List Task → Type 0
AllFollow tick [] [] = Unit
AllFollow tick (t ∷ ts) (u ∷ us) = Follows tick t u × AllFollow tick ts us
AllFollow tick [] (u ∷ us) = ⊥
AllFollow tick (t ∷ ts) [] = ⊥

update_each-AllFollow :
    (actions : ActionBatch) (tick : ℕ) (r : Service) (ts : List Task)
    → r.simulator.tick ≡ tick
    → Ensures (λ a. AllFollow tick ts a.1) (update_each actions r ts)
unfolding update_each
update_each-AllFollow actions tick r [] e = tt
update_each-AllFollow actions tick r (t ∷ ts) e =
    Ensures-bind goal (update_task actions r t) _ (λ a k.
      let p =
        Ensures-elim (Served r t) (update_task actions r t) (update_task-Served actions r t) k in
      Ensures-bind goal (update_each actions a.0 ts) _ (λ rest m. (
        subst (λ n. Follows n t a.1) e p.1,
        Ensures-elim (λ b. AllFollow tick ts b.1) (update_each actions a.0 ts)
            (update_each-AllFollow actions tick a.0 ts (p.0 ∙ e)) m,
      )))
  where
    goal : Service × List Task → Type 0
    goal a = AllFollow tick (t ∷ ts) a.1

begin_convergence-tasks : (s : Simulator) → (begin_convergence s).tasks ≡ s.tasks
unfolding begin_convergence
begin_convergence-tasks s =
    either_branch (λ (x : Simulator). x.tasks ≡ s.tasks) (is_scripted s.scenario.allocation_policy)
      _ _ refl refl

-- The update of the tasks in a tick refines the machine of phases: every task keeps its specification,
-- and one that is not released, missed or completed stays so; a released one may count a tick of
-- service, start over, be completed not after its deadline and with its service done, or be missed
-- after its deadline.
pub update_tasks-AllFollow :
    (s : Simulator) (actions : ActionBatch)
    → Ensures (λ s'. AllFollow s.tick s.tasks s'.tasks) (update_tasks s actions)
unfolding update_tasks
update_tasks-AllFollow s actions =
    Ensures-bind (λ s'. AllFollow s.tick s.tasks s'.tasks)
      (update_each actions (record { simulator = s; eligible_changed = false }) s.tasks) _
      (λ r e.
        let s' : Simulator = record r.0.simulator { tasks = r.1 } in
        let h =
          Ensures-elim (λ b. AllFollow s.tick s.tasks b.1)
            (update_each actions (record { simulator = s; eligible_changed = false }) s.tasks)
            (update_each-AllFollow actions s.tick
              (record { simulator = s; eligible_changed = false }) s.tasks refl)
            e in
        either_branch (λ (x : Simulator). AllFollow s.tick s.tasks x.tasks) r.0.eligible_changed
          (begin_convergence s') s'
          (subst (AllFollow s.tick s.tasks) (sym (begin_convergence-tasks s')) h) h)
