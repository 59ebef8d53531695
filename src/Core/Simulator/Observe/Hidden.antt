-- ===== src/Core/Simulator/Observe/Hidden.antt =====
-- What `Simulator::observe` of core/src/simulator.cpp keeps from an agent.
use sentinel_public.Prelude.{
  ℕ, ◌≡◌, refl, sym, ap, ◌∙◌, true, false, List, [], ◌∷◌, Option, none, some, Bool-cases,
  Option-cases, inl, inr, get_elem?,
}
use sentinel_public.Prelude.Int.{pos}
use sentinel_public.Prelude.Text.{Text, text_eq}
use sentinel_public.Prelude.Keyed.{find_key}
use sentinel_public.Protocol.Messages.{TaskStatus, TaskState}
use sentinel_public.Protocol.Actions.{TaskSpec, AllocationState, AllocationCommit}
use sentinel_public.Core.Simulator.State.{Vehicle, Task, Simulator, is_scripted, task_state}
use sentinel_public.Core.Simulator.Observe.{
  detected, reachable, seen_owner, projected, Shown, place_task, show_task, show_tasks,
  own_detections, observe_from,
}

-- Two tasks that may differ only in who has the task, which is not the agent, under which claim, and
-- how far the service is.
pub record IsAlike (self : Text) (t u : Task) : Type 0 where
  pub spec : t.spec ≡ u.spec
  pub released : t.released ≡ u.released
  pub status : t.status ≡ u.status
  pub owned : text_eq t.assigned_agent_id self ≡ text_eq u.assigned_agent_id self
  pub same : text_eq t.assigned_agent_id self ≡ true → t ≡ u

unfoldable pub AreAlike : Text → List Task → List Task → Type 0
AreAlike self [] [] = Unit {0}
AreAlike self (t ∷ ts) (u ∷ us) = IsAlike self t u × AreAlike self ts us
AreAlike self _ _ = ⊥

abbrev with_tasks : Simulator → List Task → Simulator
with_tasks s us = record s { tasks = us }

-- A task without its owner and its progress.
abbrev bare : TaskSpec → TaskStatus → TaskState
bare spec status = record {
  id = spec.id;
  kind = spec.kind;
  target = spec.target;
  required_capability = spec.required_capability;
  payload_required_grams = spec.payload_required_grams;
  deadline_tick = spec.deadline_tick;
  completion_radius_mm = spec.completion_radius_mm;
  assigned_agent_id = [];
  status = status;
  service_ticks = spec.service_ticks;
  service_energy_mj_per_tick = spec.service_energy_mj_per_tick;
  progress_ticks = 0;
  allocation_epoch = 0;
  allocation_version = 0;
  priority = spec.priority;
  allocation_score = pos 0;
  bundle_position = 0;
}

-- The view of a task that another agent has, or nobody.
abbrev seen : Simulator → Text → AllocationState → TaskSpec → TaskStatus → TaskState
seen s self view spec status =
    seen_owner s self (bare spec status) (find_key (λ o. o.task_id) view.owners spec.id)

module _ (s : Simulator) (self : Text) (view : AllocationState) where
  projected-own :
      (t : Task) → text_eq t.assigned_agent_id self ≡ true → projected s self view t ≡ task_state t
  unfolding projected
  projected-own t h = rw h refl

  projected-other :
      (t : Task)
      → is_scripted s.scenario.allocation_policy ≡ false
      → text_eq t.assigned_agent_id self ≡ false
      → projected s self view t ≡ seen s self view t.spec t.status
  unfolding projected task_state
  projected-other t free h = rw h (rw free refl)

-- The same simulator with other tasks.
module _ (s : Simulator) (others : List Task) (self : Text) where
  reachable-swapped :
      (peers : List Vehicle) → reachable s self peers ≡ reachable (with_tasks s others) self peers
  unfolding reachable detected
  reachable-swapped [] = refl
  reachable-swapped (peer ∷ peers) = rw (reachable-swapped peers) refl

module _ (s : Simulator) (others : List Task) (self : Text) (view : AllocationState)
    (free : is_scripted s.scenario.allocation_policy ≡ false) where
  abbrev swapped : Simulator
  swapped = with_tasks s others

  seen_owner-swapped :
      (shown : TaskState) (o : Option AllocationCommit)
      → seen_owner s self shown o ≡ seen_owner swapped self shown o
  unfolding seen_owner detected
  seen_owner-swapped shown none = refl
  seen_owner-swapped shown (some owner) = refl

  projected-swapped :
      (t u : Task) → IsAlike self t u → projected s self view t ≡ projected swapped self view u
  projected-swapped t u h = elim (Bool-cases (text_eq t.assigned_agent_id self)) [
    | inl own ↦
        projected-own s self view t own
        ∙ ap task_state (h.same own)
        ∙ sym (projected-own swapped self view u (sym h.owned ∙ own))
    | inr other ↦
        projected-other s self view t free other
        ∙ ap (λ x. seen s self view x t.status) h.spec
        ∙ ap (seen s self view u.spec) h.status
        ∙ seen_owner-swapped _ _
        ∙ sym (projected-other swapped self view u free (sym h.owned ∙ other))
  ]

  show_task-swapped :
      (t u : Task) (rest : Shown)
      → IsAlike self t u
      → show_task s self view t rest ≡ show_task swapped self view u rest
  unfolding show_task
  show_task-swapped t u rest h = elim (Bool-cases (text_eq t.assigned_agent_id self)) [
    | inl own ↦ rw own (rw (sym h.owned ∙ own) (rw (h.same own) refl))
    | inr other ↦
        ap (λ b. place_task b (projected s self view t) (task_state t) rest) other
        ∙ ap (λ x. place_task false x (task_state t) rest) (projected-swapped t u h)
        ∙ sym (
            ap (λ b. place_task b (projected swapped self view u) (task_state u) rest)
              (sym h.owned ∙ other))
  ]

  show_tasks-swapped :
      (ts us : List Task)
      → AreAlike self ts us
      → show_tasks s self view ts ≡ show_tasks swapped self view us
  unfolding show_tasks AreAlike
  show_tasks-swapped [] [] h = refl
  show_tasks-swapped [] (u ∷ us) h = elim h [ ]
  show_tasks-swapped (t ∷ ts) [] h = elim h [ ]
  show_tasks-swapped (t ∷ ts) (u ∷ us) h = rw (show_tasks-swapped ts us h.1) (
      rw (show_task-swapped t u (show_tasks swapped self view us) h.0)
        (rw h.0.released (rw h.0.status refl)))

-- Where tasks are allocated by the agents, what an agent is shown does not depend on which other agent
-- has a task, under which claim, or how far that agent is with it: from two states whose tasks differ in
-- nothing else, the agent receives one and the same envelope.
pub observe_from-hides :
    (s : Simulator) (others : List Task) (index : ℕ) (current : Vehicle)
    → is_scripted s.scenario.allocation_policy ≡ false
    → AreAlike current.spec.id s.tasks others
    → observe_from s index current ≡ observe_from (record s { tasks = others }) index current
unfolding observe_from own_detections
observe_from-hides s others index current free alike =
    let self = current.spec.id in
    let view = get_elem? s.allocation_views index in
    rw (reachable-swapped s others self s.vehicles) (elim (Option-cases view) [
      | inl absent ↦ rw absent refl
      | inr (v, there) ↦
          rw there (rw (show_tasks-swapped s others self v free s.tasks others alike) refl)
    ])
