-- ===== src/Core/Simulator/Safe/Commits.antt =====
-- Commits keep the simulator (core/src/simulator.cpp) safe: a task goes to an agent that can do it, and a
-- completed task goes to none.
use sentinel_public.Prelude.{
  ◌≡◌, refl, sym, ap, subst, ◌∙◌, Bool, true, false, not, ◌&&◌, List, [], ◌∷◌, All, some, ok,
  for_each, for_each-Ensures, Ensures, Ensures-bind, Ensures-if, Ensures-elim, Bool-cases,
  Option-cases, inl, inr,
}
use sentinel_public.Prelude.Text.{Text, text_eq}
use sentinel_public.Prelude.Keyed.{
  find_key, put_key, find_key-key, find_key-put, put_key-All, emplace_key-All,
}
use sentinel_public.Protocol.Messages.{AllocationPolicy, TaskStatus}
use sentinel_public.Protocol.Actions.{AllocationCommit, TaskReport, Envelope, ActionBatch}
use sentinel_public.Core.Simulator.State.{
  Services, Vehicle, Task, Simulator, vehicle_id, task_id, vehicle, task, is_pending, is_completed,
}
use sentinel_public.Core.Simulator.Counters.{is_incapable}
use sentinel_public.Core.Simulator.Commits.{
  Selection, commit_task, better_commit, enter_commit, consider_commit, consider_commits,
  valid_commit, assigned_by, apply_commit, apply_commits, no_selection, reject_commits,
  apply_rejection, apply_reports, apply_rejections, is_rejected,
}
use sentinel_public.Core.Simulator.Safe.{IsSafe, next_epoch-IsSafe, vehicle-eq-ok, task-eq-ok}
use sentinel_public.Core.Simulator.Safe.Capable.{CanTake, valid_commit-CanTake}

-- Every selected commit is of a pending task and an agent that can do it.
abbrev AreTakeable : List Vehicle → List Task → List AllocationCommit → Type 0
AreTakeable vs ts = All (CanTake vs ts)

module _ (vs : List Vehicle) (ts : List Task) where
  enter_commit-kept :
      (policy : AllocationPolicy) (r : Selection) (c : AllocationCommit)
      → CanTake vs ts c
      → AreTakeable vs ts r.chosen
      → AreTakeable vs ts (enter_commit policy r c).chosen
  unfolding enter_commit
  enter_commit-kept policy r c h k = elim (Option-cases (find_key commit_task r.chosen c.task_id)) [
    | inl new ↦ rw (new, enter_commit) (emplace_key-All commit_task (CanTake vs ts) r.chosen c k h)
    | inr (previous, old) ↦
        rw (old, enter_commit)
          (elim (Bool-cases (better_commit policy c previous)) [
            | inl better ↦ rw better (put_key-All commit_task (CanTake vs ts) r.chosen c k h)
            | inr worse ↦ rw worse k
          ])
  ]

abbrev IsSelected : Simulator → Selection → Type 0
IsSelected s r = AreTakeable s.vehicles s.tasks r.chosen

module _ (env : Services) (s : Simulator) (safe : IsSafe s) where
  consider_commit-kept :
      (e : Envelope) (r : Selection) (c : AllocationCommit)
      → IsSelected s r
      → Ensures (IsSelected s) (consider_commit env s e r c)
  unfolding consider_commit
  consider_commit-kept envelope r c k =
      Ensures-bind (IsSelected s) (valid_commit env s c envelope) _ (λ valid e.
        Ensures-if (IsSelected s) valid _ _
          (λ v.
            enter_commit-kept s.vehicles s.tasks s.scenario.allocation_policy r c
              (valid_commit-CanTake env s c envelope safe (e ∙ ap ok v)) k)
          (λ _. k))

  consider_commits-kept :
      (r : Selection) (e : Envelope)
      → IsSelected s r
      → Ensures (IsSelected s) (consider_commits env s r e)
  unfolding consider_commits
  consider_commits-kept r envelope k =
      for_each-Ensures (IsSelected s) (consider_commit env s envelope)
        (consider_commit-kept envelope) envelope.action.allocation_commits r k

-- A task that was assigned is as pending as before, and asks for as much.
CanTake-assigned :
    (vs : List Vehicle) (ts : List Task) (t : Task) (c d : AllocationCommit)
    → find_key task_id ts c.task_id ≡ some t
    → CanTake vs ts d
    → CanTake vs (put_key task_id ts (assigned_by t c)) d
unfolding is_incapable
CanTake-assigned vs ts t c d found_t h u e =
    elim (find_key-put task_id ts (assigned_by t c) d.task_id e) [
      | inl same ↦ h u same
      | inr (is_new, key) ↦
          let its : find_key task_id ts d.task_id ≡ some t =
            ap (find_key task_id ts) (sym key ∙ find_key-key task_id ts c.task_id found_t)
            ∙ found_t in
          subst
            (λ x.
              (is_pending x.status ≡ true)
              × ((v : Vehicle)
                  → find_key vehicle_id vs d.agent_id ≡ some v
                  → is_incapable x v ≡ false))
            (sym is_new) (h t its)
    ]

pending_open : (status : TaskStatus) → is_pending status ≡ true → is_completed status ≡ false
unfolding is_pending is_completed
pending_open TaskStatus.unspecified h = refl
pending_open TaskStatus.pending h = refl
pending_open TaskStatus.completed h = cc
pending_open TaskStatus.missed h = refl

abbrev Applied : List AllocationCommit → Simulator → Type 0
Applied cs s = IsSafe s × AreTakeable s.vehicles s.tasks cs

All-assigned :
    (vs : List Vehicle) (ts : List Task) (t : Task) (c : AllocationCommit)
    (cs : List AllocationCommit)
    → find_key task_id ts c.task_id ≡ some t
    → AreTakeable vs ts cs
    → AreTakeable vs (put_key task_id ts (assigned_by t c)) cs
All-assigned vs ts t c [] f h = tt
All-assigned vs ts t c (d ∷ ds) f h =
    (CanTake-assigned vs ts t c d f h.0, All-assigned vs ts t c ds f h.1)

-- A commit of a pending task to an agent that can do it is no violation.
apply_commit-Applied :
    (s : Simulator) (c : AllocationCommit) (cs : List AllocationCommit)
    → CanTake s.vehicles s.tasks c
    → Applied cs s
    → Ensures (Applied cs) (apply_commit s c)
unfolding apply_commit
apply_commit-Applied s c cs can (h, rest) =
    Ensures-bind (Applied cs) (task s c.task_id) _ (λ t is_task.
      Ensures-bind (Applied cs) (vehicle s c.agent_id) _ (λ v is_vehicle.
        let found_t = task-eq-ok s c.task_id is_task in
        let (pending, able) = can t found_t in
        (
          record {
            fit = h.fit;
            ordered = h.ordered;
            chargers = h.chargers;
            table = h.table;
            clean =
                rw
                  (
                    h.clean,
                    pending_open t.status pending,
                    able v (vehicle-eq-ok s c.agent_id is_vehicle),
                  )
                  refl;
          },
          All-assigned s.vehicles s.tasks t c cs found_t rest,
        )))

apply_all-IsSafe :
    (cs : List AllocationCommit) (s : Simulator)
    → Applied cs s
    → Ensures IsSafe (for_each apply_commit s cs)
apply_all-IsSafe [] s h = h.0
apply_all-IsSafe (c ∷ cs) s (h, (can, rest)) = Ensures-bind IsSafe (apply_commit s c) _ (λ s' e.
    apply_all-IsSafe cs s'
      (Ensures-elim (Applied cs) (apply_commit s c) (apply_commit-Applied s c cs can (h, rest)) e))

pub apply_commits-IsSafe :
    (env : Services) (s : Simulator) (actions : ActionBatch) (fence : Bool)
    → IsSafe s
    → Ensures IsSafe (apply_commits env s actions fence)
unfolding apply_commits
apply_commits-IsSafe env s actions fence h =
    Ensures-if IsSafe fence _ _ (λ _. h)
      (λ _.
        Ensures-bind IsSafe (for_each (consider_commits env s) no_selection actions.actions) _
          (λ r e. apply_all-IsSafe r.chosen (reject_commits s r.rejected_count) (
            h,
            Ensures-elim (IsSelected s)
                (for_each (consider_commits env s) no_selection actions.actions)
                (for_each-Ensures (IsSelected s) (consider_commits env s)
                  (consider_commits-kept env s h) actions.actions no_selection tt)
                e,
          )))

apply_rejection-IsSafe :
    (sender : Text) (s : Simulator) (report : TaskReport)
    → IsSafe s
    → Ensures IsSafe (apply_rejection sender s report)
unfolding apply_rejection
apply_rejection-IsSafe sender s report h =
    Ensures-if IsSafe (not (is_rejected report.kind)) _ _ (λ _. h)
      (λ _. Ensures-bind IsSafe (task s report.task_id) _ (λ current e.
        Ensures-if IsSafe (is_pending current.status && text_eq current.assigned_agent_id sender) _
          _ (λ _. next_epoch-IsSafe _ h) (λ _. h)))

apply_reports-IsSafe :
    (s : Simulator) (e : Envelope) → IsSafe s → Ensures IsSafe (apply_reports s e)
unfolding apply_reports
apply_reports-IsSafe s envelope h =
    Ensures-bind IsSafe (vehicle s envelope.sender_id) _ (λ sender e.
      Ensures-if IsSafe (not sender.active) _ _ (λ _. h)
        (λ _.
          for_each-Ensures IsSafe (apply_rejection envelope.sender_id)
            (apply_rejection-IsSafe envelope.sender_id) envelope.action.task_reports s h))

pub apply_rejections-IsSafe :
    (s : Simulator) (actions : ActionBatch) → IsSafe s → Ensures IsSafe (apply_rejections s actions)
unfolding apply_rejections
apply_rejections-IsSafe s actions h =
    for_each-Ensures IsSafe apply_reports apply_reports-IsSafe actions.actions s h
