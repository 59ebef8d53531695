-- ===== src/Planning/Bundle/Budget.antt =====
-- A bundle that `evaluate` accepts can be served: in time, and within the energy above the reserve.
use mathlib.Core.List.{append_assoc, append-nil}
use mathlib.Core.Option.{some-injective}
use sentinel_public.Prelude.{
  ℕ, ◌≤◌, ◌≡◌, refl, sym, ap, ◌∙◌, subst, Bool, true, false, not, ◌||◌, List, [], ◌∷◌, ◌++◌, Option,
  none, some, ◌==◌, Bool-cases, inl, inr, arith,
}
use sentinel_public.Prelude.Int.{ℤ, pos, ◌-ℤ◌, ◌≤ℤ◌, ltb_ℤ}
use sentinel_public.Protocol.Messages.{VehicleState, TaskState}
use sentinel_public.Planning.Geometry.{Coordinate, coordinate, has_capability}
use sentinel_public.Planning.Energy.{reserve_energy}
use sentinel_public.Planning.Claims.{Router, Route, is_pending, task_refused, only_if}
use sentinel_public.Planning.Bundle.{
  no_evaluation, BundleEvaluation, extend, exceeds, payload_after, target_of, visit, visit_all,
  evaluate,
}

-- One completion tick for each task, by its deadline; the vehicle has the capability for the task.
abbrev pub AreServed : VehicleState → List TaskState → List ℕ → Type 0
AreServed v [] [] = Unit
AreServed v [] (c ∷ cs) = true ≡ false
AreServed v (t ∷ ts) [] = true ≡ false
AreServed v (t ∷ ts) (c ∷ cs) =
    (is_pending t.status ≡ true)
    × (has_capability v t.required_capability ≡ true)
    × (c ≤ t.deadline_tick)
    × AreServed v ts cs

pub only_if-eq-some :
    {A : Type 0} (p : A → Bool) (a b : A) → only_if p (some a) ≡ some b → (p a ≡ true) × (a ≡ b)
only_if-eq-some p a b h = elim (Bool-cases (p a)) [
  | inl y ↦ (y, cc (rw y at h))
  | inr n ↦ cc (rw n at h)
]

within :
    (available : ℤ) (t : TaskState) (r : BundleEvaluation)
    → not (exceeds available t r) ≡ true
    → (r.energy_mj ≤ℤ available) × (r.completion_tick ≤ t.deadline_tick)
unfolding exceeds
within available t r h = ground arith

allowed :
    (v : VehicleState) (t : TaskState) (payload : ℤ) (tick : ℕ)
    → task_refused v t payload tick ≡ false
    → (is_pending t.status ≡ true) × (has_capability v t.required_capability ≡ true)
unfolding task_refused
allowed v t payload tick h = ground arith

module _ (route_from : Router) (v : VehicleState) (available : ℤ) where
  -- What one accepted round did.
  record Visited (t : TaskState) (result result' : BundleEvaluation) : Type 0 where
    is_pending_task : is_pending t.status ≡ true
    is_capable : has_capability v t.required_capability ≡ true
    energy : result'.energy_mj ≤ℤ available
    deadline : result'.completion_tick ≤ t.deadline_tick
    ticks :
        result'.task_completion_ticks ≡ result.task_completion_ticks ++ result'.completion_tick ∷ []

  accepted :
      (t : TaskState) (result result' : BundleEvaluation) (route : Route) (payload : ℤ)
      → task_refused v t payload result.completion_tick ≡ false
      → only_if (λ r. not (exceeds available t r)) (some (extend result t route)) ≡ some result'
      → Visited t result result'
  unfolding extend
  accepted t result result' route payload h e =
      let (fits, same) =
        only_if-eq-some (λ r. not (exceeds available t r)) (extend result t route) result' e in
      let (energy, deadline) = within available t (extend result t route) fits in
      let (is_pending_task, is_capable) = allowed v t payload result.completion_tick h in
      subst (Visited t result) same (record {
        is_pending_task = is_pending_task;
        is_capable = is_capable;
        energy = energy;
        deadline = deadline;
        ticks = refl;
      })

  visit-Visited :
      (t : TaskState) (result : BundleEvaluation) (position : Coordinate) (payload : ℤ)
      (result' : BundleEvaluation)
      → visit route_from v available t result position payload ≡ some result'
      → Visited t result result'
  unfolding visit
  visit-Visited t result position payload result' e =
      elim (Bool-cases (task_refused v t payload result.completion_tick)) [
        | inl refused ↦ cc (rw refused at e)
        | inr h ↦ found (route_from v position (target_of t)) h (rw h at e)
      ]
    where
      found :
          (o : Option Route)
          → task_refused v t payload result.completion_tick ≡ false
          → elim o [
            | none ↦ none
            | some route ↦ only_if (λ r. not (exceeds available t r)) (some (extend result t route))
          ]
            ≡ some result'
          → Visited t result result'
      found none h e' = cc
      found (some route) h e' = accepted t result result' route payload h e'

  -- The ticks that a run appends, and its energy.
  abbrev Served : List TaskState → BundleEvaluation → BundleEvaluation → Type 0
  Served ts result e =
      (e.energy_mj ≤ℤ available)
      × (ticks : List ℕ) × (e.task_completion_ticks ≡ result.task_completion_ticks ++ ticks)
      × AreServed v ts ticks

  round :
      (t : TaskState) (ts : List TaskState) (result : BundleEvaluation) (position : Coordinate)
      (payload : ℤ) (e : BundleEvaluation) (o : Option BundleEvaluation)
      → visit route_from v available t result position payload ≡ o
      → ((r : BundleEvaluation)
          → r.energy_mj ≤ℤ available
          → visit_all route_from v available ts r (target_of t) (payload_after t payload) ≡ some e
          → Served ts r e)
      → elim o [
        | none ↦ none
        | some r ↦ visit_all route_from v available ts r (target_of t) (payload_after t payload)
      ]
        ≡ some e
      → Served (t ∷ ts) result e
  round t ts result position payload e none q ih k = cc
  round t ts result position payload e (some r) q ih k =
      let visited = visit-Visited t result position payload r q in
      let (energy, ticks, same, served) = ih r visited.energy k in
      (
        energy,
        r.completion_tick ∷ ticks,
        same
            ∙ ap (λ xs. xs ++ ticks) visited.ticks
            ∙ append_assoc result.task_completion_ticks (r.completion_tick ∷ []) ticks,
        (visited.is_pending_task, visited.is_capable, visited.deadline, served),
      )

  visit_all-Served :
      (ts : List TaskState) (result : BundleEvaluation) (position : Coordinate) (payload : ℤ)
      (e : BundleEvaluation)
      → result.energy_mj ≤ℤ available
      → visit_all route_from v available ts result position payload ≡ some e
      → Served ts result e
  unfolding visit_all
  visit_all-Served [] result position payload e b h =
      subst (Served [] result) (some-injective result e h) (b, [], sym (append-nil _), tt)
  visit_all-Served (t ∷ ts) result position payload e b h =
      round t ts result position payload e (visit route_from v available t result position payload)
        refl (λ r. visit_all-Served ts r (target_of t) (payload_after t payload) e) h

-- A bundle that `evaluate` accepts takes no more energy than the vehicle has above its reserve, and
-- it has one completion tick for each task, in order, which is no later than that task's deadline;
-- each task is pending, and the vehicle has its capability.
pub evaluate-AreServed :
    (route_from : Router) (v : VehicleState) (tick step_ms : ℕ) (tasks : List TaskState)
    (e : BundleEvaluation)
    → evaluate route_from v tick step_ms tasks ≡ some e
    → (e.energy_mj ≤ℤ v.energy_mj -ℤ reserve_energy v) × AreServed v tasks e.task_completion_ticks
unfolding evaluate
evaluate-AreServed route_from v tick step_ms tasks e h =
    elim (Bool-cases (not v.active || step_ms == 0)) [
      | inl idle ↦ cc (rw idle at h)
      | inr moving ↦ elim (Bool-cases (ltb_ℤ (v.energy_mj -ℤ reserve_energy v) (pos 0))) [
        | inl low ↦ cc (rw (moving, low) at h)
        | inr enough ↦
            let (energy, ticks, same, served) =
              visit_all-Served route_from v (v.energy_mj -ℤ reserve_energy v) tasks
                (no_evaluation tick) (coordinate v.position.x_mm v.position.y_mm) v.payload_grams e
                (ground arith) (rw (moving, enough) at h) in
            (energy, subst (AreServed v tasks) (sym same) served)
      ]
    ]
