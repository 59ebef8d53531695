-- ===== src/Planning/Bundle.antt =====
-- planning/src/planner.cpp: `BundleEvaluator`, which orders the tasks of one vehicle. The evaluation
-- asks the search for routes directly; Cache models the table of `route_to`.
pub mod Budget
pub mod Feasible
pub mod Choice
pub mod Cache
use sentinel_public.Prelude.{
  ℕ, zero, suc, ◌+◌, ◌-◌, ◌*◌, Bool, true, false, not, ◌&&◌, ◌||◌, List, [], ◌∷◌, ◌++◌, Option,
  none, some, length, get_elem?, insert_at, map, any, ltb, leb, ◌==◌, if◌then◌else◌,
}
use sentinel_public.Prelude.Int.{ℤ, pos, ◌+ℤ◌, ◌-ℤ◌, ◌*ℤ◌, ltb_ℤ, leb_ℤ, eq_ℤ}
use sentinel_public.Prelude.Text.{Text, text_eq, text_lt}
use sentinel_public.Prelude.Word.{add64, sub64}
use sentinel_public.Prelude.Order.{tie, by}
use sentinel_public.Prelude.Best.{pick_all, range}
use sentinel_public.Protocol.Messages.{
  Capability, capability_number, delivery, TaskStatus, pending, VehicleState, TaskState,
  AllocationClaim,
}
use sentinel_public.Planning.Geometry.{Coordinate, coordinate, has_capability}
use sentinel_public.Planning.Energy.{reserve_energy}
use sentinel_public.Planning.Claims.{Route, Router, remaining_service, task_refused, only_if}

pub record BundleEvaluation : Type 0 where
  pub distance_mm : ℤ
  pub energy_mj : ℤ
  pub completion_tick : ℕ
  pub task_completion_ticks : List ℕ

pub record BundleInsertion : Type 0 where
  pub index : ℕ
  pub score : ℤ
  pub distance_mm : ℤ
  pub energy_mj : ℤ
  pub completion_tick : ℕ

unfoldable pub is_delivery : Capability → Bool
is_delivery delivery = true
is_delivery _ = false

abbrev pub no_evaluation : ℕ → BundleEvaluation
no_evaluation tick = record {
  distance_mm = pos 0;
  energy_mj = pos 0;
  completion_tick = tick;
  task_completion_ticks = [];
}

-- The sums of `evaluate` for one task and the route to it.
unfoldable pub extend : BundleEvaluation → TaskState → Route → BundleEvaluation
unfolding remaining_service
extend result task route =
    let service = remaining_service task in
    let completion = add64 result.completion_tick (add64 route.travel_ticks service) in
    record {
      distance_mm = result.distance_mm +ℤ route.distance_mm;
      energy_mj =
          result.energy_mj +ℤ (route.energy_mj +ℤ pos service *ℤ task.service_energy_mj_per_tick);
      completion_tick = completion;
      task_completion_ticks = result.task_completion_ticks ++ completion ∷ [];
    }

-- The tests of `evaluate` after the sums.
unfoldable pub exceeds : ℤ → TaskState → BundleEvaluation → Bool
unfolding remaining_service
exceeds available task result =
    ltb_ℤ (pos (remaining_service task) *ℤ task.service_energy_mj_per_tick) (pos 0)
    || (ltb_ℤ available result.energy_mj || ltb task.deadline_tick result.completion_tick)

unfoldable pub payload_after : TaskState → ℤ → ℤ
unfolding is_delivery
payload_after task payload =
    if is_delivery task.required_capability then payload -ℤ task.payload_required_grams else payload

unfoldable pub target_of : TaskState → Coordinate
target_of task = coordinate task.target.x_mm task.target.y_mm

-- An insertion replaces the best so far: a larger score, then a smaller tuple.
unfoldable pub better : BundleInsertion → BundleInsertion → Bool
better insertion best =
    ltb_ℤ best.score insertion.score
    || (eq_ℤ insertion.score best.score
        && tie (by (λ i. i.distance_mm) ltb_ℤ)
            (tie (by (λ i. i.energy_mj) ltb_ℤ)
              (tie (by (λ i. i.completion_tick) ltb) (by (λ i. i.index) ltb)))
            insertion best)

-- The element of a vector; the source's indices are in range.
abbrev pub tick_at : List ℕ → ℕ → ℕ
tick_at ticks i = elim (get_elem? ticks i) [ none ↦ 0 | some t ↦ t ]

-- The sum of the delays of the `count` tasks from `task_index` on.
unfoldable pub delay_from : List ℕ → List ℕ → ℕ → ℕ → ℕ → ℕ → ℕ
delay_from evaluated current index task_index zero delay_ticks = delay_ticks
delay_from evaluated current index task_index (suc count) delay_ticks =
    let inserted_index = if ltb task_index index then task_index else task_index + 1 in
    let later = tick_at evaluated inserted_index in
    let sooner = tick_at current task_index in
    delay_from evaluated current index (suc task_index) count
      (if ltb sooner later then add64 delay_ticks (later - sooner) else delay_ticks)

-- The body of the loop of `best_insertion`, where the tasks with the candidate can be served.
unfoldable pub insertion_of :
    TaskState → BundleEvaluation → ℕ → ℕ → BundleEvaluation → BundleInsertion
unfolding delay_from
insertion_of candidate current count index evaluated =
    let delay_ticks =
      delay_from evaluated.task_completion_ticks current.task_completion_ticks index 0 count 0 in
    let distance = evaluated.distance_mm -ℤ current.distance_mm in
    let energy = evaluated.energy_mj -ℤ current.energy_mj in
    let completion = tick_at evaluated.task_completion_ticks index in
    let slack = sub64 candidate.deadline_tick completion in
    record {
      index = index;
      score =
          pos (candidate.priority * 1000000000000)
          +ℤ pos (slack * 1000000)
          -ℤ pos (delay_ticks * 1000000)
          -ℤ distance
          -ℤ energy;
      distance_mm = distance;
      energy_mj = energy;
      completion_tick = completion;
    }

module _ (route_from : Router) where
  -- One round of the loop of `evaluate`.
  unfoldable pub visit :
      VehicleState → ℤ → TaskState → BundleEvaluation → Coordinate → ℤ → Option BundleEvaluation
  unfolding task_refused extend exceeds target_of
  visit vehicle available task result position payload =
      if task_refused vehicle task payload result.completion_tick
      then none
      else elim (route_from vehicle position (target_of task)) [
        | none ↦ none
        | some route ↦
            only_if (λ r. not (exceeds available task r)) (some (extend result task route))
      ]

  unfoldable pub visit_all :
      VehicleState
      → ℤ
      → List TaskState
      → BundleEvaluation
      → Coordinate
      → ℤ
      → Option BundleEvaluation
  unfolding payload_after
  visit_all vehicle available [] result position payload = some result
  visit_all vehicle available (task ∷ tasks) result position payload =
      elim (visit vehicle available task result position payload) [
        | none ↦ none
        | some result' ↦
            visit_all vehicle available tasks result' (target_of task) (payload_after task payload)
      ]

  unfoldable pub evaluate : VehicleState → ℕ → ℕ → List TaskState → Option BundleEvaluation
  evaluate vehicle tick step_ms ordered_tasks =
      let available = vehicle.energy_mj -ℤ reserve_energy vehicle in
      if not vehicle.active || step_ms == 0
      then none
      else if ltb_ℤ available (pos 0)
      then none
      else visit_all vehicle available ordered_tasks (no_evaluation tick)
          (coordinate vehicle.position.x_mm vehicle.position.y_mm) vehicle.payload_grams

  unfoldable pub insertion_at :
      VehicleState
      → ℕ
      → ℕ
      → List TaskState
      → TaskState
      → BundleEvaluation
      → ℕ
      → Option BundleInsertion
  unfolding insertion_of
  insertion_at vehicle tick step_ms ordered_tasks candidate current index =
      elim (evaluate vehicle tick step_ms (insert_at ordered_tasks index candidate)) [
        | none ↦ none
        | some evaluated ↦
            some (insertion_of candidate current (length ordered_tasks) index evaluated)
      ]

  unfoldable pub best_insertion :
      VehicleState → ℕ → ℕ → List TaskState → TaskState → ℕ → Option BundleInsertion
  unfolding better insertion_at
  best_insertion vehicle tick step_ms ordered_tasks candidate minimum_index =
      if ltb (length ordered_tasks) minimum_index
        || any (λ t. text_eq t.id candidate.id) ordered_tasks
      then none
      else elim (evaluate vehicle tick step_ms ordered_tasks) [
        | none ↦ none
        | some current ↦ pick_all better none (
            map (insertion_at vehicle tick step_ms ordered_tasks candidate current)
              (range minimum_index (suc (length ordered_tasks) - minimum_index)))
      ]
