-- ===== src/Core/Simulator/Summary.antt =====
-- `Simulator::summary` of core/src/simulator.cpp.
use sentinel_public.Prelude.{
  ℕ, ◌%◌, ◌^◌, Bool, true, false, List, [], ◌∷◌, ◌++◌, keep, length, ltb, ◌==◌, if◌then◌else◌,
}
use sentinel_public.Prelude.Word.{sub64, mul64}
use sentinel_public.Protocol.Actions.{AllocationConvergence, TaskReassignment}
use sentinel_public.Protocol.Observations.{SimulationSummary}
use sentinel_public.Core.Simulator.State.{Simulator, is_completed}

-- How many elements pass the test, in 32 bits.
abbrev pub count32 {ℓ} : {A : Type ℓ} → (A → Bool) → List A → ℕ
count32 p xs = length (keep p xs) % 2 ^ 32

abbrev pub larger : ℕ → ℕ → ℕ
larger a b = if ltb a b then b else a

-- The longest delay from the detection of a failure to the commit of a task that it orphaned.
unfoldable pub maximum_delay : ℕ → ℕ → List TaskReassignment → ℕ
maximum_delay step_ms longest [] = longest
maximum_delay step_ms longest (x ∷ xs) =
    let next =
      if x.complete
      then larger longest (mul64 (sub64 x.commit_tick x.detection_tick) step_ms)
      else longest in
    maximum_delay step_ms next xs

-- The measurement that is still open.
unfoldable pub open_sample : Simulator → List AllocationConvergence
open_sample s =
    if s.convergence.is_open
    then record {
      epoch = s.allocation_epoch;
      start_tick = s.convergence.start_tick;
      end_tick = s.tick;
      complete = false;
    }
      ∷ []
    else []

unfoldable pub summary : Simulator → SimulationSummary
unfolding is_completed maximum_delay open_sample
summary s =
    let completed = count32 (λ t. is_completed t.status) s.tasks in
    record {
      success = completed == length s.tasks;
      ticks = s.tick;
      terminal_hash = s.state_hash;
      tick_hashes = s.tick_hashes;
      completed_tasks = completed;
      total_tasks = length s.tasks % 2 ^ 32;
      active_agents = count32 (λ v. v.active) s.vehicles;
      wait_ticks = s.measures.wait_ticks;
      replan_count = s.measures.replan_count;
      recharge_ticks = s.measures.recharge_ticks;
      return_ticks = s.measures.return_ticks;
      route_conflicts = s.reservations.conflicts;
      travel_distance_mm = s.measures.travel_distance_mm;
      energy_consumed_mj = s.measures.energy_consumed_mj;
      rejected_commits = s.measures.rejected_commits;
      communication_bytes = s.network.communication_bytes;
      communication_messages = s.network.communication_messages;
      delivered_messages = s.network.delivered_messages;
      dropped_messages = s.network.dropped_messages;
      reordered_messages = s.network.reordered_messages;
      allocation_convergence = s.allocation_convergence ++ open_sample s;
      failure_detections = s.failure_detections;
      task_reassignments = s.task_reassignments;
      replanning_samples = s.replanning_samples;
      maximum_reassignment_delay_ms = maximum_delay s.scenario.step_ms 0 s.task_reassignments;
      missing_reassignments =
          count32 (λ x. if x.complete then false else true) s.task_reassignments;
      agent_energy_never_drops_below_zero = s.violations.agent_energy_below_zero == 0;
      agent_energy_below_zero_violations = s.violations.agent_energy_below_zero;
      committed_reservations_never_overlap = s.violations.committed_reservation_overlap == 0;
      committed_reservation_overlap_violations = s.violations.committed_reservation_overlap;
      completed_tasks_are_never_reassigned = s.violations.completed_task_reassignment == 0;
      completed_task_reassignment_violations = s.violations.completed_task_reassignment;
      incapable_agents_never_commit_tasks = s.violations.incapable_agent_commit == 0;
      incapable_agent_commit_violations = s.violations.incapable_agent_commit;
    }
