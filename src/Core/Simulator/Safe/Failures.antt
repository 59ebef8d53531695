-- ===== src/Core/Simulator/Safe/Failures.antt =====
-- Detections of failures, and the monitors, keep the simulator (core/src/simulator.cpp) safe.
use sentinel_public.Prelude.{
  Bool, true, false, if◌then◌else◌, for_each, for_each-Ensures, Ensures, Ensures-bind, Ensures-if,
  Ensures-elim,
}
use sentinel_public.Protocol.Actions.{FailureDetection, ActionBatch}
use sentinel_public.Core.Simulator.State.{Simulator, vehicle, next_epoch}
use sentinel_public.Core.Simulator.Failures.{
  hear_detections, announce_failure, apply_failure_detections, update_monitors,
  update_failure_monitors,
}
use sentinel_public.Core.Simulator.Safe.{
  IsSafe, next_epoch-IsSafe, put_vehicle-IsSafe, vehicle-IsFit,
}

announce_failure-IsSafe :
    (r : Simulator × Bool) (d : FailureDetection)
    → IsSafe r.0
    → Ensures (λ r'. IsSafe r'.0) (announce_failure r d)
unfolding announce_failure
announce_failure-IsSafe r d h =
    Ensures-bind (λ r'. IsSafe r'.0) (vehicle r.0 d.failed_agent_id) _
      (λ failed e.
        Ensures-if (λ r'. IsSafe r'.0) failed.failure_announced _ _ (λ _. h)
          (λ _.
            put_vehicle-IsSafe (record failed { failure_announced = true })
              (vehicle-IsFit r.0 d.failed_agent_id h e) h))

pub apply_failure_detections-IsSafe :
    (s : Simulator) (actions : ActionBatch)
    → IsSafe s
    → Ensures IsSafe (apply_failure_detections s actions)
unfolding apply_failure_detections
apply_failure_detections-IsSafe s actions h =
    Ensures-bind IsSafe (for_each (hear_detections s) _ actions.actions) _ (λ d e.
      Ensures-bind IsSafe (for_each announce_failure _ d.first) _ (λ r k. announced r (
        Ensures-elim _ _
          (for_each-Ensures (λ r'. IsSafe r'.0) announce_failure announce_failure-IsSafe d.first _
            h)
          k)))
  where
    announced : (r : Simulator × Bool) → IsSafe r.0 → IsSafe (if r.1 then next_epoch r.0 else r.0)
    announced (s, true) h = next_epoch-IsSafe s h
    announced (s, false) h = h

pub update_failure_monitors-IsSafe :
    (s : Simulator) → IsSafe s → Ensures IsSafe (update_failure_monitors s)
unfolding update_failure_monitors
update_failure_monitors-IsSafe s h =
    Ensures-bind IsSafe (update_monitors s s.failure_monitors) _ (λ monitors e. h)
