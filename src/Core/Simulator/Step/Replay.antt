-- ===== src/Core/Simulator/Step/Replay.antt =====
-- `Simulator::step` and `Simulator::replay_step` of core/src/simulator.cpp agree.
use sentinel_public.Prelude.{
  ◌≡◌, refl, none, ok, throw_if, Ensures, Ensures-bind, Ensures-elim, logic_error,
}
use sentinel_public.Prelude.Order.{sort}
use sentinel_public.Prelude.Word.{add64}
use sentinel_public.Protocol.Actions.{ActionBatch}
use sentinel_public.Core.Network.State.{outcome_order}
use sentinel_public.Core.Simulator.State.{Services, Simulator, finished}
use sentinel_public.Core.Simulator.Canon.{canonicalize_actions}
use sentinel_public.Core.Simulator.Tape.{apply_events}
use sentinel_public.Core.Simulator.Tape.Replay.{AreReplayed, apply_events-AreReplayed}
use sentinel_public.Core.Simulator.Motion.{apply_actions}
use sentinel_public.Core.Simulator.Failures.{update_failure_monitors}
use sentinel_public.Core.Simulator.Duties.{update_tasks}
use sentinel_public.Core.Simulator.Agreement.{update_convergence}
use sentinel_public.Core.Simulator.Observe.{observe}
use sentinel_public.Core.Simulator.Step.{
  StepOutcome, is_fence, hashed, step_internal, simulate, replay_step,
}

-- What a live step returns, a replay of it from the events that it applied returns again: the state,
-- its digest, the actions, the events, the outcomes and the observations are the same, and none of the
-- checks on a record refuses one that a live step has made.
pub simulate-replay_step :
    (env : Services) (s : Simulator) (given : ActionBatch)
    → Ensures (λ o. replay_step env s given o.applied_events ≡ ok o) (simulate env s given)
unfolding simulate replay_step step_internal
simulate-replay_step env s given = Ensures-bind goal (throw_if (finished s) logic_error) _ (λ u e0.
    Ensures-bind goal (canonicalize_actions env s given) _ (λ actions e1.
      Ensures-bind goal (apply_events env s none) _ (λ tape e2.
        let again =
          Ensures-elim (AreReplayed env s) (apply_events env s none)
            (apply_events-AreReplayed env s) e2 in
        let acting =
          apply_actions env tape.simulator actions tape.outcomes (is_fence tape.events) in
        Ensures-bind goal acting _ (λ acted e3.
          Ensures-bind goal (update_failure_monitors acted.0) _ (λ watched e4.
            let next : Simulator = record watched {
              network_outcomes = sort outcome_order acted.1;
              tick = add64 watched.tick 1;
            } in
            Ensures-bind goal (update_tasks next actions) _ (λ served e5.
              Ensures-bind goal (update_convergence env served) _ (λ agreed e6.
                Ensures-bind goal (observe (hashed env agreed)) _ (λ seen e7.
                  rw e0 (rw e1 (rw again (rw e3 (rw e4 (rw e5 (rw e6 (rw e7 refl)))))))))))))))
  where
    goal : StepOutcome → Type 0
    goal o = replay_step env s given o.applied_events ≡ ok o
