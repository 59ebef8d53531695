-- ===== src/Core/Simulator/Safe/Run.antt =====
-- A tick of the simulator (core/src/simulator.cpp), and a run of ticks, counts no violation.
use sentinel_public.Prelude.{
  ◌+◌, ◌%◌, ◌^◌, Bool, not, ltb, either_branch, List, [], ◌∷◌, Option, none, some, throw_if,
  logic_error, Ensures, Ensures-bind, Ensures-elim,
}
use sentinel_public.Prelude.Word.{add64}
use sentinel_public.Prelude.Text.{Text, text_eq}
use sentinel_public.Prelude.Order.{sort}
use sentinel_public.Protocol.Messages.{NetworkOutcome}
use sentinel_public.Protocol.Actions.{AppliedEvent, ActionBatch}
use sentinel_public.Core.Network.State.{outcome_order}
use sentinel_public.Core.Network.Step.{step}
use sentinel_public.Core.Simulator.State.{Services, Simulator, finished}
use sentinel_public.Core.Simulator.Canon.{canonicalize_actions}
use sentinel_public.Core.Simulator.Tape.{apply_events}
use sentinel_public.Core.Simulator.Commits.{apply_commits, apply_rejections}
use sentinel_public.Core.Simulator.Holds.{apply_reservations}
use sentinel_public.Core.Simulator.Motion.{act_all, apply_actions}
use sentinel_public.Core.Simulator.Failures.{apply_failure_detections, update_failure_monitors}
use sentinel_public.Core.Simulator.Duties.{update_tasks}
use sentinel_public.Core.Simulator.Agreement.{agreement, settle, settle_on, update_convergence}
use sentinel_public.Core.Simulator.Observe.{observe}
use sentinel_public.Core.Simulator.Step.{
  hashed, StepOutcome, is_fence, step_internal, simulate, run,
}
use sentinel_public.Core.Simulator.Safe.{IsSafe}
use sentinel_public.Core.Simulator.Safe.Failures.{
  apply_failure_detections-IsSafe, update_failure_monitors-IsSafe,
}
use sentinel_public.Core.Simulator.Safe.Commits.{apply_commits-IsSafe, apply_rejections-IsSafe}
use sentinel_public.Core.Simulator.Safe.Holds.{apply_reservations-IsSafe}
use sentinel_public.Core.Simulator.Safe.Motion.{act_all-IsSafe}
use sentinel_public.Core.Simulator.Safe.Duties.{update_tasks-IsSafe}
use sentinel_public.Core.Simulator.Safe.Tape.{apply_events-IsSafe}

module _ (env : Services) where
  abbrev IsSafeFirst : Simulator × List NetworkOutcome → Type 0
  IsSafeFirst r = IsSafe r.0

  apply_actions-IsSafe :
      (s : Simulator) (actions : ActionBatch) (outcomes : List NetworkOutcome) (fence : Bool)
      → IsSafe s
      → Ensures IsSafeFirst (apply_actions env s actions outcomes fence)
  unfolding apply_actions
  apply_actions-IsSafe s actions outcomes fence h =
      Ensures-bind IsSafeFirst (apply_failure_detections s actions) _ (λ s1 e1.
        let h1 =
          Ensures-elim IsSafe (apply_failure_detections s actions)
            (apply_failure_detections-IsSafe s actions h) e1 in
        Ensures-bind IsSafeFirst (apply_commits env s1 actions fence) _ (λ s2 e2.
          let h2 =
            Ensures-elim IsSafe (apply_commits env s1 actions fence)
              (apply_commits-IsSafe env s1 actions fence h1) e2 in
          Ensures-bind IsSafeFirst (apply_rejections s2 actions) _ (λ s3 e3.
            let h3 =
              Ensures-elim IsSafe (apply_rejections s2 actions)
                (apply_rejections-IsSafe s2 actions h2) e3 in
            Ensures-bind IsSafeFirst (apply_reservations s3 actions fence) _ (λ s4 e4.
              let h4 =
                Ensures-elim IsSafe (apply_reservations s3 actions fence)
                  (apply_reservations-IsSafe s3 actions fence h3) e4 in
              Ensures-bind IsSafeFirst (act_all s4 0 actions.actions) _ (λ r e5.
                let h5 =
                  Ensures-elim (λ r. IsSafe r.0) (act_all s4 0 actions.actions)
                    (act_all-IsSafe s4 0 actions.actions h4) e5 in
                Ensures-bind IsSafeFirst (step env.envelope_size r.0.network r.0.tick r.1) _
                  (λ n e6. h5))))))

  settle_on-IsSafe : (s : Simulator) (o : Option Text) → IsSafe s → IsSafe (settle_on s o)
  unfolding settle
  settle_on-IsSafe s none h = h
  settle_on-IsSafe s (some signature) h =
      either_branch IsSafe (not (text_eq signature s.convergence.signature)) _ _ h
        (either_branch IsSafe (ltb ((s.convergence.stable_ticks + 1) % 2 ^ 32) 10) _ _ h h)

  update_convergence-IsSafe : (s : Simulator) → IsSafe s → Ensures IsSafe (update_convergence env s)
  unfolding update_convergence
  update_convergence-IsSafe s h =
      Ensures-bind IsSafe (agreement env s) _ (λ o e. settle_on-IsSafe s o h)

  -- On a safe state, a step that returns, of a live run or of a replay, leaves a safe state: no energy
  -- is negative, no two committed reservations overlap, and the four counts of violations are zero.
  pub step_internal-IsSafe :
      (s : Simulator) (actions : ActionBatch) (recorded : Option (List AppliedEvent))
      → IsSafe s
      → Ensures (λ o. IsSafe o.simulator) (step_internal env s actions recorded)
  unfolding step_internal
  step_internal-IsSafe s given recorded h =
      Ensures-bind goal (throw_if (finished s) logic_error) _ (λ _ _.
        Ensures-bind goal (canonicalize_actions env s given) _ (λ actions _.
          Ensures-bind goal (apply_events env s recorded) _ (λ tape e1.
            let h1 =
              Ensures-elim (λ r. IsSafe r.simulator) (apply_events env s recorded)
                (apply_events-IsSafe env s recorded h) e1 in
            let acting =
              apply_actions env tape.simulator actions tape.outcomes (is_fence tape.events) in
            Ensures-bind goal acting _ (λ acted e2.
              let h2 =
                Ensures-elim IsSafeFirst acting
                  (apply_actions-IsSafe tape.simulator actions tape.outcomes (is_fence tape.events)
                    h1)
                  e2 in
              Ensures-bind goal (update_failure_monitors acted.0) _ (λ watched e3.
                let h3 =
                  Ensures-elim IsSafe (update_failure_monitors acted.0)
                    (update_failure_monitors-IsSafe acted.0 h2) e3 in
                let next : Simulator = record watched {
                  network_outcomes = sort outcome_order acted.1;
                  tick = add64 watched.tick 1;
                } in
                Ensures-bind goal (update_tasks next actions) _ (λ served e4.
                  let h4 =
                    Ensures-elim IsSafe (update_tasks next actions)
                      (update_tasks-IsSafe next actions h3) e4 in
                  Ensures-bind goal (update_convergence env served) _ (λ agreed e5.
                    Ensures-bind goal (observe (hashed env agreed)) _ (λ seen e6.
                      Ensures-elim IsSafe (update_convergence env served)
                        (update_convergence-IsSafe served h4) e5))))))))
    where
      goal : StepOutcome → Type 0
      goal o = IsSafe o.simulator

  pub run-IsSafe :
      (s : Simulator) (batches : List ActionBatch) → IsSafe s → Ensures IsSafe (run env s batches)
  unfolding run simulate
  run-IsSafe s [] h = h
  run-IsSafe s (actions ∷ rest) h = Ensures-bind IsSafe (simulate env s actions) _ (λ o e.
      run-IsSafe o.simulator rest (
        Ensures-elim (λ o. IsSafe o.simulator) (simulate env s actions)
          (step_internal-IsSafe s actions none h) e))
