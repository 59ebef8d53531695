-- ===== src/Core/Simulator/Step.antt =====
-- `Simulator::step_internal` of core/src/simulator.cpp: a tick, and runs of ticks.
pub mod Replay
use sentinel_public.Prelude.{
  Bool, true, false, List, [], ◌∷◌, ◌++◌, Option, none, some, any, Except, ok, throw_if, ◌>>=◌,
  ◌>>◌, logic_error,
}
use sentinel_public.Prelude.Order.{sort}
use sentinel_public.Prelude.Word.{add64}
use sentinel_public.Protocol.Messages.{NetworkOutcome}
use sentinel_public.Protocol.Actions.{TapeEventKind, set_link_blocked, AppliedEvent, ActionBatch}
use sentinel_public.Protocol.Observations.{ObservationBatch}
use sentinel_public.Core.Network.State.{outcome_order}
use sentinel_public.Core.Simulator.State.{Services, Simulator, finished}
use sentinel_public.Core.Simulator.Canon.{canonicalize_actions}
use sentinel_public.Core.Simulator.Tape.{apply_events}
use sentinel_public.Core.Simulator.Motion.{apply_actions}
use sentinel_public.Core.Simulator.Failures.{update_failure_monitors}
use sentinel_public.Core.Simulator.Duties.{update_tasks}
use sentinel_public.Core.Simulator.Agreement.{update_convergence}
use sentinel_public.Core.Simulator.Digest.{compute_state_hash}
use sentinel_public.Core.Simulator.Observe.{observe}

-- What a step returns, with the state that it leaves.
pub record StepOutcome : Type 0 where
  pub simulator : Simulator
  pub actions : ActionBatch
  pub applied_events : List AppliedEvent
  pub network_outcomes : List NetworkOutcome
  pub observations : ObservationBatch

unfoldable pub is_set_link_blocked : TapeEventKind → Bool
is_set_link_blocked set_link_blocked = true
is_set_link_blocked _ = false

-- Link changes fence the coordination of the tick.
abbrev pub is_fence : List AppliedEvent → Bool
is_fence = any (λ e. is_set_link_blocked e.source.kind)

abbrev pub hashed : Services → Simulator → Simulator
hashed env s = record s {
  state_hash = compute_state_hash env s;
  tick_hashes = s.tick_hashes ++ compute_state_hash env s ∷ [];
}

unfoldable pub step_internal :
    Services → Simulator → ActionBatch → Option (List AppliedEvent) → Except StepOutcome
unfolding finished canonicalize_actions apply_events is_set_link_blocked apply_actions
    update_failure_monitors outcome_order update_tasks update_convergence compute_state_hash observe
step_internal env s given recorded = do
  throw_if (finished s) logic_error
  actions ← canonicalize_actions env s given
  tape ← apply_events env s recorded
  acted ← apply_actions env tape.simulator actions tape.outcomes (is_fence tape.events)
  watched ← update_failure_monitors acted.0
  let outcomes = sort outcome_order acted.1
  let next = record watched { network_outcomes = outcomes; tick = add64 watched.tick 1 }
  served ← update_tasks next actions
  agreed ← update_convergence env served
  observations ← observe (hashed env agreed)
  ok (record {
    simulator = hashed env agreed;
    actions = actions;
    applied_events = tape.events;
    network_outcomes = outcomes;
    observations = observations;
  })

unfoldable pub simulate : Services → Simulator → ActionBatch → Except StepOutcome
unfolding step_internal
simulate env s actions = step_internal env s actions none

unfoldable pub replay_step :
    Services → Simulator → ActionBatch → List AppliedEvent → Except StepOutcome
unfolding step_internal
replay_step env s actions events = step_internal env s actions (some events)

-- A run of ticks.
unfoldable pub run : Services → Simulator → List ActionBatch → Except Simulator
unfolding simulate
run env s [] = ok s
run env s (actions ∷ rest) = do outcome ← simulate env s actions; run env outcome.simulator rest
