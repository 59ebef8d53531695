-- ===== src/Core/Simulator/Canon.antt =====
-- `canonicalize_actions` of core/src/simulator.cpp: the order and the checks of the agents' actions.
pub mod Senders
use sentinel_public.Prelude.{
  ℕ, zero, suc, ◌+◌, ◌*◌, ◌%◌, ◌^◌, Bool, true, false, not, ◌&&◌, ◌||◌, List, [], ◌∷◌, Option, none,
  some, length, ltb, leb, ◌==◌, bool_eq, if◌then◌else◌, Except, ok, throw, throw_if, ◌>>=◌, ◌>>◌,
  invalid_argument,
}
use sentinel_public.Prelude.Int.{ℤ, pos, ltb_ℤ}
use sentinel_public.Prelude.Text.{Text, codes, text_eq, text_lt, is_empty}
use sentinel_public.Prelude.Order.{tie, by, sort}
use sentinel_public.Prelude.Keyed.{repeats}
use sentinel_public.Prelude.Word.{add64, mul64}
use sentinel_public.Protocol.Messages.{NetworkMessage, LocationKind, charging}
use sentinel_public.Protocol.Actions.{
  TaskReportKind, working, rejected, BehaviorMode, ReplanReason, blockage, reservation, endurance,
  task, owner, AllocationState, AllocationCommit, TaskReport, FailureDetection,
  SpaceTimeReservation, ReplanningSample, AgentAction, Envelope, ActionBatch,
}
use sentinel_public.Core.Network.State.{message_order}
use sentinel_public.Core.Simulator.State.{
  Services, Vehicle, Simulator, vehicle, task as find_task, location,
}
use sentinel_public.Core.Simulator.Failures.{valid_detection}
use sentinel_public.Core.Simulator.Holds.{valid_reservation}
use sentinel_public.Core.Simulator.Views.{check_all, exists_or_throw, canonical_state}

unfoldable pub valid_behavior : BehaviorMode → Bool
valid_behavior (BehaviorMode.unrecognized n) = false
valid_behavior _ = true

unfoldable pub valid_report : TaskReportKind → Bool
valid_report working = true
valid_report rejected = true
valid_report _ = false

-- The values of the enumerators of `ReplanReason`.
unfoldable pub reason_number : ReplanReason → ℤ
reason_number ReplanReason.unspecified = pos 0
reason_number blockage = pos 1
reason_number reservation = pos 2
reason_number endurance = pos 3
reason_number task = pos 4
reason_number owner = pos 5
reason_number (ReplanReason.unrecognized n) = n

unfoldable pub valid_replan_reason : ReplanReason → Bool
valid_replan_reason ReplanReason.unspecified = false
valid_replan_reason (ReplanReason.unrecognized n) = false
valid_replan_reason _ = true

unfoldable pub is_charging : LocationKind → Bool
is_charging charging = true
is_charging _ = false

unfoldable pub proposal_order : SpaceTimeReservation → SpaceTimeReservation → Bool
proposal_order =
    tie (by (λ p. p.resource_id) text_lt)
      (tie (by (λ p. p.start_tick) ltb) (tie (by (λ p. p.end_tick) ltb) (by (λ p. p.version) ltb)))

unfoldable pub sample_order : ReplanningSample → ReplanningSample → Bool
unfolding reason_number
sample_order =
    tie (by (λ p. p.start_tick) ltb)
      (tie (by (λ p. reason_number p.reason) ltb_ℤ) (by (λ p. p.wait_plan) (λ a b. not a && b)))

abbrev pub by_task {ℓ} : {A : Type ℓ} → (A → Text) → List A → List A
by_task key = sort (by key text_lt)

unfoldable pub failed_order : FailureDetection → FailureDetection → Bool
failed_order = tie (by (λ d. d.failed_agent_id) text_lt) (by (λ d. d.detector_agent_id) text_lt)

-- An action with its sequences in order.
unfoldable pub sort_action : AgentAction → AgentAction
unfolding message_order failed_order proposal_order sample_order
sort_action action = record action {
  outgoing_messages = sort message_order action.outgoing_messages;
  allocation_commits = by_task (λ c. c.task_id) action.allocation_commits;
  task_reports = by_task (λ r. r.task_id) action.task_reports;
  failure_detections = sort failed_order action.failure_detections;
  reservation_proposals = sort proposal_order action.reservation_proposals;
  replanning_samples = sort sample_order action.replanning_samples;
}

-- Not the envelope that the vehicle at this index is to send in this tick.
unfoldable pub misaddressed : Simulator → ℕ → Vehicle → Envelope → Bool
unfolding valid_behavior
misaddressed s index current e =
    not (text_eq e.sender_id current.spec.id)
    || (not (e.schema_version == 1)
        || (not e.has_action
            || (not (text_eq e.recipient_id (codes "sim"))
                || (not (e.simulation_time_ms == mul64 s.tick s.scenario.step_ms)
                    || (not (e.sequence == add64 (mul64 s.tick (length s.vehicles)) (index + 1))
                        || (not (e.action.tick == s.tick)
                            || not (valid_behavior e.action.behavior_mode)))))))

unfoldable pub check_envelope : Simulator → ℕ → Vehicle → Envelope → Except (Unit {0})
unfolding misaddressed
check_envelope s index current e = throw_if (misaddressed s index current e) invalid_argument

unfoldable pub check_message : Simulator → Text → NetworkMessage → Except (Unit {0})
unfolding vehicle
check_message s sender m = do
  throw_if (not (text_eq m.sender_id sender) || m.version == 0) invalid_argument
  exists_or_throw (vehicle s m.recipient_id)

unfoldable pub check_commit : Simulator → Text → AllocationCommit → Except (Unit {0})
unfolding find_task
check_commit s sender commit = do
  throw_if (not (text_eq commit.agent_id sender) || (commit.epoch == 0 || commit.version == 0))
      invalid_argument
  exists_or_throw (find_task s commit.task_id)

unfoldable pub check_report : Simulator → TaskReport → Except (Unit {0})
unfolding find_task valid_report
check_report s report = do
  throw_if (not (valid_report report.kind)) invalid_argument
  exists_or_throw (find_task s report.task_id)

unfoldable pub check_detection : Simulator → Envelope → FailureDetection → Except (Unit {0})
unfolding valid_detection
check_detection s envelope detection = do
  valid ← valid_detection s detection envelope
  throw_if (not valid) invalid_argument

unfoldable pub check_proposal : Simulator → Envelope → SpaceTimeReservation → Except (Unit {0})
unfolding valid_reservation
check_proposal s envelope proposal =
    throw_if (not (valid_reservation s proposal envelope)) invalid_argument

unfoldable pub check_sample : Simulator → Text → ReplanningSample → Except (Unit {0})
unfolding valid_replan_reason
check_sample s sender sample =
    throw_if
      (not (text_eq sample.agent_id sender)
        || (not (valid_replan_reason sample.reason)
            || (ltb sample.end_tick sample.start_tick
                || (not (sample.end_tick == s.tick) || not sample.complete))))
      invalid_argument

unfoldable pub check_charge : Simulator → Text → Except (Unit {0})
unfolding location is_charging
check_charge s id =
    if is_empty id
    then ok tt
    else do target ← location s id; throw_if (not (is_charging target.kind)) invalid_argument

-- The checks on an action in order.
unfoldable pub check_action : Simulator → Envelope → Except (Unit {0})
unfolding check_message check_commit check_report check_detection check_proposal check_sample
    check_charge repeats
check_action s envelope = do
  let action = envelope.action
  let sender = envelope.sender_id
  check_all (check_message s sender) action.outgoing_messages
  check_all (check_commit s sender) action.allocation_commits
  check_all (check_report s) action.task_reports
  check_all (check_detection s envelope) action.failure_detections
  check_all (check_proposal s envelope) action.reservation_proposals
  check_all (check_sample s sender) action.replanning_samples
  throw_if
      (repeats (λ c. c.task_id) action.allocation_commits
        || (repeats (λ r. r.task_id) action.task_reports
            || repeats (λ d. d.failed_agent_id) action.failure_detections))
      invalid_argument
  check_charge s action.charge_location_id

abbrev pub with_state : Envelope → Option AllocationState → Envelope
with_state envelope state = record envelope {
  action = record (sort_action envelope.action) { allocation_state = state };
}

unfoldable pub canonical_envelope : Services → Simulator → ℕ → Vehicle → Envelope → Except Envelope
unfolding check_envelope canonical_state sort_action check_action
canonical_envelope env s index current envelope = do
  check_envelope s index current envelope
  state ← canonical_state env s envelope.sender_id envelope.action.allocation_state
  let sorted = with_state envelope state
  check_action s sorted
  ok sorted

-- The loop over the sorted actions and the vehicles, which are as many.
unfoldable pub canonical_all :
    Services → Simulator → ℕ → List Vehicle → List Envelope → Except (List Envelope)
unfolding canonical_envelope
canonical_all env s index vs [] = ok []
canonical_all env s index [] (e ∷ es) = throw invalid_argument
canonical_all env s index (v ∷ vs) (e ∷ es) = do
  e' ← canonical_envelope env s index v e
  es' ← canonical_all env s (suc index) vs es
  ok (e' ∷ es')

unfoldable pub canonicalize_actions : Services → Simulator → ActionBatch → Except ActionBatch
unfolding canonical_all
canonicalize_actions env s actions = do
  throw_if (not (actions.tick == s.tick) || not (length actions.actions == length s.vehicles))
      invalid_argument
  envelopes ←
      canonical_all env s 0 s.vehicles (sort (by (λ e. e.sender_id) text_lt) actions.actions)
  ok (record actions { actions = envelopes })
