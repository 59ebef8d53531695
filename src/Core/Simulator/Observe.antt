-- ===== src/Core/Simulator/Observe.antt =====
-- `Simulator::observe` of core/src/simulator.cpp: what each agent is shown of the state.
pub mod Hidden
use sentinel_public.Prelude.{
  ℕ, suc, ◌+◌, ◌*◌, ◌%◌, ◌^◌, Bool, true, false, not, ◌&&◌, ◌||◌, List, [], ◌∷◌, ◌++◌, map, keep,
  any, Option, none, some, length, get_elem?, if◌then◌else◌, Except, ok, throw, ◌>>=◌,
}
use sentinel_public.Prelude.Int.{ℤ, pos}
use sentinel_public.Prelude.Text.{Text, codes, is_empty, text_eq}
use sentinel_public.Prelude.Keyed.{find_key}
use sentinel_public.Prelude.Word.{add64, mul64}
use sentinel_public.Protocol.Messages.{TaskState}
use sentinel_public.Protocol.Actions.{AllocationState, AllocationCommit, FailureDetection}
use sentinel_public.Protocol.Observations.{AgentObservation, ObservationEnvelope, ObservationBatch}
use sentinel_public.Core.Network.Links.{link_blocked}
use sentinel_public.Core.Simulator.State.{
  Vehicle, FailureMonitor, Task, Simulator, found, is_scripted, is_open_task, vehicle_state,
  task_state, finished,
}
use sentinel_public.Core.Simulator.Failures.{is_set}
use sentinel_public.Core.Simulator.Holds.{copy_reservation}
use sentinel_public.Core.Simulator.Summary.{summary}

-- Whether the agent has detected the failure of another.
unfoldable pub detected : Simulator → Text → Text → Bool
detected s self agent_id =
    any
      (λ m. text_eq m.detector_id self && (text_eq m.failed_id agent_id && is_set m.detection_tick))
      s.failure_monitors

-- The peers that the agent can reach, itself with them.
unfoldable pub reachable : Simulator → Text → List Vehicle → Except (List Text)
unfolding link_blocked detected
reachable s self [] = ok []
reachable s self (peer ∷ peers) =
    let rest = reachable s self peers in
    if text_eq peer.spec.id self then (rest >>= λ ids. ok (peer.spec.id ∷ ids)) else do
      blocked ← link_blocked s.network self peer.spec.id
      ids ← rest
      ok (if not blocked && not (detected s self peer.spec.id) then peer.spec.id ∷ ids else ids)

abbrev pub without_progress : TaskState → TaskState
without_progress shown = record shown { progress_ticks = 0 }

abbrev pub without_owner : TaskState → TaskState
without_owner shown = record shown {
  assigned_agent_id = [];
  allocation_epoch = 0;
  allocation_version = 0;
  allocation_score = pos 0;
  bundle_position = 0;
}

-- The owner in the agent's own view, where it is another agent whose failure it has not detected.
unfoldable pub seen_owner : Simulator → Text → TaskState → Option AllocationCommit → TaskState
unfolding detected
seen_owner s self shown none = shown
seen_owner s self shown (some owner) =
    if text_eq owner.agent_id self || detected s self owner.agent_id then shown else record shown {
      assigned_agent_id = owner.agent_id;
      allocation_epoch = owner.epoch;
      allocation_version = owner.version;
      allocation_score = owner.score;
      bundle_position = owner.bundle_position;
    }

-- What the agent knows of a task.
unfoldable pub projected : Simulator → Text → AllocationState → Task → TaskState
unfolding task_state is_scripted find_key seen_owner
projected s self view current =
    if text_eq current.assigned_agent_id self
    then task_state current
    else if is_scripted s.scenario.allocation_policy
    then without_progress (task_state current)
    else seen_owner s self (without_owner (without_progress (task_state current)))
        (find_key (λ o. o.task_id) view.owners current.spec.id)

-- The tasks that are known, assigned to the agent, and available to it.
pub record Shown : Type 0 where
  pub known_tasks : List TaskState
  pub assigned_tasks : List TaskState
  pub available_tasks : List TaskState

-- Enters a task, which the agent has or not, as it is shown and as it is.
abbrev pub place_task : Bool → TaskState → TaskState → Shown → Shown
place_task own shown state rest =
    let known = shown ∷ rest.known_tasks in
    if own
    then record rest { known_tasks = known; assigned_tasks = state ∷ rest.assigned_tasks }
    else if is_empty shown.assigned_agent_id
    then record rest { known_tasks = known; available_tasks = shown ∷ rest.available_tasks }
    else record rest { known_tasks = known }

unfoldable pub show_task : Simulator → Text → AllocationState → Task → Shown → Shown
unfolding projected task_state
show_task s self view current rest =
    place_task (text_eq current.assigned_agent_id self) (projected s self view current)
      (task_state current) rest

unfoldable pub show_tasks : Simulator → Text → AllocationState → List Task → Shown
unfolding show_task
show_tasks s self view [] = record { known_tasks = []; assigned_tasks = []; available_tasks = [] }
show_tasks s self view (t ∷ ts) =
    let rest = show_tasks s self view ts in
    if is_open_task t then show_task s self view t rest else rest

abbrev pub tick_of : Option ℕ → ℕ
tick_of none = 0
tick_of (some t) = t

unfoldable pub own_detections : Simulator → Vehicle → List FailureDetection
own_detections s current =
    if current.active
    then map
        (λ m. record {
          failed_agent_id = m.failed_id;
          detector_agent_id = m.detector_id;
          failure_tick = m.failure_tick;
          detection_tick = tick_of m.detection_tick;
        })
        (keep (λ m. text_eq m.detector_id current.spec.id && is_set m.detection_tick)
          s.failure_monitors)
    else []

unfoldable pub observe_from : Simulator → ℕ → Vehicle → Except ObservationEnvelope
unfolding reachable show_tasks own_detections vehicle_state copy_reservation
observe_from s index current = do
  let self = current.spec.id
  reached ← reachable s self s.vehicles
  view ← found (get_elem? s.allocation_views index)
  let shown = show_tasks s self view s.tasks
  ok (record {
    schema_version = 1;
    sequence = add64 (mul64 s.tick (length s.vehicles)) (index + 1);
    simulation_time_ms = mul64 s.tick s.scenario.step_ms;
    sender_id = codes "sim";
    recipient_id = self;
    observation = record {
      tick = s.tick;
      step_ms = s.scenario.step_ms;
      self = vehicle_state current;
      assigned_tasks = shown.assigned_tasks;
      delivered_messages = keep (λ m. text_eq m.recipient_id self) s.delivered_messages;
      world = s.scenario.world;
      available_tasks = shown.available_tasks;
      peer_ids = map (λ v. v.spec.id) s.vehicles;
      allocation_epoch = s.allocation_epoch;
      allocation_policy = s.scenario.allocation_policy;
      known_tasks = shown.known_tasks;
      network_profile = s.network_profile;
      failure_detections = own_detections s current;
      committed_reservations =
          map copy_reservation (keep (λ c. text_eq c.agent_id self) s.reservations.committed);
      reachable_peer_ids = reached;
    };
  })

unfoldable pub observe_all : Simulator → ℕ → List Vehicle → Except (List ObservationEnvelope)
unfolding observe_from
observe_all s index [] = ok []
observe_all s index (v ∷ vs) = do
  envelope ← observe_from s index v
  rest ← observe_all s (suc index) vs
  ok (envelope ∷ rest)

unfoldable pub observe : Simulator → Except ObservationBatch
unfolding observe_all finished summary
observe s = do
  envelopes ← observe_all s 0 s.vehicles
  ok (record {
    tick = s.tick;
    observations = envelopes;
    finished = finished s;
    summary = if finished s then some (summary s) else none;
  })
