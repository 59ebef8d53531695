-- ===== src/Core/Simulator/Failures.antt =====
-- core/src/simulator.cpp: how agents notice that another has failed, and what becomes of its tasks.
pub mod Watch
use sentinel_public.Prelude.{
  ℕ, ◌+◌, Bool, true, false, not, ◌&&◌, ◌||◌, List, [], ◌∷◌, ◌++◌, map, Option, none, some, any,
  ltb, leb, ◌==◌, if◌then◌else◌, Except, ok, ◌>>=◌, for_each,
}
use sentinel_public.Prelude.Text.{Text, text_eq, text_lt}
use sentinel_public.Prelude.Order.{tie, by}
use sentinel_public.Prelude.Keyed.{find_key, put_key, emplace_key}
use sentinel_public.Prelude.Word.{add64}
use sentinel_public.Protocol.Messages.{NetworkMessage}
use sentinel_public.Protocol.Actions.{FailureDetection, TaskReassignment, Envelope, ActionBatch}
use sentinel_public.Core.Network.Links.{link_blocked}
use sentinel_public.Core.Simulator.State.{
  Vehicle, FailureMonitor, Task, Simulator, vehicle_id, vehicle, is_open_task, next_epoch,
}
use sentinel_public.Core.Simulator.Commits.{orphaned}

abbrev pub holds_tick : Option ℕ → ℕ → Bool
holds_tick none tick = false
holds_tick (some t) tick = t == tick

abbrev pub is_set : Option ℕ → Bool
is_set none = false
is_set (some t) = true

unfoldable pub valid_detection : Simulator → FailureDetection → Envelope → Except Bool
unfolding vehicle
valid_detection s detection envelope =
    if not (text_eq detection.detector_agent_id envelope.sender_id)
      || text_eq detection.failed_agent_id envelope.sender_id
    then ok false
    else do
      sender ← vehicle s envelope.sender_id
      if not sender.active then ok false else do
        failed ← vehicle s detection.failed_agent_id
        if failed.active || not (holds_tick failed.failure_tick detection.failure_tick)
            then ok false
            else ok (
                any
                  (λ m.
                    text_eq m.detector_id envelope.sender_id
                    && (text_eq m.failed_id detection.failed_agent_id
                        && holds_tick m.detection_tick detection.detection_tick))
                  s.failure_monitors)

-- The detections on record, and the first one of each failed agent in this tick, `first`.
pub record Detections : Type 0 where
  pub recorded : List FailureDetection
  pub first : List FailureDetection

abbrev pub failed_agent : FailureDetection → Text
failed_agent d = d.failed_agent_id

unfoldable pub detection_order : FailureDetection → FailureDetection → Bool
detection_order = tie (by (λ d. d.detection_tick) ltb) (by (λ d. d.detector_agent_id) text_lt)

unfoldable pub select_first : List FailureDetection → FailureDetection → List FailureDetection
unfolding find_key put_key emplace_key detection_order
select_first first detection = elim (find_key failed_agent first detection.failed_agent_id) [
  | none ↦ emplace_key failed_agent first detection
  | some selected ↦
      if detection_order detection selected then put_key failed_agent first detection else first
]

unfoldable pub record_detection : Detections → FailureDetection → Detections
unfolding select_first
record_detection d detection =
    let known =
      any
        (λ c.
          text_eq c.failed_agent_id detection.failed_agent_id
          && text_eq c.detector_agent_id detection.detector_agent_id)
        d.recorded in
    record {
      recorded = if not known then d.recorded ++ detection ∷ [] else d.recorded;
      first = select_first d.first detection;
    }

unfoldable pub record_detections : Detections → List FailureDetection → Detections
unfolding record_detection
record_detections d [] = d
record_detections d (x ∷ xs) = record_detections (record_detection d x) xs

unfoldable pub hear_detections : Simulator → Detections → Envelope → Except Detections
unfolding vehicle record_detections
hear_detections s d envelope = do
  sender ← vehicle s envelope.sender_id
  if not sender.active then ok d else ok (record_detections d envelope.action.failure_detections)

-- The samples of the failed agent that wait for their detection.
unfoldable pub mark_detected :
    Text → FailureDetection → List TaskReassignment → List TaskReassignment
mark_detected failed detection = map (λ sample.
    if text_eq sample.failed_agent_id failed && sample.detection_tick == 0
    then record sample {
      detector_agent_id = detection.detector_agent_id;
      detection_tick = detection.detection_tick;
    }
    else sample)

abbrev pub is_orphan_of : Text → Task → Bool
is_orphan_of failed t = is_open_task t && text_eq t.assigned_agent_id failed

unfoldable pub orphan_tasks : Text → List Task → List Task
orphan_tasks failed = map (λ t. if is_orphan_of failed t then orphaned t else t)

-- The state and whether a task has lost its owner.
unfoldable pub announce_failure : Simulator × Bool → FailureDetection → Except (Simulator × Bool)
unfolding vehicle put_key mark_detected orphan_tasks
announce_failure r detection = do
  let s = r.0
  failed ← vehicle s detection.failed_agent_id
  if failed.failure_announced
      then ok r
      else ok (
        record s {
          vehicles = put_key vehicle_id s.vehicles (record failed { failure_announced = true });
          task_reassignments = mark_detected failed.spec.id detection s.task_reassignments;
          tasks = orphan_tasks failed.spec.id s.tasks;
        },
        r.1 || any (is_orphan_of failed.spec.id) s.tasks,
      )

unfoldable pub apply_failure_detections : Simulator → ActionBatch → Except Simulator
unfolding hear_detections announce_failure
apply_failure_detections s actions = do
  d ←
      for_each (hear_detections s) (record { recorded = s.failure_detections; first = [] })
        actions.actions
  r ← for_each announce_failure (record s { failure_detections = d.recorded }, false) d.first
  ok (if r.1 then next_epoch r.0 else r.0)

abbrev pub hears : List NetworkMessage → FailureMonitor → Bool
hears messages monitor =
    any (λ m. text_eq m.sender_id monitor.failed_id && text_eq m.recipient_id monitor.detector_id)
      messages

-- One more silent tick, or the end of the silence.
unfoldable pub count_silence : ℕ → ℕ → Bool → FailureMonitor → FailureMonitor
count_silence threshold tick heard monitor =
    let missed = if heard then 0 else add64 monitor.missed_ticks 1 in
    record monitor {
      missed_ticks = missed;
      detection_tick = if leb threshold missed then some (add64 tick 1) else monitor.detection_tick;
    }

unfoldable pub update_monitor : Simulator → FailureMonitor → Except FailureMonitor
unfolding vehicle link_blocked count_silence
update_monitor s monitor = if is_set monitor.detection_tick then ok monitor else do
  detector ← vehicle s monitor.detector_id
  if not detector.active then ok monitor else do
    blocked ← link_blocked s.network monitor.detector_id monitor.failed_id
    if blocked
        then ok (record monitor { missed_ticks = 0 })
        else ok (
            count_silence s.scenario.failure_detection_ticks s.tick
              (hears s.delivered_messages monitor) monitor)

unfoldable pub update_monitors : Simulator → List FailureMonitor → Except (List FailureMonitor)
unfolding update_monitor
update_monitors s [] = ok []
update_monitors s (m ∷ ms) = do m' ← update_monitor s m; ms' ← update_monitors s ms; ok (m' ∷ ms')

unfoldable pub update_failure_monitors : Simulator → Except Simulator
unfolding update_monitors
update_failure_monitors s = do
  monitors ← update_monitors s s.failure_monitors
  ok (record s { failure_monitors = monitors })
