-- ===== src/Core/Simulator/Commits.antt =====
-- core/src/simulator.cpp: the commits by which agents take tasks, and the reports that give them back.
use sentinel_public.Prelude.{
  ℕ, ◌+◌, Bool, true, false, not, ◌&&◌, ◌||◌, List, [], ◌∷◌, map, keep, Option, none, some, length,
  ltb, ◌==◌, if◌then◌else◌, Except, ok, ◌>>=◌, for_each,
}
use sentinel_public.Prelude.Int.{ℤ, pos, ltb_ℤ, eq_ℤ}
use sentinel_public.Prelude.Text.{Text, text_eq, text_lt, is_empty}
use sentinel_public.Prelude.Order.{tie, by}
use sentinel_public.Prelude.Keyed.{find_key, put_key, emplace_key}
use sentinel_public.Prelude.Word.{add64}
use sentinel_public.Protocol.Messages.{
  AllocationPolicy, nearest_capable, sentinel_cbba, AllocationClaim,
}
use sentinel_public.Protocol.Actions.{
  TaskReportKind, rejected, AllocationBid, AllocationCommit, AllocationState, TaskReport,
  TaskReassignment, Envelope, ActionBatch,
}
use sentinel_public.Planning.Claims.{make_claim, nearest_capable as find_nearest}
use sentinel_public.Core.Simulator.State.{
  Services, Vehicle, Task, Simulator, task_id, vehicle, task, vehicle_state, task_state, is_pending,
  is_open_task, next_epoch,
}
use sentinel_public.Core.Simulator.Counters.{record_commit_invariants}

unfoldable pub is_nearest_capable : AllocationPolicy → Bool
is_nearest_capable nearest_capable = true
is_nearest_capable _ = false

unfoldable pub is_cbba : AllocationPolicy → Bool
is_cbba sentinel_cbba = true
is_cbba _ = false

unfoldable pub is_rejected : TaskReportKind → Bool
is_rejected rejected = true
is_rejected _ = false

-- Whether the claim that won is the one committed to.
abbrev pub is_won_by : Option AllocationClaim → Text → ℤ → Bool
is_won_by none agent distance = false
is_won_by (some c) agent distance = text_eq c.agent_id agent && eq_ℤ c.distance_mm distance

-- Whether the sender's view holds a winning bid of the sender's for the commit.
abbrev pub is_bid_for : Option AllocationBid → AllocationCommit → Text → Bool
is_bid_for none commit sender = false
is_bid_for (some w) commit sender =
    text_eq w.bidder_id sender
    && (w.version == commit.version
        && (eq_ℤ w.score commit.score && w.bundle_position == commit.bundle_position))

-- The part of `valid_commit` for an action without an allocation state.
unfoldable pub wins_outright : Services → Simulator → Task → AllocationCommit → Envelope → Bool
unfolding is_nearest_capable vehicle_state task_state
wins_outright env s current commit envelope =
    if not (is_nearest_capable s.scenario.allocation_policy)
      || ltb 0 (length s.scenario.network_profiles)
    then false
    else is_won_by
        (find_nearest (env.route_from s.scenario.world s.scenario.step_ms)
          (map vehicle_state (keep (λ v. v.active) s.vehicles)) (task_state current) s.tick
          commit.epoch commit.version)
        envelope.sender_id commit.distance_mm

-- The part for an action with one.
unfoldable pub wins_bid :
    Services → Simulator → Vehicle → Task → AllocationState → AllocationCommit → Envelope → Bool
unfolding vehicle_state task_state find_key make_claim
wins_bid env s sender current state commit envelope =
    let claim =
      make_claim (env.route_from s.scenario.world s.scenario.step_ms) (vehicle_state sender)
        (task_state current) s.tick commit.epoch commit.version in
    if not (
      is_bid_for (find_key (λ b. b.task_id) state.winners commit.task_id) commit envelope.sender_id)
    then false
    else claim.feasible && eq_ℤ claim.distance_mm commit.distance_mm

unfoldable pub wins : Services → Simulator → Vehicle → Task → AllocationCommit → Envelope → Bool
unfolding wins_outright wins_bid
wins env s sender current commit envelope = elim envelope.action.allocation_state [
  | none ↦ wins_outright env s current commit envelope
  | some state ↦ wins_bid env s sender current state commit envelope
]

unfoldable pub valid_commit : Services → Simulator → AllocationCommit → Envelope → Except Bool
unfolding is_nearest_capable is_cbba task vehicle wins
valid_commit env s commit envelope =
    if (not (is_nearest_capable s.scenario.allocation_policy)
        && not (is_cbba s.scenario.allocation_policy))
      || (not (text_eq commit.agent_id envelope.sender_id)
          || not (commit.epoch == s.allocation_epoch))
    then ok false
    else do
      current ← task s commit.task_id
      if not (is_open_task current) || not (is_empty current.assigned_agent_id)
          then ok false
          else do
            sender ← vehicle s envelope.sender_id
            if not sender.active then ok false else ok (wins env s sender current commit envelope)

-- The commits selected so far, `selected`, and how many were rejected.
pub record Selection : Type 0 where
  pub chosen : List AllocationCommit
  pub rejected_count : ℕ

abbrev pub commit_task : AllocationCommit → Text
commit_task c = c.task_id

unfoldable pub better_commit : AllocationPolicy → AllocationCommit → AllocationCommit → Bool
unfolding is_cbba
better_commit policy commit previous =
    if is_cbba policy
    then ltb_ℤ previous.score commit.score
      || (eq_ℤ commit.score previous.score && text_lt commit.agent_id previous.agent_id)
    else tie (by (λ c. c.distance_mm) ltb_ℤ) (by (λ c. c.agent_id) text_lt) commit previous

abbrev pub reject_one : Selection → Selection
reject_one r = record r { rejected_count = r.rejected_count + 1 }

-- What a valid commit does to the selection.
unfoldable pub enter_commit : AllocationPolicy → Selection → AllocationCommit → Selection
unfolding find_key put_key emplace_key better_commit
enter_commit policy r commit = elim (find_key commit_task r.chosen commit.task_id) [
  | none ↦ record r { chosen = emplace_key commit_task r.chosen commit }
  | some previous ↦
      if better_commit policy commit previous
      then reject_one (record r { chosen = put_key commit_task r.chosen commit })
      else reject_one r
]

unfoldable pub consider_commit :
    Services → Simulator → Envelope → Selection → AllocationCommit → Except Selection
unfolding valid_commit enter_commit
consider_commit env s envelope r commit = do
  valid ← valid_commit env s commit envelope
  if valid then ok (enter_commit s.scenario.allocation_policy r commit) else ok (reject_one r)

unfoldable pub consider_commits : Services → Simulator → Selection → Envelope → Except Selection
unfolding consider_commit
consider_commits env s r envelope =
    for_each (consider_commit env s envelope) r envelope.action.allocation_commits

-- The sample that waits for a new owner of the task, completed by the commit.
unfoldable pub close_sample : ℕ → AllocationCommit → List TaskReassignment → List TaskReassignment
close_sample tick commit [] = []
close_sample tick commit (sample ∷ samples) =
    if text_eq sample.task_id commit.task_id
      && (not (sample.detection_tick == 0) && not sample.complete)
    then (if ltb sample.previous_epoch commit.epoch
        then record sample {
          new_agent_id = commit.agent_id;
          new_epoch = commit.epoch;
          new_version = commit.version;
          commit_tick = tick;
          complete = true;
        }
        else sample)
      ∷ samples
    else sample ∷ close_sample tick commit samples

abbrev pub assigned_by : Task → AllocationCommit → Task
assigned_by current commit = record current {
  assigned_agent_id = commit.agent_id;
  allocation_epoch = commit.epoch;
  allocation_version = commit.version;
  allocation_score = commit.score;
  bundle_position = commit.bundle_position;
}

unfoldable pub apply_commit : Simulator → AllocationCommit → Except Simulator
unfolding task vehicle record_commit_invariants close_sample put_key
apply_commit s commit = do
  current ← task s commit.task_id
  owner ← vehicle s commit.agent_id
  let s' = record_commit_invariants s current owner
  ok (record s' {
    tasks = put_key task_id s.tasks (assigned_by current commit);
    task_reassignments = close_sample s.tick commit s.task_reassignments;
  })

abbrev pub reject_commits : Simulator → ℕ → Simulator
reject_commits s count = record s {
  measures = record s.measures { rejected_commits = add64 s.measures.rejected_commits count };
}

unfoldable pub count_commits : List Envelope → ℕ
count_commits [] = 0
count_commits (e ∷ es) = length e.action.allocation_commits + count_commits es

abbrev pub no_selection : Selection
no_selection = record { chosen = []; rejected_count = 0 }

unfoldable pub apply_commits : Services → Simulator → ActionBatch → Bool → Except Simulator
unfolding count_commits consider_commits apply_commit
apply_commits env s actions coordination_fence =
    if coordination_fence then ok (reject_commits s (count_commits actions.actions)) else do
      r ← for_each (consider_commits env s) no_selection actions.actions
      for_each apply_commit (reject_commits s r.rejected_count) r.chosen

-- A task without an owner.
abbrev pub orphaned : Task → Task
orphaned current = record current {
  assigned_agent_id = [];
  allocation_epoch = 0;
  allocation_version = 0;
  allocation_score = pos 0;
  bundle_position = 0;
  progress_ticks = 0;
}

unfoldable pub apply_rejection : Text → Simulator → TaskReport → Except Simulator
unfolding is_rejected task put_key
apply_rejection sender s report = if not (is_rejected report.kind) then ok s else do
  current ← task s report.task_id
  if is_pending current.status && text_eq current.assigned_agent_id sender
      then ok (next_epoch (record s { tasks = put_key task_id s.tasks (orphaned current) }))
      else ok s

unfoldable pub apply_reports : Simulator → Envelope → Except Simulator
unfolding vehicle apply_rejection
apply_reports s envelope = do
  sender ← vehicle s envelope.sender_id
  if not sender.active
      then ok s
      else for_each (apply_rejection envelope.sender_id) s envelope.action.task_reports

unfoldable pub apply_rejections : Simulator → ActionBatch → Except Simulator
unfolding apply_reports
apply_rejections s actions = for_each apply_reports s actions.actions
