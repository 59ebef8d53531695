-- ===== src/Examples/Simulation.antt =====
-- Runs of `Simulator` (core/src/simulator.cpp) on a small scenario.
use sentinel_public.Prelude.{
  ℕ, ◌+◌, ◌%◌, ◌^◌, ◌≡◌, refl, true, false, List, [], ◌∷◌, map, none, some, Except, ok, ◌>>=◌,
  Ensures, Ensures-elim, arith,
}
use sentinel_public.Prelude.Int.{pos, negsuc, ◌+ℤ◌, ◌-ℤ◌, ◌*ℤ◌, abs, quot, rem}
use sentinel_public.Prelude.Text.{Text, codes, text_eq, text_lt}
use sentinel_public.Prelude.Keyed.{find_key, repeats}
use sentinel_public.Prelude.Order.{sort, insert_sorted, tie}
use sentinel_public.Protocol.Actions.{TapeEvent, energy_delta, set_link_blocked}
use sentinel_public.Prelude.Best.{pick_all}
use sentinel_public.Planning.Energy.{reserve_energy}
use sentinel_public.Planning.Geometry.{
  segment_allowed, regions_allow, terrain_multiplier, raise_multiplier,
}
use sentinel_public.Planning.Claims.{claim_order, feasible_claim, nearest_capable as find_nearest}
use sentinel_public.Core.Network.State.{checked_add}
use sentinel_public.Core.Rng.{uniform, uniform_within}
use sentinel_public.Core.Network.Links.{link_blocked, pair_lt, pair_eq}
use sentinel_public.Core.Network.Transmit.{transmit, serve_links}
use sentinel_public.Core.Network.Step.{submit_all, arrive}
use sentinel_public.Core.Simulator.State.{
  Vehicle, Task, FailureMonitor, Simulator, vehicle, is_scripted,
}
use sentinel_public.Core.Simulator.Start.{new_vehicle, new_task, blank, new_simulator}
use sentinel_public.Core.Simulator.Canon.{canonicalize_actions}
use sentinel_public.Core.Simulator.Duties.{update_tasks}
use sentinel_public.Core.Simulator.Duties.Phases.{AllFollow, update_tasks-AllFollow}
use sentinel_public.Core.Simulator.Agreement.{allocation_agrees}
use sentinel_public.Core.Simulator.Agreement.Enough.{IsFueled, allocation_agrees-IsFueled}
use sentinel_public.Core.Simulator.Failures.Watch.{IsSilent, watch, watch-detects}
use sentinel_public.Core.Simulator.Canon.Senders.{canonicalize_actions-senders}
use sentinel_public.Core.Simulator.Step.{step_internal, simulate, replay_step, run}
use sentinel_public.Core.Simulator.Step.Replay.{simulate-replay_step}
use sentinel_public.Core.Simulator.Motion.{no_view}
use sentinel_public.Core.Simulator.Observe.{observe_from}
use sentinel_public.Core.Simulator.Observe.Hidden.{AreAlike, observe_from-hides}
use sentinel_public.Core.Simulator.Safe.{IsSafe}
use sentinel_public.Core.Simulator.Safe.Run.{step_internal-IsSafe}
use sentinel_public.Core.Simulator.Safe.Start.{new_simulator-IsSafe, simulation-IsSafe}
use sentinel_public.Examples.{is_ok, value_or, returned}
use sentinel_public.Examples.Yard.{services, spec, visit, scenario, commit, batch, quiet}

simulation-IsSafe_example :
    Ensures IsSafe (new_simulator services scenario >>= λ s. run services s (batch ∷ []))
simulation-IsSafe_example = simulation-IsSafe services scenario (batch ∷ [])

begins : is_ok (new_simulator services scenario) ≡ true
unfolding new_simulator sort insert_sorted text_lt text_eq tie quot rem ◌+ℤ◌ ◌-ℤ◌ ◌*ℤ◌ find_key
    repeats
begins = refl

-- The first vehicle is the nearest to the task: its commit is accepted.
abbrev owner_of : List Task → Text
owner_of [] = []
owner_of (t ∷ ts) = t.assigned_agent_id

abbrev begun : Simulator
begun = value_or (quiet 0) (new_simulator services scenario)

abbrev owner_after : Except Simulator → Text
owner_after r = owner_of (value_or (quiet 0) r).tasks

assigned :
    text_eq
      (owner_after (new_simulator services scenario >>= λ s. run services s (batch ∷ [])))
      (codes "a")
    ≡ true
unfolding new_simulator run sort insert_sorted text_lt text_eq tie quot rem ◌+ℤ◌ ◌-ℤ◌ ◌*ℤ◌ abs
    find_key repeats find_nearest pick_all feasible_claim reserve_energy claim_order segment_allowed
    regions_allow terrain_multiplier raise_multiplier submit_all transmit serve_links checked_add
    arrive
assigned = refl

begun-eq : new_simulator services scenario ≡ ok begun
begun-eq = returned (quiet 0) (new_simulator services scenario) begins

step_internal-IsSafe_example :
    Ensures (λ o. IsSafe o.simulator) (step_internal services begun batch none)
step_internal-IsSafe_example = step_internal-IsSafe services begun batch none (
    Ensures-elim IsSafe (new_simulator services scenario) (new_simulator-IsSafe services scenario)
      begun-eq)

update_tasks-AllFollow_example :
    Ensures (λ s. AllFollow 4 (quiet 4).tasks s.tasks) (update_tasks (quiet 4) batch)
update_tasks-AllFollow_example = update_tasks-AllFollow (quiet 4) batch

allocation_agrees-IsFueled_example : IsFueled (allocation_agrees services (quiet 4))
allocation_agrees-IsFueled_example = allocation_agrees-IsFueled services (quiet 4)

canonicalize_actions-senders_example :
    Ensures
      (λ b. map (λ e. e.sender_id) b.actions ≡ codes "a" ∷ codes "b" ∷ [])
      (canonicalize_actions services (quiet 0) batch)
unfolding new_vehicle
canonicalize_actions-senders_example = canonicalize_actions-senders services (quiet 0) batch

-- A monitor of the second vehicle at the first.
abbrev monitor : FailureMonitor
monitor = record {
  detector_id = codes "a";
  failed_id = codes "b";
  failure_tick = 3;
  missed_ticks = 0;
  detection_tick = none;
}

abbrev watching : ℕ → Simulator
watching tick = record (quiet tick) { scenario = record scenario { failure_detection_ticks = 2 } }

watching-IsSilent : (tick : ℕ) → IsSilent 2 (codes "a") (codes "b") (watching tick)
unfolding vehicle link_blocked text_lt text_eq new_vehicle blank
watching-IsSilent tick = record {
  watcher = new_vehicle (spec (codes "a") (codes "ground") 200);
  is_there = refl;
  is_active = refl;
  linked = refl;
  unheard = refl;
  same_threshold = refl;
}

watch-detects_example :
    (r : FailureMonitor) × (watch monitor (watching 3 ∷ watching 4 ∷ []) ≡ ok r)
    × (r.detection_tick ≡ some ((4 + 1) % 2 ^ 64))
watch-detects_example =
    watch-detects 2 (watching 3 ∷ []) (watching 4) monitor (omega arith) refl refl
      (watching-IsSilent 3, (watching-IsSilent 4, tt))

-- The second vehicle, told that the first one has the task.
abbrev told : Simulator
told = record (quiet 0) {
  allocation_views = no_view ∷ record no_view { owners = commit ∷ [] } ∷ [];
}

-- The task served by the first vehicle for a tick, and the task of nobody.
abbrev served : Task
served = record (new_task visit) { assigned_agent_id = codes "a"; progress_ticks = 1 }

abbrev observer : Vehicle
observer = new_vehicle (spec (codes "b") (codes "air") 900)

observe_from-hides_example :
    observe_from (record told { tasks = served ∷ [] }) 1 observer
    ≡ observe_from (record told { tasks = new_task visit ∷ [] }) 1 observer
unfolding is_scripted AreAlike new_vehicle new_task text_eq blank
observe_from-hides_example =
    observe_from-hides (record told { tasks = served ∷ [] }) (new_task visit ∷ []) 1 observer refl
      (
        record {
          spec = refl;
          released = refl;
          status = refl;
          owned = refl;
          same = λ e. ground arith;
        },
        tt,
      )

-- A loss of energy that is drawn at random, and a partition.
abbrev loss : TapeEvent
loss = record {
  id = codes "e1";
  tick = 0;
  kind = energy_delta;
  target_id = codes "a";
  value_min = negsuc 9;
  value_max = pos 0;
  text_value = [];
  rng_stream = codes "wind";
  bool_value = false;
}

abbrev cut_off : TapeEvent
cut_off = record loss {
  id = codes "e2";
  kind = set_link_blocked;
  target_id = codes "b";
  text_value = codes "c";
  bool_value = true;
}

abbrev stirred : Simulator
stirred = record begun { scenario = record begun.scenario { events = loss ∷ cut_off ∷ [] } }

stirs : is_ok (simulate services stirred batch) ≡ true
unfolding simulate new_simulator sort insert_sorted text_lt text_eq tie quot rem ◌+ℤ◌ ◌-ℤ◌ ◌*ℤ◌ abs
    find_key repeats find_nearest pick_all feasible_claim reserve_energy claim_order segment_allowed
    regions_allow terrain_multiplier raise_multiplier submit_all transmit serve_links checked_add
    arrive uniform uniform_within pair_lt pair_eq
stirs = refl

simulate-replay_step_example :
    Ensures
      (λ o. replay_step services stirred batch o.applied_events ≡ ok o)
      (simulate services stirred batch)
simulate-replay_step_example = simulate-replay_step services stirred batch
