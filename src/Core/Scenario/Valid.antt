-- ===== src/Core/Scenario/Valid.antt =====
-- `validate_scenario` of core/src/scenario.cpp: the events, and the whole.
use sentinel_public.Prelude.{
  Bool, true, false, not, ◌&&◌, ◌||◌, List, [], ◌∷◌, map, length, get_elem?, set, ltb, leb, ◌==◌,
  if◌then◌else◌, Except, ok, throw_if, ◌>>=◌, ◌>>◌, for_each, invalid_argument,
}
use sentinel_public.Prelude.Int.{ℤ, pos, ◌+ℤ◌, ◌-ℤ◌, ◌*ℤ◌, ltb_ℤ, leb_ℤ, eq_ℤ, rem, quot}
use sentinel_public.Prelude.Text.{Text, is_empty, text_eq, text_lt}
use sentinel_public.Prelude.Order.{sort}
use sentinel_public.Prelude.Keyed.{repeats, position_key}
use sentinel_public.Protocol.Messages.{World}
use sentinel_public.Protocol.Actions.{
  TapeEventKind, release_task, disable_vehicle, energy_delta, set_network_profile,
  set_region_closed, set_link_blocked, TapeEvent, Scenario,
}
use sentinel_public.Core.Simulator.State.{found}
use sentinel_public.Core.Simulator.Views.{check_all}
use sentinel_public.Core.Scenario.Checks.{
  max_world_mm, max_energy_mj, max_ticks, valid_id, valid_event_kind, multiplier_event,
  valid_allocation_policy, require_unique, task_exists, vehicle_exists, region_exists,
  network_profile_exists, check_profile, check_region, check_location, check_vehicle, check_task,
}

unfoldable pub is_release : TapeEventKind → Bool
is_release release_task = true
is_release _ = false

unfoldable pub is_disable : TapeEventKind → Bool
is_disable disable_vehicle = true
is_disable _ = false

unfoldable pub is_energy : TapeEventKind → Bool
is_energy energy_delta = true
is_energy _ = false

unfoldable pub is_profile : TapeEventKind → Bool
is_profile set_network_profile = true
is_profile _ = false

unfoldable pub is_region : TapeEventKind → Bool
is_region set_region_closed = true
is_region _ = false

unfoldable pub is_link : TapeEventKind → Bool
is_link set_link_blocked = true
is_link _ = false

-- What the event names.
unfoldable pub check_target : Scenario → TapeEvent → Except (Unit {0})
unfolding valid_id valid_event_kind is_release is_disable is_energy is_region multiplier_event
    task_exists vehicle_exists region_exists
check_target scenario e = do
  throw_if (not (valid_id e.id) || (leb scenario.max_ticks e.tick || not (valid_event_kind e.kind)))
      invalid_argument
  throw_if (is_release e.kind && not (task_exists scenario e.target_id)) invalid_argument
  throw_if
      ((is_disable e.kind || (is_energy e.kind || multiplier_event e.kind))
        && not (vehicle_exists scenario e.target_id))
      invalid_argument
  throw_if (is_region e.kind && not (region_exists scenario e.target_id)) invalid_argument

-- The range that the event draws from.
unfoldable pub check_range : TapeEvent → Except (Unit {0})
unfolding is_energy multiplier_event valid_id
check_range e = do
  throw_if
      (is_energy e.kind
        && (ltb_ℤ e.value_max e.value_min
            || (ltb_ℤ e.value_min (pos 0 -ℤ max_energy_mj)
                || (ltb_ℤ max_energy_mj e.value_max || not (valid_id e.rng_stream)))))
      invalid_argument
  throw_if
      (multiplier_event e.kind
        && (ltb_ℤ e.value_min (pos 1)
            || (ltb_ℤ (pos 1000) e.value_max
                || (ltb_ℤ e.value_max e.value_min || not (valid_id e.rng_stream)))))
      invalid_argument

-- The most energy that each vehicle can come to have, `maximum_energy`.
unfoldable pub add_energy : Scenario → List ℤ → TapeEvent → Except (List ℤ)
unfolding is_energy position_key ◌+ℤ◌ ◌-ℤ◌
add_energy scenario maximum e =
    if not (is_energy e.kind && ltb_ℤ (pos 0) e.value_max) then ok maximum else do
      let index = position_key (λ v. v.id) scenario.vehicles e.target_id
      current ← found (get_elem? maximum index)
      throw_if (ltb_ℤ (max_energy_mj -ℤ e.value_max) current) invalid_argument
      ok (set maximum index (current +ℤ e.value_max))

unfoldable pub check_network : Scenario → TapeEvent → Except (Unit {0})
unfolding is_profile is_link network_profile_exists vehicle_exists
check_network scenario e = do
  throw_if
      (is_profile e.kind
        && (is_empty e.text_value
            || (ltb 0 (length scenario.network_profiles)
                && not (network_profile_exists scenario e.text_value))))
      invalid_argument
  throw_if
      (is_link e.kind
        && (not (vehicle_exists scenario e.target_id)
            || (not (vehicle_exists scenario e.text_value) || text_eq e.target_id e.text_value)))
      invalid_argument

unfoldable pub check_event : Scenario → List ℤ → TapeEvent → Except (List ℤ)
unfolding check_target check_range add_energy check_network
check_event scenario maximum e = do
  check_target scenario e
  check_range e
  maximum' ← add_energy scenario maximum e
  check_network scenario e
  ok maximum'

unfoldable pub check_events : Scenario → Except (Unit {0})
unfolding check_event repeats
check_events scenario = do
  maximum ←
      for_each (check_event scenario) (map (λ v. v.initial_energy_mj) scenario.vehicles)
        scenario.events
  throw_if (repeats (λ id. id) (sort text_lt (map (λ e. e.id) scenario.events))) invalid_argument

-- The quotients are taken where the cells are positive.
unfoldable pub invalid_world : World → Bool
unfolding rem quot ◌+ℤ◌ ◌*ℤ◌
invalid_world w =
    leb_ℤ w.width_mm (pos 0)
    || (ltb_ℤ max_world_mm w.width_mm
        || (leb_ℤ w.height_mm (pos 0)
            || (ltb_ℤ max_world_mm w.height_mm
                || (leb_ℤ w.grid_cell_mm (pos 0)
                    || (ltb_ℤ max_world_mm w.grid_cell_mm
                        || (not (eq_ℤ (rem w.width_mm w.grid_cell_mm) (pos 0))
                            || (not (eq_ℤ (rem w.height_mm w.grid_cell_mm) (pos 0))
                                || (ltb_ℤ (pos 1000000) (
                                      (quot w.width_mm w.grid_cell_mm +ℤ pos 1)
                                      *ℤ (quot w.height_mm w.grid_cell_mm +ℤ pos 1))
                                    || w.map_version == 0))))))))

unfoldable pub check_header : Scenario → Except (Unit {0})
unfolding valid_id valid_allocation_policy invalid_world
check_header scenario = do
  throw_if (not (scenario.schema_version == 1) || not (valid_id scenario.name)) invalid_argument
  throw_if
      (scenario.step_ms == 0
        || (ltb 60000 scenario.step_ms
            || (scenario.max_ticks == 0
                || (ltb max_ticks scenario.max_ticks
                    || (not (valid_id scenario.network_profile)
                        || (invalid_world scenario.world
                            || (not (valid_allocation_policy scenario.allocation_policy)
                                || (scenario.failure_detection_ticks == 0
                                    || ltb scenario.max_ticks
                                        scenario.failure_detection_ticks))))))))
      invalid_argument
  throw_if
      (ltb (length scenario.vehicles) 3
        || (ltb 5 (length scenario.vehicles) || length scenario.tasks == 0))
      invalid_argument

unfoldable pub check_names : Scenario → Except (Unit {0})
unfolding require_unique network_profile_exists
check_names scenario = do
  require_unique (λ r. r.id) scenario.world.regions
  require_unique (λ l. l.id) scenario.world.locations
  require_unique (λ v. v.id) scenario.vehicles
  require_unique (λ t. t.id) scenario.tasks
  require_unique (λ p. p.id) scenario.network_profiles
  throw_if
      (ltb 0 (length scenario.network_profiles)
        && not (network_profile_exists scenario scenario.network_profile))
      invalid_argument

-- Whether two of the names differ: the sorted names, less the repeated ones, are two or more.
unfoldable pub differ : List Text → Bool
differ [] = false
differ (x ∷ []) = false
differ (x ∷ y ∷ ys) = not (text_eq x y) || differ (y ∷ ys)

unfoldable pub validate_scenario : Scenario → Except (Unit {0})
unfolding check_header check_names check_profile check_region check_location check_vehicle differ
    check_task check_events
validate_scenario scenario = do
  check_header scenario
  check_names scenario
  check_all (check_profile scenario) scenario.network_profiles
  check_all (check_region scenario) scenario.world.regions
  check_all (check_location scenario) scenario.world.locations
  check_all (check_vehicle scenario) scenario.vehicles
  throw_if (not (differ (sort text_lt (map (λ v. v.kind) scenario.vehicles)))) invalid_argument
  check_all (check_task scenario) scenario.tasks
  check_events scenario
