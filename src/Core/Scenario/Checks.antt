-- ===== src/Core/Scenario/Checks.antt =====
-- The checks that `validate_scenario` of core/src/scenario.cpp makes on the parts of a scenario.
use sentinel_public.Prelude.{
  ℕ, Bool, true, false, not, ◌&&◌, ◌||◌, List, [], ◌∷◌, Option, none, some, any, all, length, ltb,
  leb, ◌==◌, if◌then◌else◌, Except, throw_if, ◌>>◌, invalid_argument,
}
use sentinel_public.Prelude.Int.{ℤ, pos, ltb_ℤ, leb_ℤ, eq_ℤ, rem, quot}
use sentinel_public.Prelude.Text.{Text, is_empty, text_eq}
use sentinel_public.Prelude.Keyed.{find_key, repeats}
use sentinel_public.Protocol.Messages.{
  Capability, capability_number, RegionKind, terrain, LocationKind, charging, return,
  AllocationPolicy, Point, Region, ServiceLocation, NetworkProfile,
}
use sentinel_public.Protocol.Actions.{
  TapeEventKind, set_speed_permille, set_endurance_permille, VehicleSpec, TaskSpec, Scenario,
}
use sentinel_public.Core.Simulator.State.{is_scripted}

abbrev pub max_world_mm : ℤ
max_world_mm = pos 1000000000

abbrev pub max_ticks : ℕ
max_ticks = 10000000

abbrev pub max_energy_mj : ℤ
max_energy_mj = pos 1000000000000000

-- The bytes of 'a' to 'z', 'A' to 'Z', '0' to '9', '-' and '_'.
unfoldable pub is_id_byte : ℕ → Bool
is_id_byte b =
    (leb b'a' b && leb b b'z')
    || ((leb b'A' b && leb b b'Z') || ((leb b'0' b && leb b b'9') || (b == b'-' || b == b'_')))

unfoldable pub valid_id : Text → Bool
unfolding is_id_byte
valid_id value = not (is_empty value) && all is_id_byte value

unfoldable pub valid_capability : Capability → Bool
valid_capability Capability.unspecified = false
valid_capability _ = true

unfoldable pub valid_region_kind : RegionKind → Bool
valid_region_kind RegionKind.unspecified = false
valid_region_kind _ = true

unfoldable pub valid_event_kind : TapeEventKind → Bool
valid_event_kind TapeEventKind.unspecified = false
valid_event_kind _ = true

unfoldable pub multiplier_event : TapeEventKind → Bool
multiplier_event set_speed_permille = true
multiplier_event set_endurance_permille = true
multiplier_event _ = false

unfoldable pub valid_location_kind : LocationKind → Bool
valid_location_kind LocationKind.unspecified = false
valid_location_kind _ = true

unfoldable pub valid_allocation_policy : AllocationPolicy → Bool
valid_allocation_policy AllocationPolicy.unspecified = false
valid_allocation_policy _ = true

unfoldable pub require_unique {ℓ} : {A : Type ℓ} → (A → Text) → List A → Except (Unit {0})
unfolding repeats
require_unique selector values = throw_if (repeats selector values) invalid_argument

-- `std::find` on the capabilities.
unfoldable pub spec_has_capability : VehicleSpec → Capability → Bool
unfolding capability_number
spec_has_capability vehicle capability =
    any (λ c. capability_number c == capability_number capability) vehicle.capabilities

abbrev pub exists_named {ℓ} : {A : Type ℓ} → (A → Text) → List A → Text → Bool
exists_named key values id = any (λ v. text_eq (key v) id) values

unfoldable pub task_exists : Scenario → Text → Bool
task_exists scenario = exists_named (λ t. t.id) scenario.tasks

unfoldable pub vehicle_exists : Scenario → Text → Bool
vehicle_exists scenario = exists_named (λ v. v.id) scenario.vehicles

unfoldable pub region_exists : Scenario → Text → Bool
region_exists scenario = exists_named (λ r. r.id) scenario.world.regions

unfoldable pub network_profile_exists : Scenario → Text → Bool
network_profile_exists scenario = exists_named (λ p. p.id) scenario.network_profiles

unfoldable pub validate_point : Scenario → Point → Except (Unit {0})
validate_point scenario point =
    throw_if
      (ltb_ℤ point.x_mm (pos 0)
        || (ltb_ℤ point.y_mm (pos 0)
            || (ltb_ℤ scenario.world.width_mm point.x_mm
                || ltb_ℤ scenario.world.height_mm point.y_mm)))
      invalid_argument

unfoldable pub grid_aligned : Scenario → Point → Bool
unfolding rem
grid_aligned scenario point =
    eq_ℤ (rem point.x_mm scenario.world.grid_cell_mm) (pos 0)
    && eq_ℤ (rem point.y_mm scenario.world.grid_cell_mm) (pos 0)

unfoldable pub check_profile : Scenario → NetworkProfile → Except (Unit {0})
unfolding valid_id
check_profile scenario p =
    throw_if
      (not (valid_id p.id)
        || (ltb scenario.max_ticks p.latency_ticks
            || (ltb scenario.max_ticks p.jitter_ticks
                || (ltb 10000 p.packet_loss_permyriad
                    || (p.bandwidth_bytes_per_tick == 0
                        || (ltb 1000000000 p.bandwidth_bytes_per_tick
                            || (ltb 10000 p.reorder_permyriad
                                || (ltb scenario.max_ticks p.reorder_window_ticks
                                    || (not (p.reorder_permyriad == 0)
                                        && p.reorder_window_ticks == 0)))))))))
      invalid_argument

unfoldable pub is_terrain_kind : RegionKind → Bool
is_terrain_kind terrain = true
is_terrain_kind _ = false

unfoldable pub check_region : Scenario → Region → Except (Unit {0})
unfolding valid_id valid_region_kind is_terrain_kind validate_point
check_region scenario r = do
  throw_if
      (not (valid_id r.id)
        || (not (valid_region_kind r.kind)
            || (leb_ℤ r.maximum.x_mm r.minimum.x_mm
                || (leb_ℤ r.maximum.y_mm r.minimum.y_mm
                    || (r.energy_multiplier_permille == 0
                        || (ltb 100000 r.energy_multiplier_permille
                            || (is_terrain_kind r.kind && not (valid_id r.terrain_name))))))))
      invalid_argument
  validate_point scenario r.minimum
  validate_point scenario r.maximum

unfoldable pub is_charging : LocationKind → Bool
is_charging charging = true
is_charging _ = false

unfoldable pub is_return : LocationKind → Bool
is_return return = true
is_return _ = false

unfoldable pub invalid_location : ServiceLocation → Bool
unfolding valid_id valid_location_kind is_charging is_return
invalid_location l =
    ltb_ℤ l.charge_mj_per_tick (pos 0)
    || (not (valid_id l.id)
        || (not (valid_location_kind l.kind)
            || (ltb_ℤ l.radius_mm (pos 0)
                || (ltb_ℤ max_world_mm l.radius_mm
                    || (ltb_ℤ max_energy_mj l.charge_mj_per_tick
                        || ((is_charging l.kind && eq_ℤ l.charge_mj_per_tick (pos 0))
                            || (is_return l.kind && not (eq_ℤ l.charge_mj_per_tick (pos 0)))))))))

unfoldable pub check_location : Scenario → ServiceLocation → Except (Unit {0})
unfolding invalid_location validate_point grid_aligned
check_location scenario l = do
  throw_if (invalid_location l) invalid_argument
  validate_point scenario l.position
  throw_if (not (grid_aligned scenario l.position)) invalid_argument

abbrev pub is_return_location : Option ServiceLocation → Bool
is_return_location none = false
is_return_location (some l) = is_return l.kind

unfoldable pub invalid_vehicle : VehicleSpec → Bool
unfolding valid_id
invalid_vehicle v =
    leb_ℤ v.initial_energy_mj (pos 0)
    || (not (valid_id v.id)
        || (is_empty v.kind
            || (leb_ℤ v.max_speed_mm_s (pos 0)
                || (ltb_ℤ (pos 1000000) v.max_speed_mm_s
                    || (ltb_ℤ max_energy_mj v.initial_energy_mj
                        || (ltb_ℤ v.energy_cost_mj_per_meter (pos 0)
                            || (ltb_ℤ (pos 1000000) v.energy_cost_mj_per_meter
                                || (ltb_ℤ v.payload_grams (pos 0)
                                    || (ltb_ℤ (pos 1000000000) v.payload_grams
                                        || (length v.capabilities == 0
                                            || length v.terrain_access == 0))))))))))

-- Whether `std::adjacent_find` finds two equal capabilities.
unfoldable pub repeats_capability : List Capability → Bool
unfolding capability_number
repeats_capability [] = false
repeats_capability (c ∷ []) = false
repeats_capability (c ∷ d ∷ cs) =
    capability_number c == capability_number d || repeats_capability (d ∷ cs)

unfoldable pub invalid_abilities : VehicleSpec → Bool
unfolding valid_capability valid_id repeats_capability repeats
invalid_abilities v =
    not (all valid_capability v.capabilities)
    || (not (all valid_id v.terrain_access)
        || (repeats_capability v.capabilities || repeats (λ t. t) v.terrain_access))

unfoldable pub invalid_return : Scenario → VehicleSpec → Bool
unfolding find_key is_return
invalid_return scenario v =
    not (is_empty v.return_location_id)
    && not (is_return_location (find_key (λ l. l.id) scenario.world.locations v.return_location_id))

unfoldable pub check_vehicle : Scenario → VehicleSpec → Except (Unit {0})
unfolding invalid_vehicle invalid_abilities validate_point grid_aligned invalid_return
check_vehicle scenario v = do
  throw_if (invalid_vehicle v) invalid_argument
  throw_if (invalid_abilities v) invalid_argument
  validate_point scenario v.initial_position
  throw_if (not (grid_aligned scenario v.initial_position)) invalid_argument
  throw_if (invalid_return scenario v) invalid_argument

unfoldable pub invalid_task : Scenario → TaskSpec → Bool
unfolding valid_id valid_capability
invalid_task scenario t =
    not (valid_id t.id)
    || (is_empty t.kind
        || (not (valid_capability t.required_capability)
            || (ltb_ℤ t.payload_required_grams (pos 0)
                || (ltb_ℤ (pos 1000000000) t.payload_required_grams
                    || (t.deadline_tick == 0
                        || (ltb scenario.max_ticks t.deadline_tick
                            || (ltb_ℤ t.completion_radius_mm (pos 0)
                                || (ltb_ℤ max_world_mm t.completion_radius_mm
                                    || (ltb scenario.max_ticks t.service_ticks
                                        || (ltb_ℤ t.service_energy_mj_per_tick (pos 0)
                                            || (ltb_ℤ max_energy_mj t.service_energy_mj_per_tick
                                                || (t.priority == 0
                                                    || (ltb 100 t.priority
                                                        || (not (is_empty t.assigned_agent_id)
                                                            && not (
                                                            valid_id
                                                            t.assigned_agent_id)))))))))))))))

-- Whether the vehicle has the capability and the payload for the task.
unfoldable pub suits : TaskSpec → VehicleSpec → Bool
unfolding spec_has_capability
suits t v =
    spec_has_capability v t.required_capability && leb_ℤ t.payload_required_grams v.payload_grams

-- `vehicle_by_id` and its use: a missing vehicle throws too.
abbrev pub suits_found : TaskSpec → Option VehicleSpec → Bool
suits_found t none = false
suits_found t (some v) = suits t v

unfoldable pub check_task : Scenario → TaskSpec → Except (Unit {0})
unfolding invalid_task validate_point grid_aligned quot is_scripted find_key suits
check_task scenario t = do
  throw_if (invalid_task scenario t) invalid_argument
  validate_point scenario t.target
  throw_if
      (not (grid_aligned scenario t.target)
        || (not (t.service_ticks == 0)
            && ltb_ℤ (quot max_energy_mj (pos t.service_ticks)) t.service_energy_mj_per_tick))
      invalid_argument
  throw_if (is_scripted scenario.allocation_policy && is_empty t.assigned_agent_id) invalid_argument
  throw_if
      (not (
        if not (is_empty t.assigned_agent_id)
        then suits_found t (find_key (λ v. v.id) scenario.vehicles t.assigned_agent_id)
        else any (suits t) scenario.vehicles))
      invalid_argument
