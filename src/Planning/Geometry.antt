-- ===== src/Planning/Geometry.antt =====
-- planning/src/planner.cpp: the plane geometry of regions, and what a vehicle may cross. Coordinates
-- are unbounded integers: a cross product that does not fit 64 bits is not modelled.
pub mod Passage
use sentinel_public.Prelude.{
  ℕ, ◌+◌, max, Bool, true, false, not, ◌&&◌, ◌||◌, List, [], ◌∷◌, Option, none, some, map, any, ltb,
  ◌==◌, if◌then◌else◌,
}
use sentinel_public.Prelude.Int.{ℤ, pos, negsuc, ◌-ℤ◌, ◌*ℤ◌, ltb_ℤ, leb_ℤ, eq_ℤ, min_ℤ, max_ℤ}
use sentinel_public.Prelude.Best.{pick_all}
use sentinel_public.Prelude.Text.{Text, text_eq, text_lt}
use sentinel_public.Protocol.Messages.{
  Capability, capability_number, RegionKind, obstacle, restricted, terrain, chokepoint, Region,
  World, VehicleState,
}

-- `Eigen::Matrix<std::int64_t, 2, 1>`.
pub record Coordinate : Type 0 where
  pub x : ℤ
  pub y : ℤ

abbrev pub coordinate : ℤ → ℤ → Coordinate
coordinate x y = record { x = x; y = y }

unfoldable pub contains : Region → Coordinate → Bool
contains region point =
    leb_ℤ region.minimum.x_mm point.x
    && (leb_ℤ point.x region.maximum.x_mm
        && (leb_ℤ region.minimum.y_mm point.y && leb_ℤ point.y region.maximum.y_mm))

-- A Boolean as the integer that C++ reads it as.
abbrev pub int_of_bool : Bool → ℤ
int_of_bool b = if b then pos 1 else pos 0

unfoldable pub orientation : Coordinate → Coordinate → Coordinate → ℤ
unfolding ◌-ℤ◌ ◌*ℤ◌
orientation first second third =
    let cross =
      (second.x -ℤ first.x) *ℤ (third.y -ℤ first.y)
      -ℤ (second.y -ℤ first.y) *ℤ (third.x -ℤ first.x) in
    int_of_bool (ltb_ℤ (pos 0) cross) -ℤ int_of_bool (ltb_ℤ cross (pos 0))

unfoldable pub on_segment : Coordinate → Coordinate → Coordinate → Bool
on_segment first second point =
    leb_ℤ (min_ℤ first.x second.x) point.x
    && (leb_ℤ point.x (max_ℤ first.x second.x)
        && (leb_ℤ (min_ℤ first.y second.y) point.y && leb_ℤ point.y (max_ℤ first.y second.y)))

abbrev pub opposite : ℤ → ℤ → Bool
opposite a b = ltb_ℤ a (pos 0) && ltb_ℤ (pos 0) b || ltb_ℤ (pos 0) a && ltb_ℤ b (pos 0)

unfoldable pub segments_intersect : Coordinate → Coordinate → Coordinate → Coordinate → Bool
unfolding orientation on_segment
segments_intersect first_start first_end second_start second_end =
    let first = orientation first_start first_end second_start in
    let second = orientation first_start first_end second_end in
    let third = orientation second_start second_end first_start in
    let fourth = orientation second_start second_end first_end in
    if eq_ℤ first (pos 0) && on_segment first_start first_end second_start
      || (eq_ℤ second (pos 0) && on_segment first_start first_end second_end
          || (eq_ℤ third (pos 0) && on_segment second_start second_end first_start
              || eq_ℤ fourth (pos 0) && on_segment second_start second_end first_end))
    then true
    else opposite first second && opposite third fourth

unfoldable pub intersects : Region → Coordinate → Coordinate → Bool
unfolding contains segments_intersect
intersects region from to =
    let lower_left = coordinate region.minimum.x_mm region.minimum.y_mm in
    let lower_right = coordinate region.maximum.x_mm region.minimum.y_mm in
    let upper_left = coordinate region.minimum.x_mm region.maximum.y_mm in
    let upper_right = coordinate region.maximum.x_mm region.maximum.y_mm in
    if contains region from || contains region to
    then true
    else segments_intersect from to lower_left lower_right
      || (segments_intersect from to lower_right upper_right
          || (segments_intersect from to upper_right upper_left
              || segments_intersect from to upper_left lower_left))

unfoldable pub has_capability : VehicleState → Capability → Bool
unfolding capability_number
has_capability vehicle capability =
    any (λ c. capability_number c == capability_number capability) vehicle.capabilities

unfoldable pub has_terrain : VehicleState → Text → Bool
has_terrain vehicle terrain_name = any (λ t. text_eq t terrain_name) vehicle.terrain_access

unfoldable pub is_obstacle : RegionKind → Bool
is_obstacle obstacle = true
is_obstacle _ = false

unfoldable pub is_restricted : RegionKind → Bool
is_restricted restricted = true
is_restricted _ = false

unfoldable pub is_terrain : RegionKind → Bool
is_terrain terrain = true
is_terrain _ = false

unfoldable pub is_chokepoint : RegionKind → Bool
is_chokepoint chokepoint = true
is_chokepoint _ = false

unfoldable pub outside : World → Coordinate → Coordinate → Bool
outside world from to =
    ltb_ℤ from.x (pos 0)
    || (ltb_ℤ from.y (pos 0)
        || (ltb_ℤ to.x (pos 0)
            || (ltb_ℤ to.y (pos 0)
                || (ltb_ℤ world.width_mm from.x
                    || (ltb_ℤ world.width_mm to.x
                        || (ltb_ℤ world.height_mm from.y || ltb_ℤ world.height_mm to.y))))))

-- The loop over the regions, with its early returns.
unfoldable pub regions_allow : VehicleState → Coordinate → Coordinate → List Region → Bool
unfolding is_obstacle is_restricted is_terrain has_terrain
regions_allow vehicle from to [] = true
regions_allow vehicle from to (region ∷ regions) =
    let rest = regions_allow vehicle from to regions in
    if not (intersects region from to)
    then rest
    else if region.closed || (is_obstacle region.kind || is_restricted region.kind)
    then false
    else if is_terrain region.kind && not (has_terrain vehicle region.terrain_name)
    then false
    else rest

unfoldable pub segment_allowed : World → VehicleState → Coordinate → Coordinate → Bool
unfolding outside
segment_allowed world vehicle from to =
    if outside world from to then false else regions_allow vehicle from to world.regions

unfoldable pub raise_multiplier : Coordinate → Coordinate → ℕ → List Region → ℕ
unfolding is_terrain
raise_multiplier from to multiplier [] = multiplier
raise_multiplier from to multiplier (region ∷ regions) =
    raise_multiplier from to
      (if is_terrain region.kind && intersects region from to
        then max multiplier region.energy_multiplier_permille
        else multiplier)
      regions

unfoldable pub terrain_multiplier : World → Coordinate → Coordinate → ℕ
terrain_multiplier world from to = raise_multiplier from to 1000 world.regions

-- A round of the loop of `contested_resource`: the region's name, if it is a chokepoint on the way.
unfoldable pub chokepoint_of : Coordinate → Coordinate → Region → Option Text
unfolding is_chokepoint
chokepoint_of from to region =
    if is_chokepoint region.kind && intersects region from to then some region.id else none

unfoldable pub contested_resource : World → Coordinate → Coordinate → Option Text
contested_resource world from to = pick_all text_lt none (map (chokepoint_of from to) world.regions)
