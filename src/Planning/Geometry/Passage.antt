-- ===== src/Planning/Geometry/Passage.antt =====
-- What `segment_allowed`, `terrain_multiplier` and `contested_resource` answer, region by region.
use sentinel_public.Prelude.{
  ℕ, ◌≤◌, max, ◌≡◌, ◌↔◌, inl, inr, refl, sym, ap, ◌∙◌, subst, Bool, true, false, not, ◌&&◌, ◌||◌,
  List, [], ◌∷◌, map, Option, none, some, some_inj, get_elem?, get_elem-map, map-All, All, All-mono,
  Bool-cases, if◌then◌else◌, arith,
}
use sentinel_public.Prelude.Int.{pos, ◌≤ℤ◌}
use sentinel_public.Protocol.Messages.{RegionKind, chokepoint, Region, World, VehicleState}
use sentinel_public.Prelude.Text.{Text, text_lt}
use sentinel_public.Prelude.Order.{text_lt-StrictOrder}
use sentinel_public.Prelude.Best.{IsBest, NotBetter, pick_all-IsBest}
use sentinel_public.Planning.Geometry.{
  chokepoint_of, is_chokepoint, contested_resource, Coordinate, intersects, has_terrain,
  is_obstacle, is_restricted, is_terrain, outside, regions_allow, segment_allowed, raise_multiplier,
  terrain_multiplier,
}

abbrev pub InWorld : World → Coordinate → Type 0
InWorld world p =
    (pos 0 ≤ℤ p.x) × (pos 0 ≤ℤ p.y) × (p.x ≤ℤ world.width_mm) × (p.y ≤ℤ world.height_mm)

-- What the loop's body needs of a region: `i` it is crossed, `c` closed, `o` an obstacle,
-- `s` restricted, `t` terrain, `k` terrain that the vehicle knows.
abbrev Lets : Bool → Bool → Bool → Bool → Bool → Bool → Type 0
Lets i c o s t k = i ≡ true → (c ≡ false) × (o ≡ false) × (s ≡ false) × (t ≡ true → k ≡ true)

abbrev body : Bool → Bool → Bool → Bool → Bool → Bool → Bool → Bool
body i c o s t k rest =
    if not i then rest else if c || (o || s) then false else if t && not k then false else rest

body→Lets :
    (i c o s t k rest : Bool) → body i c o s t k rest ≡ true → Lets i c o s t k × (rest ≡ true)
body→Lets false c o s t k rest h = (λ e. cc, h)
body→Lets true true o s t k rest h = cc
body→Lets true false true s t k rest h = cc
body→Lets true false false true t k rest h = cc
body→Lets true false false false true false rest h = cc
body→Lets true false false false true true rest h = (λ _. (refl, refl, refl, λ _. refl), h)
body→Lets true false false false false k rest h = (λ _. (refl, refl, refl, λ e. cc), h)

Lets→body :
    (i c o s t k rest : Bool) → Lets i c o s t k → rest ≡ true → body i c o s t k rest ≡ true
Lets→body false c o s t k rest l h = h
Lets→body true true o s t k rest l h = cc ((l refl).0)
Lets→body true false true s t k rest l h = cc ((l refl).1)
Lets→body true false false true t k rest l h = cc ((l refl).2)
Lets→body true false false false true false rest l h = cc ((l refl).3 refl)
Lets→body true false false false true true rest l h = h
Lets→body true false false false false k rest l h = h

module _ (vehicle : VehicleState) (from to : Coordinate) where
  -- A region is no hindrance where the segment misses it, or where it is open, neither an obstacle
  -- nor restricted, and of a terrain that the vehicle has access to if it is terrain.
  abbrev pub IsClear : Region → Type 0
  IsClear r =
      intersects r from to ≡ true
      → (r.closed ≡ false)
        × (is_obstacle r.kind ≡ false)
        × (is_restricted r.kind ≡ false)
        × (is_terrain r.kind ≡ true → has_terrain vehicle r.terrain_name ≡ true)

  regions_allow→IsClear :
      (regions : List Region) → regions_allow vehicle from to regions ≡ true → All IsClear regions
  unfolding regions_allow
  regions_allow→IsClear [] h = tt
  regions_allow→IsClear (r ∷ rs) h =
      let (clear, rest) =
        body→Lets (intersects r from to) _ _ _ _ _ (regions_allow vehicle from to rs) h in
      (clear, regions_allow→IsClear rs rest)

  IsClear→regions_allow :
      (regions : List Region) → All IsClear regions → regions_allow vehicle from to regions ≡ true
  unfolding regions_allow
  IsClear→regions_allow [] h = refl
  IsClear→regions_allow (r ∷ rs) h =
      Lets→body (intersects r from to) _ _ _ _ _ (regions_allow vehicle from to rs) h.0
        (IsClear→regions_allow rs h.1)

abbrev Within : World → Coordinate → Coordinate → Type 0
Within world from to = InWorld world from × InWorld world to

outside→Within :
    (world : World) (from to : Coordinate) → outside world from to ≡ false → Within world from to
unfolding outside
outside→Within world from to h = ground arith

Within→outside :
    (world : World) (from to : Coordinate) → Within world from to → outside world from to ≡ false
unfolding outside
Within→outside world from to h = ground arith

module _ (world : World) (vehicle : VehicleState) (from to : Coordinate) where
  allowed→clear :
      segment_allowed world vehicle from to ≡ true
      → InWorld world from × InWorld world to × All (IsClear vehicle from to) world.regions
  unfolding segment_allowed
  allowed→clear h = elim (Bool-cases (outside world from to)) [
    | inl out ↦ cc (rw out at h)
    | inr inside ↦
        let (f, t) = outside→Within world from to inside in
        (f, t, regions_allow→IsClear vehicle from to world.regions (rw inside at h))
  ]

  clear→allowed :
      InWorld world from × InWorld world to × All (IsClear vehicle from to) world.regions
      → segment_allowed world vehicle from to ≡ true
  unfolding segment_allowed
  clear→allowed h =
      rw (Within→outside world from to (h.0, h.1))
        (IsClear→regions_allow vehicle from to world.regions h.2)

  -- A segment is allowed exactly when both of its ends are in the world and every region of the
  -- world is clear of it for the vehicle.
  pub segment_allowed_iff :
      (segment_allowed world vehicle from to ≡ true)
      ↔ (InWorld world from × InWorld world to × All (IsClear vehicle from to) world.regions)
  segment_allowed_iff = (allowed→clear, clear→allowed)

module _ (from to : Coordinate) where
  -- The region slows the segment by no more than the factor.
  abbrev pub Slows : ℕ → Region → Type 0
  Slows n r =
      is_terrain r.kind ≡ true → intersects r from to ≡ true → r.energy_multiplier_permille ≤ n

  raise_multiplier_ge : (n : ℕ) (rs : List Region) → n ≤ raise_multiplier from to n rs
  unfolding raise_multiplier
  raise_multiplier_ge n [] = omega arith
  raise_multiplier_ge n (r ∷ rs) =
      ground (
        arith,
        raise_multiplier_ge n rs,
        raise_multiplier_ge (max n r.energy_multiplier_permille) rs,
      )

  raise_multiplier-Slows :
      (rs : List Region) (n : ℕ) → All (Slows (raise_multiplier from to n rs)) rs
  unfolding raise_multiplier
  raise_multiplier-Slows [] n = tt
  raise_multiplier-Slows (r ∷ rs) n = (first, raise_multiplier-Slows rs _)
    where
      first : Slows (raise_multiplier from to n (r ∷ rs)) r
      first t i =
          rw (t, i) (omega (arith, raise_multiplier_ge (max n r.energy_multiplier_permille) rs))

  raise_multiplier_least :
      (n : ℕ) (rs : List Region) (m : ℕ)
      → m ≤ n
      → All (Slows n) rs
      → raise_multiplier from to m rs ≤ n
  unfolding raise_multiplier
  raise_multiplier_least n [] m h k = h
  raise_multiplier_least n (r ∷ rs) m h k = raise_multiplier_least n rs _ bound k.1
    where
      bound :
          (if is_terrain r.kind && intersects r from to
            then max m r.energy_multiplier_permille
            else m)
          ≤ n
      bound = ground (arith, k.0)

-- The multiplier is at most `n` exactly when `n` is 1000 or more and no terrain region that the
-- segment crosses has a larger one.
pub terrain_multiplier_iff :
    (world : World) (from to : Coordinate) (n : ℕ)
    → (terrain_multiplier world from to ≤ n) ↔ (1000 ≤ n × All (Slows from to n) world.regions)
unfolding terrain_multiplier
terrain_multiplier_iff world from to n = (
  λ h. (
    omega (arith, raise_multiplier_ge from to 1000 world.regions),
    All-mono (Slows from to (raise_multiplier from to 1000 world.regions)) (Slows from to n)
        world.regions (λ r k t i. omega (arith, k t i))
        (raise_multiplier-Slows from to world.regions 1000),
  ),
  λ h. raise_multiplier_least from to n world.regions 1000 h.0 h.1,
)

-- A chokepoint that the segment crosses.
abbrev IsCrossed : Coordinate → Coordinate → Region → Type 0
IsCrossed from to region = (region.kind ≡ chokepoint) × (intersects region from to ≡ true)

-- The name of a crossed chokepoint of the list, before no other one's; or none, and none is crossed.
abbrev pub IsContested : Coordinate → Coordinate → List Region → Option Text → Type 0
IsContested from to regions none = All (λ r. ¬ IsCrossed from to r) regions
IsContested from to regions (some id) =
    ((i : ℕ) × (r : Region) × (get_elem? regions i ≡ some r) × IsCrossed from to r × (id ≡ r.id))
    × All (λ r. IsCrossed from to r → text_lt r.id id ≡ false) regions

is_chokepoint_sound : (k : RegionKind) → is_chokepoint k ≡ true → k ≡ chokepoint
unfolding is_chokepoint
is_chokepoint_sound chokepoint h = refl
is_chokepoint_sound _ h = cc

module _ (from to : Coordinate) where
  kind_test : (r : Region) → IsCrossed from to r → is_chokepoint r.kind ≡ true
  unfolding is_chokepoint
  kind_test r h = ap is_chokepoint h.0

  chokepoint_of-eq : (r : Region) → IsCrossed from to r → chokepoint_of from to r ≡ some r.id
  unfolding chokepoint_of
  chokepoint_of-eq r h = rw (kind_test r h) (rw h.1 refl)

  chokepoint_of-eq-some :
      (r : Region) (id : Text)
      → chokepoint_of from to r ≡ some id
      → IsCrossed from to r × (id ≡ r.id)
  unfolding chokepoint_of
  chokepoint_of-eq-some r id e = elim (Bool-cases (is_chokepoint r.kind)) [
    | inl narrow ↦ elim (Bool-cases (intersects r from to)) [
      | inl met ↦ (
        (is_chokepoint_sound r.kind narrow, met),
        sym (some_inj (sym (chokepoint_of-eq r (is_chokepoint_sound r.kind narrow, met)) ∙ e)),
      )
      | inr missed ↦ let bad : none ≡ some id = rw narrow at (rw missed at e) in absurd (cc)
    ]
    | inr wide ↦ let bad : none ≡ some id = rw wide at e in absurd (cc)
  ]

  best-IsContested :
      (regions : List Region) (best : Option Text)
      → IsBest text_lt (map (chokepoint_of from to) regions) best
      → IsContested from to regions best
  best-IsContested regions none h =
      All-mono (λ r. chokepoint_of from to r ≡ none) (λ r. ¬ IsCrossed from to r) regions
        (λ r e c. let bad : none ≡ some r.id = sym e ∙ chokepoint_of-eq r c in cc)
        (map-All (chokepoint_of from to) (λ x. x ≡ none) regions h)
  best-IsContested regions (some id) h =
      let at = get_elem-map (chokepoint_of from to) regions h.0.0 h.0.1 in
      let c = chokepoint_of-eq-some at.0 id at.2 in
      (
        (h.0.0, at.0, at.1, c.0, c.1),
        All-mono (λ r. NotBetter text_lt id (chokepoint_of from to r))
            (λ r. IsCrossed from to r → text_lt r.id id ≡ false) regions
            (λ r k d. subst (NotBetter text_lt id) (chokepoint_of-eq r d) k)
            (map-All (chokepoint_of from to) (NotBetter text_lt id) regions h.1),
      )

-- The resource that a segment contends for is the name of a region that is a chokepoint and that the
-- segment crosses, and no other such region has a smaller name; there is none only where no region is a
-- chokepoint that the segment crosses.
pub contested_resource-IsContested :
    (world : World) (from to : Coordinate)
    → IsContested from to world.regions (contested_resource world from to)
unfolding contested_resource
contested_resource-IsContested world from to =
    best-IsContested from to world.regions _
      (pick_all-IsBest text_lt text_lt-StrictOrder (map (chokepoint_of from to) world.regions))
