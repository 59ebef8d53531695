-- ===== src/Planning/Bundle/Cache.antt =====
-- `route_to` of planning/src/planner.cpp: the table of the routes that were searched for.
use sentinel_public.Prelude.{
  ◌≡◌, refl, ap, ◌∙◌, subst, Bool, true, ◌&&◌, List, [], ◌∷◌, Option, none, some, All,
  if◌then◌else◌, Bool-cases, inl, inr, arith,
}
use mathlib.Core.Option.{some-injective}
use sentinel_public.Prelude.Int.{ℤ, eq_ℤ, eq_of_parts}
use sentinel_public.Protocol.Messages.{VehicleState}
use sentinel_public.Planning.Geometry.{Coordinate, coordinate}
use sentinel_public.Planning.Claims.{Route, Router}

-- An element of the map `routes_`, which is an association list here.
pub record CachedRoute : Type 0 where
  pub start : Coordinate
  pub goal : Coordinate
  pub route : Option Route

unfoldable pub has_key : CachedRoute → Coordinate → Coordinate → Bool
has_key c start goal =
    eq_ℤ c.start.x start.x
    && (eq_ℤ c.start.y start.y && (eq_ℤ c.goal.x goal.x && eq_ℤ c.goal.y goal.y))

unfoldable pub find_route : List CachedRoute → Coordinate → Coordinate → Option CachedRoute
unfolding has_key
find_route [] start goal = none
find_route (c ∷ cs) start goal = if has_key c start goal then some c else find_route cs start goal

module _ (route_from : Router) (vehicle : VehicleState) where
  -- `route_to` after its look-up: an entry that was found, or a search whose answer is kept.
  unfoldable pub answer :
      List CachedRoute
      → Coordinate
      → Coordinate
      → Option CachedRoute
      → Option Route × List CachedRoute
  answer routes start goal (some c) = (c.route, routes)
  answer routes start goal none =
      let route = route_from vehicle start goal in
      (route, record { start = start; goal = goal; route = route } ∷ routes)

  unfoldable pub route_to :
      List CachedRoute → Coordinate → Coordinate → Option Route × List CachedRoute
  unfolding find_route answer
  route_to routes start goal = answer routes start goal (find_route routes start goal)

  -- The entry holds what the search answers for its key.
  abbrev pub IsAnswer : CachedRoute → Type 0
  IsAnswer c = c.route ≡ route_from vehicle c.start c.goal

  same_coordinate : (a b : Coordinate) → eq_ℤ a.x b.x ≡ true → eq_ℤ a.y b.y ≡ true → a ≡ b
  same_coordinate a b h k =
      ap (λ (x : ℤ). coordinate x a.y) (eq_of_parts a.x b.x (ground arith))
      ∙ ap (λ (y : ℤ). coordinate b.x y) (eq_of_parts a.y b.y (ground arith))

  same_key :
      (c : CachedRoute) (start goal : Coordinate)
      → has_key c start goal ≡ true
      → route_from vehicle c.start c.goal ≡ route_from vehicle start goal
  unfolding has_key
  same_key c start goal h =
      ap (λ (s : Coordinate). route_from vehicle s c.goal)
        (same_coordinate c.start start (ground arith) (ground arith))
      ∙ ap (λ (g : Coordinate). route_from vehicle start g)
          (same_coordinate c.goal goal (ground arith) (ground arith))

  found_answer :
      (routes : List CachedRoute) (start goal : Coordinate) (c : CachedRoute)
      → All IsAnswer routes
      → find_route routes start goal ≡ some c
      → c.route ≡ route_from vehicle start goal
  unfolding find_route
  found_answer [] start goal c h e = cc
  found_answer (d ∷ ds) start goal c h e = elim (Bool-cases (has_key d start goal)) [
    | inl y ↦
        subst (λ (x : CachedRoute). x.route ≡ route_from vehicle start goal)
          (some-injective d c (rw y at e)) (h.0 ∙ same_key d start goal y)
    | inr n ↦ found_answer ds start goal c h.1 (rw n at e)
  ]

  answer-IsAnswer :
      (routes : List CachedRoute) (start goal : Coordinate) (o : Option CachedRoute)
      → All IsAnswer routes
      → find_route routes start goal ≡ o
      → ((answer routes start goal o).0 ≡ route_from vehicle start goal)
        × All IsAnswer (answer routes start goal o).1
  unfolding answer
  answer-IsAnswer routes start goal (some c) h e = (found_answer routes start goal c h e, h)
  answer-IsAnswer routes start goal none h e = (refl, (refl, h))

  -- On a table whose entries hold what the search answers, `route_to` answers what the search does,
  -- and leaves such a table.
  pub route_to-IsAnswer :
      (routes : List CachedRoute) (start goal : Coordinate)
      → All IsAnswer routes
      → ((route_to routes start goal).0 ≡ route_from vehicle start goal)
        × All IsAnswer (route_to routes start goal).1
  unfolding route_to
  route_to-IsAnswer routes start goal h =
      answer-IsAnswer routes start goal (find_route routes start goal) h refl
