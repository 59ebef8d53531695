-- ===== src/Core/Simulator/Agreement.antt =====
-- core/src/simulator.cpp: when the agents' views of the allocation agree, and for how long they have.
pub mod Enough
use sentinel_public.Prelude.{
  ℕ, zero, suc, ◌+◌, ◌%◌, ◌^◌, Bool, true, false, not, ◌&&◌, ◌||◌, List, [], ◌∷◌, ◌++◌, map, keep,
  Option, none, some, length, get_elem?, set, ltb, ◌==◌, if◌then◌else◌, Except, ok, throw, ◌>>=◌,
  out_of_fuel,
}
use sentinel_public.Prelude.Text.{Text, text_eq, text_lt}
use sentinel_public.Prelude.Order.{sort}
use sentinel_public.Protocol.Actions.{AllocationState, AllocationConvergence}
use sentinel_public.Core.Hash.{HashBuilder, new_hash, unsigned_integer, text, finish}
use sentinel_public.Core.Network.Links.{link_blocked}
use sentinel_public.Core.Simulator.State.{Services, Vehicle, Simulator, found, is_open_task}

-- The vehicles with their indices and whether they are visited.
pub record Seat : Type 0 where
  pub index : ℕ
  pub occupant : Vehicle
  pub visited : Bool

unfoldable pub seats : ℕ → List Vehicle → List Seat
seats index [] = []
seats index (v ∷ vs) =
    record { index = index; occupant = v; visited = false } ∷ seats (suc index) vs

-- The inner loop: the vehicles that are active, not visited and linked to `from` are visited and
-- join its component.
unfoldable pub visit_from : Simulator → Vehicle → List Seat → Except (List Seat × List Seat)
unfolding link_blocked
visit_from s from [] = ok ([], [])
visit_from s from (c ∷ cs) =
    let rest = visit_from s from cs in
    if not c.occupant.active || c.visited then (rest >>= λ r. ok (c ∷ r.0, r.1)) else do
      blocked ← link_blocked s.network from.spec.id c.occupant.spec.id
      r ← rest
      if blocked
          then ok (c ∷ r.0, r.1)
          else (let c' = record c { visited = true } in ok (c' ∷ r.0, c' ∷ r.1))

-- The loop over the cursor: what the component holds from the cursor on is `queue`. A vehicle joins
-- at most once, and the fuel is one more than there are vehicles.
unfoldable pub component_of : Simulator → ℕ → List Seat → List Seat → Except (List Seat × List Seat)
unfolding visit_from
component_of s fuel [] all_seats = ok ([], all_seats)
component_of s zero (c ∷ queue) all_seats = throw out_of_fuel
component_of s (suc fuel) (c ∷ queue) all_seats = do
  r ← visit_from s c.occupant all_seats
  rest ← component_of s fuel (queue ++ r.1) r.0
  ok (c ∷ rest.0, rest.1)

-- The names of the tasks that are open, in order.
unfoldable pub open_tasks : Simulator → List Text
open_tasks s = sort text_lt (map (λ t. t.spec.id) (keep is_open_task s.tasks))

unfoldable pub texts_eq : List Text → List Text → Bool
texts_eq [] [] = true
texts_eq [] (y ∷ ys) = false
texts_eq (x ∷ xs) [] = false
texts_eq (x ∷ xs) (y ∷ ys) = text_eq x y && texts_eq xs ys

unfoldable pub covered : AllocationState → List Text
covered view = sort text_lt (map (λ w. w.task_id) view.winners ++ map (λ o. o.task_id) view.owners)

-- Whether two views hold the same winners and owners, byte for byte.
unfoldable pub same_view : Services → AllocationState → AllocationState → Bool
unfolding texts_eq
same_view env view reference =
    texts_eq (map env.bid_bytes view.winners) (map env.bid_bytes reference.winners)
    && texts_eq (map env.owner_bytes view.owners) (map env.owner_bytes reference.owners)

unfoldable pub is_current_view : Simulator → Vehicle → AllocationState → Bool
unfolding open_tasks covered texts_eq
is_current_view s owner view =
    not (
      not (text_eq view.sender_id owner.spec.id)
      || (not (view.epoch == s.allocation_epoch)
          || not (view.map_version == s.scenario.world.map_version)))
    && texts_eq (covered view) (open_tasks s)

abbrev pub view_at : Simulator → ℕ → Except AllocationState
view_at s index = found (get_elem? s.allocation_views index)

abbrev pub matches : Services → AllocationState → Option AllocationState → Bool
matches env view none = true
matches env view (some reference) = same_view env view reference

abbrev pub reference_or : AllocationState → Option AllocationState → AllocationState
reference_or view none = view
reference_or view (some reference) = reference

-- The loop over a component, with its early returns.
unfoldable pub component_agrees :
    Services → Simulator → Option AllocationState → List Seat → Except Bool
unfolding is_current_view same_view
component_agrees env s reference [] = ok true
component_agrees env s reference (c ∷ cs) = do
  view ← view_at s c.index
  let rest = component_agrees env s (some (reference_or view reference)) cs
  if not (is_current_view s c.occupant view)
      then ok false
      else if not (matches env view reference)
      then ok false
      else rest

-- The outer loop, from the seat `root` on; `any_active` says whether a component was met.
unfoldable pub components_agree : Services → Simulator → ℕ → List Seat → ℕ → Bool → Except Bool
unfolding component_of component_agrees
components_agree env s root all_seats zero any_active = ok any_active
components_agree env s root all_seats (suc left) any_active = do
  seat ← found (get_elem? all_seats root)
  if not seat.occupant.active || seat.visited
      then components_agree env s (suc root) all_seats left any_active
      else do
        let entered = record seat { visited = true }
        r ← component_of s (suc (length all_seats)) (entered ∷ []) (set all_seats root entered)
        agrees ← component_agrees env s none r.0
        if not agrees then ok false else components_agree env s (suc root) r.1 left true

unfoldable pub allocation_agrees : Services → Simulator → Except Bool
unfolding seats components_agree
allocation_agrees env s = components_agree env s 0 (seats 0 s.vehicles) (length s.vehicles) false

-- The loop of `allocation_signature`, over the vehicles from an index on.
unfoldable pub sign_views :
    Services → Simulator → HashBuilder → ℕ → List Vehicle → Except HashBuilder
unfolding text
sign_views env s hash index [] = ok hash
sign_views env s hash index (v ∷ vs) =
    if not v.active then sign_views env s hash (suc index) vs else do
      view ← view_at s index
      sign_views env s (text (text hash v.spec.id) (env.view_bytes view)) (suc index) vs

unfoldable pub allocation_signature : Services → Simulator → Except Text
unfolding sign_views unsigned_integer finish
allocation_signature env s = do
  let hash =
      unsigned_integer (unsigned_integer new_hash s.allocation_epoch) s.scenario.world.map_version
  signed ← sign_views env s hash 0 s.vehicles
  ok (finish signed)

-- The views agree and have this signature, or they do not agree.
unfoldable pub agreement : Services → Simulator → Except (Option Text)
unfolding allocation_agrees allocation_signature
agreement env s = if not s.convergence.is_open then ok none else do
  agrees ← allocation_agrees env s
  if not agrees then ok none else (allocation_signature env s >>= λ signature. ok (some signature))

abbrev pub unsettled : Simulator → Simulator
unsettled s = record s {
  convergence = record s.convergence { candidate_tick = 0; stable_ticks = 0; signature = [] };
}

-- The views have been stable for another tick.
unfoldable pub settle : Simulator → Text → Simulator
settle s signature =
    let stable = (s.convergence.stable_ticks + 1) % 2 ^ 32 in
    let c = record s.convergence { stable_ticks = stable } in
    if not (text_eq signature s.convergence.signature)
    then record s {
      convergence = record s.convergence {
        signature = signature;
        candidate_tick = s.tick;
        stable_ticks = 1;
      };
    }
    else if ltb stable 10
    then record s { convergence = c }
    else record s {
      convergence = record c { is_open = false };
      allocation_convergence =
          s.allocation_convergence
          ++ record {
            epoch = s.allocation_epoch;
            start_tick = s.convergence.start_tick;
            end_tick = s.convergence.candidate_tick;
            complete = true;
          }
            ∷ [];
    }

abbrev pub settle_on : Simulator → Option Text → Simulator
settle_on s none = unsettled s
settle_on s (some signature) = settle s signature

unfoldable pub update_convergence : Services → Simulator → Except Simulator
unfolding agreement settle
update_convergence env s = do o ← agreement env s; ok (settle_on s o)
