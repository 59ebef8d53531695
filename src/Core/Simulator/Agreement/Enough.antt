-- ===== src/Core/Simulator/Agreement/Enough.antt =====
-- The loops of `allocation_agrees` (core/src/simulator.cpp) end: the fuel of a component's loop is enough.
use sentinel_public.Prelude.{
  ℕ, zero, suc, ◌+◌, ◌≤◌, ◌≡◌, refl, Bool, true, false, not, ◌||◌, List, [], ◌∷◌, ◌++◌, Option,
  none, some, length, length-append, count_if, get_elem?, set, Except, ok, throw, throw_if, ◌>>=◌,
  invalid_argument, overflow_error, logic_error, runtime_error, out_of_fuel, Ensures, Ensures-bind,
  Ensures-if, Ensures-elim, either_branch, arith,
}
use sentinel_public.Prelude.Text.{Text, text_eq, is_empty}
use sentinel_public.Protocol.Actions.{AllocationState}
use sentinel_public.Core.Network.State.{NetworkEmulator, link_pair}
use sentinel_public.Core.Network.Links.{link_blocked}
use sentinel_public.Core.Simulator.State.{Services, Vehicle, Simulator, found}
use sentinel_public.Core.Simulator.Agreement.{
  Seat, seats, visit_from, component_of, is_current_view, matches, reference_or, view_at,
  component_agrees, components_agree, allocation_agrees,
}

-- Not the exception for fuel that has run out.
abbrev pub IsFueled {ℓ} : {A : Type ℓ} → Except A → Type 0
IsFueled (ok a) = Unit
IsFueled (throw invalid_argument) = Unit
IsFueled (throw overflow_error) = Unit
IsFueled (throw logic_error) = Unit
IsFueled (throw runtime_error) = Unit
IsFueled (throw out_of_fuel) = ⊥

module _ {ℓ κ} {A : Type ℓ} {B : Type κ} where
  IsFueled-bind :
      (m : Except A) (f : A → Except B)
      → IsFueled m
      → ((a : A) → m ≡ ok a → IsFueled (f a))
      → IsFueled (m >>= f)
  IsFueled-bind (ok a) f h k = k a refl
  IsFueled-bind (throw invalid_argument) f h k = tt
  IsFueled-bind (throw overflow_error) f h k = tt
  IsFueled-bind (throw logic_error) f h k = tt
  IsFueled-bind (throw runtime_error) f h k = tt
  IsFueled-bind (throw out_of_fuel) f h k = h

IsFueled-check : (b : Bool) → IsFueled (throw_if b invalid_argument)
IsFueled-check true = tt
IsFueled-check false = tt

IsFueled-found {ℓ} : {A : Type ℓ} (o : Option A) → IsFueled (found o)
IsFueled-found none = tt
IsFueled-found (some a) = tt

link_blocked-IsFueled : (e : NetworkEmulator) (a b : Text) → IsFueled (link_blocked e a b)
unfolding link_blocked
link_blocked-IsFueled e a b =
    IsFueled-bind (link_pair a b) _
      (IsFueled-bind (throw_if (is_empty a || (is_empty b || text_eq a b)) invalid_argument) _
        (IsFueled-check (is_empty a || (is_empty b || text_eq a b))) (λ _ _. tt))
      (λ k _. tt)

abbrev unvisited : List Seat → ℕ
unvisited = count_if (λ c. not c.visited)

unvisited-le : (cs : List Seat) → unvisited cs ≤ length cs
unvisited-le [] = omega arith
unvisited-le (c ∷ cs) = ground (arith, unvisited-le cs)

-- As many seats join the component as are visited anew.
abbrev Moves : List Seat → List Seat × List Seat → Type 0
Moves cs r = unvisited r.0 + length r.1 ≡ unvisited cs

module _ (s : Simulator) where
  visit_from-IsFueled : (v : Vehicle) (cs : List Seat) → IsFueled (visit_from s v cs)
  unfolding visit_from
  visit_from-IsFueled v [] = tt
  visit_from-IsFueled v (c ∷ cs) =
      either_branch IsFueled (not c.occupant.active || c.visited) _ _
        (IsFueled-bind (visit_from s v cs) _ (visit_from-IsFueled v cs) (λ _ _. tt))
        (IsFueled-bind (link_blocked s.network v.spec.id c.occupant.spec.id) _
          (link_blocked-IsFueled s.network v.spec.id c.occupant.spec.id)
          (λ blocked _.
            IsFueled-bind (visit_from s v cs) _ (visit_from-IsFueled v cs)
              (λ r _. either_branch IsFueled blocked _ _ tt tt)))

  visit_from-Moves : (v : Vehicle) (cs : List Seat) → Ensures (Moves cs) (visit_from s v cs)
  unfolding visit_from
  visit_from-Moves v [] = refl
  visit_from-Moves v (c ∷ cs) =
      Ensures-if (Moves (c ∷ cs)) (not c.occupant.active || c.visited) _ _
        (λ _. Ensures-bind (Moves (c ∷ cs)) (visit_from s v cs) _ (λ r e.
          skipped c cs r (Ensures-elim (Moves cs) (visit_from s v cs) (visit_from-Moves v cs) e)))
        (λ fresh.
          Ensures-bind (Moves (c ∷ cs)) (link_blocked s.network v.spec.id c.occupant.spec.id) _
            (λ blocked _. Ensures-bind (Moves (c ∷ cs)) (visit_from s v cs) _ (λ r e.
              let h = Ensures-elim (Moves cs) (visit_from s v cs) (visit_from-Moves v cs) e in
              Ensures-if (Moves (c ∷ cs)) blocked _ _ (λ _. skipped c cs r h)
                (λ _. joined c cs r (not_visited _ _ fresh) h))))
    where
      skipped :
          (c : Seat) (cs : List Seat) (r : List Seat × List Seat)
          → Moves cs r
          → Moves (c ∷ cs) (c ∷ r.0, r.1)
      skipped c cs r h = ground arith

      not_visited : (a b : Bool) → a || b ≡ false → b ≡ false
      not_visited a b h = ground arith

      joined :
          (c : Seat) (cs : List Seat) (r : List Seat × List Seat)
          → c.visited ≡ false
          → Moves cs r
          → Moves (c ∷ cs) (record c { visited = true } ∷ r.0, record c { visited = true } ∷ r.1)
      joined c cs r e h = rw e (omega (arith, h))

  component_of-IsFueled :
      (fuel : ℕ) (queue all_seats : List Seat)
      → length queue + unvisited all_seats ≤ fuel
      → IsFueled (component_of s fuel queue all_seats)
  unfolding component_of
  component_of-IsFueled fuel [] all_seats h = tt
  component_of-IsFueled zero (c ∷ queue) all_seats h = absurd (omega arith)
  component_of-IsFueled (suc fuel) (c ∷ queue) all_seats h =
      IsFueled-bind (visit_from s c.occupant all_seats) _ (visit_from-IsFueled c.occupant all_seats)
        (λ r e.
          let moved =
            Ensures-elim (Moves all_seats) (visit_from s c.occupant all_seats)
              (visit_from-Moves c.occupant all_seats) e in
          IsFueled-bind (component_of s fuel (queue ++ r.1) r.0) _
            (component_of-IsFueled fuel (queue ++ r.1) r.0
              (omega (arith, moved, length-append queue r.1)))
            (λ _ _. tt))

length-set {ℓ} : {A : Type ℓ} (xs : List A) (i : ℕ) (a : A) → length (set xs i a) ≡ length xs
length-set [] i a = refl
length-set (x ∷ xs) zero a = refl
length-set (x ∷ xs) (suc i) a = omega (arith, length-set xs i a)

module _ (env : Services) (s : Simulator) where
  component_agrees-IsFueled :
      (reference : Option AllocationState) (cs : List Seat)
      → IsFueled (component_agrees env s reference cs)
  unfolding component_agrees
  component_agrees-IsFueled reference [] = tt
  component_agrees-IsFueled reference (c ∷ cs) =
      IsFueled-bind (view_at s c.index) _ (IsFueled-found (get_elem? s.allocation_views c.index))
        (λ view _. either_branch IsFueled (not (is_current_view s c.occupant view)) _ _ tt (
          either_branch IsFueled (not (matches env view reference)) _ _ tt
            (component_agrees-IsFueled (some (reference_or view reference)) cs)))

  components_agree-IsFueled :
      (root : ℕ) (all_seats : List Seat) (left : ℕ) (any_active : Bool)
      → IsFueled (components_agree env s root all_seats left any_active)
  unfolding components_agree
  components_agree-IsFueled root all_seats zero any_active = tt
  components_agree-IsFueled root all_seats (suc left) any_active =
      IsFueled-bind (found (get_elem? all_seats root)) _ (IsFueled-found (get_elem? all_seats root))
        (λ seat _.
          either_branch IsFueled (not seat.occupant.active || seat.visited) _ _
            (components_agree-IsFueled (suc root) all_seats left any_active)
            (let entered = record seat { visited = true } in
              let marked = set all_seats root entered in
              IsFueled-bind (component_of s (suc (length all_seats)) (entered ∷ []) marked) _
                (component_of-IsFueled s (suc (length all_seats)) (entered ∷ []) marked
                  (omega (arith, unvisited-le marked, length-set all_seats root entered)))
                (λ r _.
                  IsFueled-bind (component_agrees env s none r.0) _
                    (component_agrees-IsFueled none r.0)
                    (λ agrees _.
                      either_branch IsFueled (not agrees) _ _ tt
                        (components_agree-IsFueled (suc root) r.1 left true)))))

  -- The test whether the agents' views agree never runs out of fuel: the loop over a component of the
  -- network ends within one round more than there are vehicles, whatever the links.
  pub allocation_agrees-IsFueled : IsFueled (allocation_agrees env s)
  unfolding allocation_agrees
  allocation_agrees-IsFueled =
      components_agree-IsFueled 0 (seats 0 s.vehicles) (length s.vehicles) false
