-- ===== src/Core/Simulator/Safe/Capable.antt =====
-- What `valid_commit` of core/src/simulator.cpp has seen to.
use sentinel_public.Prelude.{
  ℕ, ◌==◌, ◌≤◌, ◌≡◌, refl, sym, ap, subst, ◌∙◌, Bool, true, false, not, ◌&&◌, ◌||◌, List, [], ◌∷◌,
  map, keep, any, All, Pairs, get-All, IsAt, some_inj, get_elem-map, get_elem-keep, ltb, some, ok,
  if◌then◌else◌, Ensures, Ensures-bind, Ensures-if, Ensures-elim, Bool-cases, Option-cases, inl,
  inr, arith,
}
use sentinel_public.Prelude.Int.{ℤ, ◌≤ℤ◌, ltb_ℤ}
use sentinel_public.Prelude.Text.{Text, text_eq, text_eq_sound, is_empty}
use sentinel_public.Prelude.Best.{IsBest, IsOneOf}
use sentinel_public.Prelude.Keyed.{find_key, find_key-get}
use sentinel_public.Protocol.Messages.{
  Capability, capability_number, VehicleState, TaskState, AllocationClaim,
}
use sentinel_public.Protocol.Actions.{AllocationCommit, AllocationState, Envelope}
use sentinel_public.Planning.Geometry.{has_capability as offers}
use sentinel_public.Planning.Claims.{
  Router, Route, claim_order, feasible_route, make_claim, feasible_claim,
  nearest_capable as find_nearest,
}
use sentinel_public.Planning.Bundle.Budget.{only_if-eq-some}
use sentinel_public.Planning.Bundle.Feasible.{CanServe, feasible_route-CanServe}
use sentinel_public.Planning.Bundle.Choice.{nearest_capable-IsBest}
use sentinel_public.Core.Simulator.State.{
  Services, Vehicle, Task, Simulator, vehicle_id, task_id, vehicle, task, is_pending, is_open_task,
  vehicle_state, task_state, holds_capability,
}
use sentinel_public.Core.Simulator.Counters.{is_incapable}
use sentinel_public.Core.Simulator.Commits.{
  is_nearest_capable, is_cbba, wins_outright, wins_bid, wins, valid_commit,
}
use sentinel_public.Core.Simulator.Safe.{IsSafe, IsFit, vehicle-IsFit, vehicle-eq-ok, task-eq-ok}

-- The commit's task is pending, and its agent has the capability and the payload for it.
abbrev pub CanTake : List Vehicle → List Task → AllocationCommit → Type 0
CanTake vs ts c =
    (t : Task)
    → find_key task_id ts c.task_id ≡ some t
    → (is_pending t.status ≡ true)
      × ((v : Vehicle) → find_key vehicle_id vs c.agent_id ≡ some v → is_incapable t v ≡ false)

-- One of the numbers is `m`, and all are `n` or more.
any-least :
    (cs : List Capability) (n m : ℕ)
    → All (λ c. n ≤ capability_number c) cs
    → any (λ c. capability_number c == m) cs ≡ true
    → n ≤ m
any-least [] n m h e = cc
any-least (c ∷ cs) n m h e = elim (Bool-cases (capability_number c == m)) [
  | inl same ↦ ground (arith, h.0)
  | inr other ↦ any-least cs n m h.1 (rw other at e)
]

-- In order, a capability that is there is found.
holds_capability-found :
    (cs : List Capability) (c : Capability)
    → Pairs (λ a b. capability_number a ≤ capability_number b) cs
    → any (λ a. capability_number a == capability_number c) cs ≡ true
    → holds_capability cs c ≡ true
unfolding holds_capability
holds_capability-found [] c o h = cc
holds_capability-found (a ∷ cs) c o h =
    elim (Bool-cases (capability_number a == capability_number c)) [
      | inl same ↦ ground arith
      | inr other ↦
          let k : any (λ b. capability_number b == capability_number c) cs ≡ true = rw other at h in
          let below = any-least cs (capability_number a) (capability_number c) o.0 k in
          let less : ltb (capability_number a) (capability_number c) ≡ true = ground arith in
          rw less (holds_capability-found cs c o.1 k)
    ]

serves_state :
    (v : Vehicle) (t : Task) (tick : ℕ) (route : Route)
    → IsFit v
    → CanServe (vehicle_state v) (task_state t) tick route
    → is_incapable t v ≡ false
unfolding is_incapable vehicle_state task_state offers
serves_state v t tick route f h =
    rw
      (holds_capability-found v.spec.capabilities t.spec.required_capability f.abilities
        h.is_capable)
      (not_less t.spec.payload_required_grams v.payload_grams h.carries)
  where
    not_less : (a b : ℤ) → a ≤ℤ b → ltb_ℤ b a ≡ false
    not_less a b k = ground arith

-- A feasible claim is of an agent that can do the task.
feasible_claim-capable :
    (route_from : Router) (v : Vehicle) (t : Task) (tick epoch version : ℕ)
    → IsFit v
    → (make_claim route_from (vehicle_state v) (task_state t) tick epoch version).feasible ≡ true
    → is_incapable t v ≡ false
unfolding make_claim
feasible_claim-capable route_from v t tick epoch version f h =
    elim (Option-cases (feasible_route route_from (vehicle_state v) (task_state t) tick)) [
      | inl absent ↦ let k : false ≡ true = rw (absent, make_claim) at h in cc
      | inr (route, e) ↦
          serves_state v t tick route f
            (feasible_route-CanServe route_from (vehicle_state v) (task_state t) tick route e).0
    ]

make_claim-agent :
    (route_from : Router) (v : Vehicle) (t : TaskState) (tick epoch version : ℕ)
    → (make_claim route_from (vehicle_state v) t tick epoch version).agent_id ≡ vehicle_id v
unfolding make_claim vehicle_state
make_claim-agent route_from v t tick epoch version =
    elim (Option-cases (feasible_route route_from (vehicle_state v) t tick)) [
      | inl absent ↦ rw (absent, make_claim) refl
      | inr (route, e) ↦ rw (e, make_claim) refl
    ]

feasible_claim-eq-some :
    (route_from : Router) (v : VehicleState) (t : TaskState) (tick epoch version : ℕ)
    (a : AllocationClaim)
    → feasible_claim route_from t tick epoch version v ≡ some a
    → ((make_claim route_from v t tick epoch version).feasible ≡ true)
      × (make_claim route_from v t tick epoch version ≡ a)
unfolding feasible_claim
feasible_claim-eq-some route_from v t tick epoch version a e =
    only_if-eq-some (λ c. c.feasible) (make_claim route_from v t tick epoch version) a e

module _ (env : Services) (s : Simulator) (h : IsSafe s) where
  -- A vehicle of this name that can do the task: the one that a look-up finds can.
  finds_capable :
      (t : Task) (id : Text) (v w : Vehicle)
      → IsAt s.vehicles w
      → vehicle_id w ≡ id
      → is_incapable t w ≡ false
      → find_key vehicle_id s.vehicles id ≡ some v
      → is_incapable t v ≡ false
  finds_capable t id v w (i, at) same able e =
      let k = find_key-get vehicle_id s.vehicles i h.ordered at in
      subst (λ u. is_incapable t u ≡ false)
        (some_inj (sym k ∙ ap (find_key vehicle_id s.vehicles) same ∙ e)) able

  abbrev search : Router
  search = env.route_from s.scenario.world s.scenario.step_ms

  abbrev candidates : List VehicleState
  candidates = map vehicle_state (keep (λ v. v.active) s.vehicles)

  -- A claim that one of the candidates made.
  claimant :
      (t : Task) (c : AllocationCommit) (a : AllocationClaim)
      → IsOneOf claim_order a
          (map (feasible_claim search (task_state t) s.tick c.epoch c.version) candidates)
      → (w : Vehicle) × IsAt s.vehicles w × (vehicle_id w ≡ a.agent_id) × (is_incapable t w ≡ false)
  claimant t c a (i, at) =
      let (x, at_x, made) =
        get_elem-map (feasible_claim search (task_state t) s.tick c.epoch c.version) candidates i
          at in
      let (w, at_w, is_state) =
        get_elem-map vehicle_state (keep (λ v. v.active) s.vehicles) i at_x in
      let there = get_elem-keep (λ v. v.active) s.vehicles i w at_w in
      let (feasible, same) =
        feasible_claim-eq-some search (vehicle_state w) (task_state t) s.tick c.epoch c.version a
          (ap (feasible_claim search (task_state t) s.tick c.epoch c.version) is_state ∙ made) in
      (
        w,
        there,
        sym (make_claim-agent search w (task_state t) s.tick c.epoch c.version)
            ∙ ap (λ b. b.agent_id) same,
        feasible_claim-capable search w t s.tick c.epoch c.version
            (get-All IsFit s.vehicles there.0 h.fit there.1) feasible,
      )

  wins_outright-capable :
      (t : Task) (c : AllocationCommit) (e : Envelope) (v : Vehicle)
      → wins_outright env s t c e ≡ true
      → find_key vehicle_id s.vehicles e.sender_id ≡ some v
      → is_incapable t v ≡ false
  unfolding wins_outright
  wins_outright-capable t c e v k f =
      elim (Option-cases (find_nearest search candidates (task_state t) s.tick c.epoch c.version)) [
        | inl absent ↦ let none_won : false ≡ true = won _ _ (rw (absent, wins_outright) at k) in cc
        | inr (a, e_a) ↦
            let its : text_eq a.agent_id e.sender_id ≡ true =
              named _ _ (won _ _ (rw (e_a, wins_outright) at k)) in
            let best =
              subst
                (IsBest claim_order
                  (map (feasible_claim search (task_state t) s.tick c.epoch c.version) candidates))
                e_a
                (nearest_capable-IsBest search candidates (task_state t) s.tick c.epoch
                  c.version) in
            let (w, there, same, able) = claimant t c a best.0 in
            finds_capable t e.sender_id v w there (same ∙ text_eq_sound a.agent_id e.sender_id its)
              able f
      ]
    where
      won : (a b : Bool) → (if a then false else b) ≡ true → b ≡ true
      won a b k = ground arith

      named : (a b : Bool) → a && b ≡ true → a ≡ true
      named a b k = ground arith

  wins_bid-capable :
      (v : Vehicle) (t : Task) (a : AllocationState) (c : AllocationCommit) (e : Envelope)
      → IsFit v
      → wins_bid env s v t a c e ≡ true
      → is_incapable t v ≡ false
  unfolding wins_bid
  wins_bid-capable v t a c e f k =
      feasible_claim-capable (env.route_from s.scenario.world s.scenario.step_ms) v t s.tick c.epoch
        c.version f (passed _ _ _ k)
    where
      passed : (a b c : Bool) → (if not a then false else b && c) ≡ true → b ≡ true
      passed a b c k = ground arith

  wins-capable :
      (v : Vehicle) (t : Task) (c : AllocationCommit) (e : Envelope)
      → find_key vehicle_id s.vehicles e.sender_id ≡ some v
      → IsFit v
      → wins env s v t c e ≡ true
      → is_incapable t v ≡ false
  unfolding wins
  wins-capable v t c e found_v f k = elim (Option-cases e.action.allocation_state) [
    | inl absent ↦ wins_outright-capable t c e v (rw absent at k) found_v
    | inr (a, given) ↦ wins_bid-capable v t a c e f (rw given at k)
  ]

  can_take :
      (c : AllocationCommit) (e : Envelope) (t : Task) (v : Vehicle)
      → text_eq c.agent_id e.sender_id ≡ true
      → task s c.task_id ≡ ok t
      → vehicle s e.sender_id ≡ ok v
      → is_pending t.status ≡ true
      → wins env s v t c e ≡ true
      → CanTake s.vehicles s.tasks c
  can_take c e t v sender is_task is_vehicle pending won u found_u =
      let same_task : t ≡ u = some_inj (sym (task-eq-ok s c.task_id is_task) ∙ found_u) in
      let by = text_eq_sound c.agent_id e.sender_id sender in
      let found_v = vehicle-eq-ok s e.sender_id is_vehicle in
      let able = wins-capable v t c e found_v (vehicle-IsFit s e.sender_id h is_vehicle) won in
      (
        subst (λ t. is_pending t.status ≡ true) same_task pending,
        λ w found_w.
            let same : v ≡ w =
              some_inj (sym found_v ∙ sym (ap (find_key vehicle_id s.vehicles) by) ∙ found_w) in
            subst (λ x. is_incapable u x ≡ false) same
              (subst (λ y. is_incapable y v ≡ false) same_task able),
      )

  its_own : (a b c : Bool) → a || (not b || not c) ≡ false → b ≡ true
  its_own a b c k = ground arith

  still_pending : (a b c : Bool) → not (a && b) || not c ≡ false → b ≡ true
  still_pending a b c k = ground arith

  abbrev Takes : AllocationCommit → Bool → Type 0
  Takes c b = b ≡ true → CanTake s.vehicles s.tasks c

  refused : (c : AllocationCommit) → Takes c false
  refused c k = cc

  valid_commit-Takes :
      (c : AllocationCommit) (e : Envelope) → Ensures (Takes c) (valid_commit env s c e)
  unfolding valid_commit
  valid_commit-Takes c e =
      Ensures-if (Takes c)
        ((not (is_nearest_capable s.scenario.allocation_policy)
            && not (is_cbba s.scenario.allocation_policy))
          || (not (text_eq c.agent_id e.sender_id) || not (c.epoch == s.allocation_epoch)))
        _ _ (λ _. refused c)
        (λ asked. Ensures-bind (Takes c) (task s c.task_id) _ (λ t is_task.
          Ensures-if (Takes c) (not (is_open_task t) || not (is_empty t.assigned_agent_id)) _ _
            (λ _. refused c)
            (λ free. Ensures-bind (Takes c) (vehicle s e.sender_id) _ (λ v is_vehicle.
              Ensures-if (Takes c) (not v.active) _ _ (λ _. refused c)
                (λ _ won.
                  can_take c e t v (its_own _ _ _ asked) is_task is_vehicle
                    (still_pending _ _ _ free) won)))))

pub valid_commit-CanTake :
    (env : Services) (s : Simulator) (c : AllocationCommit) (e : Envelope)
    → IsSafe s
    → valid_commit env s c e ≡ ok true
    → CanTake s.vehicles s.tasks c
valid_commit-CanTake env s c e h k =
    Ensures-elim (Takes env s h c) (valid_commit env s c e) (valid_commit-Takes env s h c e) k refl
