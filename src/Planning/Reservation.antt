-- ===== src/Planning/Reservation.antt =====
-- `ReservationTable` of planning/src/planner.cpp: time windows at shared chokepoints.
pub mod Conflicts
pub mod Priority
pub mod Invariant
pub mod Outcome
pub mod Results
use sentinel_public.Prelude.{
  ℕ, zero, suc, ◌+◌, ◌%◌, ◌^◌, Bool, true, false, not, ◌&&◌, ◌||◌, List, [], ◌∷◌, ◌++◌, Option,
  none, some, length, get_elem?, erase_at, any, keep, ltb, leb, ◌==◌, if◌then◌else◌, Except, ok,
  throw, invalid_argument,
}
use sentinel_public.Prelude.Text.{Text, is_empty, text_eq, text_lt}
use sentinel_public.Prelude.Order.{tie, by, sort}

pub record Reservation : Type 0 where
  pub resource_id : Text
  pub agent_id : Text
  pub start_tick : ℕ
  pub end_tick : ℕ
  pub version : ℕ
  pub route_version : ℕ
  pub map_version : ℕ

pub data ReservationResult : Type 0 where
  committed rejected stale unchanged : ReservationResult

unfoldable pub same_reservation : Reservation → Reservation → Bool
same_reservation left right =
    text_eq left.resource_id right.resource_id
    && (text_eq left.agent_id right.agent_id
        && (left.start_tick == right.start_tick
            && (left.end_tick == right.end_tick
                && (left.version == right.version
                    && (left.route_version == right.route_version
                        && left.map_version == right.map_version)))))

unfoldable pub overlaps : Reservation → Reservation → Bool
overlaps left right =
    text_eq left.resource_id right.resource_id
    && (leb left.start_tick right.end_tick && leb right.start_tick left.end_tick)

unfoldable pub higher_priority : Reservation → Reservation → Bool
higher_priority left right =
    if not (left.start_tick == right.start_tick)
    then ltb left.start_tick right.start_tick
    else if not (text_eq left.agent_id right.agent_id)
    then text_lt left.agent_id right.agent_id
    else ltb right.version left.version

-- The two `std::tie` tuples, compared field by field.
unfoldable pub reservation_order : Reservation → Reservation → Bool
reservation_order = tie (by (λ r. r.resource_id) text_lt) (
    tie (by (λ r. r.start_tick) ltb) (
      tie (by (λ r. r.end_tick) ltb) (
        tie (by (λ r. r.agent_id) text_lt) (
          tie (by (λ r. r.version) ltb)
            (tie (by (λ r. r.route_version) ltb) (by (λ r. r.map_version) ltb))))))

pub record ReservationTable : Type 0 where
  pub committed : List Reservation
  pub seen : List Reservation
  pub conflicts : ℕ

unfoldable pub invalid : Reservation → Bool
invalid p =
    is_empty p.resource_id
    || (is_empty p.agent_id
        || (p.version == 0
            || (p.route_version == 0 || (p.map_version == 0 || ltb p.end_tick p.start_tick))))

-- The indices of the committed reservations that overlap the proposal, from `idx` on.
unfoldable pub conflict_indices : Reservation → ℕ → List Reservation → List ℕ
conflict_indices p idx [] = []
conflict_indices p idx (c ∷ cs) =
    let rest = conflict_indices p (suc idx) cs in if overlaps c p then idx ∷ rest else rest

unfoldable pub loses_to : Reservation → Option Reservation → Bool
loses_to p none = false
loses_to p (some c) = not (higher_priority p c)

-- Erases the indices from the last to the first.
unfoldable pub erase_indices {ℓ} : {A : Type ℓ} → List ℕ → List A → List A
erase_indices [] xs = xs
erase_indices (i ∷ is) xs = erase_at (erase_indices is xs) i

unfoldable pub settle : ReservationTable → Reservation → ReservationTable × ReservationResult
unfolding conflict_indices loses_to erase_indices
settle t p =
    let conflicts = conflict_indices p 0 t.committed in
    if any (λ i. loses_to p (get_elem? t.committed i)) conflicts
    then (record t { conflicts = (t.conflicts + 1) % 2 ^ 64 }, rejected)
    else (
      record t {
        committed = sort reservation_order (erase_indices conflicts t.committed ++ p ∷ []);
        conflicts = (t.conflicts + length conflicts) % 2 ^ 64;
      },
      committed,
    )

-- The part after the two tests on `seen_`, with its early return where nothing overlaps.
unfoldable pub record_proposal :
    ReservationTable → Reservation → ReservationTable × ReservationResult
record_proposal t p =
    let t' = record t { seen = sort reservation_order (t.seen ++ p ∷ []) } in
    elim (conflict_indices p 0 t.committed) [
      | [] ↦ (record t' { committed = sort reservation_order (t.committed ++ p ∷ []) }, committed)
      | _ ↦ settle t' p
    ]

unfoldable pub reserve :
    ReservationTable → Reservation → Except (ReservationTable × ReservationResult)
reserve t p =
    if invalid p
    then throw invalid_argument
    else if any (λ c. same_reservation c p) t.seen
    then ok (t, unchanged)
    else if any (λ c. text_eq c.agent_id p.agent_id && leb p.version c.version) t.seen
    then ok (t, stale)
    else ok (record_proposal t p)

-- `std::erase_if` keeps what fails its test.
unfoldable pub release_before : ReservationTable → ℕ → ReservationTable
release_before t tick = record t { committed = keep (λ c. not (ltb c.end_tick tick)) t.committed }

unfoldable pub release_agent : ReservationTable → Text → ReservationTable
release_agent t agent = record t {
  committed = keep (λ c. not (text_eq c.agent_id agent)) t.committed;
}

unfoldable pub release_route : ReservationTable → Text → ℕ → ReservationTable
release_route t agent version = record t {
  committed = keep (λ c. not (text_eq c.agent_id agent && c.route_version == version)) t.committed;
}

unfoldable pub release_map : ReservationTable → ℕ → ReservationTable
release_map t version = record t {
  committed = keep (λ c. not (not (c.map_version == version))) t.committed;
}

-- The calls that a table serves, as one step.
pub data Request : Type 0 where
  reserves : Reservation → Request
  releases_before : ℕ → Request
  releases_agent : Text → Request
  releases_route : Text → ℕ → Request
  releases_map : ℕ → Request

-- A call that throws leaves the table as it was.
abbrev pub after_reserve :
    ReservationTable → Except (ReservationTable × ReservationResult) → ReservationTable
after_reserve t (ok r) = r.0
after_reserve t (throw e) = t

unfoldable pub serve : ReservationTable → Request → ReservationTable
unfolding reserve release_before release_agent release_route release_map
serve t (reserves p) = after_reserve t (reserve t p)
serve t (releases_before tick) = release_before t tick
serve t (releases_agent agent) = release_agent t agent
serve t (releases_route agent version) = release_route t agent version
serve t (releases_map version) = release_map t version

abbrev pub empty_table : ReservationTable
empty_table = record { committed = []; seen = []; conflicts = 0 }

unfoldable pub serve_all : ReservationTable → List Request → ReservationTable
serve_all t [] = t
serve_all t (r ∷ rs) = serve_all (serve t r) rs
