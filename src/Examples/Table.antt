-- ===== src/Examples/Table.antt =====
-- Runs of `ReservationTable` (planning/src/planner.cpp).
use mathlib.Core.List.{Perm}
use sentinel_public.Prelude.{
  ℕ, ◌+◌, ◌%◌, ◌^◌, ◌≡◌, refl, true, not, [], ◌∷◌, All, keep, count_if, ok, arith,
}
use sentinel_public.Prelude.Text.{codes, text_lt, text_eq}
use sentinel_public.Prelude.Order.{sort, insert_sorted, tie}
use sentinel_public.Planning.Reservation.{
  Reservation, ReservationTable, committed, rejected, unchanged, overlaps, higher_priority,
  same_reservation, reservation_order, invalid, conflict_indices, loses_to, erase_indices, settle,
  record_proposal, reserve, reserves, releases_before, serve_all, empty_table,
}
use sentinel_public.Planning.Reservation.Conflicts.{settled, is_beaten, record_proposal-eq-settled}
use sentinel_public.Planning.Reservation.Priority.{higher_priority_trans}
use sentinel_public.Planning.Reservation.Invariant.{IsTable, serve_all-IsTable}
use sentinel_public.Planning.Reservation.Results.{
  reserve_committed, reserve_rejected, reserve_again,
}

-- A window at the gate, for an agent of one letter.
abbrev window : ℕ → ℕ → ℕ → ℕ → Reservation
window agent start finish version = record {
  resource_id = codes "gate";
  agent_id = agent ∷ [];
  start_tick = start;
  end_tick = finish;
  version = version;
  route_version = 1;
  map_version = 1;
}

abbrev early : Reservation
early = window 97 10 20 1

abbrev middle : Reservation
middle = window 98 15 25 1

abbrev late : Reservation
late = window 99 22 30 1

-- `middle` stands in the table, and is recorded.
abbrev occupied : ReservationTable
occupied = record { committed = middle ∷ []; seen = middle ∷ []; conflicts = 0 }

abbrev after_early : ReservationTable
after_early = record { committed = early ∷ []; seen = early ∷ middle ∷ []; conflicts = 1 }

abbrev after_late : ReservationTable
after_late = record { committed = middle ∷ []; seen = middle ∷ late ∷ []; conflicts = 1 }

early_wins : reserve occupied early ≡ ok (after_early, committed)
unfolding reserve invalid text_eq text_lt same_reservation record_proposal conflict_indices overlaps
    settle loses_to erase_indices higher_priority sort insert_sorted reservation_order tie
early_wins = refl

late_loses : reserve occupied late ≡ ok (after_late, rejected)
unfolding reserve invalid text_eq text_lt same_reservation record_proposal conflict_indices overlaps
    settle loses_to erase_indices higher_priority sort insert_sorted reservation_order tie
late_loses = refl

serve_all-IsTable_example :
    IsTable (serve_all empty_table (reserves middle ∷ reserves early ∷ releases_before 30 ∷ []))
serve_all-IsTable_example =
    serve_all-IsTable (reserves middle ∷ reserves early ∷ releases_before 30 ∷ [])

reserve_committed_example :
    Perm after_early.committed (early ∷ keep (λ c. not (overlaps c early)) occupied.committed)
    × All (λ c. overlaps c early ≡ true → higher_priority early c ≡ true) occupied.committed
    × (after_early.conflicts
        ≡ (occupied.conflicts + count_if (λ c. overlaps c early) occupied.committed) % 2 ^ 64)
reserve_committed_example = reserve_committed occupied after_early early (omega arith) early_wins

reserve_rejected_example :
    (after_late.committed ≡ occupied.committed)
    × (is_beaten occupied late ≡ true)
    × (after_late.conflicts ≡ (occupied.conflicts + 1) % 2 ^ 64)
reserve_rejected_example = reserve_rejected occupied after_late late (omega arith) late_loses

reserve_again_example : reserve after_early early ≡ ok (after_early, unchanged)
reserve_again_example =
    reserve_again occupied after_early early committed (omega arith) (λ h. cc) early_wins

record_proposal-eq-settled_example : record_proposal occupied early ≡ settled occupied early
record_proposal-eq-settled_example = record_proposal-eq-settled occupied early (omega arith)

early_before_middle : higher_priority early middle ≡ true
unfolding higher_priority
early_before_middle = refl

middle_before_late : higher_priority middle late ≡ true
unfolding higher_priority
middle_before_late = refl

higher_priority_trans_example : higher_priority early late ≡ true
higher_priority_trans_example =
    higher_priority_trans early middle late early_before_middle middle_before_late
