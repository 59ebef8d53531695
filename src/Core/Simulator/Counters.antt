-- ===== src/Core/Simulator/Counters.antt =====
-- core/src/simulator.cpp: the counters of violated invariants that `Simulator` keeps.
use sentinel_public.Prelude.{ℕ, ◌+◌, Bool, not, ◌||◌, List, [], ◌∷◌}
use sentinel_public.Prelude.Int.{pos, ltb_ℤ}
use sentinel_public.Prelude.Word.{add64}
use sentinel_public.Planning.Reservation.{Reservation, overlaps}
use sentinel_public.Core.Network.Step.{one_if}
use sentinel_public.Core.Simulator.State.{Vehicle, Task, Simulator, has_capability, is_completed}

unfoldable pub record_energy_invariant : Simulator → Vehicle → Simulator
record_energy_invariant s current = record s {
  violations = record s.violations {
    agent_energy_below_zero =
        add64 s.violations.agent_energy_below_zero (one_if (ltb_ℤ current.energy_mj (pos 0)));
  };
}

-- The pairs of committed reservations that overlap.
unfoldable pub count_overlaps_with : Reservation → List Reservation → ℕ
count_overlaps_with first [] = 0
count_overlaps_with first (second ∷ rest) =
    one_if (overlaps first second) + count_overlaps_with first rest

unfoldable pub count_overlaps : List Reservation → ℕ
unfolding count_overlaps_with
count_overlaps [] = 0
count_overlaps (first ∷ rest) = count_overlaps_with first rest + count_overlaps rest

unfoldable pub record_reservation_invariant : Simulator → Simulator
unfolding count_overlaps
record_reservation_invariant s = record s {
  violations = record s.violations {
    committed_reservation_overlap =
        add64 s.violations.committed_reservation_overlap (count_overlaps s.reservations.committed);
  };
}

-- `!has_capability(owner, …) || owner.payload_grams < …`.
unfoldable pub is_incapable : Task → Vehicle → Bool
unfolding has_capability
is_incapable current owner =
    not (has_capability owner current.spec.required_capability)
    || ltb_ℤ owner.payload_grams current.spec.payload_required_grams

unfoldable pub record_commit_invariants : Simulator → Task → Vehicle → Simulator
unfolding is_completed is_incapable
record_commit_invariants s current owner = record s {
  violations = record s.violations {
    completed_task_reassignment =
        add64 s.violations.completed_task_reassignment (one_if (is_completed current.status));
    incapable_agent_commit =
        add64 s.violations.incapable_agent_commit (one_if (is_incapable current owner));
  };
}
