-- ===== src/Planning/Reservation/Conflicts.antt =====
-- The index lists of `ReservationTable::reserve` (planning/src/planner.cpp) against plain scans.
use mathlib.Core.Bool.{◌&&◌}
use sentinel_public.Prelude.{
  ℕ, suc, ◌+◌, ◌%◌, ◌^◌, ◌<◌, ◌≡◌, refl, ap, ◌∙◌, Bool, not, List, [], ◌∷◌, ◌++◌, map, Option,
  get_elem?, any, keep, count_if, length, if◌then◌else◌, Bool-cases, inl, inr, arith,
}
use sentinel_public.Prelude.Order.{sort}
use sentinel_public.Planning.Reservation.{
  Reservation, ReservationTable, ReservationResult, committed, rejected, overlaps, higher_priority,
  reservation_order, conflict_indices, loses_to, erase_indices, settle, record_proposal,
}

module _ {ℓ} {A : Type ℓ} where
  erase_indices-suc :
      (is : List ℕ) (x : A) (xs : List A)
      → erase_indices (map suc is) (x ∷ xs) ≡ x ∷ erase_indices is xs
  unfolding erase_indices
  erase_indices-suc [] x xs = refl
  erase_indices-suc (i ∷ is) x xs = rw (erase_indices-suc is x xs)

  any-map-suc :
      (f : Option A → Bool) (is : List ℕ) (x : A) (xs : List A)
      → any (λ i. f (get_elem? (x ∷ xs) i)) (map suc is) ≡ any (λ i. f (get_elem? xs i)) is
  any-map-suc f [] x xs = refl
  any-map-suc f (i ∷ is) x xs = rw (any-map-suc f is x xs)

length-map-suc : (is : List ℕ) → length (map suc is) ≡ length is
length-map-suc [] = refl
length-map-suc (i ∷ is) = ap suc (length-map-suc is)

module _ (p : Reservation) where
  conflict_indices-suc :
      (k : ℕ) (cs : List Reservation)
      → conflict_indices p (suc k) cs ≡ map suc (conflict_indices p k cs)
  unfolding conflict_indices
  conflict_indices-suc k [] = refl
  conflict_indices-suc k (c ∷ cs) = ground (arith, conflict_indices-suc (suc k) cs)

  -- Erasing the conflicts from the last to the first leaves what does not overlap, in order.
  pub erase_conflicts :
      (cs : List Reservation)
      → erase_indices (conflict_indices p 0 cs) cs ≡ keep (λ c. not (overlaps c p)) cs
  erase_conflicts [] = unfold conflict_indices erase_indices in refl
  erase_conflicts (c ∷ cs) = step (erase_conflicts cs)
    where
      step :
          erase_indices (conflict_indices p 0 cs) cs ≡ keep (λ c. not (overlaps c p)) cs
          → erase_indices (conflict_indices p 0 (c ∷ cs)) (c ∷ cs)
            ≡ keep (λ c. not (overlaps c p)) (c ∷ cs)
      step ih =
          unfold conflict_indices in
          rw (conflict_indices-suc 0 cs) (elim (Bool-cases (overlaps c p)) [
            | inl hit ↦ rw hit (unfold erase_indices in rw (erase_indices-suc, ih))
            | inr miss ↦ rw miss (rw (erase_indices-suc, ih))
          ])

  pub any_conflict :
      (cs : List Reservation)
      → any (λ i. loses_to p (get_elem? cs i)) (conflict_indices p 0 cs)
        ≡ any (λ c. overlaps c p && not (higher_priority p c)) cs
  unfolding conflict_indices loses_to
  any_conflict [] = refl
  any_conflict (c ∷ cs) =
      rw (conflict_indices-suc 0 cs)
        (ground (arith, any-map-suc (loses_to p) (conflict_indices p 0 cs) c cs, any_conflict cs))

  pub length-conflicts :
      (cs : List Reservation) → length (conflict_indices p 0 cs) ≡ count_if (λ c. overlaps c p) cs
  unfolding conflict_indices
  length-conflicts [] = refl
  length-conflicts (c ∷ cs) =
      rw (conflict_indices-suc 0 cs)
        (ground (arith, length-map-suc (conflict_indices p 0 cs), length-conflicts cs))

-- Some overlapping reservation is not outranked by the proposal.
abbrev pub is_beaten : ReservationTable → Reservation → Bool
is_beaten t p = any (λ c. overlaps c p && not (higher_priority p c)) t.committed

-- What `reserve` does to a fresh proposal, without indices.
unfoldable pub settled : ReservationTable → Reservation → ReservationTable × ReservationResult
settled t p =
    let seen = sort reservation_order (t.seen ++ p ∷ []) in
    if is_beaten t p
    then (record t { seen = seen; conflicts = (t.conflicts + 1) % 2 ^ 64 }, rejected)
    else (
      record t {
        seen = seen;
        committed = sort reservation_order (keep (λ c. not (overlaps c p)) t.committed ++ p ∷ []);
        conflicts = (t.conflicts + count_if (λ c. overlaps c p) t.committed) % 2 ^ 64;
      },
      committed,
    )

module _ (t : ReservationTable) (p : Reservation) where
  abbrev with_seen : ReservationTable
  with_seen = record t { seen = sort reservation_order (t.seen ++ p ∷ []) }

  settle-eq-settled : settle with_seen p ≡ settled t p
  unfolding settled settle sort
  settle-eq-settled =
      rw (any_conflict p t.committed, erase_conflicts p t.committed, length-conflicts p t.committed)

  conflicting :
      (is : List ℕ) (i : ℕ)
      → conflict_indices p 0 t.committed ≡ i ∷ is
      → record_proposal t p ≡ settle with_seen p
  unfolding record_proposal
  conflicting is i e = rw (e, record_proposal)

-- On a table whose counter is below 2 ^ 64, the index lists and the early return of `reserve` come to
-- a filter and a count.
pub record_proposal-eq-settled :
    (t : ReservationTable) (p : Reservation)
    → t.conflicts < 2 ^ 64
    → record_proposal t p ≡ settled t p
record_proposal-eq-settled t p h = by_conflicts (conflict_indices p 0 t.committed) refl
  where
    by_conflicts :
        (is : List ℕ) → conflict_indices p 0 t.committed ≡ is → record_proposal t p ≡ settled t p
    by_conflicts [] e =
        let kept = erase_conflicts p t.committed in
        let beaten = any_conflict p t.committed in
        let count = length-conflicts p t.committed in
        unfold record_proposal settled erase_indices in
        ground (
          arith,
          kept,
          beaten,
          count,
          ap (λ (js : List ℕ). erase_indices js t.committed) e,
          ap (any (λ i. loses_to p (get_elem? t.committed i))) e,
        )
    by_conflicts (i ∷ is) e = conflicting t p is i e ∙ settle-eq-settled t p
