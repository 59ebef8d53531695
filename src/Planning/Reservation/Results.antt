-- ===== src/Planning/Reservation/Results.antt =====
-- What each result of `ReservationTable::reserve` (planning/src/planner.cpp) says of the table.
use mathlib.Core.List.{Perm, perm_middle, append-nil}
use mathlib.Core.List.Perm
use sentinel_public.Prelude.{
  ◌+◌, ◌%◌, ◌^◌, ◌<◌, ◌≡◌, ◌≢◌, refl, ap, ◌∙◌, sym, subst, true, false, not, ◌&&◌, List, [], ◌∷◌,
  ◌++◌, any, any-false, any-append, All, All-mono, keep, count_if, Bool-cases, inl, inr, ok, arith,
}
use sentinel_public.Prelude.Order.{sort, any-sort, sort-perm}
use sentinel_public.Planning.Reservation.{
  Reservation, ReservationTable, ReservationResult, committed, rejected, stale, unchanged, overlaps,
  higher_priority, reservation_order, invalid, reserve, same_reservation,
}
use sentinel_public.Planning.Reservation.Conflicts.{settled, is_beaten}
use sentinel_public.Planning.Reservation.Priority.{same_reservation_refl}
use sentinel_public.Planning.Reservation.Outcome.{
  Went, again, outdated, lost, won, went, is_seen, reserve_throws,
}

module _ (t : ReservationTable) (p : Reservation) where
  settled_won :
      is_beaten t p ≡ false
      → ((settled t p).0.committed
          ≡ sort reservation_order (keep (λ c. not (overlaps c p)) t.committed ++ p ∷ []))
        × ((settled t p).0.conflicts
            ≡ (t.conflicts + count_if (λ c. overlaps c p) t.committed) % 2 ^ 64)
  unfolding settled
  settled_won w = rw w (refl, refl)

  settled_lost :
      is_beaten t p ≡ true
      → ((settled t p).0.committed ≡ t.committed)
        × ((settled t p).0.conflicts ≡ (t.conflicts + 1) % 2 ^ 64)
  unfolding settled
  settled_lost l = rw l (refl, refl)

  settled-seen : (settled t p).0.seen ≡ sort reservation_order (t.seen ++ p ∷ [])
  unfolding settled
  settled-seen = ground arith

  outranks :
      is_beaten t p ≡ false
      → All (λ c. overlaps c p ≡ true → higher_priority p c ≡ true) t.committed
  outranks w =
      All-mono _ (λ c. overlaps c p ≡ true → higher_priority p c ≡ true) t.committed
        (λ c k h. ground arith)
        (any-false (λ c. overlaps c p && not (higher_priority p c)) t.committed w)

  snoc-perm : (cs : List Reservation) → Perm (sort reservation_order (cs ++ p ∷ [])) (p ∷ cs)
  snoc-perm cs =
      let moved = perm_middle {a = p} cs [] in
      Perm.trans (sort-perm reservation_order (cs ++ p ∷ [])) (rw append-nil at moved)

Committed : (t t' : ReservationTable) (p : Reservation) → Type 0
Committed t t' p =
    Perm t'.committed (p ∷ keep (λ c. not (overlaps c p)) t.committed)
    × All (λ c. overlaps c p ≡ true → higher_priority p c ≡ true) t.committed
    × (t'.conflicts ≡ (t.conflicts + count_if (λ c. overlaps c p) t.committed) % 2 ^ 64)

Went-Committed :
    (t t' : ReservationTable) (p : Reservation) → Went t p (t', committed) → Committed t t' p
unfolding Committed
Went-Committed t t' p (again s e) = absurd (cc)
Went-Committed t t' p (outdated s o e) = absurd (cc)
Went-Committed t t' p (lost l e c) = absurd (cc)
Went-Committed t t' p (won w e c) =
    let after = ap (λ (r : ReservationTable × ReservationResult). r.0.committed) e in
    let parts = settled_won t p w in
    (
      subst (λ cs. Perm cs (p ∷ keep (λ c. not (overlaps c p)) t.committed)) (sym (after ∙ parts.0))
          (snoc-perm t p (keep (λ c. not (overlaps c p)) t.committed)),
      outranks t p w,
      ap (λ (r : ReservationTable × ReservationResult). r.0.conflicts) e ∙ parts.1,
    )

-- On a table whose counter is below 2 ^ 64, a proposal that is committed outranks every committed
-- reservation that it overlaps. These leave the table, all others stay, the proposal joins them, and
-- each one displaced is counted as a conflict, modulo 2 ^ 64.
pub reserve_committed :
    (t t' : ReservationTable) (p : Reservation)
    → t.conflicts < 2 ^ 64
    → reserve t p ≡ ok (t', committed)
    → Perm t'.committed (p ∷ keep (λ c. not (overlaps c p)) t.committed)
      × All (λ c. overlaps c p ≡ true → higher_priority p c ≡ true) t.committed
      × (t'.conflicts ≡ (t.conflicts + count_if (λ c. overlaps c p) t.committed) % 2 ^ 64)
unfolding Committed
reserve_committed t t' p bounded e = Went-Committed t t' p (went t p (t', committed) bounded e)

Refused : (t t' : ReservationTable) (p : Reservation) (r : ReservationResult) → Type 0
Refused t t' p r =
    (t'.committed ≡ t.committed)
    × (r ≡ rejected → (is_beaten t p ≡ true) × (t'.conflicts ≡ (t.conflicts + 1) % 2 ^ 64))
    × (r ≢ rejected → t' ≡ t)

Went-Refused :
    (t t' : ReservationTable) (p : Reservation) (r : ReservationResult)
    → r ≢ committed
    → Went t p (t', r)
    → Refused t t' p r
unfolding Refused
Went-Refused t t' p r n (again s e) = (cc, (λ q. absurd (cc)), (λ q. cc))
Went-Refused t t' p r n (outdated s o e) = (cc, (λ q. absurd (cc)), (λ q. cc))
Went-Refused t t' p r n (lost l e c) =
    let parts = settled_lost t p l in
    (
      ap (λ (r : ReservationTable × ReservationResult). r.0.committed) e ∙ parts.0,
      (λ q. (l, ap (λ (r : ReservationTable × ReservationResult). r.0.conflicts) e ∙ parts.1)),
      (λ q. absurd (q c)),
    )
Went-Refused t t' p r n (won w e c) = absurd (n c)

refused :
    (t t' : ReservationTable) (p : Reservation) (r : ReservationResult)
    → t.conflicts < 2 ^ 64
    → r ≢ committed
    → reserve t p ≡ ok (t', r)
    → (t'.committed ≡ t.committed)
      × (r ≡ rejected → (is_beaten t p ≡ true) × (t'.conflicts ≡ (t.conflicts + 1) % 2 ^ 64))
      × (r ≢ rejected → t' ≡ t)
unfolding Refused
refused t t' p r bounded n e = Went-Refused t t' p r n (went t p (t', r) bounded e)

-- On a table whose counter is below 2 ^ 64, a proposal that is rejected overlaps a committed
-- reservation that it does not outrank. The committed reservations stay, and one conflict is counted,
-- modulo 2 ^ 64.
pub reserve_rejected :
    (t t' : ReservationTable) (p : Reservation)
    → t.conflicts < 2 ^ 64
    → reserve t p ≡ ok (t', rejected)
    → (t'.committed ≡ t.committed)
      × (is_beaten t p ≡ true)
      × (t'.conflicts ≡ (t.conflicts + 1) % 2 ^ 64)
reserve_rejected t t' p bounded e =
    let (same, counted, _) = refused t t' p rejected bounded (λ q. cc) e in
    let (beaten, conflicts) = counted refl in (same, beaten, conflicts)

-- A call that returns, with a result that is neither committed nor rejected, changes nothing.
pub reserve_idle :
    (t t' : ReservationTable) (p : Reservation) (r : ReservationResult)
    → t.conflicts < 2 ^ 64
    → r ≢ committed
    → r ≢ rejected
    → reserve t p ≡ ok (t', r)
    → t' ≡ t
reserve_idle t t' p r bounded n m e = (refused t t' p r bounded n e).2 m

recorded :
    (t t' : ReservationTable) (p : Reservation) (r : ReservationResult)
    → ◌≡◌ {A = ReservationTable × ReservationResult} (t', r) (settled t p)
    → is_seen t' p ≡ true
recorded t t' p r e =
    let after = ap (λ (q : ReservationTable × ReservationResult). q.0.seen) e ∙ settled-seen t p in
    ap (any (λ c. same_reservation c p)) after
    ∙ any-sort reservation_order (λ c. same_reservation c p) (t.seen ++ p ∷ [])
    ∙ any-append (λ c. same_reservation c p) t.seen (p ∷ [])
    ∙ ground (arith, same_reservation_refl p)

seen_after :
    (t t' : ReservationTable) (p : Reservation) (r : ReservationResult)
    → r ≢ stale
    → Went t p (t', r)
    → is_seen t' p ≡ true
seen_after t t' p r n (again s e) =
    subst (λ u. is_seen u p ≡ true) (ap (λ (q : ReservationTable × ReservationResult). q.0) (sym e))
      s
seen_after t t' p r n (outdated s o e) = absurd (n (cc))
seen_after t t' p r n (lost l e c) = recorded t t' p r e
seen_after t t' p r n (won w e c) = recorded t t' p r e

-- On a table whose counter is below 2 ^ 64, after a call that returned and was not stale the same
-- proposal again is answered as unchanged, and changes nothing.
pub reserve_again :
    (t t' : ReservationTable) (p : Reservation) (r : ReservationResult)
    → t.conflicts < 2 ^ 64
    → r ≢ stale
    → reserve t p ≡ ok (t', r)
    → reserve t' p ≡ ok (t', unchanged)
unfolding reserve
reserve_again t t' p r bounded n e =
    let seen = seen_after t t' p r n (went t p (t', r) bounded e) in
    elim (Bool-cases (invalid p)) [
      | inl bad ↦ absurd (let h = (reserve_throws t p bounded).0 bad in cc)
      | inr good ↦ rw (good, seen)
    ]
