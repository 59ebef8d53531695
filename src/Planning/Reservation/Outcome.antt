-- ===== src/Planning/Reservation/Outcome.antt =====
-- The results of `ReservationTable::reserve` (planning/src/planner.cpp), branch by branch.
use sentinel_public.Prelude.{
  ◌^◌, ◌<◌, ◌≤◌, ◌≡◌, ◌≢◌, ◌↔◌, [], refl, ◌∙◌, sym, Bool, true, false, ◌&&◌, any, leb, Bool-cases,
  inl, inr, Except, ok, throw, invalid_argument, arith,
}
use sentinel_public.Prelude.Text.{Text, text_eq}
use sentinel_public.Planning.Reservation.{
  Reservation, ReservationTable, ReservationResult, committed, rejected, stale, unchanged, invalid,
  reserve, same_reservation,
}
use sentinel_public.Planning.Reservation.Conflicts.{settled, is_beaten, record_proposal-eq-settled}

abbrev pub is_seen : ReservationTable → Reservation → Bool
is_seen t p = any (λ c. same_reservation c p) t.seen

abbrev pub is_old : ReservationTable → Reservation → Bool
is_old t p = any (λ c. text_eq c.agent_id p.agent_id && leb p.version c.version) t.seen

-- How a call that returned went.
pub data Went (t : ReservationTable) (p : Reservation) (r : ReservationTable × ReservationResult)
    : Type 0 where
  again : is_seen t p ≡ true → r ≡ (t, unchanged) → Went t p r
  outdated : is_seen t p ≡ false → is_old t p ≡ true → r ≡ (t, stale) → Went t p r
  lost : is_beaten t p ≡ true → r ≡ settled t p → r.1 ≡ rejected → Went t p r
  won : is_beaten t p ≡ false → r ≡ settled t p → r.1 ≡ committed → Went t p r

ok_injective {ℓ} : {A : Type ℓ} (a b : A) → ok a ≡ ok b → a ≡ b
ok_injective a b e = cc

settled-Went :
    (t : ReservationTable) (p : Reservation) (r : ReservationTable × ReservationResult)
    → r ≡ settled t p
    → Went t p r
settled-Went t p r e = elim (Bool-cases (is_beaten t p)) [
  | inl l ↦ lost l e (rw e (unfold settled in rw l))
  | inr w ↦ won w e (rw e (unfold settled in rw w))
]

-- The tests of `reserve` in their order.
abbrev outcome :
    Bool
    → Bool
    → Bool
    → ReservationTable
    → Reservation
    → Except (ReservationTable × ReservationResult)
outcome true b c t p = throw invalid_argument
outcome false true c t p = ok (t, unchanged)
outcome false false true t p = ok (t, stale)
outcome false false false t p = ok (settled t p)

reserve-outcome :
    (t : ReservationTable) (p : Reservation)
    → t.conflicts < 2 ^ 64
    → reserve t p ≡ outcome (invalid p) (is_seen t p) (is_old t p) t p
unfolding reserve
reserve-outcome t p bounded = ground (arith, record_proposal-eq-settled t p bounded)

outcome-Went :
    (b c d : Bool) (t : ReservationTable) (p : Reservation)
    (r : ReservationTable × ReservationResult)
    → is_seen t p ≡ c
    → is_old t p ≡ d
    → outcome b c d t p ≡ ok r
    → Went t p r
outcome-Went true c d t p r s o e = absurd (cc)
outcome-Went false true d t p r s o e = again s (cc)
outcome-Went false false true t p r s o e = outdated s o (cc)
outcome-Went false false false t p r s o e = settled-Went t p r (cc)

pub went :
    (t : ReservationTable) (p : Reservation) (r : ReservationTable × ReservationResult)
    → t.conflicts < 2 ^ 64
    → reserve t p ≡ ok r
    → Went t p r
went t p r bounded e =
    outcome-Went (invalid p) _ _ t p r refl refl (sym (reserve-outcome t p bounded) ∙ e)

-- `reserve` throws on an invalid proposal, and on no other.
pub reserve_throws :
    (t : ReservationTable) (p : Reservation)
    → t.conflicts < 2 ^ 64
    → (invalid p ≡ true) ↔ (reserve t p ≡ throw invalid_argument)
reserve_throws t p bounded = ground (arith, reserve-outcome t p bounded)

-- What a proposal must have: names, versions, and an end that is not before its start.
pub record IsWellFormed (p : Reservation) : Type 0 where
  pub resource : p.resource_id ≢ []
  pub agent : p.agent_id ≢ []
  pub version : 0 < p.version
  pub route_version : 0 < p.route_version
  pub map_version : 0 < p.map_version
  pub ordered : p.start_tick ≤ p.end_tick

-- What `reserve` does with a proposal: it throws, or it returns and the result is right.
pub data Reserves (t : ReservationTable) (p : Reservation) : Type 0 where
  refused : ¬ IsWellFormed p → reserve t p ≡ throw invalid_argument → Reserves t p
  served :
      IsWellFormed p
      → (r : ReservationTable × ReservationResult) → reserve t p ≡ ok r
      → Went t p r
      → Reserves t p
