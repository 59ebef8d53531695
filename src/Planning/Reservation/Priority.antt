-- ===== src/Planning/Reservation/Priority.antt =====
-- `higher_priority`, `overlaps` and `reservation_order` of planning/src/planner.cpp as relations.
use sentinel_public.Prelude.{◌≡◌, true, false, arith}
use sentinel_public.Prelude.Text.{
  text_eq_sound, text_eq_comm, text_eq_refl, text_lt_asymm, text_lt_strict, text_lt_irrefl,
}
use sentinel_public.Prelude.Order.{
  StrictOrder, tie-StrictOrder, by-StrictOrder, ltb-StrictOrder, text_lt-StrictOrder,
}
use sentinel_public.Planning.Reservation.{
  Reservation, overlaps, higher_priority, reservation_order, same_reservation,
}

pub overlaps_comm : (a b : Reservation) → overlaps a b ≡ overlaps b a
unfolding overlaps
overlaps_comm a b = ground (arith, text_eq_comm a.resource_id b.resource_id)

-- No reservation wins against itself.
pub higher_priority_irrefl : (a : Reservation) → higher_priority a a ≡ false
unfolding higher_priority
higher_priority_irrefl a = ground (arith, text_eq_refl a.agent_id)

pub higher_priority_asymm :
    (a b : Reservation) → higher_priority a b ≡ true → higher_priority b a ≡ false
unfolding higher_priority
higher_priority_asymm a b h =
    ground (arith, text_eq_comm a.agent_id b.agent_id, text_lt_asymm a.agent_id b.agent_id)

-- Priority is transitive.
pub higher_priority_trans :
    (a b c : Reservation)
    → higher_priority a b ≡ true
    → higher_priority b c ≡ true
    → higher_priority a c ≡ true
unfolding higher_priority
higher_priority_trans a b c h k = ground (
  arith,
  text_eq_sound a.agent_id b.agent_id,
  text_eq_sound b.agent_id c.agent_id,
  text_eq_sound a.agent_id c.agent_id,
  text_lt_strict a.agent_id b.agent_id c.agent_id,
  text_lt_irrefl a.agent_id,
  text_lt_irrefl c.agent_id,
  text_lt_asymm a.agent_id b.agent_id,
  text_eq_refl c.agent_id,
  text_eq_refl a.agent_id,
)

pub reservation_order-StrictOrder : StrictOrder reservation_order
unfolding reservation_order
reservation_order-StrictOrder = tie-StrictOrder _ _ (by-StrictOrder _ _ text_lt-StrictOrder) (
    tie-StrictOrder _ _ (by-StrictOrder _ _ ltb-StrictOrder) (
      tie-StrictOrder _ _ (by-StrictOrder _ _ ltb-StrictOrder) (
        tie-StrictOrder _ _ (by-StrictOrder _ _ text_lt-StrictOrder) (
          tie-StrictOrder _ _ (by-StrictOrder _ _ ltb-StrictOrder) (
            tie-StrictOrder _ _ (by-StrictOrder _ _ ltb-StrictOrder)
              (by-StrictOrder _ _ ltb-StrictOrder))))))

pub same_reservation_refl : (a : Reservation) → same_reservation a a ≡ true
unfolding same_reservation
same_reservation_refl a = ground (arith, text_eq_refl a.agent_id, text_eq_refl a.resource_id)
