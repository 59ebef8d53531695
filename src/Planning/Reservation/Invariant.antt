-- ===== src/Planning/Reservation/Invariant.antt =====
-- The invariant of `ReservationTable` (planning/src/planner.cpp) and every call's part in it.
use sentinel_public.Prelude.{
  ◌^◌, ◌<◌, ◌≡◌, ◌∙◌, Bool, false, not, ◌&&◌, List, [], ◌∷◌, ◌++◌, any, keep, any-false, All,
  All-mono, All-append, All-keep, keep-All, Pairs, Pairs-keep, Pairs-snoc, leb, ◌==◌, Bool-cases,
  inl, inr, arith,
}
use sentinel_public.Prelude.Text.{text_eq, text_eq_comm}
use sentinel_public.Prelude.Order.{IsSorted, sort, sort-All, sort-Pairs, sort-IsSorted}
use sentinel_public.Planning.Reservation.{
  Reservation, ReservationTable, Request, reserves, releases_before, releases_agent, releases_route,
  releases_map, overlaps, reservation_order, invalid, reserve, release_before, release_agent,
  release_route, release_map, after_reserve, serve, serve_all, empty_table, same_reservation,
}
use sentinel_public.Planning.Reservation.Conflicts.{settled, is_beaten, record_proposal-eq-settled}
use sentinel_public.Planning.Reservation.Priority.{overlaps_comm, reservation_order-StrictOrder}

abbrev pub Apart : Reservation → Reservation → Type 0
Apart a b = overlaps a b ≡ false

-- Two proposals that were let through: not the same version of one agent.
abbrev pub OtherVersion : Reservation → Reservation → Type 0
OtherVersion a b = (text_eq a.agent_id b.agent_id && a.version == b.version) ≡ false

pub record IsTable (t : ReservationTable) : Type 0 where
  -- No two committed reservations overlap.
  pub apart : Pairs Apart t.committed
  pub ordered : IsSorted reservation_order t.committed
  pub valid : All (λ r. invalid r ≡ false) t.committed
  -- No agent has had two proposals of one version recorded.
  pub versions : Pairs OtherVersion t.seen
  pub counted : t.conflicts < 2 ^ 64

Apart-sym : (a b : Reservation) → Apart a b → Apart b a
Apart-sym a b h = overlaps_comm b a ∙ h

OtherVersion-sym : (a b : Reservation) → OtherVersion a b → OtherVersion b a
OtherVersion-sym a b h = ground (arith, text_eq_comm a.agent_id b.agent_id)

module _ (cs : List Reservation) (p : Reservation) where
  joined : List Reservation
  joined = sort reservation_order (keep (λ c. not (overlaps c p)) cs ++ p ∷ [])

  joined-Apart : Pairs Apart cs → Pairs Apart joined
  unfolding joined
  joined-Apart h = sort-Pairs reservation_order Apart Apart-sym _ (
      Pairs-snoc Apart _ p (Pairs-keep Apart _ cs h)
        (keep-All (λ c. overlaps c p ≡ false) (λ c. not (overlaps c p)) cs (λ c k. ground arith)))

  joined-valid :
      invalid p ≡ false → All (λ r. invalid r ≡ false) cs → All (λ r. invalid r ≡ false) joined
  unfolding joined
  joined-valid v h =
      sort-All reservation_order _ _ (All-append _ _ (p ∷ []) (All-keep _ _ cs h) (v, tt))

versions-snoc :
    (seen : List Reservation) (p : Reservation)
    → Pairs OtherVersion seen
    → any (λ c. text_eq c.agent_id p.agent_id && leb p.version c.version) seen ≡ false
    → Pairs OtherVersion (sort reservation_order (seen ++ p ∷ []))
versions-snoc seen p h none_newer = sort-Pairs reservation_order OtherVersion OtherVersion-sym _ (
    Pairs-snoc OtherVersion seen p h
      (All-mono _ (λ c. OtherVersion c p) seen (λ c k. ground arith) (any-false _ seen none_newer)))

settled-IsTable :
    (t : ReservationTable) (p : Reservation)
    → IsTable t
    → invalid p ≡ false
    → any (λ c. text_eq c.agent_id p.agent_id && leb p.version c.version) t.seen ≡ false
    → IsTable (settled t p).0
unfolding settled joined
settled-IsTable t p v ok_p fresh = elim (Bool-cases (is_beaten t p)) [
  | inl lost ↦ rw lost (record {
    apart = v.apart;
    ordered = v.ordered;
    valid = v.valid;
    versions = versions-snoc t.seen p v.versions fresh;
    counted = omega arith;
  })
  | inr won ↦ rw won (record {
    apart = joined-Apart t.committed p v.apart;
    ordered = sort-IsSorted reservation_order reservation_order-StrictOrder _;
    valid = joined-valid t.committed p ok_p v.valid;
    versions = versions-snoc t.seen p v.versions fresh;
    counted = omega arith;
  })
]

pub reserve-IsTable :
    (t : ReservationTable) (p : Reservation) → IsTable t → IsTable (after_reserve t (reserve t p))
unfolding reserve
reserve-IsTable t p v = elim (Bool-cases (invalid p)) [
  | inl bad ↦ rw bad v
  | inr good ↦ rw good (elim (Bool-cases (any (λ c. same_reservation c p) t.seen)) [
    | inl again ↦ rw again v
    | inr new ↦
        rw new
          (elim (Bool-cases
            (any (λ c. text_eq c.agent_id p.agent_id && leb p.version c.version) t.seen)) [
              | inl old ↦ rw old v
              | inr fresh ↦
                  rw (fresh, record_proposal-eq-settled t p v.counted)
                    (settled-IsTable t p v good fresh)
            ])
  ])
]

kept-IsTable :
    (t : ReservationTable) (test : Reservation → Bool)
    → IsTable t
    → IsTable (record t { committed = keep test t.committed })
kept-IsTable t test v = record {
  apart = Pairs-keep Apart test t.committed v.apart;
  ordered = Pairs-keep _ test t.committed v.ordered;
  valid = All-keep _ test t.committed v.valid;
  versions = v.versions;
  counted = v.counted;
}

-- Every call keeps the committed reservations apart, valid and in order, and the recorded versions
-- of each agent distinct.
pub serve-IsTable : (t : ReservationTable) (r : Request) → IsTable t → IsTable (serve t r)
unfolding release_before release_agent release_route release_map serve
serve-IsTable t (reserves p) v = reserve-IsTable t p v
serve-IsTable t (releases_before tick) v = kept-IsTable t _ v
serve-IsTable t (releases_agent agent) v = kept-IsTable t _ v
serve-IsTable t (releases_route agent version) v = kept-IsTable t _ v
serve-IsTable t (releases_map version) v = kept-IsTable t _ v

pub empty_table-IsTable : IsTable empty_table
empty_table-IsTable = record {
  apart = tt;
  ordered = tt;
  valid = tt;
  versions = tt;
  counted = omega arith;
}

serve_all-kept : (rs : List Request) (t : ReservationTable) → IsTable t → IsTable (serve_all t rs)
unfolding serve_all
serve_all-kept [] t v = v
serve_all-kept (r ∷ rs) t v = serve_all-kept rs (serve t r) (serve-IsTable t r v)

-- After any history of calls on an empty table no two committed reservations overlap, the committed
-- reservations are valid and in order, no agent has had two proposals of one version recorded, and
-- the counter of conflicts is below 2 ^ 64.
pub serve_all-IsTable : (rs : List Request) → IsTable (serve_all empty_table rs)
serve_all-IsTable rs = serve_all-kept rs empty_table empty_table-IsTable
