-- ===== src/Core/Network/Budget.antt =====
-- What a tick does to one queue of core/src/network.cpp `transmit`: order, budget and arrival times.
use mathlib.Core.Path.{ap₂}
use sentinel_public.Prelude.{
  ℕ, ◌+◌, ◌-◌, ◌^◌, ◌≤◌, ◌<◌, ◌≡◌, refl, min, ◌||◌, not, List, [], ◌∷◌, ◌++◌, map, length, All, ltb,
  ◌==◌, ok, Ensures, Ensures-elim, Ensures-if, Ensures-bind, arith,
}
use sentinel_public.Prelude.Int.{ℤ}
use sentinel_public.Core.Network.State.{Packet, checked_add}
use sentinel_public.Core.Network.Transmit.{advance, complete, delay_ticks, serve_queue}

-- The bytes that a queue still has to send.
abbrev pub backlog : List Packet → ℕ
backlog [] = 0
backlog (p ∷ queue) = p.remaining_bytes + backlog queue

abbrev pub sequences : List Packet → List ℕ
sequences = map λ p. p.sequence

-- One tick of a queue: the packets sent are its first ones, in their order; the tick sends no more
-- bytes than its budget; and a packet in flight arrives after the tick.
pub record IsServed (tick budget : ℕ) (queue : List Packet) (r : List Packet × List Packet)
    : Type 0 where
  pub in_order : sequences (r.1 ++ r.0) ≡ sequences queue
  pub counted : length r.0 + length r.1 ≡ length queue
  pub within : backlog queue ≤ backlog r.0 + budget
  pub later : All (λ p. (tick < p.delivery_tick) × (p.transmit_end_tick ≡ tick)) r.1

delay_ticks-pos : (latency : ℕ) (jitter : ℤ) → 0 < delay_ticks latency jitter
unfolding delay_ticks
delay_ticks-pos latency jitter = ground arith

pub checked_add-eq : (a b : ℕ) → Ensures (λ c. c ≡ a + b) (checked_add a b)
unfolding checked_add
checked_add-eq a b = Ensures-if _ (ltb (2 ^ 64 - 1 - a) b) _ _ (λ h. tt) (λ h. refl)

complete-later :
    (tick : ℕ) (p : Packet)
    → Ensures
        (λ q.
          (tick < q.delivery_tick)
          × (q.transmit_end_tick ≡ tick)
          × (q.sequence ≡ p.sequence)
          × (q.remaining_bytes ≡ p.remaining_bytes))
        (complete tick p)
unfolding complete
complete-later tick p =
    Ensures-bind _ (checked_add tick (delay_ticks p.profile.latency_ticks p.jitter_ticks)) _ λ a ha.
      Ensures-bind _ (checked_add a p.reorder_delay_ticks) _ λ d hd.
        let first =
          Ensures-elim _ _
            (checked_add-eq tick (delay_ticks p.profile.latency_ticks p.jitter_ticks)) ha in
        let second = Ensures-elim _ _ (checked_add-eq a p.reorder_delay_ticks) hd in
        (omega (arith, delay_ticks-pos p.profile.latency_ticks p.jitter_ticks), refl, refl, refl)

serve_queue-IsServed :
    (tick rate budget : ℕ) (queue : List Packet)
    → Ensures (IsServed tick budget queue) (serve_queue tick rate budget queue)
unfolding serve_queue advance
serve_queue-IsServed tick rate budget [] = record {
  in_order = refl;
  counted = refl;
  within = omega arith;
  later = tt;
}
serve_queue-IsServed tick rate budget (p ∷ queue) =
    let transmitted = min budget p.remaining_bytes in
    let q = advance tick transmitted p in
    let ih = serve_queue-IsServed tick rate (budget - transmitted) queue in
    Ensures-if _ (budget == 0 || not (p.profile.bandwidth_bytes_per_tick == rate)) _ _
      (λ h. record { in_order = refl; counted = omega arith; within = omega arith; later = tt })
      λ h.
        Ensures-if _ (ltb 0 q.remaining_bytes) _ _
          (λ k. record { in_order = refl; counted = omega arith; within = omega arith; later = tt })
          λ k. Ensures-bind _ (complete tick q) _ λ sent hs.
            Ensures-bind _ (serve_queue tick rate (budget - transmitted) queue) _ λ r hr.
              let done = Ensures-elim _ _ (complete-later tick q) hs in
              let rest = Ensures-elim _ _ ih hr in
              record {
                in_order = ap₂ ◌∷◌ done.2 rest.in_order;
                counted = omega (arith, rest.counted);
                within = ground (arith, rest.within);
                later = ((done.0, done.1), rest.later);
              }

-- Where the loop on one queue returns: the packets sent are the first ones, in their order; the bytes
-- that the tick sends are within its budget; and each packet sent arrives after the tick.
pub serve_queue_lem :
    (tick rate budget : ℕ) (queue : List Packet) (r : List Packet × List Packet)
    → serve_queue tick rate budget queue ≡ ok r
    → IsServed tick budget queue r
serve_queue_lem tick rate budget queue r e =
    Ensures-elim _ _ (serve_queue-IsServed tick rate budget queue) e
