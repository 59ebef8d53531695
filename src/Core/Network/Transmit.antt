-- ===== src/Core/Network/Transmit.antt =====
-- `transmit` of core/src/network.cpp: a tick's bytes on every open link.
use sentinel_public.Prelude.{
  ℕ, ◌-◌, min, Bool, true, ◌||◌, not, List, [], ◌∷◌, ◌++◌, ltb, ◌==◌, if◌then◌else◌, Except, ok,
  ◌>>=◌,
}
use sentinel_public.Prelude.Int.{ℤ, pos, ◌+ℤ◌, pos_part, ltb_ℤ}
use sentinel_public.Prelude.Order.{tie, by, sort}
use sentinel_public.Core.Network.State.{Packet, Link, NetworkEmulator, checked_add}
use sentinel_public.Core.Network.Links.{link_blocked}

-- `max<int64>(1, latency + jitter)`.
unfoldable pub delay_ticks : ℕ → ℤ → ℕ
unfolding ◌+ℤ◌
delay_ticks latency jitter =
    let resolved = pos latency +ℤ jitter in if ltb_ℤ resolved (pos 1) then 1 else pos_part resolved

-- The head packet with `transmitted` more bytes sent, on the wire since `tick` at the latest.
unfoldable pub advance : ℕ → ℕ → Packet → Packet
advance tick transmitted p = record p {
  started = true;
  transmit_start_tick = if p.started then p.transmit_start_tick else tick;
  remaining_bytes = p.remaining_bytes - transmitted;
}

unfoldable pub complete : ℕ → Packet → Except Packet
unfolding delay_ticks
complete tick p = do
  arrival ← checked_add tick (delay_ticks p.profile.latency_ticks p.jitter_ticks)
  delivery ← checked_add arrival p.reorder_delay_ticks
  ok (record p { transmit_end_tick = tick; delivery_tick = delivery })

-- The `while` loop on one queue: what stays queued, and what goes into flight.
unfoldable pub serve_queue : ℕ → ℕ → ℕ → List Packet → Except (List Packet × List Packet)
serve_queue tick rate budget [] = ok ([], [])
serve_queue tick rate budget (p ∷ queue) =
    let transmitted = min budget p.remaining_bytes in
    let q = advance tick transmitted p in
    let rest = serve_queue tick rate (budget - transmitted) queue in
    if budget == 0 || not (p.profile.bandwidth_bytes_per_tick == rate)
    then ok (p ∷ queue, [])
    else if ltb 0 q.remaining_bytes
    then ok (q ∷ queue, [])
    else do sent ← complete tick q; r ← rest; ok (r.0, sent ∷ r.1)

-- One link, by its queue: an empty queue and a blocked link are left alone. The rate is that of the
-- head packet.
unfoldable pub serve_from : NetworkEmulator → ℕ → Link → List Packet → Except (Link × List Packet)
serve_from e tick l [] = ok (l, [])
serve_from e tick l (p ∷ queue) = do
  blocked ← link_blocked e l.sender_id l.recipient_id
  let rate = p.profile.bandwidth_bytes_per_tick
  if blocked
      then ok (l, [])
      else do r ← serve_queue tick rate rate (p ∷ queue); ok (record l { queue = r.0 }, r.1)

unfoldable pub serve_link : NetworkEmulator → ℕ → Link → Except (Link × List Packet)
serve_link e tick l = serve_from e tick l l.queue

unfoldable pub serve_links : NetworkEmulator → ℕ → List Link → Except (List Link × List Packet)
serve_links e tick [] = ok ([], [])
serve_links e tick (l ∷ ls) = do
  a ← serve_link e tick l
  r ← serve_links e tick ls
  ok (a.0 ∷ r.0, a.1 ++ r.1)

unfoldable pub flight_order : Packet → Packet → Bool
flight_order = tie (by (λ p. p.delivery_tick) ltb) (by (λ p. p.sequence) ltb)

unfoldable pub transmit : NetworkEmulator → ℕ → Except NetworkEmulator
transmit e tick = do
  r ← serve_links e tick e.links
  ok (record e { links = r.0; in_flight = sort flight_order (e.in_flight ++ r.1) })
