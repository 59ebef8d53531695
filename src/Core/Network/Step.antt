-- ===== src/Core/Network/Step.antt =====
-- `packet` and `step` of core/src/network.cpp. The size of a serialized envelope is Protobuf's, and
-- a parameter: a function of the envelope's sequence number, its time and its message.
use sentinel_public.Prelude.{
  ℕ, ◌+◌, ◌*◌, ◌/◌, ◌-◌, ◌%◌, ◌^◌, Bool, false, ◌&&◌, ◌||◌, List, [], ◌∷◌, ◌++◌, length, ltb, ◌==◌,
  if◌then◌else◌, Except, ok, ◌>>=◌, ◌>>◌, throw_if, invalid_argument, overflow_error, logic_error,
}
use sentinel_public.Prelude.Int.{pos, ◌-ℤ◌, ltb_ℤ, pos_part}
use sentinel_public.Prelude.Text.{codes, is_empty, text_eq}
use sentinel_public.Prelude.Order.{sort}
use sentinel_public.Protocol.Messages.{
  NetworkMessage, NetworkOutcome, queued, dropped_loss, dropped_partition, delivered,
}
use sentinel_public.Core.Network.State.{
  Packet, NetworkEmulator, NetworkStep, draw, outcome, outcome_order, message_order, checked_add,
}
use sentinel_public.Core.Network.Links.{link_blocked, enqueue}
use sentinel_public.Core.Network.Transmit.{transmit}

abbrev pub EnvelopeSize : Type 0
EnvelopeSize = ℕ → ℕ → NetworkMessage → ℕ

-- The draws for the delay of a packet that is reordered.
unfoldable pub reorder_delay : NetworkEmulator → NetworkMessage → Bool → Except ℕ
reorder_delay e message reordered =
    if reordered
    then (draw e.seed (codes "reorder-delay") message e.next_sequence (pos 1)
          (pos e.profile.reorder_window_ticks)
        >>= λ delay. ok (pos_part delay))
    else ok 0

unfoldable pub is_reordered : NetworkEmulator → NetworkMessage → Except Bool
is_reordered e message =
    if ltb 0 e.profile.reorder_window_ticks
    then (draw e.seed (codes "reorder") message e.next_sequence (pos 0) (pos 9999) >>= λ d.
        ok (ltb_ℤ d (pos e.profile.reorder_permyriad)))
    else ok false

unfoldable pub invalid_message : NetworkMessage → Bool
invalid_message m =
    is_empty m.sender_id
    || (is_empty m.recipient_id || (text_eq m.sender_id m.recipient_id || m.version == 0))

-- The counters after a message was handed over, whatever becomes of it.
abbrev pub counted : NetworkEmulator → Packet → NetworkEmulator
counted e p = record e {
  next_sequence = (e.next_sequence + 1) % 2 ^ 64;
  communication_bytes = (e.communication_bytes + p.serialized_bytes) % 2 ^ 64;
  communication_messages = (e.communication_messages + 1) % 2 ^ 64;
}

abbrev pub dropped_one : NetworkEmulator → NetworkEmulator
dropped_one e = record e { dropped_messages = (e.dropped_messages + 1) % 2 ^ 64 }

module _ (envelope_size : EnvelopeSize) where
  -- The packet takes `next_sequence_` and the profile that is active now.
  unfoldable pub packet : NetworkEmulator → NetworkMessage → ℕ → Except Packet
  unfolding reorder_delay is_reordered
  packet e message tick = do
    let jitter = pos e.profile.jitter_ticks
    jitter_ticks ← draw e.seed (codes "jitter") message e.next_sequence (pos 0 -ℤ jitter) jitter
    reordered ← is_reordered e message
    delay ← reorder_delay e message reordered
    throw_if (ltb ((2 ^ 64 - 1) / e.step_ms) tick) overflow_error
    let size = envelope_size e.next_sequence (tick * e.step_ms) message
    ok (record {
      message = message;
      profile = e.profile;
      sequence = e.next_sequence;
      serialized_bytes = size;
      remaining_bytes = size;
      enqueue_tick = tick;
      transmit_start_tick = 0;
      transmit_end_tick = 0;
      delivery_tick = 0;
      reorder_delay_ticks = delay;
      jitter_ticks = jitter_ticks;
      started = false;
      reordered = reordered;
    })

  -- A round of the loop over the outgoing messages: the message is dropped or queued.
  unfoldable pub submit :
      NetworkEmulator → ℕ → NetworkMessage → Except (NetworkEmulator × NetworkOutcome)
  submit e tick message = do
    throw_if (invalid_message message) invalid_argument
    current ← packet e message tick
    let e' = counted e current
    blocked ← link_blocked e' message.sender_id message.recipient_id
    if blocked then ok (dropped_one e', outcome current dropped_partition tick) else do
      chance ← draw e.seed (codes "loss") message current.sequence (pos 0) (pos 9999)
      if ltb_ℤ chance (pos current.profile.packet_loss_permyriad)
          then ok (dropped_one e', outcome current dropped_loss tick)
          else ok (
            record e' { links = enqueue e'.links message.sender_id message.recipient_id current },
            outcome current queued tick,
          )

  unfoldable pub submit_all :
      NetworkEmulator → ℕ → List NetworkMessage → Except (NetworkEmulator × List NetworkOutcome)
  submit_all e tick [] = ok (e, [])
  submit_all e tick (m ∷ ms) = do
    a ← submit e tick m
    r ← submit_all a.0 tick ms
    ok (r.0, a.1 ∷ r.1)

-- What the loop over `in_flight_` takes off it.
pub record Arrivals : Type 0 where
  pub waiting : List Packet
  pub messages : List NetworkMessage
  pub outcomes : List NetworkOutcome
  pub delivered_count : ℕ
  pub dropped_count : ℕ
  pub reordered_count : ℕ

abbrev pub one_if : Bool → ℕ
one_if b = if b then 1 else 0

unfoldable pub arrive : NetworkEmulator → ℕ → List Packet → Except Arrivals
arrive e tick [] = ok (record {
  waiting = [];
  messages = [];
  outcomes = [];
  delivered_count = 0;
  dropped_count = 0;
  reordered_count = 0;
})
arrive e tick (p ∷ ps) =
    let rest = arrive e tick ps in
    if ltb tick p.delivery_tick
    then (rest >>= λ r. ok (record r { waiting = p ∷ r.waiting }))
    else do
      blocked ← link_blocked e p.message.sender_id p.message.recipient_id
      r ← rest
      if blocked
          then ok (record r {
            outcomes = outcome p dropped_partition tick ∷ r.outcomes;
            dropped_count = r.dropped_count + 1;
          })
          else ok (record r {
            messages = p.message ∷ r.messages;
            outcomes = outcome p delivered tick ∷ r.outcomes;
            delivered_count = r.delivered_count + 1;
            reordered_count = r.reordered_count + one_if p.reordered;
          })

abbrev pub settle_arrivals : NetworkEmulator → Arrivals → NetworkEmulator
settle_arrivals e a = record e {
  in_flight = a.waiting;
  delivered_messages = (e.delivered_messages + a.delivered_count) % 2 ^ 64;
  dropped_messages = (e.dropped_messages + a.dropped_count) % 2 ^ 64;
  reordered_messages = (e.reordered_messages + a.reordered_count) % 2 ^ 64;
}

module _ (envelope_size : EnvelopeSize) where
  unfoldable pub step :
      NetworkEmulator → ℕ → List NetworkMessage → Except (NetworkEmulator × NetworkStep)
  step e tick outgoing = do
    throw_if (ltb 0 (length outgoing) && is_empty e.profile.id) logic_error
    s ← submit_all envelope_size e tick (sort message_order outgoing)
    t ← transmit s.0 tick
    observation_tick ← checked_add tick 1
    a ← arrive t observation_tick t.in_flight
    ok (
      settle_arrivals t a,
      record { delivered = a.messages; outcomes = sort outcome_order (s.1 ++ a.outcomes) },
    )
