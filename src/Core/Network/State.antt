-- ===== src/Core/Network/State.antt =====
-- The data of core/src/network.cpp, its orders and the checks on its inputs.
use sentinel_public.Prelude.{
  ℕ, ◌+◌, ◌-◌, ◌^◌, Bool, ◌&&◌, ◌||◌, List, [], ◌++◌, ltb, ◌==◌, if◌then◌else◌, Except, ok, throw,
  ◌>>=◌, ◌>>◌, throw_if, invalid_argument, overflow_error,
}
use sentinel_public.Prelude.Int.{ℤ}
use sentinel_public.Prelude.Text.{Text, codes, is_empty, text_eq, text_lt, decimal}
use sentinel_public.Prelude.Order.{tie, by}
use sentinel_public.Protocol.Messages.{
  NetworkProfile, NetworkMessage, NetworkOutcome, NetworkDisposition, disposition_number,
}
use sentinel_public.Core.Rng.{stream_seed, uniform}

pub record Packet : Type 0 where
  pub message : NetworkMessage
  pub profile : NetworkProfile
  pub sequence : ℕ
  pub serialized_bytes : ℕ
  pub remaining_bytes : ℕ
  pub enqueue_tick : ℕ
  pub transmit_start_tick : ℕ
  pub transmit_end_tick : ℕ
  pub delivery_tick : ℕ
  pub reorder_delay_ticks : ℕ
  pub jitter_ticks : ℤ
  pub started : Bool
  pub reordered : Bool

pub record Link : Type 0 where
  pub sender_id : Text
  pub recipient_id : Text
  pub queue : List Packet

pub record NetworkEmulator : Type 0 where
  pub seed : ℕ
  pub step_ms : ℕ
  pub profile : NetworkProfile
  pub links : List Link
  pub in_flight : List Packet
  pub blocked_links : List (Text × Text)
  pub next_sequence : ℕ
  pub communication_bytes : ℕ
  pub communication_messages : ℕ
  pub delivered_messages : ℕ
  pub dropped_messages : ℕ
  pub reordered_messages : ℕ

pub record NetworkStep : Type 0 where
  pub delivered : List NetworkMessage
  pub outcomes : List NetworkOutcome

unfoldable pub message_order : NetworkMessage → NetworkMessage → Bool
message_order = tie (by (λ m. m.recipient_id) text_lt) (
    tie (by (λ m. m.sender_id) text_lt)
      (tie (by (λ m. m.version) ltb) (by (λ m. m.payload) text_lt)))

unfoldable pub outcome_order : NetworkOutcome → NetworkOutcome → Bool
unfolding disposition_number
outcome_order =
    tie (by (λ o. o.tick) ltb)
      (tie (by (λ o. o.sequence) ltb) (by (λ o. disposition_number o.disposition) ltb))

-- The two ends of a link, the smaller first.
unfoldable pub normal_pair : Text → Text → Text × Text
normal_pair first second = if text_lt first second then (first, second) else (second, first)

unfoldable pub link_pair : Text → Text → Except (Text × Text)
unfolding normal_pair
link_pair first second = do
  throw_if (is_empty first || (is_empty second || text_eq first second)) invalid_argument
  ok (normal_pair first second)

abbrev pub int64_max : ℕ
int64_max = 2 ^ 63 - 1

unfoldable pub invalid_profile : NetworkProfile → Bool
invalid_profile p =
    is_empty p.id
    || (ltb 10000 p.packet_loss_permyriad
        || (ltb 10000 p.reorder_permyriad
            || (p.bandwidth_bytes_per_tick == 0
                || ((ltb 0 p.reorder_permyriad && p.reorder_window_ticks == 0)
                    || (ltb int64_max p.latency_ticks
                        || (ltb int64_max p.jitter_ticks
                            || ltb (int64_max - p.latency_ticks) p.jitter_ticks))))))

unfoldable pub validate_profile : NetworkProfile → Except (Unit {0})
unfolding invalid_profile
validate_profile p = throw_if (invalid_profile p) invalid_argument

unfoldable pub checked_add : ℕ → ℕ → Except ℕ
checked_add left right =
    if ltb (2 ^ 64 - 1 - left) right then throw overflow_error else ok (left + right)

unfoldable pub draw_key : Text → NetworkMessage → ℕ → Text
unfolding decimal
draw_key label message sequence =
    codes "network-"
    ++ (label
        ++ (codes ":"
            ++ (message.sender_id
                ++ (codes ":" ++ (message.recipient_id ++ (codes ":" ++ decimal 20 sequence))))))

-- A keyed draw: a generator of its own for every label, link and packet.
unfoldable pub draw : ℕ → Text → NetworkMessage → ℕ → ℤ → ℤ → Except ℤ
unfolding draw_key stream_seed
draw seed label message sequence minimum maximum = do
  d ← uniform (stream_seed seed (draw_key label message sequence)) minimum maximum
  ok d.value

abbrev pub no_profile : NetworkProfile
no_profile = record {
  id = [];
  latency_ticks = 0;
  jitter_ticks = 0;
  packet_loss_permyriad = 0;
  bandwidth_bytes_per_tick = 0;
  reorder_permyriad = 0;
  reorder_window_ticks = 0;
}

-- The constructor.
unfoldable pub new_emulator : ℕ → ℕ → Except NetworkEmulator
new_emulator seed step_ms = do
  throw_if (step_ms == 0) invalid_argument
  ok (record {
    seed = seed;
    step_ms = step_ms;
    profile = no_profile;
    links = [];
    in_flight = [];
    blocked_links = [];
    next_sequence = 1;
    communication_bytes = 0;
    communication_messages = 0;
    delivered_messages = 0;
    dropped_messages = 0;
    reordered_messages = 0;
  })

unfoldable pub set_profile : NetworkEmulator → NetworkProfile → Except NetworkEmulator
unfolding validate_profile
set_profile e profile = do validate_profile profile; ok (record e { profile = profile })

unfoldable pub outcome : Packet → NetworkDisposition → ℕ → NetworkOutcome
outcome packet disposition tick = record {
  sequence = packet.sequence;
  disposition = disposition;
  tick = tick;
  message = packet.message;
  serialized_bytes = packet.serialized_bytes;
  enqueue_tick = packet.enqueue_tick;
  transmit_start_tick = packet.transmit_start_tick;
  transmit_end_tick = packet.transmit_end_tick;
  delivery_tick = packet.delivery_tick;
  jitter_ticks = packet.jitter_ticks;
  reordered = packet.reordered;
  profile_id = packet.profile.id;
}
