-- ===== src/Core/Network/Digest.antt =====
-- `append_profile` and `append_hash` of core/src/network.cpp: what the digest of the emulator covers.
-- The deterministic bytes of a message are Protobuf's, and a parameter.
pub mod Feeds
pub mod Input
use sentinel_public.Prelude.{ℕ, List, [], ◌∷◌, length}
use sentinel_public.Prelude.Text.{Text}
use sentinel_public.Protocol.Messages.{NetworkProfile, NetworkMessage}
use sentinel_public.Core.Hash.{HashBuilder, unsigned_integer, signed_integer, boolean, text}
use sentinel_public.Core.Network.State.{Packet, Link, NetworkEmulator}

-- Several calls of `unsigned_integer`.
unfoldable pub numbers : HashBuilder → List ℕ → HashBuilder
numbers hash [] = hash
numbers hash (value ∷ values) = numbers (unsigned_integer hash value) values

abbrev pub profile_numbers : NetworkProfile → List ℕ
profile_numbers profile =
    profile.latency_ticks ∷ profile.jitter_ticks ∷ profile.packet_loss_permyriad
    ∷ profile.bandwidth_bytes_per_tick ∷ profile.reorder_permyriad ∷ profile.reorder_window_ticks
    ∷ []

abbrev pub packet_numbers : Packet → List ℕ
packet_numbers p =
    p.sequence ∷ p.serialized_bytes ∷ p.remaining_bytes ∷ p.enqueue_tick ∷ p.transmit_start_tick
    ∷ p.transmit_end_tick ∷ p.delivery_tick ∷ p.reorder_delay_ticks ∷ []

abbrev pub emulator_numbers : NetworkEmulator → List ℕ
emulator_numbers e =
    e.next_sequence
    ∷ e.communication_bytes
    ∷ e.communication_messages
    ∷ e.delivered_messages
    ∷ e.dropped_messages
    ∷ e.reordered_messages
    ∷ length e.blocked_links
    ∷ []

unfoldable pub append_profile : HashBuilder → NetworkProfile → HashBuilder
unfolding numbers
append_profile hash profile = numbers (text hash profile.id) (profile_numbers profile)

unfoldable pub append_pairs : HashBuilder → List (Text × Text) → HashBuilder
append_pairs hash [] = hash
append_pairs hash ((first, second) ∷ pairs) = append_pairs (text (text hash first) second) pairs

module _ (message_bytes : NetworkMessage → Text) where
  unfoldable pub append_packet : HashBuilder → Packet → HashBuilder
  unfolding append_profile
  append_packet hash p =
      let counted =
        numbers (append_profile (text hash (message_bytes p.message)) p.profile)
          (packet_numbers p) in
      boolean (boolean (signed_integer counted p.jitter_ticks) p.started) p.reordered

  unfoldable pub append_packets : HashBuilder → List Packet → HashBuilder
  append_packets hash [] = hash
  append_packets hash (p ∷ ps) = append_packets (append_packet hash p) ps

  unfoldable pub append_links : HashBuilder → List Link → HashBuilder
  unfolding append_packets
  append_links hash [] = hash
  append_links hash (l ∷ ls) =
      append_links
        (append_packets
          (unsigned_integer (text (text hash l.sender_id) l.recipient_id) (length l.queue)) l.queue)
        ls

  unfoldable pub append_hash : HashBuilder → NetworkEmulator → HashBuilder
  unfolding append_pairs append_links
  append_hash hash e =
      let counted =
        numbers (append_profile (numbers hash (e.seed ∷ e.step_ms ∷ [])) e.profile)
          (emulator_numbers e) in
      let linked =
        append_links (unsigned_integer (append_pairs counted e.blocked_links) (length e.links))
          e.links in
      append_packets (unsigned_integer linked (length e.in_flight)) e.in_flight
