-- ===== src/Core/Network/Digest/Input.antt =====
-- The bytes that `append_hash` of core/src/network.cpp feeds a hash determine the emulator.
use sentinel_public.Prelude.{ℕ, zero, suc, ◌≡◌, Bool, List, [], ◌∷◌, All, length}
use sentinel_public.Prelude.Int.{ℤ}
use sentinel_public.Prelude.Text.{Text}
use sentinel_public.Protocol.Messages.{NetworkProfile, NetworkMessage}
use sentinel_public.Core.Rng.Uniform.{IsInt64}
use sentinel_public.Core.Network.State.{Packet, Link, NetworkEmulator}
use sentinel_public.Core.Network.Digest.{profile_numbers, packet_numbers}
use sentinel_public.Core.Network.Digest.Feeds.{IsWord64, IsText64}

-- The element at an index, or 0.
abbrev nth : List ℕ → ℕ → ℕ
nth [] i = 0
nth (x ∷ xs) zero = x
nth (x ∷ xs) (suc i) = nth xs i

-- Numbers of 64 bits, and texts and lists with lengths of 64 bits.
abbrev pub IsFitProfile : NetworkProfile → Type 0
IsFitProfile p = IsText64 p.id × All IsWord64 (profile_numbers p)

abbrev pub IsFitPair : Text × Text → Type 0
IsFitPair p = IsText64 p.0 × IsText64 p.1

abbrev profile_from : Text × List ℕ → NetworkProfile
profile_from r = record {
  id = r.0;
  latency_ticks = nth r.1 0;
  jitter_ticks = nth r.1 1;
  packet_loss_permyriad = nth r.1 2;
  bandwidth_bytes_per_tick = nth r.1 3;
  reorder_permyriad = nth r.1 4;
  reorder_window_ticks = nth r.1 5;
}

module _ (message_bytes : NetworkMessage → Text) where
  abbrev pub IsFitPacket : Packet → Type 0
  IsFitPacket p =
      IsText64 (message_bytes p.message)
      × IsFitProfile p.profile
      × All IsWord64 (packet_numbers p)
      × IsInt64 p.jitter_ticks

  abbrev pub AreFitPackets : List Packet → Type 0
  AreFitPackets ps = IsWord64 (length ps) × All IsFitPacket ps

  abbrev pub IsFitLink : Link → Type 0
  IsFitLink l = IsText64 l.sender_id × IsText64 l.recipient_id × AreFitPackets l.queue

  -- The numbers of an emulator that come after its profile.
  abbrev counters : NetworkEmulator → List ℕ
  counters e =
      e.next_sequence ∷ e.communication_bytes ∷ e.communication_messages ∷ e.delivered_messages
      ∷ e.dropped_messages ∷ e.reordered_messages ∷ []

  pub record IsFitEmulator (e : NetworkEmulator) : Type 0 where
    pub parameters : All IsWord64 (e.seed ∷ e.step_ms ∷ [])
    pub profile : IsFitProfile e.profile
    pub counts : All IsWord64 (counters e)
    pub blocked : IsWord64 (length e.blocked_links) × All IsFitPair e.blocked_links
    pub links : IsWord64 (length e.links) × All IsFitLink e.links
    pub in_flight : AreFitPackets e.in_flight

  module _ (injective : (a b : NetworkMessage) → message_bytes a ≡ message_bytes b → a ≡ b) where
    abbrev packet_from : ((((NetworkMessage × NetworkProfile) × List ℕ) × ℤ) × Bool) × Bool → Packet
    packet_from r = record {
      message = r.0.0.0.0.0;
      profile = r.0.0.0.0.1;
      sequence = nth r.0.0.0.1 0;
      serialized_bytes = nth r.0.0.0.1 1;
      remaining_bytes = nth r.0.0.0.1 2;
      enqueue_tick = nth r.0.0.0.1 3;
      transmit_start_tick = nth r.0.0.0.1 4;
      transmit_end_tick = nth r.0.0.0.1 5;
      delivery_tick = nth r.0.0.0.1 6;
      reorder_delay_ticks = nth r.0.0.0.1 7;
      jitter_ticks = r.0.0.1;
      started = r.0.1;
      reordered = r.1;
    }

    abbrev link_from : (Text × Text) × List Packet → Link
    link_from r = record { sender_id = r.0.0; recipient_id = r.0.1; queue = r.1 }

    abbrev emulator_from :
        ((((List ℕ × NetworkProfile) × List ℕ) × List (Text × Text)) × List Link) × List Packet
        → NetworkEmulator
    emulator_from r = record {
      seed = nth r.0.0.0.0.0 0;
      step_ms = nth r.0.0.0.0.0 1;
      profile = r.0.0.0.0.1;
      links = r.0.1;
      in_flight = r.1;
      blocked_links = r.0.0.1;
      next_sequence = nth r.0.0.0.1 0;
      communication_bytes = nth r.0.0.0.1 1;
      communication_messages = nth r.0.0.0.1 2;
      delivered_messages = nth r.0.0.0.1 3;
      dropped_messages = nth r.0.0.0.1 4;
      reordered_messages = nth r.0.0.0.1 5;
    }
