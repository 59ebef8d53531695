-- ===== src/Examples/Emulator.antt =====
-- A run of `NetworkEmulator` (core/src/network.cpp): two messages over one link that is cut in between.
use sentinel_public.Prelude.{
  ◌++◌, length, ℕ, ◌+◌, ◌<◌, ◌≡◌, refl, true, false, List, [], ◌∷◌, All, ok,
}
use sentinel_public.Prelude.Int.{pos, ◌+ℤ◌, ◌-ℤ◌}
use sentinel_public.Prelude.Text.{Text, codes, text_eq, text_lt, decimal}
use sentinel_public.Prelude.Order.{sort, insert_sorted, tie}
use sentinel_public.Protocol.Messages.{
  NetworkProfile, NetworkMessage, NetworkOutcome, disposition_number,
}
use sentinel_public.Core.Rng.{
  stream_seed, name_hash, mix, uniform, uniform_within, reject_below, rejection_threshold,
  range_span, to_signed, offset_from, next, xor_shift, scramble,
}
use sentinel_public.Core.Network.State.{
  Packet, NetworkEmulator, NetworkStep, message_order, outcome_order, normal_pair, link_pair,
  invalid_profile, validate_profile, checked_add, draw_key, draw, new_emulator, set_profile,
  outcome,
}
use sentinel_public.Core.Network.Links.{
  pair_eq, pair_lt, lower_bound, link_blocked, cut_links, cut_in_flight, cut, set_link_blocked,
  push_at, enqueue,
}
use sentinel_public.Core.Network.Transmit.{
  delay_ticks, advance, complete, serve_queue, serve_from, serve_link, serve_links, flight_order,
  transmit,
}
use sentinel_public.Core.Network.Step.{
  EnvelopeSize, reorder_delay, is_reordered, invalid_message, packet, submit, submit_all, arrive,
  step,
}
use sentinel_public.Core.Network.Budget.{IsServed, serve_queue_lem}
use sentinel_public.Core.Network.Balance.{
  IsBalanced, Reach, started, profiled, blocked, stepped, Reach-IsBalanced,
}
use sentinel_public.Core.Network.Partition.{IsCut, set_link_blocked-IsCut, step-open}
use sentinel_public.Examples.{is_ok, value_or, returned}

-- An envelope of sixty bytes.
abbrev sixty : EnvelopeSize
sixty sequence time message = 60

abbrev radio : NetworkProfile
radio = record {
  id = codes "radio";
  latency_ticks = 2;
  jitter_ticks = 0;
  packet_loss_permyriad = 0;
  bandwidth_bytes_per_tick = 100;
  reorder_permyriad = 0;
  reorder_window_ticks = 0;
}

abbrev hello : NetworkMessage
hello = record { sender_id = codes "a"; recipient_id = codes "b"; version = 1; payload = [] }

abbrev fresh : NetworkEmulator
fresh = record {
  seed = 7;
  step_ms = 100;
  profile = radio;
  links = [];
  in_flight = [];
  blocked_links = [];
  next_sequence = 1;
  communication_bytes = 0;
  communication_messages = 0;
  delivered_messages = 0;
  dropped_messages = 0;
  reordered_messages = 0;
}

abbrev unset : NetworkEmulator
unset = value_or fresh (new_emulator 7 100)

abbrev tuned : NetworkEmulator
tuned = value_or fresh (set_profile unset radio)

abbrev nothing : NetworkStep
nothing = record { delivered = []; outcomes = [] }

abbrev sent : NetworkEmulator × NetworkStep
sent = value_or (fresh, nothing) (step sixty tuned 3 (hello ∷ hello ∷ []))

abbrev split : NetworkEmulator × List NetworkOutcome
split = value_or (fresh, []) (set_link_blocked sent.0 (codes "b") (codes "a") true 4)

unset_returns : is_ok (new_emulator 7 100) ≡ true
unfolding new_emulator
unset_returns = refl

tuned_returns : is_ok (set_profile unset radio) ≡ true
unfolding new_emulator set_profile validate_profile invalid_profile
tuned_returns = refl

sent_returns : is_ok (step sixty tuned 3 (hello ∷ hello ∷ [])) ≡ true
unfolding new_emulator set_profile validate_profile invalid_profile step sort insert_sorted
    message_order tie text_eq text_lt submit_all submit invalid_message packet draw draw_key decimal
    stream_seed name_hash mix uniform uniform_within reject_below rejection_threshold range_span
    to_signed offset_from next xor_shift scramble reorder_delay is_reordered link_blocked link_pair
    normal_pair lower_bound pair_lt pair_eq enqueue push_at transmit serve_links serve_link
    serve_from serve_queue advance complete delay_ticks flight_order checked_add arrive outcome
    outcome_order disposition_number ◌+ℤ◌ ◌-ℤ◌
sent_returns = refl

open_before : link_blocked sent.0 (codes "b") (codes "a") ≡ ok false
unfolding new_emulator set_profile validate_profile invalid_profile step sort insert_sorted
    message_order tie text_eq text_lt submit_all submit invalid_message packet draw draw_key decimal
    stream_seed name_hash mix uniform uniform_within reject_below rejection_threshold range_span
    to_signed offset_from next xor_shift scramble reorder_delay is_reordered link_blocked link_pair
    normal_pair lower_bound pair_lt pair_eq enqueue push_at transmit serve_links serve_link
    serve_from serve_queue advance complete delay_ticks flight_order checked_add arrive outcome
    outcome_order disposition_number ◌+ℤ◌ ◌-ℤ◌
open_before = refl

split_returns : is_ok (set_link_blocked sent.0 (codes "b") (codes "a") true 4) ≡ true
unfolding new_emulator set_profile validate_profile invalid_profile step sort insert_sorted
    message_order tie text_eq text_lt submit_all submit invalid_message packet draw draw_key decimal
    stream_seed name_hash mix uniform uniform_within reject_below rejection_threshold range_span
    to_signed offset_from next xor_shift scramble reorder_delay is_reordered link_blocked link_pair
    normal_pair lower_bound pair_lt pair_eq enqueue push_at transmit serve_links serve_link
    serve_from serve_queue advance complete delay_ticks flight_order checked_add arrive outcome
    outcome_order disposition_number ◌+ℤ◌ ◌-ℤ◌ set_link_blocked cut cut_links cut_in_flight
split_returns = refl

is_unset : new_emulator 7 100 ≡ ok unset
is_unset = returned fresh (new_emulator 7 100) unset_returns

is_tuned : set_profile unset radio ≡ ok tuned
is_tuned = returned fresh (set_profile unset radio) tuned_returns

is_sent : step sixty tuned 3 (hello ∷ hello ∷ []) ≡ ok (sent.0, sent.1)
is_sent = returned (fresh, nothing) (step sixty tuned 3 (hello ∷ hello ∷ [])) sent_returns

is_split : set_link_blocked sent.0 (codes "b") (codes "a") true 4 ≡ ok (split.0, split.1)
is_split =
    returned (fresh, []) (set_link_blocked sent.0 (codes "b") (codes "a") true 4) split_returns

reached : Reach sixty 7 100 split.0
reached =
    blocked (codes "b") (codes "a") true 4
      (stepped 3 (hello ∷ hello ∷ []) (profiled radio (started is_unset) is_tuned) is_sent) is_split

Reach-IsBalanced_example : IsBalanced split.0
Reach-IsBalanced_example = Reach-IsBalanced sixty 7 100 reached

set_link_blocked-IsCut_example : IsCut (codes "b") (codes "a") split.0
set_link_blocked-IsCut_example =
    set_link_blocked-IsCut sent.0 split.0 (codes "b") (codes "a") 4 split.1 open_before is_split

step-open_example :
    All (λ m. link_blocked sent.0 m.sender_id m.recipient_id ≡ ok false) sent.1.delivered
    × All (λ p. 3 + 1 < p.delivery_tick) sent.0.in_flight
step-open_example = step-open sixty tuned sent.0 3 (hello ∷ hello ∷ []) sent.1 is_sent

-- A packet of this many bytes that waits in its queue.
abbrev waiting : ℕ → ℕ → Packet
waiting sequence size = record {
  message = hello;
  profile = radio;
  sequence = sequence;
  serialized_bytes = size;
  remaining_bytes = size;
  enqueue_tick = 1;
  transmit_start_tick = 0;
  transmit_end_tick = 0;
  delivery_tick = 0;
  reorder_delay_ticks = 0;
  jitter_ticks = pos 0;
  started = false;
  reordered = false;
}

abbrev queue : List Packet
queue = waiting 1 60 ∷ waiting 2 60 ∷ []

abbrev served : List Packet × List Packet
served = value_or ([], []) (serve_queue 5 100 100 queue)

served_returns : is_ok (serve_queue 5 100 100 queue) ≡ true
unfolding serve_queue advance complete delay_ticks checked_add ◌+ℤ◌
served_returns = refl

serve_queue_example : IsServed 5 100 queue served
serve_queue_example =
    serve_queue_lem 5 100 100 queue served
      (returned ([], []) (serve_queue 5 100 100 queue) served_returns)

-- A serializer that keeps the lengths of the names.
abbrev plain : NetworkMessage → Text
plain m =
    length m.sender_id
    ∷ length m.recipient_id
    ∷ m.version
    ∷ (m.sender_id ++ (m.recipient_id ++ m.payload))

-- One message sent, and an emulator that counts one loss more.
abbrev lossy : NetworkEmulator
lossy = record fresh { dropped_messages = 1 }
