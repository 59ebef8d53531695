-- ===== src/Core/Network/Links.antt =====
-- `set_link_blocked`, `link_blocked` and `link` of core/src/network.cpp.
use sentinel_public.Prelude.{
  ℕ, zero, suc, ◌+◌, ◌%◌, ◌^◌, Bool, false, ◌&&◌, ◌||◌, not, List, [], ◌∷◌, ◌++◌, map, Option, none,
  some, length, get_elem?, insert_at, erase_at, if◌then◌else◌, bool_eq, Except, ok, ◌>>=◌,
}
use sentinel_public.Prelude.Text.{Text, text_eq, text_lt}
use sentinel_public.Prelude.Order.{sort}
use sentinel_public.Protocol.Messages.{NetworkOutcome, dropped_partition}
use sentinel_public.Core.Network.State.{
  Packet, Link, NetworkEmulator, link_pair, outcome, outcome_order,
}

unfoldable pub pair_eq : Text × Text → Text × Text → Bool
pair_eq a b = text_eq a.0 b.0 && text_eq a.1 b.1

unfoldable pub pair_lt : Text × Text → Text × Text → Bool
pair_lt a b = text_lt a.0 b.0 || (not (text_lt b.0 a.0) && text_lt a.1 b.1)

-- `std::lower_bound` on a list that is in the order of its keys.
unfoldable pub lower_bound {ℓ} : {A : Type ℓ} → (A → Text × Text) → List A → Text × Text → ℕ
lower_bound key [] k = 0
lower_bound key (x ∷ xs) k = if pair_lt (key x) k then suc (lower_bound key xs k) else 0

abbrev pub holds_key {ℓ} : {A : Type ℓ} → (A → Text × Text) → Option A → Text × Text → Bool
holds_key key none k = false
holds_key key (some x) k = pair_eq (key x) k

-- `std::binary_search`: whether the element at the lower bound is the key.
unfoldable pub link_blocked : NetworkEmulator → Text → Text → Except Bool
unfolding link_pair lower_bound
link_blocked e first second = do
  key ← link_pair first second
  ok (holds_key (λ k. k) (get_elem? e.blocked_links (lower_bound (λ k. k) e.blocked_links key)) key)

-- The packets that a list of packets loses to a partition, and what is left of it.
abbrev pub drop_all : ℕ → List Packet → List NetworkOutcome
drop_all tick = map (λ p. outcome p dropped_partition tick)

unfoldable pub cut_links : Text × Text → ℕ → List Link → Except (List Link × List NetworkOutcome)
unfolding link_pair outcome
cut_links key tick [] = ok ([], [])
cut_links key tick (l ∷ ls) = do
  k ← link_pair l.sender_id l.recipient_id
  r ← cut_links key tick ls
  ok (
      if not (pair_eq k key)
      then (l ∷ r.0, r.1)
      else (record l { queue = [] } ∷ r.0, drop_all tick l.queue ++ r.1))

unfoldable pub cut_in_flight :
    Text × Text → ℕ → List Packet → Except (List Packet × List NetworkOutcome)
unfolding link_pair outcome
cut_in_flight key tick [] = ok ([], [])
cut_in_flight key tick (p ∷ ps) = do
  k ← link_pair p.message.sender_id p.message.recipient_id
  r ← cut_in_flight key tick ps
  ok (if pair_eq k key then (r.0, outcome p dropped_partition tick ∷ r.1) else (p ∷ r.0, r.1))

-- The partition itself, once the pair is known to be open.
unfoldable pub cut :
    NetworkEmulator → Text × Text → ℕ → ℕ → Except (NetworkEmulator × List NetworkOutcome)
unfolding cut_links cut_in_flight outcome_order
cut e key position tick = do
  l ← cut_links key tick e.links
  f ← cut_in_flight key tick e.in_flight
  let outcomes = l.1 ++ f.1
  ok (
    record e {
      blocked_links = insert_at e.blocked_links position key;
      links = l.0;
      in_flight = f.0;
      dropped_messages = (e.dropped_messages + length outcomes) % 2 ^ 64;
    },
    sort outcome_order outcomes,
  )

unfoldable pub set_link_blocked :
    NetworkEmulator → Text → Text → Bool → ℕ → Except (NetworkEmulator × List NetworkOutcome)
unfolding cut lower_bound link_pair
set_link_blocked e first second value tick = do
  key ← link_pair first second
  let position = lower_bound (λ k. k) e.blocked_links key
  let present = holds_key (λ k. k) (get_elem? e.blocked_links position) key
  if bool_eq value present
      then ok (e, [])
      else if not value
      then ok (record e { blocked_links = erase_at e.blocked_links position }, [])
      else cut e key position tick

abbrev pub link_key : Link → Text × Text
link_key l = (l.sender_id, l.recipient_id)

-- `link(sender, recipient).queue.push_back(packet)`.
unfoldable pub push_at : List Link → ℕ → Packet → List Link
push_at [] i packet = []
push_at (l ∷ ls) zero packet = record l { queue = l.queue ++ packet ∷ [] } ∷ ls
push_at (l ∷ ls) (suc i) packet = l ∷ push_at ls i packet

unfoldable pub enqueue : List Link → Text → Text → Packet → List Link
unfolding lower_bound push_at
enqueue links sender recipient packet =
    let key : Text × Text = (sender, recipient) in
    let position = lower_bound link_key links key in
    if holds_key link_key (get_elem? links position) key
    then push_at links position packet
    else push_at
        (insert_at links position
          (record { sender_id = sender; recipient_id = recipient; queue = [] }))
        position packet
