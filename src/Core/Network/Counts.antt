-- ===== src/Core/Network/Counts.antt =====
-- Counting the packets that each operation of core/src/network.cpp moves.
use sentinel_public.Prelude.{
  ℕ, zero, suc, ◌+◌, ◌≤◌, ◌<◌, ◌≡◌, refl, ap, ◌∙◌, true, List, [], ◌∷◌, length, length-append,
  get_elem?, insert_at, ltb, Ensures, Ensures-elim, Ensures-if, Ensures-bind, Bool-cases, inl, inr,
  arith,
}
use sentinel_public.Prelude.Text.{Text}
use sentinel_public.Core.Network.State.{Packet, Link, NetworkEmulator, link_pair}
use sentinel_public.Core.Network.Links.{
  lower_bound, holds_key, link_blocked, cut_links, cut_in_flight, link_key, push_at, enqueue,
  pair_eq, drop_all,
}
use sentinel_public.Core.Network.Transmit.{serve_queue, serve_from, serve_link, serve_links}
use sentinel_public.Core.Network.Step.{arrive}
use sentinel_public.Core.Network.Budget.{serve_queue_lem}

-- Packets that wait on some link.
abbrev pub queued_packets : List Link → ℕ
queued_packets [] = 0
queued_packets (l ∷ ls) = length l.queue + queued_packets ls

-- Packets that are neither delivered nor dropped.
abbrev pub stored : NetworkEmulator → ℕ
stored e = queued_packets e.links + length e.in_flight

serve_from-count :
    (e : NetworkEmulator) (tick : ℕ) (l : Link) (queue : List Packet)
    → l.queue ≡ queue
    → Ensures (λ r. length r.0.queue + length r.1 ≡ length l.queue) (serve_from e tick l queue)
unfolding serve_from
serve_from-count e tick l [] h = omega arith
serve_from-count e tick l (p ∷ queue) h =
    let rate = p.profile.bandwidth_bytes_per_tick in
    Ensures-bind _ (link_blocked e l.sender_id l.recipient_id) _ λ blocked hb.
      Ensures-if _ blocked _ _ (λ k. omega arith)
        λ k. Ensures-bind _ (serve_queue tick rate rate (p ∷ queue)) _ λ r hr.
          let served = serve_queue_lem tick rate rate (p ∷ queue) r hr in
          omega (arith, served.counted, ap length h)

pub serve_links-count :
    (e : NetworkEmulator) (tick : ℕ) (ls : List Link)
    → Ensures (λ r. queued_packets r.0 + length r.1 ≡ queued_packets ls) (serve_links e tick ls)
unfolding serve_links serve_link
serve_links-count e tick [] = omega arith
serve_links-count e tick (l ∷ ls) = Ensures-bind _ (serve_from e tick l l.queue) _ λ a ha.
    Ensures-bind _ (serve_links e tick ls) _ λ r hr. omega (
      arith,
      Ensures-elim _ _ (serve_from-count e tick l l.queue refl) ha,
      Ensures-elim _ _ (serve_links-count e tick ls) hr,
      length-append a.1 r.1,
    )

-- A packet that is pushed at a valid index is one more.
push_at-count :
    (ls : List Link) (i : ℕ) (p : Packet)
    → i < length ls
    → queued_packets (push_at ls i p) ≡ suc (queued_packets ls)
unfolding push_at
push_at-count [] i p h = absurd (omega arith)
push_at-count (l ∷ ls) zero p h = omega (arith, length-append l.queue (p ∷ []))
push_at-count (l ∷ ls) (suc i) p h = omega (arith, push_at-count ls i p (omega arith))

insert_at-count :
    (ls : List Link) (i : ℕ) (l : Link)
    → i ≤ length ls
    → (queued_packets (insert_at ls i l) ≡ length l.queue + queued_packets ls)
      × (length (insert_at ls i l) ≡ suc (length ls))
insert_at-count ls zero l h = (refl, refl)
insert_at-count [] (suc i) l h = absurd (omega arith)
insert_at-count (m ∷ ls) (suc i) l h =
    let ih = insert_at-count ls i l (omega arith) in (omega arith, omega arith)

lower_bound-le : (ls : List Link) (k : Text × Text) → lower_bound link_key ls k ≤ length ls
unfolding lower_bound
lower_bound-le [] k = omega arith
lower_bound-le (l ∷ ls) k = ground (arith, lower_bound-le ls k)

held-lt :
    (ls : List Link) (i : ℕ) (k : Text × Text)
    → holds_key link_key (get_elem? ls i) k ≡ true
    → i < length ls
held-lt [] i k h = absurd (cc)
held-lt (l ∷ ls) zero k h = omega arith
held-lt (l ∷ ls) (suc i) k h = omega (arith, held-lt ls i k h)

pub enqueue-count :
    (ls : List Link) (s r : Text) (p : Packet)
    → queued_packets (enqueue ls s r p) ≡ suc (queued_packets ls)
unfolding enqueue
enqueue-count ls s r p =
    let i = lower_bound link_key ls (s, r) in
    elim (Bool-cases (holds_key link_key (get_elem? ls i) (s, r))) [
      | inl there ↦ rw there (push_at-count ls i p (held-lt ls i (s, r) there))
      | inr new ↦
          let grown =
            insert_at-count ls i (record { sender_id = s; recipient_id = r; queue = [] })
              (lower_bound-le ls (s, r)) in
          rw new (
            push_at-count _ i p (omega (arith, grown, lower_bound-le ls (s, r)))
            ∙ ap suc (grown.0 ∙ omega arith))
    ]

length-drop_all : (tick : ℕ) (ps : List Packet) → length (drop_all tick ps) ≡ length ps
length-drop_all tick [] = refl
length-drop_all tick (p ∷ ps) = ap suc (length-drop_all tick ps)

pub cut_links-count :
    (k : Text × Text) (tick : ℕ) (ls : List Link)
    → Ensures (λ r. queued_packets r.0 + length r.1 ≡ queued_packets ls) (cut_links k tick ls)
unfolding cut_links
cut_links-count k tick [] = omega arith
cut_links-count k tick (l ∷ ls) = Ensures-bind _ (link_pair l.sender_id l.recipient_id) _ λ key hk.
    Ensures-bind _ (cut_links k tick ls) _ λ r hr.
      let ih = Ensures-elim _ _ (cut_links-count k tick ls) hr in
      elim (Bool-cases (pair_eq key k)) [
        | inl same ↦ rw same (
            omega
              (arith, length-append (drop_all tick l.queue) r.1, length-drop_all tick l.queue, ih))
        | inr other ↦ rw other (omega (arith, ih))
      ]

pub cut_in_flight-count :
    (k : Text × Text) (tick : ℕ) (ps : List Packet)
    → Ensures (λ r. length r.0 + length r.1 ≡ length ps) (cut_in_flight k tick ps)
unfolding cut_in_flight
cut_in_flight-count k tick [] = omega arith
cut_in_flight-count k tick (p ∷ ps) =
    Ensures-bind _ (link_pair p.message.sender_id p.message.recipient_id) _ λ key hk.
      Ensures-bind _ (cut_in_flight k tick ps) _ λ r hr.
        let ih = Ensures-elim _ _ (cut_in_flight-count k tick ps) hr in
        elim (Bool-cases (pair_eq key k)) [
          | inl same ↦ rw same (omega (arith, ih))
          | inr other ↦ rw other (omega (arith, ih))
        ]

pub arrive-count :
    (e : NetworkEmulator) (tick : ℕ) (ps : List Packet)
    → Ensures
        (λ a.
          (length a.waiting + a.delivered_count + a.dropped_count ≡ length ps)
          × (length a.messages ≡ a.delivered_count)
          × (length a.outcomes ≡ a.delivered_count + a.dropped_count))
        (arrive e tick ps)
unfolding arrive
arrive-count e tick [] = (omega arith, omega arith, omega arith)
arrive-count e tick (p ∷ ps) =
    let ih = arrive-count e tick ps in
    Ensures-if _ (ltb tick p.delivery_tick) _ _
      (λ h. Ensures-bind _ (arrive e tick ps) _ λ r hr.
        let part = Ensures-elim _ _ ih hr in
        (omega (arith, part), omega (arith, part), omega (arith, part)))
      λ h.
        Ensures-bind _ (link_blocked e p.message.sender_id p.message.recipient_id) _ λ blocked hb.
          Ensures-bind _ (arrive e tick ps) _ λ r hr.
            let part = Ensures-elim _ _ ih hr in
            Ensures-if _ blocked _ _
              (λ k. (omega (arith, part), omega (arith, part), omega (arith, part)))
              (λ k. (omega (arith, part), omega (arith, part), omega (arith, part)))
