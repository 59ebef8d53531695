-- ===== src/Core/Network/Partition.antt =====
-- Partitions in core/src/network.cpp: both directions, at once, and for as long as they last.
use sentinel_public.Prelude.{
  ℕ, ◌+◌, ◌<◌, ◌≡◌, refl, ap, ◌∙◌, sym, subst, Bool, true, false, ◌&&◌, ◌||◌, List, [], ◌∷◌, length,
  All, All-mono, ltb, get_elem?, insert_at, Except, ok, ◌>>=◌, Ensures, Ensures-elim, Ensures-if,
  Ensures-bind, throw_if, invalid_argument, logic_error, Bool-cases, inl, inr, arith,
}
use sentinel_public.Prelude.Text.{
  Text, is_empty, text_eq, text_eq_comm, text_eq_refl, text_lt_asymm, text_lt_connex,
  text_lt_irrefl,
}
use sentinel_public.Prelude.Order.{sort}
use sentinel_public.Protocol.Messages.{NetworkMessage, NetworkOutcome}
use sentinel_public.Core.Network.State.{
  Packet, Link, NetworkEmulator, NetworkStep, link_pair, normal_pair, message_order, checked_add,
}
use sentinel_public.Core.Network.Links.{
  pair_eq, pair_lt, lower_bound, holds_key, link_blocked, cut_links, cut_in_flight, cut,
  set_link_blocked,
}
use sentinel_public.Core.Network.Transmit.{transmit}
use sentinel_public.Core.Network.Budget.{checked_add-eq}
use sentinel_public.Core.Network.Step.{EnvelopeSize, submit_all, arrive, settle_arrivals, step}

normal_pair_comm : (a b : Text) → normal_pair a b ≡ normal_pair b a
unfolding normal_pair
normal_pair_comm a b = ground (arith, text_lt_asymm a b, text_lt_asymm b a, text_lt_connex a b)

or_swap : (a b c : Bool) → (a || (b || c)) ≡ (b || (a || c))
or_swap a b c = ground arith

link_pair_comm : (a b : Text) → link_pair a b ≡ link_pair b a
unfolding link_pair
link_pair_comm a b =
    rw (normal_pair_comm a b, text_eq_comm a b, or_swap (is_empty a) (is_empty b) (text_eq b a))
      refl

-- A link is blocked in both directions or in neither, and the check fails for the same pairs.
link_blocked_comm : (e : NetworkEmulator) (a b : Text) → link_blocked e a b ≡ link_blocked e b a
link_blocked_comm e a b = unfold link_blocked in rw (link_pair_comm a b) refl

module _ (k : Text × Text) where
  pair_lt_irrefl : pair_lt k k ≡ false
  unfolding pair_lt
  pair_lt_irrefl = rw (text_lt_irrefl k.0, text_lt_irrefl k.1) refl

  pair_eq_refl : pair_eq k k ≡ true
  unfolding pair_eq
  pair_eq_refl = rw (text_eq_refl k.0, text_eq_refl k.1) refl

  -- A key that is inserted at its lower bound is found there.
  inserted_found :
      (ks : List (Text × Text))
      → let ks' = insert_at ks (lower_bound (λ x. x) ks k) k in
        holds_key (λ x. x) (get_elem? ks' (lower_bound (λ x. x) ks' k)) k ≡ true
  unfolding lower_bound
  inserted_found [] = rw (pair_lt_irrefl, pair_eq_refl) refl
  inserted_found (x ∷ ks) = elim (Bool-cases (pair_lt x k)) [
    | inl lt ↦ rw lt (rw lt (inserted_found ks))
    | inr ge ↦ rw ge (rw (pair_lt_irrefl, pair_eq_refl) refl)
  ]

-- Nothing of the pair waits or flies.
abbrev pub LinkCleared : Text × Text → Link → Type 0
LinkCleared key l = pair_eq (normal_pair l.sender_id l.recipient_id) key ≡ true → l.queue ≡ []

abbrev pub PacketCleared : Text × Text → Packet → Type 0
PacketCleared key p = pair_eq (normal_pair p.message.sender_id p.message.recipient_id) key ≡ false

link_pair-normal : (a b : Text) → Ensures (λ k. k ≡ normal_pair a b) (link_pair a b)
unfolding link_pair
link_pair-normal a b =
    Ensures-bind _ (throw_if (is_empty a || (is_empty b || text_eq a b)) invalid_argument) _
      λ _ _. refl

cut_links-cleared :
    (key : Text × Text) (tick : ℕ) (ls : List Link)
    → Ensures (λ r. All (LinkCleared key) r.0) (cut_links key tick ls)
unfolding cut_links
cut_links-cleared key tick [] = tt
cut_links-cleared key tick (l ∷ ls) =
    Ensures-bind _ (link_pair l.sender_id l.recipient_id) _ λ k hk.
      Ensures-bind _ (cut_links key tick ls) _ λ r hr.
        let rest = Ensures-elim _ _ (cut_links-cleared key tick ls) hr in
        let ends = Ensures-elim _ _ (link_pair-normal l.sender_id l.recipient_id) hk in
        elim (Bool-cases (pair_eq k key)) [
          | inl same ↦ rw same ((λ _. refl), rest)
          | inr other ↦ rw other ((λ h. absurd (let z = rw ends at other in cc)), rest)
        ]

cut_in_flight-cleared :
    (key : Text × Text) (tick : ℕ) (ps : List Packet)
    → Ensures (λ r. All (PacketCleared key) r.0) (cut_in_flight key tick ps)
unfolding cut_in_flight
cut_in_flight-cleared key tick [] = tt
cut_in_flight-cleared key tick (p ∷ ps) =
    Ensures-bind _ (link_pair p.message.sender_id p.message.recipient_id) _ λ k hk.
      Ensures-bind _ (cut_in_flight key tick ps) _ λ r hr.
        let rest = Ensures-elim _ _ (cut_in_flight-cleared key tick ps) hr in
        let ends =
          Ensures-elim _ _ (link_pair-normal p.message.sender_id p.message.recipient_id) hk in
        elim (Bool-cases (pair_eq k key)) [
          | inl same ↦ rw same rest
          | inr other ↦ rw other ((let z = rw ends at other in z), rest)
        ]

-- What a partition leaves: the pair is blocked, and nothing of it waits or flies.
pub record IsCut (first second : Text) (e : NetworkEmulator) : Type 0 where
  pub closed : link_blocked e first second ≡ ok true
  pub links_cleared : All (LinkCleared (normal_pair first second)) e.links
  pub flight_cleared : All (PacketCleared (normal_pair first second)) e.in_flight

cut-IsCut :
    (e : NetworkEmulator) (first second : Text) (key : Text × Text) (tick : ℕ)
    → link_pair first second ≡ ok key
    → Ensures
        (λ r. IsCut first second r.0)
        (cut e key (lower_bound (λ x. x) e.blocked_links key) tick)
unfolding cut
cut-IsCut e first second key tick hk =
    let ends = Ensures-elim _ _ (link_pair-normal first second) hk in
    Ensures-bind _ (cut_links key tick e.links) _ λ l hl.
      Ensures-bind _ (cut_in_flight key tick e.in_flight) _ λ f hf. record {
        closed = unfold link_blocked in rw hk (ap ok (inserted_found key e.blocked_links));
        links_cleared =
            subst (λ k. All (LinkCleared k) l.0) ends
              (Ensures-elim _ _ (cut_links-cleared key tick e.links) hl);
        flight_cleared =
            subst (λ k. All (PacketCleared k) f.0) ends
              (Ensures-elim _ _ (cut_in_flight-cleared key tick e.in_flight) hf);
      }

present_key : NetworkEmulator → Text × Text → Bool
present_key e key =
    holds_key (λ k. k) (get_elem? e.blocked_links (lower_bound (λ k. k) e.blocked_links key)) key

link_blocked-key :
    (e : NetworkEmulator) (a b : Text) (key : Text × Text)
    → link_pair a b ≡ ok key
    → link_blocked e a b ≡ ok (present_key e key)
unfolding link_blocked present_key
link_blocked-key e a b key h = rw h refl

blocking-IsCut :
    (e : NetworkEmulator) (first second : Text) (tick : ℕ)
    → link_blocked e first second ≡ ok false
    → Ensures (λ r. IsCut first second r.0) (set_link_blocked e first second true tick)
unfolding set_link_blocked present_key
blocking-IsCut e first second tick open_before = Ensures-bind _ (link_pair first second) _ λ key hk.
    let absent : ◌≡◌ {A = Except Bool} (ok (present_key e key)) (ok false) =
      sym (link_blocked-key e first second key hk) ∙ open_before in
    Ensures-if _ (present_key e key) _ _
      (λ h. absurd (let z : present_key e key ≡ false = cc in cc))
      (λ h. cut-IsCut e first second key tick hk)

-- Where a call that blocks an open pair returns, the pair is blocked, and no packet between the two is
-- queued or in flight, in either direction.
pub set_link_blocked-IsCut :
    (e e' : NetworkEmulator) (first second : Text) (tick : ℕ) (outcomes : List NetworkOutcome)
    → link_blocked e first second ≡ ok false
    → set_link_blocked e first second true tick ≡ ok (e', outcomes)
    → IsCut first second e'
set_link_blocked-IsCut e e' first second tick outcomes open_before h =
    Ensures-elim (λ r. IsCut first second r.0) _ (blocking-IsCut e first second tick open_before) h

-- The packets that a tick takes off the flight were due, those it leaves are not, and no message is
-- delivered over a blocked link.
arrive-open :
    (e : NetworkEmulator) (tick : ℕ) (ps : List Packet)
    → Ensures
        (λ a.
          All (λ m. link_blocked e m.sender_id m.recipient_id ≡ ok false) a.messages
          × All (λ p. tick < p.delivery_tick) a.waiting)
        (arrive e tick ps)
unfolding arrive
arrive-open e tick [] = (tt, tt)
arrive-open e tick (p ∷ ps) =
    let ih = arrive-open e tick ps in
    Ensures-if _ (ltb tick p.delivery_tick) _ _
      (λ h.
        Ensures-bind _ (arrive e tick ps) _
          λ r hr. let rest = Ensures-elim _ _ ih hr in (rest.0, (ground arith, rest.1)))
      λ h.
        Ensures-bind _ (link_blocked e p.message.sender_id p.message.recipient_id) _ λ blocked hb.
          Ensures-bind _ (arrive e tick ps) _ λ r hr.
            let rest = Ensures-elim _ _ ih hr in
            Ensures-if _ blocked _ _ (λ k. rest) (λ k. ((hb ∙ ap ok k, rest.0), rest.1))

-- `link_blocked` reads the blocked pairs alone.
link_blocked-cong :
    (e e' : NetworkEmulator) (a b : Text)
    → e.blocked_links ≡ e'.blocked_links
    → link_blocked e a b ≡ link_blocked e' a b
unfolding link_blocked
link_blocked-cong e e' a b h =
    ap
      (λ (ks : List (Text × Text)). link_pair a b >>= λ key.
        ok (holds_key (λ k. k) (get_elem? ks (lower_bound (λ k. k) ks key)) key))
      h

stepping :
    (size : EnvelopeSize) (e : NetworkEmulator) (tick : ℕ) (outgoing : List NetworkMessage)
    → Ensures
        (λ r.
          All (λ m. link_blocked r.0 m.sender_id m.recipient_id ≡ ok false) r.1.delivered
          × All (λ p. tick + 1 < p.delivery_tick) r.0.in_flight)
        (step size e tick outgoing)
unfolding step
stepping size e tick outgoing =
    Ensures-bind _ (throw_if (ltb 0 (length outgoing) && is_empty e.profile.id) logic_error) _
      λ _ _. Ensures-bind _ (submit_all size e tick (sort message_order outgoing)) _ λ s hs.
        Ensures-bind _ (transmit s.0 tick) _ λ t ht. Ensures-bind _ (checked_add tick 1) _ λ now hn.
          Ensures-bind _ (arrive t now t.in_flight) _ λ a ha.
            let due = Ensures-elim _ _ (checked_add-eq tick 1) hn in
            let arrived = Ensures-elim _ _ (arrive-open t now t.in_flight) ha in
            (
              All-mono _ _ a.messages
                  (λ m hm.
                    link_blocked-cong (settle_arrivals t a) t m.sender_id m.recipient_id refl ∙ hm)
                  arrived.0,
              subst (λ n. All (λ p. n < p.delivery_tick) a.waiting) due arrived.1,
            )

-- A step that returns delivers no message over a link that is blocked, and holds no packet back that
-- is due at the next tick.
pub step-open :
    (size : EnvelopeSize) (e e' : NetworkEmulator) (tick : ℕ) (outgoing : List NetworkMessage)
    (result : NetworkStep)
    → step size e tick outgoing ≡ ok (e', result)
    → All (λ m. link_blocked e' m.sender_id m.recipient_id ≡ ok false) result.delivered
      × All (λ p. tick + 1 < p.delivery_tick) e'.in_flight
step-open size e e' tick outgoing result h =
    Ensures-elim
      (λ r.
        All (λ m. link_blocked r.0 m.sender_id m.recipient_id ≡ ok false) r.1.delivered
        × All (λ p. tick + 1 < p.delivery_tick) r.0.in_flight)
      _ (stepping size e tick outgoing) h
