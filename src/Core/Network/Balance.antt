-- ===== src/Core/Network/Balance.antt =====
-- No packet of core/src/network.cpp is lost or counted twice, over any history of calls.
use sentinel_public.Prelude.{
  ℕ, suc, ◌+◌, ◌%◌, ◌^◌, ◌≡◌, refl, ap, Bool, not, List, [], ◌∷◌, ◌++◌, length, length-append, ltb,
  ◌==◌, bool_eq, ok, Ensures, Ensures-elim, Ensures-if, Ensures-bind, throw_if, invalid_argument,
  logic_error, get_elem?, ◌&&◌, arith,
}
use sentinel_public.Prelude.Int.{pos, ltb_ℤ}
use sentinel_public.Prelude.Text.{Text, codes, is_empty}
use sentinel_public.Prelude.Order.{sort, length-sort}
use sentinel_public.Protocol.Messages.{NetworkMessage, NetworkOutcome, NetworkProfile}
use sentinel_public.Core.Network.State.{
  NetworkEmulator, NetworkStep, link_pair, message_order, draw, checked_add, new_emulator,
  set_profile, validate_profile,
}
use sentinel_public.Core.Network.Links.{
  lower_bound, holds_key, link_blocked, cut_links, cut_in_flight, cut, set_link_blocked,
}
use sentinel_public.Core.Network.Transmit.{serve_links, transmit, flight_order}
use sentinel_public.Core.Network.Step.{
  EnvelopeSize, packet, counted, submit, submit_all, arrive, step, invalid_message,
}
use sentinel_public.Core.Network.Counts.{
  stored, serve_links-count, enqueue-count, cut_links-count, cut_in_flight-count, arrive-count,
}

-- Every message that was handed over is delivered, dropped, queued or in flight, once. (The counters
-- wrap.)
pub record IsBalanced (e : NetworkEmulator) : Type 0 where
  pub balance :
      e.communication_messages ≡ (e.delivered_messages + e.dropped_messages + stored e) % 2 ^ 64

pub record SameCounters (e e' : NetworkEmulator) : Type 0 where
  pub kept : stored e' ≡ stored e
  pub communication : e'.communication_messages ≡ e.communication_messages
  pub delivered : e'.delivered_messages ≡ e.delivered_messages
  pub dropped : e'.dropped_messages ≡ e.dropped_messages

transmit-SameCounters :
    (e : NetworkEmulator) (tick : ℕ) → Ensures (SameCounters e) (transmit e tick)
unfolding transmit
transmit-SameCounters e tick = Ensures-bind _ (serve_links e tick e.links) _ λ r hr. record {
  kept = omega (
    arith,
    Ensures-elim _ _ (serve_links-count e tick e.links) hr,
    length-sort flight_order (e.in_flight ++ r.1),
    length-append e.in_flight r.1,
  );
  communication = refl;
  delivered = refl;
  dropped = refl;
}

module _ (envelope_size : EnvelopeSize) where
  submit-IsBalanced :
      (e : NetworkEmulator) (tick : ℕ) (m : NetworkMessage)
      → IsBalanced e
      → Ensures (λ r. IsBalanced r.0) (submit envelope_size e tick m)
  unfolding submit
  submit-IsBalanced e tick m v =
      Ensures-bind _ (throw_if (invalid_message m) invalid_argument) _ λ _ _.
        Ensures-bind _ (packet envelope_size e m tick) _ λ p hp.
          Ensures-bind _ (link_blocked (counted e p) m.sender_id m.recipient_id) _ λ blocked hb.
            Ensures-if _ blocked _ _ (λ h. record { balance = omega (arith, v.balance) })
              λ h.
                Ensures-bind _ (draw e.seed (codes "loss") m p.sequence (pos 0) (pos 9999)) _
                  λ chance hc.
                    Ensures-if _ (ltb_ℤ chance (pos p.profile.packet_loss_permyriad)) _ _
                      (λ k. record { balance = omega (arith, v.balance) })
                      λ k. record {
                        balance =
                            omega (
                              arith,
                              v.balance,
                              enqueue-count e.links m.sender_id m.recipient_id p,
                            );
                      }

  submit_all-IsBalanced :
      (e : NetworkEmulator) (tick : ℕ) (ms : List NetworkMessage)
      → IsBalanced e
      → Ensures
          (λ r. IsBalanced r.0 × (length r.1 ≡ length ms))
          (submit_all envelope_size e tick ms)
  unfolding submit_all
  submit_all-IsBalanced e tick [] v = (v, refl)
  submit_all-IsBalanced e tick (m ∷ ms) v = Ensures-bind _ (submit envelope_size e tick m) _ λ a ha.
      let v' = Ensures-elim _ _ (submit-IsBalanced e tick m v) ha in
      Ensures-bind _ (submit_all envelope_size a.0 tick ms) _ λ r hr.
        let rest = Ensures-elim _ _ (submit_all-IsBalanced a.0 tick ms v') hr in
        (rest.0, ap suc rest.1)

  -- A step keeps the balance, and counts as delivered just what it delivers.
  pub step-IsBalanced :
      (e : NetworkEmulator) (tick : ℕ) (outgoing : List NetworkMessage)
      → IsBalanced e
      → Ensures (λ r. IsBalanced r.0) (step envelope_size e tick outgoing)
  unfolding step
  step-IsBalanced e tick outgoing v =
      Ensures-bind _ (throw_if (ltb 0 (length outgoing) && is_empty e.profile.id) logic_error) _
        λ _ _.
          Ensures-bind _ (submit_all envelope_size e tick (sort message_order outgoing)) _ λ s hs.
            Ensures-bind _ (transmit s.0 tick) _ λ t ht.
              Ensures-bind _ (checked_add tick 1) _ λ now hn.
                Ensures-bind _ (arrive t now t.in_flight) _ λ a ha.
                  let submitted =
                    Ensures-elim _ _ (submit_all-IsBalanced e tick (sort message_order outgoing) v)
                      hs in
                  let moved = Ensures-elim _ _ (transmit-SameCounters s.0 tick) ht in
                  let taken = Ensures-elim _ _ (arrive-count t now t.in_flight) ha in
                  let before = submitted.0.balance in
                  record {
                    balance = omega (
                      arith, before, moved.kept, moved.communication, moved.delivered,
                      moved.dropped, taken,
                    );
                  }

cut-IsBalanced :
    (e : NetworkEmulator) (key : Text × Text) (position tick : ℕ)
    → IsBalanced e
    → Ensures (λ r. IsBalanced r.0) (cut e key position tick)
unfolding cut
cut-IsBalanced e key position tick v = Ensures-bind _ (cut_links key tick e.links) _ λ l hl.
    Ensures-bind _ (cut_in_flight key tick e.in_flight) _ λ f hf. record {
      balance = omega (
        arith,
        v.balance,
        Ensures-elim _ _ (cut_links-count key tick e.links) hl,
        Ensures-elim _ _ (cut_in_flight-count key tick e.in_flight) hf,
        length-append l.1 f.1,
      );
    }

set_link_blocked-IsBalanced :
    (e : NetworkEmulator) (first second : Text) (value : Bool) (tick : ℕ)
    → IsBalanced e
    → Ensures (λ r. IsBalanced r.0) (set_link_blocked e first second value tick)
unfolding set_link_blocked
set_link_blocked-IsBalanced e first second value tick v =
    Ensures-bind _ (link_pair first second) _ λ key hk.
      let position = lower_bound (λ k. k) e.blocked_links key in
      Ensures-if _ (bool_eq value (holds_key (λ k. k) (get_elem? e.blocked_links position) key)) _ _
        (λ h. v)
        λ h.
          Ensures-if _ (not value) _ _ (λ k. record { balance = v.balance })
            (λ k. cut-IsBalanced e key position tick v)

-- The states of an emulator, by the calls that lead to them.
pub data Reach (envelope_size : EnvelopeSize) (seed step_ms : ℕ) : NetworkEmulator → Type 0 where
  started :
      {e : NetworkEmulator} → new_emulator seed step_ms ≡ ok e → Reach envelope_size seed step_ms e
  profiled :
      {e e' : NetworkEmulator} (profile : NetworkProfile)
      → Reach envelope_size seed step_ms e
      → set_profile e profile ≡ ok e'
      → Reach envelope_size seed step_ms e'
  blocked :
      {e e' : NetworkEmulator} {outcomes : List NetworkOutcome} (first second : Text) (value : Bool)
      (tick : ℕ)
      → Reach envelope_size seed step_ms e
      → set_link_blocked e first second value tick ≡ ok (e', outcomes)
      → Reach envelope_size seed step_ms e'
  stepped :
      {e e' : NetworkEmulator} {result : NetworkStep} (tick : ℕ) (outgoing : List NetworkMessage)
      → Reach envelope_size seed step_ms e
      → step envelope_size e tick outgoing ≡ ok (e', result)
      → Reach envelope_size seed step_ms e'

new_emulator-IsBalanced : (seed step_ms : ℕ) → Ensures IsBalanced (new_emulator seed step_ms)
unfolding new_emulator
new_emulator-IsBalanced seed step_ms =
    Ensures-bind _ (throw_if (step_ms == 0) invalid_argument) _ λ _ _. record { balance = refl }

set_profile-IsBalanced :
    (e : NetworkEmulator) (p : NetworkProfile) → IsBalanced e → Ensures IsBalanced (set_profile e p)
unfolding set_profile
set_profile-IsBalanced e p v =
    Ensures-bind _ (validate_profile p) _ λ _ _. record { balance = v.balance }

-- In every state that a run of calls that return leads to, the messages handed over are, modulo
-- 2 ^ 64, the sum of those delivered, dropped, queued and in flight.
pub Reach-IsBalanced :
    (envelope_size : EnvelopeSize) (seed step_ms : ℕ) {e : NetworkEmulator}
    → Reach envelope_size seed step_ms e
    → IsBalanced e
Reach-IsBalanced size seed step_ms (started h) =
    Ensures-elim _ _ (new_emulator-IsBalanced seed step_ms) h
Reach-IsBalanced size seed step_ms (profiled {e} p r h) =
    Ensures-elim _ _ (set_profile-IsBalanced e p (Reach-IsBalanced size seed step_ms r)) h
Reach-IsBalanced size seed step_ms (blocked {e} a b v tick r h) =
    Ensures-elim (λ q. IsBalanced q.0) _
      (set_link_blocked-IsBalanced e a b v tick (Reach-IsBalanced size seed step_ms r)) h
Reach-IsBalanced size seed step_ms (stepped {e} tick ms r h) =
    Ensures-elim (λ q. IsBalanced q.0) _
      (step-IsBalanced size e tick ms (Reach-IsBalanced size seed step_ms r)) h
