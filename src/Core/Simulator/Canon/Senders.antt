-- ===== src/Core/Simulator/Canon/Senders.antt =====
-- What `canonicalize_actions` of core/src/simulator.cpp gives: one envelope for each vehicle, in their order.
use sentinel_public.Prelude.{
  ℕ, suc, ◌==◌, ◌≡◌, refl, ap, ◌∙◌, Bool, true, false, not, ◌||◌, List, [], ◌∷◌, map, Exception, ok,
  throw_if, length, invalid_argument, Ensures, Ensures-bind, Ensures-elim, arith,
}
use sentinel_public.Prelude.Text.{Text, text_lt, text_eq_sound}
use sentinel_public.Prelude.Order.{by, sort, length-sort}
use sentinel_public.Protocol.Actions.{Envelope, ActionBatch}
use sentinel_public.Core.Simulator.State.{Services, Vehicle, Simulator, vehicle_id}
use sentinel_public.Core.Simulator.Views.{canonical_state}
use sentinel_public.Core.Simulator.Canon.{
  check_envelope, canonical_envelope, canonical_all, canonicalize_actions, check_action,
  misaddressed, with_state,
}

abbrev sender : Envelope → Text
sender e = e.sender_id

throw_if-eq-ok : (b : Bool) (e : Exception) {u : Unit {0}} → throw_if b e ≡ ok u → b ≡ false
throw_if-eq-ok true e h = cc
throw_if-eq-ok false e h = refl

-- The envelope is the vehicle's.
abbrev IsSentBy : Vehicle → Envelope → Type 0
IsSentBy v e = sender e ≡ vehicle_id v

own : (a b : Bool) → not a || b ≡ false → a ≡ true
own a b h = ground arith

module _ (env : Services) (s : Simulator) where
  checked : (i : ℕ) (v : Vehicle) (e : Envelope) → misaddressed s i v e ≡ false → IsSentBy v e
  unfolding misaddressed
  checked i v e h = text_eq_sound e.sender_id v.spec.id (own _ _ h)

  canonical_envelope-IsSentBy :
      (i : ℕ) (v : Vehicle) (e : Envelope) → Ensures (IsSentBy v) (canonical_envelope env s i v e)
  unfolding canonical_envelope check_envelope
  canonical_envelope-IsSentBy i v e = Ensures-bind (IsSentBy v) (check_envelope s i v e) _ (λ _ k.
      Ensures-bind (IsSentBy v) (canonical_state env s e.sender_id e.action.allocation_state) _
        (λ state _.
          Ensures-bind (IsSentBy v) (check_action s (with_state e state)) _
            (λ _ _. checked i v e (throw_if-eq-ok _ _ k))))

  abbrev AreSentBy : List Vehicle → List Envelope → Type 0
  AreSentBy vs es = map sender es ≡ map vehicle_id vs

  canonical_all-AreSentBy :
      (i : ℕ) (vs : List Vehicle) (es : List Envelope)
      → length es ≡ length vs
      → Ensures (AreSentBy vs) (canonical_all env s i vs es)
  unfolding canonical_all
  canonical_all-AreSentBy i [] [] same = refl
  canonical_all-AreSentBy i (v ∷ vs) [] same = absurd (omega arith)
  canonical_all-AreSentBy i [] (e ∷ es) same = tt
  canonical_all-AreSentBy i (v ∷ vs) (e ∷ es) same =
      Ensures-bind (AreSentBy (v ∷ vs)) (canonical_envelope env s i v e) _ (λ e' k.
        Ensures-bind (AreSentBy (v ∷ vs)) (canonical_all env s (suc i) vs es) _ (λ es' m.
          let first =
            Ensures-elim (IsSentBy v) (canonical_envelope env s i v e)
              (canonical_envelope-IsSentBy i v e) k in
          let rest =
            Ensures-elim (AreSentBy vs) (canonical_all env s (suc i) vs es)
              (canonical_all-AreSentBy (suc i) vs es (omega arith)) m in
          ap (λ id. id ∷ map sender es') first ∙ ap (λ ids. vehicle_id v ∷ ids) rest))

  -- An action batch that is accepted has one envelope for each vehicle, and they come in the order of the
  -- vehicles.
  pub canonicalize_actions-senders :
      (actions : ActionBatch)
      → Ensures
          (λ b. map (λ e. e.sender_id) b.actions ≡ map vehicle_id s.vehicles)
          (canonicalize_actions env s actions)
  unfolding canonicalize_actions
  canonicalize_actions-senders actions =
      Ensures-bind (λ b. AreSentBy s.vehicles b.actions)
        (throw_if
          (not (actions.tick == s.tick) || not (length actions.actions == length s.vehicles))
          invalid_argument)
        _
        (λ _ k.
          let sorted = sort (by sender text_lt) actions.actions in
          Ensures-bind (λ b. AreSentBy s.vehicles b.actions)
            (canonical_all env s 0 s.vehicles sorted) _
            (λ es m.
              Ensures-elim (AreSentBy s.vehicles) (canonical_all env s 0 s.vehicles sorted)
                (canonical_all-AreSentBy 0 s.vehicles sorted (
                  length-sort (by sender text_lt) actions.actions
                  ∙ as_many _ _ _ (throw_if-eq-ok _ _ k)))
                m))
    where
      as_many : (a : Bool) (m n : ℕ) → a || not (m == n) ≡ false → m ≡ n
      as_many a m n h = ground arith
