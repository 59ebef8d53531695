-- ===== src/Core/Simulator/Tape/Replay.antt =====
-- `Simulator::apply_events` and `step_internal` of core/src/simulator.cpp: a replay of a recorded step.
use sentinel_public.Prelude.{
  ℕ, ◌==◌, ◌≡◌, refl, ap, ◌∙◌, Bool, true, false, not, ◌&&◌, List, [], ◌∷◌, Option, none, some,
  drop, Except, ok, ◌>>=◌, Ensures, Ensures-bind, Ensures-if, Ensures-elim, Ensures-intro, arith,
}
use sentinel_public.Prelude.Int.{ℤ, eq_ℤ}
use sentinel_public.Prelude.Text.{text_eq, text_eq_refl}
use sentinel_public.Protocol.Actions.{
  TapeEventKind, release_task, disable_vehicle, energy_delta, set_network_profile,
  set_region_closed, set_link_blocked, set_speed_permille, set_endurance_permille, TapeEvent,
  AppliedEvent,
}
use sentinel_public.Core.Rng.{RngStreams, draw_from}
use sentinel_public.Core.Simulator.State.{Services, Simulator, vehicle}
use sentinel_public.Core.Simulator.Tape.{
  Applied, applied, apply_random, apply_kind, is_unresolved, apply_event, Tape, apply_tape,
  apply_events,
}
use sentinel_public.Core.Simulator.Events.{
  fresh, is_random, begin_event, release, disable, resolve, change_profile, close_region,
  block_link,
}

-- What a live event leaves: applied again from its record, it does the same.
record IsKept (s : Simulator) (kind : TapeEventKind) (source : TapeEvent) (r : Applied)
    : Type 0 where
  same_source : r.event.source ≡ source
  again : apply_kind s kind source (some r.event) r.event ≡ ok r
  plain : is_random kind ≡ false → is_unresolved r.event ≡ true

eq_ℤ_refl : (a : ℤ) → eq_ℤ a a ≡ true
eq_ℤ_refl a = ground arith

eq_refl : (n : ℕ) → (n == n) ≡ true
eq_refl n = ground arith

module _ (s : Simulator) (source : TapeEvent) where
  resolve-again :
      (streams : RngStreams)
      → Ensures
          (λ r. (r.1.source ≡ source) × (resolve streams source (some r.1) ≡ ok r))
          (resolve streams source none)
  unfolding resolve
  resolve-again streams =
      Ensures-bind (λ r. (r.1.source ≡ source) × (resolve streams source (some r.1) ≡ ok r))
        (draw_from streams source.rng_stream source.value_min source.value_max) _
        (λ r e. (
          refl,
          rw e (rw (text_eq_refl source.rng_stream) (rw (eq_ℤ_refl r.0) (rw (eq_refl _) refl))),
        ))

  abbrev IsRedrawn : TapeEventKind → Applied → Type 0
  IsRedrawn kind r = (r.event.source ≡ source) × (apply_random s kind source (some r.event) ≡ ok r)

  apply_random-IsRedrawn :
      (kind : TapeEventKind) → Ensures (IsRedrawn kind) (apply_random s kind source none)
  unfolding apply_random
  apply_random-IsRedrawn kind =
      Ensures-bind (IsRedrawn kind) (resolve s.rng_streams source none) _ (λ r e.
        let k =
          Ensures-elim
            (λ x. (x.1.source ≡ source) × (resolve s.rng_streams source (some x.1) ≡ ok x))
            (resolve s.rng_streams source none) (resolve-again s.rng_streams) e in
        Ensures-bind (IsRedrawn kind) (vehicle s source.target_id) _
          (λ t e'. (k.0, rw k.1 (rw e' refl))))

  redrawn-IsKept :
      (kind : TapeEventKind) (r : Applied)
      → is_random kind ≡ true
      → ((e : AppliedEvent)
          → apply_kind s kind source (some e) e ≡ apply_random s kind source (some e))
      → IsRedrawn kind r
      → IsKept s kind source r
  redrawn-IsKept kind r h same k = record {
    same_source = k.0;
    again = same r.event ∙ k.1;
    plain = λ n. ground arith;
  }

  kept :
      (kind : TapeEventKind) (m : Except Simulator)
      → apply_kind s kind source none (fresh source) ≡ (m >>= applied (fresh source) [])
      → ((e : AppliedEvent) → apply_kind s kind source (some e) e ≡ (m >>= applied e []))
      → Ensures (IsKept s kind source) (apply_kind s kind source none (fresh source))
  kept kind m live replayed = rw live (
      Ensures-bind (IsKept s kind source) m (applied (fresh source) []) (λ a e. record {
        same_source = refl;
        again = replayed (fresh source) ∙ ap (λ x. x >>= applied (fresh source) []) e;
        plain = λ _. refl;
      }))

  redrawn :
      (kind : TapeEventKind)
      → is_random kind ≡ true
      → ((recorded : Option AppliedEvent) (e : AppliedEvent)
          → apply_kind s kind source recorded e ≡ apply_random s kind source recorded)
      → Ensures (IsKept s kind source) (apply_kind s kind source none (fresh source))
  redrawn kind h same = rw (same none (fresh source)) (
      Ensures-intro (IsKept s kind source) (apply_random s kind source none) (λ r e.
        redrawn-IsKept kind r h (λ x. same (some x) x)
          (Ensures-elim (IsRedrawn kind) (apply_random s kind source none)
            (apply_random-IsRedrawn kind) e)))

  apply_kind-IsKept :
      (kind : TapeEventKind)
      → Ensures (IsKept s kind source) (apply_kind s kind source none (fresh source))
  unfolding apply_kind is_random
  apply_kind-IsKept TapeEventKind.unspecified = record {
    same_source = refl;
    again = refl;
    plain = λ _. refl;
  }
  apply_kind-IsKept release_task = kept release_task (release s source) refl (λ e. refl)
  apply_kind-IsKept disable_vehicle = kept disable_vehicle (disable s source) refl (λ e. refl)
  apply_kind-IsKept set_network_profile =
      kept set_network_profile (change_profile s source) refl (λ e. refl)
  apply_kind-IsKept set_region_closed =
      kept set_region_closed (close_region s source) refl (λ e. refl)
  apply_kind-IsKept energy_delta = redrawn energy_delta refl (λ recorded e. refl)
  apply_kind-IsKept set_speed_permille = redrawn set_speed_permille refl (λ recorded e. refl)
  apply_kind-IsKept set_endurance_permille =
      redrawn set_endurance_permille refl (λ recorded e. refl)
  apply_kind-IsKept set_link_blocked =
      Ensures-bind (IsKept s set_link_blocked source) (block_link s source) _
        (λ a e. record { same_source = refl; again = rw e refl; plain = λ _. refl })

settled : (a b : Bool) → (a ≡ false → b ≡ true) → not a && not b ≡ false
settled true b h = refl
settled false b h = rw (h refl) refl

module _ (env : Services) where
  abbrev IsReplayed : Simulator → TapeEvent → Applied → Type 0
  IsReplayed s source r = apply_event env s source (some r.event) ≡ ok r

  apply_event-IsReplayed :
      (s : Simulator) (source : TapeEvent)
      → Ensures (IsReplayed s source) (apply_event env s source none)
  unfolding apply_event begin_event
  apply_event-IsReplayed s source =
      Ensures-bind (IsReplayed s source) (apply_kind s source.kind source none (fresh source)) _
        (λ r e.
          let k =
            Ensures-elim (IsKept s source.kind source)
              (apply_kind s source.kind source none (fresh source))
              (apply_kind-IsKept s source source.kind) e in
          let bytes =
            ap (λ x. text_eq (env.event_bytes x) (env.event_bytes source)) k.same_source
            ∙ text_eq_refl (env.event_bytes source) in
          rw bytes (
            rw k.again (rw (settled (is_random source.kind) (is_unresolved r.event) k.plain) refl)))

  abbrev IsReplayedTape : Simulator → List TapeEvent → Tape → Type 0
  IsReplayedTape s sources t = apply_tape env s sources (some t.events) ≡ ok t

  apply_tape-IsReplayed :
      (sources : List TapeEvent) (s : Simulator)
      → Ensures (IsReplayedTape s sources) (apply_tape env s sources none)
  unfolding apply_tape
  apply_tape-IsReplayed [] s = refl
  apply_tape-IsReplayed (source ∷ sources) s =
      Ensures-if (IsReplayedTape s (source ∷ sources)) (not (source.tick == s.tick)) _ _
        (λ later. rw later refl)
        (λ now.
          Ensures-bind (IsReplayedTape s (source ∷ sources)) (apply_event env s source none) _
            (λ r e.
              let k =
                Ensures-elim (IsReplayed s source) (apply_event env s source none)
                  (apply_event-IsReplayed s source) e in
              Ensures-bind (IsReplayedTape s (source ∷ sources))
                (apply_tape env r.simulator sources none) _
                (λ t e'.
                  let l =
                    Ensures-elim (IsReplayedTape r.simulator sources)
                      (apply_tape env r.simulator sources none)
                      (apply_tape-IsReplayed sources r.simulator) e' in
                  rw now (rw k (rw l refl)))))

  abbrev pub AreReplayed : Simulator → Tape → Type 0
  AreReplayed s t = apply_events env s (some t.events) ≡ ok t

  pub apply_events-AreReplayed : (s : Simulator) → Ensures (AreReplayed s) (apply_events env s none)
  unfolding apply_events
  apply_events-AreReplayed s = apply_tape-IsReplayed (drop s.next_event s.scenario.events) s
