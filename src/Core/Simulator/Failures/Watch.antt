-- ===== src/Core/Simulator/Failures/Watch.antt =====
-- How long `update_failure_monitors` of core/src/simulator.cpp takes to detect a failure.
use native.Mathlib.Nat.{mod-eq_of_lt}
use sentinel_public.Prelude.{
  ℕ, ◌+◌, ◌%◌, ◌^◌, ◌<◌, ◌≡◌, refl, ap, ◌∙◌, true, false, List, [], ◌∷◌, ◌++◌, All, length, leb,
  none, some, Except, ok, for_each, arith,
}
use sentinel_public.Prelude.Text.{Text}
use sentinel_public.Prelude.Word.{add64}
use sentinel_public.Core.Network.Links.{link_blocked}
use sentinel_public.Core.Simulator.State.{Vehicle, FailureMonitor, Simulator, vehicle}
use sentinel_public.Core.Simulator.Failures.{hears, count_silence, update_monitor}

-- The detector is active, its link to the failed agent is open, and nothing came from there.
pub record IsSilent (threshold : ℕ) (detector failed : Text) (s : Simulator) : Type 0 where
  pub watcher : Vehicle
  pub is_there : vehicle s detector ≡ ok watcher
  pub is_active : watcher.active ≡ true
  pub linked : link_blocked s.network detector failed ≡ ok false
  pub unheard :
      hears s.delivered_messages (record {
        detector_id = detector;
        failed_id = failed;
        failure_tick = 0;
        missed_ticks = 0;
        detection_tick = none;
      })
      ≡ false
  pub same_threshold : s.scenario.failure_detection_ticks ≡ threshold

-- The monitor in the states of consecutive ticks.
unfoldable pub watch : FailureMonitor → List Simulator → Except FailureMonitor
unfolding update_monitor
watch = for_each (λ m s. update_monitor s m)

abbrev Silent : ℕ → FailureMonitor → Simulator → Type 0
Silent threshold m = IsSilent threshold m.detector_id m.failed_id

module _ (threshold : ℕ) where
  missed_round :
      (s : Simulator) (m : FailureMonitor)
      → m.detection_tick ≡ none
      → Silent threshold m s
      → update_monitor s m ≡ ok (count_silence threshold s.tick false m)
  unfolding update_monitor
  missed_round s m e h = rw (e, h.is_there, h.is_active, h.linked, h.unheard, h.same_threshold) refl

  -- The next round: one more silent tick.
  abbrev later : FailureMonitor → FailureMonitor
  later m = record m { missed_ticks = m.missed_ticks + 1 }

  not_yet :
      (tick : ℕ) (m : FailureMonitor)
      → m.detection_tick ≡ none
      → m.missed_ticks + 1 < threshold
      → threshold < 2 ^ 64
      → count_silence threshold tick false m ≡ later m
  unfolding count_silence
  not_yet tick m e h k = rw (e, mod-eq_of_lt small, early) refl
    where
      small : m.missed_ticks + 1 < 2 ^ 64
      small = omega arith

      early : leb threshold (m.missed_ticks + 1) ≡ false
      early = ground arith

  detected :
      (tick : ℕ) (m : FailureMonitor)
      → m.missed_ticks + 1 ≡ threshold
      → threshold < 2 ^ 64
      → (count_silence threshold tick false m).detection_tick ≡ some (add64 tick 1)
  unfolding count_silence
  detected tick m h k = rw (mod-eq_of_lt small, now) refl
    where
      small : m.missed_ticks + 1 < 2 ^ 64
      small = omega arith

      now : leb threshold (m.missed_ticks + 1) ≡ true
      now = ground arith

  -- A monitor that has missed some ticks detects the failure in the round that makes the missed ticks as
  -- many as the threshold, if the agent is silent in all rounds until then: the update returns in every
  -- round, and the detection tick is the one after the last round's.
  pub watch-detects :
      (ss : List Simulator) (s : Simulator) (m : FailureMonitor)
      → threshold < 2 ^ 64
      → m.detection_tick ≡ none
      → m.missed_ticks + length ss + 1 ≡ threshold
      → All (IsSilent threshold m.detector_id m.failed_id) (ss ++ s ∷ [])
      → (r : FailureMonitor) × (watch m (ss ++ s ∷ []) ≡ ok r)
        × (r.detection_tick ≡ some ((s.tick + 1) % 2 ^ 64))
  unfolding watch
  watch-detects [] s m k e h silent = (
    count_silence threshold s.tick false m,
    rw (missed_round s m e silent.0) refl,
    detected s.tick m (omega arith) k,
  )
  watch-detects (x ∷ xs) s m k e h silent =
      let step = missed_round x m e silent.0 ∙ ap ok (not_yet x.tick m e (omega arith) k) in
      let r = watch-detects xs s (later m) k e (omega arith) silent.1 in (r.0, rw step r.1, r.2)
