-- ===== src/Core/Simulator/Safe/Tape.antt =====
-- The scenario's events keep the simulator (core/src/simulator.cpp) safe.
use sentinel_public.Prelude.{
  ◌≡◌, refl, true, false, not, ◌&&◌, List, [], ◌∷◌, Option, some, drop, bool_eq, ◌==◌, Except,
  throw_if, ◌>>=◌, runtime_error, either_branch, Ensures, Ensures-bind, Ensures-if, Ensures-elim,
  arith,
}
use sentinel_public.Prelude.Int.{ℤ, pos, ◌+ℤ◌, ◌≤ℤ◌, quot, ◌*ℤ◌, min_ℤ, max_ℤ}
use sentinel_public.Prelude.Text.{is_empty}
use sentinel_public.Prelude.Word.{add64}
use sentinel_public.Prelude.Keyed.{find_key}
use sentinel_public.Protocol.Actions.{
  TapeEventKind, release_task, disable_vehicle, energy_delta, set_network_profile,
  set_region_closed, set_link_blocked, set_speed_permille, set_endurance_permille, TapeEvent,
  AppliedEvent,
}
use sentinel_public.Core.Rng.{RngStreams}
use sentinel_public.Core.Network.State.{set_profile}
use sentinel_public.Core.Network.Links.{link_blocked, set_link_blocked as cut_link}
use sentinel_public.Core.Simulator.State.{
  Services, Vehicle, Simulator, found, vehicle, task, network_profile,
}
use sentinel_public.Core.Simulator.Motion.{stopped}
use sentinel_public.Core.Simulator.Tape.{
  Applied, Tape, apply_random, apply_kind, apply_event, apply_tape, apply_events, is_given,
  is_unresolved, next_recorded, stop_tape, none_left,
}
use sentinel_public.Core.Simulator.Events.{
  is_random, begin_event, release, disable, resolve, change_vehicle, change_profile, close_region,
  block_link,
}
use sentinel_public.Core.Simulator.Safe.{
  IsSafe, IsFit, next_epoch-IsSafe, begin_convergence-IsSafe, energy_counted-IsSafe,
  put_vehicle-IsSafe, put_table-IsSafe, vehicle-IsFit,
}
use sentinel_public.Core.Simulator.Safe.Holds.{
  release_agent-IsTable, release_route-IsTable, release_map-IsTable,
}

abbrev IsSafeAfter : Applied → Type 0
IsSafeAfter r = IsSafe r.simulator

release-IsSafe : (s : Simulator) (e : TapeEvent) → IsSafe s → Ensures IsSafe (release s e)
unfolding release
release-IsSafe s source h = Ensures-bind IsSafe (task s source.target_id) _ (λ target e.
    Ensures-if IsSafe target.released _ _ (λ _. h)
      (λ _. either_branch IsSafe (is_empty target.assigned_agent_id) _ _ (next_epoch-IsSafe _ h) h))

disable-IsSafe : (s : Simulator) (e : TapeEvent) → IsSafe s → Ensures IsSafe (disable s e)
unfolding disable
disable-IsSafe s source h = Ensures-bind IsSafe (vehicle s source.target_id) _ (λ target e.
    let f = vehicle-IsFit s source.target_id h e in
    Ensures-if IsSafe (not target.active) _ _ (λ _. h)
      (λ _. put_table-IsSafe _ (release_agent-IsTable s.reservations target.spec.id h.table) (
        put_vehicle-IsSafe (record (stopped target) { active = false; failure_tick = some s.tick })
          f h)))

at_least : (a b : ℤ) → pos 0 ≤ℤ a → pos 0 ≤ℤ max_ℤ a b
at_least a b h = ground arith

one_at_least : (b : ℤ) → pos 0 ≤ℤ max_ℤ (pos 1) b
one_at_least b = at_least (pos 1) b (omega arith)

at_most : (a b : ℤ) → pos 0 ≤ℤ a → pos 0 ≤ℤ b → pos 0 ≤ℤ min_ℤ a b
at_most a b h k = ground arith

change_vehicle-IsSafe :
    (s : Simulator) (kind : TapeEventKind) (v : Vehicle) (value : ℤ)
    → is_random kind ≡ true
    → IsFit v
    → IsSafe s
    → IsSafe (change_vehicle s kind v value)
unfolding change_vehicle is_random
change_vehicle-IsSafe s energy_delta v value r f h =
    let energy = at_least (pos 0) (v.energy_mj +ℤ value) (omega arith) in
    energy_counted-IsSafe _ energy (
      put_vehicle-IsSafe (record v { energy_mj = max_ℤ (pos 0) (v.energy_mj +ℤ value) })
        (record {
          energy = energy;
          capacity = f.capacity;
          initial = f.initial;
          abilities = f.abilities;
        })
        h)
change_vehicle-IsSafe s set_speed_permille v value r f h = next_epoch-IsSafe _ (
    put_table-IsSafe _ (release_route-IsTable s.reservations v.spec.id v.route_version h.table) (
      put_vehicle-IsSafe
        (record v {
          max_speed_mm_s = max_ℤ (pos 1) (quot (v.spec.max_speed_mm_s *ℤ value) (pos 1000));
        })
        f h))
change_vehicle-IsSafe s set_endurance_permille v value r f h =
    let capacity = max_ℤ (pos 1) (quot (v.spec.initial_energy_mj *ℤ value) (pos 1000)) in
    let room = one_at_least (quot (v.spec.initial_energy_mj *ℤ value) (pos 1000)) in
    let energy = at_most v.energy_mj capacity f.energy room in
    let target : Vehicle = record v {
      energy_capacity_mj = capacity;
      energy_mj = min_ℤ v.energy_mj capacity;
    } in
    let g : IsFit target = record {
      energy = energy;
      capacity = room;
      initial = f.initial;
      abilities = f.abilities;
    } in
    next_epoch-IsSafe _ (
      put_table-IsSafe _ (release_route-IsTable s.reservations v.spec.id v.route_version h.table)
        (energy_counted-IsSafe target.energy_mj energy (put_vehicle-IsSafe target g h)))
change_vehicle-IsSafe s _ v value r f h = absurd cc

change_profile-IsSafe :
    (s : Simulator) (e : TapeEvent) → IsSafe s → Ensures IsSafe (change_profile s e)
unfolding change_profile
change_profile-IsSafe s source h =
    Ensures-bind IsSafe (set_profile s.network (network_profile s source.text_value)) _
      (λ network e. h)

close_region-IsSafe : (s : Simulator) (e : TapeEvent) → IsSafe s → Ensures IsSafe (close_region s e)
unfolding close_region
close_region-IsSafe s source h =
    Ensures-bind IsSafe (found (find_key (λ r. r.id) s.scenario.world.regions source.target_id)) _
      (λ region e.
        Ensures-if IsSafe (bool_eq region.closed source.bool_value) _ _ (λ _. h)
          (λ _. begin_convergence-IsSafe _ (
            put_table-IsSafe _
              (release_map-IsTable s.reservations (add64 s.scenario.world.map_version 1) h.table)
              h)))

block_link-IsSafe :
    (s : Simulator) (e : TapeEvent) → IsSafe s → Ensures (λ r. IsSafe r.0) (block_link s e)
unfolding block_link
block_link-IsSafe s source h =
    Ensures-bind (λ r. IsSafe r.0) (link_blocked s.network source.target_id source.text_value) _
      (λ was_blocked e.
        Ensures-bind (λ r. IsSafe r.0)
          (cut_link s.network source.target_id source.text_value source.bool_value s.tick) _
          (λ r k.
            either_branch IsSafe (bool_eq was_blocked source.bool_value) _ _ h
              (begin_convergence-IsSafe _ h)))

apply_random-IsSafe :
    (s : Simulator) (kind : TapeEventKind) (e : TapeEvent) (recorded : Option AppliedEvent)
    → is_random kind ≡ true
    → IsSafe s
    → Ensures IsSafeAfter (apply_random s kind e recorded)
unfolding apply_random
apply_random-IsSafe s kind source recorded r h =
    Ensures-bind IsSafeAfter (resolve s.rng_streams source recorded) _ (λ drawn e.
      Ensures-bind IsSafeAfter (vehicle (drawn_state drawn.2) source.target_id) _ (λ target k.
        change_vehicle-IsSafe (drawn_state drawn.2) kind target drawn.0 r
          (vehicle-IsFit (drawn_state drawn.2) source.target_id h k) h))
  where
    drawn_state : RngStreams → Simulator
    drawn_state streams = record s { rng_streams = streams }

module _ {A : Type 0} (P : A → Type 0) (Q : Applied → Type 0) where
  -- What a chain's last step makes of a result that is as it should be.
  then_applied :
      (m : Except A) (f : A → Except Applied)
      → Ensures P m
      → ((a : A) → P a → Ensures Q (f a))
      → Ensures Q (m >>= f)
  then_applied m f h k = Ensures-bind Q m f (λ a e. k a (Ensures-elim P m h e))

module _ (s : Simulator) (source : TapeEvent) (event : AppliedEvent) (h : IsSafe s) where
  apply_kind-IsSafe :
      (kind : TapeEventKind) (recorded : Option AppliedEvent)
      → Ensures IsSafeAfter (apply_kind s kind source recorded event)
  unfolding apply_kind is_random
  apply_kind-IsSafe release_task recorded =
      then_applied IsSafe IsSafeAfter (release s source) _ (release-IsSafe s source h) (λ a p. p)
  apply_kind-IsSafe disable_vehicle recorded =
      then_applied IsSafe IsSafeAfter (disable s source) _ (disable-IsSafe s source h) (λ a p. p)
  apply_kind-IsSafe energy_delta recorded =
      apply_random-IsSafe s energy_delta source recorded refl h
  apply_kind-IsSafe set_speed_permille recorded =
      apply_random-IsSafe s set_speed_permille source recorded refl h
  apply_kind-IsSafe set_endurance_permille recorded =
      apply_random-IsSafe s set_endurance_permille source recorded refl h
  apply_kind-IsSafe set_network_profile recorded =
      then_applied IsSafe IsSafeAfter (change_profile s source) _ (change_profile-IsSafe s source h)
        (λ a p. p)
  apply_kind-IsSafe set_region_closed recorded =
      then_applied IsSafe IsSafeAfter (close_region s source) _ (close_region-IsSafe s source h)
        (λ a p. p)
  apply_kind-IsSafe set_link_blocked recorded =
      then_applied (λ r. IsSafe r.0) IsSafeAfter (block_link s source) _
        (block_link-IsSafe s source h) (λ a p. p)
  apply_kind-IsSafe TapeEventKind.unspecified recorded = h

apply_event-IsSafe :
    (env : Services) (s : Simulator) (e : TapeEvent) (recorded : Option AppliedEvent)
    → IsSafe s
    → Ensures IsSafeAfter (apply_event env s e recorded)
unfolding apply_event
apply_event-IsSafe env s source recorded h =
    Ensures-bind IsSafeAfter (begin_event env source recorded) _ (λ event e.
      Ensures-bind IsSafeAfter (apply_kind s source.kind source recorded event) _ (λ r k.
        Ensures-bind IsSafeAfter
          (throw_if
            (is_given recorded && (not (is_random source.kind) && not (is_unresolved r.event)))
            runtime_error)
          _
          (λ passed _.
            Ensures-elim IsSafeAfter (apply_kind s source.kind source recorded event)
              (apply_kind-IsSafe s source event h source.kind recorded) k)))

abbrev IsSafeTape : Tape → Type 0
IsSafeTape r = IsSafe r.simulator

stop_tape-IsSafe :
    (s : Simulator) (recorded : Option (List AppliedEvent))
    → IsSafe s
    → Ensures IsSafeTape (stop_tape s recorded)
stop_tape-IsSafe s recorded h = Ensures-bind IsSafeTape (none_left recorded) _ (λ none e. h)

apply_tape-IsSafe :
    (env : Services) (s : Simulator) (events : List TapeEvent)
    (recorded : Option (List AppliedEvent))
    → IsSafe s
    → Ensures IsSafeTape (apply_tape env s events recorded)
unfolding apply_tape
apply_tape-IsSafe env s [] recorded h = stop_tape-IsSafe s recorded h
apply_tape-IsSafe env s (source ∷ sources) recorded h =
    Ensures-if IsSafeTape (not (source.tick == s.tick)) _ _ (λ _. stop_tape-IsSafe s recorded h)
      (λ _. Ensures-bind IsSafeTape (next_recorded recorded) _ (λ n e.
        Ensures-bind IsSafeTape (apply_event env s source n.0) _ (λ r k.
          let p =
            Ensures-elim IsSafeAfter (apply_event env s source n.0)
              (apply_event-IsSafe env s source n.0 h) k in
          Ensures-bind IsSafeTape (apply_tape env r.simulator sources n.1) _ (λ rest m.
            Ensures-elim IsSafeTape (apply_tape env r.simulator sources n.1)
              (apply_tape-IsSafe env r.simulator sources n.1 p) m))))

pub apply_events-IsSafe :
    (env : Services) (s : Simulator) (recorded : Option (List AppliedEvent))
    → IsSafe s
    → Ensures (λ r. IsSafe r.simulator) (apply_events env s recorded)
unfolding apply_events
apply_events-IsSafe env s recorded h =
    apply_tape-IsSafe env s (drop s.next_event s.scenario.events) recorded h
