-- ===== src/Core/Simulator/Views.antt =====
-- The part of `canonicalize_actions` of core/src/simulator.cpp that sorts and checks the allocation state
-- of an action.
use sentinel_public.Prelude.{
  ℕ, suc, Bool, true, false, not, ◌&&◌, ◌||◌, List, [], ◌∷◌, Option, none, some, any, length, ltb,
  leb, ◌==◌, if◌then◌else◌, Except, ok, throw, throw_if, ◌>>=◌, ◌>>◌, invalid_argument,
}
use sentinel_public.Prelude.Int.{pos, ltb_ℤ, eq_ℤ}
use sentinel_public.Prelude.Text.{Text, text_eq, text_lt, is_empty}
use sentinel_public.Prelude.Order.{tie, by, sort}
use sentinel_public.Prelude.Keyed.{find_key, repeats}
use sentinel_public.Protocol.Actions.{
  AllocationBid, AllocationCommit, AllocationRelay, AllocationState,
}
use sentinel_public.Core.Simulator.State.{
  Services, Simulator, found, vehicle, task, is_scripted, is_open_task,
}
use sentinel_public.Core.Simulator.Commits.{is_nearest_capable}

unfoldable pub bid_order : AllocationBid → AllocationBid → Bool
bid_order = tie (by (λ b. b.task_id) text_lt) (by (λ b. b.bidder_id) text_lt)

unfoldable pub sort_state : AllocationState → AllocationState
unfolding bid_order
sort_state state = record state {
  bids = sort bid_order state.bids;
  winners = sort bid_order state.winners;
  winner_relays = sort (by (λ r. r.bid) bid_order) state.winner_relays;
  owners = sort (by (λ o. o.task_id) text_lt) state.owners;
}

-- `std::all_of` and loops over a test that may throw.
abbrev pub all_ok {ℓ} : {A : Type ℓ} → (A → Except Bool) → List A → Except Bool
all_ok test [] = ok true
all_ok test (x ∷ xs) = do good ← test x; if not good then ok false else all_ok test xs

abbrev pub check_all {ℓ} : {A : Type ℓ} → (A → Except (Unit {0})) → List A → Except (Unit {0})
check_all check [] = ok tt
check_all check (x ∷ xs) = do check x; check_all check xs

-- A look-up that is made for its exception.
abbrev pub exists_or_throw {ℓ} : {A : Type ℓ} → Except A → Except (Unit {0})
exists_or_throw (ok a) = ok tt
exists_or_throw (throw e) = throw e

unfoldable pub valid_bid : Simulator → AllocationState → AllocationBid → Except Bool
unfolding task vehicle
valid_bid s state bid =
    if not (bid.epoch == state.epoch)
      || (bid.version == 0
          || (is_empty bid.task_id
              || (is_empty bid.bidder_id
                  || (ltb_ℤ bid.distance_mm (pos 0)
                      || (ltb_ℤ bid.energy_mj (pos 0)
                          || (ltb s.scenario.max_ticks bid.completion_tick
                              || leb (length s.tasks) bid.bundle_position))))))
    then ok false
    else do exists_or_throw (task s bid.task_id); exists_or_throw (vehicle s bid.bidder_id); ok true

unfoldable pub valid_own_bid : Simulator → AllocationState → Text → AllocationBid → Except Bool
unfolding valid_bid
valid_own_bid s state sender bid = do
  good ← valid_bid s state bid
  ok (good && text_eq bid.bidder_id sender)

unfoldable pub check_bids : Simulator → AllocationState → Text → Except (Unit {0})
unfolding valid_own_bid valid_bid repeats
check_bids s state sender = do
  own ← all_ok (valid_own_bid s state sender) state.bids
  throw_if (not own) invalid_argument
  won ← all_ok (valid_bid s state) state.winners
  throw_if (not won) invalid_argument
  throw_if
      (not (length state.winner_relays == length state.winners)
        || (repeats (λ b. b.task_id) state.bids || repeats (λ b. b.task_id) state.winners))
      invalid_argument

abbrev pub last_of : Text → List Text → Text
last_of x [] = x
last_of x (y ∷ ys) = last_of y ys

-- A path that starts at the bidder and ends at the sender.
unfoldable pub leads : Text → Text → List Text → Bool
leads bidder sender [] = false
leads bidder sender (x ∷ xs) = text_eq x bidder && text_eq (last_of x xs) sender

unfoldable pub check_relay :
    Services → Simulator → Text → AllocationRelay → AllocationBid → Except (Unit {0})
unfolding leads repeats vehicle
check_relay env s sender relay winner = do
  let path = relay.path_agent_ids
  throw_if
      (not (text_eq (env.bid_bytes relay.bid) (env.bid_bytes winner))
        || not (leads relay.bid.bidder_id sender path))
      invalid_argument
  throw_if
      (repeats (λ x. x) (sort text_lt path)
        || (text_eq relay.bid.bidder_id sender && not (length path == 1)))
      invalid_argument
  check_all (λ agent. exists_or_throw (vehicle s agent)) path

-- The relays and the winners, which are as many.
unfoldable pub check_relays :
    Services → Simulator → Text → List AllocationRelay → List AllocationBid → Except (Unit {0})
unfolding check_relay
check_relays env s sender [] winners = ok tt
check_relays env s sender (r ∷ rs) [] = ok tt
check_relays env s sender (r ∷ rs) (w ∷ ws) = do
  check_relay env s sender r w
  check_relays env s sender rs ws

unfoldable pub check_owner : Simulator → AllocationCommit → Except (Unit {0})
unfolding task vehicle
check_owner s owner = do
  current ← task s owner.task_id
  throw_if
      (not (is_open_task current)
        || (is_empty owner.agent_id
            || (owner.epoch == 0
                || (ltb s.allocation_epoch owner.epoch
                    || (owner.version == 0
                        || (not (eq_ℤ owner.distance_mm (pos 0))
                            || leb (length s.tasks) owner.bundle_position))))))
      invalid_argument
  exists_or_throw (vehicle s owner.agent_id)

-- The places in the bundle that its tasks' bids name.
unfoldable pub bundle_positions : List AllocationBid → ℕ → List Text → Except (List ℕ)
unfolding find_key
bundle_positions bids size [] = ok []
bundle_positions bids size (id ∷ ids) = do
  bid ← found (find_key (λ b. b.task_id) bids id)
  throw_if (leb size bid.bundle_position) invalid_argument
  rest ← bundle_positions bids size ids
  ok (bid.bundle_position ∷ rest)

-- Whether the numbers count up from `next`.
unfoldable pub counts_from : ℕ → List ℕ → Bool
counts_from next [] = true
counts_from next (n ∷ ns) = n == next && counts_from (suc next) ns

abbrev pub is_scored : AllocationBid → Bool
is_scored b = not (eq_ℤ b.score (pos 0)) || not (b.bundle_position == 0)

unfoldable pub check_bundle : Simulator → AllocationState → Except (Unit {0})
unfolding is_nearest_capable bundle_positions counts_from
check_bundle s state =
    let bundle = state.bundle_task_ids in
    if is_nearest_capable s.scenario.allocation_policy
    then throw_if
        (ltb 0 (length bundle) || (any is_scored state.bids || any is_scored state.winners))
        invalid_argument
    else do
      throw_if (not (length bundle == length state.bids)) invalid_argument
      positions ← bundle_positions state.bids (length bundle) bundle
      throw_if (not (counts_from 0 (sort ltb positions))) invalid_argument

-- The checks on a sorted state.
unfoldable pub check_state : Services → Simulator → Text → AllocationState → Except (Unit {0})
unfolding is_scripted check_bids check_relays repeats check_owner check_bundle task
check_state env s sender state = do
  throw_if
      (is_scripted s.scenario.allocation_policy
        || (not (text_eq state.sender_id sender)
            || (not (state.epoch == s.allocation_epoch)
                || (state.version == 0
                    || not (state.map_version == s.scenario.world.map_version)))))
      invalid_argument
  check_bids s state sender
  check_relays env s state.sender_id state.winner_relays state.winners
  throw_if (repeats (λ o. o.task_id) state.owners) invalid_argument
  check_all (check_owner s) state.owners
  throw_if (repeats (λ x. x) (sort text_lt state.bundle_task_ids)) invalid_argument
  check_all (λ id. exists_or_throw (task s id)) state.bundle_task_ids
  check_bundle s state

unfoldable pub canonical_state :
    Services → Simulator → Text → Option AllocationState → Except (Option AllocationState)
unfolding sort_state check_state
canonical_state env s sender none = ok none
canonical_state env s sender (some state) = do
  check_state env s sender (sort_state state)
  ok (some (sort_state state))
