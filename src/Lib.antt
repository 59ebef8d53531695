-- ===== src/Lib.antt =====
-- Sentinel: a deterministic simulator of a fleet of vehicles that share tasks over a lossy network.
--
-- The parts. `core` keeps the simulation: a hash for state digests, random streams, the network
-- emulator, the event log, scenarios and the simulator. `planning` decides what a vehicle may cross,
-- what a journey costs, which tasks it can serve, and who holds a chokepoint when. `proto` defines
-- the messages and frames them for pipes. The agents' allocation and autonomy call `planning` and
-- talk through the emulator, which draws from the random streams.
--
-- The files.
--   Prelude         shared types: exceptions as values with a postcondition calculus, lists over
--                   native numbers, integers, words, texts as byte lists, orders and sorting, the
--                   loop that keeps a best candidate, lists in the order of a key.
--   Protocol        proto/sentinel/v1/sentinel.proto (Messages, Actions, Observations) and
--                   proto/src/framing.cpp (Framing).
--   Core.Hash       core/src/hash.cpp, `HashBuilder` and `hash_bytes`.
--   Core.Rng        core/src/rng.cpp, `DeterministicRng` and `RngStreams`. A generator is its state.
--   Core.Network    core/src/network.cpp, `NetworkEmulator`: State (construction, profiles), Links
--                   (partitions and queues), Transmit (one tick of bytes), Step (submission and
--                   delivery), Digest (`append_hash`). Every method is a function from the
--                   state to the state and its result.
--   Core.Scenario   core/src/scenario.cpp: normalize_scenario and scenario_hash; Checks (the checks on
--                   one profile, region, location, vehicle or task), Valid (the checks on events and
--                   `validate_scenario`).
--   Core.Simulator  core/src/simulator.cpp, `Simulator`: State and Counters (the state), Start
--                   (construction), Views and Canon (`canonicalize_actions`), Events and Tape (`apply_events`),
--                   Commits (commits and rejections), Failures (detections and monitors), Holds
--                   (reservations), Motion (motion, charging, `apply_actions`), Duties
--                   (`update_tasks`), Agreement (convergence), Digest (`compute_state_hash`),
--                   Summary (`summary`), Observe (`observe`), Step (`step_internal`, `step`,
--                   `replay_step`, and runs of steps). Proofs are in Safe and its children,
--                   Duties.Phases, Failures.Watch, Agreement.Enough, Canon.Senders,
--                   Observe.Hidden, Tape.Replay and Step.Replay.
--   Planning        planning/src/planner.cpp: Reservation (`ReservationTable`), Geometry (regions and
--                   segments), Energy (ticks, energy, reserve), Claims (`feasible_route`,
--                   `make_claim`, `nearest_capable`), Bundle (`BundleEvaluator`).
--   Examples        runs on concrete input.
--
-- How the code is read. A C++ exception is a value of `Except`, its class kept and its message
-- dropped; what an object holds after a method of it has thrown is not modelled. Unsigned integers
-- are numbers with the wrap-around written out. Signed integers are unbounded: sums and products of
-- signed values are taken to fit 64 bits, and so are the ticks of a service that the planner casts to
-- a signed type. The sum of `uniform` may overflow on a range of more than 2 ^ 63 values that is not
-- the whole type: no property is stated of such a range. `std::sort` is insertion sort, and `std::lower_bound` and
-- `std::binary_search` are scans of a list in order. Protobuf's serializer, its parser, the size of
-- a serialized envelope and the bytes of a serialized message are parameters, and so is the search
-- for a route that the allocation choices call, which is taken not to throw: it does so only on a
-- negative energy cost, which the loader of scenarios refuses.
--
-- The simulator. Its vehicles, tasks and views are lists; a reference into one of them that the source
-- keeps while it writes is the element, put back under its name or its index. A `std::map` of commits or
-- detections by name is the list of its values in the order of the names. The simulator calls the route
-- search and the serializer by the record `Services`. An index that is out of range throws, where the
-- source would be undefined. An envelope is one of an action or one of an observation, each a type of
-- its own. Strings are lists of bytes, and `std::string`'s order is that of the bytes.
--
-- Loops. `uniform` rejects on fuel of 2 ^ 64, the number of states of the generator, which a draw
-- walks through; a reader of frames has as fuel the number of frames and one more; a component of the
-- network is walked on fuel of the number of vehicles and one more, and to run out is an exception of
-- its own. The other loops are recursion on the sequence that they run over.
--
-- Not modelled: the search for routes; the file reading of `load_scenario`; the event log; the agents'
-- allocation and autonomy; the programs; and the ROS 2 adapter.
pub mod Prelude
pub mod Core
pub mod Planning
pub mod Protocol
pub mod Examples
