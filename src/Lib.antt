-- ===== src/Lib.antt =====
-- waitprims: primitives for an agent that waits on several sources at once. A caller gives a
-- runner a registration set and a request; the runner binds one arm per registration through the
-- caller's observer, races the arms against a deadline and a cancel token, and returns one outcome
-- message. What an observer dequeued and the outcome does not carry is meant to go back to it.
--
-- The parts, and the files of this library that model them:
--   Prelude     what Rust's std gives: tests, lists, BTreeMap as a sorted association list.
--   Core        crates/waitprims-core: refs.rs (Core/Refs), error.rs (Core/Error), rfc3339.rs
--               (Core/Time: order, sums and differences; Core/Rfc3339: the parser; Core/Print: the
--               printer), types.rs (Core/Types, Core/Messages).
--   Observer    crates/waitprims-async/src/observer.rs, clock.rs and cancel.rs: what a caller
--               implements, as a record of effects over a state of the caller's; Observer/Hoare and
--               Observer/Both have the triples that the proofs about effects use.
--   Race        crates/waitprims-async/src/race.rs: one poll of the race of all arms.
--   Live        crates/waitprims-async/src/outcome.rs (Live/Outcome) and first_match.rs: the
--               decisions (Live/Decide) and run_first_match with its custody of what was dequeued
--               (Live/Runner). Live/Shape states what an outcome may look like.
--   Poll        crates/waitprims-async/src/poll_cycle.rs: CollectBudget (Poll/Budget), the rotation
--               of arms (Poll/Fairness), record_ready and its helpers (Poll/Visit), build and
--               apply_posture (Poll/Assemble), decide_kind (Poll/Kind), run_poll_cycle (Poll/Runner).
--   Follow      crates/waitprims-async/src/follow.rs: the ends of a held session and the checks of its
--               request (Follow), `SlotSet` with its polls and custody (Follow/Slots), and the turns and
--               the loop of run_follow (Follow/Runner).
--   Coalesce    crates/waitprims-async/src/coalesce.rs: the pending buffer (Coalesce) and the turns and
--               the loop of run_coalesce (Coalesce/Runner), over the slots of Follow.
--   Validate    crates/waitprims-core/src/validate.rs: outcome_normative, the rules on one outcome (Validate), and
--               coverage_cardinality, on the documents of one set (Validate/Coverage).
--   Tests       a small deployment on which the definitions run.
--
-- How the code is read. An async function is a function from the caller's state to a result and a
-- state. One `tokio::select!` is one call of a `Runtime`, which answers with the arm that completed
-- and with what the race held; a theorem quantifies over all runtimes, so over all observers and
-- schedules. Instants and durations are numbers of nanoseconds; a duration is split and cast to an
-- i64 of seconds and an i32 of nanoseconds as the code does. Counters of a budget are u64, with the
-- saturating and the wrapping sums that the code uses; `event_surface_bytes` is a sum of lengths in memory.
-- `run_loop` of each runner takes fuel, one unit for a round, and answers `none` when it is spent:
-- the rounds of the code end by the caller's clock, which is not part of the program. The loop of
-- `drain_ready` takes as many rounds as the budget has events left, and each round takes an event
-- or ends. In a held session the turn of a `select!` is the program's own code, so there the futures
-- of an arm are polled one by one, and what the runtime answers is whether a later arm completed; one
-- `select!` takes at most a given number of polls. `poll_available` makes 2n + 1 passes over n slots,
-- as an arm moves on at most twice. The sink is an effect that may fail. What a session keeps of its
-- own stands beside the caller's state; dropping a future has no effect of its own.
--
-- Parameters, as they are code of others: the observer, the clock, the cancel token and the executor
-- (`Runtime`), `checked_add` of the `time` crate with its differences and its parts in UTC
-- (`Calendar`), that crate's dates, times and offsets with what the parser uses of std (`Chrono`), and
-- the values of serde_json (`Json`). A theorem that needs more of them says so: `Timed`, that logical time does not go back; `Ledger` and
-- `Replay`, that `restore_ready` records what it is given; `Books`, what each call of the observer and
-- of the sink does to an account of the events given, put back and sunk.
--
-- Not modelled: the other rules of validate.rs, receipts.rs, canonical JSON and digests in
-- waitprims-core; the filesystem observer, the command line, the test kit and the release scripts.
pub mod Prelude
pub mod Core
pub mod Observer
pub mod Race
pub mod Live
pub mod Poll
pub mod Follow
pub mod Coalesce
pub mod Validate
pub mod Tests
