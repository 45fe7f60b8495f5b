-- ===== src/Tests/Cycle.antt =====
-- Poll cycles on the deployment of Tests.Data.
use waitprims.Prelude.{
  ap, sym, ◌-◌, ◌++◌, range_from, ℕ, zero, suc, ◌≤◌, ◌≡◌, refl, Bool, true, false, String, none,
  some, [], ◌∷◌, All, arith, lookup, insert, remove, collect, string_eq, ◌≢◌,
}
use waitprims.Core.Error.{Result, ok}
use waitprims.Core.Types.{ArmStatus, CoverageArm, OutcomeKind}
use waitprims.Core.Messages.{PollCycleOutcome}
use waitprims.Observer.{Observation, ◌>>=◌}
use waitprims.Race.{Poll, Arm, poll}
use waitprims.Race.Laws.{HoldsNone, poll-HoldsNone}
use waitprims.Poll.Budget.Gauge.{InEvents, events_gauge, gauge}
use waitprims.Poll.Visit.Charged.{Measured, total}
use waitprims.Poll.Visit.Measured.{record_ready-Measured}
use waitprims.Poll.Assemble.Cursors.{IsHonest, build-IsHonest}
use waitprims.Poll.Kind.Shown.{OfAll, Sound, Shows, decide_kind-Shows}
use waitprims.Poll.Kind.Withheld.{assemble_withholds}
use waitprims.Poll.Runner.Limits.{run_poll_cycle-InLimits, run_poll_cycle-InRegistration}
use waitprims.Poll.Assemble.{
  add_arm, apply_posture, arm_of, build, build_arms, cleared, coverage_is_complete, empty_event_map,
  honest_start, visit_status,
}
use waitprims.Poll.Budget.{
  CollectBudget, new, event_surface_bytes, charge, exhausted, room_for_another_event,
  room_for_registration, try_take,
}
use waitprims.Poll.Fairness.{
  arm_id_at, arm_id_for, cursor_index, derived_arm_id, fairness_start_index, fairness_order,
  next_fairness_cursor,
}
use waitprims.Poll.Kind.{
  assemble, decide_kind, deadline_reached, earliest_deadline, kind_of, note, scan,
}
use waitprims.Poll.Runner.{
  run_poll_cycle, iteration, bind_one, bind_registration, merge_starts, resolve, place,
  pending_refs, occupied_refs, remap_ready, extend_ready,
}
use waitprims.Poll.Visit.{
  ArmVisit, Visits, record_ready, defer_ready, drain_loop, drain_ready, restore_observation,
  restore_owned_observations, visit_from, restore_admitted, emit,
}
use waitprims.Live.Decide.{required_binding_complete}
use waitprims.Poll.Fairness.Start.{Starts, fairness_order-Starts}
use waitprims.Poll.Visit.Rounds.{drain_loop-enough}
use waitprims.Poll.Visit.Replayed.{Replay, replayed, emit-replayed}
use waitprims.Tests.Data.{
  World, set, poll_request, cycle_runtime, world, at_time, anchor, both_ready, event_a, event_b,
  registration,
}

abbrev arm : String → String → String → CoverageArm
arm arm_id registration_id next = record {
  arm_id = arm_id;
  registration_id = registration_id;
  required = true;
  status = ArmStatus.events;
  degraded = false;
  start_anchor = anchor "start";
  proposed_next_anchor = anchor next;
  event_count = 1;
  byte_count = 13;
  reason_code = none;
}

abbrev outcome : ℕ → PollCycleOutcome
outcome completed = record {
  capabilities = [];
  message_id = "request:outcome";
  correlation_id = "corr";
  created_at = at_time completed;
  actor_ref = "actor";
  causation_id = some "request";
  grant_ref = none;
  verification_receipt_ref = some "receipt";
  policy_decision_ref = none;
  waiter_id = "waiter";
  request_ref = "request";
  completed_at = at_time completed;
  logical_deadline = at_time 100;
  outcome_kind = OutcomeKind.events;
  events = event_a ∷ event_b ∷ [];
  coverage_complete = true;
  arms = arm "arm:a" "reg:a" "a" ∷ arm "arm:b" "reg:b" "b" ∷ [];
  retained_through = ("reg:a", anchor "a") ∷ ("reg:b", anchor "b") ∷ [];
  retained_events = ("reg:a", "a" ∷ []) ∷ ("reg:b", "b" ∷ []) ∷ [];
  proposed_next_anchors = ("reg:a", anchor "a") ∷ ("reg:b", anchor "b") ∷ [];
  fairness_cursor = "fair:arm:b";
  next_fairness_cursor = "fair:arm:a";
  acknowledged_anchors = none;
  bound = none;
  reason_code = none;
}

-- What the emitted cycle put back: its events, for a replay before the acknowledgement.
abbrev after_cycle : World
after_cycle = record {
  time = 4;
  back = (1, Observation.event event_b) ∷ (0, Observation.event event_a) ∷ [];
}

cycle_runs :
    run_poll_cycle cycle_runtime set poll_request 3 (world 1) ≡ (ok (some (outcome 3)), after_cycle)
unfolding add_arm apply_posture arm_of build build_arms cleared coverage_is_complete empty_event_map
    honest_start visit_status new event_surface_bytes charge exhausted room_for_another_event
    room_for_registration try_take arm_id_at arm_id_for cursor_index derived_arm_id
    fairness_start_index fairness_order next_fairness_cursor assemble decide_kind deadline_reached
    earliest_deadline kind_of note scan run_poll_cycle iteration bind_one bind_registration
    merge_starts resolve place pending_refs occupied_refs remap_ready extend_ready record_ready
    defer_ready drain_loop drain_ready restore_observation restore_owned_observations visit_from
    restore_admitted emit required_binding_complete lookup insert remove collect ◌>>=◌
cycle_runs = refl

run_poll_cycle-InLimits_example : (2 ≤ 3) × (26 ≤ 2000)
unfolding event_surface_bytes
run_poll_cycle-InLimits_example =
    run_poll_cycle-InLimits cycle_runtime set poll_request 3 (world 1) (outcome 3) after_cycle
      (omega arith) (omega arith) cycle_runs

clash : false ≡ true → ⊥
clash h = cc

b_not_a : ◌≢◌ {A = String} "reg:b" "reg:a"
b_not_a e = clash ((string_eq.decides "reg:b" "reg:a").1 e)

run_poll_cycle-InRegistration_example : 1 ≤ 2
run_poll_cycle-InRegistration_example =
    run_poll_cycle-InRegistration cycle_runtime set poll_request [] (registration "reg:a")
      (registration "reg:b" ∷ []) 3 (world 1) (outcome 3) after_cycle refl (b_not_a, tt)
      (omega arith) cycle_runs

abbrev taken : CollectBudget
taken = charge (charge (new set poll_request) event_b) event_a

abbrev both_visits : Visits
both_visits = (0, ArmVisit.events (event_a ∷ [])) ∷ (1, ArmVisit.events (event_b ∷ [])) ∷ []

fresh : Measured (events_gauge 3) (new set poll_request) 0
unfolding new events_gauge gauge
fresh = record {
  limits = record { same = refl; limit = omega arith; within = omega arith };
  charged = refl;
}

round_runs :
    record_ready cycle_runtime.observer set poll_request
      (some 0 ∷ some 1 ∷ [])
      (new set poll_request)
      []
      both_ready
      (world 1)
    ≡ (ok (taken, both_visits), world 1)
unfolding record_ready new charge exhausted room_for_another_event room_for_registration try_take
    fairness_order fairness_start_index cursor_index arm_id_for derived_arm_id drain_loop
    drain_ready visit_from restore_observation event_surface_bytes lookup insert remove collect
    ◌>>=◌
round_runs = refl

record_ready-Measured_example : Measured (events_gauge 3) taken (total (events_gauge 3) both_visits)
record_ready-Measured_example =
    record_ready-Measured cycle_runtime.observer (events_gauge 3) set poll_request
      (some 0 ∷ some 1 ∷ []) (new set poll_request) [] both_ready (world 1) taken both_visits
      (world 1) fresh round_runs

abbrev decided : PollCycleOutcome
decided = record (outcome 3) { completed_at = at_time 3 }

decides : decide_kind set poll_request (at_time 3) [] both_visits ≡ ok decided
unfolding decide_kind kind_of note scan build add_arm arm_of build_arms cleared coverage_is_complete
    empty_event_map honest_start visit_status next_fairness_cursor arm_id_at arm_id_for
    fairness_start_index fairness_order cursor_index derived_arm_id event_surface_bytes lookup
    insert collect
decides = refl

decide_kind-Shows_example :
    OfAll set poll_request both_visits Sound
    × Shows set poll_request both_visits (at_time 3) OutcomeKind.events
decide_kind-Shows_example =
    decide_kind-Shows set poll_request both_visits (at_time 3) [] decided decides refl

abbrev withheld : String → String → String → CoverageArm
withheld arm_id registration_id next = record {
  arm_id = arm_id;
  registration_id = registration_id;
  required = true;
  status = ArmStatus.no_change;
  degraded = false;
  start_anchor = anchor "start";
  proposed_next_anchor = anchor next;
  event_count = 0;
  byte_count = 0;
  reason_code = none;
}

abbrev cancelled_outcome : PollCycleOutcome
cancelled_outcome = record (outcome 3) {
  outcome_kind = OutcomeKind.cancelled;
  events = [];
  coverage_complete = false;
  arms = withheld "arm:a" "reg:a" "a" ∷ withheld "arm:b" "reg:b" "b" ∷ [];
  retained_through = ("reg:a", anchor "start") ∷ ("reg:b", anchor "start") ∷ [];
  retained_events = ("reg:a", []) ∷ ("reg:b", []) ∷ [];
  reason_code = some "consumer_cancelled";
}

cancel_builds :
    build set poll_request
      (at_time 3)
      []
      both_visits
      OutcomeKind.cancelled
      (some "consumer_cancelled")
    ≡ ok cancelled_outcome
unfolding build add_arm arm_of build_arms cleared coverage_is_complete empty_event_map honest_start
    visit_status next_fairness_cursor arm_id_at arm_id_for fairness_start_index cursor_index
    derived_arm_id event_surface_bytes lookup insert collect
cancel_builds = refl

build-IsHonest_example :
    All (IsHonest set poll_request []) (("reg:a", anchor "start") ∷ ("reg:b", anchor "start") ∷ [])
build-IsHonest_example =
    build-IsHonest set poll_request [] (at_time 3) both_visits OutcomeKind.cancelled
      (some "consumer_cancelled") cancelled_outcome refl cancel_builds

starts : honest_start [] poll_request (registration "reg:a") ≡ some (anchor "start")
unfolding honest_start lookup
starts = refl

assemble_withholds_example :
    (o : PollCycleOutcome) × (assemble
        (record set { registrations = registration "reg:a" ∷ [] })
        poll_request
        (at_time 30)
        []
        ((0, ArmVisit.events (event_a ∷ [])) ∷ [])
      ≡ ok o)
    × (o.outcome_kind ≡ OutcomeKind.reauthentication_required)
    × (o.events ≡ [])
    × (o.retained_through ≡ ("reg:a", anchor "a") ∷ [])
assemble_withholds_example =
    assemble_withholds set poll_request (at_time 30) [] (registration "reg:a") event_a
      (anchor "start") starts refl

-- Two futures: the first is done with no terminal value, the second waits.
abbrev poll_arm : ℕ → ℕ → Poll (Result Bool) × ℕ
poll_arm zero w = (Poll.ready (ok false), suc w)
poll_arm (suc i) w = (Poll.pending, suc w)

waits : (poll (λ b. b) poll_arm (Arm.pending ∷ Arm.pending ∷ []) 0).0.0 ≡ Poll.pending
unfolding poll
waits = refl

poll-HoldsNone_example :
    All
      (HoldsNone (λ b. b) poll_arm)
      (poll (λ b. b) poll_arm (Arm.pending ∷ Arm.pending ∷ []) 0).0.1
poll-HoldsNone_example = poll-HoldsNone (λ b. b) poll_arm (Arm.pending ∷ Arm.pending ∷ []) 0 waits

fairness_order-Starts_example :
    (s : ℕ) × (Starts set poll_request s
      × (fairness_order set poll_request ≡ range_from s (2 - s) ++ range_from 0 s))
fairness_order-Starts_example = fairness_order-Starts set poll_request

new-InEvents : InEvents 3 (new set poll_request)
unfolding new
new-InEvents = record { same = refl; limit = omega arith; within = omega arith }

new_left : (new set poll_request).max_events - (new set poll_request).events ≡ 3
unfolding new
new_left = refl

drain_loop-enough_example :
    drain_loop cycle_runtime.observer 10 0 (new set poll_request) [] (world 1)
    ≡ drain_loop cycle_runtime.observer 3 0 (new set poll_request) [] (world 1)
drain_loop-enough_example =
    drain_loop-enough cycle_runtime.observer 3 0 10 3 (new set poll_request) [] (world 1)
      new-InEvents (omega (arith, new_left)) (omega arith)

abbrev replay : Replay cycle_runtime.observer
replay = record { held = λ w. w.back; put = λ b obs w w' e. sym (ap (λ r. r.1.back) e) }

-- One arm admitted two events.
abbrev two_of_one : Visits
two_of_one = (0, ArmVisit.saturated (event_a ∷ event_b ∷ [])) ∷ []

abbrev both_back : World
both_back = record {
  time = 1;
  back = (0, Observation.event event_a) ∷ (0, Observation.event event_b) ∷ [];
}

emits :
    emit cycle_runtime.observer (some 0 ∷ some 1 ∷ []) two_of_one (ok (outcome 3)) (world 1)
    ≡ (ok (outcome 3), both_back)
unfolding emit restore_admitted ◌>>=◌
emits = refl

emit-replayed_example :
    (ok (outcome 3) ≡ ok (outcome 3))
    × (both_back.back ≡ replayed (some 0 ∷ some 1 ∷ []) two_of_one [])
emit-replayed_example =
    emit-replayed cycle_runtime.observer replay (some 0 ∷ some 1 ∷ []) two_of_one (ok (outcome 3))
      (world 1) (outcome 3) both_back emits
