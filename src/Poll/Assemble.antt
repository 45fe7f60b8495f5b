-- ===== src/Poll/Assemble.antt =====
-- crates/waitprims-async/src/poll_cycle.rs: from the visits of a cycle to its outcome. None of it
-- touches anything outside.
pub mod Loaded
pub mod Cursors
use waitprims.Prelude.{
  ℕ, zero, suc, ◌+◌, Bool, true, false, not, ◌&&◌, ◌||◌, String, Option, none, some, List, [], ◌∷◌,
  ◌++◌, map, any, all, find, keep, sum, length, if◌then◌else◌, get_elem?, ◌==◌, string_eq, Map,
  lookup, insert, collect, values, ℕ_key, string_key, join,
}
use mathlib.Core.List.{get_last?}
use waitprims.Core.Refs.{IdToken}
use waitprims.Core.Error.{Error, Result, ok, err, validation, invalid, ◌>>=◌}
use waitprims.Core.Time.{Timestamp, ◌≥ᵗ◌, ◌>ᵗ◌, ◌<ᵗ◌}
use waitprims.Core.Types.{
  Anchor, ArmStatus, CoverageArm, OutcomeKind, Registration, WaitEvent, is_reject, is_required,
}
use waitprims.Core.Messages.{RegistrationSet, PollCycleRequest, PollCycleOutcome}
use waitprims.Live.Outcome.{ResolvedStart}
use waitprims.Live.Decide.{is_expired, is_missing, required_binding_complete}
use waitprims.Poll.Budget.{event_surface_bytes}
use waitprims.Poll.Fairness.{arm_id_for, fairness_order, next_fairness_cursor}
use waitprims.Poll.Visit.{ArmVisit, Visits, visit_events}

abbrev pub anchor_of : ResolvedStart → Anchor
anchor_of item = item.start

abbrev pub is_start_of : Registration → ResolvedStart → Bool
is_start_of registration item = item.registration_id == registration.registration_id

-- The cursor a registration is known to stand at: resolved, acknowledged, or its own.
abbrev pub first_known : Option ResolvedStart → Option Anchor → Option Anchor → Option Anchor
first_known (some item) acked own = some item.start
first_known none (some ack) own = some ack
first_known none none own = own

unfoldable pub honest_start : List ResolvedStart → PollCycleRequest → Registration → Option Anchor
honest_start resolved request registration =
    first_known (find (is_start_of registration) resolved)
      (lookup registration.registration_id request.acknowledged_anchors) registration.start_anchor

pub record Status : Type 0 where
  pub status : ArmStatus
  pub degraded : Bool
  pub reason : Option String
  pub events : List WaitEvent

abbrev plain : ArmStatus → Option String → List WaitEvent → Status
plain status reason events = record {
  status = status;
  degraded = false;
  reason = reason;
  events = events;
}

unfoldable pub visit_status : Option ArmVisit → Status
visit_status none = plain ArmStatus.deferred none []
visit_status (some (ArmVisit.events es)) = plain ArmStatus.events none es
visit_status (some (ArmVisit.saturated es)) = plain ArmStatus.events (some "bound_exhausted") es
visit_status (some ArmVisit.idle) = plain ArmStatus.no_change none []
visit_status (some ArmVisit.overflow) = plain ArmStatus.observed (some "buffer_overflow") []
visit_status (some (ArmVisit.failed reason)) = plain ArmStatus.observed (some reason) []
visit_status (some (ArmVisit.outage reason)) = plain ArmStatus.outage (some reason) []
visit_status (some (ArmVisit.cursor_uncertain reason)) =
    plain ArmStatus.cursor_uncertain (some reason) []
visit_status (some (ArmVisit.degraded reason)) = record {
  status = ArmStatus.observed;
  degraded = true;
  reason = some reason;
  events = [];
}
visit_status (some ArmVisit.deferred) = plain ArmStatus.deferred none []

abbrev pub carries_events : OutcomeKind → Bool
carries_events OutcomeKind.events = true
carries_events OutcomeKind.partial = true
carries_events _ = false

abbrev pub is_events_status : ArmStatus → Bool
is_events_status ArmStatus.events = true
is_events_status _ = false

abbrev pub is_dirty_status : ArmStatus → Bool
is_dirty_status ArmStatus.outage = true
is_dirty_status ArmStatus.cursor_uncertain = true
is_dirty_status _ = false

abbrev pub is_empty : {A : Type 0} → List A → Bool
is_empty [] = true
is_empty (x ∷ xs) = false

abbrev pub proposed_or : Option WaitEvent → Anchor → Anchor
proposed_or none start = start
proposed_or (some event) start = event.proposed_next_anchor

abbrev arm_reason : Option String → Bool → Option IdToken
arm_reason (some code) dirty = some code
arm_reason none true = some "arm_dirty"
arm_reason none false = none

-- What the loop of `build` gathers, in registration order.
pub record Parts : Type 0 where
  pub events : List WaitEvent
  pub arms : List CoverageArm
  pub retained_through : Map String Anchor
  pub retained_events : Map String (List IdToken)
  pub proposed_next_anchors : Map String Anchor

abbrev pub no_parts : Parts
no_parts = record {
  events = [];
  arms = [];
  retained_through = [];
  retained_events = [];
  proposed_next_anchors = [];
}

abbrev ids_of : List WaitEvent → List IdToken
ids_of = map (λ (e : WaitEvent). e.event_id)

abbrev retains : OutcomeKind → Status → Bool
retains kind s = carries_events kind && is_events_status s.status && not (is_empty s.events)

unfoldable pub arm_of : Registration → IdToken → Anchor → Status → CoverageArm
arm_of registration arm_id start s = record {
  arm_id = arm_id;
  registration_id = registration.registration_id;
  required = registration.required;
  status = s.status;
  degraded = s.degraded;
  start_anchor = start;
  proposed_next_anchor = proposed_or (get_last? s.events) start;
  event_count = length s.events;
  byte_count = sum (map event_surface_bytes s.events);
  reason_code = arm_reason s.reason (s.degraded || is_dirty_status s.status);
}

-- One registration with a known start.
unfoldable pub add_arm : OutcomeKind → Registration → IdToken → Anchor → Status → Parts → Parts
unfolding arm_of
add_arm kind registration arm_id start s parts =
    let rid = registration.registration_id in
    let proposed = proposed_or (get_last? s.events) start in
    record {
      events = if carries_events kind then parts.events ++ s.events else parts.events;
      arms = parts.arms ++ arm_of registration arm_id start s ∷ [];
      retained_through =
          insert rid (if retains kind s then proposed else start) parts.retained_through;
      retained_events =
          insert rid (if retains kind s then ids_of s.events else []) parts.retained_events;
      proposed_next_anchors = insert rid proposed parts.proposed_next_anchors;
    }

module _ (set : RegistrationSet) (request : PollCycleRequest) where
  abbrev add_known : OutcomeKind → Registration → IdToken → Option Anchor → Status → Parts → Parts
  add_known kind registration arm_id none s parts = parts
  add_known kind registration arm_id (some start) s parts =
      add_arm kind registration arm_id start s parts

  -- The loop of `build`, from the index idx on.
  unfoldable pub build_arms :
      OutcomeKind → List ResolvedStart → Visits → ℕ → ℕ → List Registration → Parts → Parts
  build_arms kind resolved visits idx required_index [] parts = parts
  build_arms kind resolved visits idx required_index (registration ∷ rest) parts =
      let (arm_id, seen) = arm_id_for request registration required_index in
      let start = honest_start resolved request registration in
      let s = visit_status (lookup idx visits) in
      build_arms kind resolved visits (suc idx) seen rest
        (add_known kind registration arm_id start s parts)

  abbrev pub without_events : CoverageArm → CoverageArm
  without_events arm =
      if is_events_status arm.status
      then record arm { status = ArmStatus.no_change; event_count = 0; byte_count = 0 }
      else arm

  abbrev no_ids : CoverageArm → String × List IdToken
  no_ids arm = (arm.registration_id, [])

  -- empty_event_map, empty_event_map_from_arms
  unfoldable pub empty_event_map : List CoverageArm → Map String (List IdToken)
  empty_event_map arms = collect [] (map no_ids arms)

  -- A refusal carries no events.
  unfoldable pub cleared : OutcomeKind → Parts → Parts
  unfolding empty_event_map
  cleared kind parts =
      if is_reject kind
      then record parts {
        events = [];
        arms = map without_events parts.arms;
        retained_events = empty_event_map (map without_events parts.arms);
      }
      else parts

  abbrev is_unfinished : OutcomeKind → Bool
  is_unfinished OutcomeKind.partial = true
  is_unfinished OutcomeKind.coverage_degraded = true
  is_unfinished kind = is_reject kind

  abbrev covers : IdToken → CoverageArm → Bool
  covers required arm =
      arm.arm_id == required && not arm.degraded && not (is_dirty_status arm.status)

  abbrev covered : List CoverageArm → IdToken → Bool
  covered arms required = any (covers required) arms

  unfoldable pub coverage_is_complete : List CoverageArm → OutcomeKind → Bool
  coverage_is_complete arms kind =
      if is_unfinished kind then false else all (covered arms) request.required_arms

  unfoldable pub outcome_of : Timestamp → OutcomeKind → Option String → Parts → PollCycleOutcome
  outcome_of completed_at kind reason_code parts = record {
    capabilities = request.capabilities;
    message_id = join request.message_id ":outcome";
    correlation_id = request.correlation_id;
    created_at = completed_at;
    actor_ref = request.actor_ref;
    causation_id = some request.message_id;
    grant_ref = request.grant_ref;
    verification_receipt_ref = request.verification_receipt_ref;
    policy_decision_ref = request.policy_decision_ref;
    waiter_id = request.waiter_id;
    request_ref = request.message_id;
    completed_at = completed_at;
    logical_deadline = request.logical_deadline;
    outcome_kind = kind;
    events = parts.events;
    coverage_complete = coverage_is_complete parts.arms kind;
    arms = parts.arms;
    retained_through = parts.retained_through;
    retained_events = parts.retained_events;
    proposed_next_anchors = parts.proposed_next_anchors;
    fairness_cursor = request.fairness_cursor;
    next_fairness_cursor = next_fairness_cursor set request;
    acknowledged_anchors =
        if is_empty request.acknowledged_anchors then none else some request.acknowledged_anchors;
    bound = request.bound;
    reason_code = reason_code;
  }

  unfoldable pub build :
      Timestamp
      → List ResolvedStart
      → Visits
      → OutcomeKind
      → Option String
      → Result PollCycleOutcome
  unfolding build_arms cleared outcome_of
  build completed_at resolved visits kind reason_code =
      let parts = build_arms kind resolved visits 0 0 set.registrations no_parts in
      if is_empty parts.arms
      then err (validation (invalid "/arms" "unresolved_start"))
      else ok (outcome_of completed_at kind reason_code (cleared kind parts))

  unfoldable pub rebuild_reason : PollCycleOutcome → OutcomeKind → String → PollCycleOutcome
  unfolding empty_event_map
  rebuild_reason outcome kind reason = record outcome {
    outcome_kind = kind;
    reason_code = some reason;
    events = [];
    coverage_complete = false;
    arms = map without_events outcome.arms;
    retained_events = empty_event_map (map without_events outcome.arms);
  }

  unfoldable pub apply_posture : PollCycleOutcome → PollCycleOutcome
  unfolding rebuild_reason
  apply_posture outcome =
      if is_reject outcome.outcome_kind
      then outcome
      else if any (is_expired outcome.completed_at) set.registrations
      then rebuild_reason outcome OutcomeKind.reauthentication_required "lease_expired"
      else if is_required set.authn_mode && is_missing request.verification_receipt_ref
      then rebuild_reason outcome OutcomeKind.refused "authn_required"
      else outcome
