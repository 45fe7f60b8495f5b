-- ===== src/Live/Outcome.antt =====
-- crates/waitprims-async/src/outcome.rs: the outcomes that a first-match decision builds.
use waitprims.Prelude.{
  ℕ, Bool, true, false, String, Option, none, some, List, [], ◌∷◌, map, join, ◌==◌, string_eq,
  if◌then◌else◌, filter_map, collect, lookup, Map, string_key,
}
use waitprims.Core.Refs.{IdToken}
use waitprims.Core.Time.{Timestamp}
use waitprims.Core.Types.{Anchor, ArmStatus, CoverageArm, OutcomeKind, Registration, WaitEvent}
use waitprims.Core.Messages.{RegistrationSet, LiveWaitRequest, LiveWaitOutcome}

pub record ResolvedStart : Type 0 where
  pub registration_id : IdToken
  pub start : Anchor

unfoldable pub arm_id : Registration → IdToken
arm_id registration = join "arm:" registration.registration_id

abbrev pub start_of : Option WaitEvent → Option Anchor → Option Anchor
start_of (some ev) resolved_start = some ev.start_anchor
start_of none resolved_start = resolved_start

abbrev pub next_of : Option WaitEvent → Anchor → Anchor
next_of (some ev) start = ev.proposed_next_anchor
next_of none start = start

abbrev pub count_of : Option WaitEvent → ℕ
count_of (some ev) = 1
count_of none = 0

unfoldable pub coverage_arm :
    Registration → ArmStatus → Option WaitEvent → Option Anchor → Option CoverageArm
coverage_arm registration status event resolved_start = elim (start_of event resolved_start) [
  | none ↦ none
  | some start ↦ some (record {
    arm_id = arm_id registration;
    registration_id = registration.registration_id;
    required = registration.required;
    status = status;
    degraded = false;
    start_anchor = start;
    proposed_next_anchor = next_of event start;
    event_count = count_of event;
    byte_count = 0;
    reason_code = none;
  })
]

unfoldable pub base : LiveWaitRequest → Timestamp → OutcomeKind → LiveWaitOutcome
base request completed_at kind = record {
  capabilities = request.capabilities;
  message_id = join request.message_id ":outcome";
  correlation_id = request.correlation_id;
  created_at = completed_at;
  actor_ref = request.actor_ref;
  causation_id = some request.message_id;
  grant_ref = request.grant_ref;
  verification_receipt_ref = request.verification_receipt_ref;
  policy_decision_ref = request.policy_decision_ref;
  waiter_id = request.waiter_id;
  request_ref = request.message_id;
  completed_at = completed_at;
  outcome_kind = kind;
  logical_deadline = none;
  events = none;
  proposed_next_anchor = none;
  coverage_complete = none;
  arms = none;
  reason_code = none;
}

abbrev entry_of : ResolvedStart → IdToken × Anchor
entry_of item = (item.registration_id, item.start)

unfoldable pub start_map : List ResolvedStart → Map String Anchor
start_map resolved = collect [] (map entry_of resolved)

unfoldable pub clean_arms : RegistrationSet → List ResolvedStart → List CoverageArm
clean_arms set resolved =
    filter_map
      (λ (reg : Registration).
        coverage_arm reg ArmStatus.no_change none (lookup reg.registration_id (start_map resolved)))
      set.registrations

unfoldable pub events : LiveWaitRequest → Timestamp → WaitEvent → LiveWaitOutcome
unfolding base
events request completed_at event = record (base request completed_at OutcomeKind.events) {
  events = some (event ∷ []);
  proposed_next_anchor = some event.proposed_next_anchor;
}

abbrev is_winner : Option WaitEvent → Registration → Bool
is_winner none reg = false
is_winner (some ev) reg = ev.registration_id == reg.registration_id

abbrev singleton : Option WaitEvent → List WaitEvent
singleton none = []
singleton (some ev) = ev ∷ []

abbrev proposal : Option WaitEvent → Option Anchor
proposal none = none
proposal (some ev) = some ev.proposed_next_anchor

partial_arm : Option WaitEvent → Map String Anchor → Registration → Option CoverageArm
partial_arm event starts reg =
    if is_winner event reg
    then coverage_arm reg ArmStatus.events event (lookup reg.registration_id starts)
    else coverage_arm reg ArmStatus.deferred none (lookup reg.registration_id starts)

unfoldable pub partial :
    RegistrationSet
    → LiveWaitRequest
    → Timestamp
    → Option WaitEvent
    → List ResolvedStart
    → LiveWaitOutcome
unfolding base partial_arm
partial set request completed_at event resolved =
    record (base request completed_at OutcomeKind.partial) {
      events = some (singleton event);
      proposed_next_anchor = proposal event;
      coverage_complete = some false;
      arms = some (filter_map (partial_arm event (start_map resolved)) set.registrations);
    }

unfoldable pub logical_deadman :
    RegistrationSet → LiveWaitRequest → Timestamp → List ResolvedStart → LiveWaitOutcome
unfolding base
logical_deadman set request completed_at resolved =
    record (base request completed_at OutcomeKind.logical_deadman) {
      events = some [];
      logical_deadline = some request.logical_deadline;
      coverage_complete = some true;
      arms = some (clean_arms set resolved);
    }

unfoldable pub no_change :
    RegistrationSet → LiveWaitRequest → Timestamp → List ResolvedStart → LiveWaitOutcome
unfolding base
no_change set request completed_at resolved =
    record (base request completed_at OutcomeKind.no_change) {
      events = some [];
      logical_deadline = some request.logical_deadline;
      coverage_complete = some true;
      arms = some (clean_arms set resolved);
    }

-- An outcome with a reason and no events.
unfoldable pub with_reason : LiveWaitRequest → Timestamp → OutcomeKind → String → LiveWaitOutcome
unfolding base
with_reason request completed_at kind reason = record (base request completed_at kind) {
  reason_code = some reason;
  events = some [];
}

unfoldable pub cancelled : LiveWaitRequest → Timestamp → LiveWaitOutcome
unfolding with_reason
cancelled request completed_at =
    with_reason request completed_at OutcomeKind.cancelled "consumer_cancelled"

unfoldable pub failed : LiveWaitRequest → Timestamp → String → LiveWaitOutcome
unfolding with_reason
failed request completed_at reason = with_reason request completed_at OutcomeKind.failed reason

unfoldable pub refused : LiveWaitRequest → Timestamp → String → LiveWaitOutcome
unfolding with_reason
refused request completed_at reason = with_reason request completed_at OutcomeKind.refused reason

unfoldable pub reauthentication_required : LiveWaitRequest → Timestamp → String → LiveWaitOutcome
unfolding with_reason
reauthentication_required request completed_at reason =
    with_reason request completed_at OutcomeKind.reauthentication_required reason
