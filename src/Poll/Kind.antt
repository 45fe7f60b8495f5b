-- ===== src/Poll/Kind.antt =====
-- crates/waitprims-async/src/poll_cycle.rs: which kind of outcome the visits of a cycle make.
pub mod Loaded
pub mod Clean
pub mod Shown
pub mod Withheld
use waitprims.Prelude.{
  ℕ, Bool, true, false, not, ◌&&◌, ◌||◌, String, Option, none, some, List, [], ◌∷◌, ◌++◌, map, any,
  if◌then◌else◌, get_elem?, ◌==◌, string_eq, Map, lookup, insert, values, ℕ_key,
}
use waitprims.Core.Error.{Error, Result, ok, err, ◌>>=◌}
use waitprims.Core.Time.{Timestamp, ◌≥ᵗ◌, ◌<ᵗ◌}
use waitprims.Core.Types.{OutcomeKind, Registration, WaitEvent}
use waitprims.Core.Messages.{RegistrationSet, PollCycleRequest, PollCycleOutcome}
use waitprims.Live.Outcome.{ResolvedStart}
use waitprims.Live.Decide.{required_binding_complete}
use waitprims.Poll.Fairness.{fairness_order}
use waitprims.Poll.Visit.{ArmVisit, Visits, visit_events}
use waitprims.Poll.Assemble.{is_empty, build, apply_posture}

-- What decide_kind gathers, in fairness order: the last failure reason stays.
pub record Findings : Type 0 where
  pub events : List WaitEvent
  pub overflow : Bool
  pub truncated : Bool
  pub failed : Option String
  pub dirty : Bool
  pub deferred_required : Bool

abbrev pub no_findings : Findings
no_findings = record {
  events = [];
  overflow = false;
  truncated = false;
  failed = none;
  dirty = false;
  deferred_required = false;
}

-- set.registrations[idx]: the fairness order holds no index out of range.
abbrev pub is_required_at : Option Registration → Bool
is_required_at none = false
is_required_at (some registration) = registration.required

unfoldable pub note : Bool → Option ArmVisit → Findings → Findings
note required none f = f
note required (some (ArmVisit.events found)) f = record f { events = f.events ++ found }
note required (some (ArmVisit.saturated found)) f = record f {
  events = f.events ++ found;
  truncated = true;
}
note required (some ArmVisit.idle) f = f
note required (some ArmVisit.overflow) f = record f { overflow = true }
note required (some (ArmVisit.failed reason)) f = record f { failed = some reason }
note required (some (ArmVisit.outage reason)) f = record f { dirty = f.dirty || required }
note required (some (ArmVisit.cursor_uncertain reason)) f = record f { dirty = f.dirty || required }
note required (some (ArmVisit.degraded reason)) f = record f { dirty = f.dirty || required }
note required (some ArmVisit.deferred) f = record f {
  deferred_required = f.deferred_required || required;
}

unfoldable pub scan : List Registration → Visits → List ℕ → Findings → Findings
scan registrations visits [] f = f
scan registrations visits (idx ∷ order) f =
    scan registrations visits order
      (note (is_required_at (get_elem? registrations idx)) (lookup idx visits) f)

-- The ladder of decide_kind: the kind, and the reason for a failure.
unfoldable pub kind_of : Bool → Findings → OutcomeKind × Option String
kind_of at_logical f =
    if f.overflow && is_empty f.events
    then (OutcomeKind.failed, some "buffer_overflow")
    else if f.overflow
    then (OutcomeKind.partial, none)
    else if f.dirty
    then (OutcomeKind.coverage_degraded, none)
    else elim f.failed [
      | some reason ↦
          if is_empty f.events
          then (OutcomeKind.failed, some reason)
          else (OutcomeKind.coverage_degraded, none)
      | none ↦
          if not (is_empty f.events)
          then (if f.deferred_required || f.truncated
              then (OutcomeKind.partial, none)
              else (OutcomeKind.events, none))
          else if f.truncated
          then (OutcomeKind.partial, none)
          else if f.deferred_required && not at_logical
          then (OutcomeKind.partial, none)
          else if at_logical
          then (OutcomeKind.logical_deadman, none)
          else (OutcomeKind.no_change, none)
    ]

module _ (set : RegistrationSet) (request : PollCycleRequest) where
  abbrev pub findings : Visits → Findings
  findings visits = scan set.registrations visits (fairness_order set request) no_findings

  unfoldable pub decide_kind : Timestamp → List ResolvedStart → Visits → Result PollCycleOutcome
  decide_kind now resolved visits =
      let (kind, reason) = kind_of (now ≥ᵗ request.logical_deadline) (findings visits) in
      build set request now resolved visits kind reason

  unfoldable pub assemble : Timestamp → List ResolvedStart → Visits → Result PollCycleOutcome
  unfolding decide_kind
  assemble now resolved visits = do
    outcome ← decide_kind now resolved visits
    ok (apply_posture set request outcome)

  abbrev forced_kind : String → OutcomeKind
  forced_kind reason =
      if reason == "consumer_cancelled" then OutcomeKind.cancelled else OutcomeKind.failed

  -- finish, with a reason that forces the kind, or with none.
  unfoldable pub finish :
      Timestamp → List ResolvedStart → Visits → Option String → Result PollCycleOutcome
  unfolding assemble
  finish now resolved visits none = assemble now resolved visits
  finish now resolved visits (some reason) = do
    outcome ← build set request now resolved visits (forced_kind reason) (some reason)
    ok (apply_posture set request outcome)

  unfoldable pub deadline_reached : Timestamp → Bool
  deadline_reached now = now ≥ᵗ request.logical_deadline || now ≥ᵗ request.run_deadline

  unfoldable pub earliest_deadline : Timestamp
  earliest_deadline =
      if request.run_deadline <ᵗ request.logical_deadline
      then request.run_deadline
      else request.logical_deadline

  -- entry(idx).or_insert(filler), for each index.
  unfoldable pub fill : ArmVisit → List ℕ → Visits → Visits
  fill filler [] visits = visits
  fill filler (idx ∷ order) visits = elim (lookup idx visits) [
    | none ↦ fill filler order (insert idx filler visits)
    | some visit ↦ fill filler order visits
  ]

  abbrev pub saw_events : Visits → Bool
  saw_events visits = any (λ v. not (is_empty (visit_events v))) (values visits)

  unfoldable pub decide_at_deadline :
      Timestamp → List ResolvedStart → Visits → Result PollCycleOutcome
  unfolding finish assemble fill
  decide_at_deadline now resolved visits =
      if not (required_binding_complete set resolved)
      then finish now resolved visits (some "required_bind_pending")
      else assemble now resolved (
          fill (if saw_events visits then ArmVisit.deferred else ArmVisit.idle)
            (fairness_order set request) visits)
