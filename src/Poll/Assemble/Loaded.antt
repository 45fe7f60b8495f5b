-- ===== src/Poll/Assemble/Loaded.antt =====
-- crates/waitprims-async/src/poll_cycle.rs: the weight of the events that `build` gives out.
use mathlib.Core.Path.{subst}
use waitprims.Prelude.{
  ℕ, zero, suc, ◌+◌, ◌≤◌, ◌<◌, ◌≡◌, refl, ap, Bool, true, false, String, Option, none, some, List,
  [], ◌∷◌, ◌++◌, map, any, length, ◌&&◌, if◌then◌else◌, arith, lookup, ℕ_key, ℕ_eq,
}
use waitprims.Core.Error.{Result, ok, err, validation, invalid}
use waitprims.Core.Time.{Timestamp}
use waitprims.Core.Types.{Anchor, OutcomeKind, Registration, WaitEvent, is_reject, is_required}
use waitprims.Core.Messages.{RegistrationSet, PollCycleRequest, PollCycleOutcome}
use waitprims.Live.Outcome.{ResolvedStart}
use waitprims.Live.Decide.{is_expired, is_missing}
use waitprims.Poll.Budget.Gauge.{Gauge}
use waitprims.Poll.Fairness.{arm_id_for}
use waitprims.Poll.Visit.{ArmVisit, Visits, visit_events}
use waitprims.Poll.Visit.Charged.{load, total, load-append}
use waitprims.Poll.Assemble.{
  Status, Parts, no_parts, visit_status, honest_start, carries_events, is_empty, add_arm, add_known,
  build_arms, cleared, outcome_of, build, rebuild_reason, apply_posture, without_events,
  empty_event_map,
}

abbrev held_at : Option ArmVisit → List WaitEvent
held_at none = []
held_at (some v) = visit_events v

abbrev pub ok_or : Result PollCycleOutcome → PollCycleOutcome → PollCycleOutcome
ok_or (ok o) other = o
ok_or (err e) other = other

module _ (g : Gauge) where
  -- The weight of n visits, from the index idx on.
  abbrev looked : Visits → ℕ → ℕ → ℕ
  looked visits idx zero = 0
  looked visits idx (suc n) = load g (held_at (lookup idx visits)) + looked visits (suc idx) n

  looked-past :
      (j : ℕ) (v : ArmVisit) (visits : Visits) (idx n : ℕ)
      → j < idx
      → looked ((j, v) ∷ visits) idx n ≡ looked visits idx n
  unfolding lookup
  looked-past j v visits idx zero h = refl
  looked-past j v visits idx (suc n) h = ground (arith, looked-past j v visits (suc idx) n)

  looked-cons :
      (j : ℕ) (v : ArmVisit) (visits : Visits) (idx n : ℕ)
      → looked ((j, v) ∷ visits) idx n ≤ load g (visit_events v) + looked visits idx n
  unfolding lookup
  looked-cons j v visits idx zero = omega arith
  looked-cons j v visits idx (suc n) =
      ground (arith, looked-cons j v visits (suc idx) n, looked-past j v visits (suc idx) n)

  looked-total : (visits : Visits) (idx n : ℕ) → looked visits idx n ≤ total g visits
  unfolding lookup
  looked-total [] idx zero = omega arith
  looked-total [] idx (suc n) = omega (arith, looked-total [] (suc idx) n)
  looked-total ((j, v) ∷ visits) idx n =
      omega (arith, looked-cons j v visits idx n, looked-total visits idx n)

  status_events : (o : Option ArmVisit) → (visit_status o).events ≡ held_at o
  unfolding visit_status
  status_events none = refl
  status_events (some (ArmVisit.events es)) = refl
  status_events (some (ArmVisit.saturated es)) = refl
  status_events (some ArmVisit.idle) = refl
  status_events (some ArmVisit.overflow) = refl
  status_events (some (ArmVisit.failed x)) = refl
  status_events (some (ArmVisit.outage x)) = refl
  status_events (some (ArmVisit.cursor_uncertain x)) = refl
  status_events (some (ArmVisit.degraded x)) = refl
  status_events (some ArmVisit.deferred) = refl

  module _ (set : RegistrationSet) (request : PollCycleRequest) where
    add_known-load :
        (kind : OutcomeKind) (registration : Registration) (arm_id : String) (start : Option Anchor)
        (s : Status) (parts : Parts)
        → load g (add_known set request kind registration arm_id start s parts).events
          ≤ load g parts.events + load g s.events
    unfolding add_arm
    add_known-load kind registration arm_id none s parts = omega arith
    add_known-load kind registration arm_id (some start) s parts = go (carries_events kind)
      where
        go :
            (b : Bool)
            → load g (if b then parts.events ++ s.events else parts.events)
              ≤ load g parts.events + load g s.events
        go true = omega (arith, load-append g parts.events s.events)
        go false = omega arith

    build_arms-load :
        (kind : OutcomeKind) (resolved : List ResolvedStart) (visits : Visits) (idx seen : ℕ)
        (registrations : List Registration) (parts : Parts)
        → load g (build_arms set request kind resolved visits idx seen registrations parts).events
          ≤ load g parts.events + looked visits idx (length registrations)
    unfolding build_arms
    build_arms-load kind resolved visits idx seen [] parts = omega arith
    build_arms-load kind resolved visits idx seen (registration ∷ rest) parts = omega (
      arith,
      build_arms-load kind resolved visits (suc idx) (arm_id_for request registration seen).1 rest
          (added (visit_status (lookup idx visits))),
      add_known-load kind registration (arm_id_for request registration seen).0
          (honest_start resolved request registration) (visit_status (lookup idx visits)) parts,
      ap (load g) (status_events (lookup idx visits)),
    )
      where
        added : Status → Parts
        added s =
            add_known set request kind registration (arm_id_for request registration seen).0
              (honest_start resolved request registration) s parts

    cleared-load :
        (kind : OutcomeKind) (parts : Parts)
        → load g (cleared set request kind parts).events ≤ load g parts.events
    unfolding cleared
    cleared-load kind parts = go (is_reject kind)
      where
        go :
            (b : Bool)
            → load g
                (if b
                  then record parts {
                    events = [];
                    arms = map (without_events set request) parts.arms;
                    retained_events =
                        empty_event_map set request (map (without_events set request) parts.arms);
                  }
                  else parts).events
              ≤ load g parts.events
        go true = omega arith
        go false = omega arith

    -- An outcome that is built carries at most what the visits hold.
    pub build-load :
        (now : Timestamp) (resolved : List ResolvedStart) (visits : Visits) (kind : OutcomeKind)
        (reason : Option String) (o : PollCycleOutcome)
        → build set request now resolved visits kind reason ≡ ok o
        → load g o.events ≤ total g visits
    unfolding build outcome_of
    build-load now resolved visits kind reason o = go (is_empty parts.arms)
      where
        parts : Parts
        parts = build_arms set request kind resolved visits 0 0 set.registrations no_parts

        go :
            (b : Bool)
            → (if b
                then err (validation (invalid "/arms" "unresolved_start"))
                else ok (outcome_of set request now kind reason (cleared set request kind parts)))
              ≡ ok o
            → load g o.events ≤ total g visits
        go true e = cc
        go false e =
            subst (λ (r : PollCycleOutcome). load g r.events ≤ total g visits)
              (ap (λ r. ok_or r o) e)
              (omega (
                arith,
                cleared-load kind parts,
                build_arms-load kind resolved visits 0 0 set.registrations no_parts,
                looked-total visits 0 (length set.registrations),
              ))

    pub apply_posture-load :
        (o : PollCycleOutcome) → load g (apply_posture set request o).events ≤ load g o.events
    unfolding apply_posture rebuild_reason
    apply_posture-load o =
        go (is_reject o.outcome_kind) (any (is_expired o.completed_at) set.registrations)
          (is_required set.authn_mode && is_missing request.verification_receipt_ref)
      where
        go :
            (a b c : Bool)
            → load g
                (if a
                  then o
                  else if b
                  then rebuild_reason set request o OutcomeKind.reauthentication_required
                      "lease_expired"
                  else if c
                  then rebuild_reason set request o OutcomeKind.refused "authn_required"
                  else o).events
              ≤ load g o.events
        go true b c = omega arith
        go false true c = omega arith
        go false false true = omega arith
        go false false false = omega arith
