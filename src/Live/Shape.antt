-- ===== src/Live/Shape.antt =====
-- What an outcome of the live runner may look like, as the contract's validator reads it: the
-- posture rules of `authn_lease_bounds` and the clean-outcome rules of `outcome_normative` in
-- crates/waitprims-core/src/validate.rs.
use mathlib.Core.Path.{subst}
use mathlib.Core.Option.{some-injective}
use waitprims.Prelude.{
  ℕ, ◌≤◌, ◌<◌, ◌≡◌, ◌≢◌, refl, Bool, true, false, ◌&&◌, Option, none, some, List, [], ◌∷◌, any,
  if◌then◌else◌, arith, String,
}
use waitprims.Core.Time.{Timestamp}
use waitprims.Core.Types.{OutcomeKind, Registration, WaitEvent, is_reject, is_required}
use waitprims.Core.Messages.{RegistrationSet, LiveWaitRequest, LiveWaitOutcome}
use waitprims.Observer.{Observation}
use waitprims.Live.Outcome.{
  ResolvedStart, base, events, partial, failed, cancelled, refused, reauthentication_required,
  logical_deadman, no_change,
}
use waitprims.Live.Decide.{
  decide, tally, min_by_idx, the_event, overflow_outcome, plain_outcome, posture_reject, finish,
  terminal_deadline, is_expired, is_missing, or_outcome,
}

-- The kind fits the completion time and the events.
pub record IsShaped (request : LiveWaitRequest) (o : LiveWaitOutcome) : Type 0 where
  pub before :
      o.outcome_kind ≡ OutcomeKind.no_change
      → o.completed_at.instant < request.logical_deadline.instant
  pub at_or_after :
      o.outcome_kind ≡ OutcomeKind.logical_deadman
      → request.logical_deadline.instant ≤ o.completed_at.instant
  pub not_degraded : o.outcome_kind ≢ OutcomeKind.coverage_degraded
  pub one_event : o.outcome_kind ≡ OutcomeKind.events → (e : WaitEvent) × (o.events ≡ some (e ∷ []))
  pub no_events :
      o.outcome_kind ≢ OutcomeKind.events
      → o.outcome_kind ≢ OutcomeKind.partial
      → o.events ≡ some []

-- Shaped, and where it is no refusal: every lease is alive at completion, and the receipt that
-- the set requires is there.
pub record IsAdmissible (set : RegistrationSet) (request : LiveWaitRequest) (o : LiveWaitOutcome)
    : Type 0 where
  pub shaped : IsShaped request o
  pub unexpired :
      is_reject o.outcome_kind ≡ false → any (is_expired o.completed_at) set.registrations ≡ false
  pub receipted :
      is_reject o.outcome_kind ≡ false
      → is_required set.authn_mode ≡ true
      → is_missing request.verification_receipt_ref ≡ false

-- Built at `now`, and shaped.
abbrev pub BuiltAt : LiveWaitRequest → Timestamp → LiveWaitOutcome → Type 0
BuiltAt request now o = IsShaped request o × (o.completed_at ≡ now)

module _ (request : LiveWaitRequest) (now : Timestamp) where
  failed-BuiltAt : (reason : String) → BuiltAt request now (failed request now reason)
  unfolding failed base
  failed-BuiltAt reason = (
    record {
      before = λ e. cc;
      at_or_after = λ e. cc;
      not_degraded = λ e. cc;
      one_event = λ e. cc;
      no_events = λ e f. refl;
    },
    refl,
  )

  pub cancelled-BuiltAt : BuiltAt request now (cancelled request now)
  unfolding cancelled base
  cancelled-BuiltAt = (
    record {
      before = λ e. cc;
      at_or_after = λ e. cc;
      not_degraded = λ e. cc;
      one_event = λ e. cc;
      no_events = λ e f. refl;
    },
    refl,
  )

  refused-BuiltAt : (reason : String) → BuiltAt request now (refused request now reason)
  unfolding refused base
  refused-BuiltAt reason = (
    record {
      before = λ e. cc;
      at_or_after = λ e. cc;
      not_degraded = λ e. cc;
      one_event = λ e. cc;
      no_events = λ e f. refl;
    },
    refl,
  )

  reauthentication_required-BuiltAt :
      (reason : String) → BuiltAt request now (reauthentication_required request now reason)
  unfolding reauthentication_required base
  reauthentication_required-BuiltAt reason = (
    record {
      before = λ e. cc;
      at_or_after = λ e. cc;
      not_degraded = λ e. cc;
      one_event = λ e. cc;
      no_events = λ e f. refl;
    },
    refl,
  )

  events-BuiltAt : (event : WaitEvent) → BuiltAt request now (events request now event)
  unfolding events base
  events-BuiltAt event = (
    record {
      before = λ e. cc;
      at_or_after = λ e. cc;
      not_degraded = λ e. cc;
      one_event = λ e. (event, refl);
      no_events = λ e f. absurd (e refl);
    },
    refl,
  )

  module _ (set : RegistrationSet) (resolved : List ResolvedStart) where
    partial-BuiltAt :
        (event : Option WaitEvent) → BuiltAt request now (partial set request now event resolved)
    unfolding partial base
    partial-BuiltAt event = (
      record {
        before = λ e. cc;
        at_or_after = λ e. cc;
        not_degraded = λ e. cc;
        one_event = λ e. cc;
        no_events = λ e f. absurd (f refl);
      },
      refl,
    )

    no_change-BuiltAt :
        now.instant < request.logical_deadline.instant
        → BuiltAt request now (no_change set request now resolved)
    unfolding no_change base
    no_change-BuiltAt early = (
      record {
        before = λ e. early;
        at_or_after = λ e. cc;
        not_degraded = λ e. cc;
        one_event = λ e. cc;
        no_events = λ e f. refl;
      },
      refl,
    )

    logical_deadman-BuiltAt :
        request.logical_deadline.instant ≤ now.instant
        → BuiltAt request now (logical_deadman set request now resolved)
    unfolding logical_deadman base
    logical_deadman-BuiltAt late = (
      record {
        before = λ e. cc;
        at_or_after = λ e. late;
        not_degraded = λ e. cc;
        one_event = λ e. cc;
        no_events = λ e f. refl;
      },
      refl,
    )

    overflow_outcome-BuiltAt :
        (winner : Option WaitEvent)
        → BuiltAt request now (overflow_outcome set request now winner resolved)
    unfolding overflow_outcome
    overflow_outcome-BuiltAt none = failed-BuiltAt "buffer_overflow"
    overflow_outcome-BuiltAt (some winner) = partial-BuiltAt (some winner)

    plain_outcome-BuiltAt :
        (reason : Option String) (winner : Option WaitEvent) (o : LiveWaitOutcome)
        → plain_outcome set request now reason winner ≡ some o
        → BuiltAt request now o
    unfolding plain_outcome
    plain_outcome-BuiltAt reason (some winner) o e =
        subst (BuiltAt request now) (some-injective _ _ e) (events-BuiltAt winner)
    plain_outcome-BuiltAt (some reason) none o e =
        subst (BuiltAt request now) (some-injective _ _ e) (failed-BuiltAt reason)
    plain_outcome-BuiltAt none none o e = cc

    pub decide-BuiltAt :
        (ready : List (ℕ × Observation)) (o : LiveWaitOutcome)
        → decide set request now ready resolved ≡ some o
        → BuiltAt request now o
    unfolding decide
    decide-BuiltAt ready o e = go (tally ready).overflow refl e
      where
        winner : Option WaitEvent
        winner = the_event (min_by_idx (tally ready).events)

        go :
            (b : Bool)
            → (tally ready).overflow ≡ b
            → (if b
                then some (overflow_outcome set request now winner resolved)
                else plain_outcome set request now (tally ready).failed winner)
              ≡ some o
            → BuiltAt request now o
        go true _ h =
            subst (BuiltAt request now) (some-injective _ _ h) (overflow_outcome-BuiltAt winner)
        go false _ h = plain_outcome-BuiltAt (tally ready).failed winner o h

    pub terminal_deadline-BuiltAt :
        (o : LiveWaitOutcome)
        → terminal_deadline set request now resolved ≡ some o
        → BuiltAt request now o
    unfolding terminal_deadline
    terminal_deadline-BuiltAt o e =
        ground (
          arith,
          failed-BuiltAt "required_bind_pending",
          no_change-BuiltAt,
          logical_deadman-BuiltAt,
        )

any-is_expired_mono :
    (t now : Timestamp) (regs : List Registration)
    → t.instant ≤ now.instant
    → any (is_expired now) regs ≡ false
    → any (is_expired t) regs ≡ false
any-is_expired_mono t now [] h e = refl
any-is_expired_mono t now (reg ∷ regs) h e = ground (arith, any-is_expired_mono t now regs h)

module _ (set : RegistrationSet) (request : LiveWaitRequest) where
  pub reject-IsAdmissible :
      (o : LiveWaitOutcome)
      → IsShaped request o
      → is_reject o.outcome_kind ≡ true
      → IsAdmissible set request o
  reject-IsAdmissible o s r = record { shaped = s; unexpired = λ e. cc; receipted = λ e f. cc }

  -- What the posture check answers: a refusal with a reason, complete at the instant checked.
  abbrev pub Rejects : Timestamp → LiveWaitOutcome → Type 0
  Rejects now r =
      IsAdmissible set request r × (r.completed_at ≡ now) × (is_reject r.outcome_kind ≡ true)

  expired-Rejects :
      (now : Timestamp) → Rejects now (reauthentication_required request now "lease_expired")
  unfolding reauthentication_required base
  expired-Rejects now =
      let shape = (reauthentication_required-BuiltAt request now "lease_expired").0 in
      (reject-IsAdmissible _ shape refl, refl, refl)

  refused-Rejects : (now : Timestamp) → Rejects now (refused request now "authn_required")
  unfolding refused base
  refused-Rejects now =
      let shape = (refused-BuiltAt request now "authn_required").0 in
      (reject-IsAdmissible _ shape refl, refl, refl)

  pub posture_reject-Rejects :
      (now : Timestamp) (r : LiveWaitOutcome)
      → posture_reject set request now ≡ some r
      → Rejects now r
  unfolding posture_reject
  posture_reject-Rejects now r =
      go (any (is_expired now) set.registrations)
        (is_required set.authn_mode && is_missing request.verification_receipt_ref)
    where
      go :
          (a b : Bool)
          → (if a
              then some (reauthentication_required request now "lease_expired")
              else if b
              then some (refused request now "authn_required")
              else none)
            ≡ some r
          → Rejects now r
      go true b e = subst (Rejects now) (some-injective _ _ e) (expired-Rejects now)
      go false true e = subst (Rejects now) (some-injective _ _ e) (refused-Rejects now)
      go false false e = cc

  posture_ok :
      (now : Timestamp)
      → posture_reject set request now ≡ none
      → (any (is_expired now) set.registrations ≡ false)
        × (is_required set.authn_mode ≡ true → is_missing request.verification_receipt_ref ≡ false)
  unfolding posture_reject
  posture_ok now e = ground arith

  -- The posture check of `finish` makes any outcome that was built no later admissible.
  pub finish-IsAdmissible :
      (now : Timestamp) (o : LiveWaitOutcome)
      → IsShaped request o
      → o.completed_at.instant ≤ now.instant
      → IsAdmissible set request (finish set request now o)
  unfolding finish
  finish-IsAdmissible now o shape built = go (is_reject o.outcome_kind) refl
    where
      checked :
          (p : Option LiveWaitOutcome)
          → posture_reject set request now ≡ p
          → IsAdmissible set request (or_outcome p o)
      checked none e = record {
        shaped = shape;
        unexpired = λ _.
            any-is_expired_mono o.completed_at now set.registrations built (posture_ok now e).0;
        receipted = λ _. (posture_ok now e).1;
      }
      checked (some r) e = (posture_reject-Rejects now r e).0

      go :
          (b : Bool)
          → is_reject o.outcome_kind ≡ b
          → IsAdmissible set request
              (if b then o else or_outcome (posture_reject set request now) o)
      go true e = reject-IsAdmissible o shape e
      go false e = checked (posture_reject set request now) refl
