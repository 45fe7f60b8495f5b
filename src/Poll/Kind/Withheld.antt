-- ===== src/Poll/Kind/Withheld.antt =====
-- What an assembled outcome of crates/waitprims-async/src/poll_cycle.rs retains of an event that it
-- withholds.
use native.Mathlib.Omega.{arith}
use waitprims.Prelude.{
  ℕ, ◌+◌, ◌%◌, ◌≡◌, refl, ap, ◌∙◌, Bool, true, false, String, Option, none, some, List, [], ◌∷◌,
  any, lookup, insert,
}
use waitprims.Core.Error.{ok, ◌>>=◌}
use waitprims.Core.Time.{Timestamp, ◌≥ᵗ◌}
use waitprims.Core.Types.{Anchor, OutcomeKind, Registration, WaitEvent, is_reject}
use waitprims.Core.Messages.{RegistrationSet, PollCycleRequest, PollCycleOutcome}
use waitprims.Live.Outcome.{ResolvedStart}
use waitprims.Live.Decide.{is_expired}
use waitprims.Poll.Fairness.{arm_id_for, fairness_order, fairness_start_index}
use waitprims.Poll.Visit.{ArmVisit, Visits}
use waitprims.Poll.Assemble.{
  honest_start, visit_status, outcome_of, no_parts, build, build_arms, add_arm, cleared,
  rebuild_reason, apply_posture,
}
use waitprims.Poll.Kind.{assemble, decide_kind, findings, no_findings, scan, note, kind_of}

module _ (set : RegistrationSet) (request : PollCycleRequest) (now : Timestamp)
    (resolved : List ResolvedStart) (r : Registration) (event : WaitEvent) where
  -- The set with that registration alone, and the visit in which its arm gave the event.
  abbrev pub single : RegistrationSet
  single = record set { registrations = r ∷ [] }

  abbrev pub given : Visits
  given = (0, ArmVisit.events (event ∷ [])) ∷ []

  single-order : fairness_order single request ≡ 0 ∷ []
  unfolding fairness_order
  single-order = ap (λ i. i ∷ []) (one (fairness_start_index single request))
    where
      one : (s : ℕ) → (s + 0) % 1 ≡ 0
      one s = omega arith

  single-kind :
      (at_logical : Bool)
      → kind_of at_logical (findings single request given) ≡ (OutcomeKind.events, none)
  unfolding scan note kind_of lookup
  single-kind at_logical =
      ap (λ order. kind_of at_logical (scan single.registrations given order no_findings))
        single-order

  -- The outcome before its posture is checked.
  record Built (o : PollCycleOutcome) : Type 0 where
    built : build single request now resolved given OutcomeKind.events none ≡ ok o
    kind : o.outcome_kind ≡ OutcomeKind.events
    at_now : o.completed_at ≡ now
    retained : o.retained_through ≡ (r.registration_id, event.proposed_next_anchor) ∷ []

  single-Built :
      (start : Anchor)
      → honest_start resolved request r ≡ some start
      → (o : PollCycleOutcome) × Built o
  unfolding build build_arms add_arm visit_status cleared outcome_of lookup insert
  single-Built start e = (
    outcome_of single request now OutcomeKind.events none (
        add_arm OutcomeKind.events r (arm_id_for request r 0).0 start
          (visit_status (some (ArmVisit.events (event ∷ [])))) no_parts),
    record { built = rw e refl; kind = refl; at_now = refl; retained = refl },
  )

  apply_posture-kept :
      (o : PollCycleOutcome)
      → is_reject o.outcome_kind ≡ false
      → any (is_expired o.completed_at) single.registrations ≡ true
      → ((apply_posture single request o).outcome_kind ≡ OutcomeKind.reauthentication_required)
        × ((apply_posture single request o).events ≡ [])
        × ((apply_posture single request o).retained_through ≡ o.retained_through)
  unfolding apply_posture rebuild_reason
  apply_posture-kept o kept expired = rw (kept, expired) (refl, refl, refl)

  -- Where an arm stands at a start and gives an event in a cycle of it alone, and its lease is over
  -- when the outcome is assembled, the outcome has no event, but it retains, as the cursor of the
  -- registration, the one past the event.
  pub assemble_withholds :
      (start : Anchor)
      → honest_start resolved request r ≡ some start
      → is_expired now r ≡ true
      → (o : PollCycleOutcome) × (assemble single request now resolved given ≡ ok o)
        × (o.outcome_kind ≡ OutcomeKind.reauthentication_required)
        × (o.events ≡ [])
        × (o.retained_through ≡ (r.registration_id, event.proposed_next_anchor) ∷ [])
  unfolding assemble decide_kind
  assemble_withholds start e h =
      let (o, b) = single-Built start e in
      let (k, es, t) = apply_posture-kept o (rw b.kind refl) (rw (b.at_now, h) refl) in
      (
        apply_posture single request o,
        ap
              (λ (p : OutcomeKind × Option String).
                build single request now resolved given p.0 p.1 >>= λ out.
                ok (apply_posture single request out))
              (single-kind (now ≥ᵗ request.logical_deadline))
            ∙ ap (λ m. m >>= λ out. ok (apply_posture single request out)) b.built,
        k,
        es,
        t ∙ b.retained,
      )
