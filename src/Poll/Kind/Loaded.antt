-- ===== src/Poll/Kind/Loaded.antt =====
-- crates/waitprims-async/src/poll_cycle.rs: the weight of the events that `assemble`, `finish` and
-- `decide_at_deadline` give out.
use mathlib.Core.Path.{subst}
use waitprims.Prelude.{
  ℕ, ◌≤◌, ◌≡◌, refl, ap, Bool, true, false, not, String, Option, none, some, List, [], ◌∷◌, arith,
  if◌then◌else◌, lookup, insert, ℕ_key, ℕ_eq,
}
use waitprims.Core.Error.{Result, ok, err, ◌>>=◌}
use waitprims.Core.Time.{Timestamp}
use waitprims.Core.Messages.{RegistrationSet, PollCycleRequest, PollCycleOutcome}
use waitprims.Live.Outcome.{ResolvedStart}
use waitprims.Live.Decide.{required_binding_complete}
use waitprims.Poll.Budget.Gauge.{Gauge}
use waitprims.Poll.Fairness.{fairness_order}
use waitprims.Poll.Visit.{ArmVisit, Visits, visit_events}
use waitprims.Poll.Visit.Charged.{load, total, total-insert}
use waitprims.Poll.Assemble.{apply_posture}
use waitprims.Poll.Assemble.Loaded.{ok_or, build-load, apply_posture-load}
use waitprims.Poll.Kind.{decide_kind, assemble, finish, fill, saw_events, decide_at_deadline}

module _ (g : Gauge) (set : RegistrationSet) (request : PollCycleRequest) where
  -- An outcome, if there is one, weighs at most `most`.
  abbrev pub Light : ℕ → Result PollCycleOutcome → Type 0
  Light most r = (o : PollCycleOutcome) → r ≡ ok o → load g o.events ≤ most

  posture-Light :
      (most : ℕ) (r : Result PollCycleOutcome)
      → Light most r
      → Light most (r >>= λ o. ok (apply_posture set request o))
  posture-Light most (ok o) h o' e =
      subst (λ (x : PollCycleOutcome). load g x.events ≤ most) (ap (λ r. ok_or r o) e)
        (omega (arith, h o refl, apply_posture-load g set request o))
  posture-Light most (err x) h o' e = cc

  pub assemble-Light :
      (now : Timestamp) (resolved : List ResolvedStart) (visits : Visits)
      → Light (total g visits) (assemble set request now resolved visits)
  unfolding assemble decide_kind
  assemble-Light now resolved visits =
      posture-Light (total g visits) _ (build-load g set request now resolved visits _ _)

  pub finish-Light :
      (now : Timestamp) (resolved : List ResolvedStart) (visits : Visits) (reason : Option String)
      → Light (total g visits) (finish set request now resolved visits reason)
  unfolding finish
  finish-Light now resolved visits none = assemble-Light now resolved visits
  finish-Light now resolved visits (some reason) =
      posture-Light (total g visits) _ (build-load g set request now resolved visits _ _)

  fill-total :
      (filler : ArmVisit) (order : List ℕ) (visits : Visits)
      → visit_events filler ≡ []
      → total g (fill set request filler order visits) ≡ total g visits
  unfolding fill
  fill-total filler [] visits h = refl
  fill-total filler (idx ∷ order) visits h =
      go (λ vs. fill-total filler order vs h) (lookup idx visits) refl
    where
      go :
          ((vs : Visits) → total g (fill set request filler order vs) ≡ total g vs)
          → (o : Option ArmVisit) → lookup idx visits ≡ o
          → total g (elim o [
            | none ↦ fill set request filler order (insert idx filler visits)
            | some visit ↦ fill set request filler order visits
          ])
            ≡ total g visits
      go next none e = omega (
        arith,
        next (insert idx filler visits),
        total-insert g idx filler visits e,
        ap (load g) h,
      )
      go next (some v) e = next visits

  filler_empty : (b : Bool) → visit_events (if b then ArmVisit.deferred else ArmVisit.idle) ≡ []
  filler_empty true = refl
  filler_empty false = refl

  pub decide_at_deadline-Light :
      (now : Timestamp) (resolved : List ResolvedStart) (visits : Visits)
      → Light (total g visits) (decide_at_deadline set request now resolved visits)
  unfolding decide_at_deadline
  decide_at_deadline-Light now resolved visits = go (not (required_binding_complete set resolved))
    where
      filled : Visits
      filled =
          fill set request
            (if saw_events set request visits then ArmVisit.deferred else ArmVisit.idle)
            (fairness_order set request) visits

      go :
          (b : Bool)
          → Light (total g visits) (
              if b
              then finish set request now resolved visits (some "required_bind_pending")
              else assemble set request now resolved filled)
      go true = finish-Light now resolved visits (some "required_bind_pending")
      go false =
          subst (λ n. Light n (assemble set request now resolved filled))
            (fill-total _ (fairness_order set request) visits
              (filler_empty (saw_events set request visits)))
            (assemble-Light now resolved filled)
