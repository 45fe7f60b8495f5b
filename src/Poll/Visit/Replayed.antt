-- ===== src/Poll/Visit/Replayed.antt =====
-- crates/waitprims-async/src/poll_cycle.rs: what `emit` puts back.
use mathlib.Core.Path.{subst}
use mathlib.Core.List.{reverse-cons, reverse}
use waitprims.Prelude.{◌≡◌, refl, ap, Option, none, some, List, [], ◌∷◌, ◌++◌, map}
use waitprims.Core.Error.{Result, ok, err}
use waitprims.Core.Types.{WaitEvent}
use waitprims.Core.Messages.{PollCycleOutcome}
use waitprims.Observer.{Observation, Observer}
use waitprims.Observer.Hoare.{Hoare, Ends, hoare_pure, hoare_bind}
use waitprims.Poll.Visit.{
  ArmVisit, Visits, bind_at, visit_events, restore_events, restore_visit, restore_admitted, emitted,
  emit,
}

-- The observer's record of what was put back, the latest first.
pub record Replay {W Bind : Type 0} (observer : Observer W Bind) : Type 0 where
  pub held : W → List (Bind × Observation)
  pub put :
      (b : Bind) (obs : Observation) (w w' : W)
      → observer.restore_ready b obs w ≡ (ok tt, w')
      → held w' ≡ (b, obs) ∷ held w

abbrev pub of_arm : {Bind : Type 0} → Option Bind → List WaitEvent → List (Bind × Observation)
of_arm none es = []
of_arm (some b) es = map (λ e. (b, Observation.event e)) es

-- The record after all visits: the events of an arm stand in the order of their admission, so the
-- first is the next to be given.
abbrev pub replayed :
    {Bind : Type 0}
    → List (Option Bind)
    → Visits
    → List (Bind × Observation)
    → List (Bind × Observation)
replayed binds [] old = old
replayed binds ((idx, visit) ∷ visits) old =
    replayed binds visits (of_arm (bind_at binds idx) (visit_events visit) ++ old)

module _ {Bind : Type 0} (b : Bind) where
  pushed : List WaitEvent → List (Bind × Observation) → List (Bind × Observation)
  pushed [] old = old
  pushed (e ∷ es) old = pushed es ((b, Observation.event e) ∷ old)

  pushed-append :
      (xs ys : List WaitEvent) (old : List (Bind × Observation))
      → pushed (xs ++ ys) old ≡ pushed ys (pushed xs old)
  unfolding pushed
  pushed-append [] ys old = refl
  pushed-append (x ∷ xs) ys old = pushed-append xs ys _

  pushed-reverse :
      (es : List WaitEvent) (old : List (Bind × Observation))
      → pushed (reverse es) old ≡ of_arm (some b) es ++ old
  unfolding pushed
  pushed-reverse [] old = refl
  pushed-reverse (e ∷ es) old =
      rw (reverse-cons e es, pushed-append (reverse es) (e ∷ []) old, pushed-reverse es old) refl

module _ {W Bind : Type 0} (observer : Observer W Bind) (replay : Replay observer) where
  abbrev Holds : List (Bind × Observation) → W → Type 0
  Holds old w = replay.held w ≡ old

  restore_ready-Holds :
      (old : List (Bind × Observation)) (b : Bind) (obs : Observation)
      → Hoare (Holds old) (observer.restore_ready b obs) (λ u. Holds ((b, obs) ∷ old))
  restore_ready-Holds old b obs = record {
    at = λ w h. go w h (observer.restore_ready b obs w) refl;
  }
    where
      go :
          (w : W)
          → Holds old w
          → (r : Result (Unit {0}) × W) → observer.restore_ready b obs w ≡ r
          → Ends (λ u. Holds ((b, obs) ∷ old)) r
      go w h (ok tt, w') e = rw (replay.put b obs w w' e, h)
      go w h (err x, w') e = tt

  restore_events-Holds :
      (old : List (Bind × Observation)) (b : Bind) (es : List WaitEvent)
      → Hoare (Holds old) (restore_events observer b es) (λ u. Holds (pushed b es old))
  unfolding restore_events pushed
  restore_events-Holds old b [] = hoare_pure _ tt (λ w h. h)
  restore_events-Holds old b (e ∷ es) =
      hoare_bind (λ u. Holds ((b, Observation.event e) ∷ old))
        (restore_ready-Holds old b (Observation.event e))
        λ u. restore_events-Holds ((b, Observation.event e) ∷ old) b es

  restore_visit-Holds :
      (old : List (Bind × Observation)) (o : Option Bind) (visit : ArmVisit)
      → Hoare
          (Holds old)
          (restore_visit observer o visit)
          (λ u. Holds (of_arm o (visit_events visit) ++ old))
  unfolding restore_visit
  restore_visit-Holds old none visit = hoare_pure _ tt (λ w h. h)
  restore_visit-Holds old (some b) visit =
      subst
        (λ l.
          Hoare (Holds old) (restore_events observer b (reverse (visit_events visit)))
            (λ u. Holds l))
        (pushed-reverse b (visit_events visit) old)
        (restore_events-Holds old b (reverse (visit_events visit)))

  restore_admitted-Holds :
      (binds : List (Option Bind)) (visits : Visits) (old : List (Bind × Observation))
      → Hoare
          (Holds old)
          (restore_admitted observer binds visits)
          (λ u. Holds (replayed binds visits old))
  unfolding restore_admitted
  restore_admitted-Holds binds [] old = hoare_pure _ tt (λ w h. h)
  restore_admitted-Holds binds ((idx, visit) ∷ visits) old =
      hoare_bind (λ u. Holds (of_arm (bind_at binds idx) (visit_events visit) ++ old))
        (restore_visit-Holds old (bind_at binds idx) visit)
        λ u.
          restore_admitted-Holds binds visits
            (of_arm (bind_at binds idx) (visit_events visit) ++ old)

  -- Where `restore_ready` puts back what it is given: a cycle that emits an outcome emits the one
  -- it was to emit, and has put back every event that the visits of bound arms admitted, those of
  -- an arm in the order of their admission.
  pub emit-replayed :
      (binds : List (Option Bind)) (visits : Visits) (outcome : Result PollCycleOutcome) (w : W)
      (o : PollCycleOutcome) (w' : W)
      → emit observer binds visits outcome w ≡ (ok o, w')
      → (outcome ≡ ok o) × (replay.held w' ≡ replayed binds visits (replay.held w))
  unfolding emit emitted
  emit-replayed binds visits outcome w o w' e =
      go outcome (restore_admitted observer binds visits w)
        ((restore_admitted-Holds binds visits (replay.held w)).at w refl) e
    where
      go :
          (outcome : Result PollCycleOutcome) (r : Result (Unit {0}) × W)
          → Ends (λ u. Holds (replayed binds visits (replay.held w))) r
          → ◌≡◌ {A = Result PollCycleOutcome × W}
              (let (restored, w'') = r in (emitted observer outcome restored, w''))
              (ok o, w')
          → (outcome ≡ ok o) × (replay.held w' ≡ replayed binds visits (replay.held w))
      go (ok x) (ok u, w'') h e = (
        ap (λ (p : Result PollCycleOutcome × W). p.0) e,
        subst (λ v. replay.held v ≡ replayed binds visits (replay.held w))
            (ap (λ (p : Result PollCycleOutcome × W). p.1) e) h,
      )
      go (ok x) (err y, w'') h e = cc (ap (λ (p : Result PollCycleOutcome × W). p.0) e)
      go (err x) (r, w'') h e = cc (ap (λ (p : Result PollCycleOutcome × W). p.0) e)
