-- ===== src/Poll/Visit/Charged.antt =====
-- crates/waitprims-async/src/poll_cycle.rs: the budget from `try_take` up to `visit_from`.
use mathlib.Core.Path.{subst}
use waitprims.Prelude.{
  ℕ, zero, suc, ◌+◌, ◌-◌, ◌≡◌, refl, Bool, true, false, not, Option, none, some, List, [], ◌∷◌,
  ◌++◌, map, sum, if◌then◌else◌, arith, lookup, insert, ℕ_key, ℕ_eq,
}
use waitprims.Core.Error.{Result, ok, err}
use waitprims.Core.Types.{WaitEvent}
use waitprims.Observer.{Observation, Observer, Exec, ◌>>=◌, ◌>>◌, pure, call}
use waitprims.Observer.Hoare.{Hoare, Ends, hoare_pure, hoare_if, hoare_bind}
use waitprims.Poll.Budget.{CollectBudget, try_take, room_for_registration}
use waitprims.Poll.Budget.Gauge.{Gauge}
use waitprims.Poll.Visit.{
  ArmVisit, Visits, visit_events, drained_visit, Drained, restore_observation, defer_ready,
  drain_loop, drain_ready, drain_bound, take_event, visit_from,
}

-- The weight of a list of events.
abbrev pub load : Gauge → List WaitEvent → ℕ
load g es = sum (map g.weigh es)

-- The weight of what all visits hold.
abbrev pub total : Gauge → Visits → ℕ
total g [] = 0
total g ((idx, visit) ∷ visits) = load g (visit_events visit) + total g visits

pub load-append : (g : Gauge) (xs ys : List WaitEvent) → load g (xs ++ ys) ≡ load g xs + load g ys
load-append g [] ys = omega arith
load-append g (x ∷ xs) ys = omega (arith, load-append g xs ys)

pub total-insert :
    (g : Gauge) (idx : ℕ) (v : ArmVisit) (visits : Visits)
    → lookup idx visits ≡ none
    → total g (insert idx v visits) ≡ load g (visit_events v) + total g visits
unfolding lookup insert
total-insert g idx v [] h = refl
total-insert g idx v ((j, u) ∷ visits) h = ground (arith, total-insert g idx v visits)

-- A budget within its limits, which was charged what the visits hold.
pub record Measured (g : Gauge) (budget : CollectBudget) (held : ℕ) : Type 0 where
  pub limits : g.Limits budget
  pub charged : held ≡ g.reads budget

abbrev pub AnyWorld : {W : Type 0} → W → Type 0
AnyWorld w = Unit

module _ {W Bind : Type 0} (observer : Observer W Bind) (g : Gauge) where
  abbrev pub Free : {A : Type 0} → Exec W A → (A → Type 0) → Type 0
  Free m Q = Hoare AnyWorld m (λ a w. Q a)

  pub free : {A : Type 0} (m : Exec W A) → Free m (λ a. Unit)
  free {A} m = record { at = λ w h. go (m w) }
    where
      go : (r : Result A × W) → Ends (λ a w. Unit) r
      go (ok a, w) = tt
      go (err e, w) = tt

  pub then_pure :
      {A B : Type 0} {Q : B → Type 0} (m : Exec W A) (b : B) → Q b → Free (m >>= λ a. pure b) Q
  then_pure m b q = hoare_bind (λ a w. Unit) (free m) λ a. hoare_pure _ b (λ w h. q)

  abbrev DrainedFrom : ℕ → Drained → Type 0
  DrainedFrom held d = Measured g d.budget (held + load g d.found)

  after_try :
      (held : ℕ) (budget : CollectBudget) (found : List WaitEvent) (e : WaitEvent)
      → Measured g budget (held + load g found)
      → (taken : Bool) → (try_take budget e).0 ≡ taken
      → Measured g (try_take budget e).1 (held + load g (if taken then found ++ e ∷ [] else found))
  after_try held budget found e m taken t = record {
    limits = g.limits_keep budget e m.limits;
    charged = more taken (
        subst (λ x. g.reads (try_take budget e).1 ≡ g.reads budget + (if x then g.weigh e else 0)) t
          (g.counts budget e m.limits));
  }
    where
      more :
          (taken : Bool)
          → g.reads (try_take budget e).1 ≡ g.reads budget + (if taken then g.weigh e else 0)
          → held + load g (if taken then found ++ e ∷ [] else found) ≡ g.reads (try_take budget e).1
      more true c = omega (arith, c, m.charged, load-append g found (e ∷ []))
      more false c = omega (arith, c, m.charged)

  abbrev pub OneFrom : ℕ → ArmVisit × CollectBudget → Type 0
  OneFrom held r = Measured g r.1 (held + load g (visit_events r.0))

  drain_loop-Measured :
      (rounds held : ℕ) (bind : Bind) (budget : CollectBudget) (found : List WaitEvent)
      → Measured g budget (held + load g found)
      → Free (drain_loop observer rounds bind budget found) (DrainedFrom held)
  unfolding drain_loop
  drain_loop-Measured zero held bind budget found m = hoare_pure _ _ (λ w h. m)
  drain_loop-Measured (suc rounds) held bind budget found m =
      hoare_if (not (room_for_registration budget (observer.registration_id bind)))
        (λ r. hoare_pure _ _ (λ w h. m))
        λ r.
          hoare_bind (λ a w. Unit) (free (call (observer.poll_ready bind)))
            (answer (λ budget' found' m'. drain_loop-Measured rounds held bind budget' found' m'))
    where
      one :
          (e : WaitEvent)
          → ((budget' : CollectBudget) (found' : List WaitEvent)
              → Measured g budget' (held + load g found')
              → Free (drain_loop observer rounds bind budget' found') (DrainedFrom held))
          → (t : Bool × CollectBudget)
          → ((taken : Bool)
              → t.0 ≡ taken
              → Measured g t.1 (held + load g (if taken then found ++ e ∷ [] else found)))
          → Free
              (let (taken, budget') = t in
                let rest = drain_loop observer rounds bind budget' (found ++ e ∷ []) in
                if not taken
                then (restore_observation observer (some bind) (Observation.event e) >>= λ u.
                    pure (record { full = true; budget = budget'; found = found }))
                else rest)
              (DrainedFrom held)
      one e next (true, budget') k = next budget' (found ++ e ∷ []) (k true refl)
      one e next (false, budget') k =
          then_pure {Q = DrainedFrom held}
            (restore_observation observer (some bind) (Observation.event e)) _ (k false refl)

      answer :
          ((budget' : CollectBudget) (found' : List WaitEvent)
            → Measured g budget' (held + load g found')
            → Free (drain_loop observer rounds bind budget' found') (DrainedFrom held))
          → (a : Option Observation)
          → Free
              (elim a [
                | none ↦ pure (record { full = false; budget = budget; found = found })
                | some obs ↦ elim obs [
                  | Observation.event e ↦
                      let (taken, budget') = try_take budget e in
                      let rest = drain_loop observer rounds bind budget' (found ++ e ∷ []) in
                      if not taken
                      then (do
                        restore_observation observer (some bind) (Observation.event e)
                        pure (record { full = true; budget = budget'; found = found }))
                      else rest
                  | Observation.overflow ↦
                      pure (record { full = true; budget = budget; found = found })
                  | other ↦ do
                    restore_observation observer (some bind) other
                    pure (record { full = false; budget = budget; found = found })
                ]
              ])
              (DrainedFrom held)
      answer next none = hoare_pure _ _ (λ w h. m)
      answer next (some (Observation.event e)) =
          one e next (try_take budget e) (after_try held budget found e m)
      answer next (some Observation.overflow) = hoare_pure _ _ (λ w h. m)
      answer next (some Observation.idle) = then_pure {Q = DrainedFrom held} _ _ m
      answer next (some (Observation.failed x)) = then_pure {Q = DrainedFrom held} _ _ m
      answer next (some (Observation.outage x)) = then_pure {Q = DrainedFrom held} _ _ m
      answer next (some (Observation.cursor_uncertain x)) = then_pure {Q = DrainedFrom held} _ _ m
      answer next (some (Observation.degraded x)) = then_pure {Q = DrainedFrom held} _ _ m

  drain_bound-Measured :
      (held : ℕ) (bind : Option Bind) (budget : CollectBudget) (found : List WaitEvent)
      → Measured g budget (held + load g found)
      → Free (drain_bound observer bind budget found) (DrainedFrom held)
  unfolding drain_bound drain_ready
  drain_bound-Measured held none budget found m = hoare_pure _ _ (λ w h. m)
  drain_bound-Measured held (some bind) budget found m =
      hoare_if (not (room_for_registration budget (observer.registration_id bind)))
        (λ r. hoare_pure _ _ (λ w h. m))
        λ r. drain_loop-Measured (budget.max_events - budget.events) held bind budget found m

  events_of_drained :
      (full : Bool) (es : List WaitEvent) → visit_events (drained_visit full es) ≡ es
  events_of_drained true es = refl
  events_of_drained false es = refl

  pub empty_handed :
      (held : ℕ) (budget : CollectBudget) → Measured g budget held → Measured g budget (held + 0)
  empty_handed held budget m = record { limits = m.limits; charged = omega (arith, m.charged) }

  pub defer_ready-Empty :
      (bind : Option Bind) (obs : Observation)
      → Free (defer_ready observer bind obs) (λ v. visit_events v ≡ [])
  unfolding defer_ready
  defer_ready-Empty bind obs =
      then_pure {Q = λ v. visit_events v ≡ []} (restore_observation observer bind obs)
        ArmVisit.deferred refl

  take_event-Measured :
      (held : ℕ) (bind : Option Bind) (e : WaitEvent) (t : Bool × CollectBudget)
      → ((taken : Bool)
          → t.0 ≡ taken
          → Measured g t.1 (held + load g (if taken then e ∷ [] else [])))
      → Free (take_event observer bind e t) (OneFrom held)
  unfolding take_event
  take_event-Measured held bind e (true, budget) k =
      hoare_bind (λ d w. DrainedFrom held d)
        (drain_bound-Measured held bind budget (e ∷ []) (k true refl))
        λ d. hoare_pure _ _ λ w m. rw (events_of_drained d.full d.found) m
  take_event-Measured held bind e (false, budget) k =
      hoare_bind (λ v w. visit_events v ≡ []) (defer_ready-Empty bind (Observation.event e))
        λ v. hoare_pure _ _ λ w none_held. rw none_held (k false refl)

  pub visit_from-Measured :
      (held : ℕ) (bind : Option Bind) (budget : CollectBudget) (obs : Observation)
      → Measured g budget held
      → Free (visit_from observer bind budget obs) (OneFrom held)
  unfolding visit_from
  visit_from-Measured held bind budget (Observation.event e) m =
      take_event-Measured held bind e (try_take budget e)
        (after_try held budget [] e (empty_handed held budget m))
  visit_from-Measured held bind budget Observation.idle m =
      hoare_pure _ _ (λ w h. empty_handed held budget m)
  visit_from-Measured held bind budget Observation.overflow m =
      hoare_pure _ _ (λ w h. empty_handed held budget m)
  visit_from-Measured held bind budget (Observation.failed x) m =
      hoare_pure _ _ (λ w h. empty_handed held budget m)
  visit_from-Measured held bind budget (Observation.outage x) m =
      hoare_pure _ _ (λ w h. empty_handed held budget m)
  visit_from-Measured held bind budget (Observation.cursor_uncertain x) m =
      hoare_pure _ _ (λ w h. empty_handed held budget m)
  visit_from-Measured held bind budget (Observation.degraded x) m =
      hoare_pure _ _ (λ w h. empty_handed held budget m)
