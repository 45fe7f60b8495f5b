-- ===== src/Poll/Visit.antt =====
-- crates/waitprims-async/src/poll_cycle.rs: what one arm yields in a cycle, and the custody of what
-- was dequeued. A place of `binds` is empty until its registration is bound.
pub mod Charged
pub mod Rounds
pub mod Replayed
pub mod Measured
use waitprims.Prelude.{
  ℕ, zero, suc, ◌-◌, ◌+◌, Bool, true, false, not, ◌&&◌, ◌||◌, String, Option, none, some, List, [],
  ◌∷◌, ◌++◌, map, reverse, any, if◌then◌else◌, get_elem?, ◌==◌, ℕ_eq, Map, lookup, insert, remove,
  ℕ_key,
}
use waitprims.Core.Error.{Error, Result, ok, err}
use waitprims.Core.Types.{Anchor, WaitEvent}
use waitprims.Core.Messages.{RegistrationSet, PollCycleRequest, PollCycleOutcome}
use waitprims.Observer.{Observation, Observer, Exec, ◌>>=◌, ◌>>◌, pure, raise, call, is_replayable}
use waitprims.Poll.Budget.{CollectBudget, try_take, room_for_registration, exhausted}
use waitprims.Poll.Fairness.{fairness_order}

pub data ArmVisit : Type 0 where
  events saturated : List WaitEvent → ArmVisit
  idle overflow : ArmVisit
  failed outage cursor_uncertain degraded : String → ArmVisit
  deferred : ArmVisit

abbrev pub Visits : Type 0
Visits = Map ℕ ArmVisit

abbrev pub flatten : {A : Type 0} → Option (Option A) → Option A
flatten none = none
flatten (some o) = o

-- binds.get(idx).and_then(|bind| bind.as_ref())
abbrev pub bind_at : {Bind : Type 0} → List (Option Bind) → ℕ → Option Bind
bind_at binds idx = flatten (get_elem? binds idx)

abbrev pub is_some : {A : Type 0} → Option A → Bool
is_some none = false
is_some (some a) = true

-- The admitted events of a visit.
abbrev pub visit_events : ArmVisit → List WaitEvent
visit_events (ArmVisit.events es) = es
visit_events (ArmVisit.saturated es) = es
visit_events _ = []

abbrev pub is_event : Observation → Bool
is_event (Observation.event e) = true
is_event _ = false

abbrev drained_visit : Bool → List WaitEvent → ArmVisit
drained_visit true es = ArmVisit.saturated es
drained_visit false es = ArmVisit.events es

-- The budget and the events of a drain; `full` when it stopped for want of room.
pub record Drained : Type 0 where
  pub full : Bool
  pub budget : CollectBudget
  pub found : List WaitEvent

-- The state of record_ready's loop over the fairness order.
pub record Round : Type 0 where
  pub budget : CollectBudget
  pub visits : Visits
  pub ready : Map ℕ Observation

module _ {W Bind : Type 0} (observer : Observer W Bind) where
  unfoldable pub restore_observation : Option Bind → Observation → Exec W (Unit {0})
  restore_observation none obs = pure tt
  restore_observation (some bind) obs = observer.restore_ready bind obs

  unfoldable pub restore_owned_observations :
      List (Option Bind) → List (ℕ × Observation) → Exec W (Unit {0})
  unfolding restore_observation
  restore_owned_observations binds [] = pure tt
  restore_owned_observations binds ((idx, obs) ∷ ready) =
      let rest = restore_owned_observations binds ready in
      if not (is_replayable obs) then rest else do restore_observation (bind_at binds idx) obs; rest

  restore_events : Bind → List WaitEvent → Exec W (Unit {0})
  restore_events bind [] = pure tt
  restore_events bind (e ∷ es) = do
    observer.restore_ready bind (Observation.event e)
    restore_events bind es

  restore_visit : Option Bind → ArmVisit → Exec W (Unit {0})
  unfolding restore_events
  restore_visit none visit = pure tt
  restore_visit (some bind) visit = restore_events bind (reverse (visit_events visit))

  unfoldable pub restore_admitted : List (Option Bind) → Visits → Exec W (Unit {0})
  unfolding restore_visit
  restore_admitted binds [] = pure tt
  restore_admitted binds ((idx, visit) ∷ visits) = do
    restore_visit (bind_at binds idx) visit
    restore_admitted binds visits

  unfoldable pub emitted : Result PollCycleOutcome → Result (Unit {0}) → Result PollCycleOutcome
  emitted (err e) restored = err e
  emitted (ok out) (ok u) = ok out
  emitted (ok out) (err e) = err e

  -- The admitted events go back whether or not there is an outcome.
  unfoldable pub emit :
      List (Option Bind) → Visits → Result PollCycleOutcome → Exec W PollCycleOutcome
  unfolding emitted
  emit binds visits outcome w =
      let (restored, w') = restore_admitted binds visits w in (emitted outcome restored, w')

  unfoldable pub defer_ready : Option Bind → Observation → Exec W ArmVisit
  unfolding restore_observation
  defer_ready bind obs = do restore_observation bind obs; pure ArmVisit.deferred

  -- The loop of drain_ready. Each round takes an event or ends, so the room that is left bounds
  -- the rounds: with none left the budget has no room, and the loop ends as its test says.
  unfoldable pub drain_loop : ℕ → Bind → CollectBudget → List WaitEvent → Exec W Drained
  unfolding restore_observation
  drain_loop zero bind budget found = pure (record { full = true; budget = budget; found = found })
  drain_loop (suc rounds) bind budget found =
      if not (room_for_registration budget (observer.registration_id bind))
      then pure (record { full = true; budget = budget; found = found })
      else call (observer.poll_ready bind) >>= elim [
        | none ↦ pure (record { full = false; budget = budget; found = found })
        | some obs ↦ elim obs [
          | Observation.event e ↦
              let (taken, budget') = try_take budget e in
              let rest = drain_loop rounds bind budget' (found ++ e ∷ []) in
              if not taken
              then (do
                restore_observation (some bind) (Observation.event e)
                pure (record { full = true; budget = budget'; found = found }))
              else rest
          | Observation.overflow ↦ pure (record { full = true; budget = budget; found = found })
          | other ↦ do
            restore_observation (some bind) other
            pure (record { full = false; budget = budget; found = found })
        ]
      ]

  unfoldable pub drain_ready : Bind → CollectBudget → List WaitEvent → Exec W Drained
  drain_ready bind budget found =
      if not (room_for_registration budget (observer.registration_id bind))
      then pure (record { full = true; budget = budget; found = found })
      else drain_loop (budget.max_events - budget.events) bind budget found

  drain_bound : Option Bind → CollectBudget → List WaitEvent → Exec W Drained
  drain_bound none budget found = pure (record { full = false; budget = budget; found = found })
  drain_bound (some bind) budget found = drain_ready bind budget found

  take_event : Option Bind → WaitEvent → Bool × CollectBudget → Exec W (ArmVisit × CollectBudget)
  unfolding drain_bound
  take_event bind e (false, budget) = do
    visit ← defer_ready bind (Observation.event e)
    pure (visit, budget)
  take_event bind e (true, budget) = do
    drained ← drain_bound bind budget (e ∷ [])
    pure (drained_visit drained.full drained.found, drained.budget)

  unfoldable pub visit_from :
      Option Bind → CollectBudget → Observation → Exec W (ArmVisit × CollectBudget)
  unfolding take_event
  visit_from bind budget (Observation.event e) = take_event bind e (try_take budget e)
  visit_from bind budget Observation.idle = pure (ArmVisit.idle, budget)
  visit_from bind budget Observation.overflow = pure (ArmVisit.overflow, budget)
  visit_from bind budget (Observation.failed reason) = pure (ArmVisit.failed reason, budget)
  visit_from bind budget (Observation.outage reason) = pure (ArmVisit.outage reason, budget)
  visit_from bind budget (Observation.cursor_uncertain reason) =
      pure (ArmVisit.cursor_uncertain reason, budget)
  visit_from bind budget (Observation.degraded reason) = pure (ArmVisit.degraded reason, budget)

  -- The first observation of an index is kept, a later one goes back.
  gather :
      List (Option Bind) → Map ℕ Observation → List (ℕ × Observation) → Exec W (Map ℕ Observation)
  gather binds ready_map [] = pure ready_map
  gather binds ready_map ((idx, obs) ∷ ready) = elim (lookup idx ready_map) [
    | none ↦ gather binds (insert idx obs ready_map) ready
    | some first ↦ do restore_observation (bind_at binds idx) obs; gather binds ready_map ready
  ]

  visit_ready : Option Bind → ℕ → Observation → Round → Exec W Round
  visit_ready bind idx obs r =
      if exhausted r.budget && is_event obs
      then (do visit ← defer_ready bind obs; pure (record r { visits = insert idx visit r.visits }))
      else do
        done ← visit_from bind r.budget obs
        pure (record r { visits = insert idx done.0 r.visits; budget = done.1 })

  -- One index of the fairness order.
  visit_idx : List (Option Bind) → ℕ → Round → Exec W Round
  unfolding visit_ready
  visit_idx binds idx r =
      if is_some (lookup idx r.visits) then pure r else elim (lookup idx r.ready) [
        | none ↦ pure r
        | some obs ↦
            visit_ready (bind_at binds idx) idx obs (record r { ready = remove idx r.ready })
      ]

  visit_all : List (Option Bind) → List ℕ → Round → Exec W Round
  unfolding visit_idx
  visit_all binds [] r = pure r
  visit_all binds (idx ∷ order) r = do r' ← visit_idx binds idx r; visit_all binds order r'

  restore_rest : List (Option Bind) → Map ℕ Observation → Exec W (Unit {0})
  restore_rest binds [] = pure tt
  restore_rest binds ((idx, obs) ∷ ready) = do
    restore_observation (bind_at binds idx) obs
    restore_rest binds ready

  -- record_ready: the visits and the budget after it.
  unfoldable pub record_ready :
      RegistrationSet
      → PollCycleRequest
      → List (Option Bind)
      → CollectBudget
      → Visits
      → List (ℕ × Observation)
      → Exec W (CollectBudget × Visits)
  unfolding gather visit_all restore_rest
  record_ready set request binds budget visits ready = do
    ready_map ← gather binds [] ready
    r ←
        visit_all binds (fairness_order set request)
          (record { budget = budget; visits = visits; ready = ready_map })
    restore_rest binds r.ready
    pure (r.budget, r.visits)
