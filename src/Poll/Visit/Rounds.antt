-- ===== src/Poll/Visit/Rounds.antt =====
-- crates/waitprims-async/src/poll_cycle.rs: the rounds that `drain_ready` is given.
use mathlib.Core.Path.{subst}
use waitprims.Prelude.{
  ℕ, zero, suc, ◌+◌, ◌-◌, ◌≤◌, ◌≡◌, refl, Bool, true, false, not, String, Option, none, some, List,
  [], ◌∷◌, ◌++◌, arith, if◌then◌else◌, Bool-cases, inl, inr,
}
use waitprims.Core.Types.{WaitEvent}
use waitprims.Observer.{Observation, Observer, Exec, ◌>>=◌, ◌>>◌, pure, call}
use waitprims.Poll.Budget.{CollectBudget, try_take, room_for_registration}
use waitprims.Poll.Budget.Gauge.{gauge, events_gauge, InEvents, room_for_registration-lem}
use waitprims.Poll.Visit.{Drained, restore_observation, drain_loop}

no_room :
    (budget : CollectBudget) (rid : String)
    → budget.max_events ≤ budget.events
    → room_for_registration budget rid ≡ false
no_room budget rid h = elim (Bool-cases (room_for_registration budget rid)) [
  | inl room ↦ absurd (omega (arith, (room_for_registration-lem budget rid room).0, h))
  | inr full ↦ full
]

taken_events :
    (most : ℕ) (budget : CollectBudget) (e : WaitEvent)
    → InEvents most budget
    → InEvents most (try_take budget e).1
      × ((try_take budget e).1.events ≡ budget.events + (if (try_take budget e).0 then 1 else 0))
unfolding events_gauge gauge
taken_events most budget e h =
    ((events_gauge most).limits_keep budget e h, (events_gauge most).counts budget e h)

one_less :
    (most : ℕ) (budget : CollectBudget) (e : WaitEvent) (rounds : ℕ)
    → InEvents most budget
    → budget.max_events - budget.events ≤ suc rounds
    → (try_take budget e).0 ≡ true
    → (try_take budget e).1.max_events - (try_take budget e).1.events ≤ rounds
one_less most budget e rounds h left t =
    let now = taken_events most budget e h in
    let counted =
      subst (λ b. (try_take budget e).1.events ≡ budget.events + (if b then 1 else 0)) t now.1 in
    omega (arith, now.0.same, h.same, counted, left)

module _ {W Bind : Type 0} (observer : Observer W Bind) (most : ℕ) (bind : Bind) where
  -- What a loop does from a budget on.
  abbrev Rest : Type 0
  Rest = CollectBudget → List WaitEvent → Exec W Drained

  after_poll : Rest → CollectBudget → List WaitEvent → Option Observation → Exec W Drained
  after_poll rest budget found = elim [
    | none ↦ pure (record { full = false; budget = budget; found = found })
    | some obs ↦ elim obs [
      | Observation.event e ↦
          let (taken, budget') = try_take budget e in
          let rest = rest budget' (found ++ e ∷ []) in
          if not taken
          then (do
            restore_observation observer (some bind) (Observation.event e)
            pure (record { full = true; budget = budget'; found = found }))
          else rest
      | Observation.overflow ↦ pure (record { full = true; budget = budget; found = found })
      | other ↦ do
        restore_observation observer (some bind) other
        pure (record { full = false; budget = budget; found = found })
    ]
  ]

  -- Two continuations that agree wherever an event was taken.
  abbrev Agree : Rest → Rest → CollectBudget → Type 0
  Agree f g budget =
      (e : WaitEvent) (found : List WaitEvent) (w : W)
      → (try_take budget e).0 ≡ true
      → f (try_take budget e).1 found w ≡ g (try_take budget e).1 found w

  after_poll-Agree :
      (f g : Rest) (budget : CollectBudget) (found : List WaitEvent) (o : Option Observation)
      (w : W)
      → Agree f g budget
      → after_poll f budget found o w ≡ after_poll g budget found o w
  unfolding after_poll
  after_poll-Agree f g budget found none w h = refl
  after_poll-Agree f g budget found (some (Observation.event e)) w h =
      go (try_take budget e) (λ t. h e (found ++ e ∷ []) w t)
    where
      go :
          (t : Bool × CollectBudget)
          → (t.0 ≡ true → f t.1 (found ++ e ∷ []) w ≡ g t.1 (found ++ e ∷ []) w)
          → (let (taken, budget') = t in
                let rest = f budget' (found ++ e ∷ []) in
                if not taken
                then (do
                  restore_observation observer (some bind) (Observation.event e)
                  pure (record { full = true; budget = budget'; found = found }))
                else rest)
              w
            ≡ (let (taken, budget') = t in
                  let rest = g budget' (found ++ e ∷ []) in
                  if not taken
                  then (do
                    restore_observation observer (some bind) (Observation.event e)
                    pure (record { full = true; budget = budget'; found = found }))
                  else rest)
                w
      go (true, b) k = k refl
      go (false, b) k = refl
  after_poll-Agree f g budget found (some Observation.overflow) w h = refl
  after_poll-Agree f g budget found (some Observation.idle) w h = refl
  after_poll-Agree f g budget found (some (Observation.failed x)) w h = refl
  after_poll-Agree f g budget found (some (Observation.outage x)) w h = refl
  after_poll-Agree f g budget found (some (Observation.cursor_uncertain x)) w h = refl
  after_poll-Agree f g budget found (some (Observation.degraded x)) w h = refl

  -- A drain that is given as many rounds as the budget has events left does what it does with any
  -- more: the bound on the rounds is never what ends it.
  pub drain_loop-enough :
      (more rounds : ℕ) (budget : CollectBudget) (found : List WaitEvent) (w : W)
      → InEvents most budget
      → budget.max_events - budget.events ≤ rounds
      → rounds ≤ more
      → drain_loop observer more bind budget found w
        ≡ drain_loop observer rounds bind budget found w
  unfolding drain_loop after_poll ◌>>=◌
  drain_loop-enough zero zero budget found w h left r = refl
  drain_loop-enough (suc more) zero budget found w h left r =
      rw (no_room budget (observer.registration_id bind) (omega (arith, left))) refl
  drain_loop-enough zero (suc rounds) budget found w h left r = absurd (omega (arith, r))
  drain_loop-enough (suc more) (suc rounds) budget found w h left r =
      go (room_for_registration budget (observer.registration_id bind))
        (call (observer.poll_ready bind)
          >>= after_poll (λ b f. drain_loop observer more bind b f) budget found)
        (call (observer.poll_ready bind)
          >>= after_poll (λ b f. drain_loop observer rounds bind b f) budget found)
        (after_poll-Agree (λ b f. drain_loop observer more bind b f)
          (λ b f. drain_loop observer rounds bind b f) budget found (observer.poll_ready bind w).0
          (observer.poll_ready bind w).1
          λ e found' w' t.
            drain_loop-enough more rounds (try_take budget e).1 found' w'
              (taken_events most budget e h).0 (one_less most budget e rounds h left t)
              (omega (arith, r)))
    where
      go :
          (room : Bool) (m n : Exec W Drained)
          → m w ≡ n w
          → (if not room then pure (record { full = true; budget = budget; found = found }) else m)
              w
            ≡ (if not room
                  then pure (record { full = true; budget = budget; found = found })
                  else n)
                w
      go true m n e = e
      go false m n e = refl
