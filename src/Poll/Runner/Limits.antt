-- ===== src/Poll/Runner/Limits.antt =====
-- crates/waitprims-async/src/poll_cycle.rs: the limits of a whole cycle.
use waitprims.Prelude.{
  ℕ, ◌≤◌, ◌<◌, ◌≡◌, refl, ap, ◌∙◌, ◌≢◌, Bool, true, false, String, Option, some, ◌++◌, All, Map,
  insert, collect, lookup-insert, if◌then◌else◌, List, [], ◌∷◌, arith, map, min, length, sum,
  lookup, string_key,
}
use waitprims.Core.Error.{ok}
use waitprims.Core.Types.{Registration, WaitEvent}
use waitprims.Core.Messages.{RegistrationSet, PollCycleRequest, PollCycleOutcome}
use waitprims.Poll.Budget.{
  new, bound_of, event_surface_bytes, u64_max, get_or, event_limit, unwrap_or,
}
use waitprims.Poll.Budget.Gauge.{
  events_gauge, bytes_gauge, registration_gauge, of_registration, gauge,
}
use waitprims.Poll.Visit.Charged.{load, Measured}
use waitprims.Poll.Runner.{Runtime, run_poll_cycle}
use waitprims.Poll.Runner.Bounds.{run_poll_cycle-load}

-- The events of one registration among those given out.
abbrev pub count_of : String → List WaitEvent → ℕ
count_of rid events = sum (map (of_registration rid) events)

abbrev events_most : RegistrationSet → PollCycleRequest → ℕ
events_most set request =
    min set.aggregate_limits.max_events (bound_of request.bound (λ b. b.max_events))

abbrev bytes_most : RegistrationSet → PollCycleRequest → ℕ
bytes_most set request =
    min set.aggregate_limits.max_bytes (bound_of request.bound (λ b. b.max_bytes))

-- The entries of other registrations leave a limit as it is.
collect-others :
    (rid : String) (m : Map String ℕ) (regs : List Registration)
    → All (λ (r : Registration). r.registration_id ≢ rid) regs
    → lookup rid (collect m (map event_limit regs)) ≡ lookup rid m
unfolding collect
collect-others rid m [] h = refl
collect-others rid m (r ∷ rs) h =
    collect-others rid (insert r.registration_id r.bounds.max_events m) rs h.1
    ∙ lookup-insert r.registration_id rid r.bounds.max_events m
    ∙ other (string_key.eq.test r.registration_id rid) (some r.bounds.max_events)
        (λ e. h.0 ((string_key.eq.decides r.registration_id rid).0 e))
  where
    other : (b : Bool) (x : Option ℕ) {y : Option ℕ} → b ≢ true → (if b then x else y) ≡ y
    other true x h = absurd (h refl)
    other false x h = refl

-- The limit of an id is that of the last registration that has it.
collect-last :
    (m : Map String ℕ) (before : List Registration) (r : Registration) (after : List Registration)
    → All (λ (s : Registration). s.registration_id ≢ r.registration_id) after
    → lookup r.registration_id (collect m (map event_limit (before ++ r ∷ after)))
      ≡ some r.bounds.max_events
unfolding collect
collect-last m [] r after h =
    collect-others r.registration_id (insert r.registration_id r.bounds.max_events m) after h
    ∙ lookup-insert r.registration_id r.registration_id r.bounds.max_events m
    ∙ same (string_key.eq.test r.registration_id r.registration_id) (lookup r.registration_id m)
        ((string_key.eq.decides r.registration_id r.registration_id).1 refl)
  where
    same : (b : Bool) {x : Option ℕ} (y : Option ℕ) → b ≡ true → (if b then x else y) ≡ x
    same true y h = refl
    same false y h = cc
collect-last m (s ∷ before) r after h =
    collect-last (insert s.registration_id s.bounds.max_events m) before r after h

load-events : (most : ℕ) (es : List WaitEvent) → load (events_gauge most) es ≡ length es
unfolding events_gauge gauge
load-events most [] = refl
load-events most (e ∷ es) = omega (arith, load-events most es)

module _ (set : RegistrationSet) (request : PollCycleRequest) where
  new-events :
      set.aggregate_limits.max_events ≤ u64_max
      → Measured (events_gauge (events_most set request)) (new set request) 0
  unfolding new events_gauge gauge
  new-events fit = record {
    limits = record { same = refl; limit = omega (arith, fit); within = omega arith };
    charged = refl;
  }

  new-bytes :
      set.aggregate_limits.max_bytes < u64_max
      → Measured (bytes_gauge (bytes_most set request)) (new set request) 0
  unfolding new bytes_gauge gauge
  new-bytes fit = record {
    limits = record { same = refl; limit = omega (arith, fit); within = omega arith };
    charged = refl;
  }

  new-registration :
      (rid : String) (most : ℕ)
      → get_or rid (new set request).reg_max_events u64_max ≡ most
      → most ≤ u64_max
      → Measured (registration_gauge rid most) (new set request) 0
  unfolding new registration_gauge gauge lookup
  new-registration rid most e fit = record {
    limits = record { same = e; limit = omega (arith, e, fit); within = omega arith };
    charged = refl;
  }

  limit_of-last :
      (before : List Registration) (r : Registration) (after : List Registration)
      → set.registrations ≡ before ++ r ∷ after
      → All (λ (s : Registration). s.registration_id ≢ r.registration_id) after
      → get_or r.registration_id (new set request).reg_max_events u64_max ≡ r.bounds.max_events
  unfolding new
  limit_of-last before r after e h =
      ap (λ rs. get_or r.registration_id (collect [] (map event_limit rs)) u64_max) e
      ∙ ap (λ o. unwrap_or o u64_max) (collect-last [] before r after h)

module _ {W Bind : Type 0} (rt : Runtime W Bind) (set : RegistrationSet)
    (request : PollCycleRequest) where
  -- Whatever the observer and the schedule do, and where the limits of the set fit a u64 (the one
  -- on bytes being short of the largest): an outcome that the cycle returns carries no more
  -- events than the set and the request allow, and no more bytes than they allow.
  pub run_poll_cycle-InLimits :
      (fuel : ℕ) (w : W) (o : PollCycleOutcome) (w' : W)
      → set.aggregate_limits.max_events ≤ u64_max
      → set.aggregate_limits.max_bytes < u64_max
      → run_poll_cycle rt set request fuel w ≡ (ok (some o), w')
      → (length o.events
          ≤ min set.aggregate_limits.max_events (bound_of request.bound (λ b. b.max_events)))
        × (sum (map event_surface_bytes o.events)
            ≤ min set.aggregate_limits.max_bytes (bound_of request.bound (λ b. b.max_bytes)))
  unfolding events_gauge bytes_gauge gauge
  run_poll_cycle-InLimits fuel w o w' events_fit bytes_fit e = (
    omega (
      arith,
      load-events (events_most set request) o.events,
      run_poll_cycle-load rt (events_gauge (events_most set request)) set request fuel w o w'
          (new-events set request events_fit) e,
    ),
    run_poll_cycle-load rt (bytes_gauge (bytes_most set request)) set request fuel w o w'
        (new-bytes set request bytes_fit) e,
  )

  -- Whatever the observer and the schedule do: an outcome that the cycle returns carries no more
  -- events of a registration of the set than the bounds of that registration say, where they fit a
  -- u64 and no later registration has its id.
  pub run_poll_cycle-InRegistration :
      (before : List Registration) (r : Registration) (after : List Registration) (fuel : ℕ) (w : W)
      (o : PollCycleOutcome) (w' : W)
      → set.registrations ≡ before ++ r ∷ after
      → All (λ (s : Registration). s.registration_id ≢ r.registration_id) after
      → r.bounds.max_events ≤ u64_max
      → run_poll_cycle rt set request fuel w ≡ (ok (some o), w')
      → count_of r.registration_id o.events ≤ r.bounds.max_events
  unfolding registration_gauge gauge
  run_poll_cycle-InRegistration before r after fuel w o w' split last fit e =
      run_poll_cycle-load rt (registration_gauge r.registration_id r.bounds.max_events) set request
        fuel w o w'
        (new-registration set request r.registration_id r.bounds.max_events
          (limit_of-last set request before r after split last) fit)
        e
