-- ===== src/Live/Decide/Backoff.antt =====
-- crates/waitprims-async/src/first_match.rs: the wake-up time of a backoff.
use waitprims.Prelude.{ℕ, zero, suc, ◌+◌, ◌-◌, ◌≤◌, min, arith, get_elem?, if◌then◌else◌}
use waitprims.Core.Time.{Timestamp, Calendar, IsShort, saturating_add, saturating_add_bounds, ◌<ᵗ◌}
use waitprims.Core.Messages.{LiveWaitRequest}
use waitprims.Live.Decide.{backoff_ms, or_zero, backoff_delay, backoff_deadline, earliest_deadline}

-- The table, whatever the index.
entry-le : (i : ℕ) → or_zero (get_elem? backoff_ms i) ≤ 1000
entry-le zero = omega arith
entry-le (suc zero) = omega arith
entry-le (suc (suc zero)) = omega arith
entry-le (suc (suc (suc zero))) = omega arith
entry-le (suc (suc (suc (suc zero)))) = omega arith
entry-le (suc (suc (suc (suc (suc zero))))) = omega arith
entry-le (suc (suc (suc (suc (suc (suc i)))))) = omega arith

delay-le : (step : ℕ) → backoff_delay step ≤ 1_000_000_000
unfolding backoff_delay
delay-le step = omega (arith, entry-le (min (step - 1) 5))

delay-IsShort : (step : ℕ) → IsShort (backoff_delay step)
delay-IsShort step = omega (arith, delay-le step)

-- Before both deadlines, a backoff wakes no sooner than now, no later than the run deadline, no
-- later than the logical deadline, and no later than a second from now.
pub backoff_deadline_bounds :
    (calendar : Calendar) (now : Timestamp) (request : LiveWaitRequest) (step : ℕ)
    → now.instant ≤ request.run_deadline.instant
    → now.instant ≤ request.logical_deadline.instant
    → (now.instant ≤ (backoff_deadline calendar now request step).instant)
      × ((backoff_deadline calendar now request step).instant ≤ request.run_deadline.instant)
      × ((backoff_deadline calendar now request step).instant ≤ request.logical_deadline.instant)
      × ((backoff_deadline calendar now request step).instant ≤ now.instant + 1_000_000_000)
unfolding backoff_deadline earliest_deadline
backoff_deadline_bounds calendar now request step at_run at_logical =
    go (saturating_add calendar now (backoff_delay step))
      (saturating_add_bounds calendar now (backoff_delay step) (delay-IsShort step))
  where
    capped : Timestamp → Timestamp
    capped wake =
        let cap =
          if request.run_deadline <ᵗ request.logical_deadline
          then request.run_deadline
          else request.logical_deadline in
        if wake <ᵗ cap then wake else cap

    go :
        (wake : Timestamp)
        → (now.instant ≤ wake.instant) × (wake.instant ≤ now.instant + backoff_delay step)
        → (now.instant ≤ (capped wake).instant)
          × ((capped wake).instant ≤ request.run_deadline.instant)
          × ((capped wake).instant ≤ request.logical_deadline.instant)
          × ((capped wake).instant ≤ now.instant + 1_000_000_000)
    go wake h = (
      ground (arith, at_run, at_logical, h),
      ground (arith, at_run, at_logical, h),
      ground (arith, at_run, at_logical, h),
      ground (arith, at_run, at_logical, h, delay-le step),
    )
