-- ===== src/Tests.antt =====
-- A small deployment: two arms that read one source, and each theorem with hypotheses at it.
pub mod Data
pub mod Cycle
pub mod Session
pub mod Clock
pub mod Outcomes
pub mod Covered
pub mod Coalesced
use waitprims.Prelude.{
  ◌≢◌, ◌≤◌, ℕ, ◌≡◌, ◌↔◌, refl, Option, none, some, List, [], ◌∷◌, All, any, false, true, arith,
}
use mathlib.Core.List.{Perm}
use waitprims.Core.Error.{ok}
use waitprims.Core.Types.{WaitEvent}
use waitprims.Observer.{Observation, ◌>>=◌}
use waitprims.Race.{FirstReadyOutput}
use waitprims.Live.Outcome.{events, partial, reauthentication_required, base}
use waitprims.Live.Decide.{
  decide, tally, min_by_idx, overflow_outcome, plain_outcome, posture_reject, finish, resolve,
  terminal_deadline, required_binding_complete, lower,
}
use waitprims.Live.Ties.{Quiet, decide_tie, decide_waits, is_overflow}
use waitprims.Live.Shape.{IsAdmissible}
use waitprims.Live.Runner.{
  collected, return, run_first_match, iteration, on_bind, on_bound, decide_and_restore,
  restore_losers, extend_ready, give, event_winner_idx, restore_owned, at_idx,
}
use waitprims.Live.Runner.Custody.{Conserved, decide_and_restore-Conserved}
use waitprims.Live.Runner.Custody.Least.{Distinct}
use waitprims.Live.Runner.Custody.Back.{Reachable}
use waitprims.Live.Runner.LostWinner.{winner_lost}
use waitprims.Live.Runner.Admission.{run_first_match-IsAdmissible}
use waitprims.Live.Runner.{run_loop}
use waitprims.Live.Runner.Returns.{run_loop-Returns}
use waitprims.Live.Decide.{earliest_deadline}
use waitprims.Live.Decide.Backoff.{backoff_deadline_bounds}
use waitprims.Live.Decide.{backoff_deadline}
use waitprims.Tests.Data.{
  World, set, request, event_a, event_b, runtime, timed, ledger, world, fresh_loop, both_ready,
  at_time,
}

decide_tie_example :
    decide set request
      (at_time 3)
      ((2, Observation.event event_b)
        ∷ (1, Observation.event event_a)
        ∷ (3, Observation.overflow)
        ∷ [])
      []
    ≡ some (partial set request (at_time 3) (some event_a) [])
decide_tie_example =
    decide_tie 1 event_a ((3, Observation.overflow) ∷ []) (tt, tt)
      ((2, Observation.event event_b) ∷ []) set request (at_time 3) [] (omega arith, tt)

decide_waits_example :
    (decide set request (at_time 3) ((0, Observation.idle) ∷ []) [] ≡ none)
    ↔ All Quiet ((0, Observation.idle) ∷ [])
decide_waits_example = decide_waits set request (at_time 3) [] ((0, Observation.idle) ∷ [])

-- The run that the next theorem is about.
decides :
    decide_and_restore runtime set request
      (at_time 3)
      ((0, 0) ∷ (1, 1) ∷ [])
      both_ready
      []
      (world 3)
    ≡ (
      ok (some (events request (at_time 3) event_a)),
      record { time = 3; back = (1, Observation.event event_b) ∷ [] },
    )
unfolding decide_and_restore decide tally min_by_idx plain_outcome posture_reject events base
    restore_losers event_winner_idx restore_owned ◌>>=◌
decides = refl

winner_lost_example :
    on_bound runtime set request
      (0 ∷ [])
      fresh_loop
      (collected (record { ready = (0, Observation.event event_a) ∷ []; error = none }))
      (world 20)
    ≡ (ok (return (reauthentication_required request (at_time 21) "lease_expired")), world 22)
winner_lost_example = winner_lost runtime set request 0 fresh_loop event_a (world 20) refl refl refl

distinct : Distinct (tally both_ready).events
unfolding tally
distinct = ((ground arith, tt), (tt, tt))

reachable : All (Reachable {Bind = ℕ} ((0, 0) ∷ (1, 1) ∷ [])) (tally both_ready).events
unfolding tally
reachable = (((0, 0), refl), (((1, 1), refl), tt))

runs : run_first_match runtime set request 1 (world 1) ≡ (
  ok (some (events request (at_time 2) event_a)),
  record { time = 4; back = (1, Observation.event event_b) ∷ [] },
)
unfolding run_first_match iteration on_bind extend_ready decide_and_restore decide tally min_by_idx
    plain_outcome posture_reject finish events base restore_losers event_winner_idx restore_owned
    resolve terminal_deadline required_binding_complete give ◌>>=◌
runs = refl

decide_and_restore-Conserved_example :
    Conserved runtime ledger set request
      (at_time 3)
      []
      both_ready
      (events request (at_time 3) event_a)
      (record { time = 3; back = (1, Observation.event event_b) ∷ [] })
decide_and_restore-Conserved_example =
    decide_and_restore-Conserved runtime ledger set request (at_time 3) ((0, 0) ∷ (1, 1) ∷ [])
      both_ready [] (world 3) (events request (at_time 3) event_a)
      (record { time = 3; back = (1, Observation.event event_b) ∷ [] }) distinct reachable decides

run_first_match-IsAdmissible_example : IsAdmissible set request (events request (at_time 2) event_a)
run_first_match-IsAdmissible_example =
    run_first_match-IsAdmissible runtime timed set request 1 (world 1)
      (events request (at_time 2) event_a)
      (record { time = 4; back = (1, Observation.event event_b) ∷ [] }) runs

due : (earliest_deadline request).instant ≤ 95
unfolding earliest_deadline
due = omega arith

run_loop-Returns_example :
    run_loop runtime set request 1 fresh_loop (world 95) ≢ (ok none, world 96)
run_loop-Returns_example =
    run_loop-Returns runtime timed set request 0 fresh_loop (world 95) (world 96) due

backoff_deadline_bounds_example :
    ((at_time 85).instant ≤ (backoff_deadline runtime.calendar (at_time 85) request 1).instant)
    × ((backoff_deadline runtime.calendar (at_time 85) request 1).instant ≤ 90)
    × ((backoff_deadline runtime.calendar (at_time 85) request 1).instant ≤ 100)
    × ((backoff_deadline runtime.calendar (at_time 85) request 1).instant ≤ 1_000_000_085)
backoff_deadline_bounds_example =
    backoff_deadline_bounds runtime.calendar (at_time 85) request 1 (omega arith) (omega arith)
