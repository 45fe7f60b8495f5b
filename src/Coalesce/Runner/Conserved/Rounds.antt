-- ===== src/Coalesce/Runner/Conserved/Rounds.antt =====
-- crates/waitprims-async/src/coalesce.rs: the buffer and the account over a whole session.
use mathlib.Core.Path.{subst}
use native.Mathlib.Omega.{arith}
use waitprims.Prelude.{
  ℕ, zero, suc, ◌≡◌, ◌≢◌, sym, Bool, true, false, Option, none, some, ◌⊎◌, inl, inr,
}
use waitprims.Core.Refs.{IdToken}
use waitprims.Core.Error.{Error, Result, ok, err}
use waitprims.Core.Time.{Timestamp}
use waitprims.Core.Types.{WaitEvent}
use waitprims.Core.Messages.{RegistrationSet, LiveWaitRequest}
use waitprims.Observer.{Exec, ◌>>=◌, pure, raise, call}
use waitprims.Observer.Both.{Both, Run, run_pure, run_raise, run_call, run_bind}
use waitprims.Follow.{FollowEnd}
use waitprims.Follow.Slots.{Runtime}
use waitprims.Follow.Slots.Custody.{Books, Balanced}
use waitprims.Follow.Runner.{Next, done, again, out_of_fuel, after}
use waitprims.Follow.Runner.Conserved.{run_rearm}
use waitprims.Coalesce.{CoalescePolicy, empty, overflow_end}
use waitprims.Coalesce.Within.{Finite}
use waitprims.Coalesce.Within.Turns.{empty-Within}
use waitprims.Coalesce.Runner.{Alarm, Session, through, fail_closed}
use waitprims.Observer.Both.{run_lift}
use waitprims.Follow.{posture_err, earliest_wake, backoff_deadline, resolve, deadline_order}
use waitprims.Follow.Slots.{new}
use waitprims.Live.Decide.{next_step}
use waitprims.Follow.Slots.Custody.{weigh-new, new-Bound}
use waitprims.Follow.Runner.{Selected, collected, woken, idle, ready, select_turn, admit}
use waitprims.Follow.Runner.Conserved.{
  run_outside, run_clock_now, run_is_cancelled, run_poll_once, run_harvest, select_turn-Open,
}
use waitprims.Coalesce.Runner.{
  poll_and_harvest, decide_now, refresh, quiet_at, sooner_quiet, sleep_idle, on_selected, is_early,
  decide_early, select_arm, round, iteration, run_loop, with_session, run_coalesce, cancelled,
  slept, quiet,
}
use waitprims.Coalesce.Runner.Conserved.{Any, Runs, run_kept, run_pre}
use waitprims.Coalesce.Runner.Conserved.Whole.{
  Steady, Decided, Went, run_kept_through, run_decide_coalesce, run_or_close, run_fail_closed,
}

module _ {W Bind : Type 0} (rt : Runtime W Bind) (books : Books rt) (f : WaitEvent → ℕ)
    (set : RegistrationSet) (finite : Finite set) where
  module _ (policy : CoalescePolicy) (request : LiveWaitRequest) where
    run_poll_and_harvest :
        Runs
          (Steady rt books f set finite)
          (poll_and_harvest rt set policy request)
          (λ u. (Steady rt books f set finite))
    unfolding poll_and_harvest
    run_poll_and_harvest =
        run_bind (λ u. (Steady rt books f set finite))
          (run_kept_through rt books f set finite (run_poll_once rt books f))
          λ u. run_kept_through rt books f set finite (run_harvest rt books f)

    run_decide_now :
        (cancel_arm : Bool)
        → Runs
            (Steady rt books f set finite)
            (decide_now rt set policy request cancel_arm)
            (Decided rt books f set finite)
    unfolding decide_now
    run_decide_now cancel_arm =
        run_bind (λ now. (Steady rt books f set finite))
          (run_kept_through rt books f set finite (run_clock_now rt books f))
          λ now. run_decide_coalesce rt books f set finite policy now request cancel_arm

    run_refresh :
        Runs
          (Steady rt books f set finite)
          (refresh rt set policy request)
          (Decided rt books f set finite)
    unfolding refresh
    run_refresh =
        run_bind (λ u. (Steady rt books f set finite))
          (run_kept_through rt books f set finite (run_rearm rt books f))
          λ u.
            run_bind (λ u. (Steady rt books f set finite)) run_poll_and_harvest
              λ u. run_decide_now false

    run_sleep_idle :
        (step : ℕ)
        → Runs
            (Steady rt books f set finite)
            (sleep_idle rt set policy request step)
            (λ u. (Steady rt books f set finite))
    unfolding sleep_idle
    run_sleep_idle step =
        run_bind (λ now. (Steady rt books f set finite))
          (run_kept_through rt books f set finite (run_clock_now rt books f))
          λ now. run_kept λ c.
            run_pre (λ s p. p.1)
              (run_kept_through rt books f set finite λ n. run_outside rt books f n _ (
                books.pause_account (
                  sooner_quiet rt set policy request
                    (backoff_deadline rt.calendar now set request step)
                    (quiet_at rt set policy request c))))

    run_after :
        (step : ℕ) (turn : Exec (Session W Bind) (Option FollowEnd))
        → Runs (Steady rt books f set finite) turn (Decided rt books f set finite)
        → Runs
            (Steady rt books f set finite)
            (turn >>= λ end. pure (after step end))
            (Went rt books f set finite)
    run_after step turn h = run_bind (Decided rt books f set finite) h go
      where
        go :
            (end : Option FollowEnd)
            → Runs
                ((Decided rt books f set finite) end)
                (pure (after step end))
                (Went rt books f set finite)
        go none = run_pure (Went rt books f set finite) (again step) (λ s p. p)
        go (some end) = run_pure (Went rt books f set finite) (done end) (λ s p. p)

    run_on_selected :
        (step : ℕ) (selected : Option (Selected Alarm))
        → Runs
            (Steady rt books f set finite)
            (on_selected rt set policy request step selected)
            (Went rt books f set finite)
    unfolding on_selected
    run_on_selected step none = run_pure (Went rt books f set finite) out_of_fuel (λ s p. p)
    run_on_selected step (some (collected (err e))) =
        run_bind (λ now. (Steady rt books f set finite))
          (run_kept_through rt books f set finite (run_clock_now rt books f))
          λ now.
            run_or_close rt (posture_err set request now) (fail_closed rt e) (run_fail_closed rt e)
    run_on_selected step (some (collected (ok idle))) =
        run_bind (λ u. (Steady rt books f set finite)) (run_sleep_idle (next_step step))
          λ u. run_after (next_step step) _ run_refresh
    run_on_selected step (some (collected (ok ready))) = run_after step _ (run_decide_now false)
    run_on_selected step (some (woken cancelled)) =
        run_bind (λ u. (Steady rt books f set finite)) run_poll_and_harvest
          λ u. run_after step _ (run_decide_now true)
    run_on_selected step (some (woken slept)) = run_after step _ run_refresh
    run_on_selected step (some (woken quiet)) = run_after step _ run_refresh

    run_decide_early :
        (now : Timestamp) (early : Bool)
        → Runs
            (Steady rt books f set finite)
            (decide_early rt set policy request now early)
            (Decided rt books f set finite)
    unfolding decide_early
    run_decide_early now false = run_pure (Decided rt books f set finite) none (λ s p. p)
    run_decide_early now true =
        run_bind (λ u. (Steady rt books f set finite)) run_poll_and_harvest
          λ u.
            run_bind (λ b. (Steady rt books f set finite))
              (run_kept_through rt books f set finite (run_is_cancelled rt books f))
              λ stop. run_decide_coalesce rt books f set finite policy now request stop

    module _ (alarms : Timestamp → Option Timestamp → W → Option Alarm × W)
        (alarms_account : (t : Timestamp) (q : Option Timestamp) (w : W)
          → books.account (alarms t q w).1 ≡ books.account w) where
      run_select_arm :
          (polls step : ℕ) (end : Option FollowEnd)
          → Runs
              ((Decided rt books f set finite) end)
              (select_arm rt set policy request alarms polls step end)
              (Went rt books f set finite)
      unfolding select_arm
      run_select_arm polls step (some end) =
          run_pure (Went rt books f set finite) (done end) (λ s p. p)
      run_select_arm polls step none = run_kept λ c.
          run_pre (λ s p. p.1)
            (run_bind (λ sel. (Steady rt books f set finite))
              (selects (quiet_at rt set policy request c)) (run_on_selected step))
        where
          selects :
              (q : Option Timestamp)
              → Runs
                  (Steady rt books f set finite)
                  (through (call (select_turn rt (alarms (earliest_wake set request) q) polls)))
                  (λ sel. (Steady rt books f set finite))
          selects q = run_kept_through rt books f set finite λ n.
              run_call _ (select_turn rt (alarms (earliest_wake set request) q) polls) λ v k.
                select_turn-Open rt books f n (alarms (earliest_wake set request) q) polls v
                  (alarms_account (earliest_wake set request) q) k

      run_iteration :
          (polls step : ℕ)
          → Runs
              (Steady rt books f set finite)
              (iteration rt set policy request alarms polls step)
              (Went rt books f set finite)
      unfolding iteration round
      run_iteration polls step =
          run_bind (λ now. (Steady rt books f set finite))
            (run_kept_through rt books f set finite (run_clock_now rt books f))
            λ now. run_or_close rt (posture_err set request now) _ (
              run_bind (λ now. (Steady rt books f set finite))
                (run_kept_through rt books f set finite (run_clock_now rt books f))
                λ now.
                  run_bind (λ b. (Steady rt books f set finite))
                    (run_kept_through rt books f set finite (run_is_cancelled rt books f))
                    λ stop. run_kept λ c.
                      run_pre (λ s p. p.1)
                        (run_bind (Decided rt books f set finite)
                          (run_decide_early now (is_early rt set policy request now stop c))
                          λ end. run_select_arm polls step end))

      run_run_loop :
          (polls fuel step : ℕ)
          → Runs
              (Steady rt books f set finite)
              (run_loop rt set policy request alarms polls fuel step)
              (Decided rt books f set finite)
      unfolding run_loop
      run_run_loop polls zero step = run_pure (Decided rt books f set finite) none (λ s p. p)
      run_run_loop polls (suc fuel) step =
          run_bind (Went rt books f set finite) (run_iteration polls step)
            (go (run_run_loop polls fuel))
        where
          go :
              ((step' : ℕ)
                → Runs
                    (Steady rt books f set finite)
                    (run_loop rt set policy request alarms polls fuel step')
                    (Decided rt books f set finite))
              → (next : Next)
              → Runs
                  ((Went rt books f set finite) next)
                  (elim next [
                    | done end ↦ pure (some end)
                    | again step' ↦ run_loop rt set policy request alarms polls fuel step'
                    | out_of_fuel ↦ pure none
                  ])
                  (Decided rt books f set finite)
          go rest (done end) = run_pure (Decided rt books f set finite) (some end) (λ s p. p)
          go rest (again step') = rest step'
          go rest out_of_fuel = run_pure (Decided rt books f set finite) none (λ s p. p)

      abbrev Start : W → Session W Bind
      Start w = (record { pending = empty; next_quiet_emit_at = none }, (new set.registrations, w))

      opened : (w : W) → Balanced f 0 (books.account w) → Steady rt books f set finite (Start w)
      unfolding new
      opened w b = (
        empty-Within set finite,
        (
          new-Bound Bind set.registrations,
          λ c. omega (arith, b c, weigh-new Bind f set.registrations),
        ),
      )

      -- What is asked of the world once the session is over.
      abbrev Over : Option FollowEnd → W → Type 0
      Over none w = Unit
      Over (some end) w =
          ((rid : IdToken) × (end ≡ overflow_end rid)) ⊎ Balanced f 0 (books.account w)

      run_with_session :
          (polls fuel : ℕ)
          → Run Any
              (λ w. Balanced f 0 (books.account w))
              (with_session rt set policy request alarms
                (run_loop rt set policy request alarms polls fuel 0))
              Over
      run_with_session polls fuel = record {
        at = λ w b.
            go (run_loop rt set policy request alarms polls fuel 0 (Start w))
              ((run_run_loop polls fuel 0).at (Start w) (opened w b));
      }
        where
          go :
              (r : Result (Option FollowEnd) × Session W Bind)
              → Both Any (Decided rt books f set finite) r
              → Both {W = W} {A = Option FollowEnd} Any Over (let (x, s) = r in (x, s.1.1))
          go (ok none, s) h = tt
          go (ok (some end), s) h = h
          go (err e, s) h = tt

      run_admit :
          Run Any
            (λ w. Balanced f 0 (books.account w))
            (admit rt set request)
            (λ u w. Balanced f 0 (books.account w))
      unfolding admit
      run_admit =
          run_bind (λ u w. Balanced f 0 (books.account w))
            (run_lift _ (resolve set request) (λ w b. tt) (λ u w b. b))
            λ u.
              run_bind (λ u w. Balanced f 0 (books.account w))
                (run_lift _ (deadline_order request) (λ w b. tt) (λ u w b. b))
                λ u.
                  run_bind (λ now w. Balanced f 0 (books.account w))
                    (run_call _ rt.now (λ w b. subst (Balanced f 0) (sym (books.now_account w)) b))
                    λ now. go (posture_err set request now)
        where
          go :
              (p : Option Error)
              → Run Any
                  (λ w. Balanced f 0 (books.account w))
                  (elim p [ some e ↦ raise e | none ↦ pure tt ])
                  (λ u w. Balanced f 0 (books.account w))
          go (some e) = run_raise _ e (λ w b. tt)
          go none = run_pure _ tt (λ w b. b)

      run_run_coalesce :
          (polls fuel : ℕ)
          → Run Any
              (λ w. Balanced f 0 (books.account w))
              (run_coalesce rt set policy request alarms polls fuel)
              Over
      unfolding run_coalesce
      run_run_coalesce polls fuel =
          run_bind (λ u w. Balanced f 0 (books.account w)) run_admit
            λ u. run_with_session polls fuel

      -- Where no limit is the largest u64: a coalescing session that ends without an error and not
      -- by an overflow has lost no event. Unless the sink failed, whatever weight events are given,
      -- those that the observer gave weigh as much as those that were sunk and those put back.
      pub run_coalesce-Balanced :
          (polls fuel : ℕ) (w w' : W) (end : FollowEnd)
          → Balanced f 0 (books.account w)
          → run_coalesce rt set policy request alarms polls fuel w ≡ (ok (some end), w')
          → ((rid : IdToken) → end ≢ overflow_end rid)
          → Balanced f 0 (books.account w')
      run_coalesce-Balanced polls fuel w w' end b e n =
          go (subst (Both Any Over) e ((run_run_coalesce polls fuel).at w b))
        where
          go :
              ((rid : IdToken) × (end ≡ overflow_end rid)) ⊎ Balanced f 0 (books.account w')
              → Balanced f 0 (books.account w')
          go (inl (rid, x)) = elim (n rid x) [ ]
          go (inr c) = c

      -- Where no limit is the largest u64: a round that goes on leaves a buffer whose counters are
      -- exact and whose events are within the limits, and an account that balances with what the
      -- buffer and the slots hold, if it was so before.
      pub iteration-Steady :
          (polls step step' : ℕ) (s s' : Session W Bind)
          → Steady rt books f set finite s
          → iteration rt set policy request alarms polls step s ≡ (ok (again step'), s')
          → Steady rt books f set finite s'
      iteration-Steady polls step step' s s' k e =
          subst (Both {A = Next} Any (Went rt books f set finite)) e
            ((run_iteration polls step).at s k)
