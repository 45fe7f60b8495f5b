-- ===== src/Follow/Runner/Conserved/Session.antt =====
-- crates/waitprims-async/src/follow.rs: where the events of a held session go.
use mathlib.Core.Path.{subst}
use waitprims.Prelude.{ℕ, zero, suc, ◌+◌, ◌≡◌, ◌≢◌, refl, sym, Option, none, some, arith}
use waitprims.Core.Error.{Error, Result, ok, err}
use waitprims.Core.Time.{Timestamp}
use waitprims.Core.Types.{WaitEvent}
use waitprims.Core.Messages.{RegistrationSet, LiveWaitRequest}
use waitprims.Observer.{Exec, ◌>>=◌, pure, raise, call}
use waitprims.Observer.Both.{Both, Run, run_pure, run_raise, run_lift, run_call, run_if, run_bind}
use waitprims.Live.Decide.{next_step}
use waitprims.Follow.{
  FollowEnd, resolve, deadline_order, posture_err, earliest_wake, backoff_deadline,
}
use waitprims.Follow.Slots.{
  Runtime, Slot, SlotSet, Wake, new, events_in, take_events, first_terminal, rearm_idle,
  deadline_end, poll_available, harvest_poll_ready, restore_harvested,
}
use waitprims.Follow.Slots
use waitprims.Follow.Slots.Custody.{Books, Balanced, weigh, weigh-new, new-Bound}
use waitprims.Follow.Runner.{
  Selected, collected, woken, Next, done, again, out_of_fuel, after, idle, ready, inside,
  taken_fault, looked, select_turn, rearm, clock_now, finish_cancel, finish_err, after_burst,
  or_fail, deliver, unless_cancelled, unless_faulted, select_arm, round, decide_turn, on_wake,
  sleep_backoff, on_selected, iteration, run_loop, admit, with_slots, run_follow,
}
use waitprims.Follow.Runner.Conserved.{
  Open, Drained, Closed, run_outside, run_clock_now, run_is_cancelled, run_poll_once, run_harvest,
  run_rearm, select_turn-Open, run_sink, run_finish_err, run_finish_cancel, run_take_events,
}

module _ {W Bind : Type 0} (rt : Runtime W Bind) (books : Books rt) (f : WaitEvent → ℕ) where
  -- A turn that ends the session leaves nothing held.
  abbrev Turned : Option FollowEnd → SlotSet Bind × W → Type 0
  Turned none = Open rt books f 0
  Turned (some end) = Closed rt books f 0

  abbrev Went : Next → SlotSet Bind × W → Type 0
  Went (done end) = Closed rt books f 0
  Went (again step) = Open rt books f 0
  Went out_of_fuel = Open rt books f 0

  abbrev Runs : {A : Type 0} → Exec (SlotSet Bind × W) A → (A → SlotSet Bind × W → Type 0) → Type 0
  Runs = Run (Closed rt books f 0) (Open rt books f 0)

  run_or_fail :
      {A : Type 0} {Q : A → SlotSet Bind × W → Type 0} (e : Option Error)
      (turn : Exec (SlotSet Bind × W) A)
      → Runs turn Q
      → Runs (or_fail rt e turn) Q
  run_or_fail {Q} (some e) turn h = run_finish_err rt books f 0 e Q
  run_or_fail none turn h = h

  run_cancelled : Runs (finish_cancel rt >>= λ end. pure (some end)) Turned
  run_cancelled =
      run_bind (λ end. Closed rt books f 0) (run_finish_cancel rt books f 0)
        λ end. run_pure Turned (some end) (λ v c. c)

  module _ (set : RegistrationSet) (request : LiveWaitRequest) (now : Timestamp) where
    run_after_burst :
        (terminal : Option FollowEnd)
        → Run
            (Closed rt books f 0)
            (Drained rt books f 0)
            (after_burst rt set request now terminal)
            Turned
    run_after_burst (some end) = run_pure Turned (some end) (λ v d. d.1.1)
    run_after_burst none =
        run_bind (λ u. Drained rt books f 0)
          (run_call _ (inside (looked (λ s. s.slots))) (λ v d. d))
          λ slots. go (deadline_end set request now slots)
      where
        go :
            (end : Option FollowEnd)
            → Run
                (Closed rt books f 0)
                (Drained rt books f 0)
                (elim end [ some end ↦ pure (some end) | none ↦ rearm rt >>= λ u. pure none ])
                Turned
        go (some end) = run_pure Turned (some end) (λ v d. d.1.1)
        go none =
            run_bind (λ u. Open rt books f 0)
              (record { at = λ v d. (run_rearm rt books f 0).at v d.0 })
              λ u. run_pure Turned none (λ v k. k)

    run_deliver : Runs (deliver rt set request now) Turned
    unfolding deliver
    run_deliver =
        run_bind (λ es. Drained rt books f (0 + weigh f es)) (run_take_events rt books f 0)
          λ es.
            run_bind (λ t. Drained rt books f (0 + weigh f es))
              (run_call _ (inside (looked (λ s. first_terminal s.slots))) (λ v d. d))
              λ terminal.
                run_bind (λ u. Drained rt books f 0) (run_sink rt books f 0 es)
                  λ u. run_after_burst terminal

    run_decide_turn : Runs (decide_turn rt set request now) Turned
    unfolding decide_turn unless_faulted unless_cancelled
    run_decide_turn =
        run_or_fail (posture_err set request now) (unless_faulted rt set request now) (
          run_bind (λ e. Open rt books f 0) (run_call _ (inside taken_fault) (λ v k. k))
            λ fault. run_or_fail fault (unless_cancelled rt set request now) (
              run_bind (λ b. Open rt books f 0) (run_is_cancelled rt books f 0)
                λ stop. run_if stop run_cancelled run_deliver))

    run_on_wake : Runs (on_wake rt set request now) Turned
    unfolding on_wake
    run_on_wake =
        run_bind (λ u. Open rt books f 0) (run_rearm rt books f 0)
          λ u.
            run_bind (λ u. Open rt books f 0) (run_poll_once rt books f 0)
              λ u. run_bind (λ u. Open rt books f 0) (run_harvest rt books f 0) λ u. run_decide_turn

  run_after :
      (step : ℕ) (turn : Exec (SlotSet Bind × W) (Option FollowEnd))
      → Runs turn Turned
      → Runs (turn >>= λ end. pure (after step end)) Went
  run_after step turn h = run_bind Turned h go
    where
      go :
          (end : Option FollowEnd)
          → Run (Closed rt books f 0) (Turned end) (pure (after step end)) Went
      go none = run_pure Went (again step) (λ v k. k)
      go (some end) = run_pure Went (done end) (λ v c. c)

  module _ (set : RegistrationSet) (request : LiveWaitRequest) where
    run_sleep_backoff :
        (step : ℕ) → Runs (sleep_backoff rt set request step) (λ u. Open rt books f 0)
    unfolding sleep_backoff
    run_sleep_backoff step =
        run_bind (λ now. Open rt books f 0) (run_clock_now rt books f 0)
          λ now.
            run_outside rt books f 0 (rt.pause (backoff_deadline rt.calendar now set request step))
              (books.pause_account (backoff_deadline rt.calendar now set request step))

    run_timed :
        (step : ℕ) (turn : Timestamp → Exec (SlotSet Bind × W) (Option FollowEnd))
        → ((now : Timestamp) → Runs (turn now) Turned)
        → Runs (clock_now rt >>= λ now. turn now >>= λ end. pure (after step end)) Went
    run_timed step turn h =
        run_bind (λ now. Open rt books f 0) (run_clock_now rt books f 0)
          λ now. run_after step (turn now) (h now)

    run_on_selected :
        (step : ℕ) (selected : Option (Selected Wake))
        → Runs (on_selected rt set request step selected) Went
    unfolding on_selected
    run_on_selected step none = run_pure Went out_of_fuel (λ v k. k)
    run_on_selected step (some (collected (err e))) =
        run_bind (λ now. Open rt books f 0) (run_clock_now rt books f 0)
          λ now.
            run_or_fail (posture_err set request now) (finish_err rt e)
              (run_finish_err rt books f 0 e Went)
    run_on_selected step (some (collected (ok idle))) =
        run_bind (λ u. Open rt books f 0) (run_sleep_backoff (next_step step))
          λ u. run_timed (next_step step) (on_wake rt set request) (run_on_wake set request)
    run_on_selected step (some (collected (ok ready))) =
        run_timed step (decide_turn rt set request) (run_decide_turn set request)
    run_on_selected step (some (woken Slots.cancelled)) =
        run_bind (λ u. Open rt books f 0) (run_poll_once rt books f 0)
          λ u. run_timed step (decide_turn rt set request) (run_decide_turn set request)
    run_on_selected step (some (woken Slots.slept)) =
        run_timed step (on_wake rt set request) (run_on_wake set request)

    run_iteration : (polls step : ℕ) → Runs (iteration rt set request polls step) Went
    unfolding iteration round select_arm
    run_iteration polls step =
        run_bind (λ now. Open rt books f 0) (run_clock_now rt books f 0)
          λ now. run_or_fail (posture_err set request now) (round rt set request polls step) (
            run_bind (λ b. Open rt books f 0) (run_is_cancelled rt books f 0)
              λ stop.
                run_if stop
                  (run_bind (λ end. Closed rt books f 0) (run_finish_cancel rt books f 0)
                    λ end. run_pure Went (done end) (λ v c. c))
                  (run_bind (λ s. Open rt books f 0) selects (run_on_selected step)))
      where
        selects :
            Runs
              (call (select_turn rt (rt.wakes (earliest_wake set request)) polls))
              (λ s. Open rt books f 0)
        selects = run_call _ (select_turn rt (rt.wakes (earliest_wake set request)) polls) λ v k.
            select_turn-Open rt books f 0 (rt.wakes (earliest_wake set request)) polls v
              (books.wakes_account (earliest_wake set request)) k

    run_run_loop : (polls fuel step : ℕ) → Runs (run_loop rt set request polls fuel step) Turned
    unfolding run_loop
    run_run_loop polls zero step = run_pure Turned none (λ v k. k)
    run_run_loop polls (suc fuel) step =
        run_bind Went (run_iteration polls step) (go (run_run_loop polls fuel))
      where
        go :
            ((step' : ℕ) → Runs (run_loop rt set request polls fuel step') Turned)
            → (next : Next)
            → Run
                (Closed rt books f 0)
                (Went next)
                (elim next [
                  | done end ↦ pure (some end)
                  | again step' ↦ run_loop rt set request polls fuel step'
                  | out_of_fuel ↦ pure none
                ])
                Turned
        go rest (done end) = run_pure Turned (some end) (λ v c. c)
        go rest (again step') = rest step'
        go rest out_of_fuel = run_pure Turned none (λ v k. k)

    -- Where the account balances, and until the fuel runs out.
    abbrev Fair : W → Type 0
    Fair w = Balanced f 0 (books.account w)

    abbrev FairEnd : Option FollowEnd → W → Type 0
    FairEnd none w = Unit
    FairEnd (some end) w = Fair w

    run_admit : Run Fair Fair (admit rt set request) (λ u. Fair)
    unfolding admit
    run_admit =
        run_bind (λ u. Fair) (run_lift (λ u. Fair) (resolve set request) (λ w b. b) (λ u w b. b))
          λ u.
            run_bind (λ u. Fair)
              (run_lift (λ u. Fair) (deadline_order request) (λ w b. b) (λ u w b. b))
              λ u.
                run_bind (λ now. Fair)
                  (run_call (λ now. Fair) rt.now
                    (λ w b. subst (Balanced f 0) (sym (books.now_account w)) b))
                  λ now. go (posture_err set request now)
      where
        go :
            (p : Option Error)
            → Run Fair Fair (elim p [ some e ↦ raise e | none ↦ pure tt ]) (λ u. Fair)
        go (some e) = run_raise (λ u. Fair) e (λ w b. b)
        go none = run_pure (λ u. Fair) tt (λ w b. b)

    opened : (w : W) → Fair w → Open rt books f 0 (new set.registrations, w)
    unfolding new
    opened w b = (
      new-Bound Bind set.registrations,
      λ c. omega (arith, b c, weigh-new Bind f set.registrations),
    )

    run_with_slots :
        (polls fuel : ℕ)
        → Run Fair Fair (with_slots rt set request (run_loop rt set request polls fuel 0)) FairEnd
    run_with_slots polls fuel = record {
      at = λ w b.
          go (run_loop rt set request polls fuel 0 (new set.registrations, w))
            ((run_run_loop polls fuel 0).at (new set.registrations, w) (opened w b));
    }
      where
        go :
            (r : Result (Option FollowEnd) × (SlotSet Bind × W))
            → Both (Closed rt books f 0) Turned r
            → Both Fair FairEnd (let (x, v) = r in (x, v.1))
        go (ok none, v) h = tt
        go (ok (some end), v) h = h
        go (err e, v) h = h

    run_run_follow : (polls fuel : ℕ) → Run Fair Fair (run_follow rt set request polls fuel) FairEnd
    unfolding run_follow
    run_run_follow polls fuel = run_bind (λ u. Fair) run_admit (λ u. run_with_slots polls fuel)

    -- A session that comes to an end or to an error, and that was given enough polls and rounds,
    -- loses no event: unless a restore or the sink failed, whatever weight events are given, those
    -- that the observer gave weigh as much as those that were sunk and those that were put back.
    pub run_follow-Balanced :
        (polls fuel : ℕ) (w w' : W) (r : Result (Option FollowEnd))
        → Balanced f 0 (books.account w)
        → run_follow rt set request polls fuel w ≡ (r, w')
        → r ≢ ok none
        → Balanced f 0 (books.account w')
    run_follow-Balanced polls fuel w w' r b e n =
        go r n (subst (Both Fair FairEnd) e ((run_run_follow polls fuel).at w b))
      where
        go : (r : Result (Option FollowEnd)) → r ≢ ok none → Both Fair FairEnd (r, w') → Fair w'
        go (ok none) n h = elim (n refl) [ ]
        go (ok (some end)) n h = h
        go (err x) n h = h
