-- ===== src/Coalesce/Runner/Conserved/Whole.antt =====
-- crates/waitprims-async/src/coalesce.rs: the buffer and the account over a decision.
use mathlib.Core.Path.{subst}
use native.Mathlib.Omega.{arith}
use waitprims.Prelude.{
  ℕ, ◌+◌, ◌≡◌, sym, ap, Bool, true, false, ◌||◌, Option, none, some, List, [], ◌++◌, inr,
}
use waitprims.Core.Error.{Error}
use waitprims.Core.Time.{Timestamp}
use waitprims.Core.Types.{WaitEvent}
use waitprims.Core.Messages.{RegistrationSet, LiveWaitRequest}
use waitprims.Observer.{Exec, ◌>>=◌, pure, call}
use waitprims.Observer.Both.{
  Run, run_pure, run_raise, run_if, run_bind, run_given, run_post, run_any, run_known,
}
use waitprims.Follow.{FollowEnd}
use waitprims.Follow.Slots.{Runtime, SlotSet, events_in, take_events}
use waitprims.Follow.Slots.Custody.{Books, Balanced, weigh}
use waitprims.Follow.Runner.{inside, looked, Next, done, again, out_of_fuel}
use waitprims.Follow.Runner.Conserved.{Open, Closed, run_rearm, run_take_events}
use waitprims.Coalesce.{CoalescePolicy, Pending, push_all, Filled, filled, overflowed}
use waitprims.Coalesce.Fifo.{Ordered, push_all-Ordered}
use waitprims.Coalesce.Within.{Within, Finite}
use waitprims.Coalesce.Within.Turns.{FilledWithin, push_all-Within}
use waitprims.Coalesce.Runner.{
  Emit, Session, through, store, flush, fail_closed, or_close, restore_then_overflow, end_of,
  final_flush,
}
use waitprims.Follow.Slots.Custody.Polls.{Kept}
use waitprims.Follow.{posture_err, at_deadline}
use waitprims.Follow.Slots.{is_some}
use waitprims.Coalesce.Runner.{asked, go_on, settle, unless_faulted, decide_coalesce}
use waitprims.Coalesce.Runner.Conserved.{
  Runs, run_through, run_kept, run_pre, Carries, Emptied, run_flush, Ended, Turned, run_overflow,
  run_buffered, run_apply_turn,
}

pub run_fail_closed :
    {W Bind A : Type 0} (rt : Runtime W Bind) {P : Session W Bind → Type 0}
    {Q : A → Session W Bind → Type 0} (e : Error)
    → Runs P (fail_closed rt e) Q
unfolding fail_closed
run_fail_closed rt {Q = Q} e = run_kept λ c.
    run_bind (λ u s. Unit) run_any
      λ u. run_bind (λ u s. Unit) run_any λ u. run_raise Q e (λ s p. tt)

pub run_or_close :
    {W Bind A : Type 0} (rt : Runtime W Bind) {P : Session W Bind → Type 0}
    {Q : A → Session W Bind → Type 0} (e : Option Error) (turn : Exec (Session W Bind) A)
    → Runs P turn Q
    → Runs P (or_close rt e turn) Q
run_or_close rt (some e) turn h = run_fail_closed rt e
run_or_close rt none turn h = h

module _ {W Bind : Type 0} (rt : Runtime W Bind) (books : Books rt) (f : WaitEvent → ℕ)
    (set : RegistrationSet) (finite : Finite set) where
  -- Between turns: the buffer is within its limits, and the account balances with it.
  abbrev pub Steady : Session W Bind → Type 0
  Steady (c, v) = Within set c.pending × Open rt books f (weigh f c.pending.events) v

  abbrev pub Decided : Option FollowEnd → Session W Bind → Type 0
  Decided none s = Steady s
  Decided (some end) s = Ended rt books f set finite end s

  abbrev pub Went : Next → Session W Bind → Type 0
  Went (done end) s = Ended rt books f set finite end s
  Went (again step) s = Steady s
  Went out_of_fuel s = Steady s

  -- A step of the slots that keeps them open keeps the session steady.
  pub run_kept_through :
      {A : Type 0} {m : Exec (SlotSet Bind × W) A}
      → ((n : ℕ) → Run (Closed rt books f n) (Open rt books f n) m (λ a. Open rt books f n))
      → Runs Steady (through m) (λ a. Steady)
  run_kept_through h =
      run_through {P = λ c v. Within set c.pending × Open rt books f (weigh f c.pending.events) v}
        {Q = λ c a v. Within set c.pending × Open rt books f (weigh f c.pending.events) v}
        λ c. run_given λ w. run_post (λ a v o. (w, o)) (h (weigh f c.pending.events))

  module _ (policy : CoalescePolicy) (now : Timestamp) (request : LiveWaitRequest) where
    abbrev Flushed : List WaitEvent → Emit → Session W Bind → Type 0
    Flushed es c s = (s.0.pending ≡ c.pending) × Carries rt books f set finite es s

    -- The buffer holds the last events, and is flushed.
    run_last_flush :
        (c : Emit) (es : List WaitEvent) (terminal : Option FollowEnd) (stop : Bool) (p : Pending)
        → Within set p
        → p.events ≡ c.pending.events ++ es
        → Runs
            (Flushed es c)
            (store (record c { pending = p }) >>= λ u. flush rt >>= λ u.
              through (call (inside (looked (λ s. s)))) >>= λ s.
              pure (end_of rt set policy now request terminal stop s))
            (Ended rt books f set finite)
    unfolding Emptied
    run_last_flush c es terminal stop p w o =
        run_bind (λ u. Carries rt books f set finite [])
          (run_buffered rt books f set finite c c.next_quiet_emit_at es p w o)
          λ u.
            run_bind (λ u. Emptied rt books f set finite 0) (run_flush rt books f set finite [])
              λ u.
                run_bind (λ a. Emptied rt books f set finite 0) (record { at = λ s p. p })
                  λ s.
                    run_pure (Ended rt books f set finite)
                      (end_of rt set policy now request terminal stop s) (λ s p. inr (p.1.1.1))

    run_final_flush :
        (events : List WaitEvent) (terminal : Option FollowEnd) (stop : Bool)
        → Runs
            (Carries rt books f set finite events)
            (final_flush rt set policy now request events terminal stop)
            (Ended rt books f set finite)
    unfolding final_flush
    run_final_flush events terminal stop = run_kept λ c. run_known λ s p.
        run_pre (λ s p. (ap (λ (x : Emit). x.pending) p.0, p.1))
          (go c (push_all set events c.pending) (push_all-Ordered set events c.pending) (
            push_all-Within set finite events c.pending
              (subst (Within set) (ap (λ (x : Emit). x.pending) p.0) p.1.0)))
      where
        go :
            (c : Emit) (r : Filled Pending)
            → Ordered set (c.pending.events ++ events) r
            → FilledWithin set finite r
            → Runs
                (Flushed events c)
                (elim r [
                  | overflowed unsunk rid ↦ restore_then_overflow rt unsunk rid
                  | filled p ↦ store (record c { pending = p }) >>= λ u. flush rt >>= λ u.
                      through (call (inside (looked (λ s. s)))) >>= λ s.
                      pure (end_of rt set policy now request terminal stop s)
                ])
                (Ended rt books f set finite)
        go c (overflowed unsunk rid) o w = run_overflow rt books f set finite unsunk rid
        go c (filled p) o w = run_last_flush c events terminal stop p w o

    run_asked :
        (es : List WaitEvent) (cancel_arm : Bool)
        → Runs
            (Carries rt books f set finite es)
            (asked rt set policy now request cancel_arm)
            (λ b. Carries rt books f set finite es)
    run_asked es true = run_pure _ true (λ s p. p)
    run_asked es false = record {
      at = λ s p. (
        p.0,
        subst
            (λ a.
              Kept f (weigh f s.0.pending.events + weigh f es) s.1.0.slots a
              × ((weigh f (events_in s.1.0.slots) ≡ 0)
                  × Balanced f (weigh f s.0.pending.events + weigh f es) a))
            (sym (books.token_account s.1.1)) p.1,
      );
    }

    run_settle :
        (es : List WaitEvent) (terminal : Option FollowEnd) (stop : Bool)
        → Runs
            (Carries rt books f set finite es)
            (settle rt set policy now request es terminal stop)
            Decided
    unfolding settle go_on
    run_settle es terminal stop =
        run_if (is_some terminal || stop || at_deadline request now)
          (run_bind (Ended rt books f set finite) (run_final_flush es terminal stop)
            λ end. run_pure Decided (some end) (λ s p. p))
          (run_bind (Turned rt books f set finite)
            (run_apply_turn rt books f set finite policy now es) rearmed)
      where
        rearmed :
            (end : Option FollowEnd)
            → Runs (Turned rt books f set finite end) (go_on rt set policy now request end) Decided
        rearmed (some end) = run_pure Decided (some end) (λ s p. p)
        rearmed none =
            run_bind (λ u. Steady) (run_pre still (run_kept_through (run_rearm rt books f)))
              λ u. run_pure Decided none (λ s p. p)
          where
            still : (s : Session W Bind) → Carries rt books f set finite [] s → Steady s
            still s p = (p.0, (p.1.0.0, λ c. omega (arith, p.1.0.1 c)))

    pub run_decide_coalesce :
        (cancel_arm : Bool)
        → Runs Steady (decide_coalesce rt set policy now request cancel_arm) Decided
    unfolding decide_coalesce unless_faulted
    run_decide_coalesce cancel_arm =
        run_or_close rt (posture_err set request now)
          (unless_faulted rt set policy now request cancel_arm)
          (run_bind (λ e. Steady) (record { at = λ s p. p })
            λ fault. run_or_close rt fault _ (
              run_bind (λ es. Carries rt books f set finite es) taken
                λ es.
                  run_bind (λ t. Carries rt books f set finite es) (record { at = λ s p. p })
                    λ terminal.
                      run_bind (λ b. Carries rt books f set finite es) (run_asked es cancel_arm)
                        λ stop. run_settle es terminal stop))
      where
        taken :
            Runs Steady
              (through (call (inside take_events)))
              (λ es. Carries rt books f set finite es)
        taken = record {
          at = λ s p. (p.0, (run_take_events rt books f (weigh f s.0.pending.events)).at s.1 p.1);
        }
