-- ===== src/Coalesce/Runner/Conserved.antt =====
-- crates/waitprims-async/src/coalesce.rs: the buffer and the account over a turn.
pub mod Whole
pub mod Rounds
use mathlib.Core.Path.{subst}
use native.Mathlib.Omega.{arith}
use waitprims.Prelude.{
  ℕ, zero, suc, ◌+◌, ◌≡◌, refl, sym, ap, ◌∙◌, Bool, true, false, not, ◌&&◌, ◌||◌, Option, none,
  some, List, [], ◌∷◌, ◌++◌, any, if◌then◌else◌, ◌⊎◌, inl, inr,
}
use waitprims.Core.Refs.{IdToken}
use waitprims.Core.Error.{Error, Result, ok, err}
use waitprims.Core.Time.{Timestamp}
use waitprims.Core.Types.{WaitEvent}
use waitprims.Core.Messages.{RegistrationSet, LiveWaitRequest}
use waitprims.Observer.{Exec, ◌>>=◌, pure, raise, call, lift}
use waitprims.Observer.Both.{
  Both, Run, run_pure, run_raise, run_call, run_if, run_bind, run_given, run_post, run_any,
}
use waitprims.Follow.{FollowEnd, terminal_arm, TerminalArmKind}
use waitprims.Follow
use waitprims.Follow.Slots.{Runtime, SlotSet, events_in, restore_custody, take_events}
use waitprims.Follow.Slots.Custody.{Books, Balanced, weigh, weigh-append, sinks-Balanced}
use waitprims.Follow.Runner.{sink, rearm, inside, looked, Next, done, again, out_of_fuel, after}
use waitprims.Follow.Runner.Conserved.{Open, Drained, Closed, run_sink, run_rearm, run_take_events}
use waitprims.Coalesce.{
  CoalescePolicy, Pending, empty, is_empty, push_all, Filled, filled, overflowed, Sorted, sort_turn,
  is_urgent, or_at, interval_is_due, overflow_end,
}
use waitprims.Coalesce.Fifo.{
  Ordered, push_all-Ordered, Sifted, sort_turn-Sifted, quiet_of, urgent_of, weigh-parted,
}
use waitprims.Coalesce.Within.{Within, Finite}
use waitprims.Coalesce.Within.Turns.{
  FilledWithin, push_all-Within, SortedWithin, sort_turn-Within, empty-Within,
}
use waitprims.Coalesce.Runner.{
  Emit, Alarm, Session, through, kept, store, flush, fail_closed, or_close, restore_then_overflow,
  urgent_burst, due, emit_quiet, apply_nothing, apply_all, apply_urgent, hold_back, apply_quiet,
  starts_interval, apply_events, apply_some, apply_turn, end_of, final_flush,
}

-- Errors are left aside.
abbrev pub Any : {A : Type 0} → A → Type 0
Any a = Unit

abbrev pub Runs :
    {W Bind A : Type 0}
    → (Session W Bind → Type 0)
    → Exec (Session W Bind) A
    → (A → Session W Bind → Type 0)
    → Type 0
Runs = Run Any

module _ {W Bind : Type 0} where
  pub run_through :
      {A : Type 0} {m : Exec (SlotSet Bind × W) A} {E P : Emit → SlotSet Bind × W → Type 0}
      {Q : Emit → A → SlotSet Bind × W → Type 0}
      → ((c : Emit) → Run (E c) (P c) m (Q c))
      → Runs (λ s. P s.0 s.1) (through m) (λ a s. Q s.0 a s.1)
  run_through {A = A} {m = m} {E = E} {P = P} {Q = Q} h = record {
    at = λ s p. go s.0 (m s.1) ((h s.0).at s.1 p);
  }
    where
      go :
          (c : Emit) (r : Result A × (SlotSet Bind × W))
          → Both (E c) (Q c) r
          → Both Any (λ a (s : Session W Bind). Q s.0 a s.1) (let (x, v) = r in (x, (c, v)))
      go c (ok a, v) q = q
      go c (err e, v) q = tt

  -- What is kept is known after it is read.
  pub run_kept :
      {B : Type 0} {f : Emit → Exec (Session W Bind) B} {P : Session W Bind → Type 0}
      {Q : B → Session W Bind → Type 0}
      → ((c : Emit) → Runs (λ s. (s.0 ≡ c) × P s) (f c) Q)
      → Runs P (kept >>= f) Q
  unfolding ◌>>=◌
  run_kept h = record { at = λ s p. (h s.0).at s (refl, p) }

  pub run_store :
      {P : Session W Bind → Type 0} (Q : Session W Bind → Type 0) (c : Emit)
      → ((s : Session W Bind) → P s → Q (c, s.1))
      → Runs P (store c) (λ u. Q)
  run_store Q c h = record { at = h }

  pub run_pre :
      {A : Type 0} {m : Exec (Session W Bind) A} {Q : A → Session W Bind → Type 0}
      {P P' : Session W Bind → Type 0}
      → ((s : Session W Bind) → P' s → P s)
      → Runs P m Q
      → Runs P' m Q
  run_pre weaker h = record { at = λ s p. h.at s (weaker s p) }

module _ {W Bind : Type 0} (rt : Runtime W Bind) (books : Books rt) (f : WaitEvent → ℕ)
    (set : RegistrationSet) (finite : Finite set) where
  -- The buffer is within its limits, and the account balances with it and the turn's events.
  abbrev pub Carries : List WaitEvent → Session W Bind → Type 0
  Carries es (c, v) =
      Within set c.pending × Drained rt books f (weigh f c.pending.events + weigh f es) v

  drained_eq :
      (m n : ℕ) (v : SlotSet Bind × W) → m ≡ n → Drained rt books f m v → Drained rt books f n v
  drained_eq m n v e d = subst (λ k. Drained rt books f k v) e d

  -- The buffer is emptied, and what it held is in hand.
  pub Emptied : ℕ → Session W Bind → Type 0
  Emptied n (c, v) = (c.pending ≡ empty) × Drained rt books f n v

  sunk_through :
      (es gone : List WaitEvent)
      → Runs
          (Emptied (weigh f es + weigh f gone))
          (through (sink rt gone))
          (λ u s. Emptied (weigh f es) s)
  unfolding Emptied
  sunk_through es gone =
      run_through
        {P = λ c v. (c.pending ≡ empty) × Drained rt books f (weigh f es + weigh f gone) v}
        {Q = λ c u v. (c.pending ≡ empty) × Drained rt books f (weigh f es) v}
        λ c. run_given λ e. run_post (λ u v d. (e, d)) (run_sink rt books f (weigh f es) gone)

  pub run_flush : (es : List WaitEvent) → Runs (Carries es) (flush rt) (λ u. Emptied (weigh f es))
  unfolding Emptied
  run_flush es = run_kept λ c.
      run_bind (λ u. Emptied (weigh f es + weigh f c.pending.events))
        (run_store _ (record c { pending = empty })
          (λ s p. (
            refl,
            drained_eq _ _ s.1 (omega (arith, ap (λ (x : Emit). weigh f x.pending.events) p.0))
                p.1.1,
          )))
        λ u. sunk_through es c.pending.events

  -- A quiet emit leaves a session that carries nothing more.
  run_emit_quiet :
      (policy : CoalescePolicy) (now : Timestamp)
      → Runs (Carries []) (emit_quiet rt set policy now) (λ end s. (end ≡ none) × Carries [] s)
  unfolding emit_quiet Emptied
  run_emit_quiet policy now = run_kept λ c.
      run_if (is_empty c.pending) (run_pure _ none (λ s p. (refl, p.1))) (
        run_pre (λ s p. p.1)
          (run_bind (λ u. Emptied 0) (run_flush [])
            λ u.
              run_bind (λ u. Carries [])
                (run_store _
                  (record { pending = empty; next_quiet_emit_at = some (due rt set policy now) })
                  (λ s p. (empty-Within set finite, p.1)))
                λ u. run_pure _ none (λ s p. (refl, p))))

  -- An end by overflow puts back what is not sunk; any other end leaves nothing held.
  abbrev pub Ended : FollowEnd → Session W Bind → Type 0
  Ended end s = ((rid : IdToken) × (end ≡ overflow_end rid)) ⊎ Closed rt books f 0 s.1

  abbrev pub Turned : Option FollowEnd → Session W Bind → Type 0
  Turned none s = Carries [] s
  Turned (some end) s = Ended end s

  pub run_overflow :
      {P : Session W Bind → Type 0} (unsunk : List WaitEvent) (rid : IdToken)
      → Runs P (restore_then_overflow rt unsunk rid) Ended
  unfolding restore_then_overflow
  run_overflow unsunk rid = run_kept λ c.
      run_bind (λ u s. Unit) run_any
        λ u.
          run_bind (λ u s. Unit) run_any
            λ u. run_pure Ended (overflow_end rid) (λ s p. inl (rid, refl))

  run_overflowed :
      {P : Session W Bind → Type 0} (unsunk : List WaitEvent) (rid : IdToken)
      → Runs P (restore_then_overflow rt unsunk rid >>= λ end. pure (some end)) Turned
  run_overflowed unsunk rid =
      run_bind Ended (run_overflow unsunk rid) λ end. run_pure Turned (some end) (λ s p. p)

  run_emit :
      (policy : CoalescePolicy) (now : Timestamp)
      → Runs (Carries []) (emit_quiet rt set policy now) Turned
  run_emit policy now =
      run_post (λ end s p. subst (λ e. Turned e s) (sym p.0) p.1) (run_emit_quiet policy now)

  -- The events in hand are in the buffer.
  pub run_buffered :
      (c : Emit) (next : Option Timestamp) (es : List WaitEvent) (p : Pending)
      → Within set p
      → p.events ≡ c.pending.events ++ es
      → Runs
          (λ s. (s.0.pending ≡ c.pending) × Carries es s)
          (store (record { pending = p; next_quiet_emit_at = next }))
          (λ u. Carries [])
  run_buffered c next es p w o =
      run_store (Carries []) (record { pending = p; next_quiet_emit_at = next })
        λ s k. (
          w,
          drained_eq _ _ s.1
              (omega (
                arith,
                ap (λ (q : Pending). weigh f q.events) k.0,
                ap (weigh f) o,
                weigh-append f c.pending.events es,
              ))
              k.1.1,
        )

  run_urgent_burst :
      (es : List WaitEvent) → Runs (Carries es) (urgent_burst rt es) (λ u. Carries [])
  run_urgent_burst es = record {
    at = λ s p.
        go s.0 p.0 (sink rt es s.1)
          ((run_sink rt books f (weigh f s.0.pending.events) es).at s.1 p.1);
  }
    where
      go :
          (c : Emit)
          → Within set c.pending
          → (r : Result (Unit {0}) × (SlotSet Bind × W))
          → Both
              (Closed rt books f (weigh f c.pending.events))
              (λ u. Drained rt books f (weigh f c.pending.events))
              r
          → Both {W = Session W Bind} {A = Unit {0}} Any
              (λ u. Carries [])
              (elim r.0 [
                | ok u ↦ (ok tt, (c, r.1))
                | err e ↦ (err e, (record c { pending = empty }, r.1))
              ])
      go c w (ok u, v) d = (w, drained_eq _ _ v (omega arith) d)
      go c w (err e, v) d = tt

  module _ (policy : CoalescePolicy) (now : Timestamp) where
    abbrev Before : Emit → List WaitEvent → Session W Bind → Type 0
    Before c es s = (s.0.pending ≡ c.pending) × Carries es s

    run_apply_nothing : (c : Emit) → Runs (Carries []) (apply_nothing rt set policy now c) Turned
    unfolding apply_nothing
    run_apply_nothing c =
        run_if (interval_is_due c.next_quiet_emit_at now && not (is_empty c.pending))
          (run_emit policy now) (run_pure Turned none (λ s p. p))

    run_apply_all :
        (c : Emit) (es : List WaitEvent)
        → Within set c.pending
        → Runs (Before c es) (apply_all rt set policy now c es) Turned
    unfolding apply_all
    run_apply_all c es w =
        go (push_all set es c.pending) (push_all-Ordered set es c.pending)
          (push_all-Within set finite es c.pending w)
      where
        go :
            (r : Filled Pending)
            → Ordered set (c.pending.events ++ es) r
            → FilledWithin set finite r
            → Runs
                (Before c es)
                (elim r [
                  | filled p ↦
                      store (record c { pending = p }) >>= λ u. emit_quiet rt set policy now
                  | overflowed unsunk rid ↦
                      restore_then_overflow rt unsunk rid >>= λ end. pure (some end)
                ])
                Turned
        go (overflowed unsunk rid) o w' = run_overflowed unsunk rid
        go (filled p) o w' =
            run_bind (λ u. Carries []) (run_buffered c c.next_quiet_emit_at es p w' o)
              λ u. run_emit policy now

    run_apply_quiet :
        (c : Emit) (es : List WaitEvent)
        → Within set c.pending
        → Runs (Before c es) (apply_quiet rt set policy now c es) Turned
    unfolding apply_quiet hold_back
    run_apply_quiet c es w =
        go (push_all set es c.pending) (push_all-Ordered set es c.pending)
          (push_all-Within set finite es c.pending w)
      where
        next : Option Timestamp
        next = or_at c.next_quiet_emit_at (due rt set policy now)

        go :
            (r : Filled Pending)
            → Ordered set (c.pending.events ++ es) r
            → FilledWithin set finite r
            → Runs
                (Before c es)
                (elim r [
                  | filled p ↦ store (record { pending = p; next_quiet_emit_at = next }) >>= λ u.
                      hold_back rt set policy now next
                  | overflowed unsunk rid ↦
                      restore_then_overflow rt unsunk rid >>= λ end. pure (some end)
                ])
                Turned
        go (overflowed unsunk rid) o w' = run_overflowed unsunk rid
        go (filled p) o w' =
            run_bind (λ u. Carries []) (run_buffered c next es p w' o)
              λ u.
                run_if (interval_is_due next now) (run_emit policy now)
                  (run_pure Turned none (λ s k. k))

    -- The urgent events go to the sink, and the others into the buffer.
    sorted_in :
        (c : Emit) (es : List WaitEvent) (s : Sorted)
        → Within set s.pending
        → Sifted set policy.urgent_at f es []
            (record { pending = c.pending; urgent = []; next_quiet_emit_at = c.next_quiet_emit_at })
            (filled s)
        → Runs
            (Before c es)
            (store (record { pending = s.pending; next_quiet_emit_at = s.next_quiet_emit_at })
              >>= λ u. urgent_burst rt s.urgent >>= λ u. pure none)
            Turned
    sorted_in c es s w q =
        run_bind (λ u. Carries s.urgent)
          (run_store (Carries s.urgent)
            (record { pending = s.pending; next_quiet_emit_at = s.next_quiet_emit_at })
            λ t k. (
              w,
              drained_eq _ _ t.1
                  (omega (
                    arith,
                    ap (λ (x : Pending). weigh f x.events) k.0,
                    ap (weigh f) q.0,
                    ap (weigh f) q.1,
                    weigh-append f c.pending.events (quiet_of set policy.urgent_at es),
                    weigh-parted set policy.urgent_at f es,
                  ))
                  k.1.1,
            ))
          λ u.
            run_bind (λ u. Carries []) (run_urgent_burst s.urgent)
              λ u. run_pure Turned none (λ s k. k)

    run_apply_urgent :
        (c : Emit) (es : List WaitEvent)
        → Within set c.pending
        → Runs (Before c es) (apply_urgent rt set policy now c es) Turned
    unfolding apply_urgent
    run_apply_urgent c es w =
        go (sort_turn set policy.urgent_at (due rt set policy now) es start)
          (sort_turn-Sifted set policy.urgent_at f (due rt set policy now) es start)
          (sort_turn-Within set finite policy.urgent_at (due rt set policy now) es start w)
      where
        start : Sorted
        start = record {
          pending = c.pending;
          urgent = [];
          next_quiet_emit_at = c.next_quiet_emit_at;
        }

        go :
            (r : Filled Sorted)
            → Sifted set policy.urgent_at f es [] start r
            → SortedWithin set finite r
            → Runs
                (Before c es)
                (elim r [
                  | filled s ↦
                      store
                        (record { pending = s.pending; next_quiet_emit_at = s.next_quiet_emit_at })
                      >>= λ u. urgent_burst rt s.urgent >>= λ u. pure none
                  | overflowed unsunk rid ↦
                      restore_then_overflow rt unsunk rid >>= λ end. pure (some end)
                ])
                Turned
        go (overflowed unsunk rid) q w' = run_overflowed unsunk rid
        go (filled s) q w' = sorted_in c es s w' q

    run_apply_events :
        (c : Emit) (es : List WaitEvent)
        → Within set c.pending
        → Runs (Before c es) (apply_events rt set policy now c es) Turned
    unfolding apply_events
    run_apply_events c es w =
        run_if (any (is_urgent set policy.urgent_at) es && interval_is_due c.next_quiet_emit_at now)
          (run_apply_all c es w)
          (run_if (any (is_urgent set policy.urgent_at) es) (run_apply_urgent c es w)
            (run_apply_quiet c es w))

    started : (b : Bool) (c : Emit) → Emit
    started b c = if b then record c { next_quiet_emit_at = some (due rt set policy now) } else c

    started_pending : (b : Bool) (c : Emit) → (started b c).pending ≡ c.pending
    unfolding started
    started_pending true c = refl
    started_pending false c = refl

    run_apply_some :
        (c : Emit) (es : List WaitEvent)
        → Runs (λ s. (s.0 ≡ c) × Carries es s) (apply_some rt set policy now c es) Turned
    unfolding apply_some started
    run_apply_some c es =
        let b = starts_interval rt set policy now c es in
        record {
          at = λ s p.
              (run_apply_events (started b c) es (
                  subst (Within set) (ap (λ (x : Emit). x.pending) p.0 ∙ sym (started_pending b c))
                    p.1.0)).at
                s (ap (λ (x : Emit). x.pending) p.0 ∙ sym (started_pending b c), p.1);
        }

    pub run_apply_turn :
        (es : List WaitEvent) → Runs (Carries es) (apply_turn rt set policy now es) Turned
    unfolding apply_turn
    run_apply_turn [] = run_kept λ c. run_pre (λ s p. p.1) (run_apply_nothing c)
    run_apply_turn (e ∷ es) = run_kept λ c. run_apply_some c (e ∷ es)
