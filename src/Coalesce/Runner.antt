-- ===== src/Coalesce/Runner.antt =====
-- crates/waitprims-async/src/coalesce.rs: the turns of a coalescing session, and its loop. What it
-- keeps of its own stands beside the slots and the world.
pub mod Conserved
pub mod Order
use waitprims.Prelude.{
  ℕ, zero, suc, Bool, true, false, not, ◌&&◌, ◌||◌, Option, none, some, List, [], ◌∷◌, any,
  if◌then◌else◌,
}
use waitprims.Core.Error.{Error, Result, ok, err}
use waitprims.Core.Time.{Timestamp, ◌<ᵗ◌, saturating_add}
use waitprims.Core.Types.{WaitEvent}
use waitprims.Core.Refs.{IdToken}
use waitprims.Core.Messages.{RegistrationSet, LiveWaitRequest}
use waitprims.Observer.{Exec, ◌>>=◌, ◌>>◌, pure, raise, call, lift}
use waitprims.Live.Decide.{next_step}
use waitprims.Follow.{FollowEnd, posture_err, earliest_wake, at_deadline, backoff_deadline}
use waitprims.Follow
use waitprims.Follow.Slots.{
  Runtime, SlotSet, new, take_events, first_terminal, rearm_idle, deadline_end, restore_custody,
  is_some,
}
use waitprims.Follow.Slots
use waitprims.Follow.Runner.{
  Selected, collected, woken, Next, done, again, out_of_fuel, after, idle, ready, outside, inside,
  taken_fault, looked, set_to, select_turn, poll_once, harvest, rearm, clock_now, is_cancelled,
  sink, admit,
}
use waitprims.Coalesce.{
  CoalescePolicy, Pending, empty, is_empty, push_all, Filled, filled, overflowed, Sorted, sort_turn,
  is_urgent, or_at, interval_is_due, overflow_end,
}

-- The buffer, and the time of the next quiet emit.
pub record Emit : Type 0 where
  pub pending : Pending
  pub next_quiet_emit_at : Option Timestamp

-- The arms of the `select!` beside the turn: the cancel token, the wake and the quiet time.
pub data Alarm : Type 0 where
  cancelled slept quiet : Alarm

abbrev pub Session : Type 0 → Type 0 → Type 0
Session W Bind = Emit × (SlotSet Bind × W)

module _ {W Bind : Type 0} where
  -- A step of the slots and the world.
  abbrev pub through : {A : Type 0} → Exec (SlotSet Bind × W) A → Exec (Session W Bind) A
  through m (c, v) = let (r, v') = m v in (r, (c, v'))

  -- What is kept is read, or is changed.
  abbrev pub kept : Exec (Session W Bind) Emit
  kept (c, v) = (ok c, (c, v))

  abbrev pub store : Emit → Exec (Session W Bind) (Unit {0})
  store c (c', v) = (ok tt, (c, v))

module _ {W Bind : Type 0} (rt : Runtime W Bind) where
  -- The buffer is taken and given to the sink, if it holds something.
  abbrev pub flush : Exec (Session W Bind) (Unit {0})
  flush = do c ← kept; store (record c { pending = empty }); through (sink rt c.pending.events)

  unfoldable pub fail_closed : {A : Type 0} → Error → Exec (Session W Bind) A
  fail_closed e = do
    c ← kept
    store (record c { pending = empty })
    through (restore_custody rt c.pending.events)
    raise e

  -- An error ends the turn.
  abbrev pub or_close :
      {A : Type 0} → Option Error → Exec (Session W Bind) A → Exec (Session W Bind) A
  or_close (some e) turn = fail_closed e
  or_close none turn = turn

  unfoldable pub restore_then_overflow : List WaitEvent → IdToken → Exec (Session W Bind) FollowEnd
  restore_then_overflow unsunk rid = do
    c ← kept
    store (record c { pending = empty })
    through (restore_custody rt unsunk)
    pure (overflow_end rid)

  -- A burst of urgent events; where the sink fails, the buffer is dropped.
  abbrev pub urgent_burst : List WaitEvent → Exec (Session W Bind) (Unit {0})
  urgent_burst es (c, v) =
      let (r, v') = sink rt es v in
      elim r [ ok u ↦ (ok tt, (c, v')) | err e ↦ (err e, (record c { pending = empty }, v')) ]

  module _ (set : RegistrationSet) (policy : CoalescePolicy) (now : Timestamp) where
    -- now.saturating_add(policy.min_emit_interval)
    abbrev pub due : Timestamp
    due = saturating_add rt.calendar now policy.min_emit_interval

    unfoldable pub emit_quiet : Exec (Session W Bind) (Option FollowEnd)
    emit_quiet = do
      c ← kept
      if is_empty c.pending then pure none else do
        flush
        store (record { pending = empty; next_quiet_emit_at = some due })
        pure none

    -- `events.is_empty()`
    apply_nothing : Emit → Exec (Session W Bind) (Option FollowEnd)
    apply_nothing c =
        if interval_is_due c.next_quiet_emit_at now && not (is_empty c.pending)
        then emit_quiet
        else pure none

    -- An urgent event, and the interval is due: all is emitted.
    apply_all : Emit → List WaitEvent → Exec (Session W Bind) (Option FollowEnd)
    apply_all c events = elim (push_all set events c.pending) [
      | filled p ↦ do store (record c { pending = p }); emit_quiet
      | overflowed unsunk rid ↦ do end ← restore_then_overflow unsunk rid; pure (some end)
    ]

    -- An urgent event before the interval is due: the urgent ones are emitted at once.
    apply_urgent : Emit → List WaitEvent → Exec (Session W Bind) (Option FollowEnd)
    apply_urgent c events =
        elim (sort_turn set policy.urgent_at due events (record {
          pending = c.pending;
          urgent = [];
          next_quiet_emit_at = c.next_quiet_emit_at;
        })) [
          | filled s ↦ do
            store (record { pending = s.pending; next_quiet_emit_at = s.next_quiet_emit_at })
            urgent_burst s.urgent
            pure none
          | overflowed unsunk rid ↦ do end ← restore_then_overflow unsunk rid; pure (some end)
        ]

    -- No urgent event: all is held back until the interval is due.
    hold_back : Option Timestamp → Exec (Session W Bind) (Option FollowEnd)
    hold_back next = if interval_is_due next now then emit_quiet else pure none

    apply_quiet : Emit → List WaitEvent → Exec (Session W Bind) (Option FollowEnd)
    unfolding hold_back
    apply_quiet c events = elim (push_all set events c.pending) [
      | filled p ↦ do
        let next = or_at c.next_quiet_emit_at due
        store (record { pending = p; next_quiet_emit_at = next })
        hold_back next
      | overflowed unsunk rid ↦ do end ← restore_then_overflow unsunk rid; pure (some end)
    ]

    -- The first event that is not urgent sets the time of the next quiet emit.
    starts_interval : Emit → List WaitEvent → Bool
    starts_interval c events =
        not (is_some c.next_quiet_emit_at)
        && any (λ e. not (is_urgent set policy.urgent_at e)) events

    apply_events : Emit → List WaitEvent → Exec (Session W Bind) (Option FollowEnd)
    unfolding apply_all apply_urgent apply_quiet
    apply_events c events =
        let any_urgent = any (is_urgent set policy.urgent_at) events in
        if any_urgent && interval_is_due c.next_quiet_emit_at now
        then apply_all c events
        else if any_urgent
        then apply_urgent c events
        else apply_quiet c events

    apply_some : Emit → List WaitEvent → Exec (Session W Bind) (Option FollowEnd)
    unfolding apply_events starts_interval
    apply_some c events =
        apply_events
          (if starts_interval c events then record c { next_quiet_emit_at = some due } else c)
          events

    unfoldable pub apply_turn : List WaitEvent → Exec (Session W Bind) (Option FollowEnd)
    unfolding apply_nothing apply_some
    apply_turn events = do
      c ← kept
      elim events [ [] ↦ apply_nothing c | e ∷ es ↦ apply_some c (e ∷ es) ]

    module _ (request : LiveWaitRequest) where
      abbrev or_cancel : Bool → FollowEnd
      or_cancel true = Follow.cancel
      or_cancel false = Follow.deadline

      -- The end of a session whose buffer is flushed; the deadline's test before `deadline_end` is
      -- the one that function starts with.
      abbrev end_of : Option FollowEnd → Bool → SlotSet Bind → FollowEnd
      end_of (some end) stop s = end
      end_of none stop s = elim (deadline_end set request now s.slots) [
        | some end ↦ end
        | none ↦ or_cancel stop
      ]

      unfoldable pub final_flush :
          List WaitEvent → Option FollowEnd → Bool → Exec (Session W Bind) FollowEnd
      final_flush events terminal stop = do
        c ← kept
        elim (push_all set events c.pending) [
          | overflowed unsunk rid ↦ restore_then_overflow unsunk rid
          | filled p ↦ do
            store (record c { pending = p })
            flush
            s ← through (call (inside (looked (λ s. s))))
            pure (end_of terminal stop s)
        ]

      abbrev asked : Bool → Exec (Session W Bind) Bool
      asked true = pure true
      asked false = through (is_cancelled rt)

      go_on : Option FollowEnd → Exec (Session W Bind) (Option FollowEnd)
      go_on (some end) = pure (some end)
      go_on none = do through (rearm rt); pure none

      settle : List WaitEvent → Option FollowEnd → Bool → Exec (Session W Bind) (Option FollowEnd)
      unfolding go_on
      settle events terminal stop =
          if is_some terminal || stop || at_deadline request now
          then (do end ← final_flush events terminal stop; pure (some end))
          else do end ← apply_turn events; go_on end

      unless_faulted : Bool → Exec (Session W Bind) (Option FollowEnd)
      unfolding settle
      unless_faulted cancel_arm = do
        fault ← through (call (inside taken_fault))
        or_close fault do
          events ← through (call (inside take_events))
          terminal ← through (call (inside (looked (λ s. first_terminal s.slots))))
          stop ← asked cancel_arm
          settle events terminal stop

      unfoldable pub decide_coalesce : Bool → Exec (Session W Bind) (Option FollowEnd)
      unfolding unless_faulted
      decide_coalesce cancel_arm =
          or_close (posture_err set request now) (unless_faulted cancel_arm)

  module _ (set : RegistrationSet) (policy : CoalescePolicy) (request : LiveWaitRequest) where
    -- The arms are polled and asked, and then the turn is decided at a reading of the clock.
    poll_and_harvest : Exec (Session W Bind) (Unit {0})
    poll_and_harvest = do through (poll_once rt); through (harvest rt)

    decide_now : Bool → Exec (Session W Bind) (Option FollowEnd)
    decide_now cancel_arm = do
      now ← through (clock_now rt)
      decide_coalesce set policy now request cancel_arm

    -- Idle slots are armed again first.
    refresh : Exec (Session W Bind) (Option FollowEnd)
    unfolding poll_and_harvest decide_now
    refresh = do through (rearm rt); poll_and_harvest; decide_now false

    abbrev quiet_at : Emit → Option Timestamp
    quiet_at c = if is_empty c.pending then none else c.next_quiet_emit_at

    abbrev sooner_quiet : Timestamp → Option Timestamp → Timestamp
    sooner_quiet t none = t
    sooner_quiet t (some q) = if q <ᵗ t then q else t

    sleep_idle : ℕ → Exec (Session W Bind) (Unit {0})
    sleep_idle step = do
      now ← through (clock_now rt)
      c ← kept
      let cap = backoff_deadline rt.calendar now set request step
      through (call (outside (rt.pause (sooner_quiet cap (quiet_at c)))))

    unfoldable pub on_selected : ℕ → Option (Selected Alarm) → Exec (Session W Bind) Next
    unfolding refresh decide_now poll_and_harvest sleep_idle
    on_selected step none = pure out_of_fuel
    on_selected step (some (collected (err e))) = do
      now ← through (clock_now rt)
      or_close (posture_err set request now) (fail_closed e)
    on_selected step (some (collected (ok idle))) = do
      sleep_idle (next_step step)
      end ← refresh
      pure (after (next_step step) end)
    on_selected step (some (collected (ok ready))) = do
      end ← decide_now false
      pure (after step end)
    on_selected step (some (woken cancelled)) = do
      poll_and_harvest
      end ← decide_now true
      pure (after step end)
    on_selected step (some (woken slept)) = do end ← refresh; pure (after step end)
    on_selected step (some (woken quiet)) = do end ← refresh; pure (after step end)

    -- A round that starts cancelled, at the deadline or when a quiet emit is due decides at once.
    is_early : Timestamp → Bool → Emit → Bool
    is_early now stop c =
        stop
        || at_deadline request now
        || (not (is_empty c.pending) && interval_is_due c.next_quiet_emit_at now)

    decide_early : Timestamp → Bool → Exec (Session W Bind) (Option FollowEnd)
    unfolding poll_and_harvest
    decide_early now true = do
      poll_and_harvest
      stop ← through (is_cancelled rt)
      decide_coalesce set policy now request stop
    decide_early now false = pure none

    -- The last arms of the `select!`: the quiet sleep is there only while the buffer holds something.
    module _ (alarms : Timestamp → Option Timestamp → W → Option Alarm × W) where
      select_arm : ℕ → ℕ → Option FollowEnd → Exec (Session W Bind) Next
      unfolding on_selected
      select_arm polls step (some end) = pure (done end)
      select_arm polls step none = do
        c ← kept
        selected ←
            through (call (select_turn rt (alarms (earliest_wake set request) (quiet_at c)) polls))
        on_selected step selected

      round : ℕ → ℕ → Exec (Session W Bind) Next
      unfolding select_arm decide_early is_early
      round polls step = do
        now ← through (clock_now rt)
        stop ← through (is_cancelled rt)
        c ← kept
        end ← decide_early now (is_early now stop c)
        select_arm polls step end

      unfoldable pub iteration : ℕ → ℕ → Exec (Session W Bind) Next
      unfolding round
      iteration polls step = do
        now ← through (clock_now rt)
        or_close (posture_err set request now) (round polls step)

      -- `none` when the fuel runs out.
      pub run_loop : ℕ → ℕ → ℕ → Exec (Session W Bind) (Option FollowEnd)
      run_loop polls zero step = pure none
      run_loop polls (suc fuel) step = iteration polls step >>= elim [
        | done end ↦ pure (some end)
        | again step' ↦ run_loop polls fuel step'
        | out_of_fuel ↦ pure none
      ]

      -- A session over new slots and an empty buffer, which are dropped at its end.
      abbrev pub with_session : {A : Type 0} → Exec (Session W Bind) A → Exec W A
      with_session m w =
          let (r, v) =
            m (record { pending = empty; next_quiet_emit_at = none }, (new set.registrations, w)) in
          (r, v.1.1)

      unfoldable pub run_coalesce : ℕ → ℕ → Exec W (Option FollowEnd)
      unfolding run_loop
      run_coalesce polls fuel = do admit rt set request; with_session (run_loop polls fuel 0)
