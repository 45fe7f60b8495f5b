-- ===== src/Follow/Runner.antt =====
-- crates/waitprims-async/src/follow.rs: a turn of the session, and its loop. The session's own state
-- stands beside the world in the effects, so a step gives both back whether it succeeds or not.
pub mod Conserved
pub mod Gate
use waitprims.Prelude.{
  ℕ, zero, suc, Bool, true, false, Option, none, some, List, [], ◌∷◌, if◌then◌else◌,
}
use waitprims.Core.Error.{Error, Result, ok, err}
use waitprims.Core.Time.{Timestamp}
use waitprims.Core.Types.{WaitEvent}
use waitprims.Core.Messages.{RegistrationSet, LiveWaitRequest}
use waitprims.Observer.{Exec, ◌>>=◌, ◌>>◌, pure, raise, call, lift}
use waitprims.Live.Decide.{next_step}
use waitprims.Follow.{
  FollowEnd, resolve, deadline_order, posture_err, earliest_wake, at_deadline, backoff_deadline,
}
use waitprims.Follow
use waitprims.Follow.Slots.{
  Runtime, Wake, SlotSet, new, take_events, first_terminal, rearm_idle, deadline_end,
  has_terminal_obs, any_idle_harvested, poll_available, harvest_poll_ready, restore_harvested,
}
use waitprims.Follow.Slots

pub data Turn : Type 0 where
  idle ready : Turn

-- The arm of a `select!` that completed: the turn, or one of the others.
pub data Selected (K : Type 0) : Type 0 where
  collected : Result Turn → Selected K
  woken : K → Selected K

-- What a round comes to: an end, one more round with a backoff step, or too few polls.
pub data Next : Type 0 where
  done : FollowEnd → Next
  again : ℕ → Next
  out_of_fuel : Next

abbrev pub after : ℕ → Option FollowEnd → Next
after step none = again step
after step (some end) = done end

module _ {Bind : Type 0} where
  abbrev pub taken_fault : SlotSet Bind → Option Error × SlotSet Bind
  taken_fault s = (s.fault, record s { fault = none })

  abbrev pub looked : {A : Type 0} → (SlotSet Bind → A) → SlotSet Bind → A × SlotSet Bind
  looked f s = (f s, s)

  abbrev pub set_to : (SlotSet Bind → SlotSet Bind) → SlotSet Bind → Unit {0} × SlotSet Bind
  set_to f s = (tt, f s)

module _ {W Bind : Type 0} where
  -- An effect of the world alone, and one of the slots alone.
  abbrev pub outside : {A : Type 0} → (W → A × W) → SlotSet Bind × W → A × (SlotSet Bind × W)
  outside f (s, w) = let (a, w') = f w in (a, (s, w'))

  abbrev pub inside :
      {A : Type 0} → (SlotSet Bind → A × SlotSet Bind) → SlotSet Bind × W → A × (SlotSet Bind × W)
  inside f (s, w) = let (a, s') = f s in (a, (s', w))

-- A completed arm ends the `select!`, and the effects of what comes after it do not take place.
abbrev or_turn :
    {K V : Type 0} → Option (Result Turn) → V → Option (Selected K) × V → Option (Selected K) × V
or_turn (some t) v rest = (some (collected t), v)
or_turn none v rest = rest

abbrev or_wake : {K V : Type 0} → Option K → V → Option (Selected K) × V → Option (Selected K) × V
or_wake (some k) v rest = (some (woken k), v)
or_wake none v rest = rest

module _ {W Bind : Type 0} (rt : Runtime W Bind) where
  abbrev pub turn_of : SlotSet Bind → Option (Result Turn)
  turn_of s =
      if has_terminal_obs s.slots
      then some (ok ready)
      else if any_idle_harvested s.slots
      then some (ok idle)
      else none

  -- CollectTurn::poll, once the fault is taken.
  abbrev collect_from : Option Error × SlotSet Bind → W → Option (Result Turn) × (SlotSet Bind × W)
  collect_from (some e, s) w = (some (err e), (s, w))
  collect_from (none, s) w = (turn_of s, (s, w))

  -- CollectTurn::poll
  unfoldable pub collect : SlotSet Bind × W → Option (Result Turn) × (SlotSet Bind × W)
  collect (s, w) = let (s', w') = poll_available rt s w in collect_from (taken_fault s') w'

  -- One `select!`, of at most so many polls: the turn is polled first each time.
  unfoldable pub select_turn :
      {K : Type 0}
      → (W → Option K × W)
      → ℕ
      → SlotSet Bind × W
      → Option (Selected K) × (SlotSet Bind × W)
  select_turn wakes zero v = (none, v)
  select_turn wakes (suc polls) v =
      let (turn, v') = collect v in
      let (k, v'') = outside wakes v' in
      or_turn turn v' (or_wake k v'' (select_turn wakes polls v''))

  abbrev pub poll_once : Exec (SlotSet Bind × W) (Unit {0})
  poll_once (s, w) = let v = poll_available rt s w in (ok tt, v)

  abbrev pub harvest : Exec (SlotSet Bind × W) (Unit {0})
  harvest (s, w) = let v = harvest_poll_ready rt s w in (ok tt, v)

  abbrev pub rearm : Exec (SlotSet Bind × W) (Unit {0})
  rearm = call (inside (set_to rearm_idle))

  abbrev pub clock_now : Exec (SlotSet Bind × W) Timestamp
  clock_now = call (outside rt.now)

  abbrev pub is_cancelled : Exec (SlotSet Bind × W) Bool
  is_cancelled = call (outside rt.is_cancelled)

  unfoldable pub finish_cancel : Exec (SlotSet Bind × W) FollowEnd
  finish_cancel = do restore_harvested rt; pure Follow.cancel

  unfoldable pub finish_err : {A : Type 0} → Error → Exec (SlotSet Bind × W) A
  finish_err e = do restore_harvested rt; raise e

  -- An error ends the turn, once what was harvested is put back.
  abbrev pub or_fail :
      {A : Type 0} → Option Error → Exec (SlotSet Bind × W) A → Exec (SlotSet Bind × W) A
  or_fail (some e) turn = finish_err e
  or_fail none turn = turn

  -- `if !events.is_empty() { on_burst(..) }`
  abbrev pub sink : List WaitEvent → Exec (SlotSet Bind × W) (Unit {0})
  sink [] v = pure tt v
  sink (e ∷ es) (s, w) = let (r, w') = rt.on_burst (e ∷ es) w in (r, (s, w'))

  module _ (set : RegistrationSet) (request : LiveWaitRequest) where
    -- After the burst: the terminal, the deadline, or the idle slots armed again. The deadline's
    -- test before `deadline_end` is the one that function starts with.
    abbrev after_burst : Timestamp → Option FollowEnd → Exec (SlotSet Bind × W) (Option FollowEnd)
    after_burst now (some end) = pure (some end)
    after_burst now none = do
      slots ← call (inside (looked (λ s. s.slots)))
      elim (deadline_end set request now slots) [
        | some end ↦ pure (some end)
        | none ↦ do rearm; pure none
      ]

    deliver : Timestamp → Exec (SlotSet Bind × W) (Option FollowEnd)
    deliver now = do
      events ← call (inside take_events)
      terminal ← call (inside (looked (λ s. first_terminal s.slots)))
      sink events
      after_burst now terminal

    -- Cancel comes before the sink.
    unless_cancelled : Timestamp → Exec (SlotSet Bind × W) (Option FollowEnd)
    unfolding deliver
    unless_cancelled now = do
      stop ← is_cancelled
      if stop then (do end ← finish_cancel; pure (some end)) else deliver now

    unless_faulted : Timestamp → Exec (SlotSet Bind × W) (Option FollowEnd)
    unfolding unless_cancelled
    unless_faulted now = do fault ← call (inside taken_fault); or_fail fault (unless_cancelled now)

    unfoldable pub decide_turn : Timestamp → Exec (SlotSet Bind × W) (Option FollowEnd)
    unfolding unless_faulted
    decide_turn now = or_fail (posture_err set request now) (unless_faulted now)

    unfoldable pub on_wake : Timestamp → Exec (SlotSet Bind × W) (Option FollowEnd)
    on_wake now = do rearm; poll_once; harvest; decide_turn now

    unfoldable pub sleep_backoff : ℕ → Exec (SlotSet Bind × W) (Unit {0})
    sleep_backoff step = do
      now ← clock_now
      call (outside (rt.pause (backoff_deadline rt.calendar now set request step)))

    unfoldable pub on_selected : ℕ → Option (Selected Wake) → Exec (SlotSet Bind × W) Next
    on_selected step none = pure out_of_fuel
    on_selected step (some (collected (err e))) = do
      now ← clock_now
      or_fail (posture_err set request now) (finish_err e)
    on_selected step (some (collected (ok idle))) = do
      sleep_backoff (next_step step)
      now ← clock_now
      end ← on_wake now
      pure (after (next_step step) end)
    on_selected step (some (collected (ok ready))) = do
      now ← clock_now
      end ← decide_turn now
      pure (after step end)
    on_selected step (some (woken Slots.cancelled)) = do
      poll_once
      now ← clock_now
      end ← decide_turn now
      pure (after step end)
    on_selected step (some (woken Slots.slept)) = do
      now ← clock_now
      end ← on_wake now
      pure (after step end)

    select_arm : ℕ → ℕ → Exec (SlotSet Bind × W) Next
    unfolding select_turn
    select_arm polls step = do
      selected ← call (select_turn (rt.wakes (earliest_wake set request)) polls)
      on_selected step selected

    round : ℕ → ℕ → Exec (SlotSet Bind × W) Next
    unfolding select_arm
    round polls step = do
      stop ← is_cancelled
      if stop then (do end ← finish_cancel; pure (done end)) else select_arm polls step

    -- One round of the loop.
    unfoldable pub iteration : ℕ → ℕ → Exec (SlotSet Bind × W) Next
    unfolding round
    iteration polls step = do
      now ← clock_now
      or_fail (posture_err set request now) (round polls step)

    -- `none` when the fuel runs out.
    pub run_loop : ℕ → ℕ → ℕ → Exec (SlotSet Bind × W) (Option FollowEnd)
    run_loop polls zero step = pure none
    run_loop polls (suc fuel) step = iteration polls step >>= elim [
      | done end ↦ pure (some end)
      | again step' ↦ run_loop polls fuel step'
      | out_of_fuel ↦ pure none
    ]

    -- The checks before the slots are made.
    unfoldable pub admit : Exec W (Unit {0})
    admit = do
      lift (resolve set request)
      lift (deadline_order request)
      now ← call rt.now
      elim (posture_err set request now) [ some e ↦ raise e | none ↦ pure tt ]

    -- A session over new slots, which are dropped at its end.
    abbrev pub with_slots : {A : Type 0} → Exec (SlotSet Bind × W) A → Exec W A
    with_slots m w = let (r, v) = m (new set.registrations, w) in (r, v.1)

    unfoldable pub run_follow : ℕ → ℕ → Exec W (Option FollowEnd)
    unfolding run_loop
    run_follow polls fuel = do admit; with_slots (run_loop polls fuel 0)
