-- ===== src/Follow/Slots.antt =====
-- crates/waitprims-async/src/follow.rs: `SlotSet`. The five vectors of the source have one length,
-- the number of registrations, so they are one list of slots. A future that is polled may change
-- the world; of the futures only their being there is kept.
pub mod Custody
pub mod Settled
use waitprims.Prelude.{
  ℕ, zero, suc, ◌*◌, Bool, true, false, not, ◌&&◌, ◌||◌, Option, none, some, List, [], ◌∷◌, ◌++◌,
  map, reverse, length, any, find, push_some, ◌==◌, string_eq, if◌then◌else◌,
}
use waitprims.Core.Refs.{IdToken}
use waitprims.Core.Error.{Error, Result, ok, err}
use waitprims.Core.Time.{Timestamp, Calendar}
use waitprims.Core.Types.{Registration, WaitEvent}
use waitprims.Core.Messages.{RegistrationSet, LiveWaitRequest}
use waitprims.Observer.{Observation, Observer, Exec, is_replayable}
use waitprims.Race.{Poll, or_else}
use waitprims.Follow.{FollowEnd, terminal_arm, TerminalArmKind, at_deadline}
use waitprims.Follow

pub data Wake : Type 0 where
  cancelled slept : Wake

-- What a session is given: the observer's futures, the sink, and the runtime's waiting.
pub record Runtime (W Bind : Type 0) : Type 0 where
  pub observer : Observer W Bind
  pub open observer use *
  pub calendar : Calendar
  -- One poll of the `bind` future of an arm, and of the `next` future of an arm with its bind.
  pub poll_bind : ℕ → W → Poll (Result Bind) × W
  pub poll_next : ℕ → Bind → W → Poll (Result Observation) × W
  pub on_burst : List WaitEvent → Exec W (Unit {0})
  -- The later arms of a `select!` whose first arm is pending: the cancel token, and the sleep until
  -- a time. With neither complete the task waits.
  pub wakes : Timestamp → W → Option Wake × W
  -- The sleep of a backoff, which the cancel token ends early.
  pub pause : Timestamp → W → Unit {0} × W

pub record Slot (Bind : Type 0) : Type 0 where
  pub registration : Registration
  -- bind_futs[idx].is_some()
  pub binding : Bool
  pub bind : Option Bind
  -- next_futs[idx].is_some()
  pub asking : Bool
  pub harvested : Option Observation

pub record SlotSet (Bind : Type 0) : Type 0 where
  pub slots : List (Slot Bind)
  pub fault : Option Error

abbrev pub is_some : {A : Type 0} → Option A → Bool
is_some none = false
is_some (some a) = true

-- What a look at arms finds: the first error, and whether an arm moved on.
pub record Polled (S : Type 0) : Type 0 where
  pub state : S
  pub fault : Option Error
  pub progressed : Bool

abbrev pub event_in : Option Observation → Option WaitEvent
event_in (some (Observation.event e)) = some e
event_in _ = none

abbrev terminal_of : IdToken → Option Observation → Option FollowEnd
terminal_of id none = none
terminal_of id (some Observation.overflow) =
    some (terminal_arm id TerminalArmKind.overflow "buffer_overflow")
terminal_of id (some (Observation.failed reason)) =
    some (terminal_arm id TerminalArmKind.failed reason)
terminal_of id (some (Observation.outage reason)) =
    some (terminal_arm id TerminalArmKind.outage reason)
terminal_of id (some (Observation.cursor_uncertain reason)) =
    some (terminal_arm id TerminalArmKind.cursor_uncertain reason)
terminal_of id (some (Observation.degraded reason)) =
    some (terminal_arm id TerminalArmKind.degraded reason)
terminal_of id (some (Observation.event e)) = none
terminal_of id (some Observation.idle) = none

abbrev pub or_end : Option FollowEnd → Option FollowEnd → Option FollowEnd
or_end none later = later
or_end (some e) later = some e

abbrev pub cleared : Option Observation → Option Observation
cleared none = none
cleared (some obs) = if is_replayable obs then some obs else none

module _ {Bind : Type 0} where
  abbrev pub fresh : Registration → Slot Bind
  fresh registration = record {
    registration = registration;
    binding = true;
    bind = none;
    asking = false;
    harvested = none;
  }

  -- SlotSet::new
  unfoldable pub new : List Registration → SlotSet Bind
  new registrations = record { slots = map fresh registrations; fault = none }

  abbrev pub is_slot : IdToken → Slot Bind → Bool
  is_slot id slot = slot.registration.registration_id == id

  -- SlotSet::index_of, with the slot in place of its index.
  abbrev pub slot_of : IdToken → List (Slot Bind) → Option (Slot Bind)
  slot_of id = find (is_slot id)

  abbrev pub bind_of : Option (Slot Bind) → Option Bind
  bind_of none = none
  bind_of (some slot) = slot.bind

  abbrev pub without_event : Slot Bind → Slot Bind
  without_event slot = elim (event_in slot.harvested) [
    | none ↦ slot
    | some e ↦ record slot { harvested = none }
  ]

  unfoldable pub events_in : List (Slot Bind) → List WaitEvent
  events_in [] = []
  events_in (slot ∷ slots) = push_some (event_in slot.harvested) (events_in slots)

  -- The events, and the slots without them.
  unfoldable pub take_events : SlotSet Bind → List WaitEvent × SlotSet Bind
  take_events s = (events_in s.slots, record s { slots = map without_event s.slots })

  unfoldable pub first_terminal : List (Slot Bind) → Option FollowEnd
  first_terminal [] = none
  first_terminal (slot ∷ slots) =
      or_end (terminal_of slot.registration.registration_id slot.harvested) (first_terminal slots)

  abbrev pub is_pending : List (Slot Bind) → Registration → Bool
  is_pending slots reg = reg.required && not (is_some (bind_of (slot_of reg.registration_id slots)))

  abbrev pub pending_required : List (Slot Bind) → RegistrationSet → Option Registration
  pending_required slots set = find (is_pending slots) set.registrations

  -- SlotSet::drain_replayable: each with the bind of its slot in place of the index.
  abbrev pub replay_of : Slot Bind → Option (Option Bind × Observation)
  replay_of slot = elim slot.harvested [
    | none ↦ none
    | some obs ↦ if is_replayable obs then some (slot.bind, obs) else none
  ]

  unfoldable pub replayable_in : List (Slot Bind) → List (Option Bind × Observation)
  replayable_in [] = []
  replayable_in (slot ∷ slots) = push_some (replay_of slot) (replayable_in slots)

  abbrev pub emptied : Slot Bind → Slot Bind
  emptied slot = record slot { harvested = none }

  unfoldable pub drain_replayable : SlotSet Bind → List (Option Bind × Observation) × SlotSet Bind
  drain_replayable s = (replayable_in s.slots, record s { slots = map emptied s.slots })

  abbrev pub clear_nonreplayable : Slot Bind → Slot Bind
  clear_nonreplayable slot = record slot { harvested = cleared slot.harvested }

  abbrev pub arm_next : Slot Bind → Slot Bind
  arm_next slot = record slot { asking = true }

  abbrev pub rearmed : Slot Bind → Slot Bind
  rearmed slot =
      if is_some slot.bind && (not slot.asking && not (is_some slot.harvested))
      then arm_next slot
      else slot

  abbrev pub rearm : Slot Bind → Slot Bind
  rearm slot = rearmed (clear_nonreplayable slot)

  unfoldable pub rearm_idle : SlotSet Bind → SlotSet Bind
  rearm_idle s = record s { slots = map rearm s.slots }

  abbrev pub is_idle : Slot Bind → Bool
  is_idle slot = elim slot.harvested [ some Observation.idle ↦ true | _ ↦ false ]

  -- An observation other than Idle.
  abbrev pub is_telling : Slot Bind → Bool
  is_telling slot = elim slot.harvested [
    | none ↦ false
    | some Observation.idle ↦ false
    | some _ ↦ true
  ]

  unfoldable pub any_idle_harvested : List (Slot Bind) → Bool
  any_idle_harvested = any is_idle

  unfoldable pub has_terminal_obs : List (Slot Bind) → Bool
  has_terminal_obs = any is_telling

  abbrev pub owned : List (Slot Bind) → WaitEvent → Option Bind × Observation
  owned slots e = (bind_of (slot_of e.registration_id slots), Observation.event e)

  abbrev harvest_ready : Slot Bind → Option Observation → Slot Bind
  harvest_ready slot none = slot
  harvest_ready slot (some obs) = record slot { asking = false; harvested = some obs }

  -- deadline_end
  unfoldable pub deadline_end :
      RegistrationSet → LiveWaitRequest → Timestamp → List (Slot Bind) → Option FollowEnd
  deadline_end set request now slots =
      if not (at_deadline request now) then none else elim (pending_required slots set) [
        | some reg ↦
            some (terminal_arm reg.registration_id TerminalArmKind.failed "required_bind_pending")
        | none ↦ elim (first_terminal slots) [ some end ↦ some end | none ↦ some Follow.deadline ]
      ]

abbrev failure : Result (Unit {0}) → Option Error
failure (ok u) = none
failure (err e) = some e

abbrev pub to_result : Option Error → Result (Unit {0})
to_result none = ok tt
to_result (some e) = err e

module _ {W Bind : Type 0} (rt : Runtime W Bind) where
  bound : Slot Bind → Bind → Slot Bind
  bound slot b = record slot { binding = false; bind = some b; asking = true }

  after_bind : Slot Bind → Poll (Result Bind) → Polled (Slot Bind)
  unfolding bound
  after_bind slot Poll.pending = record { state = slot; fault = none; progressed = false }
  after_bind slot (Poll.ready (ok b)) = record {
    state = bound slot b;
    fault = none;
    progressed = true;
  }
  after_bind slot (Poll.ready (err e)) = record {
    state = record slot { binding = false };
    fault = some e;
    progressed = false;
  }

  bind_step : ℕ → Slot Bind → W → Polled (Slot Bind) × W
  unfolding after_bind
  bind_step i slot w =
      if slot.binding
      then (let (polled, w') = rt.poll_bind i w in (after_bind slot polled, w'))
      else (record { state = slot; fault = none; progressed = false }, w)

  after_next : Slot Bind → Poll (Result Observation) → Polled (Slot Bind)
  after_next slot Poll.pending = record { state = slot; fault = none; progressed = false }
  after_next slot (Poll.ready (ok obs)) = record {
    state = record slot { asking = false; harvested = some obs };
    fault = none;
    progressed = true;
  }
  after_next slot (Poll.ready (err e)) = record {
    state = record slot { asking = false };
    fault = some e;
    progressed = false;
  }

  -- An armed slot has its bind.
  next_poll : ℕ → Slot Bind → Option Bind → W → Polled (Slot Bind) × W
  unfolding after_next
  next_poll i slot none w = (record { state = slot; fault = none; progressed = false }, w)
  next_poll i slot (some b) w =
      let (polled, w') = rt.poll_next i b w in (after_next slot polled, w')

  next_step : ℕ → Slot Bind → W → Polled (Slot Bind) × W
  unfolding next_poll
  next_step i slot w =
      if slot.asking
      then next_poll i slot slot.bind w
      else (record { state = slot; fault = none; progressed = false }, w)

  poll_slot : ℕ → Slot Bind → W → Polled (Slot Bind) × W
  unfolding bind_step next_step
  poll_slot i slot w =
      if is_some slot.harvested
      then (record { state = slot; fault = none; progressed = false }, w)
      else let (p, w') = bind_step i slot w in
        let (q, w'') = next_step i p.state w' in
        (
          record {
            state = q.state;
            fault = or_else p.fault q.fault;
            progressed = p.progressed || q.progressed;
          },
          w'',
        )

  -- One pass over the arms, from an index on.
  unfoldable pub pass : ℕ → List (Slot Bind) → W → Polled (List (Slot Bind)) × W
  unfolding poll_slot
  pass i [] w = (record { state = []; fault = none; progressed = false }, w)
  pass i (slot ∷ slots) w =
      let (p, w') = poll_slot i slot w in
      let (q, w'') = pass (suc i) slots w' in
      (
        record {
          state = p.state ∷ q.state;
          fault = or_else p.fault q.fault;
          progressed = p.progressed || q.progressed;
        },
        w'',
      )

  abbrev pub passed : SlotSet Bind → Polled (List (Slot Bind)) → SlotSet Bind
  passed s p = record { slots = p.state; fault = or_else s.fault p.fault }

  pub poll_rounds : ℕ → SlotSet Bind → W → SlotSet Bind × W
  poll_rounds zero s w = (s, w)
  poll_rounds (suc n) s w =
      let (p, w') = pass 0 s.slots w in
      let rest = poll_rounds n (passed s p) w' in if p.progressed then rest else (passed s p, w')

  -- SlotSet::poll_available: an arm moves on at most twice, from binding to bound to harvested.
  unfoldable pub poll_available : SlotSet Bind → W → SlotSet Bind × W
  unfolding poll_rounds
  poll_available s w = poll_rounds (suc (2 * length s.slots)) s w

  harvest_from : Slot Bind → Option Bind → W → Slot Bind × W
  harvest_from slot none w = (slot, w)
  harvest_from slot (some b) w = let (o, w') = rt.poll_ready b w in (harvest_ready slot o, w')

  harvest_slot : Slot Bind → W → Slot Bind × W
  unfolding harvest_from
  harvest_slot slot w = if is_some slot.harvested then (slot, w) else harvest_from slot slot.bind w

  harvest_slots : List (Slot Bind) → W → List (Slot Bind) × W
  unfolding harvest_slot
  harvest_slots [] w = ([], w)
  harvest_slots (slot ∷ slots) w =
      let (slot', w') = harvest_slot slot w in
      let (slots', w'') = harvest_slots slots w' in (slot' ∷ slots', w'')

  unfoldable pub harvest_poll_ready : SlotSet Bind → W → SlotSet Bind × W
  unfolding harvest_slots
  harvest_poll_ready s w =
      let (slots, w') = harvest_slots s.slots w in (record s { slots = slots }, w')

  -- Every restore is tried, and the first error is kept; what has no bind is passed over.
  pub restore_each : List (Option Bind × Observation) → W → Option Error × W
  restore_each [] w = (none, w)
  restore_each ((none, obs) ∷ ready) w = restore_each ready w
  restore_each ((some b, obs) ∷ ready) w =
      let (r, w') = rt.restore_ready b obs w in
      let (e, w'') = restore_each ready w' in (or_else (failure r) e, w'')

  -- SlotSet::restore_custody: what was harvested, then the pending events, the newest first.
  unfoldable pub restore_custody : List WaitEvent → Exec (SlotSet Bind × W) (Unit {0})
  unfolding restore_each
  restore_custody pending (s, w) =
      let (harvested, s') = drain_replayable s in
      let (e, w') = restore_each (harvested ++ map (owned s.slots) (reverse pending)) w in
      (to_result e, (s', w'))

  -- restore_harvested
  unfoldable pub restore_harvested : Exec (SlotSet Bind × W) (Unit {0})
  unfolding restore_each
  restore_harvested (s, w) =
      let (harvested, s') = drain_replayable s in
      let (e, w') = restore_each harvested w in (to_result e, (s', w'))
