-- ===== src/Follow/Runner/Conserved.antt =====
-- crates/waitprims-async/src/follow.rs: what each part of a turn does to the events of a session.
pub mod Session
use mathlib.Core.Path.{subst}
use waitprims.Prelude.{
  ℕ, zero, suc, ◌+◌, ◌≡◌, ◌≢◌, refl, sym, ap, Bool, true, false, Option, none, some, List, [], ◌∷◌,
  All, arith, if_both,
}
use waitprims.Core.Error.{Error, Result, ok, err}
use waitprims.Core.Time.{Timestamp}
use waitprims.Core.Types.{WaitEvent}
use waitprims.Core.Messages.{RegistrationSet, LiveWaitRequest}
use waitprims.Observer.{Exec, ◌>>=◌, pure, raise, call, lift}
use waitprims.Observer.Both.{Both, Run, run_pure, run_raise, run_call, run_if, run_bind}
use waitprims.Live.Decide.{next_step}
use waitprims.Follow.{
  FollowEnd, resolve, deadline_order, posture_err, earliest_wake, backoff_deadline,
}
use waitprims.Follow
use waitprims.Follow.Slots.{
  Runtime, Slot, SlotSet, Wake, new, events_in, take_events, first_terminal, rearm_idle,
  deadline_end, poll_available, harvest_poll_ready, restore_harvested,
}
use waitprims.Follow.Slots
use waitprims.Follow.Slots.Custody.{
  Account, Books, Bound, Balanced, weigh, sinks-Balanced, weigh-take_events, take_events-Bound,
  weigh-rearm_idle, rearm_idle-Bound, weigh-new, new-Bound,
}
use waitprims.Follow.Slots.Custody.Polls.{Kept, poll_available-Kept, harvest_poll_ready-Kept}
use waitprims.Follow.Slots.Custody.Restores.{restore_harvested-Emptied}
use waitprims.Follow.Runner.{
  Turn, Selected, collected, woken, Next, done, again, out_of_fuel, after, idle, ready, outside,
  inside, taken_fault, looked, set_to, turn_of, or_turn, or_wake, collect_from, collect,
  select_turn, poll_once, harvest, rearm, clock_now, is_cancelled, finish_cancel, finish_err, sink,
  after_burst, decide_turn, on_wake, sleep_backoff, on_selected, iteration, run_loop, admit,
  with_slots, run_follow,
}

module _ {W Bind : Type 0} (rt : Runtime W Bind) (books : Books rt) (f : WaitEvent → ℕ) where
  -- A session that goes on, with so much held elsewhere, and one that holds no event.
  abbrev pub Open : ℕ → SlotSet Bind × W → Type 0
  Open n (s, w) = Kept f n s.slots (books.account w)

  abbrev pub Drained : ℕ → SlotSet Bind × W → Type 0
  Drained n (s, w) =
      Open n (s, w) × ((weigh f (events_in s.slots) ≡ 0) × Balanced f n (books.account w))

  abbrev pub Closed : ℕ → SlotSet Bind × W → Type 0
  Closed n (s, w) = Balanced f n (books.account w)

  pub outside-Open :
      {A : Type 0} (n : ℕ) (g : W → A × W) (v : SlotSet Bind × W)
      → ((w : W) → books.account (g w).1 ≡ books.account w)
      → Open n v
      → Open n (outside g v).1
  outside-Open n g (s, w) h k = subst (Kept f n s.slots) (sym (h w)) k

  pub run_outside :
      {A : Type 0} (n : ℕ) (g : W → A × W)
      → ((w : W) → books.account (g w).1 ≡ books.account w)
      → Run (Closed n) (Open n) (call (outside g)) (λ a. Open n)
  run_outside n g h = run_call _ (outside g) (λ v k. outside-Open n g v h k)

  pub run_clock_now : (n : ℕ) → Run (Closed n) (Open n) (clock_now rt) (λ a. Open n)
  run_clock_now n = run_outside n rt.now books.now_account

  pub run_is_cancelled : (n : ℕ) → Run (Closed n) (Open n) (is_cancelled rt) (λ a. Open n)
  run_is_cancelled n = run_outside n rt.is_cancelled books.token_account

  pub run_poll_once : (n : ℕ) → Run (Closed n) (Open n) (poll_once rt) (λ u. Open n)
  run_poll_once n = record { at = λ v k. poll_available-Kept rt books f n v.0 v.1 k }

  pub run_harvest : (n : ℕ) → Run (Closed n) (Open n) (harvest rt) (λ u. Open n)
  run_harvest n = record { at = λ v k. harvest_poll_ready-Kept rt books f n v.0 v.1 k }

  pub run_rearm : (n : ℕ) → Run (Closed n) (Open n) (rearm rt) (λ u. Open n)
  run_rearm n = record {
    at = λ v k. (rearm_idle-Bound v.0 k.0, λ c. omega (arith, k.1 c, weigh-rearm_idle f v.0));
  }

  collect_from-Open :
      (n : ℕ) (r : Option Error × SlotSet Bind) (w : W)
      → Open n (r.1, w)
      → Open n (collect_from rt r w).1
  collect_from-Open n (none, s) w k = k
  collect_from-Open n (some e, s) w k = k

  collect-Open : (n : ℕ) (v : SlotSet Bind × W) → Open n v → Open n (collect rt v).1
  unfolding collect
  collect-Open n (s, w) k =
      collect_from-Open n (taken_fault (poll_available rt s w).0) (poll_available rt s w).1
        (poll_available-Kept rt books f n s w k)

  or_turn-Open :
      {K : Type 0} (n : ℕ) (turn : Option (Result Turn)) (v : SlotSet Bind × W)
      (rest : Option (Selected K) × (SlotSet Bind × W))
      → Open n v
      → Open n rest.1
      → Open n (or_turn turn v rest).1
  or_turn-Open n none v rest a b = b
  or_turn-Open n (some t) v rest a b = a

  or_wake-Open :
      {K : Type 0} (n : ℕ) (k : Option K) (v : SlotSet Bind × W)
      (rest : Option (Selected K) × (SlotSet Bind × W))
      → Open n v
      → Open n rest.1
      → Open n (or_wake k v rest).1
  or_wake-Open n none v rest a b = b
  or_wake-Open n (some k) v rest a b = a

  pub select_turn-Open :
      {K : Type 0} (n : ℕ) (wakes : W → Option K × W) (polls : ℕ) (v : SlotSet Bind × W)
      → ((w : W) → books.account (wakes w).1 ≡ books.account w)
      → Open n v
      → Open n (select_turn rt wakes polls v).1
  unfolding select_turn
  select_turn-Open n wakes zero v h k = k
  select_turn-Open n wakes (suc polls) v h k =
      let (turn, v') = collect rt v in
      let open' = collect-Open n v k in
      let (woke, v'') = outside wakes v' in
      let open'' = outside-Open n wakes v' h open' in
      or_turn-Open n turn v' (or_wake woke v'' (select_turn rt wakes polls v'')) open' (
        or_wake-Open n woke v'' (select_turn rt wakes polls v'') open''
          (select_turn-Open n wakes polls v'' h open''))

  pub run_sink :
      (n : ℕ) (es : List WaitEvent)
      → Run (Closed n) (Drained (n + weigh f es)) (sink rt es) (λ u. Drained n)
  run_sink n [] = record { at = λ v d. drop_zero v d }
    where
      drop_zero : (v : SlotSet Bind × W) → Drained (n + 0) v → Drained n v
      drop_zero v d = ((d.0.0, λ c. omega (arith, d.0.1 c)), (d.1.0, λ c. omega (arith, d.1.1 c)))
  run_sink n (e ∷ es) = record {
    at = λ v d. go v (rt.on_burst (e ∷ es) v.1) d (
        subst (Balanced f n) (sym (books.burst_account (e ∷ es) v.1))
          (sinks-Balanced f n (rt.on_burst (e ∷ es) v.1).0 (e ∷ es) (books.account v.1) d.1.1));
  }
    where
      go :
          (v : SlotSet Bind × W) (r : Result (Unit {0}) × W)
          → Drained (n + weigh f (e ∷ es)) v
          → Balanced f n (books.account r.1)
          → Both (Closed n) (λ u. Drained n) (let (x, w) = r in (x, (v.0, w)))
      go v (ok u, w) d b = ((d.0.0, λ c. omega (arith, b c, d.1.0)), (d.1.0, b))
      go v (err x, w) d b = b

  pub run_finish_err :
      {A : Type 0} (n : ℕ) (e : Error) (Q : A → SlotSet Bind × W → Type 0)
      → Run (Closed n) (Open n) (finish_err rt e) Q
  unfolding finish_err
  run_finish_err n e Q =
      run_bind (λ u. Closed n) (record { at = restore_harvested-Emptied rt books f n })
        λ u. run_raise Q e (λ v c. c)

  pub run_finish_cancel : (n : ℕ) → Run (Closed n) (Open n) (finish_cancel rt) (λ end. Closed n)
  unfolding finish_cancel
  run_finish_cancel n =
      run_bind (λ u. Closed n) (record { at = restore_harvested-Emptied rt books f n })
        λ u. run_pure _ Follow.cancel (λ v c. c)

  -- The events are taken out of the slots.
  pub run_take_events :
      (n : ℕ) → Run (Closed n) (Open n) (call (inside take_events)) (λ es. Drained (n + weigh f es))
  unfolding take_events
  run_take_events n = record {
    at = λ v k. (
      (take_events-Bound v.0 k.0, λ c. omega (arith, k.1 c, weigh-take_events f v.0)),
      (weigh-take_events f v.0, k.1),
    );
  }
