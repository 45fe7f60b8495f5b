-- ===== src/Live/Runner.antt =====
-- crates/waitprims-async/src/first_match.rs: custody of what was dequeued, and the loop. One
-- `tokio::select!` is one call of the runtime, which answers with the arm that completed.
pub mod Frames
pub mod LostWinner
pub mod Custody
pub mod Timed
pub mod Admission
pub mod Returns
use waitprims.Prelude.{
  ℕ, zero, suc, ◌-◌, ◌*◌, min, Bool, true, false, not, ◌&&◌, ◌||◌, String, Option, none, some, List,
  [], ◌∷◌, ◌++◌, map, ltb, ◌==◌, ℕ_eq, string_eq, if◌then◌else◌, any, all, find, enumerate,
}
use waitprims.Core.Error.{Result, ok, err, Error}
use waitprims.Core.Time.{Timestamp, Calendar}
use waitprims.Core.Types.{Registration}
use waitprims.Core.Messages.{RegistrationSet, LiveWaitRequest, LiveWaitOutcome}
use waitprims.Observer.{
  Observation, Observer, Exec, ◌>>=◌, ◌>>◌, pure, raise, call, lift, is_replayable,
}
use waitprims.Race.{FirstReadyOutput}
use waitprims.Live.Outcome.{ResolvedStart}
use waitprims.Live.Outcome
use waitprims.Live.Decide.{
  resolve, decide, min_by_idx, tally, posture_reject, terminal_deadline, finish, earliest_deadline,
  backoff_deadline, next_step,
}

-- The arm of a `select!` that completed: the race, the cancel token with what the race still held,
-- or the clock with what the race still held.
pub data Wake (T : Type 0) : Type 0 where
  collected : FirstReadyOutput T → Wake T
  cancelled : List (ℕ × T) → Wake T
  slept : List (ℕ × T) → Wake T

pub record Runtime (W Bind : Type 0) : Type 0 where
  pub observer : Observer W Bind
  pub open observer use *
  pub calendar : Calendar
  -- The race of `next` over the binds, the cancel token and the sleep until a deadline.
  pub select_bound : List Bind → Timestamp → W → Wake Observation × W
  -- The race of `bind_then_observe`; beside it the binds that became resolved, in order.
  pub select_bind : List Registration → Timestamp → W → (Wake (Bind × Observation) × List Bind) × W
  -- The sleep of a backoff, which the cancel token ends early.
  pub pause : Timestamp → W → Unit {0} × W

abbrev pub at_idx : {A : Type 0} → ℕ → ℕ × A → Bool
at_idx idx (i, a) = i == idx

abbrev pub event_idxs : {A : Type 0} → List (ℕ × A) → List ℕ
event_idxs = map (λ e. e.0)

abbrev pub idx_of : {A : Type 0} → Option (ℕ × A) → Option ℕ
idx_of none = none
idx_of (some (i, a)) = some i

-- The least index of an event.
unfoldable pub event_winner_idx : List (ℕ × Observation) → Option ℕ
event_winner_idx ready = idx_of (min_by_idx (tally ready).events)

abbrev pub is_idx : ℕ → Option ℕ → Bool
is_idx idx none = false
is_idx idx (some i) = idx == i

insert_by_idx : {A : Type 0} → ℕ × A → List (ℕ × A) → List (ℕ × A)
insert_by_idx (i, a) [] = (i, a) ∷ []
insert_by_idx (i, a) ((j, b) ∷ rest) =
    if ltb j i then (j, b) ∷ insert_by_idx (i, a) rest else (i, a) ∷ (j, b) ∷ rest

-- slice::sort_by_key on the index, which is stable.
unfoldable pub sort_by_idx : {A : Type 0} → List (ℕ × A) → List (ℕ × A)
unfolding insert_by_idx
sort_by_idx [] = []
sort_by_idx (item ∷ rest) = insert_by_idx item (sort_by_idx rest)

pub data Step (S : Type 0) : Type 0 where
  return : LiveWaitOutcome → Step S
  again : S → Step S

pub record Loop (Bind : Type 0) : Type 0 where
  pub backoff_step : ℕ
  pub bound : Option (List Bind)
  pub resolved : List ResolvedStart

module _ {W Bind : Type 0} (rt : Runtime W Bind) where
  abbrev pub start : Bind → ResolvedStart
  start bind = record { registration_id = rt.registration_id bind; start = rt.resolved_start bind }

  abbrev pub starts_from_binds : List Bind → List ResolvedStart
  starts_from_binds = map start

  abbrev pub second_bind : ℕ × Bind → Bind
  second_bind e = e.1

  -- extend_ready_refs: arms that gave nothing are asked without waiting.
  abbrev pub push_ready : ℕ → Option Observation → List (ℕ × Observation) → List (ℕ × Observation)
  push_ready idx none ready = ready
  push_ready idx (some obs) ready = ready ++ (idx, obs) ∷ []

  unfoldable pub extend_ready :
      List (ℕ × Bind) → List (ℕ × Observation) → Exec W (List (ℕ × Observation))
  extend_ready [] ready = pure ready
  extend_ready ((idx, bind) ∷ binds) ready =
      if any (at_idx idx) ready
      then extend_ready binds ready
      else do obs ← call (rt.poll_ready bind); extend_ready binds (push_ready idx obs ready)

  restore_at : Option (ℕ × Bind) → Observation → Exec W (Unit {0})
  restore_at none obs = pure tt
  restore_at (some (idx, bind)) obs = rt.restore_ready bind obs

  unfoldable pub restore_owned : List (ℕ × Bind) → List (ℕ × Observation) → Exec W (Unit {0})
  unfolding restore_at
  restore_owned binds [] = pure tt
  restore_owned binds ((idx, obs) ∷ ready) =
      let rest = restore_owned binds ready in
      if not (is_replayable obs) then rest else do restore_at (find (at_idx idx) binds) obs; rest

  unfoldable pub restore_bound_pairs : List (ℕ × (Bind × Observation)) → Exec W (Unit {0})
  restore_bound_pairs [] = pure tt
  restore_bound_pairs ((idx, (bind, obs)) ∷ ready) =
      let rest = restore_bound_pairs ready in
      if is_replayable obs then (do rt.restore_ready bind obs; rest) else rest

  pub restore_except : Option ℕ → List (ℕ × Bind) → List (ℕ × Observation) → Exec W (Unit {0})
  restore_except winner binds [] = pure tt
  restore_except winner binds ((idx, obs) ∷ ready) =
      let rest = restore_except winner binds ready in
      if is_idx idx winner || not (is_replayable obs)
      then rest
      else do restore_at (find (at_idx idx) binds) obs; rest

  unfoldable pub restore_losers : List (ℕ × Bind) → List (ℕ × Observation) → Exec W (Unit {0})
  unfolding restore_except restore_at
  restore_losers binds ready = restore_except (event_winner_idx ready) binds ready

  module _ (set : RegistrationSet) (request : LiveWaitRequest) where
    settle :
        List (ℕ × Bind)
        → List (ℕ × Observation)
        → LiveWaitOutcome
        → Option LiveWaitOutcome
        → Exec W (Option LiveWaitOutcome)
    settle binds ready outcome none = do restore_losers binds ready; pure (some outcome)
    settle binds ready outcome (some rejected) = do restore_owned binds ready; pure (some rejected)

    unfoldable pub decide_and_restore :
        Timestamp
        → List (ℕ × Bind)
        → List (ℕ × Observation)
        → List ResolvedStart
        → Exec W (Option LiveWaitOutcome)
    unfolding settle
    decide_and_restore now binds ready resolved = elim (decide set request now ready resolved) [
      | none ↦ pure none
      | some outcome ↦ settle binds ready outcome (posture_reject set request now)
    ]

    -- Ok(finish(set, request, clock.now(), outcome::cancelled(request, clock.now())))
    unfoldable pub give_cancelled : Exec W (Step (Loop Bind))
    give_cancelled = do
      now ← call rt.now
      at ← call rt.now
      pure (return (finish set request now (Outcome.cancelled request at)))

    -- Ok(finish(set, request, clock.now(), outcome))
    unfoldable pub give : LiveWaitOutcome → Exec W (Step (Loop Bind))
    give outcome = do now ← call rt.now; pure (return (finish set request now outcome))

    -- sleep_backoff
    unfoldable pub sleep_backoff : ℕ → Exec W (Unit {0})
    sleep_backoff step = do
      now ← call rt.now
      call (rt.pause (backoff_deadline rt.calendar now request step))

    -- After a turn of the bound race that decided nothing.
    unfoldable pub back_off : Loop Bind → Exec W (Step (Loop Bind))
    unfolding sleep_backoff
    back_off st = do
      sleep_backoff (next_step st.backoff_step)
      stop ← call rt.is_cancelled
      if stop
          then give_cancelled
          else pure (again (record st { backoff_step = next_step st.backoff_step }))

    decided : Option LiveWaitOutcome → Exec W (Step (Loop Bind)) → Exec W (Step (Loop Bind))
    decided none otherwise = otherwise
    decided (some outcome) otherwise = give outcome

    decided_at :
        Timestamp → Option LiveWaitOutcome → Exec W (Step (Loop Bind)) → Exec W (Step (Loop Bind))
    decided_at now none otherwise = otherwise
    decided_at now (some outcome) otherwise = pure (return (finish set request now outcome))

    unfoldable pub on_bound : List Bind → Loop Bind → Wake Observation → Exec W (Step (Loop Bind))
    unfolding decided decided_at
    on_bound binds st (collected out) = elim out.error [
      | some e ↦ do restore_owned (enumerate binds) out.ready; raise e
      | none ↦ do
        ready ← extend_ready (enumerate binds) out.ready
        now ← call rt.now
        outcome ← decide_and_restore now (enumerate binds) ready (starts_from_binds binds)
        decided outcome (back_off st)
    ]
    on_bound binds st (cancelled leftover) = do
      restore_owned (enumerate binds) leftover
      give_cancelled
    on_bound binds st (slept leftover) = do
      now ← call rt.now
      restore_owned (enumerate binds) leftover
      ready ← extend_ready (enumerate binds) []
      outcome ← decide_and_restore now (enumerate binds) ready (starts_from_binds binds)
      decided_at now outcome (
          decided_at now (terminal_deadline set request now (starts_from_binds binds))
            (pure (again st)))

    abbrev pub bind_of : ℕ × (Bind × Observation) → ℕ × Bind
    bind_of (idx, (bind, obs)) = (idx, bind)

    abbrev pub obs_of : ℕ × (Bind × Observation) → ℕ × Observation
    obs_of (idx, (bind, obs)) = (idx, obs)

    -- The binds are held in arm order, and the loop backs off.
    hold : List (ℕ × Bind) → Loop Bind → Exec W (Step (Loop Bind))
    hold indexed st = do
      sleep_backoff (next_step st.backoff_step)
      pure (
          again (record st {
            backoff_step = next_step st.backoff_step;
            bound = some (map second_bind (sort_by_idx indexed));
          }))

    unfoldable pub on_bind : Loop Bind → Wake (Bind × Observation) → Exec W (Step (Loop Bind))
    unfolding decided decided_at hold
    on_bind st (collected out) = elim out.error [
      | some e ↦ do restore_bound_pairs out.ready; raise e
      | none ↦ do
        let indexed = map bind_of out.ready
        ready ← extend_ready indexed (map obs_of out.ready)
        now ← call rt.now
        outcome ← decide_and_restore now indexed ready (starts_from_binds (map second_bind indexed))
        decided outcome (hold indexed st)
    ]
    on_bind st (cancelled leftover) = do restore_bound_pairs leftover; give_cancelled
    on_bind st (slept leftover) = do
      restore_bound_pairs leftover
      now ← call rt.now
      decided_at now (terminal_deadline set request now st.resolved) (pure (again st))

    -- The binds that became resolved during a bind race are recorded whatever arm completes.
    select_unbound : Loop Bind → Exec W (Step (Loop Bind))
    unfolding on_bind
    select_unbound st = do
      woken ← call (rt.select_bind set.registrations (earliest_deadline request))
      on_bind (record st { resolved = st.resolved ++ starts_from_binds woken.1 }) woken.0

    select_held : List Bind → Loop Bind → Exec W (Step (Loop Bind))
    unfolding on_bound
    select_held binds st = do
      woken ← call (rt.select_bound binds (earliest_deadline request))
      on_bound binds st woken

    abbrev pub known_starts : Loop Bind → List ResolvedStart
    known_starts st = elim st.bound [ some binds ↦ starts_from_binds binds | none ↦ st.resolved ]

    select_arm : Loop Bind → Exec W (Step (Loop Bind))
    unfolding select_held select_unbound
    select_arm st = elim st.bound [ some binds ↦ select_held binds st | none ↦ select_unbound st ]

    -- One round of the loop.
    unfoldable pub iteration : Loop Bind → Exec W (Step (Loop Bind))
    unfolding decided select_arm
    iteration st = do
      stop ← call rt.is_cancelled
      if stop then give_cancelled else do
        now ← call rt.now
        decided (terminal_deadline set request now (known_starts st)) (select_arm st)

    -- `none` when the fuel runs out.
    pub run_loop : ℕ → Loop Bind → Exec W (Option LiveWaitOutcome)
    run_loop zero st = pure none
    run_loop (suc fuel) st =
        iteration st
        >>= elim [ return outcome ↦ pure (some outcome) | again st' ↦ run_loop fuel st' ]

    abbrev pub start_state : Loop Bind
    start_state = record { backoff_step = 0; bound = none; resolved = [] }

    unfoldable pub run_first_match : ℕ → Exec W (Option LiveWaitOutcome)
    unfolding run_loop
    run_first_match fuel = do lift (resolve set request); run_loop fuel start_state
