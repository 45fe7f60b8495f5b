-- ===== src/Live/Runner/Custody.antt =====
-- crates/waitprims-async/src/first_match.rs: where the events go that `decide_and_restore` is given.
pub mod Least
pub mod Back
use mathlib.Core.List.{Perm, perm_middle, append-nil, append_assoc}
use mathlib.Core.List.Perm
use mathlib.Core.Path.{subst}
use mathlib.Core.Option.{some-injective}
use waitprims.Prelude.{
  ℕ, String, ◌≡◌, ◌≢◌, refl, sym, ap, ◌∙◌, Bool, true, false, ◌||◌, Option, none, some, List, [],
  ◌∷◌, ◌++◌, map, find, All, if◌then◌else◌, arith, ltb, ℕ_eq, Bool-cases, inl, inr,
}
use waitprims.Core.Error.{Result, ok, err}
use waitprims.Core.Time.{Timestamp}
use waitprims.Core.Types.{WaitEvent}
use waitprims.Core.Messages.{RegistrationSet, LiveWaitRequest, LiveWaitOutcome}
use waitprims.Observer.{Observation, Exec, ◌>>=◌, pure}
use waitprims.Observer.Hoare.{Hoare, Ends, hoare_pure, hoare_bind}
use waitprims.Live.Outcome.{
  ResolvedStart, base, events, partial, failed, refused, reauthentication_required,
}
use waitprims.Live.Decide.{
  tally, lower, min_by_idx, the_event, decide, overflow_outcome, plain_outcome, posture_reject,
}
use waitprims.Live.Runner.{
  Runtime, at_idx, is_idx, idx_of, event_winner_idx, restore_at, restore_owned, restore_except,
  restore_losers, settle, decide_and_restore,
}
use waitprims.Live.Runner.Custody.Least.{Distinct, bare, except, except-none, the_list, min-perm}
use waitprims.Live.Runner.Custody.Back.{
  Ledger, events_back, Reachable, WentBack, Holds, restore_except-WentBack, restore_owned-except,
}

-- The events that a turn dequeued.
abbrev pub events_in : List (ℕ × Observation) → List WaitEvent
events_in ready = map (λ e. e.1) (tally ready).events

abbrev pub outcome_events : LiveWaitOutcome → List WaitEvent
outcome_events o = elim o.events [ none ↦ [] | some es ↦ es ]

-- The events of a decided outcome are the winner, if there is one.
decide-outcome_events :
    (set : RegistrationSet) (request : LiveWaitRequest) (now : Timestamp)
    (ready : List (ℕ × Observation)) (resolved : List ResolvedStart) (o : LiveWaitOutcome)
    → decide set request now ready resolved ≡ some o
    → outcome_events o ≡ the_list (min_by_idx (tally ready).events)
unfolding decide overflow_outcome plain_outcome failed partial events base
decide-outcome_events set request now ready resolved o d =
    go (tally ready).overflow (tally ready).failed (min_by_idx (tally ready).events) d
  where
    go :
        (b : Bool) (f : Option String) (m : Option (ℕ × WaitEvent))
        → (if b
            then some (overflow_outcome set request now (the_event m) resolved)
            else plain_outcome set request now f (the_event m))
          ≡ some o
        → outcome_events o ≡ the_list m
    go true f none h = ap outcome_events (sym (some-injective _ _ h))
    go true f (some (i, e)) h = ap outcome_events (sym (some-injective _ _ h))
    go false f (some (i, e)) h = ap outcome_events (sym (some-injective _ _ h))
    go false none none h = cc
    go false (some r) none h = ap outcome_events (sym (some-injective _ _ h))

posture_reject-outcome_events :
    (set : RegistrationSet) (request : LiveWaitRequest) (now : Timestamp) (r : LiveWaitOutcome)
    → posture_reject set request now ≡ some r
    → outcome_events r ≡ []
unfolding posture_reject refused reauthentication_required base
posture_reject-outcome_events set request now r e = ground arith

module _ {W Bind : Type 0} (rt : Runtime W Bind) (ledger : Ledger rt) (set : RegistrationSet)
    (request : LiveWaitRequest) (now : Timestamp) where
  -- Each event that was dequeued is in the outcome or back with its observer, and none twice.
  pub record Conserved (old : List (Bind × Observation)) (ready : List (ℕ × Observation))
      (o : LiveWaitOutcome) (w : W) : Type 0 where
    pub back : List (Bind × Observation)
    pub grown : ledger.held w ≡ back ++ old
    pub kept : Perm (events_in ready) (outcome_events o ++ events_back back)

  abbrev After :
      List (Bind × Observation) → List (ℕ × Observation) → Option LiveWaitOutcome → W → Type 0
  After old ready none w = Unit
  After old ready (some o) w = Conserved old ready o w

  module _ (old : List (Bind × Observation)) (binds : List (ℕ × Bind))
      (ready : List (ℕ × Observation)) (resolved : List ResolvedStart)
      (distinct : Distinct (tally ready).events)
      (reachable : All (Reachable binds) (tally ready).events) where
    settle-After :
        (o : LiveWaitOutcome)
        → decide set request now ready resolved ≡ some o
        → (a : Option LiveWaitOutcome) → posture_reject set request now ≡ a
        → Hoare (Holds rt ledger old) (settle rt set request binds ready o a) (After old ready)
    unfolding settle restore_losers event_winner_idx
    settle-After o d none p =
        hoare_bind _ (restore_except-WentBack rt ledger old _ binds ready reachable) λ u.
          hoare_pure (After old ready) (some o) λ w wb. record {
            back = wb.back;
            grown = wb.grown;
            kept = rw (decide-outcome_events set request now ready resolved o d) (
                Perm.trans (min-perm (tally ready).events distinct)
                  (Perm.append_left (the_list (min_by_idx (tally ready).events)) wb.same));
          }
    settle-After o d (some r) p = rw (restore_owned-except rt ledger binds ready) (
        hoare_bind _ (restore_except-WentBack rt ledger old none binds ready reachable) λ u.
          hoare_pure (After old ready) (some r) λ w wb. record {
            back = wb.back;
            grown = wb.grown;
            kept = rw (posture_reject-outcome_events set request now r p) (
                subst (λ l. Perm (bare l) (events_back wb.back)) (except-none (tally ready).events)
                  wb.same);
          })

    decided-After :
        Hoare
          (Holds rt ledger old)
          (decide_and_restore rt set request now binds ready resolved)
          (After old ready)
    unfolding decide_and_restore
    decided-After = go (decide set request now ready resolved) refl
      where
        go :
            (d : Option LiveWaitOutcome)
            → decide set request now ready resolved ≡ d
            → Hoare
                (Holds rt ledger old)
                (elim d [
                  | none ↦ pure none
                  | some outcome ↦
                      settle rt set request binds ready outcome (posture_reject set request now)
                ])
                (After old ready)
        go none e = hoare_pure (After old ready) none (λ w h. tt)
        go (some o) e = settle-After o e (posture_reject set request now) refl

  -- Where the arms that gave an event are distinct and bound, and `restore_ready` puts back what
  -- it is given: a turn that decides an outcome, a posture refusal included, leaves each event
  -- that it dequeued either in the outcome or back with the observer, and no event in both.
  pub decide_and_restore-Conserved :
      (binds : List (ℕ × Bind)) (ready : List (ℕ × Observation)) (resolved : List ResolvedStart)
      (w : W) (o : LiveWaitOutcome) (w' : W)
      → Distinct (tally ready).events
      → All (Reachable binds) (tally ready).events
      → decide_and_restore rt set request now binds ready resolved w ≡ (ok (some o), w')
      → Conserved (ledger.held w) ready o w'
  decide_and_restore-Conserved binds ready resolved w o w' distinct reachable e =
      subst (Ends (After (ledger.held w) ready)) e
        ((decided-After (ledger.held w) binds ready resolved distinct reachable).at w refl)
