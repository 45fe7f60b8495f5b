-- ===== src/Poll/Runner/Bounds.antt =====
-- crates/waitprims-async/src/poll_cycle.rs: the budget over the rounds of the loop.
use mathlib.Core.Path.{subst}
use waitprims.Prelude.{ℕ, zero, suc, ◌≤◌, ◌≡◌, ◌&&◌, Option, none, some, List}
use waitprims.Core.Error.{Error, ok, err}
use waitprims.Core.Messages.{RegistrationSet, PollCycleRequest, PollCycleOutcome}
use waitprims.Observer.{Observation, Exec, ◌>>=◌, ◌>>◌, pure, lift}
use waitprims.Observer.Hoare.{Hoare, Ends, hoare_pure, hoare_if, hoare_bind}
use waitprims.Race.{FirstReadyOutput}
use waitprims.Live.Outcome.{ResolvedStart}
use waitprims.Poll.Budget.{new}
use waitprims.Poll.Budget.Gauge.{Gauge}
use waitprims.Poll.Visit.{restore_owned_observations}
use waitprims.Poll.Visit.Charged.{load, Measured}
use waitprims.Poll.Assemble.{is_empty}
use waitprims.Poll.Kind.{deadline_reached}
use waitprims.Poll.Kind.Loaded.{decide_at_deadline-Light}
use waitprims.Poll.Runner.Steps.{
  CycleMeasured, Bounded, Yields, given, after, give-Bounded, give_assembled-Bounded,
  give_cancelled-Bounded, record_in-CycleMeasured, go_on-Bounded, nothing_given, on_binds-Bounded,
}
use waitprims.Poll.Runner.{
  Runtime, Wake, FirstWake, Step, return, again, Cycle, extend_ready, give, record_in, go_on,
  on_observed, on_wake, on_first, bound_round, first_round, iteration, run_loop, start_state,
  run_poll_cycle, resolve, pending_refs, all_visited, remap_ready, pending_of, unbound_of,
}

module _ {W Bind : Type 0} (rt : Runtime W Bind) (g : Gauge) (set : RegistrationSet)
    (request : PollCycleRequest) where
  abbrev Keeps : Exec W (Step (Cycle Bind)) → Type 0
  Keeps m = Yields rt g set request m (Bounded rt g set request)

  abbrev Good : Cycle Bind → Type 0
  Good = CycleMeasured rt g set request

  -- What is taken in, and then a step from there.
  taken_in :
      (st : Cycle Bind) (ready : List (ℕ × Observation))
      (f : Cycle Bind → Exec W (Step (Cycle Bind)))
      → Good st
      → ((st' : Cycle Bind) → Good st' → Keeps (f st'))
      → Keeps (record_in rt set request st ready >>= f)
  taken_in st ready f m h =
      hoare_bind (λ st' w. Good st') (record_in-CycleMeasured rt g set request st ready m)
        λ st'. given rt g set request {Q = Bounded rt g set request} (Good st') (h st')

  then_step :
      {A : Type 0} (m : Exec W A) (f : A → Exec W (Step (Cycle Bind)))
      → ((a : A) → Keeps (f a))
      → Keeps (m >>= f)
  then_step m f h = after rt g set request {Q = Bounded rt g set request} m h

  on_observed-Keeps :
      (st : Cycle Bind) (starts : List ResolvedStart) (pending : List ℕ)
      (out : FirstReadyOutput Observation)
      → Good st
      → Keeps (on_observed rt set request st starts pending out)
  unfolding on_observed
  on_observed-Keeps st starts pending out m = go out.error
    where
      go :
          (e : Option Error)
          → Keeps (elim e [
            | some e ↦ do
              restore_owned_observations rt.observer st.bound (remap_ready pending out.ready)
              give rt set request st (err e)
            | none ↦ do
              ready ←
                  extend_ready rt (pending_refs st.bound pending) (remap_ready pending out.ready)
              st' ← record_in rt set request st ready
              go_on rt set request st' starts
          ])
      go (some e) =
          then_step _ _
            λ u. give-Bounded rt g set request st (err e) m (nothing_given rt g set request _ e)
      go none =
          then_step _ _
            λ ready. taken_in st ready _ m λ st' m'. go_on-Bounded rt g set request st' starts m'

  on_wake-Keeps :
      (st : Cycle Bind) (starts : List ResolvedStart) (pending unbound : List ℕ) (woken : Wake Bind)
      → Good st
      → Keeps (on_wake rt set request st starts pending unbound woken)
  unfolding on_wake
  on_wake-Keeps st starts pending unbound (Wake.observed out) m =
      on_observed-Keeps st starts pending out m
  on_wake-Keeps st starts pending unbound (Wake.bound out) m =
      on_binds-Bounded rt g set request st unbound out m
  on_wake-Keeps st starts pending unbound Wake.cancelled m =
      give_cancelled-Bounded rt g set request st starts m
  on_wake-Keeps st starts pending unbound Wake.slept m = then_step _ _ λ now. then_step _ _ λ ready.
      taken_in st ready _ m λ st' m'.
        give-Bounded rt g set request st' _ m'
          (decide_at_deadline-Light g set request now starts st'.visits)

  on_first-Keeps :
      (st : Cycle Bind) (woken : FirstWake Bind)
      → Good st
      → Keeps (on_first rt set request st woken)
  unfolding on_first
  on_first-Keeps st (FirstWake.bound out) m = on_binds-Bounded rt g set request st _ out m
  on_first-Keeps st FirstWake.cancelled m = give_cancelled-Bounded rt g set request st _ m
  on_first-Keeps st FirstWake.slept m = then_step _ _ λ now.
      give-Bounded rt g set request st _ m
        (decide_at_deadline-Light g set request now st.resolved st.visits)

  bound_round-Keeps :
      (st : Cycle Bind) (starts : List ResolvedStart)
      → Good st
      → Keeps (bound_round rt set request st starts)
  unfolding bound_round
  bound_round-Keeps st starts m =
      hoare_if (is_empty (pending_of rt set request st) && all_visited rt set request st.visits)
        (λ x. give_assembled-Bounded rt g set request st starts m)
        λ x.
          hoare_if
            (is_empty (pending_of rt set request st) && is_empty (unbound_of rt set request st))
            (λ y. give_assembled-Bounded rt g set request st starts m)
            λ y. then_step _ _ λ woken. on_wake-Keeps _ starts _ _ woken.0 m

  first_round-Keeps : (st : Cycle Bind) → Good st → Keeps (first_round rt set request st)
  unfolding first_round
  first_round-Keeps st m = then_step _ _ λ woken. on_first-Keeps _ woken.0 m

  iteration-Keeps : (st : Cycle Bind) → Good st → Keeps (iteration rt set request st)
  unfolding iteration
  iteration-Keeps st m = then_step _ _ λ stop.
      hoare_if stop (λ x. give_cancelled-Bounded rt g set request st st.resolved m)
        λ x. then_step _ _ λ now.
          hoare_if (deadline_reached set request now)
            (λ y. then_step _ _ λ at.
              give-Bounded rt g set request st _ m
                (decide_at_deadline-Light g set request at _ st.visits))
            λ y. hoare_if st.any_bound (λ z. bound_round-Keeps st _ m) (λ z. first_round-Keeps st m)

  abbrev Within : Option PollCycleOutcome → Type 0
  Within none = Unit
  Within (some o) = load g o.events ≤ g.most

  run_loop-Within :
      (fuel : ℕ) (st : Cycle Bind)
      → Good st
      → Yields rt g set request (run_loop rt set request fuel st) Within
  unfolding run_loop
  run_loop-Within zero st m = hoare_pure _ none (λ w h. tt)
  run_loop-Within (suc fuel) st m =
      hoare_bind (λ s w. Bounded rt g set request s) (iteration-Keeps st m)
        (go (λ st' m'. run_loop-Within fuel st' m'))
    where
      go :
          ((st' : Cycle Bind)
            → Good st'
            → Yields rt g set request (run_loop rt set request fuel st') Within)
          → (s : Step (Cycle Bind))
          → Hoare {W = W}
              (λ w. Bounded rt g set request s)
              (elim s [
                | return outcome ↦ pure (some outcome)
                | again st' ↦ run_loop rt set request fuel st'
              ])
              (λ o w. Within o)
      go next (return o) = hoare_pure _ (some o) (λ w h. h)
      go next (again st') = given rt g set request {Q = Within} (Good st') (next st')

  -- An outcome of the cycle weighs at most what the gauge allows, if a new budget is measured.
  pub run_poll_cycle-load :
      (fuel : ℕ) (w : W) (o : PollCycleOutcome) (w' : W)
      → Measured g (new set request) 0
      → run_poll_cycle rt set request fuel w ≡ (ok (some o), w')
      → load g o.events ≤ g.most
  unfolding run_poll_cycle
  run_poll_cycle-load fuel w o w' m e =
      subst (Ends {W = W} (λ (a : Option PollCycleOutcome) _. Within a)) e (run.at w tt)
    where
      run : Yields rt g set request (run_poll_cycle rt set request fuel) Within
      run =
          after rt g set request {Q = Within} (lift (resolve set request))
            λ u. run_loop-Within fuel (start_state rt set request) m
