-- ===== src/Poll/Runner/Steps.antt =====
-- crates/waitprims-async/src/poll_cycle.rs: the budget over the steps of a round.
use waitprims.Prelude.{ℕ, ◌≤◌, ◌≡◌, refl, not, ◌||◌, Option, none, some, List, [], arith}
use waitprims.Core.Error.{Error, Result, ok, err}
use waitprims.Core.Messages.{RegistrationSet, PollCycleRequest, PollCycleOutcome}
use waitprims.Observer.{Observation, Exec, ◌>>=◌, call}
use waitprims.Observer.Hoare.{Hoare, Ends, hoare_pure, hoare_if, hoare_bind}
use waitprims.Race.{FirstReadyOutput}
use waitprims.Live.Outcome.{ResolvedStart}
use waitprims.Poll.Budget.Gauge.{Gauge}
use waitprims.Poll.Visit.{Visits, emit, restore_admitted, emitted}
use waitprims.Poll.Visit.Charged.{load, total, Measured, Free, free}
use waitprims.Poll.Visit.Measured.{record_ready-Free}
use waitprims.Poll.Assemble.{is_empty}
use waitprims.Poll.Kind.Loaded.{Light, assemble-Light, finish-Light}
use waitprims.Poll.Runner.{
  Runtime, Step, return, again, Cycle, extend_ready, give, give_assembled, give_cancelled,
  record_in, go_on, take_in, on_binds, occupied_refs, starts_from_slots, all_visited, remap_ready,
  place,
}

module _ {W Bind : Type 0} (rt : Runtime W Bind) (g : Gauge) (set : RegistrationSet)
    (request : PollCycleRequest) where
  abbrev pub CycleMeasured : Cycle Bind → Type 0
  CycleMeasured st = Measured g st.budget (total g st.visits)

  abbrev pub Bounded : Step (Cycle Bind) → Type 0
  Bounded (return o) = load g o.events ≤ g.most
  Bounded (again st) = CycleMeasured st

  abbrev pub Yields : {A : Type 0} → Exec W A → (A → Type 0) → Type 0
  Yields = Free rt.observer g

  pub given :
      {A : Type 0} {Q : A → Type 0} (P : Type 0) {m : Exec W A}
      → (P → Yields m Q)
      → Hoare (λ w. P) m (λ a w. Q a)
  given P h = record { at = λ w p. (h p).at w tt }

  emit-Yields :
      (binds : List (Option Bind)) (visits : Visits) (outcome : Result PollCycleOutcome)
      → Yields (emit rt.observer binds visits outcome) (λ o. outcome ≡ ok o)
  unfolding emit emitted
  emit-Yields binds visits outcome = record {
    at = λ w h. go outcome (restore_admitted rt.observer binds visits w);
  }
    where
      go :
          (outcome : Result PollCycleOutcome) (r : Result (Unit {0}) × W)
          → Ends
              (λ o w. outcome ≡ ok o)
              (let (restored, w') = r in (emitted rt.observer outcome restored, w'))
      go (ok o) (ok u, w) = refl
      go (ok o) (err e, w) = tt
      go (err e) (r, w) = tt

  pub give-Bounded :
      (st : Cycle Bind) (outcome : Result PollCycleOutcome)
      → CycleMeasured st
      → Light g set request (total g st.visits) outcome
      → Yields (give rt set request st outcome) Bounded
  unfolding give
  give-Bounded st outcome m light =
      hoare_bind (λ o w. outcome ≡ ok o) (emit-Yields st.bound st.visits outcome)
        λ o. hoare_pure _ _ λ w e. omega (arith, light o e, m.charged, g.bounded st.budget m.limits)

  -- An effect whose result does not matter.
  pub after :
      {A B : Type 0} {Q : B → Type 0} (m : Exec W A) {f : A → Exec W B}
      → ((a : A) → Yields (f a) Q)
      → Yields (m >>= f) Q
  after m h = hoare_bind (λ a w. Unit) (free rt.observer g m) h

  pub give_assembled-Bounded :
      (st : Cycle Bind) (starts : List ResolvedStart)
      → CycleMeasured st
      → Yields (give_assembled rt set request st starts) Bounded
  unfolding give_assembled
  give_assembled-Bounded st starts m =
      after {Q = Bounded} (call rt.now)
        λ now. give-Bounded st _ m (assemble-Light g set request now starts st.visits)

  pub give_cancelled-Bounded :
      (st : Cycle Bind) (starts : List ResolvedStart)
      → CycleMeasured st
      → Yields (give_cancelled rt set request st starts) Bounded
  unfolding give_cancelled
  give_cancelled-Bounded st starts m =
      after {Q = Bounded} (call rt.now)
        λ now. give-Bounded st _ m (finish-Light g set request now starts st.visits _)

  pub record_in-CycleMeasured :
      (st : Cycle Bind) (ready : List (ℕ × Observation))
      → CycleMeasured st
      → Yields (record_in rt set request st ready) CycleMeasured
  unfolding record_in
  record_in-CycleMeasured st ready m =
      hoare_bind (λ done w. Measured g done.0 (total g done.1))
        (record_ready-Free rt.observer g set request st.bound st.budget st.visits ready m)
        λ done. hoare_pure _ _ (λ w h. h)

  pub go_on-Bounded :
      (st : Cycle Bind) (starts : List ResolvedStart)
      → CycleMeasured st
      → Yields (go_on rt set request st starts) Bounded
  go_on-Bounded st starts m =
      hoare_if (all_visited rt set request st.visits) (λ x. give_assembled-Bounded st starts m)
        λ x. hoare_pure _ _ (λ w h. m)

  take_in-Bounded :
      (st : Cycle Bind) → CycleMeasured st → Yields (take_in rt set request st) Bounded
  unfolding take_in
  take_in-Bounded st m = after {Q = Bounded} (extend_ready rt (occupied_refs st.bound) []) λ ready.
      hoare_bind (λ st' w. CycleMeasured st') (record_in-CycleMeasured st ready m)
        λ st'.
          given {Q = Bounded} (CycleMeasured st')
            (go_on-Bounded st' (starts_from_slots rt st'.bound))

  pub nothing_given : (most : ℕ) (e : Error) → Light g set request most (err e)
  nothing_given most e o h = cc

  pub on_binds-Bounded :
      (st : Cycle Bind) (idxs : List ℕ) (out : FirstReadyOutput Bind)
      → CycleMeasured st
      → Yields (on_binds rt set request st idxs out) Bounded
  unfolding on_binds
  on_binds-Bounded st idxs out m = go out.error
    where
      bound_now : Cycle Bind
      bound_now = record st {
        bound = place (remap_ready idxs out.ready) st.bound;
        any_bound = st.any_bound || not (is_empty (remap_ready idxs out.ready));
      }

      go :
          (e : Option Error)
          → Yields
              (elim e [
                | some e ↦ give rt set request st (err e)
                | none ↦ take_in rt set request bound_now
              ])
              Bounded
      go (some e) = give-Bounded st (err e) m (nothing_given _ e)
      go none = take_in-Bounded bound_now m
