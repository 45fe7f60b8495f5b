-- ===== src/Live/Runner/Admission.antt =====
-- crates/waitprims-async/src/first_match.rs: the outcomes of `run_first_match` against the rules of
-- Live/Shape.
use mathlib.Core.Path.{subst}
use waitprims.Prelude.{
  ℕ, zero, suc, ◌≤◌, ◌≡◌, refl, Option, none, some, List, [], enumerate, map, arith, inl, inr,
}
use waitprims.Core.Error.{Error, Result, ok, err}
use waitprims.Core.Time.{Timestamp}
use waitprims.Core.Messages.{RegistrationSet, LiveWaitRequest, LiveWaitOutcome}
use waitprims.Observer.{Observation, Exec, ◌>>=◌, pure, raise, call}
use waitprims.Observer.Hoare.{
  Hoare, Keeps, Ends, hoare_pure, hoare_raise, hoare_call, hoare_lift, hoare_if, hoare_bind,
  hoare_pre,
}
use waitprims.Live.Outcome.{ResolvedStart, cancelled, base}
use waitprims.Live.Decide.{terminal_deadline, finish, resolve, next_step}
use waitprims.Live.Shape.{
  IsShaped, IsAdmissible, BuiltAt, cancelled-BuiltAt, decide-BuiltAt, terminal_deadline-BuiltAt,
  posture_reject-Rejects, finish-IsAdmissible, reject-IsAdmissible,
}
use waitprims.Live.Runner.{
  Runtime, Wake, collected, slept, Step, return, again, Loop, starts_from_binds, extend_ready,
  restore_owned, restore_bound_pairs, decide_and_restore, give_cancelled, give, sleep_backoff,
  back_off, decided, decided_at, on_bound, bind_of, obs_of, second_bind, hold, on_bind,
  select_unbound, select_held, select_arm, known_starts, iteration, run_loop, start_state,
  run_first_match,
}
use waitprims.Live.Runner.Frames.{
  Stable, Decided, extend_ready-Keeps, restore_owned-Keeps, restore_bound_pairs-Keeps,
  decide_and_restore_lem,
}
use waitprims.Live.Runner.Timed.{Timed, Since, Since-Stable}

-- An outcome that is returned, or none, has the property.
abbrev pub Returned : {S : Type 0} → (LiveWaitOutcome → Type 0) → Step S → Type 0
Returned P (return o) = P o
Returned P (again st) = Unit

abbrev pub Given : (LiveWaitOutcome → Type 0) → Option LiveWaitOutcome → Type 0
Given P none = Unit
Given P (some o) = P o

abbrev Any : {W : Type 0} → W → Type 0
Any w = Unit

module _ {W Bind : Type 0} (rt : Runtime W Bind) (timed : Timed rt) (set : RegistrationSet)
    (request : LiveWaitRequest) where
  abbrev Good : Step (Loop Bind) → W → Type 0
  Good s w = Returned (IsAdmissible set request) s

  -- What is known of an outcome that was decided by the time t.
  abbrev DecidedBy : ℕ → LiveWaitOutcome → Type 0
  DecidedBy t o = IsShaped request o × (o.completed_at.instant ≤ t)

  any_stable : Stable rt Any
  any_stable = record {
    polls = λ b w h. tt;
    restores = λ b obs. record { at = λ w h. ends (rt.restore_ready b obs w) };
  }
    where
      ends : (r : Result (Unit {0}) × W) → Ends (λ _. Any) r
      ends (ok a, w) = tt
      ends (err e, w) = tt

  -- A clock reading starts a known time.
  read_now :
      (Q : Timestamp → W → Type 0)
      → ((w : W) → Q (rt.now w).0 (rt.now w).1)
      → Hoare Any (call rt.now) Q
  read_now Q h = hoare_call Q rt.now (λ w _. h w)

  abbrev AtLeast : Timestamp → W → Type 0
  AtLeast t = Since rt timed t.instant

  reads : Hoare Any (call rt.now) AtLeast
  reads = read_now AtLeast timed.now_before

  give_cancelled-Good : Hoare Any (give_cancelled rt set request) Good
  unfolding give_cancelled finish cancelled base
  give_cancelled-Good =
      hoare_bind (λ _. Any) (read_now (λ _. Any) (λ w. tt))
        λ now.
          hoare_bind (λ _. Any) (read_now (λ _. Any) (λ w. tt))
            λ at.
              hoare_pure Good (return (finish set request now (cancelled request at)))
                λ w _. reject-IsAdmissible set request _ (cancelled-BuiltAt request at).0 refl

  give-Good :
      (t : ℕ) (o : LiveWaitOutcome)
      → DecidedBy t o
      → Hoare (Since rt timed t) (give rt set request o) Good
  unfolding give
  give-Good t o (shape, by) =
      hoare_bind (λ now w. t ≤ now.instant)
        (hoare_call _ rt.now (λ w h. omega (arith, timed.now_after w)))
        λ now.
          hoare_pure Good (return (finish set request now o))
            λ w h. finish-IsAdmissible set request now o shape (omega arith)

  decided-Good :
      (t : ℕ) (a : Option LiveWaitOutcome) (rest : Exec W (Step (Loop Bind)))
      → Given (DecidedBy t) a
      → Hoare Any rest Good
      → Hoare (Since rt timed t) (decided rt set request a rest) Good
  unfolding decided
  decided-Good t none rest d h = hoare_pre (λ w _. tt) h
  decided-Good t (some o) rest d h = give-Good t o d

  decided_at-Good :
      (now : Timestamp) (a : Option LiveWaitOutcome) (rest : Exec W (Step (Loop Bind)))
      → Given (DecidedBy now.instant) a
      → Hoare Any rest Good
      → Hoare Any (decided_at rt set request now a rest) Good
  unfolding decided_at
  decided_at-Good now none rest d h = h
  decided_at-Good now (some o) rest (shape, by) h =
      hoare_pure Good (return (finish set request now o))
        λ w _. finish-IsAdmissible set request now o shape by

  built-DecidedBy :
      (now : Timestamp) (o : LiveWaitOutcome) → BuiltAt request now o → DecidedBy now.instant o
  built-DecidedBy now o (shape, at) = (shape, rw at (omega arith))

  Decided-DecidedBy :
      (now : Timestamp) (ready : List (ℕ × Observation)) (resolved : List ResolvedStart)
      (a : Option LiveWaitOutcome)
      → Decided rt Any any_stable set request now ready resolved a
      → Given (DecidedBy now.instant) a
  Decided-DecidedBy now ready resolved a (inl (d, e)) = rw e tt
  Decided-DecidedBy now ready resolved a (inr (o, d, inl (p, e))) =
      rw e (built-DecidedBy now o (decide-BuiltAt request now set resolved ready o d))
  Decided-DecidedBy now ready resolved a (inr (o, d, inr (r, p, e))) =
      let (good, at, rejects) = posture_reject-Rejects set request now r p in
      rw e (built-DecidedBy now r (good.shaped, at))

  deadline-DecidedBy :
      (now : Timestamp) (resolved : List ResolvedStart) (a : Option LiveWaitOutcome)
      → terminal_deadline set request now resolved ≡ a
      → Given (DecidedBy now.instant) a
  deadline-DecidedBy now resolved none e = tt
  deadline-DecidedBy now resolved (some o) e =
      built-DecidedBy now o (terminal_deadline-BuiltAt request now set resolved o e)

  -- The decision of a turn at the instant read, and what follows from it.
  decide_turn-Good :
      (now : Timestamp) (binds : List (ℕ × Bind)) (ready : List (ℕ × Observation))
      (resolved : List ResolvedStart) (k : Option LiveWaitOutcome → Exec W (Step (Loop Bind)))
      → ((a : Option LiveWaitOutcome)
          → Given (DecidedBy now.instant) a
          → Hoare (AtLeast now) (k a) Good)
      → Hoare (AtLeast now) (decide_and_restore rt set request now binds ready resolved >>= k) Good
  decide_turn-Good now binds ready resolved k h =
      hoare_bind (λ a w. Decided rt Any any_stable set request now ready resolved a × AtLeast now w)
        (decide_and_restore_lem rt (AtLeast now) (Since-Stable rt timed now.instant) set request now
          binds ready resolved)
        λ a. record { at = λ w (d, t). (h a (Decided-DecidedBy now ready resolved a d)).at w t }

  sleep_backoff-Any : (step : ℕ) → Keeps Any (sleep_backoff rt set request step)
  unfolding sleep_backoff
  sleep_backoff-Any step =
      hoare_bind (λ _. Any) (read_now (λ _. Any) (λ w. tt)) λ now. hoare_call _ _ (λ w h. tt)

  back_off-Good : (st : Loop Bind) → Hoare Any (back_off rt set request st) Good
  unfolding back_off
  back_off-Good st =
      hoare_bind (λ _. Any) (sleep_backoff-Any (next_step st.backoff_step))
        λ _.
          hoare_bind (λ _. Any) (hoare_call _ rt.is_cancelled (λ w h. tt))
            λ stop. hoare_if stop (λ _. give_cancelled-Good) λ _. hoare_pure Good _ (λ w h. tt)

  on_bound-Good :
      (binds : List Bind) (st : Loop Bind) (woken : Wake Observation)
      → Hoare Any (on_bound rt set request binds st woken) Good
  unfolding on_bound
  on_bound-Good binds st (collected out) = go out.error
    where
      go :
          (e : Option Error)
          → Hoare Any
              (elim e [
                | some e ↦ restore_owned rt (enumerate binds) out.ready >>= λ _. raise e
                | none ↦ extend_ready rt (enumerate binds) out.ready >>= λ ready.
                    call rt.now >>= λ now.
                    decide_and_restore rt set request now
                      (enumerate binds)
                      ready
                      (starts_from_binds rt binds)
                    >>= λ outcome. decided rt set request outcome (back_off rt set request st)
              ])
              Good
      go (some e) =
          hoare_bind (λ _. Any) (restore_owned-Keeps rt Any any_stable (enumerate binds) out.ready)
            λ _. hoare_raise Good e
      go none =
          hoare_bind (λ _. Any) (extend_ready-Keeps rt Any any_stable (enumerate binds) out.ready)
            λ ready. hoare_bind AtLeast reads λ now.
              decide_turn-Good now (enumerate binds) ready (starts_from_binds rt binds) _
                λ a d. decided-Good now.instant a _ d (back_off-Good st)
  on_bound-Good binds st (Wake.cancelled leftover) =
      hoare_bind (λ _. Any) (restore_owned-Keeps rt Any any_stable (enumerate binds) leftover)
        λ _. give_cancelled-Good
  on_bound-Good binds st (slept leftover) =
      let starts = starts_from_binds rt binds in
      hoare_bind AtLeast reads λ now.
        hoare_bind (λ _. AtLeast now)
          (restore_owned-Keeps rt (AtLeast now) (Since-Stable rt timed now.instant)
            (enumerate binds) leftover)
          λ _.
            hoare_bind (λ _. AtLeast now)
              (extend_ready-Keeps rt (AtLeast now) (Since-Stable rt timed now.instant)
                (enumerate binds) [])
              λ ready. decide_turn-Good now (enumerate binds) ready starts _ λ a d.
                hoare_pre (λ w h. tt)
                  (decided_at-Good now a _ d (
                    decided_at-Good now (terminal_deadline set request now starts) _
                      (deadline-DecidedBy now starts _ refl) (hoare_pure Good _ (λ w h. tt))))

  hold-Good :
      (indexed : List (ℕ × Bind)) (st : Loop Bind) → Hoare Any (hold rt set request indexed st) Good
  unfolding hold
  hold-Good indexed st =
      hoare_bind (λ _. Any) (sleep_backoff-Any (next_step st.backoff_step))
        λ _. hoare_pure Good _ (λ w h. tt)

  on_bind-Good :
      (st : Loop Bind) (woken : Wake (Bind × Observation))
      → Hoare Any (on_bind rt set request st woken) Good
  unfolding on_bind
  on_bind-Good st (collected out) = go out.error
    where
      indexed : List (ℕ × Bind)
      indexed = map (bind_of rt set request) out.ready

      starts : List ResolvedStart
      starts = starts_from_binds rt (map (second_bind rt) indexed)

      go :
          (e : Option Error)
          → Hoare Any
              (elim e [
                | some e ↦ restore_bound_pairs rt out.ready >>= λ _. raise e
                | none ↦
                    extend_ready rt indexed (map (obs_of rt set request) out.ready) >>= λ ready.
                    call rt.now >>= λ now.
                    decide_and_restore rt set request now indexed ready starts >>= λ outcome.
                    decided rt set request outcome (hold rt set request indexed st)
              ])
              Good
      go (some e) =
          hoare_bind (λ _. Any) (restore_bound_pairs-Keeps rt Any any_stable out.ready)
            λ _. hoare_raise Good e
      go none =
          hoare_bind (λ _. Any) (extend_ready-Keeps rt Any any_stable indexed _)
            λ ready. hoare_bind AtLeast reads λ now.
              decide_turn-Good now indexed ready starts _
                λ a d. decided-Good now.instant a _ d (hold-Good indexed st)
  on_bind-Good st (Wake.cancelled leftover) =
      hoare_bind (λ _. Any) (restore_bound_pairs-Keeps rt Any any_stable leftover)
        λ _. give_cancelled-Good
  on_bind-Good st (slept leftover) =
      hoare_bind (λ _. Any) (restore_bound_pairs-Keeps rt Any any_stable leftover)
        λ _.
          hoare_bind (λ _. Any) (read_now (λ _. Any) (λ w. tt))
            λ now.
              decided_at-Good now (terminal_deadline set request now st.resolved) _
                (deadline-DecidedBy now st.resolved _ refl) (hoare_pure Good _ (λ w h. tt))

  select_arm-Good : (st : Loop Bind) → Hoare Any (select_arm rt set request st) Good
  unfolding select_arm select_held select_unbound
  select_arm-Good st = go st.bound
    where
      go :
          (b : Option (List Bind))
          → Hoare Any
              (elim b [
                | some binds ↦ select_held rt set request binds st
                | none ↦ select_unbound rt set request st
              ])
              Good
      go (some binds) =
          hoare_bind (λ _. Any) (hoare_call _ _ (λ w h. tt)) λ woken. on_bound-Good binds st woken
      go none = hoare_bind (λ _. Any) (hoare_call _ _ (λ w h. tt)) λ woken. on_bind-Good _ woken.0

  iteration-Good : (st : Loop Bind) → Hoare Any (iteration rt set request st) Good
  unfolding iteration
  iteration-Good st =
      hoare_bind (λ _. Any) (hoare_call _ rt.is_cancelled (λ w h. tt))
        λ stop.
          hoare_if stop (λ _. give_cancelled-Good)
            λ _. hoare_bind AtLeast reads λ now.
              decided-Good now.instant _ _
                (deadline-DecidedBy now (known_starts rt set request st) _ refl)
                (select_arm-Good st)

  run_loop-Good :
      (fuel : ℕ) (st : Loop Bind)
      → Hoare Any (run_loop rt set request fuel st) (λ o w. Given (IsAdmissible set request) o)
  unfolding run_loop
  run_loop-Good zero st = hoare_pure _ none (λ w h. tt)
  run_loop-Good (suc fuel) st =
      hoare_bind Good (iteration-Good st) λ s. go (λ st'. run_loop-Good fuel st') s
    where
      go :
          ((st' : Loop Bind)
            → Hoare Any
                (run_loop rt set request fuel st')
                (λ o w. Given (IsAdmissible set request) o))
          → (s : Step (Loop Bind))
          → Hoare
              (Good s)
              (elim s [
                | return outcome ↦ pure (some outcome)
                | again st' ↦ run_loop rt set request fuel st'
              ])
              (λ o w. Given (IsAdmissible set request) o)
      go next (return o) = hoare_pure _ (some o) (λ w h. h)
      go next (again st') = next st'

  -- Whatever the observer, the select arms and the cancel token do, if logical time does not go
  -- back: an outcome that the runner returns has no lease expired at its completion time and the
  -- required receipt unless it is a refusal; is `no_change` only before the logical deadline and
  -- `logical_deadman` only from it on; is never `coverage_degraded`; and carries exactly one event
  -- if its kind is `events`, and none if it is neither that nor `partial`.
  pub run_first_match-IsAdmissible :
      (fuel : ℕ) (w : W) (o : LiveWaitOutcome) (w' : W)
      → run_first_match rt set request fuel w ≡ (ok (some o), w')
      → IsAdmissible set request o
  unfolding run_first_match
  run_first_match-IsAdmissible fuel w o w' e =
      subst (Ends {W = W} (λ (a : Option LiveWaitOutcome) _. Given (IsAdmissible set request) a)) e
        (run.at w tt)
    where
      run :
          Hoare Any
            (run_first_match rt set request fuel)
            (λ o w. Given (IsAdmissible set request) o)
      run =
          hoare_bind (λ _. Any) (hoare_lift _ (resolve set request) (λ a w h p. tt))
            λ _. run_loop-Good fuel (start_state rt set request)
