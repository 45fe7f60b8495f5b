-- ===== src/Live/Runner/Returns.antt =====
-- crates/waitprims-async/src/first_match.rs: the rounds from the earlier deadline on.
use mathlib.Core.Path.{subst}
use waitprims.Prelude.{ℕ, suc, ◌≤◌, ◌≢◌, refl, Option, none, some, List, arith}
use waitprims.Core.Error.{ok}
use waitprims.Core.Time.{Timestamp}
use waitprims.Core.Messages.{RegistrationSet, LiveWaitRequest, LiveWaitOutcome}
use waitprims.Observer.{pure}
use waitprims.Observer.Hoare.{Hoare, Ends, hoare_pure, hoare_call, hoare_if, hoare_bind}
use waitprims.Live.Outcome.{ResolvedStart}
use waitprims.Live.Decide.{terminal_deadline, earliest_deadline}
use waitprims.Live.Runner.{
  Runtime, Step, return, again, Loop, give_cancelled, give, decided, select_arm, known_starts,
  iteration, run_loop,
}
use waitprims.Live.Runner.Timed.{Timed, Since}

-- A deadline that was reached ends the wait.
terminal_deadline-some :
    (set : RegistrationSet) (request : LiveWaitRequest) (now : Timestamp)
    (starts : List ResolvedStart)
    → (earliest_deadline request).instant ≤ now.instant
    → terminal_deadline set request now starts ≢ none
unfolding terminal_deadline earliest_deadline
terminal_deadline-some set request now starts h e = ground (arith, h, e)

module _ {W Bind : Type 0} (rt : Runtime W Bind) (timed : Timed rt) (set : RegistrationSet)
    (request : LiveWaitRequest) where
  abbrev IsLast : Step (Loop Bind) → Type 0
  IsLast (return o) = Unit
  IsLast (again st) = ⊥

  abbrev Due : W → Type 0
  Due = Since rt timed (earliest_deadline request).instant

  give-IsLast :
      {P : W → Type 0} (o : LiveWaitOutcome) → Hoare P (give rt set request o) (λ s w. IsLast s)
  unfolding give
  give-IsLast o =
      hoare_bind (λ a w. Unit) (hoare_call _ rt.now (λ w h. tt)) λ now. hoare_pure _ _ (λ w h. tt)

  give_cancelled-IsLast :
      {P : W → Type 0} → Hoare P (give_cancelled rt set request) (λ s w. IsLast s)
  unfolding give_cancelled
  give_cancelled-IsLast =
      hoare_bind (λ a w. Unit) (hoare_call _ rt.now (λ w h. tt))
        λ now.
          hoare_bind (λ a w. Unit) (hoare_call _ rt.now (λ w h. tt))
            λ at. hoare_pure _ _ (λ w h. tt)

  iteration-IsLast : (st : Loop Bind) → Hoare Due (iteration rt set request st) (λ s w. IsLast s)
  unfolding iteration decided
  iteration-IsLast st =
      hoare_bind (λ a. Due) (hoare_call _ rt.is_cancelled (λ w h. omega (arith, h, timed.asks w)))
        λ stop.
          hoare_if stop (λ x. give_cancelled-IsLast)
            λ x.
              hoare_bind (λ now w. (earliest_deadline request).instant ≤ now.instant)
                (hoare_call _ rt.now (λ w h. omega (arith, h, timed.now_after w)))
                λ now. record {
                  at = λ w h.
                      (go (terminal_deadline set request now (known_starts rt set request st)) (
                          terminal_deadline-some set request now (known_starts rt set request st)
                            h)).at
                        w tt;
                }
    where
      go :
          (o : Option LiveWaitOutcome)
          → o ≢ none
          → Hoare
              (λ w. Unit)
              (decided rt set request o (select_arm rt set request st))
              (λ s w. IsLast s)
      go none h = absurd (h refl)
      go (some o) h = give-IsLast o

  -- Where logical time does not go back and has reached the earlier of the two deadlines, one
  -- round is enough: the loop does not run out of fuel.
  pub run_loop-Returns :
      (fuel : ℕ) (st : Loop Bind) (w w' : W)
      → (earliest_deadline request).instant ≤ timed.time w
      → run_loop rt set request (suc fuel) st w ≢ (ok none, w')
  unfolding run_loop
  run_loop-Returns fuel st w w' due e =
      subst (Ends {W = W} (λ (o : Option LiveWaitOutcome) _. o ≢ none)) e (run.at w due) refl
    where
      last :
          (s : Step (Loop Bind))
          → Hoare {W = W} {A = Option LiveWaitOutcome}
              (λ w. IsLast s)
              (elim s [
                | return outcome ↦ pure (some outcome)
                | again st' ↦ run_loop rt set request fuel st'
              ])
              (λ o w. o ≢ none)
      last (return o) = hoare_pure _ (some o) (λ w h f. cc)
      last (again st') = record { at = λ w h. absurd h }

      run : Hoare Due (run_loop rt set request (suc fuel) st) (λ o w. o ≢ none)
      run = hoare_bind (λ s w. IsLast s) (iteration-IsLast st) last
