-- ===== src/Live/Runner/Frames.antt =====
-- crates/waitprims-async/src/first_match.rs: the custody calls, and what a call of the observer keeps.
use waitprims.Prelude.{
  ℕ, ◌≡◌, refl, not, ◌||◌, Option, none, some, List, [], ◌∷◌, any, find, ◌⊎◌, inl, inr,
}
use waitprims.Core.Time.{Timestamp}
use waitprims.Core.Messages.{RegistrationSet, LiveWaitRequest, LiveWaitOutcome}
use waitprims.Observer.{Observation, pure, is_replayable}
use waitprims.Observer.Hoare.{Hoare, Keeps, hoare_pure, hoare_call, hoare_if, hoare_bind}
use waitprims.Live.Outcome.{ResolvedStart}
use waitprims.Live.Decide.{decide, posture_reject}
use waitprims.Live.Runner.{
  Runtime, at_idx, is_idx, event_winner_idx, push_ready, extend_ready, restore_at, restore_owned,
  restore_bound_pairs, restore_except, restore_losers, settle, decide_and_restore,
}

-- One call at a time keeps `P`.
pub record Stable {W Bind : Type 0} (rt : Runtime W Bind) (P : W → Type 0) : Type 0 where
  pub polls : (b : Bind) (w : W) → P w → P (rt.poll_ready b w).1
  pub restores : (b : Bind) (obs : Observation) → Keeps P (rt.restore_ready b obs)

module _ {W Bind : Type 0} (rt : Runtime W Bind) (P : W → Type 0) (s : Stable rt P) where
  pub extend_ready-Keeps :
      (binds : List (ℕ × Bind)) (ready : List (ℕ × Observation))
      → Keeps P (extend_ready rt binds ready)
  unfolding extend_ready
  extend_ready-Keeps [] ready = hoare_pure _ ready (λ w p. p)
  extend_ready-Keeps ((idx, bind) ∷ binds) ready =
      hoare_if (any (at_idx idx) ready) (λ _. extend_ready-Keeps binds ready)
        λ _.
          hoare_bind (λ _. P) (hoare_call _ (rt.poll_ready bind) (λ w p. s.polls bind w p))
            λ obs. extend_ready-Keeps binds (push_ready rt idx obs ready)

  restore_at-Keeps : (o : Option (ℕ × Bind)) (obs : Observation) → Keeps P (restore_at rt o obs)
  unfolding restore_at
  restore_at-Keeps none obs = hoare_pure _ tt (λ w p. p)
  restore_at-Keeps (some (idx, bind)) obs = s.restores bind obs

  pub restore_owned-Keeps :
      (binds : List (ℕ × Bind)) (ready : List (ℕ × Observation))
      → Keeps P (restore_owned rt binds ready)
  unfolding restore_owned
  restore_owned-Keeps binds [] = hoare_pure _ tt (λ w p. p)
  restore_owned-Keeps binds ((idx, obs) ∷ ready) =
      hoare_if (not (is_replayable obs)) (λ _. restore_owned-Keeps binds ready)
        λ _.
          hoare_bind (λ _. P) (restore_at-Keeps (find (at_idx idx) binds) obs)
            λ _. restore_owned-Keeps binds ready

  pub restore_bound_pairs-Keeps :
      (ready : List (ℕ × (Bind × Observation))) → Keeps P (restore_bound_pairs rt ready)
  unfolding restore_bound_pairs
  restore_bound_pairs-Keeps [] = hoare_pure _ tt (λ w p. p)
  restore_bound_pairs-Keeps ((idx, (bind, obs)) ∷ ready) =
      hoare_if (is_replayable obs)
        (λ _. hoare_bind (λ _. P) (s.restores bind obs) λ _. restore_bound_pairs-Keeps ready)
        λ _. restore_bound_pairs-Keeps ready

  restore_except-Keeps :
      (winner : Option ℕ) (binds : List (ℕ × Bind)) (ready : List (ℕ × Observation))
      → Keeps P (restore_except rt winner binds ready)
  unfolding restore_except
  restore_except-Keeps winner binds [] = hoare_pure _ tt (λ w p. p)
  restore_except-Keeps winner binds ((idx, obs) ∷ ready) =
      hoare_if (is_idx idx winner || not (is_replayable obs))
        (λ _. restore_except-Keeps winner binds ready)
        λ _.
          hoare_bind (λ _. P) (restore_at-Keeps (find (at_idx idx) binds) obs)
            λ _. restore_except-Keeps winner binds ready

  pub restore_losers-Keeps :
      (binds : List (ℕ × Bind)) (ready : List (ℕ × Observation))
      → Keeps P (restore_losers rt binds ready)
  unfolding restore_losers
  restore_losers-Keeps binds ready = restore_except-Keeps (event_winner_idx ready) binds ready

  module _ (set : RegistrationSet) (request : LiveWaitRequest) (now : Timestamp) where
    -- The answer is that of `decide` or, over it, that of the posture check at the same instant.
    abbrev pub Decided :
        List (ℕ × Observation) → List ResolvedStart → Option LiveWaitOutcome → Type 0
    Decided ready resolved answer =
        ((decide set request now ready resolved ≡ none) × (answer ≡ none))
        ⊎ ((o : LiveWaitOutcome) × (decide set request now ready resolved ≡ some o)
            × (((posture_reject set request now ≡ none) × (answer ≡ some o))
                ⊎ ((r : LiveWaitOutcome) × (posture_reject set request now ≡ some r)
                    × (answer ≡ some r))))

    settle_lem :
        (binds : List (ℕ × Bind)) (ready : List (ℕ × Observation)) (resolved : List ResolvedStart)
        (o : LiveWaitOutcome)
        → decide set request now ready resolved ≡ some o
        → (answer : Option LiveWaitOutcome) → posture_reject set request now ≡ answer
        → Hoare P
            (settle rt set request binds ready o answer)
            (λ a w. Decided ready resolved a × P w)
    unfolding settle
    settle_lem binds ready resolved o d none e =
        hoare_bind (λ _. P) (restore_losers-Keeps binds ready)
          λ _. hoare_pure _ (some o) (λ w p. (inr (o, d, inl (e, refl)), p))
    settle_lem binds ready resolved o d (some r) e =
        hoare_bind (λ _. P) (restore_owned-Keeps binds ready)
          λ _. hoare_pure _ (some r) (λ w p. (inr (o, d, inr (r, e, refl)), p))

    pub decide_and_restore_lem :
        (binds : List (ℕ × Bind)) (ready : List (ℕ × Observation)) (resolved : List ResolvedStart)
        → Hoare P
            (decide_and_restore rt set request now binds ready resolved)
            (λ a w. Decided ready resolved a × P w)
    unfolding decide_and_restore
    decide_and_restore_lem binds ready resolved = go (decide set request now ready resolved) refl
      where
        go :
            (d : Option LiveWaitOutcome)
            → decide set request now ready resolved ≡ d
            → Hoare P
                (elim d [
                  | none ↦ pure none
                  | some outcome ↦
                      settle rt set request binds ready outcome (posture_reject set request now)
                ])
                (λ a w. Decided ready resolved a × P w)
        go none e = hoare_pure _ none (λ w p. (inl (e, refl), p))
        go (some o) e = settle_lem binds ready resolved o e (posture_reject set request now) refl
