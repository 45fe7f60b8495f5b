-- ===== src/Poll/Visit/Measured.antt =====
-- crates/waitprims-async/src/poll_cycle.rs: the budget in `record_ready`.
use mathlib.Core.Path.{subst}
use waitprims.Prelude.{
  ℕ, ◌+◌, ◌≡◌, refl, false, ◌&&◌, Option, none, some, List, [], ◌∷◌, arith, lookup, insert, remove,
  ℕ_key, ℕ_eq,
}
use waitprims.Core.Error.{ok}
use waitprims.Core.Messages.{RegistrationSet, PollCycleRequest}
use waitprims.Observer.{Observation, Observer, pure}
use waitprims.Observer.Hoare.{Ends, hoare_pure, hoare_if, hoare_bind}
use waitprims.Poll.Budget.{CollectBudget, exhausted}
use waitprims.Poll.Budget.Gauge.{Gauge}
use waitprims.Poll.Fairness.{fairness_order}
use waitprims.Poll.Visit.{
  ArmVisit, Visits, bind_at, is_some, visit_events, is_event, Round, gather, visit_ready, visit_idx,
  visit_all, restore_rest, record_ready,
}
use waitprims.Poll.Visit.Charged.{
  load, total, total-insert, Measured, Free, free, then_pure, OneFrom, empty_handed,
  visit_from-Measured, defer_ready-Empty,
}

module _ {W Bind : Type 0} (observer : Observer W Bind) (g : Gauge) where
  abbrev RoundMeasured : Round → Type 0
  RoundMeasured r = Measured g r.budget (total g r.visits)

  added :
      (r : Round) (idx : ℕ) (v : ArmVisit) (budget : CollectBudget)
      → lookup idx r.visits ≡ none
      → Measured g budget (total g r.visits + load g (visit_events v))
      → Measured g budget (total g (insert idx v r.visits))
  added r idx v budget fresh m = record {
    limits = m.limits;
    charged = omega (arith, m.charged, total-insert g idx v r.visits fresh);
  }

  visit_ready-Measured :
      (bind : Option Bind) (idx : ℕ) (obs : Observation) (r : Round)
      → lookup idx r.visits ≡ none
      → RoundMeasured r
      → Free observer g (visit_ready observer bind idx obs r) RoundMeasured
  unfolding visit_ready
  visit_ready-Measured bind idx obs r fresh m =
      hoare_if (exhausted r.budget && is_event obs)
        (λ x.
          hoare_bind (λ v w. visit_events v ≡ []) (defer_ready-Empty observer g bind obs)
            λ v. hoare_pure _ _ λ w none_held.
              added r idx v r.budget fresh
                (rw none_held (empty_handed observer g (total g r.visits) r.budget m)))
        λ x.
          hoare_bind (λ d w. OneFrom observer g (total g r.visits) d)
            (visit_from-Measured observer g (total g r.visits) bind r.budget obs m)
            λ d. hoare_pure _ _ λ w q. added r idx d.0 d.1 fresh q

  unvisited : (o : Option ArmVisit) → is_some o ≡ false → o ≡ none
  unvisited none h = refl
  unvisited (some v) h = cc

  visit_idx-Measured :
      (binds : List (Option Bind)) (idx : ℕ) (r : Round)
      → RoundMeasured r
      → Free observer g (visit_idx observer binds idx r) RoundMeasured
  unfolding visit_idx
  visit_idx-Measured binds idx r m =
      hoare_if (is_some (lookup idx r.visits)) (λ x. hoare_pure _ r (λ w h. m))
        λ x. waiting (unvisited (lookup idx r.visits) x) (lookup idx r.ready)
    where
      waiting :
          lookup idx r.visits ≡ none
          → (o : Option Observation)
          → Free observer g
              (elim o [
                | none ↦ pure r
                | some obs ↦
                    visit_ready observer
                      (bind_at binds idx)
                      idx
                      obs
                      (record r { ready = remove idx r.ready })
              ])
              RoundMeasured
      waiting fresh none = hoare_pure _ r (λ w h. m)
      waiting fresh (some obs) =
          visit_ready-Measured (bind_at binds idx) idx obs (record r { ready = remove idx r.ready })
            fresh m

  visit_all-Measured :
      (binds : List (Option Bind)) (order : List ℕ) (r : Round)
      → RoundMeasured r
      → Free observer g (visit_all observer binds order r) RoundMeasured
  unfolding visit_all
  visit_all-Measured binds [] r m = hoare_pure _ r (λ w h. m)
  visit_all-Measured binds (idx ∷ order) r m = record {
    at = λ w h.
        (hoare_bind (λ r' w. RoundMeasured r') (visit_idx-Measured binds idx r m)
            λ r'. record { at = λ w' m'. (visit_all-Measured binds order r' m').at w' tt }).at
          w h;
  }

  pub record_ready-Free :
      (set : RegistrationSet) (request : PollCycleRequest) (binds : List (Option Bind))
      (budget : CollectBudget) (visits : Visits) (ready : List (ℕ × Observation))
      → Measured g budget (total g visits)
      → Free observer g
          (record_ready observer set request binds budget visits ready)
          (λ done. Measured g done.0 (total g done.1))
  unfolding record_ready
  record_ready-Free set request binds budget visits ready m =
      hoare_bind (λ a w. Unit) (free observer g (gather observer binds [] ready))
        λ ready_map.
          hoare_bind (λ r w. RoundMeasured r)
            (visit_all-Measured binds (fairness_order set request)
              (record { budget = budget; visits = visits; ready = ready_map }) m)
            λ r. record {
              at = λ w m'.
                  (then_pure observer g {Q = λ done. Measured g done.0 (total g done.1)}
                      (restore_rest observer binds r.ready) (r.budget, r.visits) m').at
                    w tt;
            }

  -- Whatever the observer answers, a round that returns leaves a budget within its limits, which
  -- was charged exactly what the admitted events of all visits weigh, if it was so before: for
  -- each of the counts of events, of bytes and of the events of one registration.
  pub record_ready-Measured :
      (set : RegistrationSet) (request : PollCycleRequest) (binds : List (Option Bind))
      (budget : CollectBudget) (visits : Visits) (ready : List (ℕ × Observation)) (w : W)
      (budget' : CollectBudget) (visits' : Visits) (w' : W)
      → Measured g budget (total g visits)
      → record_ready observer set request binds budget visits ready w ≡ (ok (budget', visits'), w')
      → Measured g budget' (total g visits')
  record_ready-Measured set request binds budget visits ready w budget' visits' w' m e =
      subst (Ends {W = W} (λ (done : CollectBudget × Visits) _. Measured g done.0 (total g done.1)))
        e ((record_ready-Free set request binds budget visits ready m).at w tt)
