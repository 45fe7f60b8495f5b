-- ===== src/Live/Runner/Custody/Back.antt =====
-- What the restoring calls of crates/waitprims-async/src/first_match.rs put back.
use mathlib.Core.List.{Perm, perm_middle, append-nil, append_assoc}
use mathlib.Core.List.Perm
use mathlib.Core.Path.{subst}
use waitprims.Prelude.{
  ℕ, ◌≡◌, refl, sym, ap, ◌∙◌, Bool, true, false, ◌||◌, Option, none, some, List, [], ◌∷◌, ◌++◌,
  find, All, if◌then◌else◌, ℕ_eq,
}
use waitprims.Core.Error.{Result, ok, err}
use waitprims.Core.Types.{WaitEvent}
use waitprims.Observer.{Observation, Exec, ◌>>=◌}
use waitprims.Observer.Hoare.{Hoare, Ends, hoare_pure, hoare_bind}
use waitprims.Live.Decide.{tally}
use waitprims.Live.Runner.{Runtime, at_idx, is_idx, restore_at, restore_owned, restore_except}
use waitprims.Live.Runner.Custody.Least.{bare, except}

-- The observer's record of what was put back, the latest first.
pub record Ledger {W Bind : Type 0} (rt : Runtime W Bind) : Type 0 where
  pub held : W → List (Bind × Observation)
  pub put :
      (b : Bind) (obs : Observation) (w w' : W)
      → rt.restore_ready b obs w ≡ (ok tt, w')
      → held w' ≡ (b, obs) ∷ held w

-- The events among what was put back.
abbrev pub events_back : {Bind : Type 0} → List (Bind × Observation) → List WaitEvent
events_back [] = []
events_back ((b, Observation.event e) ∷ rest) = e ∷ events_back rest
events_back (_ ∷ rest) = events_back rest

-- The arm of each event has its bind at hand.
abbrev pub Reachable : {Bind : Type 0} → List (ℕ × Bind) → ℕ × WaitEvent → Type 0
Reachable {Bind} binds (i, e) = (b : ℕ × Bind) × (find (at_idx i) binds ≡ some b)

events_back-append :
    {Bind : Type 0} (xs ys : List (Bind × Observation))
    → events_back (xs ++ ys) ≡ events_back xs ++ events_back ys
events_back-append [] ys = refl
events_back-append ((b, Observation.event e) ∷ xs) ys = ap (λ r. e ∷ r) (events_back-append xs ys)
events_back-append ((b, Observation.idle) ∷ xs) ys = events_back-append xs ys
events_back-append ((b, Observation.overflow) ∷ xs) ys = events_back-append xs ys
events_back-append ((b, Observation.failed r) ∷ xs) ys = events_back-append xs ys
events_back-append ((b, Observation.outage r) ∷ xs) ys = events_back-append xs ys
events_back-append ((b, Observation.cursor_uncertain r) ∷ xs) ys = events_back-append xs ys
events_back-append ((b, Observation.degraded r) ∷ xs) ys = events_back-append xs ys

module _ {W Bind : Type 0} (rt : Runtime W Bind) (ledger : Ledger rt) where
  -- Since the world w, exactly the events es went back.
  pub record WentBack (old : List (Bind × Observation)) (es : List WaitEvent) (w : W) : Type 0 where
    pub back : List (Bind × Observation)
    pub grown : ledger.held w ≡ back ++ old
    pub same : Perm es (events_back back)

  abbrev pub Holds : List (Bind × Observation) → W → Type 0
  Holds old w = ledger.held w ≡ old

  restore_ready-Holds :
      (old : List (Bind × Observation)) (b : Bind) (obs : Observation)
      → Hoare (Holds old) (rt.restore_ready b obs) (λ u. Holds ((b, obs) ∷ old))
  restore_ready-Holds old b obs = record { at = λ w h. go w h (rt.restore_ready b obs w) refl }
    where
      go :
          (w : W)
          → Holds old w
          → (r : Result (Unit {0}) × W) → rt.restore_ready b obs w ≡ r
          → Ends (λ u. Holds ((b, obs) ∷ old)) r
      go w h (ok tt, w') e = rw (ledger.put b obs w w' e, h)
      go w h (err x, w') e = tt

  nothing_back : (old : List (Bind × Observation)) (w : W) → Holds old w → WentBack old [] w
  nothing_back old w h = record { back = []; grown = h; same = Perm.nil }

  -- One event goes back first, and then the others do.
  one_more :
      (old : List (Bind × Observation)) (b : Bind) (e : WaitEvent) (es : List WaitEvent) (w : W)
      → WentBack ((b, Observation.event e) ∷ old) es w
      → WentBack old (e ∷ es) w
  one_more old b e es w wb = record {
    back = wb.back ++ (b, Observation.event e) ∷ [];
    grown = wb.grown ∙ sym (append_assoc wb.back ((b, Observation.event e) ∷ []) old);
    same = rw (events_back-append wb.back ((b, Observation.event e) ∷ [])) (
        Perm.trans (Perm.cons e wb.same) (
          Perm.symm (
            subst (λ r. Perm (events_back wb.back ++ e ∷ []) (e ∷ r))
              (append-nil (events_back wb.back)) (perm_middle (events_back wb.back) []))));
  }

  -- The rest of a restore loop, and what it is owed.
  abbrev Owes :
      List (Bind × Observation) → Option ℕ → List (ℕ × Bind) → List (ℕ × Observation) → Type 0
  Owes old winner binds ready =
      Hoare (Holds old) (restore_except rt winner binds ready)
        (λ u. WentBack old (bare (except winner (tally ready).events)))

  put_back :
      (old : List (Bind × Observation)) (e : WaitEvent) (es : List WaitEvent)
      (o : Option (ℕ × Bind)) (b : ℕ × Bind) (rest : Exec W (Unit {0}))
      → o ≡ some b
      → ((old : List (Bind × Observation)) → Hoare (Holds old) rest (λ u. WentBack old es))
      → Hoare
          (Holds old)
          (restore_at rt o (Observation.event e) >>= λ _. rest)
          (λ u. WentBack old (e ∷ es))
  unfolding restore_at
  put_back old e es none b rest h k = cc
  put_back old e es (some (i, b)) b' rest h k =
      hoare_bind (λ u. Holds ((b, Observation.event e) ∷ old))
        (restore_ready-Holds old b (Observation.event e))
        λ u. record {
          at = λ w p.
              ends_map (one_more old b e es) (rest w) ((k ((b, Observation.event e) ∷ old)).at w p);
        }
    where
      ends_map :
          {P Q : W → Type 0}
          → ((w : W) → P w → Q w)
          → (r : Result (Unit {0}) × W) → Ends (λ u. P) r
          → Ends (λ u. Q) r
      ends_map f (ok a, w) p = f w p
      ends_map f (err x, w) p = tt

  skip_signal :
      (old : List (Bind × Observation)) (b : Bool) (m n : Exec W (Unit {0})) (es : List WaitEvent)
      → Hoare (Holds old) m (λ u. WentBack old es)
      → Hoare (Holds old) (if b || true then m else n) (λ u. WentBack old es)
  skip_signal old true m n es h = h
  skip_signal old false m n es h = h

  pub restore_except-WentBack :
      (old : List (Bind × Observation)) (winner : Option ℕ) (binds : List (ℕ × Bind))
      (ready : List (ℕ × Observation))
      → All (Reachable binds) (tally ready).events
      → Owes old winner binds ready
  unfolding restore_except tally except
  restore_except-WentBack old winner binds [] r = hoare_pure _ tt (nothing_back old)
  restore_except-WentBack old winner binds ((i, Observation.event e) ∷ ready) r =
      go (is_idx i winner) (λ old. restore_except-WentBack old winner binds ready r.1)
    where
      es : List WaitEvent
      es = bare (except winner (tally ready).events)

      go :
          (b : Bool)
          → ((old : List (Bind × Observation)) → Owes old winner binds ready)
          → Hoare
              (Holds old)
              (if b || false
                then restore_except rt winner binds ready
                else (restore_at rt (find (at_idx i) binds) (Observation.event e) >>= λ _.
                    restore_except rt winner binds ready))
              (λ u. WentBack old (
                bare (
                  if b
                  then except winner (tally ready).events
                  else (i, e) ∷ except winner (tally ready).events)))
      go true k = k old
      go false k = put_back old e es (find (at_idx i) binds) r.0.0 _ r.0.1 k
  restore_except-WentBack old winner binds ((i, Observation.idle) ∷ ready) r =
      skip_signal old (is_idx i winner) _ _ _ (restore_except-WentBack old winner binds ready r)
  restore_except-WentBack old winner binds ((i, Observation.overflow) ∷ ready) r =
      skip_signal old (is_idx i winner) _ _ _ (restore_except-WentBack old winner binds ready r)
  restore_except-WentBack old winner binds ((i, Observation.failed x) ∷ ready) r =
      skip_signal old (is_idx i winner) _ _ _ (restore_except-WentBack old winner binds ready r)
  restore_except-WentBack old winner binds ((i, Observation.outage x) ∷ ready) r =
      skip_signal old (is_idx i winner) _ _ _ (restore_except-WentBack old winner binds ready r)
  restore_except-WentBack old winner binds ((i, Observation.cursor_uncertain x) ∷ ready) r =
      skip_signal old (is_idx i winner) _ _ _ (restore_except-WentBack old winner binds ready r)
  restore_except-WentBack old winner binds ((i, Observation.degraded x) ∷ ready) r =
      skip_signal old (is_idx i winner) _ _ _ (restore_except-WentBack old winner binds ready r)

  -- Restoring all is restoring all but no one.
  pub restore_owned-except :
      (binds : List (ℕ × Bind)) (ready : List (ℕ × Observation))
      → restore_owned rt binds ready ≡ restore_except rt none binds ready
  unfolding restore_owned restore_except
  restore_owned-except binds [] = refl
  restore_owned-except binds ((i, obs) ∷ ready) = rw (restore_owned-except binds ready)
