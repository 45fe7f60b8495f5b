-- ===== src/Live/Ties.antt =====
-- The tie rule of crates/waitprims-async/src/first_match.rs (`TIE_RULE`), against a description
-- of the ready arms that does not scan them for a minimum.
use waitprims.Prelude.{
  ℕ, ◌≤◌, ◌<◌, ◌≡◌, refl, ap, ◌↔◌, Bool, true, false, Option, none, some, List, [], ◌∷◌, ◌++◌, any,
  All, if◌then◌else◌, arith,
}
use waitprims.Core.Time.{Timestamp}
use waitprims.Core.Types.{WaitEvent}
use waitprims.Core.Messages.{RegistrationSet, LiveWaitRequest}
use waitprims.Observer.{Observation, is_terminal}
use waitprims.Live.Outcome.{ResolvedStart, events, partial}
use waitprims.Live.Decide.{
  Tally, tally, lower, min_by_idx, the_event, overflow_outcome, plain_outcome, decide,
}

abbrev pub is_overflow : ℕ × Observation → Bool
is_overflow (idx, Observation.overflow) = true
is_overflow (idx, obs) = false

-- An event of an arm after, or from, the arm i.
abbrev pub EventAfter : ℕ → ℕ × Observation → Type 0
EventAfter i (j, Observation.event e) = i < j
EventAfter i (j, obs) = Unit

abbrev pub EventFrom : ℕ → ℕ × Observation → Type 0
EventFrom i (j, Observation.event e) = i ≤ j
EventFrom i (j, obs) = Unit

abbrev pub Quiet : ℕ × Observation → Type 0
Quiet (j, obs) = is_terminal obs ≡ false

overflow-tally : (ready : List (ℕ × Observation)) → (tally ready).overflow ≡ any is_overflow ready
unfolding tally
overflow-tally [] = refl
overflow-tally ((i, Observation.event e) ∷ ready) = overflow-tally ready
overflow-tally ((i, Observation.idle) ∷ ready) = overflow-tally ready
overflow-tally ((i, Observation.overflow) ∷ ready) = refl
overflow-tally ((i, Observation.failed r) ∷ ready) = overflow-tally ready
overflow-tally ((i, Observation.outage r) ∷ ready) = overflow-tally ready
overflow-tally ((i, Observation.cursor_uncertain r) ∷ ready) = overflow-tally ready
overflow-tally ((i, Observation.degraded r) ∷ ready) = overflow-tally ready

-- Nothing below i among the later arms.
abbrev NotBelow : ℕ → Option (ℕ × WaitEvent) → Type 0
NotBelow i none = Unit
NotBelow i (some (j, e)) = i ≤ j

lower-NotBelow :
    (i j : ℕ) (e : WaitEvent) (o : Option (ℕ × WaitEvent))
    → i ≤ j
    → NotBelow i o
    → NotBelow i (some (lower (j, e) o))
lower-NotBelow i j e none h k = h
lower-NotBelow i j e (some (l, f)) h k = ground arith

events-NotBelow :
    (i : ℕ) (post : List (ℕ × Observation))
    → All (EventFrom i) post
    → NotBelow i (min_by_idx (tally post).events)
unfolding tally min_by_idx
events-NotBelow i [] h = tt
events-NotBelow i ((j, Observation.event e) ∷ post) h =
    lower-NotBelow i j e (min_by_idx (tally post).events) h.0 (events-NotBelow i post h.1)
events-NotBelow i ((j, Observation.idle) ∷ post) h = events-NotBelow i post h.1
events-NotBelow i ((j, Observation.overflow) ∷ post) h = events-NotBelow i post h.1
events-NotBelow i ((j, Observation.failed r) ∷ post) h = events-NotBelow i post h.1
events-NotBelow i ((j, Observation.outage r) ∷ post) h = events-NotBelow i post h.1
events-NotBelow i ((j, Observation.cursor_uncertain r) ∷ post) h = events-NotBelow i post h.1
events-NotBelow i ((j, Observation.degraded r) ∷ post) h = events-NotBelow i post h.1

some_if {ℓ} :
    {A : Type ℓ} (x y : A) (b : Bool) → (if b then some x else some y) ≡ some (if b then x else y)
some_if x y true = refl
some_if x y false = refl

lower_first :
    (i : ℕ) (e : WaitEvent) (o : Option (ℕ × WaitEvent)) → NotBelow i o → lower (i, e) o ≡ (i, e)
lower_first i e none h = refl
lower_first i e (some (j, f)) h = ground arith

module _ (i : ℕ) (e : WaitEvent) (post : List (ℕ × Observation))
    (from : All (EventFrom i) post) where
  min_by_idx-tally :
      (pre : List (ℕ × Observation))
      → All (EventAfter i) pre
      → min_by_idx (tally (pre ++ (i, Observation.event e) ∷ post)).events ≡ some (i, e)
  unfolding tally min_by_idx
  min_by_idx-tally [] h =
      ap some (lower_first i e (min_by_idx (tally post).events) (events-NotBelow i post from))
  min_by_idx-tally ((j, Observation.event f) ∷ pre) h = rw (min_by_idx-tally pre h.1) (ground arith)
  min_by_idx-tally ((j, Observation.idle) ∷ pre) h = min_by_idx-tally pre h.1
  min_by_idx-tally ((j, Observation.overflow) ∷ pre) h = min_by_idx-tally pre h.1
  min_by_idx-tally ((j, Observation.failed r) ∷ pre) h = min_by_idx-tally pre h.1
  min_by_idx-tally ((j, Observation.outage r) ∷ pre) h = min_by_idx-tally pre h.1
  min_by_idx-tally ((j, Observation.cursor_uncertain r) ∷ pre) h = min_by_idx-tally pre h.1
  min_by_idx-tally ((j, Observation.degraded r) ∷ pre) h = min_by_idx-tally pre h.1

  -- Where an arm i has an event, the arms listed before it have none at i or lower, and those
  -- listed after it none lower, the decision is that event: alone, whatever else failed, or as a
  -- partial outcome if some arm overflowed.
  pub decide_tie :
      (pre : List (ℕ × Observation)) (set : RegistrationSet) (request : LiveWaitRequest)
      (now : Timestamp) (resolved : List ResolvedStart)
      → All (EventAfter i) pre
      → decide set request now (pre ++ (i, Observation.event e) ∷ post) resolved
        ≡ some (
            if any is_overflow (pre ++ (i, Observation.event e) ∷ post)
            then partial set request now (some e) resolved
            else events request now e)
  unfolding decide overflow_outcome plain_outcome
  decide_tie pre set request now resolved h =
      rw (min_by_idx-tally pre h, overflow-tally (pre ++ (i, Observation.event e) ∷ post))
        (some_if _ _ (any is_overflow (pre ++ (i, Observation.event e) ∷ post)))

-- A tally in which nothing was found.
abbrev IsBare : Tally → Type 0
IsBare t = (t.overflow ≡ false) × (t.failed ≡ none) × (t.events ≡ [])

tally-Quiet : (ready : List (ℕ × Observation)) → All Quiet ready → IsBare (tally ready)
unfolding tally
tally-Quiet [] h = (refl, refl, refl)
tally-Quiet ((i, Observation.idle) ∷ ready) h = tally-Quiet ready h.1
tally-Quiet ((i, Observation.event e) ∷ ready) h = cc (h.0)
tally-Quiet ((i, Observation.overflow) ∷ ready) h = cc (h.0)
tally-Quiet ((i, Observation.failed r) ∷ ready) h = cc (h.0)
tally-Quiet ((i, Observation.outage r) ∷ ready) h = cc (h.0)
tally-Quiet ((i, Observation.cursor_uncertain r) ∷ ready) h = cc (h.0)
tally-Quiet ((i, Observation.degraded r) ∷ ready) h = cc (h.0)

Quiet-tally : (ready : List (ℕ × Observation)) → IsBare (tally ready) → All Quiet ready
unfolding tally
Quiet-tally [] h = tt
Quiet-tally ((i, Observation.idle) ∷ ready) h = (refl, Quiet-tally ready h)
Quiet-tally ((i, Observation.event e) ∷ ready) h = cc (h.2)
Quiet-tally ((i, Observation.overflow) ∷ ready) h = cc (h.0)
Quiet-tally ((i, Observation.failed r) ∷ ready) h = ground arith
Quiet-tally ((i, Observation.outage r) ∷ ready) h = ground arith
Quiet-tally ((i, Observation.cursor_uncertain r) ∷ ready) h = ground arith
Quiet-tally ((i, Observation.degraded r) ∷ ready) h = ground arith

module _ (set : RegistrationSet) (request : LiveWaitRequest) (now : Timestamp)
    (resolved : List ResolvedStart) where
  bare :
      (t : Tally)
      → IsBare t
      → (if t.overflow
          then some (overflow_outcome set request now (the_event (min_by_idx t.events)) resolved)
          else plain_outcome set request now t.failed (the_event (min_by_idx t.events)))
        ≡ none
  unfolding overflow_outcome plain_outcome min_by_idx
  bare t (a, b, c) = rw (a, b, c)

  unbare :
      (t : Tally)
      → (if t.overflow
          then some (overflow_outcome set request now (the_event (min_by_idx t.events)) resolved)
          else plain_outcome set request now t.failed (the_event (min_by_idx t.events)))
        ≡ none
      → IsBare t
  unfolding overflow_outcome plain_outcome min_by_idx
  unbare t h = ground arith

  -- The decision waits exactly when every ready arm is idle.
  pub decide_waits :
      (ready : List (ℕ × Observation))
      → (decide set request now ready resolved ≡ none) ↔ All Quiet ready
  unfolding decide
  decide_waits ready = (
    λ h. Quiet-tally ready (unbare (tally ready) h),
    λ h. bare (tally ready) (tally-Quiet ready h),
  )
